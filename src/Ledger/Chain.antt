-- ===== src/Ledger/Chain.antt =====
-- The chain that a single ledger object writes.
use rfsn_agent_full.Base.{
  Bool-cases, str_eq_of, of_str_eq, ℕ, suc, String, ◌≡◌, refl, sym, ap, ◌↔◌, inl, inr, true, false,
  List, [], ◌∷◌, ◌++◌, arith, str_eq, eq_iff,
}
use rfsn_agent_full.Ledger.{
  Body, LedgerRecord, Line, blank, garbled, entry, HardLedger, zeros, init, seal, append,
  is_missing, record_errors, verify_from, verify_chain, load, ChainError, is_nil_iff,
}
use Prim.Native.String.{◌++◌ as concat, count}

pub digest_nonempty :
    (sha256 : String → String)
    → ((s : String) → count (sha256 s) ≡ 64)
    → (s : String) → str_eq (sha256 s) "" ≡ false
digest_nonempty sha256 digest_length s = elim (Bool-cases (str_eq (sha256 s) "")) [
  | inl e ↦ absurd (omega (arith, digest_length s, ap count (of_str_eq (sha256 s) "" e)))
  | inr e ↦ e
]

module _ {ℓ} {B M : Type ℓ} (sha256 : String → String) (canon : Body B → String)
    (digest_length : (s : String) → count (sha256 s) ≡ 64) where
  -- The lines are records that continue the chain from `prev`, each with the hashes that its content
  -- and its place give it.
  abbrev pub IsChain : String → List (Line B M) → Type 0
  IsChain prev [] = Unit {0}
  IsChain prev (blank ∷ lines) = IsChain prev lines
  IsChain prev (garbled ∷ lines) = ⊥
  IsChain prev (entry r ∷ lines) =
      (r.entry_hash ≡ sha256 (canon r.body))
      × (r.prev_chain_hash ≡ prev)
      × (r.chain_hash ≡ sha256 (concat prev r.entry_hash))
      × IsChain r.chain_hash lines

  -- The hash of the last record.
  abbrev pub chain_end : String → List (Line B M) → String
  chain_end prev [] = prev
  chain_end prev (entry r ∷ lines) = chain_end r.chain_hash lines
  chain_end prev (_ ∷ lines) = chain_end prev lines

  is_missing_sealed :
      (prev : String) (r : LedgerRecord B M)
      → str_eq prev "" ≡ false
      → r.entry_hash ≡ sha256 (canon r.body)
      → r.prev_chain_hash ≡ prev
      → r.chain_hash ≡ sha256 (concat prev r.entry_hash)
      → is_missing r ≡ false
  unfolding is_missing
  is_missing_sealed prev r p e q c = ground (
    arith,
    ap (λ (s : String). str_eq s "") e,
    ap (λ (s : String). str_eq s "") q,
    ap (λ (s : String). str_eq s "") c,
    digest_nonempty sha256 digest_length (canon r.body),
    digest_nonempty sha256 digest_length (concat prev r.entry_hash),
  )

  no_record_errors :
      (line : ℕ) (prev : String) (r : LedgerRecord B M)
      → r.entry_hash ≡ sha256 (canon r.body)
      → r.prev_chain_hash ≡ prev
      → r.chain_hash ≡ sha256 (concat prev r.entry_hash)
      → record_errors sha256 canon line prev r ≡ []
  unfolding record_errors
  no_record_errors line prev r e q c = simp (str_eq_of q, str_eq_of (sym e), str_eq_of (sym c))

  verify_IsChain :
      (line : ℕ) (prev : String) (file : List (Line B M))
      → str_eq prev "" ≡ false
      → IsChain prev file
      → (verify_from sha256 canon line prev file).1 ≡ []
  unfolding verify_from
  verify_IsChain line prev [] p h = refl
  verify_IsChain line prev (blank ∷ lines) p h = verify_IsChain (suc line) prev lines p h
  verify_IsChain line prev (garbled ∷ lines) p h = absurd h
  verify_IsChain line prev (entry r ∷ lines) p (e, q, c, h) =
      rw (is_missing_sealed prev r p e q c) (
        rw (no_record_errors line prev r e q c) (
          verify_IsChain (suc line) r.chain_hash lines
            (rw c (digest_nonempty sha256 digest_length _)) h))

  -- What one record without errors shows.
  record_errors_nil :
      (line : ℕ) (prev : String) (r : LedgerRecord B M) (es : List ChainError)
      → record_errors sha256 canon line prev r ++ es ≡ []
      → (r.entry_hash ≡ sha256 (canon r.body))
        × (r.prev_chain_hash ≡ prev)
        × (r.chain_hash ≡ sha256 (concat prev r.entry_hash))
        × (es ≡ [])
  unfolding record_errors
  record_errors_nil line prev r es h = ground (
    arith,
    eq_iff r.prev_chain_hash prev,
    eq_iff (sha256 (canon r.body)) r.entry_hash,
    eq_iff (sha256 (concat prev r.entry_hash)) r.chain_hash,
  )

  IsChain-of_verify :
      (line : ℕ) (prev : String) (file : List (Line B M))
      → (verify_from sha256 canon line prev file).1 ≡ []
      → IsChain prev file
  unfolding verify_from
  IsChain-of_verify line prev [] h = tt
  IsChain-of_verify line prev (blank ∷ lines) h = IsChain-of_verify (suc line) prev lines h
  IsChain-of_verify line prev (garbled ∷ lines) h = cc
  IsChain-of_verify line prev (entry r ∷ lines) h = elim (Bool-cases (is_missing r)) [
    | inl missing ↦ absurd (ground arith)
    | inr present ↦
        let (e, q, c, rest) = record_errors_nil line prev r _ (rw present at h) in
        (e, q, c, IsChain-of_verify (suc line) r.chain_hash lines rest)
  ]

  -- With digests of 64 characters, `verify_chain` passes exactly the files in which every record has the hash of its content, links
  -- to the record before it, and has the hash of that link, from the 64 zeros on.
  pub verify_chain-IsChain :
      (file : List (Line B M)) → ((verify_chain sha256 canon file).ok ≡ true) ↔ IsChain zeros file
  unfolding verify_chain
  verify_chain-IsChain file = (
    (λ h. IsChain-of_verify 1 zeros file ((is_nil_iff _).0 h)),
    λ h. (is_nil_iff _).1 (verify_IsChain 1 zeros file refl h),
  )

  IsChain-append :
      (prev : String) (file : List (Line B M)) (r : LedgerRecord B M)
      → IsChain prev file
      → r.entry_hash ≡ sha256 (canon r.body)
      → r.prev_chain_hash ≡ chain_end prev file
      → r.chain_hash ≡ sha256 (concat (chain_end prev file) r.entry_hash)
      → IsChain prev (file ++ entry r ∷ []) × (chain_end prev (file ++ entry r ∷ []) ≡ r.chain_hash)
  IsChain-append prev [] r h e q c = ((e, q, c, tt), refl)
  IsChain-append prev (blank ∷ lines) r h e q c = IsChain-append prev lines r h e q c
  IsChain-append prev (garbled ∷ lines) r h e q c = absurd h
  IsChain-append prev (entry x ∷ lines) r (e', q', c', h) e q c =
      let (chain, end) = IsChain-append x.chain_hash lines r h e q c in ((e', q', c', chain), end)

  load-prev :
      (file : List (Line B M)) (l : HardLedger)
      → IsChain l.prev file
      → (load file l).prev ≡ chain_end l.prev file
  unfolding load
  load-prev [] l h = refl
  load-prev (blank ∷ lines) l h = load-prev lines l h
  load-prev (garbled ∷ lines) l h = absurd h
  load-prev (entry r ∷ lines) l (_, _, _, h) = load-prev lines _ h

  -- The ledger object and its file agree: the file is a whole chain, and the object has its end.
  pub record IsSynced (s : HardLedger × List (Line B M)) : Type ℓ where
    pub chain : IsChain zeros s.1
    pub at_end : s.0.prev ≡ chain_end zeros s.1

  -- A ledger that is opened on a file which passes `verify_chain` is in step with it.
  pub init-IsSynced :
      (file : List (Line B M))
      → (verify_chain sha256 canon file).ok ≡ true
      → IsSynced (init file, file)
  unfolding init
  init-IsSynced file h =
      let chain = (verify_chain-IsChain file).0 h in
      record { chain = chain; at_end = load-prev file _ chain }

  pub append-IsSynced :
      (sign : String → M → M) (now : ℕ) (body : Body B) (metadata : M)
      (s : HardLedger × List (Line B M))
      → IsSynced s
      → IsSynced (append sha256 canon sign now body metadata s).1
  unfolding append
  append-IsSynced sign now body metadata s h =
      let (chain, end) =
        IsChain-append zeros s.1 (unfold seal in seal sha256 canon sign now body metadata s.0.prev)
          h.chain refl h.at_end
          (ap (λ (p : String). sha256 (concat p (sha256 (canon body)))) h.at_end) in
      record { chain = chain; at_end = sym end }
