-- ===== src/Replay/Filtered.antt =====
-- The replay of a whole ledger skips the kernel's events, and then misses them in the chain.
use rfsn_agent_full.Base.{
  ◌==◌, if◌then◌else◌, Bool-cases, Option-cases, of_str_eq, length, ℕ, ◌+◌, String, ◌≡◌, refl, sym,
  ap, ◌∙◌, inl, inr, Bool, true, false, not, ◌||◌, Option, none, some, List, [], ◌∷◌, ◌++◌, arith,
  str_eq,
}
use Prim.Native.String.{◌++◌ as concat, count}
use rfsn_agent_full.Ledger.{Body, LedgerRecord, Line, blank, garbled, entry, zeros, verify_chain}
use rfsn_agent_full.Ledger.Chain.{IsChain, verify_chain-IsChain}
use rfsn_agent_full.Replay.{
  is_text, read_all, kernel_records, chain_check, check_record, replay_from, divergences_of,
  replay_verify,
}

-- A record that the replay reads.
abbrev pub is_read {ℓ} : {B M : Type ℓ} → (M → Option String) → LedgerRecord B M → Bool
is_read record_type r =
    let t = record_type r.metadata in
    not (is_text t "orchestrator_event" || is_text t "kernel_event")

module _ {ℓ} {B M : Type ℓ} (sha256 : String → String)
    (record_type run_id_of : M → Option String) where
  abbrev records_of : List (Line B M) → List (LedgerRecord B M)
  records_of file = kernel_records record_type (read_all run_id_of "" file)

  records_of-read :
      (r : LedgerRecord B M) (file : List (Line B M))
      → records_of (entry r ∷ file)
        ≡ (if is_read record_type r then r ∷ records_of file else records_of file)
  unfolding read_all kernel_records
  records_of-read r file =
      elim (Bool-cases (
        is_text (record_type r.metadata) "orchestrator_event"
        || is_text (record_type r.metadata) "kernel_event")) [
          | inl event ↦ rw event refl
          | inr step ↦ rw step refl
        ]

  abbrev Passes : ℕ → Option (LedgerRecord B M) → List (LedgerRecord B M) → Type 0
  Passes i prev rs = divergences_of (replay_from sha256 false i prev [] rs) ≡ []

  -- A replay that finds nothing found nothing at its first record.
  Passes-first :
      (i : ℕ) (prev : Option (LedgerRecord B M)) (r : LedgerRecord B M)
      (rs : List (LedgerRecord B M))
      → Passes i prev (r ∷ rs)
      → (check_record sha256 false prev none r ≡ none) × Passes (i + 1) (some r) rs
  unfolding replay_from divergences_of
  Passes-first i prev r rs h = elim (Option-cases (check_record sha256 false prev none r)) [
    | inl clean ↦ (clean, rw clean at h)
    | inr (d, found) ↦ cc (rw found at h)
  ]

  check_record_linked :
      (p r : LedgerRecord B M)
      → check_record sha256 false (some p) none r ≡ none
      → r.prev_chain_hash ≡ p.chain_hash
  unfolding check_record chain_check
  check_record_linked p r h = elim (Bool-cases (str_eq r.prev_chain_hash p.chain_hash)) [
    | inl same ↦ of_str_eq _ _ same
    | inr other ↦ let h' = rw other at h in absurd (ground arith)
  ]

  Passes-linked :
      (pre post : List (Line B M)) (a e r : LedgerRecord B M) (i : ℕ)
      (prev : Option (LedgerRecord B M))
      → is_read record_type a ≡ true
      → is_read record_type e ≡ false
      → is_read record_type r ≡ true
      → Passes i prev (records_of (pre ++ entry a ∷ entry e ∷ entry r ∷ post))
      → r.prev_chain_hash ≡ a.chain_hash
  Passes-linked [] post a e r i prev ra re rr h =
      let first : records_of (entry a ∷ entry e ∷ entry r ∷ post) ≡ a ∷ r ∷ records_of post =
        records_of-read a _
        ∙ rw ra
            (ap (λ l. a ∷ l) (records_of-read e _ ∙ rw re (records_of-read r _ ∙ rw rr refl))) in
      let (_, after) = Passes-first i prev a _ (rw first at h) in
      check_record_linked a r (Passes-first (i + 1) (some a) r _ after).0
  Passes-linked (blank ∷ pre) post a e r i prev ra re rr h =
      Passes-linked pre post a e r i prev ra re rr (unfold read_all in h)
  Passes-linked (garbled ∷ pre) post a e r i prev ra re rr h =
      Passes-linked pre post a e r i prev ra re rr (unfold read_all in h)
  Passes-linked (entry x ∷ pre) post a e r i prev ra re rr h =
      let rest = pre ++ entry a ∷ entry e ∷ entry r ∷ post in
      elim (Bool-cases (is_read record_type x)) [
        | inl step ↦
            let first : records_of (entry x ∷ rest) ≡ x ∷ records_of rest =
              records_of-read x rest ∙ rw step refl in
            Passes-linked pre post a e r (i + 1) (some x) ra re rr
              (Passes-first i prev x _ (rw first at h)).1
        | inr event ↦
            let first : records_of (entry x ∷ rest) ≡ records_of rest =
              records_of-read x rest ∙ rw event refl in
            Passes-linked pre post a e r i prev ra re rr (rw first at h)
      ]

module _ {ℓ} {B M : Type ℓ} (sha256 : String → String) (canon : Body B → String)
    (digest_length : (s : String) → count (sha256 s) ≡ 64)
    (record_type run_id_of : M → Option String) where
  chain_of_three :
      (prev : String) (pre post : List (Line B M)) (a e r : LedgerRecord B M)
      → IsChain sha256 canon digest_length prev (pre ++ entry a ∷ entry e ∷ entry r ∷ post)
      → r.prev_chain_hash ≡ sha256 (concat a.chain_hash e.entry_hash)
  chain_of_three prev [] post a e r (_, _, _, (_, _, hash, (_, last, _, _))) = last ∙ hash
  chain_of_three prev (blank ∷ pre) post a e r h = chain_of_three prev pre post a e r h
  chain_of_three prev (garbled ∷ pre) post a e r h = absurd h
  chain_of_three prev (entry x ∷ pre) post a e r (_, _, _, h) =
      chain_of_three x.chain_hash pre post a e r h

  length_zero : {A : Type 0} (xs : List A) → (length xs == 0) ≡ true → xs ≡ []
  length_zero [] h = refl
  length_zero (x ∷ xs) h = absurd (ground arith)

  -- With digests of 64 characters: where a ledger that `verify_chain` passes has a kernel event
  -- between two records of steps, the replay of the whole ledger finds no divergence only if the
  -- event's chain hash is the hash of the record before it.
  pub replay_verify_event :
      (pre post : List (Line B M)) (a e r : LedgerRecord B M)
      → let file = pre ++ entry a ∷ entry e ∷ entry r ∷ post in
        (verify_chain sha256 canon file).ok ≡ true
        → is_read record_type a ≡ true
        → is_read record_type e ≡ false
        → is_read record_type r ≡ true
        → (replay_verify sha256 record_type run_id_of [] "" file).ok ≡ true
        → sha256 (concat a.chain_hash e.entry_hash) ≡ a.chain_hash
  unfolding replay_verify
  replay_verify_event pre post a e r chain ra re rr h =
      sym (
        chain_of_three zeros pre post a e r
          ((verify_chain-IsChain sha256 canon digest_length _).0 chain))
      ∙ Passes-linked sha256 record_type run_id_of pre post a e r 0 none ra re rr (length_zero _ h)
