-- ===== src/Ledger/Tamper.antt =====
-- Tamper evidence: the last hash determines the content of the whole chain, unless a collision of
-- the hash function is at hand.
use rfsn_agent_full.Base.{
  Bool-cases, str_eq_of, of_str_eq, length, String, ◌≡◌, refl, sym, ◌∙◌, ◌≢◌, ◌⊎◌, inl, inr, true,
  List, [], ◌∷◌, arith, str_eq,
}
use rfsn_agent_full.Ledger.{Body, LedgerRecord, Line, blank, garbled, entry, zeros, verify_chain}
use rfsn_agent_full.Ledger.Chain.{IsChain, chain_end, verify_chain-IsChain}
use Prim.Native.String.{◌++◌ as concat, count}
use text.Mathlib.TextLemmas.{append_inj}

-- Two texts with one digest.
pub record Collision (sha256 : String → String) : Type 0 where
  pub one : String
  pub other : String
  pub differ : one ≢ other
  pub collide : sha256 one ≡ sha256 other

module _ (sha256 : String → String) where
  same_or_Collision : (s t : String) → sha256 s ≡ sha256 t → (s ≡ t) ⊎ Collision sha256
  same_or_Collision s t e = elim (Bool-cases (str_eq s t)) [
    | inl same ↦ inl (of_str_eq s t same)
    | inr other ↦
        inr (record { one = s; other = t; differ = λ p. cc (other, str_eq_of p); collide = e })
  ]

module _ {ℓ} {B M : Type ℓ} (sha256 : String → String) (canon : Body B → String)
    (digest_length : (s : String) → count (sha256 s) ≡ 64) where
  -- The records of a file, without the lines that are none.
  abbrev pub records : List (Line B M) → List (LedgerRecord B M)
  records [] = []
  records (entry r ∷ lines) = r ∷ records lines
  records (_ ∷ lines) = records lines

  -- A chain without the lines that are no records.
  abbrev Linked : String → List (LedgerRecord B M) → Type 0
  Linked prev [] = Unit {0}
  Linked prev (r ∷ rs) =
      (r.entry_hash ≡ sha256 (canon r.body))
      × (r.chain_hash ≡ sha256 (concat prev r.entry_hash))
      × Linked r.chain_hash rs

  abbrev end_of : String → List (LedgerRecord B M) → String
  end_of prev [] = prev
  end_of prev (r ∷ rs) = end_of r.chain_hash rs

  -- The canonical texts of the contents, in order.
  abbrev pub bodies : List (LedgerRecord B M) → List String
  bodies [] = []
  bodies (r ∷ rs) = canon r.body ∷ bodies rs

  link_back :
      (p q : String) (r s : LedgerRecord B M)
      → count p ≡ 64
      → count q ≡ 64
      → r.entry_hash ≡ sha256 (canon r.body)
      → r.chain_hash ≡ sha256 (concat p r.entry_hash)
      → s.entry_hash ≡ sha256 (canon s.body)
      → s.chain_hash ≡ sha256 (concat q s.entry_hash)
      → r.chain_hash ≡ s.chain_hash
      → ((p ≡ q) × (canon r.body ≡ canon s.body)) ⊎ Collision sha256
  link_back p q r s lp lq re rc se sc e =
      elim (same_or_Collision sha256 (concat p r.entry_hash) (concat q s.entry_hash)
        (sym rc ∙ e ∙ sc)) [
          | inr c ↦ inr c
          | inl same ↦
              let (pq, hashes) = append_inj same (lp ∙ sym lq) in
              elim (same_or_Collision sha256 (canon r.body) (canon s.body) (sym re ∙ hashes ∙ se)) [
                | inr c ↦ inr c
                | inl texts_same ↦ inl (pq, texts_same)
              ]
        ]

  Linked-same :
      (p q : String) (rs ss : List (LedgerRecord B M))
      → count p ≡ 64
      → count q ≡ 64
      → Linked p rs
      → Linked q ss
      → length rs ≡ length ss
      → end_of p rs ≡ end_of q ss
      → ((p ≡ q) × (bodies rs ≡ bodies ss)) ⊎ Collision sha256
  Linked-same p q [] [] lp lq h k n e = inl (e, refl)
  Linked-same p q [] (s ∷ ss) lp lq h k n e = absurd (omega arith)
  Linked-same p q (r ∷ rs) [] lp lq h k n e = absurd (omega arith)
  Linked-same p q (r ∷ rs) (s ∷ ss) lp lq (re, rc, h) (se, sc, k) n e =
      elim (Linked-same r.chain_hash s.chain_hash rs ss (rw rc (digest_length _))
        (rw sc (digest_length _)) h k (omega arith) e) [
          | inr c ↦ inr c
          | inl (chains, rest) ↦ elim (link_back p q r s lp lq re rc se sc chains) [
            | inr c ↦ inr c
            | inl (pq, text) ↦ inl (pq, cc)
          ]
        ]

  chain-Linked :
      (prev : String) (file : List (Line B M))
      → IsChain sha256 canon digest_length prev file
      → Linked prev (records file)
  chain-Linked prev [] h = tt
  chain-Linked prev (blank ∷ lines) h = chain-Linked prev lines h
  chain-Linked prev (garbled ∷ lines) h = absurd h
  chain-Linked prev (entry r ∷ lines) (e, q, c, h) = (e, c, chain-Linked r.chain_hash lines h)

  end-records :
      (prev : String) (file : List (Line B M))
      → chain_end sha256 canon digest_length prev file ≡ end_of prev (records file)
  end-records prev [] = refl
  end-records prev (blank ∷ lines) = end-records prev lines
  end-records prev (garbled ∷ lines) = end-records prev lines
  end-records prev (entry r ∷ lines) = end-records r.chain_hash lines

  -- With digests of 64 characters, two files that both pass `verify_chain`, have as many records and end in the same chain hash
  -- hold the same contents in the same order, or show a collision of the hash function.
  pub verify_chain_tamper :
      (f g : List (Line B M))
      → (verify_chain sha256 canon f).ok ≡ true
      → (verify_chain sha256 canon g).ok ≡ true
      → length (records f) ≡ length (records g)
      → chain_end sha256 canon digest_length zeros f ≡ chain_end sha256 canon digest_length zeros g
      → (bodies (records f) ≡ bodies (records g)) ⊎ Collision sha256
  verify_chain_tamper f g vf vg n e =
      elim (Linked-same zeros zeros (records f) (records g) refl refl
        (chain-Linked zeros f ((verify_chain-IsChain sha256 canon digest_length f).0 vf))
        (chain-Linked zeros g ((verify_chain-IsChain sha256 canon digest_length g).0 vg)) n
        (sym (end-records zeros f) ∙ e ∙ end-records zeros g)) [
          | inr c ↦ inr c
          | inl (_, same) ↦ inl same
        ]
