-- ===== src/HashChain/Verified.antt =====
-- What the chain appends, it verifies and loads again.
use rfsn_agent_full.Base.{
  Bool-cases, of_str_eq, length, All, length-append, ℕ, suc, ◌+◌, String, ◌≡◌, refl, sym, ap, ◌∙◌,
  inl, inr, true, false, Option, none, some, List, [], ◌∷◌, ◌++◌, arith, str_eq, eq_refl,
}
use rfsn_agent_full.Base.Dict.{get, put, get-put}
use mathlib.Core.Path.{subst}
use rfsn_agent_full.HashChain.{
  Value, number, text, other, Entry, is_reserved, is_text, clean, LedgerChain, init, entry_hash,
  chained, append, verify_from, verify, save, last_hash, hash_in, load,
}

module _ {ℓ} {J : Type ℓ} where
  -- The dictionary has none of the keys that the chain adds.
  abbrev pub IsPlain : Entry J → Type 0
  IsPlain d = All (λ e. is_reserved e.0 ≡ false) d

  IsPlain-clean : (d : Entry J) → IsPlain d → clean d ≡ d
  unfolding clean
  IsPlain-clean [] h = refl
  IsPlain-clean ((k, v) ∷ d) (p, h) = rw p (ap (λ rest. (k, v) ∷ rest) (IsPlain-clean d h))

  clean-put :
      (d : Entry J) (k : String) (v : Value J) → is_reserved k ≡ true → clean (put d k v) ≡ clean d
  unfolding clean put
  clean-put [] k v r = rw r refl
  clean-put ((j, w) ∷ d) k v r = elim (Bool-cases (str_eq j k)) [
    | inl same ↦
        let ours : is_reserved j ≡ true = ap is_reserved (of_str_eq j k same) ∙ r in
        rw same (rw ours refl)
    | inr differ ↦ elim (Bool-cases (is_reserved j)) [
      | inl ours ↦ rw differ (rw ours (clean-put d k v r))
      | inr theirs ↦ rw differ (rw theirs (ap (λ rest. (j, w) ∷ rest) (clean-put d k v r)))
    ]
  ]

  text_of : (v : Option (Value J)) (t : String) → is_text v t ≡ true → hash_in v ≡ some t
  text_of none t h = cc h
  text_of (some (number n)) t h = cc h
  text_of (some (text s)) t h = ap some (of_str_eq s t h)
  text_of (some (other j)) t h = cc h

module _ {ℓ} {J : Type ℓ} (sha256 : String → String) (canon : Entry J → String) where
  clean-chained :
      (e : Entry J) (i : ℕ) (prev : String) → IsPlain e → clean (chained sha256 canon e i prev) ≡ e
  unfolding chained
  clean-chained e i prev h =
      clean-put _ "_chain_hash" _ refl
      ∙ clean-put _ "_prev_hash" _ refl
      ∙ clean-put _ "_chain_index" _ refl
      ∙ IsPlain-clean e h

  -- The hash after the entries, as `verify` computes it.
  abbrev end_hash : String → List (Entry J) → String
  end_hash prev [] = prev
  end_hash prev (e ∷ es) = end_hash (entry_hash sha256 canon (clean e) prev) es

  -- The two tests of `verify` at an entry.
  abbrev Links : String → Entry J → Type 0
  Links prev e =
      (is_text (get e "_prev_hash") prev ≡ true)
      × (is_text (get e "_chain_hash") (entry_hash sha256 canon (clean e) prev) ≡ true)

  chained-Links :
      (e : Entry J) (i : ℕ) (prev : String) → IsPlain e → Links prev (chained sha256 canon e i prev)
  chained-Links e i prev h =
      let hash = entry_hash sha256 canon e prev in
      let d : Entry J = put (put e "_chain_index" (number i)) "_prev_hash" (text prev) in
      let at_prev : get (put d "_chain_hash" (text hash)) "_prev_hash" ≡ some (text prev) =
        get-put d "_chain_hash" "_prev_hash" (text hash)
        ∙ get-put (put e "_chain_index" (number i)) "_prev_hash" "_prev_hash" (text prev) in
      let at_hash : get (put d "_chain_hash" (text hash)) "_chain_hash" ≡ some (text hash) =
        get-put d "_chain_hash" "_chain_hash" (text hash) in
      (
        unfold chained in (ap (λ v. is_text v prev) at_prev ∙ eq_refl prev),
        rw (clean-chained e i prev h)
            (unfold chained in (ap (λ v. is_text v hash) at_hash ∙ eq_refl hash)),
      )

  verify_from_step :
      (i : ℕ) (prev : String) (e : Entry J) (es : List (Entry J))
      → verify_from sha256 canon i prev (e ∷ es) ≡ none
      → Links prev e
        × (verify_from sha256 canon (suc i) (entry_hash sha256 canon (clean e) prev) es ≡ none)
  unfolding verify_from
  verify_from_step i prev e es h = elim (Bool-cases (is_text (get e "_prev_hash") prev)) [
    | inl linked ↦
        let hash = entry_hash sha256 canon (clean e) prev in
        elim (Bool-cases (is_text (get e "_chain_hash") hash)) [
          | inl same ↦ ((linked, same), rw (linked, same) at h)
          | inr tampered ↦ cc (rw (linked, tampered) at h)
        ]
    | inr broken ↦ cc (rw broken at h)
  ]

  verify_from-append :
      (i : ℕ) (prev : String) (es : List (Entry J)) (e : Entry J)
      → verify_from sha256 canon i prev es ≡ none
      → Links (end_hash prev es) e
      → verify_from sha256 canon i prev (es ++ e ∷ []) ≡ none
  unfolding verify_from
  verify_from-append i prev [] e h (linked, same) = rw (linked, same) refl
  verify_from-append i prev (x ∷ es) e h last =
      let ((linked, same), rest) = verify_from_step i prev x es h in
      rw (linked, same) (verify_from-append (suc i) _ es e rest last)

  end_hash-append :
      (es : List (Entry J)) (prev : String) (e : Entry J)
      → end_hash prev (es ++ e ∷ []) ≡ entry_hash sha256 canon (clean e) (end_hash prev es)
  end_hash-append [] prev e = refl
  end_hash-append (x ∷ es) prev e = end_hash-append es _ e

  last_hash-end_hash :
      (i : ℕ) (prev start : String) (e : Entry J) (es : List (Entry J))
      → verify_from sha256 canon i prev (e ∷ es) ≡ none
      → last_hash start (e ∷ es) ≡ some (end_hash prev (e ∷ es))
  unfolding last_hash
  last_hash-end_hash i prev start e [] h = text_of _ _ (verify_from_step i prev e [] h).0.1
  last_hash-end_hash i prev start e (f ∷ es) h =
      last_hash-end_hash (suc i) _ start f es (verify_from_step i prev e (f ∷ es) h).1

  -- The chain passes, and its object remembers the hash in which it ends.
  abbrev IsVerified : LedgerChain J → Type 0
  IsVerified c =
      (verify_from sha256 canon 0 (sha256 c.seed) c.entries ≡ none)
      × (end_hash (sha256 c.seed) c.entries ≡ c.prev_hash)

  append-IsVerified :
      (e : Entry J) (c : LedgerChain J)
      → IsPlain e
      → IsVerified c
      → IsVerified (append sha256 canon e c).0
  unfolding append
  append-IsVerified e c plain (passes, ends) =
      let e' = chained sha256 canon e (length c.entries) c.prev_hash in
      let links : Links (end_hash (sha256 c.seed) c.entries) e' =
        subst (λ (h : String). Links h e') (sym ends)
          (chained-Links e (length c.entries) c.prev_hash plain) in
      (
        verify_from-append 0 (sha256 c.seed) c.entries e' passes links,
        end_hash-append c.entries (sha256 c.seed) e'
            ∙ rw (clean-chained e (length c.entries) c.prev_hash plain, ends) refl,
      )

  -- Dictionaries appended one after the other.
  unfoldable pub append_all : List (Entry J) → LedgerChain J → LedgerChain J
  append_all [] c = c
  append_all (e ∷ es) c = append_all es (append sha256 canon e c).0

  append_all-IsVerified :
      (es : List (Entry J)) (c : LedgerChain J)
      → All IsPlain es
      → IsVerified c
      → IsVerified (append_all es c)
        × (length (append_all es c).entries ≡ length c.entries + length es)
  unfolding append_all
  append_all-IsVerified [] c plain h = (h, omega arith)
  append_all-IsVerified (e ∷ es) c (p, plain) h =
      let (h', count) =
        append_all-IsVerified es (append sha256 canon e c).0 plain (append-IsVerified e c p h) in
      let one : length (append sha256 canon e c).0.entries ≡ length c.entries + 1 =
        unfold append in length-append c.entries _ in
      (h', omega (arith, count, one))

  last_hash-verified :
      (seed : String) (es : List (Entry J))
      → verify_from sha256 canon 0 (sha256 seed) es ≡ none
      → last_hash (sha256 seed) es ≡ some (end_hash (sha256 seed) es)
  last_hash-verified seed [] h = unfold last_hash in refl
  last_hash-verified seed (e ∷ es) h = last_hash-end_hash 0 (sha256 seed) (sha256 seed) e es h

  IsVerified-load :
      (c : LedgerChain J)
      → IsVerified c
      → (verify sha256 canon c
          ≡ record { ok = true; length_of = length c.entries; first_invalid = none })
        × (load sha256 canon (save sha256 canon c) ≡ some c)
  unfolding verify load save
  IsVerified-load c (passes, ends) =
      let head : last_hash (sha256 c.seed) c.entries ≡ some c.prev_hash =
        last_hash-verified c.seed c.entries passes ∙ ap some ends in
      (rw passes refl, rw head refl)

  -- A chain of dictionaries that have none of its own keys passes `verify`, whatever they are and
  -- whatever the seed, with as many entries as were appended; and what `save` writes, `load` reads
  -- back as the same chain.
  pub load-append_all :
      (seed : String) (es : List (Entry J))
      → All IsPlain es
      → let c = append_all es (init sha256 canon seed) in
        (verify sha256 canon c ≡ record { ok = true; length_of = length es; first_invalid = none })
        × (load sha256 canon (save sha256 canon c) ≡ some c)
  unfolding init
  load-append_all seed es plain =
      let start : LedgerChain J = init sha256 canon seed in
      let (verified, count) =
        append_all-IsVerified es start plain (unfold verify_from in (refl, refl)) in
      let n : length (append_all es start).entries ≡ length es = omega (arith, count) in
      let (ok, loaded) = IsVerified-load (append_all es start) verified in (rw n at ok, loaded)
