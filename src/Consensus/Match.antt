-- ===== src/Consensus/Match.antt =====
-- What an accepted append leaves in the log.
use rfsn_agent_full.Base.{
  ltb, ◌==◌, ltb→lt, Bool-cases, Option-cases, length, get_elem?, take, get_elem?-append_left,
  get_elem?-append_length, get_elem?-take, length-take, get_elem?-none, get_elem?-some, ℕ, ◌+◌, ◌≤◌,
  ◌<◌, ◌≡◌, refl, sym, ◌∙◌, ◌⊎◌, inl, inr, true, false, Option, none, some, List, [], ◌∷◌, arith,
}
use rfsn_agent_full.Consensus.{
  LogEntry, ConsensusLog, is_consistent, place, place_all, start_of, append,
}

module _ {ℓ} {C : Type ℓ} where
  -- From the index `i` on the log has the terms of `entries`, one for one.
  abbrev pub HasTerms : List (LogEntry C) → ℕ → List (LogEntry C) → Type ℓ
  HasTerms log i [] = Unit
  HasTerms log i (e ∷ es) =
      ((x : LogEntry C) × (get_elem? log i ≡ some x) × (x.term ≡ e.term)) × HasTerms log (i + 1) es

  place_keeps :
      (idx : ℕ) (entry : LogEntry C) (log : List (LogEntry C)) (j : ℕ)
      → idx ≤ length log
      → j < idx
      → get_elem? (place idx entry log) j ≡ get_elem? log j
  unfolding place
  place_keeps idx entry log j h k = ground (
    arith,
    get_elem?-append_left log (entry ∷ []) j,
    get_elem?-append_left (take idx log) (entry ∷ []) j,
    length-take idx log,
    get_elem?-take idx j log,
  )

  place_at :
      (idx : ℕ) (entry : LogEntry C) (log : List (LogEntry C))
      → idx ≤ length log
      → (e : LogEntry C) × (get_elem? (place idx entry log) idx ≡ some e) × (e.term ≡ entry.term)
  unfolding place
  place_at idx entry log h = elim (Option-cases (get_elem? log idx)) [
    | inl absent ↦ (
      entry,
      rw (absent, place)
          (get_elem?-append_length log (entry ∷ []) idx
            (omega (arith, get_elem?-none log idx absent))),
      refl,
    )
    | inr (old, found) ↦ elim (Bool-cases (old.term == entry.term)) [
      | inl same ↦ (old, ground arith, ground arith)
      | inr other ↦ (
        entry,
        rw (found, place)
            (rw other (
              get_elem?-append_length (take idx log) (entry ∷ []) idx
                (sym (length-take idx log h)))),
        refl,
      )
    ]
  ]

  length-place :
      (idx : ℕ) (entry : LogEntry C) (log : List (LogEntry C))
      → idx ≤ length log
      → idx + 1 ≤ length (place idx entry log)
  length-place idx entry log h =
      let (e, found, _) = place_at idx entry log h in
      omega (arith, get_elem?-some (place idx entry log) idx found)

  place_all_keeps :
      (idx : ℕ) (es log : List (LogEntry C)) (j : ℕ)
      → idx ≤ length log
      → j < idx
      → get_elem? (place_all idx es log) j ≡ get_elem? log j
  unfolding place_all
  place_all_keeps idx [] log j h k = refl
  place_all_keeps idx (e ∷ es) log j h k =
      place_all_keeps (idx + 1) es (place idx e log) j (length-place idx e log h) (omega arith)
      ∙ place_keeps idx e log j h k

  place_all-HasTerms :
      (idx : ℕ) (es log : List (LogEntry C))
      → idx ≤ length log
      → HasTerms (place_all idx es log) idx es
  unfolding place_all
  place_all-HasTerms idx [] log h = tt
  place_all-HasTerms idx (e ∷ es) log h =
      let log' = place idx e log in
      let h' = length-place idx e log h in
      let (x, found, term) = place_at idx e log h in
      (
        (x, place_all_keeps (idx + 1) es log' idx h' (omega arith) ∙ found, term),
        place_all-HasTerms (idx + 1) es log' h',
      )

  start_in_log :
      (log : List (LogEntry C)) (prev_index : Option ℕ) (prev_term : ℕ)
      → is_consistent log prev_index prev_term ≡ true
      → start_of prev_index ≤ length log
  unfolding is_consistent
  start_in_log log none prev_term h = omega arith
  start_in_log log (some prev_index) prev_term h = elim (Option-cases (get_elem? log prev_index)) [
    | inl absent ↦ absurd (ground arith)
    | inr (x, found) ↦ omega (arith, get_elem?-some log prev_index found)
  ]

  -- An append that is accepted leaves the entries before its start as they were, and from there on
  -- the terms of the log are those of the leader's entries, one for one; a refused one changes
  -- nothing.
  pub append-HasTerms :
      (prev_index : Option ℕ) (prev_term : ℕ) (es : List (LogEntry C)) (c : ConsensusLog C)
      → (((append prev_index prev_term es c).1 ≡ true)
          × ((j : ℕ)
              → (start_of prev_index ≤ j)
                ⊎ (get_elem? (append prev_index prev_term es c).0.log j ≡ get_elem? c.log j))
          × HasTerms (append prev_index prev_term es c).0.log (start_of prev_index) es)
        ⊎ (append prev_index prev_term es c ≡ (c, false))
  unfolding append
  append-HasTerms prev_index prev_term es c =
      elim (Bool-cases (is_consistent c.log prev_index prev_term)) [
        | inl ok ↦
            let h = start_in_log c.log prev_index prev_term ok in
            inl (
              rw ok (
                refl,
                (λ j. elim (Bool-cases (ltb j (start_of prev_index))) [
                  | inl before ↦
                      inr (place_all_keeps (start_of prev_index) es c.log j h (ltb→lt j _ before))
                  | inr behind ↦ inl (ground arith)
                ]),
                place_all-HasTerms (start_of prev_index) es c.log h,
              ))
        | inr bad ↦ inr (rw bad)
      ]
