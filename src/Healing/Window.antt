-- ===== src/Healing/Window.antt =====
-- A monitor over any number of runs: what its window, its count, its memory and its level are.
use rfsn_agent_full.Base.{
  ltb, leb, if◌then◌else◌, leb→le, Bool-cases, if_both, length, drop, last_n, length-append,
  length-drop, ℕ, suc, ◌+◌, ◌-◌, ◌≤◌, String, ◌≡◌, refl, sym, ap, ◌∙◌, ◌⊎◌, inl, inr, Bool, true,
  false, Option, none, some, List, [], ◌∷◌, ◌++◌, map, arith,
}
use rfsn_agent_full.Base.{drop-append, drop-suc}
use rfsn_agent_full.Base.Int.{ℤ, is_zero}
use rfsn_agent_full.Base.Float.{Floats, of_ℕ}
use rfsn_agent_full.Base.Text.{Text}
use rfsn_agent_full.Healing.{Signal, HardeningLevel, fast, balanced, hardened}
use rfsn_agent_full.Healing.Signals.{Regex, extract_signals}
use rfsn_agent_full.Healing.Memory.{is_chronic, new_memory}
use rfsn_agent_full.Healing.Bounds.{IsBounded, record_failure-IsBounded}
use rfsn_agent_full.Healing.Core.{
  SelfHealing, trim, successes, score_of, init, adjust_hardening, add_outcome, remember, ingest,
}
use mathlib.Core.List.{append_assoc, append-nil}
use mathlib.Core.Path.{subst}

module _ {ℓ} {A : Type ℓ} where
  last_n-short : (n : ℕ) (xs : List A) → length xs ≤ n → last_n n xs ≡ xs
  last_n-short n xs h = let e : length xs - n ≡ 0 = omega arith in ap (λ (k : ℕ). drop k xs) e

  -- Of the last `n` and one element more, the last `n` are those of all.
  last_n_snoc :
      (n : ℕ) (xs : List A) (x : A)
      → n ≤ length xs
      → drop 1 (last_n n xs ++ x ∷ []) ≡ last_n n (xs ++ x ∷ [])
  last_n_snoc n xs x h =
      let k = length xs - n in
      let e : length (xs ++ x ∷ []) - n ≡ suc k = omega (arith, length-append xs (x ∷ [])) in
      ap (drop 1) (sym (drop-append k xs (x ∷ []) (omega arith)))
      ∙ drop-suc k (xs ++ x ∷ [])
      ∙ ap (λ (j : ℕ). drop j (xs ++ x ∷ [])) (sym e)

  last_n-last_n :
      (n : ℕ) (xs : List A) (x : A) → last_n n (last_n n xs ++ x ∷ []) ≡ last_n n (xs ++ x ∷ [])
  last_n-last_n n xs x = elim (Bool-cases (leb n (length xs))) [
    | inl long ↦
        let size : length xs - (length xs - n) ≡ n = ground arith in
        let e : length (last_n n xs ++ x ∷ []) - n ≡ 1 =
          omega (arith, length-append (last_n n xs) (x ∷ []), length-drop (length xs - n) xs) in
        ap (λ (k : ℕ). drop k (last_n n xs ++ x ∷ [])) e ∙ last_n_snoc n xs x (leb→le n _ long)
    | inr short ↦ ap (λ ys. last_n n (ys ++ x ∷ [])) (last_n-short n xs (ground arith))
  ]

trim-last_n : (size : ℕ) (xs : List Bool) → trim (suc size) xs ≡ last_n (suc size) xs
unfolding trim
trim-last_n size xs = elim (Bool-cases (ltb (suc size) (length xs))) [
  | inl long ↦ rw long refl
  | inr short ↦ rw short (sym (last_n-short (suc size) xs (ground arith)))
]

-- How many runs of a list succeeded.
abbrev pub ones : List Bool → ℕ
ones [] = 0
ones (true ∷ os) = suc (ones os)
ones (false ∷ os) = ones os

successes-ones : (os : List Bool) → successes os ≡ ones os
unfolding successes
successes-ones [] = refl
successes-ones (true ∷ os) = ap suc (successes-ones os)
successes-ones (false ∷ os) = successes-ones os

module _ (F : Floats) where
  open F use {Float, dec, div, lte}

  -- The share of runs that succeeded, 1 for none.
  abbrev pub share : List Bool → Float
  share [] = dec 10 1
  share (o ∷ os) = div (of_ℕ F (ones (o ∷ os))) (of_ℕ F (suc (length os)))

  score_of-share : (os : List Bool) → score_of F os ≡ share os
  unfolding score_of
  score_of-share [] = refl
  score_of-share (o ∷ os) =
      ap (λ (n : ℕ). div (of_ℕ F n) (of_ℕ F (suc (length os)))) (successes-ones (o ∷ os))

  -- A run that ended: the readings of the clock, its log and its exit code.
  abbrev pub RunEnd : Type 0
  RunEnd = (Float × Float) × (Text × ℤ)

  -- The outcome of a run is success exactly for the exit code 0.
  abbrev pub outcomes_of : List RunEnd → List Bool
  outcomes_of rs = map (λ r. is_zero r.1.1) rs

  -- The level that a score stands for.
  abbrev pub level_for : Float → Float → Float → HardeningLevel
  level_for harden relax score =
      if lte score harden then hardened else (if lte relax score then fast else balanced)

  abbrev next :
      Option (SelfHealing F) → (SelfHealing F → Option (SelfHealing F)) → Option (SelfHealing F)
  next none f = none
  next (some h) f = f h

  -- The runs ingested one after the other.
  unfoldable pub ingest_all :
      Regex → (Text → String) → List RunEnd → SelfHealing F → Option (SelfHealing F)
  ingest_all re sha16 [] h = some h
  ingest_all re sha16 ((now, (logs, status)) ∷ rs) h =
      next (ingest F re sha16 now logs status h).1 (λ h'. ingest_all re sha16 rs h')

  -- What holds of a monitor after the outcomes `past`, whose level the score decided last.
  abbrev Monitors : ℕ → Float → Float → List Bool → SelfHealing F → Type 0
  Monitors size harden relax past h =
      (h.window_size ≡ suc size)
      × (h.harden_threshold ≡ harden)
      × (h.relax_threshold ≡ relax)
      × (h.outcomes ≡ last_n (suc size) past)
      × (h.total_runs ≡ length past)
      × IsBounded F h.memory

  remember-Monitors :
      (size : ℕ) (harden relax : Float) (past : List Bool) (now : Float × Float) (success : Bool)
      (signal : Signal Float) (h : SelfHealing F)
      → Monitors size harden relax past h
      → (h' : SelfHealing F) × (remember F now success signal h ≡ some h')
        × Monitors size harden relax past h'
  unfolding remember
  remember-Monitors size harden relax past now true signal h m = (h, refl, m)
  remember-Monitors size harden relax past now false signal h (w, a, b, o, t, bounded) =
      let (m', c, recorded, bounded', _, _) =
        record_failure-IsBounded F now signal.stack_fingerprint signal.failure_type signal.detail
          h.memory bounded in
      rw recorded (
        _,
        refl,
        if_both (Monitors size harden relax past) (is_chronic F c) (w, a, b, o, t, bounded')
            (w, a, b, o, t, bounded'),
      )

  ingest-Monitors :
      (re : Regex) (sha16 : Text → String) (size : ℕ) (harden relax : Float) (past : List Bool)
      (now : Float × Float) (logs : Text) (status : ℤ) (h : SelfHealing F)
      → Monitors size harden relax past h
      → (h' : SelfHealing F) × ((ingest F re sha16 now logs status h).1 ≡ some h')
        × Monitors size harden relax (past ++ is_zero status ∷ []) h'
        × (h'.hardening ≡ level_for harden relax (score_of F h'.outcomes))
  unfolding ingest adjust_hardening add_outcome
  ingest-Monitors re sha16 size harden relax past now logs status h (w, a, b, o, t, bounded) =
      let x = is_zero status in
      let past' = past ++ x ∷ [] in
      let o' : trim h.window_size (h.outcomes ++ x ∷ []) ≡ last_n (suc size) past' =
        rw (w, o) (trim-last_n size _ ∙ last_n-last_n (suc size) past x) in
      let t' : h.total_runs + 1 ≡ length past' = omega (arith, length-append past (x ∷ [])) in
      let (h', found, (w', a', b', o'', t'', bounded')) =
        remember-Monitors size harden relax past' now x (extract_signals F re sha16 logs status)
          (add_outcome F x h) (w, a, b, o', t', bounded) in
      rw found (_, refl, (w', a', b', o'', t'', bounded'), rw (a', b') refl)

  abbrev pub IsMonitor : ℕ → Float → Float → List Bool → Option (SelfHealing F) → Type 0
  IsMonitor size harden relax outcomes out =
      (h : SelfHealing F) × (out ≡ some h)
      × (h.outcomes ≡ last_n (suc size) outcomes)
      × (h.total_runs ≡ length outcomes)
      × IsBounded F h.memory
      × ((outcomes ≡ [])
          ⊎ (h.hardening ≡ level_for harden relax (share (last_n (suc size) outcomes))))

  level-share :
      (size : ℕ) (harden relax : Float) (past : List Bool) (h : SelfHealing F)
      → h.outcomes ≡ last_n (suc size) past
      → (past ≡ []) ⊎ (h.hardening ≡ level_for harden relax (score_of F h.outcomes))
      → (past ≡ []) ⊎ (h.hardening ≡ level_for harden relax (share (last_n (suc size) past)))
  level-share size harden relax past h o (inl e) = inl e
  level-share size harden relax past h o (inr level) =
      inr (level ∙ ap (level_for harden relax) (score_of-share h.outcomes ∙ ap share o))

  ingest_all_from :
      (re : Regex) (sha16 : Text → String) (size : ℕ) (harden relax : Float) (past : List Bool)
      (rs : List RunEnd) (h : SelfHealing F)
      → Monitors size harden relax past h
      → (past ≡ []) ⊎ (h.hardening ≡ level_for harden relax (score_of F h.outcomes))
      → IsMonitor size harden relax (past ++ outcomes_of rs) (ingest_all re sha16 rs h)
  unfolding ingest_all
  ingest_all_from re sha16 size harden relax past [] h (w, a, b, o, t, bounded) level =
      rw (append-nil past) (h, refl, o, t, bounded, level-share size harden relax past h o level)
  ingest_all_from re sha16 size harden relax past ((now, (logs, status)) ∷ rs) h m level =
      let x = is_zero status in
      let (h', found, m', level') =
        ingest-Monitors re sha16 size harden relax past now logs status h m in
      rw found (
        subst (λ l. IsMonitor size harden relax l (ingest_all re sha16 rs h'))
          (append_assoc past (x ∷ []) (outcomes_of rs))
          (ingest_all_from re sha16 size harden relax (past ++ x ∷ []) rs h' m' (inr level')))

  -- A new monitor with a window of at least one outcome takes in any runs without an error. It then
  -- holds the last outcomes, as many as the window, the number of all runs, and a memory within its
  -- limit of clusters, each with at most ten details. After at least one run its level is the one that
  -- the thresholds give for the share of successes among the outcomes in the window.
  pub ingest_all-IsMonitor :
      (re : Regex) (sha16 : Text → String) (size : ℕ) (harden relax : Float) (rs : List RunEnd)
      → IsMonitor size harden relax
          (outcomes_of rs)
          (ingest_all re sha16 rs (init F (suc size) harden relax))
  unfolding init new_memory
  ingest_all-IsMonitor re sha16 size harden relax rs =
      ingest_all_from re sha16 size harden relax [] rs (init F (suc size) harden relax)
        (
          refl,
          refl,
          refl,
          sym (last_n-short (suc size) [] (omega arith)),
          refl,
          (omega arith, omega arith, tt),
        )
        (inl refl)
