-- ===== src/Memory/Frustration/Streak.antt =====
-- The frustration manager against the list of all outputs.
use rfsn_agent_full.Base.{
  ltb, leb, if◌then◌else◌, Bool-cases, if_both, of_str_eq, length, take, length-append, length-drop,
  ℕ, suc, ◌+◌, ◌≤◌, String, ◌≡◌, refl, sym, ap, ◌∙◌, inl, inr, Bool, true, false, Option, some,
  List, [], ◌∷◌, ◌++◌, arith, str_eq,
}
use rfsn_agent_full.Base.Text.{Text}
use rfsn_agent_full.Memory.Frustration.{
  FrustrationManager, FrustrationSignal, stop, init, remember, count_error, trace_signal, check,
}

-- How many of the newest outputs are errors with one digest; the newest is first.
abbrev pub streak_of : (Text → String) → List (Text × Bool) → ℕ
streak_of md5 [] = 0
streak_of md5 ((o, false) ∷ past) = 0
streak_of md5 ((o, true) ∷ []) = 1
streak_of md5 ((o, true) ∷ (p, false) ∷ past) = 1
streak_of md5 ((o, true) ∷ (p, true) ∷ past) =
    let longer = streak_of md5 ((p, true) ∷ past) in
    if str_eq (md5 o) (md5 p) then suc longer else 1

-- The manager after outputs, of which the newest is first.
unfoldable pub watch : (Text → String) → ℕ → List (Text × Bool) → FrustrationManager
watch md5 history_size [] = init history_size
watch md5 history_size ((output, is_error) ∷ past) =
    (check md5 output is_error (watch md5 history_size past)).0

remember-length :
    (output : Text) (f : FrustrationManager)
    → length f.history ≤ f.history_size
    → length (remember output f).history ≤ f.history_size
unfolding remember
remember-length output f h =
    let longer = f.history ++ take 1000 output ∷ [] in
    let l = length-append f.history (take 1000 output ∷ []) in
    let s = length-drop 1 longer in
    elim (Bool-cases (ltb f.history_size (length longer))) [
      | inl over ↦ rw over (omega arith)
      | inr fits ↦ rw fits (ground arith)
    ]

-- What the manager's fields say of the outputs: the counter is the streak, and in a streak the last
-- digest is that of the newest output.
abbrev HoldsNewest : (Text → String) → List (Text × Bool) → String → Type 0
HoldsNewest md5 [] digest = Unit
HoldsNewest md5 ((o, true) ∷ past) digest = digest ≡ md5 o
HoldsNewest md5 ((o, false) ∷ past) digest = Unit

count_error_fresh :
    (digest : String) (f : FrustrationManager)
    → f.consecutive_error_count ≡ 0
    → ((count_error digest f).consecutive_error_count ≡ 1)
      × ((count_error digest f).last_error_hash ≡ digest)
unfolding count_error
count_error_fresh digest f count = elim (Bool-cases (str_eq digest f.last_error_hash)) [
  | inl same ↦ rw same (omega arith, sym (of_str_eq digest _ same))
  | inr other ↦ rw other (refl, refl)
]

count_error-streak :
    (md5 : Text → String) (o : Text) (past : List (Text × Bool)) (f : FrustrationManager)
    → f.consecutive_error_count ≡ streak_of md5 past
    → HoldsNewest md5 past f.last_error_hash
    → ((count_error (md5 o) f).consecutive_error_count ≡ streak_of md5 ((o, true) ∷ past))
      × ((count_error (md5 o) f).last_error_hash ≡ md5 o)
unfolding count_error
count_error-streak md5 o [] f count newest = count_error_fresh (md5 o) f count
count_error-streak md5 o ((p, false) ∷ past) f count newest = count_error_fresh (md5 o) f count
count_error-streak md5 o ((p, true) ∷ past) f count newest =
    elim (Bool-cases (str_eq (md5 o) (md5 p))) [
      | inl same ↦
          let e : str_eq (md5 o) f.last_error_hash ≡ true = rw newest same in
          let plus : f.consecutive_error_count + 1 ≡ suc f.consecutive_error_count = omega arith in
          rw (e, same) (plus ∙ ap suc count, newest ∙ sym (of_str_eq _ _ same))
      | inr other ↦
          let e : str_eq (md5 o) f.last_error_hash ≡ false = rw newest other in
          rw (e, other) (refl, refl)
    ]

count_error_kept :
    (digest : String) (f : FrustrationManager)
    → ((count_error digest f).history_size ≡ f.history_size)
      × ((count_error digest f).history ≡ f.history)
unfolding count_error
count_error_kept digest f =
    if_both
      (λ (g : FrustrationManager). (g.history_size ≡ f.history_size) × (g.history ≡ f.history))
      (str_eq digest f.last_error_hash) (refl, refl) (refl, refl)

abbrev Watches : (Text → String) → ℕ → List (Text × Bool) → FrustrationManager → Type 0
Watches md5 size past f =
    (f.history_size ≡ size)
    × (length f.history ≤ f.history_size)
    × (f.consecutive_error_count ≡ streak_of md5 past)
    × HoldsNewest md5 past f.last_error_hash

remember-Watches :
    (md5 : Text → String) (size : ℕ) (o : Text) (past : List (Text × Bool)) (f : FrustrationManager)
    → Watches md5 size past f
    → Watches md5 size past (remember o f)
unfolding remember
remember-Watches md5 size o past f (s, h, count, newest) = (s, remember-length o f h, count, newest)

count_error-Watches :
    (md5 : Text → String) (size : ℕ) (o : Text) (past : List (Text × Bool)) (f : FrustrationManager)
    → Watches md5 size past f
    → Watches md5 size ((o, true) ∷ past) (count_error (md5 o) f)
count_error-Watches md5 size o past f (s, h, count, newest) =
    let (count', newest') = count_error-streak md5 o past f count newest in
    let (s', h') = count_error_kept (md5 o) f in (s' ∙ s, rw (h', s') h, count', newest')

watch-Watches :
    (md5 : Text → String) (size : ℕ) (past : List (Text × Bool))
    → Watches md5 size past (watch md5 size past)
unfolding watch init check
watch-Watches md5 size [] = (refl, omega arith, refl, tt)
watch-Watches md5 size ((o, false) ∷ past) =
    let (s, h, _, _) = remember-Watches md5 size o past _ (watch-Watches md5 size past) in
    (s, h, refl, tt)
watch-Watches md5 size ((o, true) ∷ past) =
    let w =
      count_error-Watches md5 size o past (remember o (watch md5 size past))
        (remember-Watches md5 size o past _ (watch-Watches md5 size past)) in
    if_both
      (λ (r : FrustrationManager × Option FrustrationSignal).
        Watches md5 size ((o, true) ∷ past) r.0)
      (leb 3 (count_error (md5 o) (remember o (watch md5 size past))).consecutive_error_count) w w

answer_of :
    (b : Bool) (f : FrustrationManager) (p q : Option FrustrationSignal)
    → let r : FrustrationManager × Option FrustrationSignal = if b then (f, p) else (f, q) in
      r.1 ≡ (if b then p else q)
answer_of true f p q = refl
answer_of false f p q = refl

-- After any outputs, of which the newest is first: the next output, when it is an error, is answered
-- by the signal to stop exactly when it is the third or a later one of a row of errors with one
-- digest, with the length of the row, and otherwise as an output that is no error, for its stack
-- trace alone; and the history holds no more outputs than its size.
pub check-streak_of :
    (md5 : Text → String) (size : ℕ) (past : List (Text × Bool)) (o : Text)
    → let f = watch md5 size past in
      let k = streak_of md5 ((o, true) ∷ past) in
      ((check md5 o true f).1 ≡ (if leb 3 k then some (stop k) else trace_signal o))
      × ((check md5 o false f).1 ≡ trace_signal o)
      × (length f.history ≤ size)
unfolding check
check-streak_of md5 size past o =
    let f = watch md5 size past in
    let (s, h, _, _) = watch-Watches md5 size past in
    let g = count_error (md5 o) (remember o f) in
    let (_, _, count, _) =
      count_error-Watches md5 size o past (remember o f)
        (remember-Watches md5 size o past f (watch-Watches md5 size past)) in
    (
      answer_of (leb 3 g.consecutive_error_count) g _ _
          ∙ ap (λ (k : ℕ). if leb 3 k then some (stop k) else trace_signal o) count,
      refl,
      rw s at h,
    )
