-- ===== src/Repair.antt =====
-- rfsn_kernel/repair_loop.py: the phase order of a repair cycle. A state is the dictionary with the
-- keys that the functions read: `none` is a key that is missing. Values that `int` refuses, on which
-- the functions raise, are left out.
use rfsn_agent_full.Base.{
  if_both, ltb, if◌then◌else◌, length, ℕ, zero, suc, ◌+◌, String, ◌≡◌, refl, sym, ap, ◌∙◌, ◌≢◌,
  Bool, true, false, ◌&&◌, ◌||◌, Option, none, some, List, [], ◌∷◌, arith, str_eq, eq_iff,
}
use rfsn_agent_full.Base.Int.{ℤ, pos, negsuc, Object, int_value, is_zero, int_or, nonzero_default}

pub record RepairState : Type 0 where
  pub phase : Option String
  pub last_status : Option Object
  pub attempt : Option Object
  pub max_attempts : Option Object

-- `_PHASE_ORDER`
abbrev pub phase_order : List String
phase_order = "SEARCH" ∷ "LOCALIZE" ∷ "PATCH" ∷ "VERIFY" ∷ "ISOLATE" ∷ []

abbrev pub phase_or : Option String → String
phase_or none = "SEARCH"
phase_or (some p) = p

-- `_PHASE_ORDER.index(phase)`, from the counter `i`
unfoldable pub index_from : ℕ → String → List String → Option ℕ
index_from i p [] = none
index_from i p (q ∷ qs) = if str_eq q p then some i else index_from (suc i) p qs

abbrev get_phase : List String → ℕ → String
get_phase [] i = ""
get_phase (p ∷ ps) zero = p
get_phase (p ∷ ps) (suc i) = get_phase ps i

after_index : Option ℕ → String
after_index none = "SEARCH"
after_index (some idx) =
    if ltb (idx + 1) (length phase_order) then get_phase phase_order (idx + 1) else "PATCH"

unfoldable pub next_phase : RepairState → String
unfolding index_from after_index
next_phase st =
    let phase = phase_or st.phase in
    let last_status = int_or st.last_status (pos 1) in
    if is_zero last_status && (str_eq phase "VERIFY" || str_eq phase "ISOLATE")
    then "DONE"
    else after_index (index_from 0 phase phase_order)

abbrev pub ltb_ℤ : ℤ → ℤ → Bool
ltb_ℤ (pos a) (pos b) = ltb a b
ltb_ℤ (pos a) (negsuc b) = false
ltb_ℤ (negsuc a) (pos b) = true
ltb_ℤ (negsuc a) (negsuc b) = ltb b a

unfoldable pub should_retry : RepairState → Bool
should_retry st = ltb_ℤ (int_or st.attempt (pos 0)) (int_or st.max_attempts (pos 3))

-- `n + 1`
abbrev pub suc_ℤ : ℤ → ℤ
suc_ℤ (pos n) = pos (n + 1)
suc_ℤ (negsuc zero) = pos 0
suc_ℤ (negsuc (suc n)) = negsuc n

unfoldable pub update_state : RepairState → String → ℤ → RepairState
update_state st phase status =
    let st' = record st { phase = some phase; last_status = some (int_value status) } in
    if str_eq phase "PATCH"
    then record st' { attempt = some (int_value (suc_ℤ (int_or st.attempt (pos 0)))) }
    else st'

after_index_ne_done : (i : Option ℕ) → str_eq (after_index i) "DONE" ≡ false
unfolding after_index
after_index_ne_done none = refl
after_index_ne_done (some zero) = refl
after_index_ne_done (some (suc zero)) = refl
after_index_ne_done (some (suc (suc zero))) = refl
after_index_ne_done (some (suc (suc (suc zero)))) = refl
after_index_ne_done (some (suc (suc (suc (suc n))))) =
    let e : ltb (suc (suc (suc (suc n))) + 1) (length phase_order) ≡ false = ground arith in rw e

-- Where the status is not read as 0, a phase is followed by the one behind it in the order.
next_phase-after_index :
    (st : RepairState)
    → is_zero (int_or st.last_status (pos 1)) ≡ false
    → next_phase st ≡ after_index (index_from 0 (phase_or st.phase) phase_order)
unfolding next_phase
next_phase-after_index st e = rw e refl

-- After an update with any phase and any integer status, 0 included, the next phase is never "DONE":
-- `int(status or 1)` reads the status 0 of a success as 1.
pub next_phase-update_state :
    (st : RepairState) (phase : String) (status : ℤ)
    → next_phase (update_state st phase status) ≢ "DONE"
unfolding update_state
next_phase-update_state st phase status h =
    let st' = update_state st phase status in
    let i = index_from 0 (phase_or st'.phase) phase_order in
    let status_kept : st'.last_status ≡ some (int_value status) =
      if_both (λ (r : RepairState). r.last_status ≡ some (int_value status)) (str_eq phase "PATCH")
        refl refl in
    let nonzero : is_zero (int_or st'.last_status (pos 1)) ≡ false =
      rw status_kept (nonzero_default (some status)) in
    cc (
      after_index_ne_done i,
      (eq_iff (after_index i) "DONE").1 (sym (next_phase-after_index st' nonzero) ∙ h),
    )

-- Rounds that each try a patch, with any status.
unfoldable pub patch_rounds : RepairState → List ℤ → RepairState
patch_rounds st [] = st
patch_rounds st (status ∷ ss) = patch_rounds (update_state st "PATCH" status) ss

attempt_or : (a : ℕ) → int_or (some (int_value (pos a))) (pos 0) ≡ pos a
attempt_or zero = refl
attempt_or (suc n) = refl

update_patch :
    (st : RepairState) (status : ℤ) {a : ℕ}
    → int_or st.attempt (pos 0) ≡ pos a
    → (int_or (update_state st "PATCH" status).attempt (pos 0) ≡ pos (a + 1))
      × ((update_state st "PATCH" status).max_attempts ≡ st.max_attempts)
unfolding update_state
update_patch st status {a} e = (rw e (attempt_or (a + 1)), refl)

-- After any rounds that each try a patch, another is allowed exactly while the attempts made are
-- fewer than the maximum, which is 3 where it is missing or 0.
should_retry-patch_rounds :
    (ss : List ℤ) (st : RepairState) (a m : ℕ)
    → int_or st.attempt (pos 0) ≡ pos a
    → int_or st.max_attempts (pos 3) ≡ pos m
    → should_retry (patch_rounds st ss) ≡ ltb (a + length ss) m
unfolding patch_rounds
should_retry-patch_rounds [] st a m e f =
    unfold should_retry in rw (e, f) (ap (λ (n : ℕ). ltb n m) (omega arith))
should_retry-patch_rounds (s ∷ ss) st a m e f =
    let (e', g) = update_patch st s e in
    should_retry-patch_rounds ss (update_state st "PATCH" s) (a + 1) m e' (rw g f)
    ∙ ap (λ (n : ℕ). ltb n m) (omega arith)
