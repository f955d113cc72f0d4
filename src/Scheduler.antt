-- ===== src/Scheduler.antt =====
-- rfsn_kernel/scheduler.py: how many runs are active at once, and how long each may take. The lock
-- makes each method one step; a time is a count of seconds.
use rfsn_agent_full.Base.{
  leb, if◌then◌else◌, Bool-cases, is_some, length, ℕ, ◌+◌, ◌≤◌, max, String, ◌≡◌, refl, sym, ◌⊎◌,
  inl, inr, Bool, true, false, Option, none, some, List, [], ◌∷◌, arith, str_eq, eq_refl,
}
use rfsn_agent_full.Base.Dict.{
  Dict, get, put, remove, get-put, get-remove, length-put, length-remove-le,
}
use rfsn_agent_full.Base.Int.{ℤ, pos, negsuc, pos_part}

-- `RunBudget`
pub record RunBudget : Type 0 where
  pub start : ℕ
  pub max_seconds : ℤ

-- `now - start <= max_seconds`, without the subtraction.
within : ℕ → ℕ → ℤ → Bool
within now start (pos n) = leb now (start + n)
within now start (negsuc n) = leb (now + n + 1) start

-- `RunBudget.ok`
unfoldable pub ok : ℕ → RunBudget → Bool
unfolding within
ok now b = within now b.start b.max_seconds

-- `Scheduler`
pub record Scheduler : Type 0 where
  pub max_concurrent : ℕ
  pub active : Dict RunBudget

unfoldable pub init : ℤ → Scheduler
init max_concurrent = record { max_concurrent = max 1 (pos_part max_concurrent); active = [] }

-- `run_id or "__default__"`
abbrev pub rid_of : String → String
rid_of run_id = if str_eq run_id "" then "__default__" else run_id

unfoldable pub start_run : ℕ → String → ℤ → Scheduler → Scheduler × Bool
start_run now run_id max_seconds s =
    let rid = rid_of run_id in
    let b : RunBudget = record { start = now; max_seconds = max_seconds } in
    if is_some (get s.active rid)
    then (s, true)
    else if leb s.max_concurrent (length s.active)
    then (s, false)
    else (record s { active = put s.active rid b }, true)

unfoldable pub end_run : String → Scheduler → Scheduler
end_run run_id s = record s { active = remove s.active (rid_of run_id) }

ok_in : ℕ → Option RunBudget → Bool
ok_in now none = false
ok_in now (some b) = ok now b

unfoldable pub budget_ok : ℕ → String → Scheduler → Bool
unfolding ok_in
budget_ok now run_id s = ok_in now (get s.active (rid_of run_id))

-- The methods that change the scheduler, as the threads call them.
pub data Request : Type 0 where
  starting : ℕ → String → ℤ → Request
  ending : String → Request

unfoldable pub handle : Request → Scheduler → Scheduler
handle (starting now run_id max_seconds) s = (start_run now run_id max_seconds s).0
handle (ending run_id) s = end_run run_id s

unfoldable pub handle_all : List Request → Scheduler → Scheduler
handle_all [] s = s
handle_all (r ∷ rs) s = handle_all rs (handle r s)

handle-le :
    (r : Request) (s : Scheduler)
    → length s.active ≤ s.max_concurrent
    → (length (handle r s).active ≤ s.max_concurrent)
      × ((handle r s).max_concurrent ≡ s.max_concurrent)
unfolding handle start_run end_run
handle-le (starting now run_id z) s h =
    ground (arith, length-put s.active (rid_of run_id) (record { start = now; max_seconds = z }))
handle-le (ending run_id) s h = (omega (arith, length-remove-le s.active (rid_of run_id)), refl)

-- From a scheduler that has no more active runs than its maximum, whatever threads start and end
-- runs in whatever order, no more runs are active than the maximum.
pub handle_all-le :
    (rs : List Request) (s : Scheduler)
    → length s.active ≤ s.max_concurrent
    → length (handle_all rs s).active ≤ (handle_all rs s).max_concurrent
unfolding handle_all
handle_all-le [] s h = h
handle_all-le (r ∷ rs) s h =
    let (le, same) = handle-le r s h in handle_all-le rs (handle r s) (rw same le)

-- The answer of `start_run` says exactly whether the run is active afterwards, and starting a run
-- never touches another one.
pub start_run-get :
    (now : ℕ) (run_id other : String) (max_seconds : ℤ) (s : Scheduler)
    → ((start_run now run_id max_seconds s).1
        ≡ is_some (get (start_run now run_id max_seconds s).0.active (rid_of run_id)))
      × ((str_eq (rid_of run_id) (rid_of other) ≡ true)
          ⊎ (get (start_run now run_id max_seconds s).0.active (rid_of other)
              ≡ get s.active (rid_of other)))
unfolding start_run
start_run-get now run_id other z s =
    let b : RunBudget = record { start = now; max_seconds = z } in
    elim (Bool-cases (is_some (get s.active (rid_of run_id)))) [
      | inl running ↦ rw running (sym running, inr refl)
      | inr idle ↦ elim (Bool-cases (leb s.max_concurrent (length s.active))) [
        | inl full ↦ rw (idle, full) (sym idle, inr refl)
        | inr room ↦
            rw
              (
                idle,
                room,
                get-put s.active (rid_of run_id) (rid_of run_id) b,
                eq_refl (rid_of run_id),
              )
              (
                refl,
                elim (Bool-cases (str_eq (rid_of run_id) (rid_of other))) [
                  | inl same ↦ inl same
                  | inr differs ↦
                      inr (rw (get-put s.active (rid_of run_id) (rid_of other) b, differs) refl)
                ],
              )
      ]
    ]

-- A run that was ended is not within any budget until it is started again.
pub end_run-budget_ok :
    (now : ℕ) (run_id : String) (s : Scheduler) → budget_ok now run_id (end_run run_id s) ≡ false
unfolding budget_ok end_run ok_in
end_run-budget_ok now run_id s =
    rw (get-remove s.active (rid_of run_id) (rid_of run_id), eq_refl (rid_of run_id)) refl
