-- ===== src/Kernel/RunState.antt =====
-- rfsn_kernel/run_state.py: the tier and the last failure kinds of each run.
use rfsn_agent_full.Base.{
  if◌then◌else◌, Option-cases, ℕ, String, ◌≡◌, inl, inr, Option, none, some, List, [], arith,
  str_eq, eq_iff,
}
use rfsn_agent_full.Base.Dict.{Dict, get, put, remove, get-put}

pub record RunState : Type 0 where
  pub run_id : String
  pub tier : ℕ
  pub failure_kinds : List String

abbrev pub Runs : Type 0
Runs = Dict RunState

-- `run_id or "__default__"`
abbrev pub key_of : String → String
key_of run_id = if str_eq run_id "" then "__default__" else run_id

abbrev fresh : String → RunState
fresh rid = record { run_id = rid; tier = 0; failure_kinds = [] }

or_fresh : Option RunState → String → Runs → Runs × RunState
or_fresh none rid runs = (put runs rid (fresh rid), fresh rid)
or_fresh (some rs) rid runs = (runs, rs)

-- `RunStateStore.get`: a run that is not there yet is entered at tier 0.
unfoldable pub get_run : String → Runs → Runs × RunState
unfolding or_fresh
get_run run_id runs = or_fresh (get runs (key_of run_id)) (key_of run_id) runs

-- The assignments through the object that `get` returns.
unfoldable pub set_run : String → RunState → Runs → Runs
set_run run_id rs runs = put runs (key_of run_id) rs

unfoldable pub set_tier : String → ℕ → Runs → Runs
set_tier run_id tier runs =
    let (runs', rs) = get_run run_id runs in set_run run_id (record rs { tier = tier }) runs'

unfoldable pub clear : String → Runs → Runs
clear run_id runs = remove runs (key_of run_id)

-- The tier at which the kernel sees a run.
abbrev pub tier_of : String → Runs → ℕ
tier_of run_id runs = (get_run run_id runs).1.tier

abbrev tier_in : Option RunState → ℕ
tier_in none = 0
tier_in (some rs) = rs.tier

tier_of_lem :
    (run_id : String) (runs : Runs) → tier_of run_id runs ≡ tier_in (get runs (key_of run_id))
unfolding get_run
tier_of_lem run_id runs = ground arith

pub tier_of-set_run :
    (run_id other : String) (rs : RunState) (runs : Runs)
    → tier_of other (set_run run_id rs runs)
      ≡ (if str_eq (key_of run_id) (key_of other) then rs.tier else tier_of other runs)
tier_of-set_run run_id other rs runs =
    simp tier_of_lem (unfold set_run in simp get-put (ground arith))

pub tier_of-get_run :
    (run_id other : String) (runs : Runs)
    → tier_of other (get_run run_id runs).0 ≡ tier_of other runs
tier_of-get_run run_id other runs = elim (Option-cases (get runs (key_of run_id))) [
  | inl absent ↦ simp tier_of_lem (
      unfold get_run in
      rw (absent, or_fresh)
        (simp get-put (ground (arith, absent, eq_iff (key_of run_id) (key_of other)))))
  | inr (rs, found) ↦ simp tier_of_lem (unfold get_run in rw (found, or_fresh))
]

-- Setting the tier of a run gives it that tier and leaves every other run's.
pub tier_of-set_tier :
    (run_id other : String) (tier : ℕ) (runs : Runs)
    → tier_of other (set_tier run_id tier runs)
      ≡ (if str_eq (key_of run_id) (key_of other) then tier else tier_of other runs)
unfolding set_tier
tier_of-set_tier run_id other tier runs = simp (tier_of-set_run, tier_of-get_run)
