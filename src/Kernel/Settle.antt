-- ===== src/Kernel/Settle.antt =====
-- `kernel_step` of rfsn_kernel/kernel.py: what the evidence of the learner gives to the simulation,
-- and what an execution does to the kernel.
use rfsn_agent_full.Base.{
  leb, ◌==◌, if◌then◌else◌, ℕ, ◌+◌, ◌-◌, min, String, Bool, true, false, Option, none, some, List,
  [], ◌∷◌, ◌++◌, str_eq,
}
use rfsn_agent_full.Base.Float.{Floats, of_ℕ, min_float, max_float}
use rfsn_agent_full.Base.Int.{negsuc}
use rfsn_agent_full.Base.Text.{Text, codes}
use rfsn_agent_full.Kernel.Policy.{risk_max_of, success_min_of}
use rfsn_agent_full.Kernel.State.{
  Proposal, Outcome, SystemState, text_or_empty, record_action, record_failure, record_success,
  advance_step,
}
use rfsn_agent_full.Kernel.Simulate.{SimResult, Priors}
use rfsn_agent_full.Kernel.Verify.{Violation, is_failure_cluster}
use rfsn_agent_full.Kernel.RunState.{RunState, get_run, set_run}
use rfsn_agent_full.Kernel.Tier.{pick_next_tier}
use rfsn_agent_full.Base.Int.{int_value}
use rfsn_agent_full.Kernel.FailureKinds.{extract_failure_kinds}
use rfsn_agent_full.Kernel.Normalize.{RawStep}
use rfsn_agent_full.Kernel.Commit.{append_kernel_event}
use rfsn_agent_full.Kernel.Core.{
  tier_escalated, EventMeta, Execution, returned, raised, HardKernel, Extern,
}

-- `learner_evidence`, with the numbers that its conversions give.
pub record Evidence (Float : Type 0) : Type 0 where
  pub prior_success_prob : Option Float
  pub prior_trials : ℕ
  pub failure_occurrence : ℕ
  pub known_traps : Option (List String)

-- What the caller of `kernel_step` names.
pub record Request (Float : Type 0) : Type 0 where
  pub raw_step : RawStep
  pub context : String
  pub intent : String
  pub bundle_id : String
  pub run_id : String
  pub evidence : Option (Evidence Float)

abbrev rollback_note : Text
rollback_note =
    10
    ∷ codes
        "[KERNEL SYSTEM OVERRIDE]: 3 consecutive failures. WORKSPACE ROLLED BACK. ABANDON HYPOTHESIS."

-- `consecutive_failures`, and whether `_check_and_trigger_rollback` fires.
unfoldable pub count_failures : Bool → ℕ → ℕ × Bool
count_failures success n =
    let m : ℕ = if success then 0 else n + 1 in if leb 3 m then (0, true) else (m, false)

kinds_or : Option String → List String → List String
kinds_or none ks = ks
kinds_or (some k) ks = if str_eq k "" then ks else k ∷ []

module _ {Float : Type 0} where
  unfoldable pub with_note : Bool → Outcome Float → Outcome Float
  with_note false o = o
  with_note true o = record o { error = some (text_or_empty o.error ++ rollback_note) }

module _ {Float W : Type 0} (x : Extern Float W) where
  -- The failure kinds of an outcome: the payload's own, or those of its logs.
  unfoldable pub kinds_of : Outcome Float → List String
  unfolding kinds_or
  kinds_of o = kinds_or (x.failure_kind_of o.payload) (
      extract_failure_kinds x.unicode
        (record { status = some (int_value o.exit_code); logs = o.logs; payload = o.payload }))

  -- A tier that stays gives no event.
  unfoldable pub note_escalation : Bool → EventMeta Float → HardKernel Float → HardKernel Float
  note_escalation true e k = k
  note_escalation false e k = append_kernel_event x e "TIER_ESCALATED" k

  -- The tier of the run after the step, with the event of an escalation.
  unfoldable pub escalate : Request Float → List String → HardKernel Float → HardKernel Float
  escalate q kinds k =
      let (runs, rs) = get_run q.run_id k.run_state in
      let td = pick_next_tier rs.tier kinds k.tier_policy.rules in
      let rs' : RunState = record rs { tier = td.tier; failure_kinds = kinds } in
      let k1 = record k { run_state = set_run q.run_id rs' runs } in
      let e : EventMeta Float = record {
        run_id = q.run_id;
        intent = q.intent;
        bundle_id = q.bundle_id;
        event = tier_escalated rs.tier td.tier td.reason kinds;
      } in
      note_escalation (td.tier == rs.tier) e k1

module _ (F : Floats) where
  open F use {Float, dec, add, sub, mul}

  prior_loop_risk_of : ℕ → Option Float
  prior_loop_risk_of n =
      let risk = min_float F (dec 9 1) (add (dec 2 1) (mul (dec 1 1) (of_ℕ F (min n 5)))) in
      if leb 2 n then some (max_float F risk (dec 7 1)) else none

  unfoldable pub priors_of : Option (Evidence Float) → Priors Float
  unfolding prior_loop_risk_of
  priors_of none = record {
    prior_success_prob = none;
    prior_trials = 0;
    prior_loop_risk = none;
    known_traps = none;
  }
  priors_of (some e) = record {
    prior_success_prob = e.prior_success_prob;
    prior_trials = e.prior_trials;
    prior_loop_risk = prior_loop_risk_of e.failure_occurrence;
    known_traps = e.known_traps;
  }

  -- `except Exception`: an execution that raises is a failed outcome.
  unfoldable pub outcome_of : Execution Float → Outcome Float
  outcome_of (returned o) = o
  outcome_of (raised message) = record {
    success = false;
    exit_code = negsuc 0;
    payload = [];
    logs = [];
    duration_sec = dec 0 0;
    error = some message;
    state_delta_hash = "";
  }

  -- The state after an execution.
  unfoldable pub settle_state :
      Proposal → SimResult Float → Outcome Float → SystemState Float → SystemState Float
  settle_state p sim o s =
      let s1 = record_action p.action (advance_step s) in
      let s2 = record s1 { total_cost = add s1.total_cost sim.cost_est } in
      if o.success then record_success s2 else record_failure s2

  -- `_adaptive_tighten`
  unfoldable pub adaptive_tighten : HardKernel Float → HardKernel Float
  adaptive_tighten k = record k {
    state = record k.state { safety_level = min 2 (k.state.safety_level + 1) };
    policy = record k.policy {
      risk_max = some (max_float F (dec 3 1) (sub (risk_max_of F k.policy) (dec 1 1)));
      success_min = some (min_float F (dec 5 1) (add (success_min_of F k.policy) (dec 5 2)));
    };
  }

  -- The loop over the violations of a failed verification.
  unfoldable pub tighten_for : List (Violation Float) → HardKernel Float → HardKernel Float
  tighten_for [] k = k
  tighten_for (v ∷ vs) k = tighten_for vs (if is_failure_cluster v then adaptive_tighten k else k)

  unfoldable pub tighten_unless :
      Bool → List (Violation Float) → HardKernel Float → HardKernel Float
  tighten_unless true vs k = k
  tighten_unless false vs k = tighten_for vs k

  -- `adaptive_relax`
  unfoldable pub adaptive_relax : HardKernel Float → HardKernel Float
  adaptive_relax k = record k {
    state = record k.state { safety_level = k.state.safety_level - 1 };
    policy = record k.policy {
      risk_max = some (min_float F (dec 8 1) (add (risk_max_of F k.policy) (dec 5 2)));
      success_min = some (max_float F (dec 1 1) (sub (success_min_of F k.policy) (dec 2 2)));
    };
  }
