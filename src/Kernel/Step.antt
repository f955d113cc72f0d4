-- ===== src/Kernel/Step.antt =====
-- `kernel_step` of rfsn_kernel/kernel.py, whose parts are in Guard, Commit, Reject and Settle.
pub mod Course
pub mod Safety
pub mod Loop
pub mod Bounds
pub mod Audit
pub mod Synced
pub mod Tiers
use rfsn_agent_full.Base.{
  ltb, leb, ◌==◌, if◌then◌else◌, ltb→lt, lt→ltb, leb→le, bool_tests, Bool-cases, Option-cases,
  is_some, str_eq_of, of_str_eq, &&_true, length, get_elem?, take, drop, last_n, any, all, All,
  length-append, length-drop, length-take-le, length-last_n, All-append, get_elem?-append_left,
  get_elem?-append_length, get_elem?-take, length-take, get_elem?-none, get_elem?-some, ℕ, zero,
  suc, ◌+◌, ◌-◌, ◌*◌, ◌/◌, ◌%◌, ◌^◌, ◌≤◌, ◌<◌, min, max, String, ◌≡◌, refl, sym, ap, ◌∙◌, ◌≢◌, ◌↔◌,
  ◌⊎◌, inl, inr, Bool, true, false, not, ◌&&◌, ◌||◌, Option, none, some, List, [], ◌∷◌, ◌++◌, map,
  arith, str_eq, eq_iff, eq_refl,
}
use rfsn_agent_full.Base.Float.{Floats, of_ℕ, min_float, max_float}
use rfsn_agent_full.Base.Int.{ℤ, pos, negsuc}
use rfsn_agent_full.Base.Text.{Text, codes, starts_with, splitlines}
use rfsn_agent_full.Ledger.{Body, LedgerRecord, append}
use rfsn_agent_full.Kernel.Policy.{Policy, risk_max_of, success_min_of}
use rfsn_agent_full.Kernel.State.{
  Proposal, Outcome, SystemState, text_or_empty, record_action, record_failure, record_success,
  advance_step,
}
use rfsn_agent_full.Kernel.Simulate.{SimResult, Priors, simulate}
use rfsn_agent_full.Kernel.Simulate.History.{record_outcome}
use rfsn_agent_full.Kernel.Risk.{RiskBreakdown, risk_score}
use rfsn_agent_full.Kernel.Decide.{Decision, decide}
use rfsn_agent_full.Kernel.Verify.{Violation, VerificationResult, is_failure_cluster, verify}
use rfsn_agent_full.Kernel.RunState.{RunState, Runs, get_run, set_run}
use rfsn_agent_full.Kernel.Tier.{
  Kind, Allow, TierDecision, step_touches, tier_allows_step, pick_next_tier,
}
use rfsn_agent_full.Kernel.Validate.{ValidationResult, validate}
use rfsn_agent_full.Kernel.FailureKinds.{extract_failure_kinds}
use rfsn_agent_full.Kernel.Normalize.{RawStep, gate_view, normalize}
use rfsn_agent_full.Kernel.Guard.{tier_rejection}
use rfsn_agent_full.Kernel.Reject.{reject_by_tier, reject_by_validation, reject_by_decision}
use rfsn_agent_full.Kernel.Commit.{append_kernel_event, commit_ledger}
use rfsn_agent_full.Kernel.Settle.{
  Evidence, Request, priors_of, outcome_of, settle_state, count_failures, with_note, kinds_of,
  escalate, tighten_unless,
}
use rfsn_agent_full.Kernel.Core.{
  Budgets, TierCfg, StepReason, steps_exceeded, patch_bytes_exceeded, files_exceeded,
  lines_exceeded, tier_forbids, validation_failed, decided, event_reason, KernelEvent,
  tier_step_rejected, tier_escalated, Content, EventMeta, StepMeta, Meta, event_meta, step_meta,
  Execution, returned, raised, HardKernel, Extern, Phase, validate_phase, decide_phase,
  commit_phase, StepResult,
}

module _ (F : Floats) {W : Type 0} (x : Extern F.Float W) where
  open F use {Float}

  -- The commit of an executed step.
  unfoldable pub commit_execution :
      Request Float
      → Proposal
      → ValidationResult
      → SimResult Float
      → RiskBreakdown Float
      → Decision Float
      → Outcome Float
      → VerificationResult Float
      → HardKernel Float
      → StepResult Float × HardKernel Float
  commit_execution q p v sim risk d o verification k =
      let (r, k1) =
        commit_ledger x p (some sim) (some risk) "APPROVE" (decided d.reason) (some o)
          (some verification) q.run_id k in
      (
        record {
          phase = commit_phase;
          proposal = p;
          validation = some v;
          simulation = some sim;
          risk = some risk;
          decision = some (true, decided d.reason);
          outcome = some o;
          verification = some verification;
          ledger_record = r;
        },
        record k1 { steps_done = k1.steps_done + 1 },
      )

  -- Everything after the execution: state, rollback check, history, tier, verification, commit.
  unfoldable pub after_execution :
      Request Float
      → Proposal
      → ValidationResult
      → SimResult Float
      → RiskBreakdown Float
      → Decision Float
      → Outcome Float
      → HardKernel Float
      → StepResult Float × HardKernel Float
  after_execution q p v sim risk d o k =
      let (failures, rollback) = count_failures o.success k.consecutive_failures in
      let o' = with_note rollback o in
      let k1 = record k {
        state = settle_state F p sim o k.state;
        consecutive_failures = failures;
        history = record_outcome F p.action q.context o'.success sim.cost_est k.history;
      } in
      let k2 = escalate x q (kinds_of x o') k1 in
      let verification = verify F o' k2.state k2.policy in
      commit_execution q p v sim risk d o' verification
        (tighten_unless F verification.ok verification.violations k2)

  -- Steps 3 to 8, for a proposal that the validation let through.
  unfoldable pub decide_and_execute :
      Request Float
      → Proposal
      → ValidationResult
      → HardKernel Float
      → W
      → StepResult Float × HardKernel Float × W
  decide_and_execute q p v k w =
      let sim = simulate F p k.state k.history q.context (priors_of F q.evidence) in
      let risk = risk_score F p sim k.state k.policy in
      let d = decide F p sim risk k.policy in
      let rejected = reject_by_decision x q p v sim risk d k in
      let run = x.execute p w in
      let committed = after_execution q p v sim risk d (outcome_of F run.0) k in
      if d.is_approved then (committed.0, committed.1, run.1) else (rejected.0, rejected.1, w)

  unfoldable pub validate_and_go :
      Option (StepReason Float)
      → Request Float
      → Proposal
      → ℕ
      → HardKernel Float
      → W
      → StepResult Float × HardKernel Float × W
  validate_and_go (some reason) q p tier k w =
      let r = reject_by_tier x q p tier reason k in (r.0, r.1, w)
  validate_and_go none q p tier k w =
      let v =
        validate x.unicode.is_decimal x.unicode.lower x.unicode.fold_case p k.state k.policy in
      let rejected = reject_by_validation x q p v k in
      if v.ok then decide_and_execute q p v k w else (rejected.0, rejected.1, w)

  -- `kernel_step`
  unfoldable pub kernel_step :
      Request Float → HardKernel Float → W → StepResult Float × HardKernel Float × W
  unfolding validate_and_go
  kernel_step q k w =
      let p = normalize x.planner_hash_of q.raw_step q.intent q.context q.bundle_id in
      let (runs, rs) = get_run q.run_id k.run_state in
      let k1 = record k { run_state = runs } in
      validate_and_go (tier_rejection x k1 q.raw_step rs.tier) q p rs.tier k1 w

  -- One step after the other: the kernel and the world are passed along.
  unfoldable pub run_steps : List (Request Float) → HardKernel Float → W → HardKernel Float × W
  run_steps [] k w = (k, w)
  run_steps (q ∷ qs) k w = let out = kernel_step q k w in run_steps qs out.1 out.2
