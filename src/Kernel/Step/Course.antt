-- ===== src/Kernel/Step/Course.antt =====
-- The four courses that a step of the kernel can take.
use rfsn_agent_full.Base.{Bool-cases, Option-cases, ◌≡◌, inl, inr, true, false, Option, none, some}
use rfsn_agent_full.Base.Float.{Floats}
use rfsn_agent_full.Kernel.State.{Proposal}
use rfsn_agent_full.Kernel.Simulate.{SimResult, simulate}
use rfsn_agent_full.Kernel.Risk.{RiskBreakdown, risk_score}
use rfsn_agent_full.Kernel.Decide.{Decision, decide}
use rfsn_agent_full.Kernel.RunState.{get_run, tier_of}
use rfsn_agent_full.Kernel.Validate.{ValidationResult, validate}
use rfsn_agent_full.Kernel.Normalize.{normalize}
use rfsn_agent_full.Kernel.Guard.{tier_rejection}
use rfsn_agent_full.Kernel.Settle.{Request, priors_of, outcome_of}
use rfsn_agent_full.Kernel.Core.{StepReason, HardKernel, Extern, StepResult}
use rfsn_agent_full.Kernel.Reject.{reject_by_tier, reject_by_validation, reject_by_decision}
use rfsn_agent_full.Kernel.Step.{after_execution, decide_and_execute, kernel_step, validate_and_go}

module _ (F : Floats) {W : Type 0} (x : Extern F.Float W) where
  open F use {Float}

  abbrev pub proposal_of : Request Float → Proposal
  proposal_of q = normalize x.planner_hash_of q.raw_step q.intent q.context q.bundle_id

  -- The kernel once the run has its entry.
  abbrev pub entered : Request Float → HardKernel Float → HardKernel Float
  entered q k = record k { run_state = (get_run q.run_id k.run_state).0 }

  abbrev pub rejection_of : Request Float → HardKernel Float → Option (StepReason Float)
  rejection_of q k = tier_rejection x (entered q k) q.raw_step (tier_of q.run_id k.run_state)

  abbrev pub validation_of : Request Float → HardKernel Float → ValidationResult
  validation_of q k =
      validate x.unicode.is_decimal x.unicode.lower x.unicode.fold_case (proposal_of q) k.state
        k.policy

  abbrev pub sim_of : Request Float → HardKernel Float → SimResult Float
  sim_of q k = simulate F (proposal_of q) k.state k.history q.context (priors_of F q.evidence)

  abbrev pub risk_of : Request Float → HardKernel Float → RiskBreakdown Float
  risk_of q k = risk_score F (proposal_of q) (sim_of q k) k.state k.policy

  abbrev pub decision_of : Request Float → HardKernel Float → Decision Float
  decision_of q k = decide F (proposal_of q) (sim_of q k) (risk_of q k) k.policy

  abbrev pub execution_of :
      Request Float → HardKernel Float → W → StepResult Float × HardKernel Float
  execution_of q k w =
      after_execution F x q (proposal_of q) (validation_of q k) (sim_of q k) (risk_of q k)
        (decision_of q k) (outcome_of F (x.execute (proposal_of q) w).0) (entered q k)

  -- All the gates let the step through.
  pub record IsCleared (q : Request Float) (k : HardKernel Float) : Type 0 where
    pub tier : rejection_of q k ≡ none
    pub valid : (validation_of q k).ok ≡ true
    pub approved : (decision_of q k).is_approved ≡ true

  abbrev pub with_world :
      StepResult Float × HardKernel Float → W → StepResult Float × HardKernel Float × W
  with_world r w = (r.0, r.1, w)

  pub data Course (q : Request Float) (k : HardKernel Float) (w : W)
      : StepResult Float × HardKernel Float × W → Type 0 where
    by_tier :
        (reason : StepReason Float)
        → rejection_of q k ≡ some reason
        → Course q k w (
            with_world
              (reject_by_tier x q
                (proposal_of q)
                (tier_of q.run_id k.run_state)
                reason
                (entered q k))
              w)
    by_validation :
        (validation_of q k).ok ≡ false
        → Course q k w (
            with_world
              (reject_by_validation x q (proposal_of q) (validation_of q k) (entered q k))
              w)
    by_decision :
        (decision_of q k).is_approved ≡ false
        → Course q k w (
            with_world
              (reject_by_decision x q
                (proposal_of q)
                (validation_of q k)
                (sim_of q k)
                (risk_of q k)
                (decision_of q k)
                (entered q k))
              w)
    executed :
        IsCleared q k
        → Course q k w (with_world (execution_of q k w) (x.execute (proposal_of q) w).1)

  pub course :
      (q : Request Float) (k : HardKernel Float) (w : W) → Course q k w (kernel_step F x q k w)
  unfolding kernel_step decide_and_execute
  course q k w = elim (Option-cases (rejection_of q k)) [
    | inl none_found ↦ elim (Bool-cases (validation_of q k).ok) [
      | inl valid ↦ elim (Bool-cases (decision_of q k).is_approved) [
        | inl good ↦
            simp (none_found, validate_and_go, valid, good)
              (executed (record { tier = none_found; valid = valid; approved = good }))
        | inr bad ↦ simp (none_found, validate_and_go, valid, bad) (by_decision bad)
      ]
      | inr invalid ↦ simp (none_found, validate_and_go, invalid) (by_validation invalid)
    ]
    | inr (reason, found) ↦ rw (found, validate_and_go) (by_tier reason found)
  ]
