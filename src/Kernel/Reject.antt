-- ===== src/Kernel/Reject.antt =====
-- `kernel_step` of rfsn_kernel/kernel.py: the three ways in which a step ends without an execution.
use rfsn_agent_full.Base.{ℕ, false, none, some}
use rfsn_agent_full.Kernel.State.{Proposal, record_action}
use rfsn_agent_full.Kernel.Simulate.{SimResult}
use rfsn_agent_full.Kernel.Risk.{RiskBreakdown}
use rfsn_agent_full.Kernel.Decide.{Decision}
use rfsn_agent_full.Kernel.Validate.{ValidationResult}
use rfsn_agent_full.Kernel.Commit.{append_kernel_event, commit_ledger}
use rfsn_agent_full.Kernel.Settle.{Request}
use rfsn_agent_full.Kernel.Core.{
  StepReason, validation_failed, decided, tier_step_rejected, EventMeta, HardKernel, Extern,
  validate_phase, decide_phase, StepResult,
}

module _ {Float W : Type 0} (x : Extern Float W) where
  -- The rejections by the tier: an event and a record, and no execution.
  unfoldable pub reject_by_tier :
      Request Float
      → Proposal
      → ℕ
      → StepReason Float
      → HardKernel Float
      → StepResult Float × HardKernel Float
  reject_by_tier q p tier reason k =
      let e : EventMeta Float = record {
        run_id = q.run_id;
        intent = q.intent;
        bundle_id = q.bundle_id;
        event = tier_step_rejected tier reason;
      } in
      let k1 = append_kernel_event x e "TIER_STEP_REJECTED" k in
      let (r, k2) = commit_ledger x p none none "REJECT" reason none none q.run_id k1 in
      (
        record {
          phase = validate_phase;
          proposal = p;
          validation = none;
          simulation = none;
          risk = none;
          decision = some (false, reason);
          outcome = none;
          verification = none;
          ledger_record = r;
        },
        k2,
      )

  unfoldable pub reject_by_validation :
      Request Float
      → Proposal
      → ValidationResult
      → HardKernel Float
      → StepResult Float × HardKernel Float
  reject_by_validation q p v k =
      let (r, k1) =
        commit_ledger x p none none "REJECT" (validation_failed v.errors) none none q.run_id k in
      (
        record {
          phase = validate_phase;
          proposal = p;
          validation = some v;
          simulation = none;
          risk = none;
          decision = none;
          outcome = none;
          verification = none;
          ledger_record = r;
        },
        k1,
      )

  unfoldable pub reject_by_decision :
      Request Float
      → Proposal
      → ValidationResult
      → SimResult Float
      → RiskBreakdown Float
      → Decision Float
      → HardKernel Float
      → StepResult Float × HardKernel Float
  reject_by_decision q p v sim risk d k =
      let k1 = record k { state = record_action p.action k.state } in
      let (r, k2) =
        commit_ledger x p (some sim) (some risk) "REJECT" (decided d.reason) none none q.run_id
          k1 in
      (
        record {
          phase = decide_phase;
          proposal = p;
          validation = some v;
          simulation = some sim;
          risk = some risk;
          decision = some (false, decided d.reason);
          outcome = none;
          verification = none;
          ledger_record = r;
        },
        k2,
      )
