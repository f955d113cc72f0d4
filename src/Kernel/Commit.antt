-- ===== src/Kernel/Commit.antt =====
-- rfsn_kernel/kernel.py: the two ways in which the kernel writes to its ledger. The clock is read
-- once in a step.
use rfsn_agent_full.Base.{String, Option, none, some}
use rfsn_agent_full.Ledger.{Body, LedgerRecord, append}
use rfsn_agent_full.Kernel.State.{Proposal, Outcome}
use rfsn_agent_full.Kernel.Simulate.{SimResult}
use rfsn_agent_full.Kernel.Risk.{RiskBreakdown}
use rfsn_agent_full.Kernel.Verify.{VerificationResult}
use rfsn_agent_full.Kernel.RunState.{get_run}
use rfsn_agent_full.Kernel.Core.{
  StepReason, event_reason, Content, EventMeta, Meta, event_meta, step_meta, HardKernel, Extern,
}

module _ {Float W : Type 0} (x : Extern Float W) where
  outcome_hash_of : Option (Outcome Float) → Option String
  outcome_hash_of none = none
  outcome_hash_of (some o) = some (x.sha256 (x.outcome_text o))

  -- `_append_kernel_event`
  unfoldable pub append_kernel_event :
      EventMeta Float → String → HardKernel Float → HardKernel Float
  append_kernel_event e event_type k =
      let ev_hash = x.sha256 (x.event_text e) in
      let body : Body (Content Float) = record {
        content = record {
          proposal_hash = ev_hash;
          simulation = none;
          risk = none;
          decision_reason = event_reason event_type;
          verification = none;
        };
        decision = "REJECT";
        outcome_hash = none;
        state_hash = x.sha256 (Prim.Native.String.◌++◌ "kernel_event:" ev_hash);
      } in
      record k { store = (append x.sha256 x.canon x.sign x.now body (event_meta e) k.store).1 }

  -- `_commit_ledger`
  unfoldable pub commit_ledger :
      Proposal
      → Option (SimResult Float)
      → Option (RiskBreakdown Float)
      → String
      → StepReason Float
      → Option (Outcome Float)
      → Option (VerificationResult Float)
      → String
      → HardKernel Float
      → LedgerRecord (Content Float) (Meta Float) × HardKernel Float
  unfolding outcome_hash_of
  commit_ledger p sim risk decision reason outcome verification run_id k =
      let (runs, rs) = get_run run_id k.run_state in
      let body : Body (Content Float) = record {
        content = record {
          proposal_hash = x.sha256 (x.proposal_text p);
          simulation = sim;
          risk = risk;
          decision_reason = reason;
          verification = verification;
        };
        decision = decision;
        outcome_hash = outcome_hash_of outcome;
        state_hash = x.sha256 (x.state_text k.state);
      } in
      let meta : Meta Float = step_meta (record {
        action = p.action;
        intent = p.intent;
        run_id = run_id;
        bundle_id = p.bundle_id;
        tier = rs.tier;
        context_hash = p.context_hash;
        memory_version = k.state.memory_version;
        env_hash = k.state.env_hash;
        step_count = k.state.step_count;
      }) in
      let (r, store) = append x.sha256 x.canon x.sign x.now body meta k.store in
      (r, record k { store = store; run_state = runs })
