-- ===== src/Kernel/Decide/Law.antt =====
-- When the decision law approves.
use rfsn_agent_full.Base.{◌≡◌, ◌↔◌, true, false, arith}
use rfsn_agent_full.Base.Float.{Floats}
use rfsn_agent_full.Kernel.Policy.{Policy, risk_max_of, success_min_of, loop_max_of, drift_max_of}
use rfsn_agent_full.Kernel.State.{Proposal}
use rfsn_agent_full.Kernel.Simulate.{SimResult}
use rfsn_agent_full.Kernel.Risk.{RiskBreakdown}
use rfsn_agent_full.Kernel.Decide.{decide, is_cluster}

module _ (F : Floats) where
  open F use {Float, dec, gtb}

  -- The five bounds that an approved action keeps.
  pub record IsWithin (sim : SimResult Float) (risk : RiskBreakdown Float) (policy : Policy Float)
      : Type 0 where
    pub loop : gtb sim.loop_risk (loop_max_of F policy) ≡ false
    pub drift : gtb sim.drift_risk (drift_max_of F policy) ≡ false
    pub cluster : is_cluster sim.failure_mode ≡ false
    pub risky : gtb risk.effective_risk (risk_max_of F policy) ≡ false
    pub hopeful : gtb (success_min_of F policy) sim.success_prob ≡ false

  -- An action is approved exactly when its loop risk, its drift risk and its effective risk are at
  -- most their maxima, no cluster failure is predicted, and its success probability is at least the
  -- minimum.
  pub decide-IsWithin :
      (p : Proposal) (sim : SimResult Float) (risk : RiskBreakdown Float) (policy : Policy Float)
      → ((decide F p sim risk policy).is_approved ≡ true) ↔ IsWithin sim risk policy
  unfolding decide
  decide-IsWithin p sim risk policy = ((λ h. ground arith), λ h. ground arith)
