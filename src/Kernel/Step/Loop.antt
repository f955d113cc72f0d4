-- ===== src/Kernel/Step/Loop.antt =====
-- An action that the planner repeats.
use rfsn_agent_full.Base.{◌≤◌, ◌≡◌, refl, inl, inr, true, Option, none}
use rfsn_agent_full.Base.Float.{Floats}
use rfsn_agent_full.Kernel.Policy.{loop_max_of}
use rfsn_agent_full.Kernel.Decide.Law.{decide-IsWithin}
use rfsn_agent_full.Kernel.Simulate.Loop.{repeats, simulate-repeats}
use rfsn_agent_full.Kernel.Settle.{Evidence, Request, priors_of}
use rfsn_agent_full.Kernel.Core.{HardKernel, Extern}
use rfsn_agent_full.Kernel.Step.{kernel_step}
use rfsn_agent_full.Kernel.Step.Course.{proposal_of, sim_of, risk_of}
use rfsn_agent_full.Kernel.Step.Safety.{IsStopped, kernel_step-IsCleared}

module _ (F : Floats) {W : Type 0} (x : Extern F.Float W) where
  open F use {Float, dec, gtb}

  no_prior : (e : Option (Evidence Float)) → e ≡ none → (priors_of F e).prior_loop_risk ≡ none
  unfolding priors_of
  no_prior e h = rw h refl

  -- Without evidence from the learner, and with a policy whose maximum of the loop risk is below
  -- 0.95, an action that stands four times in a row at the end of the recent actions is not executed
  -- again: the world and the tier of every run are left as they were, and of the rest of the kernel
  -- only the ledger and the recent actions are changed.
  pub kernel_step-repeats :
      (q : Request Float) (k : HardKernel Float) (w : W)
      → q.evidence ≡ none
      → gtb (dec 95 2) (loop_max_of F k.policy) ≡ true
      → 4 ≤ repeats F (proposal_of F x q).action k.state
      → IsStopped F x k w (kernel_step F x q k w)
  kernel_step-repeats q k w e high many = elim (kernel_step-IsCleared F x q k w) [
    | inl (cleared, _, _) ↦
        let within =
          (decide-IsWithin F (proposal_of F x q) (sim_of F x q k) (risk_of F x q k) k.policy).0
            cleared.approved in
        let risk : (sim_of F x q k).loop_risk ≡ dec 95 2 =
          simulate-repeats F (proposal_of F x q) k.state k.history q.context
            (priors_of F q.evidence) (no_prior q.evidence e) many in
        absurd (cc (high, rw risk at within.loop))
    | inr stopped ↦ stopped
  ]
