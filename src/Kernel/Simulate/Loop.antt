-- ===== src/Kernel/Simulate/Loop.antt =====
-- The loop risk that `simulate` gives to an action that is repeated.
use rfsn_agent_full.Base.{leb, last_n, ℕ, ◌≤◌, String, ◌≡◌, refl, ◌∙◌, true, Option, none, arith}
use mathlib.Core.List.{reverse}
use rfsn_agent_full.Base.Float.{Floats}
use rfsn_agent_full.Kernel.State.{Proposal, SystemState}
use rfsn_agent_full.Kernel.Simulate.{Priors, simulate, consecutive, detect_loop, by_loop_prior}
use rfsn_agent_full.Kernel.Simulate.History.{OutcomeHistory}

module _ (F : Floats) where
  open F use {Float, dec}

  -- How often the action stands at the end of the ten last actions, in a row.
  abbrev pub repeats : String → SystemState Float → ℕ
  repeats action s = consecutive action (reverse (last_n 10 s.recent_actions))

  by_no_prior :
      (prior : Option Float) (risk : Float) → prior ≡ none → by_loop_prior F prior risk ≡ risk
  unfolding by_loop_prior
  by_no_prior prior risk e = rw e

  pub simulate-repeats :
      (p : Proposal) (s : SystemState Float) (h : OutcomeHistory Float) (context : String)
      (priors : Priors Float)
      → priors.prior_loop_risk ≡ none
      → 4 ≤ repeats p.action s
      → (simulate F p s h context priors).loop_risk ≡ dec 95 2
  unfolding simulate detect_loop
  simulate-repeats p s h context priors e many =
      let four : leb 4 (repeats p.action s) ≡ true = ground arith in
      by_no_prior priors.prior_loop_risk _ e ∙ rw four refl
