-- ===== src/Kernel/Risk.antt =====
-- rfsn_kernel/risk.py: the weighted risk of a proposal.
use rfsn_agent_full.Base.{ltb, leb, if◌then◌else◌, length, ℕ, max, [], ◌∷◌, str_eq}
use rfsn_agent_full.Base.Float.{Floats, of_ℕ, min_float}
use rfsn_agent_full.Base.Text.{splitlines}
use rfsn_agent_full.Base.Dict.{Dict, get}
use rfsn_agent_full.Kernel.Policy.{Policy, get_or}
use rfsn_agent_full.Kernel.State.{Proposal, SystemState, text_or_empty}
use rfsn_agent_full.Kernel.Simulate.{SimResult}

-- `RiskBreakdown`
pub record RiskBreakdown (Float : Type 0) : Type 0 where
  pub execution_risk : Float
  pub environment_risk : Float
  pub uncertainty_risk : Float
  pub cost_risk : Float
  pub loop_risk : Float
  pub total_risk : Float
  pub effective_risk : Float
  pub ev_bonus : Float

module _ (F : Floats) where
  open F use {Float, dec, add, sub, mul, div}

  -- `_ACTION_RISK`
  abbrev action_risk : Dict Float
  action_risk =
      ("repo_search", dec 5 2)
      ∷ ("repo_read_range", dec 2 2)
      ∷ ("read_file", dec 2 2)
      ∷ ("detect_project", dec 3 2)
      ∷ ("detect_workdirs", dec 5 2)
      ∷ ("apply_patch", dec 6 1)
      ∷ ("run_tests", dec 15 2)
      ∷ ("run_cmd_template", dec 2 1)
      ∷ ("format_fix", dec 25 2)
      ∷ ("ensure_deps", dec 3 1)
      ∷ []

  abbrev patch_lines : Proposal → ℕ
  patch_lines p = length (splitlines (text_or_empty p.params.patch))

  -- `_execution_risk`
  unfoldable pub execution_risk_of : Proposal → Float
  unfolding get
  execution_risk_of p =
      let base = get_or (get action_risk p.action) (dec 3 1) in
      let lines = patch_lines p in
      if str_eq p.action "apply_patch"
      then (if ltb 100 lines
          then min_float F (dec 1 0) (add base (dec 2 1))
          else if ltb 50 lines
          then min_float F (dec 1 0) (add base (dec 1 1))
          else base)
      else base

  -- `_environment_risk`
  unfoldable pub environment_risk_of : SystemState Float → Float
  environment_risk_of s =
      let ratio = div (of_ℕ F s.recent_failures) (of_ℕ F (max s.step_count 1)) in
      let r0 = dec 0 0 in
      let r1 = if ltb 0 s.step_count then add r0 (mul ratio (dec 5 1)) else r0 in
      let r2 = add r1 (mul s.drift_variance (dec 3 1)) in
      min_float F (dec 1 0) (add r2 (mul (of_ℕ F s.safety_level) (dec 15 2)))

  -- `_normalize_cost`
  unfoldable pub normalize_cost : Float → Float
  normalize_cost cost = min_float F (dec 1 0) (div cost (dec 2 0))

  -- The expected value bonus of `risk_score`.
  unfoldable pub ev_bonus_of : Proposal → Float
  ev_bonus_of p =
      let lines = patch_lines p in
      if str_eq p.action "apply_patch"
      then (if leb lines 20 then dec 3 1 else if leb lines 50 then dec 15 2 else dec 5 2)
      else dec 0 0

  unfoldable pub risk_score :
      Proposal → SimResult Float → SystemState Float → Policy Float → RiskBreakdown Float
  unfolding execution_risk_of environment_risk_of normalize_cost ev_bonus_of
  risk_score p sim s policy =
      let r_exec = execution_risk_of p in
      let r_env = environment_risk_of s in
      let r_unc = sub (dec 1 0) sim.success_prob in
      let r_cost = normalize_cost sim.cost_est in
      let r_loop = sim.loop_risk in
      let w_exec = get_or policy.w_exec (dec 30 2) in
      let w_env = get_or policy.w_env (dec 20 2) in
      let w_unc = get_or policy.w_unc (dec 20 2) in
      let w_cost = get_or policy.w_cost (dec 10 2) in
      let w_loop = get_or policy.w_loop (dec 20 2) in
      let sum =
        add
          (add (add (add (mul w_exec r_exec) (mul w_env r_env)) (mul w_unc r_unc))
            (mul w_cost r_cost))
          (mul w_loop r_loop) in
      let total = min_float F (dec 1 0) sum in
      let ev = ev_bonus_of p in
      let lam = get_or policy.risk_lambda (dec 7 1) in
      record {
        execution_risk = r_exec;
        environment_risk = r_env;
        uncertainty_risk = r_unc;
        cost_risk = r_cost;
        loop_risk = r_loop;
        total_risk = total;
        effective_risk = sub (mul lam total) (mul (sub (dec 1 0) lam) ev);
        ev_bonus = ev;
      }
