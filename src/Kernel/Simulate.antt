-- ===== src/Kernel/Simulate.antt =====
-- rfsn_kernel/simulate.py: the prediction of an action's outcome, from the state and the history.
pub mod History
pub mod Loop
use rfsn_agent_full.Base.{
  ltb, leb, ◌==◌, if◌then◌else◌, ltb→lt, lt→ltb, leb→le, bool_tests, Bool-cases, Option-cases,
  is_some, str_eq_of, of_str_eq, &&_true, length, get_elem?, take, drop, last_n, any, all, All,
  length-append, length-drop, length-take-le, length-last_n, All-append, get_elem?-append_left,
  get_elem?-append_length, get_elem?-take, length-take, get_elem?-none, get_elem?-some, ℕ, zero,
  suc, ◌+◌, ◌-◌, ◌*◌, ◌/◌, ◌%◌, ◌^◌, ◌≤◌, ◌<◌, min, max, String, ◌≡◌, refl, sym, ap, ◌∙◌, ◌≢◌, ◌↔◌,
  ◌⊎◌, inl, inr, Bool, true, false, not, ◌&&◌, ◌||◌, Option, none, some, List, [], ◌∷◌, ◌++◌, map,
  arith, str_eq, eq_iff, eq_refl,
}
use mathlib.Core.List.{reverse}
use rfsn_agent_full.Base.Float.{Floats, of_ℕ, min_float, max_float}
use rfsn_agent_full.Base.Text.{splitlines}
use rfsn_agent_full.Base.Dict.{Dict, get}
use rfsn_agent_full.Kernel.Policy.{get_or}
use rfsn_agent_full.Kernel.State.{Proposal, SystemState, text_or_empty}
use rfsn_agent_full.Kernel.Simulate.History.{
  OutcomeHistory, ActionStats, lookup, success_rate, avg_cost,
}

pub data FailureMode : Type 0 where
  cluster_failure resource_failure instability : FailureMode

-- `SimResult`
pub record SimResult (Float : Type 0) : Type 0 where
  pub success_prob : Float
  pub failure_mode : Option FailureMode
  pub cost_est : Float
  pub drift_risk : Float
  pub loop_risk : Float

-- How often the action stands in the window.
abbrev pub same_count : String → List String → ℕ
same_count a [] = 0
same_count a (b ∷ bs) = let n = same_count a bs in if str_eq b a then n + 1 else n

-- The run of equal actions at the front of the reversed window.
abbrev pub consecutive : String → List String → ℕ
consecutive a [] = 0
consecutive a (b ∷ bs) = let n = consecutive a bs in if str_eq b a then n + 1 else 0

-- What the learner knows of an action, as the kernel passes it on.
pub record Priors (Float : Type 0) : Type 0 where
  pub prior_success_prob : Option Float
  pub prior_trials : ℕ
  pub prior_loop_risk : Option Float
  pub known_traps : Option (List String)

module _ (F : Floats) where
  open F use {Float, dec, add, sub, mul, div, gtb, round4}

  -- `_BASE_COSTS`
  abbrev base_costs : Dict Float
  base_costs =
      ("repo_search", dec 5 2)
      ∷ ("repo_read_range", dec 3 2)
      ∷ ("read_file", dec 2 2)
      ∷ ("detect_project", dec 3 2)
      ∷ ("detect_workdirs", dec 6 2)
      ∷ ("apply_patch", dec 3 1)
      ∷ ("run_tests", dec 5 1)
      ∷ ("run_cmd_template", dec 4 1)
      ∷ ("format_fix", dec 35 2)
      ∷ ("ensure_deps", dec 2 1)
      ∷ []

  -- The table `base_probs` of `simulate`.
  abbrev base_probs : Dict Float
  base_probs =
      ("repo_search", dec 85 2)
      ∷ ("repo_read_range", dec 95 2)
      ∷ ("read_file", dec 96 2)
      ∷ ("detect_project", dec 95 2)
      ∷ ("detect_workdirs", dec 9 1)
      ∷ ("apply_patch", dec 6 1)
      ∷ ("run_tests", dec 5 1)
      ∷ ("run_cmd_template", dec 55 2)
      ∷ ("format_fix", dec 7 1)
      ∷ ("ensure_deps", dec 8 1)
      ∷ []

  -- `_estimate_cost`
  unfoldable pub estimate_cost : Proposal → Float
  unfolding get
  estimate_cost p =
      let base = get_or (get base_costs p.action) (dec 1 1) in
      let lines = length (splitlines (text_or_empty p.params.patch)) in
      let patched =
        if str_eq p.action "apply_patch" then add base (mul (of_ℕ F lines) (dec 5 3)) else base in
      let timeout = get_or p.params.timeout_s 240 in
      let tested =
        if str_eq p.action "run_tests"
        then add patched (mul (of_ℕ F timeout) (dec 5 4))
        else patched in
      round4 tested

  -- `_detect_loop`
  unfoldable pub detect_loop : Proposal → SystemState Float → Float
  detect_loop p s =
      let recent = last_n 10 s.recent_actions in
      let same = same_count p.action recent in
      let run = consecutive p.action (reverse recent) in
      if leb 4 run
      then dec 95 2
      else if leb 3 run
      then dec 7 1
      else if leb 6 same
      then dec 6 1
      else if leb 4 same
      then dec 3 1
      else dec 0 0

  -- `_detect_drift`
  unfoldable pub detect_drift : SystemState Float → Float
  unfolding min_float
  detect_drift s =
      if s.step_count == 0
      then dec 0 0
      else let ratio = div (of_ℕ F s.recent_failures) (of_ℕ F (max s.step_count 1)) in
        round4 (min_float F (dec 1 0) (add (mul ratio (dec 2 0)) s.drift_variance))

  mode_of : Option (ActionStats Float) → SystemState Float → Option FailureMode
  mode_of none s = if leb 5 s.recent_failures then some instability else none
  mode_of (some st) s =
      if gtb st.recent_failure_rate (dec 7 1)
      then some cluster_failure
      else if gtb (avg_cost F st) (dec 1 0)
      then some resource_failure
      else if leb 5 s.recent_failures
      then some instability
      else none

  -- `_predict_failure_mode`
  unfoldable pub predict_failure_mode :
      Proposal → SystemState Float → OutcomeHistory Float → String → Option FailureMode
  unfolding mode_of
  predict_failure_mode p s history context = mode_of (lookup F p.action context history) s

  -- The blend of the base probability with the observed rate.
  by_history : Option (ActionStats Float) → Float → Float
  by_history none prob = prob
  by_history (some st) prob =
      if leb 3 st.n
      then (let weight = min_float F (div (of_ℕ F st.n) (dec 10 0)) (dec 1 0) in
          add (mul (sub (dec 1 0) weight) prob) (mul weight (success_rate F st)))
      else prob

  by_prior : Option Float → ℕ → Float → Float
  by_prior none trials prob = prob
  by_prior (some p) trials prob =
      let prior = max_float F (dec 1 2) (min_float F (dec 1 0) p) in
      let confidence =
        max_float F (dec 0 0) (min_float F (dec 1 0) (div (of_ℕ F trials) (dec 20 0))) in
      let weight = add (dec 25 2) (mul (dec 5 1) confidence) in
      add (mul (sub (dec 1 0) weight) prob) (mul weight prior)

  by_traps : Option (List String) → String → Float → Float
  by_traps none action prob = prob
  by_traps (some traps) action prob =
      let trap = Prim.Native.String.◌++◌ "action:" action in
      let prob1 = if any (λ t. str_eq t trap) traps then mul prob (dec 1 1) else prob in
      if any (λ t. str_eq t action) traps then mul prob1 (dec 1 1) else prob1

  clamp_prob : Float → Float
  clamp_prob x = max_float F (dec 1 2) (min_float F (dec 1 0) x)

  by_loop_prior : Option Float → Float → Float
  by_loop_prior none risk = risk
  by_loop_prior (some r) risk = max_float F risk (max_float F (dec 0 0) (min_float F (dec 1 0) r))

  -- The success probability of `simulate`, before the last rounding.
  unfoldable pub success_prob_of :
      Proposal → SystemState Float → OutcomeHistory Float → String → Priors Float → Float
  unfolding get by_history by_prior by_traps clamp_prob
  success_prob_of p s history context priors =
      let p0 = get_or (get base_probs p.action) (dec 5 1) in
      let p1 = by_history (lookup F p.action context history) p0 in
      let p2 = by_prior priors.prior_success_prob priors.prior_trials p1 in
      let p3 = if leb 3 s.recent_failures then mul p2 (dec 7 1) else p2 in
      let p4 = if leb 6 s.recent_failures then mul p3 (dec 5 1) else p3 in
      let p5 = if leb 1 s.safety_level then mul p4 (dec 9 1) else p4 in
      clamp_prob (by_traps priors.known_traps p.action p5)

  -- `simulate`, as the kernel calls it: with a history and without memory entries.
  unfoldable pub simulate :
      Proposal → SystemState Float → OutcomeHistory Float → String → Priors Float → SimResult Float
  unfolding by_loop_prior
  simulate p s history context priors = record {
    success_prob = round4 (success_prob_of p s history context priors);
    failure_mode = predict_failure_mode p s history context;
    cost_est = estimate_cost p;
    drift_risk = detect_drift s;
    loop_risk = by_loop_prior priors.prior_loop_risk (detect_loop p s);
  }
