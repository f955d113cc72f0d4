-- ===== src/Kernel/Decide.antt =====
-- rfsn_kernel/decide.py: the decision law. A reason is data in place of its formatted text.
pub mod Law
use rfsn_agent_full.Base.{
  ltb, leb, ◌==◌, if◌then◌else◌, ltb→lt, lt→ltb, leb→le, bool_tests, Bool-cases, Option-cases,
  is_some, str_eq_of, of_str_eq, &&_true, length, get_elem?, take, drop, last_n, any, all, All,
  length-append, length-drop, length-take-le, length-last_n, All-append, get_elem?-append_left,
  get_elem?-append_length, get_elem?-take, length-take, get_elem?-none, get_elem?-some, ℕ, zero,
  suc, ◌+◌, ◌-◌, ◌*◌, ◌/◌, ◌%◌, ◌^◌, ◌≤◌, ◌<◌, min, max, String, ◌≡◌, refl, sym, ap, ◌∙◌, ◌≢◌, ◌↔◌,
  ◌⊎◌, inl, inr, Bool, true, false, not, ◌&&◌, ◌||◌, Option, none, some, List, [], ◌∷◌, ◌++◌, map,
  arith, str_eq, eq_iff, eq_refl,
}
use rfsn_agent_full.Base.Float.{Floats}
use rfsn_agent_full.Kernel.Policy.{Policy, risk_max_of, success_min_of, loop_max_of, drift_max_of}
use rfsn_agent_full.Kernel.State.{Proposal}
use rfsn_agent_full.Kernel.Simulate.{SimResult, FailureMode, cluster_failure}
use rfsn_agent_full.Kernel.Risk.{RiskBreakdown}

pub data Reason (Float : Type 0) : Type 0 where
  approved : Reason Float
  loop_detected : Float → Float → Reason Float
  drift_detected : Float → Float → Reason Float
  cluster_predicted : String → Reason Float
  risk_too_high : Float → Float → Reason Float
  success_too_low : Float → Float → Reason Float

-- `Decision`, without the risk breakdown that the caller has.
pub record Decision (Float : Type 0) : Type 0 where
  pub is_approved : Bool
  pub reason : Reason Float

abbrev pub is_cluster : Option FailureMode → Bool
is_cluster (some cluster_failure) = true
is_cluster _ = false

module _ (F : Floats) where
  open F use {Float, gtb}

  abbrev reject : Reason Float → Decision Float
  reject r = record { is_approved = false; reason = r }

  unfoldable pub decide :
      Proposal → SimResult Float → RiskBreakdown Float → Policy Float → Decision Float
  decide p sim risk policy =
      let risk_max = risk_max_of F policy in
      let success_min = success_min_of F policy in
      let loop_max = loop_max_of F policy in
      let drift_max = drift_max_of F policy in
      if gtb sim.loop_risk loop_max
      then reject (loop_detected sim.loop_risk loop_max)
      else if gtb sim.drift_risk drift_max
      then reject (drift_detected sim.drift_risk drift_max)
      else if is_cluster sim.failure_mode
      then reject (cluster_predicted p.action)
      else if gtb risk.effective_risk risk_max
      then reject (risk_too_high risk.effective_risk risk_max)
      else if gtb success_min sim.success_prob
      then reject (success_too_low sim.success_prob success_min)
      else record { is_approved = true; reason = approved }
