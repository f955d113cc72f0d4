-- ===== src/Kernel/Verify.antt =====
-- rfsn_kernel/verify.py: the checks after an execution.
use rfsn_agent_full.Base.{
  ltb, leb, any, ℕ, ◌≡◌, Bool, true, false, ◌&&◌, List, [], ◌∷◌, ◌++◌, arith,
}
use rfsn_agent_full.Base.Float.{Floats}
use rfsn_agent_full.Kernel.Policy.{Policy, get_or}
use rfsn_agent_full.Kernel.State.{Outcome, SystemState}

pub data Violation (Float : Type 0) : Type 0 where
  safety_level_exceeded : ℕ → ℕ → Violation Float
  duration_exceeded : Float → Float → Violation Float
  cost_exceeded : Float → Float → Violation Float
  failure_cluster : ℕ → ℕ → Violation Float

-- `VerificationResult`
pub record VerificationResult (Float : Type 0) : Type 0 where
  pub ok : Bool
  pub violations : List (Violation Float)

module _ {Float : Type 0} where
  abbrev pub is_failure_cluster : Violation Float → Bool
  is_failure_cluster (failure_cluster n m) = true
  is_failure_cluster _ = false

  abbrev found : Bool → Violation Float → List (Violation Float)
  found true v = v ∷ []
  found false v = []

  abbrev no_violation : List (Violation Float) → Bool
  no_violation [] = true
  no_violation (v ∷ vs) = false

module _ (F : Floats) where
  open F use {Float, dec, gtb}

  abbrev pub cluster_threshold : Policy Float → ℕ
  cluster_threshold policy = get_or policy.fail_cluster_threshold 8

  unfoldable pub verify :
      Outcome Float → SystemState Float → Policy Float → VerificationResult Float
  verify outcome s policy =
      let max_safety = get_or policy.max_safety_level 2 in
      let max_duration = get_or policy.max_step_duration (dec 900 0) in
      let max_cost = get_or policy.max_total_cost (dec 500 1) in
      let threshold = cluster_threshold policy in
      let violations =
        found (ltb max_safety s.safety_level) (safety_level_exceeded s.safety_level max_safety)
        ++ (found (gtb outcome.duration_sec max_duration)
              (duration_exceeded outcome.duration_sec max_duration)
            ++ (found (gtb s.total_cost max_cost) (cost_exceeded s.total_cost max_cost)
                ++ found (leb threshold s.recent_failures)
                    (failure_cluster s.recent_failures threshold))) in
      record { ok = no_violation violations; violations = violations }

  -- A failure cluster is reported exactly when the recent failures have reached the threshold, and
  -- then the verification fails.
  pub verify-cluster :
      (o : Outcome Float) (s : SystemState Float) (policy : Policy Float)
      → (any is_failure_cluster (verify o s policy).violations
          ≡ leb (cluster_threshold policy) s.recent_failures)
        × (leb (cluster_threshold policy) s.recent_failures && (verify o s policy).ok ≡ false)
  unfolding verify
  verify-cluster o s policy = (ground arith, ground arith)
