-- ===== src/Kernel/Core.antt =====
-- rfsn_kernel/kernel.py: what the kernel holds, and what it is given from outside.
use rfsn_agent_full.Base.{ℕ, String, Bool, false, Option, none, some, List}
use rfsn_agent_full.Base.Text.{Text, Unicode}
use rfsn_agent_full.Ledger.{Body, LedgerRecord, Line, HardLedger}
use rfsn_agent_full.Kernel.Policy.{Policy}
use rfsn_agent_full.Kernel.State.{Proposal, Outcome, SystemState}
use rfsn_agent_full.Kernel.Simulate.{SimResult}
use rfsn_agent_full.Kernel.Simulate.History.{OutcomeHistory}
use rfsn_agent_full.Kernel.Risk.{RiskBreakdown}
use rfsn_agent_full.Kernel.Decide.{Reason}
use rfsn_agent_full.Kernel.Verify.{VerificationResult}
use rfsn_agent_full.Kernel.RunState.{Runs}
use rfsn_agent_full.Kernel.Tier.{Kind, Classifiers, Allow, Rules}
use rfsn_agent_full.Kernel.Validate.{ErrorCode, ValidationResult}
use rfsn_agent_full.Kernel.Normalize.{RawStep}

-- The budgets of a tier, 0 where the key is missing.
pub record Budgets : Type 0 where
  pub max_total_steps : ℕ
  pub max_patch_bytes : ℕ
  pub max_files_touched : ℕ
  pub max_total_lines_changed : ℕ

pub record TierCfg : Type 0 where
  pub budgets : Budgets
  pub allow : Allow

-- The tier policy: the tiers by number, the classifiers and the escalation rules.
pub record TierPolicy : Type 0 where
  pub tiers : List (ℕ × TierCfg)
  pub classifiers : Classifiers
  pub rules : Rules

-- The reason that a record, a decision or a kernel event gives.
pub data StepReason (Float : Type 0) : Type 0 where
  steps_exceeded : ℕ → ℕ → StepReason Float
  patch_bytes_exceeded : ℕ → StepReason Float
  files_exceeded : ℕ → ℕ → StepReason Float
  lines_exceeded : ℕ → ℕ → StepReason Float
  tier_forbids : Kind → Text → StepReason Float
  validation_failed : List ErrorCode → StepReason Float
  decided : Reason Float → StepReason Float
  event_reason : String → StepReason Float

pub data KernelEvent (Float : Type 0) : Type 0 where
  tier_step_rejected : ℕ → StepReason Float → KernelEvent Float
  tier_escalated : ℕ → ℕ → Option String → List String → KernelEvent Float

-- What the ledger hashes beside the decision and the two hashes that replay reads.
pub record Content (Float : Type 0) : Type 0 where
  pub proposal_hash : String
  pub simulation : Option (SimResult Float)
  pub risk : Option (RiskBreakdown Float)
  pub decision_reason : StepReason Float
  pub verification : Option (VerificationResult Float)

pub record EventMeta (Float : Type 0) : Type 0 where
  pub run_id : String
  pub intent : String
  pub bundle_id : String
  pub event : KernelEvent Float

pub record StepMeta : Type 0 where
  pub action : String
  pub intent : String
  pub run_id : String
  pub bundle_id : String
  pub tier : ℕ
  pub context_hash : String
  pub memory_version : String
  pub env_hash : String
  pub step_count : ℕ

-- The metadata of a record: that of a kernel event, with `record_type`, or that of a step.
pub data Meta (Float : Type 0) : Type 0 where
  event_meta : EventMeta Float → Meta Float
  step_meta : StepMeta → Meta Float

-- How the execution callback ends.
pub data Execution (Float : Type 0) : Type 0 where
  returned : Outcome Float → Execution Float
  raised : Text → Execution Float

abbrev pub Store : Type 0 → Type 0
Store Float = HardLedger × List (Line (Content Float) (Meta Float))

-- `HardKernel`, with the ledger's file.
pub record HardKernel (Float : Type 0) : Type 0 where
  pub policy : Policy Float
  pub store : Store Float
  pub history : OutcomeHistory Float
  pub state : SystemState Float
  pub tier_policy : TierPolicy
  pub run_state : Runs
  pub steps_done : ℕ
  pub consecutive_failures : ℕ

-- What the kernel does not implement: SHA-256, the JSON texts that it hashes, the signature of a
-- record, the Unicode tables, `fnmatch`, the `failure_kind` of a JSON payload, the clock, and the
-- execution callback, which changes the world `W`.
pub record Extern (Float W : Type 0) : Type 0 where
  pub sha256 : String → String
  pub canon : Body (Content Float) → String
  pub sign : String → Meta Float → Meta Float
  pub event_text : EventMeta Float → String
  pub proposal_text : Proposal → String
  pub state_text : SystemState Float → String
  pub outcome_text : Outcome Float → String
  pub planner_hash_of : RawStep → String
  pub unicode : Unicode
  pub fnmatch : Text → Text → Bool
  pub failure_kind_of : Text → Option String
  pub now : ℕ
  pub execute : Proposal → W → Execution Float × W

-- `KernelStepResult`
pub data Phase : Type 0 where
  validate_phase decide_phase commit_phase : Phase

pub record StepResult (Float : Type 0) : Type 0 where
  pub phase : Phase
  pub proposal : Proposal
  pub validation : Option ValidationResult
  pub simulation : Option (SimResult Float)
  pub risk : Option (RiskBreakdown Float)
  pub decision : Option (Bool × StepReason Float)
  pub outcome : Option (Outcome Float)
  pub verification : Option (VerificationResult Float)
  pub ledger_record : LedgerRecord (Content Float) (Meta Float)

abbrev pub approved_in {ℓ} : {A : Type ℓ} → Option (Bool × A) → Bool
approved_in none = false
approved_in (some (b, a)) = b
