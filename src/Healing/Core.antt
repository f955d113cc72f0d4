-- ===== src/Healing/Core.antt =====
-- rfsn_kernel/self_healing/core.py: the hardening level of the system.
use rfsn_agent_full.Base.{
  ltb, if◌then◌else◌, length, last_n, ℕ, zero, suc, ◌+◌, String, Bool, true, false, Option, none,
  some, List, [], ◌∷◌, ◌++◌,
}
use rfsn_agent_full.Base.Int.{ℤ, is_zero}
use rfsn_agent_full.Base.Float.{Floats, of_ℕ}
use rfsn_agent_full.Base.Text.{Text}
use rfsn_agent_full.Healing.{Signal, FailureCluster, HardeningLevel, fast, balanced, hardened}
use rfsn_agent_full.Healing.Signals.{Regex, extract_signals}
use rfsn_agent_full.Healing.Memory.{
  FailureMemory, new_memory, record_failure, is_chronic, get_chronic_failures, clear,
}

-- `outcomes[-size:]` where the list is longer than the window; -0 is 0, so that a window of size 0
-- keeps every outcome.
unfoldable pub trim : ℕ → List Bool → List Bool
trim zero outcomes = outcomes
trim (suc size) outcomes =
    if ltb (suc size) (length outcomes) then last_n (suc size) outcomes else outcomes

-- `sum(1 for o in outcomes if o)`
unfoldable pub successes : List Bool → ℕ
successes [] = 0
successes (o ∷ os) = if o then suc (successes os) else successes os

module _ (F : Floats) where
  open F use {Float, dec, div, lte}

  -- `SelfHealingCore`
  pub record SelfHealing : Type 0 where
    pub memory : FailureMemory F
    pub window_size : ℕ
    pub harden_threshold : Float
    pub relax_threshold : Float
    pub outcomes : List Bool
    pub total_runs : ℕ
    pub hardening : HardeningLevel

  unfoldable pub init : ℕ → Float → Float → SelfHealing
  init window_size harden_threshold relax_threshold = record {
    memory = new_memory F 256;
    window_size = window_size;
    harden_threshold = harden_threshold;
    relax_threshold = relax_threshold;
    outcomes = [];
    total_runs = 0;
    hardening = balanced;
  }

  -- `stability_score`, of the outcomes in the window.
  unfoldable pub score_of : List Bool → Float
  score_of [] = dec 10 1
  score_of (o ∷ os) = div (of_ℕ F (successes (o ∷ os))) (of_ℕ F (length (o ∷ os)))

  -- `_adjust_hardening`
  unfoldable pub adjust_hardening : SelfHealing → SelfHealing
  adjust_hardening h =
      let score = score_of h.outcomes in
      record h {
        hardening =
            if lte score h.harden_threshold
            then hardened
            else (if lte h.relax_threshold score then fast else balanced);
      }

  -- The first part of `ingest`: the window and the count.
  unfoldable pub add_outcome : Bool → SelfHealing → SelfHealing
  add_outcome success h = record h {
    outcomes = trim h.window_size (h.outcomes ++ success ∷ []);
    total_runs = h.total_runs + 1;
  }

  escalate_chronic : FailureCluster Float → SelfHealing → SelfHealing
  escalate_chronic c h = if is_chronic F c then record h { hardening = hardened } else h

  after_record : SelfHealing → Option (FailureMemory F × FailureCluster Float) → Option SelfHealing
  unfolding escalate_chronic
  after_record h none = none
  after_record h (some (m, c)) = some (escalate_chronic c (record h { memory = m }))

  -- The second part: a failure goes to the memory.
  unfoldable pub remember : Float × Float → Bool → Signal Float → SelfHealing → Option SelfHealing
  unfolding after_record
  remember now true signal h = some h
  remember now false signal h =
      after_record h
        (record_failure F now signal.stack_fingerprint signal.failure_type signal.detail h.memory)

  adjusted : Option SelfHealing → Option SelfHealing
  adjusted none = none
  adjusted (some h) = some (adjust_hardening h)

  -- `ingest`, at two readings of the clock: the signal it returns, and the state.
  unfoldable pub ingest :
      Regex
      → (Text → String)
      → Float × Float
      → Text
      → ℤ
      → SelfHealing
      → Signal Float × Option SelfHealing
  unfolding adjusted
  ingest re sha16 now logs status h =
      let signal = extract_signals F re sha16 logs status in
      let success = is_zero status in
      (signal, adjusted (remember now success signal (add_outcome success h)))

  -- `HealthSnapshot`, without its timestamp.
  pub record HealthSnapshot : Type 0 where
    pub stability_score : Float
    pub hardening_level : HardeningLevel
    pub recent_success_rate : Float
    pub chronic_failure_count : ℕ
    pub total_runs : ℕ

  unfoldable pub snapshot : SelfHealing → HealthSnapshot
  snapshot h = record {
    stability_score = score_of h.outcomes;
    hardening_level = h.hardening;
    recent_success_rate = score_of h.outcomes;
    chronic_failure_count = length (get_chronic_failures F h.memory);
    total_runs = h.total_runs;
  }

  unfoldable pub reset : SelfHealing → SelfHealing
  reset h = record h {
    memory = clear F h.memory;
    outcomes = [];
    total_runs = 0;
    hardening = balanced;
  }
