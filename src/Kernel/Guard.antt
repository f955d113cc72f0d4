-- ===== src/Kernel/Guard.antt =====
-- `kernel_step` of rfsn_kernel/kernel.py: the budgets of a tier and its gate, which come before the
-- validation.
use rfsn_agent_full.Base.{
  ltb, leb, ◌==◌, if◌then◌else◌, length, ℕ, ◌+◌, Bool, false, not, ◌&&◌, ◌||◌, Option, none, some,
  List, [], ◌∷◌, str_eq,
}
use rfsn_agent_full.Base.Text.{Text, codes, starts_with, splitlines}
use rfsn_agent_full.Kernel.State.{text_or_empty}
use rfsn_agent_full.Kernel.Tier.{Kind, step_touches, tier_allows_step}
use rfsn_agent_full.Kernel.Normalize.{RawStep, gate_view}
use rfsn_agent_full.Kernel.Core.{
  Budgets, TierCfg, StepReason, steps_exceeded, patch_bytes_exceeded, files_exceeded,
  lines_exceeded, tier_forbids, HardKernel, Extern,
}

-- The length of a text in UTF-8; a lone surrogate is replaced by a question mark.
abbrev utf8_length : Text → ℕ
utf8_length [] = 0
utf8_length (c ∷ s) =
    (if ltb c 128
      then 1
      else if ltb c 2048
      then 2
      else if leb 55296 c && leb c 57343
      then 1
      else if ltb c 65536
      then 3
      else 4)
    + utf8_length s

is_changed : Text → Bool
is_changed ln =
    (starts_with ln (codes "+") && not (starts_with ln (codes "+++")))
    || (starts_with ln (codes "-") && not (starts_with ln (codes "---")))

lines_changed : List Text → ℕ
lines_changed [] = 0
lines_changed (ln ∷ lns) = let n = lines_changed lns in if is_changed ln then n + 1 else n

abbrev pub no_budgets : Budgets
no_budgets = record {
  max_total_steps = 0;
  max_patch_bytes = 0;
  max_files_touched = 0;
  max_total_lines_changed = 0;
}

abbrev no_tier : TierCfg
no_tier = record {
  budgets = no_budgets;
  allow = record { edit_tests = false; edit_deps = false; edit_ci = false };
}

-- `_tier_cfg`: a tier that the policy does not have allows nothing special and has no budgets.
tier_cfg : ℕ → List (ℕ × TierCfg) → TierCfg
tier_cfg t [] = no_tier
tier_cfg t ((n, cfg) ∷ tiers) = let rest = tier_cfg t tiers in if n == t then cfg else rest

abbrev exceeds : ℕ → ℕ → Bool
exceeds limit n = ltb 0 limit && ltb limit n

abbrev first_some {ℓ} : {A : Type ℓ} → Option A → Option A → Option A
first_some none b = b
first_some (some a) b = some a

module _ {Float : Type 0} where
  patch_budget : Budgets → RawStep → Option (StepReason Float)
  patch_budget b raw =
      let patch = text_or_empty raw.fields.patch in
      let touched = length (step_touches (gate_view raw)) in
      let changed = lines_changed (splitlines patch) in
      if exceeds b.max_patch_bytes (utf8_length patch)
      then some (patch_bytes_exceeded b.max_patch_bytes)
      else if exceeds b.max_files_touched touched
      then some (files_exceeded touched b.max_files_touched)
      else if exceeds b.max_total_lines_changed changed
      then some (lines_exceeded changed b.max_total_lines_changed)
      else none

  gate_reason : Option (Kind × Text) → Option (StepReason Float)
  gate_reason none = none
  gate_reason (some (k, p)) = some (tier_forbids k p)

-- The tier's budgets and its gate, in the order of the code: the reason of the first that rejects.
module _ {Float W : Type 0} (x : Extern Float W) where
  unfoldable pub tier_rejection : HardKernel Float → RawStep → ℕ → Option (StepReason Float)
  unfolding tier_cfg patch_budget gate_reason lines_changed is_changed
  tier_rejection k raw tier =
      let cfg = tier_cfg tier k.tier_policy.tiers in
      let b = cfg.budgets in
      let steps =
        if ltb 0 b.max_total_steps && leb b.max_total_steps k.state.step_count
        then some (steps_exceeded k.state.step_count b.max_total_steps)
        else none in
      let patch = if str_eq raw.type_of "apply_patch" then patch_budget b raw else none in
      let gate =
        gate_reason
          (tier_allows_step x.fnmatch (gate_view raw) cfg.allow k.tier_policy.classifiers) in
      first_some steps (first_some patch gate)
