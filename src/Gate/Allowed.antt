-- ===== src/Gate/Allowed.antt =====
-- What the gate guarantees of the diff of a patch that it allows.
use rfsn_agent_full.Base.{length, any, All, ℕ, ◌≤◌, ◌<◌, String, ◌≡◌, Bool, true, false, List}
use rfsn_agent_full.Base.Text.{Text, mem_text, IsInWord}
use rfsn_agent_full.Gate.Decide.{GatePolicy, join_lines}
use rfsn_agent_full.Gate.Accepts.{is_free_path}
use rfsn_agent_full.Gate.Headed.{git_line}
use rfsn_agent_full.Gate.Counts.{plus_texts, minus_texts}

-- A number of lines within a limit, where 0 is no limit.
abbrev pub IsWithin : ℕ → ℕ → Type 0
IsWithin limit n = 0 < limit → n ≤ limit

-- What holds of the lines of a diff that the policy lets through.
pub record IsAdmissible (search : String → Text → Bool) (pol : GatePolicy) (lines : List Text)
    : Type 0 where
  pub paths :
      (name other : Text)
      → All IsInWord name
      → mem_text (git_line name other) lines ≡ true
      → is_free_path pol name ≡ true
  pub added : IsWithin pol.max_added_lines (length (plus_texts lines))
  pub deleted : IsWithin pol.max_deleted_lines (length (minus_texts lines))
  pub patterns : any (λ p. search p (join_lines (plus_texts lines))) pol.banned_patterns ≡ false
