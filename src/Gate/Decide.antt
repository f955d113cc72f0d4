-- ===== src/Gate/Decide.antt =====
-- rfsn_swebench/gate.py: the policy and the decision.
--
-- The engine of the regular expressions is a parameter. The policy is given; `default_policy` is the
-- one that `load_policies` starts from.
use rfsn_agent_full.Base.{
  ltb, ◌==◌, if◌then◌else◌, length, ℕ, String, Bool, true, false, ◌&&◌, Option, none, some, List,
  [], ◌∷◌, ◌++◌,
}
use rfsn_agent_full.Base.Text.{Text, Unicode, codes, has_sub, mem_text}
use rfsn_agent_full.Gate.{DiffStats, diff_analysis}
use mathlib.Core.List.{reverse}

-- The policy dictionary; a limit of 0 lines is no limit.
pub record GatePolicy : Type 0 where
  pub max_patch_bytes : ℕ
  pub max_files_touched : ℕ
  pub max_new_files : ℕ
  pub max_added_lines : ℕ
  pub max_deleted_lines : ℕ
  pub blocked_dependency_files : List Text
  pub banned_patterns : List String
  pub banned_path_fragments : List Text

-- `_DEFAULT_BANNED_PATTERNS`
abbrev pub default_banned_patterns : List String
default_banned_patterns =
    "pytest\\.skip" ∷ "unittest\\.skip" ∷ "@skip" ∷ "@pytest\\.mark\\.skip" ∷ "xfail"
    ∷ "remove\\s+test" ∷ "disable\\s+test" ∷ []

-- `_TEST_ONLY_BANNED_PATTERNS`
abbrev pub test_only_banned_patterns : List String
test_only_banned_patterns =
    "__import__\\s*\\(" ∷ "eval\\s*\\(" ∷ "exec\\s*\\(" ∷ "subprocess\\." ∷ "os\\.system\\(" ∷ []

-- `_DEFAULT_BANNED_PATH_FRAGMENTS`
abbrev pub default_banned_path_fragments : List Text
default_banned_path_fragments =
    codes ".github/workflows/"
    ∷ codes "ci/"
    ∷ codes ".circleci/"
    ∷ codes "Jenkinsfile"
    ∷ codes "requirements.txt"
    ∷ codes "pyproject.toml"
    ∷ codes "Dockerfile"
    ∷ codes "docker-compose"
    ∷ codes ".env"
    ∷ []

-- The configuration that `load_policies` starts from.
abbrev pub default_policy : GatePolicy
default_policy = record {
  max_patch_bytes = 250000;
  max_files_touched = 25;
  max_new_files = 5;
  max_added_lines = 0;
  max_deleted_lines = 0;
  blocked_dependency_files = [];
  banned_patterns = default_banned_patterns;
  banned_path_fragments = default_banned_path_fragments;
}

-- Why a patch is rejected.
pub data Reason : Type 0 where
  too_large too_many_files too_many_new_files too_many_added too_many_deleted : Reason
  large_test_deletions : Reason
  dependency_file : (path : Text) → Reason
  restricted_path : (path fragment : Text) → Reason
  banned_in_code banned_in_test : (pattern : String) → Reason

-- `RiskReport`: the decision is ALLOW where `is_allowed` holds.
pub record RiskReport : Type 0 where
  pub is_allowed : Bool
  pub reasons : List Reason

abbrev pub reason_if : Bool → Reason → List Reason
reason_if true r = r ∷ []
reason_if false r = []

-- `os.path.basename(path)`, with the last component so far reversed.
abbrev pub basename_from : Text → Text → Text
basename_from part [] = reverse part
basename_from part (c ∷ s) = basename_from (if c == b'/' then [] else c ∷ part) s

unfoldable pub fragment_reasons : Text → List Text → List Reason
fragment_reasons path [] = []
fragment_reasons path (frag ∷ frags) =
    reason_if (has_sub path frag) (restricted_path path frag) ++ fragment_reasons path frags

-- The loop over the files touched.
unfoldable pub path_reasons : GatePolicy → List Text → List Reason
path_reasons pol [] = []
path_reasons pol (path ∷ paths) =
    reason_if (mem_text (basename_from [] path) pol.blocked_dependency_files) (dependency_file path)
    ++ (fragment_reasons path pol.banned_path_fragments ++ path_reasons pol paths)

unfoldable pub join_lines : List Text → Text
join_lines [] = []
join_lines (l ∷ []) = l
join_lines (l ∷ m ∷ ls) = l ++ 10 ∷ join_lines (m ∷ ls)

-- The patterns of a list that are found in a text.
unfoldable pub pattern_reasons :
    (String → Text → Bool) → (String → Reason) → Text → List String → List Reason
pattern_reasons search reason blob [] = []
pattern_reasons search reason blob (p ∷ ps) =
    reason_if (search p blob) (reason p) ++ pattern_reasons search reason blob ps

abbrev pub is_nil {ℓ} : {A : Type ℓ} → List A → Bool
is_nil [] = true
is_nil (x ∷ xs) = false

abbrev pub value_or : Option ℕ → ℕ → ℕ
value_or none d = d
value_or (some n) d = n

-- The reasons of `patch_risk_gate`, in order, with the limits chosen.
unfoldable pub gate_reasons :
    (String → Text → Bool) → GatePolicy → ℕ → ℕ → ℕ → DiffStats → List Reason
gate_reasons search pol max_bytes max_files max_new_files s =
    reason_if (ltb max_bytes s.size_bytes) too_large
    ++ (reason_if (ltb max_files (length s.files_touched)) too_many_files
        ++ (reason_if (ltb max_new_files s.new_files) too_many_new_files
            ++ (path_reasons pol s.files_touched
                ++ (reason_if (ltb 0 pol.max_added_lines && ltb pol.max_added_lines s.added_lines)
                      too_many_added
                    ++ (reason_if
                          (ltb 0 pol.max_deleted_lines && ltb pol.max_deleted_lines s.deleted_lines)
                          too_many_deleted
                        ++ (pattern_reasons search banned_in_code (join_lines s.plus_lines)
                              pol.banned_patterns
                            ++ ((if is_nil s.plus_lines_test
                                  then []
                                  else pattern_reasons search banned_in_test
                                      (join_lines s.plus_lines_test) test_only_banned_patterns)
                                ++ reason_if (ltb 50 s.deleted_test_lines)
                                    large_test_deletions)))))))

-- `patch_risk_gate`
unfoldable pub patch_risk_gate :
    Unicode
    → (String → Text → Bool)
    → GatePolicy
    → (max_bytes max_files max_new_files : Option ℕ) → Text
    → RiskReport
patch_risk_gate u search pol max_bytes max_files max_new_files diff =
    let reasons =
      gate_reasons search pol (value_or max_bytes pol.max_patch_bytes)
        (value_or max_files pol.max_files_touched) (value_or max_new_files pol.max_new_files)
        (diff_analysis u diff) in
    record { is_allowed = is_nil reasons; reasons = reasons }
