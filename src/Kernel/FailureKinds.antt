-- ===== src/Kernel/FailureKinds.antt =====
-- rfsn_kernel/failure_kinds.py: the kinds of failure that a step's output shows.
use rfsn_agent_full.Base.{
  if◌then◌else◌, length, drop, any, ℕ, String, ◌≡◌, refl, Bool, true, false, not, ◌&&◌, ◌||◌,
  Option, none, some, List, [], ◌∷◌, str_eq,
}
use rfsn_agent_full.Base.Int.{ℤ, pos, Object, int_value, int_or, is_zero, nonzero_default}
use rfsn_agent_full.Base.Text.{Text, codes, starts_with, has_sub, eq_text, Unicode}

-- What the function reads of the executor's output. A status that `int` refuses, on which the function
-- raises, is left out.
pub record ExecutorOut : Type 0 where
  pub status : Option Object
  pub logs : Text
  pub payload : Text

abbrev has : Text → String → Bool
has low s = has_sub low (codes s)

module _ (is_word : ℕ → Bool) where
  abbrev ends_word : Text → Bool
  ends_word [] = true
  ends_word (c ∷ s) = not (is_word c)

  -- `re.search(r"\bword\b", text)`: `after_word` says that the character before is a word character.
  abbrev has_word_from : Bool → Text → Text → Bool
  has_word_from after_word [] w = false
  has_word_from after_word (c ∷ s) w =
      (not after_word && starts_with (c ∷ s) w && ends_word (drop (length w) (c ∷ s)))
      || has_word_from (is_word c) s w

  abbrev has_word : Text → String → Bool
  has_word low s = has_word_from false low (codes s)

abbrev note : Bool → String → List String → List String
note true k ks = k ∷ ks
note false k ks = ks

abbrev dedupe : List String → List String → List String
dedupe seen [] = []
dedupe seen (k ∷ ks) =
    let again = dedupe seen ks in
    let first = k ∷ dedupe (k ∷ seen) ks in if any (λ s. str_eq s k) seen then again else first

-- The tests of the lower-cased log, in their order.
kinds_in : Unicode → Text → List String
kinds_in u low =
    note (has low "failed" && (has low "pytest" || has low "unittest" || has low "tests"))
      "tests_failed"
      (note (has_word u.is_word low "assertionerror") "tests_failed" (
        note (has low "collected 0 items" && has low "error") "tests_failed" (
          note (has_word u.is_word low "modulenotfounderror" || has low "no module named")
            "import_error_missing_module"
            (note (has low "missing venv; ensure_deps first") "deps_install_failed" (
              note
                (has low "pip"
                  && (has low "could not find a version" || has low "resolutionimpossible"))
                "deps_install_failed"
                (note (has low "error: subprocess-exited-with-error" && has low "pip")
                  "deps_install_failed"
                  (note
                    (has low "missing dependency"
                      || (has low "not found: " && (has low "gcc" || has low "cmake")))
                    "build_system_missing_dependency"
                    (note (has low ".github/workflows" || (has low "workflow" && has low "yaml"))
                      "ci_config_invalid"
                      (note (has low "ci" && (has low "failed" || has low "error")) "ci_failed" (
                        note
                          (has low "runner"
                            && (has low "ubuntu" || has low "windows" || has low "macos"))
                          "ci_env_mismatch" []))))))))))

abbrev logs_or_payload : ExecutorOut → Text
logs_or_payload out = if eq_text out.logs [] then out.payload else out.logs

unfoldable pub extract_failure_kinds : Unicode → ExecutorOut → List String
unfolding kinds_in
extract_failure_kinds u out =
    if is_zero (int_or out.status (pos 1))
    then []
    else dedupe [] (kinds_in u (u.lower (logs_or_payload out)))

-- An integer status is never looked at: the kinds are those for a missing status, whether the step
-- failed or not, because `int(status or 1)` reads the status 0 of a success as 1.
pub extract_failure_kinds_blind :
    (u : Unicode) (out : ExecutorOut) (status : ℤ)
    → extract_failure_kinds u (record out { status = some (int_value status) })
      ≡ extract_failure_kinds u (record out { status = none })
unfolding extract_failure_kinds
extract_failure_kinds_blind u out status = rw (nonzero_default (some status)) refl
