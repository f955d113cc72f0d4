-- ===== src/Healing/Signals.antt =====
-- rfsn_kernel/self_healing/signals.py: what is read out of a log.
--
-- The regular expressions are the source's; the engine that matches them is a parameter, and so is
-- SHA-256 with its 16 hexadecimal digits.
use rfsn_agent_full.Base.{
  ltb, if◌then◌else◌, length, take, ℕ, zero, suc, ◌-◌, String, Bool, not, ◌||◌, Option, none, some,
  List, [], ◌∷◌, str_eq,
}
use rfsn_agent_full.Base.Int.{ℤ, is_zero}
use rfsn_agent_full.Base.Float.{Floats, min_float}
use rfsn_agent_full.Base.Text.{Text, codes, starts_with, strip}
use rfsn_agent_full.Healing.{Signal}

-- `search p s` is the first group of the first match of `p`, ignoring case, or the whole match of a
-- pattern without groups; `find_all` and `sub` are `findall` with DOTALL and `re.sub`.
pub record Regex : Type 0 where
  pub search : String → Text → Option Text
  pub find_all : String → Text → List Text
  pub sub : String → String → Text → Text

-- `_PATTERNS`
abbrev pub patterns : List (String × String)
patterns =
    ("import_error", "(?:ModuleNotFoundError|ImportError):\\s*(.+)")
    ∷ ("syntax_error", "SyntaxError:\\s*(.+)")
    ∷ ("type_error", "TypeError:\\s*(.+)")
    ∷ ("attribute_error", "AttributeError:\\s*(.+)")
    ∷ ("recursion_error", "RecursionError:\\s*(.+)")
    ∷ ("timeout", "\\[TIMEOUT\\]")
    ∷ ("oom", "(MemoryError|Killed|OOMKilled)")
    ∷ ("permission_denied", "PermissionError:\\s*(.+)")
    ∷ ("file_not_found", "FileNotFoundError:\\s*(.+)")
    ∷ ("assertion_error", "AssertionError")
    ∷ ("test_failure", "FAILED\\s+\\S+")
    ∷ ("patch_apply_failed", "error: patch failed|REJECTED:")
    ∷ []

-- The last element, or the empty text.
abbrev last_text : List Text → Text
last_text [] = []
last_text (t ∷ []) = t
last_text (t ∷ u ∷ us) = last_text (u ∷ us)

-- `s.count(t)`, without overlaps: `skip` code points belong to the last occurrence.
abbrev count_sub : ℕ → Text → Text → ℕ
count_sub skip [] t = 0
count_sub (suc skip) (c ∷ s) t = count_sub skip s t
count_sub zero (c ∷ s) t =
    let found = count_sub (length t - 1) s t in
    let other = count_sub 0 s t in if starts_with (c ∷ s) t then suc found else other

-- The loop over the patterns: the failure type and the detail of the first that matches.
unfoldable pub classify : Regex → List (String × String) → Text → String × Text
classify re [] logs = ("unknown", [])
classify re ((name, pattern) ∷ rest) logs =
    let others = classify re rest logs in
    elim (re.search pattern logs) [ none ↦ others | some detail ↦ (name, detail) ]

module _ (F : Floats) (re : Regex) (sha16 : Text → String) where
  open F use {Float, dec, add}

  -- `_extract_traceback`
  unfoldable pub extract_traceback : Text → Text
  extract_traceback logs =
      strip (last_text (re.find_all "Traceback \\(most recent call last\\):.*?(?=\\n\\S|\\Z)" logs))

  -- `_fingerprint`
  unfoldable pub fingerprint_of : Text → String
  fingerprint_of [] = sha16 (codes "no_traceback")
  fingerprint_of (c ∷ s) =
      let lines = re.sub "line \\d+" "line N" (c ∷ s) in
      let addresses = re.sub "0x[0-9a-fA-F]+" "0xADDR" lines in
      sha16 (re.sub "\\d{4}-\\d{2}-\\d{2}[T ]\\d{2}:\\d{2}:\\d{2}" "TIMESTAMP" addresses)

  abbrev is_dangerous : String → Bool
  is_dangerous t =
      str_eq t "recursion_error"
      || str_eq t "oom"
      || str_eq t "permission_denied"
      || str_eq t "timeout"

  -- `_compute_anomaly_score`
  unfoldable pub anomaly_score_of : Text → ℤ → String → Float
  anomaly_score_of logs status failure_type =
      let s0 = dec 0 1 in
      let s1 = if not (is_zero status) then add s0 (dec 3 1) else s0 in
      let s2 = if is_dangerous failure_type then add s1 (dec 4 1) else s1 in
      let s3 = if ltb 500000 (length logs) then add s2 (dec 2 1) else s2 in
      let tb_count = count_sub 0 logs (codes "Traceback (most recent call last)") in
      let s4 = if ltb 2 tb_count then add s3 (dec 1 1) else s3 in min_float F s4 (dec 10 1)

  abbrev success_signal : Signal Float
  success_signal = record {
    failure_type = "success";
    stack_fingerprint = fingerprint_of [];
    anomaly_score = dec 0 1;
    detail = [];
    raw_traceback = [];
  }

  -- `extract_signals`
  unfoldable pub extract_signals : Text → ℤ → Signal Float
  extract_signals logs status =
      let (failure_type, detail) = classify re patterns logs in
      let raw_tb = extract_traceback logs in
      if is_zero status then success_signal else record {
        failure_type = failure_type;
        stack_fingerprint = fingerprint_of raw_tb;
        anomaly_score = anomaly_score_of logs status failure_type;
        detail = take 256 (strip detail);
        raw_traceback = take 2048 raw_tb;
      }
