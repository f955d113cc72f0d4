-- ===== src/Memory/Frustration.antt =====
-- rfsn_kernel/memory.py: the frustration manager, which watches for repeated errors.
--
-- The MD5 digest of an output is a parameter, and so is the text of a number.
pub mod Streak
use rfsn_agent_full.Base.{
  ltb, leb, ◌==◌, if◌then◌else◌, ltb→lt, lt→ltb, leb→le, bool_tests, Bool-cases, if_both,
  Option-cases, is_some, str_eq_of, of_str_eq, &&_true, length, get_elem?, take, drop, last_n, any,
  all, All, length-append, length-drop, length-take-le, length-last_n, All-append,
  get_elem?-append_left, get_elem?-append_length, get_elem?-take, length-take, get_elem?-none,
  get_elem?-some, ℕ, zero, suc, ◌+◌, ◌-◌, ◌*◌, ◌/◌, ◌%◌, ◌^◌, ◌≤◌, ◌<◌, min, max, String, ◌≡◌, refl,
  sym, ap, ◌∙◌, ◌≢◌, ◌↔◌, ◌⊎◌, inl, inr, Bool, true, false, not, ◌&&◌, ◌||◌, Option, none, some,
  List, [], ◌∷◌, ◌++◌, map, arith, str_eq, eq_iff, eq_refl,
}
use rfsn_agent_full.Base.Text.{Text, codes, has_sub, splitlines}

-- The `suggested_action` of a signal, with what the reason says.
pub data FrustrationSignal : Type 0 where
  stop : (times : ℕ) → FrustrationSignal
  compress : FrustrationSignal

pub record FrustrationManager : Type 0 where
  pub history : List Text
  pub last_error_hash : String
  pub consecutive_error_count : ℕ
  pub history_size : ℕ

unfoldable pub init : ℕ → FrustrationManager
init history_size = record {
  history = [];
  last_error_hash = "";
  consecutive_error_count = 0;
  history_size = history_size;
}

-- The first part of `check`: the prefix goes to the history, and the oldest leaves it.
unfoldable pub remember : Text → FrustrationManager → FrustrationManager
remember output f =
    let history = f.history ++ take 1000 output ∷ [] in
    record f { history = if ltb f.history_size (length history) then drop 1 history else history }

-- The second part: how often the error came in a row.
unfoldable pub count_error : String → FrustrationManager → FrustrationManager
count_error digest f =
    if str_eq digest f.last_error_hash
    then record f { consecutive_error_count = f.consecutive_error_count + 1 }
    else record f { last_error_hash = digest; consecutive_error_count = 1 }

-- The third part: a large stack trace.
unfoldable pub trace_signal : Text → Option FrustrationSignal
trace_signal output =
    if ltb 2000 (length output) && has_sub output (codes "Traceback") then some compress else none

-- `check`
unfoldable pub check :
    (Text → String)
    → Text
    → Bool
    → FrustrationManager
    → FrustrationManager × Option FrustrationSignal
check md5 output true f =
    let f1 = count_error (md5 output) (remember output f) in
    if leb 3 f1.consecutive_error_count
    then (f1, some (stop f1.consecutive_error_count))
    else (f1, trace_signal output)
check md5 output false f =
    (record (remember output f) { consecutive_error_count = 0 }, trace_signal output)

join_lines : List Text → Text
join_lines [] = []
join_lines (l ∷ []) = l
join_lines (l ∷ m ∷ ls) = l ++ 10 ∷ join_lines (m ∷ ls)

-- `compress_context`
unfoldable pub compress_context : (ℕ → Text) → Text → Text
unfolding join_lines
compress_context show text =
    let lines = splitlines text in
    let marker =
      codes "... [Compressed " ++ show (length lines - 20) ++ codes " lines of output] ..." in
    if ltb (length text) 1000 || ltb (length lines) 20
    then text
    else join_lines (take 5 lines ++ marker ∷ last_n 15 lines)
