-- ===== src/Dispatcher.antt =====
-- rfsn_kernel/dispatcher.py: the dispatcher of the kernel's tools.
--
-- The files are a parameter, and so are `fnmatch` and `os.path.relpath`. Arguments have the types
-- that the tools expect, and the replay event's id is given. The texts of errors are codes.
pub mod Inside
pub mod Confined
use rfsn_agent_full.Base.{
  ltb, leb, ◌==◌, if◌then◌else◌, ltb→lt, lt→ltb, leb→le, bool_tests, Bool-cases, if_both,
  Option-cases, is_some, str_eq_of, of_str_eq, &&_true, length, get_elem?, take, drop, last_n, any,
  all, All, length-append, length-drop, length-take-le, length-last_n, All-append,
  get_elem?-append_left, get_elem?-append_length, get_elem?-take, length-take, get_elem?-none,
  get_elem?-some, ℕ, zero, suc, ◌+◌, ◌-◌, ◌*◌, ◌/◌, ◌%◌, ◌^◌, ◌≤◌, ◌<◌, min, max, String, ◌≡◌, refl,
  sym, ap, ◌∙◌, ◌≢◌, ◌↔◌, ◌⊎◌, inl, inr, Bool, true, false, not, ◌&&◌, ◌||◌, Option, none, some,
  List, [], ◌∷◌, ◌++◌, map, arith, str_eq, eq_iff, eq_refl,
}
use rfsn_agent_full.Base.Int.{ℤ, pos, negsuc, or_default}
use rfsn_agent_full.Base.Text.{
  Text, codes, starts_with, ends_with, eq_text, mem_text, drop_while, is_space,
}
use rfsn_agent_full.Base.Dict.{Dict, get}
use rfsn_agent_full.Kernel.Registry.{ToolSpec, canonical_tools}
use mathlib.Core.List.{reverse}

-- Why a call failed.
pub data ToolError : Type 0 where
  unknown_tool tool_disabled no_handler : ToolError
  missing_path unsafe_path file_not_found directory_not_found os_error empty_patch : ToolError

-- `ToolResult`; the fields that the dispatcher leaves at their defaults are left out.
pub record ToolResult : Type 0 where
  pub success : Bool
  pub tool : String
  pub output : Option Text
  pub error : Option ToolError
  pub policy_decision_id : Option String
  pub replay_event_id : Option String

pub record ExecutionContext : Type 0 where
  pub workspace_root : Text
  pub run_id : String
  pub iter_count : ℕ
  pub sandbox_mode : String
  pub dev_mode : Bool

-- The arguments that the handlers read.
pub record Args : Type 0 where
  pub path : Option Text
  pub glob : Option Text
  pub max_results : Option ℤ
  pub patch : Option Text

-- What the handlers ask of the files: `walk` gives the directories below a path with the names of
-- their files, in the order of `os.walk`, and `read` is none for an `OSError`.
pub record Files : Type 0 where
  pub is_file : Text → Bool
  pub is_dir : Text → Bool
  pub read : Text → Option Text
  pub walk : Text → List (Text × List Text)

pub record Paths : Type 0 where
  pub fnmatch : Text → Text → Bool
  pub relpath : Text → Text → Text

-- `s.split("/")`, with the part so far reversed.
abbrev pub split_slash : Text → Text → List Text
split_slash part [] = reverse part ∷ []
split_slash part (c ∷ s) =
    let next = split_slash [] s in
    let longer = split_slash (c ∷ part) s in if c == b'/' then reverse part ∷ next else longer

-- `os.path.isabs(path) or ".." in path.split("/")`
unfoldable pub is_unsafe_path : Text → Bool
is_unsafe_path path = starts_with path (codes "/") || mem_text (codes "..") (split_slash [] path)

-- `os.path.join(a, b)`
unfoldable pub join_path : Text → Text → Text
join_path a b =
    if starts_with b (codes "/")
    then b
    else (if eq_text a [] || ends_with a (codes "/") then a ++ b else a ++ b'/' ∷ b)

abbrev pub is_blank : Text → Bool
is_blank [] = true
is_blank (c ∷ s) = false

-- `args.get(key, default) or default`
abbrev pub text_or : Option Text → Text → Text
text_or none d = d
text_or (some []) d = d
text_or (some (c ∷ s)) d = c ∷ s

abbrev pub failed : String → ToolError → ToolResult
failed tool error = record {
  success = false;
  tool = tool;
  output = none;
  error = some error;
  policy_decision_id = none;
  replay_event_id = none;
}

abbrev succeeded : String → Text → ToolResult
succeeded tool output = record {
  success = true;
  tool = tool;
  output = some output;
  error = none;
  policy_decision_id = none;
  replay_event_id = none;
}

unfoldable pub read_result : Option Text → ToolResult
read_result none = failed "read_file" os_error
read_result (some content) = succeeded "read_file" (take 65536 content)

-- `_handle_read_file`
unfoldable pub handle_read_file : Files → Args → ExecutionContext → ToolResult
unfolding read_result
handle_read_file files args ctx =
    let path = text_or args.path [] in
    let full = join_path ctx.workspace_root path in
    if is_blank path
    then failed "read_file" missing_path
    else (if is_unsafe_path path
        then failed "read_file" unsafe_path
        else (if files.is_file full
            then read_result (files.read full)
            else failed "read_file" file_not_found))

-- `len(results) >= max_results`
abbrev is_full : ℤ → List Text → Bool
is_full (pos n) results = leb n (length results)
is_full (negsuc n) results = true

-- The loop over the names in the directory `root`.
unfoldable pub list_names : Paths → Text → Text → ℤ → Text → List Text → List Text → List Text
list_names paths ws glob most root [] results = results
list_names paths ws glob most root (name ∷ names) results =
    let longer = results ++ paths.relpath (join_path root name) ws ∷ [] in
    let after = list_names paths ws glob most root names longer in
    let skipped = list_names paths ws glob most root names results in
    if paths.fnmatch name glob then (if is_full most longer then longer else after) else skipped

-- The loop over the directories.
unfoldable pub list_dirs : Paths → Text → Text → ℤ → List (Text × List Text) → List Text → List Text
list_dirs paths ws glob most [] results = results
list_dirs paths ws glob most ((root, names) ∷ dirs) results =
    let here = list_names paths ws glob most root names results in
    let rest = list_dirs paths ws glob most dirs here in if is_full most here then here else rest

unfoldable pub join_lines : List Text → Text
join_lines [] = []
join_lines (l ∷ []) = l
join_lines (l ∷ m ∷ ls) = l ++ 10 ∷ join_lines (m ∷ ls)

-- `_handle_list_files`
unfoldable pub handle_list_files : Paths → Files → Args → ExecutionContext → ToolResult
handle_list_files paths files args ctx =
    let path = text_or args.path (codes ".") in
    let glob = text_or args.glob (codes "*") in
    let most = or_default args.max_results (pos 200) in
    let full = join_path ctx.workspace_root path in
    if is_unsafe_path path
    then failed "list_files" unsafe_path
    else (if files.is_dir full
        then succeeded "list_files"
            (join_lines (list_dirs paths ctx.workspace_root glob most (files.walk full) []))
        else failed "list_files" directory_not_found)

-- `_handle_apply_patch`
unfoldable pub handle_apply_patch : Args → ToolResult
handle_apply_patch args =
    if is_blank (drop_while is_space (text_or args.patch []))
    then failed "apply_patch" empty_patch
    else succeeded "apply_patch" (codes "[dispatcher stub] patch gate check passed")

-- `_handle_noop_read`
unfoldable pub handle_noop_read : ToolResult
handle_noop_read = succeeded "" (codes "[dispatcher stub] read-only tool acknowledged")

pub data Handler : Type 0 where
  read_file list_files apply_patch noop_read : Handler

-- `_HANDLERS`
abbrev pub handlers : Dict Handler
handlers =
    ("read_file", read_file)
    ∷ ("list_files", list_files)
    ∷ ("repo_search", noop_read)
    ∷ ("repo_read_range", noop_read)
    ∷ ("detect_project", noop_read)
    ∷ ("detect_workdirs", noop_read)
    ∷ ("generate_repo_map", noop_read)
    ∷ ("apply_patch", apply_patch)
    ∷ ("run_tests", noop_read)
    ∷ ("run_cmd_template", noop_read)
    ∷ ("format_fix", noop_read)
    ∷ ("ensure_deps", noop_read)
    ∷ []

unfoldable pub handle : Paths → Files → Handler → Args → ExecutionContext → ToolResult
handle paths files read_file args ctx = handle_read_file files args ctx
handle paths files list_files args ctx = handle_list_files paths files args ctx
handle paths files apply_patch args ctx = handle_apply_patch args
handle paths files noop_read args ctx = handle_noop_read

-- The routing of `dispatch_tool`, by the tool's entry in the registry and its handler.
unfoldable pub route :
    Paths → Files → String → Args → ExecutionContext → Option ToolSpec → Option Handler → ToolResult
route paths files name args ctx none h = failed name unknown_tool
route paths files name args ctx (some spec) none =
    if spec.enabled then failed name no_handler else failed name tool_disabled
route paths files name args ctx (some spec) (some h) =
    if spec.enabled then handle paths files h args ctx else failed name tool_disabled

-- `dispatch_tool`
unfoldable pub dispatch_tool :
    Paths → Files → String → Args → ExecutionContext → Option String → String → ToolResult
dispatch_tool paths files name args ctx policy_decision_id event_id =
    record (route paths files name args ctx (get canonical_tools name) (get handlers name)) {
      tool = name;
      policy_decision_id = policy_decision_id;
      replay_event_id = some event_id;
    }
