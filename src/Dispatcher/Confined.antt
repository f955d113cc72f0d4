-- ===== src/Dispatcher/Confined.antt =====
-- What a call of a tool can see of the files, and which calls reach a handler.
use rfsn_agent_full.Base.{
  Bool-cases, if_both, is_some, of_str_eq, &&_true, all, String, ◌≡◌, refl, ap, inl, inr, Bool,
  true, false, not, ◌||◌, Option, none, some, [], ◌∷◌, arith, str_eq,
}
use rfsn_agent_full.Base.Text.{Text, codes, drop_while, is_space}
use mathlib.Core.Option.{some-injective}
use rfsn_agent_full.Base.Dict.{Dict, get}
use rfsn_agent_full.Kernel.Registry.{ToolSpec, canonical_tools}
use rfsn_agent_full.Dispatcher.Inside.{IsInside, join_path-IsInside}
use rfsn_agent_full.Dispatcher.{
  ToolError, no_handler, ToolResult, ExecutionContext, Args, Files, Paths, is_unsafe_path,
  join_path, handle_read_file, handle_list_files, Handler, read_file, list_files, apply_patch,
  noop_read, handlers, handle, text_or, is_blank, read_result, handle_apply_patch, handle_noop_read,
  route, dispatch_tool,
}

-- The two file systems are the same at every path inside `ws`.
abbrev pub AgreeInside : Text → Files → Files → Type 0
AgreeInside ws f g =
    (path : Text)
    → IsInside ws path
    → (f.is_file path ≡ g.is_file path)
      × (f.is_dir path ≡ g.is_dir path)
      × (f.read path ≡ g.read path)
      × (f.walk path ≡ g.walk path)

read_file_confined :
    (f g : Files) (args : Args) (ctx : ExecutionContext)
    → AgreeInside ctx.workspace_root f g
    → handle_read_file f args ctx ≡ handle_read_file g args ctx
unfolding handle_read_file
read_file_confined f g args ctx agree =
    let path = text_or args.path [] in
    let full = join_path ctx.workspace_root path in
    elim (Bool-cases (is_unsafe_path path)) [
      | inl bad ↦ rw bad refl
      | inr inside ↦
          let (is_file, _, read, _) =
            agree (join_path ctx.workspace_root path)
              (join_path-IsInside ctx.workspace_root path inside) in
          rw (inside, is_file, read) refl
    ]

list_files_confined :
    (paths : Paths) (f g : Files) (args : Args) (ctx : ExecutionContext)
    → AgreeInside ctx.workspace_root f g
    → handle_list_files paths f args ctx ≡ handle_list_files paths g args ctx
unfolding handle_list_files
list_files_confined paths f g args ctx agree =
    let path = text_or args.path (codes ".") in
    elim (Bool-cases (is_unsafe_path path)) [
      | inl bad ↦ rw bad refl
      | inr inside ↦
          let (_, is_dir, _, walk) =
            agree (join_path ctx.workspace_root path)
              (join_path-IsInside ctx.workspace_root path inside) in
          rw (inside, is_dir, walk) refl
    ]

handle_confined :
    (paths : Paths) (f g : Files) (h : Handler) (args : Args) (ctx : ExecutionContext)
    → AgreeInside ctx.workspace_root f g
    → handle paths f h args ctx ≡ handle paths g h args ctx
unfolding handle
handle_confined paths f g read_file args ctx agree = read_file_confined f g args ctx agree
handle_confined paths f g list_files args ctx agree = list_files_confined paths f g args ctx agree
handle_confined paths f g apply_patch args ctx agree = refl
handle_confined paths f g noop_read args ctx agree = refl

-- An entry of the registry that is enabled has a handler under its name.
abbrev has_handler : String × ToolSpec → Bool
has_handler (name, spec) = not spec.enabled || is_some (get handlers name)

all-get :
    {V : Type 0} (p : String × V → Bool) (d : Dict V) (k : String) (v : V)
    → all p d ≡ true
    → get d k ≡ some v
    → p (k, v) ≡ true
unfolding get
all-get p [] k v h e = cc e
all-get p ((j, w) ∷ d) k v h e =
    let (here, rest) = &&_true (p (j, w)) (all p d) h in
    elim (Bool-cases (str_eq j k)) [
      | inl same ↦
          let f : w ≡ v = some-injective w v (rw same at e) in
          cc (ap (λ u. p (j, u)) f, ap (λ i. p (i, v)) (of_str_eq j k same), here)
      | inr other ↦ all-get p d k v rest (rw other at e)
    ]

all_handled : all has_handler canonical_tools ≡ true
unfolding get
all_handled = refl

abbrev pub is_no_handler : Option ToolError → Bool
is_no_handler (some no_handler) = true
is_no_handler _ = false

-- The error of a result is not that of a missing handler.
abbrev IsHandled : ToolResult → Type 0
IsHandled r = is_no_handler r.error ≡ false

read_result-IsHandled : (o : Option Text) → IsHandled (read_result o)
unfolding read_result
read_result-IsHandled none = refl
read_result-IsHandled (some content) = refl

handle-IsHandled :
    (paths : Paths) (f : Files) (h : Handler) (args : Args) (ctx : ExecutionContext)
    → IsHandled (handle paths f h args ctx)
unfolding handle handle_read_file handle_list_files handle_apply_patch handle_noop_read
handle-IsHandled paths f read_file args ctx =
    let path = text_or args.path [] in
    if_both IsHandled (is_blank path) refl (
      if_both IsHandled (is_unsafe_path path) refl (
        if_both IsHandled (f.is_file (join_path ctx.workspace_root path))
          (read_result-IsHandled (f.read (join_path ctx.workspace_root path))) refl))
handle-IsHandled paths f list_files args ctx =
    let path = text_or args.path (codes ".") in
    if_both IsHandled (is_unsafe_path path) refl
      (if_both IsHandled (f.is_dir (join_path ctx.workspace_root path)) refl refl)
handle-IsHandled paths f apply_patch args ctx =
    if_both IsHandled (is_blank (drop_while is_space (text_or args.patch []))) refl refl
handle-IsHandled paths f noop_read args ctx = refl

route_confined :
    (paths : Paths) (f g : Files) (name : String) (args : Args) (ctx : ExecutionContext)
    (spec : Option ToolSpec) (h : Option Handler)
    → AgreeInside ctx.workspace_root f g
    → route paths f name args ctx spec h ≡ route paths g name args ctx spec h
unfolding route
route_confined paths f g name args ctx none h agree = refl
route_confined paths f g name args ctx (some spec) none agree = refl
route_confined paths f g name args ctx (some spec) (some h) agree =
    rw (handle_confined paths f g h args ctx agree) refl

route-IsHandled :
    (paths : Paths) (f : Files) (name : String) (args : Args) (ctx : ExecutionContext)
    (spec : Option ToolSpec) (h : Option Handler)
    → ((s : ToolSpec) → spec ≡ some s → not s.enabled || is_some h ≡ true)
    → IsHandled (route paths f name args ctx spec h)
unfolding route
route-IsHandled paths f name args ctx none h found = refl
route-IsHandled paths f name args ctx (some spec) none found = elim (Bool-cases spec.enabled) [
  | inl on ↦ let e = found spec refl in absurd (ground (arith, e, on))
  | inr off ↦ rw off refl
]
route-IsHandled paths f name args ctx (some spec) (some h) found =
    if_both IsHandled spec.enabled (handle-IsHandled paths f h args ctx) refl

-- A call of a tool sees nothing of the files but what stands at the root of the workspace followed by
-- relative names, none of them "..": with two file systems that agree there, it has the same result.
-- And a tool that the registry enables is never without its handler.
pub dispatch_tool_confined :
    (paths : Paths) (f g : Files) (name : String) (args : Args) (ctx : ExecutionContext)
    (policy_decision_id : Option String) (event_id : String)
    → AgreeInside ctx.workspace_root f g
    → (dispatch_tool paths f name args ctx policy_decision_id event_id
        ≡ dispatch_tool paths g name args ctx policy_decision_id event_id)
      × (is_no_handler (dispatch_tool paths f name args ctx policy_decision_id event_id).error
          ≡ false)
unfolding dispatch_tool
dispatch_tool_confined paths f g name args ctx policy_decision_id event_id agree =
    let spec = get canonical_tools name in
    let h = get handlers name in
    (
      rw (route_confined paths f g name args ctx spec h agree) refl,
      route-IsHandled paths f name args ctx spec h
          (λ s e. all-get has_handler canonical_tools name s all_handled e),
    )
