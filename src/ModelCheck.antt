-- ===== src/ModelCheck.antt =====
-- rfsn_kernel/model_check.py: the search of a state space in breadth or in depth.
--
-- The state, its fingerprint, the actions, the transition and the invariant are the arguments of the
-- search. A message is data in place of its text. The bound `max_states` of the loops is what their
-- recursion is on.
pub mod Sound
pub mod Complete
pub mod Exhaust
use rfsn_agent_full.Base.{
  ltb, leb, ◌==◌, if◌then◌else◌, ltb→lt, lt→ltb, leb→le, bool_tests, Bool-cases, Option-cases,
  is_some, str_eq_of, of_str_eq, &&_true, length, get_elem?, take, drop, last_n, any, all, All,
  length-append, length-drop, length-take-le, length-last_n, All-append, get_elem?-append_left,
  get_elem?-append_length, get_elem?-take, length-take, get_elem?-none, get_elem?-some, ℕ, zero,
  suc, ◌+◌, ◌-◌, ◌*◌, ◌/◌, ◌%◌, ◌^◌, ◌≤◌, ◌<◌, min, max, String, ◌≡◌, refl, sym, ap, ◌∙◌, ◌≢◌, ◌↔◌,
  ◌⊎◌, inl, inr, Bool, true, false, not, ◌&&◌, ◌||◌, Option, none, some, List, [], ◌∷◌, ◌++◌, map,
  arith, str_eq, eq_iff, eq_refl,
}
use mathlib.Core.List.{reverse}

-- What a transition gives: the next state, or the text of the exception that it raises.
pub data Next {ℓ} (S : Type ℓ) : Type ℓ where
  moved : S → Next S
  raised : String → Next S

pub data Message : Type 0 where
  broken : String → Message
  transition_error : String → String → Message

pub record Violation : Type 0 where
  pub depth : ℕ
  pub message : Message
  pub path : List String

-- `ModelCheckResult`
pub record ModelCheckResult : Type 0 where
  pub visited : ℕ
  pub deadlocks : List (ℕ × List String)
  pub violations : List Violation
  pub max_depth : ℕ

-- A state that waits for its visit, with its depth and the actions that lead to it.
pub record Node {ℓ} (S : Type ℓ) : Type ℓ where
  pub state : S
  pub depth : ℕ
  pub path : List String

-- The fingerprints that were met, the states that wait, and the result so far.
pub record Search {ℓ} (S : Type ℓ) : Type ℓ where
  pub seen : List String
  pub queue : List (Node S)
  pub result : ModelCheckResult

-- What a search is given.
pub record Space {ℓ} (S : Type ℓ) : Type ℓ where
  pub fingerprint : S → String
  pub get_actions : S → List String
  pub transition : S → String → Next S
  pub check_invariant : S → Option String

abbrev pub nothing_found : ModelCheckResult
nothing_found = record { visited = 0; deadlocks = []; violations = []; max_depth = 0 }

abbrev pub in_order : List String → List String
in_order acts = acts

module _ {ℓ} {S : Type ℓ} where
  note_violation : Violation → Search S → Search S
  note_violation v t = record t {
    result = record t.result { violations = t.result.violations ++ v ∷ [] };
  }

  -- `push` puts a new state where the search takes it from.
  module _ (space : Space S) (push : Node S → List (Node S) → List (Node S)) where
    -- One round of the loop over the actions.
    unfoldable pub take_action : Node S → String → Next S → Search S → Search S
    unfolding note_violation
    take_action node action (raised text) t =
        note_violation
          (record {
            depth = node.depth + 1;
            message = transition_error action text;
            path = node.path ++ action ∷ [];
          })
          t
    take_action node action (moved next) t =
        let fp = space.fingerprint next in
        let n : Node S = record {
          state = next;
          depth = node.depth + 1;
          path = node.path ++ action ∷ [];
        } in
        if any (λ s. str_eq s fp) t.seen
        then t
        else record t { seen = fp ∷ t.seen; queue = push n t.queue }

    unfoldable pub take_actions : Node S → List String → Search S → Search S
    unfolding take_action
    take_actions node [] t = t
    take_actions node (a ∷ acts) t =
        take_actions node acts (take_action node a (space.transition node.state a) t)

    unfoldable pub expand : (List String → List String) → Node S → List String → Search S → Search S
    unfolding take_actions
    expand order node [] t = record t {
      result = record t.result { deadlocks = t.result.deadlocks ++ (node.depth, node.path) ∷ [] };
    }
    expand order node (a ∷ acts) t = take_actions node (order (a ∷ acts)) t

    -- The visit of a state, after the invariant was checked.
    unfoldable pub visit_in :
        (List String → List String) → ℕ → Node S → Option String → Search S → Search S
    unfolding expand note_violation
    visit_in order max_depth node (some text) t =
        note_violation (record { depth = node.depth; message = broken text; path = node.path }) t
    visit_in order max_depth node none t =
        if leb max_depth node.depth then t else expand order node (space.get_actions node.state) t

    unfoldable pub visit : (List String → List String) → ℕ → Node S → Search S → Search S
    unfolding visit_in
    visit order max_depth node t =
        visit_in order max_depth node (space.check_invariant node.state) (record t {
          result = record t.result {
            visited = t.result.visited + 1;
            max_depth = max t.result.max_depth node.depth;
          };
        })

    -- The loop, with the number of visits that are left.
    unfoldable pub explore :
        (List String → List String)
        → ℕ
        → ℕ
        → List String
        → List (Node S)
        → ModelCheckResult
        → ModelCheckResult
    unfolding visit
    explore order max_depth zero seen queue r = r
    explore order max_depth (suc n) seen [] r = r
    explore order max_depth (suc n) seen (node ∷ queue) r =
        let t = visit order max_depth node (record { seen = seen; queue = queue; result = r }) in
        explore order max_depth n t.seen t.queue t.result

  abbrev pub start : S → Node S
  start s = record { state = s; depth = 0; path = [] }

  abbrev pub enqueue : Node S → List (Node S) → List (Node S)
  enqueue n queue = queue ++ n ∷ []

  -- `explore_bfs`: the queue is taken from the front and filled at the back.
  unfoldable pub explore_bfs : Space S → ℕ → ℕ → S → ModelCheckResult
  unfolding explore
  explore_bfs space max_states max_depth s =
      explore space enqueue in_order max_depth max_states (space.fingerprint s ∷ []) (start s ∷ [])
        nothing_found

  -- `explore_dfs`: the top of the stack is the front of the list, and the actions are reversed.
  unfoldable pub explore_dfs : Space S → ℕ → ℕ → S → ModelCheckResult
  unfolding explore
  explore_dfs space max_states max_depth s =
      explore space (λ n stack. n ∷ stack) reverse max_depth max_states (space.fingerprint s ∷ [])
        (start s ∷ []) nothing_found
