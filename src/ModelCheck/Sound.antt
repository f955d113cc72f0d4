-- ===== src/ModelCheck/Sound.antt =====
-- What the search reports is there: the violations and the number of the visits.
use rfsn_agent_full.Base.{
  leb, if_both, length, any, All, length-append, All-append, ℕ, zero, suc, ◌+◌, ◌≤◌, String, ◌≡◌,
  refl, Option, none, some, List, [], ◌∷◌, ◌++◌, arith, str_eq,
}
use mathlib.Core.List.{reverse}
use rfsn_agent_full.ModelCheck.{
  Next, moved, raised, broken, transition_error, Violation, ModelCheckResult, Node, Search, Space,
  note_violation, take_action, take_actions, expand, visit_in, visit, explore, start, nothing_found,
  enqueue, in_order, explore_bfs, explore_dfs,
}

module _ {ℓ} {S : Type ℓ} (space : Space S) (s0 : S) where
  -- The actions lead from the initial state to a state.
  pub data Leads : List String → S → Type ℓ where
    here : Leads [] s0
    onward :
        (path : List String) (s next : S) (a : String)
        → Leads path s
        → space.transition s a ≡ moved next
        → Leads (path ++ a ∷ []) next

  -- The path of the violation leads to a state that breaks the invariant, or, but for its last
  -- action, to a state in which that action raises; the depth is the length of the path.
  pub data IsReal : Violation → Type ℓ where
    breaks :
        (depth : ℕ) (path : List String) (text : String) (s : S)
        → Leads path s
        → depth ≡ length path
        → space.check_invariant s ≡ some text
        → IsReal (record { depth = depth; message = broken text; path = path })
    fails :
        (depth : ℕ) (path : List String) (a text : String) (s : S)
        → Leads path s
        → depth ≡ length path
        → space.transition s a ≡ raised text
        → IsReal
            (record { depth = depth + 1; message = transition_error a text; path = path ++ a ∷ [] })

  pub record IsPlaced (n : Node S) : Type ℓ where
    pub leads : Leads n.path n.state
    pub deep : n.depth ≡ length n.path

  -- The states that wait are where their paths lead, the violations are real, and `n` states have
  -- been visited.
  pub record IsSound (n : ℕ) (t : Search S) : Type ℓ where
    pub placed : All IsPlaced t.queue
    pub real : All IsReal t.result.violations
    pub counted : t.result.visited ≡ n

  note_violation-IsSound :
      (n : ℕ) (v : Violation) (t : Search S)
      → IsReal v
      → IsSound n t
      → IsSound n (note_violation v t)
  unfolding note_violation
  note_violation-IsSound n v t r h = record {
    placed = h.placed;
    real = All-append IsReal t.result.violations (v ∷ []) h.real (r, tt);
    counted = h.counted;
  }

  module _ (push : Node S → List (Node S) → List (Node S))
      (push_all : (n : Node S) (q : List (Node S))
        → IsPlaced n
        → All IsPlaced q
        → All IsPlaced (push n q)) where
    take_action-IsSound :
        (n : ℕ) (node : Node S) (a : String) (next : Next S) (t : Search S)
        → IsPlaced node
        → space.transition node.state a ≡ next
        → IsSound n t
        → IsSound n (take_action space push node a next t)
    unfolding take_action
    take_action-IsSound n node a (raised text) t p e h =
        note_violation-IsSound n _ t (fails node.depth node.path a text node.state p.leads p.deep e)
          h
    take_action-IsSound n node a (moved next) t p e h =
        let fp = space.fingerprint next in
        let m : Node S = record {
          state = next;
          depth = node.depth + 1;
          path = node.path ++ a ∷ [];
        } in
        let q : IsPlaced m = record {
          leads = onward node.path node.state next a p.leads e;
          deep = omega (arith, p.deep, length-append node.path (a ∷ []));
        } in
        let u : Search S = record t { seen = fp ∷ t.seen; queue = push m t.queue } in
        let k : IsSound n u = record {
          placed = push_all m t.queue q h.placed;
          real = h.real;
          counted = h.counted;
        } in
        if_both (IsSound n) (any (λ s. str_eq s fp) t.seen) h k

    take_actions-IsSound :
        (n : ℕ) (node : Node S) (acts : List String) (t : Search S)
        → IsPlaced node
        → IsSound n t
        → IsSound n (take_actions space push node acts t)
    unfolding take_actions
    take_actions-IsSound n node [] t p h = h
    take_actions-IsSound n node (a ∷ acts) t p h =
        take_actions-IsSound n node acts _ p (take_action-IsSound n node a _ t p refl h)

    expand-IsSound :
        (n : ℕ) (order : List String → List String) (node : Node S) (acts : List String)
        (t : Search S)
        → IsPlaced node
        → IsSound n t
        → IsSound n (expand space push order node acts t)
    unfolding expand
    expand-IsSound n order node [] t p h = record {
      placed = h.placed;
      real = h.real;
      counted = h.counted;
    }
    expand-IsSound n order node (a ∷ acts) t p h =
        take_actions-IsSound n node (order (a ∷ acts)) t p h

    visit_in-IsSound :
        (n : ℕ) (order : List String → List String) (max_depth : ℕ) (node : Node S)
        (c : Option String) (t : Search S)
        → IsPlaced node
        → space.check_invariant node.state ≡ c
        → IsSound n t
        → IsSound n (visit_in space push order max_depth node c t)
    unfolding visit_in
    visit_in-IsSound n order max_depth node (some text) t p e h =
        note_violation-IsSound n _ t (breaks node.depth node.path text node.state p.leads p.deep e)
          h
    visit_in-IsSound n order max_depth node none t p e h =
        if_both (IsSound n) (leb max_depth node.depth) h
          (expand-IsSound n order node (space.get_actions node.state) t p h)

    visit-IsSound :
        (n : ℕ) (order : List String → List String) (max_depth : ℕ) (node : Node S) (t : Search S)
        → IsPlaced node
        → IsSound n t
        → IsSound (n + 1) (visit space push order max_depth node t)
    unfolding visit
    visit-IsSound n order max_depth node t p h =
        visit_in-IsSound (n + 1) order max_depth node _ _ p refl
          (record { placed = h.placed; real = h.real; counted = omega (arith, h.counted) })

    explore-IsSound :
        (order : List String → List String) (max_depth left n : ℕ) (seen : List String)
        → (queue : List (Node S)) (r : ModelCheckResult)
        → IsSound n (record { seen = seen; queue = queue; result = r })
        → (All IsReal (explore space push order max_depth left seen queue r).violations)
          × ((explore space push order max_depth left seen queue r).visited ≤ n + left)
    unfolding explore
    explore-IsSound order max_depth zero n seen queue r h = (h.real, omega (arith, h.counted))
    explore-IsSound order max_depth (suc left) n seen [] r h = (h.real, omega (arith, h.counted))
    explore-IsSound order max_depth (suc left) n seen (node ∷ queue) r h =
        let t : Search S = record { seen = seen; queue = queue; result = r } in
        let v =
          visit-IsSound n order max_depth node t h.placed.0
            (record { placed = h.placed.1; real = h.real; counted = h.counted }) in
        let (real, few) =
          explore-IsSound order max_depth left (n + 1) _ _ _
            (record { placed = v.placed; real = v.real; counted = v.counted }) in
        (real, omega (arith, few))

  start-IsPlaced : IsPlaced (start s0)
  start-IsPlaced = record { leads = here; deep = refl }

  -- Every violation that the search in breadth reports is real: its path leads from the initial
  -- state to a state that breaks the invariant, or to an action that raises. At most `max_states`
  -- states are visited.
  pub explore_bfs-IsReal :
      (max_states max_depth : ℕ)
      → (All IsReal (explore_bfs space max_states max_depth s0).violations)
        × ((explore_bfs space max_states max_depth s0).visited ≤ max_states)
  unfolding explore_bfs
  explore_bfs-IsReal max_states max_depth =
      let (real, few) =
        explore-IsSound enqueue (λ n q p h. All-append IsPlaced q (n ∷ []) h (p, tt)) in_order
          max_depth max_states 0 (space.fingerprint s0 ∷ []) (start s0 ∷ []) nothing_found
          (record { placed = (start-IsPlaced, tt); real = tt; counted = refl }) in
      (real, omega (arith, few))

  -- Every violation that the search in depth reports is real: its path leads from the initial state
  -- to a state that breaks the invariant, or to an action that raises. At most `max_states` states
  -- are visited.
  pub explore_dfs-IsReal :
      (max_states max_depth : ℕ)
      → (All IsReal (explore_dfs space max_states max_depth s0).violations)
        × ((explore_dfs space max_states max_depth s0).visited ≤ max_states)
  unfolding explore_dfs
  explore_dfs-IsReal max_states max_depth =
      let (real, few) =
        explore-IsSound (λ n stack. n ∷ stack) (λ n q p h. (p, h)) reverse max_depth max_states 0
          (space.fingerprint s0 ∷ []) (start s0 ∷ []) nothing_found
          (record { placed = (start-IsPlaced, tt); real = tt; counted = refl }) in
      (real, omega (arith, few))
