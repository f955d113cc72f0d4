-- ===== src/ModelCheck/Exhaust.antt =====
-- A search in breadth that was not cut off has seen every reachable state.
use rfsn_agent_full.Base.{
  of_str_eq, any, ℕ, zero, suc, ◌+◌, ◌≤◌, ◌<◌, max, String, ◌≡◌, refl, sym, ap, ◌∙◌, inl, inr, true,
  none, List, [], ◌∷◌, arith, str_eq, eq_refl,
}
use rfsn_agent_full.ModelCheck.{
  Next, moved, raised, ModelCheckResult, Node, Search, Space, visit, explore, start, nothing_found,
  enqueue, in_order, explore_bfs,
}
use rfsn_agent_full.ModelCheck.Complete.{
  All-map, All-any, is_seen, IsKnown, IsHandled, IsDone, Grows, visit_in-Grows, visit_in-IsDone,
  IsComplete, popped, IsDone-more,
}

module _ {ℓ} {S : Type ℓ} (space : Space S) (s0 : S) where
  -- The states that the allowed actions reach.
  pub data IsReachable : S → Type ℓ where
    at_start : IsReachable s0
    by_action :
        (s next : S) (a : String)
        → IsReachable s
        → any (λ b. str_eq b a) (space.get_actions s) ≡ true
        → space.transition s a ≡ moved next
        → IsReachable next

  -- The search before a visit, and the one that the visit counts.
  abbrev counted : ℕ → Node S → Search S → Search S
  counted max_depth node t = record t {
    result = record t.result {
      visited = t.result.visited + 1;
      max_depth = max t.result.max_depth node.depth;
    };
  }

  visit-Grows :
      (done : List S) (max_depth : ℕ) (node : Node S) (t : Search S)
      → Grows space done (counted max_depth node t) (visit space enqueue in_order max_depth node t)
  unfolding visit
  visit-Grows done max_depth node t =
      visit_in-Grows space done max_depth node (space.check_invariant node.state)
        (counted max_depth node t)

  visit-IsComplete :
      (done : List S) (max_depth : ℕ) (node : Node S) (seen : List String) (queue : List (Node S))
      (r : ModelCheckResult)
      → IsComplete space done seen (node ∷ queue)
      → (visit space enqueue in_order max_depth node
          (record { seen = seen; queue = queue; result = r })).result.violations
        ≡ []
      → node.depth < max_depth
      → IsComplete space
          (node.state ∷ done)
          (visit space enqueue in_order max_depth node
            (record { seen = seen; queue = queue; result = r })).seen
          (visit space enqueue in_order max_depth node
            (record { seen = seen; queue = queue; result = r })).queue
  unfolding visit
  visit-IsComplete done max_depth node seen queue r c clean shallow =
      let t : Search S =
        counted max_depth node (record { seen = seen; queue = queue; result = r }) in
      let g =
        visit_in-Grows space (node.state ∷ done) max_depth node (space.check_invariant node.state)
          t in
      record {
        covered = g.covers (All-map _ _ (popped space done node queue) seen c.covered);
        handled = (
          visit_in-IsDone space max_depth node (space.check_invariant node.state) t refl shallow
              clean,
          All-map _ _ (λ s. IsDone-more space (node.state ∷ done) t _ s g) done c.handled,
        );
      }

  -- The loop keeps what was found.
  explore_keeps :
      (max_depth left : ℕ) (seen : List String) (queue : List (Node S)) (r : ModelCheckResult)
      → (explore space enqueue in_order max_depth left seen queue r).violations ≡ []
      → (r.violations ≡ [])
        × (r.max_depth ≤ (explore space enqueue in_order max_depth left seen queue r).max_depth)
  unfolding explore
  explore_keeps max_depth zero seen queue r h = (h, omega arith)
  explore_keeps max_depth (suc left) seen [] r h = (h, omega arith)
  explore_keeps max_depth (suc left) seen (node ∷ queue) r h =
      let t : Search S = record { seen = seen; queue = queue; result = r } in
      let u = visit space enqueue in_order max_depth node t in
      let g = visit-Grows [] max_depth node t in
      let (clean, deep) = explore_keeps max_depth left u.seen u.queue u.result h in
      (g.clean clean, omega (arith, deep, g.depth))

  -- What is left when the queue has run empty.
  pub record IsExhausted (seen : List String) : Type ℓ where
    pub done : List S
    pub found : List String
    pub more : (f : String) → is_seen space f seen ≡ true → is_seen space f found ≡ true
    pub complete : IsComplete space done found []

  explore-IsExhausted :
      (done : List S) (max_depth left : ℕ) (seen : List String) (queue : List (Node S))
      (r : ModelCheckResult)
      → IsComplete space done seen queue
      → (explore space enqueue in_order max_depth left seen queue r).violations ≡ []
      → (explore space enqueue in_order max_depth left seen queue r).visited < r.visited + left
      → (explore space enqueue in_order max_depth left seen queue r).max_depth < max_depth
      → IsExhausted seen
  unfolding explore
  explore-IsExhausted done max_depth zero seen queue r c clean few shallow =
      absurd (omega (arith, few))
  explore-IsExhausted done max_depth (suc left) seen [] r c clean few shallow = record {
    done = done;
    found = seen;
    more = λ f h. h;
    complete = c;
  }
  explore-IsExhausted done max_depth (suc left) seen (node ∷ queue) r c clean few shallow =
      let t : Search S = record { seen = seen; queue = queue; result = r } in
      let u = visit space enqueue in_order max_depth node t in
      let g = visit-Grows [] max_depth node t in
      let (clean', deep) = explore_keeps max_depth left u.seen u.queue u.result clean in
      let low : node.depth < max_depth = omega (arith, deep, g.depth, shallow) in
      let e =
        explore-IsExhausted (node.state ∷ done) max_depth left u.seen u.queue u.result
          (visit-IsComplete done max_depth node seen queue r c clean' low) clean
          (omega (arith, few, g.visits)) shallow in
      record {
        done = e.done;
        found = e.found;
        more = λ f h. e.more f (g.more f h);
        complete = e.complete;
      }

  module _ (injective : (a b : S) → space.fingerprint a ≡ space.fingerprint b → a ≡ b) where
    -- A state whose fingerprint was met when the queue has run empty is done.
    seen-IsDone :
        (seen : List String) (x : IsExhausted seen) (s : S)
        → is_seen space (space.fingerprint s) x.found ≡ true
        → IsDone space x.found s
    seen-IsDone seen x s h =
        let (f, same, known) = All-any (IsKnown space x.done []) _ x.found x.complete.covered h in
        elim known [
          | inl hit ↦
              let (d, e, ok) = All-any (IsDone space x.found) _ x.done x.complete.handled hit in
              let eq : d ≡ s =
                injective d s
                  (of_str_eq (space.fingerprint d) f e ∙ of_str_eq f (space.fingerprint s) same) in
              rw (← eq) ok
          | inr none_left ↦ absurd (ground arith)
        ]

    state_or : S → Next S → S
    state_or s (moved next) = next
    state_or s (raised text) = s

    moved_injective : (a b : S) → moved a ≡ moved b → a ≡ b
    unfolding state_or
    moved_injective a b e = ap (state_or a) e

    reachable-seen :
        (x : IsExhausted (space.fingerprint s0 ∷ [])) (s : S)
        → IsReachable s
        → is_seen space (space.fingerprint s) x.found ≡ true
    reachable-seen x s at_start =
        x.more (space.fingerprint s0) (ground (arith, eq_refl (space.fingerprint s0)))
    reachable-seen x _ (by_action p s a r allowed e) =
        let (_, handled) = seen-IsDone _ x p (reachable-seen x p r) in
        let (b, same, (next, e', h)) =
          All-any (IsHandled space p x.found) _ (space.get_actions p) handled allowed in
        let q : next ≡ s =
          moved_injective next s (sym e' ∙ ap (space.transition p) (of_str_eq b a same) ∙ e) in
        rw (← q) h

    -- If fingerprints tell states apart, and the search in breadth reports no violation, visits
    -- fewer than `max_states` states and meets none at `max_depth`, then every state that the allowed
    -- actions reach, at any depth, keeps the invariant.
    pub explore_bfs-IsReachable :
        (max_states max_depth : ℕ)
        → (explore_bfs space max_states max_depth s0).violations ≡ []
        → (explore_bfs space max_states max_depth s0).visited < max_states
        → (explore_bfs space max_states max_depth s0).max_depth < max_depth
        → (s : S) → IsReachable s
        → space.check_invariant s ≡ none
    unfolding explore_bfs
    explore_bfs-IsReachable max_states max_depth clean few shallow s r =
        let x =
          explore-IsExhausted [] max_depth max_states (space.fingerprint s0 ∷ []) (start s0 ∷ [])
            nothing_found
            (record {
              covered = (inr (ground (arith, eq_refl (space.fingerprint s0))), tt);
              handled = tt;
            })
            clean (omega (arith, few)) shallow in
        (seen-IsDone _ x s (reachable-seen x s r)).0
