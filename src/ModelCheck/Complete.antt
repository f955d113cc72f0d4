-- ===== src/ModelCheck/Complete.antt =====
-- What a visit adds to the search in breadth: it forgets no state, and it follows every action.
use rfsn_agent_full.Base.{
  leb, Bool-cases, if_both, any, All, ℕ, ◌+◌, ◌<◌, String, ◌≡◌, refl, ◌∙◌, ◌≢◌, ◌⊎◌, inl, inr, Bool,
  true, false, ◌||◌, Option, none, some, List, [], ◌∷◌, ◌++◌, arith, str_eq, eq_refl,
}
use rfsn_agent_full.ModelCheck.{
  Next, moved, raised, Node, Search, Space, note_violation, take_action, take_actions, expand,
  visit_in, enqueue, in_order,
}

append_ne_nil {ℓ} : {A : Type ℓ} (xs : List A) (x : A) → xs ++ x ∷ [] ≢ []
append_ne_nil [] x h = cc
append_ne_nil (y ∷ xs) x h = cc

any-append {ℓ} :
    {A : Type ℓ} (p : A → Bool) (xs ys : List A) → any p (xs ++ ys) ≡ (any p xs || any p ys)
any-append p [] ys = refl
any-append p (x ∷ xs) ys = ground (arith, any-append p xs ys)

pub All-map {ℓ κ κ'} :
    {A : Type ℓ} (P : A → Type κ) (Q : A → Type κ') (f : (a : A) → P a → Q a) (xs : List A)
    → All P xs
    → All Q xs
All-map P Q f [] h = tt
All-map P Q f (x ∷ xs) (p, h) = (f x p, All-map P Q f xs h)

pub All-any {ℓ κ} :
    {A : Type ℓ} (P : A → Type κ) (p : A → Bool) (xs : List A)
    → All P xs
    → any p xs ≡ true
    → (a : A) × (p a ≡ true) × P a
All-any P p [] h e = cc
All-any P p (x ∷ xs) (q, h) e = elim (Bool-cases (p x)) [
  | inl hit ↦ (x, hit, q)
  | inr miss ↦ All-any P p xs h (ground arith)
]

module _ {ℓ} {S : Type ℓ} (space : Space S) where
  abbrev pub is_seen : String → List String → Bool
  is_seen f seen = any (λ s. str_eq s f) seen

  -- The fingerprint is that of a state in `done` or of one that waits.
  abbrev pub IsKnown : List S → List (Node S) → String → Type 0
  IsKnown done queue f =
      (any (λ s. str_eq (space.fingerprint s) f) done ≡ true)
      ⊎ (any (λ (n : Node S). str_eq (space.fingerprint n.state) f) queue ≡ true)

  -- The action leads to a state whose fingerprint was met.
  abbrev pub IsHandled : S → List String → String → Type ℓ
  IsHandled s seen a =
      (next : S) × (space.transition s a ≡ moved next)
      × (is_seen (space.fingerprint next) seen ≡ true)

  pub record Grows (done : List S) (t t' : Search S) : Type ℓ where
    pub more : (f : String) → is_seen f t.seen ≡ true → is_seen f t'.seen ≡ true
    pub covers : All (IsKnown done t.queue) t.seen → All (IsKnown done t'.queue) t'.seen
    pub clean : t'.result.violations ≡ [] → t.result.violations ≡ []
    pub depth : t'.result.max_depth ≡ t.result.max_depth
    pub visits : t'.result.visited ≡ t.result.visited

  Grows-refl : (done : List S) (t : Search S) → Grows done t t
  Grows-refl done t = record {
    more = λ f h. h;
    covers = λ h. h;
    clean = λ h. h;
    depth = refl;
    visits = refl;
  }

  Grows-trans :
      (done : List S) (t u v : Search S) → Grows done t u → Grows done u v → Grows done t v
  Grows-trans done t u v g h = record {
    more = λ f e. h.more f (g.more f e);
    covers = λ c. h.covers (g.covers c);
    clean = λ e. g.clean (h.clean e);
    depth = h.depth ∙ g.depth;
    visits = h.visits ∙ g.visits;
  }

  IsKnown-more :
      (done : List S) (queue : List (Node S)) (n : Node S) (f : String)
      → IsKnown done queue f
      → IsKnown done (enqueue n queue) f
  IsKnown-more done queue n f (inl h) = inl h
  IsKnown-more done queue n f (inr h) = inr (any-append _ queue (n ∷ []) ∙ ground (arith, h))

  IsKnown-new :
      (done : List S) (queue : List (Node S)) (n : Node S)
      → IsKnown done (enqueue n queue) (space.fingerprint n.state)
  IsKnown-new done queue n =
      inr (any-append _ queue (n ∷ []) ∙ ground (arith, eq_refl (space.fingerprint n.state)))

  take_action-Grows :
      (done : List S) (node : Node S) (a : String) (next : Next S) (t : Search S)
      → Grows done t (take_action space enqueue node a next t)
  unfolding take_action note_violation
  take_action-Grows done node a (raised text) t = record {
    more = λ f h. h;
    covers = λ h. h;
    clean = λ h. absurd (append_ne_nil _ _ h);
    depth = refl;
    visits = refl;
  }
  take_action-Grows done node a (moved next) t =
      let fp = space.fingerprint next in
      let m : Node S = record {
        state = next;
        depth = node.depth + 1;
        path = node.path ++ a ∷ [];
      } in
      let u : Search S = record t { seen = fp ∷ t.seen; queue = enqueue m t.queue } in
      let g : Grows done t u = record {
        more = λ f h. ground (arith, h);
        covers =
            λ c. (IsKnown-new done t.queue m, All-map _ _ (IsKnown-more done t.queue m) t.seen c);
        clean = λ h. h;
        depth = refl;
        visits = refl;
      } in
      if_both (Grows done t) (any (λ s. str_eq s fp) t.seen) (Grows-refl done t) g

  take_action-IsHandled :
      (node : Node S) (a : String) (next : Next S) (t : Search S)
      → space.transition node.state a ≡ next
      → (take_action space enqueue node a next t).result.violations ≡ []
      → IsHandled node.state (take_action space enqueue node a next t).seen a
  unfolding take_action note_violation
  take_action-IsHandled node a (raised text) t e h = absurd (append_ne_nil _ _ h)
  take_action-IsHandled node a (moved next) t e h =
      elim (Bool-cases (any (λ s. str_eq s (space.fingerprint next)) t.seen)) [
        | inl old ↦ (next, e, rw old old)
        | inr new ↦ (next, e, rw new (ground (arith, eq_refl (space.fingerprint next))))
      ]

  take_actions-Grows :
      (done : List S) (node : Node S) (acts : List String) (t : Search S)
      → Grows done t (take_actions space enqueue node acts t)
  unfolding take_actions
  take_actions-Grows done node [] t = Grows-refl done t
  take_actions-Grows done node (a ∷ acts) t =
      Grows-trans done t _ _ (take_action-Grows done node a (space.transition node.state a) t)
        (take_actions-Grows done node acts _)

  IsHandled-more :
      (done : List S) (t t' : Search S) (s : S) (a : String)
      → Grows done t t'
      → IsHandled s t.seen a
      → IsHandled s t'.seen a
  IsHandled-more done t t' s a g (next, e, h) = (next, e, g.more _ h)

  take_actions-IsHandled :
      (node : Node S) (acts : List String) (t : Search S)
      → (take_actions space enqueue node acts t).result.violations ≡ []
      → All (IsHandled node.state (take_actions space enqueue node acts t).seen) acts
  unfolding take_actions
  take_actions-IsHandled node [] t h = tt
  take_actions-IsHandled node (a ∷ acts) t h =
      let u = take_action space enqueue node a (space.transition node.state a) t in
      let g = take_actions-Grows [] node acts u in
      (
        IsHandled-more [] u _ node.state a g (take_action-IsHandled node a _ t refl (g.clean h)),
        take_actions-IsHandled node acts u h,
      )

  expand-Grows :
      (done : List S) (node : Node S) (acts : List String) (t : Search S)
      → Grows done t (expand space enqueue in_order node acts t)
  unfolding expand
  expand-Grows done node [] t = record {
    more = λ f h. h;
    covers = λ h. h;
    clean = λ h. h;
    depth = refl;
    visits = refl;
  }
  expand-Grows done node (a ∷ acts) t = take_actions-Grows done node (a ∷ acts) t

  expand-IsHandled :
      (node : Node S) (acts : List String) (t : Search S)
      → (expand space enqueue in_order node acts t).result.violations ≡ []
      → All (IsHandled node.state (expand space enqueue in_order node acts t).seen) acts
  unfolding expand
  expand-IsHandled node [] t h = tt
  expand-IsHandled node (a ∷ acts) t h = take_actions-IsHandled node (a ∷ acts) t h

  pub visit_in-Grows :
      (done : List S) (max_depth : ℕ) (node : Node S) (c : Option String) (t : Search S)
      → Grows done t (visit_in space enqueue in_order max_depth node c t)
  unfolding visit_in note_violation
  visit_in-Grows done max_depth node (some text) t = record {
    more = λ f h. h;
    covers = λ h. h;
    clean = λ h. absurd (append_ne_nil _ _ h);
    depth = refl;
    visits = refl;
  }
  visit_in-Grows done max_depth node none t =
      if_both (Grows done t) (leb max_depth node.depth) (Grows-refl done t)
        (expand-Grows done node (space.get_actions node.state) t)

  -- The state keeps the invariant, and its actions have been followed.
  abbrev pub IsDone : List String → S → Type ℓ
  IsDone seen s = (space.check_invariant s ≡ none) × All (IsHandled s seen) (space.get_actions s)

  pub visit_in-IsDone :
      (max_depth : ℕ) (node : Node S) (c : Option String) (t : Search S)
      → space.check_invariant node.state ≡ c
      → node.depth < max_depth
      → (visit_in space enqueue in_order max_depth node c t).result.violations ≡ []
      → IsDone (visit_in space enqueue in_order max_depth node c t).seen node.state
  unfolding visit_in note_violation
  visit_in-IsDone max_depth node (some text) t e d h = absurd (append_ne_nil _ _ h)
  visit_in-IsDone max_depth node none t e d h =
      let shallow : leb max_depth node.depth ≡ false = ground arith in
      (e, rw shallow (expand-IsHandled node (space.get_actions node.state) t (rw shallow at h)))

  -- Every fingerprint that was met is that of a state that is done or waits, and the done states are.
  pub record IsComplete (done : List S) (seen : List String) (queue : List (Node S)) : Type ℓ where
    pub covered : All (IsKnown done queue) seen
    pub handled : All (IsDone seen) done

  pub popped :
      (done : List S) (node : Node S) (queue : List (Node S)) (f : String)
      → IsKnown done (node ∷ queue) f
      → IsKnown (node.state ∷ done) queue f
  popped done node queue f h = ground (arith, h)

  pub IsDone-more :
      (done : List S) (t t' : Search S) (s : S)
      → Grows done t t'
      → IsDone t.seen s
      → IsDone t'.seen s
  IsDone-more done t t' s g (e, h) =
      (e, All-map _ _ (λ a. IsHandled-more done t t' s a g) (space.get_actions s) h)
