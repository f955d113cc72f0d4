-- ===== src/Swarm/Run.antt =====
-- What a run of the swarm returns, and the events between its start and its end.
use rfsn_agent_full.Base.{
  Bool-cases, length, ℕ, suc, ◌+◌, String, ◌≡◌, refl, sym, ap, ◌∙◌, inl, inr, some, List, [], ◌∷◌,
  ◌++◌,
}
use rfsn_agent_full.Base.Int.{pos}
use rfsn_agent_full.Swarm.{
  Subtask, TaskDecomposition, SubtaskResult, failed, SwarmResult, Event, swarm_start,
  swarm_end_empty, swarm_end, Entry, is_approved, count_approved, approved_patches, sum_revisions,
}
use rfsn_agent_full.Swarm.Coordinator.{
  Coordinator, process_subtask, process_all, run, run_empty, run_subtasks, run_on,
}
use rfsn_agent_full.Swarm.Debate.{events, log-events, log_after}
use rfsn_agent_full.Swarm.Outcome.{
  AllDecided, StatusHolds, overall-StatusHolds, process_subtask-IsDecided,
}
use mathlib.Core.List.{append_assoc, append-nil}

length-approved_patches :
    (m : ℕ) (ts : List Subtask) (rs : List SubtaskResult)
    → AllDecided m ts rs
    → length (approved_patches rs) ≡ count_approved rs
unfolding approved_patches count_approved
length-approved_patches m [] [] h = refl
length-approved_patches m [] (r ∷ rs) h = absurd h
length-approved_patches m (t ∷ ts) [] h = absurd h
length-approved_patches m (t ∷ ts) (r ∷ rs) ((_, (patch, found), _, _), h) =
    elim (Bool-cases (is_approved r.status)) [
      | inl ok ↦ rw (ok, found) (ap suc (length-approved_patches m ts rs h))
      | inr other ↦ rw other (length-approved_patches m ts rs h)
    ]

-- The event that ends a run: of a run without subtasks, or with the numbers of the results.
abbrev pub IsEnd : Event → SwarmResult → Type 0
IsEnd swarm_end_empty r = (r.subtask_results ≡ []) × (r.status ≡ failed)
IsEnd (swarm_end status count total elapsed) r =
    (status ≡ r.status)
    × (count ≡ count_approved r.subtask_results)
    × (total ≡ length r.subtask_results)
    × (elapsed ≡ r.elapsed)
IsEnd _ r = ⊥

-- A run's result: what it holds, and the events between the start and the end of the run.
abbrev pub IsSwarmRun : String → ℕ → SwarmResult → Type 0
IsSwarmRun task m r =
    ((d : TaskDecomposition) × (r.decomposition ≡ some d)
      × AllDecided m d.subtasks r.subtask_results)
    × StatusHolds r.status r.subtask_results
    × (r.total_revisions ≡ sum_revisions r.subtask_results)
    × (length (approved_patches r.subtask_results) ≡ count_approved r.subtask_results)
    × ((es : List Event) × (end : Event) × (events r.ledger_entries
          ≡ swarm_start task ∷ (es ++ end ∷ []))
        × IsEnd end r)

module _ {ℓ} {W : Type ℓ} where
  process_all-AllDecided :
      (c : Coordinator W) (idx m : ℕ) (ts : List Subtask) (context : String) (s : W × List Entry)
      → c.max_revisions ≡ pos m
      → (es : List Event) × (events (process_all c idx ts context s).0.1 ≡ events s.1 ++ es)
        × AllDecided m ts (process_all c idx ts context s).1
  unfolding process_all
  process_all-AllDecided c idx m [] context s e = ([], sym (append-nil (events s.1)), tt)
  process_all-AllDecided c idx m (t ∷ ts) context s e =
      let (es, logged, decided, _) = process_subtask-IsDecided c idx m t context s e in
      let (es', logged', rest) =
        process_all-AllDecided c (idx + 1) m ts context (process_subtask c idx t context s).0 e in
      (
        es ++ es',
        logged' ∙ ap (λ l. l ++ es') logged ∙ append_assoc (events s.1) es es',
        (decided, rest),
      )

  run_empty-IsSwarmRun :
      (c : Coordinator W) (task : String) (m : ℕ) (d : TaskDecomposition) (start : ℕ)
      (s : W × List Entry) (e : Event)
      → events s.1 ≡ swarm_start task ∷ e ∷ []
      → d.subtasks ≡ []
      → IsSwarmRun task m (run_empty c task d start s).1
  unfolding run_empty
  run_empty-IsSwarmRun c task m d start s e logged empty = (
    (d, refl, rw empty tt),
    tt,
    unfold sum_revisions in refl,
    unfold approved_patches count_approved in refl,
    (
      e ∷ [],
      swarm_end_empty,
      log_after c swarm_end_empty s (swarm_start task ∷ []) (e ∷ []) logged,
      (refl, refl),
    ),
  )

  run_subtasks-IsSwarmRun :
      (c : Coordinator W) (task context : String) (m : ℕ) (d : TaskDecomposition) (start : ℕ)
      (s : W × List Entry) (e : Event)
      → events s.1 ≡ swarm_start task ∷ e ∷ []
      → c.max_revisions ≡ pos m
      → IsSwarmRun task m (run_subtasks c task context d start s).1
  unfolding run_subtasks
  run_subtasks-IsSwarmRun c task context m d start s e logged limit =
      let (es, more, decided) = process_all-AllDecided c 0 m d.subtasks context s limit in
      (
        (d, refl, decided),
        overall-StatusHolds _,
        refl,
        length-approved_patches m d.subtasks _ decided,
        (
          e ∷ es,
          _,
          log_after c _ _ (swarm_start task ∷ []) (e ∷ es) (more ∙ ap (λ l. l ++ es) logged),
          (refl, refl, refl, refl),
        ),
      )

  run_on-IsSwarmRun :
      (ts : List Subtask) (c : Coordinator W) (task context : String) (m : ℕ)
      (d : TaskDecomposition) (start : ℕ) (s : W × List Entry) (e : Event)
      → d.subtasks ≡ ts
      → events s.1 ≡ swarm_start task ∷ e ∷ []
      → c.max_revisions ≡ pos m
      → IsSwarmRun task m (run_on ts c task context d start s).1
  unfolding run_on
  run_on-IsSwarmRun [] c task context m d start s e empty logged limit =
      run_empty-IsSwarmRun c task m d start s e logged empty
  run_on-IsSwarmRun (t ∷ ts) c task context m d start s e same logged limit =
      run_subtasks-IsSwarmRun c task context m d start s e logged limit

  -- With a maximum of `m` revisions every run of the swarm returns. Every subtask of the
  -- decomposition has its result, in order, decided by a reviewed patch after at most `m`
  -- revisions; the run is completed when all of them are approved, partial when some and not all
  -- are, and otherwise failed; the revisions are summed up, there is one approved patch for each
  -- approved subtask, and the ledger entries begin with the start of the task and end with the end
  -- that carries the numbers of the result.
  pub run-IsSwarmRun :
      (c : Coordinator W) (task context : String) (m : ℕ) (w : W)
      → c.max_revisions ≡ pos m
      → IsSwarmRun task m (run c task context w).1
  unfolding run
  run-IsSwarmRun c task context m w limit =
      run_on-IsSwarmRun _ c task context m _ _ _ _ refl
        (log_after c _ _ (swarm_start task ∷ []) [] (log-events c _ _)) limit
