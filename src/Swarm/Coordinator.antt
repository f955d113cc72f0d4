-- ===== src/Swarm/Coordinator.antt =====
-- rfsn_kernel/swarm/coordinator.py: the loop of architect, coder and reviewer.
--
-- The agents, the ledger function, the clock and the two fingerprints (SHA-256 of JSON text) are
-- parameters. An agent may do anything to the world `W` outside the coordinator; that it returns,
-- and does not raise, is assumed.
use rfsn_agent_full.Base.{
  leb, length, ℕ, zero, suc, ◌+◌, String, Bool, true, false, Option, none, some, List, [], ◌∷◌,
  ◌++◌,
}
use rfsn_agent_full.Base.Int.{ℤ, pos, negsuc}
use rfsn_agent_full.Swarm.{
  approve, request_changes, reject, Subtask, TaskDecomposition, PatchProposal, ReviewVerdict,
  RevisionRequest, approved, rejected, escalated, SubtaskResult, failed, Event, swarm_start,
  decomposed, patch_proposal, review_verdict, subtask_rejected, subtask_escalated, swarm_end_empty,
  swarm_end, Entry, SwarmResult, count_approved, sum_revisions, overall, unstarted,
}

-- `SwarmCoordinator.__init__`
pub record Coordinator {ℓ} (W : Type ℓ) : Type ℓ where
  pub architect_fn : String → String → W → W × TaskDecomposition
  pub coder_fn : Subtask → String → Option RevisionRequest → W → W × PatchProposal
  pub qa_fn : Subtask → PatchProposal → W → W × ReviewVerdict
  pub max_revisions : ℤ
  pub ledger_fn : Entry → W → W
  pub clock : W → W × ℕ
  pub decomposition_fingerprint : TaskDecomposition → String
  pub patch_fingerprint : PatchProposal → String

-- `range(self.max_revisions + 1)` has this many elements.
abbrev pub rounds_of : ℤ → ℕ
rounds_of (pos n) = suc n
rounds_of (negsuc n) = 0

-- `revision >= self.max_revisions`
abbrev pub is_last_round : ℤ → ℕ → Bool
is_last_round (pos n) revision = leb n revision
is_last_round (negsuc n) revision = true

module _ {ℓ} {W : Type ℓ} where
  -- `_log`, on the world and `result.ledger_entries`.
  unfoldable pub log : Coordinator W → Event → W × List Entry → W × List Entry
  log c event (w, entries) =
      let (w1, t) = c.clock w in
      let entry : Entry = record { event = event; timestamp = t } in
      (c.ledger_fn entry w1, entries ++ entry ∷ [])

  -- One round: the coder proposes, the reviewer reviews, and both are logged.
  unfoldable pub propose_and_review :
      Coordinator W
      → ℕ
      → Subtask
      → String
      → ℕ
      → Option RevisionRequest
      → W × List Entry
      → (W × List Entry) × (PatchProposal × ReviewVerdict)
  propose_and_review c idx subtask context revision request (w, entries) =
      let (w1, patch) = c.coder_fn subtask context request w in
      let (w2, entries2) =
        log c (patch_proposal idx revision (c.patch_fingerprint patch) patch.files_modified)
          (w1, entries) in
      let (w3, verdict) = c.qa_fn subtask patch w2 in
      (log c (review_verdict idx verdict.verdict revision) (w3, entries2), (patch, verdict))

  -- The rounds of `_process_subtask` from `revision` on, of which `rounds` are left.
  unfoldable pub debate :
      Coordinator W
      → ℕ
      → Subtask
      → String
      → (rounds revision : ℕ) → Option RevisionRequest
      → SubtaskResult
      → W × List Entry
      → (W × List Entry) × SubtaskResult
  debate c idx subtask context zero revision request st s = (s, record st { status = escalated })
  debate c idx subtask context (suc rounds) revision request st s =
      let (s2, (patch, verdict)) = propose_and_review c idx subtask context revision request s in
      let st2 = record st { final_patch = some patch; final_verdict = some verdict } in
      elim verdict.verdict [
        | approve ↦ (s2, record st2 { status = approved; revisions = revision })
        | reject ↦ (
          log c (subtask_rejected idx verdict.comments) s2,
          record st2 { status = rejected; revisions = revision },
        )
        | request_changes ↦ elim (is_last_round c.max_revisions revision) [
          | true ↦ (
            log c (subtask_escalated idx c.max_revisions) s2,
            record st2 { status = escalated; revisions = revision },
          )
          | false ↦
              let (w3, t) = c.clock s2.0 in
              let request' : RevisionRequest = record {
                original_patch = patch;
                qa_feedback = verdict.comments;
                issues_to_fix = verdict.issues;
                revision_number = revision + 1;
                timestamp = t;
              } in
              debate c idx subtask context rounds (revision + 1) (some request')
                (record st2 { revisions = revision + 1 }) (w3, s2.1)
        ]
      ]

  -- `_process_subtask`
  unfoldable pub process_subtask :
      Coordinator W → ℕ → Subtask → String → W × List Entry → (W × List Entry) × SubtaskResult
  process_subtask c idx subtask context s =
      debate c idx subtask context (rounds_of c.max_revisions) 0 none (unstarted subtask) s

  -- Phase 2 of `run`: the subtasks in order, numbered from `idx`.
  unfoldable pub process_all :
      Coordinator W
      → ℕ
      → List Subtask
      → String
      → W × List Entry
      → (W × List Entry) × List SubtaskResult
  process_all c idx [] context s = (s, [])
  process_all c idx (subtask ∷ subtasks) context s =
      let (s1, r) = process_subtask c idx subtask context s in
      let (s2, rs) = process_all c (idx + 1) subtasks context s1 in (s2, r ∷ rs)

  -- `run` when the architect gave no subtasks.
  unfoldable pub run_empty :
      Coordinator W → String → TaskDecomposition → ℕ → W × List Entry → W × SwarmResult
  run_empty c task decomposition start s =
      let (w1, entries) = log c swarm_end_empty s in
      let (w2, end) = c.clock w1 in
      (
        w2,
        record {
          task = task;
          decomposition = some decomposition;
          subtask_results = [];
          status = failed;
          total_revisions = 0;
          elapsed = (start, end);
          ledger_entries = entries;
        },
      )

  -- The phases 2 and 3 of `run`.
  unfoldable pub run_subtasks :
      Coordinator W → String → String → TaskDecomposition → ℕ → W × List Entry → W × SwarmResult
  run_subtasks c task context decomposition start s =
      let ((w1, entries1), rs) = process_all c 0 decomposition.subtasks context s in
      let (w2, end) = c.clock w1 in
      let (w3, entries3) =
        log c (swarm_end (overall rs) (count_approved rs) (length rs) (start, end))
          (w2, entries1) in
      (
        w3,
        record {
          task = task;
          decomposition = some decomposition;
          subtask_results = rs;
          status = overall rs;
          total_revisions = sum_revisions rs;
          elapsed = (start, end);
          ledger_entries = entries3;
        },
      )

  -- The test of the subtasks in `run`.
  unfoldable pub run_on :
      List Subtask
      → Coordinator W
      → String
      → String
      → TaskDecomposition
      → ℕ
      → W × List Entry
      → W × SwarmResult
  run_on [] c task context decomposition start s = run_empty c task decomposition start s
  run_on (t ∷ ts) c task context decomposition start s =
      run_subtasks c task context decomposition start s

  -- `run`
  unfoldable pub run : Coordinator W → String → String → W → W × SwarmResult
  run c task context w =
      let (w1, start) = c.clock w in
      let (w2, entries2) = log c (swarm_start task) (w1, []) in
      let (w3, decomposition) = c.architect_fn task context w2 in
      let s =
        log c
          (decomposed (length decomposition.subtasks) decomposition.strategy
            (c.decomposition_fingerprint decomposition))
          (w3, entries2) in
      run_on decomposition.subtasks c task context decomposition start s
