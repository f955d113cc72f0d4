-- ===== src/Tests/Agents.antt =====
-- The swarm and the health monitor on concrete inputs.
use rfsn_agent_full.Base.{
  if◌then◌else◌, ℕ, ◌+◌, String, ◌≡◌, refl, true, false, Option, none, some, List, [], ◌∷◌, arith,
  str_eq,
}
use rfsn_agent_full.Base.Int.{pos, negsuc}
use rfsn_agent_full.Base.Text.{codes}
use rfsn_agent_full.Swarm.{
  approve, request_changes, Subtask, TaskDecomposition, PatchProposal, ReviewVerdict,
  RevisionRequest, completed, Event, overall, count_approved,
}
use rfsn_agent_full.Swarm.Coordinator.{
  Coordinator, process_subtask, debate, propose_and_review, log, run, run_on, run_subtasks,
  process_all,
}
use rfsn_agent_full.Swarm.Debate.{IsDebate, events, process_subtask-IsDebate}
use rfsn_agent_full.Swarm.Run.{IsSwarmRun, run-IsSwarmRun}
use rfsn_agent_full.Healing.Signals.{Regex}
use rfsn_agent_full.Healing.Memory.{FailureMemory, record_failure}
use rfsn_agent_full.Healing.Bounds.{Recorded, record_failure-IsBounded}
use rfsn_agent_full.Healing.Core.{init}
use rfsn_agent_full.Healing.Window.{IsMonitor, ingest_all, ingest_all-IsMonitor, RunEnd}
use rfsn_agent_full.Tests.Fixtures.{decimals}

abbrev subtask_of : String → Subtask
subtask_of description = record {
  description = description;
  target_files = "a.py" ∷ [];
  acceptance_criteria = "";
  priority = pos 0;
}

abbrev first_patch : PatchProposal
first_patch = record {
  subtask_index = pos 0;
  diff = "first";
  reasoning = "";
  files_modified = "a.py" ∷ [];
  timestamp = 0;
}

abbrev patch_for : Option RevisionRequest → PatchProposal
patch_for none = first_patch
patch_for (some request) = record first_patch { diff = "revised" }

abbrev review_of : PatchProposal → ReviewVerdict
review_of patch = record {
  verdict = if str_eq patch.diff "revised" then approve else request_changes;
  comments = "add a test";
  issues = [];
  tests_passed = none;
  timestamp = 0;
}

abbrev split : TaskDecomposition
split = record {
  analysis = "";
  subtasks = subtask_of "one" ∷ subtask_of "two" ∷ [];
  strategy = "in order";
  timestamp = 0;
}

-- A crew whose coder needs one revision; the world is a clock that counts.
abbrev crew : Coordinator ℕ
crew = record {
  architect_fn = λ task context w. (w, split);
  coder_fn = λ subtask context request w. (w, patch_for request);
  qa_fn = λ subtask patch w. (w, review_of patch);
  max_revisions = pos 2;
  ledger_fn = λ e w. w;
  clock = λ w. (w + 1, w);
  decomposition_fingerprint = λ d. d.strategy;
  patch_fingerprint = λ p. p.diff;
}

process_subtask_revises : (process_subtask crew 0 (subtask_of "one") "" (0, [])).1.revisions ≡ 1
unfolding process_subtask debate propose_and_review log
process_subtask_revises = refl

process_subtask-IsDebate_example :
    (es : List Event) × (events (process_subtask crew 0 (subtask_of "one") "" (0, [])).0.1 ≡ es)
    × IsDebate 0 2 (subtask_of "one") 0 es (process_subtask crew 0 (subtask_of "one") "" (0, [])).1
process_subtask-IsDebate_example =
    process_subtask-IsDebate crew 0 2 (subtask_of "one") "" (0, []) refl

run_completes : (run crew "task" "" 0).1.status ≡ completed
unfolding run run_on run_subtasks process_all process_subtask debate propose_and_review log overall
    count_approved
run_completes = refl

run-IsSwarmRun_example : IsSwarmRun "task" 2 (run crew "task" "" 0).1
run-IsSwarmRun_example = run-IsSwarmRun crew "task" "" 2 0 refl

abbrev no_matches : Regex
no_matches = record { search = λ p s. none; find_all = λ p s. []; sub = λ p r s. s }

abbrev one_cluster : FailureMemory decimals
one_cluster = record {
  clusters =
      (
        "f1",
        record {
          fingerprint = "f1";
          failure_type = "timeout";
          first_seen = 0;
          last_seen = 10000;
          count = 2;
          details = [];
          root_cause = none;
        },
      )
      ∷ [];
  max_clusters = 1;
}

record_failure-IsBounded_example :
    Recorded decimals one_cluster "f2"
      (record_failure decimals (20000, 20000) "f2" "oom" (codes "Killed") one_cluster)
record_failure-IsBounded_example =
    record_failure-IsBounded decimals (20000, 20000) "f2" "oom" (codes "Killed") one_cluster
      (omega arith, omega arith, (omega arith, tt))

abbrev three_runs : List (RunEnd decimals)
three_runs =
    ((0, 0), (codes "ok", pos 0))
    ∷ ((1, 1), (codes "boom", pos 1))
    ∷ ((2, 2), (codes "boom", negsuc 8))
    ∷ []

ingest_all-IsMonitor_example :
    IsMonitor decimals 1 4000 8000
      (true ∷ false ∷ false ∷ [])
      (ingest_all decimals no_matches (λ t. "f") three_runs (init decimals 2 4000 8000))
ingest_all-IsMonitor_example =
    ingest_all-IsMonitor decimals no_matches (λ t. "f") 1 4000 8000 three_runs
