-- ===== src/Swarm.antt =====
-- rfsn_kernel/swarm: the messages of the multi-agent swarm (protocol.py) and the results of the
-- coordinator (coordinator.py). Times are counts of one clock unit.
pub mod Coordinator
pub mod Debate
pub mod Outcome
pub mod Run
use rfsn_agent_full.Base.{
  ltb, leb, ◌==◌, if◌then◌else◌, ltb→lt, lt→ltb, leb→le, bool_tests, Bool-cases, Option-cases,
  is_some, str_eq_of, of_str_eq, &&_true, length, get_elem?, take, drop, last_n, any, all, All,
  length-append, length-drop, length-take-le, length-last_n, All-append, get_elem?-append_left,
  get_elem?-append_length, get_elem?-take, length-take, get_elem?-none, get_elem?-some, ℕ, zero,
  suc, ◌+◌, ◌-◌, ◌*◌, ◌/◌, ◌%◌, ◌^◌, ◌≤◌, ◌<◌, min, max, String, ◌≡◌, refl, sym, ap, ◌∙◌, ◌≢◌, ◌↔◌,
  ◌⊎◌, inl, inr, Bool, true, false, not, ◌&&◌, ◌||◌, Option, none, some, List, [], ◌∷◌, ◌++◌, map,
  arith, str_eq, eq_iff, eq_refl,
}
use rfsn_agent_full.Base.Int.{ℤ}

pub data Verdict : Type 0 where
  approve request_changes reject : Verdict

pub record Subtask : Type 0 where
  pub description : String
  pub target_files : List String
  pub acceptance_criteria : String
  pub priority : ℤ

pub record TaskDecomposition : Type 0 where
  pub analysis : String
  pub subtasks : List Subtask
  pub strategy : String
  pub timestamp : ℕ

pub record PatchProposal : Type 0 where
  pub subtask_index : ℤ
  pub diff : String
  pub reasoning : String
  pub files_modified : List String
  pub timestamp : ℕ

pub record ReviewVerdict : Type 0 where
  pub verdict : Verdict
  pub comments : String
  pub issues : List String
  pub tests_passed : Option Bool
  pub timestamp : ℕ

pub record RevisionRequest : Type 0 where
  pub original_patch : PatchProposal
  pub qa_feedback : String
  pub issues_to_fix : List String
  pub revision_number : ℕ
  pub timestamp : ℕ

-- The strings of `SubtaskResult.status`.
pub data SubtaskStatus : Type 0 where
  pending approved rejected escalated : SubtaskStatus

pub record SubtaskResult : Type 0 where
  pub subtask : Subtask
  pub final_patch : Option PatchProposal
  pub final_verdict : Option ReviewVerdict
  pub revisions : ℕ
  pub status : SubtaskStatus

-- The strings of `SwarmResult.status`.
pub data SwarmStatus : Type 0 where
  pending completed partial failed : SwarmStatus

-- The dictionaries that `_log` is called with, one constructor for each "type". An elapsed time is
-- the pair of the two times of which it is the difference.
pub data Event : Type 0 where
  swarm_start : (task : String) → Event
  decomposed : (subtask_count : ℕ) (strategy fingerprint : String) → Event
  patch_proposal : (subtask_index revision : ℕ) (fingerprint : String) (files : List String) → Event
  review_verdict : (subtask_index : ℕ) (verdict : Verdict) (revision : ℕ) → Event
  subtask_rejected : (subtask_index : ℕ) (reason : String) → Event
  subtask_escalated : (subtask_index : ℕ) (max_revisions : ℤ) → Event
  swarm_end_empty : Event
  swarm_end : (status : SwarmStatus) (approved total : ℕ) (elapsed : ℕ × ℕ) → Event

-- An entry with the timestamp that `_log` gives it.
pub record Entry : Type 0 where
  pub event : Event
  pub timestamp : ℕ

pub record SwarmResult : Type 0 where
  pub task : String
  pub decomposition : Option TaskDecomposition
  pub subtask_results : List SubtaskResult
  pub status : SwarmStatus
  pub total_revisions : ℕ
  pub elapsed : ℕ × ℕ
  pub ledger_entries : List Entry

abbrev pub is_approved : SubtaskStatus → Bool
is_approved approved = true
is_approved _ = false

-- `sum(1 for r in results if r.status == "approved")`
unfoldable pub count_approved : List SubtaskResult → ℕ
count_approved [] = 0
count_approved (r ∷ rs) =
    if is_approved r.status then suc (count_approved rs) else count_approved rs

patch_of : Option PatchProposal → List PatchProposal
patch_of none = []
patch_of (some p) = p ∷ []

-- `SwarmResult.approved_patches`
unfoldable pub approved_patches : List SubtaskResult → List PatchProposal
unfolding patch_of
approved_patches [] = []
approved_patches (r ∷ rs) =
    if is_approved r.status
    then patch_of r.final_patch ++ approved_patches rs
    else approved_patches rs

abbrev pub unstarted : Subtask → SubtaskResult
unstarted subtask = record {
  subtask = subtask;
  final_patch = none;
  final_verdict = none;
  revisions = 0;
  status = pending;
}

-- The sum of the `revisions` of the results.
unfoldable pub sum_revisions : List SubtaskResult → ℕ
sum_revisions [] = 0
sum_revisions (r ∷ rs) = r.revisions + sum_revisions rs

-- Phase 3 of `run`
unfoldable pub overall : List SubtaskResult → SwarmStatus
overall rs =
    if count_approved rs == length rs
    then completed
    else (if ltb 0 (count_approved rs) then partial else failed)
