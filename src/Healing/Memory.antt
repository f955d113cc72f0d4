-- ===== src/Healing/Memory.antt =====
-- rfsn_kernel/self_healing/memory.py: the store of failure clusters.
--
-- A cluster that `record` returns is the object in the store: a later change of the one is a change
-- of the other, and the model puts the changed cluster back.
use rfsn_agent_full.Base.{
  ltb, leb, if◌then◌else◌, is_some, length, last_n, ℕ, ◌+◌, String, Bool, true, false, not, ◌&&◌,
  Option, none, some, List, [], ◌∷◌, ◌++◌,
}
use rfsn_agent_full.Base.Float.{Floats, of_ℕ, max_float}
use rfsn_agent_full.Base.Text.{Text, mem_text}
use rfsn_agent_full.Base.Dict.{Dict, get, put, remove, values}
use rfsn_agent_full.Healing.{RootCause, FailureCluster}

abbrev pub is_blank : Text → Bool
is_blank [] = true
is_blank (c ∷ s) = false

-- `details.append(detail)` of a detail that is new, and the last ten.
unfoldable pub add_detail : Text → List Text → List Text
add_detail detail details =
    if not (is_blank detail) && not (mem_text detail details)
    then (if ltb 10 (length (details ++ detail ∷ []))
        then last_n 10 (details ++ detail ∷ [])
        else details ++ detail ∷ [])
    else details

module _ (F : Floats) where
  open F use {Float, dec, sub, div, gtb, lte}

  abbrev cause : String → String → String → Float → RootCause Float
  cause cause_id description suggested_action confidence = record {
    cause_id = cause_id;
    description = description;
    suggested_action = suggested_action;
    confidence = confidence;
  }

  -- `_ROOT_CAUSE_TEMPLATES`
  abbrev pub root_cause_templates : Dict (RootCause Float)
  root_cause_templates =
      (
        "import_error",
        cause "missing_dep" "A required Python package is not installed." "reinstall_deps"
            (dec 8 1),
      )
      ∷ (
        "syntax_error",
        cause "bad_patch" "A patch introduced invalid syntax." "rollback_patch" (dec 9 1),
      )
      ∷ (
        "timeout",
        cause "infinite_loop" "Execution exceeded time limit, likely infinite loop."
            "rollback_patch" (dec 7 1),
      )
      ∷ (
        "recursion_error",
        cause "infinite_recursion" "Unbounded recursion detected." "rollback_patch" (dec 85 2),
      )
      ∷ (
        "oom",
        cause "memory_exhaustion" "Process consumed all available memory." "increase_mem_limit"
            (dec 7 1),
      )
      ∷ (
        "permission_denied",
        cause "sandbox_escape_attempt" "Code tried to access a restricted resource."
            "harden_capsule" (dec 6 1),
      )
      ∷ (
        "patch_apply_failed",
        cause "stale_patch" "Patch does not match current file state." "regenerate_patch" (dec 8 1),
      )
      ∷ []

  -- `FailureCluster.record_occurrence`
  unfoldable pub record_occurrence : Float → Text → FailureCluster Float → FailureCluster Float
  record_occurrence now detail c = record c {
    last_seen = now;
    count = c.count + 1;
    details = add_detail detail c.details;
  }

  -- `FailureCluster.recurrence_rate`
  unfoldable pub recurrence_rate : FailureCluster Float → Float
  recurrence_rate c =
      let elapsed = max_float F (sub c.last_seen c.first_seen) (dec 10 1) in
      div (of_ℕ F c.count) (div elapsed (of_ℕ F 3600))

  -- `FailureCluster.is_chronic`
  unfoldable pub is_chronic : FailureCluster Float → Bool
  is_chronic c = leb 3 c.count && gtb (recurrence_rate c) (dec 20 1)

  -- `FailureMemory`
  pub record FailureMemory : Type 0 where
    pub clusters : Dict (FailureCluster Float)
    pub max_clusters : ℕ

  unfoldable pub new_memory : ℕ → FailureMemory
  new_memory max_clusters = record { clusters = []; max_clusters = max_clusters }

  -- `min(clusters, key=last_seen)`, from the best key so far: the first of the least.
  unfoldable pub oldest_from : String → Float → Dict (FailureCluster Float) → String
  oldest_from key seen [] = key
  oldest_from key seen ((k, c) ∷ rest) =
      if gtb seen c.last_seen then oldest_from k c.last_seen rest else oldest_from key seen rest

  -- The eviction of `record`; of an empty dictionary `min` raises.
  unfoldable pub evict_oldest : Dict (FailureCluster Float) → Option (Dict (FailureCluster Float))
  evict_oldest [] = none
  evict_oldest ((k, c) ∷ rest) = some (remove ((k, c) ∷ rest) (oldest_from k c.last_seen rest))

  -- The diagnosis at the end of `record`.
  unfoldable pub diagnose : String → FailureCluster Float → FailureCluster Float
  diagnose failure_type c =
      if is_some c.root_cause
      then c
      else record c { root_cause = get root_cause_templates failure_type }

  -- A first occurrence, seen first and last at two readings of the clock.
  abbrev pub new_cluster : Float × Float → String → String → Text → FailureCluster Float
  new_cluster (first, last) fingerprint failure_type detail = record {
    fingerprint = fingerprint;
    failure_type = failure_type;
    first_seen = first;
    last_seen = last;
    count = 1;
    details = if is_blank detail then [] else detail ∷ [];
    root_cause = none;
  }

  make_room : FailureMemory → Option (Dict (FailureCluster Float))
  make_room m =
      if leb m.max_clusters (length m.clusters) then evict_oldest m.clusters else some m.clusters

  store_new :
      Float × Float
      → String
      → String
      → Text
      → FailureMemory
      → Option (Dict (FailureCluster Float))
      → Option (FailureMemory × FailureCluster Float)
  store_new now fingerprint failure_type detail m none = none
  store_new now fingerprint failure_type detail m (some clusters) =
      let c = diagnose failure_type (new_cluster now fingerprint failure_type detail) in
      some (record m { clusters = put clusters fingerprint c }, c)

  record_over :
      Float × Float
      → String
      → String
      → Text
      → FailureMemory
      → Option (FailureCluster Float)
      → Option (FailureMemory × FailureCluster Float)
  unfolding make_room store_new
  record_over now fingerprint failure_type detail m none =
      store_new now fingerprint failure_type detail m (make_room m)
  record_over now fingerprint failure_type detail m (some old) =
      let c = diagnose failure_type (record_occurrence now.0 detail old) in
      some (record m { clusters = put m.clusters fingerprint c }, c)

  -- `FailureMemory.record`: none is the `ValueError` of `min`.
  unfoldable pub record_failure :
      Float × Float
      → String
      → String
      → Text
      → FailureMemory
      → Option (FailureMemory × FailureCluster Float)
  unfolding record_over
  record_failure now fingerprint failure_type detail m =
      record_over now fingerprint failure_type detail m (get m.clusters fingerprint)

  -- `get_chronic_failures`
  unfoldable pub chronic_of : List (FailureCluster Float) → List (FailureCluster Float)
  chronic_of [] = []
  chronic_of (c ∷ cs) = if is_chronic c then c ∷ chronic_of cs else chronic_of cs

  unfoldable pub get_chronic_failures : FailureMemory → List (FailureCluster Float)
  get_chronic_failures m = chronic_of (values m.clusters)

  -- `get_cluster` and `clear`
  unfoldable pub get_cluster : FailureMemory → String → Option (FailureCluster Float)
  get_cluster m fingerprint = get m.clusters fingerprint

  unfoldable pub clear : FailureMemory → FailureMemory
  clear m = record m { clusters = [] }
