-- ===== src/Tests/Memories.antt =====
-- The memory of the agent on concrete inputs.
use rfsn_agent_full.Base.{
  ltb, length, ℕ, ◌≤◌, String, ◌≡◌, refl, Bool, true, false, some, List, [], ◌∷◌,
}
use rfsn_agent_full.Base.Text.{Text, codes}
use rfsn_agent_full.Base.Dict.{get, put}
use rfsn_agent_full.Memory.{MemoryEntry, MemoryImmuneSystem, init}
use rfsn_agent_full.Memory.Immune.{Clock, protect_axiom}
use rfsn_agent_full.Memory.Immune.WellFormed.{
  Call, to_admit, to_protect, to_decay, to_record, perform_all,
}
use rfsn_agent_full.Memory.Immune.Protected.{HasCore}
use rfsn_agent_full.Memory.Immune.Axioms.{perform_all-HasCore}
use rfsn_agent_full.Memory.Persist.{save, load}
use rfsn_agent_full.Memory.Persist.RoundTrip.{load-save}
use rfsn_agent_full.Memory.Frustration.{stop, trace_signal, check}
use rfsn_agent_full.Memory.Frustration.Streak.{watch, check-streak_of}
use rfsn_agent_full.Tests.Fixtures.{decimals, ascii}

abbrev clock : Clock decimals
clock = record { inf = 1000000000; truthy = λ a. ltb 0 a }

abbrev memory_of : String → String → MemoryEntry ℕ
memory_of key text = record {
  content = codes text;
  source = "kernel";
  entry_type = "context";
  provenance_hash = key;
  quality_score = 0;
  risk_score = 0;
  contradiction_score = 0;
  access_count = 0;
  success_count = 0;
  failure_count = 0;
  created_at = 10000;
  last_accessed = 0;
  version = 0;
  status = "active";
}

abbrev fresh : MemoryImmuneSystem ℕ
fresh = init 3000 7000 6000 100 2

abbrev calls : List (Call ℕ)
calls =
    to_protect (memory_of "axiom" "never delete")
    ∷ to_admit (memory_of "m1" "the tests passed")
    ∷ to_record 20000 "m1" true
    ∷ to_decay 30000
    ∷ []

load-save_example :
    let m = perform_all decimals clock ascii calls fresh in
    let saved = (save m).0 in
    let loaded = load decimals clock (λ e. "hash") 50000 (some saved.0) fresh in
    (loaded.0.store ≡ m.store) × (saved.1 ≡ length m.store) × (loaded.1 ≡ length m.store)
load-save_example =
    load-save decimals clock ascii (λ e. "hash") 3000 7000 6000 100 50000 2 calls
      ((refl, refl, refl), ((refl, refl, refl), (tt, (tt, tt))))

abbrev guarded : MemoryImmuneSystem ℕ
guarded = protect_axiom decimals (memory_of "axiom" "never delete") fresh

abbrev later_calls : List (Call ℕ)
later_calls =
    to_admit (memory_of "m1" "the tests passed")
    ∷ to_admit (memory_of "m2" "the build is green")
    ∷ to_decay 900000000
    ∷ []

perform_all-HasCore_example :
    HasCore decimals clock
      (perform_all decimals clock ascii later_calls guarded).store
      "axiom"
      (codes "never delete")
unfolding protect_axiom init get put
perform_all-HasCore_example =
    perform_all-HasCore decimals clock ascii later_calls guarded "axiom" (codes "never delete")
      (((refl, tt), (((refl, refl, refl), refl), tt)), tt)
      ((refl, refl, refl), ((refl, refl, refl), (tt, tt))) (refl, (refl, (tt, tt)))
      (_, refl, refl, refl)

-- A memory at its limit of one entry.
abbrev full_memory : MemoryImmuneSystem ℕ
full_memory = record fresh {
  max_entries = 1;
  store = ("m0", memory_of "m0" "the build failed") ∷ [];
}

abbrev digest_of : Text → String
digest_of [] = "empty"
digest_of (c ∷ s) = "text"

abbrev failures : List (Text × Bool)
failures = (codes "E1", true) ∷ (codes "E1", true) ∷ (codes "fine", false) ∷ []

check-streak_of_example :
    ((check digest_of (codes "E1") true (watch digest_of 2 failures)).1 ≡ some (stop 3))
    × ((check digest_of (codes "E1") false (watch digest_of 2 failures)).1
        ≡ trace_signal (codes "E1"))
    × (length (watch digest_of 2 failures).history ≤ 2)
check-streak_of_example = check-streak_of digest_of 2 failures (codes "E1")
