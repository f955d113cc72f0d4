-- ===== src/Tests/Replays.antt =====
-- The replay, the hash chain of dictionaries and the dispatcher on concrete inputs.
use rfsn_agent_full.Base.{
  if◌then◌else◌, String, ◌≡◌, refl, Bool, true, false, none, some, List, [], ◌∷◌,
}
use rfsn_agent_full.Base.Text.{codes, starts_with}
use rfsn_agent_full.Ledger.{
  Body, LedgerRecord, Line, entry, zeros, verify_chain, verify_from, is_missing, record_errors,
}
use rfsn_agent_full.Kernel.Control.{new_kernel, default_tier_policy}
use rfsn_agent_full.Kernel.Step.{run_steps}
use rfsn_agent_full.Replay.{
  replay_verify, read_all, kernel_records, replay_from, check_record, chain_check, divergences_of,
}
use rfsn_agent_full.Replay.Sound.{IsClean}
use rfsn_agent_full.Replay.Kernel.{run_steps-replay_verify}
use rfsn_agent_full.Replay.Filtered.{replay_verify_event}
use rfsn_agent_full.HashChain.{number, text, Entry, init, verify, save, load}
use rfsn_agent_full.HashChain.Verified.{append_all, load-append_all}
use rfsn_agent_full.Dispatcher.{Files, Paths, Args, ExecutionContext, dispatch_tool}
use rfsn_agent_full.Dispatcher.Inside.{below, at_end}
use rfsn_agent_full.Dispatcher.Confined.{AgreeInside, is_no_handler, dispatch_tool_confined}
use rfsn_agent_full.Tests.Fixtures.{
  decimals, listing, no_policy, request, search_step, unknown_step,
}

run_steps-replay_verify_example : IsClean listing.sha256 (
    replay_verify listing.sha256
      (λ m. none)
      (λ m. some "r1")
      []
      "r1"
      (run_steps decimals listing
        (request search_step ∷ request unknown_step ∷ [])
        (new_kernel decimals no_policy default_tier_policy [])
        []).0.store.1)
run_steps-replay_verify_example =
    run_steps-replay_verify decimals listing (λ s. refl) no_policy default_tier_policy
      (request search_step ∷ request unknown_step ∷ []) [] (λ m. none) (λ m. some "r1") "r1" refl

abbrev digest : String → String
digest s = zeros

abbrev canon : Body String → String
canon b = b.content

-- A rejected record whose metadata is the type of the record.
abbrev rejected_as : String → LedgerRecord String String
rejected_as type_of = record {
  body = record { content = "c"; decision = "REJECT"; outcome_hash = none; state_hash = "" };
  entry_hash = zeros;
  prev_chain_hash = zeros;
  chain_hash = zeros;
  ts = 0;
  metadata = type_of;
}

abbrev three_lines : List (Line String String)
three_lines =
    entry (rejected_as "step")
    ∷ entry (rejected_as "kernel_event")
    ∷ entry (rejected_as "step")
    ∷ []

three_lines_pass : (verify_chain digest canon three_lines).ok ≡ true
unfolding verify_chain verify_from is_missing record_errors
three_lines_pass = refl

three_lines_replayed : (replay_verify digest (λ m. some m) (λ m. none) [] "" three_lines).ok ≡ true
unfolding replay_verify read_all kernel_records replay_from check_record chain_check divergences_of
three_lines_replayed = refl

replay_verify_event_example : digest (Prim.Native.String.◌++◌ zeros zeros) ≡ zeros
replay_verify_event_example =
    replay_verify_event digest canon (λ s. refl) (λ m. some m) (λ m. none) [] []
      (rejected_as "step") (rejected_as "kernel_event") (rejected_as "step") three_lines_pass refl
      refl refl three_lines_replayed

abbrev plain_entries : List (Entry Bool)
plain_entries = (("type", text "RUN") ∷ []) ∷ (("step", number 1) ∷ []) ∷ []

abbrev content_of : Entry Bool → String
content_of [] = ""
content_of ((k, v) ∷ d) = k

load-append_all_example :
    (verify digest content_of
        (append_all digest content_of plain_entries (init digest content_of "GENESIS"))
      ≡ record { ok = true; length_of = 2; first_invalid = none })
    × (load digest content_of (
          save digest content_of
            (append_all digest content_of plain_entries (init digest content_of "GENESIS")))
        ≡ some (append_all digest content_of plain_entries (init digest content_of "GENESIS")))
load-append_all_example =
    load-append_all digest content_of "GENESIS" plain_entries ((refl, tt), ((refl, tt), tt))

abbrev one_file : Files
one_file = record {
  is_file = λ p. true;
  is_dir = λ p. true;
  read = λ p. some (codes "text");
  walk = λ p. (p, codes "a.py" ∷ []) ∷ [];
}

-- The same in the workspace, with nothing outside it.
abbrev only_workspace : Files
only_workspace = record one_file {
  read = λ p. if starts_with p (codes "/w/") then some (codes "text") else none;
}

abbrev plain_paths : Paths
plain_paths = record { fnmatch = λ p g. true; relpath = λ p ws. p }

abbrev read_a : Args
read_a = record { path = some (codes "a.py"); glob = none; max_results = none; patch = none }

abbrev workspace : ExecutionContext
workspace = record {
  workspace_root = codes "/w";
  run_id = "";
  iter_count = 0;
  sandbox_mode = "local_dev";
  dev_mode = false;
}

files_agree : AgreeInside (codes "/w") one_file only_workspace
files_agree _ (below names a r) = (refl, refl, refl, refl)
files_agree _ (at_end names a r h) = cc h

dispatch_tool_confined_example :
    (dispatch_tool plain_paths one_file "read_file" read_a workspace none "e1"
      ≡ dispatch_tool plain_paths only_workspace "read_file" read_a workspace none "e1")
    × (is_no_handler
          (dispatch_tool plain_paths one_file "read_file" read_a workspace none "e1").error
        ≡ false)
dispatch_tool_confined_example =
    dispatch_tool_confined plain_paths one_file only_workspace "read_file" read_a workspace none
      "e1" files_agree
