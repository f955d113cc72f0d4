-- ===== src/Tests/Parts.antt =====
-- The parts of the kernel on concrete inputs.
use rfsn_agent_full.Base.{◌++◌, String, ◌≡◌, refl, ◌↔◌, ◌⊎◌, true, false, none, some, List, [], ◌∷◌}
use rfsn_agent_full.Base.Int.{pos, int_value, other_value}
use rfsn_agent_full.Base.Text.{Text, codes}
use rfsn_agent_full.Ledger.{
  Body, Line, verify_chain, verify_from, zeros, entry, is_missing, record_errors, append, init,
  load,
}
use rfsn_agent_full.Ledger.Chain.{IsChain, verify_chain-IsChain}
use rfsn_agent_full.Ledger.Tamper.{Collision, records, bodies, verify_chain_tamper}
use rfsn_agent_full.Ledger.Writers.{two_writers, verify_chain-two_writers}
use rfsn_agent_full.Kernel.Decide.{decide}
use rfsn_agent_full.Kernel.Decide.Law.{IsWithin, decide-IsWithin}
use rfsn_agent_full.Kernel.Step.Course.{proposal_of, sim_of, risk_of}
use rfsn_agent_full.Kernel.Tier.{
  Step, Allow, step_touches, dedupe, paths_from_patch, header_paths, git_paths, after_b,
  git_paths_of, pick_next_tier,
}
use rfsn_agent_full.Kernel.Tier.Escalation.{Justified, pick_next_tier-Justified}
use rfsn_agent_full.Kernel.FailureKinds.{
  ExecutorOut, extract_failure_kinds, extract_failure_kinds_blind,
}
use rfsn_agent_full.Kernel.Control.{default_tier_policy}
use rfsn_agent_full.Tests.Fixtures.{
  decimals, ascii, listing, kernel, search_step, request, no_policy,
}

abbrev digest : String → String
digest s = zeros

abbrev canon : Body String → String
canon b = b.content

abbrev body : String → Body String
body c = record { content = c; decision = "APPROVE"; outcome_hash = none; state_hash = "" }

abbrev one_record : List (Line String String)
one_record =
    entry (record {
      body = body "first";
      entry_hash = zeros;
      prev_chain_hash = zeros;
      chain_hash = zeros;
      ts = 0;
      metadata = "";
    })
    ∷ []

one_record_passes : (verify_chain digest canon one_record).ok ≡ true
unfolding verify_chain verify_from is_missing record_errors
one_record_passes = refl

verify_chain-IsChain_example :
    ((verify_chain digest canon one_record).ok ≡ true)
    ↔ IsChain digest canon (λ _. refl) zeros one_record
verify_chain-IsChain_example = verify_chain-IsChain digest canon (λ _. refl) one_record

verify_chain_tamper_example :
    (bodies digest canon (λ _. refl) (records digest canon (λ _. refl) one_record)
      ≡ bodies digest canon (λ _. refl) (records digest canon (λ _. refl) one_record))
    ⊎ Collision digest
verify_chain_tamper_example =
    verify_chain_tamper digest canon (λ _. refl) one_record one_record one_record_passes
      one_record_passes refl refl

abbrev unsigned : String → String → String
unsigned hash metadata = metadata

two_writers_pass :
    (verify_chain digest canon
      (two_writers digest canon (λ _. refl) unsigned [] (body "a") (body "b") "" "" 0)).ok
    ≡ true
unfolding verify_chain verify_from is_missing record_errors two_writers append init load
two_writers_pass = refl

verify_chain-two_writers_example :
    digest
      (Prim.Native.String.◌++◌ (init {B = String} {M = String} []).prev (digest (canon (body "a"))))
    ≡ (init {B = String} {M = String} []).prev
verify_chain-two_writers_example =
    verify_chain-two_writers digest canon (λ _. refl) unsigned [] (body "a") (body "b") "" "" 0
      two_writers_pass

decide-IsWithin_example :
    ((decide decimals
        (proposal_of decimals listing (request search_step))
        (sim_of decimals listing (request search_step) kernel)
        (risk_of decimals listing (request search_step) kernel)
        no_policy).is_approved
      ≡ true)
    ↔ IsWithin decimals
        (sim_of decimals listing (request search_step) kernel)
        (risk_of decimals listing (request search_step) kernel)
        no_policy
decide-IsWithin_example =
    decide-IsWithin decimals (proposal_of decimals listing (request search_step))
      (sim_of decimals listing (request search_step) kernel)
      (risk_of decimals listing (request search_step) kernel) no_policy

abbrev patch_of_code : Text
patch_of_code = codes "--- /dev/null" ++ 10 ∷ codes "+++ b/x.py" ++ 10 ∷ codes "+y"

abbrev step_on_code : Step
step_on_code = record {
  type_of = "apply_patch";
  path = none;
  paths = [];
  files = [];
  patch = some patch_of_code;
}

abbrev no_edits : Allow
no_edits = record { edit_tests = false; edit_deps = false; edit_ci = false }

-- A pure rename beside the change of another file names no path.
hidden_rename :
    step_touches (record step_on_code {
      patch =
          some
            (codes "diff --git a/tests/x b/tests/y" ++ 10 ∷ codes "+++ b/x.py" ++ 10 ∷ codes "+y");
    })
    ≡ codes "x.py" ∷ []
unfolding step_touches dedupe paths_from_patch header_paths git_paths after_b git_paths_of
hidden_rename = refl

pick_next_tier-Justified_example :
    Justified 0
      ("ci_failed" ∷ [])
      default_tier_policy.rules
      (pick_next_tier 0 ("ci_failed" ∷ []) default_tier_policy.rules)
pick_next_tier-Justified_example =
    pick_next_tier-Justified 0 ("ci_failed" ∷ []) default_tier_policy.rules

abbrev failing_log : ExecutorOut
failing_log = record { status = none; logs = codes "assertionerror"; payload = [] }

-- The text "0", which `int` makes 0 but which is true, does give no kinds.
zero_text_kinds :
    extract_failure_kinds ascii (record failing_log { status = some (other_value true (pos 0)) })
    ≡ []
unfolding extract_failure_kinds
zero_text_kinds = refl

extract_failure_kinds_blind_example :
    extract_failure_kinds ascii (record failing_log { status = some (int_value (pos 0)) })
    ≡ extract_failure_kinds ascii failing_log
extract_failure_kinds_blind_example = extract_failure_kinds_blind ascii failing_log (pos 0)
