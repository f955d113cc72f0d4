-- ===== src/Swarm/Debate.antt =====
-- What a subtask may go through, and that the loop of the coordinator keeps to it.
use rfsn_agent_full.Base.{
  leb, Bool-cases, ℕ, zero, suc, ◌+◌, ◌≤◌, ◌<◌, String, ◌≡◌, refl, ap, ◌∙◌, ◌⊎◌, inl, inr, Option,
  none, some, List, [], ◌∷◌, ◌++◌, map, arith,
}
use rfsn_agent_full.Base.Int.{ℤ, pos}
use rfsn_agent_full.Swarm.{
  Verdict, approve, request_changes, reject, Subtask, PatchProposal, ReviewVerdict, RevisionRequest,
  approved, rejected, escalated, SubtaskResult, Event, patch_proposal, review_verdict,
  subtask_rejected, subtask_escalated, Entry, unstarted,
}
use rfsn_agent_full.Swarm.Coordinator.{
  Coordinator, rounds_of, log, propose_and_review, debate, process_subtask,
}
use mathlib.Core.List.{append_assoc}

abbrev pub events : List Entry → List Event
events entries = map (λ e. e.event) entries

-- The protocol of one subtask, from a round on: the events that it logs and the result that it
-- ends in. The maximum of revisions is `m`.
pub data IsDebate (idx m : ℕ) (subtask : Subtask) : ℕ → List Event → SubtaskResult → Type 0 where
  on_approve :
      {revision : ℕ} {fp : String} {files : List String} (patch : PatchProposal) (v : ReviewVerdict)
      → v.verdict ≡ approve
      → revision ≤ m
      → IsDebate idx m subtask revision
          (patch_proposal idx revision fp files ∷ review_verdict idx approve revision ∷ [])
          (record {
            subtask = subtask;
            final_patch = some patch;
            final_verdict = some v;
            revisions = revision;
            status = approved;
          })
  on_reject :
      {revision : ℕ} {fp : String} {files : List String} (patch : PatchProposal) (v : ReviewVerdict)
      → v.verdict ≡ reject
      → revision ≤ m
      → IsDebate idx m subtask revision
          (patch_proposal idx revision fp files
            ∷ review_verdict idx reject revision
            ∷ subtask_rejected idx v.comments
            ∷ [])
          (record {
            subtask = subtask;
            final_patch = some patch;
            final_verdict = some v;
            revisions = revision;
            status = rejected;
          })
  on_escalate :
      {revision : ℕ} {fp : String} {files : List String} (patch : PatchProposal) (v : ReviewVerdict)
      (limit : ℤ)
      → v.verdict ≡ request_changes
      → revision ≡ m
      → limit ≡ pos m
      → IsDebate idx m subtask revision
          (patch_proposal idx revision fp files
            ∷ review_verdict idx request_changes revision
            ∷ subtask_escalated idx limit
            ∷ [])
          (record {
            subtask = subtask;
            final_patch = some patch;
            final_verdict = some v;
            revisions = revision;
            status = escalated;
          })
  on_revise :
      {revision : ℕ} {fp : String} {files : List String} {es : List Event} {r : SubtaskResult}
      → revision < m
      → IsDebate idx m subtask (revision + 1) es r
      → IsDebate idx m subtask revision
          (patch_proposal idx revision fp files ∷ review_verdict idx request_changes revision ∷ es)
          r

events-append : (xs ys : List Entry) → events (xs ++ ys) ≡ events xs ++ events ys
events-append [] ys = refl
events-append (x ∷ xs) ys = ap (λ l. x.event ∷ l) (events-append xs ys)

Verdict-cases : (v : Verdict) → (v ≡ approve) ⊎ ((v ≡ reject) ⊎ (v ≡ request_changes))
Verdict-cases approve = inl refl
Verdict-cases reject = inr (inl refl)
Verdict-cases request_changes = inr (inr refl)

module _ {ℓ} {W : Type ℓ} where
  pub log-events :
      (c : Coordinator W) (e : Event) (s : W × List Entry)
      → events (log c e s).1 ≡ events s.1 ++ e ∷ []
  unfolding log
  log-events c e (w, entries) = events-append entries _

  -- What is logged comes behind what was logged before.
  pub log_after :
      (c : Coordinator W) (e : Event) (s : W × List Entry) (before es : List Event)
      → events s.1 ≡ before ++ es
      → events (log c e s).1 ≡ before ++ (es ++ e ∷ [])
  log_after c e s before es h =
      log-events c e s ∙ ap (λ l. l ++ e ∷ []) h ∙ append_assoc before es (e ∷ [])

  abbrev patch_event : Coordinator W → ℕ → ℕ → PatchProposal → Event
  patch_event c idx revision patch =
      patch_proposal idx revision (c.patch_fingerprint patch) patch.files_modified

  round-events :
      (c : Coordinator W) (idx : ℕ) (subtask : Subtask) (context : String) (revision : ℕ)
      (request : Option RevisionRequest) (s : W × List Entry)
      → let round = propose_and_review c idx subtask context revision request s in
        events round.0.1
        ≡ events s.1
          ++ patch_event c idx revision round.1.0
            ∷ review_verdict idx round.1.1.verdict revision
            ∷ []
  unfolding propose_and_review
  round-events c idx subtask context revision request s =
      let patch = (propose_and_review c idx subtask context revision request s).1.0 in
      log_after c _ _ (events s.1) (patch_event c idx revision patch ∷ []) (log-events c _ _)

  abbrev Follows :
      Coordinator W
      → (idx m revision : ℕ) → Subtask
      → List Entry
      → (W × List Entry) × SubtaskResult
      → Type 0
  Follows c idx m revision subtask entries out =
      (es : List Event) × (events out.0.1 ≡ events entries ++ es)
      × IsDebate idx m subtask revision es out.1

  debate-Follows :
      (c : Coordinator W) (idx m : ℕ) (subtask : Subtask) (context : String) (rounds revision : ℕ)
      (request : Option RevisionRequest) (st : SubtaskResult) (s : W × List Entry)
      → c.max_revisions ≡ pos m
      → revision ≤ m
      → rounds + revision ≡ suc m
      → Follows c idx m revision st.subtask s.1
          (debate c idx subtask context rounds revision request st s)
  unfolding debate
  debate-Follows c idx m subtask context zero revision request st s e h k = absurd (omega arith)
  debate-Follows c idx m subtask context (suc rounds) revision request st s e h k =
      let round = propose_and_review c idx subtask context revision request s in
      let before = round-events c idx subtask context revision request s in
      let patch = round.1.0 in
      let v = round.1.1 in
      elim (Verdict-cases v.verdict) [
        | inl ok ↦ rw (ok, debate) (_, rw ok at before, on_approve patch v ok h)
        | inr (inl bad) ↦
            rw (bad, debate)
              (_, log_after c _ _ (events s.1) _ (rw bad at before), on_reject patch v bad h)
        | inr (inr again) ↦ elim (Bool-cases (leb m revision)) [
          | inl last ↦
              let same : revision ≡ m = ground arith in
              rw (again, e, last, debate)
                (
                  _,
                  log_after c _ _ (events s.1) _ (rw again at before),
                  on_escalate patch v c.max_revisions again same e,
                )
          | inr more ↦
              let fewer : revision < m = ground arith in
              let (es, after, rest) =
                debate-Follows c idx m subtask context rounds (revision + 1) _
                  (record st {
                    final_patch = some patch;
                    final_verdict = some v;
                    revisions = revision + 1;
                  })
                  ((c.clock round.0.0).0, round.0.1) e (ground arith) (omega arith) in
              rw (again, e, more, debate)
                (
                  _,
                  after ∙ ap (λ l. l ++ es) (rw again at before) ∙ append_assoc (events s.1) _ es,
                  on_revise fewer rest,
                )
        ]
      ]

  -- With a maximum of `m` revisions, what the coordinator logs for a subtask and the result that it
  -- returns are one course of the protocol `IsDebate` from the round 0: the events are appended to
  -- those logged before, and the result is the one that the last event decides.
  pub process_subtask-IsDebate :
      (c : Coordinator W) (idx m : ℕ) (subtask : Subtask) (context : String) (s : W × List Entry)
      → c.max_revisions ≡ pos m
      → (es : List Event) × (events (process_subtask c idx subtask context s).0.1
          ≡ events s.1 ++ es)
        × IsDebate idx m subtask 0 es (process_subtask c idx subtask context s).1
  unfolding process_subtask
  process_subtask-IsDebate c idx m subtask context s e = rw (ap rounds_of e) (
      debate-Follows c idx m subtask context (suc m) 0 none (unstarted subtask) s e (omega arith)
        (omega arith))
