-- ===== src/Swarm/Outcome.antt =====
-- How a debate ends, and what the status of a whole run says of its results.
use rfsn_agent_full.Base.{
  ltb, ◌==◌, Bool-cases, length, All, ℕ, suc, ◌+◌, ◌≤◌, ◌<◌, String, ◌≡◌, refl, ap, ◌≢◌, ◌↔◌, inl,
  inr, true, some, List, [], ◌∷◌, ◌++◌, arith,
}
use rfsn_agent_full.Base.Int.{pos, negsuc}
use rfsn_agent_full.Swarm.{
  Verdict, approve, request_changes, reject, Subtask, PatchProposal, ReviewVerdict, SubtaskStatus,
  pending, approved, rejected, escalated, SubtaskResult, SwarmStatus, completed, partial, failed,
  Event, patch_proposal, Entry, is_approved, count_approved, overall, unstarted,
}
use rfsn_agent_full.Swarm.Coordinator.{Coordinator, rounds_of, debate, process_subtask}
use rfsn_agent_full.Swarm.Debate.{
  IsDebate, on_approve, on_reject, on_escalate, on_revise, events, process_subtask-IsDebate,
}

-- The status that a reviewer's last verdict stands for.
abbrev pub status_for : Verdict → SubtaskStatus
status_for approve = approved
status_for reject = rejected
status_for request_changes = escalated

-- How many patches the coder proposed.
abbrev pub count_proposals : List Event → ℕ
count_proposals [] = 0
count_proposals (patch_proposal i r f fs ∷ es) = suc (count_proposals es)
count_proposals (_ ∷ es) = count_proposals es

-- The subtask ended with a reviewed patch, and its status is that of the review.
abbrev pub IsDecided : Subtask → ℕ → SubtaskResult → Type 0
IsDecided subtask m r =
    (r.subtask ≡ subtask)
    × ((patch : PatchProposal) × (r.final_patch ≡ some patch))
    × ((v : ReviewVerdict) × (r.final_verdict ≡ some v) × (r.status ≡ status_for v.verdict))
    × (r.revisions ≤ m)

IsDebate-IsDecided :
    {idx m : ℕ} {subtask : Subtask} {revision : ℕ} {es : List Event} {r : SubtaskResult}
    → IsDebate idx m subtask revision es r
    → IsDecided subtask m r × (count_proposals es + revision ≡ r.revisions + 1)
IsDebate-IsDecided (on_approve patch v ok h) =
    ((refl, (patch, refl), (v, refl, rw ok refl), h), omega arith)
IsDebate-IsDecided (on_reject patch v bad h) =
    ((refl, (patch, refl), (v, refl, rw bad refl), h), omega arith)
IsDebate-IsDecided (on_escalate patch v limit again same e) =
    ((refl, (patch, refl), (v, refl, rw again refl), omega arith), omega arith)
IsDebate-IsDecided (on_revise h rest) =
    let (decided, count) = IsDebate-IsDecided rest in (decided, omega arith)

-- Every subtask has its result, in order.
abbrev pub AllDecided : ℕ → List Subtask → List SubtaskResult → Type 0
AllDecided m [] [] = Unit
AllDecided m [] (r ∷ rs) = ⊥
AllDecided m (t ∷ ts) [] = ⊥
AllDecided m (t ∷ ts) (r ∷ rs) = IsDecided t m r × AllDecided m ts rs

-- What the status of the whole says of the results.
abbrev pub StatusHolds : SwarmStatus → List SubtaskResult → Type 0
StatusHolds pending rs = ⊥
StatusHolds completed rs = All (λ r. r.status ≡ approved) rs
StatusHolds partial rs = (0 < count_approved rs) × (count_approved rs < length rs)
StatusHolds failed rs = All (λ r. r.status ≢ approved) rs

approved_iff : (x : SubtaskStatus) → (is_approved x ≡ true) ↔ (x ≡ approved)
approved_iff pending = ((λ h. cc), (λ h. ap is_approved h))
approved_iff approved = ((λ h. refl), (λ h. refl))
approved_iff rejected = ((λ h. cc), (λ h. ap is_approved h))
approved_iff escalated = ((λ h. cc), (λ h. ap is_approved h))

count_approved-le : (rs : List SubtaskResult) → count_approved rs ≤ length rs
unfolding count_approved
count_approved-le [] = omega arith
count_approved-le (r ∷ rs) = ground (arith, count_approved-le rs)

All-approved :
    (rs : List SubtaskResult) → count_approved rs ≡ length rs → All (λ r. r.status ≡ approved) rs
unfolding count_approved
All-approved [] h = tt
All-approved (r ∷ rs) h = elim (Bool-cases (is_approved r.status)) [
  | inl ok ↦ ((approved_iff r.status).0 ok, All-approved rs (ground arith))
  | inr other ↦ absurd (ground (arith, count_approved-le rs))
]

none_approved :
    (rs : List SubtaskResult) → count_approved rs ≡ 0 → All (λ r. r.status ≢ approved) rs
unfolding count_approved
none_approved [] h = tt
none_approved (r ∷ rs) h = elim (Bool-cases (is_approved r.status)) [
  | inl ok ↦ absurd (ground arith)
  | inr other ↦
      ((λ e. ground (arith, (approved_iff r.status).1 e)), none_approved rs (ground arith))
]

pub overall-StatusHolds : (rs : List SubtaskResult) → StatusHolds (overall rs) rs
unfolding overall
overall-StatusHolds rs = elim (Bool-cases (count_approved rs == length rs)) [
  | inl same ↦ rw same (All-approved rs (ground arith))
  | inr other ↦ elim (Bool-cases (ltb 0 (count_approved rs))) [
    | inl more ↦ rw (other, more) (ground arith, ground (arith, count_approved-le rs))
    | inr none_left ↦ rw (other, none_left) (none_approved rs (ground arith))
  ]
]

module _ {ℓ} {W : Type ℓ} where
  -- With a maximum of `m` revisions every subtask ends: with a patch and a verdict, in the status
  -- that the verdict stands for, after at most `m` revisions, and the coder proposed one patch more
  -- than the revisions counted.
  pub process_subtask-IsDecided :
      (c : Coordinator W) (idx m : ℕ) (subtask : Subtask) (context : String) (s : W × List Entry)
      → c.max_revisions ≡ pos m
      → (es : List Event) × (events (process_subtask c idx subtask context s).0.1
          ≡ events s.1 ++ es)
        × IsDecided subtask m (process_subtask c idx subtask context s).1
        × (count_proposals es ≡ (process_subtask c idx subtask context s).1.revisions + 1)
  process_subtask-IsDecided c idx m subtask context s e =
      let (es, logged, course) = process_subtask-IsDebate c idx m subtask context s e in
      let (decided, count) = IsDebate-IsDecided course in (es, logged, decided, omega arith)

  -- With a negative maximum of revisions no agent is asked and nothing is logged: the subtask is
  -- escalated without a patch or a verdict.
  pub process_subtask_negative :
      (c : Coordinator W) (idx n : ℕ) (subtask : Subtask) (context : String) (s : W × List Entry)
      → c.max_revisions ≡ negsuc n
      → process_subtask c idx subtask context s
        ≡ (s, record (unstarted subtask) { status = escalated })
  unfolding process_subtask debate
  process_subtask_negative c idx n subtask context s e = rw (ap rounds_of e) refl
