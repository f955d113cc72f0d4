-- ===== src/Memory/Score.antt =====
-- rfsn_kernel/memory.py: the scores of an entry.
use rfsn_agent_full.Base.{
  ltb, leb, ◌==◌, if◌then◌else◌, length, last_n, any, ℕ, suc, ◌+◌, String, Bool, not, ◌&&◌, ◌||◌,
  List, [], ◌∷◌, str_eq,
}
use rfsn_agent_full.Base.Float.{Floats, of_ℕ, min_float}
use rfsn_agent_full.Base.Text.{Text, Unicode, words, codes, has_sub, mem_text}
use rfsn_agent_full.Base.Dict.{values}
use rfsn_agent_full.Memory.{MemoryEntry, MemoryImmuneSystem}

-- The pairs of `_content_conflicts`.
abbrev pub negation_pairs : List (String × String)
negation_pairs =
    ("success", "failure")
    ∷ ("passed", "failed")
    ∷ ("fixed", "broken")
    ∷ ("works", "broken")
    ∷ ("correct", "incorrect")
    ∷ []

-- One of a pair of words is in `a`, and the other in `b`.
abbrev pub opposes : Text → Text → String × String → Bool
opposes a b (p, n) =
    (has_sub a (codes p) && has_sub b (codes n)) || (has_sub a (codes n) && has_sub b (codes p))

-- `len(set(xs) & set(ys))`
unfoldable pub count_common : List Text → List Text → ℕ
count_common [] ys = 0
count_common (x ∷ xs) ys =
    let rest = count_common xs ys in if mem_text x ys && not (mem_text x xs) then suc rest else rest

-- `_content_conflicts`
unfoldable pub content_conflicts : Unicode → Text → Text → Bool
content_conflicts u a b =
    let a_lower = u.lower a in
    let b_lower = u.lower b in
    any (opposes a_lower b_lower) negation_pairs
    && leb 3 (count_common (words a_lower) (words b_lower))

module _ (F : Floats) (u : Unicode) where
  open F use {Float, dec, add, sub, mul, div}

  -- `_quality_score`
  unfoldable pub quality_score_of : MemoryEntry Float → Float
  quality_score_of e =
      let s0 = dec 3 1 in
      let s1 =
        if str_eq e.source "kernel" || str_eq e.source "learner" || str_eq e.source "test_result"
        then add s0 (dec 3 1)
        else (if str_eq e.source "planner" || str_eq e.source "llm"
            then add s0 (dec 1 1)
            else s0) in
      let total = e.success_count + e.failure_count in
      let win_rate = div (of_ℕ F e.success_count) (of_ℕ F total) in
      let s2 = if ltb 0 total then add s1 (mul (dec 3 1) win_rate) else s1 in
      let clen = length e.content in
      let s3 = if ltb 10 clen && ltb clen 5000 then add s2 (dec 1 1) else s2 in
      min_float F (dec 10 1) s3

  -- `_risk_score`
  unfoldable pub risk_score_of : MemoryImmuneSystem Float → MemoryEntry Float → Float
  risk_score_of m e =
      let total = e.success_count + e.failure_count in
      let fail_rate = div (of_ℕ F e.failure_count) (of_ℕ F total) in
      let r0 = dec 0 1 in
      let r1 = if leb 3 total then add r0 (mul fail_rate (dec 5 1)) else r0 in
      let r2 =
        if any (λ axiom'. content_conflicts u e.content axiom'.content) (values m.core_axioms)
        then add r1 (dec 4 1)
        else r1 in
      min_float F (dec 10 1) r2

  -- The loop of `_contradiction_score`: how many entries conflict, and how many have the type.
  unfoldable pub conflicts_in : MemoryEntry Float → List (MemoryEntry Float) → ℕ × ℕ
  conflicts_in e [] = (0, 0)
  conflicts_in e (existing ∷ rest) =
      let (conflicts, checked) = conflicts_in e rest in
      if str_eq existing.entry_type e.entry_type
      then (if content_conflicts u e.content existing.content
          then (conflicts + 1, checked + 1)
          else (conflicts, checked + 1))
      else (conflicts, checked)

  -- `_contradiction_score`: of the last fifty entries.
  unfoldable pub contradiction_score_of : MemoryImmuneSystem Float → MemoryEntry Float → Float
  contradiction_score_of m e =
      let (conflicts, checked) = conflicts_in e (last_n 50 (values m.store)) in
      if checked == 0 then dec 0 1 else div (of_ℕ F conflicts) (of_ℕ F checked)
