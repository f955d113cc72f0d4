-- ===== src/Kernel/Tier/Escalation.antt =====
-- Escalation never lowers a tier, and only known failure kinds raise it.
use rfsn_agent_full.Base.{
  ltb, if◌then◌else◌, bool_tests, Bool-cases, Option-cases, str_eq_of, any, ℕ, zero, suc, ◌≤◌, ◌<◌,
  max, String, ◌≡◌, refl, ◌⊎◌, inl, inr, Bool, true, some, List, [], ◌∷◌, arith, str_eq,
}
use rfsn_agent_full.Kernel.Tier.{TierDecision, Rules, first_rule, escalate_or, pick_next_tier}

abbrev pub mem_str : String → List String → Bool
mem_str x = any (λ y. str_eq y x)

-- The rule that lets a run move up to the tier.
abbrev pub rules_for : ℕ → Rules → List String
rules_for (suc zero) r = r.to_tier_1
rules_for (suc (suc zero)) r = r.to_tier_2
rules_for (suc (suc (suc zero))) r = r.to_tier_3
rules_for _ r = []

first_rule-some :
    (kinds rs : List String) {k : String}
    → first_rule kinds rs ≡ some k
    → (any (λ y. str_eq y k) kinds ≡ true) × (mem_str k rs ≡ true)
unfolding first_rule
first_rule-some kinds [] h = cc
first_rule-some kinds (r ∷ rs) {k} h = elim (Bool-cases (any (λ y. str_eq y r) kinds)) [
  | inl hit ↦
      let e : r ≡ k = ground (arith, rw hit at h) in (rw (← e) hit, ground (arith, str_eq_of e))
  | inr miss ↦
      let (hit, found) = first_rule-some kinds rs (rw miss at h) in (hit, ground (arith, found))
]

-- What lets a run stand at a decision's tier: it stays, or a failure kind of the step is among those
-- of the rule for the new tier, which is at most 3.
abbrev pub Justified : ℕ → List String → Rules → TierDecision → Type 0
Justified current kinds rules d =
    (d.tier ≡ current)
    ⊎ ((k : String) × (d.reason ≡ some k)
        × (mem_str k kinds ≡ true)
        × (mem_str k (rules_for d.tier rules) ≡ true)
        × (current < d.tier)
        × (d.tier ≤ 3))

escalate :
    (t current : ℕ) (kinds : List String) (rules : Rules) (d : TierDecision)
    → current < t
    → t ≤ 3
    → Justified current kinds rules d
    → Justified current kinds rules (escalate_or t (first_rule kinds (rules_for t rules)) d)
escalate t current kinds rules d low high h =
    elim (Option-cases (first_rule kinds (rules_for t rules))) [
      | inl e ↦ rw e h
      | inr (k, e) ↦
          let (hit, found) = first_rule-some kinds (rules_for t rules) e in
          rw e (inr (k, refl, hit, found, low, high))
    ]

escalate_if :
    (t current : ℕ) (kinds : List String) (rules : Rules) (d : TierDecision)
    → t ≤ 3
    → Justified current kinds rules d
    → Justified current kinds rules
        (if ltb current t then escalate_or t (first_rule kinds (rules_for t rules)) d else d)
escalate_if t current kinds rules d high h = elim (Bool-cases (ltb current t)) [
  | inl low ↦ rw low (escalate t current kinds rules d (omega bool_tests) high h)
  | inr stay ↦ rw stay h
]

-- The next tier is the current one, or a higher one up to 3 that a failure kind of the step allows
-- by the rule for that tier: no step lowers a tier.
pub pick_next_tier-Justified :
    (current : ℕ) (kinds : List String) (rules : Rules)
    → Justified current kinds rules (pick_next_tier current kinds rules)
unfolding pick_next_tier
pick_next_tier-Justified current kinds rules = escalate_if 1 current kinds rules _ (omega arith) (
    escalate_if 2 current kinds rules _ (omega arith)
      (escalate_if 3 current kinds rules _ (omega arith) (inl refl)))

pub pick_next_tier-le :
    (current : ℕ) (kinds : List String) (rules : Rules)
    → (current ≤ (pick_next_tier current kinds rules).tier)
      × ((pick_next_tier current kinds rules).tier ≤ max current 3)
pick_next_tier-le current kinds rules = elim (pick_next_tier-Justified current kinds rules) [
  | inl e ↦ (omega arith, omega arith)
  | inr (k, _, _, _, low, high) ↦ (omega arith, omega arith)
]
