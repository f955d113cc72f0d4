-- ===== src/Kernel/Simulate/History.antt =====
-- `OutcomeHistory` of rfsn_kernel/simulate.py: the statistics of the actions taken, by action and
-- context, with the least used quarter dropped when the table outgrows its bound.
use rfsn_agent_full.Base.{
  ltb, if◌then◌else◌, length, ℕ, zero, suc, ◌+◌, ◌/◌, max, String, Bool, true, false, not, Option,
  none, some, List, [], ◌∷◌,
}
use Prim.Native.String.{◌++◌ as concat}
use rfsn_agent_full.Base.Float.{Floats, of_ℕ}
use rfsn_agent_full.Base.Dict.{Dict, get, put, remove}

-- `_ActionStats`
pub record ActionStats (Float : Type 0) : Type 0 where
  pub n : ℕ
  pub success : ℕ
  pub fail : ℕ
  pub total_cost : Float
  pub recent_failure_rate : Float

pub record OutcomeHistory (Float : Type 0) : Type 0 where
  pub max_entries : ℕ
  pub stats : Dict (ActionStats Float)

-- `f"{action}|{context}"`
abbrev pub key_of : String → String → String
key_of action context = concat action (concat "|" context)

abbrev pub bit : Bool → ℕ
bit true = 1
bit false = 0

module _ {ℓ} {V : Type ℓ} (weight : V → ℕ) where
  -- The first entry of least weight.
  least : String × V → List (String × V) → String × V
  least best [] = best
  least best (e ∷ es) = least (if ltb (weight e.1) (weight best.1) then e else best) es

  -- `heapq.nsmallest(k, ...)` followed by the deletion of what it returns: `k` times the first entry
  -- of least weight is dropped.
  unfoldable pub drop_least : ℕ → List (String × V) → List (String × V)
  unfolding least
  drop_least zero d = d
  drop_least (suc k) [] = []
  drop_least (suc k) (e ∷ es) = drop_least k (remove (e ∷ es) (least e es).0)

module _ (F : Floats) where
  open F use {Float, dec, add, sub, mul, div}

  unfoldable pub success_rate : ActionStats Float → Float
  success_rate s = div (of_ℕ F s.success) (of_ℕ F (max s.n 1))

  unfoldable pub avg_cost : ActionStats Float → Float
  avg_cost s = div s.total_cost (of_ℕ F (max s.n 1))

  abbrev pub fresh : ActionStats Float
  fresh = record {
    n = 0;
    success = 0;
    fail = 0;
    total_cost = dec 0 0;
    recent_failure_rate = dec 0 0;
  }

  abbrev stats_or_fresh : Option (ActionStats Float) → ActionStats Float
  stats_or_fresh none = fresh
  stats_or_fresh (some s) = s

  unfoldable pub add_outcome : Bool → Float → ActionStats Float → ActionStats Float
  add_outcome success cost s =
      let alpha = dec 3 1 in
      record {
        n = s.n + 1;
        success = s.success + bit success;
        fail = s.fail + bit (not success);
        total_cost = add s.total_cost cost;
        recent_failure_rate =
            add (mul alpha (if success then dec 0 0 else dec 1 0))
              (mul (sub (dec 1 0) alpha) s.recent_failure_rate);
      }

  unfoldable pub record_outcome :
      String → String → Bool → Float → OutcomeHistory Float → OutcomeHistory Float
  record_outcome action context success cost h =
      let key = key_of action context in
      let stats = put h.stats key (add_outcome success cost (stats_or_fresh (get h.stats key))) in
      record h {
        stats =
            if ltb h.max_entries (length stats)
            then drop_least (λ s. s.n) (length stats / 4) stats
            else stats;
      }

  unfoldable pub lookup : String → String → OutcomeHistory Float → Option (ActionStats Float)
  lookup action context h = get h.stats (key_of action context)
