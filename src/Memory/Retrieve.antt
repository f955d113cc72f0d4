-- ===== src/Memory/Retrieve.antt =====
-- rfsn_kernel/memory.py: reading entries back, by type and by relevance.
use rfsn_agent_full.Base.{
  if◌then◌else◌, take, ℕ, max, String, Bool, ◌&&◌, ◌||◌, List, [], ◌∷◌, map, str_eq,
}
use rfsn_agent_full.Base.Float.{Floats, of_ℕ, min_float, max_float}
use rfsn_agent_full.Base.Text.{Text, Unicode, words}
use rfsn_agent_full.Base.Dict.{values}
use rfsn_agent_full.Memory.{MemoryEntry, MemoryImmuneSystem}
use rfsn_agent_full.Memory.Score.{count_common}

abbrev pub filter_by {ℓ} : {A : Type ℓ} → (A → Bool) → List A → List A
filter_by p [] = []
filter_by p (x ∷ xs) = let rest = filter_by p xs in if p x then x ∷ rest else rest

-- The number of different words.
unfoldable pub count_distinct : List Text → ℕ
count_distinct xs = count_common xs xs

module _ (F : Floats) where
  open F use {Float, dec, add, sub, mul, div, gtb}

  insert_by : {A : Type 0} → Float × A → List (Float × A) → List (Float × A)
  insert_by x [] = x ∷ []
  insert_by x (y ∷ ys) = let rest = insert_by x ys in if gtb y.0 x.0 then y ∷ rest else x ∷ y ∷ ys

  -- `sort(key=..., reverse=True)`, which keeps the order of equal keys.
  unfoldable pub sort_descending : {A : Type 0} → List (Float × A) → List (Float × A)
  unfolding insert_by
  sort_descending [] = []
  sort_descending (x ∷ xs) = insert_by x (sort_descending xs)

  -- `lookup`
  unfoldable pub lookup : String → ℕ → MemoryImmuneSystem Float → List (MemoryEntry Float)
  lookup entry_type limit m =
      let results =
        filter_by (λ e. str_eq e.entry_type entry_type && str_eq e.status "active")
          (values m.store) in
      take limit (map (λ x. x.1) (sort_descending (map (λ e. (e.quality_score, e)) results)))

  -- The relevance of an entry to the words of a query, at the time `now`.
  unfoldable pub relevance : Unicode → Float → List Text → MemoryEntry Float → Float
  relevance u now query_words e =
      let overlap = count_common query_words (words (u.lower e.content)) in
      let most = max (count_distinct query_words) 1 in
      let keyword_score = min_float F (dec 10 1) (div (of_ℕ F overlap) (of_ℕ F most)) in
      let age_hours = div (sub now e.created_at) (of_ℕ F 3600) in
      let recency = max_float F (dec 0 1) (sub (dec 10 1) (div age_hours (of_ℕ F 24))) in
      add (add (mul keyword_score (dec 4 1)) (mul recency (dec 3 1)))
        (mul e.quality_score (dec 3 1))

  -- `retrieve_relevant`
  unfoldable pub retrieve_relevant :
      Unicode → Float → Text → String → ℕ → MemoryImmuneSystem Float → List (MemoryEntry Float)
  retrieve_relevant u now query entry_type limit m =
      let candidates =
        filter_by
          (λ e.
            (str_eq e.status "active" || str_eq e.status "core")
            && (str_eq entry_type "" || str_eq e.entry_type entry_type))
          (values m.store) in
      let query_words = words (u.lower query) in
      take limit (
        map (λ x. x.1) (sort_descending (map (λ e. (relevance u now query_words e, e)) candidates)))
