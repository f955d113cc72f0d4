-- ===== src/Healing/Bounds.antt =====
-- The failure memory never outgrows its bounds, and recording a failure is never refused.
use rfsn_agent_full.Base.{
  ltb, leb, if◌then◌else◌, Bool-cases, if_both, Option-cases, is_some, length, length-last_n, ℕ,
  ◌+◌, ◌≤◌, ◌<◌, String, ◌≡◌, refl, ◌∙◌, ◌⊎◌, inl, inr, true, not, ◌&&◌, Option, none, some, List,
  [], ◌∷◌, ◌++◌, arith, str_eq, eq_refl,
}
use rfsn_agent_full.Base.Float.{Floats}
use rfsn_agent_full.Base.Text.{Text, mem_text}
use rfsn_agent_full.Base.Dict.{
  Dict, get, put, get-put, length-put, length-remove, AllValues, AllValues-put, AllValues-remove,
  AllValues-get,
}
use rfsn_agent_full.Healing.{FailureCluster}
use rfsn_agent_full.Healing.Memory.{
  FailureMemory, is_blank, add_detail, record_occurrence, oldest_from, evict_oldest, diagnose,
  record_failure, new_cluster,
}

length-add_detail :
    (detail : Text) (details : List Text)
    → length details ≤ 10
    → length (add_detail detail details) ≤ 10
unfolding add_detail
length-add_detail detail details h =
    elim (Bool-cases (not (is_blank detail) && not (mem_text detail details))) [
      | inl fresh ↦ rw fresh (elim (Bool-cases (ltb 10 (length (details ++ detail ∷ [])))) [
        | inl long ↦ rw long (length-last_n 10 (details ++ detail ∷ []))
        | inr short ↦ rw short (ground arith)
      ])
      | inr seen ↦ rw seen h
    ]

module _ (F : Floats) where
  open F use {Float, gtb}

  abbrev HasFewDetails : FailureCluster Float → Type 0
  HasFewDetails c = length c.details ≤ 10

  -- At most `max_clusters` clusters, one at least allowed, each with at most ten details.
  abbrev pub IsBounded : FailureMemory F → Type 0
  IsBounded m =
      (1 ≤ m.max_clusters)
      × (length m.clusters ≤ m.max_clusters)
      × AllValues HasFewDetails m.clusters

  -- The key that is evicted is one of the dictionary's.
  oldest_from_found :
      (key : String) (seen : Float) (d : Dict (FailureCluster Float))
      → (oldest_from F key seen d ≡ key) ⊎ (is_some (get d (oldest_from F key seen d)) ≡ true)
  unfolding oldest_from get
  oldest_from_found key seen [] = inl refl
  oldest_from_found key seen ((k, c) ∷ d) = elim (Bool-cases (gtb seen c.last_seen)) [
    | inl older ↦ rw older (elim (oldest_from_found k c.last_seen d) [
      | inl first ↦ inr (rw first (rw (eq_refl k) refl))
      | inr later ↦ inr (
          if_both (λ (o : Option (FailureCluster Float)). is_some o ≡ true)
            (str_eq k (oldest_from F k c.last_seen d)) refl later)
    ])
    | inr newer ↦ rw newer (elim (oldest_from_found key seen d) [
      | inl first ↦ inl first
      | inr later ↦ inr (
          if_both (λ (o : Option (FailureCluster Float)). is_some o ≡ true)
            (str_eq k (oldest_from F key seen d)) refl later)
    ])
  ]

  evict_oldest-some :
      (d : Dict (FailureCluster Float))
      → 1 ≤ length d
      → (d' : Dict (FailureCluster Float)) × (evict_oldest F d ≡ some d')
        × (length d' < length d)
        × (AllValues HasFewDetails d → AllValues HasFewDetails d')
  unfolding evict_oldest get
  evict_oldest-some [] h = absurd (omega arith)
  evict_oldest-some ((k, c) ∷ d) h =
      let key = oldest_from F k c.last_seen d in
      let found : is_some (get ((k, c) ∷ d) key) ≡ true = elim (oldest_from_found k c.last_seen d) [
        | inl first ↦ rw first (rw (eq_refl k) refl)
        | inr later ↦
            if_both (λ (o : Option (FailureCluster Float)). is_some o ≡ true) (str_eq k key) refl
              later
      ] in
      (_, refl, length-remove ((k, c) ∷ d) key found, AllValues-remove HasFewDetails _ key)

  diagnose-count :
      (t : String) (c : FailureCluster Float)
      → ((diagnose F t c).count ≡ c.count) × ((diagnose F t c).details ≡ c.details)
  unfolding diagnose
  diagnose-count t c =
      if_both (λ (x : FailureCluster Float). (x.count ≡ c.count) × (x.details ≡ c.details))
        (is_some c.root_cause) (refl, refl) (refl, refl)

  abbrev old_count : Option (FailureCluster Float) → ℕ
  old_count none = 0
  old_count (some c) = c.count

  abbrev pub Recorded :
      FailureMemory F → String → Option (FailureMemory F × FailureCluster Float) → Type 0
  Recorded m fp out =
      (m' : FailureMemory F) × (c : FailureCluster Float) × (out ≡ some (m', c))
      × IsBounded m'
      × (get m'.clusters fp ≡ some c)
      × (c.count ≡ old_count (get m.clusters fp) + 1)

  get-put_same :
      (d : Dict (FailureCluster Float)) (fp : String) (c : FailureCluster Float)
      → get (put d fp c) fp ≡ some c
  get-put_same d fp c = get-put d fp fp c ∙ rw (eq_refl fp) refl

  store-IsBounded :
      (m : FailureMemory F) (d : Dict (FailureCluster Float)) (fp : String)
      (c : FailureCluster Float)
      → 1 ≤ m.max_clusters
      → (if is_some (get d fp) then length d else length d + 1) ≤ m.max_clusters
      → AllValues HasFewDetails d
      → HasFewDetails c
      → IsBounded (record m { clusters = put d fp c })
  store-IsBounded m d fp c one size few ten =
      (one, rw (length-put d fp c) size, AllValues-put HasFewDetails d fp c few ten)

  new_stored :
      (now : Float × Float) (fp t : String) (detail : Text) (m : FailureMemory F)
      (d : Dict (FailureCluster Float))
      → 1 ≤ m.max_clusters
      → length d < m.max_clusters
      → AllValues HasFewDetails d
      → let c = diagnose F t (new_cluster F now fp t detail) in
        IsBounded (record m { clusters = put d fp c })
        × (get (put d fp c) fp ≡ some c)
        × (c.count ≡ 1)
  new_stored now fp t detail m d one room few =
      let (count, details) = diagnose-count t (new_cluster F now fp t detail) in
      let le : (if is_some (get d fp) then length d else length d + 1) ≤ m.max_clusters =
        if_both (λ (n : ℕ). n ≤ m.max_clusters) (is_some (get d fp)) (omega arith) (omega arith) in
      let ten : length (new_cluster F now fp t detail).details ≤ 10 =
        if_both (λ (ds : List Text). length ds ≤ 10) (is_blank detail) (omega arith)
          (omega arith) in
      (store-IsBounded m d fp _ one le few (rw details ten), get-put_same d fp _, count)

  -- From a memory within its bounds, recording a failure always succeeds and leaves a memory within
  -- its bounds, in which the cluster returned stands under its fingerprint and counts one
  -- occurrence more than the one there was, if any.
  pub record_failure-IsBounded :
      (now : Float × Float) (fp t : String) (detail : Text) (m : FailureMemory F)
      → IsBounded m
      → Recorded m fp (record_failure F now fp t detail m)
  unfolding record_failure record_occurrence
  record_failure-IsBounded now fp t detail m (one, size, few) =
      elim (Option-cases (get m.clusters fp)) [
        | inl absent ↦ elim (Bool-cases (leb m.max_clusters (length m.clusters))) [
          | inl full ↦
              let (d, evicted, less, kept) = evict_oldest-some m.clusters (ground arith) in
              let (bounded, stored, count) =
                new_stored now fp t detail m d one (omega arith) (kept few) in
              rw (absent, full, evicted) (_, _, refl, bounded, stored, count)
          | inr room ↦
              let (bounded, stored, count) =
                new_stored now fp t detail m m.clusters one (ground arith) few in
              rw (absent, room) (_, _, refl, bounded, stored, count)
        ]
        | inr (old, found) ↦
            let c = diagnose F t (record_occurrence F now.0 detail old) in
            let (count, details) = diagnose-count t (record_occurrence F now.0 detail old) in
            let ten = AllValues-get HasFewDetails m.clusters fp few found in
            rw found (
              _,
              c,
              refl,
              store-IsBounded m m.clusters fp c one (rw found size) few
                  (rw details (length-add_detail detail old.details ten)),
              get-put_same m.clusters fp c,
              count,
            )
      ]
