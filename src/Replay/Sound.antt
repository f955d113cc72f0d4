-- ===== src/Replay/Sound.antt =====
-- Records that the replay of a run accepts.
use rfsn_agent_full.Base.{
  if_both, str_eq_of, length, All, ℕ, suc, ◌+◌, String, ◌≡◌, refl, ap, ◌⊎◌, inl, inr, true, false,
  not, ◌&&◌, ◌||◌, Option, none, some, List, [], ◌∷◌, str_eq,
}
use Prim.Native.String.{◌++◌ as concat, count}
use rfsn_agent_full.Ledger.{Body, LedgerRecord, Line, blank, garbled, entry}
use rfsn_agent_full.Replay.{
  is_text, is_falsy, ReplayResult, read_all, kernel_records, chain_check, check_record, replay_from,
  count_matched, divergences_of, replay_verify,
}

-- The decision and the outcome fit: an approval has an outcome, and all else is a rejection.
abbrev pub IsDecidedBody {ℓ} : {B : Type ℓ} → Body B → Type 0
IsDecidedBody b =
    ((b.decision ≡ "APPROVE") × (is_falsy b.outcome_hash ≡ false)) ⊎ (b.decision ≡ "REJECT")

module _ {ℓ} {B M : Type ℓ} (sha256 : String → String) where
  abbrev pub IsSoundRecord : LedgerRecord B M → Type 0
  IsSoundRecord r =
      (r.chain_hash ≡ sha256 (concat r.prev_chain_hash r.entry_hash)) × IsDecidedBody r.body

  abbrev pub IsSoundLine : Line B M → Type 0
  IsSoundLine blank = Unit
  IsSoundLine garbled = Unit
  IsSoundLine (entry r) = IsSoundRecord r

  check_record_sound :
      (prev : Option (LedgerRecord B M)) (r : LedgerRecord B M)
      → IsSoundRecord r
      → check_record sha256 true prev none r ≡ none
  unfolding check_record chain_check
  check_record_sound prev r (chain, decided) =
      let c : str_eq r.chain_hash (sha256 (concat r.prev_chain_hash r.entry_hash)) ≡ true =
        str_eq_of chain in
      elim decided [
        | inl (approved, outcome) ↦ rw (c, approved, outcome) refl
        | inr rejected ↦ rw (c, rejected) refl
      ]

  read_all_sound :
      (run_id_of : M → Option String) (run_id : String) (file : List (Line B M))
      → All IsSoundLine file
      → All IsSoundRecord (read_all run_id_of run_id file)
  unfolding read_all
  read_all_sound run_id_of run_id [] h = tt
  read_all_sound run_id_of run_id (blank ∷ lines) (_, h) = read_all_sound run_id_of run_id lines h
  read_all_sound run_id_of run_id (garbled ∷ lines) (_, h) = read_all_sound run_id_of run_id lines h
  read_all_sound run_id_of run_id (entry r ∷ lines) (p, h) =
      let rest = read_all_sound run_id_of run_id lines h in
      if_both (All IsSoundRecord)
        (not (str_eq run_id "") && not (is_text (run_id_of r.metadata) run_id)) rest (p, rest)

  kernel_records_sound :
      (record_type : M → Option String) (rs : List (LedgerRecord B M))
      → All IsSoundRecord rs
      → All IsSoundRecord (kernel_records record_type rs)
  unfolding kernel_records
  kernel_records_sound record_type [] h = tt
  kernel_records_sound record_type (r ∷ rs) (p, h) =
      let rest = kernel_records_sound record_type rs h in
      let t = record_type r.metadata in
      if_both (All IsSoundRecord) (is_text t "orchestrator_event" || is_text t "kernel_event") rest
        (p, rest)

  replay_from_sound :
      (i : ℕ) (prev : Option (LedgerRecord B M)) (rs : List (LedgerRecord B M))
      → All IsSoundRecord rs
      → (divergences_of (replay_from sha256 true i prev [] rs) ≡ [])
        × (count_matched (replay_from sha256 true i prev [] rs) ≡ length rs)
  unfolding replay_from divergences_of count_matched
  replay_from_sound i prev [] h = (refl, refl)
  replay_from_sound i prev (r ∷ rs) (p, h) =
      let (none_left, count) = replay_from_sound (i + 1) (some r) rs h in
      rw (check_record_sound prev r p) (none_left, ap suc count)

  -- What the replay of a run says when it finds nothing.
  abbrev pub IsClean : ReplayResult B M → Type 0
  IsClean r = (r.ok ≡ true) × (r.matched_steps ≡ r.total_steps) × (r.divergences ≡ [])

  pub replay_verify-IsClean :
      (record_type run_id_of : M → Option String) (run_id : String) (file : List (Line B M))
      → str_eq run_id "" ≡ false
      → All IsSoundLine file
      → IsClean (replay_verify sha256 record_type run_id_of [] run_id file)
  unfolding replay_verify
  replay_verify-IsClean record_type run_id_of run_id file named h =
      let records = kernel_records record_type (read_all run_id_of run_id file) in
      let (none_left, count) =
        replay_from_sound 0 none records
          (kernel_records_sound record_type _ (read_all_sound run_id_of run_id file h)) in
      rw (named, none_left) (refl, count, refl)
