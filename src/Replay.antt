-- ===== src/Replay.antt =====
-- rfsn_kernel/replay.py: the verification of a ledger by replay, and read_all of
-- rfsn_kernel/hard_ledger.py, which it reads the ledger with.
--
-- Of a record's metadata the replay reads "record_type" and "run_id": two functions, with `none` for
-- a key that is missing. SHA-256 is a parameter.
pub mod Sound
pub mod Kernel
pub mod Filtered
use rfsn_agent_full.Base.{
  ltb, leb, ◌==◌, if◌then◌else◌, ltb→lt, lt→ltb, leb→le, bool_tests, Bool-cases, if_both,
  Option-cases, is_some, str_eq_of, of_str_eq, &&_true, length, get_elem?, take, drop, last_n, any,
  all, All, length-append, length-drop, length-take-le, length-last_n, All-append,
  get_elem?-append_left, get_elem?-append_length, get_elem?-take, length-take, get_elem?-none,
  get_elem?-some, ℕ, zero, suc, ◌+◌, ◌-◌, ◌*◌, ◌/◌, ◌%◌, ◌^◌, ◌≤◌, ◌<◌, min, max, String, ◌≡◌, refl,
  sym, ap, ◌∙◌, ◌≢◌, ◌↔◌, ◌⊎◌, inl, inr, Bool, true, false, not, ◌&&◌, ◌||◌, Option, none, some,
  List, [], ◌∷◌, ◌++◌, map, arith, str_eq, eq_iff, eq_refl,
}
use Prim.Native.String.{◌++◌ as concat}
use rfsn_agent_full.Ledger.{Body, LedgerRecord, Line, blank, garbled, entry}

-- The message of a divergence, without its numbers.
pub data Divergence : Type 0 where
  chain_hash_mismatch chain_break state_divergence invalid_decision approve_without_outcome :
      Divergence

-- `r.metadata.get(key) == value`
abbrev pub is_text : Option String → String → Bool
is_text none value = false
is_text (some t) value = str_eq t value

-- `not rec.outcome_hash`
abbrev pub is_falsy : Option String → Bool
is_falsy none = true
is_falsy (some t) = str_eq t ""

pub record ReplayStep {ℓ} (B M : Type ℓ) : Type ℓ where
  pub index : ℕ
  pub rec : LedgerRecord B M
  pub matched : Bool
  pub divergence : Option Divergence

-- With the whole entry hash of a divergence, of which the source shows twelve digits.
pub record ReplayResult {ℓ} (B M : Type ℓ) : Type ℓ where
  pub ok : Bool
  pub total_steps : ℕ
  pub matched_steps : ℕ
  pub divergences : List (ℕ × (Option Divergence × String))
  pub steps : List (ReplayStep B M)

module _ {ℓ} {B M : Type ℓ} where
  -- `HardLedger.read_all`: an empty run id selects every record.
  unfoldable pub read_all : (M → Option String) → String → List (Line B M) → List (LedgerRecord B M)
  read_all run_id_of run_id [] = []
  read_all run_id_of run_id (blank ∷ lines) = read_all run_id_of run_id lines
  read_all run_id_of run_id (garbled ∷ lines) = read_all run_id_of run_id lines
  read_all run_id_of run_id (entry r ∷ lines) =
      let rest = read_all run_id_of run_id lines in
      if not (str_eq run_id "") && not (is_text (run_id_of r.metadata) run_id)
      then rest
      else r ∷ rest

  -- `_kernel_records`
  unfoldable pub kernel_records :
      (M → Option String) → List (LedgerRecord B M) → List (LedgerRecord B M)
  kernel_records record_type [] = []
  kernel_records record_type (r ∷ rs) =
      let rest = kernel_records record_type rs in
      let t = record_type r.metadata in
      if is_text t "orchestrator_event" || is_text t "kernel_event" then rest else r ∷ rest

  -- The chain check of the loop, after the record `prev`.
  unfoldable pub chain_check :
      (String → String) → Bool → Option (LedgerRecord B M) → LedgerRecord B M → Option Divergence
  chain_check sha256 true prev r =
      if str_eq r.chain_hash (sha256 (concat r.prev_chain_hash r.entry_hash))
      then none
      else some chain_hash_mismatch
  chain_check sha256 false none r = none
  chain_check sha256 false (some p) r =
      if str_eq r.prev_chain_hash p.chain_hash then none else some chain_break

  state_check : Option String → LedgerRecord B M → Option Divergence → Option Divergence
  state_check none r d = d
  state_check (some h) r d = if str_eq r.body.state_hash h then d else some state_divergence

  -- The checks of one record: a later one overwrites the message of an earlier one.
  unfoldable pub check_record :
      (String → String)
      → Bool
      → Option (LedgerRecord B M)
      → Option String
      → LedgerRecord B M
      → Option Divergence
  unfolding state_check
  check_record sha256 in_run prev expected r =
      let d1 = state_check expected r (chain_check sha256 in_run prev r) in
      let d2 =
        if str_eq r.body.decision "APPROVE" || str_eq r.body.decision "REJECT"
        then d1
        else some invalid_decision in
      if str_eq r.body.decision "APPROVE" && is_falsy r.body.outcome_hash
      then some approve_without_outcome
      else d2

  -- The loop of `replay_verify`, from the index `i` and after the record `prev`; `expected` are the
  -- state hashes that are left.
  unfoldable pub replay_from :
      (String → String)
      → Bool
      → ℕ
      → Option (LedgerRecord B M)
      → List String
      → List (LedgerRecord B M)
      → List (ReplayStep B M)
  replay_from sha256 in_run i prev expected [] = []
  replay_from sha256 in_run i prev expected (r ∷ rs) =
      let d = check_record sha256 in_run prev (get_elem? expected 0) r in
      record { index = i; rec = r; matched = not (is_some d); divergence = d }
      ∷ replay_from sha256 in_run (i + 1) (some r) (drop 1 expected) rs

  unfoldable pub count_matched : List (ReplayStep B M) → ℕ
  count_matched [] = 0
  count_matched (s ∷ ss) = if s.matched then suc (count_matched ss) else count_matched ss

  unfoldable pub divergences_of : List (ReplayStep B M) → List (ℕ × (Option Divergence × String))
  divergences_of [] = []
  divergences_of (s ∷ ss) =
      if s.matched
      then divergences_of ss
      else (s.index, (s.divergence, s.rec.entry_hash)) ∷ divergences_of ss

  -- `replay_verify`; an empty run id is no run id.
  unfoldable pub replay_verify :
      (String → String)
      → (M → Option String)
      → (M → Option String)
      → List String
      → String
      → List (Line B M)
      → ReplayResult B M
  replay_verify sha256 record_type run_id_of expected run_id file =
      let records = kernel_records record_type (read_all run_id_of run_id file) in
      let steps = replay_from sha256 (not (str_eq run_id "")) 0 none expected records in
      record {
        ok = (length (divergences_of steps)) == 0;
        total_steps = length records;
        matched_steps = count_matched steps;
        divergences = divergences_of steps;
        steps = steps;
      }
