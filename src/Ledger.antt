-- ===== src/Ledger.antt =====
-- rfsn_kernel/hard_ledger.py: the append-only hash chain of the kernel's decisions.
--
-- The file is a list of lines, beside the ledger object, for several objects may write one file.
-- SHA-256 with its hexadecimal digest and the canonical JSON text of a record's content are
-- parameters, and so is the HMAC signature, a function of the chain hash on the metadata (the
-- identity where no key is set). `B` is the content that the ledger hashes and never reads: the
-- proposal's hash, the simulation, the risk, the reason and the verification. `M` is the metadata.
-- A record has all the keys that `append` writes: a line whose record lacks the key `chain_hash`, for
-- which `__init__` keeps the hash it had, is not represented.
pub mod Chain
pub mod Tamper
pub mod Writers
use rfsn_agent_full.Base.{
  ltb, leb, ◌==◌, if◌then◌else◌, ltb→lt, lt→ltb, leb→le, bool_tests, Bool-cases, Option-cases,
  is_some, length, get_elem?, take, drop, last_n, any, all, All, length-append, length-drop,
  length-take-le, length-last_n, All-append, get_elem?-append_left, get_elem?-append_length,
  get_elem?-take, length-take, get_elem?-none, get_elem?-some, ℕ, zero, suc, ◌+◌, ◌-◌, ◌*◌, ◌/◌,
  ◌%◌, ◌^◌, ◌≤◌, ◌<◌, min, max, String, ◌≡◌, refl, sym, ap, ◌∙◌, ◌≢◌, ◌↔◌, ◌⊎◌, inl, inr, Bool,
  true, false, not, ◌&&◌, ◌||◌, Option, none, some, List, [], ◌∷◌, ◌++◌, map, arith, str_eq, eq_iff,
  eq_refl,
}
use Prim.Native.String.{◌++◌ as concat}

pub record Body {ℓ} (B : Type ℓ) : Type ℓ where
  pub content : B
  pub decision : String
  pub outcome_hash : Option String
  pub state_hash : String

-- `LedgerRecord`
pub record LedgerRecord {ℓ} (B M : Type ℓ) : Type ℓ where
  pub body : Body B
  pub entry_hash : String
  pub prev_chain_hash : String
  pub chain_hash : String
  pub ts : ℕ
  pub metadata : M

-- A line of the file: blank, no JSON, or a record.
pub data Line {ℓ} (B M : Type ℓ) : Type ℓ where
  blank : Line B M
  garbled : Line B M
  entry : LedgerRecord B M → Line B M

-- The fields `prev` and `_count` of `HardLedger`.
pub record HardLedger : Type 0 where
  pub prev : String
  pub count : ℕ

-- "0" * 64
abbrev pub zeros : String
zeros = "0000000000000000000000000000000000000000000000000000000000000000"

-- The errors of `verify_chain`, each with its line number.
pub data ChainError : Type 0 where
  json_parse missing_hash chain_break entry_mismatch chain_mismatch : ℕ → ChainError

pub record Report : Type 0 where
  pub ok : Bool
  pub entries : ℕ
  pub errors : List ChainError

abbrev pub is_nil {ℓ} : {A : Type ℓ} → List A → Bool
is_nil [] = true
is_nil (x ∷ xs) = false

abbrev pub when : Bool → ChainError → List ChainError → List ChainError
when true e es = e ∷ es
when false e es = es

pub is_nil_iff {ℓ} : {A : Type ℓ} (es : List A) → (is_nil es ≡ true) ↔ (es ≡ [])
is_nil_iff [] = ((λ _. refl), λ _. refl)
is_nil_iff (e ∷ es) = ((λ h. cc), λ h. cc)

module _ {ℓ} {B M : Type ℓ} where
  -- `not all([entry_hash, stored_prev, chain_hash])`
  unfoldable pub is_missing : LedgerRecord B M → Bool
  is_missing r = str_eq r.entry_hash "" || str_eq r.prev_chain_hash "" || str_eq r.chain_hash ""

  -- The loop of `__init__`: the last chain hash, and the count of the records.
  unfoldable pub load : List (Line B M) → HardLedger → HardLedger
  load [] l = l
  load (blank ∷ lines) l = load lines l
  load (garbled ∷ lines) l = load lines l
  load (entry r ∷ lines) l = load lines (record { prev = r.chain_hash; count = l.count + 1 })

  unfoldable pub init : List (Line B M) → HardLedger
  unfolding load
  init file = load file (record { prev = zeros; count = 0 })

module _ {ℓ} {B M : Type ℓ} (sha256 : String → String) (canon : Body B → String) where
  -- What `append` fills in, after the previous hash `prev`.
  unfoldable pub seal : (String → M → M) → ℕ → Body B → M → String → LedgerRecord B M
  seal sign now body metadata prev =
      let entry_hash = sha256 (canon body) in
      let chain_hash = sha256 (concat prev entry_hash) in
      record {
        body = body;
        entry_hash = entry_hash;
        prev_chain_hash = prev;
        chain_hash = chain_hash;
        ts = now;
        metadata = sign chain_hash metadata;
      }

  -- `append`: the record goes to the end of the file, and the object remembers its hash.
  unfoldable pub append :
      (String → M → M)
      → ℕ
      → Body B
      → M
      → HardLedger × List (Line B M)
      → LedgerRecord B M × (HardLedger × List (Line B M))
  unfolding seal
  append sign now body metadata (l, file) =
      let r = seal sign now body metadata l.prev in
      (r, (record { prev = r.chain_hash; count = l.count + 1 }, file ++ entry r ∷ []))

  -- The three tests of a record with all its hash fields.
  unfoldable pub record_errors : ℕ → String → LedgerRecord B M → List ChainError
  record_errors line prev r = when (not (str_eq r.prev_chain_hash prev)) (chain_break line) (
      when (not (str_eq (sha256 (canon r.body)) r.entry_hash)) (entry_mismatch line) (
        when (not (str_eq (sha256 (concat prev r.entry_hash)) r.chain_hash)) (chain_mismatch line)
          []))

  -- The loop of `verify_chain`, from the line number `line` and the hash `prev`: the number of the
  -- entries and the errors, in order.
  unfoldable pub verify_from : ℕ → String → List (Line B M) → ℕ × List ChainError
  unfolding is_missing record_errors
  verify_from line prev [] = (0, [])
  verify_from line prev (blank ∷ lines) = verify_from (suc line) prev lines
  verify_from line prev (garbled ∷ lines) =
      let (n, es) = verify_from (suc line) prev lines in (n + 1, json_parse line ∷ es)
  verify_from line prev (entry r ∷ lines) =
      let skipped = verify_from (suc line) prev lines in
      let checked = verify_from (suc line) r.chain_hash lines in
      if is_missing r
      then (skipped.0 + 1, missing_hash line ∷ skipped.1)
      else (checked.0 + 1, record_errors line prev r ++ checked.1)

  unfoldable pub verify_chain : List (Line B M) → Report
  verify_chain file =
      let (n, es) = verify_from 1 zeros file in record { ok = is_nil es; entries = n; errors = es }
