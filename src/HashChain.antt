-- ===== src/HashChain.antt =====
-- rfsn_kernel/ledger_chain.py: a hash chain of dictionaries.
--
-- A value of a dictionary is a number, a text or any other JSON value `J`. SHA-256 and the canonical
-- JSON text of a dictionary are parameters; a file is what `json.load` reads in it.
pub mod Verified
use rfsn_agent_full.Base.{
  ltb, leb, ◌==◌, if◌then◌else◌, ltb→lt, lt→ltb, leb→le, bool_tests, Bool-cases, if_both,
  Option-cases, is_some, str_eq_of, of_str_eq, &&_true, length, get_elem?, take, drop, last_n, any,
  all, All, length-append, length-drop, length-take-le, length-last_n, All-append,
  get_elem?-append_left, get_elem?-append_length, get_elem?-take, length-take, get_elem?-none,
  get_elem?-some, ℕ, zero, suc, ◌+◌, ◌-◌, ◌*◌, ◌/◌, ◌%◌, ◌^◌, ◌≤◌, ◌<◌, min, max, String, ◌≡◌, refl,
  sym, ap, ◌∙◌, ◌≢◌, ◌↔◌, ◌⊎◌, inl, inr, Bool, true, false, not, ◌&&◌, ◌||◌, Option, none, some,
  List, [], ◌∷◌, ◌++◌, map, arith, str_eq, eq_iff, eq_refl,
}
use Prim.Native.String.{◌++◌ as concat}
use rfsn_agent_full.Base.Dict.{Dict, get, put}

pub data Value {ℓ} (J : Type ℓ) : Type ℓ where
  number : ℕ → Value J
  text : String → Value J
  other : J → Value J

abbrev pub Entry {ℓ} : Type ℓ → Type ℓ
Entry J = Dict (Value J)

-- The keys that the chain adds.
abbrev pub is_reserved : String → Bool
is_reserved k = str_eq k "_chain_index" || str_eq k "_chain_hash" || str_eq k "_prev_hash"

pub data Reason : Type 0 where
  prev_mismatch content_tampered : Reason

-- The answer of `verify`: the length, and the first invalid index with the reason.
pub record Report : Type 0 where
  pub ok : Bool
  pub length_of : ℕ
  pub first_invalid : Option (ℕ × Reason)

module _ {ℓ} {J : Type ℓ} where
  -- `value == text` for a value that may be missing
  abbrev pub is_text : Option (Value J) → String → Bool
  is_text (some (text s)) t = str_eq s t
  is_text _ t = false

  -- The dictionary without the keys of the chain.
  unfoldable pub clean : Entry J → Entry J
  clean [] = []
  clean ((k, v) ∷ d) = let rest = clean d in if is_reserved k then rest else (k, v) ∷ rest

  -- The hash of an entry, if it is a text, and that of the last entry.
  abbrev pub hash_in : Option (Value J) → Option String
  hash_in (some (text h)) = some h
  hash_in _ = none

  unfoldable pub last_hash : String → List (Entry J) → Option String
  last_hash prev [] = some prev
  last_hash prev (e ∷ []) = hash_in (get e "_chain_hash")
  last_hash prev (e ∷ f ∷ es) = last_hash prev (f ∷ es)

module _ {ℓ} (J : Type ℓ) where
  -- `LedgerChain`
  pub record LedgerChain : Type ℓ where
    pub entries : List (Entry J)
    pub seed : String
    pub prev_hash : String

  -- The object that `save` writes; `load` takes a default for a key that is missing.
  pub record ChainFile : Type ℓ where
    pub seed : Option String
    pub entries : Option (List (Entry J))

module _ {ℓ} {J : Type ℓ} (sha256 : String → String) (canon : Entry J → String) where
  unfoldable pub init : String → LedgerChain J
  init seed = record { entries = []; seed = seed; prev_hash = sha256 seed }

  -- `_entry_hash`
  unfoldable pub entry_hash : Entry J → String → String
  entry_hash entry prev = sha256 (concat prev (concat "|" (canon entry)))

  -- The dictionary that `append` stores.
  unfoldable pub chained : Entry J → ℕ → String → Entry J
  chained entry index prev =
      put (put (put entry "_chain_index" (number index)) "_prev_hash" (text prev)) "_chain_hash"
        (text (entry_hash entry prev))

  unfoldable pub append : Entry J → LedgerChain J → LedgerChain J × Entry J
  append entry c =
      let e = chained entry (length c.entries) c.prev_hash in
      (record c { entries = c.entries ++ e ∷ []; prev_hash = entry_hash entry c.prev_hash }, e)

  -- The loop of `verify`, from the index `i` and the hash `prev`.
  unfoldable pub verify_from : ℕ → String → List (Entry J) → Option (ℕ × Reason)
  verify_from i prev [] = none
  verify_from i prev (e ∷ es) =
      let expected = entry_hash (clean e) prev in
      let rest = verify_from (suc i) expected es in
      if not (is_text (get e "_prev_hash") prev)
      then some (i, prev_mismatch)
      else (if not (is_text (get e "_chain_hash") expected)
          then some (i, content_tampered)
          else rest)

  unfoldable pub verify : LedgerChain J → Report
  verify c =
      let invalid = verify_from 0 (sha256 c.seed) c.entries in
      record { ok = not (is_some invalid); length_of = length c.entries; first_invalid = invalid }

  -- `save`
  unfoldable pub save : LedgerChain J → ChainFile J
  save c = record { seed = some c.seed; entries = some c.entries }

  or_genesis : Option String → String
  or_genesis none = "GENESIS"
  or_genesis (some s) = s

  or_empty : Option (List (Entry J)) → List (Entry J)
  or_empty none = []
  or_empty (some es) = es

  with_head : String → List (Entry J) → Option String → Option (LedgerChain J)
  with_head seed entries none = none
  with_head seed entries (some h) = some (record { entries = entries; seed = seed; prev_hash = h })

  -- `load`: none is the `KeyError` of a last entry without its hash, which is taken to be a text.
  unfoldable pub load : ChainFile J → Option (LedgerChain J)
  unfolding last_hash or_genesis or_empty with_head
  load file =
      let seed = or_genesis file.seed in
      let entries = or_empty file.entries in
      with_head seed entries (last_hash (sha256 seed) entries)
