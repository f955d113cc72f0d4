-- ===== src/Consensus.antt =====
-- services/consensus/deterministic_consensus.py: the log of a Raft-like node.
--
-- `prev_index` is -1 or the index of an entry: the model has `none` for -1. The content of an entry
-- and the name of a leader are of any type, for they are never read.
pub mod Match
use rfsn_agent_full.Base.{
  ltb, leb, ◌==◌, if◌then◌else◌, ltb→lt, lt→ltb, leb→le, bool_tests, Bool-cases, Option-cases,
  is_some, length, get_elem?, take, drop, last_n, any, all, All, length-append, length-drop,
  length-take-le, length-last_n, All-append, ℕ, zero, suc, ◌+◌, ◌-◌, ◌*◌, ◌/◌, ◌%◌, ◌^◌, ◌≤◌, ◌<◌,
  min, max, String, ◌≡◌, refl, sym, ap, ◌∙◌, ◌≢◌, ◌↔◌, ◌⊎◌, inl, inr, Bool, true, false, not, ◌&&◌,
  ◌||◌, Option, none, some, List, [], ◌∷◌, ◌++◌, map, arith, str_eq, eq_iff, eq_refl,
}

-- `prev_index + 1`
abbrev pub start_of : Option ℕ → ℕ
start_of none = 0
start_of (some prev_index) = prev_index + 1

module _ {ℓ} (C : Type ℓ) where
  pub record LogEntry : Type ℓ where
    pub term : ℕ
    pub index : ℕ
    pub content : C
    pub leader_id : String

  pub record ConsensusLog : Type ℓ where
    pub node_id : String
    pub current_term : ℕ
    pub log : List LogEntry

module _ {ℓ} {C : Type ℓ} where
  unfoldable pub init : String → ConsensusLog C
  init node_id = record { node_id = node_id; current_term = 0; log = [] }

  term_matches : Option (LogEntry C) → ℕ → Bool
  term_matches none prev_term = false
  term_matches (some e) prev_term = e.term == prev_term

  -- The two tests of `append`: the entry before exists and has the term of the leader's.
  unfoldable pub is_consistent : List (LogEntry C) → Option ℕ → ℕ → Bool
  unfolding term_matches
  is_consistent log none prev_term = true
  is_consistent log (some prev_index) prev_term = term_matches (get_elem? log prev_index) prev_term

  -- One round of the loop, at the index `idx`.
  place_over : Option (LogEntry C) → ℕ → LogEntry C → List (LogEntry C) → List (LogEntry C)
  place_over none idx entry log = log ++ entry ∷ []
  place_over (some old) idx entry log =
      if old.term == entry.term then log else take idx log ++ entry ∷ []

  pub place : ℕ → LogEntry C → List (LogEntry C) → List (LogEntry C)
  unfolding place_over
  place idx entry log = place_over (get_elem? log idx) idx entry log

  unfoldable pub place_all : ℕ → List (LogEntry C) → List (LogEntry C) → List (LogEntry C)
  place_all idx [] log = log
  place_all idx (entry ∷ entries) log = place_all (idx + 1) entries (place idx entry log)

  unfoldable pub append : Option ℕ → ℕ → List (LogEntry C) → ConsensusLog C → ConsensusLog C × Bool
  append prev_index prev_term entries c =
      if is_consistent c.log prev_index prev_term
      then (record c { log = place_all (start_of prev_index) entries c.log }, true)
      else (c, false)

  unfoldable pub propose : C → ConsensusLog C → ConsensusLog C × LogEntry C
  propose content c =
      let entry : LogEntry C = record {
        term = c.current_term;
        index = length c.log;
        content = content;
        leader_id = c.node_id;
      } in
      (record c { log = c.log ++ entry ∷ [] }, entry)
