-- ===== src/Ledger/Writers.antt =====
-- Two ledger objects on one file: each keeps the hash of its own last record.
use rfsn_agent_full.Base.{ℕ, String, ◌≡◌, sym, true, List, [], ◌∷◌, ◌++◌}
use rfsn_agent_full.Ledger.{
  Body, LedgerRecord, Line, blank, garbled, entry, init, append, verify_chain, zeros,
}
use rfsn_agent_full.Ledger.Chain.{IsChain, verify_chain-IsChain}
use Prim.Native.String.{◌++◌ as concat, count}

module _ {ℓ} {B M : Type ℓ} (sha256 : String → String) (canon : Body B → String)
    (digest_length : (s : String) → count (sha256 s) ≡ 64) (sign : String → M → M) where
  last_link :
      (prev : String) (file : List (Line B M)) (r s : LedgerRecord B M)
      → IsChain sha256 canon digest_length prev ((file ++ entry r ∷ []) ++ entry s ∷ [])
      → s.prev_chain_hash ≡ r.chain_hash
  last_link prev [] r s (_, _, _, (_, q, _, _)) = q
  last_link prev (blank ∷ lines) r s h = last_link prev lines r s h
  last_link prev (garbled ∷ lines) r s h = absurd h
  last_link prev (entry x ∷ lines) r s (_, _, _, h) = last_link x.chain_hash lines r s h

  -- Two objects are opened on the file, and then each appends a record.
  unfoldable pub two_writers : List (Line B M) → Body B → Body B → M → M → ℕ → List (Line B M)
  two_writers file b1 b2 m1 m2 now =
      let l = init file in
      let file1 = (append sha256 canon sign now b1 m1 (l, file)).1.1 in
      (append sha256 canon sign now b2 m2 (l, file1)).1.1

  -- With digests of 64 characters, when two ledger objects are opened on one file and each then appends a record, the file passes
  -- `verify_chain` only if the first record's chain hash is the hash in which the file ended before.
  pub verify_chain-two_writers :
      (file : List (Line B M)) (b1 b2 : Body B) (m1 m2 : M) (now : ℕ)
      → (verify_chain sha256 canon (two_writers file b1 b2 m1 m2 now)).ok ≡ true
      → sha256 (concat (init file).prev (sha256 (canon b1))) ≡ (init file).prev
  unfolding append two_writers
  verify_chain-two_writers file b1 b2 m1 m2 now h =
      sym (last_link zeros file _ _ ((verify_chain-IsChain sha256 canon digest_length _).0 h))
