-- ===== src/Chain/Preverify.antt =====
-- PreVerifyPoW, PreVerifySigs and LoadMempool of core/chain.go and core/mempool_persist.go: the work
-- that is done outside the chain's lock fills the memo fields that validateBlock reads.
use cereblix.Prelude.{
  ℕ, suc, Bool, true, false, ◌||◌, Option, none, some, List, [], ◌∷◌, ◌++◌, take, length, ltb, ◌==◌,
  if◌then◌else◌, leb,
}
use cereblix.Prelude.Bytes.{Bytes}
use cereblix.Prelude.Text.{hex_encode}
use cereblix.Prelude.Result.{Result, ok, err}
use cereblix.Types.Crypto.{Crypto}
use cereblix.Types.Tx.{Tx, TxError, is_coinbase, tx_id, check_sig_at}
use cereblix.Types.Block.{Block, header_bytes, target_int, hash_meets_target, block_hash}
use cereblix.Consensus.Target.{epoch_seed_for}
use cereblix.Chain.Caches.{pow_verified, sig_pre_verified}
use cereblix.Chain.Record.{Chain}
use cereblix.Chain.Admit.{add_tx}

abbrev pow_ok_max : ℕ
pow_ok_max = 65536

abbrev sig_ok_max : ℕ
sig_ok_max = 131072

abbrev is_ok : Result TxError (Unit {0}) → Bool
is_ok (ok _) = true
is_ok (err _) = false

unfoldable pub insert_nonce : Tx → List Tx → List Tx
insert_nonce t [] = t ∷ []
insert_nonce t (u ∷ us) = if leb t.nonce u.nonce then t ∷ u ∷ us else u ∷ insert_nonce t us

-- sort.Slice by nonce
unfoldable pub sort_by_nonce : List Tx → List Tx
unfolding insert_nonce
sort_by_nonce [] = []
sort_by_nonce (t ∷ ts) = insert_nonce t (sort_by_nonce ts)

module _ (C : Crypto) where
  abbrev meets : Option ℕ → Bytes → Block → Bool
  meets none seed b = false
  meets (some got) seed b = hash_meets_target (C.nm_hash seed (header_bytes b) b.height) got

  -- one block of PreVerifyPoW
  unfoldable pub pre_verify_block : List Block → Block → List (Bytes × Bytes) → List (Bytes × Bytes)
  pre_verify_block prefix b keys =
      let seed = epoch_seed_for C prefix b.height in
      let key : Bytes × Bytes = (hex_encode seed, block_hash C b) in
      if pow_verified key.0 key.1 keys
      then keys
      else if meets (target_int b) seed b
      then key ∷ keys
      else keys

  -- the loop of PreVerifyPoW, on the growing prefix
  unfoldable pub pre_verify_blocks :
      ℕ → List Block → List Block → List (Bytes × Bytes) → List (Bytes × Bytes)
  unfolding pre_verify_block
  pre_verify_blocks height prefix [] keys = keys
  pre_verify_blocks height prefix (b ∷ bs) keys =
      let rest =
        pre_verify_blocks (suc height) (prefix ++ b ∷ []) bs (pre_verify_block prefix b keys) in
      if b.height == height then rest else keys

  -- PreVerifyPoW
  unfoldable pub pre_verify_pow : ℕ → List Block → Chain → Chain
  unfolding pre_verify_blocks
  pre_verify_pow start nb c =
      let keys = if ltb pow_ok_max (length c.caches.pow_ok) then [] else c.caches.pow_ok in
      if start == 0 || (length nb == 0 || ltb (length c.blocks) start) then c else record c {
        caches = record c.caches { pow_ok = pre_verify_blocks start (take start c.blocks) nb keys };
      }

  -- the signatures of one block
  unfoldable pub pre_verify_txs : ℕ → List Tx → List (Bytes × ℕ) → List (Bytes × ℕ)
  pre_verify_txs height [] keys = keys
  pre_verify_txs height (t ∷ ts) keys =
      let id = tx_id C t in
      pre_verify_txs height ts (
        if is_coinbase t
        then keys
        else if sig_pre_verified keys height id
        then keys
        else if is_ok (check_sig_at C t height)
        then (id, height) ∷ keys
        else keys)

  unfoldable pub pre_verify_sigs_from : ℕ → List Block → List (Bytes × ℕ) → List (Bytes × ℕ)
  unfolding pre_verify_txs
  pre_verify_sigs_from height [] keys = keys
  pre_verify_sigs_from height (b ∷ bs) keys =
      let rest = pre_verify_sigs_from (suc height) bs (pre_verify_txs height b.txs keys) in
      if b.height == height then rest else keys

  -- PreVerifySigs
  unfoldable pub pre_verify_sigs : ℕ → List Block → Chain → Chain
  unfolding pre_verify_sigs_from
  pre_verify_sigs start nb c =
      let keys = if ltb sig_ok_max (length c.caches.sig_ok) then [] else c.caches.sig_ok in
      if start == 0 || length nb == 0
      then c
      else record c { caches = record c.caches { sig_ok = pre_verify_sigs_from start nb keys } }

  unfoldable pub add_each : List Tx → Chain → Chain
  unfolding add_tx
  add_each [] c = c
  add_each (t ∷ ts) c = add_each ts (add_tx C t c).1

  -- LoadMempool, on the transactions that the file holds
  unfoldable pub load_mempool : List Tx → Chain → Chain
  unfolding add_each sort_by_nonce
  load_mempool txs c = add_each (sort_by_nonce txs) c
