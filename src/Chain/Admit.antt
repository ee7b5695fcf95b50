-- ===== src/Chain/Admit.antt =====
-- AddTx and validateMempoolTxLocked of core/chain.go: admission to the mempool.
pub mod Frame
pub mod Replace
use cereblix.Prelude.{
  ℕ, ◌+◌, ◌/◌, ◌<◌, Bool, true, false, not, ◌&&◌, Option, none, some, List, [], ◌∷◌, length, ltb,
  leb, ◌==◌, if◌then◌else◌,
}
use cereblix.Prelude.Bytes.{Bytes, bytes_eq}
use cereblix.Prelude.Word.{add64}
use cereblix.Prelude.Map.{Map, lookup}
use cereblix.Prelude.Result.{Result, ok, err}
use cereblix.Prelude.Exec.{Exec, lift, reject_if, ◌>>=◌, ◌>>◌}
use cereblix.Types.Params.{min_fee_height, max_mempool_nonce_gap, max_mempool_txns_per_sender}
use cereblix.Types.Crypto.{Crypto}
use cereblix.Types.Tx.{Tx, TxError, is_coinbase, tx_id, from_addr, sender, check_sig_at}
use cereblix.Ledger.{get_account, spendable, immature_coinbase}
use cereblix.Chain.Caches.{Caches, min_fee_for_c}
use cereblix.Chain.Pool.{Pool, mp_add, mp_del, of_sender}
use cereblix.Chain.Record.{Chain}

pub data PoolError : Type 0 where
  coinbase_in_mempool already_in_mempool replacement_fee_too_low mempool_full : PoolError
  bad_sig : TxError → PoolError
  fee_too_low nonce_too_low nonce_too_far sender_full insufficient_pending : PoolError
  insufficient_queued : PoolError

abbrev as_pool_error : Result TxError (Unit {0}) → Result PoolError (Unit {0})
as_pool_error (ok u) = ok u
as_pool_error (err e) = err (bad_sig e)

-- The sender's queued transactions, from the account's nonce: the next executable nonce, what the
-- executable run spends, and the number held.
unfoldable pub walk_sender : ℕ → ℕ → ℕ → List Tx → ℕ × ℕ × ℕ
walk_sender nonce spent held [] = (nonce, spent, held)
walk_sender nonce spent held (m ∷ ms) =
    if m.nonce == nonce
    then walk_sender (add64 nonce 1) (add64 spent (add64 m.amount m.fee)) (held + 1) ms
    else walk_sender nonce spent (held + 1) ms

abbrev pub pool_min_fee : Crypto → Exec Chain PoolError ℕ
pool_min_fee C c =
    let (fee, caches') = min_fee_for_c C c.limits.max_reorg_depth c.blocks c.caches in
    if leb min_fee_height (length c.blocks)
    then (ok fee, record c { caches = caches' })
    else (ok 0, c)

-- the fee that a replacement of `m` has to pay
unfoldable pub replacement_min_fee : ℕ → ℕ
replacement_min_fee old =
    let bumped = add64 old (old / 10) in if leb bumped old then add64 old 1 else bumped

module _ (C : Crypto) where
  -- the outcome of the checks after the fee minimum
  unfoldable pub queue_verdict : Chain → Tx → Result PoolError (Unit {0})
  unfolding walk_sender
  queue_verdict c t =
      let from = sender C t in
      let acc = get_account c.state from in
      let (nonce, spent, held) = walk_sender acc.nonce 0 0 (of_sender c.pool from) in
      let avail = spendable acc.balance (immature_coinbase c.blocks (length c.blocks) from) in
      if ltb t.nonce acc.nonce
      then err nonce_too_low
      else if ltb (add64 nonce max_mempool_nonce_gap) t.nonce
      then err nonce_too_far
      else if leb max_mempool_txns_per_sender held
      then err sender_full
      else if t.nonce == nonce
      then (if ltb avail (add64 (add64 spent t.amount) t.fee)
          then err insufficient_pending
          else ok tt)
      else if ltb avail (add64 t.amount t.fee)
      then err insufficient_queued
      else ok tt

  -- State.get enters the sender's account
  abbrev pub touch : Tx → Chain → Chain
  touch t c = record c { touched = sender C t ∷ c.touched }

  -- the checks after the fee minimum
  unfoldable pub check_queue : Tx → Exec Chain PoolError (Unit {0})
  unfolding queue_verdict
  check_queue t c = (queue_verdict c t, touch t c)

  -- validateMempoolTxLocked
  unfoldable pub validate_mempool_tx : Tx → Exec Chain PoolError (Unit {0})
  unfolding check_queue min_fee_for_c
  validate_mempool_tx t = do
    height ← λ c. (ok (length c.blocks), c)
    lift (as_pool_error (check_sig_at C t height))
    minfee ← pool_min_fee C
    reject_if (ltb t.fee minfee) fee_too_low
    check_queue t

  abbrev pub same_slot : Result TxError Bytes → Bytes → Bool
  same_slot (err _) from = bytes_eq [] from
  same_slot (ok a) from = bytes_eq a from

  -- the pending transaction with the sender and nonce of `t`, with its id
  unfoldable pub find_rival : Bytes → ℕ → Map Tx → Option (Bytes × Tx)
  find_rival from nonce [] = none
  find_rival from nonce ((id, m) ∷ rest) =
      if m.nonce == nonce && same_slot (from_addr C m) from
      then some (id, m)
      else find_rival from nonce rest

  abbrev pub rival_of : Result TxError Bytes → Tx → Map Tx → Option (Bytes × Tx)
  rival_of (err _) t pending = none
  rival_of (ok from) t pending = find_rival from t.nonce pending

  abbrev with_pool : Chain → Pool → Chain
  with_pool c p = record c { pool = p }

  -- the end of AddTx: the transaction enters if it is valid, or `restore` is done
  abbrev pub add_if_valid :
      Tx → (Pool → Pool) → Result PoolError (Unit {0}) × Chain → Result PoolError (Unit {0}) × Chain
  add_if_valid t restore (ok u, c) = (ok u, with_pool c (mp_add C t c.pool))
  add_if_valid t restore (err e, c) = (err e, with_pool c (restore c.pool))

  abbrev pub add_beside : Tx → Option (Bytes × Tx) → Exec Chain PoolError (Unit {0})
  add_beside t none c =
      if ltb 10000 (length c.pool.mempool)
      then (err mempool_full, c)
      else add_if_valid t (λ p. p) (validate_mempool_tx t c)
  add_beside t (some (id, m)) c =
      if ltb t.fee (replacement_min_fee m.fee)
      then (err replacement_fee_too_low, c)
      else add_if_valid t (mp_add C m) (validate_mempool_tx t (with_pool c (mp_del C id c.pool)))

  abbrev pub is_found : Option Tx → Bool
  is_found none = false
  is_found (some _) = true

  -- AddTx
  unfoldable pub add_tx : Tx → Exec Chain PoolError (Unit {0})
  unfolding validate_mempool_tx find_rival replacement_min_fee mp_add mp_del lookup
  add_tx t c =
      if is_coinbase t
      then (err coinbase_in_mempool, c)
      else if is_found (lookup (tx_id C t) c.pool.mempool)
      then (err already_in_mempool, c)
      else add_beside t (rival_of (from_addr C t) t c.pool.mempool) c
