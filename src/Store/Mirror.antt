-- ===== src/Store/Mirror.antt =====
-- A truncation undoes an append: deleteBlockTx of core/bbolt_store.go deletes what putBlockTx wrote.
use cereblix.Prelude.{
  ℕ, suc, ◌≡◌, refl, sym, ◌∙◌, ap, Bool, true, false, inl, inr, List, [], ◌∷◌, ◌++◌, if◌then◌else◌,
  Bool-cases,
}
use mathlib.Core.List.{append-nil}
use cereblix.Prelude.Bytes.{Bytes, bytes_eq}
use cereblix.Prelude.Result.{Result-cases}
use cereblix.Types.Crypto.{Crypto}
use cereblix.Types.Tx.{Tx, is_coinbase, from_addr}
use cereblix.Types.Block.{Block, block_hash}
use cereblix.Store.{
  Bucket, block_bucket, hash_bucket, tx_bucket, addr_bucket, Write, put, delete, u64be, addr_tx_key,
  addr_rows, put_addr_rows, put_tx_rows, put_block, delete_tx_rows, delete_block,
}

unfoldable pub same_bucket : Bucket → Bucket → Bool
same_bucket block_bucket block_bucket = true
same_bucket hash_bucket hash_bucket = true
same_bucket tx_bucket tx_bucket = true
same_bucket addr_bucket addr_bucket = true
same_bucket _ _ = false

-- the keys of a bucket that a transaction puts, in order
unfoldable pub keys_put : Bucket → List Write → List Bytes
unfolding same_bucket
keys_put k [] = []
keys_put k (put j key v ∷ ws) =
    let rest = keys_put k ws in if same_bucket k j then key ∷ rest else rest
keys_put k (delete j key ∷ ws) = keys_put k ws

-- the keys of a bucket that it deletes, in order
unfoldable pub keys_deleted : Bucket → List Write → List Bytes
unfolding same_bucket
keys_deleted k [] = []
keys_deleted k (put j key v ∷ ws) = keys_deleted k ws
keys_deleted k (delete j key ∷ ws) =
    let rest = keys_deleted k ws in if same_bucket k j then key ∷ rest else rest

keys_put-append :
    (k : Bucket) (xs ys : List Write) → keys_put k (xs ++ ys) ≡ keys_put k xs ++ keys_put k ys
unfolding keys_put
keys_put-append k [] ys = refl
keys_put-append k (put j key v ∷ xs) ys = elim (Bool-cases (same_bucket k j)) [
  | inl same ↦ rw same (ap (λ l. key ∷ l) (keys_put-append k xs ys))
  | inr other ↦ rw other (keys_put-append k xs ys)
]
keys_put-append k (delete j key ∷ xs) ys = keys_put-append k xs ys

same_bucket_addr : same_bucket addr_bucket tx_bucket ≡ false
unfolding same_bucket
same_bucket_addr = refl

module _ (C : Crypto) (b : Block) where
  -- Every write of a row goes to its bucket.
  rows_elsewhere :
      (k : Bucket) (i : ℕ) (ts : List Tx)
      → same_bucket k addr_bucket ≡ false
      → keys_put k (addr_rows C b i ts) ≡ []
  unfolding addr_rows keys_put
  rows_elsewhere k i [] other = refl
  rows_elsewhere k i (t ∷ ts) other = elim (Bool-cases (is_coinbase t)) [
    | inl mined ↦ rw (mined, other) (rows_elsewhere k (suc i) ts other)
    | inr plain ↦ elim (Result-cases (from_addr C t)) [
      | inr (f, e) ↦ rw (plain, e) (rows_elsewhere k (suc i) ts other)
      | inl (from, e) ↦ elim (Bool-cases (bytes_eq t.to from)) [
        | inl self ↦ rw (plain, e, self, other) (rows_elsewhere k (suc i) ts other)
        | inr two ↦ rw (plain, e, two, other) (rows_elsewhere k (suc i) ts other)
      ]
    ]
  ]

  ids_elsewhere :
      (k : Bucket) (i : ℕ) (ts : List Tx)
      → same_bucket k tx_bucket ≡ false
      → keys_put k (put_tx_rows C b i ts) ≡ []
  unfolding put_tx_rows keys_put
  ids_elsewhere k i [] other = refl
  ids_elsewhere k i (t ∷ ts) other = rw other (ids_elsewhere k (suc i) ts other)

  -- the deletes of a transaction's rows, and those of its id
  deleted_rows :
      (i : ℕ) (ts : List Tx)
      → keys_deleted addr_bucket (delete_tx_rows C b i ts)
        ≡ keys_put addr_bucket (addr_rows C b i ts)
  unfolding delete_tx_rows addr_rows keys_deleted keys_put same_bucket
  deleted_rows i [] = refl
  deleted_rows i (t ∷ ts) = elim (Bool-cases (is_coinbase t)) [
    | inl mined ↦ rw mined (ap (λ l. addr_tx_key t.to b.height i ∷ l) (deleted_rows (suc i) ts))
    | inr plain ↦ elim (Result-cases (from_addr C t)) [
      | inr (f, e) ↦ rw (plain, e) (deleted_rows (suc i) ts)
      | inl (from, e) ↦ elim (Bool-cases (bytes_eq t.to from)) [
        | inl self ↦
            rw (plain, e, self)
              (ap (λ l. addr_tx_key from b.height i ∷ l) (deleted_rows (suc i) ts))
        | inr two ↦
            rw (plain, e, two)
              (ap (λ l. addr_tx_key from b.height i ∷ addr_tx_key t.to b.height i ∷ l)
                (deleted_rows (suc i) ts))
      ]
    ]
  ]

  deleted_ids :
      (k : Bucket) (i : ℕ) (ts : List Tx)
      → same_bucket k addr_bucket ≡ false
      → keys_deleted k (delete_tx_rows C b i ts) ≡ keys_put k (put_tx_rows C b i ts)
  unfolding delete_tx_rows put_tx_rows keys_deleted keys_put
  deleted_ids k i [] other = refl
  deleted_ids k i (t ∷ ts) other = elim (Bool-cases (is_coinbase t)) [
    | inl mined ↦ rw (mined, other, deleted_ids k (suc i) ts other) refl
    | inr plain ↦ elim (Result-cases (from_addr C t)) [
      | inr (f, e) ↦ rw (plain, e, deleted_ids k (suc i) ts other) refl
      | inl (from, e) ↦ elim (Bool-cases (bytes_eq t.to from)) [
        | inl self ↦ rw (plain, e, self, other, deleted_ids k (suc i) ts other) refl
        | inr two ↦ rw (plain, e, two, other, deleted_ids k (suc i) ts other) refl
      ]
    ]
  ]

  rows_of_others :
      (k : Bucket)
      → same_bucket k addr_bucket ≡ false
      → keys_deleted k (delete_tx_rows C b 0 b.txs)
        ≡ keys_put k (put_tx_rows C b 0 b.txs ++ addr_rows C b 0 b.txs)
  rows_of_others k other =
      rw
        (
          keys_put-append k (put_tx_rows C b 0 b.txs) (addr_rows C b 0 b.txs),
          rows_elsewhere k 0 b.txs other,
        )
        (deleted_ids k 0 b.txs other ∙ sym (append-nil _))

  rows_of_addr :
      keys_deleted addr_bucket (delete_tx_rows C b 0 b.txs)
      ≡ keys_put addr_bucket (put_tx_rows C b 0 b.txs ++ addr_rows C b 0 b.txs)
  rows_of_addr =
      rw
        (
          keys_put-append addr_bucket (put_tx_rows C b 0 b.txs) (addr_rows C b 0 b.txs),
          ids_elsewhere addr_bucket 0 b.txs same_bucket_addr,
        )
        (deleted_rows 0 b.txs)

  -- In every bucket, deleteBlockTx deletes exactly the keys that putBlockTx puts for the same block,
  -- in the same order.
  pub delete-put_block :
      (k : Bucket) (raw : Bytes)
      → keys_deleted k (delete_block C b) ≡ keys_put k (put_block C raw b)
  unfolding delete_block put_block put_addr_rows keys_deleted keys_put same_bucket
  delete-put_block block_bucket raw =
      ap (λ l. u64be b.height ∷ l) (rows_of_others block_bucket refl)
  delete-put_block hash_bucket raw = ap (λ l. block_hash C b ∷ l) (rows_of_others hash_bucket refl)
  delete-put_block tx_bucket raw = rows_of_others tx_bucket refl
  delete-put_block addr_bucket raw = rows_of_addr
