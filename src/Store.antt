-- ===== src/Store.antt =====
-- core/bbolt_store.go: the keys and rows of the indexed block store, and the writes that a block
-- makes. A database transaction is the list of writes that it performs, in order; the database itself
-- and the JSON form of a block are outside.
pub mod Codec
pub mod Mirror
use cereblix.Prelude.{
  ℕ, zero, suc, ◌+◌, ◌%◌, ◌^◌, Bool, true, false, Option, none, some, List, [], ◌∷◌, ◌++◌, take,
  drop, length, ltb, if◌then◌else◌,
}
use cereblix.Prelude.Bytes.{Bytes, codes, bytes_eq}
use cereblix.Prelude.Text.{be_bytes, be_value}
use cereblix.Prelude.Result.{Result, ok, err}
use cereblix.Types.Crypto.{Crypto}
use cereblix.Types.Tx.{Tx, TxError, is_coinbase, tx_id, from_addr}
use cereblix.Types.Block.{Block, block_hash}
use cereblix.Chain.Views.{HistoryItem}

-- u64be
abbrev pub u64be : ℕ → Bytes
u64be n = be_bytes 8 n

-- u32be, of an int that is cut to 32 bits
abbrev pub u32be : ℕ → Bytes
u32be n = be_bytes 4 (n % 2 ^ 32)

-- txLocBytes
unfoldable pub tx_loc_bytes : ℕ → ℕ → Bytes
tx_loc_bytes height idx = u64be height ++ u32be idx

-- addrTxKey
unfoldable pub addr_tx_key : Bytes → ℕ → ℕ → Bytes
addr_tx_key addr height idx = addr ++ u64be height ++ u32be idx

-- appendLPStr, in front of what follows
unfoldable pub append_lp : Bytes → Bytes → Bytes
append_lp s rest = (length s % 256) ∷ s ++ rest

-- readLPStr
unfoldable pub read_lp : Bytes → Option (Bytes × Bytes)
read_lp [] = none
read_lp (n ∷ b) = if ltb (length b) n then none else some (take n b, drop n b)

-- encodeHistRow
unfoldable pub encode_hist_row : HistoryItem → Bytes
unfolding append_lp
encode_hist_row it =
    u64be it.time
    ++ (u64be it.amount
        ++ (u64be it.fee ++ append_lp it.txid (append_lp it.from (append_lp it.to []))))

abbrev third_string : HistoryItem → Option (Bytes × Bytes) → Option HistoryItem
third_string it none = none
third_string it (some (s, _)) = some (record it { to = s })

abbrev second_string : HistoryItem → Option (Bytes × Bytes) → Option HistoryItem
second_string it none = none
second_string it (some (s, rest)) = third_string (record it { from = s }) (read_lp rest)

abbrev first_string : HistoryItem → Option (Bytes × Bytes) → Option HistoryItem
first_string it none = none
first_string it (some (s, rest)) = second_string (record it { txid = s }) (read_lp rest)

-- the item of the fixed fields
abbrev fixed_fields : Bytes → ℕ → HistoryItem
fixed_fields v height = record {
  txid = [];
  height = height;
  time = be_value (take 8 v);
  from = [];
  to = [];
  amount = be_value (take 8 (drop 8 v));
  fee = be_value (take 8 (drop 8 (drop 8 v)));
}

-- decodeHistRow
unfoldable pub decode_hist_row : Bytes → ℕ → Option HistoryItem
unfolding read_lp
decode_hist_row v height =
    if ltb (length v) 24
    then none
    else first_string (fixed_fields v height) (read_lp (drop 8 (drop 8 (drop 8 v))))

pub data Bucket : Type 0 where
  block_bucket hash_bucket tx_bucket addr_bucket : Bucket

-- A write of a database transaction.
pub data Write : Type 0 where
  put : Bucket → Bytes → Bytes → Write
  delete : Bucket → Bytes → Write

module _ (C : Crypto) where
  abbrev row_of : Block → Tx → Bytes → Bytes
  row_of b t from = encode_hist_row (record {
    txid = tx_id C t;
    height = b.height;
    time = b.time;
    from = from;
    to = t.to;
    amount = t.amount;
    fee = t.fee;
  })

  abbrev transfer_rows : Result TxError Bytes → Block → ℕ → Tx → List Write
  transfer_rows (err _) b i t = []
  transfer_rows (ok from) b i t =
      let own = put addr_bucket (addr_tx_key from b.height i) (row_of b t from) in
      if bytes_eq t.to from
      then own ∷ []
      else own ∷ put addr_bucket (addr_tx_key t.to b.height i) (row_of b t from) ∷ []

  unfoldable pub addr_rows : Block → ℕ → List Tx → List Write
  unfolding encode_hist_row addr_tx_key
  addr_rows b i [] = []
  addr_rows b i (t ∷ ts) =
      (if is_coinbase t
        then put addr_bucket (addr_tx_key t.to b.height i) (row_of b t (codes "coinbase")) ∷ []
        else transfer_rows (from_addr C t) b i t)
      ++ addr_rows b (suc i) ts

  -- putAddrRows
  unfoldable pub put_addr_rows : Block → List Write
  unfolding addr_rows
  put_addr_rows b = addr_rows b 0 b.txs

  unfoldable pub put_tx_rows : Block → ℕ → List Tx → List Write
  unfolding tx_loc_bytes
  put_tx_rows b i [] = []
  put_tx_rows b i (t ∷ ts) =
      put tx_bucket (tx_id C t) (tx_loc_bytes b.height i) ∷ put_tx_rows b (suc i) ts

  -- putBlockTx; `raw` is json.Marshal(b)
  unfoldable pub put_block : Bytes → Block → List Write
  unfolding put_addr_rows put_tx_rows
  put_block raw b =
      put block_bucket (u64be b.height) raw
        ∷ put hash_bucket (block_hash C b) (u64be b.height)
        ∷ put_tx_rows b 0 b.txs
      ++ put_addr_rows b

  abbrev transfer_deletes : Result TxError Bytes → Block → ℕ → Tx → List Write
  transfer_deletes (err _) b i t = []
  transfer_deletes (ok from) b i t =
      let own = delete addr_bucket (addr_tx_key from b.height i) in
      if bytes_eq t.to from
      then own ∷ []
      else own ∷ delete addr_bucket (addr_tx_key t.to b.height i) ∷ []

  unfoldable pub delete_tx_rows : Block → ℕ → List Tx → List Write
  unfolding addr_tx_key
  delete_tx_rows b i [] = []
  delete_tx_rows b i (t ∷ ts) =
      delete tx_bucket (tx_id C t)
        ∷ (if is_coinbase t
            then delete addr_bucket (addr_tx_key t.to b.height i) ∷ []
            else transfer_deletes (from_addr C t) b i t)
      ++ delete_tx_rows b (suc i) ts

  -- deleteBlockTx
  unfoldable pub delete_block : Block → List Write
  unfolding delete_tx_rows
  delete_block b =
      delete block_bucket (u64be b.height)
      ∷ delete hash_bucket (block_hash C b)
      ∷ delete_tx_rows b 0 b.txs
