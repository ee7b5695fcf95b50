-- ===== src/Chain/Views.antt =====
-- The read-only views of core/chain.go on the chain that is in memory.
use cereblix.Prelude.{
  ℕ, suc, ◌+◌, ◌-◌, Bool, true, false, ◌&&◌, ◌||◌, Option, none, some, List, [], ◌∷◌, take, drop,
  length, get_elem?, ltb, leb, ◌==◌, if◌then◌else◌,
}
use cereblix.Prelude.Bytes.{Bytes, codes, bytes_eq, bytes_ltb}
use cereblix.Prelude.Map.{Map, lookup}
use cereblix.Types.Crypto.{Crypto}
use cereblix.Types.Tx.{Tx, is_coinbase, tx_id, sender}
use cereblix.Types.Block.{Block, block_hash}
use cereblix.Ledger.{State, Account, get_account, spendable, immature_coinbase}
use cereblix.Ledger.Totals.{AddrTotals, get_totals}
use cereblix.Consensus.Upgrade.{active_at}
use cereblix.Consensus.Fees.{min_fee_for_active, suggest_fee}
use cereblix.Consensus.Target.{epoch_seed_for}
use cereblix.Chain.Validate.{last_block}
use cereblix.Chain.Record.{Chain}

-- Height, of a chain with a block
unfoldable pub height : Chain → ℕ
height c = length c.blocks - 1

-- Tip
unfoldable pub tip : Chain → Option Block
tip c = last_block c.blocks

-- BlockAt
unfoldable pub block_at : Chain → ℕ → Option Block
block_at c h = if leb (length c.blocks) h then none else get_elem? c.blocks h

-- Blocks
unfoldable pub blocks_from : Chain → ℕ → ℕ → List Block
blocks_from c from count =
    let n = length c.blocks in
    let end = if ltb n (from + count) then n else from + count in
    if leb n from then [] else take (end - from) (drop from c.blocks)

-- Account
unfoldable pub account : Chain → Bytes → Account
account c addr = get_account c.state addr

-- SpendableBalance
unfoldable pub spendable_balance : Chain → Bytes → ℕ
spendable_balance c addr =
    spendable (get_account c.state addr).balance (immature_coinbase c.blocks (length c.blocks) addr)

abbrev mined_to : Bytes → List Tx → Bool
mined_to addr [] = false
mined_to addr (t ∷ _) = bytes_eq t.to addr

unfoldable pub count_mined : Bytes → List Block → ℕ
count_mined addr [] = 0
count_mined addr (b ∷ bs) =
    let rest = count_mined addr bs in if mined_to addr b.txs then suc rest else rest

-- MinedBlocks
unfoldable pub mined_blocks : Chain → Bytes → ℕ
unfolding count_mined
mined_blocks c addr = count_mined addr c.blocks

-- AddrTotals
unfoldable pub addr_totals : Chain → Bytes → AddrTotals
addr_totals c addr = get_totals c.totals addr

-- AddrCount
unfoldable pub funded : State → State
funded [] = []
funded ((addr, a) ∷ st) = let rest = funded st in if ltb 0 a.balance then (addr, a) ∷ rest else rest

unfoldable pub addr_count : Chain → ℕ
unfolding funded
addr_count c = length (funded c.state)

-- the order of the rich list
unfoldable pub richer : Bytes × Account → Bytes × Account → Bool
richer (k, a) (j, b) = ltb b.balance a.balance || (a.balance == b.balance && bytes_ltb k j)

unfoldable pub insert_rich : Bytes × Account → State → State
insert_rich e [] = e ∷ []
insert_rich e (f ∷ fs) = let rest = insert_rich e fs in if richer f e then f ∷ rest else e ∷ f ∷ fs

unfoldable pub sort_rich : State → State
unfolding insert_rich
sort_rich [] = []
sort_rich (e ∷ es) = insert_rich e (sort_rich es)

-- RichList, at an offset that is not negative
unfoldable pub rich_list : Chain → ℕ → ℕ → State
unfolding funded sort_rich
rich_list c n offset =
    let rows = sort_rich (funded c.state) in
    let page = drop offset rows in
    if leb (length rows) offset then [] else if ltb 0 n then take n page else page

-- SuggestedFee and FeeFloor, from the memo of the fee market's height
abbrev fee_active : Chain → Bool
fee_active c = active_at c.caches.fee_act (length c.blocks)

unfoldable pub pending_fees : Map Tx → List ℕ
pending_fees [] = []
pending_fees ((_, t) ∷ m) = t.fee ∷ pending_fees m

-- the order of MempoolTxs
unfoldable pub before : Crypto → Tx → Tx → Bool
before C t u =
    if t.nonce == u.nonce
    then (if t.fee == u.fee then bytes_ltb (tx_id C t) (tx_id C u) else ltb u.fee t.fee)
    else ltb t.nonce u.nonce

-- A confirmed transaction, as History shows it.
pub record HistoryItem : Type 0 where
  pub txid : Bytes
  pub height : ℕ
  pub time : ℕ
  pub from : Bytes
  pub to : Bytes
  pub amount : ℕ
  pub fee : ℕ

-- Where a transaction is, as FindTx shows it.
pub record TxLocation : Type 0 where
  pub found : Bool
  pub pending : Bool
  pub txid : Bytes
  pub height : ℕ
  pub block_hash : Bytes
  pub time : ℕ
  pub from : Bytes
  pub to : Bytes
  pub amount : ℕ
  pub fee : ℕ
  pub nonce : ℕ
  pub coinbase : Bool

module _ (C : Crypto) where
  unfoldable pub fee_floor_now : Chain → ℕ
  fee_floor_now c = min_fee_for_active C c.blocks (fee_active c)

  unfoldable pub suggested_fee : Chain → ℕ
  unfolding pending_fees fee_floor_now
  suggested_fee c =
      if fee_active c
      then suggest_fee (pending_fees c.pool.mempool) (fee_floor_now c)
      else fee_floor_now c

  unfoldable pub insert_pending : Tx → List Tx → List Tx
  insert_pending t [] = t ∷ []
  insert_pending t (u ∷ us) =
      let rest = insert_pending t us in if before C u t then u ∷ rest else t ∷ u ∷ us

  -- sortedMempoolLocked
  unfoldable pub sorted_mempool : Map Tx → List Tx
  unfolding insert_pending
  sorted_mempool [] = []
  sorted_mempool ((_, t) ∷ m) = insert_pending t (sorted_mempool m)

  -- EpochSeedForNext
  unfoldable pub epoch_seed_for_next : Chain → Bytes
  epoch_seed_for_next c = epoch_seed_for C c.blocks (length c.blocks)

  -- BlockByHash, on the blocks in memory
  unfoldable pub find_block : Bytes → List Block → Option Block
  find_block hash [] = none
  find_block hash (b ∷ bs) = if bytes_eq (block_hash C b) hash then some b else find_block hash bs

  abbrev shown_sender : Tx → Bytes
  shown_sender t = if is_coinbase t then codes "coinbase" else sender C t

  unfoldable pub history_item : Block → Tx → HistoryItem
  history_item b t = record {
    txid = tx_id C t;
    height = b.height;
    time = b.time;
    from = shown_sender t;
    to = t.to;
    amount = t.amount;
    fee = t.fee;
  }

  -- txToLocation
  unfoldable pub tx_to_location : Tx → TxLocation
  tx_to_location t = record {
    found = true;
    pending = false;
    txid = tx_id C t;
    height = 0;
    block_hash = [];
    time = 0;
    from = shown_sender t;
    to = t.to;
    amount = t.amount;
    fee = t.fee;
    nonce = t.nonce;
    coinbase = is_coinbase t;
  }

  abbrev in_block : Block → Tx → TxLocation
  in_block b t = record (tx_to_location t) {
    height = b.height;
    block_hash = block_hash C b;
    time = b.time;
  }

  unfoldable pub find_in_txs : Bytes → Block → List Tx → Option TxLocation
  unfolding tx_to_location
  find_in_txs id b [] = none
  find_in_txs id b (t ∷ ts) =
      if bytes_eq (tx_id C t) id then some (in_block b t) else find_in_txs id b ts

  -- the walk of FindTx from the tip down: what a later block finds comes first
  unfoldable pub find_in_blocks : Bytes → List Block → Option TxLocation
  unfolding find_in_txs
  find_in_blocks id [] = none
  find_in_blocks id (b ∷ bs) =
      let later = find_in_blocks id bs in
      elim later [ some loc ↦ some loc | none ↦ find_in_txs id b b.txs ]

  unfoldable pub not_found : Bytes → TxLocation
  not_found id = record {
    found = false;
    pending = false;
    txid = id;
    height = 0;
    block_hash = [];
    time = 0;
    from = [];
    to = [];
    amount = 0;
    fee = 0;
    nonce = 0;
    coinbase = false;
  }

  -- FindTx, without a store
  unfoldable pub find_tx : Chain → Bytes → TxLocation
  unfolding find_in_blocks not_found lookup
  find_tx c id = elim (find_in_blocks id c.blocks) [
    | some loc ↦ loc
    | none ↦ elim (lookup id c.pool.mempool) [
      | some t ↦ record (tx_to_location t) { pending = true }
      | none ↦ not_found id
    ]
  ]
