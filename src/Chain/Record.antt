-- ===== src/Chain/Record.antt =====
-- The fields of `Chain` in core/chain.go, what `rebuildDerived` computes from the blocks, and the
-- per-address index. Locks are held across each operation, so an operation is one step. `announced`
-- lists the blocks that OnNewBlock was called with, the last first. State.get enters an empty account
-- for an address that has none: Go's map is `state` with an empty account for each address of
-- `touched` that has no entry there.
use cereblix.Prelude.{ℕ, ◌+◌, suc, Bool, Option, none, some, List, [], ◌∷◌, ◌++◌, if◌then◌else◌}
use cereblix.Prelude.Bytes.{Bytes, bytes_eq}
use cereblix.Prelude.Word.{add64}
use cereblix.Prelude.Map.{Map, lookup, insert}
use cereblix.Prelude.Result.{Result, ok, err}
use cereblix.Types.Params.{work_of}
use cereblix.Types.Crypto.{Crypto}
use cereblix.Types.Tx.{Tx, TxError, is_coinbase, from_addr}
use cereblix.Types.Block.{Block}
use cereblix.Ledger.{State, apply_block_to_state}
use cereblix.Ledger.Totals.{Totals, apply_block_to_totals}
use cereblix.Consensus.Target.{target_of}
use cereblix.Chain.Caches.{Caches, Limits}
use cereblix.Chain.Pool.{Pool}

-- A signed authority checkpoint, of core/checkpoint.go.
pub record Checkpoint : Type 0 where
  pub height : ℕ
  pub hash : Bytes
  pub sig : Bytes

pub record Chain : Type 0 where
  pub blocks : List Block
  pub state : State
  pub touched : List Bytes
  pub cum_work : ℕ
  pub supply : ℕ
  pub totals : Totals
  pub addr_tx : Map (List (ℕ × ℕ))
  pub pool : Pool
  pub caches : Caches
  pub limits : Limits
  pub auth_anchor : Checkpoint
  pub uses_store : Bool
  pub announced : List Block

-- recomputeSupplyLocked
unfoldable pub supply_from : ℕ → State → ℕ
supply_from s [] = s
supply_from s ((_, a) ∷ st) = supply_from (add64 s a.balance) st

abbrev pub recompute_supply : State → ℕ
recompute_supply = supply_from 0

-- the cumulative work of a run of blocks
unfoldable pub sum_work : List Block → ℕ
sum_work [] = 0
sum_work (b ∷ bs) = work_of (target_of b) + sum_work bs

abbrev refs_or_empty : Option (List (ℕ × ℕ)) → List (ℕ × ℕ)
refs_or_empty none = []
refs_or_empty (some refs) = refs

abbrev append_ref : Bytes → ℕ × ℕ → Map (List (ℕ × ℕ)) → Map (List (ℕ × ℕ))
append_ref addr ref idx = insert addr (refs_or_empty (lookup addr idx) ++ ref ∷ []) idx

abbrev index_sender : Result TxError Bytes → Bytes → ℕ × ℕ → Map (List (ℕ × ℕ)) → Map (List (ℕ × ℕ))
index_sender (err _) to ref idx = idx
index_sender (ok from) to ref idx =
    if bytes_eq to from
    then append_ref from ref idx
    else append_ref to ref (append_ref from ref idx)

module _ (C : Crypto) where
  unfoldable pub replay_state : State → List Block → State
  unfolding apply_block_to_state
  replay_state st [] = st
  replay_state st (b ∷ bs) = replay_state (apply_block_to_state C st b) bs

  unfoldable pub replay_totals : Totals → List Block → Totals
  unfolding apply_block_to_totals
  replay_totals tot [] = tot
  replay_totals tot (b ∷ bs) = replay_totals (apply_block_to_totals C tot b) bs

  unfoldable pub index_txs : ℕ → ℕ → List Tx → Map (List (ℕ × ℕ)) → Map (List (ℕ × ℕ))
  index_txs bi ti [] idx = idx
  index_txs bi ti (t ∷ ts) idx = index_txs bi (suc ti) ts (
      if is_coinbase t
      then append_ref t.to (bi, ti) idx
      else index_sender (from_addr C t) t.to (bi, ti) idx)

  -- indexBlockLocked
  unfoldable pub index_block : Map (List (ℕ × ℕ)) → Block → Map (List (ℕ × ℕ))
  unfolding index_txs
  index_block idx b = index_txs b.height 0 b.txs idx

  -- reindexAddrTxLocked, from an empty index
  unfoldable pub index_blocks : Map (List (ℕ × ℕ)) → List Block → Map (List (ℕ × ℕ))
  unfolding index_block
  index_blocks idx [] = idx
  index_blocks idx (b ∷ bs) = index_blocks (index_block idx b) bs
