-- ===== src/Chain/Pool.antt =====
-- The mempool of core/chain.go and its per-sender index, which mpAdd and mpDel alone change.
use cereblix.Prelude.{Bool, true, ◌||◌, Option, none, some, List, [], ◌∷◌, ltb, leb, if◌then◌else◌}
use cereblix.Prelude.Bytes.{Bytes, bytes_eq}
use cereblix.Prelude.Word.{add64}
use cereblix.Prelude.Map.{Map, lookup, insert, erase}
use cereblix.Prelude.Result.{Result, ok, err}
use cereblix.Types.Crypto.{Crypto}
use cereblix.Types.Tx.{Tx, TxError, tx_id, from_addr}
use cereblix.Ledger.{State, get_account}

-- The two fields that mpAdd and mpDel change.
pub record Pool : Type 0 where
  pub mempool : Map Tx
  pub by_sender : Map (List Tx)

abbrev pub txs_or_empty : Option (List Tx) → List Tx
txs_or_empty none = []
txs_or_empty (some l) = l

abbrev pub of_sender : Pool → Bytes → List Tx
of_sender p from = txs_or_empty (lookup from p.by_sender)

-- sort.Search for the first nonce ≥ t.Nonce, and the insertion there
unfoldable pub insert_by_nonce : Tx → List Tx → List Tx
insert_by_nonce t [] = t ∷ []
insert_by_nonce t (m ∷ ms) = if leb t.nonce m.nonce then t ∷ m ∷ ms else m ∷ insert_by_nonce t ms

abbrev store_list : Bytes → List Tx → Map (List Tx) → Map (List Tx)
store_list from [] m = erase from m
store_list from (t ∷ ts) m = insert from (t ∷ ts) m

module _ (C : Crypto) where
  abbrev index_added : Result TxError Bytes → Tx → Pool → Pool
  index_added (err _) t p = p
  index_added (ok from) t p = record p {
    by_sender = insert from (insert_by_nonce t (of_sender p from)) p.by_sender;
  }

  -- mpAdd
  unfoldable pub mp_add : Tx → Pool → Pool
  unfolding insert_by_nonce
  mp_add t p = index_added (from_addr C t) t (record p { mempool = insert (tx_id C t) t p.mempool })

  -- the first transaction with the id leaves the sender's list
  unfoldable pub remove_id : Bytes → List Tx → List Tx
  remove_id id [] = []
  remove_id id (m ∷ ms) = if bytes_eq (tx_id C m) id then ms else m ∷ remove_id id ms

  abbrev index_removed : Result TxError Bytes → Bytes → Pool → Pool
  index_removed (err _) id p = p
  index_removed (ok from) id p = record p {
    by_sender = store_list from (remove_id id (of_sender p from)) p.by_sender;
  }

  abbrev remove_found : Option Tx → Bytes → Pool → Pool
  remove_found none id p = p
  remove_found (some t) id p =
      index_removed (from_addr C t) id (record p { mempool = erase id p.mempool })

  -- mpDel
  unfoldable pub mp_del : Bytes → Pool → Pool
  unfolding remove_id
  mp_del id p = remove_found (lookup id p.mempool) id p

  unfoldable pub mp_del_all : List Tx → Pool → Pool
  unfolding mp_del
  mp_del_all [] p = p
  mp_del_all (t ∷ ts) p = mp_del_all ts (mp_del (tx_id C t) p)

  abbrev is_stale : Result TxError Bytes → State → Tx → Bool
  is_stale (err _) st t = true
  is_stale (ok from) st t =
      let acc = get_account st from in
      ltb t.nonce acc.nonce || ltb acc.balance (add64 t.amount t.fee)

  -- pruneMempoolLocked, over the entries that it ranges over
  unfoldable pub prune_entries : State → Map Tx → Pool → Pool
  unfolding mp_del
  prune_entries st [] p = p
  prune_entries st ((id, t) ∷ rest) p =
      prune_entries st rest (if is_stale (from_addr C t) st t then mp_del id p else p)

  unfoldable pub prune_mempool : State → Pool → Pool
  unfolding prune_entries
  prune_mempool st p = prune_entries st p.mempool p

  abbrev touched_by : Result TxError Bytes → List Bytes → List Bytes
  touched_by (err _) touched = touched
  touched_by (ok from) touched = from ∷ touched

  -- the addresses that pruneMempoolLocked gets from the state
  unfoldable pub prune_touched : Map Tx → List Bytes → List Bytes
  prune_touched [] touched = touched
  prune_touched ((_, t) ∷ rest) touched = prune_touched rest (touched_by (from_addr C t) touched)
