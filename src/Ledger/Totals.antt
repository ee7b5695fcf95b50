-- ===== src/Ledger/Totals.antt =====
-- The lifetime ledger of core/chain.go: per address, what was received, mined and sent, and the
-- number of transactions.
use cereblix.Prelude.{ℕ, ◌+◌, Option, none, some, List, [], ◌∷◌, if◌then◌else◌}
use cereblix.Prelude.Bytes.{Bytes, bytes_eq}
use cereblix.Prelude.Word.{add64}
use cereblix.Prelude.Map.{Map, lookup, insert}
use cereblix.Types.Crypto.{Crypto}
use cereblix.Types.Tx.{Tx, is_coinbase, sender}
use cereblix.Types.Block.{Block}

pub record AddrTotals : Type 0 where
  pub received : ℕ
  pub mined : ℕ
  pub sent : ℕ
  pub txn : ℕ

abbrev pub Totals : Type 0
Totals = Map AddrTotals

abbrev pub totals_or_zero : Option AddrTotals → AddrTotals
totals_or_zero none = record { received = 0; mined = 0; sent = 0; txn = 0 }
totals_or_zero (some t) = t

-- the entry of an address, as AddrTotals returns it
unfoldable pub get_totals : Totals → Bytes → AddrTotals
unfolding lookup
get_totals tot a = totals_or_zero (lookup a tot)

abbrev receive : AddrTotals → ℕ → AddrTotals
receive t amount = record t { received = add64 t.received amount; txn = t.txn + 1 }

abbrev mine : AddrTotals → ℕ → AddrTotals
mine t amount = record t {
  received = add64 t.received amount;
  mined = add64 t.mined amount;
  txn = t.txn + 1;
}

abbrev send : AddrTotals → ℕ → AddrTotals
send t total = record t { sent = add64 t.sent total; txn = t.txn + 1 }

module _ (C : Crypto) where
  unfoldable pub tx_totals : Totals → Tx → Totals
  tx_totals tot t =
      let from = sender C t in
      let sent = insert from (send (get_totals tot from) (add64 t.amount t.fee)) tot in
      if is_coinbase t
      then insert t.to (mine (get_totals tot t.to) t.amount) tot
      else if bytes_eq t.to from
      then sent
      else insert t.to (receive (get_totals sent t.to) t.amount) sent

  unfoldable pub txs_totals : Totals → List Tx → Totals
  unfolding tx_totals
  txs_totals tot [] = tot
  txs_totals tot (t ∷ ts) = txs_totals (tx_totals tot t) ts

  -- applyBlockToTotals
  unfoldable pub apply_block_to_totals : Totals → Block → Totals
  unfolding txs_totals
  apply_block_to_totals tot b = txs_totals tot b.txs
