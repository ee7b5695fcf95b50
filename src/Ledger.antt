-- ===== src/Ledger.antt =====
-- The account state of core/chain.go: balances and nonces by address, and how the transactions of a
-- block change them.
pub mod Totals
pub mod Supply
use cereblix.Prelude.{
  ℕ, ◌+◌, ◌-◌, ◌<◌, Bool, true, false, not, Option, none, some, List, [], ◌∷◌, take, drop, length,
  ltb, leb, ◌==◌, if◌then◌else◌,
}
use cereblix.Prelude.Bytes.{Bytes, bytes_eq}
use cereblix.Prelude.Word.{add64, sub64}
use cereblix.Prelude.Map.{Map, lookup, insert}
use cereblix.Prelude.Result.{Result, ok, err, ◌>>=◌, ◌>>◌, reject_if}
use cereblix.Types.Params.{coinbase_maturity, maturity_height}
use cereblix.Types.Crypto.{Crypto}
use cereblix.Types.Tx.{
  Tx, TxError, bad_nonce, amount_overflow, insufficient_balance, is_coinbase, sender, check_sig_at,
}
use cereblix.Types.Block.{Block}

pub record Account : Type 0 where
  pub balance : ℕ
  pub nonce : ℕ

abbrev pub State : Type 0
State = Map Account

abbrev account_or_empty : Option Account → Account
account_or_empty none = record { balance = 0; nonce = 0 }
account_or_empty (some a) = a

-- State.get. That Go also stores the empty account of an unknown address cannot be seen by a
-- lookup nor in a sum of balances.
unfoldable pub get_account : State → Bytes → Account
unfolding lookup
get_account st addr = account_or_empty (lookup addr st)

-- st.get(addr).Balance += amount
unfoldable pub credit : State → Bytes → ℕ → State
credit st addr amount =
    let a = get_account st addr in insert addr (record a { balance = add64 a.balance amount }) st

-- acc := st.get(addr); acc.Balance -= total; acc.Nonce++
unfoldable pub debit : State → Bytes → ℕ → State
debit st addr total =
    let a = get_account st addr in
    insert addr (record { balance = sub64 a.balance total; nonce = add64 a.nonce 1 }) st

-- spendable
unfoldable pub spendable : ℕ → ℕ → ℕ
spendable bal immature = if leb bal immature then 0 else bal - immature

-- The blocks lo ≤ h < at_height that `immatureCoinbase` walks.
unfoldable pub maturity_window : List Block → ℕ → List Block
maturity_window blocks at_height =
    let lo = if ltb coinbase_maturity at_height then at_height - coinbase_maturity + 1 else 0 in
    take (at_height - lo) (drop lo blocks)

abbrev coinbase_to : Bytes → List Tx → ℕ → ℕ
coinbase_to addr [] sum = sum
coinbase_to addr (t ∷ _) sum =
    if is_coinbase t then (if bytes_eq t.to addr then add64 sum t.amount else sum) else sum

unfoldable pub immature_from : ℕ → List Block → Bytes → ℕ
immature_from sum [] addr = sum
immature_from sum (b ∷ bs) addr = immature_from (coinbase_to addr b.txs sum) bs addr

-- immatureCoinbase, as the map's value at an address
unfoldable pub immature_coinbase : List Block → ℕ → Bytes → ℕ
unfolding immature_from maturity_window
immature_coinbase blocks at_height addr =
    if ltb at_height maturity_height
    then 0
    else immature_from 0 (maturity_window blocks at_height) addr

module _ (C : Crypto) where
  -- one round of `applyBlockToState`
  unfoldable pub apply_tx : State → Tx → State
  apply_tx st t =
      if is_coinbase t
      then credit st t.to t.amount
      else credit (debit st (sender C t) (add64 t.amount t.fee)) t.to t.amount

  unfoldable pub apply_txs : State → List Tx → State
  unfolding apply_tx
  apply_txs st [] = st
  apply_txs st (t ∷ ts) = apply_txs (apply_tx st t) ts

  -- applyBlockToState
  unfoldable pub apply_block_to_state : State → Block → State
  unfolding apply_txs
  apply_block_to_state st b = apply_txs st b.txs

  -- validateTxAgainstState; `pre_verified` is the answer of the signature memo
  unfoldable pub validate_tx_against_state :
      Bool → State → Tx → (Bytes → ℕ) → ℕ → Result TxError (Unit {0})
  validate_tx_against_state pre_verified st t immature height = do
    if pre_verified then ok tt else check_sig_at C t height
    let from = sender C t
    let acc = get_account st from
    reject_if (not (t.nonce == acc.nonce)) bad_nonce
    let total = add64 t.amount t.fee
    reject_if (ltb total t.amount) amount_overflow
    reject_if (ltb (spendable acc.balance (immature from)) total) insufficient_balance
