-- ===== src/Ledger/Supply.antt =====
-- What credits and debits do to single accounts and to the sum of the balances.
use cereblix.Prelude.{ℕ, ◌+◌, ◌≤◌, ◌<◌, ◌≡◌, Bool, false, [], ◌∷◌, arith, ltb, if◌then◌else◌}
use cereblix.Prelude.Bytes.{Bytes, bytes_eq, bytes_eq_iff}
use cereblix.Prelude.Word.{u64_mod, IsU64, add64, sub64}
use cereblix.Prelude.Map.{insert, lookup-insert}
use cereblix.Prelude.Result.{ok}
use cereblix.Types.Crypto.{Crypto}
use cereblix.Types.Tx.{Tx, sender}
use cereblix.Ledger.{
  Account, State, get_account, credit, debit, spendable, validate_tx_against_state,
}

unfoldable pub sum_balances : State → ℕ
sum_balances [] = 0
sum_balances ((_, a) ∷ st) = a.balance + sum_balances st

pub get-insert :
    (st : State) (k j : Bytes) (v : Account)
    → get_account (insert k v st) j ≡ (if bytes_eq k j then v else get_account st j)
unfolding get_account
get-insert st k j v = ground (arith, lookup-insert k j v st)

pub sum-insert :
    (st : State) (k : Bytes) (v : Account)
    → sum_balances (insert k v st) + (get_account st k).balance ≡ sum_balances st + v.balance
unfolding sum_balances insert get_account
sum-insert [] k v = omega arith
sum-insert ((j, w) ∷ st) k v = ground (arith, sum-insert st k v)

pub balance-le-sum : (st : State) (k : Bytes) → (get_account st k).balance ≤ sum_balances st
unfolding sum_balances get_account
balance-le-sum [] k = omega arith
balance-le-sum ((j, w) ∷ st) k = ground (arith, balance-le-sum st k)

pub sum-credit :
    (st : State) (to : Bytes) (amount : ℕ)
    → sum_balances st + amount < u64_mod
    → sum_balances (credit st to amount) ≡ sum_balances st + amount
unfolding credit
sum-credit st to amount h =
    let a = get_account st to in
    omega (
      arith,
      sum-insert st to (record a { balance = add64 a.balance amount }),
      balance-le-sum st to,
    )

pub sum-debit :
    (st : State) (from : Bytes) (total : ℕ)
    → sum_balances st < u64_mod
    → total ≤ (get_account st from).balance
    → sum_balances (debit st from total) + total ≡ sum_balances st
unfolding debit
sum-debit st from total bounded h =
    let a = get_account st from in
    omega (
      arith,
      sum-insert st from (record { balance = sub64 a.balance total; nonce = add64 a.nonce 1 }),
      balance-le-sum st from,
    )

pub get-credit :
    (st : State) (to a : Bytes) (amount : ℕ)
    → get_account (credit st to amount) a ≡ (
        if bytes_eq to a
        then record {
          balance = add64 (get_account st to).balance amount;
          nonce = (get_account st to).nonce;
        }
        else get_account st a)
unfolding credit
get-credit st to a amount = get-insert st to a _

pub get-debit :
    (st : State) (from a : Bytes) (total : ℕ)
    → get_account (debit st from total) a ≡ (
        if bytes_eq from a
        then record {
          balance = sub64 (get_account st from).balance total;
          nonce = add64 (get_account st from).nonce 1;
        }
        else get_account st a)
unfolding debit
get-debit st from a total = get-insert st from a _

-- `w` agrees with `st` on every nonce, and has at most the balance of `st` at every address.
abbrev pub Dominates : State → State → Type 0
Dominates st w =
    (a : Bytes)
    → ((get_account w a).balance ≤ (get_account st a).balance)
      × ((get_account w a).nonce ≡ (get_account st a).nonce)

pub credit-Dominates :
    (st w : State) (to : Bytes) (amount : ℕ)
    → Dominates st w
    → sum_balances st + amount < u64_mod
    → Dominates (credit st to amount) (credit w to amount)
credit-Dominates st w to amount d h a = ground (
  arith,
  get-credit st to a amount,
  get-credit w to a amount,
  d a,
  d to,
  balance-le-sum st to,
  bytes_eq_iff to a,
)

pub debit-Dominates :
    (st w : State) (from : Bytes) (total : ℕ)
    → Dominates st w
    → sum_balances st < u64_mod
    → total ≤ (get_account w from).balance
    → Dominates (debit st from total) (debit w from total)
debit-Dominates st w from total d h le a = ground (
  arith,
  get-debit st from a total,
  get-debit w from a total,
  d a,
  d from,
  balance-le-sum st from,
  bytes_eq_iff from a,
)

-- A credit of the whole state dominates it.
pub credit-Dominates_self :
    (st : State) (to : Bytes) (amount : ℕ)
    → sum_balances st + amount < u64_mod
    → Dominates (credit st to amount) st
credit-Dominates_self st to amount h a =
    ground (arith, get-credit st to a amount, balance-le-sum st to, bytes_eq_iff to a)

-- What an accepted transaction has been checked for, whichever way its signature was checked.
pub record IsCovered (C : Crypto) (st : State) (t : Tx) : Type 0 where
  pub nonce : t.nonce ≡ (get_account st (sender C t)).nonce
  pub exact : t.amount + t.fee < u64_mod
  pub funds : t.amount + t.fee ≤ (get_account st (sender C t)).balance

pub spendable-le : (bal imm : ℕ) → spendable bal imm ≤ bal
unfolding spendable
spendable-le bal imm = ground arith

no_overflow : (a f : ℕ) → IsU64 a → IsU64 f → ltb (add64 a f) a ≡ false → a + f < u64_mod
no_overflow a f ha hf h = ground arith

pub validate_tx-IsCovered :
    (C : Crypto) (pre : Bool) (st : State) (t : Tx) (imm : Bytes → ℕ) (height : ℕ)
    → IsU64 t.amount
    → IsU64 t.fee
    → validate_tx_against_state C pre st t imm height ≡ ok tt
    → IsCovered C st t
unfolding validate_tx_against_state
validate_tx-IsCovered C pre st t imm height ha hf h = ground (
  arith,
  no_overflow t.amount t.fee,
  spendable-le (get_account st (sender C t)).balance (imm (sender C t)),
)
