-- ===== src/Chain/Supply.antt =====
-- Accepted blocks create exactly the block subsidy: the uint64 arithmetic of `applyBlockToState`
-- does not wrap on them.
use cereblix.Prelude.{ℕ, ◌+◌, ◌*◌, ◌≤◌, ◌<◌, ◌≡◌, refl, ◌∙◌, List, [], ◌∷◌, arith}
use cereblix.Prelude.Word.{u64_mod, add64}
use cereblix.Types.Params.{block_subsidy}
use cereblix.Types.Crypto.{Crypto}
use cereblix.Types.Tx.{Tx, sender}
use cereblix.Types.Block.{Block, total_fees, fees_from}
use cereblix.Ledger.{State, get_account, credit, debit, apply_tx, apply_txs, apply_block_to_state}
use cereblix.Ledger.Supply.{
  sum_balances, sum-credit, sum-debit, Dominates, credit-Dominates, debit-Dominates,
  credit-Dominates_self,
}
use cereblix.Chain.Validate.Inversion.{Covered, none_left, next, IsAccepted}

-- the fees of a body, with no wrap-around
pub sum_fees : List Tx → ℕ
sum_fees [] = 0
sum_fees (t ∷ ts) = t.fee + sum_fees ts

module _ (C : Crypto) where
  -- A covered body, applied to a state that dominates the one it was checked on, destroys exactly
  -- its fees.
  apply_txs-sum :
      (st work : State) (ts : List Tx)
      → sum_balances st < u64_mod
      → Dominates st work
      → Covered C work ts
      → sum_balances (apply_txs C st ts) + sum_fees ts ≡ sum_balances st
  unfolding apply_txs apply_tx sum_fees
  apply_txs-sum st work [] bounded d none_left = omega arith
  apply_txs-sum st work (t ∷ ts) bounded d (next plain cov later) =
      let from = sender C t in
      let total = t.amount + t.fee in
      let e : add64 t.amount t.fee ≡ total = omega (arith, cov.exact) in
      let funds : total ≤ (get_account work from).balance = cov.funds in
      let funded : total ≤ (get_account st from).balance = omega (arith, (d from).0) in
      let debited = sum-debit st from total bounded funded in
      let d' = debit-Dominates st work from total d bounded funds in
      let room : sum_balances (debit st from total) + t.amount < u64_mod = omega (arith, debited) in
      let credited = sum-credit (debit st from total) t.to t.amount room in
      let d'' =
        credit-Dominates (debit st from total) (debit work from total) t.to t.amount d' room in
      let later' = rw e at later in
      let st'' = credit (debit st from total) t.to t.amount in
      let ih =
        apply_txs-sum st'' (credit (debit work from total) t.to t.amount) ts
          (omega (arith, credited, debited)) d'' later' in
      rw (plain, e) (omega (arith, ih, credited, debited))

  Dominates-refl : (st : State) → Dominates st st
  Dominates-refl st a = (omega arith, refl)

  fees_from-exact :
      (work : State) (ts : List Tx) (acc : ℕ)
      → Covered C work ts
      → acc + sum_fees ts < u64_mod
      → fees_from acc ts ≡ acc + sum_fees ts
  unfolding fees_from sum_fees
  fees_from-exact work [] acc none_left h = omega arith
  fees_from-exact work (t ∷ ts) acc (next plain cov later) h =
      let e : add64 acc t.fee ≡ acc + t.fee = omega arith in
      rw (plain, e)
        (omega (
          arith,
          fees_from-exact (credit (debit work (sender C t) (add64 t.amount t.fee)) t.to t.amount) ts
              (acc + t.fee) later (omega arith),
        ))

  -- An accepted block adds exactly its height's subsidy to the sum of the balances, whatever its
  -- transactions move: no balance wraps around, as long as twice the coins and the subsidy fit
  -- uint64.
  pub apply_block-sum :
      (prefix : List Block) (st : State) (b : Block)
      → IsAccepted C prefix st b
      → 2 * sum_balances st + block_subsidy b.height < u64_mod
      → sum_balances (apply_block_to_state C st b) ≡ sum_balances st + block_subsidy b.height
  unfolding apply_block_to_state
  apply_block-sum prefix st b acc room =
      let cb = acc.cb in
      let rest = acc.rest in
      let fits : sum_balances st < u64_mod = omega arith in
      let burnt = apply_txs-sum st st rest fits (Dominates-refl st) acc.covered in
      let fees : total_fees b ≡ sum_fees rest =
        unfold total_fees fees_from in
        rw (acc.split, acc.reward.first)
          (fees_from-exact st rest 0 acc.covered (omega (arith, burnt)) ∙ omega arith) in
      let paid : cb.amount ≡ block_subsidy b.height + sum_fees rest =
        acc.reward.amount ∙ rw fees (omega (arith, burnt)) in
      let space : sum_balances st + cb.amount < u64_mod = omega (arith, burnt, paid) in
      let credited = sum-credit st cb.to cb.amount space in
      let applied =
        apply_txs-sum (credit st cb.to cb.amount) st rest (omega (arith, credited))
          (credit-Dominates_self st cb.to cb.amount space) acc.covered in
      rw acc.split
        (unfold apply_txs apply_tx in rw acc.reward.first (omega (arith, applied, credited, paid)))
