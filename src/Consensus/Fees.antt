-- ===== src/Consensus/Fees.antt =====
-- The fee floor and the fee hint of core/chain.go. The legacy curve is float64 arithmetic, which is
-- a parameter.
use cereblix.Prelude.{
  ℕ, ◌+◌, ◌-◌, ◌*◌, ◌/◌, Bool, List, [], ◌∷◌, length, drop, get_elem?, ltb, leb, ◌==◌,
  if◌then◌else◌, Option, none, some,
}
use cereblix.Prelude.Word.{add64}
use cereblix.Types.Params.{max_block_txs}
use cereblix.Types.Crypto.{Crypto}
use cereblix.Types.Block.{Block}

abbrev pub fee_floor : ℕ
fee_floor = 1000

-- the transactions of the blocks beyond the coinbase
unfoldable pub count_txs : List Block → ℕ
count_txs [] = 0
count_txs (b ∷ bs) = (length b.txs - 1) + count_txs bs

module _ (C : Crypto) where
  -- uint64(float64(floor) * (1.0 + fullMult*fill*fill)) with fill = txs / capacity
  unfoldable pub legacy_curve : ℕ → ℕ → ℕ
  legacy_curve txs capacity =
      let fill = C.f64_div (C.f64_of_int txs) (C.f64_of_int capacity) in
      let full_mult = C.f64_of_int 1000 in
      C.f64_to_uint (
        C.f64_mul (C.f64_of_int fee_floor)
          (C.f64_add (C.f64_of_int 1) (C.f64_mul (C.f64_mul full_mult fill) fill)))

  -- minFeeForActive
  unfoldable pub min_fee_for_active : List Block → Bool → ℕ
  unfolding count_txs legacy_curve
  min_fee_for_active blocks fee_active =
      let n = if ltb (length blocks) 20 then length blocks else 20 in
      let capacity = n * (max_block_txs - 1) in
      if n == 0
      then fee_floor
      else if fee_active
      then fee_floor
      else legacy_curve (count_txs (drop (length blocks - n) blocks)) capacity

-- the waiting fees that reach the floor
unfoldable pub at_least : ℕ → List ℕ → List ℕ
at_least floor [] = []
at_least floor (f ∷ fs) = if leb floor f then f ∷ at_least floor fs else at_least floor fs

unfoldable pub insert_desc : ℕ → List ℕ → List ℕ
insert_desc f [] = f ∷ []
insert_desc f (g ∷ gs) = if leb g f then f ∷ g ∷ gs else g ∷ insert_desc f gs

unfoldable pub sort_desc : List ℕ → List ℕ
unfolding insert_desc
sort_desc [] = []
sort_desc (f ∷ fs) = insert_desc f (sort_desc fs)

abbrev nth_fee : Option ℕ → ℕ
nth_fee none = 0
nth_fee (some f) = f

-- suggestFee
unfoldable pub suggest_fee : List ℕ → ℕ → ℕ
unfolding at_least sort_desc
suggest_fee mem_fees floor =
    let capacity = max_block_txs - 1 in
    let fees = at_least floor mem_fees in
    let cut = nth_fee (get_elem? (sort_desc fees) (capacity - 1)) in
    let bump = if cut / 8 == 0 then 1 else cut / 8 in
    if leb (length fees) capacity then floor else add64 cut bump
