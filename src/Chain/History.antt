-- ===== src/Chain/History.antt =====
-- The chains that the node can hold: genesis, extended by blocks that were accepted on the replay of
-- the blocks before them. Their supply is the emission schedule.
use cereblix.Prelude.{
  ℕ, zero, suc, ◌+◌, ◌-◌, ◌*◌, ◌≤◌, ◌<◌, ◌≡◌, refl, sym, ◌∙◌, ap, List, [], ◌∷◌, ◌++◌, All, length,
  take, arith, length-append, take-append, take-beyond, leb, Bool-cases, inl, inr,
}
use mathlib.Core.Path.{subst}
use mathlib.Core.List.{append-nil, append_assoc}
use cereblix.Prelude.Bytes.{bytes_eq}
use cereblix.Prelude.Map.{lookup, insert}
use cereblix.Prelude.Word.{u64_mod}
use cereblix.Prelude.Result.{ok}
use cereblix.Prelude.Exec.{>>=-eq-ok}
use cereblix.Types.Params.{block_subsidy}
use cereblix.Types.Crypto.{Crypto}
use cereblix.Types.Block.{Block}
use cereblix.Types.Emission.{emission, emission-le, emission-pred, subsidy-le}
use cereblix.Types.Genesis.{genesis_block, genesis_coinbase}
use cereblix.Ledger.{State, apply_block_to_state, apply_txs, apply_tx, credit, get_account}
use cereblix.Ledger.Totals.{Totals}
use cereblix.Ledger.Supply.{sum_balances}
use cereblix.Chain.Caches.{Caches, Limits}
use cereblix.Chain.Validate.{validate_block}
use cereblix.Chain.Validate.Inversion.{IsTyped, IsAccepted, validate_block-IsAccepted}
use cereblix.Chain.Record.{replay_state}
use cereblix.Chain.Supply.{apply_block-sum}
use cereblix.Chain.Adopt.{validate_run}
use cereblix.Chain.Adopt.Derived.{replay_state-append}

-- Every number of a block's transactions is a uint64.
abbrev pub BlockTyped : Block → Type 0
BlockTyped b = All IsTyped b.txs

pub data ValidHistory (C : Crypto) : List Block → Type 0 where
  genesis : ValidHistory C (genesis_block C ∷ [])
  extend :
      {bs : List Block} {b : Block} {all : List Block}
      → ValidHistory C bs
      → IsAccepted C bs (replay_state C [] bs) b
      → all ≡ bs ++ b ∷ []
      → ValidHistory C all

module _ (C : Crypto) where
  genesis-sum : sum_balances (replay_state C [] (genesis_block C ∷ [])) ≡ 0
  unfolding replay_state genesis_block genesis_coinbase sum_balances apply_block_to_state apply_txs
      apply_tx credit bytes_eq insert get_account lookup
  genesis-sum = refl

  -- Along a valid history the coins are those of the emission schedule, exactly.
  pub replay-sum :
      {bs : List Block}
      → ValidHistory C bs
      → (sum_balances (replay_state C [] bs) ≡ emission (length bs - 1)) × (1 ≤ length bs)
  unfolding replay_state emission
  replay-sum genesis = (genesis-sum, omega arith)
  replay-sum (extend {bs} {b} {all} h acc e) =
      let (sum, nonempty) = replay-sum h in
      let room : 2 * sum_balances (replay_state C [] bs) + block_subsidy b.height < u64_mod =
        omega (arith, sum, emission-le (length bs - 1), subsidy-le b.height) in
      let grown = apply_block-sum C bs (replay_state C [] bs) b acc room in
      let size : length (bs ++ b ∷ []) ≡ length bs + 1 = length-append bs (b ∷ []) in
      let later : length bs + 1 - 1 ≡ length bs = omega arith in
      rw (e, replay_state-append C [] bs (b ∷ []), size, later)
        (
          grown
              ∙ ap (λ n. n + block_subsidy b.height) sum
              ∙ rw acc.height (sym (emission-pred (length bs) nonempty)),
          omega arith,
        )

  -- The first blocks of a valid history are one.
  pub ValidHistory-take :
      {bs : List Block} (n : ℕ) → ValidHistory C bs → 1 ≤ n → ValidHistory C (take n bs)
  ValidHistory-take zero h le = absurd (omega arith)
  ValidHistory-take (suc zero) genesis le = genesis
  ValidHistory-take (suc (suc n)) genesis le = genesis
  ValidHistory-take (suc n) (extend {bs} {b} {all} h acc e) le =
      elim (Bool-cases (leb (suc n) (length bs))) [
        | inl inside ↦
            rw (e, take-append (suc n) bs (b ∷ []) (ground arith)) (ValidHistory-take (suc n) h le)
        | inr beyond ↦
            let whole : take (suc n) all ≡ all =
              take-beyond (suc n) all (rw e (ground (arith, length-append bs (b ∷ [])))) in
            rw whole (extend h acc e)
      ]

  -- A run that is accepted extends a valid history.
  pub validate_run-ValidHistory :
      (lim : Limits) (now : ℕ) (prefix : List Block) (tot : Totals) (nb : List Block) (k : Caches)
      {r : List Block × State × Totals}
      → ValidHistory C prefix
      → All BlockTyped nb
      → (validate_run C lim now prefix (replay_state C [] prefix) tot nb k).0 ≡ ok r
      → ValidHistory C (prefix ++ nb)
  unfolding validate_run apply_block_to_state replay_state
  validate_run-ValidHistory lim now prefix tot [] k h typed ran =
      subst (ValidHistory C) (sym (append-nil prefix)) h
  validate_run-ValidHistory lim now prefix tot (b ∷ bs) k h typed ran =
      let st = replay_state C [] prefix in
      let (u, valid, later) = >>=-eq-ok (validate_block C lim prefix st b now) _ k ran in
      let acc = validate_block-IsAccepted C lim prefix st b now k typed.0 valid in
      let grown : ValidHistory C (prefix ++ b ∷ []) = extend h acc refl in
      let same : apply_block_to_state C st b ≡ replay_state C [] (prefix ++ b ∷ []) =
        sym (replay_state-append C [] prefix (b ∷ [])) in
      subst (ValidHistory C) (append_assoc prefix (b ∷ []) bs) (
        validate_run-ValidHistory lim now (prefix ++ b ∷ []) _ bs _ grown typed.1
          (rw same at later))
