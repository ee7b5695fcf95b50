-- ===== src/Chain/Validate.antt =====
-- `validateBlock` of core/chain.go: its checks in their order, on the memo fields of the chain.
mod Checks
pub mod Inversion
pub use Checks.{
  BlockError, bad_tx, or_bad_target, body_of, no_prefix, not_extending_tip, empty_candidate,
  bad_fork_point, reorg_too_deep, checkpoint_shortening, insufficient_work, commit_failed,
}
unfoldable pub use Checks.{last_block, checkpoint_at, check_header, check_coinbase, check_txs}
use cereblix.Prelude.{
  ℕ, Bool, true, false, not, ◌||◌, Option, none, some, List, [], ◌∷◌, leb, ◌==◌, if◌then◌else◌,
}
use cereblix.Prelude.Bytes.{Bytes}
use cereblix.Prelude.Text.{hex_encode}
use cereblix.Prelude.Result.{Result, ok, err}
use cereblix.Prelude.Exec.{Exec, lift, reject_if, ◌>>=◌, ◌>>◌}
use cereblix.Types.Params.{min_fee_height}
use cereblix.Types.Crypto.{Crypto}
use cereblix.Types.Block.{Block, header_bytes, target_int, hash_meets_target, block_hash}
use cereblix.Ledger.{State, immature_coinbase}
use cereblix.Consensus.Target.{epoch_seed_for}
use cereblix.Chain.Caches.{
  Caches, Limits, contains, pow_verified, sig_pre_verified, mark_pow_verified, expected_target_c,
  min_fee_for_c,
}
use Checks.{insufficient_pow, wrong_target}

abbrev pub or_no_prefix : Option Block → Result BlockError Block
or_no_prefix none = err no_prefix
or_no_prefix (some b) = ok b

module _ (C : Crypto) where
  -- the proof of work: memoised, verified beforehand, or hashed now
  unfoldable pub check_pow : List Block → Block → ℕ → Exec Caches BlockError (Unit {0})
  check_pow prefix b got c =
      let hash = block_hash C b in
      let seed = epoch_seed_for C prefix b.height in
      if contains hash c.verified_pow
      then (ok tt, c)
      else if pow_verified (hex_encode seed) hash c.pow_ok
          || hash_meets_target (C.nm_hash seed (header_bytes b) b.height) got
      then (ok tt, mark_pow_verified hash c)
      else (err insufficient_pow, c)

  -- `want := c.expectedTargetC(prefix)`
  unfoldable pub wanted_target : Limits → List Block → Exec Caches BlockError ℕ
  unfolding expected_target_c
  wanted_target lim prefix c =
      let (want, c') = expected_target_c lim.max_reorg_depth prefix c in (ok want, c')

  -- the fee minimum, which holds from MinFeeHeight on
  unfoldable pub block_min_fee : Limits → List Block → ℕ → Exec Caches BlockError ℕ
  unfolding min_fee_for_c
  block_min_fee lim prefix height c =
      let (fee, c') = min_fee_for_c C lim.max_reorg_depth prefix c in
      if leb min_fee_height height then (ok fee, c') else (ok 0, c)

  -- the body transactions, on a copy of the state; the result is that copy
  unfoldable pub check_body : List Block → State → Block → ℕ → Exec Caches BlockError State
  unfolding check_txs
  check_body prefix st b minfee c = (
    check_txs C (sig_pre_verified c.sig_ok b.height) minfee (immature_coinbase prefix b.height)
        b.height [] st (body_of b.txs),
    c,
  )

  -- the checks that leave the account state alone; the result is the fee minimum
  unfoldable pub validate_context : Limits → List Block → Block → ℕ → Exec Caches BlockError ℕ
  validate_context lim prefix b now = do
    prev ← lift (or_no_prefix (last_block prefix))
    lift (check_header C lim prefix prev b now)
    want ← wanted_target lim prefix
    got ← lift (or_bad_target (target_int b))
    reject_if (not (want == got)) wrong_target
    check_pow prefix b got
    lift (check_coinbase C b b.txs)
    block_min_fee lim prefix b.height

  -- validateBlock; the working copy that it discards is the result here
  unfoldable pub validate_block :
      Limits → List Block → State → Block → ℕ → Exec Caches BlockError State
  validate_block lim prefix st b now = do
    minfee ← validate_context lim prefix b now
    check_body prefix st b minfee
