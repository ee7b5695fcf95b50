-- ===== src/Chain/Validate/Checks.antt =====
-- The checks of `validateBlock` of core/chain.go that leave the memo fields alone.
use cereblix.Prelude.{
  ℕ, ◌+◌, Bool, false, not, ◌||◌, Option, none, some, List, [], ◌∷◌, length, ltb, leb, ◌==◌,
  if◌then◌else◌,
}
use cereblix.Prelude.Bytes.{Bytes, bytes_eq}
use cereblix.Prelude.Word.{add64}
use cereblix.Prelude.Result.{Result, ok, err, ◌>>◌, reject_if}
use cereblix.Types.Params.{max_block_txs, max_future_drift, block_subsidy}
use cereblix.Types.Crypto.{Crypto}
use cereblix.Types.Tx.{Tx, TxError, is_coinbase, tx_id, sender, valid_addr, valid64_hex}
use cereblix.Types.Block.{Block, total_fees, block_hash, compute_tx_root}
use cereblix.Ledger.{State, credit, debit, validate_tx_against_state}
use cereblix.Consensus.Target.{median_time}
use cereblix.Chain.Caches.{Limits, contains}

-- the errors of validateBlock, AddBlock and TryAdoptChain; `no_prefix` is the panic on an empty chain
pub data BlockError : Type 0 where
  bad_version bad_height malformed_header_field checkpoint_conflict prev_hash_mismatch : BlockError
  timestamp_too_old timestamp_too_far bad_target_encoding wrong_target : BlockError
  insufficient_pow bad_tx_count first_not_coinbase tx_root_mismatch : BlockError
  bad_coinbase_nonce bad_coinbase_address bad_coinbase_amount extra_coinbase : BlockError
  duplicate_tx fee_below_minimum : BlockError
  bad_tx : TxError → BlockError
  no_prefix not_extending_tip empty_candidate bad_fork_point reorg_too_deep : BlockError
  checkpoint_shortening insufficient_work commit_failed : BlockError

unfoldable pub last_block : List Block → Option Block
last_block [] = none
last_block (b ∷ []) = some b
last_block (_ ∷ b ∷ bs) = last_block (b ∷ bs)

unfoldable pub checkpoint_at : ℕ → List (ℕ × Bytes) → Option Bytes
checkpoint_at h [] = none
checkpoint_at h ((k, hash) ∷ cps) = if k == h then some hash else checkpoint_at h cps

abbrev conflicts : Option Bytes → Bytes → Bool
conflicts none hash = false
conflicts (some cp) hash = not (bytes_eq cp hash)

abbrev pub or_bad_target : Option ℕ → Result BlockError ℕ
or_bad_target none = err bad_target_encoding
or_bad_target (some t) = ok t

abbrev pub as_block_error : Result TxError (Unit {0}) → Result BlockError (Unit {0})
as_block_error (ok u) = ok u
as_block_error (err e) = err (bad_tx e)

-- b.Txs[1:]
abbrev pub body_of : List Tx → List Tx
body_of [] = []
body_of (_ ∷ rest) = rest

module _ (C : Crypto) where
  -- the checks of the header before the target; `now` is time.Now().Unix()
  unfoldable pub check_header :
      Limits → List Block → Block → Block → ℕ → Result BlockError (Unit {0})
  check_header lim prefix prev b now = do
    reject_if (not (b.version == 1)) bad_version
    reject_if (not (b.height == length prefix)) bad_height
    reject_if
        (not (valid64_hex b.prev_hash) || not (valid64_hex b.tx_root) || not (valid64_hex b.target))
        malformed_header_field
    reject_if (conflicts (checkpoint_at b.height lim.checkpoints) (block_hash C b))
        checkpoint_conflict
    reject_if (not (bytes_eq b.prev_hash (block_hash C prev))) prev_hash_mismatch
    reject_if (leb b.time (median_time prefix)) timestamp_too_old
    reject_if (ltb (now + max_future_drift) b.time) timestamp_too_far

  -- the rules of the tx list and the coinbase
  unfoldable pub check_coinbase : Block → List Tx → Result BlockError (Unit {0})
  check_coinbase b [] = err bad_tx_count
  check_coinbase b (cb ∷ rest) = do
    reject_if (ltb max_block_txs (length (cb ∷ rest))) bad_tx_count
    reject_if (not (is_coinbase cb)) first_not_coinbase
    reject_if (not (bytes_eq b.tx_root (compute_tx_root C (cb ∷ rest)))) tx_root_mismatch
    reject_if (not (cb.nonce == b.height)) bad_coinbase_nonce
    reject_if (not (valid_addr cb.to)) bad_coinbase_address
    reject_if (not (cb.amount == add64 (block_subsidy b.height) (total_fees b))) bad_coinbase_amount

  -- the loop over b.Txs[1:] on the state copy `work`
  unfoldable pub check_txs :
      (Bytes → Bool) → ℕ → (Bytes → ℕ) → ℕ → List Bytes → State → List Tx → Result BlockError State
  check_txs pre minfee imm height seen work [] = ok work
  check_txs pre minfee imm height seen work (t ∷ ts) =
      let rest =
        check_txs pre minfee imm height (tx_id C t ∷ seen)
          (credit (debit work (sender C t) (add64 t.amount t.fee)) t.to t.amount) ts in
      do
        reject_if (is_coinbase t) extra_coinbase
        reject_if (contains (tx_id C t) seen) duplicate_tx
        reject_if (ltb t.fee minfee) fee_below_minimum
        as_block_error (validate_tx_against_state C (pre (tx_id C t)) work t imm height)
        rest
