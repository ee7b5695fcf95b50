-- ===== src/Tests/Run.antt =====
-- Runs of the whole model on the test data.
use cereblix.Prelude.{◌≡◌, refl, true}
use cereblix.Prelude.Result.{ok}
use cereblix.Tests.{toy, sum_bytes, fresh, grown, first_block, clock}
use cereblix.Chain.Adopt.{add_block, extend_with}
use cereblix.Chain.Caches.{
  lwma_activation_c, fee_market_activation_c, mark_pow_verified, contains, expected_target_c,
  pow_verified, min_fee_for_c,
}
use cereblix.Chain.Open.{load, rebuild_derived, empty_chain, mark_all}
use cereblix.Chain.Pool.{mp_del_all, prune_mempool, prune_entries}
use cereblix.Chain.Record.{
  replay_state, replay_totals, sum_work, index_blocks, index_block, index_txs, supply_from,
}
use cereblix.Chain.Validate.{
  last_block, validate_block, validate_context, check_header, checkpoint_at, wanted_target,
  check_pow, check_coinbase, block_min_fee, check_body, check_txs,
}
use cereblix.Consensus.Fees.{min_fee_for_active, count_txs}
use cereblix.Consensus.Target.{
  median_time, sorted_times, insert_sorted, expected_target_active, legacy_target, legacy_next,
  sum_targets, clamp_span, clamp_target, epoch_seed_for,
}
use cereblix.Consensus.Upgrade.{
  lwma_activation, fee_market_activation, deep_recovery_activation, activation_height_win,
  first_qualifying, signal_count_win, count_signals, coinbase_version,
}
use cereblix.Ledger.{apply_block_to_state, apply_txs, apply_tx, credit, get_account}
use cereblix.Ledger.Totals.{apply_block_to_totals, txs_totals, tx_totals, get_totals}
use cereblix.Prelude.Bytes.{bytes_eq, strip_prefix}
use cereblix.Prelude.Map.{lookup, insert}
use cereblix.Prelude.Text.{
  hex_decode, hex_scan, hex_value, hex_digit, hex_encode, be_bytes, le_bytes, itoa, digits_onto,
  be_value_from, atoi, nonempty_digits, digits_value,
}
use cereblix.Types.Block.{
  block_hash, header_bytes, header_field, copy_field, compute_tx_root, root_preimage, target_int,
  hash_meets_target, total_fees, fees_from, target_to_hex,
}
use cereblix.Types.Genesis.{genesis_block, genesis_coinbase}
use cereblix.Types.Params.{work_of, block_subsidy}
use cereblix.Types.Tx.{valid_addr, tx_id, signing_payload, decode_field, valid64_hex}

-- The block is accepted, and the supply is its reward.
first_block_accepted : (add_block toy first_block clock true fresh).0 ≡ ok tt
unfolding add_block last_block load bytes_eq strip_prefix valid_addr hex_decode hex_scan hex_value
    hex_digit median_time sorted_times insert_sorted genesis_block genesis_coinbase block_hash
    hex_encode be_bytes header_bytes le_bytes header_field copy_field compute_tx_root root_preimage
    tx_id signing_payload itoa digits_onto rebuild_derived empty_chain replay_state
    apply_block_to_state apply_txs apply_tx credit get_account lookup insert replay_totals
    apply_block_to_totals txs_totals tx_totals get_totals sum_work work_of be_value_from target_int
    decode_field lwma_activation fee_market_activation deep_recovery_activation
    activation_height_win first_qualifying signal_count_win count_signals coinbase_version atoi
    nonempty_digits digits_value lwma_activation_c fee_market_activation_c index_blocks index_block
    index_txs supply_from mark_all mark_pow_verified contains validate_block validate_context
    check_header checkpoint_at valid64_hex wanted_target expected_target_c expected_target_active
    legacy_target legacy_next sum_targets clamp_span clamp_target check_pow epoch_seed_for
    pow_verified hash_meets_target check_coinbase total_fees fees_from block_subsidy block_min_fee
    min_fee_for_c min_fee_for_active count_txs check_body check_txs extend_with mp_del_all
    prune_mempool prune_entries target_to_hex toy sum_bytes fresh grown
first_block_accepted = refl
