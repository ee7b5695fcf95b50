-- ===== src/Tests/Pool.antt =====
-- The theorems on the mempool at concrete inputs.
use cereblix.Prelude.{inl, inr, ap, ◌+◌, ◌/◌, ◌≤◌, ◌<◌, ◌≡◌, refl, [], ◌∷◌, replicate, arith}
use cereblix.Prelude.Bytes.{Bytes}
use cereblix.Prelude.Result.{ok}
use cereblix.Tests.{toy, sum_bytes, fresh, miner}
use cereblix.Chain.Admit.{
  add_tx, validate_mempool_tx, check_queue, walk_sender, find_rival, replacement_min_fee,
}
use cereblix.Chain.Admit.Replace.{IsPending, HasSlot, add_tx-outbids}
use cereblix.Chain.Adopt.{add_block, extend_with}
use cereblix.Chain.Caches.{
  lwma_activation_c, fee_market_activation_c, mark_pow_verified, contains, expected_target_c,
  pow_verified, min_fee_for_c,
}
use cereblix.Chain.Open.{load, rebuild_derived, empty_chain, mark_all}
use cereblix.Chain.Pool.{
  mp_del_all, prune_mempool, prune_entries, mp_add, mp_del, insert_by_nonce, remove_id,
}
use cereblix.Chain.Record.{
  replay_state, replay_totals, sum_work, index_blocks, index_block, index_txs, supply_from, Chain,
}
use cereblix.Chain.Validate.{
  last_block, validate_block, validate_context, check_header, checkpoint_at, wanted_target,
  check_pow, check_coinbase, block_min_fee, check_body, check_txs,
}
use cereblix.Consensus.Fees.{min_fee_for_active, count_txs}
use cereblix.Consensus.Target.{
  median_time, sorted_times, insert_sorted, expected_target_active, legacy_target, legacy_next,
  sum_targets, clamp_span, clamp_target, epoch_seed_for,
}
use cereblix.Consensus.Upgrade.{
  lwma_activation, fee_market_activation, deep_recovery_activation, activation_height_win,
  first_qualifying, signal_count_win, count_signals, coinbase_version,
}
use cereblix.Ledger.{
  apply_block_to_state, apply_txs, apply_tx, credit, get_account, spendable, immature_coinbase,
}
use cereblix.Ledger.Totals.{apply_block_to_totals, txs_totals, tx_totals, get_totals}
use cereblix.Prelude.Bytes.{bytes_eq, strip_prefix}
use cereblix.Prelude.Map.{lookup, insert, erase}
use cereblix.Prelude.Text.{
  hex_decode, hex_scan, hex_value, hex_digit, hex_encode, be_bytes, le_bytes, itoa, digits_onto,
  be_value_from, atoi, nonempty_digits, digits_value,
}
use cereblix.Types.Block.{
  block_hash, header_bytes, header_field, copy_field, compute_tx_root, root_preimage, target_int,
  hash_meets_target, total_fees, fees_from, target_to_hex,
}
use cereblix.Types.Genesis.{genesis_block, genesis_coinbase}
use cereblix.Types.Params.{work_of, block_subsidy}
use cereblix.Types.Tx.{
  valid_addr, tx_id, signing_payload, decode_field, valid64_hex, from_addr, sender, addr_from_pub,
  check_sig_at, check_sig, signing_payload_for, Tx,
}

abbrev key : Bytes
key = replicate 64 b'1'

abbrev old_tx : Tx
old_tx = record {
  from_pub = key;
  to = miner;
  amount = 5;
  fee = 10;
  nonce = 0;
  sig = replicate 128 b'2';
}

abbrev new_tx : Tx
new_tx = record {
  from_pub = key;
  to = miner;
  amount = 5;
  fee = 11;
  nonce = 0;
  sig = replicate 128 b'3';
}

-- a funded sender with one pending transaction
pending_chain : Chain
unfolding toy sum_bytes fresh add_block last_block load bytes_eq strip_prefix valid_addr hex_decode
    hex_scan hex_value hex_digit median_time sorted_times insert_sorted genesis_block
    genesis_coinbase block_hash hex_encode be_bytes header_bytes le_bytes header_field copy_field
    compute_tx_root root_preimage tx_id signing_payload itoa digits_onto rebuild_derived empty_chain
    replay_state apply_block_to_state apply_txs apply_tx credit get_account lookup insert
    replay_totals apply_block_to_totals txs_totals tx_totals get_totals sum_work work_of
    be_value_from target_int decode_field lwma_activation fee_market_activation
    deep_recovery_activation activation_height_win first_qualifying signal_count_win count_signals
    coinbase_version atoi nonempty_digits digits_value lwma_activation_c fee_market_activation_c
    index_blocks index_block index_txs supply_from mark_all mark_pow_verified contains
    validate_block validate_context check_header checkpoint_at valid64_hex wanted_target
    expected_target_c expected_target_active legacy_target legacy_next sum_targets clamp_span
    clamp_target check_pow epoch_seed_for pow_verified hash_meets_target check_coinbase total_fees
    fees_from block_subsidy block_min_fee min_fee_for_c min_fee_for_active count_txs check_body
    check_txs extend_with mp_del_all prune_mempool prune_entries target_to_hex add_tx from_addr
    sender addr_from_pub check_sig_at check_sig signing_payload_for validate_mempool_tx check_queue
    walk_sender spendable immature_coinbase find_rival replacement_min_fee mp_add mp_del
    insert_by_nonce remove_id erase
pending_chain = record fresh {
  state = (sender toy old_tx, record { balance = 1000; nonce = 0 }) ∷ [];
  pool = mp_add toy old_tx (record { mempool = []; by_sender = [] });
}

old-IsPending : IsPending (tx_id toy old_tx, old_tx) pending_chain.pool.mempool
unfolding toy sum_bytes fresh pending_chain add_block last_block load bytes_eq strip_prefix
    valid_addr hex_decode hex_scan hex_value hex_digit median_time sorted_times insert_sorted
    genesis_block genesis_coinbase block_hash hex_encode be_bytes header_bytes le_bytes header_field
    copy_field compute_tx_root root_preimage tx_id signing_payload itoa digits_onto rebuild_derived
    empty_chain replay_state apply_block_to_state apply_txs apply_tx credit get_account lookup
    insert replay_totals apply_block_to_totals txs_totals tx_totals get_totals sum_work work_of
    be_value_from target_int decode_field lwma_activation fee_market_activation
    deep_recovery_activation activation_height_win first_qualifying signal_count_win count_signals
    coinbase_version atoi nonempty_digits digits_value lwma_activation_c fee_market_activation_c
    index_blocks index_block index_txs supply_from mark_all mark_pow_verified contains
    validate_block validate_context check_header checkpoint_at valid64_hex wanted_target
    expected_target_c expected_target_active legacy_target legacy_next sum_targets clamp_span
    clamp_target check_pow epoch_seed_for pow_verified hash_meets_target check_coinbase total_fees
    fees_from block_subsidy block_min_fee min_fee_for_c min_fee_for_active count_txs check_body
    check_txs extend_with mp_del_all prune_mempool prune_entries target_to_hex add_tx from_addr
    sender addr_from_pub check_sig_at check_sig signing_payload_for validate_mempool_tx check_queue
    walk_sender spendable immature_coinbase find_rival replacement_min_fee mp_add mp_del
    insert_by_nonce remove_id erase IsPending
old-IsPending = inl refl

same_sender : HasSlot toy (sender toy new_tx) 0 old_tx
unfolding toy sum_bytes sender from_addr addr_from_pub hex_decode hex_scan hex_value
same_sender = (refl, refl)

only_pending :
    (id : Bytes) (m : Tx)
    → IsPending (id, m) pending_chain.pool.mempool
    → HasSlot toy (sender toy new_tx) 0 m
    → m ≡ old_tx
unfolding toy sum_bytes fresh pending_chain add_block last_block load bytes_eq strip_prefix
    valid_addr hex_decode hex_scan hex_value hex_digit median_time sorted_times insert_sorted
    genesis_block genesis_coinbase block_hash hex_encode be_bytes header_bytes le_bytes header_field
    copy_field compute_tx_root root_preimage tx_id signing_payload itoa digits_onto rebuild_derived
    empty_chain replay_state apply_block_to_state apply_txs apply_tx credit get_account lookup
    insert replay_totals apply_block_to_totals txs_totals tx_totals get_totals sum_work work_of
    be_value_from target_int decode_field lwma_activation fee_market_activation
    deep_recovery_activation activation_height_win first_qualifying signal_count_win count_signals
    coinbase_version atoi nonempty_digits digits_value lwma_activation_c fee_market_activation_c
    index_blocks index_block index_txs supply_from mark_all mark_pow_verified contains
    validate_block validate_context check_header checkpoint_at valid64_hex wanted_target
    expected_target_c expected_target_active legacy_target legacy_next sum_targets clamp_span
    clamp_target check_pow epoch_seed_for pow_verified hash_meets_target check_coinbase total_fees
    fees_from block_subsidy block_min_fee min_fee_for_c min_fee_for_active count_txs check_body
    check_txs extend_with mp_del_all prune_mempool prune_entries target_to_hex add_tx from_addr
    sender addr_from_pub check_sig_at check_sig signing_payload_for validate_mempool_tx check_queue
    walk_sender spendable immature_coinbase find_rival replacement_min_fee mp_add mp_del
    insert_by_nonce remove_id erase IsPending
only_pending id m (inl e) slot = ap (λ x. x.1) e
only_pending id m (inr none_else) slot = absurd none_else

new_addressed : from_addr toy new_tx ≡ ok (sender toy new_tx)
unfolding toy sum_bytes fresh add_block last_block load bytes_eq strip_prefix valid_addr hex_decode
    hex_scan hex_value hex_digit median_time sorted_times insert_sorted genesis_block
    genesis_coinbase block_hash hex_encode be_bytes header_bytes le_bytes header_field copy_field
    compute_tx_root root_preimage tx_id signing_payload itoa digits_onto rebuild_derived empty_chain
    replay_state apply_block_to_state apply_txs apply_tx credit get_account lookup insert
    replay_totals apply_block_to_totals txs_totals tx_totals get_totals sum_work work_of
    be_value_from target_int decode_field lwma_activation fee_market_activation
    deep_recovery_activation activation_height_win first_qualifying signal_count_win count_signals
    coinbase_version atoi nonempty_digits digits_value lwma_activation_c fee_market_activation_c
    index_blocks index_block index_txs supply_from mark_all mark_pow_verified contains
    validate_block validate_context check_header checkpoint_at valid64_hex wanted_target
    expected_target_c expected_target_active legacy_target legacy_next sum_targets clamp_span
    clamp_target check_pow epoch_seed_for pow_verified hash_meets_target check_coinbase total_fees
    fees_from block_subsidy block_min_fee min_fee_for_c min_fee_for_active count_txs check_body
    check_txs extend_with mp_del_all prune_mempool prune_entries target_to_hex add_tx from_addr
    sender addr_from_pub check_sig_at check_sig signing_payload_for validate_mempool_tx check_queue
    walk_sender spendable immature_coinbase find_rival replacement_min_fee mp_add mp_del
    insert_by_nonce remove_id erase
new_addressed = refl

new_taken : (add_tx toy new_tx pending_chain).0 ≡ ok tt
unfolding toy sum_bytes fresh pending_chain add_block last_block load bytes_eq strip_prefix
    valid_addr hex_decode hex_scan hex_value hex_digit median_time sorted_times insert_sorted
    genesis_block genesis_coinbase block_hash hex_encode be_bytes header_bytes le_bytes header_field
    copy_field compute_tx_root root_preimage tx_id signing_payload itoa digits_onto rebuild_derived
    empty_chain replay_state apply_block_to_state apply_txs apply_tx credit get_account lookup
    insert replay_totals apply_block_to_totals txs_totals tx_totals get_totals sum_work work_of
    be_value_from target_int decode_field lwma_activation fee_market_activation
    deep_recovery_activation activation_height_win first_qualifying signal_count_win count_signals
    coinbase_version atoi nonempty_digits digits_value lwma_activation_c fee_market_activation_c
    index_blocks index_block index_txs supply_from mark_all mark_pow_verified contains
    validate_block validate_context check_header checkpoint_at valid64_hex wanted_target
    expected_target_c expected_target_active legacy_target legacy_next sum_targets clamp_span
    clamp_target check_pow epoch_seed_for pow_verified hash_meets_target check_coinbase total_fees
    fees_from block_subsidy block_min_fee min_fee_for_c min_fee_for_active count_txs check_body
    check_txs extend_with mp_del_all prune_mempool prune_entries target_to_hex add_tx from_addr
    sender addr_from_pub check_sig_at check_sig signing_payload_for validate_mempool_tx check_queue
    walk_sender spendable immature_coinbase find_rival replacement_min_fee mp_add mp_del
    insert_by_nonce remove_id erase
new_taken = refl

add_tx-outbids_example : (old_tx.fee < new_tx.fee) × (old_tx.fee + old_tx.fee / 10 ≤ new_tx.fee)
add_tx-outbids_example =
    add_tx-outbids toy new_tx pending_chain (tx_id toy old_tx) old_tx new_addressed old-IsPending
      same_sender only_pending (omega arith) new_taken
