-- ===== src/Tests/Examples.antt =====
-- Each theorem of the results at a concrete input.
use cereblix.Prelude.{
  ℕ, zero, suc, ◌+◌, ◌-◌, ◌*◌, ◌^◌, ◌≤◌, ◌<◌, ◌≡◌, ◌⊎◌, refl, true, false, none, some, List, [],
  ◌∷◌, All, length, take, replicate, ◌++◌, arith,
}
use cereblix.Prelude.Bytes.{codes}
use cereblix.Prelude.Word.{u64_mod}
use cereblix.Prelude.Result.{ok}
use cereblix.Tests.{toy, sum_bytes, fresh, grown, first_block, miner, clock}
use cereblix.Chain.Caches.{is_buried}
use cereblix.Chain.Admit.{add_tx}
use cereblix.Chain.Admit.Frame.{SameButPool, add_tx-SameButPool}
use cereblix.Chain.Adopt.{add_block, extend_with, try_adopt_chain}
use cereblix.Chain.Adopt.Derived.{IsDerived, candidate_work-exact}
use cereblix.Chain.Adopt.Outcome.{Outcome}
use cereblix.Chain.Adopt.Rebuild.{add_block-IsDerived, try_adopt_chain-IsDerived}
use cereblix.Chain.Adopt.Safety.{
  SharedBelow, try_adopt_chain-work, try_adopt_chain-cap, try_adopt_chain-activation,
}
use cereblix.Chain.Caches.{
  lwma_activation_c, fee_market_activation_c, mark_pow_verified, contains, expected_target_c,
  pow_verified, min_fee_for_c,
}
use cereblix.Chain.Choice.{candidate_work, sub_work, add_work, candidate_meets_anchor}
use cereblix.Chain.Open.{load, rebuild_derived, empty_chain, mark_all}
use cereblix.Chain.Pool.{mp_del_all, prune_mempool, prune_entries}
use cereblix.Chain.Reach.{
  Reachable, started, stepped, block_step, IsSound, Reachable-IsSound, Reachable-supply,
}
use cereblix.Chain.Record.{
  replay_state, replay_totals, sum_work, index_blocks, index_block, index_txs, supply_from, Chain,
}
use cereblix.Chain.Supply.{apply_block-sum}
use cereblix.Chain.Template.{picked_txs, template_rules}
use cereblix.Chain.Template.Body.{picked_txs-Covered}
use cereblix.Chain.Validate.{
  last_block, validate_block, validate_context, check_header, checkpoint_at, wanted_target,
  check_pow, check_coinbase, block_min_fee, check_body, check_txs,
}
use cereblix.Chain.Validate.Inversion.{IsTyped, IsAccepted, Covered, validate_block-IsAccepted}
use cereblix.Chain.Views.{HistoryItem}
use cereblix.Consensus.Activation.{IsFirst, activation-IsFirst, activation_local}
use cereblix.Consensus.Bounds.{expected_target-InRange}
use cereblix.Consensus.Fees.{min_fee_for_active, count_txs, suggest_fee, at_least}
use cereblix.Consensus.Suggest.{count_rivals, suggest_fee-clears}
use cereblix.Consensus.Target.{
  median_time, sorted_times, insert_sorted, expected_target_active, legacy_target, legacy_next,
  sum_targets, clamp_span, clamp_target, epoch_seed_for,
}
use cereblix.Consensus.Upgrade.{
  lwma_activation, fee_market_activation, deep_recovery_activation, activation_height_win,
  first_qualifying, signal_count_win, count_signals, coinbase_version, first_height,
}
use cereblix.Ledger.{apply_block_to_state, apply_txs, apply_tx, credit, get_account}
use cereblix.Ledger.Supply.{sum_balances}
use cereblix.Ledger.Totals.{apply_block_to_totals, txs_totals, tx_totals, get_totals}
use cereblix.Neuromorph.{derive_params}
use cereblix.Neuromorph.Ranges.{derive_params-ranges}
use cereblix.Prelude.Bytes.{bytes_eq, strip_prefix}
use cereblix.Prelude.Map.{lookup, insert}
use cereblix.Prelude.Text.{
  hex_decode, hex_scan, hex_value, hex_digit, hex_encode, be_bytes, le_bytes, itoa, digits_onto,
  be_value_from, atoi, nonempty_digits, digits_value,
}
use cereblix.Store.{encode_hist_row, decode_hist_row, addr_bucket, put_block, delete_block}
use cereblix.Store.Codec.{decode-encode_hist_row}
use cereblix.Store.Mirror.{keys_put, keys_deleted, delete-put_block}
use cereblix.Stratum.{ShareState, share_target}
use cereblix.Stratum.Share.{share_target-range}
use cereblix.Types.Block.{
  block_hash, header_bytes, header_field, copy_field, compute_tx_root, root_preimage, target_int,
  hash_meets_target, total_fees, fees_from, target_to_hex,
}
use cereblix.Types.Emission.{emission, emission-le, subsidy-antitone}
use cereblix.Types.Genesis.{genesis_block, genesis_coinbase}
use cereblix.Types.Params.{
  work_of, block_subsidy, coin_unit, halving_interval, max_target, genesis_target,
}
use cereblix.Types.Tx.{valid_addr, tx_id, signing_payload, decode_field, valid64_hex, Tx}

fresh-Reachable : Reachable toy fresh
unfolding fresh load
fresh-Reachable = started refl

fresh-IsDerived : IsDerived toy fresh
fresh-IsDerived = (Reachable-IsSound toy fresh-Reachable).derived

grown-Reachable : Reachable toy grown
unfolding fresh grown load
grown-Reachable = stepped fresh-Reachable (
    block_step first_block clock true fresh
      (record { amount = omega arith; fee = omega arith }, tt))

Reachable-supply_example :
    (grown.supply ≡ emission (length grown.blocks - 1)) × (grown.supply ≤ 105120000 * coin_unit)
Reachable-supply_example = Reachable-supply toy grown-Reachable

Reachable-IsSound_example : IsSound toy grown
Reachable-IsSound_example = Reachable-IsSound toy grown-Reachable

add_block-IsDerived_example : IsDerived toy grown
unfolding grown
add_block-IsDerived_example = add_block-IsDerived toy first_block clock true fresh fresh-IsDerived

try_adopt_chain-IsDerived_example :
    IsDerived toy (try_adopt_chain toy 1 (first_block ∷ []) clock true fresh).1
try_adopt_chain-IsDerived_example =
    try_adopt_chain-IsDerived toy 1 (first_block ∷ []) clock true fresh fresh-IsDerived

fresh_penalty : (length fresh.blocks - 1) * fresh.limits.reorg_penalty_permille < 2 ^ 63
unfolding fresh load
fresh_penalty = omega arith

try_adopt_chain-work_example :
    ((try_adopt_chain toy 1 (first_block ∷ []) clock true fresh).1.blocks ≡ fresh.blocks)
    ⊎ ((fresh.cum_work < (try_adopt_chain toy 1 (first_block ∷ []) clock true fresh).1.cum_work)
        ⊎ (((try_adopt_chain toy 1 (first_block ∷ []) clock true fresh).1.cum_work ≡ fresh.cum_work)
            × (length fresh.blocks - 1 ≡ 1)))
try_adopt_chain-work_example =
    try_adopt_chain-work toy 1 (first_block ∷ []) clock true fresh fresh-IsDerived fresh_penalty

-- the grown chain with a reorg cap of one block
capped : Chain
capped = record grown { limits = record grown.limits { max_reorg_depth = 1 } }

capped-IsDerived : IsDerived toy capped
unfolding capped
capped-IsDerived =
    let d = add_block-IsDerived_example in
    record {
      state = d.state;
      totals = d.totals;
      cum_work = d.cum_work;
      supply = d.supply;
      index = d.index;
    }

capped_no_anchor : candidate_meets_anchor toy capped.auth_anchor 1 (first_block ∷ []) ≡ false
unfolding capped candidate_meets_anchor toy sum_bytes fresh grown add_block last_block load bytes_eq
    strip_prefix valid_addr hex_decode hex_scan hex_value hex_digit median_time sorted_times
    insert_sorted genesis_block genesis_coinbase block_hash hex_encode be_bytes header_bytes
    le_bytes header_field copy_field compute_tx_root root_preimage tx_id signing_payload itoa
    digits_onto rebuild_derived empty_chain replay_state apply_block_to_state apply_txs apply_tx
    credit get_account lookup insert replay_totals apply_block_to_totals txs_totals tx_totals
    get_totals sum_work work_of be_value_from target_int decode_field lwma_activation
    fee_market_activation deep_recovery_activation activation_height_win first_qualifying
    signal_count_win count_signals coinbase_version atoi nonempty_digits digits_value
    lwma_activation_c fee_market_activation_c index_blocks index_block index_txs supply_from
    mark_all mark_pow_verified contains validate_block validate_context check_header checkpoint_at
    valid64_hex wanted_target expected_target_c expected_target_active legacy_target legacy_next
    sum_targets clamp_span clamp_target check_pow epoch_seed_for pow_verified hash_meets_target
    check_coinbase total_fees fees_from block_subsidy block_min_fee min_fee_for_c min_fee_for_active
    count_txs check_body check_txs extend_with mp_del_all prune_mempool prune_entries target_to_hex
capped_no_anchor = refl

capped_positive : 0 < capped.limits.max_reorg_depth
unfolding capped
capped_positive = omega arith

capped_small : 1 + capped.limits.max_reorg_depth < u64_mod
unfolding capped
capped_small = omega arith

capped_active : activation_height_win capped.blocks 0 1 1 1 ≡ 1
unfolding capped toy sum_bytes fresh grown add_block last_block load bytes_eq strip_prefix
    valid_addr hex_decode hex_scan hex_value hex_digit median_time sorted_times insert_sorted
    genesis_block genesis_coinbase block_hash hex_encode be_bytes header_bytes le_bytes header_field
    copy_field compute_tx_root root_preimage tx_id signing_payload itoa digits_onto rebuild_derived
    empty_chain replay_state apply_block_to_state apply_txs apply_tx credit get_account lookup
    insert replay_totals apply_block_to_totals txs_totals tx_totals get_totals sum_work work_of
    be_value_from target_int decode_field lwma_activation fee_market_activation
    deep_recovery_activation activation_height_win first_qualifying signal_count_win count_signals
    coinbase_version atoi nonempty_digits digits_value lwma_activation_c fee_market_activation_c
    index_blocks index_block index_txs supply_from mark_all mark_pow_verified contains
    validate_block validate_context check_header checkpoint_at valid64_hex wanted_target
    expected_target_c expected_target_active legacy_target legacy_next sum_targets clamp_span
    clamp_target check_pow epoch_seed_for pow_verified hash_meets_target check_coinbase total_fees
    fees_from block_subsidy block_min_fee min_fee_for_c min_fee_for_active count_txs check_body
    check_txs extend_with mp_del_all prune_mempool prune_entries target_to_hex
capped_active = refl

capped_buried : is_buried 1 capped.limits.max_reorg_depth capped.blocks ≡ true
unfolding capped toy sum_bytes fresh grown add_block last_block load bytes_eq strip_prefix
    valid_addr hex_decode hex_scan hex_value hex_digit median_time sorted_times insert_sorted
    genesis_block genesis_coinbase block_hash hex_encode be_bytes header_bytes le_bytes header_field
    copy_field compute_tx_root root_preimage tx_id signing_payload itoa digits_onto rebuild_derived
    empty_chain replay_state apply_block_to_state apply_txs apply_tx credit get_account lookup
    insert replay_totals apply_block_to_totals txs_totals tx_totals get_totals sum_work work_of
    be_value_from target_int decode_field lwma_activation fee_market_activation
    deep_recovery_activation activation_height_win first_qualifying signal_count_win count_signals
    coinbase_version atoi nonempty_digits digits_value lwma_activation_c fee_market_activation_c
    index_blocks index_block index_txs supply_from mark_all mark_pow_verified contains
    validate_block validate_context check_header checkpoint_at valid64_hex wanted_target
    expected_target_c expected_target_active legacy_target legacy_next sum_targets clamp_span
    clamp_target check_pow epoch_seed_for pow_verified hash_meets_target check_coinbase total_fees
    fees_from block_subsidy block_min_fee min_fee_for_c min_fee_for_active count_txs check_body
    check_txs extend_with mp_del_all prune_mempool prune_entries target_to_hex
capped_buried = refl

try_adopt_chain-cap_example :
    SharedBelow toy
      (length capped.blocks - capped.limits.max_reorg_depth)
      capped.blocks
      (try_adopt_chain toy 1 (first_block ∷ []) clock true capped).1.blocks
try_adopt_chain-cap_example =
    try_adopt_chain-cap toy 1 (first_block ∷ []) clock true capped capped-IsDerived capped_positive
      capped_no_anchor

try_adopt_chain-activation_example :
    activation_height_win
      (try_adopt_chain toy 1 (first_block ∷ []) clock true capped).1.blocks
      0
      1
      1
      1
    ≡ 1
try_adopt_chain-activation_example =
    try_adopt_chain-activation toy 1 (first_block ∷ []) clock true capped 0 1 1 1 1 capped-IsDerived
      capped_positive capped_no_anchor (omega arith) capped_small capped_active capped_buried

first_block_valid :
    (validate_block toy fresh.limits fresh.blocks fresh.state first_block clock fresh.caches).0
    ≡ ok fresh.state
unfolding toy sum_bytes fresh grown add_block last_block load bytes_eq strip_prefix valid_addr
    hex_decode hex_scan hex_value hex_digit median_time sorted_times insert_sorted genesis_block
    genesis_coinbase block_hash hex_encode be_bytes header_bytes le_bytes header_field copy_field
    compute_tx_root root_preimage tx_id signing_payload itoa digits_onto rebuild_derived empty_chain
    replay_state apply_block_to_state apply_txs apply_tx credit get_account lookup insert
    replay_totals apply_block_to_totals txs_totals tx_totals get_totals sum_work work_of
    be_value_from target_int decode_field lwma_activation fee_market_activation
    deep_recovery_activation activation_height_win first_qualifying signal_count_win count_signals
    coinbase_version atoi nonempty_digits digits_value lwma_activation_c fee_market_activation_c
    index_blocks index_block index_txs supply_from mark_all mark_pow_verified contains
    validate_block validate_context check_header checkpoint_at valid64_hex wanted_target
    expected_target_c expected_target_active legacy_target legacy_next sum_targets clamp_span
    clamp_target check_pow epoch_seed_for pow_verified hash_meets_target check_coinbase total_fees
    fees_from block_subsidy block_min_fee min_fee_for_c min_fee_for_active count_txs check_body
    check_txs extend_with mp_del_all prune_mempool prune_entries target_to_hex
first_block_valid = refl

validate_block-IsAccepted_example : IsAccepted toy fresh.blocks fresh.state first_block
validate_block-IsAccepted_example =
    validate_block-IsAccepted toy fresh.limits fresh.blocks fresh.state first_block clock
      fresh.caches (record { amount = omega arith; fee = omega arith }, tt) first_block_valid

fresh_room : 2 * sum_balances fresh.state + block_subsidy first_block.height < u64_mod
unfolding toy sum_bytes fresh grown add_block last_block load bytes_eq strip_prefix valid_addr
    hex_decode hex_scan hex_value hex_digit median_time sorted_times insert_sorted genesis_block
    genesis_coinbase block_hash hex_encode be_bytes header_bytes le_bytes header_field copy_field
    compute_tx_root root_preimage tx_id signing_payload itoa digits_onto rebuild_derived empty_chain
    replay_state apply_block_to_state apply_txs apply_tx credit get_account lookup insert
    replay_totals apply_block_to_totals txs_totals tx_totals get_totals sum_work work_of
    be_value_from target_int decode_field lwma_activation fee_market_activation
    deep_recovery_activation activation_height_win first_qualifying signal_count_win count_signals
    coinbase_version atoi nonempty_digits digits_value lwma_activation_c fee_market_activation_c
    index_blocks index_block index_txs supply_from mark_all mark_pow_verified contains
    validate_block validate_context check_header checkpoint_at valid64_hex wanted_target
    expected_target_c expected_target_active legacy_target legacy_next sum_targets clamp_span
    clamp_target check_pow epoch_seed_for pow_verified hash_meets_target check_coinbase total_fees
    fees_from block_subsidy block_min_fee min_fee_for_c min_fee_for_active count_txs check_body
    check_txs extend_with mp_del_all prune_mempool prune_entries target_to_hex sum_balances
fresh_room = omega arith

apply_block-sum_example :
    sum_balances (apply_block_to_state toy fresh.state first_block)
    ≡ sum_balances fresh.state + block_subsidy first_block.height
apply_block-sum_example =
    apply_block-sum toy fresh.blocks fresh.state first_block validate_block-IsAccepted_example
      fresh_room

activation-IsFirst_example :
    IsFirst grown.blocks 1 1 1 (first_height 0 1) (activation_height_win grown.blocks 0 1 1 1)
activation-IsFirst_example = activation-IsFirst grown.blocks 0 1 1 1 (omega arith)

fresh_active : activation_height_win fresh.blocks 0 1 1 1 ≡ 1
unfolding toy sum_bytes fresh grown add_block last_block load bytes_eq strip_prefix valid_addr
    hex_decode hex_scan hex_value hex_digit median_time sorted_times insert_sorted genesis_block
    genesis_coinbase block_hash hex_encode be_bytes header_bytes le_bytes header_field copy_field
    compute_tx_root root_preimage tx_id signing_payload itoa digits_onto rebuild_derived empty_chain
    replay_state apply_block_to_state apply_txs apply_tx credit get_account lookup insert
    replay_totals apply_block_to_totals txs_totals tx_totals get_totals sum_work work_of
    be_value_from target_int decode_field lwma_activation fee_market_activation
    deep_recovery_activation activation_height_win first_qualifying signal_count_win count_signals
    coinbase_version atoi nonempty_digits digits_value lwma_activation_c fee_market_activation_c
    index_blocks index_block index_txs supply_from mark_all mark_pow_verified contains
    validate_block validate_context check_header checkpoint_at valid64_hex wanted_target
    expected_target_c expected_target_active legacy_target legacy_next sum_targets clamp_span
    clamp_target check_pow epoch_seed_for pow_verified hash_meets_target check_coinbase total_fees
    fees_from block_subsidy block_min_fee min_fee_for_c min_fee_for_active count_txs check_body
    check_txs extend_with mp_del_all prune_mempool prune_entries target_to_hex
fresh_active = refl

grown_long : 1 ≤ length grown.blocks
unfolding toy sum_bytes fresh grown add_block last_block load bytes_eq strip_prefix valid_addr
    hex_decode hex_scan hex_value hex_digit median_time sorted_times insert_sorted genesis_block
    genesis_coinbase block_hash hex_encode be_bytes header_bytes le_bytes header_field copy_field
    compute_tx_root root_preimage tx_id signing_payload itoa digits_onto rebuild_derived empty_chain
    replay_state apply_block_to_state apply_txs apply_tx credit get_account lookup insert
    replay_totals apply_block_to_totals txs_totals tx_totals get_totals sum_work work_of
    be_value_from target_int decode_field lwma_activation fee_market_activation
    deep_recovery_activation activation_height_win first_qualifying signal_count_win count_signals
    coinbase_version atoi nonempty_digits digits_value lwma_activation_c fee_market_activation_c
    index_blocks index_block index_txs supply_from mark_all mark_pow_verified contains
    validate_block validate_context check_header checkpoint_at valid64_hex wanted_target
    expected_target_c expected_target_active legacy_target legacy_next sum_targets clamp_span
    clamp_target check_pow epoch_seed_for pow_verified hash_meets_target check_coinbase total_fees
    fees_from block_subsidy block_min_fee min_fee_for_c min_fee_for_active count_txs check_body
    check_txs extend_with mp_del_all prune_mempool prune_entries target_to_hex
grown_long = omega arith

same_genesis : take 1 fresh.blocks ≡ take 1 grown.blocks
unfolding toy sum_bytes fresh grown add_block last_block load bytes_eq strip_prefix valid_addr
    hex_decode hex_scan hex_value hex_digit median_time sorted_times insert_sorted genesis_block
    genesis_coinbase block_hash hex_encode be_bytes header_bytes le_bytes header_field copy_field
    compute_tx_root root_preimage tx_id signing_payload itoa digits_onto rebuild_derived empty_chain
    replay_state apply_block_to_state apply_txs apply_tx credit get_account lookup insert
    replay_totals apply_block_to_totals txs_totals tx_totals get_totals sum_work work_of
    be_value_from target_int decode_field lwma_activation fee_market_activation
    deep_recovery_activation activation_height_win first_qualifying signal_count_win count_signals
    coinbase_version atoi nonempty_digits digits_value lwma_activation_c fee_market_activation_c
    index_blocks index_block index_txs supply_from mark_all mark_pow_verified contains
    validate_block validate_context check_header checkpoint_at valid64_hex wanted_target
    expected_target_c expected_target_active legacy_target legacy_next sum_targets clamp_span
    clamp_target check_pow epoch_seed_for pow_verified hash_meets_target check_coinbase total_fees
    fees_from block_subsidy block_min_fee min_fee_for_c min_fee_for_active count_txs check_body
    check_txs extend_with mp_del_all prune_mempool prune_entries target_to_hex
same_genesis = refl

activation_local_example : activation_height_win grown.blocks 0 1 1 1 ≡ 1
activation_local_example =
    activation_local fresh.blocks grown.blocks 0 1 1 1 1 (omega arith) fresh_active
      (λ e. omega (arith, e)) grown_long same_genesis

emission-le_example : emission 3000000 ≤ 105120000 * coin_unit
emission-le_example = emission-le 3000000

subsidy-antitone_example : block_subsidy (7 + halving_interval) * 2 ≤ block_subsidy 7
subsidy-antitone_example = subsidy-antitone 7

expected_target-InRange_example :
    (1 ≤ expected_target_active grown.blocks false)
    × (expected_target_active grown.blocks false ≤ max_target)
expected_target-InRange_example = expected_target-InRange grown.blocks false

abbrev waiting_fees : List ℕ
waiting_fees = replicate 250 5000

small_fees : (n : ℕ) → All (λ f. f ≤ 2 ^ 63) (replicate n 5000)
small_fees zero = tt
small_fees (suc n) = (omega arith, small_fees n)

suggest_fee-clears_example :
    (1000 ≤ suggest_fee waiting_fees 1000)
    × (count_rivals (suggest_fee waiting_fees 1000) waiting_fees ≤ 199)
    × (199 < length (at_least 1000 waiting_fees)
        → count_rivals (suggest_fee waiting_fees 1000) waiting_fees < 199)
suggest_fee-clears_example = suggest_fee-clears waiting_fees 1000 (small_fees 250)

-- the fresh chain with a pending transaction
transfer : Tx
transfer = record { from_pub = codes "ab"; to = miner; amount = 5; fee = 1; nonce = 0; sig = [] }

busy : Chain
unfolding transfer
busy = record fresh { pool = record { mempool = (codes "id", transfer) ∷ []; by_sender = [] } }

busy-IsTyped : All (λ e. IsTyped e.1) busy.pool.mempool
unfolding busy transfer
busy-IsTyped = (record { amount = omega arith; fee = omega arith }, tt)

picked_txs-Covered_example :
    Covered toy busy.state (picked_txs toy busy)
    × All (λ t. (template_rules toy busy).floor ≤ t.fee) (picked_txs toy busy)
    × (length (picked_txs toy busy) ≤ 199)
picked_txs-Covered_example = picked_txs-Covered toy busy busy-IsTyped

add_tx-SameButPool_example : SameButPool grown (add_tx toy transfer grown).1
add_tx-SameButPool_example = add_tx-SameButPool toy transfer grown

abbrev row : HistoryItem
row = record {
  txid = codes "a1b2";
  height = 7;
  time = 1781136060;
  from = codes "coinbase";
  to = miner;
  amount = 50 * coin_unit;
  fee = 0;
}

decode-encode_hist_row_example : decode_hist_row (encode_hist_row row) 7 ≡ some row
decode-encode_hist_row_example =
    decode-encode_hist_row row (omega arith) (omega arith) (omega arith) (omega arith) (omega arith)
      (omega arith)

delete-put_block_example :
    keys_deleted addr_bucket (delete_block toy first_block)
    ≡ keys_put addr_bucket (put_block toy (codes "{}") first_block)
delete-put_block_example = delete-put_block toy first_block addr_bucket (codes "{}")

derive_params-ranges_example :
    let p = derive_params toy (codes "seed") in
    (384 ≤ p.prog_size)
    × (p.prog_size ≤ 768)
    × (32 ≤ p.loops)
    × (p.loops ≤ 64)
    × (p.branch_mask < 2 ^ 31)
    × (length p.op_table ≡ 256)
    × All (λ op. op < 15) p.op_table
derive_params-ranges_example = derive_params-ranges toy (codes "seed")

abbrev pinned : ShareState
pinned = record { fixed_diff = some 50000; cur_diff = none }

share_target-range_example :
    (genesis_target ≤ (share_target genesis_target pinned).0)
    × (1 ≤ (share_target genesis_target pinned).0)
    × ((share_target genesis_target pinned).0 ≤ max_target)
share_target-range_example = share_target-range genesis_target pinned (omega arith)

abbrev first_work : ℕ
first_work = 2 * work_of genesis_target

fresh_candidate : candidate_work fresh 1 (first_block ∷ []) ≡ ok first_work
unfolding toy sum_bytes fresh grown add_block last_block load bytes_eq strip_prefix valid_addr
    hex_decode hex_scan hex_value hex_digit median_time sorted_times insert_sorted genesis_block
    genesis_coinbase block_hash hex_encode be_bytes header_bytes le_bytes header_field copy_field
    compute_tx_root root_preimage tx_id signing_payload itoa digits_onto rebuild_derived empty_chain
    replay_state apply_block_to_state apply_txs apply_tx credit get_account lookup insert
    replay_totals apply_block_to_totals txs_totals tx_totals get_totals sum_work work_of
    be_value_from target_int decode_field lwma_activation fee_market_activation
    deep_recovery_activation activation_height_win first_qualifying signal_count_win count_signals
    coinbase_version atoi nonempty_digits digits_value lwma_activation_c fee_market_activation_c
    index_blocks index_block index_txs supply_from mark_all mark_pow_verified contains
    validate_block validate_context check_header checkpoint_at valid64_hex wanted_target
    expected_target_c expected_target_active legacy_target legacy_next sum_targets clamp_span
    clamp_target check_pow epoch_seed_for pow_verified hash_meets_target check_coinbase total_fees
    fees_from block_subsidy block_min_fee min_fee_for_c min_fee_for_active count_txs check_body
    check_txs extend_with mp_del_all prune_mempool prune_entries target_to_hex candidate_work
    sub_work add_work
fresh_candidate = refl

candidate_work-exact_example : first_work ≡ sum_work (take 1 fresh.blocks ++ first_block ∷ [])
candidate_work-exact_example =
    candidate_work-exact fresh 1 (first_block ∷ []) fresh-IsDerived.cum_work fresh_candidate
