-- ===== src/Types/Params.antt =====
-- The constants of core/types.go, the block subsidy and the work of a target.
use cereblix.Prelude.{ℕ, ◌+◌, ◌*◌, ◌/◌, ◌^◌, leb, if◌then◌else◌}

abbrev pub coin_unit : ℕ
coin_unit = 100000000

abbrev pub block_target_spacing : ℕ
block_target_spacing = 60

abbrev pub retarget_window : ℕ
retarget_window = 20

abbrev pub lwma_window : ℕ
lwma_window = 90

abbrev pub halving_interval : ℕ
halving_interval = 1051200

abbrev pub initial_reward : ℕ
initial_reward = 50 * coin_unit

abbrev pub epoch_length : ℕ
epoch_length = 4096

abbrev pub max_block_txs : ℕ
max_block_txs = 200

abbrev pub max_future_drift : ℕ
max_future_drift = 300

abbrev pub coinbase_maturity : ℕ
coinbase_maturity = 100

abbrev pub maturity_height : ℕ
maturity_height = 500

abbrev pub min_fee_height : ℕ
min_fee_height = 450

abbrev pub fee_market_height : ℕ
fee_market_height = 3195

abbrev pub chain_id_height : ℕ
chain_id_height = 700

abbrev pub max_mempool_nonce_gap : ℕ
max_mempool_nonce_gap = 256

abbrev pub max_mempool_txns_per_sender : ℕ
max_mempool_txns_per_sender = 4096

abbrev pub max_target : ℕ
max_target = 2 ^ 244

abbrev pub genesis_target : ℕ
genesis_target = 2 ^ 241

-- BlockSubsidy; `>> halvings` is a division by a power of two
unfoldable pub block_subsidy : ℕ → ℕ
block_subsidy height =
    let halvings = height / halving_interval in
    if leb 33 halvings then 0 else initial_reward / 2 ^ halvings

-- WorkOf
unfoldable pub work_of : ℕ → ℕ
work_of target = 2 ^ 256 / (target + 1)
