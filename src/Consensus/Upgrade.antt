-- ===== src/Consensus/Upgrade.antt =====
-- core/upgrade.go: each block votes by the version in its coinbase, and a rule locks in at the first
-- height whose window of preceding blocks has enough votes.
use cereblix.Prelude.{
  ℕ, ◌+◌, ◌-◌, ◌*◌, ◌/◌, zero, suc, Bool, true, false, not, ◌&&◌, ◌||◌, Option, none, some, List,
  [], ◌∷◌, take, drop, length, ltb, leb, ◌==◌, if◌then◌else◌,
}
use cereblix.Prelude.Bytes.{Bytes, codes, strip_prefix}
use cereblix.Prelude.Text.{atoi}
use cereblix.Types.Params.{fee_market_height}
use cereblix.Types.Tx.{Tx}
use cereblix.Types.Block.{Block}

abbrev pub node_consensus_version : ℕ
node_consensus_version = 4

abbrev pub fee_market_version : ℕ
fee_market_version = 2

abbrev pub lwma_version : ℕ
lwma_version = 3

abbrev pub deep_recovery_version : ℕ
deep_recovery_version = 4

abbrev pub signal_window : ℕ
signal_window = 100

abbrev pub signal_threshold : ℕ
signal_threshold = 80

abbrev pub lwma_threshold : ℕ
lwma_threshold = 90

abbrev pub deep_recovery_window : ℕ
deep_recovery_window = 50

-- deepRecoveryRequired
abbrev pub deep_recovery_required : ℕ
deep_recovery_required = (deep_recovery_window * 95 + 99) / 100

abbrev pub coinbase_tag_prefix : Bytes
coinbase_tag_prefix = codes "crbnode/"

-- an unreadable or negative number, and 0, count as version 1
abbrev version_of_number : Option (Bool × ℕ) → ℕ
version_of_number none = 1
version_of_number (some (true, _)) = 1
version_of_number (some (false, v)) = if ltb v 1 then 1 else v

abbrev version_of_tag : Option Bytes → ℕ
version_of_tag none = 1
version_of_tag (some rest) = version_of_number (atoi rest)

abbrev version_of_txs : List Tx → ℕ
version_of_txs [] = 1
version_of_txs (t ∷ _) = version_of_tag (strip_prefix coinbase_tag_prefix t.sig)

-- coinbaseVersion
unfoldable pub coinbase_version : Block → ℕ
coinbase_version b = version_of_txs b.txs

unfoldable pub count_signals : ℕ → List Block → ℕ
count_signals required [] = 0
count_signals required (b ∷ bs) =
    if leb required (coinbase_version b)
    then suc (count_signals required bs)
    else count_signals required bs

-- signalCountWin: the loop from at - window to at is a walk over that slice
unfoldable pub signal_count_win : List Block → ℕ → ℕ → ℕ → ℕ
unfolding count_signals
signal_count_win blocks at required window =
    if window == 0 || ltb at window || ltb (length blocks) at
    then 0
    else count_signals required (take window (drop (at - window) blocks))

-- the loop `for a := start; a <= n; a++`, with the rounds that are left
unfoldable pub first_qualifying : List Block → ℕ → ℕ → ℕ → ℕ → ℕ → ℕ
first_qualifying blocks required threshold window zero a = 0
first_qualifying blocks required threshold window (suc rounds) a =
    let later = first_qualifying blocks required threshold window rounds (suc a) in
    if leb threshold (signal_count_win blocks a required window) then a else later

abbrev pub first_height : ℕ → ℕ → ℕ
first_height floor window = if ltb floor window then window else floor

-- activationHeightWin
unfoldable pub activation_height_win : List Block → ℕ → ℕ → ℕ → ℕ → ℕ
unfolding first_qualifying
activation_height_win blocks floor required threshold window =
    let n = length blocks in
    let start = first_height floor window in
    if ltb n floor
    then 0
    else first_qualifying blocks required threshold window (suc n - start) start

-- feeMarketActivation, by activationHeight
unfoldable pub fee_market_activation : List Block → ℕ
fee_market_activation blocks =
    activation_height_win blocks fee_market_height fee_market_version signal_threshold signal_window

-- lwmaActivation, by activationHeight
unfoldable pub lwma_activation : List Block → ℕ
lwma_activation blocks = activation_height_win blocks 0 lwma_version lwma_threshold signal_window

-- deepRecoveryActivation
unfoldable pub deep_recovery_activation : List Block → ℕ
deep_recovery_activation blocks =
    activation_height_win blocks 0 deep_recovery_version deep_recovery_required deep_recovery_window

-- `a != 0 && height >= a`, as the ActiveAt functions test it
abbrev pub active_at : ℕ → ℕ → Bool
active_at a height = not (a == 0) && leb a height
