-- ===== src/Consensus.antt =====
-- The rules that a block's context decides: readiness-gated upgrades (core/upgrade.go), difficulty
-- targets, the median time, the epoch seed and the fee floor (core/chain.go).
pub mod Upgrade
pub mod Activation
pub mod Target
pub mod Bounds
pub mod Fees
pub mod Suggest
