-- ===== src/Chain.antt =====
-- The consensus engine of core/chain.go: the main chain, the account state, the mempool, and the
-- operations that change them.
pub mod Caches
pub mod Validate
pub mod Record
pub mod Pool
pub mod Admit
pub mod Open
pub mod Supply
pub mod Choice
pub mod Adopt
pub mod History
pub mod Finality
pub mod Preverify
pub mod Reach
pub mod Template
pub mod Views
