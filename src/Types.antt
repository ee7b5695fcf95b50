-- ===== src/Types.antt =====
-- core/types.go: the consensus constants, transactions, blocks, and their encodings. The caches
-- `id`, `fromAddr` and `hash` hold what the functions below compute, and are not modelled.
pub mod Params
pub mod Crypto
pub mod Tx
pub mod Block
pub mod Genesis
pub mod Emission
pub use Params.*
