-- ===== src/Types/Crypto.antt =====
-- What consensus takes from elsewhere: crypto/sha256, crypto/ed25519, the hash of the neuromorph
-- package (at an epoch seed, a header and a height) with the seed of epoch 0, the genesis hash, and
-- float64 arithmetic on 64-bit patterns.
use cereblix.Prelude.{ℕ, Bool}
use cereblix.Prelude.Bytes.{Bytes}

pub record Crypto : Type 0 where
  pub sha256 : Bytes → Bytes
  pub ed25519_verify : Bytes → Bytes → Bytes → Bool
  pub nm_hash : Bytes → Bytes → ℕ → Bytes
  pub epoch_seed0 : Bytes
  pub chain_id : Bytes
  pub f64_of_int : ℕ → ℕ
  pub f64_add : ℕ → ℕ → ℕ
  pub f64_mul : ℕ → ℕ → ℕ
  pub f64_div : ℕ → ℕ → ℕ
  pub f64_to_uint : ℕ → ℕ
