-- ===== src/Chain/Caches.antt =====
-- The memo fields of `Chain`: verified proofs of work and signatures, and the activation heights
-- that are buried below the reorg horizon. `vmCache` and its companions are keyed by the seed that
-- they are computed from, and are not modelled.
use cereblix.Prelude.{
  ℕ, ◌/◌, Bool, false, not, ◌&&◌, ◌||◌, List, [], ◌∷◌, ◌++◌, drop, length, leb, ◌==◌, if◌then◌else◌,
}
use cereblix.Prelude.Bytes.{Bytes, bytes_eq}
use cereblix.Prelude.Word.{add64}
use cereblix.Types.Crypto.{Crypto}
use cereblix.Types.Block.{Block}
use cereblix.Consensus.Upgrade.{
  lwma_activation, fee_market_activation, deep_recovery_activation, active_at,
}
use cereblix.Consensus.Target.{expected_target_active}
use cereblix.Consensus.Fees.{min_fee_for_active}

pub record Caches : Type 0 where
  pub verified_pow : List Bytes
  pub pow_ok : List (Bytes × Bytes)
  pub sig_ok : List (Bytes × ℕ)
  pub lwma_act : ℕ
  pub fee_act : ℕ
  pub dr_act : ℕ

-- The knobs that the node sets: MaxReorgDepth, ReorgPenaltyPermille and Checkpoints.
pub record Limits : Type 0 where
  pub max_reorg_depth : ℕ
  pub reorg_penalty_permille : ℕ
  pub checkpoints : List (ℕ × Bytes)

unfoldable pub contains : Bytes → List Bytes → Bool
contains h [] = false
contains h (g ∷ gs) = bytes_eq g h || contains h gs

unfoldable pub pow_verified : Bytes → Bytes → List (Bytes × Bytes) → Bool
pow_verified seed hash [] = false
pow_verified seed hash ((s, h) ∷ ks) =
    (bytes_eq s seed && bytes_eq h hash) || pow_verified seed hash ks

-- sigPreVerified
unfoldable pub sig_pre_verified : List (Bytes × ℕ) → ℕ → Bytes → Bool
sig_pre_verified [] height id = false
sig_pre_verified ((i, h) ∷ ks) height id =
    (bytes_eq i id && h == height) || sig_pre_verified ks height id

abbrev pub max_verified_pow : ℕ
max_verified_pow = 8192

-- markPowVerified. Go evicts any half of the entries; here it is the oldest half.
unfoldable pub mark_pow_verified : Bytes → Caches → Caches
mark_pow_verified h c =
    let kept =
      if leb max_verified_pow (length c.verified_pow)
      then drop (max_verified_pow / 2) c.verified_pow
      else c.verified_pow in
    if contains h c.verified_pow then c else record c { verified_pow = kept ++ h ∷ [] }

-- `a != 0 && uint64(len(blocks)) >= a+c.MaxReorgDepth`
abbrev pub is_buried : ℕ → ℕ → List Block → Bool
is_buried a depth blocks = not (a == 0) && leb (add64 a depth) (length blocks)

-- lwmaActivationC
unfoldable pub lwma_activation_c : ℕ → List Block → Caches → ℕ × Caches
lwma_activation_c depth blocks c =
    let a = lwma_activation blocks in
    if not (c.lwma_act == 0)
    then (c.lwma_act, c)
    else if is_buried a depth blocks
    then (a, record c { lwma_act = a })
    else (a, c)

-- feeMarketActivationC
unfoldable pub fee_market_activation_c : ℕ → List Block → Caches → ℕ × Caches
fee_market_activation_c depth blocks c =
    let a = fee_market_activation blocks in
    if not (c.fee_act == 0)
    then (c.fee_act, c)
    else if is_buried a depth blocks
    then (a, record c { fee_act = a })
    else (a, c)

-- deepRecoveryActivationC
unfoldable pub deep_recovery_activation_c : ℕ → List Block → Caches → ℕ × Caches
deep_recovery_activation_c depth blocks c =
    let a = deep_recovery_activation blocks in
    if not (c.dr_act == 0)
    then (c.dr_act, c)
    else if is_buried a depth blocks
    then (a, record c { dr_act = a })
    else (a, c)

-- expectedTargetC
unfoldable pub expected_target_c : ℕ → List Block → Caches → ℕ × Caches
unfolding lwma_activation_c
expected_target_c depth blocks c =
    let (a, c') = lwma_activation_c depth blocks c in
    (expected_target_active blocks (active_at a (length blocks)), c')

-- minFeeForC
unfoldable pub min_fee_for_c : Crypto → ℕ → List Block → Caches → ℕ × Caches
unfolding fee_market_activation_c
min_fee_for_c C depth blocks c =
    let (a, c') = fee_market_activation_c depth blocks c in
    (min_fee_for_active C blocks (active_at a (length blocks)), c')

-- expectedTargetRO
unfoldable pub expected_target_ro : List Block → Caches → ℕ
expected_target_ro blocks c =
    let a = if c.lwma_act == 0 then lwma_activation blocks else c.lwma_act in
    expected_target_active blocks (active_at a (length blocks))

-- minFeeForRO
unfoldable pub min_fee_for_ro : Crypto → List Block → Caches → ℕ
min_fee_for_ro C blocks c =
    let a = if c.fee_act == 0 then fee_market_activation blocks else c.fee_act in
    min_fee_for_active C blocks (active_at a (length blocks))
