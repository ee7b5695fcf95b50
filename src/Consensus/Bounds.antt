-- ===== src/Consensus/Bounds.antt =====
-- The range of the difficulty targets of core/chain.go.
use cereblix.Prelude.{ℕ, ◌+◌, ◌≤◌, Bool, true, false, List, length, arith, ltb, if◌then◌else◌}
use cereblix.Types.Params.{max_target, genesis_target, lwma_window}
use cereblix.Types.Block.{Block}
use cereblix.Consensus.Target.{
  clamp_target, legacy_next, lwma_next, legacy_target, lwma_target, expected_target_active,
}

abbrev pub InRange : ℕ → Type 0
InRange t = (1 ≤ t) × (t ≤ max_target)

clamp_target-InRange : (n : ℕ) → InRange (clamp_target n)
unfolding clamp_target
clamp_target-InRange n = ground arith

genesis-InRange : InRange genesis_target
genesis-InRange = (omega arith, omega arith)

if-InRange : (b : Bool) (x n : ℕ) → InRange x → InRange (if b then x else clamp_target n)
if-InRange true x n h = h
if-InRange false x n h = clamp_target-InRange n

legacy_target-InRange : (blocks : List Block) → InRange (legacy_target blocks)
unfolding legacy_target
legacy_target-InRange blocks =
    if-InRange (ltb (length blocks) 2) genesis_target (legacy_next blocks) genesis-InRange

lwma_target-InRange : (blocks : List Block) → InRange (lwma_target blocks)
unfolding lwma_target
lwma_target-InRange blocks =
    if-InRange (ltb (length blocks) (lwma_window + 1)) (legacy_target blocks) (lwma_next blocks)
      (legacy_target-InRange blocks)

-- Under either rule, the target that the next block must have lies between 1 and MaxTarget.
pub expected_target-InRange :
    (blocks : List Block) (lwma_active : Bool)
    → (1 ≤ expected_target_active blocks lwma_active)
      × (expected_target_active blocks lwma_active ≤ max_target)
unfolding expected_target_active
expected_target-InRange blocks true = lwma_target-InRange blocks
expected_target-InRange blocks false = legacy_target-InRange blocks
