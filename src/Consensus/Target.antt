-- ===== src/Consensus/Target.antt =====
-- The difficulty targets, the median time and the epoch seed of core/chain.go. Times are uint64 and
-- their difference is taken in int64, so one with its top bit set is negative.
use cereblix.Prelude.{
  ℕ, ◌+◌, ◌-◌, ◌*◌, ◌/◌, ◌^◌, Bool, ◌||◌, Option, none, some, List, [], ◌∷◌, drop, length,
  get_elem?, ltb, leb, ◌==◌, if◌then◌else◌, suc,
}
use cereblix.Prelude.Bytes.{Bytes}
use cereblix.Prelude.Text.{hex_scan}
use cereblix.Prelude.Word.{sub64}
use cereblix.Types.Params.{
  block_target_spacing, retarget_window, lwma_window, epoch_length, max_target, genesis_target,
  work_of,
}
use cereblix.Types.Crypto.{Crypto}
use cereblix.Types.Block.{Block, target_int, block_hash}

-- A stored block has a target that decodes; the source drops the error.
abbrev or_zero : Option ℕ → ℕ
or_zero none = 0
or_zero (some t) = t

abbrev pub target_of : Block → ℕ
target_of b = or_zero (target_int b)

-- `int64(last) - int64(first)`, clamped to lo..hi
unfoldable pub clamp_span : ℕ → ℕ → ℕ → ℕ → ℕ
clamp_span lo hi first last =
    let d = sub64 last first in
    if leb (2 ^ 63) d || ltb d lo then lo else if ltb hi d then hi else d

abbrev time_at : Option Block → ℕ
time_at none = 0
time_at (some b) = b.time

unfoldable pub sum_targets : List Block → ℕ
sum_targets [] = 0
sum_targets (b ∷ bs) = target_of b + sum_targets bs

-- the clamp to 1..MaxTarget that ends both retargets
unfoldable pub clamp_target : ℕ → ℕ
clamp_target next = if ltb max_target next then max_target else if next == 0 then 1 else next

-- the average target of the window, scaled by the clamped time that it took
unfoldable pub legacy_next : List Block → ℕ
unfolding clamp_span sum_targets
legacy_next blocks =
    let h = length blocks in
    let window = if ltb (h - 1) retarget_window then h - 1 else retarget_window in
    let first = time_at (get_elem? blocks (h - 1 - window)) in
    let last = time_at (get_elem? blocks (h - 1)) in
    let expected = window * block_target_spacing in
    let actual = clamp_span (expected / 4) (expected * 4) first last in
    let avg = sum_targets (drop (h - window) blocks) / window in avg * actual / expected

-- legacyTarget
unfoldable pub legacy_target : List Block → ℕ
unfolding legacy_next clamp_target
legacy_target blocks =
    if ltb (length blocks) 2 then genesis_target else clamp_target (legacy_next blocks)

-- the loop over k of lwmaTarget, on the blocks after `prev`: the weighted solve times, and the work
unfoldable pub lwma_sums : ℕ → ℕ → List Block → ℕ × ℕ
unfolding clamp_span
lwma_sums k prev [] = (0, 0)
lwma_sums k prev (b ∷ bs) =
    let st = clamp_span 1 (10 * block_target_spacing) prev b.time in
    let rest = lwma_sums (suc k) b.time bs in (k * st + rest.0, work_of (target_of b) + rest.1)

abbrev lwma_from : List Block → ℕ × ℕ
lwma_from [] = (0, 0)
lwma_from (b ∷ bs) = lwma_sums 1 b.time bs

abbrev at_least_one : ℕ → ℕ
at_least_one n = if ltb n 1 then 1 else n

-- the target of the work and the weighted solve times of the window
unfoldable pub lwma_next : List Block → ℕ
unfolding lwma_sums
lwma_next blocks =
    let h = length blocks in
    let sums = lwma_from (drop (h - (lwma_window + 1)) blocks) in
    let weighted = at_least_one sums.0 in
    let next_d =
      at_least_one (sums.1 * (block_target_spacing * (lwma_window + 1)) / (2 * weighted)) in
    2 ^ 256 / next_d - 1

-- lwmaTarget
unfoldable pub lwma_target : List Block → ℕ
unfolding lwma_next clamp_target
lwma_target blocks =
    if ltb (length blocks) (lwma_window + 1)
    then legacy_target blocks
    else clamp_target (lwma_next blocks)

-- expectedTargetActive
unfoldable pub expected_target_active : List Block → Bool → ℕ
expected_target_active blocks lwma_active =
    if lwma_active then lwma_target blocks else legacy_target blocks

unfoldable pub insert_sorted : ℕ → List ℕ → List ℕ
insert_sorted t [] = t ∷ []
insert_sorted t (u ∷ us) = if leb t u then t ∷ u ∷ us else u ∷ insert_sorted t us

unfoldable pub sorted_times : List Block → List ℕ
unfolding insert_sorted
sorted_times [] = []
sorted_times (b ∷ bs) = insert_sorted b.time (sorted_times bs)

-- medianTime
unfoldable pub median_time : List Block → ℕ
unfolding sorted_times
median_time blocks =
    let n = if ltb (length blocks) 11 then length blocks else 11 in
    or_zero (get_elem? (sorted_times (drop (length blocks - n) blocks)) (n / 2))

module _ (C : Crypto) where
  abbrev seed_of : Option Block → Bytes
  seed_of none = []
  seed_of (some b) = (hex_scan (block_hash C b)).0

  -- epochSeedFor; the prefix reaches the boundary whenever height is its length
  unfoldable pub epoch_seed_for : List Block → ℕ → Bytes
  epoch_seed_for blocks height =
      let epoch = height / epoch_length in
      if epoch == 0 then C.epoch_seed0 else seed_of (get_elem? blocks (epoch * epoch_length - 1))
