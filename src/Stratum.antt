-- ===== src/Stratum.antt =====
-- cmd/cereblix-stratum/solodiff.go: the share targets that the bridge gives to a miner. The
-- float64 feedback of onSoloShare, which moves the current difficulty, is not modelled: the share
-- target is chosen from whatever difficulty it left.
pub mod Share
use cereblix.Prelude.{ℕ, ◌+◌, ◌-◌, ◌*◌, ◌/◌, ◌^◌, Option, none, some, ltb, leb, ◌==◌, if◌then◌else◌}
use cereblix.Prelude.Bytes.{Bytes}
use cereblix.Types.Params.{max_target, work_of}
use cereblix.Types.Block.{target_to_hex}

abbrev share_diff_shift : ℕ
share_diff_shift = 12

-- targetToDiff
unfoldable pub target_to_diff : ℕ → ℕ
target_to_diff t = if t == 0 then 1 else work_of t

-- diffToTarget; 2^256/d - 1 is negative, and then 1, where d is above 2^256
unfoldable pub diff_to_target : ℕ → ℕ
diff_to_target d =
    let t = 2 ^ 256 / d - 1 in
    let low = if ltb t 1 then 1 else t in
    if d == 0 then max_target else if ltb max_target low then max_target else low

-- clampDiff
unfoldable pub clamp_diff : ℕ → ℕ → ℕ → ℕ
clamp_diff d lo hi = if ltb d lo then lo else if ltb hi d then hi else d

-- diffBounds: the easiest, the hardest and the default difficulty
unfoldable pub diff_bounds : ℕ → ℕ × ℕ × ℕ
unfolding target_to_diff
diff_bounds net =
    let hi = target_to_diff net in
    let lo = target_to_diff max_target in
    let shifted = net * 2 ^ share_diff_shift in
    let def = target_to_diff (if ltb max_target shifted then max_target else shifted) in
    let raised = if ltb def lo then lo else def in (lo, hi, if ltb hi raised then hi else raised)

-- the difficulty fields of `client`
pub record ShareState : Type 0 where
  pub fixed_diff : Option ℕ
  pub cur_diff : Option ℕ

-- the switch of shareTargetHex
unfoldable pub next_diff : ShareState → ℕ → ℕ → ℕ
unfolding clamp_diff
next_diff s lo hi = elim s.fixed_diff [
  | some d ↦ clamp_diff d lo hi
  | none ↦ elim s.cur_diff [ none ↦ lo | some d ↦ clamp_diff d lo hi ]
]

-- shareTargetHex, before the target is written out
unfoldable pub share_target : ℕ → ShareState → ℕ × ShareState
unfolding diff_bounds diff_to_target next_diff
share_target net s =
    let (lo, hi, _) = diff_bounds net in
    let d = next_diff s lo hi in
    let t = diff_to_target d in (if ltb t net then net else t, record s { cur_diff = some d })

-- shareTargetHex
unfoldable pub share_target_hex : ℕ → ShareState → Bytes × ShareState
unfolding share_target
share_target_hex net s = let (t, s') = share_target net s in (target_to_hex t, s')
