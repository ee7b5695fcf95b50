-- ===== src/Stratum/Share.antt =====
-- What a share target of cmd/cereblix-stratum/solodiff.go guarantees.
use cereblix.Prelude.{ℕ, ◌≤◌, arith, ltb, if◌then◌else◌}
use cereblix.Types.Params.{max_target}
use cereblix.Stratum.{diff_to_target, diff_bounds, ShareState, next_diff, share_target}

diff_to_target-range : (d : ℕ) → (1 ≤ diff_to_target d) × (diff_to_target d ≤ max_target)
unfolding diff_to_target
diff_to_target-range d = ground arith

easier :
    (t net : ℕ)
    → (1 ≤ t) × (t ≤ max_target)
    → net ≤ max_target
    → (net ≤ (if ltb t net then net else t))
      × (1 ≤ (if ltb t net then net else t))
      × ((if ltb t net then net else t) ≤ max_target)
easier t net range le = ground arith

-- For a network target of at most MaxTarget, a share target is never harder than the network's, is
-- positive, and is never easier than MaxTarget, whatever difficulty the miner asked for or has.
pub share_target-range :
    (net : ℕ) (s : ShareState)
    → net ≤ max_target
    → (net ≤ (share_target net s).0)
      × (1 ≤ (share_target net s).0)
      × ((share_target net s).0 ≤ max_target)
unfolding share_target
share_target-range net s le =
    let (lo, hi, def) = diff_bounds net in
    easier (diff_to_target (next_diff s lo hi)) net (diff_to_target-range (next_diff s lo hi)) le
