-- ===== src/Chain/Choice.antt =====
-- The fork choice of TryAdoptChain in core/chain.go: the candidate's work, the threshold that it has
-- to exceed, the tie-break, and the checkpoint and anchor tests.
use cereblix.Prelude.{
  ℕ, ◌+◌, ◌-◌, ◌*◌, ◌/◌, ◌%◌, ◌^◌, Bool, false, not, ◌&&◌, ◌||◌, Option, none, some, List, [], ◌∷◌,
  drop, get_elem?, ltb, leb, ◌==◌, if◌then◌else◌,
}
use cereblix.Prelude.Bytes.{Bytes, bytes_eq, bytes_ltb}
use cereblix.Prelude.Word.{u64_mod}
use cereblix.Prelude.Result.{Result, ok, err, ◌>>=◌}
use cereblix.Types.Params.{work_of}
use cereblix.Types.Crypto.{Crypto}
use cereblix.Types.Block.{Block, target_int, block_hash}
use cereblix.Chain.Validate.{BlockError, insufficient_work, or_bad_target, last_block}
use cereblix.Chain.Record.{Chain, Checkpoint}

-- the header-only work of a candidate: a block with a bad target is refused
unfoldable pub add_work : ℕ → List Block → Result BlockError ℕ
add_work work [] = ok work
add_work work (b ∷ bs) = or_bad_target (target_int b) >>= λ t. add_work (work + work_of t) bs

unfoldable pub sub_work : ℕ → List Block → Result BlockError ℕ
sub_work work [] = ok work
sub_work work (b ∷ bs) = or_bad_target (target_int b) >>= λ t. sub_work (work - work_of t) bs

-- `candWork`: our work, less the blocks that would go, plus the candidate's
unfoldable pub candidate_work : Chain → ℕ → List Block → Result BlockError ℕ
unfolding add_work sub_work
candidate_work c start nb = do kept ← sub_work c.cum_work (drop start c.blocks); add_work kept nb

-- `extra`, of a work, as a test on the sum: the permille times the depth wraps around to an int64, and
-- the division by 1000 rounds down
abbrev pub outweighs : ℕ → ℕ → ℕ → Bool
outweighs cum_work product work =
    if ltb product (2 ^ 63)
    then ltb (cum_work + cum_work * product / 1000) work
    else ltb cum_work (work + (cum_work * (u64_mod - product) + 999) / 1000)

-- `candWork` exceeds the threshold
unfoldable pub exceeds_threshold : ℕ → ℕ → ℕ → ℕ → Bool
exceeds_threshold cum_work permille depth work =
    if not (permille == 0) && ltb 1 depth
    then outweighs cum_work (depth * permille % u64_mod) work
    else ltb cum_work work

-- a checkpoint at or above the fork, at or below our tip, and above the candidate's tip
unfoldable pub shortens : ℕ → ℕ → ℕ → List (ℕ × Bytes) → Bool
shortens start our_tip new_tip [] = false
shortens start our_tip new_tip ((h, _) ∷ cps) =
    (leb start h && leb h our_tip && ltb new_tip h) || shortens start our_tip new_tip cps

module _ (C : Crypto) where
  abbrev block_at_has : Option Block → Bytes → Bool
  block_at_has none hash = false
  block_at_has (some b) hash = bytes_eq (block_hash C b) hash

  -- candidateMeetsAnchor
  unfoldable pub candidate_meets_anchor : Checkpoint → ℕ → List Block → Bool
  candidate_meets_anchor a start nb =
      if a.height == 0 || bytes_eq a.hash [] || ltb a.height start
      then false
      else block_at_has (get_elem? nb (a.height - start)) a.hash

  -- an equal-work tip at our height with the smaller hash
  abbrev pub wins_tie : Chain → ℕ → ℕ → Option Block → Option Block → Bool
  wins_tie c depth work (some cand) (some cur) =
      depth == 1
      && (work == c.cum_work
          && (cand.height == cur.height && bytes_ltb (block_hash C cand) (block_hash C cur)))
  wins_tie c depth work _ _ = false

  -- the fork choice
  unfoldable pub check_fork_choice : Chain → ℕ → List Block → ℕ → Result BlockError (Unit {0})
  unfolding exceeds_threshold last_block
  check_fork_choice c depth nb work =
      if exceeds_threshold c.cum_work c.limits.reorg_penalty_permille depth work
        || wins_tie c depth work (last_block nb) (last_block c.blocks)
      then ok tt
      else err insufficient_work
