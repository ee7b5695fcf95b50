-- ===== src/Chain/Adopt.antt =====
-- AddBlock and TryAdoptChain of core/chain.go. The disk is outside: `disk_ok` says whether the
-- commit that ends an adoption succeeds, and its failure comes after the change in memory.
pub mod Derived
pub mod Rebuild
pub mod Outcome
pub mod Safety
use cereblix.Prelude.{
  ℕ, ◌+◌, ◌-◌, ◌*◌, ◌/◌, Bool, true, false, not, ◌&&◌, ◌||◌, Option, none, some, List, [], ◌∷◌,
  ◌++◌, take, drop, length, get_elem?, ltb, leb, ◌==◌, if◌then◌else◌,
}
use cereblix.Prelude.Bytes.{Bytes, bytes_eq, bytes_ltb}
use cereblix.Prelude.Result.{Result, ok, err}
use cereblix.Prelude.Exec.{Exec, lift, reject_if, ◌>>=◌, ◌>>◌}
use cereblix.Types.Params.{work_of}
use cereblix.Types.Crypto.{Crypto}
use cereblix.Types.Tx.{Tx}
use cereblix.Types.Block.{Block, target_int, block_hash}
use cereblix.Ledger.{State, apply_block_to_state}
use cereblix.Ledger.Totals.{Totals, apply_block_to_totals}
use cereblix.Consensus.Upgrade.{active_at}
use cereblix.Consensus.Target.{target_of}
use cereblix.Chain.Caches.{Caches, Limits, deep_recovery_activation_c}
use cereblix.Chain.Validate.{
  BlockError, no_prefix, not_extending_tip, empty_candidate, bad_fork_point, reorg_too_deep,
  checkpoint_shortening, insufficient_work, commit_failed, or_bad_target, or_no_prefix, last_block,
  validate_block,
}
use cereblix.Chain.Choice.{candidate_work, shortens, candidate_meets_anchor, check_fork_choice}
use cereblix.Chain.Pool.{Pool, mp_del_all, prune_mempool, prune_touched}
use cereblix.Chain.Record.{
  Chain, Checkpoint, recompute_supply, supply_from, replay_state, replay_totals, index_block,
  index_blocks,
}

-- An operation on the memo fields, inside one on the chain.
abbrev on_caches : {A : Type 0} → Exec Caches BlockError A → Exec Chain BlockError A
on_caches m c = let (r, caches') = m c.caches in (r, record c { caches = caches' })

-- runCommit, after the lock on the chain is released
abbrev commit : Bool → Exec Chain BlockError (Unit {0})
commit disk_ok c = (if disk_ok then ok tt else err commit_failed, c)

unfoldable pub txs_of_blocks : List Block → List Tx
txs_of_blocks [] = []
txs_of_blocks (b ∷ bs) = b.txs ++ txs_of_blocks bs

module _ (C : Crypto) where
  abbrev index_new : Bool → List Block → Chain → Chain
  index_new true nb c = c
  index_new false nb c = record c { addr_tx = index_blocks C c.addr_tx nb }

  -- the changes in memory that end AddBlock and the fast path of TryAdoptChain
  unfoldable pub extend_with : List Block → State → Totals → ℕ → List Block → Chain → Chain
  unfolding index_blocks mp_del_all prune_mempool txs_of_blocks
  extend_with blocks st tot work nb c =
      let indexed = index_new c.uses_store nb c in
      record indexed {
        blocks = blocks;
        state = st;
        touched = prune_touched C (mp_del_all C (txs_of_blocks nb) c.pool).mempool c.touched;
        totals = tot;
        cum_work = work;
        supply = recompute_supply st;
        pool = prune_mempool C st (mp_del_all C (txs_of_blocks nb) c.pool);
      }

  abbrev announce : Block → Chain → Chain
  announce b c = record c { announced = b ∷ c.announced }

  -- AddBlock
  unfoldable pub add_block : Block → ℕ → Bool → Exec Chain BlockError (Unit {0})
  add_block b now disk_ok = do
    c ← λ c. (ok c, c)
    tip ← lift (or_no_prefix (last_block c.blocks))
    reject_if (not (bytes_eq b.prev_hash (block_hash C tip))) not_extending_tip
    on_caches (validate_block C c.limits c.blocks c.state b now)
    λ c'. (
      ok tt,
      announce b (
          extend_with (c.blocks ++ b ∷ []) (apply_block_to_state C c.state b)
            (apply_block_to_totals C c.totals b) (c.cum_work + work_of (target_of b)) (b ∷ []) c'),
    )
    commit disk_ok

  -- deepRecoveryActiveC
  unfoldable pub deep_recovery_active_c : Exec Chain BlockError Bool
  unfolding deep_recovery_activation_c
  deep_recovery_active_c c =
      let (a, caches') = deep_recovery_activation_c c.limits.max_reorg_depth c.blocks c.caches in
      (ok (active_at a (length c.blocks)), record c { caches = caches' })

  abbrev over_cap : Chain → ℕ → Bool
  over_cap c depth = ltb 0 c.limits.max_reorg_depth && ltb c.limits.max_reorg_depth depth

  -- the guard on the depth, with the gated recovery
  unfoldable pub check_depth : ℕ → ℕ → List Block → Exec Chain BlockError (Unit {0})
  unfolding deep_recovery_active_c candidate_meets_anchor
  check_depth depth start nb c =
      let (r, c') = deep_recovery_active_c c in
      if over_cap c depth
      then elim r [
        | err e ↦ (err e, c')
        | ok active ↦
            reject_if (not active || not (candidate_meets_anchor C c.auth_anchor start nb))
              reorg_too_deep c'
      ]
      else (ok tt, c)

  -- the loop that validates and applies the candidate's blocks, one on another
  unfoldable pub validate_run :
      Limits
      → ℕ
      → List Block
      → State
      → Totals
      → List Block
      → Exec Caches BlockError (List Block × State × Totals)
  validate_run lim now prefix st tot [] = λ c. (ok (prefix, st, tot), c)
  validate_run lim now prefix st tot (b ∷ bs) =
      let rest =
        validate_run lim now (prefix ++ b ∷ []) (apply_block_to_state C st b)
          (apply_block_to_totals C tot b) bs in
      do validate_block C lim prefix st b now; rest

  -- the changes in memory that end the reorganising path
  unfoldable pub reorganise_with : List Block → State → Totals → ℕ → Chain → Chain
  unfolding index_blocks prune_mempool
  reorganise_with blocks st tot work c =
      let reindexed = if c.uses_store then c else record c { addr_tx = index_blocks C [] blocks } in
      record reindexed {
        blocks = blocks;
        state = st;
        touched = prune_touched C c.pool.mempool [];
        totals = tot;
        cum_work = work;
        supply = recompute_supply st;
        pool = prune_mempool C st c.pool;
      }

  abbrev announce_last : Option Block → Chain → Chain
  announce_last none c = c
  announce_last (some b) c = announce b c

  -- the pure tip extension
  unfoldable pub adopt_extension : List Block → ℕ → ℕ → Exec Chain BlockError (Unit {0})
  adopt_extension nb work now = do
    c ← λ c. (ok c, c)
    (blocks, st, tot) ← on_caches (validate_run c.limits now c.blocks c.state c.totals nb)
    λ c'. (ok tt, announce_last (last_block nb) (extend_with blocks st tot work nb c'))

  -- the replay from the fork point, and the reorganisation
  unfoldable pub adopt_reorg : ℕ → List Block → ℕ → ℕ → Exec Chain BlockError (Unit {0})
  adopt_reorg start nb work now = do
    c ← λ c. (ok c, c)
    let kept = take start c.blocks
    (blocks, st, tot) ←
        on_caches
          (validate_run c.limits now kept (replay_state C [] kept) (replay_totals C [] kept) nb)
    λ c'. (ok tt, announce_last (last_block nb) (reorganise_with blocks st tot work c'))

  abbrev is_empty : List Block → Bool
  is_empty [] = true
  is_empty (_ ∷ _) = false

  -- TryAdoptChain, after its guard on the depth
  unfoldable pub after_depth : ℕ → List Block → ℕ → Bool → Chain → Exec Chain BlockError (Unit {0})
  after_depth start nb now disk_ok c = do
    let depth = length c.blocks - start
    reject_if (shortens start (length c.blocks - 1) (start + length nb - 1) c.limits.checkpoints)
        checkpoint_shortening
    work ← lift (candidate_work c start nb)
    lift (check_fork_choice C c depth nb work)
    if depth == 0 then adopt_extension nb work now else adopt_reorg start nb work now
    commit disk_ok

  -- TryAdoptChain
  unfoldable pub try_adopt_chain : ℕ → List Block → ℕ → Bool → Exec Chain BlockError (Unit {0})
  unfolding check_depth
  try_adopt_chain start nb now disk_ok = do
    c ← λ c. (ok c, c)
    reject_if (is_empty nb) empty_candidate
    reject_if (start == 0 || ltb (length c.blocks) start) bad_fork_point
    check_depth (length c.blocks - start) start nb
    after_depth start nb now disk_ok c
