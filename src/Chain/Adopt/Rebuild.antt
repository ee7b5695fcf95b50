-- ===== src/Chain/Adopt/Rebuild.antt =====
-- AddBlock and TryAdoptChain keep every derived field equal to its recomputation from the blocks,
-- whether they succeed or fail.
use cereblix.Prelude.{
  ℕ, ◌+◌, ◌-◌, ◌≡◌, refl, Option, none, some, sym, ◌∙◌, Bool, true, false, not, ◌||◌, List, [], ◌∷◌,
  ◌++◌, take, length, arith, ◌==◌, ltb, if◌then◌else◌, Bool-cases, Option-cases, inl, inr,
  take-length,
}
use cereblix.Prelude.Bytes.{bytes_eq}
use cereblix.Prelude.Result.{Result-cases}
use cereblix.Prelude.Exec.{bind_keeps}
use cereblix.Types.Params.{work_of}
use cereblix.Types.Crypto.{Crypto}
use cereblix.Types.Block.{Block, block_hash}
use cereblix.Ledger.{State}
use cereblix.Ledger.Totals.{Totals}
use cereblix.Consensus.Target.{target_of}
use cereblix.Chain.Caches.{Caches}
use cereblix.Chain.Validate.{last_block, validate_block}
use cereblix.Chain.Record.{Chain, sum_work, replay_state, replay_totals}
use cereblix.Chain.Choice.{candidate_work, check_fork_choice, shortens}
use cereblix.Chain.Adopt.{
  on_caches, over_cap, is_empty, commit, deep_recovery_active_c, reorganise_with, validate_run,
  check_depth, add_block, adopt_extension, adopt_reorg, after_depth, try_adopt_chain, announce_last,
}
use cereblix.Chain.Adopt.Derived.{
  IsDerived, candidate_work-exact, replay_state-append, replay_totals-append, validate_run-ok,
  caches-IsDerived, extend-IsDerived, sum_work-append,
}

module _ (C : Crypto) where
  announce-IsDerived :
      (c : Chain) (bs : List Block) → IsDerived C c → IsDerived C (record c { announced = bs })
  announce-IsDerived c bs d = record {
    state = d.state;
    totals = d.totals;
    cum_work = d.cum_work;
    supply = d.supply;
    index = d.index;
  }

  reorganise-IsDerived :
      (c : Chain) (blocks : List Block) {st : State} {tot : Totals} {work : ℕ}
      → st ≡ replay_state C [] blocks
      → tot ≡ replay_totals C [] blocks
      → work ≡ sum_work blocks
      → IsDerived C (reorganise_with C blocks st tot work c)
  unfolding reorganise_with
  reorganise-IsDerived c blocks es et ew = record {
    state = es;
    totals = et;
    cum_work = ew;
    supply = refl;
    index =
        λ off. elim (Bool-cases c.uses_store) [ inl on ↦ ground arith | inr off' ↦ ground arith ];
  }

  -- On a chain whose derived fields are those of its blocks, AddBlock keeps them so, on success,
  -- on every error and on a failed commit: the state, the totals, the work, the supply and the
  -- address index are those of a replay of the blocks.
  pub add_block-IsDerived :
      (b : Block) (now : ℕ) (disk_ok : Bool) (c : Chain)
      → IsDerived C c
      → IsDerived C (add_block C b now disk_ok c).1
  unfolding add_block replay_state replay_totals sum_work
  add_block-IsDerived b now disk_ok c d = elim (Option-cases (last_block c.blocks)) [
    | inl empty ↦ rw empty d
    | inr (tip, e) ↦ rw e (elim (Bool-cases (not (bytes_eq b.prev_hash (block_hash C tip)))) [
      | inl unlinked ↦ rw unlinked d
      | inr linked ↦
          rw linked
            (elim (Result-cases (validate_block C c.limits c.blocks c.state b now c.caches).0) [
              | inl (st', valid) ↦ rw valid (
                  let work : c.cum_work + work_of (target_of b) ≡ sum_work (c.blocks ++ b ∷ []) =
                    omega (arith, d.cum_work, sum_work-append c.blocks (b ∷ [])) in
                  announce-IsDerived _ _
                    (extend-IsDerived C _ (caches-IsDerived C c d _) (b ∷ []) refl refl refl work))
              | inr (f, invalid) ↦ rw invalid (caches-IsDerived C c d _)
            ])
    ])
  ]

  announce_last-IsDerived :
      (o : Option Block) (c : Chain) → IsDerived C c → IsDerived C (announce_last C o c)
  announce_last-IsDerived none c d = d
  announce_last-IsDerived (some b) c d = announce-IsDerived c _ d

  adopt_extension-IsDerived :
      (nb : List Block) (work now : ℕ) (c : Chain)
      → IsDerived C c
      → work ≡ sum_work (c.blocks ++ nb)
      → IsDerived C (adopt_extension C nb work now c).1
  unfolding adopt_extension
  adopt_extension-IsDerived nb work now c d ew =
      bind_keeps (IsDerived C)
        (on_caches (validate_run C c.limits now c.blocks c.state c.totals nb)) _ c
        (caches-IsDerived C c d _)
        λ r e.
          let (blocks, st, tot) =
            validate_run-ok C c.limits now c.blocks c.state c.totals nb c.caches e in
          announce_last-IsDerived (last_block nb) _
            (extend-IsDerived C _ (caches-IsDerived C c d _) nb blocks st tot ew)

  adopt_reorg-IsDerived :
      (start : ℕ) (nb : List Block) (work now : ℕ) (c : Chain)
      → IsDerived C c
      → work ≡ sum_work (take start c.blocks ++ nb)
      → IsDerived C (adopt_reorg C start nb work now c).1
  unfolding adopt_reorg
  adopt_reorg-IsDerived start nb work now c d ew =
      let kept = take start c.blocks in
      let run =
        on_caches (
          validate_run C c.limits now kept (replay_state C [] kept) (replay_totals C [] kept) nb) in
      bind_keeps (IsDerived C) run _ c (caches-IsDerived C c d _) λ r e.
        let (blocks, st, tot) =
          validate_run-ok C c.limits now kept (replay_state C [] kept) (replay_totals C [] kept) nb
            c.caches e in
        announce_last-IsDerived (last_block nb) _ (
          reorganise-IsDerived (run c).1 r.0
            (st ∙ rw blocks (sym (replay_state-append C [] kept nb)))
            (tot ∙ rw blocks (sym (replay_totals-append C [] kept nb))) (rw blocks ew))

  on_depth-caches :
      (depth start : ℕ) (nb : List Block) (c : Chain) (over : Bool)
      → over_cap C c depth ≡ over
      → (k : Caches) × ((check_depth C depth start nb c).1 ≡ record c { caches = k })
  unfolding check_depth
  on_depth-caches depth start nb c true over = ((deep_recovery_active_c C c).1.caches, ground arith)
  on_depth-caches depth start nb c false within = (c.caches, ground arith)

  adopt-IsDerived :
      (start : ℕ) (nb : List Block) (work now : ℕ) (c : Chain) (flat : Bool)
      → ((length c.blocks - start) == 0) ≡ flat
      → IsDerived C c
      → work ≡ sum_work (take start c.blocks ++ nb)
      → ltb (length c.blocks) start ≡ false
      → IsDerived C
          ((if flat then adopt_extension C nb work now else adopt_reorg C start nb work now) c).1
  adopt-IsDerived start nb work now c true flat d ew fits =
      let e : start ≡ length c.blocks = ground arith in
      adopt_extension-IsDerived nb work now c d (ew ∙ rw (e, take-length c.blocks))
  adopt-IsDerived start nb work now c false deep d ew fits =
      adopt_reorg-IsDerived start nb work now c d ew

  after_depth-IsDerived :
      (start : ℕ) (nb : List Block) (now : ℕ) (disk_ok : Bool) (c : Chain) (k : Caches)
      → IsDerived C c
      → ltb (length c.blocks) start ≡ false
      → IsDerived C (after_depth C start nb now disk_ok c (record c { caches = k })).1
  unfolding after_depth
  after_depth-IsDerived start nb now disk_ok c k d fits =
      let depth = length c.blocks - start in
      let c1 = record c { caches = k } in
      let d1 : IsDerived C c1 = caches-IsDerived C c d k in
      elim (Bool-cases
        (shortens start (length c.blocks - 1) (start + length nb - 1) c.limits.checkpoints)) [
          | inl short ↦ rw short d1
          | inr long ↦ rw long (elim (Result-cases (candidate_work c start nb)) [
            | inr (f, e) ↦ rw e d1
            | inl (work, e) ↦ rw e (elim (Result-cases (check_fork_choice C c depth nb work)) [
              | inr (f, e2) ↦ rw e2 d1
              | inl (u, e2) ↦ rw e2 (
                  bind_keeps (IsDerived C)
                    (if depth == 0
                      then adopt_extension C nb work now
                      else adopt_reorg C start nb work now)
                    (λ _. commit disk_ok) c1
                    (adopt-IsDerived start nb work now c1 (depth == 0) refl d1
                      (candidate_work-exact c start nb d.cum_work e) fits)
                    λ _ _.
                      adopt-IsDerived start nb work now c1 (depth == 0) refl d1
                        (candidate_work-exact c start nb d.cum_work e) fits)
            ])
          ])
        ]

  -- On a chain whose derived fields are those of its blocks, TryAdoptChain keeps them so too, on
  -- the fast path, through a reorganisation, on every error and on a failed commit.
  pub try_adopt_chain-IsDerived :
      (start : ℕ) (nb : List Block) (now : ℕ) (disk_ok : Bool) (c : Chain)
      → IsDerived C c
      → IsDerived C (try_adopt_chain C start nb now disk_ok c).1
  unfolding try_adopt_chain
  try_adopt_chain-IsDerived start nb now disk_ok c d =
      let depth = length c.blocks - start in
      let (k, e) = on_depth-caches depth start nb c (over_cap C c depth) refl in
      let c1 = record c { caches = k } in
      let d1 : IsDerived C c1 = caches-IsDerived C c d k in
      elim (Bool-cases (is_empty C nb)) [
        | inl empty ↦ rw empty d
        | inr some_blocks ↦
            rw some_blocks (elim (Bool-cases (start == 0 || ltb (length c.blocks) start)) [
              | inl bad ↦ rw bad d
              | inr in_range ↦ rw in_range (elim (Result-cases (check_depth C depth start nb c).0) [
                | inr (f, too_deep) ↦ rw (too_deep, e) d1
                | inl (u, allowed) ↦
                    rw (allowed, e)
                      (after_depth-IsDerived start nb now disk_ok c k d (ground arith))
              ])
            ])
      ]
