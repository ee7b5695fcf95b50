-- ===== src/Chain/Adopt/Derived.antt =====
-- The fields that AddBlock and TryAdoptChain maintain step by step are those that rebuildDerived
-- would compute from the blocks.
use cereblix.Prelude.{
  ℕ, ◌+◌, ◌-◌, ◌≤◌, ◌≡◌, refl, sym, ◌∙◌, ap, false, List, [], ◌∷◌, ◌++◌, take, drop, arith,
  take-append-drop, inl, inr, Bool-cases,
}
use mathlib.Core.List.{append-nil, append_assoc}
use cereblix.Prelude.Result.{Result, ok, err, Result-cases}
use cereblix.Prelude.Map.{Map}
use cereblix.Prelude.Exec.{>>=-eq-ok}
use cereblix.Types.Params.{work_of}
use cereblix.Types.Crypto.{Crypto}
use cereblix.Types.Block.{Block, target_int}
use cereblix.Ledger.{State, apply_block_to_state}
use cereblix.Ledger.Totals.{Totals, apply_block_to_totals}
use cereblix.Consensus.Target.{target_of}
use cereblix.Chain.Caches.{Caches, Limits}
use cereblix.Chain.Validate.{validate_block}
use cereblix.Chain.Record.{
  Chain, recompute_supply, sum_work, replay_state, replay_totals, index_block, index_blocks,
}
use cereblix.Chain.Adopt.{extend_with, index_new, validate_run}
use cereblix.Chain.Choice.{add_work, sub_work, candidate_work}
use cereblix.Chain.Validate.{or_bad_target}
use cereblix.Prelude.Result

pub record IsDerived (C : Crypto) (c : Chain) : Type 0 where
  pub state : c.state ≡ replay_state C [] c.blocks
  pub totals : c.totals ≡ replay_totals C [] c.blocks
  pub cum_work : c.cum_work ≡ sum_work c.blocks
  pub supply : c.supply ≡ recompute_supply c.state
  pub index : c.uses_store ≡ false → c.addr_tx ≡ index_blocks C [] c.blocks

pub sum_work-append : (xs ys : List Block) → sum_work (xs ++ ys) ≡ sum_work xs + sum_work ys
unfolding sum_work
sum_work-append [] ys = omega arith
sum_work-append (x ∷ xs) ys = omega (arith, sum_work-append xs ys)

pub add_work-ok : (w : ℕ) (bs : List Block) {w' : ℕ} → add_work w bs ≡ ok w' → w' ≡ w + sum_work bs
unfolding add_work sum_work
add_work-ok w [] h = ground arith
add_work-ok w (b ∷ bs) h =
    let (t, e, later) = Result.>>=-eq-ok (or_bad_target (target_int b)) _ h in
    ground (arith, add_work-ok (w + work_of t) bs later)

pub sub_work-ok :
    (w : ℕ) (bs : List Block) {w' : ℕ}
    → sub_work w bs ≡ ok w'
    → sum_work bs ≤ w
    → w' + sum_work bs ≡ w
unfolding sub_work sum_work
sub_work-ok w [] h le = ground arith
sub_work-ok w (b ∷ bs) h le =
    let (t, e, later) = Result.>>=-eq-ok (or_bad_target (target_int b)) _ h in
    let same : t ≡ target_of b = ground arith in
    let fits : sum_work bs ≤ w - work_of t = ground arith in
    ground (arith, sub_work-ok (w - work_of t) bs later fits)

-- Where the cumulative work is that of the blocks, the header-only work that TryAdoptChain computes
-- for a candidate is the work of the whole chain that the candidate would make.
pub candidate_work-exact :
    (c : Chain) (start : ℕ) (nb : List Block) {work : ℕ}
    → c.cum_work ≡ sum_work c.blocks
    → candidate_work c start nb ≡ ok work
    → work ≡ sum_work (take start c.blocks ++ nb)
unfolding candidate_work
candidate_work-exact c start nb {work} derived h =
    let split : sum_work c.blocks
        ≡ sum_work (take start c.blocks) + sum_work (drop start c.blocks) =
      ap sum_work (sym (take-append-drop start c.blocks))
      ∙ sum_work-append (take start c.blocks) (drop start c.blocks) in
    let (w, e, added) = Result.>>=-eq-ok (sub_work c.cum_work (drop start c.blocks)) _ h in
    let kept : w + sum_work (drop start c.blocks) ≡ c.cum_work =
      sub_work-ok c.cum_work (drop start c.blocks) e (omega arith) in
    omega (arith, add_work-ok w nb added, sum_work-append (take start c.blocks) nb)

module _ (C : Crypto) where
  pub replay_state-append :
      (st : State) (xs ys : List Block)
      → replay_state C st (xs ++ ys) ≡ replay_state C (replay_state C st xs) ys
  unfolding replay_state
  replay_state-append st [] ys = refl
  replay_state-append st (x ∷ xs) ys = replay_state-append (apply_block_to_state C st x) xs ys

  pub replay_totals-append :
      (tot : Totals) (xs ys : List Block)
      → replay_totals C tot (xs ++ ys) ≡ replay_totals C (replay_totals C tot xs) ys
  unfolding replay_totals
  replay_totals-append tot [] ys = refl
  replay_totals-append tot (x ∷ xs) ys = replay_totals-append (apply_block_to_totals C tot x) xs ys

  index_blocks-append :
      (idx : Map (List (ℕ × ℕ))) (xs ys : List Block)
      → index_blocks C idx (xs ++ ys) ≡ index_blocks C (index_blocks C idx xs) ys
  unfolding index_blocks
  index_blocks-append idx [] ys = refl
  index_blocks-append idx (x ∷ xs) ys = index_blocks-append (index_block C idx x) xs ys

  -- A run that is accepted appends exactly the candidate's blocks, each applied once.
  pub validate_run-ok :
      (lim : Limits) (now : ℕ) (prefix : List Block) (st : State) (tot : Totals) (nb : List Block)
      (k : Caches) {r : List Block × State × Totals}
      → (validate_run C lim now prefix st tot nb k).0 ≡ ok r
      → (r.0 ≡ prefix ++ nb) × (r.1 ≡ replay_state C st nb) × (r.2 ≡ replay_totals C tot nb)
  unfolding validate_run replay_state replay_totals
  validate_run-ok lim now prefix st tot [] k h = ground (arith, append-nil prefix)
  validate_run-ok lim now prefix st tot (b ∷ bs) k h =
      let (u, _, later) = >>=-eq-ok (validate_block C lim prefix st b now) _ k h in
      let (blocks, state, totals) =
        validate_run-ok lim now (prefix ++ b ∷ []) (apply_block_to_state C st b)
          (apply_block_to_totals C tot b) bs _ later in
      (blocks ∙ append_assoc prefix (b ∷ []) bs, state, totals)

module _ (C : Crypto) (c : Chain) (d : IsDerived C c) where
  pub caches-IsDerived : (k : Caches) → IsDerived C (record c { caches = k })
  caches-IsDerived k = record {
    state = d.state;
    totals = d.totals;
    cum_work = d.cum_work;
    supply = d.supply;
    index = d.index;
  }

  extended_index :
      (nb blocks : List Block)
      → blocks ≡ c.blocks ++ nb
      → (index_new C c.uses_store nb c).uses_store ≡ false
      → (index_new C c.uses_store nb c).addr_tx ≡ index_blocks C [] blocks
  extended_index nb blocks eb off = elim (Bool-cases c.uses_store) [
    | inl on ↦ ground arith
    | inr off' ↦ ground (arith, index_blocks-append C [] c.blocks nb, d.index off')
  ]

  pub extend-IsDerived :
      (nb : List Block) {blocks : List Block} {st : State} {tot : Totals} {work : ℕ}
      → blocks ≡ c.blocks ++ nb
      → st ≡ replay_state C c.state nb
      → tot ≡ replay_totals C c.totals nb
      → work ≡ sum_work (c.blocks ++ nb)
      → IsDerived C (extend_with C blocks st tot work nb c)
  unfolding extend_with
  extend-IsDerived nb {blocks} eb es et ew = record {
    state = es ∙ rw (d.state, eb) (sym (replay_state-append C [] c.blocks nb));
    totals = et ∙ rw (d.totals, eb) (sym (replay_totals-append C [] c.blocks nb));
    cum_work = rw eb ew;
    supply = refl;
    index = extended_index nb blocks eb;
  }
