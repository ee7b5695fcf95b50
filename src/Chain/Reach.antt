-- ===== src/Chain/Reach.antt =====
-- Every chain that a fresh node reaches by its operations, in any order: blocks mined or received,
-- candidate chains, transactions, checkpoints, anchors and memo writes. The invariant ties each
-- derived field to the blocks, the blocks to the rules, and the checkpoints to the blocks.
use cereblix.Prelude.{
  ℕ, ◌+◌, ◌-◌, ◌*◌, ◌≤◌, ◌<◌, ◌≡◌, refl, sym, ◌∙◌, Bool, not, List, [], ◌∷◌, ◌++◌, All, length,
  take, arith, ltb, ◌==◌, ◌||◌, Bool-cases, Option-cases, ◌⊎◌, inl, inr,
}
use mathlib.Core.Path.{subst}
use cereblix.Prelude.Bytes.{bytes_eq}
use cereblix.Prelude.Word.{u64_mod, add64}
use cereblix.Prelude.Result.{ok, ok_injective, Result-cases}
use cereblix.Types.Params.{coin_unit, work_of}
use cereblix.Types.Crypto.{Crypto}
use cereblix.Types.Tx.{Tx}
use cereblix.Types.Block.{Block, block_hash}
use cereblix.Types.Emission.{emission, emission-le}
use cereblix.Types.Genesis.{genesis_block}
use cereblix.Ledger.{State, apply_block_to_state}
use cereblix.Ledger.Totals.{apply_block_to_totals}
use cereblix.Consensus.Target.{target_of}
use cereblix.Ledger.Supply.{sum_balances}
use cereblix.Chain.Caches.{Caches}
use cereblix.Chain.Validate.{last_block, validate_block, checkpoint_at}
use cereblix.Chain.Validate.Inversion.{validate_block-IsAccepted}
use cereblix.Chain.Record.{Chain, Checkpoint, replay_state, supply_from, recompute_supply}
use cereblix.Chain.Open.{empty_chain, derived_of, rebuild_derived, with_blocks, load}
use cereblix.Chain.Admit.{add_tx}
use cereblix.Chain.Admit.Frame.{add_tx-SameButPool}
use cereblix.Chain.Adopt.{add_block, try_adopt_chain, extend_with}
use cereblix.Chain.Adopt.Derived.{IsDerived}
use cereblix.Chain.Adopt.Rebuild.{add_block-IsDerived, try_adopt_chain-IsDerived}
use cereblix.Chain.Adopt.Outcome.{Adopted, extend_with-limits, try_adopt_chain-Outcome}
use cereblix.Chain.History.{
  BlockTyped, ValidHistory, genesis, extend, replay-sum, ValidHistory-take,
  validate_run-ValidHistory,
}
use cereblix.Chain.Finality.{apply_checkpoint, set_authority_anchor}
use cereblix.Chain.Finality.Held.{
  CheckpointsHeld, append-CheckpointsHeld, Adopted-CheckpointsHeld, apply_checkpoint-cases,
  apply_checkpoint-CheckpointsHeld,
}
use cereblix.Chain.Preverify.{pre_verify_pow, pre_verify_sigs}

pub record IsSound (C : Crypto) (c : Chain) : Type 0 where
  pub derived : IsDerived C c
  pub valid : ValidHistory C c.blocks
  pub held : CheckpointsHeld C c.limits.checkpoints c.blocks

-- One operation of the node on its chain. Numbers that come over the wire are uint64; the clock and
-- the outcome of a commit are arbitrary.
pub data Step (C : Crypto) : Chain → Chain → Type 0 where
  block_step :
      (b : Block) (now : ℕ) (disk_ok : Bool) (c : Chain)
      → BlockTyped b
      → Step C c (add_block C b now disk_ok c).1
  candidate_step :
      (start : ℕ) (nb : List Block) (now : ℕ) (disk_ok : Bool) (c : Chain)
      → All BlockTyped nb
      → Step C c (try_adopt_chain C start nb now disk_ok c).1
  tx_step : (t : Tx) (c : Chain) → Step C c (add_tx C t c).1
  checkpoint_step : (cp : Checkpoint) (c : Chain) → Step C c (apply_checkpoint C cp c).1
  anchor_step : (cp : Checkpoint) (c : Chain) → Step C c (set_authority_anchor cp c)
  pow_step : (start : ℕ) (nb : List Block) (c : Chain) → Step C c (pre_verify_pow C start nb c)
  sigs_step : (start : ℕ) (nb : List Block) (c : Chain) → Step C c (pre_verify_sigs C start nb c)
  knobs_step :
      (depth permille : ℕ) (c : Chain)
      → Step C c (record c {
        limits = record c.limits { max_reorg_depth = depth; reorg_penalty_permille = permille };
      })

-- What a node that started with no stored blocks can reach.
pub data Reachable (C : Crypto) : Chain → Type 0 where
  started : {c : Chain} → load C [] ≡ ok c → Reachable C c
  stepped : {c c' : Chain} → Reachable C c → Step C c c' → Reachable C c'

module _ (C : Crypto) where
  -- Changes to fields that no other field depends on.
  IsSound-frame :
      (c c' : Chain)
      → c'.blocks ≡ c.blocks
      → c'.state ≡ c.state
      → c'.totals ≡ c.totals
      → c'.cum_work ≡ c.cum_work
      → c'.supply ≡ c.supply
      → c'.addr_tx ≡ c.addr_tx
      → c'.uses_store ≡ c.uses_store
      → CheckpointsHeld C c'.limits.checkpoints c.blocks
      → IsSound C c
      → IsSound C c'
  IsSound-frame c c' eb es et ew eu ei eo held s = record {
    derived = record {
      state = rw (es, eb) s.derived.state;
      totals = rw (et, eb) s.derived.totals;
      cum_work = rw (ew, eb) s.derived.cum_work;
      supply = rw (eu, es) s.derived.supply;
      index = λ off. rw (ei, eb) (s.derived.index (sym eo ∙ off));
    };
    valid = rw eb s.valid;
    held = rw eb held;
  }

  add_block-blocks :
      (b : Block) (now : ℕ) (disk_ok : Bool) (c : Chain)
      → (((add_block C b now disk_ok c).1.blocks ≡ c.blocks)
          ⊎ (((add_block C b now disk_ok c).1.blocks ≡ c.blocks ++ b ∷ [])
              × ((out : State) × ((validate_block C c.limits c.blocks c.state b now c.caches).0
                    ≡ ok out))))
        × ((add_block C b now disk_ok c).1.limits ≡ c.limits)
  unfolding add_block extend_with
  add_block-blocks b now disk_ok c = elim (Option-cases (last_block c.blocks)) [
    | inl empty ↦ rw empty (inl refl, refl)
    | inr (tip, e) ↦ elim (Bool-cases (not (bytes_eq b.prev_hash (block_hash C tip)))) [
      | inl unlinked ↦ rw (e, unlinked) (inl refl, refl)
      | inr linked ↦
          elim (Result-cases (validate_block C c.limits c.blocks c.state b now c.caches).0) [
            | inr (f, invalid) ↦ rw (e, linked, invalid) (inl refl, refl)
            | inl (out, valid) ↦
                rw (e, linked, valid)
                  (
                    inr (refl, (out, refl)),
                    extend_with-limits C (c.blocks ++ b ∷ []) (apply_block_to_state C c.state b)
                        (apply_block_to_totals C c.totals b) (c.cum_work + work_of (target_of b))
                        (b ∷ [])
                        (record c {
                          caches = (validate_block C c.limits c.blocks c.state b now c.caches).1;
                        }),
                  )
          ]
    ]
  ]

  add_block-IsSound :
      (b : Block) (now : ℕ) (disk_ok : Bool) (c : Chain)
      → BlockTyped b
      → IsSound C c
      → IsSound C (add_block C b now disk_ok c).1
  add_block-IsSound b now disk_ok c typed s =
      let (blocks, limits) = add_block-blocks b now disk_ok c in
      let derived = add_block-IsDerived C b now disk_ok c s.derived in
      elim blocks [
        | inl same ↦ record {
          derived = derived;
          valid = rw same s.valid;
          held = rw (limits, same) s.held;
        }
        | inr (grown, (out, valid)) ↦ record {
          derived = derived;
          valid =
              extend s.valid
                (validate_block-IsAccepted C c.limits c.blocks (replay_state C [] c.blocks) b now
                  c.caches typed (rw s.derived.state at valid))
                grown;
          held =
              rw (limits, grown)
                (append-CheckpointsHeld C c.limits.checkpoints c.blocks (b ∷ []) s.held);
        }
      ]

  Adopted-IsSound :
      (c c' : Chain) (start : ℕ) (nb : List Block) (now : ℕ)
      → All BlockTyped nb
      → IsSound C c
      → IsDerived C c'
      → c'.limits ≡ c.limits
      → Adopted C c c' start nb now
      → IsSound C c'
  Adopted-IsSound c c' start nb now typed s derived limits a =
      let (r, ran) = a.ran in
      record {
        derived = derived;
        valid = rw a.blocks (
            validate_run-ValidHistory C c.limits now (take start c.blocks) _ nb _
              (ValidHistory-take C start s.valid a.lower) typed ran);
        held = rw limits (Adopted-CheckpointsHeld C c c' start nb now s.held a);
      }

  try_adopt_chain-IsSound :
      (start : ℕ) (nb : List Block) (now : ℕ) (disk_ok : Bool) (c : Chain)
      → All BlockTyped nb
      → IsSound C c
      → IsSound C (try_adopt_chain C start nb now disk_ok c).1
  try_adopt_chain-IsSound start nb now disk_ok c typed s =
      let derived = try_adopt_chain-IsDerived C start nb now disk_ok c s.derived in
      elim (try_adopt_chain-Outcome C start nb now disk_ok c s.derived) [
        | inl (f, k, refused) ↦
            rw refused (IsSound-frame c _ refl refl refl refl refl refl refl s.held s)
        | inr (result, adopted) ↦
            Adopted-IsSound c _ start nb now typed s derived adopted.limits adopted
      ]

  apply_checkpoint-IsSound :
      (cp : Checkpoint) (c : Chain) → IsSound C c → IsSound C (apply_checkpoint C cp c).1
  apply_checkpoint-IsSound cp c s =
      let held = apply_checkpoint-CheckpointsHeld C cp c s.held in
      elim (apply_checkpoint-cases C cp c) [
        | inl same ↦ rw same s
        | inr (set, _) ↦
            rw set (IsSound-frame c _ refl refl refl refl refl refl refl (rw set at held) s)
      ]

  anchor-IsSound :
      (cp : Checkpoint) (c : Chain) → IsSound C c → IsSound C (set_authority_anchor cp c)
  unfolding set_authority_anchor
  anchor-IsSound cp c s = elim (Bool-cases (ltb c.auth_anchor.height cp.height)) [
    | inl higher ↦ rw higher (IsSound-frame c _ refl refl refl refl refl refl refl s.held s)
    | inr lower ↦ rw lower s
  ]

  caches-IsSound : (c : Chain) (k : Caches) → IsSound C c → IsSound C (record c { caches = k })
  caches-IsSound c k s = IsSound-frame c _ refl refl refl refl refl refl refl s.held s

  pow-IsSound :
      (start : ℕ) (nb : List Block) (c : Chain)
      → IsSound C c
      → IsSound C (pre_verify_pow C start nb c)
  unfolding pre_verify_pow
  pow-IsSound start nb c s =
      elim (Bool-cases (start == 0 || (length nb == 0 || ltb (length c.blocks) start))) [
        | inl idle ↦ rw idle s
        | inr busy ↦ rw busy (caches-IsSound c _ s)
      ]

  sigs-IsSound :
      (start : ℕ) (nb : List Block) (c : Chain)
      → IsSound C c
      → IsSound C (pre_verify_sigs C start nb c)
  unfolding pre_verify_sigs
  sigs-IsSound start nb c s = elim (Bool-cases (start == 0 || length nb == 0)) [
    | inl idle ↦ rw idle s
    | inr busy ↦ rw busy (caches-IsSound c _ s)
  ]

  -- Every operation preserves soundness, whether it succeeds or fails.
  pub Step-IsSound : {c c' : Chain} → Step C c c' → IsSound C c → IsSound C c'
  Step-IsSound (block_step b now disk_ok c typed) s = add_block-IsSound b now disk_ok c typed s
  Step-IsSound (candidate_step start nb now disk_ok c typed) s =
      try_adopt_chain-IsSound start nb now disk_ok c typed s
  Step-IsSound (tx_step t c) s =
      let (p, k, l, e) = add_tx-SameButPool C t c in
      rw e (IsSound-frame c _ refl refl refl refl refl refl refl s.held s)
  Step-IsSound (checkpoint_step cp c) s = apply_checkpoint-IsSound cp c s
  Step-IsSound (anchor_step cp c) s = anchor-IsSound cp c s
  Step-IsSound (pow_step start nb c) s = pow-IsSound start nb c s
  Step-IsSound (sigs_step start nb c) s = sigs-IsSound start nb c s
  Step-IsSound (knobs_step depth permille c) s =
      IsSound-frame c _ refl refl refl refl refl refl refl s.held s

  -- What rebuildDerived computes is derived from the blocks.
  derived_of-IsDerived : (c : Chain) → IsDerived C (derived_of C c)
  unfolding derived_of
  derived_of-IsDerived c = record {
    state = refl;
    totals = refl;
    cum_work = refl;
    supply = refl;
    index = λ off. rw off refl;
  }

  no_checkpoints : (blocks : List Block) → CheckpointsHeld C [] blocks
  unfolding checkpoint_at
  no_checkpoints blocks h hash found = cc

  started-IsSound : (c : Chain) → load C [] ≡ ok c → IsSound C c
  unfolding load rebuild_derived derived_of empty_chain
  started-IsSound c e =
      let fresh : Chain = with_blocks C (genesis_block C ∷ []) (genesis_block C ∷ []) empty_chain in
      let sound : IsSound C (derived_of C fresh) = record {
        derived = derived_of-IsDerived fresh;
        valid = genesis;
        held = no_checkpoints (genesis_block C ∷ []);
      } in
      subst (IsSound C) (ok_injective e) sound

  -- Whatever a fresh node does, its derived fields are those of its blocks, and it has the block of
  -- every checkpoint. Its blocks are genesis and blocks that each have the height and the hash of the
  -- one before them, a time after the median, the tx root of their transactions, a coinbase that pays
  -- exactly the subsidy and the fees, and transactions that the replayed state covers. Proofs of work,
  -- targets, signatures and fee minimums, which memo fields may vouch for, are not part of it.
  pub Reachable-IsSound : {c : Chain} → Reachable C c → IsSound C c
  Reachable-IsSound (started e) = started-IsSound _ e
  Reachable-IsSound (stepped r st) = Step-IsSound st (Reachable-IsSound r)

  supply_from-exact :
      (s : ℕ) (st : State) → s + sum_balances st < u64_mod → supply_from s st ≡ s + sum_balances st
  unfolding supply_from sum_balances
  supply_from-exact s [] h = omega arith
  supply_from-exact s ((_, a) ∷ st) h =
      let e : add64 s a.balance ≡ s + a.balance = omega arith in
      omega (arith, supply_from-exact (add64 s a.balance) st (rw e (omega arith)), e)

  -- In every state that a fresh node can reach, through extensions, reorganisations and failures, the
  -- reported supply is the emission schedule's at the tip's height: no coin is created or lost
  -- elsewhere, and no balance wraps around.
  pub Reachable-supply :
      {c : Chain}
      → Reachable C c
      → (c.supply ≡ emission (length c.blocks - 1)) × (c.supply ≤ 105120000 * coin_unit)
  Reachable-supply {c} r =
      let s = Reachable-IsSound r in
      let (sum, _) = replay-sum C s.valid in
      let cap = emission-le (length c.blocks - 1) in
      let total : sum_balances c.state ≡ emission (length c.blocks - 1) = rw s.derived.state sum in
      let exact : recompute_supply c.state ≡ sum_balances c.state =
        supply_from-exact 0 c.state (omega (arith, total, cap)) ∙ omega arith in
      (s.derived.supply ∙ exact ∙ total, omega (arith, s.derived.supply, exact, total, cap))
