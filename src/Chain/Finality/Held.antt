-- ===== src/Chain/Finality/Held.antt =====
-- The chain holds the block of every checkpoint: validation refuses a conflicting block, and the
-- guard of TryAdoptChain refuses a candidate that ends below a checkpoint.
use cereblix.Prelude.{
  ℕ, ◌+◌, ◌-◌, ◌≤◌, ◌<◌, ◌≡◌, refl, sym, ◌∙◌, true, ◌||◌, some, List, [], ◌∷◌, ◌++◌, take, length,
  get_elem?, arith, ltb, leb, ◌==◌, if◌then◌else◌, Bool-cases, inl, inr, length-append, length-take,
  get_elem?-lt, get_elem?-append, get_elem?-take, get_elem?-length, get_elem?-some, ◌⊎◌,
}
use mathlib.Core.Path.{subst}
use mathlib.Core.List.{append_assoc}
use cereblix.Prelude.Bytes.{Bytes, bytes_eq, bytes_eq→eq}
use cereblix.Prelude.Result.{ok}
use cereblix.Prelude.Exec.{>>=-eq-ok}
use cereblix.Types.Crypto.{Crypto}
use cereblix.Types.Block.{Block, block_hash}
use cereblix.Ledger.{State}
use cereblix.Ledger.Totals.{Totals}
use cereblix.Chain.Caches.{Caches, Limits}
use cereblix.Chain.Validate.{validate_block, checkpoint_at}
use cereblix.Chain.Validate.Inversion.{validate_block-checkpoint}
use cereblix.Chain.Choice.{shortens}
use cereblix.Chain.Record.{Chain, Checkpoint}
use cereblix.Chain.Adopt.{validate_run}
use cereblix.Chain.Adopt.Outcome.{Adopted}
use cereblix.Chain.Finality.{set_checkpoint, apply_checkpoint, same_hash}

-- The block with the hash stands at the height.
abbrev pub HasBlock : Crypto → List Block → ℕ → Bytes → Type 0
HasBlock C blocks h hash = (b : Block) × (get_elem? blocks h ≡ some b) × (block_hash C b ≡ hash)

-- The chain has the block of every checkpoint.
abbrev pub CheckpointsHeld : Crypto → List (ℕ × Bytes) → List Block → Type 0
CheckpointsHeld C cps blocks =
    (h : ℕ) (hash : Bytes) → checkpoint_at h cps ≡ some hash → HasBlock C blocks h hash

shortens-found :
    (start tip new h : ℕ) (cps : List (ℕ × Bytes)) {hash : Bytes}
    → checkpoint_at h cps ≡ some hash
    → start ≤ h
    → h ≤ tip
    → new < h
    → shortens start tip new cps ≡ true
unfolding shortens checkpoint_at
shortens-found start tip new h [] found lo hi short = cc
shortens-found start tip new h ((k, g) ∷ cps) {hash} found lo hi short =
    elim (Bool-cases (k == h)) [
      | inl here ↦ ground arith
      | inr later ↦
          let rest : checkpoint_at h cps ≡ some hash = ground arith in
          ground (arith, shortens-found start tip new h cps rest lo hi short)
    ]

checkpoint_at-set :
    (h j : ℕ) (hash : Bytes) (cps : List (ℕ × Bytes))
    → checkpoint_at j (set_checkpoint h hash cps)
      ≡ (if h == j then some hash else checkpoint_at j cps)
unfolding checkpoint_at set_checkpoint
checkpoint_at-set h j hash [] = refl
checkpoint_at-set h j hash ((k, old) ∷ cps) = ground (arith, checkpoint_at-set h j hash cps)

module _ (C : Crypto) where
  HasBlock-append :
      (blocks more : List Block) (h : ℕ) (hash : Bytes)
      → HasBlock C blocks h hash
      → HasBlock C (blocks ++ more) h hash
  HasBlock-append blocks more h hash (b, found, e) =
      (b, get_elem?-append blocks more h (get_elem?-lt blocks h found) ∙ found, e)

  HasBlock-take :
      (n : ℕ) (blocks : List Block) (h : ℕ) (hash : Bytes)
      → h < n
      → HasBlock C blocks h hash
      → HasBlock C (take n blocks) h hash
  HasBlock-take n blocks h hash lt (b, found, e) = (b, get_elem?-take n blocks h lt ∙ found, e)

  -- Every block of an accepted run agrees with the checkpoint at its height.
  validate_run-HasBlock :
      (lim : Limits) (now : ℕ) (prefix : List Block) (st : State) (tot : Totals) (nb : List Block)
      (k : Caches) {r : List Block × State × Totals} (h : ℕ) (hash : Bytes)
      → (validate_run C lim now prefix st tot nb k).0 ≡ ok r
      → checkpoint_at h lim.checkpoints ≡ some hash
      → length prefix ≤ h
      → h < length prefix + length nb
      → HasBlock C (prefix ++ nb) h hash
  unfolding validate_run
  validate_run-HasBlock lim now prefix st tot [] k h hash ran cp lo hi = absurd (omega arith)
  validate_run-HasBlock lim now prefix st tot (b ∷ bs) k h hash ran cp lo hi =
      let (u, valid, later) = >>=-eq-ok (validate_block C lim prefix st b now) _ k ran in
      elim (Bool-cases (h == length prefix)) [
        | inl here ↦
            let e : h ≡ length prefix = ground arith in
            (
              b,
              rw e (get_elem?-length prefix b bs),
              validate_block-checkpoint C lim prefix st b now k valid (rw e at cp),
            )
        | inr beyond ↦
            subst (λ l. HasBlock C l h hash) (append_assoc prefix (b ∷ []) bs)
              (validate_run-HasBlock lim now (prefix ++ b ∷ []) _ _ bs _ h hash later cp
                (ground (arith, length-append prefix (b ∷ [])))
                (ground (arith, length-append prefix (b ∷ []))))
      ]

  pub append-CheckpointsHeld :
      (cps : List (ℕ × Bytes)) (blocks more : List Block)
      → CheckpointsHeld C cps blocks
      → CheckpointsHeld C cps (blocks ++ more)
  append-CheckpointsHeld cps blocks more held h hash cp =
      HasBlock-append blocks more h hash (held h hash cp)

  -- An adopted candidate keeps the block of every checkpoint.
  pub Adopted-CheckpointsHeld :
      (c c' : Chain) (start : ℕ) (nb : List Block) (now : ℕ)
      → CheckpointsHeld C c.limits.checkpoints c.blocks
      → Adopted C c c' start nb now
      → CheckpointsHeld C c.limits.checkpoints c'.blocks
  Adopted-CheckpointsHeld c c' start nb now held a h hash cp =
      let kept = take start c.blocks in
      let size : length kept ≡ start = omega (arith, length-take start c.blocks, a.upper) in
      let (b, found, e) = held h hash cp in
      rw a.blocks (elim (Bool-cases (ltb h start)) [
        | inl below ↦
            HasBlock-append kept nb h hash
              (HasBlock-take start c.blocks h hash (ground arith) (held h hash cp))
        | inr above ↦ elim (Bool-cases (ltb (start + length nb - 1) h)) [
          | inl short ↦
              let cut =
                shortens-found start (length c.blocks - 1) (start + length nb - 1) h
                  c.limits.checkpoints cp (ground arith)
                  (omega (arith, get_elem?-lt c.blocks h found)) (ground arith) in
              absurd (ground (arith, cut, a.checkpoints_kept))
          | inr long ↦
              let (r, ran) = a.ran in
              validate_run-HasBlock c.limits now kept _ _ nb _ h hash ran cp (ground (arith, size))
                (ground (arith, size, a.lower))
        ]
      ])

  pub apply_checkpoint-cases :
      (cp : Checkpoint) (c : Chain)
      → ((apply_checkpoint C cp c).1 ≡ c)
        ⊎ (((apply_checkpoint C cp c).1 ≡ record c {
          limits = record c.limits {
            checkpoints = set_checkpoint cp.height cp.hash c.limits.checkpoints;
          };
        })
            × HasBlock C c.blocks cp.height cp.hash)
  unfolding apply_checkpoint
  apply_checkpoint-cases cp c =
      elim (Bool-cases (cp.height == 0 || leb (length c.blocks) cp.height)) [
        | inl unknown ↦ inl (rw unknown refl)
        | inr known ↦
            let (b, found) = get_elem?-some c.blocks cp.height (ground arith) in
            elim (Bool-cases (bytes_eq (block_hash C b) cp.hash)) [
              | inr other ↦ inl (rw (known, found, other) refl)
              | inl same ↦
                  elim (Bool-cases
                    (same_hash (checkpoint_at cp.height c.limits.checkpoints) cp.hash)) [
                      | inl had ↦ inl (rw (known, found, same, had) refl)
                      | inr new ↦
                          inr (rw (known, found, same, new) refl, (b, found, bytes_eq→eq _ _ same))
                    ]
            ]
      ]

  -- A checkpoint that ApplyCheckpoint takes names a block of the chain.
  pub apply_checkpoint-CheckpointsHeld :
      (cp : Checkpoint) (c : Chain)
      → CheckpointsHeld C c.limits.checkpoints c.blocks
      → CheckpointsHeld C (apply_checkpoint C cp c).1.limits.checkpoints c.blocks
  apply_checkpoint-CheckpointsHeld cp c held h hash found = elim (apply_checkpoint-cases cp c) [
    | inl same ↦ held h hash (rw same at found)
    | inr (set, (b, at_height, e)) ↦
        let now_found =
          rw (set, checkpoint_at-set cp.height h cp.hash c.limits.checkpoints) at found in
        elim (Bool-cases (cp.height == h)) [
          | inl here ↦
              let height : cp.height ≡ h = ground arith in
              let same : cp.hash ≡ hash = ground (arith, now_found) in
              (b, rw (sym height) at_height, e ∙ same)
          | inr elsewhere ↦ held h hash (ground (arith, now_found))
        ]
  ]
