-- ===== src/Chain/Adopt/Outcome.antt =====
-- What TryAdoptChain does: it refuses the candidate and changes at most the memo fields, or it adopts
-- a candidate that passed every test.
use mathlib.Core.Path.{subst}
use cereblix.Prelude.{
  ℕ, ◌+◌, ◌-◌, ◌≤◌, ◌≡◌, refl, ap, sym, ◌∙◌, Option, none, some, Bool, true, false, ◌||◌, ◌⊎◌, inl,
  inr, List, [], ◌++◌, take, length, arith, ◌==◌, ltb, if◌then◌else◌, Bool-cases, take-length,
}
use cereblix.Prelude.Result.{Result, ok, err, Result-cases}
use cereblix.Prelude.Exec.{Exec, ◌>>◌}
use cereblix.Types.Crypto.{Crypto}
use cereblix.Types.Block.{Block}
use cereblix.Ledger.{State}
use cereblix.Ledger.Totals.{Totals}
use cereblix.Chain.Caches.{Caches}
use cereblix.Chain.Validate.{
  BlockError, checkpoint_shortening, empty_candidate, bad_fork_point, last_block,
}
use cereblix.Chain.Record.{Chain, replay_state, replay_totals}
use cereblix.Chain.Choice.{candidate_work, candidate_meets_anchor, check_fork_choice, shortens}
use cereblix.Chain.Adopt.{
  over_cap, is_empty, commit, deep_recovery_active_c, extend_with, reorganise_with, validate_run,
  check_depth, adopt_extension, adopt_reorg, after_depth, try_adopt_chain, announce_last,
}
use cereblix.Chain.Adopt.Derived.{IsDerived, caches-IsDerived, validate_run-ok}

-- The candidate is refused; only the memo fields may have changed.
abbrev pub Refused : Chain → Result BlockError (Unit {0}) × Chain → Type 0
Refused c out = (e : BlockError) × (k : Caches) × (out ≡ (err e, record c { caches = k }))

-- The run of a candidate's blocks on the blocks up to the fork, with the memo fields `k`, ends in `r`.
abbrev pub RanWith :
    Crypto → Chain → Caches → ℕ → List Block → ℕ → List Block × State × Totals → Type 0
RanWith C c k start nb now r =
    (validate_run C c.limits now (take start c.blocks) (replay_state C [] (take start c.blocks))
      (replay_totals C [] (take start c.blocks)) nb k).0
    ≡ ok r

-- The memo fields after the guard on the depth, which may have noted an activation height.
abbrev pub guarded_caches : Crypto → Chain → ℕ → List Block → Caches
guarded_caches C c start nb = (check_depth C (length c.blocks - start) start nb c).1.caches

-- The blocks up to the fork, and the run of the candidate's blocks on them, with those memo fields.
abbrev pub Ran : Crypto → Chain → ℕ → List Block → ℕ → Type 0
Ran C c start nb now =
    (r : List Block × State × Totals) × RanWith C c (guarded_caches C c start nb) start nb now r

-- A candidate that the chain `c` moved to, with the tests that it passed.
pub record Adopted (C : Crypto) (c c' : Chain) (start : ℕ) (nb : List Block) (now : ℕ)
    : Type 0 where
  pub lower : 1 ≤ start
  pub upper : start ≤ length c.blocks
  pub depth_ok :
      (over_cap C c (length c.blocks - start) ≡ false)
      ⊎ (candidate_meets_anchor C c.auth_anchor start nb ≡ true)
  pub checkpoints_kept :
      shortens start (length c.blocks - 1) (start + length nb - 1) c.limits.checkpoints ≡ false
  pub work : ℕ
  pub worked : candidate_work c start nb ≡ ok work
  pub chosen : check_fork_choice C c (length c.blocks - start) nb work ≡ ok tt
  pub ran : Ran C c start nb now
  pub blocks : c'.blocks ≡ take start c.blocks ++ nb
  pub limits : c'.limits ≡ c.limits

module _ (C : Crypto) where
  announce_last-blocks : (o : Option Block) (c : Chain) → (announce_last C o c).blocks ≡ c.blocks
  announce_last-blocks none c = refl
  announce_last-blocks (some b) c = refl

  announce_last-limits : (o : Option Block) (c : Chain) → (announce_last C o c).limits ≡ c.limits
  announce_last-limits none c = refl
  announce_last-limits (some b) c = refl

  pub extend_with-limits :
      (blocks : List Block) (st : State) (tot : Totals) (work : ℕ) (nb : List Block) (c : Chain)
      → (extend_with C blocks st tot work nb c).limits ≡ c.limits
  unfolding extend_with
  extend_with-limits blocks st tot work nb c = elim (Bool-cases c.uses_store) [
    | inl on ↦ rw on refl
    | inr off ↦ rw off refl
  ]

  reorganise_with-limits :
      (blocks : List Block) (st : State) (tot : Totals) (work : ℕ) (c : Chain)
      → (reorganise_with C blocks st tot work c).limits ≡ c.limits
  unfolding reorganise_with
  reorganise_with-limits blocks st tot work c = elim (Bool-cases c.uses_store) [
    | inl on ↦ rw on refl
    | inr off ↦ rw off refl
  ]

  -- what the extension and the reorganisation have in common
  abbrev Moved : Chain → ℕ → List Block → ℕ → Result BlockError (Unit {0}) × Chain → Type 0
  Moved c start nb now out =
      Refused c out
      ⊎ ((out.0 ≡ ok tt)
          × ((r : List Block × State × Totals) × RanWith C c c.caches start nb now r)
          × (out.1.blocks ≡ take start c.blocks ++ nb)
          × (out.1.limits ≡ c.limits))

  adopt_extension-Moved :
      (nb : List Block) (work now : ℕ) (c : Chain)
      → IsDerived C c
      → Moved c (length c.blocks) nb now (adopt_extension C nb work now c)
  unfolding adopt_extension extend_with
  adopt_extension-Moved nb work now c d =
      let run = validate_run C c.limits now c.blocks c.state c.totals nb c.caches in
      let c2 : Chain = record c { caches = run.1 } in
      elim (Result-cases run.0) [
        | inr (f, e) ↦ inl (f, run.1, rw e refl)
        | inl (r, e) ↦
            let (blocks, _, _) =
              validate_run-ok C c.limits now c.blocks c.state c.totals nb c.caches e in
            inr (
              rw e refl,
              (r, rw (take-length c.blocks, sym d.state, sym d.totals) e),
              rw (e, take-length c.blocks) (announce_last-blocks (last_block nb) _ ∙ blocks),
              rw e (
                  announce_last-limits (last_block nb) (extend_with C r.0 r.1 r.2 work nb c2)
                  ∙ extend_with-limits r.0 r.1 r.2 work nb c2),
            )
      ]

  adopt_reorg-Moved :
      (start : ℕ) (nb : List Block) (work now : ℕ) (c : Chain)
      → Moved c start nb now (adopt_reorg C start nb work now c)
  unfolding adopt_reorg reorganise_with
  adopt_reorg-Moved start nb work now c =
      let kept = take start c.blocks in
      let st = replay_state C [] kept in
      let tot = replay_totals C [] kept in
      let run = validate_run C c.limits now kept st tot nb c.caches in
      let c2 : Chain = record c { caches = run.1 } in
      elim (Result-cases run.0) [
        | inr (f, e) ↦ inl (f, run.1, rw e refl)
        | inl (r, e) ↦
            let (blocks, _, _) = validate_run-ok C c.limits now kept st tot nb c.caches e in
            inr (
              rw e refl,
              (r, e),
              rw e (announce_last-blocks (last_block nb) _ ∙ blocks),
              rw e (
                  announce_last-limits (last_block nb) (reorganise_with C r.0 r.1 r.2 work c2)
                  ∙ reorganise_with-limits r.0 r.1 r.2 work c2),
            )
      ]

  check_depth-caches :
      (depth start : ℕ) (nb : List Block) (c : Chain)
      → (k : Caches) × ((check_depth C depth start nb c).1 ≡ record c { caches = k })
  unfolding check_depth
  check_depth-caches depth start nb c = elim (Bool-cases (over_cap C c depth)) [
    | inl over ↦ ((deep_recovery_active_c C c).1.caches, ground arith)
    | inr within ↦ (c.caches, ground arith)
  ]

  check_depth-ok :
      (depth start : ℕ) (nb : List Block) (c : Chain)
      → (check_depth C depth start nb c).0 ≡ ok tt
      → (over_cap C c depth ≡ false) ⊎ (candidate_meets_anchor C c.auth_anchor start nb ≡ true)
  unfolding check_depth
  check_depth-ok depth start nb c h = elim (Bool-cases (over_cap C c depth)) [
    | inl over ↦ inr (ground arith)
    | inr within ↦ inl within
  ]

  -- An adoption, or a refusal, of `nb` at `start`.
  abbrev pub Outcome :
      Chain → ℕ → List Block → ℕ → Bool → Result BlockError (Unit {0}) × Chain → Type 0
  Outcome c start nb now disk_ok out =
      Refused c out ⊎ ((out.0 ≡ (commit disk_ok c).0) × Adopted C c out.1 start nb now)

  moved :
      (start : ℕ) (nb : List Block) (work now : ℕ) (c : Chain)
      → IsDerived C c
      → start ≤ length c.blocks
      → Moved c start nb now (
          (if length c.blocks - start == 0
              then adopt_extension C nb work now
              else adopt_reorg C start nb work now)
            c)
  moved start nb work now c d le = elim (Bool-cases (length c.blocks - start == 0)) [
    | inl flat ↦
        let e : start ≡ length c.blocks = ground arith in
        rw (flat, e) (adopt_extension-Moved nb work now c d)
    | inr deep ↦ rw deep (adopt_reorg-Moved start nb work now c)
  ]

  commit-Outcome :
      (start : ℕ) (nb : List Block) (now : ℕ) (disk_ok : Bool) (c : Chain) (k : Caches)
      (m : Exec Chain BlockError (Unit {0}))
      → Moved (record c { caches = k }) start nb now (m (record c { caches = k }))
      → ((c' : Chain)
          → c'.blocks ≡ take start c.blocks ++ nb
          → ((r : List Block × State × Totals) × RanWith C c k start nb now r)
          → c'.limits ≡ c.limits
          → Adopted C c c' start nb now)
      → Outcome c start nb now disk_ok ((m >> commit disk_ok) (record c { caches = k }))
  commit-Outcome start nb now disk_ok c k m (inl (e, k', refused)) adopted =
      inl (e, k', rw refused refl)
  commit-Outcome start nb now disk_ok c k m (inr (done, ran, blocks, limits)) adopted =
      inr (rw done (refl, adopted _ blocks ran limits))

  after_depth-Outcome :
      (start : ℕ) (nb : List Block) (now : ℕ) (disk_ok : Bool) (c : Chain) (k : Caches)
      → k ≡ guarded_caches C c start nb
      → IsDerived C c
      → 1 ≤ start
      → start ≤ length c.blocks
      → (over_cap C c (length c.blocks - start) ≡ false)
        ⊎ (candidate_meets_anchor C c.auth_anchor start nb ≡ true)
      → Outcome c start nb now disk_ok
          (after_depth C start nb now disk_ok c (record c { caches = k }))
  unfolding after_depth
  after_depth-Outcome start nb now disk_ok c k memo d lower upper depth_ok =
      let depth = length c.blocks - start in
      elim (Bool-cases
        (shortens start (length c.blocks - 1) (start + length nb - 1) c.limits.checkpoints)) [
          | inl short ↦ rw short (inl (checkpoint_shortening, k, refl))
          | inr long ↦ rw long (elim (Result-cases (candidate_work c start nb)) [
            | inr (f, e) ↦ rw e (inl (f, k, refl))
            | inl (work, e) ↦ rw e (elim (Result-cases (check_fork_choice C c depth nb work)) [
              | inr (f, e2) ↦ rw e2 (inl (f, k, refl))
              | inl (tt, e2) ↦ rw e2 (
                  commit-Outcome start nb now disk_ok c k
                    (if depth == 0
                      then adopt_extension C nb work now
                      else adopt_reorg C start nb work now)
                    (moved start nb work now (record c { caches = k }) (caches-IsDerived C c d k)
                      upper)
                    λ c' blocks ran limits. record {
                      lower = lower;
                      upper = upper;
                      depth_ok = depth_ok;
                      checkpoints_kept = long;
                      work = work;
                      worked = e;
                      chosen = e2;
                      ran = (ran.0, subst (λ j. RanWith C c j start nb now ran.0) memo ran.1);
                      blocks = blocks;
                      limits = limits;
                    })
            ])
          ])
        ]

  pub try_adopt_chain-Outcome :
      (start : ℕ) (nb : List Block) (now : ℕ) (disk_ok : Bool) (c : Chain)
      → IsDerived C c
      → Outcome c start nb now disk_ok (try_adopt_chain C start nb now disk_ok c)
  unfolding try_adopt_chain
  try_adopt_chain-Outcome start nb now disk_ok c d =
      let depth = length c.blocks - start in
      let (k, e) = check_depth-caches depth start nb c in
      elim (Bool-cases (is_empty C nb)) [
        | inl empty ↦ rw empty (inl (empty_candidate, c.caches, refl))
        | inr some_blocks ↦
            rw some_blocks (elim (Bool-cases (start == 0 || ltb (length c.blocks) start)) [
              | inl bad ↦ rw bad (inl (bad_fork_point, c.caches, refl))
              | inr in_range ↦ rw in_range (elim (Result-cases (check_depth C depth start nb c).0) [
                | inr (f, too_deep) ↦ rw (too_deep, e) (inl (f, k, refl))
                | inl (tt, allowed) ↦
                    rw (allowed, e)
                      (after_depth-Outcome start nb now disk_ok c k (sym (ap (λ x. x.caches) e)) d
                        (ground arith) (ground arith) (check_depth-ok depth start nb c allowed))
              ])
            ])
      ]
