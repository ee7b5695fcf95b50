-- ===== src/Chain/Adopt/Safety.antt =====
-- What an adopted candidate of TryAdoptChain cannot do: lower the work, rewrite blocks below the
-- reorg cap without the authority's anchor, or move an activation height that is buried.
use cereblix.Prelude.{
  ℕ, ◌+◌, ◌-◌, ◌*◌, ◌^◌, ◌%◌, ◌≤◌, ◌<◌, ◌≡◌, ◌⊎◌, inl, inr, refl, sym, ◌∙◌, ap, Bool, true, false,
  List, take, length, arith, Bool-cases, Option-cases, length-take, take-append, take-take,
}
use cereblix.Prelude.Word.{u64_mod, add64}
use cereblix.Prelude.Result.{ok}
use cereblix.Types.Crypto.{Crypto}
use cereblix.Types.Block.{Block}
use cereblix.Consensus.Upgrade.{activation_height_win}
use cereblix.Consensus.Activation.{activation_local}
use cereblix.Chain.Caches.{is_buried}
use cereblix.Chain.Validate.{last_block}
use cereblix.Chain.Record.{Chain, sum_work}
use cereblix.Chain.Choice.{exceeds_threshold, check_fork_choice, candidate_meets_anchor}
use cereblix.Chain.Adopt.{try_adopt_chain}
use cereblix.Chain.Adopt.Derived.{IsDerived, candidate_work-exact}
use cereblix.Chain.Adopt.Rebuild.{try_adopt_chain-IsDerived}
use cereblix.Chain.Adopt.Outcome.{Adopted, try_adopt_chain-Outcome}

module _ (C : Crypto) where
  exceeds_threshold-lem :
      (cum permille depth work : ℕ)
      → depth * permille < 2 ^ 63
      → exceeds_threshold cum permille depth work ≡ true
      → cum < work
  unfolding exceeds_threshold
  exceeds_threshold-lem cum permille depth work small h =
      let product = depth * permille in
      let whole : product % u64_mod ≡ product = omega arith in ground arith

  -- A candidate that the fork choice lets through has more work, or the same work at depth one.
  fork_choice-work :
      (c : Chain) (depth : ℕ) (nb : List Block) (work : ℕ)
      → depth * c.limits.reorg_penalty_permille < 2 ^ 63
      → check_fork_choice C c depth nb work ≡ ok tt
      → (c.cum_work < work) ⊎ ((work ≡ c.cum_work) × (depth ≡ 1))
  unfolding check_fork_choice
  fork_choice-work c depth nb work small h =
      elim (Bool-cases (exceeds_threshold c.cum_work c.limits.reorg_penalty_permille depth work)) [
        | inl more ↦
            inl (
              exceeds_threshold-lem c.cum_work c.limits.reorg_penalty_permille depth work small
                more)
        | inr no_more ↦ elim (Option-cases (last_block nb)) [
          | inl none_new ↦ absurd (ground (arith, none_new, h, no_more))
          | inr (cand, e) ↦ elim (Option-cases (last_block c.blocks)) [
            | inl none_old ↦ absurd (ground (arith, none_old, e, h, no_more))
            | inr (cur, e2) ↦
                inr (ground (arith, e, e2, h, no_more), ground (arith, e, e2, h, no_more))
          ]
        ]
      ]

  Adopted-work :
      (c c' : Chain) (start : ℕ) (nb : List Block) (now : ℕ)
      → IsDerived C c
      → (length c.blocks - start) * c.limits.reorg_penalty_permille < 2 ^ 63
      → Adopted C c c' start nb now
      → (sum_work c.blocks < sum_work c'.blocks)
        ⊎ ((sum_work c'.blocks ≡ sum_work c.blocks) × (length c.blocks - start ≡ 1))
  Adopted-work c c' start nb now d small a =
      let exact : a.work ≡ sum_work c'.blocks =
        candidate_work-exact c start nb d.cum_work a.worked ∙ ap sum_work (sym a.blocks) in
      elim (fork_choice-work c (length c.blocks - start) nb a.work small a.chosen) [
        | inl more ↦ inl (omega (arith, more, exact, d.cum_work))
        | inr (same, one) ↦ inr (omega (arith, same, exact, d.cum_work), one)
      ]

  -- the blocks that two chains share up to a height
  abbrev pub SharedBelow : ℕ → List Block → List Block → Type 0
  SharedBelow n xs ys = take n xs ≡ take n ys

  Adopted-shared :
      (c c' : Chain) (start : ℕ) (nb : List Block) (now : ℕ)
      → Adopted C c c' start nb now
      → SharedBelow start c.blocks c'.blocks
  Adopted-shared c c' start nb now a =
      let kept = take start c.blocks in
      let size : start ≤ length kept = omega (arith, length-take start c.blocks, a.upper) in
      rw a.blocks
        (sym (take-append start kept nb size ∙ take-take start start c.blocks (omega arith)))

  SharedBelow-less :
      (m n : ℕ) (xs ys : List Block) → m ≤ n → SharedBelow n xs ys → SharedBelow m xs ys
  SharedBelow-less m n xs ys le same =
      sym (take-take m n xs le) ∙ ap (take m) same ∙ take-take m n ys le

  Adopted-cap :
      (c c' : Chain) (start : ℕ) (nb : List Block) (now : ℕ)
      → 0 < c.limits.max_reorg_depth
      → candidate_meets_anchor C c.auth_anchor start nb ≡ false
      → Adopted C c c' start nb now
      → SharedBelow (length c.blocks - c.limits.max_reorg_depth) c.blocks c'.blocks
  Adopted-cap c c' start nb now capped no_anchor a = elim a.depth_ok [
    | inr anchored ↦ absurd (ground (arith, anchored, no_anchor))
    | inl within ↦
        SharedBelow-less _ start c.blocks c'.blocks (ground (arith, within))
          (Adopted-shared c c' start nb now a)
  ]

  Adopted-activation :
      (c c' : Chain) (start : ℕ) (nb : List Block) (now floor required threshold window a : ℕ)
      → 0 < c.limits.max_reorg_depth
      → candidate_meets_anchor C c.auth_anchor start nb ≡ false
      → Adopted C c c' start nb now
      → 0 < window
      → a + c.limits.max_reorg_depth < u64_mod
      → activation_height_win c.blocks floor required threshold window ≡ a
      → is_buried a c.limits.max_reorg_depth c.blocks ≡ true
      → activation_height_win c'.blocks floor required threshold window ≡ a
  Adopted-activation c c' start nb now floor required threshold window a capped no_anchor ad wide
        small here buried =
      let depth = c.limits.max_reorg_depth in
      let exact : add64 a depth ≡ a + depth = omega arith in
      let deep : a ≤ length c.blocks - depth = ground (arith, buried, exact) in
      let shared : SharedBelow a c.blocks c'.blocks =
        SharedBelow-less a _ c.blocks c'.blocks deep
          (Adopted-cap c c' start nb now capped no_anchor ad) in
      let long : a ≤ length c'.blocks =
        omega (arith, deep, length-take a c.blocks, length-take a c'.blocks, ap length shared) in
      activation_local c.blocks c'.blocks floor required threshold window a wide here
        (λ e. ground (arith, buried, e)) long shared

  -- On a chain whose derived fields are those of its blocks, and where the depth times the reorg
  -- penalty fits an int64, TryAdoptChain never lowers the cumulative work: it keeps the blocks, or
  -- moves to a chain with more work, or, where one block would be discarded, to a chain with exactly
  -- as much.
  pub try_adopt_chain-work :
      (start : ℕ) (nb : List Block) (now : ℕ) (disk_ok : Bool) (c : Chain)
      → IsDerived C c
      → (length c.blocks - start) * c.limits.reorg_penalty_permille < 2 ^ 63
      → ((try_adopt_chain C start nb now disk_ok c).1.blocks ≡ c.blocks)
        ⊎ ((c.cum_work < (try_adopt_chain C start nb now disk_ok c).1.cum_work)
            ⊎ (((try_adopt_chain C start nb now disk_ok c).1.cum_work ≡ c.cum_work)
                × (length c.blocks - start ≡ 1)))
  try_adopt_chain-work start nb now disk_ok c d small =
      let d' = try_adopt_chain-IsDerived C start nb now disk_ok c d in
      elim (try_adopt_chain-Outcome C start nb now disk_ok c d) [
        | inl (f, k, refused) ↦ inl (rw refused refl)
        | inr (result, a) ↦ elim (Adopted-work c _ start nb now d small a) [
          | inl more ↦ inr (inl (omega (arith, more, d.cum_work, d'.cum_work)))
          | inr (same, one) ↦ inr (inr (omega (arith, same, d.cum_work, d'.cum_work), one))
        ]
      ]

  -- On a chain whose derived fields are those of its blocks, with a reorg cap set, a candidate
  -- that does not contain the authority's anchor changes no block more than the cap below the tip,
  -- whatever TryAdoptChain returns.
  pub try_adopt_chain-cap :
      (start : ℕ) (nb : List Block) (now : ℕ) (disk_ok : Bool) (c : Chain)
      → IsDerived C c
      → 0 < c.limits.max_reorg_depth
      → candidate_meets_anchor C c.auth_anchor start nb ≡ false
      → SharedBelow
          (length c.blocks - c.limits.max_reorg_depth)
          c.blocks
          (try_adopt_chain C start nb now disk_ok c).1.blocks
  try_adopt_chain-cap start nb now disk_ok c d capped no_anchor =
      elim (try_adopt_chain-Outcome C start nb now disk_ok c d) [
        | inl (f, k, refused) ↦ rw refused refl
        | inr (result, a) ↦ Adopted-cap c _ start nb now capped no_anchor a
      ]

  -- On a chain whose derived fields are those of its blocks, with a reorg cap set and a candidate
  -- that does not contain the authority's anchor: a gate's activation height that the cap has
  -- buried (the window is not empty, and the height and the cap add up to a uint64) is still the
  -- gate's height on the chain that TryAdoptChain leaves.
  pub try_adopt_chain-activation :
      (start : ℕ) (nb : List Block) (now : ℕ) (disk_ok : Bool) (c : Chain)
      (floor required threshold window a : ℕ)
      → IsDerived C c
      → 0 < c.limits.max_reorg_depth
      → candidate_meets_anchor C c.auth_anchor start nb ≡ false
      → 0 < window
      → a + c.limits.max_reorg_depth < u64_mod
      → activation_height_win c.blocks floor required threshold window ≡ a
      → is_buried a c.limits.max_reorg_depth c.blocks ≡ true
      → activation_height_win
          (try_adopt_chain C start nb now disk_ok c).1.blocks
          floor
          required
          threshold
          window
        ≡ a
  try_adopt_chain-activation start nb now disk_ok c floor required threshold window a d capped
        no_anchor wide small here buried =
      elim (try_adopt_chain-Outcome C start nb now disk_ok c d) [
        | inl (f, k, refused) ↦ rw refused here
        | inr (result, ad) ↦
            Adopted-activation c _ start nb now floor required threshold window a capped no_anchor
              ad wide small here buried
      ]
