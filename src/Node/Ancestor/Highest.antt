-- ===== src/Node/Ancestor/Highest.antt =====
-- The search for the common ancestor in node/node.go finds the highest one.
use cereblix.Prelude.{
  ◌≡◌, ◌≤◌, ◌<◌, ◌⊎◌, inl, inr, refl, sym, ◌∙◌, arith, Bool-cases, ltb→lt, ℕ, zero, suc, ◌+◌, ◌-◌,
  ◌*◌, ◌/◌, Bool, true, false, Option, some, ltb, ◌==◌,
}
use cereblix.Prelude.Bytes.{Bytes}
use cereblix.Prelude.Word.{add64, u64_mod}
use cereblix.Types.Crypto.{Crypto}
use cereblix.Chain.Record.{Chain}
use cereblix.Chain.Views.{block_at}
use cereblix.Node.Ancestor.{agrees_with, search, found}

-- The chains agree at a height, when the peer's hash there is `theirs`.
module _ (C : Crypto) (c : Chain) (theirs : ℕ → Bytes) where
  agrees : ℕ → Bool
  agrees h = agrees_with C (block_at c h) (theirs h)

  abbrev pub AgreesAt : ℕ → Type 0
  AgreesAt h = agrees_with C (block_at c h) (theirs h) ≡ true

  -- what the search knows: the ancestor is below `lo`, and no height above `hi` is agreed on
  record Narrowed (lo hi top anc : ℕ) : Type 0 where
    below : ((lo ≡ 0) × (anc ≡ 0)) ⊎ ((lo ≡ anc + 1) × AgreesAt anc)
    above : (h : ℕ) → hi < h → h ≤ top → agrees_with C (block_at c h) (theirs h) ≡ false
    near : lo ≤ hi + 1
    bound : hi ≤ top

  disagreement_positive :
      AgreesAt 0 → (mid : ℕ) → agrees_with C (block_at c mid) (theirs mid) ≡ false → 0 < mid
  disagreement_positive agreed zero differs =
      let clash : true ≡ false = sym agreed ∙ differs in absurd cc
  disagreement_positive agreed (suc mid) differs = omega arith

  narrow_end :
      (lo hi top anc : ℕ)
      → hi < lo
      → Narrowed lo hi top anc
      → (a : ℕ) × (some (found anc) ≡ some (found a))
        × AgreesAt a
        × (a ≤ top)
        × ((h : ℕ) → a < h → h ≤ top → agrees_with C (block_at c h) (theirs h) ≡ false)
  narrow_end lo hi top anc over k = elim k.below [
    | inl (e, _) ↦ absurd (omega (arith, e, over))
    | inr (e, agreed) ↦ (
      anc,
      refl,
      agreed,
      omega (arith, e, k.near, k.bound),
      λ h lt le. k.above h (omega (arith, e, over, lt, k.near)) le,
    )
  ]

  narrow_up :
      (lo hi top anc mid : ℕ)
      → AgreesAt mid
      → mid ≤ hi
      → Narrowed lo hi top anc
      → Narrowed (mid + 1) hi top mid
  narrow_up lo hi top anc mid same le k = record {
    below = inr (refl, same);
    above = k.above;
    near = omega (arith, le);
    bound = k.bound;
  }

  narrow_down :
      ((g h : ℕ) → g ≤ h → AgreesAt h → AgreesAt g)
      → (lo hi top anc mid : ℕ) → agrees_with C (block_at c mid) (theirs mid) ≡ false
      → lo ≤ mid
      → mid ≤ hi
      → 0 < mid
      → Narrowed lo hi top anc
      → Narrowed lo (mid - 1) top anc
  narrow_down mono lo hi top anc mid differs from to positive k = record {
    below = k.below;
    above = λ h lt le. elim (Bool-cases (agrees_with C (block_at c h) (theirs h))) [
      | inl same ↦
          let clash : true ≡ false = sym (mono mid h (omega (arith, lt)) same) ∙ differs in
          absurd cc
      | inr stays ↦ stays
    ];
    near = omega (arith, from, positive);
    bound = omega (arith, to, k.bound);
  }

  search-Narrowed :
      (ask : ℕ → ℕ → Option Bytes)
      → ((k h : ℕ) → ask k h ≡ some (theirs h))
      → ((g h : ℕ) → g ≤ h → AgreesAt h → AgreesAt g)
      → AgreesAt 0
      → (n lo hi top anc : ℕ) → hi + 1 < n + lo
      → 2 * top < u64_mod
      → Narrowed lo hi top anc
      → (a : ℕ) × (search C ask c n lo hi anc ≡ some (found a))
        × AgreesAt a
        × (a ≤ top)
        × ((h : ℕ) → a < h → h ≤ top → agrees_with C (block_at c h) (theirs h) ≡ false)
  unfolding search
  search-Narrowed ask honest mono zero_agrees zero lo hi top anc fuel small k =
      absurd (omega (arith, k.near))
  search-Narrowed ask honest mono zero_agrees (suc n) lo hi top anc fuel small k =
      let mid = add64 lo hi / 2 in
      elim (Bool-cases (ltb hi lo)) [
        | inl over ↦ rw (search, over) (narrow_end lo hi top anc (ltb→lt hi lo over) k)
        | inr inside ↦
            let le : lo ≤ hi = ground arith in
            let half : mid ≡ (lo + hi) / 2 = omega (arith, le, k.bound) in
            elim (Bool-cases (agrees_with C (block_at c mid) (theirs mid))) [
              | inl same ↦
                  rw (search, inside, honest n mid, same)
                    (search-Narrowed ask honest mono zero_agrees n (mid + 1) hi top mid
                      (omega (arith, half, le)) small
                      (narrow_up lo hi top anc mid same (omega (arith, half, le)) k))
              | inr differs ↦
                  let positive : 0 < mid = disagreement_positive zero_agrees mid differs in
                  let not_zero : (mid == 0) ≡ false = ground arith in
                  rw (search, inside, honest n mid, differs, not_zero)
                    (search-Narrowed ask honest mono zero_agrees n lo (mid - 1) top anc
                      (omega (arith, half, le, positive)) small
                      (narrow_down mono lo hi top anc mid differs (omega (arith, half, le))
                        (omega (arith, half, le)) positive k))
            ]
      ]

-- For a peer that answers every request for the hash at a height with the hash of its own block there:
-- if the chains agree below each height that they agree at, and at the genesis block, the search from 0
-- to `top` ends, on the highest block up to `top` that the chains share.
pub search-highest :
    (C : Crypto) (c : Chain) (theirs : ℕ → Bytes) (ask : ℕ → ℕ → Option Bytes) (top : ℕ)
    → 2 * top < u64_mod
    → ((k h : ℕ) → ask k h ≡ some (theirs h))
    → ((g h : ℕ) → g ≤ h → AgreesAt C c theirs h → AgreesAt C c theirs g)
    → AgreesAt C c theirs 0
    → (a : ℕ) × (search C ask c (top + 2) 0 top 0 ≡ some (found a))
      × AgreesAt C c theirs a
      × (a ≤ top)
      × ((h : ℕ) → a < h → h ≤ top → agrees_with C (block_at c h) (theirs h) ≡ false)
search-highest C c theirs ask top small honest mono zero_agrees =
    search-Narrowed C c theirs ask honest mono zero_agrees (top + 2) 0 top top 0 (omega arith) small
      (record {
        below = inl (refl, refl);
        above = λ h lt le. absurd (omega (arith, lt, le));
        near = omega arith;
        bound = omega arith;
      })
