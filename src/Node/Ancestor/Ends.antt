-- ===== src/Node/Ancestor/Ends.antt =====
-- The search for the common ancestor in node/node.go ends, whatever the peer answers.
use cereblix.Prelude.{
  ℕ, zero, suc, ◌+◌, ◌-◌, ◌*◌, ◌/◌, ◌≤◌, ◌<◌, ◌≡◌, inl, inr, refl, arith, Option, some, ltb, ◌==◌,
  Bool-cases, Option-cases,
}
use cereblix.Prelude.Bytes.{Bytes}
use cereblix.Prelude.Word.{u64_mod, add64}
use cereblix.Types.Crypto.{Crypto}
use cereblix.Chain.Record.{Chain}
use cereblix.Chain.Views.{block_at}
use cereblix.Node.Ancestor.{agrees_with, search, Search, flaky, mismatch, found}

-- a height that was found is at most `top`
abbrev pub Within : ℕ → Search → Type 0
Within top flaky = Unit {0}
Within top mismatch = Unit {0}
Within top (found a) = a ≤ top

pub search-ends :
    (C : Crypto) (c : Chain) (ask : ℕ → ℕ → Option Bytes) (top n lo hi anc : ℕ)
    → hi ≤ top
    → anc ≤ top
    → 2 * hi < u64_mod
    → hi + 1 < n + lo
    → lo ≤ hi + 1
    → (s : Search) × (search C ask c n lo hi anc ≡ some s) × Within top s
unfolding search
search-ends C c ask top zero lo hi anc below at_most small fuel near =
    absurd (omega (arith, fuel, near))
search-ends C c ask top (suc n) lo hi anc below at_most small fuel near =
    let mid = add64 lo hi / 2 in
    elim (Bool-cases (ltb hi lo)) [
      | inl over ↦ rw (search, over) (found anc, refl, at_most)
      | inr inside ↦
          let le : lo ≤ hi = ground arith in
          let half : mid ≡ (lo + hi) / 2 = omega (arith, le, small) in
          elim (Option-cases (ask n mid)) [
            | inl e ↦ rw (search, inside, e) (flaky, refl, tt)
            | inr (hash, e) ↦ elim (Bool-cases (agrees_with C (block_at c mid) hash)) [
              | inl same ↦
                  rw (search, inside, e, same)
                    (search-ends C c ask top n (mid + 1) hi mid below
                      (omega (arith, half, le, below)) small (omega (arith, half, le, fuel))
                      (omega (arith, half, le)))
              | inr differs ↦ elim (Bool-cases (mid == 0)) [
                | inl z ↦ rw (search, inside, e, differs, z) (mismatch, refl, tt)
                | inr z ↦
                    let positive : 0 < mid = ground arith in
                    rw (search, inside, e, differs, z)
                      (search-ends C c ask top n lo (mid - 1) anc (omega (arith, half, le, below))
                        at_most (omega (arith, half, le, small))
                        (omega (arith, half, le, fuel, positive))
                        (omega (arith, half, le, positive)))
              ]
            ]
          ]
    ]
