-- ===== src/Consensus/Activation.antt =====
-- Upgrade gates of core/upgrade.go: a locked-in height is the first that qualifies, and depends only
-- on the blocks below it.
use cereblix.Prelude.{
  ℕ, ◌+◌, ◌-◌, zero, suc, ◌≤◌, ◌<◌, ◌≡◌, ◌≢◌, ◌⊎◌, inl, inr, refl, sym, ◌∙◌, ap, List, take, drop,
  length, arith, ltb, leb, take-take, take-drop, Bool-cases,
}
use cereblix.Types.Block.{Block}
use cereblix.Consensus.Upgrade.{
  signal_count_win, first_qualifying, first_height, activation_height_win,
}

-- The height `a` has the votes.
abbrev pub Qualifies : List Block → ℕ → ℕ → ℕ → ℕ → Type 0
Qualifies blocks required threshold window a = threshold ≤ signal_count_win blocks a required window

-- `a` is the least qualifying height from `start` to the end, or 0 if there is none.
abbrev pub IsFirst : List Block → ℕ → ℕ → ℕ → ℕ → ℕ → Type 0
IsFirst blocks required threshold window start a =
    ((a ≡ 0)
      × ((h : ℕ) → start ≤ h → h ≤ length blocks → ¬ Qualifies blocks required threshold window h))
    ⊎ ((start ≤ a)
        × (a ≤ length blocks)
        × Qualifies blocks required threshold window a
        × ((h : ℕ) → start ≤ h → h < a → ¬ Qualifies blocks required threshold window h))

module _ (blocks : List Block) (required threshold window : ℕ) where
  Searched : ℕ → ℕ → ℕ → Type 0
  Searched rounds a r =
      ((r ≡ 0)
        × ((h : ℕ) → a ≤ h → h < a + rounds → ¬ Qualifies blocks required threshold window h))
      ⊎ ((a ≤ r)
          × (r < a + rounds)
          × Qualifies blocks required threshold window r
          × ((h : ℕ) → a ≤ h → h < r → ¬ Qualifies blocks required threshold window h))

  search_step :
      (rounds a r : ℕ)
      → ¬ Qualifies blocks required threshold window a
      → Searched rounds (suc a) r
      → Searched (suc rounds) a r
  unfolding Searched
  search_step rounds a r miss (inl (e, no_later)) = inl (e, λ h le lt q. grind (arith, no_later))
  search_step rounds a r miss (inr (le, lt, q, none_before)) =
      inr (omega arith, omega arith, q, λ h le' lt' q'. grind (arith, none_before))

  first_qualifying-Searched :
      (rounds a : ℕ)
      → Searched rounds a (first_qualifying blocks required threshold window rounds a)
  unfolding Searched first_qualifying
  first_qualifying-Searched zero a = inl (refl, λ h le lt q. omega arith)
  first_qualifying-Searched (suc rounds) a =
      elim (Bool-cases (leb threshold (signal_count_win blocks a required window))) [
        | inl yes_now ↦
            rw yes_now (inr (omega arith, omega arith, ground arith, λ h le lt q. omega arith))
        | inr not_now ↦ rw not_now (
            search_step rounds a (first_qualifying blocks required threshold window rounds (suc a))
              (ground arith) (first_qualifying-Searched rounds (suc a)))
      ]

IsFirst-of-Searched :
    (blocks : List Block) (required threshold window start r : ℕ)
    → 0 < start
    → Searched blocks required threshold window (suc (length blocks) - start) start r
    → IsFirst blocks required threshold window start r
unfolding Searched
IsFirst-of-Searched blocks required threshold window start r pos (inl (e, none_qualifies)) =
    inl (e, λ h le lt q. none_qualifies h le (omega arith) q)
IsFirst-of-Searched blocks required threshold window start r pos (inr (le, lt, q, none_before)) =
    inr (le, omega arith, q, none_before)

-- For a window that is not empty, the activation height is the first height, from the floor and a
-- full window on, that has the votes; or it is 0 and no such height up to the chain's length has
-- them.
pub activation-IsFirst :
    (blocks : List Block) (floor required threshold window : ℕ)
    → 0 < window
    → IsFirst blocks required threshold window
        (first_height floor window)
        (activation_height_win blocks floor required threshold window)
unfolding activation_height_win
activation-IsFirst blocks floor required threshold window pos =
    elim (Bool-cases (ltb (length blocks) floor)) [
      | inl short ↦ rw short (inl (refl, λ h le lt q. ground arith))
      | inr long ↦ rw long (
          IsFirst-of-Searched blocks required threshold window (first_height floor window) _
            (ground arith)
            (first_qualifying-Searched blocks required threshold window
              (suc (length blocks) - first_height floor window) (first_height floor window)))
    ]

-- The votes at a height are those of the blocks below it.
signal_count_local :
    (b1 b2 : List Block) (at required window : ℕ)
    → at ≤ length b1
    → at ≤ length b2
    → take at b1 ≡ take at b2
    → signal_count_win b1 at required window ≡ signal_count_win b2 at required window
unfolding signal_count_win
signal_count_local b1 b2 at required window h1 h2 same = elim (Bool-cases (ltb at window)) [
  | inl short ↦ ground arith
  | inr long ↦
      let e : at - window + window ≡ at = ground arith in
      let slice : take window (drop (at - window) b1) ≡ take window (drop (at - window) b2) =
        rw (take-drop window (at - window) b1, take-drop window (at - window) b2, e, same) in
      ground (arith, slice)
]

first_unique :
    (b1 b2 : List Block) (required threshold window start a r : ℕ)
    → a ≢ 0
    → a ≤ length b2
    → take a b1 ≡ take a b2
    → IsFirst b1 required threshold window start a
    → IsFirst b2 required threshold window start r
    → r ≡ a
first_unique b1 b2 required threshold window start a r nz le same (inl (e, _)) first2 =
    absurd (nz e)
first_unique b1 b2 required threshold window start a r nz le same (inr (s, l, q, before))
      (inl (e, miss)) =
    absurd (miss a s le (rw (signal_count_local b1 b2 a required window l le same) at q))
first_unique b1 b2 required threshold window start a r nz le same (inr (s, l, q, before))
      (inr (s2, l2, q2, before2)) =
    elim (Bool-cases (ltb r a)) [
      | inl below ↦
          let lt : r < a = ground arith in
          let sub : take r b1 ≡ take r b2 =
            sym (take-take r a b1 (omega arith))
            ∙ ap (take r) same
            ∙ take-take r a b2 (omega arith) in
          let same_votes : signal_count_win b1 r required window
              ≡ signal_count_win b2 r required window =
            signal_count_local b1 b2 r required window (omega arith) l2 sub in
          absurd (before r s2 lt (rw (sym same_votes) at q2))
      | inr not_below ↦ elim (Bool-cases (ltb a r)) [
        | inl above ↦ absurd (
            before2 a s (ground arith)
              (rw (signal_count_local b1 b2 a required window l le same) at q))
        | inr equal ↦ ground arith
      ]
    ]

-- A locked-in height depends only on the blocks below it: where a gate with a window that is not
-- empty has a height other than 0 on one chain, every chain that is long enough and has the same
-- blocks below that height has the same activation height, be it longer, shorter or a reorganised
-- one.
pub activation_local :
    (b1 b2 : List Block) (floor required threshold window a : ℕ)
    → 0 < window
    → activation_height_win b1 floor required threshold window ≡ a
    → a ≢ 0
    → a ≤ length b2
    → take a b1 ≡ take a b2
    → activation_height_win b2 floor required threshold window ≡ a
activation_local b1 b2 floor required threshold window a pos e nz le same =
    let first1 : IsFirst b1 required threshold window (first_height floor window) a =
      rw e at (activation-IsFirst b1 floor required threshold window pos) in
    first_unique b1 b2 required threshold window (first_height floor window) a _ nz le same first1
      (activation-IsFirst b2 floor required threshold window pos)
