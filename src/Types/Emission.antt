-- ===== src/Types/Emission.antt =====
-- The subsidies of core/types.go, summed over the heights of a chain.
use cereblix.Prelude.{
  ℕ, zero, suc, ◌+◌, ◌-◌, ◌*◌, ◌/◌, ◌%◌, ◌^◌, ◌≤◌, ◌<◌, ◌≡◌, refl, Bool, true, ◌&&◌, arith, ltb,
  leb, if◌then◌else◌, Bool-cases, inl, inr, ◌==◌,
}
use native.Mathlib.Nat.{div-le_self}
use cereblix.Types.Params.{block_subsidy, halving_interval, initial_reward, coin_unit}

-- The coins that exist after the block at a height; the genesis block pays nothing.
unfoldable pub emission : ℕ → ℕ
emission zero = 0
emission (suc h) = emission h + block_subsidy (suc h)

-- the reward of an era of HalvingInterval blocks
reward : ℕ → ℕ
reward k = if leb 33 k then 0 else initial_reward / 2 ^ k

halves_below : ℕ → Bool
unfolding reward
halves_below zero = true
halves_below (suc k) = leb (2 * reward (suc k)) (reward k) && halves_below k

halves_below-33 : halves_below 33 ≡ true
unfolding halves_below
halves_below-33 = refl

halves_below_sound : (n k : ℕ) → halves_below n ≡ true → k < n → 2 * reward (suc k) ≤ reward k
unfolding halves_below
halves_below_sound zero k h lt = absurd (omega arith)
halves_below_sound (suc n) k h lt = ground (arith, halves_below_sound n k)

reward-halves : (k : ℕ) → 2 * reward (suc k) ≤ reward k
reward-halves k = elim (Bool-cases (ltb k 33)) [
  | inl early ↦ halves_below_sound 33 k halves_below-33 (ground arith)
  | inr late ↦ (unfold reward in ground arith)
]

reward-le : (k : ℕ) → reward (suc k) ≤ reward k
reward-le k = omega (arith, reward-halves k)

subsidy-eq-reward : (h : ℕ) → block_subsidy h ≡ reward (h / halving_interval)
unfolding block_subsidy reward
subsidy-eq-reward h = refl

-- What is left of the present era at its reward, and one more era at that reward.
left : ℕ → ℕ
left h = let k = h / halving_interval in (2 * halving_interval - (h % halving_interval)) * reward k

same_era : (a b r : ℕ) → a ≡ b + 1 → b * r + r ≤ a * r
same_era a b r e = rw e (omega arith)

next_era : (r r' : ℕ) → 2 * r' ≤ r → 2 * halving_interval * r' + r' ≤ (halving_interval + 1) * r
next_era r r' h = omega arith

left-step : (h : ℕ) → left (suc h) + reward (suc h / halving_interval) ≤ left h
unfolding left
left-step h = elim (Bool-cases (suc h % halving_interval == 0)) [
  | inl new ↦
      let era : suc h / halving_interval ≡ suc (h / halving_interval) = ground arith in
      let start : suc h % halving_interval ≡ 0 = ground arith in
      let end : 2 * halving_interval - h % halving_interval ≡ halving_interval + 1 = ground arith in
      rw (era, start, end)
        (next_era (reward (h / halving_interval)) (reward (suc (h / halving_interval)))
          (reward-halves (h / halving_interval)))
  | inr same ↦
      let era : suc h / halving_interval ≡ h / halving_interval = ground arith in
      let moved : 2 * halving_interval - h % halving_interval
          ≡ (2 * halving_interval - suc h % halving_interval) + 1 =
        ground arith in
      rw era (same_era _ _ (reward (h / halving_interval)) moved)
]

left-zero : left 0 ≡ 2 * halving_interval * initial_reward
unfolding left reward
left-zero = refl

emission-left : (h : ℕ) → emission h + left h ≤ 2 * halving_interval * initial_reward
unfolding emission
emission-left zero = omega (arith, left-zero)
emission-left (suc h) = omega (arith, emission-left h, left-step h, subsidy-eq-reward (suc h))

-- However long the chain, its subsidies sum to at most 105,120,000 coins, which is far below the
-- range of uint64.
pub emission-le : (h : ℕ) → emission h ≤ 105120000 * coin_unit
emission-le h = omega (arith, emission-left h)

-- A halving interval later, the subsidy is at most half of what it was.
pub subsidy-antitone : (h : ℕ) → block_subsidy (h + halving_interval) * 2 ≤ block_subsidy h
subsidy-antitone h =
    let era : (h + halving_interval) / halving_interval ≡ suc (h / halving_interval) =
      omega arith in
    rw (subsidy-eq-reward (h + halving_interval), subsidy-eq-reward h, era)
      (omega (arith, reward-halves (h / halving_interval)))

pub subsidy-le : (h : ℕ) → block_subsidy h ≤ initial_reward
unfolding block_subsidy
subsidy-le h = ground (arith, div-le_self initial_reward (2 ^ (h / halving_interval)))

pub emission-pred : (n : ℕ) → 1 ≤ n → emission n ≡ emission (n - 1) + block_subsidy n
unfolding emission
emission-pred zero h = absurd (omega arith)
emission-pred (suc n) h = let e : suc n - 1 ≡ n = omega arith in rw e
