-- ===== src/Consensus/Suggest.antt =====
-- What the fee hint of core/chain.go buys.
use cereblix.Prelude.{
  ℕ, zero, suc, ◌+◌, ◌/◌, ◌^◌, ◌≤◌, ◌<◌, ◌≡◌, refl, some, List, [], ◌∷◌, All, length, get_elem?,
  arith, leb, ◌==◌, if◌then◌else◌, Bool-cases, inl, inr, sym, get_elem?-some, leb→le,
}
use mathlib.Core.Path.{subst}
use cereblix.Prelude.Word.{add64}
use cereblix.Consensus.Fees.{at_least, insert_desc, sort_desc, suggest_fee}

-- how many of the fees are at least `f`
unfoldable pub count_rivals : ℕ → List ℕ → ℕ
count_rivals f [] = 0
count_rivals f (g ∷ gs) = if leb f g then suc (count_rivals f gs) else count_rivals f gs

-- descending order
abbrev Descends : List ℕ → Type 0
Descends [] = Unit {0}
Descends (f ∷ fs) = All (λ g. g ≤ f) fs × Descends fs

All-weaken : (f h : ℕ) (fs : List ℕ) → f ≤ h → All (λ g. g ≤ f) fs → All (λ g. g ≤ h) fs
All-weaken f h [] le a = tt
All-weaken f h (g ∷ fs) le a = (omega (arith, a.0), All-weaken f h fs le a.1)

insert_desc-All :
    (h f : ℕ) (fs : List ℕ) → f ≤ h → All (λ g. g ≤ h) fs → All (λ g. g ≤ h) (insert_desc f fs)
unfolding insert_desc
insert_desc-All h f [] le a = (le, tt)
insert_desc-All h f (g ∷ gs) le a = elim (Bool-cases (leb g f)) [
  | inl here ↦ rw here (le, a)
  | inr later ↦ rw later (a.0, insert_desc-All h f gs le a.1)
]

insert_desc-Descends : (f : ℕ) (fs : List ℕ) → Descends fs → Descends (insert_desc f fs)
unfolding insert_desc
insert_desc-Descends f [] d = (tt, tt)
insert_desc-Descends f (g ∷ gs) d = elim (Bool-cases (leb g f)) [
  | inl here ↦ rw here ((ground arith, All-weaken g f gs (ground arith) d.0), d)
  | inr later ↦ rw later (insert_desc-All g f gs (ground arith) d.0, insert_desc-Descends f gs d.1)
]

sort_desc-Descends : (fs : List ℕ) → Descends (sort_desc fs)
unfolding sort_desc
sort_desc-Descends [] = tt
sort_desc-Descends (f ∷ fs) = insert_desc-Descends f (sort_desc fs) (sort_desc-Descends fs)

count-insert_desc :
    (x f : ℕ) (fs : List ℕ) → count_rivals x (insert_desc f fs) ≡ count_rivals x (f ∷ fs)
unfolding insert_desc count_rivals
count-insert_desc x f [] = refl
count-insert_desc x f (g ∷ gs) = elim (Bool-cases (leb g f)) [
  | inl here ↦ rw here refl
  | inr later ↦ ground (arith, count-insert_desc x f gs)
]

count-sort_desc : (x : ℕ) (fs : List ℕ) → count_rivals x (sort_desc fs) ≡ count_rivals x fs
unfolding sort_desc count_rivals
count-sort_desc x [] = refl
count-sort_desc x (f ∷ fs) =
    ground (arith, count-insert_desc x f (sort_desc fs), count-sort_desc x fs)

count-none : (x : ℕ) (fs : List ℕ) (h : ℕ) → h < x → All (λ g. g ≤ h) fs → count_rivals x fs ≡ 0
unfolding count_rivals
count-none x [] h lt a = refl
count-none x (f ∷ fs) h lt a = ground (arith, a.0, count-none x fs h lt a.1)

-- Beyond an element of a descending list there are at most as many larger ones as stand before it.
count-at :
    (fs : List ℕ) (i x : ℕ) {f : ℕ}
    → Descends fs
    → get_elem? fs i ≡ some f
    → f < x
    → count_rivals x fs ≤ i
unfolding count_rivals
count-at [] i x d e lt = cc
count-at (g ∷ gs) zero x {f} d e lt =
    let same : g ≡ f = ground arith in
    ground (arith, same, count-none x gs g (omega (arith, same)) d.0)
count-at (g ∷ gs) (suc i) x d e lt = ground (arith, count-at gs i x d.1 e lt)

count-at_least :
    (x floor : ℕ) (fs : List ℕ) → floor ≤ x → count_rivals x (at_least floor fs) ≡ count_rivals x fs
unfolding count_rivals at_least
count-at_least x floor [] le = refl
count-at_least x floor (f ∷ fs) le = ground (arith, count-at_least x floor fs le)

count-le_length : (x : ℕ) (fs : List ℕ) → count_rivals x fs ≤ length fs
unfolding count_rivals
count-le_length x [] = omega arith
count-le_length x (f ∷ fs) = ground (arith, count-le_length x fs)

at_least-All :
    (h floor : ℕ) (fs : List ℕ) → All (λ g. g ≤ h) fs → All (λ g. g ≤ h) (at_least floor fs)
unfolding at_least
at_least-All h floor [] a = tt
at_least-All h floor (f ∷ fs) a = elim (Bool-cases (leb floor f)) [
  | inl kept ↦ rw kept (a.0, at_least-All h floor fs a.1)
  | inr dropped ↦ rw dropped (at_least-All h floor fs a.1)
]

at_least-floor : (floor : ℕ) (fs : List ℕ) → All (λ g. floor ≤ g) (at_least floor fs)
unfolding at_least
at_least-floor floor [] = tt
at_least-floor floor (f ∷ fs) = elim (Bool-cases (leb floor f)) [
  | inl kept ↦ rw kept (ground arith, at_least-floor floor fs)
  | inr dropped ↦ rw dropped (at_least-floor floor fs)
]

insert_desc-keeps :
    (P : ℕ → Type 0) (f : ℕ) (fs : List ℕ) → P f → All P fs → All P (insert_desc f fs)
unfolding insert_desc
insert_desc-keeps P f [] p a = (p, tt)
insert_desc-keeps P f (g ∷ gs) p a = elim (Bool-cases (leb g f)) [
  | inl here ↦ rw here (p, a)
  | inr later ↦ rw later (a.0, insert_desc-keeps P f gs p a.1)
]

sort_desc-keeps : (P : ℕ → Type 0) (fs : List ℕ) → All P fs → All P (sort_desc fs)
unfolding sort_desc
sort_desc-keeps P [] a = tt
sort_desc-keeps P (f ∷ fs) a = insert_desc-keeps P f (sort_desc fs) a.0 (sort_desc-keeps P fs a.1)

length-insert_desc : (f : ℕ) (fs : List ℕ) → length (insert_desc f fs) ≡ suc (length fs)
unfolding insert_desc
length-insert_desc f [] = refl
length-insert_desc f (g ∷ gs) = ground (arith, length-insert_desc f gs)

length-sort_desc : (fs : List ℕ) → length (sort_desc fs) ≡ length fs
unfolding sort_desc
length-sort_desc [] = refl
length-sort_desc (f ∷ fs) = omega (arith, length-insert_desc f (sort_desc fs), length-sort_desc fs)

All-get : (P : ℕ → Type 0) (fs : List ℕ) (i : ℕ) {f : ℕ} → All P fs → get_elem? fs i ≡ some f → P f
All-get P [] i a e = cc
All-get P (g ∷ gs) zero {f} a e = let same : g ≡ f = ground arith in subst P same a.0
All-get P (g ∷ gs) (suc i) a e = All-get P gs i a.1 e

-- For waiting fees of at most 2 ^ 63, where the bump cannot wrap around: the suggested fee is at
-- least the floor, and at most 199 of the waiting fees, a block's worth, are as high; when more
-- than 199 waiting fees reach the floor, fewer than 199 are as high.
pub suggest_fee-clears :
    (fees : List ℕ) (floor : ℕ)
    → All (λ f. f ≤ 2 ^ 63) fees
    → (floor ≤ suggest_fee fees floor)
      × (count_rivals (suggest_fee fees floor) fees ≤ 199)
      × (199 < length (at_least floor fees) → count_rivals (suggest_fee fees floor) fees < 199)
unfolding suggest_fee
suggest_fee-clears fees floor small =
    let waiting = at_least floor fees in
    elim (Bool-cases (leb (length waiting) 199)) [
      | inl fits ↦ rw fits (
        omega arith,
        omega (
          arith,
          sym (count-at_least floor floor fees (omega arith)),
          count-le_length floor waiting,
          leb→le _ _ fits,
        ),
        λ over. ground arith,
      )
      | inr congested ↦
          let size : 198 < length (sort_desc waiting) = ground (arith, length-sort_desc waiting) in
          let (cut, e) = get_elem?-some (sort_desc waiting) 198 size in
          let high : floor ≤ cut =
            All-get (λ g. floor ≤ g) _ 198
              (sort_desc-keeps (λ g. floor ≤ g) _ (at_least-floor floor fees)) e in
          let low : cut ≤ 2 ^ 63 =
            All-get (λ g. g ≤ 2 ^ 63) _ 198
              (sort_desc-keeps (λ g. g ≤ 2 ^ 63) _ (at_least-All _ floor fees small)) e in
          let bump = if cut / 8 == 0 then 1 else cut / 8 in
          let exact : add64 cut bump ≡ cut + bump = ground arith in
          let over : cut < cut + bump = ground arith in
          let rivals : count_rivals (cut + bump) fees ≤ 198 = omega (
            arith,
            count-at (sort_desc waiting) 198 (cut + bump) (sort_desc-Descends waiting) e over,
            count-sort_desc (cut + bump) waiting,
            count-at_least (cut + bump) floor fees (omega arith),
          ) in
          rw (congested, e, exact) (omega arith, omega arith, λ more. omega arith)
    ]
