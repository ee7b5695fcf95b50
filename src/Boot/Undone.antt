-- ===== src/Boot/Undone.antt =====
-- What becomes of an update after which the node does not come up: the boots of
-- cmd/cereblixd/selfheal.go, one after another.
use mathlib.Core.Path.{subst}
use cereblix.Prelude.{
  ℕ, suc, ◌+◌, ◌≤◌, ◌<◌, ◌≡◌, refl, sym, ap, ◌∙◌, ◌⊎◌, inl, inr, Bool, true, false, not, ◌&&◌, ◌||◌,
  leb, none, some, List, [], ◌∷◌, ◌++◌, if◌then◌else◌, arith, Bool-cases, if_keeps,
}
use cereblix.Prelude.Bytes.{Bytes}
use cereblix.Boot.{boot_rollback, boot_watch, boot_env_problem, decide_boot}
use cereblix.Boot.Guard.{
  Files, Preflight, Ending, crashed, waited, count, boot_state, after_wait, ended, on_decision,
  no_job, restart, exists, halted, set_aside, restored, boot,
}

-- one boot for each of the list, in order
unfoldable pub boots : List (Preflight × Ending) → Files → Files
boots [] f = f
boots ((p, e) ∷ bs) f = boots bs (boot p e f)

-- the node did not become healthy in this boot
abbrev pub fails : Ending → Bool
fails crashed = true
fails (waited p healthy) = not healthy

-- the system lets the guard count a boot, restore the binary and forget the pending version
pub record IsPermitted (p : Preflight) : Type 0 where
  pub restored : p.restore_ok ≡ true
  pub counted : p.permits.writes.bootn ≡ true
  pub forgotten : p.permits.removes.pending ≡ true

unfoldable pub AllFail : List (Preflight × Ending) → Type 0
AllFail [] = Unit {0}
AllFail ((p, e) ∷ bs) = (fails e ≡ true) × IsPermitted p × AllFail bs

-- the boots whose preflight passed
unfoldable pub passed : List (Preflight × Ending) → ℕ
passed [] = 0
passed ((p, e) ∷ bs) = let rest = passed bs in if p.env_ok then suc rest else rest

-- a version under test: its version, the boots counted against it, the binary before it
pub record OnTrial (v : Bytes) (n : ℕ) (previous : Bytes) (f : Files) : Type 0 where
  pub pending : f.pending ≡ some v
  pub old : f.old ≡ some previous
  pub counted : count f.bootn ≡ n

broken_decision :
    (p : Preflight) (f : Files) → p.env_ok ≡ false → decide_boot (boot_state p f) ≡ boot_env_problem
unfolding decide_boot
broken_decision p f broken = ground arith

-- below the third count the version is watched, with the third it is rolled back
trial_decision :
    (v : Bytes) (n : ℕ) (previous : Bytes) (p : Preflight) (f : Files)
    → p.env_ok ≡ true
    → OnTrial v n previous f
    → decide_boot (boot_state p f) ≡ (if leb 2 n then boot_rollback else boot_watch)
unfolding decide_boot
trial_decision v n previous p f ok h = rw (ok, h.pending, h.old, h.counted) (ground arith)

-- a boot of which no wait comes leaves what the guard made
ended_idle {ℓ} :
    (P : Files → Type ℓ) (e : Ending) (f : Files)
    → P f
    → P (ended e (f, no_job)) × P (ended e (f, restart))
unfolding after_wait
ended_idle P crashed f h = (h, h)
ended_idle P (waited p healthy) f h = (h, h)

broken-OnTrial :
    (v : Bytes) (n : ℕ) (previous : Bytes) (p : Preflight) (e : Ending) (f : Files)
    → p.env_ok ≡ false
    → OnTrial v n previous f
    → OnTrial v n previous (boot p e f)
unfolding boot
broken-OnTrial v n previous p e f broken h =
    subst (λ d. OnTrial v n previous (ended e (on_decision d p f)))
      (sym (broken_decision p f broken))
      (ended_idle (OnTrial v n previous) e _ (
        if_keeps (OnTrial v n previous) (exists f.pending || exists f.suspect) (halted p.permits f)
          f (λ _. record { pending = h.pending; old = h.old; counted = h.counted }) (λ _. h))).0

watched-OnTrial :
    (v : Bytes) (n : ℕ) (previous : Bytes) (e : Ending) (p : Preflight) (f : Files)
    → p.permits.writes.bootn ≡ true
    → fails e ≡ true
    → OnTrial v n previous f
    → OnTrial v (n + 1) previous (ended e (on_decision boot_watch p f))
unfolding after_wait
watched-OnTrial v n previous crashed p f ok fail h = record {
  pending = h.pending;
  old = h.old;
  counted = rw ok (ap (λ k. k + 1) h.counted);
}
watched-OnTrial v n previous (waited w true) p f ok fail h = cc
watched-OnTrial v n previous (waited w false) p f ok fail h = record {
  pending = h.pending;
  old = h.old;
  counted = rw ok (ap (λ k. k + 1) h.counted);
}

-- the node runs the binary before the update, which is no longer pending
abbrev pub IsBack : Bytes → Files → Type 0
IsBack previous f = (f.exe ≡ some previous) × (f.pending ≡ none)

set_aside-old :
    (p : Preflight) (f : Files) (previous : Bytes)
    → f.old ≡ some previous
    → (set_aside p f).old ≡ some previous
set_aside-old p f previous h =
    if_keeps (λ g. g.old ≡ some previous) (p.aside_ok && exists f.exe) _ f (λ _. h) (λ _. h)

restored-IsBack :
    (p : Preflight) (e : Ending) (f : Files) (previous : Bytes)
    → IsPermitted p
    → f.old ≡ some previous
    → IsBack previous (ended e (restored p f))
restored-IsBack p e f previous ok h =
    if_keeps (λ out. IsBack previous (ended e out)) (p.restore_ok && exists f.old) _ _
      (λ _. (ended_idle (IsBack previous) e _ (h, rw ok.forgotten refl)).1)
      (λ refused.
        let both : (p.restore_ok && exists f.old) ≡ true = rw (ok.restored, h) refl in absurd cc)

on_decision-IsBack :
    (p : Preflight) (e : Ending) (f : Files) (previous : Bytes)
    → IsPermitted p
    → f.old ≡ some previous
    → IsBack previous (ended e (on_decision boot_rollback p f))
on_decision-IsBack p e f previous ok h =
    restored-IsBack p e _ previous ok (set_aside-old p _ previous h)

-- a boot in an environment that passes: the count goes up, or the binary before is back
passing_boot :
    (v : Bytes) (n : ℕ) (previous : Bytes) (p : Preflight) (e : Ending) (f : Files)
    → p.env_ok ≡ true
    → IsPermitted p
    → fails e ≡ true
    → OnTrial v n previous f
    → (OnTrial v (n + 1) previous (boot p e f) × (n < 2)) ⊎ IsBack previous (boot p e f)
unfolding boot
passing_boot v n previous p e f ok restores fail h =
    let dec = trial_decision v n previous p f ok h in
    elim (Bool-cases (leb 2 n)) [
      | inl last ↦ inr (
          subst (λ d. IsBack previous (ended e (on_decision d p f)))
            (sym (dec ∙ ap (λ b. if b then boot_rollback else boot_watch) last))
            (on_decision-IsBack p e f previous restores h.old))
      | inr more ↦ inl (
        subst (λ d. OnTrial v (n + 1) previous (ended e (on_decision d p f)))
            (sym (dec ∙ ap (λ b. if b then boot_rollback else boot_watch) more))
            (watched-OnTrial v n previous e p f restores.counted fail h),
        ground arith,
      )
    ]

-- after some of the boots, in order, the binary before is back
pub record UndoneIn (previous : Bytes) (bs : List (Preflight × Ending)) (f : Files) : Type 0 where
  pub first : List (Preflight × Ending)
  pub later : List (Preflight × Ending)
  pub split : bs ≡ first ++ later
  pub back : IsBack previous (boots first f)

later-UndoneIn :
    (previous : Bytes) (p : Preflight) (e : Ending) (bs : List (Preflight × Ending)) (f : Files)
    → UndoneIn previous bs (boot p e f)
    → UndoneIn previous ((p, e) ∷ bs) f
unfolding boots
later-UndoneIn previous p e bs f u = record {
  first = (p, e) ∷ u.first;
  later = u.later;
  split = ap (λ l. (p, e) ∷ l) u.split;
  back = u.back;
}

now-UndoneIn :
    (previous : Bytes) (p : Preflight) (e : Ending) (bs : List (Preflight × Ending)) (f : Files)
    → IsBack previous (boot p e f)
    → UndoneIn previous ((p, e) ∷ bs) f
unfolding boots
now-UndoneIn previous p e bs f back = record {
  first = (p, e) ∷ [];
  later = bs;
  split = refl;
  back = back;
}

passed-ok :
    (p : Preflight) (e : Ending) (bs : List (Preflight × Ending))
    → p.env_ok ≡ true
    → passed ((p, e) ∷ bs) ≡ suc (passed bs)
unfolding passed
passed-ok p e bs ok = rw (ok) refl

passed-broken :
    (p : Preflight) (e : Ending) (bs : List (Preflight × Ending))
    → p.env_ok ≡ false
    → passed ((p, e) ∷ bs) ≡ passed bs
unfolding passed
passed-broken p e bs broken = rw (broken) refl

none_passed : {n : ℕ} → 3 ≤ n + passed [] → n < 3 → ⊥
unfolding passed
none_passed enough below = omega arith

pub trial-UndoneIn :
    (bs : List (Preflight × Ending)) (v : Bytes) (n : ℕ) (previous : Bytes) (f : Files)
    → OnTrial v n previous f
    → n < 3
    → 3 ≤ n + passed bs
    → AllFail bs
    → UndoneIn previous bs f
unfolding AllFail
trial-UndoneIn [] v n previous f h below enough fail = absurd (none_passed enough below)
trial-UndoneIn ((p, e) ∷ bs) v n previous f h below enough fail = elim (Bool-cases p.env_ok) [
  | inl ok ↦ elim (passing_boot v n previous p e f ok fail.1 fail.0 h) [
    | inl on ↦ later-UndoneIn previous p e bs f (
        trial-UndoneIn bs v (n + 1) previous (boot p e f) on.0 (omega arith)
          (let more = passed-ok p e bs ok in omega arith) fail.2)
    | inr back ↦ now-UndoneIn previous p e bs f back
  ]
  | inr broken ↦ later-UndoneIn previous p e bs f (
      trial-UndoneIn bs v n previous (boot p e f) (broken-OnTrial v n previous p e f broken h) below
        (subst (λ k. 3 ≤ n + k) (passed-broken p e bs broken) enough) fail.2)
]
