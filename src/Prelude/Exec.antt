-- ===== src/Prelude/Exec.antt =====
-- Methods that write to an object and may return an error. What was written before the error
-- stays written.
use cereblix.Prelude.Result.{Result, ok, err}
use mathlib.Core.Path.{◌≡◌, refl}
use mathlib.Core.Bool.{Bool, true, false}

abbrev pub Exec : Type 0 → Type 0 → Type 0 → Type 0
Exec S E A = S → Result E A × S

module _ {S E A : Type 0} where
  abbrev pub pure : A → Exec S E A
  pure a s = (ok a, s)

  abbrev pub lift : Result E A → Exec S E A
  lift r s = (r, s)

  abbrev pub raise : E → Exec S E A
  raise e s = (err e, s)

module _ {S E A B : Type 0} where
  abbrev continue : Result E A → (A → Exec S E B) → Exec S E B
  continue (ok a) f s = f a s
  continue (err e) f s = (err e, s)

  infixl 5 ◌>>=◌ ◌>>◌
  abbrev pub ◌>>=◌ : Exec S E A → (A → Exec S E B) → Exec S E B
  ◌>>=◌ m f s = let (r, s') = m s in continue r f s'

  abbrev pub ◌>>◌ : Exec S E A → Exec S E B → Exec S E B
  m >> n = m >>= λ _. n

module _ {S E : Type 0} where
  -- `if bad { return e }`
  abbrev pub reject_if : Bool → E → Exec S E (Unit {0})
  reject_if true e s = (err e, s)
  reject_if false e s = (ok tt, s)

  pub reject_if-ok :
      {A : Type 0} (bad : Bool) (e : E) (rest : Exec S E A) (s : S) {a : A}
      → ((reject_if bad e >> rest) s).0 ≡ ok a
      → (bad ≡ false) × ((rest s).0 ≡ ok a)
  reject_if-ok true e rest s h = cc
  reject_if-ok false e rest s h = (refl, h)

pub >>=-eq-ok :
    {S E A B : Type 0} (m : Exec S E A) (f : A → Exec S E B) (s : S) {b : B}
    → ((m >>= f) s).0 ≡ ok b
    → (a : A) × ((m s).0 ≡ ok a) × ((f a (m s).1).0 ≡ ok b)
>>=-eq-ok m f s h = let (r, s') = m s in continue-ok r f s' h
  where
    continue-ok :
        {S E A B : Type 0} (r : Result E A) (f : A → Exec S E B) (s : S) {b : B}
        → (continue r f s).0 ≡ ok b
        → (a : A) × (r ≡ ok a) × ((f a s).0 ≡ ok b)
    continue-ok (ok a) f s h = (a, refl, h)
    continue-ok (err e) f s h = cc

-- What holds after the first part, and after the second whenever the first returned, holds after
-- both.
pub bind_keeps :
    {S E A B : Type 0} (P : S → Type 0) (m : Exec S E A) (f : A → Exec S E B) (s : S)
    → P (m s).1
    → ((a : A) → (m s).0 ≡ ok a → P (f a (m s).1).1)
    → P ((m >>= f) s).1
bind_keeps {S} {E} {A} {B} P m f s first later = let (r, s') = m s in by_result r s' first later
  where
    by_result :
        (r : Result E A) (s' : S)
        → P s'
        → ((a : A) → r ≡ ok a → P (f a s').1)
        → P (continue r f s').1
    by_result (ok a) s' first later = later a refl
    by_result (err e) s' first later = first

pub reject_if_keeps :
    {S E A : Type 0} (P : S → Type 0) (bad : Bool) (e : E) (rest : Exec S E A) (s : S)
    → P s
    → (bad ≡ false → P (rest s).1)
    → P ((reject_if bad e >> rest) s).1
reject_if_keeps P true e rest s now later = now
reject_if_keeps P false e rest s now later = later refl
