-- ===== src/Boot/Blocked.antt =====
-- Which versions applyManifest of cmd/cereblixd/update.go installs.
use cereblix.Prelude.{
  ℕ, ◌≤◌, ◌≡◌, ◌≢◌, ◌⊎◌, inl, inr, refl, ◌∙◌, Bool, true, false, not, Option, List, [], ◌∷◌, arith,
  if_keeps,
}
use cereblix.Prelude.Bytes.{Bytes, bytes_eq, bytes_eq_iff}
use cereblix.Boot.Guard.{Files, read_trim}
use cereblix.Boot.Update.{higher, blocked_version, Swap, Manifest, apply_manifest}
use cereblix.Boot.Version.{newer_parts, zero_part, version_parts, ver_newer, should_install}

-- no part of the version is negative
unfoldable pub AreNatural : List ℕ → Type 0
AreNatural [] = Unit {0}
AreNatural (x ∷ xs) = (zero_part ≤ x) × AreNatural xs

newer_parts_trans :
    (xs ys zs : List ℕ)
    → AreNatural xs
    → newer_parts xs ys ≡ true
    → newer_parts ys zs ≡ true
    → newer_parts xs zs ≡ true
unfolding newer_parts AreNatural
newer_parts_trans [] ys zs n h k = cc
newer_parts_trans (x ∷ xs) [] zs n h k = cc
newer_parts_trans (x ∷ xs) (y ∷ ys) [] n h k =
    let ih = newer_parts_trans xs ys [] n.1 in ground arith
newer_parts_trans (x ∷ xs) (y ∷ ys) (z ∷ zs) n h k =
    let ih = newer_parts_trans xs ys zs n.1 in ground arith

newer_parts_cotrans :
    (xs ys zs : List ℕ)
    → AreNatural ys
    → AreNatural zs
    → newer_parts xs zs ≡ true
    → (newer_parts xs ys ≡ true) ⊎ (newer_parts ys zs ≡ true)
unfolding newer_parts AreNatural
newer_parts_cotrans [] ys zs n m h = cc
newer_parts_cotrans (x ∷ xs) [] [] n m h = inl h
newer_parts_cotrans (x ∷ xs) [] (z ∷ zs) n m h =
    let ih = newer_parts_cotrans xs [] zs n m.1 in ground arith
newer_parts_cotrans (x ∷ xs) (y ∷ ys) [] n m h =
    let ih = newer_parts_cotrans xs ys [] n.1 m in ground arith
newer_parts_cotrans (x ∷ xs) (y ∷ ys) (z ∷ zs) n m h =
    let ih = newer_parts_cotrans xs ys zs n.1 m.1 in ground arith

-- a version whose parts are not negative
abbrev pub IsPlain : Bytes → Type 0
IsPlain v = AreNatural (version_parts v)

ver_newer_trans :
    (a b c : Bytes) → IsPlain a → ver_newer a b ≡ true → ver_newer b c ≡ true → ver_newer a c ≡ true
unfolding ver_newer
ver_newer_trans a b c = newer_parts_trans (version_parts a) (version_parts b) (version_parts c)

ver_newer_cotrans :
    (a b c : Bytes)
    → IsPlain b
    → IsPlain c
    → ver_newer a c ≡ true
    → (ver_newer a b ≡ true) ⊎ (ver_newer b c ≡ true)
unfolding ver_newer
ver_newer_cotrans a b c = newer_parts_cotrans (version_parts a) (version_parts b) (version_parts c)

newer-or :
    (m sus bad : Bytes)
    → IsPlain sus
    → IsPlain bad
    → ver_newer m bad ≡ true
    → ver_newer sus bad ≡ false
    → ver_newer m sus ≡ true
newer-or m sus bad ps pb h less = elim (ver_newer_cotrans m sus bad ps pb h) [
  | inl newer ↦ newer
  | inr more ↦ absurd cc
]

-- what is newer than the higher of two versions is newer than both
higher-covers :
    (m bad sus v : Bytes)
    → IsPlain m
    → IsPlain sus
    → IsPlain bad
    → (v ≡ bad) ⊎ (v ≡ sus)
    → v ≢ []
    → ver_newer m (higher bad sus) ≡ true
    → ver_newer m v ≡ true
higher-covers m bad sus v pm ps pb e named =
    let empty = λ (x : Bytes). bytes_eq_iff x [] in
    if_keeps (λ b. ver_newer m b ≡ true → ver_newer m v ≡ true) (bytes_eq bad []) sus _
      (λ no_bad h. elim e [ inl b ↦ absurd (named (b ∙ (empty bad).0 no_bad)) | inr s ↦ rw (s) h ])
      λ _.
        if_keeps (λ b. ver_newer m b ≡ true → ver_newer m v ≡ true) (bytes_eq sus []) bad _
          (λ no_sus h. elim e [
            | inl b ↦ rw (b) h
            | inr s ↦ absurd (named (s ∙ (empty sus).0 no_sus))
          ])
          λ _.
            if_keeps (λ b. ver_newer m b ≡ true → ver_newer m v ≡ true) (ver_newer sus bad) sus bad
              (λ more h. elim e [
                | inl b ↦ rw (b) (ver_newer_trans m sus bad pm h more)
                | inr s ↦ rw (s) h
              ])
              (λ less h. elim e [
                | inl b ↦ rw (b) h
                | inr s ↦ rw (s) (newer-or m sus bad ps pb h less)
              ])

-- An update may go in: updates are on and not paused, and it is newer than what runs and than every
-- version that was rolled back.
abbrev pub IsAllowed : Bytes → Bytes → Bool → Files → Type 0
IsAllowed running m enabled f =
    (enabled ≡ true)
    × (f.envhalt ≡ false)
    × (ver_newer m running ≡ true)
    × ((v : Bytes)
        → (v ≡ read_trim f.badversion) ⊎ (v ≡ read_trim f.suspect)
        → v ≢ []
        → ver_newer m v ≡ true)

higher-empty :
    (bad sus v : Bytes) → (v ≡ bad) ⊎ (v ≡ sus) → bytes_eq (higher bad sus) [] ≡ true → v ≡ []
higher-empty bad sus v e =
    let P = λ (b : Bytes). bytes_eq b [] ≡ true → v ≡ [] in
    if_keeps P (bytes_eq bad []) sus _
      (λ no_bad h. elim e [
        | inl b ↦ b ∙ (bytes_eq_iff bad []).0 no_bad
        | inr s ↦ s ∙ (bytes_eq_iff sus []).0 h
      ])
      λ some_bad.
        if_keeps P (bytes_eq sus []) bad _ (λ no_sus h. absurd cc)
          λ some_sus.
            if_keeps P (ver_newer sus bad) sus bad (λ more h. absurd cc) (λ less h. absurd cc)

covered :
    (f : Files) (m : Bytes)
    → IsPlain m
    → IsPlain (read_trim f.suspect)
    → IsPlain (read_trim f.badversion)
    → (bytes_eq (blocked_version f) [] ≡ true) ⊎ (ver_newer m (blocked_version f) ≡ true)
    → (v : Bytes) → (v ≡ read_trim f.badversion) ⊎ (v ≡ read_trim f.suspect)
    → v ≢ []
    → ver_newer m v ≡ true
unfolding blocked_version
covered f m pm ps pb (inl none_blocked) v e named =
    absurd (named (higher-empty (read_trim f.badversion) (read_trim f.suspect) v e none_blocked))
covered f m pm ps pb (inr newer) v e named =
    higher-covers m (read_trim f.badversion) (read_trim f.suspect) v pm ps pb e named newer

should_install-newer :
    (m running blocked : Bytes)
    → should_install m running blocked ≡ true
    → (ver_newer m running ≡ true) × ((bytes_eq blocked [] ≡ true) ⊎ (ver_newer m blocked ≡ true))
unfolding should_install
should_install-newer m running blocked h = ground arith

not-false : (b : Bool) → not b ≡ false → b ≡ true
not-false true h = refl
not-false false h = cc

-- applyManifest installs a version only if updates are on and not paused, and only a version newer
-- than the one that runs, than the blacklisted one and than a suspected one. Here no part of the
-- three versions of the manifest and the markers is negative.
pub apply_manifest-IsAllowed :
    (download : Bytes → Option Bytes) (w : Swap) (running : Bytes) (m : Manifest) (enabled : Bool)
    (f : Files)
    → IsPlain m.version
    → IsPlain (read_trim f.suspect)
    → IsPlain (read_trim f.badversion)
    → (apply_manifest download w running m enabled f).0 ≡ true
    → IsAllowed running m.version enabled f
unfolding apply_manifest
apply_manifest-IsAllowed download w running m enabled f pm ps pb =
    let P = λ (out : Bool × Files). out.0 ≡ true → IsAllowed running m.version enabled f in
    if_keeps P (not enabled) _ _ (λ _ h. cc)
      λ on.
        if_keeps P f.envhalt _ _ (λ _ h. cc)
          λ unpaused.
            if_keeps P (not (should_install m.version running (blocked_version f))) _ _ (λ _ h. cc)
              λ newer h.
                let sure =
                  should_install-newer m.version running (blocked_version f)
                    (not-false (should_install m.version running (blocked_version f)) newer) in
                (not-false enabled on, unpaused, sure.0, covered f m.version pm ps pb sure.1)
