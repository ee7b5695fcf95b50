-- ===== src/Boot/Version.antt =====
-- The comparison of versions in cmd/cereblixd/update.go. A part of a version is an `int`, which is
-- modelled by the number that is 2 ^ 63 larger.
use cereblix.Prelude.{
  ℕ, ◌+◌, ◌-◌, ◌*◌, ◌^◌, Bool, true, false, not, ◌&&◌, List, [], ◌∷◌, map, ltb, leb, ◌==◌,
  if◌then◌else◌,
}
use cereblix.Prelude.Bytes.{Bytes, bytes_eq}
use cereblix.Prelude.Text.{is_space, trim_space}

-- the int 0
abbrev pub zero_part : ℕ
zero_part = 2 ^ 63

-- strings.Split at dots
abbrev before_head : ℕ → List Bytes → List Bytes
before_head c [] = (c ∷ []) ∷ []
before_head c (part ∷ parts) = (c ∷ part) ∷ parts

unfoldable pub split_dots : Bytes → List Bytes
split_dots [] = [] ∷ []
split_dots (c ∷ cs) =
    let parts = split_dots cs in if c == 46 then [] ∷ parts else before_head c parts

-- the value of the digits that a text starts with
unfoldable pub leading_digits : ℕ → Bytes → ℕ
leading_digits acc [] = acc
leading_digits acc (c ∷ cs) =
    let rest = leading_digits (10 * acc + (c - 48)) cs in if leb 48 c && leb c 57 then rest else acc

unfoldable pub skip_spaces : Bytes → Bytes
skip_spaces [] = []
skip_spaces (c ∷ cs) =
    let rest = skip_spaces cs in if is_space c && not (c == 10) then rest else c ∷ cs

-- an int that does not fit leaves 0
abbrev positive : ℕ → ℕ
positive n = if ltb n (2 ^ 63) then zero_part + n else zero_part

abbrev negative : ℕ → ℕ
negative n = if leb n (2 ^ 63) then zero_part - n else zero_part

unfoldable pub scan_signed : Bytes → ℕ
unfolding leading_digits
scan_signed [] = zero_part
scan_signed (c ∷ cs) =
    if c == b'-'
    then negative (leading_digits 0 cs)
    else if c == b'+'
    then positive (leading_digits 0 cs)
    else positive (leading_digits 0 (c ∷ cs))

-- what fmt.Sscanf with "%d" leaves in an int that was 0
abbrev pub scan_int : Bytes → ℕ
scan_int part = scan_signed (skip_spaces part)

abbrev pub version_parts : Bytes → List ℕ
version_parts v = map scan_int (split_dots (trim_space v))

-- the first parts that differ decide, a missing one on the right being 0
unfoldable pub newer_parts : List ℕ → List ℕ → Bool
newer_parts [] ys = false
newer_parts (x ∷ xs) [] =
    let rest = newer_parts xs [] in if x == zero_part then rest else ltb zero_part x
newer_parts (x ∷ xs) (y ∷ ys) = let rest = newer_parts xs ys in if x == y then rest else ltb y x

-- verNewer
unfoldable pub ver_newer : Bytes → Bytes → Bool
unfolding newer_parts
ver_newer a b = newer_parts (version_parts a) (version_parts b)

-- shouldInstall
unfoldable pub should_install : Bytes → Bytes → Bytes → Bool
unfolding ver_newer
should_install manifest node blocked =
    if not (ver_newer manifest node)
    then false
    else if not (bytes_eq blocked []) && not (ver_newer manifest blocked)
    then false
    else true
