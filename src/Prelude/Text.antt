-- ===== src/Prelude/Text.antt =====
-- What the source uses of encoding/hex, encoding/binary, strconv and fmt.
use cereblix.Prelude.Tests.{ltb, leb, ◌==◌, if◌then◌else◌}
use cereblix.Prelude.Bytes.{Bytes, bytes_eq}
use Prim.Native.Nat.{ℕ, zero, suc, ◌+◌, ◌-◌, ◌*◌, ◌/◌, ◌%◌, ◌^◌}
use mathlib.Core.Bool.{Bool, true, false, ◌&&◌, ◌||◌}
use mathlib.Core.List.{[], ◌∷◌, ◌++◌}
use mathlib.Core.Option.{Option, none, some}

-- Hexadecimal digits, lower case, as hex.EncodeToString writes them.
unfoldable pub hex_digit : ℕ → ℕ
hex_digit n = if ltb n 10 then 48 + n else 87 + n

unfoldable pub hex_encode : Bytes → Bytes
unfolding hex_digit
hex_encode [] = []
hex_encode (b ∷ bs) = hex_digit (b / 16) ∷ hex_digit (b % 16) ∷ hex_encode bs

-- The value of a digit, in either case.
unfoldable pub hex_value : ℕ → Option ℕ
hex_value c =
    if leb 48 c && leb c 57
    then some (c - 48)
    else if leb 97 c && leb c 102
    then some (c - 87)
    else if leb 65 c && leb c 70
    then some (c - 55)
    else none

abbrev hex_byte : Option ℕ → Option ℕ → Option ℕ
hex_byte (some h) (some l) = some (16 * h + l)
hex_byte _ _ = none

abbrev push_byte : Option ℕ → Bytes × Bool → Bytes × Bool
push_byte (some b) (bs, ok) = (b ∷ bs, ok)
push_byte none _ = ([], false)

-- hex.DecodeString: the bytes before the first fault, and whether there was none. A caller that
-- drops the error keeps those bytes.
unfoldable pub hex_scan : Bytes → Bytes × Bool
unfolding hex_value
hex_scan [] = ([], true)
hex_scan (c ∷ []) = ([], false)
hex_scan (h ∷ l ∷ s) = push_byte (hex_byte (hex_value h) (hex_value l)) (hex_scan s)

unfoldable pub hex_decode : Bytes → Option Bytes
unfolding hex_scan
hex_decode s = let (bs, ok) = hex_scan s in if ok then some bs else none

-- binary.LittleEndian: the low w bytes of n, and back.
unfoldable pub le_bytes : ℕ → ℕ → Bytes
le_bytes zero n = []
le_bytes (suc w) n = (n % 256) ∷ le_bytes w (n / 256)

unfoldable pub le_value : Bytes → ℕ
le_value [] = 0
le_value (b ∷ bs) = b + 256 * le_value bs

-- big.Int.SetBytes: big-endian, after what has been read.
unfoldable pub be_value_from : ℕ → Bytes → ℕ
be_value_from acc [] = acc
be_value_from acc (b ∷ bs) = be_value_from (256 * acc + b) bs

abbrev pub be_value : Bytes → ℕ
be_value = be_value_from 0

-- The w-byte big-endian form of n.
unfoldable pub be_bytes : ℕ → ℕ → Bytes
be_bytes zero n = []
be_bytes (suc w) n = be_bytes w (n / 256) ++ (n % 256) ∷ []

-- strconv.Itoa and %d. Every uint64 has at most 20 digits, so 20 rounds are enough.
unfoldable pub digits_onto : ℕ → ℕ → Bytes → Bytes
digits_onto zero n out = out
digits_onto (suc f) n out =
    let out' = (48 + n % 10) ∷ out in
    let rest = digits_onto f (n / 10) out' in if n / 10 == 0 then out' else rest

unfoldable pub itoa : ℕ → Bytes
unfolding digits_onto
itoa n = digits_onto 20 n []

-- The decimal digits of a text, or nothing at any other byte.
unfoldable pub digits_value : ℕ → Bytes → Option ℕ
digits_value acc [] = some acc
digits_value acc (c ∷ s) =
    if leb 48 c && leb c 57 then digits_value (10 * acc + (c - 48)) s else none

unfoldable pub nonempty_digits : Bytes → Option ℕ
unfolding digits_value
nonempty_digits [] = none
nonempty_digits (c ∷ s) = digits_value 0 (c ∷ s)

-- An `int`, as a sign (true for minus) and a magnitude.
abbrev in_range : ℕ → Bool → Option ℕ → Option (Bool × ℕ)
in_range top sign none = none
in_range top sign (some n) = if leb n top then some (sign, n) else none

-- strconv.Atoi
unfoldable pub atoi : Bytes → Option (Bool × ℕ)
unfolding nonempty_digits
atoi [] = none
atoi (c ∷ s) =
    if c == b'+'
    then in_range (2 ^ 63 - 1) false (nonempty_digits s)
    else if c == b'-'
    then in_range (2 ^ 63) true (nonempty_digits s)
    else in_range (2 ^ 63 - 1) false (nonempty_digits (c ∷ s))

-- the ASCII spaces of strings.TrimSpace
abbrev pub is_space : ℕ → Bool
is_space c = (leb 9 c && leb c 13) || c == 32

unfoldable pub trim_left : Bytes → Bytes
trim_left [] = []
trim_left (c ∷ cs) = if is_space c then trim_left cs else c ∷ cs

-- a text of spaces only has no end to keep
unfoldable pub trim_right : Bytes → Bytes
trim_right [] = []
trim_right (c ∷ cs) =
    let rest = trim_right cs in if is_space c && bytes_eq rest [] then [] else c ∷ rest

-- strings.TrimSpace
unfoldable pub trim_space : Bytes → Bytes
unfolding trim_left trim_right
trim_space s = trim_left (trim_right s)
