-- ===== src/Neuromorph/Machine.antt =====
-- neuromorph/neuromorph.go: the state of the register machine, its opcodes and its addressing. The
-- scratchpad and the dataset are functions of the index of a word. Floats are 64-bit patterns, and
-- what the code takes from float64 arithmetic and package math is a record of operations.
use Prim.Native.Nat.{bit_and, bit_or}
use cereblix.Prelude.{
  ◌≡◌, refl, arith, length, ℕ, zero, suc, ◌+◌, ◌-◌, ◌*◌, ◌/◌, ◌%◌, ◌^◌, Bool, true, false, Option,
  none, some, List, [], ◌∷◌, ◌++◌, take, drop, get_elem?, ◌==◌, if◌then◌else◌,
}
use cereblix.Prelude.Bytes.{Bytes}
use cereblix.Prelude.Text.{le_bytes, le_value}
use cereblix.Prelude.Word.{u64_mod, add64}
use cereblix.Neuromorph.{Instr}

-- the operations of float64 that the machine uses
pub record Floats : Type 0 where
  pub add : ℕ → ℕ → ℕ
  pub mul : ℕ → ℕ → ℕ
  pub div : ℕ → ℕ → ℕ
  pub sqrt : ℕ → ℕ
  pub abs : ℕ → ℕ
  pub is_nan : ℕ → Bool
  pub is_inf : ℕ → Bool
  pub is_zero : ℕ → Bool

abbrev pub scratch_words : ℕ
scratch_words = 2 ^ 18

abbrev pub scratch_mask : ℕ
scratch_mask = 2 ^ 21 - 8

abbrev pub dataset_mask : ℕ
dataset_mask = 2 ^ 26 - 8

abbrev pub dataset_reads : ℕ
dataset_reads = 64

abbrev pub dataset_height : ℕ
dataset_height = 240

pub data Op : Type 0 where
  iadd imul imulh ixor irotr ineg fadd fmul fdiv fsqrt load store cbranch aesr xdom : Op

abbrev pub ops : List Op
ops =
    iadd ∷ imul ∷ imulh ∷ ixor ∷ irotr ∷ ineg ∷ fadd ∷ fmul ∷ fdiv ∷ fsqrt ∷ load ∷ store ∷ cbranch
    ∷ aesr ∷ xdom ∷ []

abbrev pub Memory : Type 0
Memory = ℕ → ℕ

abbrev pub write : Memory → ℕ → ℕ → Memory
write mem i v j = if j == i then v else mem j

abbrev or_zero : Option ℕ → ℕ
or_zero none = 0
or_zero (some x) = x

abbrev pub word_at : List ℕ → ℕ → ℕ
word_at xs i = or_zero (get_elem? xs i)

abbrev pub put : List ℕ → ℕ → ℕ → List ℕ
put [] i v = []
put (x ∷ xs) zero v = v ∷ xs
put (x ∷ xs) (suc i) v = x ∷ put xs i v

-- the registers and the scratchpad
pub record Machine : Type 0 where
  pub r : List ℕ
  pub f : List ℕ
  pub scratch : Memory

-- one pass over the program
pub record Pass : Type 0 where
  pub pc : ℕ
  pub taken : List ℕ
  pub machine : Machine

-- normFloat
unfoldable pub norm_float : ℕ → ℕ
norm_float x = bit_or (1023 * 2 ^ 52) (bit_and x 0x000fffffffffffff)

-- bits.RotateLeft64(x, -k)
abbrev pub rotate_right : ℕ → ℕ → ℕ
rotate_right x k = x / 2 ^ k + x % 2 ^ k * 2 ^ (64 - k)

-- w words of 8 bytes
unfoldable pub words_of : ℕ → Bytes → List ℕ
words_of zero b = []
words_of (suc w) b = le_value (take 8 b) ∷ words_of w (drop 8 b)

unfoldable pub bytes_of : List ℕ → Bytes
bytes_of [] = []
bytes_of (x ∷ xs) = le_bytes 8 x ++ bytes_of xs

abbrev pub dst : Instr → ℕ
dst i = bit_and i.dst 15

abbrev pub src : Instr → ℕ
src i = bit_and i.src 15

abbrev pub fdst : Instr → ℕ
fdst i = bit_and (dst i) 7

abbrev pub fsrc : Instr → ℕ
fsrc i = bit_and (src i) 7

-- the word of the scratchpad that a register and the immediate address
unfoldable pub address : ℕ → ℕ → ℕ
address x imm = bit_and (add64 x imm) scratch_mask / 8

unfoldable pub aes_address : ℕ → ℕ → ℕ
aes_address x imm = bit_and (bit_and (add64 x imm) scratch_mask) (u64_mod - 16) / 8

-- `ins.op >= opFADD && ins.op <= opFSQRT`
abbrev pub is_float : Option Op → Bool
is_float (some fadd) = true
is_float (some fmul) = true
is_float (some fdiv) = true
is_float (some fsqrt) = true
is_float _ = false

abbrev pub is_branch : Option Op → Bool
is_branch (some cbranch) = true
is_branch _ = false

abbrev pub set_r : Machine → Instr → ℕ → Machine
set_r m i v = record { r = put m.r (dst i) v; f = m.f; scratch = m.scratch }

abbrev pub set_f : Machine → Instr → ℕ → Machine
set_f m i v = record { r = m.r; f = put m.f (fdst i) v; scratch = m.scratch }

-- the pair of words that the cipher makes of the block of two words
abbrev pub aes_pair : (Bytes → Bytes → Bytes) → Bytes → Memory → ℕ → List ℕ
aes_pair encrypt key mem w =
    words_of 2 (encrypt key (le_bytes 8 (mem w) ++ le_bytes 8 (mem (w + 1))))

pub put-length : (xs : List ℕ) (i v : ℕ) → length (put xs i v) ≡ length xs
put-length [] i v = refl
put-length (x ∷ xs) zero v = refl
put-length (x ∷ xs) (suc i) v = omega (arith, put-length xs i v)
