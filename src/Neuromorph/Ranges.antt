-- ===== src/Neuromorph/Ranges.antt =====
-- The ranges of the semantics that DeriveParams and genProgram of neuromorph/neuromorph.go derive.
use cereblix.Prelude.{
  ℕ, zero, suc, ◌+◌, ◌-◌, ◌*◌, ◌/◌, ◌%◌, ◌^◌, ◌≤◌, ◌<◌, ◌≡◌, refl, List, [], ◌∷◌, ◌++◌, All, length,
  replicate, arith, length-append,
}
use native.Mathlib.Nat.{pow-le-pow_right}
use cereblix.Prelude.Bytes.{Bytes, codes}
use cereblix.Types.Crypto.{Crypto}
use cereblix.Neuromorph.{
  num_ops, table_size, byte_at, weights_from, sum_weights, at_most, fill_ops, fill_rest,
  op_table_of, derive_params,
}

abbrev IsOp : ℕ → Type 0
IsOp op = op < num_ops

abbrev AreOps : List ℕ → Type 0
AreOps table = All IsOp table

append-AreOps : (xs ys : List ℕ) → AreOps xs → AreOps ys → AreOps (xs ++ ys)
append-AreOps [] ys h k = k
append-AreOps (x ∷ xs) ys h k = (h.0, append-AreOps xs ys h.1 k)

replicate-AreOps : (n op : ℕ) → IsOp op → AreOps (replicate n op)
replicate-AreOps zero op h = tt
replicate-AreOps (suc n) op h = (h, replicate-AreOps n op h)

length-replicate : (n op : ℕ) → length (replicate n op) ≡ n
length-replicate zero op = refl
length-replicate (suc n) op = omega (arith, length-replicate n op)

-- a table that is being filled
abbrev Filling : List ℕ → Type 0
Filling table = AreOps table × (length table ≤ table_size)

extend-Filling :
    (table : List ℕ) (n op : ℕ)
    → Filling table
    → IsOp op
    → n ≤ table_size - length table
    → Filling (table ++ replicate n op)
extend-Filling table n op f h le = (
  append-AreOps table _ f.0 (replicate-AreOps n op h),
  omega (arith, length-append table (replicate n op), length-replicate n op, f.1),
)

at_most-le : (n room : ℕ) → at_most n room ≤ room
at_most-le n room = ground arith

fill_ops-Filling :
    (total op : ℕ) (ws table : List ℕ)
    → op + length ws ≤ num_ops
    → Filling table
    → Filling (fill_ops total op ws table)
unfolding fill_ops
fill_ops-Filling total op [] table le f = f
fill_ops-Filling total op (w ∷ []) table le f =
    extend-Filling table (table_size - length table) op f (omega arith) (omega arith)
fill_ops-Filling total op (w ∷ v ∷ ws) table le f =
    fill_ops-Filling total (suc op) (v ∷ ws) _ (omega arith) (
      extend-Filling table _ op f (omega arith)
        (at_most-le (w * 256 / total) (table_size - length table)))

fill_rest-full :
    (wh : Bytes) (rounds : ℕ) (table : List ℕ)
    → AreOps table
    → length table + rounds ≡ table_size
    → AreOps (fill_rest wh rounds table) × (length (fill_rest wh rounds table) ≡ table_size)
unfolding fill_rest
fill_rest-full wh zero table ops size = (ops, omega (arith, size))
fill_rest-full wh (suc rounds) table ops size =
    let op = byte_at wh (length table % 32) % num_ops in
    fill_rest-full wh rounds (table ++ op ∷ [])
      (append-AreOps table (op ∷ []) ops (omega arith, tt))
      (omega (arith, length-append table (op ∷ []), size))

length-weights_from : (wh : Bytes) (i n : ℕ) → length (weights_from wh i n) ≡ n
unfolding weights_from
length-weights_from wh i zero = refl
length-weights_from wh i (suc n) = omega (arith, length-weights_from wh (suc i) n)

op_table_of-full : (wh : Bytes) → AreOps (op_table_of wh) × (length (op_table_of wh) ≡ table_size)
unfolding op_table_of
op_table_of-full wh =
    let weights = weights_from wh 0 num_ops in
    let (ops, room) =
      fill_ops-Filling (sum_weights weights) 0 weights []
        (omega (arith, length-weights_from wh 0 num_ops)) (tt, omega arith) in
    fill_rest-full wh (table_size - length (fill_ops (sum_weights weights) 0 weights []))
      (fill_ops (sum_weights weights) 0 weights []) ops (omega (arith, room))

mask_le : (k : ℕ) → k < 24 → 2 ^ k ≤ 2 ^ 23
mask_le k lt = let le : k ≤ 23 = omega arith in pow-le-pow_right {n = 2} (omega arith) le

-- Whatever the seed, the program size is 384 to 768, the loops are 32 to 64, the branch mask is
-- below 2 ^ 31, and the opcode table has 256 entries, each one of the 15 opcodes.
pub derive_params-ranges :
    (C : Crypto) (seed : Bytes)
    → let p = derive_params C seed in
      (384 ≤ p.prog_size)
      × (p.prog_size ≤ 768)
      × (32 ≤ p.loops)
      × (p.loops ≤ 64)
      × (p.branch_mask < 2 ^ 31)
      × (length p.op_table ≡ 256)
      × All (λ op. op < 15) p.op_table
unfolding derive_params
derive_params-ranges C seed =
    let wh = C.sha256 (codes "nm-weights|" ++ seed) in
    let (ops, size) = op_table_of-full wh in
    let shift = byte_at (C.sha256 (codes "nm-params|" ++ seed)) 3 % 24 in
    (
      omega arith,
      omega arith,
      omega arith,
      omega arith,
      omega (arith, mask_le shift (omega arith)),
      size,
      ops,
    )
