-- ===== src/Neuromorph.antt =====
-- neuromorph/neuromorph.go: the semantics that an epoch derives from its seed, and the program that a
-- header derives from its hash. crypto/aes is the parameter `encrypt`, of a key and a block.
pub mod Ranges
pub mod Machine
pub mod Vm
use cereblix.Prelude.{
  ℕ, zero, suc, ◌+◌, ◌-◌, ◌*◌, ◌/◌, ◌%◌, ◌^◌, Option, none, some, List, [], ◌∷◌, ◌++◌, take, drop,
  length, get_elem?, replicate, ltb, if◌then◌else◌,
}
use cereblix.Prelude.Bytes.{Bytes, codes}
use cereblix.Prelude.Text.{le_bytes, le_value}
use cereblix.Prelude.Word.{add64}
use cereblix.Types.Crypto.{Crypto}

abbrev pub num_ops : ℕ
num_ops = 15

abbrev pub table_size : ℕ
table_size = 256

pub record Params : Type 0 where
  pub prog_size : ℕ
  pub loops : ℕ
  pub branch_mask : ℕ
  pub rot_salt : ℕ
  pub op_table : List ℕ
  pub aes_key : Bytes
  pub dataset_key : Bytes

pub record Instr : Type 0 where
  pub op : ℕ
  pub dst : ℕ
  pub src : ℕ
  pub imm : ℕ

abbrev or_zero : Option ℕ → ℕ
or_zero none = 0
or_zero (some b) = b

-- h[i]
abbrev pub byte_at : Bytes → ℕ → ℕ
byte_at h i = or_zero (get_elem? h i)

-- h[lo:hi]
abbrev slice : ℕ → ℕ → Bytes → Bytes
slice lo hi h = take (hi - lo) (drop lo h)

-- the weights of the opcodes from `i` on
unfoldable pub weights_from : Bytes → ℕ → ℕ → List ℕ
weights_from wh i zero = []
weights_from wh i (suc n) = (1 + byte_at wh i % 8) ∷ weights_from wh (suc i) n

unfoldable pub sum_weights : List ℕ → ℕ
sum_weights [] = 0
sum_weights (w ∷ ws) = w + sum_weights ws

abbrev pub at_most : ℕ → ℕ → ℕ
at_most n room = if ltb room n then room else n

-- the loop over the opcodes; the last one takes what is left of the table
unfoldable pub fill_ops : ℕ → ℕ → List ℕ → List ℕ → List ℕ
fill_ops total op [] table = table
fill_ops total op (w ∷ []) table = table ++ replicate (table_size - length table) op
fill_ops total op (w ∷ v ∷ ws) table =
    fill_ops total (suc op) (v ∷ ws)
      (table ++ replicate (at_most (w * 256 / total) (table_size - length table)) op)

-- `for idx < 256`, with the rounds that are left
unfoldable pub fill_rest : Bytes → ℕ → List ℕ → List ℕ
fill_rest wh zero table = table
fill_rest wh (suc rounds) table =
    fill_rest wh rounds (table ++ (byte_at wh (length table % 32) % num_ops) ∷ [])

unfoldable pub op_table_of : Bytes → List ℕ
unfolding weights_from sum_weights fill_ops fill_rest
op_table_of wh =
    let weights = weights_from wh 0 num_ops in
    let table = fill_ops (sum_weights weights) 0 weights [] in
    fill_rest wh (table_size - length table) table

-- the instruction of 8 bytes of the stream
unfoldable pub instr_of : List ℕ → Bytes → Instr
instr_of table b = record {
  op = byte_at table (byte_at b 0);
  dst = byte_at b 1;
  src = byte_at b 2;
  imm = le_value (slice 4 8 b);
}

unfoldable pub instrs_of : List ℕ → ℕ → Bytes → List Instr
unfolding instr_of
instrs_of table zero stream = []
instrs_of table (suc n) stream = instr_of table (take 8 stream) ∷ instrs_of table n (drop 8 stream)

-- the next input block: the output, with its low word counted up
abbrev next_block : Bytes → Bytes
next_block out = le_bytes 8 (add64 (le_value (take 8 out)) 1) ++ drop 8 out

module _ (encrypt : Bytes → Bytes → Bytes) where
  -- the keystream, of as many blocks
  unfoldable pub stream_of : ℕ → Bytes → Bytes → Bytes
  stream_of zero key block = []
  stream_of (suc n) key block =
      let out = encrypt key block in out ++ stream_of n key (next_block out)

module _ (C : Crypto) where
  -- EpochSeed0
  unfoldable pub epoch_seed0 : Bytes
  epoch_seed0 = C.sha256 (codes "cerebra/neuromorph/v1/epoch0/2026-06-11")

  -- DeriveParams
  unfoldable pub derive_params : Bytes → Params
  unfolding op_table_of
  derive_params seed =
      let h = C.sha256 (codes "nm-params|" ++ seed) in
      let dk = C.sha256 (codes "nm-dataset|" ++ seed) in
      let wh = C.sha256 (codes "nm-weights|" ++ seed) in
      record {
        prog_size = 384 + le_value (take 2 h) % 385;
        loops = 32 + byte_at h 2 % 33;
        branch_mask = 255 * 2 ^ (byte_at h 3 % 24);
        rot_salt = le_value (slice 4 12 h);
        op_table = op_table_of wh;
        aes_key = slice 12 28 h;
        dataset_key = take 16 dk;
      }

  -- genProgram: a stream of 16-byte blocks that holds 8 bytes for each instruction
  unfoldable pub gen_program : (Bytes → Bytes → Bytes) → Params → Bytes → List Instr
  unfolding instrs_of stream_of
  gen_program encrypt p seed =
      let key = C.sha256 (seed ++ 0x50 ∷ []) in
      instrs_of p.op_table p.prog_size
        (stream_of encrypt ((p.prog_size + 1) / 2) (take 16 key) (slice 16 32 key))
