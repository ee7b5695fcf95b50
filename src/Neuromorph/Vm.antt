-- ===== src/Neuromorph/Vm.antt =====
-- neuromorph/neuromorph.go: the instructions and the loops of VM.Hash, on the registers `r`, the
-- floats `f` and the scratchpad. `prog` holds ProgSize instructions, so `pc < ProgSize` is whether
-- `prog` has an instruction at `pc`.
pub mod Hash
pub mod Halts
use Prim.Native.Nat.{bit_and, bit_or, bit_xor}
use cereblix.Prelude.{
  ℕ, zero, suc, ◌+◌, ◌-◌, ◌*◌, ◌/◌, ◌%◌, ◌^◌, Bool, true, false, ◌&&◌, ◌||◌, Option, none, some,
  List, [], ◌∷◌, ◌++◌, take, drop, length, get_elem?, replicate, ltb, leb, ◌==◌, if◌then◌else◌,
}
use cereblix.Prelude.Bytes.{Bytes, codes}
use cereblix.Prelude.Text.{le_bytes, le_value}
use cereblix.Prelude.Word.{u64_mod, add64}
use cereblix.Types.Crypto.{Crypto}
use cereblix.Neuromorph.{Params, Instr, gen_program}
use cereblix.Neuromorph.Machine.{
  Floats, scratch_words, scratch_mask, dataset_mask, dataset_reads, Op, iadd, imul, imulh, ixor,
  irotr, ineg, fadd, fmul, fdiv, fsqrt, load, store, cbranch, aesr, xdom, ops, Memory, write,
  word_at, put, Machine, Pass, norm_float, rotate_right, words_of, dst, src, fdst, fsrc, address,
  aes_address, is_float, is_branch, set_r, set_f, aes_pair,
}

abbrev pub jump : Instr → Pass → Pass
jump i s = record {
  pc = s.pc - (i.imm % 31 + 1);
  taken = put s.taken s.pc (word_at s.taken s.pc + 1);
  machine = s.machine;
}

-- the chain of reads of the dataset, from the k-th on
unfoldable pub read_chain : ℕ → ℕ → Memory → ℕ → ℕ → List ℕ → List ℕ
read_chain zero loop dataset k addr r = r
read_chain (suc n) loop dataset k addr r =
    let v = dataset (addr / 8) in
    let r' = put r (bit_and k 15) (bit_xor (word_at r (bit_and k 15)) v) in
    read_chain n loop dataset (k + 1)
      (bit_and (add64 (add64 v (word_at r' (bit_and (k + 1) 15))) loop) dataset_mask) r'

-- "Fold registers back into the scratchpad": words base.. of the scratchpad, then r[8..15]
unfoldable pub fold_words : ℕ → List ℕ → Memory → Memory
fold_words at [] mem = mem
fold_words at (x ∷ xs) mem =
    let w = at % scratch_words in fold_words (at + 1) xs (write mem w (bit_xor (mem w) x))

unfoldable pub xor_words : List ℕ → List ℕ → List ℕ
xor_words [] ys = []
xor_words (x ∷ xs) [] = x ∷ xs
xor_words (x ∷ xs) (y ∷ ys) = bit_xor x y ∷ xor_words xs ys

unfoldable pub fold_back : ℕ → Machine → Machine
unfolding fold_words xor_words
fold_back loop m =
    let base =
      bit_and (bit_xor (word_at m.r 0) (loop * 0x9e3779b97f4a7c15 % u64_mod)) scratch_mask / 8 in
    record {
      r = take 8 m.r ++ xor_words (drop 8 m.r) m.f;
      f = m.f;
      scratch = fold_words base m.r m.scratch;
    }

-- at most 8 branches are taken at each instruction, each at most 31 back
abbrev pub pass_fuel : ℕ → ℕ
pass_fuel n = 257 * n + 1

abbrev start_pass : ℕ → Machine → Pass
start_pass n m = record { pc = 0; taken = replicate n 0; machine = m }

module _ (p : Params) where
  abbrev pub read_dataset : Option Memory → ℕ → Machine → Machine
  read_dataset none loop m = m
  read_dataset (some dataset) loop m = record {
    r =
        read_chain dataset_reads loop dataset 0
          (bit_and (bit_xor (word_at m.r 1) p.rot_salt) dataset_mask) m.r;
    f = m.f;
    scratch = m.scratch;
  }

  abbrev pub close_loop : Option Memory → ℕ → Machine → Machine
  close_loop dataset loop m = fold_back loop (read_dataset dataset loop m)

module _ (F : Floats) (encrypt : Bytes → Bytes → Bytes) (p : Params) where
  -- the switch, less the branch
  unfoldable pub exec : ℕ → Option Op → Instr → Machine → Machine
  unfolding norm_float words_of address aes_address
  exec loop (some iadd) i m =
      set_r m i (add64 (word_at m.r (dst i)) (add64 (word_at m.r (src i)) i.imm))
  exec loop (some imul) i m =
      set_r m i ((word_at m.r (dst i) * bit_or (word_at m.r (src i)) 1) % u64_mod)
  exec loop (some imulh) i m =
      set_r m i (bit_xor (word_at m.r (dst i) * word_at m.r (src i) / u64_mod) i.imm)
  exec loop (some ixor) i m =
      set_r m i (bit_xor (word_at m.r (dst i)) (add64 (word_at m.r (src i)) p.rot_salt))
  exec loop (some irotr) i m =
      set_r m i
        (rotate_right (word_at m.r (dst i)) (bit_and (bit_xor (word_at m.r (src i)) i.imm) 63))
  exec loop (some ineg) i m = set_r m i (add64 (u64_mod - 1 - word_at m.r (dst i)) i.imm)
  exec loop (some fadd) i m = set_f m i (F.add (word_at m.f (fdst i)) (word_at m.f (fsrc i)))
  exec loop (some fmul) i m = set_f m i (F.mul (word_at m.f (fdst i)) (word_at m.f (fsrc i)))
  exec loop (some fdiv) i m =
      set_f m i (F.div (word_at m.f (fdst i)) (norm_float (word_at m.f (fsrc i))))
  exec loop (some fsqrt) i m = set_f m i (F.sqrt (F.abs (word_at m.f (fdst i))))
  exec loop (some load) i m =
      set_r m i (bit_xor (word_at m.r (dst i)) (m.scratch (address (word_at m.r (src i)) i.imm)))
  exec loop (some store) i m =
      let w = address (word_at m.r (dst i)) i.imm in
      record {
        r = m.r;
        f = m.f;
        scratch = write m.scratch w (bit_xor (m.scratch w) (add64 (word_at m.r (src i)) loop));
      }
  exec loop (some cbranch) i m = m
  exec loop (some aesr) i m =
      let w = aes_address (word_at m.r (src i)) i.imm in
      let out = aes_pair encrypt p.aes_key m.scratch w in
      let lo = word_at out 0 in
      record {
        r = put m.r (dst i) (bit_xor (word_at m.r (dst i)) lo);
        f = m.f;
        scratch = write (write m.scratch w lo) (w + 1) (word_at out 1);
      }
  exec loop (some xdom) i m =
      if bit_and i.imm 1 == 0
      then set_r m i (bit_xor (word_at m.r (dst i)) (word_at m.f (fsrc i)))
      else set_f m i (F.mul (word_at m.f (fdst i)) (norm_float (word_at m.r (src i))))
  exec loop none i m = m

  abbrev is_bad : ℕ → Bool
  is_bad v = F.is_nan v || F.is_inf v || F.is_zero v

  -- "Keep floats finite"
  unfoldable pub keep_finite : Option Op → Instr → Machine → Machine
  unfolding norm_float
  keep_finite op i m =
      if is_float op && is_bad (word_at m.f (fdst i))
      then set_f m i (norm_float (bit_or (word_at m.r (dst i)) 1))
      else m

  -- `(r[d]+uint64(ins.imm))&p.BranchMask == 0 && vm.taken[pc] < 8`
  unfoldable pub branches : Option Op → Instr → Pass → Bool
  branches op i s =
      is_branch op
      && bit_and (add64 (word_at s.machine.r (dst i)) i.imm) p.branch_mask == 0
      && ltb (word_at s.taken s.pc) 8

  abbrev pub advance : ℕ → Instr → Pass → Pass
  advance loop i s =
      let op = get_elem? ops i.op in
      record {
        pc = s.pc + 1;
        taken = s.taken;
        machine = keep_finite op i (exec loop op i s.machine);
      }

  unfoldable pub step : ℕ → Instr → Pass → Pass
  unfolding exec keep_finite branches
  step loop i s = if branches (get_elem? ops i.op) i s then jump i s else advance loop i s

  -- `for pc < p.ProgSize`
  unfoldable pub run : ℕ → ℕ → List Instr → Pass → Option Machine
  unfolding step
  run zero loop prog s = none
  run (suc fuel) loop prog s = elim (get_elem? prog s.pc) [
    | none ↦ some s.machine
    | some i ↦ run fuel loop prog (step loop i s)
  ]

  -- the body of the outer loop, less what follows the pass over the program
  unfoldable pub run_pass : ℕ → List Instr → Machine → Option Machine
  unfolding run
  run_pass loop prog m = run (pass_fuel (length prog)) loop prog (start_pass (length prog) m)

  -- the outer loops, `n` of them from number `loop` on
  unfoldable pub run_loops : ℕ → ℕ → Option Memory → List Instr → Machine → Option Machine
  unfolding run_pass read_chain fold_back
  run_loops zero loop dataset prog m = some m
  run_loops (suc n) loop dataset prog m = elim (run_pass loop prog m) [
    | none ↦ none
    | some m' ↦ run_loops n (loop + 1) dataset prog (close_loop p dataset loop m')
  ]
