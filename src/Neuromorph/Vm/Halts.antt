-- ===== src/Neuromorph/Vm/Halts.antt =====
-- The loops of VM.Hash in neuromorph/neuromorph.go end.
use cereblix.Prelude.{
  ℕ, zero, suc, ◌+◌, ◌-◌, ◌*◌, ◌<◌, ◌≡◌, refl, ap, ◌∙◌, inl, inr, true, Option, some, List, [], ◌∷◌,
  length, replicate, Option-cases, get_elem?, get_elem?-lt, ltb→lt, Bool-cases, arith,
}
use cereblix.Prelude.Bytes.{Bytes}
use cereblix.Types.Crypto.{Crypto}
use cereblix.Neuromorph.{Params, Instr}
use cereblix.Neuromorph.Machine.{Floats, Op, ops, Memory, word_at, put, put-length, Machine, Pass}
use cereblix.Neuromorph.Vm.{branches, step, run, pass_fuel, run_pass, run_loops}
use cereblix.Neuromorph.Vm.Hash.{hash_machine, digest_input, seed_of, digest_of, hash}

-- the branches that may still be taken
room : List ℕ → ℕ
room [] = 0
room (t ∷ ts) = (8 - t) + room ts

room-put :
    (ts : List ℕ) (i : ℕ)
    → i < length ts
    → word_at ts i < 8
    → room (put ts i (word_at ts i + 1)) + 1 ≡ room ts
unfolding room
room-put [] i h lt = absurd (omega arith)
room-put (t ∷ ts) zero h lt = omega arith
room-put (t ∷ ts) (suc i) h lt = omega (arith, room-put ts i (omega arith) lt)

room-replicate : (n : ℕ) → room (replicate {A = ℕ} n 0) ≡ 8 * n
unfolding room
room-replicate zero = refl
room-replicate (suc n) = omega (arith, room-replicate n)

replicate-length : (n : ℕ) → length (replicate {A = ℕ} n 0) ≡ n
replicate-length zero = refl
replicate-length (suc n) = omega (arith, replicate-length n)

-- a bound of the instructions that are still executed
measure : ℕ → Pass → ℕ
measure n s = 32 * room s.taken + (n - s.pc)

module _ (F : Floats) (encrypt : Bytes → Bytes → Bytes) (p : Params) where
  branches-room :
      (op : Option Op) (i : Instr) (s : Pass)
      → branches F encrypt p op i s ≡ true
      → word_at s.taken s.pc < 8
  unfolding branches
  branches-room op i s h = grind (arith, ltb→lt)

  step-measure :
      (n loop : ℕ) (i : Instr) (s : Pass)
      → s.pc < n
      → length s.taken ≡ n
      → (measure n (step F encrypt p loop i s) < measure n s)
        × (length (step F encrypt p loop i s).taken ≡ n)
  unfolding step measure
  step-measure n loop i s lt size =
      elim (Bool-cases (branches F encrypt p (get_elem? ops i.op) i s)) [
        | inl e ↦ rw e (
          omega (
            arith,
            room-put s.taken s.pc (omega (arith, size, lt))
                (branches-room (get_elem? ops i.op) i s e),
          ),
          put-length s.taken s.pc (word_at s.taken s.pc + 1) ∙ size,
        )
        | inr e ↦ rw e (omega (arith, lt), size)
      ]

  run-halts :
      (fuel loop : ℕ) (prog : List Instr) (s : Pass)
      → measure (length prog) s < fuel
      → length s.taken ≡ length prog
      → (m : Machine) × (run F encrypt p fuel loop prog s ≡ some m)
  unfolding run
  run-halts zero loop prog s lt size = absurd (omega arith)
  run-halts (suc fuel) loop prog s lt size = elim (Option-cases (get_elem? prog s.pc)) [
    | inl e ↦ rw (run, e) (s.machine, refl)
    | inr (i, e) ↦
        let (less, size') = step-measure (length prog) loop i s (get_elem?-lt prog s.pc e) size in
        rw (run, e)
          (run-halts fuel loop prog (step F encrypt p loop i s) (omega (arith, less, lt)) size')
  ]

  run_pass-halts :
      (loop : ℕ) (prog : List Instr) (m : Machine)
      → (m' : Machine) × (run_pass F encrypt p loop prog m ≡ some m')
  unfolding run_pass measure
  run_pass-halts loop prog m =
      let n = length prog in
      run-halts (pass_fuel n) loop prog _ (omega (arith, room-replicate n)) (replicate-length n)

  run_loops-halts :
      (n loop : ℕ) (dataset : Option Memory) (prog : List Instr) (m : Machine)
      → (m' : Machine) × (run_loops F encrypt p n loop dataset prog m ≡ some m')
  unfolding run_loops
  run_loops-halts zero loop dataset prog m = (m, refl)
  run_loops-halts (suc n) loop dataset prog m =
      let (m', e) = run_pass-halts loop prog m in
      rw (run_loops, e) (run_loops-halts n (loop + 1) dataset prog _)

-- Whatever the header, the height and the derived program, each pass over the program of n
-- instructions ends within 257 * n of them, and Hash returns the digest of what its loops leave.
pub hash-halts :
    (C : Crypto) (F : Floats) (encrypt : Bytes → Bytes → Bytes) (p : Params) (header : Bytes)
    (height : ℕ)
    → (m : Machine) × (hash_machine C F encrypt p header height ≡ some m)
      × (hash C F encrypt p header height ≡ some (C.sha256 (digest_input (seed_of C header) m)))
unfolding hash hash_machine digest_of
hash-halts C F encrypt p header height =
    let (m, e) = run_loops-halts F encrypt p p.loops 0 _ _ _ in
    (m, e, ap (digest_of C (seed_of C header)) e)
