-- ===== src/Tests/Machine.antt =====
-- The register machine of neuromorph on small programs, and its theorems at concrete inputs.
use cereblix.Prelude.{
  ℕ, ◌+◌, ◌*◌, ◌/◌, ◌%◌, ◌^◌, ◌≡◌, refl, false, Option, none, some, List, [], ◌∷◌, replicate,
}
use cereblix.Prelude.Bytes.{Bytes, codes}
use cereblix.Tests.{toy}
use cereblix.Types.Crypto.{Crypto}
use cereblix.Neuromorph.{Params, Instr}
use cereblix.Neuromorph.Machine.{Floats, Machine, Pass, address, aes_address, norm_float, words_of}
use cereblix.Neuromorph.Vm.{branches, exec, keep_finite, step, run}
use cereblix.Neuromorph.Vm.Hash.{hash_machine, hash, digest_input, seed_of}
use cereblix.Neuromorph.Vm.Halts.{hash-halts}

-- patterns added as numbers, and none of them infinite
abbrev plain : Floats
plain = record {
  add = λ a b. (a + b) % 2 ^ 64;
  mul = λ a b. (a * b) % 2 ^ 64;
  div = λ a b. a / b;
  sqrt = λ a. a;
  abs = λ a. a % 2 ^ 63;
  is_nan = λ a. false;
  is_inf = λ a. false;
  is_zero = λ a. false;
}

-- every hash the same 32 bytes
abbrev constant : Crypto
constant = record {
  sha256 = λ bs. replicate 32 9;
  ed25519_verify = toy.ed25519_verify;
  nm_hash = toy.nm_hash;
  epoch_seed0 = [];
  chain_id = [];
  f64_of_int = toy.f64_of_int;
  f64_add = toy.f64_add;
  f64_mul = toy.f64_mul;
  f64_div = toy.f64_div;
  f64_to_uint = toy.f64_to_uint;
}

abbrev echo : Bytes → Bytes → Bytes
echo key block = block

-- two loops, in which every branch finds its condition
abbrev params : Params
params = record {
  prog_size = 3;
  loops = 2;
  branch_mask = 0;
  rot_salt = 11;
  op_table = replicate 256 12;
  aes_key = replicate 16 1;
  dataset_key = replicate 16 2;
}

abbrev add_one : Instr
add_one = record { op = 0; dst = 0; src = 1; imm = 1 }

abbrev loop_back : Instr
loop_back = record { op = 12; dst = 2; src = 0; imm = 0 }

abbrev start : Pass
start = record {
  pc = 0;
  taken = replicate 2 0;
  machine = record { r = replicate 16 0; f = replicate 8 0; scratch = λ i. 0 };
}

abbrev first_register : Option Machine → List ℕ
first_register none = []
first_register (some m) = m.r

-- The branch is taken 8 times, so the addition is done 9 times.
branch_bounded :
    first_register (run plain echo params 100 0 (add_one ∷ loop_back ∷ []) start)
    ≡ 9 ∷ replicate 15 0
unfolding run step branches exec keep_finite norm_float words_of address aes_address
branch_bounded = refl

-- 18 instructions are executed, and one more round finds the end of the program.
branch_bounded_tight :
    first_register (run plain echo params 18 0 (add_one ∷ loop_back ∷ []) start) ≡ []
unfolding run step branches exec keep_finite norm_float words_of address aes_address
branch_bounded_tight = refl

hash-halts_example :
    (m : Machine) × (hash_machine constant plain echo params (codes "header") 240 ≡ some m)
    × (hash constant plain echo params (codes "header") 240
        ≡ some (constant.sha256 (digest_input (seed_of constant (codes "header")) m)))
hash-halts_example = hash-halts constant plain echo params (codes "header") 240
