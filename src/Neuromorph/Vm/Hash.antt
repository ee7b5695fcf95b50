-- ===== src/Neuromorph/Vm/Hash.antt =====
-- neuromorph/neuromorph.go: VM.Hash, from the header to the digest.
use Prim.Native.Nat.{bit_xor}
use cereblix.Prelude.{
  ℕ, zero, suc, ◌+◌, ◌*◌, ◌/◌, ◌%◌, Option, none, some, List, [], ◌∷◌, ◌++◌, map, take, drop,
  replicate, leb, if◌then◌else◌,
}
use cereblix.Prelude.Bytes.{Bytes, codes}
use cereblix.Prelude.Text.{le_bytes}
use cereblix.Types.Crypto.{Crypto}
use cereblix.Neuromorph.{Params, gen_program}
use cereblix.Neuromorph.Machine.{
  Floats, scratch_words, dataset_height, Memory, word_at, Machine, norm_float, words_of, bytes_of,
}
use cereblix.Neuromorph.Vm.{run_loops}

-- the words from a number on
unfoldable pub read_words : ℕ → ℕ → Memory → List ℕ
read_words zero at mem = []
read_words (suc n) at mem = mem at ∷ read_words n (at + 1) mem

abbrev salted : ℕ → List ℕ → List ℕ
salted salt xs = map (λ x. bit_xor x salt) xs

-- fold[lane] over the groups of 8 words that are left
unfoldable pub fold_lane : ℕ → ℕ → ℕ → Memory → ℕ
fold_lane zero at acc mem = acc
fold_lane (suc n) at acc mem = fold_lane n (at + 8) (bit_xor acc (mem at)) mem

unfoldable pub fold_lanes : ℕ → ℕ → Memory → List ℕ
unfolding fold_lane
fold_lanes zero lane mem = []
fold_lanes (suc n) lane mem = fold_lane (scratch_words / 8) lane 0 mem ∷ fold_lanes n (lane + 1) mem

-- "Final digest: registers + XOR-fold of the whole scratchpad."
unfoldable pub digest_input : Bytes → Machine → Bytes
unfolding bytes_of fold_lanes
digest_input seed m =
    codes "NMv1" ++ seed ++ bytes_of m.r ++ bytes_of m.f ++ bytes_of (fold_lanes 8 0 m.scratch)

module _ (C : Crypto) where
  abbrev pub seed_of : Bytes → Bytes
  seed_of header = C.sha256 (codes "nm-seed|" ++ header)

unfoldable pub digest_of : Crypto → Bytes → Option Machine → Option Bytes
unfolding digest_input
digest_of C seed none = none
digest_of C seed (some m) = some (C.sha256 (digest_input seed m))

module _ (C : Crypto) (F : Floats) (encrypt : Bytes → Bytes → Bytes) where
  -- the words of the cipher's blocks: block i / 2 is of the number i and 8 bytes more
  abbrev keystream : Bytes → Bytes → Memory
  keystream key tail i = word_at (words_of 2 (encrypt key (le_bytes 8 (i / 2 * 2) ++ tail))) (i % 2)

  -- fillScratch
  unfoldable pub fill_scratch : Bytes → Memory
  unfolding words_of
  fill_scratch seed =
      let key = C.sha256 (seed ++ 0x53 ∷ []) in keystream (take 16 key) (take 8 (drop 24 key))

  -- getDataset, whose cache only saves the work
  unfoldable pub get_dataset : Bytes → Memory
  unfolding words_of
  get_dataset key = keystream key (replicate 8 0)

  -- "Init registers from the seed and the scratchpad head."
  unfoldable pub init_machine : Params → Bytes → Machine
  unfolding words_of norm_float read_words fill_scratch
  init_machine p seed =
      let mem = fill_scratch seed in
      record {
        r = words_of 4 seed ++ salted p.rot_salt (read_words 12 4 mem);
        f = map norm_float (read_words 8 16 mem);
        scratch = mem;
      }

  abbrev dataset_at : Params → ℕ → Option Memory
  dataset_at p height = if leb dataset_height height then some (get_dataset p.dataset_key) else none

  -- Hash, to the machine that is digested
  unfoldable pub hash_machine : Params → Bytes → ℕ → Option Machine
  unfolding gen_program get_dataset init_machine run_loops
  hash_machine p header height =
      let seed = seed_of C header in
      run_loops F encrypt p p.loops 0 (dataset_at p height) (gen_program C encrypt p seed)
        (init_machine p seed)

  -- Hash
  unfoldable pub hash : Params → Bytes → ℕ → Option Bytes
  unfolding hash_machine digest_of
  hash p header height = digest_of C (seed_of C header) (hash_machine p header height)
