-- ===== src/Tests.antt =====
-- Concrete runs of the model: a chain that a fresh node grows by one block, a candidate that it
-- refuses, and each theorem at an input where its conditions hold. Hashes are stood in for by a sum
-- of the bytes, every signature verifies, and every proof of work succeeds.
pub mod Run
pub mod Examples
pub mod Pool
pub mod Stored
pub mod Machine
pub mod Peering
pub mod Keys
pub mod Healing
use cereblix.Prelude.{
  ℕ, zero, suc, ◌+◌, ◌*◌, ◌^◌, ◌≡◌, refl, Bool, true, false, Option, none, some, List, [], ◌∷◌,
  ◌++◌, All, length, arith, replicate, length, ◌-◌, ◌≤◌, ◌<◌,
}
use cereblix.Prelude.Bytes.{Bytes, codes}
use cereblix.Prelude.Text.{be_bytes}
use cereblix.Prelude.Result.{Result, ok, err}
use cereblix.Types.Params.{coin_unit}
use cereblix.Types.Crypto.{Crypto}
use cereblix.Types.Tx.{Tx}
use cereblix.Types.Block.{Block}
use cereblix.Types.Genesis.{genesis_block}
use cereblix.Chain.Record.{Chain}
use cereblix.Chain.Open.{empty_chain, load}
use cereblix.Chain.Template.{build_template}
use cereblix.Chain.Adopt.{add_block, try_adopt_chain}

unfoldable pub sum_bytes : Bytes → ℕ
sum_bytes [] = 7
sum_bytes (b ∷ bs) = b + 3 * sum_bytes bs

unfoldable pub toy : Crypto
unfolding sum_bytes
toy = record {
  sha256 = λ bs. be_bytes 32 (sum_bytes bs);
  ed25519_verify = λ key msg sig. true;
  nm_hash = λ seed header height. [];
  epoch_seed0 = [];
  chain_id = [];
  f64_of_int = λ n. n;
  f64_add = λ a b. a + b;
  f64_mul = λ a b. a * b;
  f64_div = λ a b. 0;
  f64_to_uint = λ n. n;
}

abbrev pub or_empty : {E : Type 0} → Result E Chain → Chain
or_empty (ok c) = c
or_empty (err _) = empty_chain

unfoldable pub fresh : Chain
unfolding load
fresh = or_empty (load toy [])

abbrev pub miner : Bytes
miner = codes "crb1" ++ replicate 40 b'7'

-- the block that BuildTemplate gives for the miner
abbrev pub first_tx : Tx
first_tx = record {
  from_pub = [];
  to = miner;
  amount = 50 * coin_unit;
  fee = 0;
  nonce = 1;
  sig = codes "crbnode/4";
}

abbrev pub first_block : Block
first_block = record {
  version = 1;
  height = 1;
  time = 1781136060;
  prev_hash = codes "00000000000000a25226e36e863943794bc0dac34242b1b3f72d631c52064d50";
  tx_root = codes "0000000000000000000000000000000000000000000f18ec6024d0dcad0804c0";
  target = codes "0002000000000000000000000000000000000000000000000000000000000000";
  nonce = 0;
  txs = first_tx ∷ [];
}

abbrev pub clock : ℕ
clock = 1781136060

unfoldable pub grown : Chain
unfolding fresh
grown = (add_block toy first_block clock true fresh).1
