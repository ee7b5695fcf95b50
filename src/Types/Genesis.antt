-- ===== src/Types/Genesis.antt =====
-- GenesisBlock of core/types.go.
use cereblix.Prelude.{[], ◌∷◌, ◌++◌, replicate}
use cereblix.Prelude.Bytes.{Bytes, codes}
use cereblix.Prelude.Text.{hex_encode}
use cereblix.Types.Params.{genesis_target}
use cereblix.Types.Crypto.{Crypto}
use cereblix.Types.Tx.{Tx}
use cereblix.Types.Block.{Block, target_to_hex, compute_tx_root}

-- The dash of the message is three bytes of UTF-8.
abbrev genesis_message : Bytes
genesis_message =
    codes "Cerebra genesis | 2026-06-11 | one CPU, one vote "
    ++ (0xe2 ∷ 0x80 ∷ 0x94 ∷ [])
    ++ codes " silicon shall not rule"

unfoldable pub genesis_coinbase : Tx
genesis_coinbase = record {
  from_pub = [];
  to = codes "crb1" ++ replicate 40 b'0';
  amount = 0;
  fee = 0;
  nonce = 0;
  sig = hex_encode genesis_message;
}

unfoldable pub genesis_block : Crypto → Block
genesis_block C = record {
  version = 1;
  height = 0;
  time = 1781136000;
  prev_hash = replicate 64 b'0';
  tx_root = compute_tx_root C (genesis_coinbase ∷ []);
  target = target_to_hex genesis_target;
  nonce = 0;
  txs = genesis_coinbase ∷ [];
}
