-- ===== src/Types/Block.antt =====
-- Blocks of core/types.go: the header's bytes, the block id, the tx root, fees and the target.
use cereblix.Prelude.{
  ℕ, ◌-◌, Bool, Option, none, some, List, [], ◌∷◌, ◌++◌, length, take, replicate, leb,
  if◌then◌else◌,
}
use cereblix.Prelude.Bytes.{Bytes, codes}
use cereblix.Prelude.Text.{hex_scan, hex_encode, le_bytes, be_bytes, be_value}
use cereblix.Prelude.Word.{add64}
use cereblix.Types.Crypto.{Crypto}
use cereblix.Types.Tx.{Tx, is_coinbase, tx_id, decode_field}

pub record Block : Type 0 where
  pub version : ℕ
  pub height : ℕ
  pub time : ℕ
  pub prev_hash : Bytes
  pub tx_root : Bytes
  pub target : Bytes
  pub nonce : ℕ
  pub txs : List Tx

-- copy(out[i:i+w], src) into a zeroed buffer
unfoldable pub copy_field : ℕ → Bytes → Bytes
copy_field w src = let kept = take w src in kept ++ replicate (w - length kept) 0

unfoldable pub header_field : Bytes → Bytes
unfolding copy_field
header_field s = copy_field 32 (hex_scan s).0

-- HeaderBytes
unfoldable pub header_bytes : Block → Bytes
header_bytes b =
    le_bytes 4 b.version
    ++ (le_bytes 8 b.height
        ++ (le_bytes 8 b.time
            ++ (header_field b.prev_hash
                ++ (header_field b.tx_root ++ (header_field b.target ++ le_bytes 8 b.nonce)))))

-- TotalFees
unfoldable pub fees_from : ℕ → List Tx → ℕ
fees_from fees [] = fees
fees_from fees (t ∷ ts) = fees_from (if is_coinbase t then fees else add64 fees t.fee) ts

unfoldable pub total_fees : Block → ℕ
unfolding fees_from
total_fees b = fees_from 0 b.txs

abbrev as_target : Option Bytes → Option ℕ
as_target none = none
as_target (some raw) = some (be_value raw)

-- TargetInt
unfoldable pub target_int : Block → Option ℕ
target_int b = as_target (decode_field 32 b.target)

-- TargetToHex
unfoldable pub target_to_hex : ℕ → Bytes
target_to_hex t = hex_encode (be_bytes 32 t)

-- HashMeetsTarget
unfoldable pub hash_meets_target : Bytes → ℕ → Bool
hash_meets_target pow_hash target = leb (be_value pow_hash) target

module _ (C : Crypto) where
  -- Hash
  unfoldable pub block_hash : Block → Bytes
  block_hash b = hex_encode (C.sha256 (header_bytes b))

  unfoldable pub root_preimage : List Tx → Bytes
  root_preimage [] = []
  root_preimage (t ∷ ts) = (hex_scan (tx_id C t)).0 ++ root_preimage ts

  -- ComputeTxRoot
  unfoldable pub compute_tx_root : List Tx → Bytes
  compute_tx_root txs = hex_encode (C.sha256 (codes "cerebra-txroot-v1" ++ root_preimage txs))
