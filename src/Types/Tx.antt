-- ===== src/Types/Tx.antt =====
-- Transactions and addresses of core/types.go. `ChainID`, the hash of the genesis block, is a
-- constant that the signing payload takes from `Crypto`.
use cereblix.Prelude.{
  ℕ, Bool, true, false, not, ◌&&◌, Option, none, some, [], ◌++◌, length, take, leb, ◌==◌,
  if◌then◌else◌,
}
use cereblix.Prelude.Bytes.{Bytes, codes, bytes_eq, strip_prefix}
use cereblix.Prelude.Text.{hex_encode, hex_decode, itoa}
use cereblix.Prelude.Result.{Result, ok, err, ◌>>◌, reject_if}
use cereblix.Types.Params.{chain_id_height}
use cereblix.Types.Crypto.{Crypto}

pub record Tx : Type 0 where
  pub from_pub : Bytes
  pub to : Bytes
  pub amount : ℕ
  pub fee : ℕ
  pub nonce : ℕ
  pub sig : Bytes

pub data TxError : Type 0 where
  coinbase_not_allowed bad_destination zero_amount bad_pubkey bad_signature_encoding : TxError
  invalid_signature bad_nonce amount_overflow insufficient_balance : TxError

abbrev is_some : Option Bytes → Bool
is_some none = false
is_some (some _) = true

abbrev pub addr_prefix : Bytes
addr_prefix = codes "crb1"

abbrev after_prefix : Option Bytes → Bool
after_prefix none = false
after_prefix (some rest) = length rest == 40 && is_some (hex_decode rest)

-- ValidAddr
unfoldable pub valid_addr : Bytes → Bool
valid_addr a = after_prefix (strip_prefix addr_prefix a)

-- valid64Hex
unfoldable pub valid64_hex : Bytes → Bool
valid64_hex s = length s == 64 && is_some (hex_decode s)

-- IsCoinbase
abbrev pub is_coinbase : Tx → Bool
is_coinbase t = bytes_eq t.from_pub []

abbrev bar : Bytes
bar = codes "|"

abbrev body_fields : Tx → Bytes
body_fields t =
    t.from_pub ++ bar ++ t.to ++ bar ++ itoa t.amount ++ bar ++ itoa t.fee ++ bar ++ itoa t.nonce

-- SigningPayload
unfoldable pub signing_payload : Tx → Bytes
signing_payload t = codes "cerebra-tx-v1|" ++ body_fields t

-- hex.DecodeString of a field that must have n bytes
abbrev decode_exactly : ℕ → Option Bytes → Option Bytes
decode_exactly n none = none
decode_exactly n (some bs) = if length bs == n then some bs else none

unfoldable pub decode_field : ℕ → Bytes → Option Bytes
decode_field n s = decode_exactly n (hex_decode s)

module _ (C : Crypto) where
  -- AddrFromPub
  unfoldable pub addr_from_pub : Bytes → Bytes
  addr_from_pub pub_key = addr_prefix ++ hex_encode (take 20 (C.sha256 pub_key))

  -- ID
  unfoldable pub tx_id : Tx → Bytes
  tx_id t = hex_encode (C.sha256 (signing_payload t ++ bar ++ t.sig))

  abbrev addr_of_key : Option Bytes → Result TxError Bytes
  addr_of_key none = err bad_pubkey
  addr_of_key (some pub_key) = ok (addr_from_pub pub_key)

  -- FromAddr
  unfoldable pub from_addr : Tx → Result TxError Bytes
  from_addr t =
      if is_coinbase t then err coinbase_not_allowed else addr_of_key (decode_field 32 t.from_pub)

  -- `from, _ := t.FromAddr()`: the empty string on an error
  abbrev pub address_or_empty : Result TxError Bytes → Bytes
  address_or_empty (ok a) = a
  address_or_empty (err _) = []

  unfoldable pub sender : Tx → Bytes
  sender t = address_or_empty (from_addr t)

  -- signingPayloadFor
  unfoldable pub signing_payload_for : Tx → ℕ → Bytes
  signing_payload_for t height =
      if leb chain_id_height height
      then codes "cerebra-tx-v1|" ++ C.chain_id ++ bar ++ body_fields t
      else signing_payload t

  abbrev verify_decoded : Option Bytes → Option Bytes → Bytes → Result TxError (Unit {0})
  verify_decoded none _ _ = err bad_pubkey
  verify_decoded (some _) none _ = err bad_signature_encoding
  verify_decoded (some pub_key) (some sig) payload =
      reject_if (not (C.ed25519_verify pub_key payload sig)) invalid_signature

  -- checkSig
  unfoldable pub check_sig : Tx → Bytes → Result TxError (Unit {0})
  check_sig t payload = do
    reject_if (is_coinbase t) coinbase_not_allowed
    reject_if (not (valid_addr t.to)) bad_destination
    reject_if (t.amount == 0) zero_amount
    verify_decoded (decode_field 32 t.from_pub) (decode_field 64 t.sig) payload

  -- CheckSigAt
  unfoldable pub check_sig_at : Tx → ℕ → Result TxError (Unit {0})
  check_sig_at t height = check_sig t (signing_payload_for t height)
