-- ===== src/Store/Codec.antt =====
-- Rows of core/bbolt_store.go read back as they were written.
use cereblix.Prelude.{
  ℕ, zero, suc, ◌/◌, ◌%◌, ◌<◌, ◌≡◌, refl, false, some, [], ◌∷◌, ◌++◌, length, arith, ltb,
  length-append, take-exact, drop-exact,
}
use cereblix.Prelude.Bytes.{Bytes}
use cereblix.Prelude.Text.{be_bytes, be_value, be_value_from}
use cereblix.Prelude.Word.{IsU64}
use cereblix.Chain.Views.{HistoryItem}
use cereblix.Store.{u64be, append_lp, read_lp, encode_hist_row, decode_hist_row}

length-be_bytes : (w n : ℕ) → length (be_bytes w n) ≡ w
unfolding be_bytes
length-be_bytes zero n = refl
length-be_bytes (suc w) n =
    omega
      (arith, length-append (be_bytes w (n / 256)) ((n % 256) ∷ []), length-be_bytes w (n / 256))

pub be_value-u64be : (n : ℕ) → IsU64 n → be_value (u64be n) ≡ n
unfolding be_bytes be_value_from
be_value-u64be n h = omega arith

read-append_lp : (s rest : Bytes) → length s < 256 → read_lp (append_lp s rest) ≡ some (s, rest)
unfolding read_lp append_lp
read-append_lp s rest short =
    let exact : length s % 256 ≡ length s = omega arith in
    let room : ltb (length (s ++ rest)) (length s) ≡ false = ground (arith, length-append s rest) in
    rw (exact, room, take-exact (length s) s rest refl, drop-exact (length s) s rest refl) refl

-- A history row decodes to the item that was encoded, at the height of its key, whenever its numbers
-- are uint64 and its three strings are shorter than 256 bytes.
pub decode-encode_hist_row :
    (it : HistoryItem)
    → IsU64 it.time
    → IsU64 it.amount
    → IsU64 it.fee
    → length it.txid < 256
    → length it.from < 256
    → length it.to < 256
    → decode_hist_row (encode_hist_row it) it.height ≡ some it
unfolding decode_hist_row encode_hist_row
decode-encode_hist_row it ht ha hf l1 l2 l3 =
    let strings = append_lp it.txid (append_lp it.from (append_lp it.to [])) in
    let tail2 = u64be it.fee ++ strings in
    let tail1 = u64be it.amount ++ tail2 in
    let long : ltb (length (u64be it.time ++ tail1)) 24 ≡ false = ground (
      arith,
      length-append (u64be it.time) tail1,
      length-append (u64be it.amount) tail2,
      length-append (u64be it.fee) strings,
      length-be_bytes 8 it.time,
      length-be_bytes 8 it.amount,
      length-be_bytes 8 it.fee,
    ) in
    rw
      (
        long,
        take-exact 8 (u64be it.time) tail1 (length-be_bytes 8 it.time),
        drop-exact 8 (u64be it.time) tail1 (length-be_bytes 8 it.time),
        take-exact 8 (u64be it.amount) tail2 (length-be_bytes 8 it.amount),
        drop-exact 8 (u64be it.amount) tail2 (length-be_bytes 8 it.amount),
        take-exact 8 (u64be it.fee) strings (length-be_bytes 8 it.fee),
        drop-exact 8 (u64be it.fee) strings (length-be_bytes 8 it.fee),
        read-append_lp it.txid (append_lp it.from (append_lp it.to [])) l1,
        read-append_lp it.from (append_lp it.to []) l2,
        read-append_lp it.to [] l3,
        be_value-u64be it.time ht,
        be_value-u64be it.amount ha,
        be_value-u64be it.fee hf,
      )
      refl
