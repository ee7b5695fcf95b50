-- ===== src/Wallet.antt =====
-- desktop/store.go: the key store of the desktop wallet, with its lock state. AES-GCM, HMAC, ed25519 and
-- JSON are the record `Vault`; what an operation gets from the system (random bytes, whether the files
-- can be written) is its argument `Outside`. `disk` is the wallet file.
pub mod Seal
pub mod Keys
pub mod Locked
pub mod Sealed
use cereblix.Prelude.{
  ℕ, zero, suc, ◌+◌, ◌-◌, ◌*◌, ◌/◌, Bool, true, false, not, ◌&&◌, ◌||◌, Option, none, some, List,
  [], ◌∷◌, ◌++◌, map, take, drop, length, replicate, ltb, leb, ◌==◌, if◌then◌else◌,
}
use Prim.Native.Nat.{bit_xor}
use cereblix.Prelude.Bytes.{Bytes, codes, bytes_eq}
use cereblix.Prelude.Text.{hex_encode, hex_decode, be_bytes, itoa}
use cereblix.Prelude.Result.{Result, ok, err}
use cereblix.Prelude.Exec.{Exec, lift, reject_if, ◌>>=◌, ◌>>◌}
use cereblix.Types.Crypto.{Crypto}
use cereblix.Types.Tx.{addr_from_pub}

abbrev pub kdf_iters : ℕ
kdf_iters = 600000

abbrev pub min_passphrase : ℕ
min_passphrase = 8

abbrev pub max_kdf_iters : ℕ
max_kdf_iters = 5000000

pub record KeyEntry : Type 0 where
  pub label : Bytes
  pub priv : Bytes
  pub addr : Bytes

pub record FileFormat : Type 0 where
  pub version : ℕ
  pub encrypted : Bool
  pub kdf : Bytes
  pub iter : ℕ
  pub salt : Bytes
  pub nonce : Bytes
  pub cipher : Bytes
  pub keys : List KeyEntry

-- the wallet file, as reading and parsing it ends
pub data Disk : Type 0 where
  absent unreadable corrupt : Disk
  file : FileFormat → Disk

pub record Store : Type 0 where
  pub encrypted : Bool
  pub locked : Bool
  pub keys : List KeyEntry
  pub passphrase : Bytes
  pub enc : Option FileFormat
  pub exists : Bool
  pub disk : Disk

pub data WalletError : Type 0 where
  io_error corrupt_file locked_wallet no_passphrase nothing_sealed bad_salt bad_nonce : WalletError
  bad_cipher bad_iter wrong_passphrase bad_keys no_such_key already_exists too_short : WalletError
  label_taken bad_private_key key_mismatch sign_check_failed address_taken : WalletError
  already_encrypted no_keys not_encrypted : WalletError

pub record Vault : Type 0 where
  pub hmac_sha256 : Bytes → Bytes → Bytes
  pub gcm_seal : Bytes → Bytes → Bytes → Bytes
  pub gcm_open : Bytes → Bytes → Bytes → Option Bytes
  pub marshal : List KeyEntry → Bytes
  pub unmarshal : Bytes → Option (List KeyEntry)
  -- ed25519: the public half of a key, the key of a seed, a signature, its check
  pub public_of : Bytes → Bytes
  pub from_seed : Bytes → Bytes
  pub sign : Bytes → Bytes → Bytes
  pub verify : Bytes → Bytes → Bytes → Bool

pub record Outside : Type 0 where
  pub mkdir_ok : Bool
  pub salt : Option Bytes
  pub nonce : Option Bytes
  pub write_ok : Bool

-- loadStore
abbrev pub empty_store : Disk → Store
empty_store disk = record {
  encrypted = false;
  locked = false;
  keys = [];
  passphrase = [];
  enc = none;
  exists = false;
  disk = disk;
}

abbrev pub opened_file : FileFormat → Store
opened_file ff =
    if ff.encrypted
    then record (empty_store (file ff)) {
      encrypted = true;
      locked = true;
      enc = some ff;
      exists = true;
    }
    else record (empty_store (file ff)) { keys = ff.keys; exists = true }

unfoldable pub load_store : Disk → Result WalletError Store
load_store absent = ok (empty_store absent)
load_store unreadable = err io_error
load_store corrupt = err corrupt_file
load_store (file ff) = ok (opened_file ff)

-- lock
unfoldable pub lock : Store → Store
lock s = if s.encrypted then record s { keys = []; passphrase = []; locked = true } else s

-- requireOpen
abbrev pub require_open : Exec Store WalletError (Unit {0})
require_open s = reject_if s.locked locked_wallet s

-- findLocked
unfoldable pub find_locked : Bytes → List KeyEntry → Option KeyEntry
find_locked q [] = none
find_locked q (k ∷ ks) =
    if bytes_eq k.addr q || bytes_eq k.label q then some k else find_locked q ks

abbrev pub is_found : Option KeyEntry → Bool
is_found none = false
is_found (some _) = true

abbrev or_no_such_key : Option KeyEntry → Result WalletError KeyEntry
or_no_such_key none = err no_such_key
or_no_such_key (some k) = ok k

-- find
unfoldable pub find : Bytes → Exec Store WalletError KeyEntry
unfolding find_locked
find q = do require_open; λ s. (or_no_such_key (find_locked q s.keys), s)

-- the entry without its private key
abbrev pub public_entry : KeyEntry → KeyEntry
public_entry k = record { label = k.label; priv = []; addr = k.addr }

-- list
unfoldable pub list : Exec Store WalletError (List KeyEntry)
list = do require_open; λ s. (ok (map public_entry s.keys), s)

-- exportKey
unfoldable pub export_key : Bytes → Bytes → Exec Store WalletError Bytes
unfolding find_locked
export_key q passphrase = do
  require_open
  s ← λ s. (ok s, s)
  reject_if (s.encrypted && not (bytes_eq s.passphrase passphrase)) wrong_passphrase
  k ← lift (or_no_such_key (find_locked q s.keys))
  λ s. (ok k.priv, s)

-- the XOR of two blocks
unfoldable pub xor_blocks : Bytes → Bytes → Bytes
xor_blocks [] ys = []
xor_blocks (x ∷ xs) [] = x ∷ xs
xor_blocks (x ∷ xs) (y ∷ ys) = bit_xor x y ∷ xor_blocks xs ys
