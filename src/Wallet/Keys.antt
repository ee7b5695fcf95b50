-- ===== src/Wallet/Keys.antt =====
-- desktop/store.go: the operations that change the keys or the passphrase.
use cereblix.Prelude.{
  ◌+◌, true, false, not, ◌||◌, Option, none, some, List, [], ◌∷◌, ◌++◌, take, length, ltb, ◌==◌,
  if◌then◌else◌,
}
use cereblix.Prelude.Bytes.{Bytes, codes, bytes_eq}
use cereblix.Prelude.Text.{hex_encode, hex_decode, itoa}
use cereblix.Prelude.Result.{Result, ok, err}
use cereblix.Types.Crypto.{Crypto}
use cereblix.Types.Tx.{addr_from_pub}
use cereblix.Wallet.{
  Store, Vault, Outside, KeyEntry, WalletError, io_error, wrong_passphrase, already_exists,
  too_short, label_taken, bad_private_key, key_mismatch, sign_check_failed, address_taken,
  already_encrypted, no_keys, not_encrypted, min_passphrase, locked_wallet, find_locked, is_found,
  public_entry,
}
use cereblix.Wallet.Seal.{field_of, save}

abbrev pub or_default_label : Bytes → Bytes → Bytes
or_default_label label default = if bytes_eq label [] then default else label

abbrev pub numbered : Bytes → List KeyEntry → Bytes
numbered prefix keys = prefix ++ codes "-" ++ itoa (length keys + 1)

abbrev no_key : KeyEntry
no_key = record { label = []; priv = []; addr = [] }

abbrev set_keys : List KeyEntry → Store → Store
set_keys keys s = record s { keys = keys }

abbrev pub Outcome : Type 0 → Type 0
Outcome A = Result WalletError A × Store

-- what an operation returns once the wallet is saved
abbrev pub shown : KeyEntry → Outcome (Unit {0}) → Outcome KeyEntry
shown k (ok _, s) = (ok (public_entry k), s)
shown k (err e, s) = (err e, s)

abbrev pub begin_encrypted : Bytes → Store → Store
begin_encrypted passphrase s = record s {
  encrypted = true;
  passphrase = passphrase;
  locked = false;
}

module _ (V : Vault) (C : Crypto) where
  abbrev entry_of : Bytes → Bytes → KeyEntry
  entry_of label priv = record {
    label = label;
    priv = hex_encode priv;
    addr = addr_from_pub C (V.public_of priv);
  }

  abbrev pub key_made : Bytes → Option Bytes → Store → Outcome KeyEntry
  key_made name none s = (err io_error, s)
  key_made name (some priv) s =
      (ok (entry_of name priv), set_keys (s.keys ++ entry_of name priv ∷ []) s)

  -- newKeyLocked, with the key that ed25519.GenerateKey gives
  unfoldable pub new_key : Bytes → Option Bytes → Store → Outcome KeyEntry
  unfolding find_locked
  new_key label generated s =
      let name = or_default_label label (numbered (codes "addr") s.keys) in
      if is_found (find_locked name s.keys) then (err label_taken, s) else key_made name generated s

  abbrev pub created : Bytes → Outside → Outcome KeyEntry → Outcome KeyEntry
  created passphrase o (err e, s) = (err e, s)
  created passphrase o (ok k, s) = shown k (save V o (begin_encrypted passphrase s))

  -- create
  unfoldable pub create : Bytes → Option Bytes → Outside → Store → Outcome KeyEntry
  create passphrase generated o s =
      if s.exists || ltb 0 (length s.keys)
      then (err already_exists, s)
      else if ltb (length passphrase) min_passphrase
      then (err too_short, s)
      else created passphrase o (new_key (codes "main") generated s)

  abbrev pub added : Outside → Outcome KeyEntry → Outcome KeyEntry
  added o (err e, s) = (err e, s)
  added o (ok k, s) = shown k (save V o s)

  -- add
  unfoldable pub add : Bytes → Option Bytes → Outside → Store → Outcome KeyEntry
  add label generated o s =
      if s.locked then (err locked_wallet, s) else added o (new_key label generated s)

  abbrev probe : Bytes
  probe = codes "cereblix-import-integrity-check"

  abbrev free_label : Bytes → List KeyEntry → Bytes
  free_label label keys =
      let name = or_default_label label (codes "imported") in
      if is_found (find_locked name keys) then numbered name keys else name

  -- the checks of importKey on the key, to its public half
  unfoldable pub check_key : Bytes → Result WalletError Bytes
  check_key raw =
      let public = V.public_of raw in
      if not (length public == 32)
      then err bad_private_key
      else if not (bytes_eq (V.public_of (V.from_seed (take 32 raw))) public)
      then err key_mismatch
      else if not (V.verify public probe (V.sign raw probe))
      then err sign_check_failed
      else ok public

  abbrev checked_key : Result WalletError Bytes → Result WalletError Bytes
  checked_key (err e) = err e
  checked_key (ok raw) = check_key raw

  abbrev pub imported_entry : Bytes → Bytes → Bytes → List KeyEntry → KeyEntry
  imported_entry priv_hex label public keys = record {
    label = free_label label keys;
    priv = priv_hex;
    addr = addr_from_pub C public;
  }

  abbrev pub imported :
      Bytes → Bytes → Outside → Result WalletError Bytes → Store → Outcome KeyEntry
  imported priv_hex label o (err e) s = (err e, s)
  imported priv_hex label o (ok public) s =
      let e = imported_entry priv_hex label public s.keys in
      if is_found (find_locked (addr_from_pub C public) s.keys)
      then (err address_taken, s)
      else shown e (save V o (set_keys (s.keys ++ e ∷ []) s))

  -- importKey
  unfoldable pub import_key : Bytes → Bytes → Outside → Store → Outcome KeyEntry
  unfolding check_key
  import_key priv_hex label o s =
      if s.locked
      then (err locked_wallet, s)
      else imported priv_hex label o
          (checked_key (field_of (λ b. length b == 64) bad_private_key (hex_decode priv_hex))) s

  -- encrypt
  unfoldable pub encrypt : Bytes → Outside → Store → Outcome (Unit {0})
  encrypt passphrase o s =
      if s.encrypted
      then (err already_encrypted, s)
      else if length s.keys == 0
      then (err no_keys, s)
      else if ltb (length passphrase) min_passphrase
      then (err too_short, s)
      else save V o (begin_encrypted passphrase s)

  -- changePassphrase
  unfoldable pub change_passphrase : Bytes → Bytes → Outside → Store → Outcome (Unit {0})
  change_passphrase old new o s =
      if not s.encrypted
      then (err not_encrypted, s)
      else if s.locked
      then (err locked_wallet, s)
      else if not (bytes_eq s.passphrase old)
      then (err wrong_passphrase, s)
      else if ltb (length new) min_passphrase
      then (err too_short, s)
      else save V o (record s { passphrase = new })
