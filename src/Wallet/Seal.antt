-- ===== src/Wallet/Seal.antt =====
-- desktop/store.go: what seals the key store on disk, and what opens it.
use cereblix.Prelude.{
  ℕ, zero, suc, ◌+◌, ◌-◌, ◌/◌, Bool, true, false, not, ◌||◌, Option, none, some, List, [], ◌++◌,
  take, length, ltb, leb, ◌==◌, if◌then◌else◌,
}
use cereblix.Prelude.Bytes.{Bytes, codes}
use cereblix.Prelude.Text.{hex_encode, hex_decode, be_bytes}
use cereblix.Prelude.Result.{Result, ok, err, ◌>>=◌}
use cereblix.Prelude.Exec.{Exec}
use cereblix.Wallet.{
  Store, Vault, Outside, FileFormat, KeyEntry, WalletError, io_error, no_passphrase, bad_salt,
  bad_nonce, bad_cipher, bad_iter, wrong_passphrase, bad_keys, nothing_sealed, kdf_iters,
  max_kdf_iters, file, xor_blocks,
}

-- a hex field that has to be whole, and to satisfy a test
abbrev pub field_of : (Bytes → Bool) → WalletError → Option Bytes → Result WalletError Bytes
field_of good e none = err e
field_of good e (some b) = if good b then ok b else err e

abbrev pub or_error : {A : Type 0} → WalletError → Option A → Result WalletError A
or_error e none = err e
or_error e (some a) = ok a

module _ (V : Vault) where
  -- the further rounds of one block of pbkdf2: U, and the XOR T of the sums
  unfoldable pub rounds : ℕ → Bytes → Bytes → Bytes → Bytes
  unfolding xor_blocks
  rounds zero password u t = t
  rounds (suc n) password u t =
      let u' = V.hmac_sha256 password u in rounds n password u' (xor_blocks t u')

  unfoldable pub blocks_of : ℕ → ℕ → Bytes → Bytes → ℕ → Bytes
  unfolding rounds
  blocks_of zero block password salt iter = []
  blocks_of (suc n) block password salt iter =
      let u = V.hmac_sha256 password (salt ++ be_bytes 4 block) in
      rounds (iter - 1) password u u ++ blocks_of n (block + 1) password salt iter

  -- pbkdf2
  unfoldable pub pbkdf2 : Bytes → Bytes → ℕ → ℕ → Bytes
  unfolding blocks_of
  pbkdf2 password salt iter key_len =
      take key_len (blocks_of ((key_len + 31) / 32) 1 password salt iter)

  abbrev pub effective_iter : ℕ → ℕ
  effective_iter iter = if iter == 0 then kdf_iters else iter

  abbrev pub check_iter : ℕ → Result WalletError ℕ
  check_iter iter = if ltb iter 1 || ltb max_kdf_iters iter then err bad_iter else ok iter

  -- decryptKeys
  unfoldable pub decrypt_keys : FileFormat → Bytes → Result WalletError (List KeyEntry)
  decrypt_keys ff pass = do
    salt ← field_of (λ b. leb 16 (length b)) bad_salt (hex_decode ff.salt)
    nonce ← field_of (λ b. length b == 12) bad_nonce (hex_decode ff.nonce)
    ct ← field_of (λ b. not (length b == 0)) bad_cipher (hex_decode ff.cipher)
    iter ← check_iter (effective_iter ff.iter)
    plain ← or_error wrong_passphrase (V.gcm_open (pbkdf2 pass salt iter 32) nonce ct)
    or_error bad_keys (V.unmarshal plain)

  -- the file of an encrypted wallet
  unfoldable pub sealed_file : Store → Bytes → Bytes → FileFormat
  sealed_file s salt nonce = record {
    version = 1;
    encrypted = true;
    kdf = codes "pbkdf2-sha256";
    iter = kdf_iters;
    salt = hex_encode salt;
    nonce = hex_encode nonce;
    cipher =
        hex_encode (V.gcm_seal (pbkdf2 s.passphrase salt kdf_iters 32) nonce (V.marshal s.keys));
    keys = [];
  }

  abbrev pub plain_file : Store → FileFormat
  plain_file s = record {
    version = 1;
    encrypted = false;
    kdf = [];
    iter = 0;
    salt = [];
    nonce = [];
    cipher = [];
    keys = s.keys;
  }

  abbrev pub write_file : Outside → FileFormat → Exec Store WalletError (Unit {0})
  write_file o ff s =
      if o.write_ok then (ok tt, record s { exists = true; disk = file ff }) else (err io_error, s)

  abbrev pub seal_with : Outside → Option Bytes → Option Bytes → Exec Store WalletError (Unit {0})
  seal_with o none _ s = (err io_error, s)
  seal_with o (some salt) none s = (err io_error, s)
  seal_with o (some salt) (some nonce) s =
      let ff = sealed_file s salt nonce in write_file o ff (record s { enc = some ff })

  -- save
  unfoldable pub save : Outside → Exec Store WalletError (Unit {0})
  save o s =
      if not o.mkdir_ok
      then (err io_error, s)
      else if not s.encrypted
      then write_file o (plain_file s) s
      else if length s.passphrase == 0
      then (err no_passphrase, s)
      else seal_with o o.salt o.nonce s

  abbrev pub unlocked_with :
      Bytes → Result WalletError (List KeyEntry) → Exec Store WalletError Bool
  unlocked_with passphrase (err e) s = (ok false, s)
  unlocked_with passphrase (ok keys) s =
      (ok true, record s { keys = keys; passphrase = passphrase; locked = false })

  abbrev pub unlock_sealed : Bytes → Option FileFormat → Exec Store WalletError Bool
  unlock_sealed passphrase none s = (err nothing_sealed, s)
  unlock_sealed passphrase (some ff) s = unlocked_with passphrase (decrypt_keys ff passphrase) s

  -- unlock
  unfoldable pub unlock : Bytes → Exec Store WalletError Bool
  unlock passphrase s =
      if not s.encrypted
      then (ok true, record s { locked = false })
      else if not s.locked
      then (ok true, s)
      else unlock_sealed passphrase s.enc s
