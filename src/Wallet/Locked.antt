-- ===== src/Wallet/Locked.antt =====
-- The lock state of the key store of desktop/store.go, over every sequence of its operations.
use cereblix.Prelude.{
  ◌≡◌, refl, sym, ◌∙◌, true, false, not, ◌||◌, Option, none, some, List, [], length, ltb, ◌==◌,
  if_keeps,
}
use mathlib.Core.Path.{subst}
use cereblix.Prelude.Bytes.{Bytes, codes, bytes_eq}
use cereblix.Prelude.Result.{Result, ok, err, ok_injective}
use cereblix.Types.Crypto.{Crypto}
use cereblix.Types.Tx.{addr_from_pub}
use cereblix.Wallet.{
  Store, Vault, Outside, Disk, absent, unreadable, corrupt, file, FileFormat, KeyEntry, WalletError,
  empty_store, load_store, lock, is_found, find_locked, min_passphrase,
}
use cereblix.Wallet.Seal.{
  save, unlock, seal_with, write_file, unlock_sealed, unlocked_with, decrypt_keys,
}
use cereblix.Wallet.Keys.{
  or_default_label, numbered, new_key, create, add, import_key, encrypt, change_passphrase, Outcome,
  shown, begin_encrypted, key_made, created, added, imported, imported_entry,
}

-- One operation of the wallet: on success or on an error, whatever the system gives.
pub data Step (V : Vault) (C : Crypto) : Store → Store → Type 0 where
  unlock_step : (pass : Bytes) (s : Store) → Step V C s (unlock V pass s).1
  lock_step : (s : Store) → Step V C s (lock s)
  create_step :
      (pass : Bytes) (generated : Option Bytes) (o : Outside) (s : Store)
      → Step V C s (create V C pass generated o s).1
  add_step :
      (label : Bytes) (generated : Option Bytes) (o : Outside) (s : Store)
      → Step V C s (add V C label generated o s).1
  import_step :
      (priv_hex label : Bytes) (o : Outside) (s : Store)
      → Step V C s (import_key V C priv_hex label o s).1
  encrypt_step : (pass : Bytes) (o : Outside) (s : Store) → Step V C s (encrypt V C pass o s).1
  change_step :
      (old new : Bytes) (o : Outside) (s : Store) → Step V C s (change_passphrase V C old new o s).1

-- what a session with the wallet file can reach
pub data Session (V : Vault) (C : Crypto) : Store → Type 0 where
  begun : (disk : Disk) {s : Store} → load_store disk ≡ ok s → Session V C s
  continued : {s s' : Store} → Session V C s → Step V C s s' → Session V C s'

-- A locked store holds no key and no passphrase, and is encrypted.
pub record IsShut (s : Store) : Type 0 where
  pub keys : s.locked ≡ true → s.keys ≡ []
  pub passphrase : s.locked ≡ true → s.passphrase ≡ []
  pub encrypted : s.locked ≡ true → s.encrypted ≡ true

open-IsShut : (s : Store) → s.locked ≡ false → IsShut s
open-IsShut s e = record {
  keys = λ l. let clash : true ≡ false = sym l ∙ e in absurd cc;
  passphrase = λ l. let clash : true ≡ false = sym l ∙ e in absurd cc;
  encrypted = λ l. let clash : true ≡ false = sym l ∙ e in absurd cc;
}

load-IsShut : (disk : Disk) (s : Store) → load_store disk ≡ ok s → IsShut s
unfolding load_store
load-IsShut absent s e = subst IsShut (ok_injective e) (open-IsShut (empty_store absent) refl)
load-IsShut unreadable s e = cc
load-IsShut corrupt s e = cc
load-IsShut (file ff) s e = subst IsShut (ok_injective e) (
    if_keeps IsShut ff.encrypted _ _
      (λ sealed. record { keys = λ l. refl; passphrase = λ l. refl; encrypted = λ l. refl })
      (λ plain. open-IsShut _ refl))

lock-IsShut : (s : Store) → IsShut s → IsShut (lock s)
unfolding lock
lock-IsShut s h =
    if_keeps IsShut s.encrypted _ s
      (λ e. record { keys = λ l. refl; passphrase = λ l. refl; encrypted = λ l. e }) (λ e. h)

-- what keeps an open store open
abbrev KeepsLock : {A : Type 0} → Store → Result WalletError A × Store → Type 0
KeepsLock s out = out.1.locked ≡ s.locked

module _ (V : Vault) where
  write-KeepsLock :
      (o : Outside) (ff : FileFormat) (s s₀ : Store)
      → s.locked ≡ s₀.locked
      → KeepsLock s₀ (write_file V o ff s)
  write-KeepsLock o ff s s₀ e = if_keeps (KeepsLock s₀) o.write_ok _ _ (λ _. e) (λ _. e)

  seal-KeepsLock :
      (o : Outside) (salt nonce : Option Bytes) (s : Store)
      → KeepsLock s (seal_with V o salt nonce s)
  seal-KeepsLock o none _ s = refl
  seal-KeepsLock o (some salt) none s = refl
  seal-KeepsLock o (some salt) (some nonce) s = write-KeepsLock o _ _ s refl

  save-KeepsLock : (o : Outside) (s : Store) → KeepsLock s (save V o s)
  unfolding save
  save-KeepsLock o s =
      if_keeps (KeepsLock s) (not o.mkdir_ok) _ _ (λ _. refl)
        λ _.
          if_keeps (KeepsLock s) (not s.encrypted) _ _ (λ _. write-KeepsLock o _ s s refl)
            λ _.
              if_keeps (KeepsLock s) (length s.passphrase == 0) _ _ (λ _. refl)
                λ _. seal-KeepsLock o o.salt o.nonce s

  unlocked-IsShut :
      (pass : Bytes) (r : Result WalletError (List KeyEntry)) (s : Store)
      → IsShut s
      → IsShut (unlocked_with V pass r s).1
  unlocked-IsShut pass (ok keys) s h = open-IsShut _ refl
  unlocked-IsShut pass (err e) s h = h

  unlock_sealed-IsShut :
      (pass : Bytes) (enc : Option FileFormat) (s : Store)
      → IsShut s
      → IsShut (unlock_sealed V pass enc s).1
  unlock_sealed-IsShut pass none s h = h
  unlock_sealed-IsShut pass (some ff) s h = unlocked-IsShut pass (decrypt_keys V ff pass) s h

  abbrev ShutAfter : {A : Type 0} → Result WalletError A × Store → Type 0
  ShutAfter out = IsShut out.1

  unlock-IsShut : (pass : Bytes) (s : Store) → IsShut s → IsShut (unlock V pass s).1
  unfolding unlock
  unlock-IsShut pass s h =
      if_keeps ShutAfter (not s.encrypted) _ _ (λ _. open-IsShut _ refl)
        λ _. if_keeps ShutAfter (not s.locked) _ _ (λ _. h) λ _. unlock_sealed-IsShut pass s.enc s h

  abbrev IsOpen : Store → Type 0
  IsOpen s = s.locked ≡ false

  save-IsOpen : (o : Outside) (s : Store) → IsOpen s → IsOpen (save V o s).1
  save-IsOpen o s h = save-KeepsLock o s ∙ h

  shown-IsShut :
      (k : KeyEntry) (o : Outside) (s : Store) → IsOpen s → IsShut (shown k (save V o s)).1
  shown-IsShut k o s h = by_outcome (save V o s) (save-IsOpen o s h)
    where
      by_outcome : (out : Outcome (Unit {0})) → out.1.locked ≡ false → IsShut (shown k out).1
      by_outcome (ok _, s) h = open-IsShut s h
      by_outcome (err e, s) h = open-IsShut s h

  module _ (C : Crypto) where
    -- an open store stays open, and a failure leaves the store as it was
    new_key-Kept :
        (label : Bytes) (generated : Option Bytes) (s : Store)
        → let out = new_key V C label generated s in
          (out.1.locked ≡ s.locked) × ((e : WalletError) → out.0 ≡ err e → out.1 ≡ s)
    unfolding new_key
    new_key-Kept label generated s =
        if_keeps {A = Outcome KeyEntry}
          (λ out. (out.1.locked ≡ s.locked) × ((e : WalletError) → out.0 ≡ err e → out.1 ≡ s))
          (is_found (find_locked (or_default_label label (numbered (codes "addr") s.keys)) s.keys))
          _ _ (λ _. (refl, λ e f. refl)) (λ _. by_key generated)
      where
        by_key :
            (generated : Option Bytes)
            → let out =
                key_made V C
                  (or_default_label label (numbered (codes "addr") s.keys))
                  generated
                  s in
              (out.1.locked ≡ s.locked) × ((e : WalletError) → out.0 ≡ err e → out.1 ≡ s)
        by_key none = (refl, λ e f. refl)
        by_key (some priv) = (refl, λ e f. cc)

    create-IsShut :
        (pass : Bytes) (generated : Option Bytes) (o : Outside) (s : Store)
        → IsShut s
        → IsShut (create V C pass generated o s).1
    unfolding create
    create-IsShut pass generated o s h =
        if_keeps (ShutAfter {A = KeyEntry}) (s.exists || ltb 0 (length s.keys)) _ _ (λ _. h)
          λ _.
            if_keeps (ShutAfter {A = KeyEntry}) (ltb (length pass) min_passphrase) _ _ (λ _. h)
              λ _.
                by_key (new_key V C (codes "main") generated s)
                  (new_key-Kept (codes "main") generated s).1
      where
        by_key :
            (out : Outcome KeyEntry)
            → ((e : WalletError) → out.0 ≡ err e → out.1 ≡ s)
            → IsShut (created V C pass o out).1
        by_key (err e, s') same = subst IsShut (sym (same e refl)) h
        by_key (ok k, s') same = shown-IsShut k o (begin_encrypted pass s') refl

    add-IsShut :
        (label : Bytes) (generated : Option Bytes) (o : Outside) (s : Store)
        → IsShut s
        → IsShut (add V C label generated o s).1
    unfolding add
    add-IsShut label generated o s h =
        if_keeps (ShutAfter {A = KeyEntry}) s.locked _ _ (λ _. h)
          λ opened.
            by_key (new_key V C label generated s) ((new_key-Kept label generated s).0 ∙ opened)
      where
        by_key : (out : Outcome KeyEntry) → out.1.locked ≡ false → IsShut (added V C o out).1
        by_key (err e, s') opened = open-IsShut s' opened
        by_key (ok k, s') opened = shown-IsShut k o s' opened

    imported-IsShut :
        (priv_hex label : Bytes) (o : Outside) (r : Result WalletError Bytes) (s : Store)
        → IsOpen s
        → IsShut (imported V C priv_hex label o r s).1
    imported-IsShut priv_hex label o (err e) s h = open-IsShut s h
    imported-IsShut priv_hex label o (ok public) s h =
        if_keeps (ShutAfter {A = KeyEntry}) (is_found (find_locked (addr_from_pub C public) s.keys))
          _ _ (λ _. open-IsShut s h)
          λ _. shown-IsShut (imported_entry V C priv_hex label public s.keys) o _ h

    import-IsShut :
        (priv_hex label : Bytes) (o : Outside) (s : Store)
        → IsShut s
        → IsShut (import_key V C priv_hex label o s).1
    unfolding import_key
    import-IsShut priv_hex label o s h =
        if_keeps (ShutAfter {A = KeyEntry}) s.locked _ _ (λ _. h)
          λ opened. imported-IsShut priv_hex label o _ s opened

    encrypt-IsShut :
        (pass : Bytes) (o : Outside) (s : Store) → IsShut s → IsShut (encrypt V C pass o s).1
    unfolding encrypt
    encrypt-IsShut pass o s h =
        if_keeps (ShutAfter {A = Unit {0}}) s.encrypted _ _ (λ _. h)
          λ _.
            if_keeps (ShutAfter {A = Unit {0}}) (length s.keys == 0) _ _ (λ _. h)
              λ _.
                if_keeps (ShutAfter {A = Unit {0}}) (ltb (length pass) min_passphrase) _ _ (λ _. h)
                  λ _. open-IsShut _ (save-IsOpen o (begin_encrypted pass s) refl)

    change-IsShut :
        (old new : Bytes) (o : Outside) (s : Store)
        → IsShut s
        → IsShut (change_passphrase V C old new o s).1
    unfolding change_passphrase
    change-IsShut old new o s h =
        if_keeps (ShutAfter {A = Unit {0}}) (not s.encrypted) _ _ (λ _. h)
          λ _.
            if_keeps (ShutAfter {A = Unit {0}}) s.locked _ _ (λ _. h)
              λ opened.
                if_keeps (ShutAfter {A = Unit {0}}) (not (bytes_eq s.passphrase old)) _ _ (λ _. h)
                  λ _.
                    if_keeps (ShutAfter {A = Unit {0}}) (ltb (length new) min_passphrase) _ _
                      (λ _. h)
                      λ _. open-IsShut _ (save-IsOpen o (record s { passphrase = new }) opened)

    Step-IsShut : {s s' : Store} → Step V C s s' → IsShut s → IsShut s'
    Step-IsShut (unlock_step pass s) h = unlock-IsShut pass s h
    Step-IsShut (lock_step s) h = lock-IsShut s h
    Step-IsShut (create_step pass generated o s) h = create-IsShut pass generated o s h
    Step-IsShut (add_step label generated o s) h = add-IsShut label generated o s h
    Step-IsShut (import_step priv_hex label o s) h = import-IsShut priv_hex label o s h
    Step-IsShut (encrypt_step pass o s) h = encrypt-IsShut pass o s h
    Step-IsShut (change_step old new o s) h = change-IsShut old new o s h

    -- Whatever the user does in a session, and whatever fails meanwhile, a store that is locked holds no
    -- key and no passphrase in memory, and is an encrypted one.
    pub Session-IsShut : {s : Store} → Session V C s → IsShut s
    Session-IsShut (begun disk e) = load-IsShut disk _ e
    Session-IsShut (continued r st) = Step-IsShut st (Session-IsShut r)
