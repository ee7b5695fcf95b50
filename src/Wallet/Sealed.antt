-- ===== src/Wallet/Sealed.antt =====
-- The key store of desktop/store.go comes back from its file: what save seals, unlock opens.
use mathlib.Core.Path.{subst}
use cereblix.Prelude.{
  ℕ, ◌+◌, ◌*◌, ◌/◌, ◌%◌, ◌<◌, ◌≡◌, refl, sym, ap, ◌∙◌, Bool, true, false, not, Option, none, some,
  [], ◌∷◌, All, length, ◌==◌, if◌then◌else◌, if_keeps, arith,
}
use cereblix.Prelude.Bytes.{Bytes}
use cereblix.Prelude.Text.{hex_encode, hex_decode, hex_scan, hex_digit, hex_value}
use cereblix.Prelude.Result.{Result, ok}
use cereblix.Wallet.{
  Store, Vault, Outside, file, FileFormat, WalletError, kdf_iters, opened_file, empty_store, lock,
  load_store,
}
use cereblix.Wallet.Seal.{save, unlock, sealed_file, decrypt_keys, pbkdf2, seal_with}

abbrev pub AreBytes : Bytes → Type 0
AreBytes = All (λ b. b < 256)

hex_value-hex_digit : (n : ℕ) → n < 16 → hex_value (hex_digit n) ≡ some n
unfolding hex_value hex_digit
hex_value-hex_digit n h = ground arith

hex_scan-hex_encode : (s : Bytes) → AreBytes s → hex_scan (hex_encode s) ≡ (s, true)
unfolding hex_scan hex_encode
hex_scan-hex_encode [] h = refl
hex_scan-hex_encode (b ∷ s) h =
    let whole : 16 * (b / 16) + b % 16 ≡ b = omega arith in
    rw
      (
        hex_value-hex_digit (b / 16) (omega (arith, h.0)),
        hex_value-hex_digit (b % 16) (omega arith),
        hex_scan-hex_encode s h.1,
      )
      (ap (λ x. (x ∷ s, true)) whole)

hex_decode-hex_encode : (s : Bytes) → AreBytes s → hex_decode (hex_encode s) ≡ some s
unfolding hex_decode
hex_decode-hex_encode s h = rw (hex_scan-hex_encode s h) refl

-- The passphrase unlocks the store after it was locked, and after its file was read again.
abbrev pub Reopens : Vault → Bytes → Store → Type 0
Reopens V pass s =
    (unlock V pass (lock s) ≡ (ok true, s))
    × ((t : Store) × (load_store s.disk ≡ ok t) × (unlock V pass t ≡ (ok true, s)))

module _ (V : Vault) (s : Store)
    (opens : (k n : Bytes)
      → V.gcm_open k n (V.gcm_seal k n (V.marshal s.keys)) ≡ some (V.marshal s.keys))
    (sealed_bytes : (k n : Bytes) → AreBytes (V.gcm_seal k n (V.marshal s.keys)))
    (tagged : (k n : Bytes) → 0 < length (V.gcm_seal k n (V.marshal s.keys)))
    (parses : V.unmarshal (V.marshal s.keys) ≡ some s.keys) (o : Outside)
    (salt_size : (b : Bytes) → o.salt ≡ some b → (length b ≡ 16) × AreBytes b)
    (nonce_size : (b : Bytes) → o.nonce ≡ some b → (length b ≡ 12) × AreBytes b) where
  decrypt_keys-sealed_file :
      (salt nonce : Bytes)
      → o.salt ≡ some salt
      → o.nonce ≡ some nonce
      → decrypt_keys V (sealed_file V s salt nonce) s.passphrase ≡ ok s.keys
  unfolding decrypt_keys sealed_file
  decrypt_keys-sealed_file salt nonce es en =
      let key = pbkdf2 V s.passphrase salt kdf_iters 32 in
      let ct = V.gcm_seal key nonce (V.marshal s.keys) in
      let some_tag : (length ct == 0) ≡ false = not_zero (length ct) (tagged key nonce) in
      rw
        (
          hex_decode-hex_encode salt (salt_size salt es).1,
          (salt_size salt es).0,
          hex_decode-hex_encode nonce (nonce_size nonce en).1,
          (nonce_size nonce en).0,
          hex_decode-hex_encode ct (sealed_bytes key nonce),
          some_tag,
          opens key nonce,
          parses,
        )
        refl
    where
      not_zero : (n : ℕ) → 0 < n → (n == 0) ≡ false
      not_zero n h = ground arith

  abbrev pub saved : FileFormat → Store
  saved ff = record s { enc = some ff; exists = true; disk = file ff }

  -- what a successful save of an encrypted store has done
  save-Sealed :
      s.encrypted ≡ true
      → (save V o s).0 ≡ ok tt
      → (salt : Bytes) × (nonce : Bytes) × (o.salt ≡ some salt)
        × (o.nonce ≡ some nonce)
        × ((save V o s).1 ≡ saved (sealed_file V s salt nonce))
  unfolding save
  save-Sealed e done =
      if_keeps Goal (not o.mkdir_ok) _ _ (λ _ h. cc)
        (λ _.
          if_keeps Goal (not s.encrypted) _ _
            (λ plain h. let clash : true ≡ false = sym e ∙ not_true s.encrypted plain in absurd cc)
            λ _.
              if_keeps Goal (length s.passphrase == 0) _ _ (λ _ h. cc)
                λ _ h. by_random o.salt o.nonce refl refl h)
        done
    where
      Goal : Result WalletError (Unit {0}) × Store → Type 0
      Goal out =
          out.0 ≡ ok tt
          → (salt : Bytes) × (nonce : Bytes) × (o.salt ≡ some salt)
            × (o.nonce ≡ some nonce)
            × (out.1 ≡ saved (sealed_file V s salt nonce))

      not_true : (b : Bool) → not b ≡ true → b ≡ false
      not_true true h = cc
      not_true false h = refl

      by_random : (a b : Option Bytes) → o.salt ≡ a → o.nonce ≡ b → Goal (seal_with V o a b s)
      by_random none b ea eb = λ h. cc
      by_random (some salt) none ea eb = λ h. cc
      by_random (some salt) (some nonce) ea eb =
          if_keeps Goal o.write_ok _ _ (λ _ h. (salt, nonce, ea, eb, refl)) (λ _ h. cc)

  open_Reopens :
      (ff : FileFormat)
      → ff.encrypted ≡ true
      → decrypt_keys V ff s.passphrase ≡ ok s.keys
      → Reopens V s.passphrase (record (saved ff) { encrypted = true; locked = false })
  unfolding unlock lock load_store
  open_Reopens ff sealed opened = (rw opened refl, (opened_file ff, refl, reopened))
    where
      choose : Bool → Store
      choose b =
          if b
          then record (empty_store (file ff)) {
            encrypted = true;
            locked = true;
            enc = some ff;
            exists = true;
          }
          else record (empty_store (file ff)) { keys = ff.keys; exists = true }

      reopened :
          unlock V s.passphrase (opened_file ff)
          ≡ (ok true, record (saved ff) { encrypted = true; locked = false })
      reopened = ap (unlock V s.passphrase) (ap choose sealed) ∙ rw opened refl

  is_sealed : (salt nonce : Bytes) → (sealed_file V s salt nonce).encrypted ≡ true
  unfolding sealed_file
  is_sealed salt nonce = refl

  -- When AES-GCM opens what it sealed, with a tag and in bytes, JSON parses the keys it wrote, and the
  -- salt has 16 random bytes and the nonce 12: after a successful save of an open, encrypted store, the
  -- passphrase unlocks it again from memory, and from the file after a restart, to the same store.
  pub save-Reopens :
      s.encrypted ≡ true
      → s.locked ≡ false
      → (save V o s).0 ≡ ok tt
      → Reopens V s.passphrase (save V o s).1
  save-Reopens sealed is_open done =
      let (salt, nonce, es, en, e) = save-Sealed sealed done in
      let ff = sealed_file V s salt nonce in
      let again : record (saved ff) { encrypted = true; locked = false } ≡ saved ff =
        λ i. record (saved ff) { encrypted = sym sealed i; locked = sym is_open i } in
      subst (Reopens V s.passphrase) (again ∙ sym e)
        (open_Reopens ff (is_sealed salt nonce) (decrypt_keys-sealed_file salt nonce es en))
