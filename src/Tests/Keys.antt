-- ===== src/Tests/Keys.antt =====
-- The key store of the desktop wallet at concrete inputs.
use mathlib.Core.Path.{subst}
use cereblix.Prelude.{ℕ, suc, ◌≡◌, ◌<◌, refl, zero, true, some, [], ◌∷◌, replicate, arith, length}
use cereblix.Prelude.Bytes.{Bytes, codes}
use cereblix.Tests.{toy}
use cereblix.Wallet.{Store, Vault, Outside, absent, KeyEntry, empty_store, load_store, lock}
use cereblix.Wallet.Seal.{save, sealed_file}
use cereblix.Wallet.Keys.{create}
use cereblix.Wallet.Locked.{begun, continued, create_step, lock_step, IsShut, Session-IsShut}
use cereblix.Wallet.Sealed.{AreBytes, Reopens, save-Reopens}

abbrev main_key : KeyEntry
main_key = record { label = codes "main"; priv = codes "00"; addr = codes "crb1" }

-- It seals every text to one byte, and reads one key from every text.
abbrev vault : Vault
vault = record {
  hmac_sha256 = λ k m. m;
  gcm_seal = λ k n p. 1 ∷ [];
  gcm_open = λ k n c. some [];
  marshal = λ ks. [];
  unmarshal = λ b. some (main_key ∷ []);
  public_of = λ priv. priv;
  from_seed = λ seed. seed;
  sign = λ priv m. m;
  verify = λ key m sig. true;
}

abbrev system : Outside
system = record {
  mkdir_ok = true;
  salt = some (replicate 16 5);
  nonce = some (replicate 12 6);
  write_ok = true;
}

abbrev unsaved : Store
unsaved = record (empty_store absent) {
  encrypted = true;
  keys = main_key ∷ [];
  passphrase = codes "correct horse";
}

replicate-AreBytes : (n x : ℕ) → x < 256 → AreBytes (replicate n x)
replicate-AreBytes zero x h = tt
replicate-AreBytes (suc n) x h = (h, replicate-AreBytes n x h)

random_size :
    (n x : ℕ)
    → x < 256
    → length (replicate n x) ≡ n
    → (b : Bytes) → some (replicate n x) ≡ some b
    → (length b ≡ n) × AreBytes b
random_size n x h size b e =
    let same : replicate n x ≡ b = cc in
    subst (λ b. (length b ≡ n) × AreBytes b) same (size, replicate-AreBytes n x h)

save-Reopens_example : Reopens vault (codes "correct horse") (save vault system unsaved).1
unfolding save sealed_file
save-Reopens_example =
    save-Reopens vault unsaved (λ k n. refl) (λ k n. (omega arith, tt)) (λ k n. omega arith) refl
      system (random_size 16 5 (omega arith) refl) (random_size 12 6 (omega arith) refl) refl refl
      refl

abbrev created_store : Store
created_store =
    (create vault toy (codes "correct horse") (some (replicate 64 1)) system (empty_store absent)).1

Session-IsShut_example : IsShut (lock created_store)
unfolding load_store
Session-IsShut_example = Session-IsShut vault toy (
    continued
      (continued (begun absent refl)
        (create_step (codes "correct horse") (some (replicate 64 1)) system (empty_store absent)))
      (lock_step created_store))
