-- ===== src/Chain/Admit/Replace.antt =====
-- Replacement by fee in AddTx of core/chain.go.
use mathlib.Core.Path.{subst}
use cereblix.Prelude.{
  [], ◌∷◌, ◌==◌, ◌&&◌, ◌⊎◌, ◌↔◌, refl, ap, sym, ◌∙◌, true, false, ℕ, ◌+◌, ◌/◌, ◌≤◌, ◌<◌, ◌≡◌, some,
  arith, ltb, Bool-cases, inl, inr,
}
use cereblix.Prelude.Bytes.{Bytes, bytes_eq_iff}
use cereblix.Prelude.Word.{u64_mod}
use cereblix.Prelude.Map.{Map, lookup}
use cereblix.Prelude.Result.{Result, ok, err}
use cereblix.Types.Crypto.{Crypto}
use cereblix.Types.Tx.{Tx, TxError, is_coinbase, tx_id, from_addr, sender, address_or_empty}
use cereblix.Chain.Record.{Chain}
use cereblix.Chain.Admit.{same_slot, find_rival, replacement_min_fee, is_found, add_tx}

replacement_min_fee-lem :
    (old : ℕ)
    → old + old / 10 + 1 < u64_mod
    → (old < replacement_min_fee old) × (old + old / 10 ≤ replacement_min_fee old)
unfolding replacement_min_fee
replacement_min_fee-lem old small = ground arith

-- an entry of the mempool, with its id
unfoldable pub IsPending : Bytes × Tx → Map Tx → Type 0
IsPending e [] = ⊥
IsPending e (x ∷ xs) = (e ≡ x) ⊎ IsPending e xs

module _ (C : Crypto) where
  -- a transaction of the sender and nonce, as the code compares them
  abbrev pub HasSlot : Bytes → ℕ → Tx → Type 0
  HasSlot from nonce m = (m.nonce ≡ nonce) × (sender C m ≡ from)

  slot_iff :
      (from : Bytes) (nonce : ℕ) (m : Tx)
      → ((m.nonce == nonce && same_slot C (from_addr C m) from) ≡ true) ↔ HasSlot from nonce m
  unfolding sender
  slot_iff from nonce m = by_sender (from_addr C m)
    where
      by_sender :
          (r : Result TxError Bytes)
          → ((m.nonce == nonce && same_slot C r from) ≡ true)
            ↔ ((m.nonce ≡ nonce) × (address_or_empty C r ≡ from))
      by_sender (ok a) = ground (arith, bytes_eq_iff a from)
      by_sender (err e) = ground (arith, bytes_eq_iff [] from)

  -- a pending transaction in the slot is found, if none else is there
  find_rival-finds :
      (from : Bytes) (nonce : ℕ) (id : Bytes) (m : Tx) (pending : Map Tx)
      → IsPending (id, m) pending
      → HasSlot from nonce m
      → ((id' : Bytes) (m' : Tx) → IsPending (id', m') pending → HasSlot from nonce m' → m' ≡ m)
      → (id' : Bytes) × (find_rival C from nonce pending ≡ some (id', m))
  unfolding find_rival IsPending
  find_rival-finds from nonce id m [] here slot alone = absurd here
  find_rival-finds from nonce id m ((j, x) ∷ rest) here slot alone =
      elim (Bool-cases (x.nonce == nonce && same_slot C (from_addr C x) from)) [
        | inl taken ↦ (
          j,
          rw taken (ap (λ y. some (j, y)) (alone j x (inl refl) ((slot_iff from nonce x).0 taken))),
        )
        | inr free ↦ elim here [
          | inl e ↦
              let at_slot : HasSlot from nonce x =
                subst (HasSlot from nonce) (ap (λ y. y.1) e) slot in
              let clash : true ≡ false = sym ((slot_iff from nonce x).1 at_slot) ∙ free in absurd cc
          | inr later ↦
              let (id', found) =
                find_rival-finds from nonce id m rest later slot (λ i y p s. alone i y (inr p) s) in
              (id', rw free found)
        ]
      ]

  add_tx-outbids_found :
      (t : Tx) (c : Chain) {from id : Bytes} {m : Tx}
      → from_addr C t ≡ ok from
      → find_rival C from t.nonce c.pool.mempool ≡ some (id, m)
      → m.fee + m.fee / 10 + 1 < u64_mod
      → (add_tx C t c).0 ≡ ok tt
      → (m.fee < t.fee) × (m.fee + m.fee / 10 ≤ t.fee)
  unfolding add_tx
  add_tx-outbids_found t c {from} {id} {m} addressed rival small added =
      elim (Bool-cases (is_coinbase t)) [
        | inl mined ↦ absurd (ground (arith, rw mined at added))
        | inr plain ↦ elim (Bool-cases (is_found C (lookup (tx_id C t) c.pool.mempool))) [
          | inl known ↦ absurd (ground (arith, rw (plain, known) at added))
          | inr new ↦ elim (Bool-cases (ltb t.fee (replacement_min_fee m.fee))) [
            | inl low ↦ absurd (ground (arith, rw (plain, new, addressed, rival, low) at added))
            | inr enough ↦
                let (more, tenth) = replacement_min_fee-lem m.fee small in
                (ground arith, ground arith)
          ]
        ]
      ]

  -- A transaction with a sender's address that AddTx takes, while one transaction of the same sender
  -- and nonce is pending, anywhere in the mempool, with a fee low enough that a tenth on top does not
  -- wrap around, pays strictly more than the pending one, by a tenth at least.
  pub add_tx-outbids :
      (t : Tx) (c : Chain) (id : Bytes) (m : Tx) {from : Bytes}
      → from_addr C t ≡ ok from
      → IsPending (id, m) c.pool.mempool
      → HasSlot from t.nonce m
      → ((id' : Bytes) (m' : Tx)
          → IsPending (id', m') c.pool.mempool
          → HasSlot from t.nonce m'
          → m' ≡ m)
      → m.fee + m.fee / 10 + 1 < u64_mod
      → (add_tx C t c).0 ≡ ok tt
      → (m.fee < t.fee) × (m.fee + m.fee / 10 ≤ t.fee)
  add_tx-outbids t c id m {from} addressed here slot alone small added =
      let (id', rival) = find_rival-finds from t.nonce id m c.pool.mempool here slot alone in
      add_tx-outbids_found t c addressed rival small added
