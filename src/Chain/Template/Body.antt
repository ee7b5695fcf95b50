-- ===== src/Chain/Template/Body.antt =====
-- The body that BuildTemplate chooses would be accepted on the current state.
use cereblix.Prelude.{
  ℕ, zero, suc, ◌-◌, ◌≤◌, ◌≡◌, refl, true, false, ◌&&◌, Option, none, some, List, [], ◌∷◌, ◌++◌,
  All, length, arith, ltb, leb, Bool-cases, Option-cases, inl, inr,
}
use mathlib.Core.Path.{subst}
use cereblix.Prelude.Bytes.{Bytes, bytes_eq, bytes_eq→eq}
use cereblix.Prelude.Map.{Map, lookup, insert}
use cereblix.Prelude.Result.{ok, Result-cases}
use cereblix.Types.Params.{max_block_txs}
use cereblix.Types.Crypto.{Crypto}
use cereblix.Types.Tx.{Tx, is_coinbase, from_addr, sender, tx_id}
use cereblix.Ledger.{State, validate_tx_against_state}
use cereblix.Ledger.Supply.{validate_tx-IsCovered}
use cereblix.Chain.Validate.Inversion.{Covered, none_left, next, IsTyped}
use cereblix.Chain.Pool.{txs_or_empty}
use cereblix.Chain.Preverify.{sort_by_nonce, insert_nonce}
use cereblix.Chain.Record.{Chain}
use cereblix.Chain.Template.{
  Rules, skip_stale, skip_all, rest_of, consume, group_txs, sort_lists, is_eligible, beats,
  next_best, find_best, pay, pick, picked_txs, template_rules,
}

module _ (C : Crypto) where
  -- a transaction in the list of its sender
  abbrev Entry : Bytes → Tx → Type 0
  Entry from t = (from_addr C t ≡ ok from) × IsTyped t

  abbrev Entries : Bytes → List Tx → Type 0
  Entries from s = All (Entry from) s

  abbrev Grouped : Map (List Tx) → Type 0
  Grouped m = All (λ e. Entries e.0 e.1) m

  skip_stale-Entries :
      (from : Bytes) (n : ℕ) (s : List Tx) → Entries from s → Entries from (skip_stale n s)
  unfolding skip_stale
  skip_stale-Entries from n [] h = tt
  skip_stale-Entries from n (t ∷ ts) h = elim (Bool-cases (ltb t.nonce n)) [
    | inl stale ↦ rw stale (skip_stale-Entries from n ts h.1)
    | inr fresh ↦ rw fresh h
  ]

  skip_all-Grouped : (st : State) (m : Map (List Tx)) → Grouped m → Grouped (skip_all st m)
  unfolding skip_all
  skip_all-Grouped st [] h = tt
  skip_all-Grouped st ((from, s) ∷ m) h =
      (skip_stale-Entries from _ s h.0, skip_all-Grouped st m h.1)

  rest_of-Entries : (from : Bytes) (s : List Tx) → Entries from s → Entries from (rest_of s)
  rest_of-Entries from [] h = tt
  rest_of-Entries from (t ∷ ts) h = h.1

  consume-Grouped : (k : Bytes) (m : Map (List Tx)) → Grouped m → Grouped (consume k m)
  unfolding consume
  consume-Grouped k [] h = tt
  consume-Grouped k ((from, s) ∷ m) h = elim (Bool-cases (bytes_eq from k)) [
    | inl here ↦ rw here (rest_of-Entries from s h.0, h.1)
    | inr later ↦ rw later (h.0, consume-Grouped k m h.1)
  ]

  -- a sender's transaction that passed the tests, if there is one
  abbrev Good : Rules → State → Option (Bytes × Tx) → Type 0
  Good r st none = Unit {0}
  Good r st (some (from, t)) = Entry from t × (is_eligible C r st from t ≡ true)

  next_best-Good :
      (r : Rules) (st : State) (from : Bytes) (s : List Tx) (best : Option (Bytes × Tx))
      → Entries from s
      → Good r st best
      → Good r st (next_best C r st from s best)
  next_best-Good r st from [] best h g = g
  next_best-Good r st from (t ∷ ts) best h g =
      elim (Bool-cases (is_eligible C r st from t && beats C t best)) [
        | inl taken ↦ rw taken (h.0, ground arith)
        | inr passed_over ↦ rw passed_over g
      ]

  find_best-Good :
      (r : Rules) (st : State) (m : Map (List Tx)) (best : Option (Bytes × Tx))
      → Grouped m
      → Good r st best
      → Good r st (find_best C r st m best)
  unfolding find_best
  find_best-Good r st [] best h g = g
  find_best-Good r st ((from, s) ∷ m) best h g =
      find_best-Good r st m _ h.1 (next_best-Good r st from s best h.0 g)

  from_addr-sender : (t : Tx) (from : Bytes) → from_addr C t ≡ ok from → sender C t ≡ from
  unfolding sender
  from_addr-sender t from h = rw h refl

  from_addr-plain : (t : Tx) (from : Bytes) → from_addr C t ≡ ok from → is_coinbase t ≡ false
  unfolding from_addr
  from_addr-plain t from h = ground arith

  eligible-valid :
      (r : Rules) (st : State) (from : Bytes) (t : Tx)
      → is_eligible C r st from t ≡ true
      → (r.floor ≤ t.fee)
        × (validate_tx_against_state C (r.verified (tx_id C t)) st t r.immature r.height ≡ ok tt)
  unfolding is_eligible
  eligible-valid r st from t h =
      elim (Result-cases
        (validate_tx_against_state C (r.verified (tx_id C t)) st t r.immature r.height)) [
          | inl (tt, e) ↦ (ground arith, e)
          | inr (f, e) ↦ absurd (ground (arith, e))
        ]

  -- The picked transactions, one after another, are each covered by the state that those before them
  -- leave, and pay the fee floor.
  pick-Covered :
      (rounds : ℕ) (r : Rules) (st : State) (m : Map (List Tx))
      → Grouped m
      → Covered C st (pick C rounds r st m)
        × All (λ t. r.floor ≤ t.fee) (pick C rounds r st m)
        × (length (pick C rounds r st m) ≤ rounds)
  unfolding pick
  pick-Covered zero r st m h = (none_left, tt, omega arith)
  pick-Covered (suc rounds) r st m h =
      let m' = skip_all st m in
      let h' = skip_all-Grouped st m h in
      elim (Option-cases (find_best C r st m' none)) [
        | inl none_fits ↦ rw (pick, none_fits) (none_left, tt, omega arith)
        | inr ((from, t), e) ↦
            let good = subst (Good r st) e (find_best-Good r st m' none h' tt) in
            let same = from_addr-sender t from good.0.0 in
            let (floor, valid) = eligible-valid r st from t good.1 in
            let cov =
              validate_tx-IsCovered C (r.verified (tx_id C t)) st t r.immature r.height
                good.0.1.amount good.0.1.fee valid in
            let (later, floors, size) =
              pick-Covered rounds r (pay C st from t) (consume from m')
                (consume-Grouped from m' h') in
            rw (pick, e)
              (
                next (from_addr-plain t from good.0.0) cov (rw same later),
                (floor, floors),
                omega (arith, size),
              )
      ]

  insert_nonce-Entries :
      (from : Bytes) (t : Tx) (s : List Tx)
      → Entry from t
      → Entries from s
      → Entries from (insert_nonce t s)
  unfolding insert_nonce
  insert_nonce-Entries from t [] e h = (e, tt)
  insert_nonce-Entries from t (u ∷ us) e h = elim (Bool-cases (leb t.nonce u.nonce)) [
    | inl here ↦ rw here (e, h)
    | inr later ↦ rw later (h.0, insert_nonce-Entries from t us e h.1)
  ]

  sort-Entries : (from : Bytes) (s : List Tx) → Entries from s → Entries from (sort_by_nonce s)
  unfolding sort_by_nonce
  sort-Entries from [] h = tt
  sort-Entries from (t ∷ ts) h = insert_nonce-Entries from t _ h.0 (sort-Entries from ts h.1)

  sort_lists-Grouped : (m : Map (List Tx)) → Grouped m → Grouped (sort_lists C m)
  unfolding sort_lists
  sort_lists-Grouped [] h = tt
  sort_lists-Grouped ((from, s) ∷ m) h = (sort-Entries from s h.0, sort_lists-Grouped m h.1)

  lookup-Grouped :
      (k : Bytes) (m : Map (List Tx)) → Grouped m → Entries k (txs_or_empty (lookup k m))
  unfolding lookup
  lookup-Grouped k [] h = tt
  lookup-Grouped k ((from, s) ∷ m) h = elim (Bool-cases (bytes_eq from k)) [
    | inl here ↦ rw here (subst (λ j. Entries j s) (bytes_eq→eq from k here) h.0)
    | inr later ↦ rw later (lookup-Grouped k m h.1)
  ]

  insert-Grouped :
      (k : Bytes) (s : List Tx) (m : Map (List Tx))
      → Entries k s
      → Grouped m
      → Grouped (insert k s m)
  unfolding insert
  insert-Grouped k s [] e h = (e, tt)
  insert-Grouped k s ((from, old) ∷ m) e h = elim (Bool-cases (bytes_eq from k)) [
    | inl here ↦ rw here (e, h.1)
    | inr later ↦ rw later (h.0, insert-Grouped k s m e h.1)
  ]

  append-Entries :
      (from : Bytes) (s : List Tx) (t : Tx)
      → Entries from s
      → Entry from t
      → Entries from (s ++ t ∷ [])
  append-Entries from [] t h e = (e, tt)
  append-Entries from (u ∷ us) t h e = (h.0, append-Entries from us t h.1 e)

  group_txs-Grouped :
      (pending : Map Tx) (m : Map (List Tx))
      → All (λ e. IsTyped e.1) pending
      → Grouped m
      → Grouped (group_txs C pending m)
  unfolding group_txs
  group_txs-Grouped [] m typed h = h
  group_txs-Grouped ((id, t) ∷ rest) m typed h = elim (Result-cases (from_addr C t)) [
    | inr (f, e) ↦ rw e (group_txs-Grouped rest m typed.1 h)
    | inl (from, e) ↦ rw e (
        group_txs-Grouped rest _ typed.1 (
          insert-Grouped from _ m (append-Entries from _ t (lookup-Grouped from m h) (e, typed.0))
            h))
  ]

  -- When the amounts and fees in the mempool are uint64, the transactions that BuildTemplate picks
  -- are at most 199, pay the fee floor, and are each affordable and next in nonce order on the
  -- state that the current state and those before them give.
  pub picked_txs-Covered :
      (c : Chain)
      → All (λ e. IsTyped e.1) c.pool.mempool
      → Covered C c.state (picked_txs C c)
        × All (λ t. (template_rules C c).floor ≤ t.fee) (picked_txs C c)
        × (length (picked_txs C c) ≤ 199)
  unfolding picked_txs
  picked_txs-Covered c typed =
      pick-Covered (max_block_txs - 1) (template_rules C c) c.state _
        (sort_lists-Grouped _ (group_txs-Grouped c.pool.mempool [] typed tt))
