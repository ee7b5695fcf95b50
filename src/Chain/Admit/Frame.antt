-- ===== src/Chain/Admit/Frame.antt =====
-- What AddTx of core/chain.go leaves alone: it changes the mempool and the memo
-- fields, and enters empty accounts.
use cereblix.Prelude.{
  ◌≡◌, refl, ap, List, ◌∷◌, Option, none, some, ltb, leb, length, Bool-cases, inl, inr,
}
use cereblix.Prelude.Bytes.{Bytes}
use cereblix.Prelude.Map.{lookup}
use cereblix.Prelude.Result.{Result, ok, err, Result-cases}
use cereblix.Types.Params.{min_fee_height}
use cereblix.Types.Crypto.{Crypto}
use cereblix.Types.Tx.{Tx, is_coinbase, tx_id, from_addr, sender, check_sig_at}
use cereblix.Chain.Caches.{Caches, min_fee_for_c}
use cereblix.Chain.Pool.{Pool, mp_add}
use cereblix.Chain.Record.{Chain}
use cereblix.Chain.Admit.{
  PoolError, pool_min_fee, replacement_min_fee, validate_mempool_tx, add_beside, add_if_valid,
  is_found, rival_of, add_tx, touch,
}

-- `c'` differs from `c` in the memo fields and the empty accounts entered at most.
abbrev pub SameButCaches : Chain → Chain → Type 0
SameButCaches c c' = (k : Caches) × (l : List Bytes) × (c' ≡ record c { caches = k; touched = l })

-- `c'` differs from `c` in the mempool, the memo fields and the empty accounts entered at most.
abbrev pub SameButPool : Chain → Chain → Type 0
SameButPool c c' =
    (p : Pool) × (k : Caches) × (l : List Bytes) × (c'
      ≡ record c { pool = p; caches = k; touched = l })

module _ (C : Crypto) where
  pool_min_fee-SameButCaches : (c : Chain) → SameButCaches c (pool_min_fee C c).1
  pool_min_fee-SameButCaches c = elim (Bool-cases (leb min_fee_height (length c.blocks))) [
    | inl on ↦
        ((min_fee_for_c C c.limits.max_reorg_depth c.blocks c.caches).1, c.touched, rw on refl)
    | inr off ↦ (c.caches, c.touched, rw off refl)
  ]

  pub validate_mempool_tx-SameButCaches :
      (t : Tx) (c : Chain) → SameButCaches c (validate_mempool_tx C t c).1
  unfolding validate_mempool_tx
  validate_mempool_tx-SameButCaches t c = elim (Result-cases (check_sig_at C t (length c.blocks))) [
    | inr (f, e) ↦ (c.caches, c.touched, rw e refl)
    | inl (tt, e) ↦
        let (k, l, same) = pool_min_fee-SameButCaches c in
        elim (Result-cases (pool_min_fee C c).0) [
          | inr (f, e2) ↦ (k, l, rw (e, e2) same)
          | inl (fee, e2) ↦ elim (Bool-cases (ltb t.fee fee)) [
            | inl low ↦ (k, l, rw (e, e2, low) same)
            | inr enough ↦ (k, sender C t ∷ l, rw (e, e2, enough) (ap (touch C t) same))
          ]
        ]
  ]

  add_if_valid-SameButPool :
      (t : Tx) (restore : Pool → Pool) (c c' : Chain) (r : Result PoolError (Unit {0}))
      → SameButPool c c'
      → SameButPool c (add_if_valid C t restore (r, c')).1
  add_if_valid-SameButPool t restore c c' (ok u) (p, k, l, e) = (mp_add C t p, k, l, rw e refl)
  add_if_valid-SameButPool t restore c c' (err f) (p, k, l, e) = (restore p, k, l, rw e refl)

  after_validation :
      (t m : Tx) (c : Chain) (p : Pool)
      → SameButPool c (validate_mempool_tx C t (record c { pool = p })).1
  after_validation t m c p =
      let (k, l, e) = validate_mempool_tx-SameButCaches t (record c { pool = p }) in (p, k, l, e)

  add_beside-SameButPool :
      (t : Tx) (o : Option (Bytes × Tx)) (c : Chain) → SameButPool c (add_beside C t o c).1
  add_beside-SameButPool t none c = elim (Bool-cases (ltb 10000 (length c.pool.mempool))) [
    | inl full ↦ (c.pool, c.caches, c.touched, rw full refl)
    | inr room ↦ rw room (add_if_valid-SameButPool t (λ p. p) c _ _ (after_validation t t c c.pool))
  ]
  add_beside-SameButPool t (some (id, m)) c =
      elim (Bool-cases (ltb t.fee (replacement_min_fee m.fee))) [
        | inl low ↦ (c.pool, c.caches, c.touched, rw low refl)
        | inr enough ↦ rw enough (add_if_valid-SameButPool t _ c _ _ (after_validation t m c _))
      ]

  -- AddTx, on success and on every error, changes nothing but the mempool, the memo fields, and the
  -- addresses for which it enters an empty account in the state.
  pub add_tx-SameButPool : (t : Tx) (c : Chain) → SameButPool c (add_tx C t c).1
  unfolding add_tx
  add_tx-SameButPool t c = elim (Bool-cases (is_coinbase t)) [
    | inl mined ↦ (c.pool, c.caches, c.touched, rw mined refl)
    | inr plain ↦ elim (Bool-cases (is_found C (lookup (tx_id C t) c.pool.mempool))) [
      | inl known ↦ (c.pool, c.caches, c.touched, rw (plain, known) refl)
      | inr new ↦
          rw (plain, new) (add_beside-SameButPool t (rival_of C (from_addr C t) t c.pool.mempool) c)
    ]
  ]
