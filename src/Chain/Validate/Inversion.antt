-- ===== src/Chain/Validate/Inversion.antt =====
-- What an accepted block has been checked for.
use cereblix.Prelude.{
  ℕ, ◌<◌, ◌≡◌, refl, sym, Bool, true, false, some, List, [], ◌∷◌, All, length, arith, ltb,
}
use mathlib.Core.Path.{subst}
use cereblix.Prelude.Bytes.{Bytes, bytes_eq, bytes_eq→eq}
use cereblix.Prelude.Word.{IsU64, add64}
use cereblix.Prelude.Result as R
use cereblix.Prelude.Result.{Result, ok, err}
use cereblix.Prelude.Exec.{>>=-eq-ok}
use cereblix.Types.Params.{block_subsidy}
use cereblix.Types.Crypto.{Crypto}
use cereblix.Types.Tx.{Tx, is_coinbase, tx_id, sender}
use cereblix.Types.Block.{Block, total_fees, block_hash, compute_tx_root}
use cereblix.Consensus.Target.{median_time}
use cereblix.Ledger.{State, immature_coinbase, credit, debit, validate_tx_against_state}
use cereblix.Ledger.Supply.{IsCovered, validate_tx-IsCovered}
use cereblix.Chain.Caches.{contains, sig_pre_verified, Caches, Limits}
use cereblix.Chain.Validate.Checks.{as_block_error, extra_coinbase, duplicate_tx, fee_below_minimum}
use cereblix.Chain.Validate.{
  last_block, checkpoint_at, check_header, check_coinbase, check_txs, body_of, check_body,
  validate_context, validate_block,
}

-- The body's transactions, each covered by the state that the ones before it leave.
pub data Covered (C : Crypto) : State → List Tx → Type 0 where
  none_left : {work : State} → Covered C work []
  next :
      {work : State} {t : Tx} {ts : List Tx}
      → is_coinbase t ≡ false
      → IsCovered C work t
      → Covered C (credit (debit work (sender C t) (add64 t.amount t.fee)) t.to t.amount) ts
      → Covered C work (t ∷ ts)

-- The numbers of a transaction are uint64.
pub record IsTyped (t : Tx) : Type 0 where
  pub amount : IsU64 t.amount
  pub fee : IsU64 t.fee

as_block_error-ok : (r : Result _ (Unit {0})) {u : Unit {0}} → as_block_error r ≡ ok u → r ≡ ok tt
as_block_error-ok (ok u) h = refl
as_block_error-ok (err e) h = cc

module _ (C : Crypto) where
  pub check_txs-Covered :
      (pre : Bytes → Bool) (minfee : ℕ) (imm : Bytes → ℕ) (height : ℕ) (seen : List Bytes)
      (work : State) (ts : List Tx) {out : State}
      → All IsTyped ts
      → check_txs C pre minfee imm height seen work ts ≡ ok out
      → Covered C work ts
  unfolding check_txs
  check_txs-Covered pre minfee imm height seen work [] typed h = none_left
  check_txs-Covered pre minfee imm height seen work (t ∷ ts) typed h =
      let work' = credit (debit work (sender C t) (add64 t.amount t.fee)) t.to t.amount in
      let rest = check_txs C pre minfee imm height (tx_id C t ∷ seen) work' ts in
      let valid =
        as_block_error (validate_tx_against_state C (pre (tx_id C t)) work t imm height) in
      let (plain, h1) = R.reject_if-ok (is_coinbase t) extra_coinbase _ h in
      let (fresh, h2) = R.reject_if-ok (contains (tx_id C t) seen) duplicate_tx _ h1 in
      let (paid, h3) = R.reject_if-ok (ltb t.fee minfee) fee_below_minimum _ h2 in
      let (u, accepted, later) = R.>>=-eq-ok valid (λ _. rest) h3 in
      next plain
        (validate_tx-IsCovered C (pre (tx_id C t)) work t imm height typed.0.amount typed.0.fee
          (as_block_error-ok _ accepted))
        (check_txs-Covered pre minfee imm height (tx_id C t ∷ seen) work' ts typed.1 later)

  -- The coinbase of an accepted block: it stands first and pays the subsidy and the fees.
  pub record PaysReward (b : Block) (cb : Tx) : Type 0 where
    pub first : is_coinbase cb ≡ true
    pub nonce : cb.nonce ≡ b.height
    pub amount : cb.amount ≡ add64 (block_subsidy b.height) (total_fees b)

  pub check_coinbase-PaysReward :
      (b : Block) (txs : List Tx) {u : Unit {0}}
      → check_coinbase C b txs ≡ ok u
      → (cb : Tx) × (rest : List Tx) × (txs ≡ cb ∷ rest)
        × PaysReward b cb
        × (b.tx_root ≡ compute_tx_root C txs)
  unfolding check_coinbase
  check_coinbase-PaysReward b [] h = cc
  check_coinbase-PaysReward b (cb ∷ rest) h =
      let root : bytes_eq b.tx_root (compute_tx_root C (cb ∷ rest)) ≡ true = ground arith in
      (cb, rest, refl, ground arith, bytes_eq→eq _ _ root)

-- An accepted block, next after `prefix`, whose transactions run on the state `st`.
pub record IsAccepted (C : Crypto) (prefix : List Block) (st : State) (b : Block) : Type 0 where
  pub height : b.height ≡ length prefix
  pub prev : Block
  pub tip : last_block prefix ≡ some prev
  pub linked : b.prev_hash ≡ block_hash C prev
  pub later : median_time prefix < b.time
  pub root : b.tx_root ≡ compute_tx_root C b.txs
  pub cb : Tx
  pub rest : List Tx
  pub split : b.txs ≡ cb ∷ rest
  pub reward : PaysReward C b cb
  pub covered : Covered C st rest

All-body_of : (txs : List Tx) → All IsTyped txs → All IsTyped (body_of txs)
All-body_of [] h = tt
All-body_of (t ∷ ts) h = h.1

module _ (C : Crypto) (lim : Limits) (prefix : List Block) (st : State) (b : Block) (now : ℕ) where
  header-height :
      (prev : Block) {u : Unit {0}}
      → check_header C lim prefix prev b now ≡ ok u
      → b.height ≡ length prefix
  unfolding check_header
  header-height prev h = ground arith

  header-linked :
      (prev : Block) {u : Unit {0}}
      → check_header C lim prefix prev b now ≡ ok u
      → b.prev_hash ≡ block_hash C prev
  unfolding check_header
  header-linked prev h =
      let same : bytes_eq b.prev_hash (block_hash C prev) ≡ true = ground arith in
      bytes_eq→eq _ _ same

  header-later :
      (prev : Block) {u : Unit {0}}
      → check_header C lim prefix prev b now ≡ ok u
      → median_time prefix < b.time
  unfolding check_header
  header-later prev h = ground arith

  header-checkpoint :
      (prev : Block) {u : Unit {0}} {hash : Bytes}
      → check_header C lim prefix prev b now ≡ ok u
      → checkpoint_at b.height lim.checkpoints ≡ some hash
      → block_hash C b ≡ hash
  unfolding check_header
  header-checkpoint prev {u} {hash} h at_height =
      let same : bytes_eq hash (block_hash C b) ≡ true = ground (arith, at_height) in
      sym (bytes_eq→eq _ _ same)

  context_parts :
      (k : Caches) {minfee : ℕ}
      → (validate_context C lim prefix b now k).0 ≡ ok minfee
      → (prev : Block) × (last_block prefix ≡ some prev)
        × (check_header C lim prefix prev b now ≡ ok tt)
        × (check_coinbase C b b.txs ≡ ok tt)
  unfolding validate_context
  context_parts k h = ground arith

  check_body-Covered :
      (minfee : ℕ) (k : Caches) {out : State}
      → All IsTyped (body_of b.txs)
      → (check_body C prefix st b minfee k).0 ≡ ok out
      → Covered C st (body_of b.txs)
  unfolding check_body
  check_body-Covered minfee k typed h =
      check_txs-Covered C (sig_pre_verified k.sig_ok b.height) minfee
        (immature_coinbase prefix b.height) b.height [] st (body_of b.txs) typed h

  -- A block of uint64 amounts and fees that validateBlock accepts is the next height, links to the
  -- last block by its hash, is later than the median time, commits to its transactions by its tx
  -- root, pays exactly the subsidy and the fees in its coinbase, and has only transactions in nonce
  -- order that the state left by those before them can pay for without wrapping around.
  pub validate_block-IsAccepted :
      (k : Caches) {out : State}
      → All IsTyped b.txs
      → (validate_block C lim prefix st b now k).0 ≡ ok out
      → IsAccepted C prefix st b
  unfolding validate_block
  validate_block-IsAccepted k typed h =
      let (minfee, context, body) =
        >>=-eq-ok (validate_context C lim prefix b now) (λ fee. check_body C prefix st b fee) k h in
      let (prev, tip, header, reward) = context_parts k context in
      let (cb, rest, split, pays, root) = check_coinbase-PaysReward C b b.txs reward in
      let covered : Covered C st (body_of b.txs) =
        check_body-Covered minfee _ (All-body_of b.txs typed) body in
      record {
        height = header-height prev header;
        prev = prev;
        tip = tip;
        linked = header-linked prev header;
        later = header-later prev header;
        root = root;
        cb = cb;
        rest = rest;
        split = split;
        reward = pays;
        covered = subst (λ txs. Covered C st (body_of txs)) split covered;
      }

  -- An accepted block at a checkpoint's height is the checkpoint's block.
  pub validate_block-checkpoint :
      (k : Caches) {out : State} {hash : Bytes}
      → (validate_block C lim prefix st b now k).0 ≡ ok out
      → checkpoint_at (length prefix) lim.checkpoints ≡ some hash
      → block_hash C b ≡ hash
  unfolding validate_block
  validate_block-checkpoint k h cp =
      let (minfee, context, body) =
        >>=-eq-ok (validate_context C lim prefix b now) (λ fee. check_body C prefix st b fee) k h in
      let (prev, tip, header, reward) = context_parts k context in
      header-checkpoint prev header (rw (header-height prev header) cp)
