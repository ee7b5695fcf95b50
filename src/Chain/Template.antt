-- ===== src/Chain/Template.antt =====
-- BuildTemplate of core/chain.go: the unmined block that pays to an address, with the transactions
-- of the highest fees that are next for their senders.
pub mod Body
use cereblix.Prelude.{
  ℕ, zero, suc, ◌+◌, ◌-◌, Bool, true, false, not, ◌&&◌, ◌||◌, Option, none, some, List, [], ◌∷◌,
  ◌++◌, length, ltb, leb, ◌==◌, if◌then◌else◌,
}
use cereblix.Prelude.Bytes.{Bytes, codes, bytes_eq, bytes_ltb}
use cereblix.Prelude.Text.{itoa}
use cereblix.Prelude.Word.{add64}
use cereblix.Prelude.Map.{Map, lookup, insert}
use cereblix.Prelude.Result.{Result, ok, err}
use cereblix.Types.Params.{max_block_txs, max_future_drift, min_fee_height, block_subsidy}
use cereblix.Types.Crypto.{Crypto}
use cereblix.Types.Tx.{Tx, TxError, valid_addr, tx_id, from_addr}
use cereblix.Types.Block.{Block, block_hash, compute_tx_root, target_to_hex}
use cereblix.Ledger.{
  State, get_account, credit, debit, immature_coinbase, validate_tx_against_state,
}
use cereblix.Consensus.Upgrade.{node_consensus_version, coinbase_tag_prefix}
use cereblix.Consensus.Target.{median_time}
use cereblix.Chain.Caches.{Caches, sig_pre_verified, expected_target_ro, min_fee_for_ro}
use cereblix.Chain.Validate.{last_block}
use cereblix.Chain.Pool.{txs_or_empty}
use cereblix.Chain.Preverify.{sort_by_nonce}
use cereblix.Chain.Record.{Chain}

pub data TemplateError : Type 0 where
  bad_coinbase median_too_far : TemplateError

-- coinbaseTag
unfoldable pub coinbase_tag : Bytes
coinbase_tag = coinbase_tag_prefix ++ itoa node_consensus_version

-- What a template is chosen against: the signature memo, the fee floor, the immature rewards and the
-- height.
pub record Rules : Type 0 where
  pub verified : Bytes → Bool
  pub floor : ℕ
  pub immature : Bytes → ℕ
  pub height : ℕ

abbrev passes : Result TxError (Unit {0}) → Bool
passes (ok _) = true
passes (err _) = false

-- `for i < len(s) && s[i].Nonce < nonce`
unfoldable pub skip_stale : ℕ → List Tx → List Tx
skip_stale nonce [] = []
skip_stale nonce (t ∷ ts) =
    let rest = skip_stale nonce ts in if ltb t.nonce nonce then rest else t ∷ ts

unfoldable pub skip_all : State → Map (List Tx) → Map (List Tx)
unfolding skip_stale
skip_all st [] = []
skip_all st ((from, s) ∷ m) = (from, skip_stale (get_account st from).nonce s) ∷ skip_all st m

abbrev rest_of : List Tx → List Tx
rest_of [] = []
rest_of (_ ∷ ts) = ts

-- idx[bestFrom]++
unfoldable pub consume : Bytes → Map (List Tx) → Map (List Tx)
consume k [] = []
consume k ((from, s) ∷ m) =
    if bytes_eq from k then (from, rest_of s) ∷ m else (from, s) ∷ consume k m

module _ (C : Crypto) where
  abbrev group_tx : Result TxError Bytes → Tx → Map (List Tx) → Map (List Tx)
  group_tx (err _) t m = m
  group_tx (ok from) t m = insert from (txs_or_empty (lookup from m) ++ t ∷ []) m

  -- bySender, over the entries of the mempool
  unfoldable pub group_txs : Map Tx → Map (List Tx) → Map (List Tx)
  group_txs [] m = m
  group_txs ((_, t) ∷ rest) m = group_txs rest (group_tx (from_addr C t) t m)

  unfoldable pub sort_lists : Map (List Tx) → Map (List Tx)
  sort_lists [] = []
  sort_lists ((from, s) ∷ m) = (from, sort_by_nonce s) ∷ sort_lists m

  -- the tests of a sender's next transaction
  unfoldable pub is_eligible : Rules → State → Bytes → Tx → Bool
  is_eligible r st from t =
      t.nonce == (get_account st from).nonce
      && (leb r.floor t.fee
          && passes (validate_tx_against_state C (r.verified (tx_id C t)) st t r.immature r.height))

  abbrev beats : Tx → Option (Bytes × Tx) → Bool
  beats t none = true
  beats t (some (_, best)) =
      ltb best.fee t.fee || (t.fee == best.fee && bytes_ltb (tx_id C t) (tx_id C best))

  abbrev next_best : Rules → State → Bytes → List Tx → Option (Bytes × Tx) → Option (Bytes × Tx)
  next_best r st from [] best = best
  next_best r st from (t ∷ _) best =
      if is_eligible r st from t && beats t best then some (from, t) else best

  -- the loop over the senders
  unfoldable pub find_best :
      Rules → State → Map (List Tx) → Option (Bytes × Tx) → Option (Bytes × Tx)
  unfolding is_eligible
  find_best r st [] best = best
  find_best r st ((from, s) ∷ m) best = find_best r st m (next_best r st from s best)

  abbrev pay : State → Bytes → Tx → State
  pay st from t = credit (debit st from (add64 t.amount t.fee)) t.to t.amount

  -- `for len(picked) < MaxBlockTxs-1`, with the rounds that are left
  unfoldable pub pick : ℕ → Rules → State → Map (List Tx) → List Tx
  unfolding find_best skip_all consume
  pick zero r st m = []
  pick (suc rounds) r st m =
      let m' = skip_all st m in
      elim (find_best r st m' none) [
        | none ↦ []
        | some (from, t) ↦ t ∷ pick rounds r (pay st from t) (consume from m')
      ]

  unfoldable pub sum_fees64 : ℕ → List Tx → ℕ
  sum_fees64 acc [] = acc
  sum_fees64 acc (t ∷ ts) = sum_fees64 (add64 acc t.fee) ts

  unfoldable pub template_rules : Chain → Rules
  template_rules c =
      let height = length c.blocks in
      record {
        verified = sig_pre_verified c.caches.sig_ok height;
        floor = if leb min_fee_height height then min_fee_for_ro C c.blocks c.caches else 0;
        immature = immature_coinbase c.blocks height;
        height = height;
      }

  unfoldable pub picked_txs : Chain → List Tx
  unfolding pick group_txs sort_lists template_rules
  picked_txs c =
      pick (max_block_txs - 1) (template_rules c) c.state (sort_lists (group_txs c.pool.mempool []))

  abbrev hash_or_empty : Option Block → Bytes
  hash_or_empty none = []
  hash_or_empty (some b) = block_hash C b

  -- BuildTemplate; `clock` is time.Now().Unix()
  unfoldable pub build_template : Bytes → ℕ → Chain → Result TemplateError Block
  unfolding picked_txs sum_fees64
  build_template coinbase clock c =
      let height = length c.blocks in
      let picked = picked_txs c in
      let cb : Tx = record {
        from_pub = [];
        to = coinbase;
        amount = add64 (block_subsidy height) (sum_fees64 0 picked);
        fee = 0;
        nonce = height;
        sig = coinbase_tag;
      } in
      let mt = median_time c.blocks in
      let now = if leb clock mt then add64 mt 1 else clock in
      let built : Block = record {
        version = 1;
        height = height;
        time = now;
        prev_hash = hash_or_empty (last_block c.blocks);
        tx_root = compute_tx_root C (cb ∷ picked);
        target = target_to_hex (expected_target_ro c.blocks c.caches);
        nonce = 0;
        txs = cb ∷ picked;
      } in
      if not (valid_addr coinbase)
      then err bad_coinbase
      else if ltb (clock + max_future_drift) now
      then err median_too_far
      else ok built
