-- ===== src/Node/Round.antt =====
-- node/node.go: one attempt to sync with a peer. Between its requests the node's own chain is left
-- alone: what other rounds do meanwhile is a step of theirs, before or after. `Remote` gives the
-- peer's answers, by the number of the request, counted down.
pub mod Kept
pub mod Ends
use cereblix.Prelude.{
  ℕ, zero, suc, ◌+◌, ◌-◌, Bool, true, false, not, ◌&&◌, ◌||◌, Option, none, some, List, [], ◌∷◌,
  ◌++◌, length, ltb, leb, if◌then◌else◌,
}
use cereblix.Prelude.Bytes.{Bytes}
use cereblix.Prelude.Word.{add64}
use cereblix.Prelude.Result.{Result, ok, err}
use cereblix.Types.Crypto.{Crypto}
use cereblix.Types.Block.{Block, block_hash}
use cereblix.Chain.Record.{Chain}
use cereblix.Chain.Validate.{last_block, BlockError, insufficient_work, reorg_too_deep}
use cereblix.Chain.Adopt.{try_adopt_chain}
use cereblix.Chain.Preverify.{pre_verify_pow, pre_verify_sigs}
use cereblix.Node.{Node, TipInfo, Remote, Surroundings}
use cereblix.Node.Tip.{classify, ignore, push_tip, pursue, more_than, same_as, Verdict, Signed}
use cereblix.Node.Ancestor.{search, Search, flaky, mismatch, found}
use cereblix.Node.Peers.{mark_peer, peer_result, note_doomed, is_doomed}

abbrev pub adopt_chunk : ℕ
adopt_chunk = 256

-- healthyReject, on the errors whose messages it looks for
abbrev pub healthy_reject : BlockError → Bool
healthy_reject insufficient_work = true
healthy_reject reorg_too_deep = true
healthy_reject _ = false

abbrev pub lacks_work : BlockError → Bool
lacks_work insufficient_work = true
lacks_work _ = false

abbrev pub height_of : Chain → ℕ
height_of c = length c.blocks - 1

abbrev pub tip_hash_of : Crypto → Chain → Bytes
tip_hash_of C c = elim (last_block c.blocks) [ none ↦ [] | some b ↦ block_hash C b ]

-- the variables of the fetching loop
pub record Fetch : Type 0 where
  pub anc : ℕ
  pub from : ℕ
  pub pending : List Block

abbrev pub is_none_or_empty : Option (List Block) → Bool
is_none_or_empty none = true
is_none_or_empty (some []) = true
is_none_or_empty (some (_ ∷ _)) = false

abbrev pub or_empty : Option (List Block) → List Block
or_empty none = []
or_empty (some bs) = bs

abbrev pub is_empty : List Block → Bool
is_empty [] = true
is_empty (_ ∷ _) = false

abbrev pub usable : Bool → Result BlockError (Unit {0}) × Node → Bool × Node
usable done (ok _, n) = (done, n)
usable done (err e, n) = (healthy_reject e, n)

-- after `adopt` in the loop: to return, or to go on
abbrev pub after_adopt :
    Bool
    → Result BlockError (Unit {0}) × Node
    → (Node → Option (Bool × Node))
    → Option (Bool × Node)
after_adopt complete (err e, n) next = some (healthy_reject e, n)
after_adopt true (ok _, n) next = some (true, n)
after_adopt false (ok _, n) next = next n

module _ (C : Crypto) (peer : Bytes) (remote : Remote) (env : Surroundings) where
  abbrev pub set_chain : Chain → Node → Node
  set_chain c n = record n { chain = c }

  abbrev pub prepared : Fetch → Chain → Chain
  prepared f c = pre_verify_sigs C (f.anc + 1) f.pending (pre_verify_pow C (f.anc + 1) f.pending c)

  abbrev pub note_losing : Bool → TipInfo → BlockError → Node → Node
  note_losing complete their e n =
      if complete && lacks_work e then note_doomed peer their.hash n else n

  unfoldable pub settle :
      Bool
      → TipInfo
      → Node
      → Result BlockError (Unit {0}) × Chain
      → Result BlockError (Unit {0}) × Node
  unfolding note_doomed
  settle complete their n (ok u, c) = (ok u, set_chain c n)
  settle complete their n (err e, c) = (err e, note_losing complete their e (set_chain c n))

  -- the closure `adopt`, at the request with the number `k`
  unfoldable pub adopt : ℕ → TipInfo → Bool → Fetch → Node → Result BlockError (Unit {0}) × Node
  unfolding pre_verify_pow pre_verify_sigs try_adopt_chain settle
  adopt k their complete f n =
      settle complete their n
        (try_adopt_chain C (f.anc + 1) f.pending (env.now k) (env.disk_ok k) (prepared f n.chain))

  -- after the loop
  unfoldable pub finish : ℕ → TipInfo → Bool → Fetch → Node → Bool × Node
  finish k their truncated f n =
      if is_empty f.pending
      then (not truncated, n)
      else usable (not truncated) (adopt k their (not truncated) f n)

  abbrev pub extended : Fetch → List Block → Fetch
  extended f batch = record {
    anc = f.anc;
    from = add64 f.from (length batch);
    pending = f.pending ++ batch;
  }

  -- the loop over the batches
  unfoldable pub fetch : ℕ → TipInfo → Bool → Fetch → Node → Option (Bool × Node)
  fetch zero their is_reorg f n = none
  fetch (suc k) their is_reorg f n =
      let reply = remote.blocks k f.from in
      let f' = extended f (or_empty reply) in
      let complete = ltb their.height f'.from in
      elim (is_none_or_empty reply) [
        | true ↦ some (finish k their (leb f.from their.height) f n)
        | false ↦ elim (complete || (not is_reorg && leb adopt_chunk (length f'.pending))) [
          | false ↦ fetch k their is_reorg f' n
          | true ↦ after_adopt complete (adopt k their complete f' n) λ n'.
              fetch k their is_reorg
                (record { anc = height_of n'.chain; from = f'.from; pending = [] }) n'
        ]
      ]

  -- from the common ancestor on
  unfoldable pub fetch_from : TipInfo → Signed → ℕ → Node → Option (Bool × Node)
  fetch_from their their_work anc n =
      if not (more_than their_work n.chain.cum_work) && not (same_as their_work n.chain.cum_work)
      then some (true, n)
      else fetch (their.height + 2) their (ltb anc (height_of n.chain))
          (record { anc = anc; from = anc + 1; pending = [] }) n

  abbrev pub continue_from : TipInfo → Signed → Option Search → Node → Option (Bool × Node)
  continue_from their w none n = none
  continue_from their w (some flaky) n = some (false, n)
  continue_from their w (some mismatch) n = some (true, n)
  continue_from their w (some (found anc)) n = fetch_from their w anc n

  abbrev pub lesser : ℕ → ℕ → ℕ
  lesser a b = if ltb a b then a else b

  -- from the verdict on
  unfoldable pub act_on : TipInfo → Verdict → Node → Option (Bool × Node)
  act_on their ignore n = some (true, n)
  act_on their push_tip n = some (true, n)
  act_on their (pursue w) n =
      let hi = lesser their.height (height_of n.chain) in
      if is_doomed n peer their.hash
      then some (true, n)
      else continue_from their w (search C remote.hash_at n.chain (hi + 2) 0 hi 0) n

  abbrev pub tip_seen : ℕ → Node → Node
  tip_seen now n = mark_peer peer true now n

  -- syncWithPeerOnce: whether the peer was usable, and the node then. The tip that it may push to the
  -- peer is no change of the node.
  unfoldable pub sync_once : ℕ → Node → Option (Bool × Node)
  sync_once now n = elim remote.tip [
    | none ↦ some (false, n)
    | some their ↦
        let n' = tip_seen now n in
        act_on their (classify their n'.chain.cum_work (tip_hash_of C n'.chain)) n'
  ]

  abbrev with_result : ℕ → Option (Bool × Node) → Option Node
  with_result now none = none
  with_result now (some (answered, n)) = some (peer_result peer answered now n)

  -- syncWithPeer
  unfoldable pub sync_with_peer : ℕ → ℕ → Node → Option Node
  sync_with_peer now later n = with_result later (sync_once now n)
