-- ===== src/Node/Round/Ends.antt =====
-- A sync with a peer, in node/node.go: it ends, and it takes the chain along the steps of the chain
-- engine.
use mathlib.Core.Path.{subst}
use mathlib.Core.Option.{some-injective}
use cereblix.Prelude.{
  sym, All-append, ℕ, zero, suc, ◌+◌, ◌*◌, ◌≤◌, ◌<◌, ◌≡◌, inl, inr, refl, arith, Bool, true, false,
  not, ◌&&◌, ◌||◌, Option, none, some, List, [], ◌∷◌, All, length, ltb, leb, Bool-cases,
  Option-cases,
}
use cereblix.Prelude.Bytes.{Bytes}
use cereblix.Prelude.Word.{u64_mod, add64_exact}
use cereblix.Prelude.Result.{Result, ok, err}
use cereblix.Types.Crypto.{Crypto}
use cereblix.Types.Block.{Block}
use cereblix.Chain.Validate.{BlockError}
use cereblix.Chain.History.{BlockTyped}
use cereblix.Chain.Reach.{Reachable}
use cereblix.Node.{Node, TipInfo, Remote, Surroundings}
use cereblix.Node.Peers.{mark_peer, peer_result, is_doomed, drop_peer, health_of, is_protected_seed}
use cereblix.Node.Tip.{Signed, Verdict, ignore, push_tip, pursue, more_than, same_as}
use cereblix.Node.Ancestor.{Search, flaky, mismatch, found}
use cereblix.Node.Round.{
  Fetch, adopt, finish, fetch, fetch_from, act_on, sync_once, sync_with_peer, is_none_or_empty,
  or_empty, healthy_reject, is_empty, extended, adopt_chunk, usable, after_adopt, height_of,
  continue_from, lesser, tip_seen,
}
use cereblix.Node.Ancestor.Ends.{search-ends, Within}
use cereblix.Node.Round.Kept.{Kept, Kept-trans, Kept-refl, adopt-Kept}

reply-nonempty :
    (reply : Option (List Block)) → is_none_or_empty reply ≡ false → 0 < length (or_empty reply)
reply-nonempty none e = cc
reply-nonempty (some []) e = cc
reply-nonempty (some (b ∷ bs)) e = omega arith

reply-typed :
    (reply : Option (List Block))
    → ((bs : List Block) → reply ≡ some bs → All BlockTyped bs)
    → All BlockTyped (or_empty reply)
reply-typed none typed = tt
reply-typed (some bs) typed = typed bs refl

reply-room :
    (reply : Option (List Block)) (n : ℕ)
    → ((bs : List Block) → reply ≡ some bs → n + length bs < u64_mod)
    → 0 < length (or_empty reply)
    → n + length (or_empty reply) < u64_mod
reply-room none n room some_more = absurd (omega (arith, some_more))
reply-room (some bs) n room some_more = room bs refl

-- a part of the sync, as it ends
abbrev Ended : Crypto → Node → Option (Bool × Node) → Type 0
Ended C n o = (answered : Bool) × (n' : Node) × (o ≡ some (answered, n')) × Kept C n.chain n'.chain

module _ (C : Crypto) (peer : Bytes) (remote : Remote) (env : Surroundings) where
  -- the next height and any batch of the peer still fit a uint64
  abbrev pub HasRoom : ℕ → Type 0
  HasRoom height =
      (k from : ℕ) (bs : List Block)
      → remote.blocks k from ≡ some bs
      → height + 1 + length bs < u64_mod

  usable-Ended :
      (done : Bool) (n : Node) (out : Result BlockError (Unit {0}) × Node)
      → Kept C n.chain out.1.chain
      → Ended C n (some (usable done out))
  usable-Ended done n (ok u, n') k = (done, n', refl, k)
  usable-Ended done n (err e, n') k = (healthy_reject e, n', refl, k)

  finish-Ended :
      (k : ℕ) (their : TipInfo) (truncated : Bool) (f : Fetch) (n : Node)
      → All BlockTyped f.pending
      → Reachable C n.chain
      → Ended C n (some (finish C peer remote env k their truncated f n))
  unfolding finish
  finish-Ended k their truncated f n typed r =
      let out = adopt C peer remote env k their (not truncated) f n in
      let kept = adopt-Kept C peer remote env k their (not truncated) f n typed r in
      elim (Bool-cases (is_empty f.pending)) [
        | inl e ↦ rw (finish, e) (not truncated, n, refl, Kept-refl C r)
        | inr e ↦ rw (finish, e) (usable-Ended (not truncated) n out kept)
      ]

  Ended-later :
      (n n' : Node) (o : Option (Bool × Node))
      → Kept C n.chain n'.chain
      → Ended C n' o
      → Ended C n o
  Ended-later n n' o k (answered, n'', e, l) = (answered, n'', e, Kept-trans C k l)

  after_adopt-Ended :
      (complete : Bool) (n : Node) (out : Result BlockError (Unit {0}) × Node)
      (next : Node → Option (Bool × Node))
      → Kept C n.chain out.1.chain
      → (complete ≡ false → (n' : Node) → Reachable C n'.chain → Ended C n' (next n'))
      → Ended C n (after_adopt complete out next)
  after_adopt-Ended complete n (err e, n') next k on = (healthy_reject e, n', refl, k)
  after_adopt-Ended true n (ok _, n') next k on = (true, n', refl, k)
  after_adopt-Ended false n (ok _, n') next k on =
      Ended-later n n' (next n') k (on refl n' k.reachable)

  fetch-Ended :
      ((k from : ℕ) (bs : List Block) → remote.blocks k from ≡ some bs → All BlockTyped bs)
      → (k : ℕ) (their : TipInfo) (is_reorg : Bool) (f : Fetch) (n : Node) → HasRoom their.height
      → f.from ≤ their.height + 1
      → their.height + 1 < k + f.from
      → 0 < k
      → All BlockTyped f.pending
      → Reachable C n.chain
      → Ended C n (fetch C peer remote env k their is_reorg f n)
  unfolding fetch
  fetch-Ended sends zero their is_reorg f n room at_most fuel more typed r = absurd (omega arith)
  fetch-Ended sends (suc k) their is_reorg f n room at_most fuel more typed r =
      let reply = remote.blocks k f.from in
      let f' = extended C peer remote env f (or_empty reply) in
      let typed' =
        All-append BlockTyped f.pending (or_empty reply) typed
          (reply-typed reply (sends k f.from)) in
      let complete = ltb their.height f'.from in
      let kept = adopt-Kept C peer remote env k their complete f' n typed' r in
      elim (Bool-cases (is_none_or_empty reply)) [
        | inl e ↦ rw (fetch, e) (finish-Ended k their (leb f.from their.height) f n typed r)
        | inr e ↦
            let some_more = reply-nonempty reply e in
            let fits = reply-room reply (their.height + 1) (room k f.from) some_more in
            let exact : f'.from ≡ f.from + length (or_empty reply) =
              add64_exact f.from (length (or_empty reply)) (omega (arith, at_most, fits)) in
            elim (Bool-cases (complete || (not is_reorg && leb adopt_chunk (length f'.pending)))) [
              | inr g ↦
                  let on : f'.from ≤ their.height = ground arith in
                  rw (fetch, e, g)
                    (fetch-Ended sends k their is_reorg f' n room (omega (arith, on))
                      (omega (arith, fuel, some_more, exact))
                      (omega (arith, fuel, some_more, on, exact)) typed' r)
              | inl g ↦
                  rw (fetch, e, g)
                    (after_adopt-Ended complete n (adopt C peer remote env k their complete f' n) _
                      kept
                      (λ goes_on n' r'.
                        let on : f'.from ≤ their.height = ground arith in
                        fetch-Ended sends k their is_reorg _ n' room (omega (arith, on))
                          (omega (arith, fuel, some_more, exact))
                          (omega (arith, fuel, some_more, on, exact)) tt r'))
            ]
      ]

  fetch_from-Ended :
      ((k from : ℕ) (bs : List Block) → remote.blocks k from ≡ some bs → All BlockTyped bs)
      → (their : TipInfo) (w : Signed) (anc : ℕ) (n : Node) → HasRoom their.height
      → anc ≤ their.height
      → Reachable C n.chain
      → Ended C n (fetch_from C peer remote env their w anc n)
  unfolding fetch_from
  fetch_from-Ended sends their w anc n room below r =
      elim (Bool-cases (not (more_than w n.chain.cum_work) && not (same_as w n.chain.cum_work))) [
        | inl e ↦ rw (fetch_from, e) (true, n, refl, Kept-refl C r)
        | inr e ↦
            rw (fetch_from, e)
              (fetch-Ended sends (their.height + 2) their (ltb anc (height_of n.chain)) _ n room
                (omega (arith, below)) (omega arith) (omega arith) tt r)
      ]

  continue_from-Ended :
      ((k from : ℕ) (bs : List Block) → remote.blocks k from ≡ some bs → All BlockTyped bs)
      → (their : TipInfo) (w : Signed) (o : Option Search) (n : Node) → HasRoom their.height
      → (s : Search) × (o ≡ some s) × Within their.height s
      → Reachable C n.chain
      → Ended C n (continue_from C peer remote env their w o n)
  continue_from-Ended sends their w none n room (s, e, _) r = absurd cc
  continue_from-Ended sends their w (some flaky) n room e r = (false, n, refl, Kept-refl C r)
  continue_from-Ended sends their w (some mismatch) n room e r = (true, n, refl, Kept-refl C r)
  continue_from-Ended sends their w (some (found anc)) n room (s, e, within) r =
      fetch_from-Ended sends their w anc n room
        (subst (Within their.height) (sym (some-injective _ _ e)) within) r

  act_on-Ended :
      ((k from : ℕ) (bs : List Block) → remote.blocks k from ≡ some bs → All BlockTyped bs)
      → (their : TipInfo) (v : Verdict) (n : Node) → HasRoom their.height
      → 2 * length n.chain.blocks < u64_mod
      → Reachable C n.chain
      → Ended C n (act_on C peer remote env their v n)
  unfolding act_on
  act_on-Ended sends their ignore n room small r = (true, n, refl, Kept-refl C r)
  act_on-Ended sends their push_tip n room small r = (true, n, refl, Kept-refl C r)
  act_on-Ended sends their (pursue w) n room small r =
      let hi = lesser C peer remote env their.height (height_of n.chain) in
      let le : hi ≤ height_of n.chain = ground arith in
      let below : hi ≤ their.height = ground arith in
      elim (Bool-cases (is_doomed n peer their.hash)) [
        | inl e ↦ rw (act_on, e) (true, n, refl, Kept-refl C r)
        | inr e ↦
            rw (act_on, e)
              (continue_from-Ended sends their w _ n room
                (search-ends C n.chain remote.hash_at their.height (hi + 2) 0 hi 0 below
                  (omega arith) (omega (arith, le, small)) (omega arith) (omega arith))
                r)
      ]

  sync_once-Ended :
      ((k from : ℕ) (bs : List Block) → remote.blocks k from ≡ some bs → All BlockTyped bs)
      → ((their : TipInfo) → remote.tip ≡ some their → HasRoom their.height)
      → (now : ℕ) (n : Node) → 2 * length n.chain.blocks < u64_mod
      → Reachable C n.chain
      → Ended C n (sync_once C peer remote env now n)
  unfolding sync_once mark_peer
  sync_once-Ended sends room now n small r = elim (Option-cases remote.tip) [
    | inl e ↦ rw (sync_once, e) (false, n, refl, Kept-refl C r)
    | inr (their, e) ↦
        let n' = tip_seen C peer remote env now n in
        rw (sync_once, e) (act_on-Ended sends their _ n' (room their e) small r)
  ]

  peer_result-chain :
      (answered : Bool) (now : ℕ) (n : Node) → (peer_result peer answered now n).chain ≡ n.chain
  unfolding peer_result drop_peer
  peer_result-chain true now n = refl
  peer_result-chain false now n =
      elim (Bool-cases (leb 20 ((health_of n peer).fails + 1) && not (is_protected_seed n peer))) [
        | inl e ↦ rw (peer_result, e) refl
        | inr e ↦ rw (peer_result, e) refl
      ]

  -- Whatever a peer answers, as long as it sends blocks whose numbers are uint64 and announces a
  -- height that leaves room in a uint64 for the next one and each batch it sends, an attempt to sync
  -- with it ends, on a chain that a fresh node can reach and that, where no reorg penalty is set, has
  -- no less work than before.
  pub sync_with_peer-ends :
      (now later : ℕ) (n : Node)
      → ((k from : ℕ) (bs : List Block) → remote.blocks k from ≡ some bs → All BlockTyped bs)
      → ((their : TipInfo) → remote.tip ≡ some their → HasRoom their.height)
      → 2 * length n.chain.blocks < u64_mod
      → Reachable C n.chain
      → (n' : Node) × (sync_with_peer C peer remote env now later n ≡ some n')
        × Reachable C n'.chain
        × (n.chain.limits.reorg_penalty_permille ≡ 0 → n.chain.cum_work ≤ n'.chain.cum_work)
  unfolding sync_with_peer
  sync_with_peer-ends now later n sends room small r =
      let (answered, n', e, k) = sync_once-Ended sends room now n small r in
      let same = peer_result-chain answered later n' in
      let n'' = peer_result peer answered later n' in
      (n'', rw (sync_with_peer, e) refl, rw same k.reachable, rw same k.work)
