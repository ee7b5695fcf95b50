-- ===== src/Node/Round/Kept.antt =====
-- What `adopt` in syncWithPeerOnce of node/node.go keeps of the chain.
use cereblix.Prelude.{
  ℕ, ◌+◌, ◌-◌, ◌*◌, ◌^◌, ◌<◌, ◌∙◌, ◌≤◌, ◌≡◌, inl, inr, refl, ap, arith, Bool, true, false, ◌&&◌,
  ◌||◌, List, All, length, ltb, if◌then◌else◌, ◌==◌, Bool-cases,
}
use cereblix.Prelude.Bytes.{Bytes}
use cereblix.Prelude.Result.{Result, ok, err}
use cereblix.Types.Crypto.{Crypto}
use cereblix.Types.Block.{Block}
use cereblix.Chain.Record.{Chain, sum_work}
use cereblix.Chain.Validate.{BlockError}
use cereblix.Chain.Adopt.{try_adopt_chain}
use cereblix.Chain.Adopt.Derived.{IsDerived}
use cereblix.Chain.Adopt.Outcome.{try_adopt_chain-Outcome}
use cereblix.Chain.Adopt.Safety.{try_adopt_chain-work}
use cereblix.Chain.History.{BlockTyped}
use cereblix.Chain.Preverify.{pre_verify_pow, pre_verify_sigs}
use cereblix.Chain.Reach.{
  Reachable, stepped, candidate_step, pow_step, sigs_step, Reachable-IsSound,
}
use cereblix.Node.{Node, TipInfo, Remote, Surroundings}
use cereblix.Node.Peers.{note_doomed}
use cereblix.Node.Round.{Fetch, adopt, prepared, set_chain, settle, lacks_work}

-- the chain is still one that a fresh node can reach, and unless a reorg penalty is set it has no
-- less work
pub record Kept (C : Crypto) (c c' : Chain) : Type 0 where
  pub reachable : Reachable C c'
  pub work : c.limits.reorg_penalty_permille ≡ 0 → c.cum_work ≤ c'.cum_work
  pub limits : c'.limits ≡ c.limits

module _ (C : Crypto) where
  pub Kept-trans : {a b c : Chain} → Kept C a b → Kept C b c → Kept C a c
  Kept-trans k l = record {
    reachable = l.reachable;
    work = λ free.
        omega (arith, k.work free, l.work (ap (λ x. x.reorg_penalty_permille) k.limits ∙ free));
    limits = l.limits ∙ k.limits;
  }

  pub Kept-refl : {c : Chain} → Reachable C c → Kept C c c
  Kept-refl r = record { reachable = r; work = λ _. omega arith; limits = refl }

  try_adopt_chain-limits :
      (start : ℕ) (nb : List Block) (now : ℕ) (disk_ok : Bool) (c : Chain)
      → IsDerived C c
      → (try_adopt_chain C start nb now disk_ok c).1.limits ≡ c.limits
  try_adopt_chain-limits start nb now disk_ok c d =
      elim (try_adopt_chain-Outcome C start nb now disk_ok c d) [
        | inl (f, k, refused) ↦ rw refused refl
        | inr (result, a) ↦ a.limits
      ]

  no_penalty : (depth permille : ℕ) → permille ≡ 0 → depth * permille < 2 ^ 63
  no_penalty depth permille free = rw free (omega arith)

  try_adopt_chain-Kept :
      (start : ℕ) (nb : List Block) (now : ℕ) (disk_ok : Bool) (c : Chain)
      → All BlockTyped nb
      → Reachable C c
      → Kept C c (try_adopt_chain C start nb now disk_ok c).1
  try_adopt_chain-Kept start nb now disk_ok c typed r =
      let r' = stepped r (candidate_step start nb now disk_ok c typed) in
      let d = (Reachable-IsSound C r).derived in
      let d' = (Reachable-IsSound C r').derived in
      record {
        reachable = r';
        work = λ free.
            elim (try_adopt_chain-work C start nb now disk_ok c d
              (no_penalty (length c.blocks - start) c.limits.reorg_penalty_permille free)) [
                | inl same ↦
                    let as_before : sum_work (try_adopt_chain C start nb now disk_ok c).1.blocks
                        ≡ sum_work c.blocks =
                      ap sum_work same in
                    omega (arith, d.cum_work, as_before, d'.cum_work)
                | inr (inl more) ↦ omega (arith, more)
                | inr (inr (same, _)) ↦ omega (arith, same)
              ];
        limits = try_adopt_chain-limits start nb now disk_ok c d;
      }

module _ (C : Crypto) (peer : Bytes) (remote : Remote) (env : Surroundings) where
  settle-chain :
      (complete : Bool) (their : TipInfo) (n : Node) (out : Result BlockError (Unit {0}) × Chain)
      → (settle C peer remote env complete their n out).1.chain ≡ out.1
  unfolding settle note_doomed
  settle-chain complete their n (ok u, c) = refl
  settle-chain complete their n (err e, c) = by_memo (complete && lacks_work e)
    where
      by_memo :
          (noted : Bool)
          → (if noted
              then note_doomed peer their.hash (set_chain C peer remote env c n)
              else set_chain C peer remote env c n).chain
            ≡ c
      by_memo true = refl
      by_memo false = refl

  pow-work :
      (start : ℕ) (nb : List Block) (c : Chain)
      → (pre_verify_pow C start nb c).cum_work ≡ c.cum_work
  unfolding pre_verify_pow
  pow-work start nb c =
      elim (Bool-cases (start == 0 || (length nb == 0 || ltb (length c.blocks) start))) [
        | inl idle ↦ rw idle refl
        | inr busy ↦ rw busy refl
      ]

  sigs-work :
      (start : ℕ) (nb : List Block) (c : Chain)
      → (pre_verify_sigs C start nb c).cum_work ≡ c.cum_work
  unfolding pre_verify_sigs
  sigs-work start nb c = elim (Bool-cases (start == 0 || length nb == 0)) [
    | inl idle ↦ rw idle refl
    | inr busy ↦ rw busy refl
  ]

  pow-limits :
      (start : ℕ) (nb : List Block) (c : Chain) → (pre_verify_pow C start nb c).limits ≡ c.limits
  unfolding pre_verify_pow
  pow-limits start nb c =
      elim (Bool-cases (start == 0 || (length nb == 0 || ltb (length c.blocks) start))) [
        | inl idle ↦ rw idle refl
        | inr busy ↦ rw busy refl
      ]

  sigs-limits :
      (start : ℕ) (nb : List Block) (c : Chain) → (pre_verify_sigs C start nb c).limits ≡ c.limits
  unfolding pre_verify_sigs
  sigs-limits start nb c = elim (Bool-cases (start == 0 || length nb == 0)) [
    | inl idle ↦ rw idle refl
    | inr busy ↦ rw busy refl
  ]

  prepared-Kept :
      (f : Fetch) (c : Chain) → Reachable C c → Kept C c (prepared C peer remote env f c)
  prepared-Kept f c r =
      let r' =
        stepped (stepped r (pow_step (f.anc + 1) f.pending c))
          (sigs_step (f.anc + 1) f.pending _) in
      let sigs = sigs-work (f.anc + 1) f.pending (pre_verify_pow C (f.anc + 1) f.pending c) in
      record {
        reachable = r';
        work = λ _. omega (arith, sigs, pow-work (f.anc + 1) f.pending c);
        limits =
            sigs-limits (f.anc + 1) f.pending (pre_verify_pow C (f.anc + 1) f.pending c)
            ∙ pow-limits (f.anc + 1) f.pending c;
      }

  pub adopt-Kept :
      (k : ℕ) (their : TipInfo) (complete : Bool) (f : Fetch) (n : Node)
      → All BlockTyped f.pending
      → Reachable C n.chain
      → Kept C n.chain (adopt C peer remote env k their complete f n).1.chain
  unfolding adopt
  adopt-Kept k their complete f n typed r =
      let c = prepared C peer remote env f n.chain in
      let before = prepared-Kept f n.chain r in
      let after =
        try_adopt_chain-Kept C (f.anc + 1) f.pending (env.now k) (env.disk_ok k) c typed
          before.reachable in
      rw
        (settle-chain complete their n
          (try_adopt_chain C (f.anc + 1) f.pending (env.now k) (env.disk_ok k) c))
        (Kept-trans C before after)
