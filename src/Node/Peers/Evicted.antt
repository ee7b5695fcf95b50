-- ===== src/Node/Peers/Evicted.antt =====
-- peerResult of node/node.go: when a peer is dropped, and how long it is left alone.
use cereblix.Prelude.{
  ℕ, ◌+◌, ◌≤◌, ◌≡◌, ◌≢◌, ◌↔◌, refl, sym, ◌∙◌, arith, Bool, true, false, not, ◌&&◌, none, some, leb,
  Bool-cases, inl, inr,
}
use cereblix.Prelude.Bytes.{Bytes, bytes_eq, bytes_eq_iff, bytes_eq_refl}
use cereblix.Prelude.Map.{Map, lookup, erase, lookup-erase}
use cereblix.Node.{Node}
use cereblix.Node.Peers.{peer_result, drop_peer, is_protected_seed, health_of}

abbrev evicts : Node → Bytes → Bool
evicts n p = leb 20 ((health_of n p).fails + 1) && not (is_protected_seed n p)

lookup-erased : {V : Type 0} (p : Bytes) (m : Map V) → lookup p (erase p m) ≡ none
lookup-erased p m = ground (arith, lookup-erase p p m, bytes_eq_refl p)

lookup-erase_other :
    {V : Type 0} (p q : Bytes) (m : Map V) → p ≢ q → lookup q (erase p m) ≡ lookup q m
lookup-erase_other p q m other = elim (Bool-cases (bytes_eq p q)) [
  | inl same ↦ absurd (other ((bytes_eq_iff p q).0 same))
  | inr apart ↦ lookup-erase p q m ∙ rw apart refl
]

gone_iff :
    (p : Bytes) (answered : Bool) (now : ℕ) (n : Node) {seen : ℕ}
    → lookup p n.peers ≡ some seen
    → (lookup p (peer_result p answered now n).peers ≡ none)
      ↔ ((answered ≡ false) × (19 ≤ (health_of n p).fails) × (is_protected_seed n p ≡ false))
unfolding peer_result drop_peer
gone_iff p true now n known = (
  λ gone. absurd (let clash : none ≡ some _ = sym gone ∙ known in cc),
  λ h. absurd (let clash : true ≡ false = h.0 in cc),
)
gone_iff p false now n known = elim (Bool-cases (evicts n p)) [
  | inl e ↦
      rw (peer_result, e) (λ gone. (refl, ground arith, ground arith), λ h. lookup-erased p n.peers)
  | inr e ↦
      rw (peer_result, e)
        (
          λ gone. absurd (let clash : none ≡ some _ = sym gone ∙ known in cc),
          λ h. absurd (ground arith),
        )
]

others_stay :
    (p : Bytes) (answered : Bool) (now : ℕ) (n : Node) (q : Bytes)
    → p ≢ q
    → lookup q (peer_result p answered now n).peers ≡ lookup q n.peers
unfolding peer_result drop_peer
others_stay p true now n q other = refl
others_stay p false now n q other = elim (Bool-cases (evicts n p)) [
  | inl e ↦ rw (peer_result, e) (lookup-erase_other p q n.peers other)
  | inr e ↦ rw (peer_result, e) refl
]

-- Of the peers, the outcome of a sync drops exactly the one that it is about, when the sync failed, as
-- at least 19 before it did in a row, and the peer is no seed; every other peer stays as it was.
pub peer_result_drops_iff :
    (p : Bytes) (answered : Bool) (now : ℕ) (n : Node) {seen : ℕ}
    → lookup p n.peers ≡ some seen
    → ((lookup p (peer_result p answered now n).peers ≡ none)
        ↔ ((answered ≡ false) × (19 ≤ (health_of n p).fails) × (is_protected_seed n p ≡ false)))
      × ((q : Bytes) → p ≢ q → lookup q (peer_result p answered now n).peers ≡ lookup q n.peers)
peer_result_drops_iff p answered now n known =
    (gone_iff p answered now n known, others_stay p answered now n)
