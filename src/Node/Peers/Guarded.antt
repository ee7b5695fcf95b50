-- ===== src/Node/Peers/Guarded.antt =====
-- addPeer of node/node.go: what it never adds.
use mathlib.Core.Path.{subst}
use cereblix.Prelude.{
  ℕ, ◌≡◌, refl, sym, ap, ◌∙◌, arith, Bool, true, false, not, ◌&&◌, ◌||◌, Option, none, some, [],
  length, ltb, Bool-cases, inl, inr, ◌⊎◌,
}
use cereblix.Prelude.Bytes.{Bytes, bytes_eq, bytes_eq_iff}
use cereblix.Prelude.Map.{lookup, insert, lookup-insert}
use cereblix.Node.{Net, Ip, Node}
use cereblix.Node.Peers.{
  add_peer, acceptable, clean_url, peer_host_allowed, host_allowed, ip_allowed, ip_trusted,
  is_internal, is_localhost, max_peers, is_some,
}

module _ (N : Net) where
  abbrev IsOutside : Bytes → Type 0
  IsOutside u =
      (host : Bytes) × (N.hostname u ≡ some host)
      × ((ip : Ip)
          → N.parse_ip host ≡ some ip
          → (ip_trusted N ip ≡ true) ⊎ (is_internal N ip ≡ false))

  ip_allowed-cases :
      (o : Option Ip) (ip : Ip)
      → ip_allowed N o ≡ true
      → o ≡ some ip
      → (ip_trusted N ip ≡ true) ⊎ (is_internal N ip ≡ false)
  unfolding ip_allowed
  ip_allowed-cases none ip h e = cc
  ip_allowed-cases (some found) ip h e =
      let same : found ≡ ip = cc in
      subst (λ x. (ip_trusted N x ≡ true) ⊎ (is_internal N x ≡ false)) same
        (split (ip_trusted N found) (is_internal N found) h)
    where
      split : (t i : Bool) → (t || not i) ≡ true → (t ≡ true) ⊎ (i ≡ false)
      split true i h = inl refl
      split false true h = cc
      split false false h = inr refl

  last_conjunct : (a b c : Bool) → (a && b && c) ≡ true → c ≡ true
  last_conjunct a b c h = ground arith

  host_allowed-IsOutside : (u : Bytes) → peer_host_allowed N u ≡ true → IsOutside u
  unfolding host_allowed
  host_allowed-IsOutside u h = by_host (N.hostname u) refl h
    where
      by_host : (o : Option Bytes) → N.hostname u ≡ o → host_allowed N o ≡ true → IsOutside u
      by_host none e h = absurd cc
      by_host (some host) e h = (
        host,
        e,
        λ ip parsed.
            ip_allowed-cases (N.parse_ip host) ip
              (last_conjunct (not (bytes_eq host [])) (not (is_localhost N (N.to_lower host)))
                (ip_allowed N (N.parse_ip host)) h)
              parsed,
      )

  abbrev takes : Bytes → Node → Bool
  takes peer_url n =
      acceptable N n.public_url (clean_url N peer_url)
      && not (is_some (lookup (clean_url N peer_url) n.peers))
      && ltb (length n.peers) max_peers

  takes-allowed :
      (peer_url : Bytes) (n : Node)
      → takes peer_url n ≡ true
      → peer_host_allowed N (clean_url N peer_url) ≡ true
  takes-allowed peer_url n h = ground arith

  -- A peer that addPeer takes in has a host that is, if it is an address, in a trusted subnet, or no
  -- loopback, private, link-local or unspecified one.
  pub add_peer-guarded :
      (peer_url u : Bytes) (n : Node) {seen : ℕ}
      → lookup u n.peers ≡ none
      → lookup u (add_peer N peer_url n).peers ≡ some seen
      → (host : Bytes) × (N.hostname u ≡ some host)
        × ((ip : Ip)
            → N.parse_ip host ≡ some ip
            → (ip_trusted N ip ≡ true) ⊎ (is_internal N ip ≡ false))
  unfolding add_peer host_allowed ip_allowed
  add_peer-guarded peer_url u n {seen} new there = elim (Bool-cases (takes peer_url n)) [
    | inl e ↦
        let url = clean_url N peer_url in
        let now : (add_peer N peer_url n).peers ≡ insert url 0 n.peers = rw (add_peer, e) refl in
        elim (Bool-cases (bytes_eq url u)) [
          | inl same ↦
              let it : url ≡ u = (bytes_eq_iff url u).0 same in
              subst IsOutside it (host_allowed-IsOutside url (takes-allowed peer_url n e))
          | inr other ↦
              let still : lookup u (insert url 0 n.peers) ≡ none =
                lookup-insert url u 0 n.peers ∙ rw other new in
              let clash : none ≡ some seen = sym still ∙ (ap (lookup u) (sym now) ∙ there) in
              absurd cc
        ]
    | inr e ↦
        let now : (add_peer N peer_url n).peers ≡ n.peers = rw (add_peer, e) refl in
        let clash : none ≡ some seen = sym new ∙ (ap (lookup u) (sym now) ∙ there) in absurd cc
  ]
