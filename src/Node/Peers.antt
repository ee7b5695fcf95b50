-- ===== src/Node/Peers.antt =====
-- node/node.go: the set of peers and their health.
pub mod Evicted
pub mod Guarded
use cereblix.Prelude.{
  ℕ, ◌+◌, ◌*◌, ◌^◌, Bool, true, false, not, ◌&&◌, ◌||◌, Option, none, some, List, [], ◌∷◌, map,
  length, ltb, leb, if◌then◌else◌,
}
use cereblix.Prelude.Bytes.{Bytes, codes, bytes_eq, strip_prefix, bytes_ltb}
use cereblix.Prelude.Map.{Map, lookup, insert, erase}
use cereblix.Node.{Net, Ip, PeerHealth, Node, trim_slashes}

abbrev fallback_seeds : List Bytes
fallback_seeds =
    codes "http://seed.cereblix.com:18750"
    ∷ codes "http://186.246.11.2:18750"
    ∷ codes "http://13.140.141.180:18750"
    ∷ codes "http://13.140.142.95:18750"
    ∷ []

-- 3 s
abbrev pub sync_interval : ℕ
sync_interval = 3 * 10 ^ 9

abbrev pub max_peers : ℕ
max_peers = 64

abbrev pub is_some : {A : Type 0} → Option A → Bool
is_some none = false
is_some (some _) = true

-- strings.HasSuffix
unfoldable pub has_suffix : Bytes → Bytes → Bool
has_suffix suffix [] = bytes_eq suffix []
has_suffix suffix (c ∷ s) = bytes_eq suffix (c ∷ s) || has_suffix suffix s

unfoldable pub any_contains : List (Ip → Bool) → Ip → Bool
any_contains [] ip = false
any_contains (n ∷ nets) ip = n ip || any_contains nets ip

module _ (N : Net) where
  -- ipTrusted
  abbrev pub ip_trusted : Ip → Bool
  ip_trusted = any_contains N.trusted_nets

  abbrev pub is_internal : Ip → Bool
  is_internal ip =
      N.is_loopback ip
      || N.is_private ip
      || N.is_link_local_unicast ip
      || N.is_link_local_multicast ip
      || N.is_unspecified ip

  unfoldable pub ip_allowed : Option Ip → Bool
  unfolding any_contains
  ip_allowed none = true
  ip_allowed (some ip) = ip_trusted ip || not (is_internal ip)

  abbrev pub is_localhost : Bytes → Bool
  is_localhost h = bytes_eq h (codes "localhost") || has_suffix (codes ".localhost") h

  unfoldable pub host_allowed : Option Bytes → Bool
  unfolding has_suffix ip_allowed
  host_allowed none = false
  host_allowed (some host) =
      not (bytes_eq host []) && not (is_localhost (N.to_lower host)) && ip_allowed (N.parse_ip host)

  -- peerHostAllowed
  abbrev pub peer_host_allowed : Bytes → Bool
  peer_host_allowed raw = host_allowed (N.hostname raw)

  abbrev pub clean_url : Bytes → Bytes
  clean_url url = trim_slashes (N.trim_space url)

  abbrev pub acceptable : Bytes → Bytes → Bool
  acceptable public_url url =
      not (bytes_eq url [])
      && is_some (strip_prefix (codes "http") url)
      && not (not (bytes_eq public_url []) && bytes_eq url public_url)
      && peer_host_allowed url

  -- addPeer
  unfoldable pub add_peer : Bytes → Node → Node
  unfolding trim_slashes strip_prefix host_allowed
  add_peer peer_url n =
      let url = clean_url peer_url in
      if acceptable n.public_url url
        && not (is_some (lookup url n.peers))
        && ltb (length n.peers) max_peers
      then record n { peers = insert url 0 n.peers }
      else n

  -- the peers that a list names, as loadPeers and discoverPeers take them
  unfoldable pub add_peers : List Bytes → Node → Node
  unfolding add_peer
  add_peers [] n = n
  add_peers (u ∷ us) n = add_peers us (add_peer u n)

-- markPeer
unfoldable pub mark_peer : Bytes → Bool → ℕ → Node → Node
mark_peer url answered now n = if answered then record n { peers = insert url now n.peers } else n

unfoldable pub names_seed : Bytes → List Bytes → Bool
names_seed q [] = false
names_seed q (s ∷ ss) = bytes_eq (trim_slashes s) q || names_seed q ss

-- isProtectedSeed
unfoldable pub is_protected_seed : Node → Bytes → Bool
unfolding names_seed
is_protected_seed n p =
    names_seed (trim_slashes p) fallback_seeds || names_seed (trim_slashes p) n.seeds

abbrev pub new_health : PeerHealth
new_health = record { fails = 0; next_try = 0; last_doomed = [] }

abbrev pub or_new : Option PeerHealth → PeerHealth
or_new none = new_health
or_new (some h) = h

-- n.ph[p], or the zero value
abbrev pub health_of : Node → Bytes → PeerHealth
health_of n p = or_new (lookup p n.ph)

-- peerReady
unfoldable pub peer_ready : Node → Bytes → ℕ → Bool
peer_ready n p now = elim (lookup p n.ph) [ none ↦ true | some h ↦ ltb h.next_try now ]

-- dropPeer
unfoldable pub drop_peer : Bytes → Node → Node
drop_peer p n = record n { peers = erase p n.peers; ph = erase p n.ph }

abbrev pub backoff : ℕ → ℕ
backoff fails = 2 ^ (if ltb 6 fails then 6 else fails) * sync_interval

abbrev pub cleared : PeerHealth → PeerHealth
cleared h = record { fails = 0; next_try = 0; last_doomed = h.last_doomed }

abbrev pub failed : PeerHealth → ℕ → PeerHealth
failed h now = record {
  fails = h.fails + 1;
  next_try = now + backoff (h.fails + 1);
  last_doomed = h.last_doomed;
}

-- peerResult
unfoldable pub peer_result : Bytes → Bool → ℕ → Node → Node
unfolding drop_peer is_protected_seed
peer_result p answered now n =
    let h = health_of n p in
    let noted = record n { ph = insert p (failed h now) n.ph } in
    if answered
    then record n { ph = insert p (cleared h) n.ph }
    else if leb 20 (h.fails + 1) && not (is_protected_seed n p)
    then drop_peer p noted
    else noted

-- noteDoomed
unfoldable pub note_doomed : Bytes → Bytes → Node → Node
note_doomed p tip_hash n =
    let h = health_of n p in
    record n {
      ph =
          insert p (record { fails = h.fails; next_try = h.next_try; last_doomed = tip_hash }) n.ph;
    }

-- isDoomed
unfoldable pub is_doomed : Node → Bytes → Bytes → Bool
is_doomed n p tip_hash = elim (lookup p n.ph) [
  | none ↦ false
  | some h ↦ not (bytes_eq h.last_doomed []) && bytes_eq h.last_doomed tip_hash
]

abbrev map_health : (PeerHealth → PeerHealth) → Map PeerHealth → Map PeerHealth
map_health f m = map (λ e. (e.0, f e.1)) m

-- resetPeerBackoff
unfoldable pub reset_peer_backoff : Node → Node
reset_peer_backoff n = record n { ph = map_health cleared n.ph }

-- clearDoomed
unfoldable pub clear_doomed : Node → Node
clear_doomed n = record n {
  ph = map_health (λ h. record { fails = h.fails; next_try = h.next_try; last_doomed = [] }) n.ph;
}

-- peerList
unfoldable pub insert_url : Bytes → List Bytes → List Bytes
insert_url u [] = u ∷ []
insert_url u (v ∷ vs) = if bytes_ltb v u then v ∷ insert_url u vs else u ∷ v ∷ vs

unfoldable pub sort_urls : Map ℕ → List Bytes
unfolding insert_url
sort_urls [] = []
sort_urls ((u, _) ∷ m) = insert_url u (sort_urls m)

abbrev pub peer_list : Node → List Bytes
peer_list n = sort_urls n.peers
