-- ===== src/Tests/Peering.antt =====
-- The p2p side of a node at concrete inputs: a fresh node, and a peer that has mined the first block.
use cereblix.Prelude.{
  leb, ℕ, ◌+◌, ◌*◌, ◌≤◌, ◌<◌, ◌≡◌, ◌≢◌, ◌↔◌, ◌⊎◌, refl, sym, ◌∙◌, arith, true, false, none, some,
  List, [], ◌∷◌, length, zero, suc, All, take, ◌^◌,
}
use mathlib.Core.Path.{subst}
use cereblix.Prelude.Bytes.{Bytes, codes, bytes_eq, strip_prefix, bytes_eq_refl}
use cereblix.Prelude.Map.{lookup, insert}
use cereblix.Types.Genesis.{genesis_block}
use cereblix.Types.Block.{Block, block_hash}
use cereblix.Chain.History.{BlockTyped}
use cereblix.Chain.Open.{load, rebuild_derived, empty_chain}
use cereblix.Chain.Reach.{Reachable, started}
use cereblix.Chain.Views.{block_at}
use cereblix.Tests.{toy, fresh, first_block, clock}
use cereblix.Node.{Net, Ip, Node, TipInfo, Remote, Surroundings, trim_slashes}
use cereblix.Node.Peers.{
  add_peer, peer_result, health_of, is_protected_seed, ip_trusted, is_internal, host_allowed,
  ip_allowed, any_contains, has_suffix,
}
use cereblix.Node.Peers.Evicted.{peer_result_drops_iff}
use cereblix.Node.Peers.Guarded.{add_peer-guarded}
use cereblix.Node.Tip.{Signed, tip_ahead, classify, pursue, tip_ahead_iff}
use cereblix.Node.Ancestor.{search, found, agrees_with}
use cereblix.Node.Ancestor.Highest.{AgreesAt, search-highest}
use cereblix.Node.Round.{sync_with_peer}
use cereblix.Node.Round.Ends.{sync_with_peer-ends}

abbrev friend : Bytes
friend = codes "http://203.0.113.7:18750"

abbrev local : Node
local = record {
  chain = fresh;
  public_url = [];
  seeds = [];
  peers = (friend, 1) ∷ [];
  ph = (friend, record { fails = 19; next_try = 0; last_doomed = [] }) ∷ [];
  checkpoint = record { height = 0; hash = []; sig = [] };
}

abbrev their_tip : TipInfo
their_tip = record { height = 1; hash = codes "00ff"; cum_work = codes "ffff" }

-- It serves its first block, whatever is asked.
abbrev miner_node : Remote
miner_node = record {
  tip = some their_tip;
  hash_at = λ k h. some (block_hash toy first_block);
  blocks = λ k from. some (first_block ∷ []);
  checkpoint = none;
}

abbrev calm : Surroundings
calm = record { now = λ k. clock; disk_ok = λ k. true }

tip_ahead_iff_example :
    (tip_ahead (codes "ffff") (codes "00ff") 100 (codes "00aa") ≡ true)
    ↔ ((w : Signed) × (classify their_tip 100 (codes "00aa") ≡ pursue w))
tip_ahead_iff_example = tip_ahead_iff their_tip 100 (codes "00aa")

first_block-BlockTyped : BlockTyped first_block
first_block-BlockTyped = (record { amount = omega arith; fee = omega arith }, tt)

small_chain : 2 * length fresh.blocks < 2 ^ 64
unfolding fresh load
small_chain = omega arith

calm_room :
    (their : TipInfo) (bs : List Block)
    → miner_node.tip ≡ some their
    → some (first_block ∷ []) ≡ some bs
    → their.height + 1 + length bs < 2 ^ 64
calm_room their bs announced e =
    let tip : their_tip ≡ their = cc in
    let same : first_block ∷ [] ≡ bs = cc in
    subst (λ t. t.height + 1 + length bs < 2 ^ 64) tip
      (subst (λ l. their_tip.height + 1 + length l < 2 ^ 64) same (omega arith))

sync_with_peer-ends_example :
    (n' : Node) × (sync_with_peer toy friend miner_node calm clock clock local ≡ some n')
    × Reachable toy n'.chain
    × (fresh.limits.reorg_penalty_permille ≡ 0 → fresh.cum_work ≤ n'.chain.cum_work)
unfolding fresh load
sync_with_peer-ends_example =
    sync_with_peer-ends toy friend miner_node calm clock clock local
      (λ k from bs e.
        subst (All BlockTyped) (let same : first_block ∷ [] ≡ bs = cc in same)
          (first_block-BlockTyped, tt))
      (λ their announced k from bs e. calm_room their bs announced e) small_chain (started refl)

-- The chains share the genesis block alone.
abbrev theirs : ℕ → Bytes
theirs zero = block_hash toy (genesis_block toy)
theirs (suc h) = codes "ff"

shared : AgreesAt toy fresh theirs 0
unfolding fresh load rebuild_derived empty_chain block_at
shared = bytes_eq_refl (block_hash toy (genesis_block toy))

beyond : (h : ℕ) → agrees_with toy (block_at fresh (suc h)) (theirs (suc h)) ≡ false
unfolding fresh load rebuild_derived empty_chain block_at
beyond h = let past : leb 1 (suc h) ≡ true = ground arith in rw past refl

genesis_only : (g h : ℕ) → g ≤ h → AgreesAt toy fresh theirs h → AgreesAt toy fresh theirs g
genesis_only zero h le agreed = shared
genesis_only (suc g) zero le agreed = absurd (omega (arith, le))
genesis_only (suc g) (suc h) le agreed =
    let clash : true ≡ false = sym agreed ∙ beyond h in absurd cc

search-highest_example :
    (a : ℕ) × (search toy (λ k h. some (theirs h)) fresh (5 + 2) 0 5 0 ≡ some (found a))
    × AgreesAt toy fresh theirs a
    × (a ≤ 5)
    × ((h : ℕ) → a < h → h ≤ 5 → agrees_with toy (block_at fresh h) (theirs h) ≡ false)
search-highest_example =
    search-highest toy fresh theirs (λ k h. some (theirs h)) 5 (omega arith) (λ k h. refl)
      genesis_only shared

peer_result_drops_iff_example :
    ((lookup friend (peer_result friend false 5 local).peers ≡ none) ↔ (
      (false ≡ false)
      × (19 ≤ (health_of local friend).fails)
      × (is_protected_seed local friend ≡ false)))
    × ((q : Bytes)
        → friend ≢ q
        → lookup q (peer_result friend false 5 local).peers ≡ lookup q local.peers)
unfolding lookup bytes_eq
peer_result_drops_iff_example = peer_result_drops_iff friend false 5 local refl

abbrev seed : Bytes
seed = codes "http://seed.cereblix.com:18750/"

-- an internet of one host name for every URL, and no internal addresses
abbrev net : Net
net = record {
  trim_space = λ s. s;
  to_lower = λ s. s;
  hostname = λ url. some (codes "203.0.113.8");
  parse_ip = λ host. some (203 ∷ 0 ∷ 113 ∷ 8 ∷ []);
  trusted_nets = [];
  is_loopback = λ ip. false;
  is_private = λ ip. bytes_eq (take 1 ip) (10 ∷ []);
  is_link_local_unicast = λ ip. false;
  is_link_local_multicast = λ ip. false;
  is_unspecified = λ ip. false;
}

abbrev newcomer : Bytes
newcomer = codes "http://203.0.113.8:18750"

add_peer-guarded_example :
    (host : Bytes) × (net.hostname newcomer ≡ some host)
    × ((ip : Ip)
        → net.parse_ip host ≡ some ip
        → (ip_trusted net ip ≡ true) ⊎ (is_internal net ip ≡ false))
unfolding lookup bytes_eq add_peer trim_slashes strip_prefix host_allowed has_suffix ip_allowed
    any_contains insert
add_peer-guarded_example =
    add_peer-guarded net (codes "http://203.0.113.8:18750/") newcomer local refl refl
