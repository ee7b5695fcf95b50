-- ===== src/Node.antt =====
-- node/node.go: the state of a node that its p2p side keeps, and the answers that it takes from a
-- peer. Package net and net/url, and the white space of package strings, are the record `Net`. A
-- clock counts nanoseconds.
pub mod Peers
pub mod Tip
pub mod Ancestor
pub mod Round
use cereblix.Prelude.{
  ℕ, zero, suc, ◌*◌, ◌^◌, Bool, true, false, ◌&&◌, Option, none, some, List, [], ◌∷◌, ◌==◌,
  if◌then◌else◌,
}
use cereblix.Prelude.Bytes.{Bytes, bytes_eq}
use cereblix.Prelude.Map.{Map}
use cereblix.Types.Block.{Block}
use cereblix.Chain.Record.{Chain, Checkpoint}

-- an address as net.ParseIP gives it
abbrev pub Ip : Type 0
Ip = Bytes

pub record Net : Type 0 where
  pub trim_space : Bytes → Bytes
  pub to_lower : Bytes → Bytes
  -- url.Parse, then Hostname
  pub hostname : Bytes → Option Bytes
  pub parse_ip : Bytes → Option Ip
  -- IPNet.Contains of each trusted subnet
  pub trusted_nets : List (Ip → Bool)
  pub is_loopback : Ip → Bool
  pub is_private : Ip → Bool
  pub is_link_local_unicast : Ip → Bool
  pub is_link_local_multicast : Ip → Bool
  pub is_unspecified : Ip → Bool

pub record PeerHealth : Type 0 where
  pub fails : ℕ
  pub next_try : ℕ
  pub last_doomed : Bytes

pub record Node : Type 0 where
  pub chain : Chain
  pub public_url : Bytes
  pub seeds : List Bytes
  pub peers : Map ℕ
  pub ph : Map PeerHealth
  pub checkpoint : Checkpoint

-- a peer's announced tip
pub record TipInfo : Type 0 where
  pub height : ℕ
  pub hash : Bytes
  pub cum_work : Bytes

-- What a peer answers, none for an error. It may change its answers from request to request, so each
-- repeated request has its number.
pub record Remote : Type 0 where
  pub tip : Option TipInfo
  pub hash_at : ℕ → ℕ → Option Bytes
  pub blocks : ℕ → ℕ → Option (List Block)
  pub checkpoint : Option Checkpoint

-- the surroundings of the n-th adoption of a round: the clock, and whether the commit succeeds
pub record Surroundings : Type 0 where
  pub now : ℕ → ℕ
  pub disk_ok : ℕ → Bool

-- strings.TrimRight(s, "/")
unfoldable pub trim_slashes : Bytes → Bytes
trim_slashes [] = []
trim_slashes (c ∷ s) =
    let rest = trim_slashes s in if bytes_eq rest [] && c == b'/' then [] else c ∷ rest
