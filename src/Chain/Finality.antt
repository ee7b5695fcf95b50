-- ===== src/Chain/Finality.antt =====
-- Checkpoints and the authority anchor of core/chain.go, and the telemetry on them. A checkpoint's
-- signature is verified by the caller (core/checkpoint.go).
pub mod Held
use cereblix.Prelude.{
  ℕ, ◌≤◌, ◌≡◌, refl, Bool, true, false, not, ◌||◌, Option, none, some, List, [], ◌∷◌, ◌++◌, length,
  get_elem?, arith, ltb, leb, ◌==◌, if◌then◌else◌, Bool-cases, inl, inr, ◌⊎◌,
}
use cereblix.Prelude.Bytes.{Bytes, codes, bytes_eq}
use cereblix.Prelude.Text.{itoa}
use cereblix.Types.Crypto.{Crypto}
use cereblix.Types.Tx.{decode_field}
use cereblix.Types.Block.{Block, block_hash}
use cereblix.Consensus.Upgrade.{
  signal_count_win, deep_recovery_version, deep_recovery_window, deep_recovery_required,
}
use cereblix.Chain.Caches.{Limits}
use cereblix.Chain.Validate.{checkpoint_at}
use cereblix.Chain.Record.{Chain, Checkpoint}

abbrev authority_pub_key : Bytes
authority_pub_key = codes "7a2712d5d7ac3734ecf85ee256c932465444c973ef486b595f327b9af8f68b20"

-- checkpointMsg
unfoldable pub checkpoint_msg : ℕ → Bytes → Bytes
checkpoint_msg height hash = codes "cereblix-checkpoint-v1|" ++ itoa height ++ codes "|" ++ hash

-- c.Checkpoints[h] = hash
unfoldable pub set_checkpoint : ℕ → Bytes → List (ℕ × Bytes) → List (ℕ × Bytes)
set_checkpoint h hash [] = (h, hash) ∷ []
set_checkpoint h hash ((k, old) ∷ cps) =
    if k == h then (h, hash) ∷ cps else (k, old) ∷ set_checkpoint h hash cps

unfoldable pub highest_from : ℕ → List (ℕ × Bytes) → ℕ
highest_from mx [] = mx
highest_from mx ((h, _) ∷ cps) = highest_from (if ltb mx h then h else mx) cps

-- HighestCheckpointHeight
unfoldable pub highest_checkpoint_height : Chain → ℕ
unfolding highest_from
highest_checkpoint_height c = highest_from 0 c.limits.checkpoints

-- ConsensusStatus: the votes for deep recovery, the votes that it needs, the window and the anchor
unfoldable pub consensus_status : Chain → ℕ × ℕ × ℕ × ℕ
consensus_status c = (
  signal_count_win c.blocks (length c.blocks) deep_recovery_version deep_recovery_window,
  deep_recovery_required,
  deep_recovery_window,
  c.auth_anchor.height,
)

-- SetAuthorityAnchor
unfoldable pub set_authority_anchor : Checkpoint → Chain → Chain
set_authority_anchor cp c =
    if ltb c.auth_anchor.height cp.height then record c { auth_anchor = cp } else c

abbrev pub same_hash : Option Bytes → Bytes → Bool
same_hash none hash = bytes_eq [] hash
same_hash (some old) hash = bytes_eq old hash

module _ (C : Crypto) where
  abbrev verify_parts : Option Bytes → Option Bytes → Bytes → Bool
  verify_parts (some pub_key) (some sig) msg = C.ed25519_verify pub_key msg sig
  verify_parts _ _ msg = false

  -- Verify
  unfoldable pub verify_checkpoint : Checkpoint → Bool
  unfolding checkpoint_msg
  verify_checkpoint cp =
      if bytes_eq cp.hash []
      then false
      else verify_parts (decode_field 32 authority_pub_key) (decode_field 64 cp.sig)
          (checkpoint_msg cp.height cp.hash)

  abbrev pub hash_of : Option Block → Bytes
  hash_of none = []
  hash_of (some b) = block_hash C b

  -- ApplyCheckpoint
  unfoldable pub apply_checkpoint : Checkpoint → Chain → Bool × Chain
  unfolding set_checkpoint
  apply_checkpoint cp c =
      let cps = c.limits.checkpoints in
      if cp.height == 0 || leb (length c.blocks) cp.height
      then (false, c)
      else if not (bytes_eq (hash_of (get_elem? c.blocks cp.height)) cp.hash)
      then (false, c)
      else if same_hash (checkpoint_at cp.height cps) cp.hash
      then (true, c)
      else (
        true,
        record c {
          limits = record c.limits { checkpoints = set_checkpoint cp.height cp.hash cps };
        },
      )
