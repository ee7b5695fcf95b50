-- ===== src/Node/Ancestor.antt =====
-- node/node.go: the binary search of syncWithPeerOnce for the common ancestor.
pub mod Highest
pub mod Ends
use cereblix.Prelude.{
  ◌≡◌, ◌≤◌, ◌<◌, ◌⊎◌, inl, inr, refl, sym, ◌∙◌, arith, Bool-cases, ltb→lt, ℕ, zero, suc, ◌+◌, ◌-◌,
  ◌*◌, ◌/◌, Bool, true, false, not, ◌&&◌, ◌||◌, Option, none, some, List, [], ◌∷◌, ◌++◌, length,
  ltb, leb, ◌==◌, if◌then◌else◌,
}
use cereblix.Prelude.Bytes.{Bytes, bytes_eq, bytes_ltb}
use cereblix.Prelude.Text.{hex_value}
use cereblix.Prelude.Word.{add64, u64_mod}
use cereblix.Prelude.Result.{Result, ok, err}
use cereblix.Types.Crypto.{Crypto}
use cereblix.Types.Block.{Block, block_hash}
use cereblix.Chain.Record.{Chain}
use cereblix.Chain.Validate.{last_block, BlockError, insufficient_work, reorg_too_deep}
use cereblix.Chain.Adopt.{try_adopt_chain}
use cereblix.Chain.Preverify.{pre_verify_pow, pre_verify_sigs}
use cereblix.Chain.Views.{block_at}
use cereblix.Node.{Node, TipInfo, Remote, Surroundings}
use cereblix.Node.Peers.{mark_peer, peer_result, note_doomed, is_doomed}

-- the binary search for the common ancestor
pub data Search : Type 0 where
  flaky mismatch : Search
  found : ℕ → Search

module _ (C : Crypto) where
  abbrev pub agrees_with : Option Block → Bytes → Bool
  agrees_with none hash = false
  agrees_with (some b) hash = bytes_eq (block_hash C b) hash

  unfoldable pub search : (ℕ → ℕ → Option Bytes) → Chain → ℕ → ℕ → ℕ → ℕ → Option Search
  unfolding block_at
  search ask c zero lo hi anc = none
  search ask c (suc n) lo hi anc = elim (ltb hi lo) [
    | true ↦ some (found anc)
    | false ↦
        let mid = add64 lo hi / 2 in
        elim (ask n mid) [
          | none ↦ some flaky
          | some hash ↦ elim (agrees_with (block_at c mid) hash) [
            | true ↦ search ask c n (mid + 1) hi mid
            | false ↦ elim (mid == 0) [
              | true ↦ some mismatch
              | false ↦ search ask c n lo (mid - 1) anc
            ]
          ]
        ]
  ]
