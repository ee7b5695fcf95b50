-- ===== src/Chain/Open.antt =====
-- OpenChain on an empty directory, and the check of a loaded block file, of core/chain.go. The
-- blocks come from the disk as they were decoded.
pub mod Linked
use cereblix.Prelude.{
  ℕ, suc, Bool, true, false, Option, none, some, ◌&&◌, List, [], ◌∷◌, ◌==◌, if◌then◌else◌,
}
use cereblix.Prelude.Bytes.{bytes_eq}
use cereblix.Prelude.Result.{Result, ok, err}
use cereblix.Types.Crypto.{Crypto}
use cereblix.Types.Block.{Block, block_hash, target_int, target_to_hex}
use cereblix.Types.Tx.{decode_field}
use cereblix.Prelude.Text.{
  hex_decode, hex_scan, hex_value, be_value_from, hex_encode, hex_digit, be_bytes,
}
use cereblix.Types.Genesis.{genesis_block}
use cereblix.Chain.Caches.{
  Caches, Limits, mark_pow_verified, lwma_activation_c, fee_market_activation_c,
}
use cereblix.Chain.Record.{
  Chain, recompute_supply, sum_work, replay_state, replay_totals, index_blocks,
}

-- `panicked` is the panic of WorkOf(nil), on a block whose target does not decode
pub data LoadError : Type 0 where
  wrong_genesis panicked : LoadError

abbrev decodes : Option ℕ → Bool
decodes none = false
decodes (some _) = true

unfoldable pub all_decode : List Block → Bool
unfolding target_int decode_field hex_decode hex_scan hex_value be_value_from genesis_block
    target_to_hex hex_encode hex_digit be_bytes
all_decode [] = true
all_decode (b ∷ bs) = decodes (target_int b) && all_decode bs

abbrev pub empty_caches : Caches
empty_caches = record {
  verified_pow = [];
  pow_ok = [];
  sig_ok = [];
  lwma_act = 0;
  fee_act = 0;
  dr_act = 0;
}

abbrev default_limits : Limits
default_limits = record { max_reorg_depth = 100; reorg_penalty_permille = 0; checkpoints = [] }

-- the Chain literal of OpenChain, in jsonl mode
unfoldable pub empty_chain : Chain
empty_chain = record {
  blocks = [];
  state = [];
  touched = [];
  cum_work = 0;
  supply = 0;
  totals = [];
  addr_tx = [];
  pool = record { mempool = []; by_sender = [] };
  caches = empty_caches;
  limits = default_limits;
  auth_anchor = record { height = 0; hash = []; sig = [] };
  uses_store = false;
  announced = [];
}

module _ (C : Crypto) where
  -- the fields that rebuildDerived sets, where every target decodes
  unfoldable pub derived_of : Chain → Chain
  unfolding replay_state replay_totals sum_work index_blocks
  derived_of c =
      let st = replay_state C [] c.blocks in
      let (_, k1) = lwma_activation_c c.limits.max_reorg_depth c.blocks c.caches in
      let (_, k2) = fee_market_activation_c c.limits.max_reorg_depth c.blocks k1 in
      record c {
        state = st;
        touched = [];
        totals = replay_totals C [] c.blocks;
        cum_work = sum_work c.blocks;
        supply = recompute_supply st;
        caches = k2;
        addr_tx = if c.uses_store then c.addr_tx else index_blocks C [] c.blocks;
      }

  -- rebuildDerived
  unfoldable pub rebuild_derived : Chain → Result LoadError Chain
  unfolding all_decode derived_of
  rebuild_derived c = if all_decode c.blocks then ok (derived_of c) else err panicked

  -- the blocks of the file that link to the one before them, from height i on
  unfoldable pub linked_prefix : ℕ → Block → List Block → List Block
  linked_prefix i prev [] = []
  linked_prefix i prev (b ∷ bs) =
      let rest = linked_prefix (suc i) b bs in
      if b.height == i && bytes_eq b.prev_hash (block_hash C prev) then b ∷ rest else []

  unfoldable pub mark_all : List Block → Caches → Caches
  mark_all [] k = k
  mark_all (b ∷ bs) k = mark_all bs (mark_pow_verified (block_hash C b) k)

  abbrev pub with_blocks : List Block → List Block → Chain → Chain
  with_blocks all kept c = record c { blocks = kept; caches = mark_all all c.caches }

  -- load, in jsonl mode: the decoded lines, truncated at the first break in the linkage
  unfoldable pub load : List Block → Result LoadError Chain
  unfolding rebuild_derived linked_prefix mark_all
  load [] = rebuild_derived (with_blocks (genesis_block C ∷ []) (genesis_block C ∷ []) empty_chain)
  load (g ∷ bs) =
      if bytes_eq (block_hash C g) (block_hash C (genesis_block C))
      then rebuild_derived (with_blocks (g ∷ bs) (g ∷ linked_prefix 1 g bs) empty_chain)
      else err wrong_genesis
