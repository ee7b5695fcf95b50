-- ===== src/Tests/Stored.antt =====
-- The theorems on stored blocks at concrete inputs.
use cereblix.Prelude.{◌≡◌, refl, List, [], ◌∷◌}
use cereblix.Prelude.Result.{ok}
use cereblix.Tests.{toy, sum_bytes, or_empty, first_block}
use cereblix.Chain.Open.{load, linked_prefix}
use cereblix.Chain.Open.Linked.{IsLinked, load-IsLinked}
use cereblix.Chain.Record.{Chain}
use cereblix.Prelude.Bytes.{bytes_eq}
use cereblix.Prelude.Text.{
  hex_encode, hex_digit, hex_scan, hex_value, be_bytes, le_bytes, itoa, digits_onto,
}
use cereblix.Types.Block.{
  block_hash, header_bytes, header_field, copy_field, compute_tx_root, root_preimage, target_to_hex,
  Block,
}
use cereblix.Types.Genesis.{genesis_block, genesis_coinbase}
use cereblix.Types.Tx.{tx_id, signing_payload}

stored : List Block
stored = genesis_block toy ∷ first_block ∷ []

-- the same, with a block that does not link to the last one
damaged : List Block
damaged = genesis_block toy ∷ first_block ∷ first_block ∷ []

opened : Chain
unfolding damaged
opened = or_empty (load toy damaged)

damaged-opened : load toy damaged ≡ ok opened
unfolding toy sum_bytes load bytes_eq genesis_block genesis_coinbase block_hash hex_encode hex_digit
    hex_scan hex_value be_bytes header_bytes le_bytes header_field copy_field compute_tx_root
    root_preimage tx_id signing_payload itoa digits_onto linked_prefix target_to_hex damaged opened
damaged-opened = refl

load-IsLinked_example : IsLinked toy opened.blocks
load-IsLinked_example = load-IsLinked toy damaged damaged-opened
