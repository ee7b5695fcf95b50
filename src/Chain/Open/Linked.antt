-- ===== src/Chain/Open/Linked.antt =====
-- What `load` of core/chain.go keeps of a block file.
use cereblix.Prelude.{
  sym, ℕ, suc, ◌≡◌, refl, true, ◌&&◌, List, [], ◌∷◌, arith, ◌==◌, ap, Bool-cases, inl, inr,
}
use mathlib.Core.Path.{subst}
use cereblix.Prelude.Bytes.{bytes_eq, bytes_eq→eq}
use cereblix.Prelude.Result.{ok, ok_injective}
use cereblix.Types.Crypto.{Crypto}
use cereblix.Types.Block.{Block, block_hash}
use cereblix.Types.Genesis.{genesis_block}
use cereblix.Chain.Record.{Chain}
use cereblix.Chain.Open.{
  empty_chain, all_decode, derived_of, rebuild_derived, linked_prefix, with_blocks, load,
}

-- Each block has the next height and the hash of the block before it.
abbrev pub LinkedFrom : Crypto → ℕ → Block → List Block → Type 0
LinkedFrom C i prev [] = Unit {0}
LinkedFrom C i prev (b ∷ bs) =
    (b.height ≡ i) × (b.prev_hash ≡ block_hash C prev) × LinkedFrom C (suc i) b bs

-- The first block has the hash of genesis, and the others are linked to it.
abbrev pub IsLinked : Crypto → List Block → Type 0
IsLinked C [] = ⊥
IsLinked C (g ∷ bs) = (block_hash C g ≡ block_hash C (genesis_block C)) × LinkedFrom C 1 g bs

module _ (C : Crypto) where
  linked_prefix-LinkedFrom :
      (i : ℕ) (prev : Block) (bs : List Block) → LinkedFrom C i prev (linked_prefix C i prev bs)
  unfolding linked_prefix
  linked_prefix-LinkedFrom i prev [] = tt
  linked_prefix-LinkedFrom i prev (b ∷ bs) =
      elim (Bool-cases (b.height == i && bytes_eq b.prev_hash (block_hash C prev))) [
        | inl links ↦
            let same : bytes_eq b.prev_hash (block_hash C prev) ≡ true = ground arith in
            rw links (ground arith, bytes_eq→eq _ _ same, linked_prefix-LinkedFrom (suc i) b bs)
        | inr breaks ↦ rw breaks tt
      ]

  rebuild_derived-blocks :
      (c : Chain) {d : Chain} → rebuild_derived C c ≡ ok d → d.blocks ≡ c.blocks
  unfolding rebuild_derived derived_of
  rebuild_derived-blocks c {d} e = elim (Bool-cases (all_decode c.blocks)) [
    | inl decoded ↦ sym (ap (λ x. x.blocks) (ok_injective (rw decoded at e)))
    | inr panics ↦ absurd (ground (arith, rw panics at e))
  ]

  -- A chain that `load` opens from decoded blocks starts at genesis and is linked by heights and
  -- hashes, however the file was damaged.
  pub load-IsLinked : (bs : List Block) {c : Chain} → load C bs ≡ ok c → IsLinked C c.blocks
  unfolding load
  load-IsLinked [] {c} e =
      let linked : IsLinked C (genesis_block C ∷ []) = (refl, tt) in
      let start : Chain = with_blocks C (genesis_block C ∷ []) (genesis_block C ∷ []) empty_chain in
      subst (IsLinked C) (sym (rebuild_derived-blocks start e)) linked
  load-IsLinked (g ∷ bs) {c} e =
      elim (Bool-cases (bytes_eq (block_hash C g) (block_hash C (genesis_block C)))) [
        | inl same ↦
            let linked : IsLinked C (g ∷ linked_prefix C 1 g bs) =
              (bytes_eq→eq _ _ same, linked_prefix-LinkedFrom 1 g bs) in
            subst (IsLinked C)
              (sym (
                rebuild_derived-blocks
                  (with_blocks C (g ∷ bs) (g ∷ linked_prefix C 1 g bs) empty_chain) (rw same at e)))
              linked
        | inr other ↦ absurd (ground (arith, rw other at e))
      ]
