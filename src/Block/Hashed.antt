-- ===== src/Block/Hashed.antt =====
-- The hash that proofOfWork of src/node/block.go leaves in a block has 32 bytes.
use mathlib.Core.Path.{subst}
use dreddit.Base.{
  ℕ, zero, suc, ◌+◌, ◌%◌, ◌≡◌, sym, ap, ◌∙◌, inl, inr, List, [], ◌∷◌, ◌++◌, Bytes, bytes_equal,
  length, Bool-cases, ok, ok_injective, >>=-eq-ok,
}
use dreddit.Slice.{make_bytes, copy_slice, slice, u32_mod}
use dreddit.Hash.{Scrypt, hash, length-hash}
use dreddit.Tx.Types.{Transaction}
use dreddit.Tx.Wire.{pack_int}
use dreddit.Merkle.Defs.{build_merkle_tree_store}
use dreddit.Block.Types.{Block}
use dreddit.Block.Defs.{
  Setting, pack, make_coinbase_tx, search_nonce, proof_of_work, generate_block, validate_block,
}
use dreddit.Block.Genesis.{genesis_block}
use dreddit.Block.Valid.{validate_block_iff}

-- The block's hash is as long as a hash.
abbrev pub IsHashed : Block → Type 0
IsHashed b = length b.block_hash ≡ 32

search_nonce-length :
    (s : Scrypt) (fuel : ℕ) (d : Bytes) (bits nonce : ℕ) {found : ℕ × Bytes}
    → search_nonce s fuel d bits nonce ≡ ok found
    → length found.1 ≡ 32
unfolding search_nonce
search_nonce-length s zero d bits nonce run = cc
search_nonce-length s (suc fuel) d bits nonce {found} run =
    let (d', packed, h1) = >>=-eq-ok (copy_slice 76 80 (pack_int nonce) d) _ run in
    let (front, cut, h2) = >>=-eq-ok (slice (hash s d') 0 bits) _ h1 in
    elim (Bool-cases (bytes_equal front (make_bytes bits))) [
      | inl hit ↦
          subst (λ (x : ℕ × Bytes). length x.1 ≡ 32) (ok_injective (rw hit at h2))
            (length-hash s d')
      | inr miss ↦ search_nonce-length s fuel d' bits ((nonce + 1) % u32_mod) (rw miss at h2)
    ]

proof_of_work-IsHashed :
    (s : Scrypt) (fuel : ℕ) (b b' : Block) → proof_of_work s fuel b ≡ ok b' → IsHashed b'
unfolding proof_of_work
proof_of_work-IsHashed s fuel b b' run =
    let (d, packed, h1) = >>=-eq-ok (pack b) _ run in
    let (found, searched, h2) = >>=-eq-ok (search_nonce s fuel d b.bits 0) _ h1 in
    subst IsHashed (ok_injective h2) (search_nonce-length s fuel d b.bits 0 searched)

module _ (g : Setting) where
  -- What generate_block fills in before the search for a nonce.
  abbrev draft : Bytes → Bytes → ℕ → Block
  draft prev root now = record {
    prev_block = prev;
    merkle_root = root;
    timestamp = now;
    nonce = 0;
    bits = g.difficulty;
    block_hash = [];
    transactions = [];
  }

  -- The hash has 32 bytes, and the block names the predecessor it was generated for.
  pub generate_block-IsHashed :
      (prev : Bytes) (txs : List Transaction) (decoded : Bytes) (now : ℕ) (b : Block)
      → generate_block g prev txs decoded now ≡ ok b
      → IsHashed b × (b.prev_block ≡ prev)
  unfolding generate_block proof_of_work
  generate_block-IsHashed prev txs decoded now b run =
      let all = txs ++ make_coinbase_tx txs decoded ∷ [] in
      let (root, built, h1) = >>=-eq-ok (build_merkle_tree_store g.log2 g.scrypt all) _ run in
      let start = draft prev root now in
      let (found, worked, h2) = >>=-eq-ok (proof_of_work g.scrypt g.fuel start) _ h1 in
      let (d, packed, h3) = >>=-eq-ok (pack start) _ worked in
      let (nonce, searched, h4) = >>=-eq-ok (search_nonce g.scrypt g.fuel d g.difficulty 0) _ h3 in
      (
        subst IsHashed (ok_injective h2)
            (proof_of_work-IsHashed g.scrypt g.fuel start found worked),
        ap (λ (x : Block). x.prev_block) (sym (ok_injective h2))
            ∙ ap (λ (x : Block). x.prev_block) (sym (ok_injective h4)),
      )

  pub genesis_block-IsHashed :
      (decode : Bytes → Bytes) (b : Block) → genesis_block g decode ≡ ok b → IsHashed b
  unfolding genesis_block
  genesis_block-IsHashed decode b run =
      let (root, built, h1) = >>=-eq-ok (build_merkle_tree_store g.log2 g.scrypt _) _ run in
      let (found, worked, h2) = >>=-eq-ok (proof_of_work g.scrypt g.fuel _) _ h1 in
      subst IsHashed (ok_injective h2) (proof_of_work-IsHashed g.scrypt g.fuel _ found worked)

  pub validate_block-IsHashed : (b : Block) → validate_block g b ≡ ok tt → IsHashed b
  validate_block-IsHashed b valid =
      ap length ((validate_block_iff g b).0 valid).hashed ∙ length-hash g.scrypt _
