-- ===== src/Block/Mined.antt =====
-- Mining against validation: `GenerateBlock` and `ValidateBlock` of src/node/block.go.
use mathlib.Core.Path.{subst}
use mathlib.Core.List.{append-nil}
use dreddit.Base.{
  ℕ, zero, suc, ◌+◌, ◌-◌, ◌%◌, ◌^◌, ◌≤◌, ◌<◌, ◌≡◌, refl, sym, ap, ◌∙◌, true, false, List, [], ◌∷◌,
  ◌++◌, Bytes, bytes_equal, bytes_equal_refl, ◌==◌, if◌then◌else◌, length, All, ◌≢◌, take, inl, inr,
  le→leb, min, drop_all, last?-append, ok, ok_injective, >>=-eq-ok, Bool-cases, length-append,
  take-append, take_all, arith,
}
use dreddit.Slice.{make_bytes, copy_slice, slice, u32_mod}
use dreddit.Hash.{Scrypt, hash, length-hash}
use dreddit.Tx.Types.{Transaction, coinbase}
use dreddit.Tx.Wire.{pack_int}
use dreddit.Tx.Preimage.{length-pack_int}
use dreddit.Merkle.Defs.{build_merkle_tree_store}
use dreddit.Block.Types.{Block}
use dreddit.Block.Defs.{
  Setting, make_coinbase_tx, verify_coinbase_tx, search_nonce, proof_of_work, generate_block,
  no_early_coinbase, validate_block,
}
use dreddit.Block.Header.{header, length-header, pack-header}

-- The nonce's place is the last four of the 80 bytes.
copy_nonce :
    (front back src : Bytes)
    → length front ≡ 76
    → length back ≡ 4
    → length src ≡ 4
    → copy_slice 76 80 src (front ++ back) ≡ ok (front ++ src)
unfolding copy_slice
copy_nonce front back src f k l =
    rw
      (
        le→leb 80 (length (front ++ back)) (omega (arith, length-append front back)),
        take-append 76 front back f,
        take_all 4 src (omega arith),
        drop_all (76 + min 4 (length src)) (front ++ back)
            (omega (arith, length-append front back)),
      )
      (ap (λ (x : Bytes). ok (front ++ x)) (append-nil src))

slice_front : (n : ℕ) (h : Bytes) → n ≤ length h → slice h 0 n ≡ ok (take (n - 0) h)
unfolding slice
slice_front n h le = rw (le→leb 0 n (omega arith), le→leb n (length h) le)

-- The first `bits` bytes of the hash are zero.
abbrev pub Meets : ℕ → Bytes → Type 0
Meets bits h =
    (front : Bytes) × (slice h 0 bits ≡ ok front) × (bytes_equal front (make_bytes bits) ≡ true)

module _ (s : Scrypt) (front : Bytes) (sized : length front ≡ 76) (bits : ℕ) where
  search_nonce-Meets :
      (fuel nonce : ℕ) (back : Bytes) {found : ℕ × Bytes}
      → length back ≡ 4
      → search_nonce s fuel (front ++ back) bits nonce ≡ ok found
      → (found.1 ≡ hash s (front ++ pack_int found.0)) × Meets bits found.1
  unfolding search_nonce
  search_nonce-Meets zero nonce back k h = cc
  search_nonce-Meets (suc fuel) nonce back {found = found} k h =
      let (zeros, cut, h1) = >>=-eq-ok (slice (hash s (front ++ pack_int nonce)) 0 bits) _ (
        rw (copy_nonce front back (pack_int nonce) sized k (length-pack_int nonce), search_nonce) at
          h) in
      elim (Bool-cases (bytes_equal zeros (make_bytes bits))) [
        | inl hit ↦
            subst (λ (x : ℕ × Bytes). (x.1 ≡ hash s (front ++ pack_int x.0)) × Meets bits x.1)
              (ok_injective (rw hit at h1)) (refl, (zeros, cut, hit))
        | inr miss ↦
            search_nonce-Meets fuel ((nonce + 1) % u32_mod) (pack_int nonce) (length-pack_int nonce)
              (rw miss at h1)
      ]

  -- If the nonce `k` serves, then the search finds one, given more fuel than the nonces up to `k`.
  search_nonce-finds :
      (fuel nonce k : ℕ) (back : Bytes)
      → bits ≤ 32
      → length back ≡ 4
      → nonce ≤ k
      → k < 2 ^ 32
      → k < nonce + fuel
      → Meets bits (hash s (front ++ pack_int k))
      → (found : ℕ × Bytes) × (search_nonce s fuel (front ++ back) bits nonce ≡ ok found)
  unfolding search_nonce
  search_nonce-finds zero nonce k back small l le lt enough good = absurd (omega arith)
  search_nonce-finds (suc fuel) nonce k back small l le lt enough good =
      elim (Bool-cases (bytes_equal zeros (make_bytes bits))) [
        | inl hit ↦ ((nonce, digest), step (rw hit))
        | inr miss ↦
            let (found, e) =
              search_nonce-finds fuel ((nonce + 1) % u32_mod) k (pack_int nonce) small
                (length-pack_int nonce) (omega (arith, passed miss)) lt (omega (arith, passed miss))
                good in
            (found, step (rw miss e))
      ]
    where
      digest : Bytes
      digest = hash s (front ++ pack_int nonce)

      zeros : Bytes
      zeros = take (bits - 0) digest

      cut : slice digest 0 bits ≡ ok zeros
      cut = slice_front bits digest (omega (arith, length-hash s (front ++ pack_int nonce)))

      step :
          {found : ℕ × Bytes}
          → (if bytes_equal zeros (make_bytes bits)
              then ok (nonce, digest)
              else search_nonce s fuel (front ++ pack_int nonce) bits ((nonce + 1) % u32_mod))
            ≡ ok found
          → search_nonce s (suc fuel) (front ++ back) bits nonce ≡ ok found
      step e =
          rw (copy_nonce front back (pack_int nonce) sized l (length-pack_int nonce)) (rw cut e)

      passed : bytes_equal zeros (make_bytes bits) ≡ false → nonce ≢ k
      passed miss e = not_both (good_here e) miss
        where
          not_both : Meets bits digest → bytes_equal zeros (make_bytes bits) ≡ false → ⊥
          not_both (x, sliced, same) m = cc (
              ap (λ (y : Bytes). bytes_equal y (make_bytes bits)) (ok_injective (sym cut ∙ sliced)))

          good_here : nonce ≡ k → Meets bits digest
          good_here e = subst (λ (j : ℕ). Meets bits (hash s (front ++ pack_int j))) (sym e) good

-- No transaction is a coinbase.
abbrev pub HasNoCoinbase : List Transaction → Type 0
HasNoCoinbase txs = All (λ tx. (tx.type == coinbase) ≡ false) txs

no_early_coinbase-append :
    (txs : List Transaction) (last : Transaction)
    → HasNoCoinbase txs
    → no_early_coinbase (txs ++ last ∷ []) ≡ ok tt
unfolding no_early_coinbase
no_early_coinbase-append [] last h = refl
no_early_coinbase-append (tx ∷ []) last h = rw h.0
no_early_coinbase-append (tx ∷ u ∷ txs) last h =
    rw h.0 (no_early_coinbase-append (u ∷ txs) last h.1)

verify_coinbase_tx-make :
    (txs : List Transaction) (decoded : Bytes)
    → verify_coinbase_tx (make_coinbase_tx txs decoded) ≡ ok tt
unfolding verify_coinbase_tx make_coinbase_tx
verify_coinbase_tx-make txs decoded = refl

nonempty_append :
    (txs : List Transaction) (tx : Transaction) → (length (txs ++ tx ∷ []) == 0) ≡ false
nonempty_append [] tx = refl
nonempty_append (u ∷ txs) tx = ground arith

same_number : (n : ℕ) → (n == n) ≡ true
same_number n = ground arith

module _ (g : Setting) (prev decoded : Bytes) (now : ℕ) (txs : List Transaction) where
  abbrev all_txs : List Transaction
  all_txs = txs ++ make_coinbase_tx txs decoded ∷ []

  -- The block before the search for its nonce.
  abbrev draft : Bytes → Block
  draft root = record {
    prev_block = prev;
    merkle_root = root;
    timestamp = now;
    nonce = 0;
    bits = g.difficulty;
    block_hash = [];
    transactions = [];
  }

  abbrev mined : Bytes → ℕ × Bytes → Block
  mined root found = record (draft root) {
    nonce = found.0;
    block_hash = found.1;
    transactions = all_txs;
  }

  generate_block-search :
      (b : Block)
      → generate_block g prev txs decoded now ≡ ok b
      → (root : Bytes) × (found : ℕ × Bytes) × (build_merkle_tree_store g.log2 g.scrypt all_txs
          ≡ ok root)
        × (search_nonce g.scrypt g.fuel (header (draft root) ++ pack_int 0) g.difficulty 0
            ≡ ok found)
        × (mined root found ≡ b)
  unfolding generate_block proof_of_work
  generate_block-search b h =
      let (root, built, h1) = >>=-eq-ok (build_merkle_tree_store g.log2 g.scrypt all_txs) _ h in
      let (block, worked, h2) = >>=-eq-ok (proof_of_work g.scrypt g.fuel (draft root)) _ h1 in
      let (found, searched, h3) =
        >>=-eq-ok (search_nonce g.scrypt g.fuel (header (draft root) ++ pack_int 0) g.difficulty 0)
          _ (rw (pack-header (draft root), proof_of_work) at worked) in
      (
        root,
        found,
        built,
        searched,
        ap (λ (x : Block). record x { transactions = all_txs }) (ok_injective h3) ∙ ok_injective h2,
      )

  mined-valid :
      (root : Bytes) (found : ℕ × Bytes)
      → build_merkle_tree_store g.log2 g.scrypt all_txs ≡ ok root
      → found.1 ≡ hash g.scrypt (header (draft root) ++ pack_int found.0)
      → Meets g.difficulty found.1
      → HasNoCoinbase txs
      → validate_block g (mined root found) ≡ ok tt
  unfolding validate_block header make_coinbase_tx
  mined-valid root found built hashed (front, cut, zeros) plain =
      rw (nonempty_append txs (make_coinbase_tx txs decoded), same_number g.difficulty)
        (rw (cut, zeros, pack-header (mined root found), ← hashed, bytes_equal_refl found.1)
          (rw (built, bytes_equal_refl root, last?-append txs (make_coinbase_tx txs decoded))
            (no_early_coinbase-append txs (make_coinbase_tx txs decoded) plain)))

  -- If no transaction is a coinbase, then a block that `GenerateBlock` returns passes
  -- `ValidateBlock`, its transactions are those given with one coinbase at the end, and its
  -- predecessor is the one given.
  pub generate_block-valid :
      (b : Block)
      → HasNoCoinbase txs
      → generate_block g prev txs decoded now ≡ ok b
      → (validate_block g b ≡ ok tt)
        × (b.transactions ≡ txs ++ make_coinbase_tx txs decoded ∷ [])
        × (b.prev_block ≡ prev)
  generate_block-valid b plain h =
      let (root, found, built, searched, same) = generate_block-search b h in
      let (hashed, good) =
        search_nonce-Meets g.scrypt (header (draft root)) (length-header (draft root)) g.difficulty
          g.fuel 0 (pack_int 0) (length-pack_int 0) searched in
      (
        subst (λ (x : Block). validate_block g x ≡ ok tt) same
            (mined-valid root found built hashed good plain),
        ap (λ (x : Block). x.transactions) (sym same),
        ap (λ (x : Block). x.prev_block) (sym same),
      )

  -- If the Merkle root can be computed, the difficulty is at most 32 bytes and some nonce below 2
  -- ^ 32 and below the fuel gives a hash that meets it, then `GenerateBlock` returns a block.
  pub generate_block-returns :
      (root : Bytes) (k : ℕ)
      → build_merkle_tree_store g.log2 g.scrypt (txs ++ make_coinbase_tx txs decoded ∷ []) ≡ ok root
      → g.difficulty ≤ 32
      → k < 2 ^ 32
      → k < g.fuel
      → Meets g.difficulty (hash g.scrypt (header (draft root) ++ pack_int k))
      → (b : Block) × (generate_block g prev txs decoded now ≡ ok b)
  unfolding generate_block proof_of_work
  generate_block-returns root k built small lt enough good =
      let (found, e) =
        search_nonce-finds g.scrypt (header (draft root)) (length-header (draft root)) g.difficulty
          g.fuel 0 k (pack_int 0) small (length-pack_int 0) (omega arith) lt (omega arith) good in
      (mined root found, rw (built, pack-header (draft root)) (rw e))
