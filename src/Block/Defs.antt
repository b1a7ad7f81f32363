-- ===== src/Block/Defs.antt =====
-- The functions of src/node/block.go. `DIFFICULTY` is an argument, since the program sets it,
-- as are the clock's reading and base64's decoding of the miner's address.
use dreddit.Base.{
  ℕ, zero, suc, ◌+◌, ◌*◌, ◌%◌, not, List, [], ◌∷◌, ◌++◌, none, Bytes, bytes_equal, ◌==◌,
  if◌then◌else◌, length, last?, is_some, Result, ok, out_of_fuel, ◌>>=◌, ◌>>◌, require, or_panic,
  index_out_of_range, last_not_coinbase, coinbase_has_tx_in, coinbase_tx_out_count,
  coinbase_has_parent, coinbase_has_content, empty_transaction_list, wrong_difficulty,
  hash_misses_difficulty, wrong_block_hash, wrong_merkle_root, coinbase_not_last,
}
use dreddit.Slice.{make_bytes, copy_slice, slice, u32_mod}
use dreddit.Hash.{Scrypt, hash, hash_num_bytes}
use dreddit.Tx.Types.{Transaction, coinbase, tx_fee, tx_coinbase}
use dreddit.Tx.Wire.{pack_int}
use dreddit.Merkle.Defs.{build_merkle_tree_store}
use dreddit.Block.Types.{Block, data_num_bytes}

-- The bytes of the version, "\x01\x00\x00\x00".
abbrev pub version : Bytes
version = 1 ∷ 0 ∷ 0 ∷ 0 ∷ []

unfoldable pub pack : Block → Result Bytes
pack b = do
  d0 ← copy_slice 0 4 version (make_bytes data_num_bytes)
  d1 ← copy_slice 4 (4 + hash_num_bytes) b.prev_block d0
  d2 ← copy_slice (4 + hash_num_bytes) (4 + 2 * hash_num_bytes) b.merkle_root d1
  d3 ← copy_slice (4 + 2 * hash_num_bytes) (8 + 2 * hash_num_bytes) (pack_int b.timestamp) d2
  d4 ← copy_slice (8 + 2 * hash_num_bytes) (12 + 2 * hash_num_bytes) (pack_int b.bits) d3
  copy_slice (12 + 2 * hash_num_bytes) (16 + 2 * hash_num_bytes) (pack_int b.nonce) d4

-- `decoded` is the address that base64 decodes from `pubHash`.
unfoldable pub make_coinbase_tx : List Transaction → Bytes → Transaction
make_coinbase_tx txs decoded = record {
  type = coinbase;
  tx_ins = none;
  tx_outs =
      record { value = (length txs * tx_fee + tx_coinbase) % u32_mod; pub_key_hash = decoded } ∷ [];
  parent = none;
  content = none;
}

unfoldable pub verify_coinbase_tx : Transaction → Result (Unit {0})
verify_coinbase_tx tx = do
  require (tx.type == coinbase) last_not_coinbase
  require (not (is_some tx.tx_ins)) coinbase_has_tx_in
  require (length tx.tx_outs == 1) coinbase_tx_out_count
  require (not (is_some tx.parent)) coinbase_has_parent
  require (not (is_some tx.content)) coinbase_has_content

-- The search for a nonce, which wraps at 2 ^ 32 and may not end: on fuel.
unfoldable pub search_nonce : Scrypt → ℕ → Bytes → ℕ → ℕ → Result (ℕ × Bytes)
search_nonce s zero d bits nonce = out_of_fuel
search_nonce s (suc fuel) d bits nonce = copy_slice 76 80 (pack_int nonce) d >>= λ d'.
    slice (hash s d') 0 bits >>= λ front.
    let again = search_nonce s fuel d' bits ((nonce + 1) % u32_mod) in
    if bytes_equal front (make_bytes bits) then ok (nonce, hash s d') else again

unfoldable pub proof_of_work : Scrypt → ℕ → Block → Result Block
unfolding pack search_nonce
proof_of_work s fuel b = do
  d ← pack b
  found ← search_nonce s fuel d b.bits 0
  ok (record b { nonce = found.0; block_hash = found.1 })

-- What a node is given from outside: `log2` is Go's float logarithm, `difficulty` the variable
-- DIFFICULTY, `fuel` bounds the search for a nonce.
pub record Setting : Type 0 where
  pub scrypt : Scrypt
  pub log2 : ℕ → ℕ
  pub difficulty : ℕ
  pub fuel : ℕ

-- `now` is the clock's reading as a uint32.
unfoldable pub generate_block : Setting → Bytes → List Transaction → Bytes → ℕ → Result Block
unfolding make_coinbase_tx proof_of_work
generate_block g prev txs decoded now = do
  let all = txs ++ make_coinbase_tx txs decoded ∷ []
  root ← build_merkle_tree_store g.log2 g.scrypt all
  found ← proof_of_work g.scrypt g.fuel (record {
    prev_block = prev;
    merkle_root = root;
    timestamp = now;
    nonce = 0;
    bits = g.difficulty;
    block_hash = [];
    transactions = [];
  })
  ok (record found { transactions = all })

-- The last loop of ValidateBlock: no coinbase but in the last place.
unfoldable pub no_early_coinbase : List Transaction → Result (Unit {0})
no_early_coinbase [] = ok tt
no_early_coinbase (tx ∷ []) = ok tt
no_early_coinbase (tx ∷ u ∷ txs) =
    require (not (tx.type == coinbase)) coinbase_not_last >>= λ _. no_early_coinbase (u ∷ txs)

unfoldable pub validate_block : Setting → Block → Result (Unit {0})
unfolding verify_coinbase_tx no_early_coinbase
validate_block g b = do
  require (not (length b.transactions == 0)) empty_transaction_list
  require (b.bits == g.difficulty) wrong_difficulty
  front ← slice b.block_hash 0 b.bits
  require (bytes_equal front (make_bytes b.bits)) hash_misses_difficulty
  d ← pack b
  require (bytes_equal b.block_hash (hash g.scrypt d)) wrong_block_hash
  root ← build_merkle_tree_store g.log2 g.scrypt b.transactions
  require (bytes_equal b.merkle_root root) wrong_merkle_root
  last ← or_panic (last? b.transactions) index_out_of_range
  verify_coinbase_tx last
  no_early_coinbase b.transactions
