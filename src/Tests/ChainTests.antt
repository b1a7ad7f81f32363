-- ===== src/Tests/ChainTests.antt =====
-- The Merkle tree, blocks and the chain.
use dreddit.Node.Validate.{validate_block_txs}
use dreddit.Utxo.Defs.{UtxoOutput, update_utxo_db, spend_all, add_outputs, add_output}
use mathlib.Core.Path.{subst}
use dreddit.Base.{
  ℕ, zero, suc, ◌+◌, ◌*◌, ◌^◌, ◌≤◌, ◌<◌, ◌≡◌, refl, ltb, inl, inr, true, false, Bool-cases, List,
  [], ◌∷◌, ◌++◌, Option, none, some, Bytes, length, Error, ok, arith, pos, ◌⊎◌, ◌/◌,
}
use dreddit.Tests.Toy.{
  toy_scrypt, toy_ecdsa, toy_setting, floor_log2, log2_32, bob_hash, fair, minting, small_db,
}
use dreddit.Slice.{make_bytes, slice, copy_slice, fit}
use dreddit.Hash.{hash}
use dreddit.Dict.{insert, lookup}
use dreddit.Tx.Types.{Transaction}
use dreddit.Tx.Wire.{pack_int, tx_in_pack, tx_out_pack, tx_hash}
use dreddit.Merkle.Defs.{build_merkle_tree_store, next_power_of_two}
use dreddit.Merkle.Rows.{root_of, pow_double}
use dreddit.Merkle.Loop.{branches}
use dreddit.Merkle.Root.{
  IsLog2, AreHashes, next_power_of_two-least, build_merkle_tree_store-root_of,
}
use dreddit.Block.Types.{Block}
use dreddit.Block.Defs.{pack, make_coinbase_tx, generate_block, validate_block}
use dreddit.Block.Valid.{IsValid, validate_block_iff}
use dreddit.Base.{◌↔◌}
use dreddit.Block.Header.{header, IsSized, pack_injective}
use dreddit.Block.Mined.{generate_block-valid, generate_block-returns}
use dreddit.Node.Mine.{mine_block, prev_block_hash}
use dreddit.Node.Mined.{Mined, mine_block-Mined}
use dreddit.Node.State.{DrNode}
use dreddit.Node.Chain.SendBlock.{extends, send_block, replay_log}
use dreddit.Node.Chain.MainChain.{HasNoSide}
use dreddit.Node.Chain.Growth.{Joined, Ignored, send_block-Outcome, replay_log-doubles}

ltb→lt : (a b : ℕ) → ltb a b ≡ true → a < b
ltb→lt a b h = ground arith

ltb→ge : (a b : ℕ) → ltb a b ≡ false → b ≤ a
ltb→ge a b h = ground arith

one_more : (l n : ℕ) → n / 2 < 2 ^ (l + 1) → n < 2 ^ (suc l + 1)
one_more l n h =
    subst (λ (m : ℕ). n < 2 ^ m) {x = suc (l + 1)} (omega arith)
      (omega (arith, h, pow_double (l + 1)))

floor_log2-IsLog2 :
    (rounds n : ℕ)
    → 1 ≤ n
    → n < 2 ^ rounds
    → (2 ^ floor_log2 rounds n ≤ n) × (n < 2 ^ (floor_log2 rounds n + 1))
floor_log2-IsLog2 zero n some_n small = absurd (omega arith)
floor_log2-IsLog2 (suc rounds) n some_n small = elim (Bool-cases (ltb n 2)) [
  | inl one ↦ rw one (omega (arith, ltb→lt n 2 one), omega (arith, ltb→lt n 2 one))
  | inr more ↦
      let (low, high) =
        floor_log2-IsLog2 rounds (n / 2) (omega (arith, ltb→ge n 2 more))
          (omega (arith, pow_double rounds)) in
      rw more (
        omega (arith, low, pow_double (floor_log2 rounds (n / 2))),
        one_more (floor_log2 rounds (n / 2)) n high,
      )
]

log2_32-IsLog2 : IsLog2 log2_32
log2_32-IsLog2 n some_n small = floor_log2-IsLog2 32 n some_n small

abbrev pub first_block : Block
first_block = record {
  prev_block = make_bytes 32;
  merkle_root = fit 32 (100 ∷ []);
  timestamp = 5;
  nonce = 246;
  bits = 1;
  block_hash = make_bytes 32;
  transactions = make_coinbase_tx [] bob_hash ∷ [];
}

abbrev seconds : List Transaction
seconds = fair ∷ minting ∷ fair ∷ []

abbrev seconds_hashes : List Bytes
seconds_hashes = fit 32 (158 ∷ []) ∷ fit 32 (67 ∷ []) ∷ fit 32 (158 ∷ []) ∷ []

seconds_hashed : AreHashes toy_scrypt seconds seconds_hashes
unfolding tx_hash hash copy_slice pack_int tx_in_pack tx_out_pack
seconds_hashed = (refl, (refl, (refl, tt)))

build_merkle_tree_store-root_of_example :
    build_merkle_tree_store log2_32 toy_scrypt seconds
    ≡ ok (root_of (branches toy_scrypt) (length seconds_hashes) seconds_hashes)
build_merkle_tree_store-root_of_example =
    build_merkle_tree_store-root_of log2_32 toy_scrypt seconds seconds_hashes log2_32-IsLog2
      seconds_hashed (omega arith) (omega arith)

next_power_of_two-least_example :
    (k : ℕ) × (next_power_of_two log2_32 5 ≡ 2 ^ k) × (5 ≤ 2 ^ k) × (2 ^ k < 2 * 5)
next_power_of_two-least_example =
    next_power_of_two-least log2_32 5 log2_32-IsLog2 (omega arith) (omega arith)

first_generated : generate_block toy_setting (make_bytes 32) [] bob_hash 5 ≡ ok first_block
unfolding generate_block build_merkle_tree_store tx_hash tx_out_pack copy_slice pack_int hash slice
first_generated = refl

generate_block-valid_example :
    (validate_block toy_setting first_block ≡ ok tt)
    × (first_block.transactions ≡ make_coinbase_tx [] bob_hash ∷ [])
    × (first_block.prev_block ≡ make_bytes 32)
generate_block-valid_example =
    generate_block-valid toy_setting (make_bytes 32) bob_hash 5 [] first_block tt first_generated

generate_block-returns_example :
    (b : Block) × (generate_block toy_setting (make_bytes 32) [] bob_hash 5 ≡ ok b)
unfolding build_merkle_tree_store make_coinbase_tx hash pack_int tx_hash tx_out_pack copy_slice
    slice header
generate_block-returns_example =
    generate_block-returns toy_setting (make_bytes 32) bob_hash 5 [] (fit 32 (100 ∷ [])) 246 refl
      (omega arith) (omega arith) (omega arith) (0 ∷ [], refl, refl)

first_IsSized : IsSized first_block
first_IsSized = record {
  prev = refl;
  root = refl;
  time = omega arith;
  bits = omega arith;
  nonce = omega arith;
}

pack_injective_example :
    (first_block.prev_block ≡ first_block.prev_block)
    × (first_block.merkle_root ≡ first_block.merkle_root)
    × (first_block.timestamp ≡ first_block.timestamp)
    × (first_block.bits ≡ first_block.bits)
    × (first_block.nonce ≡ first_block.nonce)
pack_injective_example = pack_injective first_block first_block first_IsSized first_IsSized refl

abbrev pub paid_to_bob : UtxoOutput
paid_to_bob = record { spent = false; pub_key_hash = bob_hash; value = 100 }

-- A node that has nothing but the log `log`.
abbrev node_with : List Block → DrNode
node_with log = record {
  me = 0;
  pub_hash = [];
  num_pending = pos 0;
  pending_txs = [];
  seen_txs = [];
  blockchain = [];
  heap = [];
  side_chains = [];
  orphan_chains = [];
  log = log;
  utxo = small_db;
  port = [];
  ports = [];
  servers = [];
}

-- The node after the first block.
abbrev grown : List Block → DrNode
grown log = record (node_with log) {
  blockchain = some first_block ∷ [];
  utxo = small_db ++ (fit 32 (100 ∷ []), (0, paid_to_bob) ∷ []) ∷ [];
}

node_with-HasNoSide : (log : List Block) → HasNoSide (node_with log)
node_with-HasNoSide log = record { no_side_chains = refl; no_orphans = refl }

first_sent :
    send_block toy_setting toy_ecdsa (node_with []) first_block
    ≡ ok (grown (first_block ∷ []), none)
unfolding send_block validate_block validate_block_txs update_utxo_db slice pack copy_slice pack_int
    hash build_merkle_tree_store tx_hash make_coinbase_tx tx_out_pack insert lookup spend_all
    add_outputs add_output
first_sent = refl

send_block-Outcome_example :
    HasNoSide (grown (first_block ∷ []))
    × (first_block ∷ [] ≡ [] ++ first_block ∷ [])
    × ((Joined toy_setting toy_ecdsa (node_with []) first_block (grown (first_block ∷ []))
          × ◌≡◌ {A = Option Error} none none)
        ⊎ Ignored (node_with []) (grown (first_block ∷ [])))
send_block-Outcome_example =
    send_block-Outcome toy_setting toy_ecdsa (node_with []) first_block (grown (first_block ∷ []))
      none (node_with-HasNoSide []) first_sent

first_replayed :
    replay_log toy_setting toy_ecdsa (node_with (first_block ∷ []))
    ≡ ok (grown (first_block ∷ first_block ∷ []))
unfolding replay_log validate_block validate_block_txs update_utxo_db slice pack copy_slice pack_int
    hash build_merkle_tree_store tx_hash make_coinbase_tx tx_out_pack insert lookup spend_all
    add_outputs add_output
first_replayed = refl

replay_log-doubles_example : first_block ∷ first_block ∷ [] ≡ (first_block ∷ []) ++ first_block ∷ []
replay_log-doubles_example =
    replay_log-doubles toy_setting toy_ecdsa (node_with (first_block ∷ []))
      (grown (first_block ∷ first_block ∷ [])) (node_with-HasNoSide (first_block ∷ []))
      first_replayed

validate_block_iff_example :
    (validate_block toy_setting first_block ≡ ok tt) ↔ IsValid toy_setting first_block
validate_block_iff_example = validate_block_iff toy_setting first_block

first_mined :
    mine_block toy_setting toy_ecdsa bob_hash 5 (node_with []) ≡ ok (grown (first_block ∷ []))
unfolding mine_block generate_block build_merkle_tree_store tx_hash tx_out_pack copy_slice pack_int
    hash slice make_coinbase_tx insert lookup update_utxo_db spend_all add_outputs add_output
    prev_block_hash extends
first_mined = refl

mine_block-Mined_example : Mined toy_setting toy_ecdsa (node_with []) (grown (first_block ∷ []))
mine_block-Mined_example =
    mine_block-Mined toy_setting toy_ecdsa bob_hash 5 (node_with []) (grown (first_block ∷ [])) tt
      first_mined
