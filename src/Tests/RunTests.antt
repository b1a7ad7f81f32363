-- ===== src/Tests/RunTests.antt =====
-- A node over time: the steps of a run, and the replies that a waiting request gets.
use dreddit.Base.{ℕ, ◌≡◌, refl, false, [], ◌∷◌, some, Bytes, bytes_eq, ok, pos}
use dreddit.Tests.Toy.{toy_ecdsa, toy_setting, bob_hash, alice_hash, fair, small_db}
use dreddit.Slice.{make_bytes, slice, copy_slice, fit}
use dreddit.Hash.{hash, pk_hash}
use dreddit.Dict.{insert, delete, lookup}
use dreddit.Tx.Check.{validate_structure}
use dreddit.Node.Validate.{validate_transaction, check_input, check_signature, verify_signature}
use dreddit.Node.Chain.SendBlock.{extends}
use dreddit.Tx.Wire.{
  pack_int, tx_in_pack, tx_out_pack, tx_hash, tx_hash_no_sig, validate_components,
  tx_in_pack_no_sig,
}
use dreddit.Merkle.Defs.{build_merkle_tree_store}
use dreddit.Block.Types.{Block}
use dreddit.Block.Defs.{make_coinbase_tx, generate_block}
use dreddit.Node.Mine.{mine_block, prev_block_hash}
use dreddit.Utxo.Defs.{UtxoOutput, update_utxo_db, spend, spend_all, add_outputs, add_output}
use dreddit.Node.Requests.{is_among}
use dreddit.Node.Run.Sound.{IsSound}
use dreddit.Node.Run.Live.{Answered, mine_block-answers}
use dreddit.Node.State.{DrNode, TxNode, pending, success}

abbrev fair_hash : Bytes
fair_hash = fit 32 (158 ∷ [])

abbrev fair_node : TxNode
fair_node = record { tx = fair; clerk_id = 3; status = pending; hash = fair_hash }

-- A node with one waiting transaction.
abbrev waiting_node : DrNode
waiting_node = record {
  me = 0;
  pub_hash = [];
  num_pending = pos 1;
  pending_txs = (fair_hash, fair_node) ∷ [];
  seen_txs = fair_hash ∷ [];
  blockchain = [];
  heap = [];
  side_chains = [];
  orphan_chains = [];
  log = [];
  utxo = small_db;
  port = [];
  ports = [];
  servers = [];
}

abbrev mined_block : Block
mined_block = record {
  prev_block = make_bytes 32;
  merkle_root = fit 32 (69 ∷ []);
  timestamp = 5;
  nonce = 184;
  bits = 1;
  block_hash = make_bytes 32;
  transactions = fair ∷ make_coinbase_tx (fair ∷ []) bob_hash ∷ [];
}

abbrev fresh_coin : Bytes → ℕ → UtxoOutput
fresh_coin owner value = record { spent = false; pub_key_hash = owner; value = value }

-- It has mined the transaction.
abbrev served_node : DrNode
served_node = record waiting_node {
  num_pending = pos 0;
  pending_txs = (fair_hash, record fair_node { status = success }) ∷ [];
  blockchain = some mined_block ∷ [];
  log = mined_block ∷ [];
  utxo =
      (fair_hash, (0, fresh_coin bob_hash 60) ∷ (1, fresh_coin alice_hash 39) ∷ [])
      ∷ (fit 32 (181 ∷ []), (0, fresh_coin bob_hash 101) ∷ [])
      ∷ [];
}

fair_mined : mine_block toy_setting toy_ecdsa bob_hash 5 waiting_node ≡ ok served_node
unfolding mine_block validate_transaction tx_hash tx_in_pack copy_slice pack_int tx_out_pack
    check_input lookup check_signature tx_hash_no_sig validate_components tx_in_pack_no_sig hash
    pk_hash validate_structure generate_block build_merkle_tree_store make_coinbase_tx delete insert
    extends prev_block_hash verify_signature slice add_output add_outputs spend spend_all
    update_utxo_db
fair_mined = refl

waiting_node-IsSound : IsSound waiting_node
unfolding lookup is_among
waiting_node-IsSound = record {
  linked = tt;
  database = record { entries = (refl, tt); outputs = ((refl, tt), tt) };
  entries = record { once = (refl, tt); keyed = (refl, tt) };
  peers = record { distinct = tt; stranger = refl; parallel = refl };
  quiet = record { no_side_chains = refl; no_orphans = refl };
}

mine_block-answers_example :
    Answered toy_setting toy_ecdsa fair_hash fair_node waiting_node served_node
unfolding lookup
mine_block-answers_example =
    mine_block-answers toy_setting toy_ecdsa bob_hash 5 waiting_node served_node fair_hash fair_node
      waiting_node-IsSound refl refl fair_mined
