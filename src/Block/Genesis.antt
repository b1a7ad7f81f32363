-- ===== src/Block/Genesis.antt =====
-- GenerateGenesisBlock of src/node/block.go. `decode` is the decoding of base64.
use dreddit.Base.{List, [], ◌∷◌, none, Bytes, map, Result, ok, ◌>>=◌}
use dreddit.Slice.{make_bytes}
use dreddit.Hash.{hash_num_bytes}
use dreddit.Tx.Types.{TxOut, Transaction, coinbase}
use dreddit.Merkle.Defs.{build_merkle_tree_store}
use dreddit.Block.Types.{Block}
use dreddit.Block.Defs.{Setting, proof_of_work}

-- The ten addresses, as the bytes of their base64 texts.
abbrev pub genesis_addresses : List Bytes
genesis_addresses =
    (101 ∷ 107 ∷ 90 ∷ 116 ∷ 118 ∷ 72 ∷ 89 ∷ 57 ∷ 88 ∷ 119 ∷ 105 ∷ 71 ∷ 98 ∷ 110 ∷ 122 ∷ 121 ∷ 86
      ∷ 79 ∷ 118 ∷ 118 ∷ 77 ∷ 104 ∷ 67 ∷ 69 ∷ 68 ∷ 83 ∷ 69 ∷ 61 ∷ [])
    ∷ (50 ∷ 87 ∷ 84 ∷ 117 ∷ 52 ∷ 48 ∷ 88 ∷ 90 ∷ 109 ∷ 68 ∷ 69 ∷ 101 ∷ 86 ∷ 88 ∷ 112 ∷ 108 ∷ 90 ∷ 77
        ∷ 77 ∷ 98 ∷ 82 ∷ 76 ∷ 99 ∷ 112 ∷ 48 ∷ 65 ∷ 119 ∷ 61 ∷ [])
    ∷ (120 ∷ 82 ∷ 52 ∷ 56 ∷ 81 ∷ 113 ∷ 80 ∷ 114 ∷ 79 ∷ 73 ∷ 82 ∷ 43 ∷ 97 ∷ 69 ∷ 111 ∷ 65 ∷ 105 ∷ 103
        ∷ 66 ∷ 86 ∷ 88 ∷ 73 ∷ 88 ∷ 102 ∷ 118 ∷ 114 ∷ 73 ∷ 61 ∷ [])
    ∷ (70 ∷ 97 ∷ 103 ∷ 48 ∷ 87 ∷ 80 ∷ 74 ∷ 101 ∷ 102 ∷ 65 ∷ 81 ∷ 109 ∷ 114 ∷ 69 ∷ 49 ∷ 116 ∷ 105
        ∷ 105 ∷ 75 ∷ 81 ∷ 79 ∷ 114 ∷ 122 ∷ 107 ∷ 119 ∷ 74 ∷ 48 ∷ 61 ∷ [])
    ∷ (103 ∷ 121 ∷ 48 ∷ 81 ∷ 97 ∷ 79 ∷ 73 ∷ 43 ∷ 51 ∷ 110 ∷ 73 ∷ 49 ∷ 54 ∷ 111 ∷ 122 ∷ 54 ∷ 108
        ∷ 110 ∷ 109 ∷ 117 ∷ 65 ∷ 56 ∷ 122 ∷ 71 ∷ 122 ∷ 71 ∷ 107 ∷ 61 ∷ [])
    ∷ (99 ∷ 80 ∷ 101 ∷ 72 ∷ 80 ∷ 50 ∷ 47 ∷ 117 ∷ 121 ∷ 117 ∷ 55 ∷ 116 ∷ 117 ∷ 122 ∷ 79 ∷ 112 ∷ 116
        ∷ 113 ∷ 103 ∷ 76 ∷ 57 ∷ 89 ∷ 51 ∷ 82 ∷ 51 ∷ 47 ∷ 73 ∷ 61 ∷ [])
    ∷ (117 ∷ 104 ∷ 86 ∷ 87 ∷ 119 ∷ 115 ∷ 52 ∷ 120 ∷ 103 ∷ 117 ∷ 47 ∷ 78 ∷ 57 ∷ 108 ∷ 98 ∷ 97 ∷ 43
        ∷ 53 ∷ 112 ∷ 103 ∷ 54 ∷ 118 ∷ 51 ∷ 88 ∷ 75 ∷ 71 ∷ 89 ∷ 61 ∷ [])
    ∷ (117 ∷ 83 ∷ 65 ∷ 102 ∷ 84 ∷ 104 ∷ 70 ∷ 112 ∷ 85 ∷ 82 ∷ 117 ∷ 43 ∷ 55 ∷ 77 ∷ 78 ∷ 55 ∷ 68 ∷ 108
        ∷ 52 ∷ 89 ∷ 79 ∷ 81 ∷ 87 ∷ 103 ∷ 79 ∷ 47 ∷ 56 ∷ 61 ∷ [])
    ∷ (113 ∷ 121 ∷ 102 ∷ 110 ∷ 97 ∷ 111 ∷ 82 ∷ 75 ∷ 85 ∷ 110 ∷ 70 ∷ 84 ∷ 100 ∷ 103 ∷ 86 ∷ 76 ∷ 112
        ∷ 43 ∷ 50 ∷ 48 ∷ 89 ∷ 67 ∷ 49 ∷ 75 ∷ 84 ∷ 86 ∷ 107 ∷ 61 ∷ [])
    ∷ (73 ∷ 74 ∷ 77 ∷ 79 ∷ 55 ∷ 47 ∷ 56 ∷ 119 ∷ 73 ∷ 101 ∷ 121 ∷ 83 ∷ 49 ∷ 47 ∷ 103 ∷ 86 ∷ 68 ∷ 69
        ∷ 105 ∷ 90 ∷ 118 ∷ 88 ∷ 111 ∷ 76 ∷ 116 ∷ 52 ∷ 69 ∷ 61 ∷ [])
    ∷ []

abbrev pub genesis_out : (Bytes → Bytes) → Bytes → TxOut
genesis_out decode address = record { value = 100; pub_key_hash = decode address }

unfoldable pub genesis_tx : (Bytes → Bytes) → Transaction
genesis_tx decode = record {
  type = coinbase;
  tx_ins = none;
  tx_outs = map (genesis_out decode) genesis_addresses;
  parent = none;
  content = none;
}

unfoldable pub genesis_block : Setting → (Bytes → Bytes) → Result Block
unfolding genesis_tx
genesis_block g decode = do
  let txs = genesis_tx decode ∷ []
  root ← build_merkle_tree_store g.log2 g.scrypt txs
  found ← proof_of_work g.scrypt g.fuel (record {
    prev_block = make_bytes hash_num_bytes;
    merkle_root = root;
    timestamp = 1494688622;
    nonce = 0;
    bits = g.difficulty;
    block_hash = [];
    transactions = [];
  })
  ok (record found { transactions = txs })
