-- ===== src/Block/Types.antt =====
-- The data of src/node/block.go.
use dreddit.Base.{ℕ, List, Bytes}
use dreddit.Tx.Types.{Transaction}

abbrev pub data_num_bytes : ℕ
data_num_bytes = 80

pub record Block : Type 0 where
  pub prev_block : Bytes
  pub merkle_root : Bytes
  pub timestamp : ℕ
  pub nonce : ℕ
  pub bits : ℕ
  pub block_hash : Bytes
  pub transactions : List Transaction
