-- ===== src/Tx/Types.antt =====
-- The data of src/node/transaction.go. A slice whose nilness the code tests is an `Option`.
use dreddit.Base.{ℕ, List, Option, Bytes}

abbrev pub coinbase : ℕ
coinbase = 0

abbrev pub transfer : ℕ
transfer = 1

abbrev pub post : ℕ
post = 2

abbrev pub comment : ℕ
comment = 3

abbrev pub upvote : ℕ
upvote = 4

abbrev pub tx_fee : ℕ
tx_fee = 1

abbrev pub tx_upvote : ℕ
tx_upvote = 10

abbrev pub tx_coinbase : ℕ
tx_coinbase = 100

pub record TxIn : Type 0 where
  pub prev_tx_hash : Bytes
  pub prev_tx_out_index : ℕ
  pub sig : Bytes
  pub pub_key : Bytes

pub record TxOut : Type 0 where
  pub value : ℕ
  pub pub_key_hash : Bytes

pub record Transaction : Type 0 where
  pub type : ℕ
  pub tx_ins : Option (List TxIn)
  pub tx_outs : List TxOut
  pub parent : Option Bytes
  pub content : Option Bytes
