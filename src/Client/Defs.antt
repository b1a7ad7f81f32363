-- ===== src/Client/Defs.antt =====
-- The client of src/client/client.go: what it keeps of the chain's transactions. Its second program,
-- src/client/client2.go, has the same functions.
use dreddit.Base.{
  ℕ, ◌+◌, ◌/◌, ◌%◌, ◌||◌, Bool, List, [], ◌∷◌, ◌++◌, Option, none, some, Bytes, bytes_eq, ltb, ◌==◌,
  if◌then◌else◌, get_elem?, elems, Result, ok, ◌>>=◌, or_panic, index_out_of_range, nil_dereference,
}
use dreddit.Slice.{slice}
use dreddit.Dict.{Dict, lookup, insert}
use dreddit.Hash.{Scrypt}
use dreddit.Tx.Types.{Transaction, post, comment, upvote}
use dreddit.Tx.Wire.{tx_hash}
use dreddit.Block.Types.{Block}

pub record TxClient : Type 0 where
  pub tx : Transaction
  pub hash : Bytes
  pub score : ℕ
  pub address : Bytes

-- `server` is the port that net/rpc has reached, or nil.
pub record Client : Type 0 where
  pub clerk_port : Bytes
  pub node_port : Bytes
  pub server : Option Bytes
  pub hash_map : Dict Bytes TxClient

unfoldable pub make_client : (Bytes → Bool) → Bytes → Bytes → Client
make_client dial clerk_port node_port = record {
  clerk_port = clerk_port;
  node_port = node_port;
  server = if dial node_port then some node_port else none;
  hash_map = [];
}

-- A digit of `%x`.
abbrev pub hex_digit : ℕ → ℕ
hex_digit n = if ltb n 10 then 48 + n else 87 + n

abbrev pub hex : Bytes → Bytes
hex [] = []
hex (b ∷ bs) = hex_digit (b / 16) ∷ hex_digit (b % 16) ∷ hex bs

-- `fmt.Sprintf("%x\n", hash[0:6])`
unfoldable pub tx_key : Bytes → Result Bytes
tx_key h = slice h 0 6 >>= λ front. ok (hex front ++ 10 ∷ [])

-- The transactions of all blocks.
unfoldable pub all_txs : List Block → List Transaction
all_txs [] = []
all_txs (b ∷ chain) = b.transactions ++ all_txs chain

-- `tx.Type == node.POST || tx.Type == node.COMMENT`
abbrev pub is_content : Transaction → Bool
is_content tx = tx.type == post || tx.type == comment

-- A round of the first loop of renderFrontPage: the transaction's entry, without upvotes yet.
unfoldable pub enter : Scrypt → Transaction → Dict Bytes TxClient → Result (Dict Bytes TxClient)
unfolding tx_key
enter s tx m = do
  h ← tx_hash s tx
  key ← tx_key h
  let m1 = insert key (record { tx = tx; hash = h; score = 0; address = [] }) m
  if is_content tx
      then (or_panic (get_elem? tx.tx_outs 0) index_out_of_range >>= λ o.
          or_panic (lookup key m1) nil_dereference >>= λ e.
          ok (insert key (record e { address = o.pub_key_hash }) m1))
      else ok m1

unfoldable pub enter_all :
    Scrypt → List Transaction → Dict Bytes TxClient → Result (Dict Bytes TxClient)
unfolding enter
enter_all s [] m = ok m
enter_all s (tx ∷ txs) m = enter s tx m >>= enter_all s txs

-- A round of the second loop.
unfoldable pub count_upvote : Transaction → Dict Bytes TxClient → Result (Dict Bytes TxClient)
unfolding tx_key
count_upvote tx m =
    if tx.type == upvote
    then (tx_key (elems tx.parent) >>= λ key. or_panic (lookup key m) nil_dereference >>= λ e.
        ok (insert key (record e { score = e.score + 1 }) m))
    else ok m

unfoldable pub count_upvotes : List Transaction → Dict Bytes TxClient → Result (Dict Bytes TxClient)
unfolding count_upvote
count_upvotes [] m = ok m
count_upvotes (tx ∷ txs) m = count_upvote tx m >>= count_upvotes txs
