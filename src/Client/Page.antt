-- ===== src/Client/Page.antt =====
-- renderFrontPage, renderContent and QueryBlockchain of src/client/client.go. The page is the list of
-- the contents that it shows; the frames around them are left out.
use dreddit.Base.{
  ℕ, zero, suc, ◌+◌, ◌&&◌, Bool, true, false, List, [], ◌∷◌, ◌++◌, Option, Bytes, bytes_equal,
  bytes_eq, ◌==◌, elems, Result, ok, out_of_fuel, ◌>>=◌, or_panic, nil_dereference,
}
use dreddit.Slice.{slice}
use dreddit.Dict.{Dict, lookup}
use dreddit.Hash.{Scrypt}
use dreddit.Tx.Types.{Transaction, post, comment}
use dreddit.Tx.Wire.{tx_hash}
use dreddit.Block.Types.{Block}
use dreddit.Client.Defs.{TxClient, Client, tx_key, all_txs, enter_all, count_upvotes}

-- What is printed of a post or a comment.
pub record Shown : Type 0 where
  pub indent : ℕ
  pub score : ℕ
  pub content : Bytes
  pub front : Bytes

-- The loop over the comments on `h`, and over the posts: those that `wanted` chooses are shown.
unfoldable pub render_each :
    (Transaction → Bool)
    → (Transaction → Result (List Shown))
    → List Transaction
    → Result (List Shown)
render_each wanted render [] = ok []
render_each wanted render (tx ∷ txs) =
    elim (wanted tx) [ true ↦ render tx | false ↦ ok [] ] >>= λ here.
    render_each wanted render txs >>= λ rest. ok (here ++ rest)

-- Comments are shown below what they comment on, on fuel.
unfoldable pub render_content :
    Scrypt → Dict Bytes TxClient → List Transaction → ℕ → ℕ → Transaction → Result (List Shown)
unfolding render_each tx_key
render_content s m txs zero indent tx = out_of_fuel
render_content s m txs (suc fuel) indent tx = do
  h ← tx_hash s tx
  key ← tx_key h
  e ← or_panic (lookup key m) nil_dereference
  front ← slice h 0 6
  below ←
      render_each (λ txd. (txd.type == comment) && bytes_equal (elems txd.parent) h)
        (λ txd. render_content s m txs fuel (indent + 1) txd) txs
  ok (
      record { indent = indent; score = e.score; content = elems tx.content; front = front }
      ∷ below)

unfoldable pub render_front_page : Scrypt → ℕ → List Block → Client → Result (List Shown × Client)
unfolding render_content all_txs enter_all count_upvotes
render_front_page s fuel chain cl = do
  let txs = all_txs chain
  entered ← enter_all s txs cl.hash_map
  m ← count_upvotes txs entered
  page ← render_each (λ tx. tx.type == post) (λ tx. render_content s m txs fuel 0 tx) txs
  ok (page, record cl { hash_map = m })

-- `reply` is what net/rpc gives for GetBlockchain: an error leaves the log empty. Printing the
-- blocks is left out.
unfoldable pub query_blockchain :
    Scrypt → ℕ → Option (List Block) → Client → Result (List Shown × Client)
unfolding render_front_page
query_blockchain s fuel reply cl =
    or_panic cl.server nil_dereference >>= λ server. render_front_page s fuel (elems reply) cl
