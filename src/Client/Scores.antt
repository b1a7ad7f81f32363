-- ===== src/Client/Scores.antt =====
-- What the client of src/client/client.go has of a transaction after it has rendered its page.
use mathlib.Core.Path.{subst}
use mathlib.Core.List.{Memᴰ}
use dreddit.Base.{
  ℕ, ◌+◌, ◌≡◌, ap, List, some, Bytes, bytes_eq, ◌==◌, ok, ok_injective, >>=-eq-ok, arith,
}
use dreddit.Dict.{lookup}
use dreddit.Hash.{Scrypt}
use dreddit.Tx.Types.{Transaction, post}
use dreddit.Tx.Wire.{tx_hash}
use dreddit.Block.Types.{Block}
use dreddit.Client.Defs.{TxClient, Client, tx_key, all_txs, enter_all, count_upvotes}
use dreddit.Client.Page.{Shown, render_each, render_content, render_front_page}
use dreddit.Client.Votes.{votes, with_score, count_upvotes-votes}
use dreddit.Client.Entries.{Shows, enter_all-Fresh}

-- What the client has under `k` after it has rendered the page of a chain.
pub record Listed (s : Scrypt) (txs : List Transaction) (k : Bytes) (cl : Client) : Type 0 where
  pub e : TxClient
  pub there : lookup k cl.hash_map ≡ some e
  pub shows : Shows s txs k e
  pub scored : e.score ≡ votes k txs

-- If the front page of a chain is rendered, then for every transaction of the chain the client
-- has an entry under the first six bytes of its hash. It stands for a transaction of the chain
-- with these six bytes: hash and, for a post or a comment, the owner of the first output are that
-- transaction's, and the score is the number of the chain's upvotes whose parent starts with
-- these bytes, whatever the client had before.
pub render_front_page-Listed :
    (s : Scrypt) (fuel : ℕ) (chain : List Block) (cl cl' : Client) (page : List Shown)
    (tx : Transaction) (h k : Bytes)
    → render_front_page s fuel chain cl ≡ ok (page, cl')
    → Memᴰ tx (all_txs chain)
    → tx_hash s tx ≡ ok h
    → tx_key h ≡ ok k
    → Listed s (all_txs chain) k cl'
unfolding render_front_page
render_front_page-Listed s fuel chain cl cl' page tx h k run listed hashed keyed =
    let txs = all_txs chain in
    let (entered, one, h1) = >>=-eq-ok (enter_all s txs cl.hash_map) _ run in
    let (m, two, h2) = >>=-eq-ok (count_upvotes txs entered) _ h1 in
    let (shown, three, h3) =
      >>=-eq-ok (render_each (λ tx. tx.type == post) (λ tx. render_content s m txs fuel 0 tx) txs) _
        h2 in
    let (e, there, shows, unvoted) =
      enter_all-Fresh s txs k txs cl.hash_map entered tx h (λ x later. later) one listed hashed
        keyed in
    subst (Listed s txs k) (ap (λ (x : List Shown × Client). x.1) (ok_injective h3)) (record {
      e = with_score (e.score + votes k txs) e;
      there = count_upvotes-votes k txs entered m e two there;
      shows = record {
        listed = shows.listed;
        hashed = shows.hashed;
        keyed = shows.keyed;
        owned = shows.owned;
      };
      scored = omega (arith, unvoted);
    })
