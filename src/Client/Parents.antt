-- ===== src/Client/Parents.antt =====
-- What the client of src/client/client.go hands to its clerk as a parent, before the node's check.
use mathlib.Core.List.{Memᴰ}
use mathlib.Core.List.Memᴰ.{head, tail}
use dreddit.Base.{
  ◌≡◌, ◌⊎◌, refl, sym, ap, ◌∙◌, inl, inr, true, false, List, [], ◌∷◌, ◌++◌, Option, none, some,
  Bytes, bytes_equal, bytes_equal_iff, bytes_equal_refl, Bool-cases, map, elems, get_elem?, ok,
  ok_injective,
}
use dreddit.Hash.{Scrypt}
use dreddit.Tx.Types.{TxOut, Transaction, comment, upvote}
use dreddit.Tx.Wire.{tx_hash}
use dreddit.Block.Types.{Block}
use dreddit.Node.Validate.{find_tx, find_tx_in_block_chain, check_parent}
use dreddit.Client.Defs.{TxClient, Client, all_txs, is_content}
use dreddit.Client.Scores.{Listed}

-- Every transaction of the list can be hashed.
abbrev pub AreHashed : Scrypt → List Transaction → Type 0
AreHashed s txs = (t : Transaction) → Memᴰ t txs → (h : Bytes) × (tx_hash s t ≡ ok h)

-- Transactions of the list with one hash are one.
abbrev pub IsCollisionFree : Scrypt → List Transaction → Type 0
IsCollisionFree s txs =
    (t u : Transaction) → Memᴰ t txs → Memᴰ u txs → tx_hash s t ≡ tx_hash s u → t ≡ u

module _ (s : Scrypt) (h : Bytes) where
  -- A transaction of the list has this hash.
  abbrev Found : List Transaction → Transaction → Type 0
  Found txs u = Memᴰ u txs × (tx_hash s u ≡ ok h)

  abbrev Missing : List Transaction → Type 0
  Missing txs = (t : Transaction) → Memᴰ t txs → tx_hash s t ≡ ok h → ⊥

  Missing-cons :
      (tx : Transaction) (txs : List Transaction) (d : Bytes)
      → tx_hash s tx ≡ ok d
      → bytes_equal d h ≡ false
      → Missing txs
      → Missing (tx ∷ txs)
  Missing-cons tx txs d e other missing t (tail there) own = missing t there own
  Missing-cons tx txs d e other missing t (head q) own =
      clash
        (sym other ∙ (bytes_equal_iff d h).1 (ok_injective (sym e ∙ ap (tx_hash s) (sym q) ∙ own)))
    where
      clash : false ≡ true → ⊥
      clash q = cc

  find_tx-cases :
      (txs : List Transaction)
      → AreHashed s txs
      → ((find_tx s h txs ≡ ok none) × Missing txs)
        ⊎ ((u : Transaction) × (find_tx s h txs ≡ ok (some u)) × Found txs u)
  unfolding find_tx
  find_tx-cases [] hashed = inl (refl, λ t there e. elim there [ ])
  find_tx-cases (tx ∷ txs) hashed =
      let (d, e) = hashed tx (head refl) in
      elim (Bool-cases (bytes_equal d h)) [
        | inl same ↦ inr (
          tx,
          rw (e, find_tx) (rw same refl),
          (head refl, e ∙ ap ok ((bytes_equal_iff d h).0 same)),
        )
        | inr other ↦ elim (find_tx-cases txs (λ t there. hashed t (tail there))) [
          | inl (absent, missing) ↦
              inl (rw (e, find_tx) (rw other absent), Missing-cons tx txs d e other missing)
          | inr (u, found, (at, own)) ↦ inr (u, rw (e, find_tx) (rw other found), (tail at, own))
        ]
      ]

  Memᴰ-split : (a b : List Transaction) (t : Transaction) → Memᴰ t (a ++ b) → Memᴰ t a ⊎ Memᴰ t b
  Memᴰ-split [] b t there = inr there
  Memᴰ-split (x ∷ a) b t (head q) = inl (head q)
  Memᴰ-split (x ∷ a) b t (tail there) = elim (Memᴰ-split a b t there) [
    | inl left ↦ inl (tail left)
    | inr right ↦ inr right
  ]

  Memᴰ-left : (a b : List Transaction) (t : Transaction) → Memᴰ t a → Memᴰ t (a ++ b)
  Memᴰ-left [] b t there = elim there [ ]
  Memᴰ-left (x ∷ a) b t (head q) = head q
  Memᴰ-left (x ∷ a) b t (tail there) = tail (Memᴰ-left a b t there)

  Memᴰ-right : (a b : List Transaction) (t : Transaction) → Memᴰ t b → Memᴰ t (a ++ b)
  Memᴰ-right [] b t there = there
  Memᴰ-right (x ∷ a) b t there = tail (Memᴰ-right a b t there)

  -- The search of the chain finds a transaction with the hash if there is one.
  find_tx_in_block_chain-Found :
      (chain : List Block) (t : Transaction)
      → AreHashed s (all_txs chain)
      → Memᴰ t (all_txs chain)
      → tx_hash s t ≡ ok h
      → (u : Transaction) × (find_tx_in_block_chain s h (map some chain) ≡ ok (some u))
        × Found (all_txs chain) u
  unfolding find_tx_in_block_chain all_txs
  find_tx_in_block_chain-Found [] t hashed there own = elim there [ ]
  find_tx_in_block_chain-Found (b ∷ chain) t hashed there own =
      elim (find_tx-cases b.transactions
        (λ x at. hashed x (Memᴰ-left b.transactions (all_txs chain) x at))) [
          | inr (u, found, (at, mine)) ↦ (
            u,
            rw (found, find_tx_in_block_chain) refl,
            (Memᴰ-left b.transactions (all_txs chain) u at, mine),
          )
          | inl (absent, missing) ↦ elim (Memᴰ-split b.transactions (all_txs chain) t there) [
            | inl here ↦ absurd (missing t here own)
            | inr later ↦
                let (u, found, (at, mine)) =
                  find_tx_in_block_chain-Found chain t
                    (λ x at. hashed x (Memᴰ-right b.transactions (all_txs chain) x at)) later own in
                (
                  u,
                  rw (absent, find_tx_in_block_chain) found,
                  (Memᴰ-right b.transactions (all_txs chain) u at, mine),
                )
          ]
        ]

-- What Comment and Upvote send for an entry: the entry's hash as the parent and, in an upvote, its
-- address as the first destination.
abbrev pub IsReply : TxClient → Transaction → Type 0
IsReply e tx =
    (tx.parent ≡ some e.hash)
    × ((tx.type ≡ comment)
        ⊎ ((tx.type ≡ upvote)
            × ((o : TxOut) × (get_elem? tx.tx_outs 0 ≡ some o) × (o.pub_key_hash ≡ e.address))))

-- If the transactions of a chain can be hashed and different ones have different hashes, then a
-- comment or an upvote on what the client has listed under a key as a post or a comment, which
-- names the entry's hash as its parent and, in an upvote, pays the entry's address first, passes
-- the node's check of its parent on this chain.
pub Listed-check_parent :
    (s : Scrypt) (chain : List Block) (k : Bytes) (cl : Client) (w : Listed s (all_txs chain) k cl)
    (tx : Transaction)
    → AreHashed s (all_txs chain)
    → IsCollisionFree s (all_txs chain)
    → is_content w.e.tx ≡ true
    → IsReply w.e tx
    → check_parent s (map some chain) tx ≡ ok tt
unfolding check_parent
Listed-check_parent s chain k cl w tx hashed free content (parent, kind) =
    let (u, found, (at, mine)) =
      find_tx_in_block_chain-Found s w.e.hash chain w.e.tx hashed w.shows.listed w.shows.hashed in
    let same = free u w.e.tx at w.shows.listed (mine ∙ sym w.shows.hashed) in
    let searched =
      ap (λ (p : Option Bytes). find_tx_in_block_chain s (elems p) (map some chain)) parent
      ∙ found
      ∙ ap (λ (x : Transaction). ok (some x)) same in
    elim kind [
      | inl below ↦ rw (searched, check_parent) (rw (content, below) refl)
      | inr (vote, (o, first, own)) ↦ elim w.shows.owned [
        | inl plain ↦ absurd (clash (sym plain ∙ content))
        | inr (p, its_first, address) ↦
            rw (searched, check_parent)
              (rw (content, vote, first, its_first, own ∙ address, bytes_equal_refl p.pub_key_hash)
                refl)
      ]
    ]
  where
    clash : false ≡ true → ⊥
    clash q = cc
