-- ===== src/Node/Pending.antt =====
-- A request to append a transaction, from its start to its reply.
use dreddit.Base.{
  ℕ, ◌≡◌, refl, ◌∙◌, true, false, List, [], ◌∷◌, ◌++◌, none, some, Bytes, bytes_equal_refl,
  bytes_eq, increment, Bool-cases, inl, inr, ◌⊎◌, ok, arith,
}
use dreddit.Dict.{lookup, insert, lookup-insert}
use dreddit.Hash.{Scrypt, hash}
use dreddit.Tx.Preimage.{tx_bytes, tx_hash-preimage}
use dreddit.Tx.Types.{Transaction}
use dreddit.Tx.Wire.{tx_hash, validate_components}
use dreddit.Node.State.{pending, DrNode}
use dreddit.Node.Requests.{is_among, append_tx, await_tx}

is_among-last : (x : Bytes) (xs : List Bytes) → is_among x (xs ++ x ∷ []) ≡ true
unfolding is_among
is_among-last x [] = rw (bytes_equal_refl x)
is_among-last x (y ∷ ys) = ground (arith, is_among-last x ys)

module _ (s : Scrypt) (tx : Transaction) (clerk_id : ℕ) (n : DrNode) where
  -- What a started request has done: `h` is new, its entry is pending, one more is counted, and a
  -- second request and the waiting loop change nothing.
  pub record Started (n' : DrNode) (h : Bytes) : Type 0 where
    pub hashed : tx_hash s tx ≡ ok h
    pub new : is_among h n.seen_txs ≡ false
    pub entry :
        lookup h n'.pending_txs
        ≡ some (record { tx = tx; clerk_id = clerk_id; status = pending; hash = h })
    pub counted : n'.num_pending ≡ increment n.num_pending
    pub once : (other : ℕ) → append_tx s tx other n' ≡ ok (n', none)
    pub waits : await_tx h n' ≡ ok (n', none)

  abbrev entered : Bytes → DrNode
  entered h = record n {
    seen_txs = n.seen_txs ++ h ∷ [];
    pending_txs =
        insert h (record { tx = tx; clerk_id = clerk_id; status = pending; hash = h })
          n.pending_txs;
    num_pending = increment n.num_pending;
  }

  entered-Started :
      (h : Bytes)
      → validate_components tx ≡ ok tt
      → tx_hash s tx ≡ ok h
      → is_among h n.seen_txs ≡ false
      → Started (entered h) h
  unfolding append_tx await_tx
  entered-Started h valid hashed new = record {
    hashed = hashed;
    new = new;
    entry = there;
    counted = refl;
    once = λ other. rw (valid, append_tx) (rw (hashed) (rw (is_among-last h n.seen_txs)));
    waits = rw (there, await_tx);
  }
    where
      there :
          lookup h (entered h).pending_txs
          ≡ some (record { tx = tx; clerk_id = clerk_id; status = pending; hash = h })
      there = lookup-insert h h _ n.pending_txs ∙ rw (bytes_equal_refl h)

  -- For a transaction with valid components, `AppendTx` returns: if the transaction's hash has
  -- been seen, it refuses and changes nothing; otherwise it starts to wait under that hash, the
  -- pending map holds the transaction under it, one more is counted, a further request with the
  -- same transaction is refused without any change, and a round of the waiting loop gives no
  -- reply yet.
  pub append_tx-Started :
      validate_components tx ≡ ok tt
      → (h : Bytes) × (tx_hash s tx ≡ ok h)
        × (((is_among h n.seen_txs ≡ true) × (append_tx s tx clerk_id n ≡ ok (n, none)))
            ⊎ ((n' : DrNode) × (append_tx s tx clerk_id n ≡ ok (n', some h)) × Started n' h))
  unfolding append_tx
  append_tx-Started valid =
      let hashed = (tx_hash-preimage s tx valid).0 in
      (
        h,
        hashed,
        elim (Bool-cases (is_among h n.seen_txs)) [
          | inl old ↦ inl (old, rw (valid, append_tx) (rw hashed (rw old)))
          | inr new ↦ inr (
            entered h,
            rw (valid, append_tx) (rw hashed (rw new)),
            entered-Started h valid hashed new,
          )
        ],
      )
    where
      h : Bytes
      h = hash s (tx_bytes tx)
