-- ===== src/Clerk/BadCalls.antt =====
-- What the calls of src/clerk/bad_clerk.go return.
use dreddit.Base.{
  ℕ, zero, suc, ◌+◌, ◌%◌, ◌≡◌, ◌⊎◌, refl, sym, ap, ◌∙◌, Bool, true, false, List, [], Option, none,
  some, Bytes, inl, inr, ltb, length, get_elem?, Bool-cases, Option-cases, ok, or_panic,
  clash_panic, index_out_of_range, ok_injective, >>=-eq-ok,
}
use dreddit.Hash.{Scrypt, pk_hash}
use dreddit.Tx.Types.{Transaction, post, comment, tx_upvote, tx_fee}
use dreddit.Utxo.Defs.{UtxoDb}
use dreddit.Block.Types.{Block}
use dreddit.Node.Validate.{Ecdsa, validate_transaction}
use dreddit.Clerk.Defs.{Network, ask, submit, sign_tx, gather, query_utxo}
use dreddit.Clerk.Bad.{
  BadClerk, bad_content_tx, bad_upvote_tx, bad_publish, bad_post_structure, bad_comment_structure,
  bad_upvote_structure,
}
use dreddit.Clerk.Refused.{IsBad, bad-refused}

-- What the retry loop returns is the answer of one of its calls.
ask-answer {ℓ} :
    {A : Type ℓ} (fuel : ℕ) (call : ℕ → ℕ → Option A) (servers attempt current : ℕ) {a : A}
    → ask fuel call servers attempt current ≡ ok a
    → (i : ℕ) × (server : ℕ) × (call i server ≡ some a)
unfolding ask
ask-answer zero call servers attempt current run = cc
ask-answer (suc fuel) call servers attempt current run = elim (Bool-cases (ltb current servers)) [
  | inr out ↦ absurd (clash_panic index_out_of_range (rw out at run))
  | inl there ↦ elim (Option-cases (call attempt current)) [
    | inl silent ↦
        ask-answer fuel call servers (suc attempt) ((current + 1) % servers)
          (rw silent at (rw there at run))
    | inr (b, answered) ↦
        (attempt, current, answered ∙ ap some (ok_injective (rw answered at (rw there at run))))
  ]
]

-- A network of nodes that answer `true` only for a transaction that is valid somewhere.
abbrev pub IsHonest : Scrypt → Ecdsa → Network → Type 0
IsHonest s c net =
    (attempt server : ℕ) (tx : Transaction)
    → net.append_tx attempt server tx ≡ some true
    → (db : UtxoDb) × (chain : List (Option Block)) × (validate_transaction s c db chain tx ≡ ok tt)

module _ (s : Scrypt) (c : Ecdsa) (ck : BadClerk) (net : Network) (fuel : ℕ) where
  -- One of the three calls has returned `reply`.
  abbrev pub HasReturned : Bool → Type 0
  HasReturned reply =
      ((content : Bytes) × (bad_post_structure s ck net fuel content ≡ ok reply))
      ⊎ (((parent : Bytes) × (content : Bytes) × (bad_comment_structure s ck net fuel parent content
              ≡ ok reply))
          ⊎ ((parent : Bytes) × (destination : Bytes) × (bad_upvote_structure s ck net fuel parent
                  destination
                ≡ ok reply)))

  submit-fails :
      (raw tx : Transaction) (reply : Bool)
      → IsHonest s c net
      → IsBad ck.priv_key raw
      → sign_tx s ck.priv_key raw ≡ ok tx
      → submit ck net fuel tx ≡ ok reply
      → reply ≡ false
  unfolding submit
  submit-fails raw tx false honest bad signed run = refl
  submit-fails raw tx true honest bad signed run =
      let (i, server, answered) =
        ask-answer fuel (λ attempt server. net.append_tx attempt server tx) (length ck.servers) 0
          ck.current run in
      let (db, chain, valid) = honest i server tx answered in
      absurd (bad-refused s c ck.priv_key raw tx bad signed db chain valid)

  bad_publish-fails :
      (type : ℕ) (parent : Option Bytes) (content : Bytes) (reply : Bool)
      → IsHonest s c net
      → bad_publish s ck net fuel type parent content ≡ ok reply
      → reply ≡ false
  unfolding bad_publish
  bad_publish-fails type parent content reply honest run =
      let ((utxs, found), queried, h1) =
        >>=-eq-ok (query_utxo ck net fuel (pk_hash s ck.priv_key.pub_key)) _ run in
      elim (Bool-cases found) [
        | inr nothing ↦ sym (ok_injective (rw nothing at h1))
        | inl there ↦
            let (u, first, h2) =
              >>=-eq-ok (or_panic (get_elem? utxs 0) index_out_of_range) _ (rw there at h1) in
            let raw = bad_content_tx ck.priv_key type parent content u in
            let (tx, signed, h3) = >>=-eq-ok (sign_tx s ck.priv_key raw) _ h2 in
            submit-fails raw tx reply honest (inl (type, parent, content, u, refl)) signed h3
      ]

  bad_upvote_structure-fails :
      (parent destination : Bytes) (reply : Bool)
      → IsHonest s c net
      → bad_upvote_structure s ck net fuel parent destination ≡ ok reply
      → reply ≡ false
  unfolding bad_upvote_structure
  bad_upvote_structure-fails parent destination reply honest run =
      let ((utxs, found), queried, h1) =
        >>=-eq-ok (query_utxo ck net fuel (pk_hash s ck.priv_key.pub_key)) _ run in
      elim (Bool-cases found) [
        | inr nothing ↦ sym (ok_injective (rw nothing at h1))
        | inl there ↦
            let (sum, ins) = gather ck.priv_key.pub_key (tx_upvote + tx_fee) utxs 0 [] in
            elim (Bool-cases (ltb sum (tx_upvote + tx_fee))) [
              | inl poor ↦ sym (ok_injective (rw poor at (rw there at h1)))
              | inr rich ↦
                  let raw = bad_upvote_tx parent destination ins in
                  let (tx, signed, h2) =
                    >>=-eq-ok (sign_tx s ck.priv_key raw) _ (rw rich at (rw there at h1)) in
                  submit-fails raw tx reply honest (inr (parent, destination, ins, refl)) signed h2
            ]
      ]

  HasReturned-false : (reply : Bool) → IsHonest s c net → HasReturned reply → reply ≡ false
  unfolding bad_post_structure bad_comment_structure
  HasReturned-false reply honest (inl (content, run)) =
      bad_publish-fails post none content reply honest run
  HasReturned-false reply honest (inr (inl (parent, content, run))) =
      bad_publish-fails comment (some parent) content reply honest run
  HasReturned-false reply honest (inr (inr (parent, destination, run))) =
      bad_upvote_structure-fails parent destination reply honest run

  -- On a network whose nodes answer `true` only for a transaction that is valid on some database
  -- and chain, no call of BadPostStructure, BadCommentStructure or BadUpvoteStructure returns
  -- `true`.
  pub bad_clerk-fails : IsHonest s c net → ¬ HasReturned true
  bad_clerk-fails honest returned = clash (HasReturned-false true honest returned)
    where
      clash : true ≡ false → ⊥
      clash q = cc
