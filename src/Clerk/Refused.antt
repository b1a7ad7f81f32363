-- ===== src/Clerk/Refused.antt =====
-- The transactions of src/clerk/bad_clerk.go before the node's validateTransaction and mine.
use mathlib.Core.Path.{subst}
use dreddit.Base.{
  ℕ, ◌≡◌, ◌≢◌, ◌⊎◌, refl, ap, ◌∙◌, true, false, ◌||◌, List, Option, some, Bytes, bytes_eq, inl, inr,
  ◌==◌, if◌then◌else◌, length, Option-cases, Result-cases, clash_panic, clash_fuel, ok, ◌>>◌,
  require, require-eq-ok, ok_injective, >>=-eq-ok, should_have_one_output,
  upvote_should_have_two_outputs,
}
use dreddit.Dict.{lookup}
use dreddit.Hash.{Scrypt}
use dreddit.Tx.Types.{TxIn, Transaction, post, comment, upvote}
use dreddit.Tx.Wire.{tx_hash_no_sig}
use dreddit.Tx.Check.{pays_back, validate_structure}
use dreddit.Utxo.Defs.{UtxoDb, UnspentTx}
use dreddit.Block.Types.{Block}
use dreddit.Block.Defs.{Setting}
use dreddit.Node.Validate.{Ecdsa, validate_transaction}
use dreddit.Node.Accepts.{validate_transaction-Accepted}
use dreddit.Node.State.{DrNode, TxNode}
use dreddit.Node.Mine.{is_pending, mine_block}
use dreddit.Node.Run.Sound.{IsSound}
use dreddit.Node.Run.Live.{Replies, mine_block-answers}
use dreddit.Clerk.Defs.{PrivateKey, sign_tx}
use dreddit.Clerk.Bad.{bad_content_tx, bad_upvote_tx}

-- Signing changes no output and no type.
abbrev Alike : Transaction → Transaction → Type 0
Alike tx tx' = (tx'.tx_outs ≡ tx.tx_outs) × (tx'.type ≡ tx.type)

sign_tx-Alike :
    (s : Scrypt) (k : PrivateKey) (tx tx' : Transaction) → sign_tx s k tx ≡ ok tx' → Alike tx tx'
unfolding sign_tx
sign_tx-Alike s k tx tx' run = elim (Result-cases (tx_hash_no_sig s tx)) [
  | inr (inl (e, v)) ↦ same (rw (v, sign_tx) at run)
  | inr (inr (inl (p, v))) ↦ absurd (clash_panic p (rw (v, sign_tx) at run))
  | inr (inr (inr v)) ↦ absurd (clash_fuel (rw (v, sign_tx) at run))
  | inl (h, v) ↦ elim (Option-cases (k.sign h)) [
    | inl silent ↦ same (rw silent at (rw (v, sign_tx) at run))
    | inr (g, made) ↦ elim (Option-cases tx.tx_ins) [
      | inl bare ↦ same (rw bare at (rw made at (rw (v, sign_tx) at run)))
      | inr (ts, there) ↦
          subst (Alike tx) (ok_injective (rw there at (rw made at (rw (v, sign_tx) at run))))
            (refl, refl)
    ]
  ]
]
  where
    same : ok tx ≡ ok tx' → Alike tx tx'
    same e = subst (Alike tx) (ok_injective e) (refl, refl)

lone_upvote :
    (s : Scrypt) (tx : Transaction)
    → tx.type ≡ upvote
    → length tx.tx_outs ≡ 1
    → validate_structure s tx ≢ ok tt
unfolding validate_structure
lone_upvote s tx kind lone run =
    let (u, first, h1) =
      >>=-eq-ok
        (if tx.type == post || tx.type == comment
          then (require (length tx.tx_outs == 1) should_have_one_output >> pays_back s tx 0)
          else ok tt)
        _ run in
    let (u', second, h2) =
      >>=-eq-ok
        (if tx.type == upvote
          then (require (length tx.tx_outs == 2) upvote_should_have_two_outputs >> pays_back s tx 1)
          else ok tt)
        _ h1 in
    let (u2, two, h3) =
      >>=-eq-ok (require (length tx.tx_outs == 2) upvote_should_have_two_outputs) _
        (rw kind at second) in
    clash (rw lone at (require-eq-ok _ upvote_should_have_two_outputs two))
  where
    clash : false ≡ true → ⊥
    clash q = cc

-- A transaction of the three that BadClerk builds, before it is signed.
abbrev pub IsBad : PrivateKey → Transaction → Type 0
IsBad k raw =
    ((type : ℕ) × (parent : Option Bytes) × (content : Bytes) × (u : UnspentTx) × (raw
        ≡ bad_content_tx k type parent content u))
    ⊎ ((parent : Bytes) × (destination : Bytes) × (ins : List TxIn) × (raw
          ≡ bad_upvote_tx parent destination ins))

module _ (s : Scrypt) (c : Ecdsa) (k : PrivateKey) (raw tx : Transaction) (bad : IsBad k raw)
    (signed : sign_tx s k raw ≡ ok tx) where
  pub bad-refused :
      (db : UtxoDb) (chain : List (Option Block)) → validate_transaction s c db chain tx ≢ ok tt
  unfolding bad_content_tx bad_upvote_tx
  bad-refused db chain valid =
      let (os, accepted) = validate_transaction-Accepted s c db chain tx valid in
      let (outs, kind) = sign_tx-Alike s k raw tx signed in
      elim bad [
        | inl (type, parent, content, u, e) ↦
            accepted.has_outs (ap length outs ∙ ap (λ (x : Transaction). length x.tx_outs) e)
        | inr (parent, destination, ins, e) ↦
            lone_upvote s tx (kind ∙ ap (λ (x : Transaction). x.type) e)
              (ap length outs ∙ ap (λ (x : Transaction). length x.tx_outs) e) accepted.structured
      ]

-- A transaction that BadClerk builds and signs is answered with `false`: if it waits on a sound
-- node and a round of mining there returns, the next round of the loop that waits for it replies
-- so.
pub bad_clerk-answers :
    (g : Setting) (c : Ecdsa) (k : PrivateKey) (raw : Transaction) (decoded : Bytes) (now : ℕ)
    (n n' : DrNode) (h : Bytes) (t : TxNode)
    → IsBad k raw
    → sign_tx g.scrypt k raw ≡ ok t.tx
    → IsSound n
    → lookup h n.pending_txs ≡ some t
    → is_pending t.status ≡ true
    → mine_block g c decoded now n ≡ ok n'
    → Replies h n' false
bad_clerk-answers g c k raw decoded now n n' h t bad signed w found waiting run =
    elim (mine_block-answers g c decoded now n n' h t w found waiting run) [
      | inl (good, valid) ↦
          absurd (bad-refused g.scrypt c k raw t.tx bad signed n.utxo n.blockchain valid)
      | inr (refused, reason) ↦ refused
    ]
