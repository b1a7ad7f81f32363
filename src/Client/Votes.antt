-- ===== src/Client/Votes.antt =====
-- The loop of renderFrontPage of src/client/client.go that counts upvotes.
use dreddit.Base.{
  ℕ, ◌+◌, ◌≡◌, refl, sym, ap, ◌∙◌, Bool, true, false, ◌&&◌, List, [], ◌∷◌, some, Bytes, bytes_eq,
  bytes_equal, bytes_equal_iff, ◌==◌, if◌then◌else◌, elems, inl, inr, Bool-cases, Result, ok, err,
  panic, out_of_fuel, or_panic, or_panic-eq-ok, ok_injective, >>=-eq-ok, nil_dereference, arith,
}
use dreddit.Dict.{Dict, lookup, insert, lookup-insert}
use dreddit.Tx.Types.{Transaction, upvote}
use dreddit.Client.Defs.{TxClient, tx_key, count_upvote, count_upvotes}

abbrev pub Page : Type 0
Page = Dict Bytes TxClient

-- A result that is this text.
abbrev pub is_text : Bytes → Result Bytes → Bool
is_text k (ok key) = bytes_equal key k
is_text k (err e) = false
is_text k (panic p) = false
is_text k out_of_fuel = false

abbrev pub vote_for : Bytes → Transaction → ℕ
vote_for k tx = if (tx.type == upvote) && is_text k (tx_key (elems tx.parent)) then 1 else 0

-- The number of upvotes whose parent has this key.
unfoldable pub votes : Bytes → List Transaction → ℕ
votes k [] = 0
votes k (tx ∷ txs) = vote_for k tx + votes k txs

pub lookup-same :
    (j k : Bytes) (e : TxClient) (m : Page)
    → bytes_equal j k ≡ true
    → lookup k (insert j e m) ≡ some e
lookup-same j k e m same = lookup-insert j k e m ∙ rw same refl

pub lookup-other :
    (j k : Bytes) (e : TxClient) (m : Page)
    → bytes_equal j k ≡ false
    → lookup k (insert j e m) ≡ lookup k m
lookup-other j k e m other = lookup-insert j k e m ∙ rw other refl

pub some_value : {a b : TxClient} → some a ≡ some b → a ≡ b
some_value q = cc

abbrev pub with_score : ℕ → TxClient → TxClient
with_score n e = record e { score = n }

-- The vote that a round counts for the entry under `k`.
Counted : Bytes → Transaction → Page → TxClient → Type 0
Counted k tx m' e =
    (v : ℕ) × (vote_for k tx ≡ v) × (lookup k m' ≡ some (with_score (e.score + v) e))

count_upvote-Counted :
    (k : Bytes) (tx : Transaction) (m m' : Page) (e : TxClient)
    → count_upvote tx m ≡ ok m'
    → lookup k m ≡ some e
    → Counted k tx m' e
unfolding count_upvote Counted
count_upvote-Counted k tx m m' e run there = elim (Bool-cases (tx.type == upvote)) [
  | inr other ↦ (
    0,
    rw other refl,
    ap (lookup k) (sym (ok_injective (rw (other, count_upvote) at run)))
        ∙ there
        ∙ ap (λ (n : ℕ). some (record e { score = n })) (omega arith),
  )
  | inl vote ↦
      let (key, keyed, h1) =
        >>=-eq-ok (tx_key (elems tx.parent)) _ (rw (vote, count_upvote) at run) in
      let (old, found, h2) = >>=-eq-ok (or_panic (lookup key m) nil_dereference) _ h1 in
      elim (Bool-cases (bytes_equal key k)) [
        | inr other ↦ (
          0,
          rw (vote, keyed, other) refl,
          ap (lookup k) (sym (ok_injective h2))
              ∙ lookup-other key k (record old { score = old.score + 1 }) m other
              ∙ there
              ∙ ap (λ (n : ℕ). some (record e { score = n })) (omega arith),
        )
        | inl same ↦ (
          1,
          rw (vote, keyed, same) refl,
          ap (lookup k) (sym (ok_injective h2))
              ∙ lookup-same key k (record old { score = old.score + 1 }) m same
              ∙ ap (λ (x : TxClient). some (record x { score = x.score + 1 }))
                  (some_value (
                    sym (or_panic-eq-ok _ nil_dereference found)
                    ∙ ap (λ (x : Bytes). lookup x m) ((bytes_equal_iff key k).0 same)
                    ∙ there)),
        )
      ]
]

pub count_upvotes-votes :
    (k : Bytes) (txs : List Transaction) (m m' : Page) (e : TxClient)
    → count_upvotes txs m ≡ ok m'
    → lookup k m ≡ some e
    → lookup k m' ≡ some (with_score (e.score + votes k txs) e)
unfolding count_upvotes votes Counted
count_upvotes-votes k [] m m' e run there =
    ap (lookup k) (sym (ok_injective run))
    ∙ there
    ∙ ap (λ (n : ℕ). some (record e { score = n })) (omega arith)
count_upvotes-votes k (tx ∷ txs) m m' e run there =
    let (m1, one, more) = >>=-eq-ok (count_upvote tx m) _ run in
    let (v, counted, at) = count_upvote-Counted k tx m m1 e one there in
    count_upvotes-votes k txs m1 m' (with_score (e.score + v) e) more at
    ∙ ap (λ (n : ℕ). some (record e { score = n })) (omega (arith, counted))
