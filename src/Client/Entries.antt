-- ===== src/Client/Entries.antt =====
-- The loop of renderFrontPage of src/client/client.go that makes the entries.
use mathlib.Core.Path.{subst}
use mathlib.Core.List.{Memᴰ}
use mathlib.Core.List.Memᴰ.{head, tail}
use dreddit.Base.{
  ◌≡◌, ◌⊎◌, refl, sym, ap, ◌∙◌, true, false, List, [], ◌∷◌, some, Bytes, bytes_eq, bytes_equal,
  bytes_equal_iff, bytes_equal_refl, if◌then◌else◌, get_elem?, inl, inr, Bool-cases, ok, ◌>>=◌,
  or_panic, or_panic-eq-ok, ok_injective, >>=-eq-ok, index_out_of_range, nil_dereference,
}
use dreddit.Dict.{lookup, insert}
use dreddit.Hash.{Scrypt}
use dreddit.Tx.Types.{TxOut, Transaction}
use dreddit.Tx.Wire.{tx_hash}
use dreddit.Client.Defs.{TxClient, tx_key, is_content, enter, enter_all}
use dreddit.Client.Votes.{Page, lookup-same, lookup-other, some_value}

-- The entry that stands for a transaction of the list under the key `k`, without its score.
pub record Shows (s : Scrypt) (txs : List Transaction) (k : Bytes) (e : TxClient) : Type 0 where
  pub listed : Memᴰ e.tx txs
  pub hashed : tx_hash s e.tx ≡ ok e.hash
  pub keyed : tx_key e.hash ≡ ok k
  pub owned :
      (is_content e.tx ≡ false)
      ⊎ ((o : TxOut) × (get_elem? e.tx.tx_outs 0 ≡ some o) × (e.address ≡ o.pub_key_hash))

-- Under `k` stands an entry of the list that nobody has voted for yet.
abbrev pub Fresh : Scrypt → List Transaction → Bytes → Page → Type 0
Fresh s txs k m = (e : TxClient) × (lookup k m ≡ some e) × Shows s txs k e × (e.score ≡ 0)

abbrev new_entry : Transaction → Bytes → TxClient
new_entry tx h = record { tx = tx; hash = h; score = 0; address = [] }

-- What a round of the first loop writes: one entry, under the key of its transaction.
record Entered (s : Scrypt) (tx : Transaction) (m m' : Page) : Type 0 where
  key : Bytes
  e : TxClient
  own : e.tx ≡ tx
  shows : (txs : List Transaction) → Memᴰ e.tx txs → Shows s txs key e
  unvoted : e.score ≡ 0
  here : (k : Bytes) → bytes_equal key k ≡ true → lookup k m' ≡ some e
  elsewhere : (k : Bytes) → bytes_equal key k ≡ false → lookup k m' ≡ lookup k m

-- The round from the entry's first writing on.
own-Entered :
    (s : Scrypt) (tx : Transaction) (m m' : Page) (h key : Bytes)
    → tx_hash s tx ≡ ok h
    → tx_key h ≡ ok key
    → (if is_content tx
        then (or_panic (get_elem? tx.tx_outs 0) index_out_of_range >>= λ o.
            or_panic (lookup key (insert key (new_entry tx h) m)) nil_dereference >>= λ e.
            ok (insert key (record e { address = o.pub_key_hash }) (insert key (new_entry tx h) m)))
        else ok (insert key (new_entry tx h) m))
      ≡ ok m'
    → Entered s tx m m'
own-Entered s tx m m' h key hashed keyed run =
    let e : TxClient = new_entry tx h in
    elim (Bool-cases (is_content tx)) [
      | inr plain ↦ subst (Entered s tx m) (ok_injective (rw plain at run)) (record {
        key = key;
        e = e;
        own = refl;
        shows = λ txs listed. record {
          listed = listed;
          hashed = hashed;
          keyed = keyed;
          owned = inl plain;
        };
        unvoted = refl;
        here = λ k same. lookup-same key k e m same;
        elsewhere = λ k other. lookup-other key k e m other;
      })
      | inl content ↦
          let (o, first, h3) =
            >>=-eq-ok (or_panic (get_elem? tx.tx_outs 0) index_out_of_range) _
              (rw content at run) in
          let (found, at, h4) =
            >>=-eq-ok (or_panic (lookup key (insert key e m)) nil_dereference) _ h3 in
          let fresh = some_value (
            sym (or_panic-eq-ok _ nil_dereference at)
            ∙ lookup-same key key e m (bytes_equal_refl key)) in
          let written : TxClient = record e { address = o.pub_key_hash } in
          subst (Entered s tx m)
            (ap
                (λ (x : TxClient).
                  insert key (record x { address = o.pub_key_hash }) (insert key e m))
                (sym fresh)
              ∙ ok_injective h4)
            (record {
              key = key;
              e = written;
              own = refl;
              shows = λ txs listed. record {
                listed = listed;
                hashed = hashed;
                keyed = keyed;
                owned = inr (o, or_panic-eq-ok _ index_out_of_range first, refl);
              };
              unvoted = refl;
              here = λ k same. lookup-same key k written (insert key e m) same;
              elsewhere = λ k other.
                  lookup-other key k written (insert key e m) other ∙ lookup-other key k e m other;
            })
    ]

enter-Entered :
    (s : Scrypt) (tx : Transaction) (m m' : Page) → enter s tx m ≡ ok m' → Entered s tx m m'
unfolding enter
enter-Entered s tx m m' run =
    let (h, hashed, h1) = >>=-eq-ok (tx_hash s tx) _ run in
    let (key, keyed, h2) = >>=-eq-ok (tx_key h) _ h1 in own-Entered s tx m m' h key hashed keyed h2

module _ (s : Scrypt) (all : List Transaction) (k : Bytes) where
  Entered-Fresh :
      (tx : Transaction) (m m' : Page)
      → Memᴰ tx all
      → (w : Entered s tx m m') → bytes_equal w.key k ≡ true
      → Fresh s all k m'
  Entered-Fresh tx m m' listed w same = (
    w.e,
    w.here k same,
    subst (λ (x : Bytes). Shows s all x w.e) ((bytes_equal_iff w.key k).0 same)
        (w.shows all (subst (λ (x : Transaction). Memᴰ x all) (sym w.own) listed)),
    w.unvoted,
  )

  enter-Fresh :
      (tx : Transaction) (m m' : Page)
      → Memᴰ tx all
      → enter s tx m ≡ ok m'
      → Fresh s all k m
      → Fresh s all k m'
  enter-Fresh tx m m' listed run (e, there, shows, unvoted) =
      let w = enter-Entered s tx m m' run in
      elim (Bool-cases (bytes_equal w.key k)) [
        | inr other ↦ (e, w.elsewhere k other ∙ there, shows, unvoted)
        | inl same ↦ Entered-Fresh tx m m' listed w same
      ]

  enter_all-keeps :
      (txs : List Transaction) (m m' : Page)
      → ((tx : Transaction) → Memᴰ tx txs → Memᴰ tx all)
      → enter_all s txs m ≡ ok m'
      → Fresh s all k m
      → Fresh s all k m'
  unfolding enter_all
  enter_all-keeps [] m m' within run w = subst (Fresh s all k) (ok_injective run) w
  enter_all-keeps (tx ∷ txs) m m' within run w =
      let (m1, one, more) = >>=-eq-ok (enter s tx m) _ run in
      enter_all-keeps txs m1 m' (λ x there. within x (tail there)) more
        (enter-Fresh tx m m1 (within tx (head refl)) one w)

  pub enter_all-Fresh :
      (txs : List Transaction) (m m' : Page) (tx : Transaction) (h : Bytes)
      → ((tx : Transaction) → Memᴰ tx txs → Memᴰ tx all)
      → enter_all s txs m ≡ ok m'
      → Memᴰ tx txs
      → tx_hash s tx ≡ ok h
      → tx_key h ≡ ok k
      → Fresh s all k m'
  unfolding enter_all
  enter_all-Fresh [] m m' tx h within run there hashed keyed = elim there [ ]
  enter_all-Fresh (t ∷ txs) m m' tx h within run (tail there) hashed keyed =
      let (m1, one, more) = >>=-eq-ok (enter s t m) _ run in
      enter_all-Fresh txs m1 m' tx h (λ x later. within x (tail later)) more there hashed keyed
  enter_all-Fresh (t ∷ txs) m m' tx h within run (head same) hashed keyed =
      let (m1, one, more) = >>=-eq-ok (enter s t m) _ run in
      let w = enter-Entered s t m m1 one in
      let listed = within t (head refl) in
      let shown = w.shows all (subst (λ (x : Transaction). Memᴰ x all) (sym w.own) listed) in
      let as_hashed =
        ok_injective (sym hashed ∙ ap (tx_hash s) (same ∙ sym w.own) ∙ shown.hashed) in
      let as_keyed = ok_injective (sym shown.keyed ∙ ap tx_key (sym as_hashed) ∙ keyed) in
      enter_all-keeps txs m1 m' (λ x later. within x (tail later)) more
        (Entered-Fresh t m m1 listed w ((bytes_equal_iff w.key k).1 as_keyed))
