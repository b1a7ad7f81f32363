-- ===== src/Clerk/Peers.antt =====
-- The servers that a clerk of src/clerk/clerk.go knows of, from MakeClerk on.
use mathlib.Core.Path.{subst}
use dreddit.Base.{
  ℕ, ◌≡◌, refl, sym, ap, ◌∙◌, Bool, true, false, ◌&&◌, ◌||◌, List, [], ◌∷◌, ◌++◌, Option, none,
  some, Bytes, bytes_equal, bytes_equal_iff, if◌then◌else◌, arith, Bool-cases, inl, inr,
  Option-cases,
}
use dreddit.Node.Requests.{is_among}
use dreddit.Node.PeerList.{is_among-last}
use dreddit.Clerk.Defs.{PrivateKey, Clerk, merge_peers}
use dreddit.Clerk.Make.{with_server, dial_servers, make_clerk}

-- The clerk has a client for each port, and its ports are those of `member`.
record Knows (ck : Clerk) (member : Bytes → Bool) : Type 0 where
  parallel : ck.servers ≡ ck.ports
  members : (q : Bytes) → is_among q ck.ports ≡ member q

-- An answer to the question for one port does not depend on which of two equal texts is asked for.
same_dial :
    (dial : Bytes → Bool) (port q : Bytes)
    → (bytes_equal port q && dial port) ≡ (bytes_equal port q && dial q)
same_dial dial port q = elim (Bool-cases (bytes_equal port q)) [
  | inl same ↦ rw same (ap dial ((bytes_equal_iff port q).0 same))
  | inr other ↦ rw other refl
]

same_members :
    {ck : Clerk} (m m' : Bytes → Bool) → ((q : Bytes) → m q ≡ m' q) → Knows ck m → Knows ck m'
same_members m m' same w = record { parallel = w.parallel; members = λ q. w.members q ∙ same q }

-- Membership after one port that may be dialled.
abbrev and_port : (Bytes → Bool) → Bytes → (Bytes → Bool) → Bytes → Bool
and_port dial port member q = member q || (bytes_equal port q && dial q)

or_false : (m : Bool) → m ≡ (m || false)
or_false m = ground arith

regroup : (m e r d : Bool) → ((m || (e && d)) || (r && d)) ≡ (m || ((e || r) && d))
regroup m e r d = ground arith

module _ (dial : Bytes → Bool) (port : Bytes) (ck : Clerk) (member : Bytes → Bool)
    (w : Knows ck member) where
  with_server-Knows : dial port ≡ true → Knows (with_server port ck) (and_port dial port member)
  with_server-Knows there = record {
    parallel = ap (λ (l : List Bytes). l ++ port ∷ []) w.parallel;
    members = λ q.
        is_among-last q port ck.ports
        ∙ ap (λ (b : Bool). b || bytes_equal port q) (w.members q)
        ∙ ap (λ (b : Bool). member q || b) (reached q);
  }
    where
      reached : (q : Bytes) → bytes_equal port q ≡ (bytes_equal port q && dial q)
      reached q = both (bytes_equal port q) ∙ same_dial dial port q
        where
          both : (b : Bool) → b ≡ (b && dial port)
          both b = rw there (ground arith)

  away-Knows : dial port ≡ false → Knows ck (and_port dial port member)
  away-Knows away =
      same_members member (and_port dial port member)
        (λ q. elim (Bool-cases (bytes_equal port q)) [
          | inr other ↦ rw other (or_false (member q))
          | inl same ↦
              let e = (bytes_equal_iff port q).0 same in
              rw (same, ap dial (sym e) ∙ away) (or_false (member q))
        ])
        w

  among-Knows : is_among port ck.ports ≡ true → Knows ck (and_port dial port member)
  among-Knows old =
      same_members member (and_port dial port member)
        (λ q. elim (Bool-cases (bytes_equal port q)) [
          | inr other ↦ rw other (or_false (member q))
          | inl same ↦
              let e = (bytes_equal_iff port q).0 same in
              rw (sym (w.members q) ∙ ap (λ (x : Bytes). is_among x ck.ports) (sym e) ∙ old) refl
        ])
        w

dial_servers-Knows :
    (dial : Bytes → Bool) (ports : List Bytes) (ck : Clerk) (member : Bytes → Bool)
    → Knows ck member
    → Knows (dial_servers dial ports ck) (λ q. member q || (is_among q ports && dial q))
unfolding dial_servers is_among
dial_servers-Knows dial [] ck member w =
    same_members member (λ q. member q || (false && dial q)) (λ q. ground arith) w
dial_servers-Knows dial (port ∷ ports) ck member w =
    same_members (λ q. and_port dial port member q || (is_among q ports && dial q))
      (λ q. member q || ((bytes_equal port q || is_among q ports) && dial q))
      (λ q. regroup (member q) (bytes_equal port q) (is_among q ports) (dial q))
      (dial_servers-Knows dial ports (if dial port then with_server port ck else ck)
        (and_port dial port member)
        (elim (Bool-cases (dial port)) [
          | inl there ↦ rw there (with_server-Knows dial port ck member w there)
          | inr away ↦ rw away (away-Knows dial port ck member w away)
        ]))

merge_peers-Knows :
    (dial : Bytes → Bool) (ports : List Bytes) (ck : Clerk) (member : Bytes → Bool)
    → Knows ck member
    → Knows (merge_peers dial ports ck) (λ q. member q || (is_among q ports && dial q))
unfolding merge_peers is_among
merge_peers-Knows dial [] ck member w =
    same_members member (λ q. member q || (false && dial q)) (λ q. ground arith) w
merge_peers-Knows dial (port ∷ ports) ck member w =
    same_members (λ q. and_port dial port member q || (is_among q ports && dial q))
      (λ q. member q || ((bytes_equal port q || is_among q ports) && dial q))
      (λ q. regroup (member q) (bytes_equal port q) (is_among q ports) (dial q))
      (merge_peers-Knows dial ports _ (and_port dial port member)
        (elim (Bool-cases (is_among port ck.ports)) [
          | inl old ↦ rw old (among-Knows dial port ck member w old)
          | inr new ↦ elim (Bool-cases (dial port)) [
            | inl there ↦ rw (new, there) (with_server-Knows dial port ck member w there)
            | inr away ↦ rw (new, away) (away-Knows dial port ck member w away)
          ]
        ]))

-- If MakeClerk gives a clerk, then base64 decodes the key, and after any later merge the clerk's
-- clients are parallel to its ports, and its ports are exactly those of the given servers that
-- could be dialled then and those of the merged ports that can be dialled now.
pub make_clerk-peers :
    (dial dial' : Bytes → Bool) (decode : Bytes → Option Bytes)
    (key_from_bytes : Bytes → PrivateKey) (id : ℕ) (port priv_key : Bytes)
    (servers ports : List Bytes) (ck : Clerk)
    → make_clerk dial decode key_from_bytes id port priv_key servers ≡ some ck
    → ((pk_bytes : Bytes) × (decode priv_key ≡ some pk_bytes))
      × ((merge_peers dial' ports ck).servers ≡ (merge_peers dial' ports ck).ports)
      × ((q : Bytes)
          → is_among q (merge_peers dial' ports ck).ports
            ≡ ((is_among q servers && dial q) || (is_among q ports && dial' q)))
unfolding make_clerk is_among
make_clerk-peers dial dial' decode key_from_bytes id port priv_key servers ports ck run =
    elim (Option-cases (decode priv_key)) [
      | inl bad ↦ absurd (clash (rw (bad, make_clerk) at run))
      | inr (pk_bytes, decoded) ↦
          let fresh =
            dial_servers-Knows dial servers _ (λ q. false)
              (record { parallel = refl; members = λ q. refl }) in
          let known =
            merge_peers-Knows dial' ports ck (λ q. is_among q servers && dial q)
              (subst (λ (x : Clerk). Knows x (λ q. is_among q servers && dial q))
                (some_value (rw (decoded, make_clerk) at run)) fresh) in
          ((pk_bytes, decoded), known.parallel, known.members)
    ]
  where
    clash : none ≡ some ck → ⊥
    clash q = cc

    some_value : {a b : Clerk} → some a ≡ some b → a ≡ b
    some_value q = cc
