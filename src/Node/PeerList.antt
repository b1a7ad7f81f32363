-- ===== src/Node/PeerList.antt =====
-- The peers of a node: `merge` of src/node/miner.go against the set of ports it stands for.
use mathlib.Core.Path.{subst}
use dreddit.Base.{
  ◌⊎◌, ◌≡◌, refl, sym, ap, ◌∙◌, Bool, true, false, not, ◌&&◌, ◌||◌, List, [], ◌∷◌, ◌++◌, Bytes,
  bytes_equal, bytes_equal_iff, Bool-cases, inl, inr, arith,
}
use dreddit.Node.State.{DrNode}
use dreddit.Node.Requests.{is_among}
use dreddit.Node.Peers.{with_peer, merge_one, merge}

pub is_among-last :
    (q z : Bytes) (xs : List Bytes) → is_among q (xs ++ z ∷ []) ≡ (is_among q xs || bytes_equal z q)
unfolding is_among
is_among-last q z [] = ground arith
is_among-last q z (x ∷ xs) = ground (arith, is_among-last q z xs)

-- No port stands twice.
abbrev pub IsDistinctPorts : List Bytes → Type 0
IsDistinctPorts [] = Unit {0}
IsDistinctPorts (x ∷ xs) = (is_among x xs ≡ false) × IsDistinctPorts xs

other_way : (x z : Bytes) → bytes_equal x z ≡ false → bytes_equal z x ≡ false
other_way x z h = ground (arith, bytes_equal_iff x z, bytes_equal_iff z x)

neither : (a b : Bool) → a ≡ false → b ≡ false → (a || b) ≡ false
neither a b g h = ground arith

distinct-last :
    (z : Bytes) (xs : List Bytes)
    → is_among z xs ≡ false
    → IsDistinctPorts xs
    → IsDistinctPorts (xs ++ z ∷ [])
unfolding is_among
distinct-last z [] new d = (refl, tt)
distinct-last z (x ∷ xs) new d = (
  is_among-last x z xs
      ∙ neither (is_among x xs) (bytes_equal z x) d.0
          (other_way x z (first (bytes_equal x z) (is_among z xs) new)),
  distinct-last z xs (second (bytes_equal x z) (is_among z xs) new) d.1,
)
  where
    first : (a b : Bool) → (a || b) ≡ false → a ≡ false
    first a b h = ground arith

    second : (a b : Bool) → (a || b) ≡ false → b ≡ false
    second a b h = ground arith

-- A node's list of peers: no port twice, not its own, and a client for each.
pub record IsPeerList (n : DrNode) : Type 0 where
  pub distinct : IsDistinctPorts n.ports
  pub stranger : is_among n.port n.ports ≡ false
  pub parallel : n.servers ≡ n.ports

pub with_peer-IsPeerList :
    (port : Bytes) (n : DrNode)
    → IsPeerList n
    → bytes_equal port n.port ≡ false
    → is_among port n.ports ≡ false
    → IsPeerList (with_peer port n)
with_peer-IsPeerList port n w other new = record {
  distinct = distinct-last port n.ports new w.distinct;
  stranger =
      is_among-last n.port port n.ports
      ∙ neither (is_among n.port n.ports) (bytes_equal port n.port) w.stranger other;
  parallel = ap (λ (l : List Bytes). l ++ port ∷ []) w.parallel;
}

-- What merging one port does to the list.
record Merged (dial : Bytes → Bool) (port : Bytes) (n n' : DrNode) : Type 0 where
  peers : IsPeerList n'
  own : n'.port ≡ n.port
  members :
      (q : Bytes)
      → is_among q n'.ports
        ≡ (is_among q n.ports || (bytes_equal port q && (dial q && not (bytes_equal q n.port))))

absorbed : (a b c : Bool) → (b ≡ true → (c ≡ false) ⊎ (a ≡ true)) → a ≡ (a || (b && c))
absorbed true b c h = refl
absorbed false false c h = refl
absorbed false true c h = elim (h refl) [ inl e ↦ sym e | inr e ↦ sym (no_member e) ]
  where
    no_member : false ≡ true → c ≡ false
    no_member e = cc

let_in : (a b c : Bool) → (b ≡ true → c ≡ true) → (a || b) ≡ (a || (b && c))
let_in true b c h = refl
let_in false false c h = refl
let_in false true c h = sym (h refl)

module _ (dial : Bytes → Bool) where
  -- Whether a port is one that `n` may take up.
  abbrev welcome : DrNode → Bytes → Bool
  welcome n q = dial q && not (bytes_equal q n.port)

  moved_over :
      (n : DrNode) (port q : Bytes) (b : Bool)
      → welcome n port ≡ b
      → bytes_equal port q ≡ true
      → welcome n q ≡ b
  moved_over n port q b h same =
      subst (λ (x : Bytes). welcome n x ≡ b) ((bytes_equal_iff port q).0 same) h

  unchanged :
      (port : Bytes) (n : DrNode) → IsPeerList n → welcome n port ≡ false → Merged dial port n n
  unchanged port n w h = record {
    peers = w;
    own = refl;
    members = λ q.
        absorbed (is_among q n.ports) (bytes_equal port q) (welcome n q)
          (λ same. inl (moved_over n port q false h same));
  }

  merge_one-Merged :
      (port : Bytes) (n : DrNode) → IsPeerList n → Merged dial port n (merge_one dial port n)
  unfolding merge_one
  merge_one-Merged port n w = elim (Bool-cases (bytes_equal port n.port)) [
    | inl own ↦ rw own (unchanged port n w (not_own (dial port) (bytes_equal port n.port) own))
    | inr other ↦ elim (Bool-cases (is_among port n.ports)) [
      | inl old ↦
          rw (other, old)
            (record {
              peers = w;
              own = refl;
              members = λ q.
                  absorbed (is_among q n.ports) (bytes_equal port q) (welcome n q) (λ same. inr (
                    subst (λ (x : Bytes). is_among x n.ports ≡ true)
                      ((bytes_equal_iff port q).0 same) old));
            })
      | inr new ↦ elim (Bool-cases (dial port)) [
        | inl there ↦
            rw (other, new, there)
              (record {
                peers = with_peer-IsPeerList port n w other new;
                own = refl;
                members = λ q.
                    is_among-last q port n.ports
                    ∙ let_in (is_among q n.ports) (bytes_equal port q) (welcome n q) (
                        moved_over n port q true
                          (both (dial port) (bytes_equal port n.port) there other));
              })
        | inr away ↦
            rw (other, new, away)
              (unchanged port n w (no_dial (dial port) (bytes_equal port n.port) away))
      ]
    ]
  ]
    where
      not_own : (a b : Bool) → b ≡ true → (a && not b) ≡ false
      not_own a b h = ground arith

      no_dial : (a b : Bool) → a ≡ false → (a && not b) ≡ false
      no_dial a b h = ground arith

      both : (a b : Bool) → a ≡ true → b ≡ false → (a && not b) ≡ true
      both a b g h = ground arith

  -- If a node's list of peers has no port twice, not its own and a client for each, then it is so
  -- after `merge`, the node's own port is the same, and the ports are exactly the old ones and
  -- those of the new ones that can be dialled and are not the node's own.
  pub merge-IsPeerList :
      (ports : List Bytes) (n : DrNode)
      → IsPeerList n
      → IsPeerList (merge dial ports n)
        × ((merge dial ports n).port ≡ n.port)
        × ((q : Bytes)
            → is_among q (merge dial ports n).ports ≡ (
                is_among q n.ports || (is_among q ports && (dial q && not (bytes_equal q n.port)))))
  unfolding merge is_among
  merge-IsPeerList [] n w = (w, refl, λ q. ground arith)
  merge-IsPeerList (port ∷ ports) n w =
      let step = merge_one-Merged port n w in
      let (peers, own, members) = merge-IsPeerList ports (merge_one dial port n) step.peers in
      (
        peers,
        own ∙ step.own,
        λ q.
            members q
            ∙ rw (step.members q, step.own)
                (regroup (is_among q n.ports) (bytes_equal port q) (is_among q ports)
                  (dial q && not (bytes_equal q n.port))),
      )
    where
      regroup : (a b c d : Bool) → ((a || (b && d)) || (c && d)) ≡ (a || ((b || c) && d))
      regroup a b c d = ground arith
