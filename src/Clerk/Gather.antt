-- ===== src/Clerk/Gather.antt =====
-- The loop of Transfer and Upvote of src/clerk/clerk.go over the unspent outputs.
use mathlib.Core.List.{append_assoc, append-nil}
use dreddit.Base.{
  ℕ, ◌+◌, ◌%◌, ◌^◌, ◌≡◌, ◌<◌, ◌≤◌, refl, sym, ap, ◌∙◌, List, [], ◌∷◌, ◌++◌, Bytes, ltb, map, All,
  Bool-cases, inl, inr, arith,
}
use dreddit.Slice.{u32_mod}
use dreddit.Tx.Types.{TxIn}
use dreddit.Utxo.Defs.{UnspentTx}
use dreddit.Utxo.Query.{value_of}
use dreddit.Clerk.Defs.{unsigned_spend, gather}

-- What the loop has gathered: the outputs `taken`, the first ones of the list.
pub record Gathered (pub_key : Bytes) (us : List UnspentTx) (sum : ℕ) (ins : List TxIn)
    (r : ℕ × List TxIn) : Type 0 where
  pub taken : List UnspentTx
  pub left : List UnspentTx
  pub split : us ≡ taken ++ left
  pub total : r.0 ≡ sum + value_of taken
  pub inputs : r.1 ≡ ins ++ map (unsigned_spend pub_key) taken

pub gather-Gathered :
    (pub_key : Bytes) (need : ℕ) (us : List UnspentTx) (sum : ℕ) (ins : List TxIn)
    → sum + value_of us < 2 ^ 32
    → Gathered pub_key us sum ins (gather pub_key need us sum ins)
unfolding gather value_of
gather-Gathered pub_key need [] sum ins small = record {
  taken = [];
  left = [];
  split = refl;
  total = omega arith;
  inputs = sym (append-nil ins);
}
gather-Gathered pub_key need (u ∷ us) sum ins small =
    let sum' = (sum + u.value) % u32_mod in
    let ins' = ins ++ unsigned_spend pub_key u ∷ [] in
    elim (Bool-cases (ltb need sum')) [
      | inl enough ↦
          rw enough
            (record { taken = u ∷ []; left = us; split = refl; total = omega arith; inputs = refl })
      | inr short ↦
          let w = gather-Gathered pub_key need us sum' ins' (omega arith) in
          rw short (record {
            taken = u ∷ w.taken;
            left = w.left;
            split = ap (◌∷◌ u) w.split;
            total = omega (arith, w.total);
            inputs =
                w.inputs
                ∙ append_assoc ins (unsigned_spend pub_key u ∷ [])
                    (map (unsigned_spend pub_key) w.taken);
          })
    ]

-- It is enough if all the outputs are.
pub gather_enough :
    (pub_key : Bytes) (need : ℕ) (us : List UnspentTx) (sum : ℕ) (ins : List TxIn)
    → sum + value_of us < 2 ^ 32
    → need ≤ sum + value_of us
    → need ≤ (gather pub_key need us sum ins).0
unfolding gather value_of
gather_enough pub_key need [] sum ins small enough = omega (arith, enough)
gather_enough pub_key need (u ∷ us) sum ins small enough =
    let sum' = (sum + u.value) % u32_mod in
    elim (Bool-cases (ltb need sum')) [
      | inl above ↦ let lt : need < sum' = ground arith in rw above (omega (arith, lt))
      | inr short ↦ rw short (
          gather_enough pub_key need us sum' (ins ++ unsigned_spend pub_key u ∷ []) (omega arith)
            (omega (arith, enough)))
    ]

pub value_of-left : (taken left : List UnspentTx) → value_of taken ≤ value_of (taken ++ left)
unfolding value_of
value_of-left [] left = omega arith
value_of-left (u ∷ taken) left = omega (arith, value_of-left taken left)

pub All-taken {κ} :
    {A : Type 0} (P : A → Type κ) (taken left : List A) → All P (taken ++ left) → All P taken
All-taken P [] left h = tt
All-taken P (x ∷ taken) left h = (h.0, All-taken P taken left h.1)
