-- ===== src/Clerk/Retry.antt =====
-- The retry loop of the clerk ends as soon as a server on its way answers.
use dreddit.Base.{
  ℕ, zero, suc, ◌+◌, ◌%◌, ◌<◌, ◌≤◌, ◌≡◌, ap, ◌∙◌, true, Option, some, ltb, Option-cases, inl, inr,
  ok, arith,
}
use native.Mathlib.Nat.{mod-lt}
use dreddit.Clerk.Defs.{ask}

in_range : (a b : ℕ) → a < b → ltb a b ≡ true
in_range a b h = ground arith

module _ {ℓ} {A : Type ℓ} (call : ℕ → ℕ → Option A) (servers : ℕ) where
  -- The server that is asked `n` calls after the server `current`.
  abbrev pub server_after : ℕ → ℕ → ℕ
  server_after current zero = current
  server_after current (suc n) = server_after ((current + 1) % servers) n

  moved : {a : A} (i j k : ℕ) → i ≡ j → call j k ≡ some a → call i k ≡ some a
  moved i j k e h = ap (λ (x : ℕ). call x k) e ∙ h

  at_first : {a : A} (first k : ℕ) → call (first + 0) k ≡ some a → call first k ≡ some a
  at_first first k h = moved first (first + 0) k (omega arith) h

  -- If the current server is one of the servers, the call with number `first + n`, to the server
  -- `n` places further round, is answered, and the fuel is above `n`, then the retry loop returns
  -- the answer of one of the calls from `first` to `first + n`.
  pub ask-answered :
      (n fuel first current : ℕ) (a : A)
      → current < servers
      → n < fuel
      → call (first + n) (server_after current n) ≡ some a
      → (m : ℕ) × (b : A) × (m ≤ n)
        × (call (first + m) (server_after current m) ≡ some b)
        × (ask fuel call servers first current ≡ ok b)
  unfolding ask
  ask-answered n zero first current a here enough answered = absurd (omega arith)
  ask-answered zero (suc fuel) first current a here enough answered = (
    0,
    a,
    omega arith,
    answered,
    rw (in_range current servers here, at_first first current answered),
  )
  ask-answered (suc n) (suc fuel) first current a here enough answered =
      elim (Option-cases (call first current)) [
        | inr (b, now) ↦ (
          0,
          b,
          omega arith,
          ap (λ (i : ℕ). call i current) {y = first} (omega arith) ∙ now,
          rw (in_range current servers here, now),
        )
        | inl silent ↦
            let (m, b, le, there, e) =
              ask-answered n fuel (suc first) ((current + 1) % servers) a
                (mod-lt (current + 1) (omega arith)) (omega arith)
                (moved (suc first + n) (first + suc n) (server_after current (suc n)) (omega arith)
                  answered) in
            (
              suc m,
              b,
              omega arith,
              moved (first + suc m) (suc first + m) (server_after current (suc m)) (omega arith)
                  there,
              rw (in_range current servers here, silent) e,
            )
      ]
