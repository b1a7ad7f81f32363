-- ===== src/Client/Endless.antt =====
-- The command loop of src/client/client.go at the end of its input.
use mathlib.Core.Path.{subst}
use dreddit.Base.{
  ℕ, zero, suc, ◌≡◌, refl, false, List, [], ◌∷◌, Bytes, bytes_eq, bytes_equal, All, Bool-cases,
  Option-cases, inl, inr, ok, ok_injective, >>=-eq-ok,
}
use dreddit.Dict.{lookup}
use dreddit.Clerk.Requests.{post_content, comment_on, upvote_to}
use dreddit.Client.Defs.{Client}
use dreddit.Client.Page.{query_blockchain}
use dreddit.Client.Session.{
  read_string, help_command, view_command, post_command, comment_command, upvote_command,
  quit_command, Printed, World, State, run_command, session,
}

-- No line is "quit\n".
abbrev pub HasNoQuit : List Bytes → Type 0
HasNoQuit input = All (λ (text : Bytes). bytes_equal text quit_command ≡ false) input

rest-HasNoQuit : (input : List Bytes) → HasNoQuit input → HasNoQuit (read_string input).1
rest-HasNoQuit [] w = tt
rest-HasNoQuit (text ∷ rest) w = w.1

first_no_quit :
    (input : List Bytes) → HasNoQuit input → bytes_equal (read_string input).0 quit_command ≡ false
first_no_quit [] w = refl
first_no_quit (text ∷ rest) w = w.0

module _ (world : World) (round : ℕ) (text : Bytes) (input : List Bytes) (cl : Client) where
  -- What a command leaves of an input without "quit\n" has none either.
  run_command-HasNoQuit :
      {r : State} → run_command world round text input cl ≡ ok r → HasNoQuit input → HasNoQuit r.0
  unfolding run_command
  run_command-HasNoQuit {r} run w =
      let w1 = rest-HasNoQuit input w in
      let w2 = rest-HasNoQuit (read_string input).1 w1 in
      elim (Bool-cases (bytes_equal text help_command)) [
        | inl hit ↦ keep w (rw (hit, run_command) at run)
        | inr no1 ↦ elim (Bool-cases (bytes_equal text view_command)) [
          | inl hit ↦
              let (shown, queried, h) =
                >>=-eq-ok (query_blockchain world.scrypt world.fuel (world.chain_at round) cl) _
                  (rw (no1, hit, run_command) at run) in
              keep w h
          | inr no2 ↦ elim (Bool-cases (bytes_equal text post_command)) [
            | inl hit ↦
                let (sent, posted, h) =
                  >>=-eq-ok
                    (post_content world.scrypt world.clerk world.net world.fuel
                      (read_string input).0)
                    _ (rw (no1, no2, hit, run_command) at run) in
                keep w1 h
            | inr no3 ↦ elim (Bool-cases (bytes_equal text comment_command)) [
              | inl hit ↦ elim (Option-cases (lookup (read_string input).0 cl.hash_map)) [
                | inl absent ↦ keep w1 (rw absent at (rw (no1, no2, no3, hit, run_command) at run))
                | inr (txc, found) ↦
                    let (sent, posted, h) =
                      >>=-eq-ok
                        (comment_on world.scrypt world.clerk world.net world.fuel txc.hash
                          (read_string (read_string input).1).0)
                        _ (rw found at (rw (no1, no2, no3, hit, run_command) at run)) in
                    keep w2 h
              ]
              | inr no4 ↦ elim (Bool-cases (bytes_equal text upvote_command)) [
                | inl hit ↦ elim (Option-cases (lookup (read_string input).0 cl.hash_map)) [
                  | inl absent ↦
                      keep w1 (rw absent at (rw (no1, no2, no3, no4, hit, run_command) at run))
                  | inr (txc, found) ↦
                      let (sent, posted, h) =
                        >>=-eq-ok
                          (upvote_to world.scrypt world.clerk world.net world.fuel txc.hash
                            txc.address)
                          _ (rw found at (rw (no1, no2, no3, no4, hit, run_command) at run)) in
                      keep w1 h
                ]
                | inr no5 ↦ keep w (rw (no1, no2, no3, no4, no5, run_command) at run)
              ]
            ]
          ]
        ]
      ]
    where
      keep : {x : State} → HasNoQuit x.0 → ok x ≡ ok r → HasNoQuit r.0
      keep w h = subst (λ (x : State). HasNoQuit x.0) (ok_injective h) w

-- On an input without the line "quit\n" the command loop never returns a result, whatever fuel it
-- has: the end of the input does not end it.
pub session-endless :
    (world : World) (rounds : ℕ) (input : List Bytes) (cl : Client) (r : List Printed × Client)
    → HasNoQuit input
    → ¬ (session world rounds input cl ≡ ok r)
unfolding session
session-endless world zero input cl r w run = cc
session-endless world (suc rounds) input cl r w run =
    let (left, one, h1) =
      >>=-eq-ok (run_command world rounds (read_string input).0 (read_string input).1 cl) _
        (rw (first_no_quit input w, session) at run) in
    let (more, two, h2) = >>=-eq-ok (session world rounds left.0 left.1.0) _ h1 in
    session-endless world rounds left.0 left.1.0 more
      (run_command-HasNoQuit world rounds (read_string input).0 (read_string input).1 cl one
        (rest-HasNoQuit input w))
      two
