-- ===== src/Client/Session.antt =====
-- The command loop of main of src/client/client.go.
use dreddit.Base.{
  ℕ, zero, suc, Bool, true, false, List, [], ◌∷◌, Option, none, some, Bytes, bytes_equal, bytes_eq,
  if◌then◌else◌, Result, ok, out_of_fuel, ◌>>=◌,
}
use dreddit.Dict.{lookup}
use dreddit.Hash.{Scrypt}
use dreddit.Block.Types.{Block}
use dreddit.Clerk.Defs.{Clerk, Network}
use dreddit.Clerk.Requests.{post_content, comment_on, upvote_to}
use dreddit.Client.Defs.{Client}
use dreddit.Client.Page.{Shown, query_blockchain}

-- `reader.ReadString('\n')`: a line with its end, or nothing once the input has ended.
abbrev pub read_string : List Bytes → Bytes × List Bytes
read_string [] = ([], [])
read_string (text ∷ rest) = (text, rest)

-- "help\n", "view\n", "post\n", "comment\n", "upvote\n" and "quit\n"
abbrev pub help_command : Bytes
help_command = 104 ∷ 101 ∷ 108 ∷ 112 ∷ 10 ∷ []

abbrev pub view_command : Bytes
view_command = 118 ∷ 105 ∷ 101 ∷ 119 ∷ 10 ∷ []

abbrev pub post_command : Bytes
post_command = 112 ∷ 111 ∷ 115 ∷ 116 ∷ 10 ∷ []

abbrev pub comment_command : Bytes
comment_command = 99 ∷ 111 ∷ 109 ∷ 109 ∷ 101 ∷ 110 ∷ 116 ∷ 10 ∷ []

abbrev pub upvote_command : Bytes
upvote_command = 117 ∷ 112 ∷ 118 ∷ 111 ∷ 116 ∷ 101 ∷ 10 ∷ []

abbrev pub quit_command : Bytes
quit_command = 113 ∷ 117 ∷ 105 ∷ 116 ∷ 10 ∷ []

-- What a command prints.
pub data Printed : Type 0 where
  help : Printed
  page : List Shown → Printed
  done : Bool → Printed
  no_parent : Printed
  not_recognized : Printed

-- What a session works with: the clerk, its network with the fuel of its calls, and the reply of
-- GetBlockchain at each view, which the number of rounds left picks.
pub record World : Type 0 where
  pub scrypt : Scrypt
  pub clerk : Clerk
  pub net : Network
  pub fuel : ℕ
  pub chain_at : ℕ → Option (List Block)

abbrev pub State : Type 0
State = List Bytes × (Client × Printed)

-- A command but "quit\n": the rest of the input, the client and what is printed.
unfoldable pub run_command : World → ℕ → Bytes → List Bytes → Client → Result State
unfolding query_blockchain
run_command w round text input cl =
    if bytes_equal text help_command
    then ok (input, (cl, help))
    else if bytes_equal text view_command
    then (query_blockchain w.scrypt w.fuel (w.chain_at round) cl >>= λ (shown, cl').
        ok (input, (cl', page shown)))
    else if bytes_equal text post_command
    then (let (content, rest) = read_string input in
        post_content w.scrypt w.clerk w.net w.fuel content >>= λ sent. ok (rest, (cl, done sent)))
    else if bytes_equal text comment_command
    then (let (key, rest) = read_string input in
        elim (lookup key cl.hash_map) [
          | none ↦ ok (rest, (cl, no_parent))
          | some txc ↦
              let (content, rest') = read_string rest in
              comment_on w.scrypt w.clerk w.net w.fuel txc.hash content >>= λ sent.
              ok (rest', (cl, done sent))
        ])
    else if bytes_equal text upvote_command
    then (let (key, rest) = read_string input in
        elim (lookup key cl.hash_map) [
          | none ↦ ok (rest, (cl, no_parent))
          | some txc ↦ upvote_to w.scrypt w.clerk w.net w.fuel txc.hash txc.address >>= λ sent.
              ok (rest, (cl, done sent))
        ])
    else ok (input, (cl, not_recognized))

-- The loop, on fuel: only "quit\n" ends it.
unfoldable pub session : World → ℕ → List Bytes → Client → Result (List Printed × Client)
unfolding run_command
session w zero input cl = out_of_fuel
session w (suc rounds) input cl =
    let (text, rest) = read_string input in
    elim (bytes_equal text quit_command) [
      | true ↦ ok ([], cl)
      | false ↦ run_command w rounds text rest cl >>= λ (rest', (cl', printed)).
          session w rounds rest' cl' >>= λ (more, last). ok (printed ∷ more, last)
    ]
