-- ===== src/Allnet/Request.antt =====
-- How the ALL.Net server reads a request: serve of src/runtime/allnet.c.
pub mod Heads
pub mod Complete
use systemes3recomp.Prelude.{
  ℕ, zero, suc, ◌+◌, ◌-◌, ◌≤◌, ◌<◌, ◌≡◌, refl, Bool, true, false, not, ◌&&◌, ◌||◌, Option, none,
  some, List, [], ◌∷◌, ◌++◌, length, take, drop, Bytes, leb, ltb, ◌==◌, if◌then◌else◌,
}
use systemes3recomp.Jvs.{codes}
use systemes3recomp.Text.{c_string, contains, behind, split_at, atoi}
use systemes3recomp.Allnet.Reply.{Clock, reply_body, response}

-- A connection: what arrives, piece by piece. An empty piece, or no more, is what recv reports as 0
-- or less.
abbrev pub Arrivals : Type 0
Arrivals = List Bytes

-- One recv into a buffer with room for `room` bytes; what does not fit stays.
unfoldable pub recv : ℕ → Arrivals → Bytes × Arrivals
recv room [] = ([], [])
recv room (c ∷ cs) = if leb (length c) room then (c, cs) else (take room c, drop room c ∷ cs)

abbrev pub req_size : ℕ
req_size = 8192

-- The blank line behind a head.
abbrev pub blank_line : Bytes
blank_line = 13 ∷ 10 ∷ 13 ∷ 10 ∷ []

abbrev pub has_end : Bytes → Bool
has_end req = contains blank_line (c_string req)

-- The loop that reads the head. The fuel is the size of the buffer; none is a connection that is
-- closed without an answer.
unfoldable pub read_head : ℕ → Bytes → Arrivals → Option (Bytes × Arrivals)
unfolding recv contains c_string
read_head zero got conn = none
read_head (suc f) got conn =
    if ltb (length got) (req_size - 1)
    then (let (piece, rest) = recv (req_size - 1 - length got) conn in
        let req = got ++ piece in
        let more : Option (Bytes × Arrivals) = read_head f req rest in
        if length piece == 0 then none else if has_end req then some (req, rest) else more)
    else none

-- The path: what stands between the first two spaces, unless it is empty or does not fit.
unfoldable pub path_of : Bytes → Bytes
unfolding c_string split_at
path_of req = elim (split_at b' ' (c_string req)) [
  | none ↦ codes "/"
  | some (verb, more) ↦ elim (split_at b' ' more) [
    | none ↦ codes "/"
    | some (path, version) ↦ if length path == 0 || leb 256 (length path) then codes "/" else path
  ]
]

-- How many bytes of the body the head announces, and how many have come with it.
abbrev pub announced : Bytes → ℕ
announced req = elim (behind (codes "Content-Length:") (c_string req)) [
  | none ↦ 0
  | some rest ↦ atoi rest
]

abbrev pub come : Bytes → ℕ
come req = elim (behind blank_line (c_string req)) [
  | none ↦ 0
  | some rest ↦ length rest + (length req - length (c_string req))
]

-- The loop that reads the rest of the body and lets it go: what is left of the connection. The fuel
-- is the number of bytes.
unfoldable pub drain : ℕ → ℕ → ℕ → Arrivals → Arrivals
unfolding recv
drain zero have want conn = conn
drain (suc f) have want conn =
    if ltb have want
    then (let (piece, rest) = recv 2048 conn in
        let more : Arrivals = drain f (have + length piece) want rest in
        if length piece == 0 then rest else more)
    else conn

-- serve: what is sent, and what is left unread. The path is cut at its NUL by reply_body's strstr.
unfoldable pub serve : Option ℕ → Bytes → Clock → Arrivals → Option (Bytes × Arrivals)
unfolding read_head path_of behind atoi drain reply_body response
serve limit addr t conn = elim (read_head req_size [] conn) [
  | none ↦ none
  | some (req, rest) ↦
      let left = drain (announced req + 1) (come req) (announced req) rest in
      some (response (reply_body limit addr t (path_of req)), left)
]
