-- ===== src/Allnet/Tests.antt =====
-- The ALL.Net server of src/runtime/allnet.c at concrete requests, and the theorems about it at these.
use systemes3recomp.Prelude.{◌≡◌, ◌≢◌, refl, none, some, List, [], ◌∷◌, ◌++◌, Bytes, arith}
use systemes3recomp.Jvs.{codes}
use systemes3recomp.Allnet.Reply.{Clock, response}
use systemes3recomp.Allnet.Request.{Arrivals, read_head, path_of, serve, req_size}
use systemes3recomp.Allnet.Request.Heads.{read_head-path_of}
use systemes3recomp.Allnet.Request.Complete.{serve-answers}
use systemes3recomp.Allnet.Link.{Interface, picked}

abbrev noon : Clock
noon = record { year = 2014; month = 5; day = 6; hour = 12; minute = 0; second = 59 }

abbrev addr : Bytes
addr = codes "192.0.2.1"

-- A request in two pieces, the second with a byte of a body.
abbrev head : Bytes
head = codes "GET /amid/x HTTP/1.1"

abbrev pieces : Arrivals
pieces = codes "GET /am" ∷ (codes "id/x HTTP/1.1\r\n\r\n" ++ (65 ∷ [])) ∷ []

read_pieces : read_head req_size [] pieces ≡ some (codes "GET /amid/x HTTP/1.1\r\n\r\nA", [])
unfolding read_head
read_pieces = refl

served : serve none addr noon pieces ≡ some (response (codes "{\"status\":0}"), [])
unfolding serve
served = refl

read_head-path_of_example : path_of (codes "GET /amid/x HTTP/1.1\r\n\r\nA") ≡ codes "/amid/x"
read_head-path_of_example =
    read_head-path_of (codes "GET") (codes "/amid/x") (codes "HTTP/1.1\r\n\r\nA") pieces
      (codes "GET /amid/x HTTP/1.1\r\n\r\nA") [] (omega arith) (omega arith) (omega arith)
      (omega arith) refl read_pieces

serve-answers_example : serve none addr noon pieces ≢ none
serve-answers_example =
    serve-answers none addr noon head (65 ∷ []) pieces (omega arith) (omega arith) (omega arith)
      refl

abbrev adapters : List Interface
adapters =
    record { flags = 5; addr = 1 }
    ∷ record { flags = 3; addr = 2 }
    ∷ record { flags = 3; addr = 3 }
    ∷ []

picked_routed : picked adapters 3 ≡ 2
unfolding picked
picked_routed = refl
