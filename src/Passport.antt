-- ===== src/Passport.antt =====
-- The card's window beside the game: the local web server of src/runtime/passport.c.
pub mod State
pub mod Sending
pub mod Tests
use systemes3recomp.Prelude.{
  ℕ, zero, suc, ◌+◌, ◌-◌, ◌*◌, ◌/◌, ◌≤◌, ◌<◌, Bool, true, false, not, ◌&&◌, ◌||◌, Option, none,
  some, List, [], ◌∷◌, ◌++◌, length, get_or, take, drop, Bytes, leb, ltb, ◌==◌, if◌then◌else◌,
}
use systemes3recomp.Jvs.{codes}
use systemes3recomp.Text.{c_string, contains, decimal, hex2}

abbrev pub shown_bytes : ℕ
shown_bytes = 1024

-- passport_port: what atoi makes of ES3_PASSPORT_PORT, none if it is unset. A negative number is
-- read as 0, which the test takes the same way.
unfoldable pub passport_port : Option ℕ → ℕ
passport_port none = 8642
passport_port (some n) = if n == 0 || ltb 65535 n then 8642 else n

-- send_all. The answers are what send returns, call by call: how many bytes it took, 0 for an error.
-- The result is what was handed over.
unfoldable pub send_all : List ℕ → Bytes → Bytes
send_all answers [] = []
send_all [] (b ∷ bs) = []
send_all (zero ∷ answers) (b ∷ bs) = []
send_all (suc r ∷ answers) (b ∷ bs) = b ∷ (take r bs ++ send_all answers (drop r bs))

-- The reader's state as es3_card_state gives it, and es3_card_file.
pub record CardState : Type 0 where
  pub uid : Bytes
  pub present : Bool
  pub reads : ℕ
  pub writes : ℕ
  pub img : Bytes
  pub file : Bytes

-- "%02X" of each byte.
unfoldable pub hex_bytes : Bytes → Bytes
hex_bytes [] = []
hex_bytes (b ∷ bs) = hex2 b ++ hex_bytes bs

abbrev pub truth : Bool → Bytes
truth b = if b then codes "true" else codes "false"

-- The text before the blocks.
unfoldable pub state_head : CardState → Bytes
unfolding hex_bytes decimal
state_head c =
    codes "{\"uid\":\""
    ++ (hex_bytes (take 4 c.uid)
        ++ (codes "\",\"present\":"
            ++ (truth c.present
                ++ (codes ",\"reads\":"
                    ++ (decimal c.reads
                        ++ (codes ",\"writes\":"
                            ++ (decimal c.writes
                                ++ (codes ",\"file\":\""
                                    ++ (c.file ++ codes "\",\"blocks\":\"")))))))))

-- state_json.
unfoldable pub state_json : CardState → Bytes
unfolding state_head hex_bytes
state_json c = state_head c ++ (hex_bytes (take shown_bytes c.img) ++ codes "\"}")

-- The size of the buffer that serve_one gives it.
abbrev pub state_size : ℕ
state_size = shown_bytes * 2 + 512

-- send_response: the head and the body.
unfoldable pub response_head : Bytes → ℕ → Bytes
unfolding decimal
response_head kind len =
    codes "HTTP/1.1 200 OK\r\nContent-Type: "
    ++ (kind
        ++ (codes "\r\nContent-Length: "
            ++ (decimal len ++ codes "\r\nCache-Control: no-store\r\nConnection: close\r\n\r\n")))

-- What serve_one does with a request: whether it taps the card, and what it answers, the kind and
-- the body. No request is no answer. PAGE is the page's text.
pub record Answer : Type 0 where
  pub taps : Bool
  pub kind : Bytes
  pub body : Bytes

unfoldable pub serve_one : Bytes → CardState → Bytes → Option Answer
unfolding contains c_string state_json
serve_one page c [] = none
serve_one page c (b ∷ bs) =
    let req = c_string (b ∷ bs) in
    if contains (codes "POST /tap") req
    then some
        (record { taps = true; kind = codes "application/json"; body = codes "{\"ok\":true}" })
    else if contains (codes "GET /state.json") req
    then some
        (record { taps = false; kind = codes "application/json"; body = c_string (state_json c) })
    else some (record { taps = false; kind = codes "text/html; charset=utf-8"; body = page })

-- es3_passport_start: whether a call starts the thread. `want` is ES3_PASSPORT, `card` says whether
-- ES3_CARD is set.
unfoldable pub passport_starts : Option Bytes → Bool → Bool → Bool
passport_starts none false started = false
passport_starts none true started = not started
passport_starts (some []) card started = not started
passport_starts (some (c ∷ cs)) card started =
    not (c == b'0' || c == b'n' || c == b'N') && not started

-- The page's script: the bytes it makes of the blocks' text, two digits each.
abbrev pub hex_value : ℕ → ℕ
hex_value c = if ltb c b'A' then c - b'0' else c - b'A' + 10

unfoldable pub page_blocks : Bytes → Bytes
page_blocks [] = []
page_blocks (h ∷ []) = []
page_blocks (h ∷ l ∷ rest) = (16 * hex_value h + hex_value l) ∷ page_blocks rest
