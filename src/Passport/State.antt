-- ===== src/Passport/State.antt =====
-- The state that the card's window shows: it fits its buffer, and the page reads the card out of it.
use systemes3recomp.Prelude.{
  ℕ, suc, ◌+◌, ◌*◌, ◌/◌, ◌%◌, ◌^◌, ◌≤◌, ◌<◌, ◌≡◌, refl, Bool, true, false, Option, none, some, [],
  ◌∷◌, ◌++◌, length, length-append, length-take, take, All, Bytes, IsByte, arith,
}
use systemes3recomp.Jvs.{codes}
use systemes3recomp.Text.{decimal, hex_digit}
use systemes3recomp.Text.Decimal.{length-emit}
use systemes3recomp.Passport.{
  shown_bytes, passport_port, CardState, hex_bytes, truth, state_head, state_json, state_size,
  hex_value, page_blocks,
}

-- Whatever the environment says, the port is one that can be listened on.
pub passport_port_bounds : (n : Option ℕ) → (0 < passport_port n) × (passport_port n ≤ 65535)
unfolding passport_port
passport_port_bounds none = omega arith
passport_port_bounds (some n) = ground arith

length-hex_bytes : (bs : Bytes) → length (hex_bytes bs) ≡ 2 * length bs
unfolding hex_bytes
length-hex_bytes [] = omega arith
length-hex_bytes (b ∷ bs) = omega (arith, length-hex_bytes bs)

length-decimal : (n : ℕ) → n < 2 ^ 31 → length (decimal n) ≤ 10
unfolding decimal
length-decimal n h =
    omega (arith, length-emit (suc n) n 10 [] (omega arith) (omega arith) (omega arith))

length-truth : (b : Bool) → length (truth b) ≤ 5
length-truth true = omega arith
length-truth false = omega arith

length-state_head :
    (c : CardState)
    → c.reads < 2 ^ 31
    → c.writes < 2 ^ 31
    → length (state_head c) ≤ 96 + length c.file
unfolding state_head
length-state_head c r w =
    let last : Bytes = c.file ++ codes "\",\"blocks\":\"" in
    let file : Bytes = codes ",\"file\":\"" ++ last in
    let writes : Bytes = codes ",\"writes\":" ++ (decimal c.writes ++ file) in
    let reads : Bytes = codes ",\"reads\":" ++ (decimal c.reads ++ writes) in
    omega (
      arith,
      length-append (hex_bytes (take 4 c.uid))
          (codes "\",\"present\":" ++ (truth c.present ++ reads)),
      length-hex_bytes (take 4 c.uid),
      length-take 4 c.uid,
      length-append (truth c.present) reads,
      length-truth c.present,
      length-append (decimal c.reads) writes,
      length-decimal c.reads r,
      length-append (decimal c.writes) file,
      length-decimal c.writes w,
      length-append c.file (codes "\",\"blocks\":\""),
    )

-- The state's text and its NUL fit the buffer that serve_one gives state_json, if the card's file
-- has a path of at most 400 characters and the counters are ints that have not overflowed.
pub state_json-fits :
    (c : CardState)
    → c.reads < 2 ^ 31
    → c.writes < 2 ^ 31
    → length c.file ≤ 400
    → length (state_json c) < state_size
unfolding state_json
state_json-fits c r w f = omega (
  arith,
  length-append (state_head c) (hex_bytes (take shown_bytes c.img) ++ codes "\"}"),
  length-append (hex_bytes (take shown_bytes c.img)) (codes "\"}"),
  length-hex_bytes (take shown_bytes c.img),
  length-take shown_bytes c.img,
  length-state_head c r w,
)

hex_value-hex_digit : (d : ℕ) → d < 16 → hex_value (hex_digit d) ≡ d
hex_value-hex_digit d h = ground arith

-- The page's script reads the bytes of the card back out of the state's text.
pub page_blocks-hex_bytes : (bs : Bytes) → All IsByte bs → page_blocks (hex_bytes bs) ≡ bs
unfolding page_blocks hex_bytes
page_blocks-hex_bytes [] a = refl
page_blocks-hex_bytes (b ∷ bs) a = ground (
  arith,
  hex_value-hex_digit (b / 16) (omega arith),
  hex_value-hex_digit (b % 16) (omega arith),
  page_blocks-hex_bytes bs a.1,
)
