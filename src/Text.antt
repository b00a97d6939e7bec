-- ===== src/Text.antt =====
-- C text as the two small web servers use it: strstr, strchr, atoi, and the formats of sprintf_s
-- (src/runtime/passport.c, src/runtime/allnet.c).
pub mod Decimal
pub mod Search
use systemes3recomp.Prelude.{
  ℕ, zero, suc, ◌+◌, ◌-◌, ◌*◌, ◌/◌, ◌%◌, ◌≤◌, Bool, true, false, ◌&&◌, ◌||◌, Option, none, some,
  List, [], ◌∷◌, ◌++◌, length, drop, Bytes, leb, ltb, ◌==◌, if◌then◌else◌,
}

-- The bytes before the first NUL.
unfoldable pub c_string : Bytes → Bytes
c_string [] = []
c_string (b ∷ bs) = if b == 0 then [] else b ∷ c_string bs

unfoldable pub starts_with : Bytes → Bytes → Bool
starts_with [] s = true
starts_with (p ∷ ps) [] = false
starts_with (p ∷ ps) (b ∷ bs) = p == b && starts_with ps bs

-- strstr finds the text.
unfoldable pub contains : Bytes → Bytes → Bool
unfolding starts_with
contains p [] = starts_with p []
contains p (b ∷ bs) = starts_with p (b ∷ bs) || contains p bs

-- What stands behind a text where strstr finds it first.
unfoldable pub behind : Bytes → Bytes → Option Bytes
unfolding starts_with
behind p [] = if starts_with p [] then some [] else none
behind p (b ∷ bs) = if starts_with p (b ∷ bs) then some (drop (length p) (b ∷ bs)) else behind p bs

-- What stands before and behind a character where strchr finds it first.
unfoldable pub split_at : ℕ → Bytes → Option (Bytes × Bytes)
split_at c [] = none
split_at c (b ∷ bs) =
    if b == c
    then some ([], bs)
    else elim (split_at c bs) [ none ↦ none | some (pre, post) ↦ some (b ∷ pre, post) ]

abbrev pub is_decimal : ℕ → Bool
is_decimal c = leb b'0' c && leb c b'9'

-- atoi of digits, from the value of those before; no sign and no blanks.
unfoldable pub atoi_from : ℕ → Bytes → ℕ
atoi_from acc [] = acc
atoi_from acc (c ∷ cs) = elim (is_decimal c) [
  | true ↦ atoi_from (10 * acc + (c - b'0')) cs
  | false ↦ acc
]

abbrev pub skip_blanks : Bytes → Bytes
skip_blanks [] = []
skip_blanks (c ∷ cs) = if c == b' ' || leb 9 c && leb c 13 then skip_blanks cs else c ∷ cs

-- atoi of a text with no sign.
unfoldable pub atoi : Bytes → ℕ
unfolding atoi_from
atoi s = atoi_from 0 (skip_blanks s)

-- "%d" and "%u" of a number that is not negative. The fuel is the number and one.
unfoldable pub emit : ℕ → ℕ → Bytes → Bytes
emit zero n rest = rest
emit (suc f) n rest =
    let digits = (b'0' + n % 10) ∷ rest in
    let more = emit f (n / 10) digits in if ltb n 10 then digits else more

unfoldable pub decimal : ℕ → Bytes
unfolding emit
decimal n = emit (suc n) n []

-- "%02X" of a byte.
abbrev pub hex_digit : ℕ → ℕ
hex_digit d = if ltb d 10 then b'0' + d else b'A' + (d - 10)

abbrev pub hex2 : ℕ → Bytes
hex2 b = hex_digit (b / 16) ∷ hex_digit (b % 16) ∷ []
