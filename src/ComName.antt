-- ===== src/ComName.antt =====
-- The names of serial ports, as es3_jvs_open (src/runtime/jvs.c) and es3_card_open
-- (src/runtime/card.c) read them. A name is its bytes without the nul that ends it.
pub mod Apart
use systemes3recomp.Prelude.{
  ℕ, ◌+◌, ◌-◌, ◌*◌, Bool, false, ◌&&◌, ◌||◌, ◌==◌, leb, if◌then◌else◌, Bytes, get_or, drop,
}

-- `p[i]`, the nul included.
abbrev pub at : Bytes → ℕ → ℕ
at p i = get_or p i 0

abbrev pub is_digit : ℕ → Bool
is_digit c = leb b'0' c && leb c b'9'

-- The name behind `\\.\`.
unfoldable pub skip_device : Bytes → Bytes
skip_device p =
    if at p 0 == b'\\' && at p 1 == b'\\' && at p 2 == b'.' && at p 3 == b'\\' then drop 4 p else p

unfoldable pub is_com : Bytes → Bool
is_com p =
    (at p 0 == b'C' || at p 0 == b'c')
    && (at p 1 == b'O' || at p 1 == b'o')
    && (at p 2 == b'M' || at p 2 == b'm')
    && is_digit (at p 3)

-- One digit, or two.
unfoldable pub com_number : Bytes → ℕ
com_number p = let n = at p 3 - b'0' in if is_digit (at p 4) then n * 10 + (at p 4 - b'0') else n

-- `atoi` of the variable that moves the port, if it is set: an int, of which none below 0 is the
-- number of a port.
pub data Wanted : Type 0 where
  unset : Wanted
  port : ℕ → Wanted
  negative : ℕ → Wanted

unfoldable pub is_wanted : ℕ → Wanted → ℕ → Bool
is_wanted default unset n = n == default
is_wanted default (port m) n = n == m
is_wanted default (negative m) n = false

-- The name is claimed by the board whose port is `default` unless `want` moves it.
unfoldable pub claims : ℕ → Wanted → Bytes → Bool
unfolding is_com com_number is_wanted skip_device
claims default want name =
    let p = skip_device name in is_com p && is_wanted default want (com_number p)
