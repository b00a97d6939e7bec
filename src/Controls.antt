-- ===== src/Controls.antt =====
-- What a player holds: the keys that GetAsyncKeyState is asked for and the gamepad that
-- XInputGetState returns, as src/runtime/jvs.c and src/input/es3_input.c read them.
use Prim.Native.Nat.{bit_and}
use systemes3recomp.Prelude.{ℕ, suc, ◌<◌, Bool, not, ◌==◌, ltb}

-- A signed integer: negsuc n is -(n + 1).
pub data ℤ : Type 0 where
  pos : ℕ → ℤ
  negsuc : ℕ → ℤ

abbrev pub IsShort : ℤ → Type 0
IsShort (pos n) = n < 32768
IsShort (negsuc n) = n < 32768

pub record Keys : Type 0 where
  pub enter : Bool
  pub left_control : Bool
  pub space : Bool
  pub z : Bool
  pub up : Bool
  pub down : Bool
  pub left : Bool
  pub right : Bool
  pub s : Bool
  pub t : Bool
  pub five : Bool
  pub c : Bool

-- ES3_XINPUT_STATE.Gamepad: the buttons, the triggers and the left stick.
pub record Pad : Type 0 where
  pub buttons : ℕ
  pub left_trigger : ℕ
  pub right_trigger : ℕ
  pub thumb_x : ℤ
  pub thumb_y : ℤ

-- A trigger is a byte and a stick a 16-bit integer.
pub record IsPad (p : Pad) : Type 0 where
  pub left_byte : p.left_trigger < 256
  pub right_byte : p.right_trigger < 256
  pub x_short : IsShort p.thumb_x
  pub y_short : IsShort p.thumb_y

-- `b & bit`
abbrev pub is_held : Pad → ℕ → Bool
is_held p bit = not (bit_and p.buttons bit == 0)

-- The stick is pushed: more than 8000 from its centre.
abbrev pub is_pushed : ℤ → Bool
is_pushed (pos n) = ltb 8000 n
is_pushed (negsuc n) = ltb 8000 (suc n)
