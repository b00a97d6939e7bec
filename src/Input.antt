-- ===== src/Input.antt =====
-- The controls of a game whose board is not JVS: es3_input_poll of src/input/es3_input.c, with
-- es3_input_t of src/input/es3_input.h.
pub mod Coins
mod Tests
use systemes3recomp.Prelude.{
  ℕ, suc, ◌+◌, ◌%◌, ◌^◌, Bool, true, false, not, ◌&&◌, ◌||◌, ltb, ◌==◌, if◌then◌else◌, Option, none,
  some,
}
use systemes3recomp.Controls.{ℤ, pos, negsuc, Keys, Pad, is_held, is_pushed}

-- es3_input_t
pub record Sample : Type 0 where
  pub x : ℤ
  pub y : ℤ
  pub throttle : ℕ
  pub brake : ℕ
  pub start : Bool
  pub fire : Bool
  pub fire2 : Bool
  pub up : Bool
  pub down : Bool
  pub left : Bool
  pub right : Bool
  pub service : Bool
  pub test : Bool
  pub any : Bool
  pub coin : Bool

-- memset
abbrev pub no_sample : Sample
no_sample = record {
  x = pos 0;
  y = pos 0;
  throttle = 0;
  brake = 0;
  start = false;
  fire = false;
  fire2 = false;
  up = false;
  down = false;
  left = false;
  right = false;
  service = false;
  test = false;
  any = false;
  coin = false;
}

-- The keyboard. While the poll runs, `coin` is the local of that name.
unfoldable pub read_keys : Keys → Sample → Sample
read_keys k o = record o {
  start = k.enter || o.start;
  fire = (k.left_control || k.space) || o.fire;
  fire2 = k.z || o.fire2;
  up = k.up || o.up;
  down = k.down || o.down;
  left = k.left || o.left;
  right = k.right || o.right;
  y = if k.down then negsuc 31999 else if k.up then pos 32000 else o.y;
  x = if k.right then pos 32000 else if k.left then negsuc 31999 else o.x;
  throttle = if k.up then 255 else o.throttle;
  brake = if k.down then 255 else o.brake;
  service = k.s || o.service;
  test = k.t || o.test;
  coin = k.five || o.coin;
}

-- The pad, on top of the keyboard.
unfoldable pub read_pad : Pad → Sample → Sample
read_pad p o = record o {
  start = is_held p 0x0010 || o.start;
  service = is_held p 0x0020 || o.service;
  fire = is_held p 0x1000 || o.fire;
  fire2 = is_held p 0x2000 || o.fire2;
  up = is_held p 0x0001 || o.up;
  down = is_held p 0x0002 || o.down;
  left = is_held p 0x0004 || o.left;
  right = is_held p 0x0008 || o.right;
  coin = is_held p 0x0080 || (is_held p 0x0040 || o.coin);
  throttle = if ltb 30 p.right_trigger then p.right_trigger else o.throttle;
  brake = if ltb 30 p.left_trigger then p.left_trigger else o.brake;
  x = if is_pushed p.thumb_x then p.thumb_x else o.x;
  y = if is_pushed p.thumb_y then p.thumb_y else o.y;
}

-- What Windows says in one poll: ours_in_front(), the keys, and the pad if there is one.
pub record Seen : Type 0 where
  pub front : Bool
  pub keys : Keys
  pub pad : Option Pad

unfoldable pub read_controls : Seen → Sample
read_controls a =
    let o = if a.front then read_keys a.keys no_sample else no_sample in
    elim a.pad [ none ↦ o | some p ↦ read_pad p o ]

-- The statics coin_latch and had_coin.
pub record Latch : Type 0 where
  pub latched : ℕ
  pub had_coin : Bool

-- es3_input_poll: `off` is input_off().
unfoldable pub input_poll : Bool → Seen → Latch → Sample × Latch
input_poll off a l =
    if off
    then (no_sample, l)
    else (let o = read_controls a in
        let n = if o.coin && not l.had_coin then (l.latched + 1) % 2 ^ 32 else l.latched in
        (
          record o {
            any = o.start || o.fire || o.fire2 || o.up || o.down || o.left || o.right;
            coin = not (n == 0);
          },
          record { latched = 0; had_coin = o.coin },
        ))
