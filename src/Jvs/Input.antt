-- ===== src/Jvs/Input.antt =====
-- A keyboard and a pad wired to the cabinet's switches: input_poll, es3_coin_take and the loop of
-- jvs_ticker (src/runtime/jvs.c). The pedals as fractions, g_pedal_gas and g_pedal_brake, are their
-- numerators over 255.
pub mod Coins
pub mod Bounds
mod Tests
use Prim.Native.Nat.{bit_or}
use systemes3recomp.Prelude.{
  ℕ, suc, ◌+◌, ◌-◌, ◌*◌, ◌/◌, ◌%◌, ◌^◌, Bool, true, false, not, ◌&&◌, ◌||◌, ltb, ◌==◌,
  if◌then◌else◌, Option, none, some, set, List, Bytes,
}
use systemes3recomp.Controls.{ℤ, pos, negsuc, Keys, Pad, is_held, is_pushed}
use systemes3recomp.Jvs.{Port, Switches}
use systemes3recomp.Jvs.Line.{Effect, finish_read, insert_coin}
use systemes3recomp.Jvs.Sequence.{Entry, seq_tick}

-- The locals of input_poll, and whether es3_card_tap is called.
pub record Levels : Type 0 where
  pub p1 : ℕ
  pub sys : ℕ
  pub steer : ℤ
  pub gas : ℕ
  pub brake : ℕ
  pub coin : Bool
  pub tapped : Bool

abbrev pub at_rest : Levels
at_rest = record {
  p1 = 0;
  sys = 0;
  steer = pos 0;
  gas = 0;
  brake = 0;
  coin = false;
  tapped = false;
}

-- `if (down) v |= bit;`
abbrev pub or_if : Bool → ℕ → ℕ → ℕ
or_if down bit v = if down then bit_or v bit else v

-- The keyboard, while a window of this process is in front.
unfoldable pub from_keys : Keys → Levels → Levels
from_keys k l = record l {
  p1 = or_if k.s 0x4000 (
      or_if k.right 0x0400 (
        or_if k.left 0x0800 (
          or_if k.down 0x1000 (
            or_if k.up 0x2000 (
              or_if k.z 0x0100
                (or_if (k.left_control || k.space) 0x0200 (or_if k.enter 0x8000 l.p1)))))));
  sys = or_if k.t 0x80 l.sys;
  steer = if k.right then pos 32000 else if k.left then negsuc 31999 else l.steer;
  gas = if k.up then 255 else l.gas;
  brake = if k.down then 255 else l.brake;
  coin = k.five || l.coin;
  tapped = k.c || l.tapped;
}

-- The pad, on top of the keyboard.
unfoldable pub from_pad : Pad → Levels → Levels
from_pad p l = record l {
  p1 = or_if (is_held p 0x0008) 0x0400 (
      or_if (is_held p 0x0004) 0x0800 (
        or_if (is_held p 0x0002) 0x1000 (
          or_if (is_held p 0x0001) 0x2000 (
            or_if (is_held p 0x2000) 0x0100 (
              or_if (is_held p 0x1000) 0x0200
                (or_if (is_held p 0x0020) 0x4000 (or_if (is_held p 0x0010) 0x8000 l.p1)))))));
  sys = or_if (is_held p 0x0200) 0x80 l.sys;
  steer = if is_pushed p.thumb_x then p.thumb_x else l.steer;
  gas = if ltb 30 p.right_trigger then p.right_trigger else l.gas;
  brake = if ltb 30 p.left_trigger then p.left_trigger else l.brake;
  coin = is_held p 0x0080 || (is_held p 0x0040 || l.coin);
  tapped = is_held p 0x8000 || l.tapped;
}

-- What is asked of Windows in one poll: ours_in_front(), the keys, and the pad if there is one.
pub record Asked : Type 0 where
  pub front : Bool
  pub keys : Keys
  pub pad : Option Pad

unfoldable pub levels : Asked → Levels
levels a =
    let l = if a.front then from_keys a.keys at_rest else at_rest in
    elim a.pad [ none ↦ l | some p ↦ from_pad p l ]

-- `(uint32_t)(0x8000 + steer / 2)`, where the division cuts towards 0.
abbrev pub wheel : ℤ → ℕ
wheel (pos n) = 0x8000 + n / 2
wheel (negsuc n) = (0x8000 + 2 ^ 32 - suc n / 2) % 2 ^ 32

-- A pedal's channel, clamped to 16 bits.
unfoldable pub pedal : ℕ → ℕ
pedal v = let a = v * 257 / 2 + (if v == 0 then 0 else 0x8000) in if ltb 0xFFFF a then 0xFFFF else a

-- What input_poll changes: the switches, the pedals, the port's coins, g_coins_pending and had_coin.
pub record Inputs : Type 0 where
  pub switches : Switches
  pub pedal_gas : ℕ
  pub pedal_brake : ℕ
  pub port : Port
  pub pending : ℕ
  pub had_coin : Bool

-- input_poll: `off` is input_off(). The Bool says whether the card is tapped.
unfoldable pub input_poll : Bool → Asked → Inputs → Inputs × Bool
input_poll off a i =
    if off
    then (i, false)
    else (let l = levels a in
        let g =
          set (set (set i.switches.analog 0 (wheel l.steer)) 1 (pedal l.gas)) 2 (pedal l.brake) in
        let edge = l.coin && not i.had_coin in
        (
          record i {
            switches = record (i.switches) { in_p1 = l.p1; in_sys = l.sys; analog = g };
            pedal_gas = l.gas;
            pedal_brake = l.brake;
            port = if edge then insert_coin i.port else i.port;
            pending = if edge then (i.pending + 1) % 2 ^ 32 else i.pending;
            had_coin = l.coin;
          },
          l.tapped,
        ))

-- es3_coin_take: how many coins are pending, and none afterwards.
unfoldable pub coin_take : Inputs → ℕ × Inputs
coin_take i = (i.pending, record i { pending = 0 })

-- One round of jvs_ticker, `elapsed` ms after the start of the sequence, and the number of pictures
-- that the sequence asks for.
unfoldable pub tick :
    Bool
    → Bool
    → ℕ
    → ℕ
    → Asked
    → List Entry × Inputs
    → (List Entry × Inputs) × (ℕ × Bool × List Effect)
tick off memory now elapsed a (todo, i) =
    let (rest, s, shots) = seq_tick elapsed todo i.switches in
    let (j, tapped) = input_poll off a (record i { switches = s }) in
    let (p, effects) = finish_read memory now j.port in
    ((rest, record j { port = p }), (shots, tapped, effects))
