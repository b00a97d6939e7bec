-- ===== src/Jvs.antt =====
-- The JVS I/O board: src/runtime/jvs.c. This file is the board's state and its constants; the
-- children are the board's parts.
pub mod Frame
pub mod Command
pub mod Receive
pub mod Line
pub mod Sequence
pub mod Input
mod Tests
use systemes3recomp.Prelude.{ℕ, Bool, false, Bytes, [], ◌∷◌}
use systemes3recomp.Fifo
use systemes3recomp.Fifo.{Fifo}
use Prim.Native.Char.{code}
use Prim.Native.String.{String}

abbrev pub sync : ℕ
sync = 0xE0

abbrev pub escape : ℕ
escape = 0xD0

abbrev pub broadcast : ℕ
broadcast = 0xFF

-- The code points of a text: its bytes, as it is ASCII.
abbrev pub codes : String → Bytes
codes String.[] = []
codes (String.◌∷◌ c s) = code c ∷ codes s

-- JVS_IDENT without the nul that ends it.
abbrev pub ident : Bytes
ident = codes "namco ltd.;I/O PCB-4072;ver1.00;JPN,Multipurpose + Rotary Encoder"

abbrev pub players : ℕ
players = 2

abbrev pub coin_slots : ℕ
coin_slots = 3

abbrev pub analog_channels : ℕ
analog_channels = 8

-- `in` and `in_len` are one list, and NULL handles and addresses are 0.
pub record Port : Type 0 where
  pub handle : ℕ
  pub out : Fifo
  pub in_bytes : Bytes
  pub address : ℕ
  pub coin : Bytes
  pub read_pending : Bool
  pub read_buf : ℕ
  pub read_len : ℕ
  pub read_ovl : ℕ
  pub read_routine : ℕ
  pub read_thread : ℕ
  pub read_deadline : ℕ
  pub to_interval : ℕ
  pub to_rd_mult : ℕ
  pub to_rd_const : ℕ

-- What the switches, a keyboard or pad, and the wheel and pedals are holding: g_sw_sys, g_sw_p1,
-- g_sw_p2, g_in_sys, g_in_p1 and g_analog.
pub record Switches : Type 0 where
  pub sw_sys : ℕ
  pub sw_p1 : ℕ
  pub sw_p2 : ℕ
  pub in_sys : ℕ
  pub in_p1 : ℕ
  pub analog : Bytes

-- The statics before anything runs.
abbrev pub initial_port : Port
initial_port = record {
  handle = 0;
  out = Fifo.empty;
  in_bytes = [];
  address = 0;
  coin = 0 ∷ 0 ∷ 0 ∷ [];
  read_pending = false;
  read_buf = 0;
  read_len = 0;
  read_ovl = 0;
  read_routine = 0;
  read_thread = 0;
  read_deadline = 0;
  to_interval = 0;
  to_rd_mult = 0;
  to_rd_const = 0;
}

abbrev pub initial_switches : Switches
initial_switches = record {
  sw_sys = 0;
  sw_p1 = 0;
  sw_p2 = 0;
  in_sys = 0;
  in_p1 = 0;
  analog = 0x8000 ∷ 0 ∷ 0 ∷ 0x8000 ∷ 0x8000 ∷ 0x8000 ∷ 0x8000 ∷ 0x8000 ∷ [];
}
