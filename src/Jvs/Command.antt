-- ===== src/Jvs/Command.antt =====
-- Answering one packet: handle_packet of src/runtime/jvs.c.
--
-- `data` is the memory from the packet's first data byte on, of which `n` bytes belong to the
-- packet; a command that is cut short reads on behind them. `body` is what has been written of the
-- 256 bytes of the same name. A write past them, and a shift of a 32-bit value by 32 or more, are
-- undefined in C: they are the outcome `undefined`.
pub mod Request
pub mod Refine
pub mod Told
pub mod Answers
pub mod Overflow
pub mod Fuel
use systemes3recomp.Prelude.{
  ℕ, zero, suc, ◌+◌, ◌-◌, ◌*◌, ◌/◌, ◌%◌, ◌^◌, bit_or, true, false, ◌&&◌, ◌||◌, not, ◌==◌, ltb, leb,
  if◌then◌else◌, Bytes, [], ◌∷◌, ◌++◌, length, get_or, set, Bool,
}
use systemes3recomp.Jvs.{Port, Switches, broadcast, ident, players, coin_slots, analog_channels}
use systemes3recomp.Jvs.Frame.{reply}

abbrev pub body_size : ℕ
body_size = 256

-- After one command: on with the next, silence, or undefined behaviour.
pub data Step : Type 0 where
  more : ℕ → Bytes → Port → Step
  silent : Port → Step
  undefined : Step

-- After a packet.
pub data Outcome : Type 0 where
  answered : Bytes → Port → Outcome
  unanswered : Port → Outcome
  undefined : Outcome

-- Write `xs` behind `body`, and go on at `i`.
unfoldable pub write_body : ℕ → Bytes → Bytes → Port → Step
write_body i body xs p =
    if leb (length body + length xs) body_size then more i (body ++ xs) p else Step.undefined

-- (unsigned char)(w >> (8 * (bytes - 1 - b))) for b from `bytes - k` on: k bytes, high ones first.
unfoldable pub word_bytes : ℕ → ℕ → Bytes
word_bytes w zero = []
word_bytes w (suc k) = (w / 2 ^ (8 * k) % 256) ∷ word_bytes w k

-- The switch word of player `p`.
unfoldable pub player_word : Switches → ℕ → ℕ
player_word s p = if p == 0 then bit_or s.sw_p1 s.in_p1 else if p == 1 then s.sw_p2 else 0

-- The words of `k` players from player `p` on, `bytes` bytes each.
unfoldable pub switch_bytes : Switches → ℕ → ℕ → ℕ → Bytes
switch_bytes s bytes zero p = []
switch_bytes s bytes (suc k) p =
    word_bytes (player_word s p) bytes ++ switch_bytes s bytes k (p + 1)

-- `k` coin counters from slot `s` on, fourteen bits each; a slot that is not there reads 0.
unfoldable pub coin_bytes : Port → ℕ → ℕ → Bytes
coin_bytes p zero s = []
coin_bytes p (suc k) s =
    let c = if ltb s coin_slots then get_or p.coin s 0 else 0 in
    (c / 256 % 64) ∷ (c % 256) ∷ coin_bytes p k (s + 1)

-- `k` analog channels from channel `c` on; mid-scale for one that nothing drives.
unfoldable pub analog_bytes : Switches → ℕ → ℕ → Bytes
analog_bytes s zero c = []
analog_bytes s (suc k) c =
    let v = if ltb c 8 then get_or s.analog c 0 else 0x8000 in
    (v / 256 % 256) ∷ (v % 256) ∷ analog_bytes s k (c + 1)

-- `k` rotary encoders, all at 0.
unfoldable pub rotary_bytes : ℕ → Bytes
rotary_bytes zero = []
rotary_bytes (suc k) = 0x00 ∷ 0x00 ∷ rotary_bytes k

-- The reply to FEATCHK.
abbrev pub features : Bytes
features =
    0x01 ∷ 0x01 ∷ players ∷ 13 ∷ 0x00 ∷ 0x02 ∷ coin_slots ∷ 0x00 ∷ 0x00 ∷ 0x03 ∷ analog_channels
    ∷ 16 ∷ 0x00 ∷ 0x12 ∷ 8 ∷ 0x00 ∷ 0x00 ∷ 0x00 ∷ []

-- Coin decrease: slots count from 1, and a counter stops at 0.
unfoldable pub take_coins : ℕ → ℕ → Port → Port
take_coins slot amount p =
    if leb 1 slot && leb slot coin_slots
    then (let c = get_or p.coin (slot - 1) 0 in
        record p { coin = set p.coin (slot - 1) (if ltb amount c then c - amount else 0) })
    else p

-- A report that carries no data.
abbrev pub done : Bytes
done = 0x01 ∷ []

-- The switch on one command: `i` is behind the command byte.
unfoldable pub command : Switches → (ℕ → ℕ) → ℕ → ℕ → ℕ → Bytes → Port → Step
command s data_at n cmd i body p =
    if cmd == 0xF0
    then silent (record p { address = 0 })
    else if cmd == 0xF1
    then write_body (i + 1) body done (record p { address = data_at i })
    else if cmd == 0x10
    then write_body i body (0x01 ∷ (ident ++ (0x00 ∷ []))) p
    else if cmd == 0x11
    then write_body i body (0x01 ∷ 0x13 ∷ []) p
    else if cmd == 0x12
    then write_body i body (0x01 ∷ 0x30 ∷ []) p
    else if cmd == 0x13
    then write_body i body (0x01 ∷ 0x10 ∷ []) p
    else if cmd == 0x14
    then write_body i body features p
    else if cmd == 0x20
    then (let k = data_at i in
        let bytes = data_at (i + 1) in
        if ltb 0 k && ltb 4 bytes
        then Step.undefined
        else write_body (i + 2) body
            (0x01 ∷ (bit_or s.sw_sys s.in_sys % 256) ∷ switch_bytes s bytes k 0) p)
    else if cmd == 0x21
    then write_body (i + 1) body (0x01 ∷ coin_bytes p (data_at i) 0) p
    else if cmd == 0x22
    then write_body (i + 1) body (0x01 ∷ analog_bytes s (data_at i) 0) p
    else if cmd == 0x25 || cmd == 0x26
    then write_body (i + 1) body (0x01 ∷ rotary_bytes (data_at i)) p
    else if cmd == 0x30
    then write_body (i + 3) body done
        (take_coins (data_at i) (data_at (i + 1) * 256 + data_at (i + 2)) p)
    else if cmd == 0x32
    then write_body (i + 1 + data_at i) body done p
    else if cmd == 0x31
    then write_body (i + 3) body done p
    else if cmd == 0x33
    then write_body (i + 2) body done p
    else if cmd == 0x34
    then write_body (i + 1) body done p
    else if cmd == 0xF2
    then write_body (i + 1) body done p
    else if cmd == 0xF3
    then write_body (i + 2) body done p
    else more n (0x02 ∷ []) p

-- `while (i < n)` with the test behind the switch. Every round takes at least the command byte, so
-- `n` rounds are enough; what is left when the fuel is gone is answered as it stands.
unfoldable pub commands : Switches → (ℕ → ℕ) → ℕ → ℕ → ℕ → Bytes → Port → Outcome
commands s data_at n zero i body p = answered body p
commands s data_at n (suc fuel) i body p = elim (ltb i n) [
  | false ↦ answered body p
  | true ↦ elim (command s data_at n (data_at i) (i + 1) body p) [
    | silent p' ↦ unanswered p'
    | undefined ↦ Outcome.undefined
    | more i' body' p' ↦ elim (ltb (body_size - 80) (length body')) [
      | true ↦ answered body' p'
      | false ↦ commands s data_at n fuel i' body' p'
    ]
  ]
]

-- handle_packet up to the reply.
unfoldable pub answer : Switches → ℕ → (ℕ → ℕ) → ℕ → Port → Outcome
answer s dest data_at n p =
    if not (dest == broadcast) && not (dest == p.address)
    then unanswered p
    else commands s data_at n n 0 (0x01 ∷ []) p

-- handle_packet.
unfoldable pub handle_packet : Switches → ℕ → (ℕ → ℕ) → ℕ → Port → Outcome
handle_packet s dest data_at n p = elim (answer s dest data_at n p) [
  | answered body p' ↦ answered body (reply body p')
  | unanswered p' ↦ unanswered p'
  | undefined ↦ Outcome.undefined
]
