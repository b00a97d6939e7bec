-- ===== src/Card/Receive.antt =====
-- Pulling frames out of what the game has written: consume of src/runtime/card.c.
pub mod Frames
pub mod Wire
use systemes3recomp.Prelude.{
  ℕ, zero, suc, ◌+◌, ◌%◌, Bool, true, false, not, ◌&&◌, ◌||◌, ltb, leb, ◌==◌, if◌then◌else◌, Option,
  none, some, Bytes, [], ◌∷◌, length, get_or, take, drop,
}
use systemes3recomp.Fifo.{Fifo}
use systemes3recomp.Card.{Disk, Reader}
use systemes3recomp.Card.Chip.{command}

-- What one round of the loop does with the bytes from `in[i]` on: stop, skip some of them, or take a
-- frame's payload and go on behind it.
pub data Round : Type 0 where
  stop : Round
  skip : ℕ → Round
  run : Bytes → ℕ → Round

unfoldable pub round : Bytes → Round
round l =
    let len = get_or l 3 0 in
    let lcs = get_or l 4 0 in
    let need = 5 + len + 2 in
    if ltb (length l) 5
    then stop
    else if not (get_or l 0 0 == 0x00 && get_or l 1 0 == 0x00 && get_or l 2 0 == 0xFF)
    then skip 1
    else if (len == 0x00 && lcs == 0xFF) || (len == 0xFF && lcs == 0x00)
    then skip (if leb 6 (length l) then 6 else 5)
    else if not ((len + lcs) % 256 == 0)
    then skip 1
    else if ltb (length l) need
    then stop
    else run (take len (drop 5 l)) need

-- The loop, on the bytes from `in[i]` on: the state after it and the bytes that are kept. Every round
-- that does not stop takes a byte at least, so as many rounds as bytes are enough.
unfoldable pub consume_from : Bool → ℕ → Disk → ℕ → Bytes → Reader × Fifo → Bytes × (Reader × Fifo)
consume_from always now opens zero l st = (l, st)
consume_from always now opens (suc fuel) l st = elim (round l) [
  | stop ↦ (l, st)
  | skip k ↦ consume_from always now opens fuel (drop k l) st
  | run p k ↦ consume_from always now opens fuel (drop k l) (command always now opens p st)
]

unfoldable pub consume : Bool → ℕ → Disk → Bytes → Reader × Fifo → Bytes × (Reader × Fifo)
consume always now opens l = consume_from always now opens (length l) l
