-- ===== src/Jvs/Line.antt =====
-- The serial line as the game sees it: read_deadline_for, finish_read and the functions es3_jvs_*
-- that the file calls of the game reach (src/runtime/jvs.c). Each call runs under the port's lock,
-- so one function here is one critical section.
--
-- What the code takes from Windows is an argument: `now` is GetTickCount64, `memory` whether malloc
-- gives a block, `thread` the handle that DuplicateHandle gives, 0 if it fails, and `handle` what
-- CreateEventW gives. What it does outside the port is a list of effects.
pub mod Kept
pub mod Invariant
pub mod Reads
pub mod Exchange
use systemes3recomp.Prelude.{
  ℕ, ◌+◌, ◌-◌, ◌*◌, ◌%◌, ◌^◌, min, Bool, true, false, not, ◌&&◌, ◌||◌, ◌==◌, ltb, leb,
  if◌then◌else◌, Option, none, some, Bytes, List, [], ◌∷◌, ◌++◌, length, take, set, get_or,
}
use systemes3recomp.Fifo
use systemes3recomp.Fifo.{fifo_size}
use systemes3recomp.ComName.{Wanted, claims}
use systemes3recomp.Jvs.{Port, Switches}
use systemes3recomp.Jvs.Receive.{Consumed, consumed, faulted, starved, consume_input}

-- Bytes put into the game's memory, a word put there by wr32, and a completion routine queued on a
-- thread with its error, byte count and OVERLAPPED.
pub data Effect : Type 0 where
  fill : ℕ → Bytes → Effect
  put_word : ℕ → ℕ → Effect
  queue_apc : ℕ → ℕ → ℕ → ℕ → ℕ → Effect

abbrev pub max_dword : ℕ
max_dword = 0xFFFFFFFF

unfoldable pub read_deadline_for : ℕ → Port → ℕ → ℕ
read_deadline_for now p len =
    if p.to_interval == max_dword && p.to_rd_mult == 0 && p.to_rd_const == 0
    then 1
    else (let total = (p.to_rd_mult * len + p.to_rd_const) % 2 ^ 32 in
        (now + (if total == 0 then 250 else total)) % 2 ^ 64)

unfoldable pub is_expired : ℕ → Port → Bool
is_expired now p = not (p.read_deadline == 0) && leb p.read_deadline now

-- What a read that has come back does to the game's memory, and the routine that it queues.
unfoldable pub completion : Bool → Port → Bytes → List Effect
completion memory p got =
    (fill p.read_buf got ∷ [])
    ++ ((if p.read_ovl == 0
          then []
          else put_word (p.read_ovl + 0) 0 ∷ put_word (p.read_ovl + 4) (length got) ∷ [])
        ++ (if p.read_routine == 0 || not memory
            then []
            else queue_apc p.read_thread p.read_routine 0 (length got) p.read_ovl ∷ []))

unfoldable pub finish_read : Bool → ℕ → Port → Port × List Effect
finish_read memory now p =
    if not p.read_pending
    then (p, [])
    else if ltb (Fifo.avail p.out) p.read_len && not (is_expired now p)
    then (p, [])
    else (let (got, out) = Fifo.take_out p.out p.read_len in
        (record p { out = out; read_pending = false }, completion memory p got))

-- es3_jvs_set_timeouts; `word` is rd32.
unfoldable pub set_timeouts : (ℕ → ℕ) → ℕ → Port → Port
set_timeouts word a p = if a == 0 then p else record p {
  to_interval = word (a + 0);
  to_rd_mult = word (a + 4);
  to_rd_const = word (a + 8);
}

-- es3_jvs_is_port; `ready` is g_ready.
unfoldable pub is_port : Bool → ℕ → Port → Bool
is_port ready h p = ready && not (h == 0) && h == p.handle

-- es3_jvs_open: what it returns, and g_ready and the port afterwards. `off` is jvs_off(), `none` a
-- NULL name. The thread that it starts is `tick` of Jvs/Input.antt, run again and again.
unfoldable pub open_port : Bool → Wanted → ℕ → Option Bytes → Bool → Port → ℕ × Bool × Port
open_port off want handle none ready p = (0, ready, p)
open_port off want handle (some name) ready p =
    if off || not (claims 1 want name)
    then (0, ready, p)
    else if ready
    then (p.handle, ready, p)
    else (handle, true, record p { handle = handle })

-- The memcpy of es3_jvs_write: what does not fit is dropped.
unfoldable pub append_input : Bytes → Port → Port
append_input bs p =
    let room = fifo_size - length p.in_bytes in
    record p { in_bytes = p.in_bytes ++ take (if ltb room (length bs) then room else length bs) bs }

-- es3_jvs_write of the bytes `bs`; `none` is undefined behaviour.
unfoldable pub write : (ℕ → ℕ) → Switches → Bool → ℕ → Bytes → Port → Option (Port × List Effect)
write stale s memory now bs p = elim (consume_input stale s (append_input bs p)) [
  | consumed q ↦ some (finish_read memory now q)
  | faulted ↦ none
  | starved ↦ none
]

-- es3_jvs_read
unfoldable pub read : ℕ → Port → Bytes × Port
read n p = let (got, out) = Fifo.take_out p.out n in (got, record p { out = out })

-- es3_jvs_post_read
unfoldable pub post_read : Bool → ℕ → ℕ → ℕ → ℕ → ℕ → ℕ → Port → Port × List Effect
post_read memory now thread buf n ovl routine p = finish_read memory now (record p {
  read_thread = thread;
  read_pending = true;
  read_deadline = read_deadline_for now p n;
  read_buf = buf;
  read_len = n;
  read_ovl = ovl;
  read_routine = routine;
})

-- es3_jvs_complete_write
unfoldable pub complete_write : Bool → ℕ → ℕ → ℕ → ℕ → List Effect
complete_write memory thread ovl bytes routine =
    if routine == 0 || not memory || thread == 0
    then []
    else queue_apc thread routine 0 bytes ovl ∷ []

-- es3_jvs_cancel
unfoldable pub cancel : Port → Port
cancel p = record p { read_pending = false }

-- A coin in slot 1, as input_poll counts it.
unfoldable pub insert_coin : Port → Port
insert_coin p = record p { coin = set p.coin 0 ((get_or p.coin 0 0 + 1) % 2 ^ 32) }
