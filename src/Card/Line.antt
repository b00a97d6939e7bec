-- ===== src/Card/Line.antt =====
-- The reader's serial line: finish_read and the functions es3_card_* that the file calls of the game
-- reach (src/runtime/card.c). Arguments and effects are those of Jvs/Line.antt.
pub mod Invariant
pub mod Reached
pub mod Reads
pub mod Exchange
use systemes3recomp.Prelude.{
  ℕ, ◌+◌, ◌-◌, ◌*◌, ◌%◌, ◌^◌, Bool, true, false, not, ◌&&◌, ◌||◌, ◌==◌, ltb, leb, if◌then◌else◌,
  Option, none, some, Bytes, List, [], ◌∷◌, ◌++◌, length, take,
}
use systemes3recomp.Fifo
use systemes3recomp.Fifo.{fifo_size}
use systemes3recomp.ComName.{Wanted, claims}
use systemes3recomp.Jvs.Line.{Effect, fill, put_word, queue_apc}
use systemes3recomp.Card.{Disk, Port, Reader}
use systemes3recomp.Card.Image.{load}
use systemes3recomp.Card.Receive.{consume}

-- What a read that has come back does to the game's memory, and the routine that it queues.
unfoldable pub completion : Bool → Port → Bytes → List Effect
completion memory p got =
    (fill p.read_buf got ∷ [])
    ++ ((if p.read_ovl == 0
          then []
          else put_word (p.read_ovl + 0) 0 ∷ put_word (p.read_ovl + 4) (length got) ∷ [])
        ++ (if p.read_routine == 0 || p.read_thread == 0 || not memory
            then []
            else queue_apc p.read_thread p.read_routine 0 (length got) p.read_ovl ∷ []))

-- finish_read: a read that ran out of time asks for the bytes that there are.
unfoldable pub finish_read : Bool → ℕ → Port → Port × List Effect
finish_read memory now p =
    if not p.read_pending
    then (p, [])
    else if ltb (Fifo.avail_wrapped p.out) p.read_len
        && (p.read_deadline == 0 || ltb now p.read_deadline)
    then (p, [])
    else (let want =
          if ltb (Fifo.avail_wrapped p.out) p.read_len
          then Fifo.avail_wrapped p.out
          else p.read_len in
        let (got, out) = Fifo.take_out p.out want in
        (record p { out = out; read_pending = false }, completion memory p got))

-- es3_card_is_port
unfoldable pub is_port : Bool → ℕ → Port → Bool
is_port ready h p = ready && not (h == 0) && h == p.handle

-- es3_card_open: what it returns, and g_ready, the port and the reader afterwards. `off` is
-- card_off(); the next three are the arguments of card_load. It also starts the thread that calls
-- finish_read every two milliseconds, and es3_passport_start.
unfoldable pub open_port :
    Bool
    → Wanted
    → Option Bytes
    → Option Bytes
    → Disk
    → ℕ
    → Option Bytes
    → Bool × Port × Reader
    → ℕ × (Bool × Port × Reader)
open_port off want hex found opens handle none st = (0, st)
open_port off want hex found opens handle (some name) (ready, p, r) =
    if off || not (claims 4 want name)
    then (0, (ready, p, r))
    else if ready
    then (p.handle, (ready, p, r))
    else (handle, (true, record p { handle = handle }, load hex found opens r))

-- The memcpy of es3_card_write: what does not fit is dropped.
unfoldable pub append_input : Bytes → Bytes → Bytes
append_input old bs =
    let room = fifo_size - length old in
    old ++ take (if ltb room (length bs) then room else length bs) bs

-- es3_card_write of the bytes `bs`.
unfoldable pub write :
    Bool → Disk → Bool → ℕ → Bytes → Port × Reader → (Port × Reader) × List Effect
write always opens memory now bs (p, r) =
    let (kept, st) = consume always now opens (append_input p.in_bytes bs) (r, p.out) in
    let (q, effects) = finish_read memory now (record p { in_bytes = kept; out = st.1 }) in
    ((q, st.0), effects)

-- es3_card_read
unfoldable pub read : ℕ → Port → Bytes × Port
read n p = let (got, out) = Fifo.take_out p.out n in (got, record p { out = out })

-- es3_card_post_read: `thread` is the handle that DuplicateHandle gives, 0 if it fails.
unfoldable pub post_read : Bool → ℕ → ℕ → ℕ → ℕ → ℕ → ℕ → Port → Port × List Effect
post_read memory now thread buf n ovl routine p = finish_read memory now (record p {
  read_thread = thread;
  read_pending = true;
  read_buf = buf;
  read_len = n;
  read_ovl = ovl;
  read_routine = routine;
  read_deadline = (now + 100) % 2 ^ 64;
})

-- es3_card_complete_write
unfoldable pub complete_write : Bool → ℕ → ℕ → ℕ → ℕ → List Effect
complete_write memory thread ovl bytes routine =
    if routine == 0 || not memory || thread == 0
    then []
    else queue_apc thread routine 0 bytes ovl ∷ []

-- es3_card_cancel
unfoldable pub cancel : Port → Port
cancel p = record p { read_pending = false }
