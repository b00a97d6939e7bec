-- ===== src/Ports.antt =====
-- The file calls of the game and the two boards behind them: hle_create_file to hle_close_handle in
-- src/runtime/hle_callback.c. Each of them looks whether the handle is one of the boards' and passes the
-- call on to src/runtime/jvs.c, to src/runtime/card.c, to the silent port of ES3_DRIVE_STUB, or to
-- Windows.

pub mod Owners
pub mod Opened
pub mod Tests
use systemes3recomp.Prelude.{
  ℕ, zero, suc, ◌+◌, ◌-◌, ◌*◌, ◌≤◌, ◌<◌, Bool, true, false, not, ◌&&◌, ◌||◌, Option, none, some,
  List, [], ◌∷◌, ◌++◌, length, replicate, Bytes, leb, ltb, ◌==◌, if◌then◌else◌,
}
use systemes3recomp.Jvs
use systemes3recomp.Jvs.{Switches}
use systemes3recomp.Jvs.Line.{Effect, fill, put_word}
use systemes3recomp.Card
use systemes3recomp.Card.{Disk, Reader}
use systemes3recomp.ComName.{Wanted, skip_device, is_com, com_number}

-- What the calls work on: g_ready and the port of each board, the card's reader, and g_drive_stub, 0
-- while it is not open.
pub record Desk : Type 0 where
  pub jvs_ready : Bool
  pub jvs : Jvs.Port
  pub card_ready : Bool
  pub card : Card.Port
  pub reader : Reader
  pub stub : ℕ

-- What the boards are given with a call: the stack that is read before it is written, the switches,
-- malloc, the clock, the thread's handle, ES3_CARD_ALWAYS, what becomes of the card's file, and rd32.
pub record World : Type 0 where
  pub stale : ℕ → ℕ
  pub switches : Switches
  pub memory : Bool
  pub now : ℕ
  pub thread : ℕ
  pub always : Bool
  pub opens : Disk
  pub rd32 : ℕ → ℕ

-- What becomes of a call: Windows has it, with what was opened before, it is answered with a value, or it is undefined behaviour.
pub data Served : Type 0 where
  forwarded : Desk → Served
  answered : ℕ → Desk → List Effect → Served
  undefined : Served

abbrev pub is_jvs : Desk → ℕ → Bool
is_jvs d h = Jvs.Line.is_port d.jvs_ready h d.jvs

abbrev pub is_card : Desk → ℕ → Bool
is_card d h = Card.Line.is_port d.card_ready h d.card

-- is_drive_stub
abbrev pub is_stub : Desk → ℕ → Bool
is_stub d h = not (d.stub == 0) && not (h == 0) && h == d.stub

abbrev pub put_if : ℕ → ℕ → List Effect
put_if at v = if at == 0 then [] else put_word at v ∷ []

-- A write to the JVS board, with what the call does afterwards.
unfoldable pub jvs_write : World → Desk → Bytes → List Effect → Served
unfolding Jvs.Line.write
jvs_write w d bs more = elim (Jvs.Line.write w.stale w.switches w.memory w.now bs d.jvs) [
  | none ↦ undefined
  | some (p, effects) ↦ answered 1 (record d { jvs = p }) (effects ++ more)
]

unfoldable pub card_write : World → Desk → Bytes → List Effect → Served
unfolding Card.Line.write
card_write w d bs more =
    let ((p, r), effects) = Card.Line.write w.always w.opens w.memory w.now bs (d.card, d.reader) in
    answered 1 (record d { card = p; reader = r }) (effects ++ more)

-- hle_write_file: the bytes, and where their number goes.
unfoldable pub write_file : World → Desk → ℕ → Bytes → ℕ → Served
unfolding jvs_write card_write
write_file w d h bs written =
    if is_jvs d h
    then jvs_write w d bs (put_if written (length bs))
    else if is_stub d h
    then answered 1 d (put_if written (length bs))
    else if is_card d h
    then card_write w d bs (put_if written (length bs))
    else forwarded d

abbrev pub overlapped : ℕ → ℕ → List Effect
overlapped ovl n = if ovl == 0 then [] else put_word ovl 0 ∷ put_word (ovl + 4) n ∷ []

-- hle_write_file_ex
unfoldable pub write_file_ex : World → Desk → ℕ → Bytes → ℕ → ℕ → Served
unfolding jvs_write card_write Jvs.Line.complete_write Card.Line.complete_write
write_file_ex w d h bs ovl routine =
    if is_jvs d h
    then jvs_write w d bs (
        overlapped ovl (length bs)
        ++ Jvs.Line.complete_write w.memory w.thread ovl (length bs) routine)
    else if is_card d h
    then card_write w d bs (
        overlapped ovl (length bs)
        ++ Card.Line.complete_write w.memory w.thread ovl (length bs) routine)
    else forwarded d

-- hle_read_file
unfoldable pub read_file : Desk → ℕ → ℕ → ℕ → ℕ → Served
unfolding Jvs.Line.read Card.Line.read
read_file d h buf n read_at =
    if is_jvs d h
    then (let (got, p) = Jvs.Line.read n d.jvs in
        answered 1 (record d { jvs = p }) (fill buf got ∷ put_if read_at (length got)))
    else if is_stub d h
    then answered 1 d (put_if read_at 0)
    else if is_card d h
    then (let (got, p) = Card.Line.read n d.card in
        answered 1 (record d { card = p }) (fill buf got ∷ put_if read_at (length got)))
    else forwarded d

-- hle_read_file_ex
unfoldable pub read_file_ex : World → Desk → ℕ → ℕ → ℕ → ℕ → ℕ → Served
unfolding Jvs.Line.post_read Card.Line.post_read
read_file_ex w d h buf n ovl routine =
    if is_card d h
    then (let (p, effects) = Card.Line.post_read w.memory w.now w.thread buf n ovl routine d.card in
        answered 1 (record d { card = p }) effects)
    else if is_jvs d h
    then (let (p, effects) = Jvs.Line.post_read w.memory w.now w.thread buf n ovl routine d.jvs in
        answered 1 (record d { jvs = p }) effects)
    else forwarded d

-- hle_cancel_io_ex
unfoldable pub cancel_io : Desk → ℕ → Served
unfolding Jvs.Line.cancel Card.Line.cancel
cancel_io d h =
    if is_card d h
    then answered 1 (record d { card = Card.Line.cancel d.card }) []
    else if is_jvs d h
    then answered 1 (record d { jvs = Jvs.Line.cancel d.jvs }) []
    else forwarded d

abbrev pub is_ours : Desk → ℕ → Bool
is_ours d h = is_jvs d h || is_card d h || is_stub d h

-- comm_ok, and hle_close_handle, which closes nothing.
unfoldable pub comm_ok : Desk → ℕ → Served
comm_ok d h = if is_ours d h then answered 1 d [] else forwarded d

-- hle_set_comm_timeouts
unfoldable pub set_comm_timeouts : World → Desk → ℕ → ℕ → Served
unfolding comm_ok Jvs.Line.set_timeouts
set_comm_timeouts w d h at =
    comm_ok (if is_jvs d h then record d { jvs = Jvs.Line.set_timeouts w.rd32 at d.jvs } else d) h

-- hle_get_comm_state: a DCB of 28 bytes that holds nothing but its size.
unfoldable pub get_comm_state : Desk → ℕ → ℕ → Served
get_comm_state d h dcb =
    if is_ours d h
    then answered 1 d (if dcb == 0 then [] else fill dcb (replicate 28 0) ∷ put_word dcb 28 ∷ [])
    else forwarded d

-- hle_get_comm_timeouts
unfoldable pub get_comm_timeouts : Desk → ℕ → ℕ → Served
get_comm_timeouts d h at =
    if is_ours d h
    then answered 1 d (if at == 0 then [] else fill at (replicate 20 0) ∷ [])
    else forwarded d

-- hle_get_comm_modem_status: DSR is on.
unfoldable pub get_comm_modem_status : Desk → ℕ → ℕ → Served
get_comm_modem_status d h at = if is_ours d h then answered 1 d (put_if at 0x20) else forwarded d

-- What hle_create_file is given: ES3_NO_COM, and for each board whether it is off, the port that is
-- wanted and the handle of its event; the card's identity and file; and ES3_DRIVE_STUB.
pub record Opening : Type 0 where
  pub no_com : Bool
  pub jvs_off : Bool
  pub jvs_wanted : Wanted
  pub jvs_handle : ℕ
  pub card_off : Bool
  pub card_wanted : Wanted
  pub card_hex : Option Bytes
  pub card_file : Option Bytes
  pub card_opens : Disk
  pub card_handle : ℕ
  pub stub_wanted : Option ℕ
  pub stub_handle : ℕ

-- drive_stub_open: what it returns, and the stub afterwards.
unfoldable pub drive_stub_open : Option ℕ → ℕ → Bytes → ℕ → ℕ × ℕ
unfolding skip_device is_com com_number
drive_stub_open none handle name stub = (0, stub)
drive_stub_open (some want) handle name stub =
    let p = skip_device name in
    let kept = if stub == 0 then handle else stub in
    if is_com p && com_number p == want then (kept, kept) else (0, stub)

unfoldable pub create_file : Opening → Option Bytes → Desk → Served
unfolding Jvs.Line.open_port Card.Line.open_port drive_stub_open skip_device is_com
create_file o none d = forwarded d
create_file o (some name) d =
    let (h, jvs_ready, jvs) =
      Jvs.Line.open_port o.jvs_off o.jvs_wanted o.jvs_handle (some name) d.jvs_ready d.jvs in
    let (k, (card_ready, card, reader)) =
      Card.Line.open_port o.card_off o.card_wanted o.card_hex o.card_file o.card_opens o.card_handle
        (some name) (d.card_ready, d.card, d.reader) in
    let (l, stub) = drive_stub_open o.stub_wanted o.stub_handle name d.stub in
    let with_jvs : Desk = record d { jvs_ready = jvs_ready; jvs = jvs } in
    let with_card : Desk = record with_jvs {
      card_ready = card_ready;
      card = card;
      reader = reader;
    } in
    if o.no_com && is_com (skip_device name)
    then answered 0xffffffff d []
    else if not (h == 0)
    then answered h with_jvs []
    else if not (k == 0)
    then answered k with_card []
    else if not (l == 0)
    then answered l (record with_card { stub = stub }) []
    else forwarded (record with_card { stub = stub })
