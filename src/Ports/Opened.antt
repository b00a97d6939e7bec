-- ===== src/Ports/Opened.antt =====
-- The handles that hle_create_file gives out, and the calls made on them (src/runtime/hle_callback.c).
use systemes3recomp.Prelude.{
  ℕ, ◌≡◌, ◌≢◌, refl, Bool, true, false, not, ◌&&◌, ◌||◌, Option, none, some, List, ◌++◌, length,
  Bytes, ◌==◌, if◌then◌else◌, Option-cases, ◌⊎◌, inl, inr, arith,
}
use systemes3recomp.Jvs
use systemes3recomp.Jvs.Line.{Effect}
use systemes3recomp.Card
use systemes3recomp.Card.{Disk, Reader}
use systemes3recomp.ComName.{Wanted, is_com, skip_device}
use systemes3recomp.Ports.{
  Desk, World, Served, Opening, forwarded, answered, undefined, is_jvs, is_card, is_ours, jvs_write,
  card_write, write_file, write_file_ex, read_file, read_file_ex, cancel_io, comm_ok,
  set_comm_timeouts, get_comm_state, get_comm_timeouts, get_comm_modem_status, drive_stub_open,
  create_file, put_if, overlapped,
}
use systemes3recomp.Ports.Owners.{Call, writes, writes_ex, reads, sets_timeouts, serve_call}

jvs_opened :
    (off : Bool) (want : Wanted) (handle : ℕ) (name : Bytes) (ready : Bool) (p : Jvs.Port)
    → (Jvs.Line.open_port off want handle (some name) ready p).0 ≢ 0
    → Jvs.Line.is_port
        (Jvs.Line.open_port off want handle (some name) ready p).1
        (Jvs.Line.open_port off want handle (some name) ready p).0
        (Jvs.Line.open_port off want handle (some name) ready p).2
      ≡ true
unfolding Jvs.Line.open_port Jvs.Line.is_port
jvs_opened off want handle name ready p h = ground arith

card_opened :
    (off : Bool) (want : Wanted) (hex file : Option Bytes) (opens : Disk) (handle : ℕ)
    (name : Bytes) (st : Bool × Card.Port × Reader)
    → (Card.Line.open_port off want hex file opens handle (some name) st).0 ≢ 0
    → Card.Line.is_port
        (Card.Line.open_port off want hex file opens handle (some name) st).1.0
        (Card.Line.open_port off want hex file opens handle (some name) st).0
        (Card.Line.open_port off want hex file opens handle (some name) st).1.1
      ≡ true
unfolding Card.Line.open_port Card.Line.is_port
card_opened off want hex file opens handle name (ready, p, r) h = ground arith

stub_opened :
    (want : Option ℕ) (handle : ℕ) (name : Bytes) (stub : ℕ)
    → (drive_stub_open want handle name stub).0 ≢ 0
    → (drive_stub_open want handle name stub).0 ≡ (drive_stub_open want handle name stub).1
unfolding drive_stub_open
stub_opened none handle name stub h = absurd (h refl)
stub_opened (some want) handle name stub h = ground arith

abbrev pub is_forwarded : Served → Bool
is_forwarded (forwarded d) = true
is_forwarded (answered v d es) = false
is_forwarded undefined = false

jvs_write-is_forwarded :
    (w : World) (d : Desk) (bs : Bytes) (es : List Effect)
    → is_forwarded (jvs_write w d bs es) ≡ false
unfolding jvs_write
jvs_write-is_forwarded w d bs es =
    elim (Option-cases (Jvs.Line.write w.stale w.switches w.memory w.now bs d.jvs)) [
      | inl e ↦ rw (e, jvs_write) refl
      | inr (r, e) ↦ rw (e, jvs_write) refl
    ]

card_write-is_forwarded :
    (w : World) (d : Desk) (bs : Bytes) (es : List Effect)
    → is_forwarded (card_write w d bs es) ≡ false
unfolding card_write
card_write-is_forwarded w d bs es = refl

-- Setting the timeouts leaves the board's handle.
set_timeouts-is_jvs :
    (w : World) (d : Desk) (h at : ℕ)
    → is_jvs d h ≡ true
    → is_jvs (record d { jvs = Jvs.Line.set_timeouts w.rd32 at d.jvs }) h ≡ true
unfolding Jvs.Line.set_timeouts Jvs.Line.is_port
set_timeouts-is_jvs w d h at e = ground arith

-- A call on a board's handle is never passed on to Windows.
pub serve_call-is_forwarded :
    (w : World) (d : Desk) (h : ℕ) (c : Call)
    → (is_jvs d h || is_card d h) ≡ true
    → is_forwarded (serve_call w d h c) ≡ false
unfolding serve_call write_file write_file_ex read_file read_file_ex cancel_io comm_ok
    set_comm_timeouts get_comm_state get_comm_timeouts get_comm_modem_status
serve_call-is_forwarded w d h (writes bs at) e = ground (
  arith,
  jvs_write-is_forwarded w d bs (put_if at (length bs)),
  card_write-is_forwarded w d bs (put_if at (length bs)),
)
serve_call-is_forwarded w d h (sets_timeouts at) e = ground (arith, set_timeouts-is_jvs w d h at)
serve_call-is_forwarded w d h (reads buf n at) e = ground arith
serve_call-is_forwarded w d h (writes_ex bs ovl routine) e = ground (
  arith,
  jvs_write-is_forwarded w d bs (
      overlapped ovl (length bs)
      ++ Jvs.Line.complete_write w.memory w.thread ovl (length bs) routine),
  card_write-is_forwarded w d bs (
      overlapped ovl (length bs)
      ++ Card.Line.complete_write w.memory w.thread ovl (length bs) routine),
)
serve_call-is_forwarded w d h c e = ground arith

-- The handle is a board's or the stub's behind a call that is answered with one.
abbrev pub Owned : Bool → Served → Type 0
Owned no_com (forwarded d) = Unit {0}
Owned no_com (answered h d es) = ((no_com ≡ true) × (h ≡ 0xffffffff)) ⊎ (is_ours d h ≡ true)
Owned no_com undefined = ⊥

pick :
    (P : Served → Type 0) (b : Bool) (x y : Served)
    → (b ≡ true → P x)
    → (b ≡ false → P y)
    → P (if b then x else y)
pick P true x y p q = p refl
pick P false x y p q = q refl

not_zero : (n : ℕ) → not (n == 0) ≡ true → n ≢ 0
not_zero n e = ground arith

stub_is_ours : (k l : ℕ) → k ≢ 0 → k ≡ l → (not (l == 0) && not (k == 0) && k == l) ≡ true
stub_is_ours k l h e = ground arith

-- A handle that hle_create_file gives out for a name is one that the other calls look for: a board's
-- or the silent port's. Only the refusal of ES3_NO_COM answers with another value.
pub create_file-Owned :
    (o : Opening) (name : Option Bytes) (d : Desk) → Owned o.no_com (create_file o name d)
unfolding create_file
create_file-Owned o none d = tt
create_file-Owned o (some name) d =
    let j = Jvs.Line.open_port o.jvs_off o.jvs_wanted o.jvs_handle (some name) d.jvs_ready d.jvs in
    let k =
      Card.Line.open_port o.card_off o.card_wanted o.card_hex o.card_file o.card_opens o.card_handle
        (some name) (d.card_ready, d.card, d.reader) in
    let l = drive_stub_open o.stub_wanted o.stub_handle name d.stub in
    pick (Owned o.no_com) (o.no_com && is_com (skip_device name)) _ _
      (λ e. inl (ground arith, refl))
      (λ e.
        pick (Owned o.no_com) (not (j.0 == 0)) _ _
          (λ h. inr (
            ground (
              arith,
              jvs_opened o.jvs_off o.jvs_wanted o.jvs_handle name d.jvs_ready d.jvs
                  (not_zero j.0 h),
            )))
          (λ h.
            pick (Owned o.no_com) (not (k.0 == 0)) _ _
              (λ c. inr (
                ground (
                  arith,
                  card_opened o.card_off o.card_wanted o.card_hex o.card_file o.card_opens
                      o.card_handle name (d.card_ready, d.card, d.reader) (not_zero k.0 c),
                )))
              (λ c.
                pick (Owned o.no_com) (not (l.0 == 0)) _ _
                  (λ s. inr (
                    ground (
                      arith,
                      stub_is_ours l.0 l.1 (not_zero l.0 s)
                          (stub_opened o.stub_wanted o.stub_handle name d.stub (not_zero l.0 s)),
                    )))
                  (λ s. tt))))
