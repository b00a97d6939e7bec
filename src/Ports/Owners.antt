-- ===== src/Ports/Owners.antt =====
-- Which board a file call of the game reaches, whichever call it is (src/runtime/hle_callback.c).
use systemes3recomp.Prelude.{
  ℕ, ◌≡◌, ◌≢◌, ◌⊎◌, inl, inr, refl, sym, Bool, true, false, ◌&&◌, List, Bytes, if◌then◌else◌,
  Bool-cases, Option-cases, subst, arith,
}
use systemes3recomp.Jvs
use systemes3recomp.Jvs.Line.{Effect}
use systemes3recomp.Card
use systemes3recomp.Card.{Reader}
use systemes3recomp.Ports.{
  Desk, World, Served, forwarded, answered, undefined, is_jvs, is_card, is_stub, is_ours, jvs_write,
  card_write, write_file, write_file_ex, read_file, read_file_ex, cancel_io, comm_ok,
  set_comm_timeouts, get_comm_state, get_comm_timeouts, get_comm_modem_status,
}

-- A file call of the game, with its arguments behind the handle.
pub data Call : Type 0 where
  writes : Bytes → ℕ → Call
  writes_ex : Bytes → ℕ → ℕ → Call
  reads : ℕ → ℕ → ℕ → Call
  reads_ex : ℕ → ℕ → ℕ → ℕ → Call
  cancels : Call
  closes : Call
  sets_timeouts : ℕ → Call
  gets_state : ℕ → Call
  gets_timeouts : ℕ → Call
  gets_status : ℕ → Call

unfoldable pub serve_call : World → Desk → ℕ → Call → Served
serve_call w d h (writes bs at) = write_file w d h bs at
serve_call w d h (writes_ex bs ovl routine) = write_file_ex w d h bs ovl routine
serve_call w d h (reads buf n at) = read_file d h buf n at
serve_call w d h (reads_ex buf n ovl routine) = read_file_ex w d h buf n ovl routine
serve_call w d h cancels = cancel_io d h
serve_call w d h closes = comm_ok d h
serve_call w d h (sets_timeouts at) = set_comm_timeouts w d h at
serve_call w d h (gets_state dcb) = get_comm_state d h dcb
serve_call w d h (gets_timeouts at) = get_comm_timeouts d h at
serve_call w d h (gets_status at) = get_comm_modem_status d h at

-- The handles that are open are different ones.
abbrev pub Distinct : Desk → Type 0
Distinct d = (d.jvs.handle ≢ d.card.handle) × (d.jvs.handle ≢ d.stub) × (d.card.handle ≢ d.stub)

-- A handle is one board's at most.
not_both :
    (d : Desk) (h : ℕ)
    → Distinct d
    → ((is_jvs d h && is_card d h) ≡ false)
      × ((is_jvs d h && is_stub d h) ≡ false)
      × ((is_card d h && is_stub d h) ≡ false)
unfolding Jvs.Line.is_port Card.Line.is_port
not_both d h v = ground arith

-- The call leaves the JVS board alone; the card and its reader; both.
abbrev pub KeepsJvs : Desk → Served → Type 0
KeepsJvs d (forwarded d') = d'.jvs ≡ d.jvs
KeepsJvs d (answered v d' es) = d'.jvs ≡ d.jvs
KeepsJvs d undefined = ⊥

abbrev pub KeepsCard : Desk → Served → Type 0
KeepsCard d (forwarded d') = (d'.card ≡ d.card) × (d'.reader ≡ d.reader)
KeepsCard d (answered v d' es) = (d'.card ≡ d.card) × (d'.reader ≡ d.reader)
KeepsCard d undefined = Unit {0}

-- A property of both branches of a test, and of the second where the test fails.
if-holds : (P : Served → Type 0) (b : Bool) (x y : Served) → P x → P y → P (if b then x else y)
if-holds P true x y px py = px
if-holds P false x y px py = py

else-holds :
    (P : Served → Type 0) (b : Bool) (x y : Served) → b ≡ false → P y → P (if b then x else y)
else-holds P true x y e py = cc
else-holds P false x y e py = py

jvs_write-KeepsCard :
    (w : World) (d : Desk) (bs : Bytes) (es : List Effect) → KeepsCard d (jvs_write w d bs es)
unfolding jvs_write
jvs_write-KeepsCard w d bs es =
    elim (Option-cases (Jvs.Line.write w.stale w.switches w.memory w.now bs d.jvs)) [
      | inl e ↦ rw (e, jvs_write) tt
      | inr (r, e) ↦ rw (e, jvs_write) (refl, refl)
    ]

keeps_jvs :
    (w : World) (d : Desk) (h : ℕ) (c : Call) → is_jvs d h ≡ false → KeepsJvs d (serve_call w d h c)
unfolding serve_call write_file write_file_ex read_file read_file_ex cancel_io comm_ok
    set_comm_timeouts get_comm_state get_comm_timeouts get_comm_modem_status card_write
keeps_jvs w d h (writes bs at) e = else-holds (KeepsJvs d) (is_jvs d h) _ _ e (
    if-holds (KeepsJvs d) (is_stub d h) _ _ refl
      (if-holds (KeepsJvs d) (is_card d h) _ _ refl refl))
keeps_jvs w d h (writes_ex bs ovl routine) e =
    else-holds (KeepsJvs d) (is_jvs d h) _ _ e (if-holds (KeepsJvs d) (is_card d h) _ _ refl refl)
keeps_jvs w d h (reads buf n at) e = else-holds (KeepsJvs d) (is_jvs d h) _ _ e (
    if-holds (KeepsJvs d) (is_stub d h) _ _ refl
      (if-holds (KeepsJvs d) (is_card d h) _ _ refl refl))
keeps_jvs w d h (reads_ex buf n ovl routine) e =
    if-holds (KeepsJvs d) (is_card d h) _ _ refl (else-holds (KeepsJvs d) (is_jvs d h) _ _ e refl)
keeps_jvs w d h cancels e =
    if-holds (KeepsJvs d) (is_card d h) _ _ refl (else-holds (KeepsJvs d) (is_jvs d h) _ _ e refl)
keeps_jvs w d h closes e = if-holds (KeepsJvs d) (is_ours d h) _ _ refl refl
keeps_jvs w d h (sets_timeouts at) e =
    subst
      (λ b.
        KeepsJvs d
          (comm_ok (if b then record d { jvs = Jvs.Line.set_timeouts w.rd32 at d.jvs } else d) h))
      (sym e) (if-holds (KeepsJvs d) (is_ours d h) _ _ refl refl)
keeps_jvs w d h (gets_state dcb) e = if-holds (KeepsJvs d) (is_ours d h) _ _ refl refl
keeps_jvs w d h (gets_timeouts at) e = if-holds (KeepsJvs d) (is_ours d h) _ _ refl refl
keeps_jvs w d h (gets_status at) e = if-holds (KeepsJvs d) (is_ours d h) _ _ refl refl

keeps_card :
    (w : World) (d : Desk) (h : ℕ) (c : Call)
    → is_card d h ≡ false
    → KeepsCard d (serve_call w d h c)
unfolding serve_call write_file write_file_ex read_file read_file_ex cancel_io comm_ok
    set_comm_timeouts get_comm_state get_comm_timeouts get_comm_modem_status
keeps_card w d h (writes bs at) e =
    if-holds (KeepsCard d) (is_jvs d h) _ _ (jvs_write-KeepsCard w d bs _) (
      if-holds (KeepsCard d) (is_stub d h) _ _ (refl, refl)
        (else-holds (KeepsCard d) (is_card d h) _ _ e (refl, refl)))
keeps_card w d h (writes_ex bs ovl routine) e =
    if-holds (KeepsCard d) (is_jvs d h) _ _ (jvs_write-KeepsCard w d bs _)
      (else-holds (KeepsCard d) (is_card d h) _ _ e (refl, refl))
keeps_card w d h (reads buf n at) e =
    if-holds (KeepsCard d) (is_jvs d h) _ _ (refl, refl)
      (if-holds (KeepsCard d) (is_stub d h) _ _ (refl, refl)
        (else-holds (KeepsCard d) (is_card d h) _ _ e (refl, refl)))
keeps_card w d h (reads_ex buf n ovl routine) e =
    else-holds (KeepsCard d) (is_card d h) _ _ e
      (if-holds (KeepsCard d) (is_jvs d h) _ _ (refl, refl) (refl, refl))
keeps_card w d h cancels e =
    else-holds (KeepsCard d) (is_card d h) _ _ e
      (if-holds (KeepsCard d) (is_jvs d h) _ _ (refl, refl) (refl, refl))
keeps_card w d h closes e = if-holds (KeepsCard d) (is_ours d h) _ _ (refl, refl) (refl, refl)
keeps_card w d h (sets_timeouts at) e = elim (Bool-cases (is_jvs d h)) [
  | inl j ↦
      subst
        (λ b.
          KeepsCard d
            (comm_ok (if b then record d { jvs = Jvs.Line.set_timeouts w.rd32 at d.jvs } else d) h))
        (sym j)
        (if-holds (KeepsCard d)
          (is_ours (record d { jvs = Jvs.Line.set_timeouts w.rd32 at d.jvs }) h) _ _ (refl, refl)
          (refl, refl))
  | inr j ↦
      subst
        (λ b.
          KeepsCard d
            (comm_ok (if b then record d { jvs = Jvs.Line.set_timeouts w.rd32 at d.jvs } else d) h))
        (sym j) (if-holds (KeepsCard d) (is_ours d h) _ _ (refl, refl) (refl, refl))
]
keeps_card w d h (gets_state dcb) e =
    if-holds (KeepsCard d) (is_ours d h) _ _ (refl, refl) (refl, refl)
keeps_card w d h (gets_timeouts at) e =
    if-holds (KeepsCard d) (is_ours d h) _ _ (refl, refl) (refl, refl)
keeps_card w d h (gets_status at) e =
    if-holds (KeepsCard d) (is_ours d h) _ _ (refl, refl) (refl, refl)

-- A call on a handle that is not the JVS board's never changes that board, and one on a handle that is
-- not the reader's never changes the reader or the card, whether the call is answered or goes to Windows.
pub serve_call-keeps :
    (w : World) (d : Desk) (h : ℕ) (c : Call)
    → ((is_jvs d h ≡ true) ⊎ KeepsJvs d (serve_call w d h c))
      × ((is_card d h ≡ true) ⊎ KeepsCard d (serve_call w d h c))
serve_call-keeps w d h c = (
  elim (Bool-cases (is_jvs d h)) [ inl e ↦ inl e | inr e ↦ inr (keeps_jvs w d h c e) ],
  elim (Bool-cases (is_card d h)) [ inl e ↦ inl e | inr e ↦ inr (keeps_card w d h c e) ],
)
