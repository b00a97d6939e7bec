-- ===== src/Card/Line/Invariant.antt =====
-- What every call on the reader keeps, so that every state it can reach has it.
use systemes3recomp.Prelude.{
  ℕ, zero, suc, ◌-◌, ◌≤◌, ◌≡◌, refl, inl, inr, ◌⊎◌, Bool, true, false, ◌&&◌, ◌||◌, ◌==◌, ltb,
  Bool-cases, Option, none, some, Bytes, [], ◌∷◌, length, length-append, length-take, length-drop,
  take, drop, arith, if◌then◌else◌,
}
use systemes3recomp.Fifo
use systemes3recomp.Fifo.{Fifo, fifo_size}
use systemes3recomp.Fifo.Refine.{push-IsValid, take_out_refines}
use systemes3recomp.ComName.{Wanted}
use systemes3recomp.Card.{Disk, Port, Reader, tap, initial_port, initial_reader}
use systemes3recomp.Card.Kept
use systemes3recomp.Card.Kept.{command-IsValid, load-IsValid}
use systemes3recomp.Card.Chip.{push_all, send_frame, respond, command}
use systemes3recomp.Card.Receive.{Round, stop, skip, run, round, consume_from}
use systemes3recomp.Card.Receive.Frames.{continue, consume_from-suc}
use systemes3recomp.Card.Line.{
  finish_read, completion, open_port, write, append_input, read, post_read, cancel,
}

push_all-IsValid : (xs : Bytes) {f : Fifo} → Fifo.IsValid f → Fifo.IsValid (push_all f xs)
unfolding push_all
push_all-IsValid [] v = v
push_all-IsValid (x ∷ xs) {f} v = push_all-IsValid xs (push-IsValid x v)

command-pipe :
    (always : Bool) (now : ℕ) (opens : Disk) (p : Bytes) (st : Reader × Fifo)
    → Fifo.IsValid st.1
    → Fifo.IsValid (command always now opens p st).1
unfolding command send_frame
command-pipe always now opens p (r, f) v =
    elim (Bool-cases (length (respond always now opens p r).0 == 0)) [
      | inl none_sent ↦ rw none_sent v
      | inr sent ↦ rw sent (push_all-IsValid _ (push_all-IsValid _ (push_all-IsValid _ v)))
    ]

-- The card and the pipe during consume.
abbrev pub BothValid : Reader × Fifo → Type 0
BothValid st = Kept.IsValid st.0 × Fifo.IsValid st.1

module _ (always : Bool) (now : ℕ) (opens : Disk) where
  -- Valid, and with no more bytes kept than there were.
  abbrev pub Good : Bytes → Bytes × (Reader × Fifo) → Type 0
  Good l c = BothValid c.1 × (length c.0 ≤ length l)

  continue-Good :
      (next : Bytes → Reader × Fifo → Bytes × (Reader × Fifo)) (l : Bytes) (st : Reader × Fifo)
      → ((m : Bytes) (s : Reader × Fifo) → BothValid s → Good m (next m s))
      → (t : Round) → BothValid st
      → Good l (continue always now opens next l st t)
  continue-Good next l st h stop v = (v, omega arith)
  continue-Good next l st h (skip k) v =
      let rest = h (drop k l) st v in (rest.0, omega (arith, rest.1, length-drop k l))
  continue-Good next l st h (run p k) v =
      let after = command always now opens p st in
      let rest =
        h (drop k l) after
          (command-IsValid always now opens p st v.0, command-pipe always now opens p st v.1) in
      (rest.0, omega (arith, rest.1, length-drop k l))

  pub consume_from-Good :
      (f : ℕ) (l : Bytes) (st : Reader × Fifo)
      → BothValid st
      → Good l (consume_from always now opens f l st)
  consume_from-Good zero l st v = unfold consume_from in (v, omega arith)
  consume_from-Good (suc f) l st v =
      rw (consume_from-suc always now opens f l st (round l) refl)
        (continue-Good (consume_from always now opens f) l st (consume_from-Good f) (round l) v)

-- The read has to wait: fewer bytes are there than it wants, and its time is not up.
abbrev pub is_waiting : ℕ → Port → Bool
is_waiting now p =
    ltb (Fifo.avail_wrapped p.out) p.read_len && (p.read_deadline == 0 || ltb now p.read_deadline)

abbrev pub wanted : Port → ℕ
wanted p =
    if ltb (Fifo.avail_wrapped p.out) p.read_len then Fifo.avail_wrapped p.out else p.read_len

module _ (memory : Bool) (now : ℕ) where
  pub finish_read_idle : (p : Port) → p.read_pending ≡ false → finish_read memory now p ≡ (p, [])
  unfolding finish_read
  finish_read_idle p h = ground arith

  pub finish_read_waits : (p : Port) → is_waiting now p ≡ true → finish_read memory now p ≡ (p, [])
  unfolding finish_read
  finish_read_waits p h = ground arith

  pub finish_read_done :
      (p : Port)
      → p.read_pending ≡ true
      → is_waiting now p ≡ false
      → finish_read memory now p ≡ (
        record p { out = (Fifo.take_out p.out (wanted p)).1; read_pending = false },
        completion memory p (Fifo.take_out p.out (wanted p)).0,
      )
  unfolding finish_read
  finish_read_done p h k = ground arith

-- The pipe's indices are inside it, and at most 4096 unread bytes wait.
pub record IsSound (p : Port) : Type 0 where
  pub pipe : Fifo.IsValid p.out
  pub room : length p.in_bytes ≤ fifo_size

pub finish_read-IsSound :
    (memory : Bool) (now : ℕ) {p : Port} → IsSound p → IsSound (finish_read memory now p).0
finish_read-IsSound memory now {p} v = elim (Bool-cases p.read_pending) [
  | inr idle ↦ rw (finish_read_idle memory now p idle) v
  | inl pending ↦ elim (Bool-cases (is_waiting now p)) [
    | inl waits ↦ rw (finish_read_waits memory now p waits) v
    | inr done ↦
        rw (finish_read_done memory now p pending done)
          (record { pipe = (take_out_refines (wanted p) v.pipe).2; room = v.room })
  ]
]

pub length-append_input :
    (old bs : Bytes) → length old ≤ fifo_size → length (append_input old bs) ≤ fifo_size
unfolding append_input
length-append_input old bs h =
    let n =
      if ltb (fifo_size - length old) (length bs) then fifo_size - length old else length bs in
    let small : n ≤ fifo_size - length old = ground arith in
    omega (arith, length-append old (take n bs), length-take n bs)

-- g_ready, g_p and the card. The card is valid once the port has been opened.
pub record Machine : Type 0 where
  pub ready : Bool
  pub port : Port
  pub reader : Reader

pub record IsValid (m : Machine) : Type 0 where
  pub sound : IsSound m.port
  pub uid_four : m.ready ≡ false → length m.reader.uid ≡ 4
  pub card : m.ready ≡ true → Kept.IsValid m.reader

-- What the game, the ticker and the player can do. The game gets at an open port only, and card_load
-- finds nothing or the card's file.
pub data MachineStep (m : Machine) : Machine → Type 0 where
  opened :
      (off : Bool) (want : Wanted) (hex found : Option Bytes) (opens : Disk) (handle : ℕ)
      (name : Option Bytes) (ready : Bool) (p : Port) (r : Reader)
      → (found ≡ none) ⊎ (found ≡ some m.reader.file)
      → (open_port off want hex found opens handle name (m.ready, m.port, m.reader)).1
        ≡ (ready, p, r)
      → MachineStep m (record { ready = ready; port = p; reader = r })
  writes :
      (always : Bool) (opens : Disk) (memory : Bool) (now : ℕ) (bs : Bytes)
      → m.ready ≡ true
      → MachineStep m (record m {
        port = (write always opens memory now bs (m.port, m.reader)).0.0;
        reader = (write always opens memory now bs (m.port, m.reader)).0.1;
      })
  reads : (n : ℕ) → MachineStep m (record m { port = (read n m.port).1 })
  posts :
      (memory : Bool) (now thread buf n ovl routine : ℕ)
      → MachineStep m (record m { port = (post_read memory now thread buf n ovl routine m.port).0 })
  cancels : MachineStep m (record m { port = cancel m.port })
  ticks :
      (memory : Bool) (now : ℕ)
      → MachineStep m (record m { port = (finish_read memory now m.port).0 })
  taps : (now : ℕ) → MachineStep m (record m { reader = tap now m.reader })

pub data MachineReach (file : Bytes) : Machine → Type 0 where
  start :
      MachineReach file
        (record { ready = false; port = initial_port; reader = initial_reader file })
  next : {m n : Machine} → MachineReach file m → MachineStep m n → MachineReach file n
