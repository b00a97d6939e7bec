-- ===== src/Jvs/Line/Invariant.antt =====
-- Every call on the port keeps its invariant, so every state that it can reach is valid.
use systemes3recomp.Prelude.{
  ℕ, zero, suc, ◌+◌, ◌-◌, ◌≤◌, ◌≡◌, refl, ◌∙◌, subst, inl, inr, Bool, true, false, ltb, Bool-cases,
  Option, none, some, Bytes, List, [], ◌∷◌, length, length-append, length-take, length-set, ◌^◌,
  take, total, get_or, arith, not, ◌&&◌, ◌==◌, ◌%◌, if◌then◌else◌,
}
use systemes3recomp.Fifo
use systemes3recomp.Fifo.{Fifo, fifo_size}
use systemes3recomp.Fifo.Refine.{take_out_refines}
use systemes3recomp.ComName.{Wanted}
use systemes3recomp.Jvs.{Port, Switches, initial_port}
use systemes3recomp.Jvs.Command.{Outcome, answered, unanswered, undefined}
use systemes3recomp.Jvs.Receive.{
  Scan, cut, ended, whole, scan, find_sync, after_sync, packet, Consumed, consumed, faulted,
  starved, consume, consume_input,
}
use systemes3recomp.Jvs.Receive.Rounds.{
  resume, find_sync_le, after_sync_lt, scan-Promised, Promised, consume_short, consume_whole,
  consume_partial,
}
use systemes3recomp.Jvs.Line.{
  Effect, finish_read, completion, is_expired, set_timeouts, open_port, write, append_input,
  insert_coin, read, post_read, cancel,
}
use systemes3recomp.Jvs.Line.Kept.{IsValid, OutcomeIsValid, reply-IsValid, handle_packet-IsValid}

packet-IsValid :
    (stale : ℕ → ℕ) (s : Switches) (body : Bytes) (size : ℕ) {p : Port}
    → IsValid p
    → OutcomeIsValid (packet stale s body size p)
unfolding packet
packet-IsValid stale s body size {p} v =
    elim (Bool-cases
      (total (take (size + 1) body) % 256 == get_or body (size + 1) (stale (size + 1)))) [
        | inl right ↦ rw right (handle_packet-IsValid s _ _ _ p v)
        | inr wrong ↦ rw wrong (reply-IsValid (0x03 ∷ []) v)
      ]

abbrev pub ConsumedIsValid : Consumed → Type 0
ConsumedIsValid (consumed q) = IsValid q
ConsumedIsValid faulted = Unit
ConsumedIsValid starved = Unit

resume-IsValid :
    (next : Port → Consumed) (rest : Bytes) (o : Outcome)
    → length rest ≤ fifo_size
    → OutcomeIsValid o
    → ((r : Port) → IsValid r → ConsumedIsValid (next r))
    → ConsumedIsValid (resume next rest o)
resume-IsValid next rest (answered _ r) h v ih =
    ih _ (record { pipe = v.pipe; room = h; slots = v.slots })
resume-IsValid next rest (unanswered r) h v ih =
    ih _ (record { pipe = v.pipe; room = h; slots = v.slots })
resume-IsValid next rest undefined h v ih = tt

module _ (stale : ℕ → ℕ) (s : Switches) where
  consume_found-IsValid :
      {p : Port} → IsValid p → IsValid (record p { in_bytes = find_sync p.in_bytes })
  consume_found-IsValid {p} v = record {
    pipe = v.pipe;
    room = omega (arith, find_sync_le p.in_bytes, v.room);
    slots = v.slots;
  }

  consume_round-IsValid :
      (f : ℕ) {p : Port} (t : Scan)
      → IsValid p
      → scan (after_sync (find_sync p.in_bytes)) [] 0 ≡ t
      → Promised (length (after_sync (find_sync p.in_bytes))) t
      → ((r : Port) → IsValid r → ConsumedIsValid (consume stale s f r))
      → ConsumedIsValid (consume stale s (suc f) p)
  consume_round-IsValid f {p} cut v e l ih =
      rw (consume_partial stale s f p cut e (inl refl)) (consume_found-IsValid v)
  consume_round-IsValid f {p} (ended body size) v e l ih =
      rw (consume_partial stale s f p _ e (inr (body, size, refl, l))) (consume_found-IsValid v)
  consume_round-IsValid f {p} (whole body size rest) v e l ih =
      elim (Bool-cases (ltb (length (find_sync p.in_bytes)) 3)) [
        | inl short ↦ rw (consume_short stale s f p short) (consume_found-IsValid v)
        | inr enough ↦ rw (consume_whole stale s f p body rest size enough e) (
            resume-IsValid (consume stale s f) rest _
              (omega (
                arith,
                after_sync_lt (find_sync p.in_bytes) enough,
                find_sync_le p.in_bytes,
                v.room,
              ))
              (packet-IsValid stale s body size (consume_found-IsValid v)) ih)
      ]

  consume-IsValid : (f : ℕ) {p : Port} → IsValid p → ConsumedIsValid (consume stale s f p)
  consume-IsValid zero v = unfold consume in tt
  consume-IsValid (suc f) {p} v =
      consume_round-IsValid f _ v refl
        (scan-Promised (after_sync (find_sync p.in_bytes)) [] 0 _ (inl refl) (omega arith))
        (λ r. consume-IsValid f {p = r})

  pub consume_input-IsValid : {p : Port} → IsValid p → ConsumedIsValid (consume_input stale s p)
  unfolding consume_input
  consume_input-IsValid {p} v = consume-IsValid (suc (length p.in_bytes)) v

-- The read has to wait: fewer bytes are there than it wants, and it has not expired.
abbrev pub is_waiting : ℕ → Port → Bool
is_waiting now p = ltb (Fifo.avail p.out) p.read_len && not (is_expired now p)

module _ (memory : Bool) (now : ℕ) where
  pub finish_read_idle : (p : Port) → p.read_pending ≡ false → finish_read memory now p ≡ (p, [])
  unfolding finish_read
  finish_read_idle p h = ground arith

  pub finish_read_waits : (p : Port) → is_waiting now p ≡ true → finish_read memory now p ≡ (p, [])
  unfolding finish_read
  finish_read_waits p h = ground arith

  pub finish_read_done :
      (p : Port)
      → p.read_pending ≡ true
      → is_waiting now p ≡ false
      → finish_read memory now p ≡ (
        record p { out = (Fifo.take_out p.out p.read_len).1; read_pending = false },
        completion memory p (Fifo.take_out p.out p.read_len).0,
      )
  unfolding finish_read
  finish_read_done p h k = ground arith

  pub finish_read-IsValid : {p : Port} → IsValid p → IsValid (finish_read memory now p).0
  finish_read-IsValid {p} v = elim (Bool-cases p.read_pending) [
    | inr idle ↦ rw (finish_read_idle p idle) v
    | inl pending ↦ elim (Bool-cases (is_waiting now p)) [
      | inl waits ↦ rw (finish_read_waits p waits) v
      | inr done ↦
          rw (finish_read_done p pending done) (record {
            pipe = (take_out_refines p.read_len v.pipe).2;
            room = v.room;
            slots = v.slots;
          })
    ]
  ]

module _ (stale : ℕ → ℕ) where
  -- What the rest of the program can do to the port: the es3_jvs_* calls of the game, the ticker's
  -- finish_read, and a coin.
  pub data PortStep (p : Port) : Port → Type 0 where
    opens :
        (off : Bool) (want : Wanted) (handle : ℕ) (name : Option Bytes) (ready : Bool)
        → PortStep p (open_port off want handle name ready p).2
    times : (word : ℕ → ℕ) (a : ℕ) → PortStep p (set_timeouts word a p)
    writes :
        (s : Switches) (memory : Bool) (now : ℕ) (bs : Bytes) (q : Port) (es : List Effect)
        → write stale s memory now bs p ≡ some (q, es)
        → PortStep p q
    reads : (n : ℕ) → PortStep p (read n p).1
    posts :
        (memory : Bool) (now thread buf n ovl routine : ℕ)
        → PortStep p (post_read memory now thread buf n ovl routine p).0
    cancels : PortStep p (cancel p)
    ticks : (memory : Bool) (now : ℕ) → PortStep p (finish_read memory now p).0
    coin : PortStep p (insert_coin p)

  pub data Reach : Port → Type 0 where
    start : Reach initial_port
    next : {p q : Port} → Reach p → PortStep p q → Reach q

  append_input-IsValid : (bs : Bytes) {p : Port} → IsValid p → IsValid (append_input bs p)
  unfolding append_input
  append_input-IsValid bs {p} v =
      let n =
        if ltb (fifo_size - length p.in_bytes) (length bs)
        then fifo_size - length p.in_bytes
        else length bs in
      let small : n ≤ fifo_size - length p.in_bytes = ground arith in
      record {
        pipe = v.pipe;
        room = omega (arith, length-append p.in_bytes (take n bs), length-take n bs, v.room);
        slots = v.slots;
      }

  write_cases :
      (memory : Bool) (now : ℕ) (s : Switches) (bs : Bytes) (p q : Port) (es : List Effect)
      (c : Consumed)
      → consume_input stale s (append_input bs p) ≡ c
      → ConsumedIsValid c
      → write stale s memory now bs p ≡ some (q, es)
      → IsValid q
  write_cases memory now s bs p q es (consumed r) e v h =
      let done : (finish_read memory now r).0 ≡ q = unfold write in ground arith in
      subst IsValid done (finish_read-IsValid memory now v)
  write_cases memory now s bs p q es faulted e v h = unfold write in ground arith
  write_cases memory now s bs p q es starved e v h = unfold write in ground arith

  PortStep-IsValid : {p q : Port} → PortStep p q → IsValid p → IsValid q
  PortStep-IsValid {p} (opens off want handle none ready) v = unfold open_port in v
  PortStep-IsValid {p} (opens off want handle (some name) ready) v =
      unfold open_port in ground arith
  PortStep-IsValid {p} (times word a) v = unfold set_timeouts in ground arith
  PortStep-IsValid {p} (writes s memory now bs q es e) v =
      write_cases memory now s bs p q es _ refl
        (consume_input-IsValid stale s (append_input-IsValid bs v)) e
  PortStep-IsValid {p} (reads n) v =
      unfold read in record { pipe = (take_out_refines n v.pipe).2; room = v.room; slots = v.slots }
  PortStep-IsValid {p} (posts memory now thread buf n ovl routine) v =
      unfold post_read in
      finish_read-IsValid memory now (record { pipe = v.pipe; room = v.room; slots = v.slots })
  PortStep-IsValid {p} cancels v =
      unfold cancel in record { pipe = v.pipe; room = v.room; slots = v.slots }
  PortStep-IsValid {p} (ticks memory now) v = finish_read-IsValid memory now v
  PortStep-IsValid {p} coin v =
      unfold insert_coin in
      record {
        pipe = v.pipe;
        room = v.room;
        slots = length-set p.coin 0 ((get_or p.coin 0 0 + 1) % 2 ^ 32) ∙ v.slots;
      }

  -- Every state that the port comes to holds at most 4096 unread bytes, has its indices inside the
  -- pipe, and counts three coin slots.
  pub Reach-IsValid : {p : Port} → Reach p → IsValid p
  Reach-IsValid start = omega arith
  Reach-IsValid (next r st) = PortStep-IsValid st (Reach-IsValid r)
