-- ===== src/Card/Line/Reads.antt =====
-- How a read that the game has posted at the reader comes back.
use systemes3recomp.Prelude.{
  ℕ, ◌+◌, ◌%◌, ◌^◌, ◌≤◌, ◌<◌, ◌≡◌, refl, ap, ◌⊎◌, ◌∙◌, inl, inr, Bool, true, false, Bytes, [],
  length, take, take_all, drop, drop_all, sym, ltb, ltb→lt, Bool-cases, if◌then◌else◌, arith,
}
use systemes3recomp.Fifo
use systemes3recomp.Fifo.Refine.{contents, length-contents, take_out_refines, avail_wrapped-avail}
use systemes3recomp.Card.{Port}
use systemes3recomp.Card.Line.{completion, finish_read, post_read}
use systemes3recomp.Card.Line.Invariant.{
  IsSound, is_waiting, wanted, finish_read_idle, finish_read_waits, finish_read_done,
}

waiting_bytes : (p : Port) → IsSound p → Fifo.avail_wrapped p.out ≡ length (contents p.out)
waiting_bytes p v = avail_wrapped-avail v.pipe ∙ sym (length-contents p.out)

-- What a read takes: as much as it asks for, or what there is.
abbrev cut : ℕ → ℕ → ℕ
cut waiting n = if ltb waiting n then waiting else n

take-cut : (xs : Bytes) (n : ℕ) → take (cut (length xs) n) xs ≡ take n xs
take-cut xs n = elim (Bool-cases (ltb (length xs) n)) [
  | inr enough ↦ rw enough refl
  | inl few ↦
      rw
        (
          few,
          take_all xs n (omega (arith, ltb→lt (length xs) n few)),
          take_all xs (length xs) (omega arith),
        )
        refl
]

drop-cut : (xs : Bytes) (n : ℕ) → drop (cut (length xs) n) xs ≡ drop n xs
drop-cut xs n = elim (Bool-cases (ltb (length xs) n)) [
  | inr enough ↦ rw enough refl
  | inl few ↦
      rw
        (
          few,
          drop_all xs n (omega (arith, ltb→lt (length xs) n few)),
          drop_all xs (length xs) (omega arith),
        )
        refl
]

module _ (memory : Bool) (now : ℕ) where
  -- A pending read that has as many bytes as it asks for, or whose deadline has come, takes the oldest
  -- bytes, at most as many as it asks for, leaves the others, and completes with just these.
  pub reader_delivers :
      (p : Port)
      → IsSound p
      → p.read_pending ≡ true
      → (p.read_len ≤ length (contents p.out)) ⊎ ((0 < p.read_deadline) × (p.read_deadline ≤ now))
      → ((finish_read memory now p).0.read_pending ≡ false)
        × (contents (finish_read memory now p).0.out ≡ drop p.read_len (contents p.out))
        × ((finish_read memory now p).1 ≡ completion memory p (take p.read_len (contents p.out)))
  reader_delivers p v pending ready =
      let e = waiting_bytes p v in
      let go : is_waiting now p ≡ false = ground arith in
      let n = ap (λ k. cut k p.read_len) e in
      let taken = take_out_refines (wanted p) v.pipe in
      rw (finish_read_done memory now p pending go) (
        refl,
        taken.1 ∙ ap (λ k. drop k (contents p.out)) n ∙ drop-cut (contents p.out) p.read_len,
        ap (completion memory p)
            (taken.0 ∙ ap (λ k. take k (contents p.out)) n ∙ take-cut (contents p.out) p.read_len),
      )

  -- Any other read changes nothing: none is pending, or it waits on.
  pub reader_waits_on :
      (p : Port)
      → IsSound p
      → (p.read_pending ≡ false)
        ⊎ ((length (contents p.out) < p.read_len)
            × ((p.read_deadline ≡ 0) ⊎ (now < p.read_deadline)))
      → finish_read memory now p ≡ (p, [])
  reader_waits_on p v (inl idle) = finish_read_idle memory now p idle
  reader_waits_on p v (inr (few, early)) =
      finish_read_waits memory now p (ground (arith, waiting_bytes p v, few, early))

finish_read_pending :
    (memory : Bool) (now : ℕ) (p : Port)
    → ((finish_read memory now p).0 ≡ p) ⊎ ((finish_read memory now p).0.read_pending ≡ false)
unfolding finish_read
finish_read_pending memory now p = ground arith

-- A read posted at the reader is over as soon as the ticker runs finish_read 100 ms later, with or
-- without bytes. The clock is below 2 ^ 63 ms.
pub reader_read_ends :
    (memory : Bool) (now later thread buf n ovl routine : ℕ) (p : Port)
    → now < 2 ^ 63
    → now + 100 ≤ later
    → (finish_read memory later (post_read memory now thread buf n ovl routine p).0).0.read_pending
      ≡ false
unfolding post_read
reader_read_ends memory now later thread buf n ovl routine p h l =
    let r : Port = record p {
      read_thread = thread;
      read_pending = true;
      read_buf = buf;
      read_len = n;
      read_ovl = ovl;
      read_routine = routine;
      read_deadline = (now + 100) % 2 ^ 64;
    } in
    elim (finish_read_pending memory now r) [
      | inl same ↦
          let due : is_waiting later r ≡ false = ground arith in
          rw (same, finish_read_done memory later r refl due)
      | inr idle ↦ rw (finish_read_idle memory later (finish_read memory now r).0 idle) idle
    ]
