-- ===== src/Jvs/Line/Reads.antt =====
-- How a posted read comes back.
use systemes3recomp.Prelude.{
  ℕ, ◌+◌, ◌^◌, ◌≤◌, ◌<◌, ◌≡◌, refl, ap, ◌⊎◌, inl, inr, Bool, true, false, [], length, take, drop,
  arith,
}
use systemes3recomp.Fifo.Refine.{contents, length-contents, take_out_refines}
use systemes3recomp.Jvs.{Port}
use systemes3recomp.Jvs.Line.{read_deadline_for, is_expired, completion, finish_read, post_read}
use systemes3recomp.Jvs.Line.Invariant.{
  is_waiting, finish_read_idle, finish_read_waits, finish_read_done,
}
use systemes3recomp.Jvs.Line.Kept.{IsValid}

module _ (memory : Bool) (now : ℕ) where
  -- A pending read that has enough bytes, or whose time is up, takes the oldest bytes, at most as
  -- many as it asked for, leaves the others, and completes with just these bytes.
  pub finish_read_delivers :
      (p : Port)
      → IsValid p
      → p.read_pending ≡ true
      → (p.read_len ≤ length (contents p.out)) ⊎ (is_expired now p ≡ true)
      → ((finish_read memory now p).0.read_pending ≡ false)
        × (contents (finish_read memory now p).0.out ≡ drop p.read_len (contents p.out))
        × ((finish_read memory now p).1 ≡ completion memory p (take p.read_len (contents p.out)))
  finish_read_delivers p v pending ready =
      let go : is_waiting now p ≡ false = ground (arith, length-contents p.out) in
      let taken = take_out_refines p.read_len v.pipe in
      rw (finish_read_done memory now p pending go)
        (refl, taken.1, ap (completion memory p) taken.0)

  -- Any other read changes nothing: none is pending, or it waits on.
  pub finish_read_waits_on :
      (p : Port)
      → (p.read_pending ≡ false)
        ⊎ ((length (contents p.out) < p.read_len) × (is_expired now p ≡ false))
      → finish_read memory now p ≡ (p, [])
  finish_read_waits_on p (inl idle) = finish_read_idle memory now p idle
  finish_read_waits_on p (inr (few, early)) =
      finish_read_waits memory now p (ground (arith, length-contents p.out))

-- A deadline is never 0, the mark of a read that waits for ever, and is at most 2 ^ 32 away.
read_deadline_for_bounds :
    (now : ℕ) (p : Port) (n : ℕ)
    → now < 2 ^ 63
    → (0 < read_deadline_for now p n) × (read_deadline_for now p n ≤ now + 2 ^ 32)
unfolding read_deadline_for
read_deadline_for_bounds now p n h = ground arith

finish_read_pending :
    (memory : Bool) (now : ℕ) (p : Port)
    → ((finish_read memory now p).0 ≡ p) ⊎ ((finish_read memory now p).0.read_pending ≡ false)
unfolding finish_read
finish_read_pending memory now p = ground arith

-- What post_read leaves pending.
abbrev posted : ℕ → ℕ → ℕ → ℕ → ℕ → ℕ → Port → Port
posted now thread buf n ovl routine p = record p {
  read_thread = thread;
  read_pending = true;
  read_deadline = read_deadline_for now p n;
  read_buf = buf;
  read_len = n;
  read_ovl = ovl;
  read_routine = routine;
}

-- Whatever the timeouts of the game are, a read posted at `now` is over as soon as the ticker runs
-- `finish_read` 2 ^ 32 ms later, with or without bytes: no read waits for ever. The clock is below
-- 2 ^ 63 ms.
pub posted_read_ends :
    (memory : Bool) (now later thread buf n ovl routine : ℕ) (p : Port)
    → now < 2 ^ 63
    → now + 2 ^ 32 ≤ later
    → (finish_read memory later (post_read memory now thread buf n ovl routine p).0).0.read_pending
      ≡ false
unfolding post_read
posted_read_ends memory now later thread buf n ovl routine p h l =
    let r = posted now thread buf n ovl routine p in
    let bounds = read_deadline_for_bounds now p n h in
    elim (finish_read_pending memory now r) [
      | inl same ↦
          let due : is_waiting later r ≡ false = unfold is_expired in ground arith in
          rw (same, finish_read_done memory later r refl due)
      | inr idle ↦ rw (finish_read_idle memory later (finish_read memory now r).0 idle) idle
    ]
