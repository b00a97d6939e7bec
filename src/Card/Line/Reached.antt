-- ===== src/Card/Line/Reached.antt =====
-- Every state that the reader and its port reach is valid.
use systemes3recomp.Prelude.{
  ℕ, ◌≡◌, refl, sym, ◌∙◌, subst, inl, inr, ◌⊎◌, Bool, true, false, Option, none, some, Bytes,
  length, arith,
}
use systemes3recomp.Fifo.Refine.{take_out_refines}
use systemes3recomp.ComName.{Wanted}
use systemes3recomp.Card.{Disk, Port, Reader, tap}
use systemes3recomp.Card.Kept
use systemes3recomp.Card.Kept.{load-IsValid}
use systemes3recomp.Card.Image.{load}
use systemes3recomp.Card.Receive.{consume}
use systemes3recomp.Card.Line.{open_port, write, append_input, read, post_read, cancel}
use systemes3recomp.Card.Line.Invariant.{
  IsSound, IsValid, Machine, MachineStep, opened, writes, reads, posts, cancels, ticks, taps,
  MachineReach, start, next, consume_from-Good, finish_read-IsSound, length-append_input,
}

-- es3_card_open changes nothing, or loads the card of a port that was not open.
open_port-cases :
    (off : Bool) (want : Wanted) (hex found : Option Bytes) (opens : Disk) (handle : ℕ)
    (name : Option Bytes) (ready : Bool) (p : Port) (r : Reader)
    → ((open_port off want hex found opens handle name (ready, p, r)).1 ≡ (ready, p, r))
      ⊎ ((ready ≡ false)
          × ((open_port off want hex found opens handle name (ready, p, r)).1
              ≡ (true, record p { handle = handle }, load hex found opens r)))
unfolding open_port
open_port-cases off want hex found opens handle none ready p r = inl refl
open_port-cases off want hex found opens handle (some name) ready p r = ground arith

write-IsValid :
    (always : Bool) (opens : Disk) (memory : Bool) (now : ℕ) (bs : Bytes) (p : Port) (r : Reader)
    → IsSound p
    → Kept.IsValid r
    → IsSound (write always opens memory now bs (p, r)).0.0
      × Kept.IsValid (write always opens memory now bs (p, r)).0.1
unfolding write consume
write-IsValid always opens memory now bs p r v w =
    let l = append_input p.in_bytes bs in
    let good = consume_from-Good always now opens (length l) l (r, p.out) (w, v.pipe) in
    let short = length-append_input p.in_bytes bs v.room in
    (
      finish_read-IsSound memory now (record { pipe = good.0.1; room = omega (arith, good.1) }),
      good.0.0,
    )

MachineStep-IsValid : {m n : Machine} → MachineStep m n → IsValid m → IsValid n
MachineStep-IsValid {m} (opened off want hex found opens handle name ready p r f e) v =
    elim (open_port-cases off want hex found opens handle name m.ready m.port m.reader) [
      | inl same ↦
          subst
            (λ (t : Bool × Port × Reader).
              IsValid (record { ready = t.0; port = t.1; reader = t.2 }))
            (sym same ∙ e) (record { sound = v.sound; uid_four = v.uid_four; card = v.card })
      | inr (closed, loaded) ↦
          subst
            (λ (t : Bool × Port × Reader).
              IsValid (record { ready = t.0; port = t.1; reader = t.2 }))
            (sym loaded ∙ e)
            (record {
              sound = record { pipe = v.sound.pipe; room = v.sound.room };
              uid_four = λ h. cc;
              card = λ _. load-IsValid hex opens m.reader found (v.uid_four closed) f;
            })
    ]
MachineStep-IsValid {m} (writes always opens memory now bs h) v =
    let after = write-IsValid always opens memory now bs m.port m.reader v.sound (v.card h) in
    record { sound = after.0; uid_four = λ k. cc; card = λ _. after.1 }
MachineStep-IsValid {m} (reads n) v =
    unfold read in
    record {
      sound = record { pipe = (take_out_refines n v.sound.pipe).2; room = v.sound.room };
      uid_four = v.uid_four;
      card = v.card;
    }
MachineStep-IsValid {m} (posts memory now thread buf n ovl routine) v =
    unfold post_read in
    record {
      sound = finish_read-IsSound memory now (record { pipe = v.sound.pipe; room = v.sound.room });
      uid_four = v.uid_four;
      card = v.card;
    }
MachineStep-IsValid {m} cancels v =
    unfold cancel in
    record {
      sound = record { pipe = v.sound.pipe; room = v.sound.room };
      uid_four = v.uid_four;
      card = v.card;
    }
MachineStep-IsValid {m} (ticks memory now) v = record {
  sound = finish_read-IsSound memory now v.sound;
  uid_four = v.uid_four;
  card = v.card;
}
MachineStep-IsValid {m} (taps now) v =
    unfold tap in
    record {
      sound = v.sound;
      uid_four = v.uid_four;
      card = λ h. record {
        whole = (v.card h).whole;
        uid_kept = (v.card h).uid_kept;
        saved = (v.card h).saved;
      };
    }

-- Whatever is written, read, posted and tapped in whatever order, the pipe's indices stay inside it
-- and at most 4096 unread bytes wait, and once the port is open the card has 1024 bytes, of which the
-- first four are the UID that the reader reports, and, unless the card is marked as not saved, the file
-- holds its bytes as far as the file reaches.
pub MachineReach-IsValid : {file : Bytes} {m : Machine} → MachineReach file m → IsValid m
MachineReach-IsValid start = record { sound = omega arith; uid_four = λ _. refl; card = λ h. cc }
MachineReach-IsValid (next r st) = MachineStep-IsValid st (MachineReach-IsValid r)
