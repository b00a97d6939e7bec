-- ===== src/Card/Chip/Wire.antt =====
-- What the reader's answers look like on the wire.
use systemes3recomp.Prelude.{
  ◌+◌, ◌-◌, ◌%◌, ◌≤◌, ◌≡◌, refl, sym, ap, ◌∙◌, Bytes, [], ◌∷◌, ◌++◌, append_assoc, append-nil,
  length, length-append, total, lt→ltb, arith,
}
use systemes3recomp.Fifo
use systemes3recomp.Fifo.{Fifo, IsValid}
use systemes3recomp.Fifo.Refine.{contents, push_refines, push-IsValid}
use systemes3recomp.Card.Chip.{push_all, send_frame}

-- A frame from the reader: preamble, start code, length and its complement, body, checksum, postamble.
abbrev pub sent_frame : Bytes → Bytes
sent_frame body =
    0x00
    ∷ 0x00
    ∷ 0xFF
    ∷ (length body % 256)
    ∷ ((0x100 - length body) % 256)
    ∷ (body ++ (((0x100 - total body % 256) % 256) ∷ 0x00 ∷ []))

push_all_refines :
    (xs : Bytes) {f : Fifo}
    → length (contents f) + length xs ≤ 4095
    → IsValid f
    → IsValid (push_all f xs) × (contents (push_all f xs) ≡ contents f ++ xs)
unfolding push_all
push_all_refines [] room v = (v, sym (append-nil _))
push_all_refines (x ∷ xs) {f} room v =
    let once : contents (Fifo.push f x) ≡ contents f ++ (x ∷ []) =
      push_refines x v ∙ rw (lt→ltb (length (contents f)) 4095 (omega arith)) refl in
    let size = ap length once ∙ length-append (contents f) (x ∷ []) in
    let rest = push_all_refines xs {f = Fifo.push f x} (omega arith) (push-IsValid x v) in
    (rest.0, rest.1 ∙ rw (once, append_assoc) refl)

push_all-append : (f : Fifo) (xs ys : Bytes) → push_all f (xs ++ ys) ≡ push_all (push_all f xs) ys
unfolding push_all
push_all-append f [] ys = refl
push_all-append f (x ∷ xs) ys = push_all-append (Fifo.push f x) xs ys

send_frame-push_all : (body : Bytes) (f : Fifo) → send_frame body f ≡ push_all f (sent_frame body)
unfolding send_frame push_all
send_frame-push_all body f = sym (
    push_all-append
      (push_all f (0x00 ∷ 0x00 ∷ 0xFF ∷ (length body % 256) ∷ ((0x100 - length body) % 256) ∷ []))
      body _)

pub length-sent_frame : (body : Bytes) → length (sent_frame body) ≡ length body + 7
length-sent_frame body =
    omega (arith, length-append body (((0x100 - total body % 256) % 256) ∷ 0x00 ∷ []))

-- send_frame appends to the pipe just the frame of its body, if there is room for it.
pub send_frame_refines :
    (body : Bytes) {f : Fifo}
    → length (contents f) + length body + 7 ≤ 4095
    → IsValid f
    → IsValid (send_frame body f) × (contents (send_frame body f) ≡ contents f ++ sent_frame body)
send_frame_refines body {f} room v =
    rw (send_frame-push_all body f)
      (push_all_refines (sent_frame body) (omega (arith, length-sent_frame body)) v)
