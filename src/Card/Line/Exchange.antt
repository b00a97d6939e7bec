-- ===== src/Card/Line/Exchange.antt =====
-- A whole exchange: the game writes a frame, and the reader's answer waits in the pipe.
use systemes3recomp.Prelude.{
  ℕ, ◌+◌, ◌-◌, ◌≤◌, ◌≡◌, refl, sym, ap, ◌∙◌, get_or, ◌*◌, Bool, List, false, ltb, if◌then◌else◌,
  Bytes, [], ◌∷◌, ◌++◌, append-nil, length, take_all, drop, replicate, length-take, min, ◌/◌, zero,
  suc, arith,
}
use systemes3recomp.Jvs.Line.{Effect}
use systemes3recomp.Fifo.{Fifo, fifo_size}
use systemes3recomp.Fifo.Refine.{contents}
use systemes3recomp.Card.{Disk, Port, Reader}
use systemes3recomp.Card.Mifare.{mifare, block}
use systemes3recomp.Card.Chip.{registers, respond, command, send_frame, set_second}
use systemes3recomp.Card.Chip.Wire.{sent_frame, send_frame_refines}
use systemes3recomp.Card.Receive.{consume, consume_from}
use systemes3recomp.Card.Receive.Wire.{frame, IsNoise, consume-frame}
use systemes3recomp.Card.Line.{append_input, write}
use systemes3recomp.Card.Line.Invariant.{IsSound, finish_read_idle}

length-registers : (k i : ℕ) → length (registers k i) ≡ k
unfolding registers
length-registers zero i = refl
length-registers (suc k) i = ap suc (length-registers k (i + 1))

length-block : (image : Bytes) (blk : ℕ) → length (block image blk) ≤ 16
unfolding block
length-block image blk = omega (arith, length-take 16 (drop (blk * 16) image))

length-mifare :
    (always : Bool) (now : ℕ) (opens : Disk) (p : Bytes) (r : Reader)
    → (3 ≤ length (mifare always now opens p r).0) × (length (mifare always now opens p r).0 ≤ 19)
unfolding mifare
length-mifare always now opens p r =
    ground (arith, length-block r.image (if ltb 1 (length p) then get_or p 1 0 else 0))

length-set_second : (v : ℕ) (bs : Bytes) → length (set_second v bs) ≡ length bs
length-set_second v [] = refl
length-set_second v (b ∷ []) = refl
length-set_second v (b ∷ c ∷ cs) = refl

-- Every answer of the reader fits the 64 bytes that command has for it, and none is empty.
pub respond_fits :
    (always : Bool) (now : ℕ) (opens : Disk) (p : Bytes) (r : Reader)
    → (2 ≤ length (respond always now opens p r).0) × (length (respond always now opens p r).0 ≤ 64)
unfolding respond
respond_fits always now opens p r =
    let exchanged = if ltb 3 (length p) then drop 3 p else [] in
    let through = if ltb 2 (length p) then drop 2 p else [] in
    let a = length-mifare always now opens exchanged r in
    let b = length-mifare always now opens through r in
    ground (
      arith,
      a,
      b,
      length-set_second 0x45 (mifare always now opens through r).0,
      length-registers (min ((length p - 2) / 2) 62) 0,
      length-take 4 r.uid,
    )

command_sends :
    (always : Bool) (now : ℕ) (opens : Disk) (p : Bytes) (r : Reader) (f : Fifo)
    → command always now opens p (r, f)
      ≡ ((respond always now opens p r).1, send_frame (respond always now opens p r).0 f)
unfolding command
command_sends always now opens p r f = let fits = respond_fits always now opens p r in ground arith

append_input_empty : (bs : Bytes) → length bs ≤ fifo_size → append_input [] bs ≡ bs
unfolding append_input
append_input_empty bs h =
    let e : (if ltb fifo_size (length bs) then fifo_size else length bs) ≡ length bs =
      ground arith in
    rw e (take_all bs (length bs) (omega arith))

consume_only :
    (always : Bool) (opens : Disk) (now : ℕ) (noise : Bytes) (k : ℕ) (body : Bytes) (dcs post : ℕ)
    (st : Reader × Fifo)
    → IsNoise noise
    → length body ≤ 255
    → consume always now opens (noise ++ (replicate k 0x00 ++ frame body dcs post)) st
      ≡ ([], command always now opens body st)
consume_only always opens now noise k body dcs post st h small =
    ap (λ (l : Bytes). consume always now opens (noise ++ (replicate k 0x00 ++ l)) st)
      (sym (append-nil (frame body dcs post)))
    ∙ consume-frame always now opens noise k body dcs post [] st h small
    ∙ (unfold consume consume_from in refl)

-- es3_card_write, when consume takes everything and no read is pending.
write_all :
    (always : Bool) (opens : Disk) (memory : Bool) (now : ℕ) (bs : Bytes) (p : Port) (r q : Reader)
    (f : Fifo)
    → length bs ≤ fifo_size
    → p.in_bytes ≡ []
    → p.read_pending ≡ false
    → consume always now opens bs (r, p.out) ≡ ([], (q, f))
    → (write always opens memory now bs (p, r)).0 ≡ (record p { in_bytes = []; out = f }, q)
unfolding write
write_all always opens memory now bs p r q f fits nothing idle e =
    rw (nothing, append_input_empty bs fits, e)
      (ap (λ (t : Port × List Effect). (t.0, q))
        (finish_read_idle memory now (record p { in_bytes = []; out = f }) idle))

-- The game writes one frame, behind any wake-up, while no read is posted and nothing unread is left
-- over: the frame is used up, the answer to its command waits in the pipe as a frame, and the card and
-- the reader are as the command leaves them.
pub write_command :
    (always : Bool) (opens : Disk) (memory : Bool) (now : ℕ) (noise : Bytes) (k : ℕ) (body : Bytes)
    (dcs post : ℕ) (p : Port) (r : Reader)
    → IsNoise noise
    → length body ≤ 255
    → length (noise ++ (replicate k 0x00 ++ frame body dcs post)) ≤ fifo_size
    → length (contents p.out) ≤ 4024
    → IsSound p
    → p.in_bytes ≡ []
    → p.read_pending ≡ false
    → let after =
        (write always opens memory now
          (noise ++ (replicate k 0x00 ++ frame body dcs post))
          (p, r)).0 in
      (after.0.in_bytes ≡ [])
      × (contents after.0.out ≡ contents p.out ++ sent_frame (respond always now opens body r).0)
      × (after.1 ≡ (respond always now opens body r).1)
write_command always opens memory now noise k body dcs post p r h small fits room v nothing idle =
    let bs = (respond always now opens body r).0 in
    let e =
      write_all always opens memory now _ p r (respond always now opens body r).1
        (send_frame bs p.out) fits nothing idle
        (consume_only always opens now noise k body dcs post (r, p.out) h small
          ∙ ap {B = Bytes × (Reader × Fifo)} (λ (st : Reader × Fifo). ([], st))
              (command_sends always now opens body r p.out)) in
    let size = (respond_fits always now opens body r).1 in
    rw e (refl, (send_frame_refines bs (omega arith) v.pipe).1, refl)
