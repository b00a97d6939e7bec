-- ===== src/Jvs/Line/Exchange.antt =====
-- A whole exchange: the game writes a packet of requests, and the reply waits in the pipe.
use systemes3recomp.Prelude.{
  ℕ, ◌+◌, ◌*◌, ◌≤◌, ◌≡◌, refl, sym, ap, ◌∙◌, ap₂, Bool, some, Bytes, List, [], ◌∷◌, ◌++◌,
  append-nil, append_assoc, length, length-append, get_or, get_or-append_right, take, All, IsByte,
  arith,
}
use systemes3recomp.Fifo.{fifo_size}
use systemes3recomp.Fifo.Refine.{contents}
use systemes3recomp.Jvs.{Port, Switches, coin_slots}
use systemes3recomp.Jvs.Frame.{reply}
use systemes3recomp.Jvs.Frame.Wire.{
  escape_byte, escaped, check_sum, packet_body, frame, reply_refines,
}
use systemes3recomp.Jvs.Command.{answered, answer}
use systemes3recomp.Jvs.Command.Request.{
  Request, read_coins, set_address, encode_all, report, reports, effect, effects, IsRequest,
}
use systemes3recomp.Jvs.Command.Refine.{StandsAt}
use systemes3recomp.Jvs.Command.Answers.{IsOurs, answer_refines}
use systemes3recomp.Jvs.Receive.{consumed, find_sync, consume, consume_input}
use systemes3recomp.Jvs.Receive.Packets.{data_of, consume_input-frame}
use systemes3recomp.Jvs.Receive.Rounds.{resume}
use systemes3recomp.Jvs.Line.{append_input, write, finish_read}
use systemes3recomp.Jvs.Line.Kept.{IsValid, handle_packet_answered}

-- The payload of a packet is what its data holds.
stands :
    (pre xs post : Bytes) (d stale : ℕ → ℕ) (i : ℕ)
    → ((j : ℕ) → d j ≡ get_or (pre ++ (xs ++ post)) (j + 2) (stale (j + 2)))
    → i + 2 ≡ length pre
    → StandsAt d i xs
stands pre [] post d stale i h e = tt
stands pre (x ∷ xs) post d stale i h e =
    let here : i + 2 ≡ length pre + 0 = omega arith in
    (
      h i
          ∙ ap (λ k. get_or (pre ++ (x ∷ (xs ++ post))) k (stale (i + 2))) here
          ∙ get_or-append_right pre (x ∷ (xs ++ post)) 0 (stale (i + 2)),
      stands (pre ++ (x ∷ [])) xs post d stale (i + 1)
          (λ j.
            h j
            ∙ ap (λ l. get_or l (j + 2) (stale (j + 2)))
                (sym (append_assoc pre (x ∷ []) (xs ++ post))))
          (omega (arith, length-append pre (x ∷ []))),
    )

data_of-StandsAt :
    (stale : ℕ → ℕ) (dest : ℕ) (payload : Bytes) (sum : ℕ)
    → StandsAt (data_of stale dest payload sum) 0 payload
data_of-StandsAt stale dest payload sum =
    stands (dest ∷ (length payload + 1) ∷ []) payload (sum ∷ []) (data_of stale dest payload sum)
      stale 0 (λ j. refl) (omega arith)

-- Requests do not look at the unread input, and leave it and the pipe alone.
report-in_bytes :
    (s : Switches) (p : Port) (i : Bytes) (r : Request)
    → report s (record p { in_bytes = i }) r ≡ report s p r
report-in_bytes s p i (read_coins k) = refl
report-in_bytes s p i _ = refl

effect-in_bytes :
    (p : Port) (i : Bytes) (r : Request)
    → effect (record p { in_bytes = i }) r ≡ record (effect p r) { in_bytes = i }
effect-in_bytes p i (set_address a) = refl
effect-in_bytes p i _ = refl

reports-in_bytes :
    (s : Switches) (p : Port) (i : Bytes) (rs : List Request)
    → reports s (record p { in_bytes = i }) rs ≡ reports s p rs
reports-in_bytes s p i [] = refl
reports-in_bytes s p i (r ∷ rs) =
    ap₂ ◌++◌ (report-in_bytes s p i r)
      (ap (λ q. reports s q rs) (effect-in_bytes p i r) ∙ reports-in_bytes s (effect p r) i rs)

effects-in_bytes :
    (p : Port) (i : Bytes) (rs : List Request)
    → effects (record p { in_bytes = i }) rs ≡ record (effects p rs) { in_bytes = i }
effects-in_bytes p i [] = refl
effects-in_bytes p i (r ∷ rs) =
    ap (λ q. effects q rs) (effect-in_bytes p i r) ∙ effects-in_bytes (effect p r) i rs

effect-out : (p : Port) (r : Request) → (effect p r).out ≡ p.out
effect-out p (set_address a) = refl
effect-out p _ = refl

effects-out : (p : Port) (rs : List Request) → (effects p rs).out ≡ p.out
effects-out p [] = refl
effects-out p (r ∷ rs) = effects-out (effect p r) rs ∙ effect-out p r

-- A frame fits into the input.
length-escaped_le : (bs : Bytes) → length (escaped bs) ≤ 2 * length bs
length-escaped_le [] = omega arith
length-escaped_le (b ∷ bs) =
    omega (arith, length-append (escape_byte b) (escaped bs), byte b, length-escaped_le bs)
  where
    byte : (c : ℕ) → length (escape_byte c) ≤ 2
    byte c = unfold escape_byte in ground arith

length-frame :
    (dest : ℕ) (payload : Bytes) → length payload ≤ 253 → length (frame dest payload) ≤ 1000
length-frame dest payload h = omega (
  arith,
  length-escaped_le (packet_body dest payload),
  length-append (dest ∷ (length payload + 1) ∷ payload) (check_sum dest payload ∷ []),
)

take_all : (bs : Bytes) → take (length bs) bs ≡ bs
take_all [] = refl
take_all (b ∷ bs) = ap (◌∷◌ b) (take_all bs)

append_input-fits :
    (bs : Bytes) (p : Port)
    → p.in_bytes ≡ []
    → length bs ≤ fifo_size
    → append_input bs p ≡ record p { in_bytes = bs }
unfolding append_input
append_input-fits bs p e h = ground (arith, take_all bs)

consume_input-nil :
    (stale : ℕ → ℕ) (s : Switches) (p : Port)
    → consume_input stale s (record p { in_bytes = [] }) ≡ consumed (record p { in_bytes = [] })
unfolding consume_input consume find_sync
consume_input-nil stale s p = refl

reply-in_bytes :
    (body i : Bytes) (p : Port)
    → record (reply body (record p { in_bytes = i })) { in_bytes = [] }
      ≡ record (reply body p) { in_bytes = [] }
unfolding reply
reply-in_bytes body i p = ground arith

write_consumed :
    (stale : ℕ → ℕ) (s : Switches) (memory : Bool) (now : ℕ) (bs : Bytes) (p q : Port)
    → consume_input stale s (append_input bs p) ≡ consumed q
    → write stale s memory now bs p ≡ some (finish_read memory now q)
unfolding write
write_consumed stale s memory now bs p q e = ground arith

module _ (stale : ℕ → ℕ) (s : Switches) (dest : ℕ) (rs : List Request) (p : Port) where
  abbrev sent : Bytes
  sent = frame dest (encode_all rs)

  abbrev body : Bytes
  body = 0x01 ∷ reports s p rs

  -- The port when the packet is handled.
  abbrev handled : Port
  handled = record p { in_bytes = sent ++ [] }

  request_answered :
      IsOurs dest p
      → All IsRequest rs
      → length p.coin ≡ coin_slots
      → length (reports s p rs) ≤ 175
      → answer s dest
          (data_of stale dest (encode_all rs) (check_sum dest (encode_all rs)))
          (length (encode_all rs))
          handled
        ≡ answered body (record (effects p rs) { in_bytes = sent ++ [] })
  request_answered ours ok c room =
      answer_refines s dest (length (encode_all rs)) _ handled rs ours ok c
        (data_of-StandsAt stale dest (encode_all rs) (check_sum dest (encode_all rs))) refl
        (rw (reports-in_bytes s p (sent ++ []) rs) room)
      ∙ ap₂ (λ b q. answered (0x01 ∷ b) q) (reports-in_bytes s p (sent ++ []) rs)
          (effects-in_bytes p (sent ++ []) rs)

  request_consumed :
      IsOurs dest p
      → All IsRequest rs
      → length p.coin ≡ coin_slots
      → length (reports s p rs) ≤ 175
      → IsByte dest
      → All IsByte (encode_all rs)
      → length (encode_all rs) ≤ 253
      → consume_input stale s (record p { in_bytes = sent })
        ≡ consumed (record (reply body (effects p rs)) { in_bytes = [] })
  request_consumed ours ok c room db pb small =
      consume_input-frame stale s dest (encode_all rs) [] [] (record p { in_bytes = sent }) tt db pb
        small (sym (append-nil sent))
      ∙ ap (resume (consume_input stale s) [])
          (handle_packet_answered s dest _ _ handled (request_answered ours ok c room))
      ∙ consume_input-nil stale s (reply body (record (effects p rs) { in_bytes = sent ++ [] }))
      ∙ ap consumed (reply-in_bytes body (sent ++ []) (effects p rs))

-- A game that writes a packet of well-formed requests for this node to a board with nothing unread
-- finds, behind what waited in the pipe already, one frame to the master with status 1 and the
-- reports in order; the packet is used up, a posted read is served, and the board has changed just as
-- the requests ask. The packet has at most 253 bytes, its reports at most 175, and the pipe room.
pub write_requests :
    (stale : ℕ → ℕ) (s : Switches) (memory : Bool) (now dest : ℕ) (rs : List Request) (p : Port)
    → IsValid p
    → p.in_bytes ≡ []
    → IsOurs dest p
    → All IsRequest rs
    → IsByte dest
    → All IsByte (encode_all rs)
    → length (encode_all rs) ≤ 253
    → length (reports s p rs) ≤ 175
    → length (contents p.out) + length (frame 0 (0x01 ∷ reports s p rs)) ≤ 4095
    → (q : Port) × (write stale s memory now (frame dest (encode_all rs)) p
        ≡ some (finish_read memory now q))
      × (contents q.out ≡ contents p.out ++ frame 0 (0x01 ∷ reports s p rs))
      × (q ≡ record (effects p rs) { out = q.out; in_bytes = [] })
write_requests stale s memory now dest rs p v e ours ok db pb small room pipe =
    let r = effects p rs in
    let out : r.out ≡ p.out = effects-out p rs in
    let report_frame : Bytes = 0x01 ∷ reports s p rs in
    let replied = reply_refines report_frame r (omega arith) (rw out pipe) (rw out v.pipe) in
    (
      record (reply report_frame r) { in_bytes = [] },
      write_consumed stale s memory now (frame dest (encode_all rs)) p _ (
          ap (consume_input stale s) (
            append_input-fits (frame dest (encode_all rs)) p e
              (omega (arith, length-frame dest (encode_all rs) small)))
          ∙ request_consumed stale s dest rs p ours ok v.slots room db pb small),
      replied.1 ∙ ap (λ o. contents o ++ frame 0 report_frame) out,
      ap (λ (x : Port). record x { in_bytes = [] }) replied.2,
    )
