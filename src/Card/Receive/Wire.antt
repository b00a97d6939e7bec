-- ===== src/Card/Receive/Wire.antt =====
-- What consume does with the frames that the game writes.
use systemes3recomp.Prelude.{
  ℕ, zero, suc, ◌+◌, ◌-◌, ◌%◌, ◌≤◌, ◌<◌, ◌≡◌, ◌≢◌, refl, ap, ◌∙◌, Bool, Bytes, [], ◌∷◌, ◌++◌,
  append_assoc, length, length-append, length-take, take, drop, take-append, drop-append, replicate,
  All, arith,
}
use systemes3recomp.Fifo.{Fifo}
use systemes3recomp.Card.{Disk, Reader}
use systemes3recomp.Card.Chip.{command}
use systemes3recomp.Card.Receive.{stop, skip, run, round, consume}
use systemes3recomp.Card.Receive.Frames.{consume-round}

-- A PN53x frame around `body`, with any data checksum and postamble: the reader looks at neither.
abbrev pub frame : Bytes → ℕ → ℕ → Bytes
frame body dcs post =
    0x00 ∷ 0x00 ∷ 0xFF ∷ length body ∷ ((0x100 - length body) % 256) ∷ (body ++ (dcs ∷ post ∷ []))

-- No 0 among these bytes.
abbrev pub IsNoise : Bytes → Type 0
IsNoise = All (λ b. b ≢ 0)

abbrev pub ack : Bytes
ack = 0x00 ∷ 0x00 ∷ 0xFF ∷ 0x00 ∷ 0xFF ∷ 0x00 ∷ []

abbrev pub nack : Bytes
nack = 0x00 ∷ 0x00 ∷ 0xFF ∷ 0xFF ∷ 0x00 ∷ 0x00 ∷ []

round-frame :
    (body rest : Bytes) (dcs post : ℕ)
    → length body ≤ 255
    → round (frame body dcs post ++ rest) ≡ run body (5 + length body + 2)
unfolding round
round-frame body rest dcs post h =
    let tail = (dcs ∷ post ∷ []) ++ rest in
    let body_of : take (length body) ((body ++ (dcs ∷ post ∷ [])) ++ rest) ≡ body =
      rw append_assoc (take-append body tail) in
    ground (
      arith,
      body_of,
      length-append (body ++ (dcs ∷ post ∷ [])) rest,
      length-append body (dcs ∷ post ∷ []),
    )

round-part :
    (body : Bytes) (dcs post n : ℕ)
    → length body ≤ 255
    → n < 7 + length body
    → round (take n (frame body dcs post)) ≡ stop
unfolding round
round-part body dcs post zero h l = refl
round-part body dcs post (suc zero) h l = refl
round-part body dcs post (suc (suc zero)) h l = refl
round-part body dcs post (suc (suc (suc zero))) h l = refl
round-part body dcs post (suc (suc (suc (suc zero)))) h l = refl
round-part body dcs post (suc (suc (suc (suc (suc m))))) h l =
    ground (arith, length-take m (body ++ (dcs ∷ post ∷ [])))

round-noise : (b : ℕ) (l : Bytes) → b ≢ 0 → 4 ≤ length l → round (b ∷ l) ≡ skip 1
unfolding round
round-noise b l h n = ground arith

round-zero : (b : ℕ) (l : Bytes) → b ≢ 0xFF → 2 ≤ length l → round (0x00 ∷ 0x00 ∷ b ∷ l) ≡ skip 1
unfolding round
round-zero b l h n = ground arith

round-ack : (l : Bytes) → round (ack ++ l) ≡ skip 6
unfolding round
round-ack l = ground arith

round-nack : (l : Bytes) → round (nack ++ l) ≡ skip 6
unfolding round
round-nack l = ground arith

-- What is behind a frame.
behind :
    (body rest : Bytes) (dcs post : ℕ)
    → drop (5 + length body + 2) (frame body dcs post ++ rest) ≡ rest
behind body rest dcs post =
    let e : 5 + length body + 2 ≡ length (frame body dcs post) =
      omega (arith, length-append body (dcs ∷ post ∷ [])) in
    ap (λ n. drop n (frame body dcs post ++ rest)) e ∙ drop-append (frame body dcs post) rest

module _ (always : Bool) (now : ℕ) (opens : Disk) where
  consume-noise :
      (noise l : Bytes) (st : Reader × Fifo)
      → IsNoise noise
      → 4 ≤ length l
      → consume always now opens (noise ++ l) st ≡ consume always now opens l st
  consume-noise [] l st h n = refl
  consume-noise (b ∷ bs) l st h n =
      consume-round always now opens (b ∷ (bs ++ l)) st (skip 1)
        (round-noise b (bs ++ l) h.0 (omega (arith, length-append bs l)))
      ∙ consume-noise bs l st h.1 n

  -- The zeros of a long preamble.
  consume-zeros :
      (k : ℕ) (l : Bytes) (st : Reader × Fifo)
      → 2 ≤ length l
      → consume always now opens (replicate k 0x00 ++ (0x00 ∷ 0x00 ∷ 0xFF ∷ l)) st
        ≡ consume always now opens (0x00 ∷ 0x00 ∷ 0xFF ∷ l) st
  consume-zeros zero l st h = refl
  consume-zeros (suc zero) l st h =
      consume-round always now opens _ st (skip 1)
        (round-zero 0x00 (0xFF ∷ l) (omega arith) (omega arith))
  consume-zeros (suc (suc zero)) l st h =
      consume-round always now opens _ st (skip 1)
        (round-zero 0x00 (0x00 ∷ 0xFF ∷ l) (omega arith) (omega arith))
      ∙ consume-zeros (suc zero) l st h
  consume-zeros (suc (suc (suc k))) l st h =
      consume-round always now opens _ st (skip 1) (
        round-zero 0x00 (replicate k 0x00 ++ (0x00 ∷ 0x00 ∷ 0xFF ∷ l)) (omega arith)
          (omega (arith, length-append (replicate k 0x00) (0x00 ∷ 0x00 ∷ 0xFF ∷ l))))
      ∙ consume-zeros (suc (suc k)) l st h

  -- An ACK in front of other bytes is skipped, and so is a NACK.
  consume-ack :
      (rest : Bytes) (st : Reader × Fifo)
      → (consume always now opens (ack ++ rest) st ≡ consume always now opens rest st)
        × (consume always now opens (nack ++ rest) st ≡ consume always now opens rest st)
  consume-ack rest st = (
    consume-round always now opens (ack ++ rest) st (skip 6) (round-ack rest),
    consume-round always now opens (nack ++ rest) st (skip 6) (round-nack rest),
  )

  -- Behind a wake-up of bytes that are not 0, and any number of zeros, a frame of at most 255 bytes is
  -- taken out and run as a command, whatever its data checksum and its postamble are, and consume
  -- goes on behind it.
  pub consume-frame :
      (noise : Bytes) (k : ℕ) (body : Bytes) (dcs post : ℕ) (rest : Bytes) (st : Reader × Fifo)
      → IsNoise noise
      → length body ≤ 255
      → consume always now opens (noise ++ (replicate k 0x00 ++ (frame body dcs post ++ rest))) st
        ≡ consume always now opens rest (command always now opens body st)
  consume-frame noise k body dcs post rest st h small =
      let more = length-append (body ++ (dcs ∷ post ∷ [])) rest in
      consume-noise noise _ st h
        (omega (arith, length-append (replicate k 0x00) (frame body dcs post ++ rest)))
      ∙ consume-zeros k _ st (omega arith)
      ∙ consume-round always now opens (frame body dcs post ++ rest) st _
          (round-frame body rest dcs post small)
      ∙ ap (λ l. consume always now opens l (command always now opens body st))
          (behind body rest dcs post)

  -- Any beginning of such a frame waits in the buffer, and nothing happens.
  pub consume_part :
      (body : Bytes) (dcs post n : ℕ) (st : Reader × Fifo)
      → length body ≤ 255
      → n < 7 + length body
      → consume always now opens (take n (frame body dcs post)) st
        ≡ (take n (frame body dcs post), st)
  consume_part body dcs post n st h l =
      consume-round always now opens (take n (frame body dcs post)) st stop
        (round-part body dcs post n h l)
