-- ===== src/Jvs/Receive/Packets.antt =====
-- What consume_input does with the packets that the game writes.
use systemes3recomp.Prelude.{
  ℕ, suc, ◌+◌, ◌-◌, ◌%◌, ◌≤◌, ◌<◌, ◌≡◌, ◌≢◌, refl, sym, ap, ◌∙◌, false, ltb, Bytes, [], ◌∷◌, ◌++◌,
  length, length-append, get_or, get_or-append_right, take, take-append, total, All, IsByte, arith,
}
use systemes3recomp.Jvs.{Port, Switches, sync}
use systemes3recomp.Jvs.Frame.{reply}
use systemes3recomp.Jvs.Frame.Wire.{escape_byte, escaped, signed, check_sum, packet_body, frame}
use systemes3recomp.Jvs.Command.{answered, handle_packet}
use systemes3recomp.Jvs.Receive.{whole, scan, find_sync, after_sync, packet, consume, consume_input}
use systemes3recomp.Jvs.Receive.Scanning.{scan-signed}
use systemes3recomp.Jvs.Receive.Rounds.{resume, resume_cong, consume_whole, consume_fuel}

-- No SYNC among these bytes.
abbrev pub IsNoise : Bytes → Type 0
IsNoise = All (λ b. b ≢ sync)

find_sync-noise :
    (noise rest : Bytes) → IsNoise noise → find_sync (noise ++ (sync ∷ rest)) ≡ sync ∷ rest
unfolding find_sync
find_sync-noise [] rest h = refl
find_sync-noise (b ∷ bs) rest h = ground (arith, find_sync-noise bs rest h.1)

length-escape_byte : (b : ℕ) → 0 < length (escape_byte b)
unfolding escape_byte
length-escape_byte b = ground arith

length-escaped : (bs : Bytes) → length bs ≤ length (escaped bs)
length-escaped [] = omega arith
length-escaped (b ∷ bs) =
    omega
      (arith, length-append (escape_byte b) (escaped bs), length-escape_byte b, length-escaped bs)

-- The memory that handle_packet reads: the packet behind its size, then the rest of `body`.
abbrev pub data_of : (ℕ → ℕ) → ℕ → Bytes → ℕ → ℕ → ℕ
data_of stale dest payload sum i = get_or (signed dest payload sum) (i + 2) (stale (i + 2))

-- The sum that is found, and the sum that is expected.
packet_sums :
    (dest : ℕ) (payload : Bytes) (sum d : ℕ)
    → (total (take (length payload + 1 + 1) (signed dest payload sum)) % 256
        ≡ check_sum dest payload)
      × (get_or (signed dest payload sum) (length payload + 1 + 1) d ≡ sum)
packet_sums dest payload sum d =
    let front : Bytes = dest ∷ (length payload + 1) ∷ payload in
    let e : length payload + 1 + 1 ≡ length front = omega arith in
    let e' : length payload + 1 + 1 ≡ length front + 0 = omega arith in
    (
      ap (λ k. total (take k (front ++ (sum ∷ []))) % 256) e
          ∙ ap (λ l. total l % 256) (take-append front (sum ∷ []))
          ∙ ap (λ k. k % 256) (omega arith),
      ap (λ k. get_or (front ++ (sum ∷ [])) k d) e' ∙ get_or-append_right front (sum ∷ []) 0 d,
    )

reply_three :
    (found rest : Bytes) (p : Port)
    → record (reply (0x03 ∷ []) (record p { in_bytes = found })) { in_bytes = rest }
      ≡ record (reply (0x03 ∷ []) p) { in_bytes = rest }
unfolding reply
reply_three found rest p = refl

module _ (stale : ℕ → ℕ) (s : Switches) where
  packet_equal :
      (body : Bytes) (size a b : ℕ) (p : Port)
      → total (take (size + 1) body) % 256 ≡ a
      → get_or body (size + 1) (stale (size + 1)) ≡ b
      → a ≡ b
      → packet stale s body size p
        ≡ handle_packet s
            (get_or body 0 (stale 0))
            (λ i. get_or body (i + 2) (stale (i + 2)))
            (size - 1)
            p
  unfolding packet
  packet_equal body size a b p h k e = ground arith

  packet_differs :
      (body : Bytes) (size a b : ℕ) (p : Port)
      → total (take (size + 1) body) % 256 ≡ a
      → get_or body (size + 1) (stale (size + 1)) ≡ b
      → a ≢ b
      → packet stale s body size p ≡ answered (0x03 ∷ []) (reply (0x03 ∷ []) p)
  unfolding packet
  packet_differs body size a b p h k e = ground arith

  packet_right :
      (dest : ℕ) (payload : Bytes) (p : Port)
      → packet stale s (packet_body dest payload) (length payload + 1) p
        ≡ handle_packet s dest
            (data_of stale dest payload (check_sum dest payload))
            (length payload)
            p
  packet_right dest payload p =
      let sums =
        packet_sums dest payload (check_sum dest payload) (stale (length payload + 1 + 1)) in
      let e : length payload + 1 - 1 ≡ length payload = omega arith in
      packet_equal (packet_body dest payload) (length payload + 1) _ _ p sums.0 sums.1 refl
      ∙ ap (λ n. handle_packet s dest (data_of stale dest payload (check_sum dest payload)) n p) e

  packet_wrong :
      (dest : ℕ) (payload : Bytes) (sum : ℕ) (p : Port)
      → sum ≢ check_sum dest payload
      → packet stale s (signed dest payload sum) (length payload + 1) p
        ≡ answered (0x03 ∷ []) (reply (0x03 ∷ []) p)
  packet_wrong dest payload sum p h =
      let sums = packet_sums dest payload sum (stale (length payload + 1 + 1)) in
      packet_differs (signed dest payload sum) (length payload + 1) _ _ p sums.0 sums.1
        (λ e. h (sym e))

  -- One packet behind noise, whatever its sum.
  consume_signed :
      (dest : ℕ) (payload : Bytes) (sum : ℕ) (noise rest : Bytes) (p : Port)
      → IsNoise noise
      → IsByte dest
      → All IsByte payload
      → IsByte sum
      → length payload ≤ 253
      → p.in_bytes ≡ noise ++ (sync ∷ (escaped (signed dest payload sum) ++ rest))
      → consume_input stale s p
        ≡ resume (consume_input stale s) rest (
            packet stale s
              (signed dest payload sum)
              (length payload + 1)
              (record p { in_bytes = sync ∷ (escaped (signed dest payload sum) ++ rest) }))
  unfolding consume_input
  consume_signed dest payload sum noise rest p quiet db pb sb small e =
      let tail : Bytes = escaped (signed dest payload sum) ++ rest in
      let found : find_sync p.in_bytes ≡ sync ∷ tail =
        ap find_sync e ∙ find_sync-noise noise tail quiet in
      let long : 2 ≤ length tail = omega (
        arith,
        length-append (escaped (signed dest payload sum)) rest,
        length-escaped (signed dest payload sum),
        length-append (dest ∷ (length payload + 1) ∷ payload) (sum ∷ []),
      ) in
      let size : length p.in_bytes ≡ length noise + suc (length tail) =
        ap length e ∙ length-append noise (sync ∷ tail) in
      let enough : ltb (length (find_sync p.in_bytes)) 3 ≡ false = rw found (ground arith) in
      let scanned : scan (after_sync (find_sync p.in_bytes)) [] 0
          ≡ whole (signed dest payload sum) (length payload + 1) rest =
        rw found (scan-signed dest payload sum rest db pb sb small) in
      consume_whole stale s (length p.in_bytes) p (signed dest payload sum) rest
        (length payload + 1) enough scanned
      ∙ resume_cong (consume stale s (length p.in_bytes)) (consume_input stale s) rest
          (λ r.
            consume_fuel stale s (length p.in_bytes) (suc (length rest))
              (record r { in_bytes = rest })
              (omega (arith, length-append (escaped (signed dest payload sum)) rest)) (omega arith))
          (packet stale s (signed dest payload sum) (length payload + 1)
            (record p { in_bytes = find_sync p.in_bytes }))
      ∙ ap
          (λ i. resume (consume_input stale s) rest (
            packet stale s (signed dest payload sum) (length payload + 1)
              (record p { in_bytes = i })))
          found

  -- A packet on the wire, behind any noise, is un-escaped and handed to handle_packet as it was
  -- meant, and the bytes behind it are read next: what `reply` and the protocol write is what
  -- consume_input reads. The payload has at most 253 bytes.
  pub consume_input-frame :
      (dest : ℕ) (payload noise rest : Bytes) (p : Port)
      → IsNoise noise
      → IsByte dest
      → All IsByte payload
      → length payload ≤ 253
      → p.in_bytes ≡ noise ++ (frame dest payload ++ rest)
      → consume_input stale s p
        ≡ resume (consume_input stale s) rest (
            handle_packet s dest
              (data_of stale dest payload (check_sum dest payload))
              (length payload)
              (record p { in_bytes = frame dest payload ++ rest }))
  consume_input-frame dest payload noise rest p quiet db pb small e =
      consume_signed dest payload (check_sum dest payload) noise rest p quiet db pb (omega arith)
        small e
      ∙ ap (resume (consume_input stale s) rest)
          (packet_right dest payload (record p { in_bytes = frame dest payload ++ rest }))

  -- A packet with a wrong sum is answered with status 3 alone, whatever its destination, it changes
  -- nothing else, and the bytes behind it are read next.
  pub consume_input_wrong_sum :
      (dest : ℕ) (payload : Bytes) (sum : ℕ) (noise rest : Bytes) (p : Port)
      → IsNoise noise
      → IsByte dest
      → All IsByte payload
      → IsByte sum
      → length payload ≤ 253
      → sum ≢ check_sum dest payload
      → p.in_bytes ≡ noise ++ (sync ∷ (escaped (signed dest payload sum) ++ rest))
      → consume_input stale s p
        ≡ consume_input stale s (record (reply (0x03 ∷ []) p) { in_bytes = rest })
  consume_input_wrong_sum dest payload sum noise rest p quiet db pb sb small ne e =
      consume_signed dest payload sum noise rest p quiet db pb sb small e
      ∙ ap (resume (consume_input stale s) rest) (
          packet_wrong dest payload sum
            (record p { in_bytes = sync ∷ (escaped (signed dest payload sum) ++ rest) }) ne)
      ∙ ap (consume_input stale s)
          (reply_three (sync ∷ (escaped (signed dest payload sum) ++ rest)) rest p)
