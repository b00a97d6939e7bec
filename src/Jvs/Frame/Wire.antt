-- ===== src/Jvs/Frame/Wire.antt =====
-- What a reply looks like on the wire, and that `reply` puts exactly that into the pipe.
use systemes3recomp.Prelude.{
  ℕ, ◌+◌, ◌-◌, ◌%◌, ◌≤◌, ◌<◌, ◌≡◌, refl, sym, ◌∙◌, ap, true, false, ◌||◌, ◌==◌, ltb, if◌then◌else◌,
  Bool-cases, lt→ltb, inl, inr, Bytes, [], ◌∷◌, ◌++◌, append_assoc, append-nil, length,
  length-append, total, arith,
}
use systemes3recomp.Fifo
use systemes3recomp.Fifo.{Fifo, IsValid}
use systemes3recomp.Fifo.Refine.{contents, push_refines, push-IsValid}
use systemes3recomp.Jvs.{sync, escape, Port}
use systemes3recomp.Jvs.Frame.{out_byte, out_bytes, reply}

-- One byte, as it travels behind a SYNC.
unfoldable pub escape_byte : ℕ → Bytes
escape_byte b = if b == sync || b == escape then escape ∷ (b - 1) ∷ [] else b ∷ []

pub escape_byte_special :
    (b : ℕ) → (b == sync || b == escape) ≡ true → escape_byte b ≡ escape ∷ (b - 1) ∷ []
unfolding escape_byte
escape_byte_special b h = rw h

pub escape_byte_plain : (b : ℕ) → (b == sync || b == escape) ≡ false → escape_byte b ≡ b ∷ []
unfolding escape_byte
escape_byte_plain b h = rw h

abbrev pub escaped : Bytes → Bytes
escaped [] = []
escaped (b ∷ bs) = escape_byte b ++ escaped bs

-- Destination, length, payload and sum.
abbrev pub signed : ℕ → Bytes → ℕ → Bytes
signed dest payload sum = (dest ∷ (length payload + 1) ∷ payload) ++ (sum ∷ [])

abbrev pub check_sum : ℕ → Bytes → ℕ
check_sum dest payload = (dest + (length payload + 1) + total payload) % 256

abbrev pub packet_body : ℕ → Bytes → Bytes
packet_body dest payload = signed dest payload (check_sum dest payload)

-- A packet as the protocol has it.
abbrev pub frame : ℕ → Bytes → Bytes
frame dest payload = sync ∷ escaped (packet_body dest payload)

pub escaped-append : (xs ys : Bytes) → escaped (xs ++ ys) ≡ escaped xs ++ escaped ys
escaped-append [] ys = refl
escaped-append (x ∷ xs) ys = rw (escaped-append xs ys, append_assoc)

-- The pipe is valid and holds just these bytes.
abbrev Holds : Fifo → Bytes → Type 0
Holds f bs = IsValid f × (contents f ≡ bs)

push-Holds :
    {f : Fifo} (b : ℕ) (bs : Bytes)
    → length bs < 4095
    → Holds f bs
    → Holds (Fifo.push f b) (bs ++ (b ∷ []))
push-Holds {f} b bs room (v, e) = (push-IsValid b v, push_refines b v ∙ rw (e, lt→ltb _ _ room))

out_byte_special :
    (f : Fifo) (b : ℕ)
    → (b == sync || b == escape) ≡ true
    → out_byte f b ≡ Fifo.push (Fifo.push f escape) (b - 1)
unfolding out_byte
out_byte_special f b h = rw h

out_byte_plain :
    (f : Fifo) (b : ℕ) → (b == sync || b == escape) ≡ false → out_byte f b ≡ Fifo.push f b
unfolding out_byte
out_byte_plain f b h = rw h

out_byte-Holds :
    {f : Fifo} (b : ℕ) (bs : Bytes)
    → length bs + length (escape_byte b) ≤ 4095
    → Holds f bs
    → Holds (out_byte f b) (bs ++ escape_byte b)
out_byte-Holds {f} b bs room h = elim (Bool-cases (b == sync || b == escape)) [
  | inl special ↦
      let room' : length bs + 2 ≤ 4095 = rw (escape_byte_special b special) at room in
      let once = push-Holds escape bs (omega arith) h in
      let twice =
        push-Holds (b - 1) (bs ++ (escape ∷ [])) (omega (arith, length-append bs (escape ∷ [])))
          once in
      rw (out_byte_special f b special, escape_byte_special b special) (rw append_assoc at twice)
  | inr plain ↦
      let room' : length bs + 1 ≤ 4095 = rw (escape_byte_plain b plain) at room in
      rw (out_byte_plain f b plain, escape_byte_plain b plain) (push-Holds b bs (omega arith) h)
]

out_bytes-Holds :
    (xs : Bytes) {f : Fifo} (bs : Bytes)
    → length bs + length (escaped xs) ≤ 4095
    → Holds f bs
    → Holds (out_bytes f xs) (bs ++ escaped xs)
unfolding out_bytes
out_bytes-Holds [] bs room h = rw append-nil h
out_bytes-Holds (x ∷ xs) {f} bs room h =
    let split = length-append (escape_byte x) (escaped xs) in
    let first = out_byte-Holds x bs (omega arith) h in
    let rest =
      out_bytes-Holds xs (bs ++ escape_byte x) (omega (arith, length-append bs (escape_byte x)))
        first in
    rw append_assoc at rest

out_bytes-append :
    (f : Fifo) (xs ys : Bytes) → out_bytes f (xs ++ ys) ≡ out_bytes (out_bytes f xs) ys
unfolding out_bytes
out_bytes-append f [] ys = refl
out_bytes-append f (x ∷ xs) ys = out_bytes-append (out_byte f x) xs ys

-- `reply` sends SYNC, and escapes the packet behind it.
reply-out_bytes :
    (body : Bytes) (p : Port)
    → length body ≤ 254
    → reply body p ≡ record p { out = out_bytes (Fifo.push p.out sync) (packet_body 0 body) }
unfolding reply out_bytes
reply-out_bytes body p small =
    let n = length body in
    let fits : ltb 255 (n + 1) ≡ false = ground arith in
    let sum : 0 + (n + 1) + total body ≡ n + 1 + total body = omega arith in
    rw (fits, sum)
      (ap (λ f. record p { out = f })
        (sym (
          out_bytes-append (Fifo.push p.out sync) (0 ∷ (n + 1) ∷ body)
            (((n + 1 + total body) % 256) ∷ []))))

-- `reply` appends to the pipe the frame of its body, addressed to the master, if there is room for
-- it and the body has at most 254 bytes, and it changes nothing but the pipe.
pub reply_refines :
    (body : Bytes) (p : Port)
    → length body ≤ 254
    → length (contents p.out) + length (frame 0 body) ≤ 4095
    → IsValid p.out
    → IsValid (reply body p).out
      × (contents (reply body p).out ≡ contents p.out ++ frame 0 body)
      × (reply body p ≡ record p { out = (reply body p).out })
reply_refines body p small room v = rw (reply-out_bytes body p small) (sent.0, sent.1, refl)
  where
    started : Holds (Fifo.push p.out sync) (contents p.out ++ (sync ∷ []))
    started = push-Holds sync (contents p.out) (omega arith) (v, refl)

    sent :
        Holds
          (out_bytes (Fifo.push p.out sync) (packet_body 0 body))
          (contents p.out ++ frame 0 body)
    sent = rw append_assoc at (
        out_bytes-Holds (packet_body 0 body) (contents p.out ++ (sync ∷ []))
          (omega (arith, length-append (contents p.out) (sync ∷ []))) started)

-- A body of more than 254 bytes is dropped.
pub reply_long : (body : Bytes) (p : Port) → 254 < length body → reply body p ≡ p
unfolding reply
reply_long body p h = ground arith
