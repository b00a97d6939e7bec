-- ===== src/Jvs/Receive/Scanning.antt =====
-- The un-escaping loop reads back what the protocol, and `reply`, put on the wire.
use systemes3recomp.Prelude.{
  ℕ, ◌+◌, ◌-◌, ◌%◌, ◌≤◌, ◌<◌, ◌≡◌, ◌≢◌, refl, ◌∙◌, inl, inr, ◌||◌, ◌==◌, Bool-cases, if◌then◌else◌,
  Bytes, [], ◌∷◌, ◌++◌, append_assoc, append-nil, length, length-append, All, All-append, IsByte,
  arith,
}
use systemes3recomp.Jvs.{sync, escape}
use systemes3recomp.Jvs.Frame.Wire.{
  escape_byte, escape_byte_special, escape_byte_plain, escaped, signed,
}
use systemes3recomp.Jvs.Receive.{Scan, cut, ended, whole, scan, size_of, is_whole}

-- What the loop does once a byte of the packet is known.
abbrev pub took : ℕ → Bytes → Bytes → ℕ → Scan
took b rest body size =
    let grown = body ++ (b ∷ []) in
    let size' = size_of grown size in
    let later = scan rest grown size' in
    if is_whole grown size' then whole grown size' rest else later

pub scan_plain :
    (b : ℕ) (rest body : Bytes) (size : ℕ)
    → length body < 256
    → b ≢ escape
    → scan (b ∷ rest) body size ≡ took b rest body size
unfolding scan
scan_plain b [] body size h e = ground arith
scan_plain b (c ∷ cs) body size h e = ground arith

pub scan_escaped :
    (c : ℕ) (rest body : Bytes) (size : ℕ)
    → length body < 256
    → scan (escape ∷ c ∷ rest) body size ≡ took ((c + 1) % 256) rest body size
unfolding scan
scan_escaped c rest body size h = ground arith

pub scan_full :
    (b : ℕ) (bs body : Bytes) (size : ℕ)
    → 256 ≤ length body
    → scan (b ∷ bs) body size ≡ ended body size
unfolding scan
scan_full b [] body size h = ground arith
scan_full b (c ∷ cs) body size h = ground arith

pub scan-cut : (body : Bytes) (size : ℕ) → length body < 256 → scan (escape ∷ []) body size ≡ cut
unfolding scan
scan-cut body size h = ground arith

pub scan_byte :
    (b : ℕ) (rest body : Bytes) (size : ℕ)
    → IsByte b
    → length body < 256
    → scan (escape_byte b ++ rest) body size ≡ took b rest body size
scan_byte b rest body size byte h = elim (Bool-cases (b == sync || b == escape)) [
  | inl special ↦
      let back : (b - 1 + 1) % 256 ≡ b = ground arith in
      rw (escape_byte_special b special) (scan_escaped (b - 1) rest body size h ∙ rw back)
  | inr plain ↦ rw (escape_byte_plain b plain) (scan_plain b rest body size h (ground arith))
]

took_last :
    (b : ℕ) (rest body : Bytes) (size : ℕ)
    → 2 ≤ length body
    → 0 < size
    → length body + 1 ≡ size + 2
    → took b rest body size ≡ whole (body ++ (b ∷ [])) size rest
unfolding size_of is_whole
took_last b rest body size two pos e = ground (arith, length-append body (b ∷ []))

took_inner :
    (b : ℕ) (rest body : Bytes) (size : ℕ)
    → 2 ≤ length body
    → length body + 1 < size + 2
    → took b rest body size ≡ scan rest (body ++ (b ∷ [])) size
unfolding size_of is_whole
took_inner b rest body size two h = ground (arith, length-append body (b ∷ []))

-- From the third byte of a packet on.
scan_tail :
    (b : ℕ) (bs rest body : Bytes) (size : ℕ)
    → All IsByte (b ∷ bs)
    → 2 ≤ length body
    → 0 < size
    → size ≤ 254
    → length body + length (b ∷ bs) ≡ size + 2
    → scan (escaped (b ∷ bs) ++ rest) body size ≡ whole (body ++ (b ∷ bs)) size rest
scan_tail b [] rest body size bytes two pos small e =
    rw append-nil (scan_byte b rest body size bytes.0 (omega arith))
    ∙ took_last b rest body size two pos (omega arith)
scan_tail b (c ∷ cs) rest body size bytes two pos small e =
    rw append_assoc (scan_byte b (escaped (c ∷ cs) ++ rest) body size bytes.0 (omega arith))
    ∙ took_inner b (escaped (c ∷ cs) ++ rest) body size two (omega arith)
    ∙ scan_tail c cs rest (body ++ (b ∷ [])) size bytes.1
        (omega (arith, length-append body (b ∷ []))) pos small
        (omega (arith, length-append body (b ∷ [])))
    ∙ rw append_assoc

pub took_dest : (dest : ℕ) (rest : Bytes) → took dest rest [] 0 ≡ scan rest (dest ∷ []) 0
unfolding size_of is_whole
took_dest dest rest = refl

took_size :
    (dest size : ℕ) (rest : Bytes)
    → 0 < size
    → took size rest (dest ∷ []) 0 ≡ scan rest (dest ∷ size ∷ []) size
unfolding size_of is_whole
took_size dest size rest pos = ground arith

-- Destination, size and `size` bytes more, with anything behind them.
pub scan-escaped :
    (dest size b : ℕ) (bs rest : Bytes)
    → IsByte dest
    → size ≤ 254
    → All IsByte (b ∷ bs)
    → size ≡ length (b ∷ bs)
    → scan (escaped (dest ∷ size ∷ b ∷ bs) ++ rest) [] 0 ≡ whole (dest ∷ size ∷ b ∷ bs) size rest
scan-escaped dest size b bs rest dest_byte small bytes e =
    rw append_assoc (scan_byte dest (escaped (size ∷ b ∷ bs) ++ rest) [] 0 dest_byte (omega arith))
    ∙ took_dest dest (escaped (size ∷ b ∷ bs) ++ rest)
    ∙ rw append_assoc
        (scan_byte size (escaped (b ∷ bs) ++ rest) (dest ∷ []) 0 (omega arith) (omega arith))
    ∙ took_size dest size (escaped (b ∷ bs) ++ rest) (omega arith)
    ∙ scan_tail b bs rest (dest ∷ size ∷ []) size bytes (omega arith) (omega arith) small
        (omega arith)

-- The packets that fit: at most 253 bytes of payload.
pub scan-signed :
    (dest : ℕ) (payload : Bytes) (sum : ℕ) (rest : Bytes)
    → IsByte dest
    → All IsByte payload
    → IsByte sum
    → length payload ≤ 253
    → scan (escaped (signed dest payload sum) ++ rest) [] 0
      ≡ whole (signed dest payload sum) (length payload + 1) rest
scan-signed dest [] sum rest db pb sb small =
    scan-escaped dest 1 sum [] rest db (omega arith) (sb, tt) refl
scan-signed dest (b ∷ bs) sum rest db pb sb small =
    scan-escaped dest (length (b ∷ bs) + 1) b (bs ++ (sum ∷ [])) rest db (omega arith)
      (pb.0, All-append IsByte bs (sum ∷ []) pb.1 (sb, tt))
      (omega (arith, length-append bs (sum ∷ [])))
