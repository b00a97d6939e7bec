-- ===== src/Jvs/Receive/Stuck.antt =====
-- The packets that consume_input waits on for ever: those whose size byte is 0 or 255.
use systemes3recomp.Prelude.{
  ℕ, suc, ◌+◌, ◌%◌, ◌≤◌, ◌<◌, ◌≡◌, refl, ap, ◌∙◌, ◌⊎◌, inl, inr, Bytes, [], ◌∷◌, ◌++◌, length,
  length-append, IsByte, arith,
}
use native.Mathlib.Decide.{dec_lt, ℕ_discrete}
use systemes3recomp.Jvs.{Port, Switches, sync, escape}
use systemes3recomp.Jvs.Frame.Wire.{escape_byte}
use systemes3recomp.Jvs.Receive.{
  Scan, cut, ended, whole, scan, size_of, is_whole, find_sync, after_sync, consumed, consume,
  consume_input,
}
use systemes3recomp.Jvs.Receive.Scanning.{
  took, scan_plain, scan_escaped, scan_full, scan-cut, scan_byte, took_dest,
}
use systemes3recomp.Jvs.Receive.Rounds.{IsPartial, consume_partial}

-- The loop did not come to a whole packet.
abbrev Waits : Scan → Type 0
Waits cut = Unit
Waits (ended body size) = IsPartial body size
Waits (whole body size rest) = ⊥

-- The size bytes that no packet can have: 0 reads as "not known yet", and the 257 bytes of a packet
-- of size 255 do not fit into `body`.
abbrev pub IsBadSize : ℕ → Type 0
IsBadSize size = (size ≡ 0) ⊎ (size ≡ 255)

took_bad :
    (b : ℕ) (rest body : Bytes) (size : ℕ)
    → 2 ≤ length body
    → length body < 256
    → IsBadSize size
    → took b rest body size ≡ scan rest (body ++ (b ∷ [])) size
unfolding size_of is_whole
took_bad b rest body size two room bad = ground (arith, length-append body (b ∷ []))

took-Waits :
    (b : ℕ) (rest body : Bytes) (size : ℕ)
    → 2 ≤ length body
    → length body < 256
    → IsBadSize size
    → Waits (scan rest (body ++ (b ∷ [])) size)
    → Waits (took b rest body size)
took-Waits b rest body size two room bad later = rw (took_bad b rest body size two room bad) later

scan-Waits :
    (bs body : Bytes) (size : ℕ)
    → 2 ≤ length body
    → length body ≤ 256
    → IsBadSize size
    → Waits (scan bs body size)
scan-Waits [] body size two room bad = unfold scan in ground arith
scan-Waits (x ∷ []) body size two room bad = elim (dec_lt (length body) 256) [
  | no full ↦ rw (scan_full x [] body size (omega arith)) (ground arith)
  | yes more ↦ elim (ℕ_discrete x escape) [
    | yes e ↦ rw (e, scan-cut body size more) tt
    | no ne ↦ rw (scan_plain x [] body size more ne) (
        took-Waits x [] body size two more bad (
          scan-Waits [] (body ++ (x ∷ [])) size (omega (arith, length-append body (x ∷ [])))
            (omega (arith, length-append body (x ∷ []))) bad))
  ]
]
scan-Waits (x ∷ y ∷ ys) body size two room bad = elim (dec_lt (length body) 256) [
  | no full ↦ rw (scan_full x (y ∷ ys) body size (omega arith)) (ground arith)
  | yes more ↦ elim (ℕ_discrete x escape) [
    | yes e ↦
        let z = (y + 1) % 256 in
        rw (e, scan_escaped y ys body size more)
          (took-Waits z ys body size two more bad (
            scan-Waits ys (body ++ (z ∷ [])) size (omega (arith, length-append body (z ∷ [])))
              (omega (arith, length-append body (z ∷ []))) bad))
    | no ne ↦ rw (scan_plain x (y ∷ ys) body size more ne) (
        took-Waits x (y ∷ ys) body size two more bad (
          scan-Waits (y ∷ ys) (body ++ (x ∷ [])) size (omega (arith, length-append body (x ∷ [])))
            (omega (arith, length-append body (x ∷ []))) bad))
  ]
]

took_bad_size :
    (dest size : ℕ) (rest : Bytes)
    → IsBadSize size
    → took size rest (dest ∷ []) 0 ≡ scan rest (dest ∷ size ∷ []) size
unfolding size_of is_whole
took_bad_size dest size rest bad = ground arith

bad_size-Waits :
    (dest size : ℕ) (rest : Bytes)
    → IsByte dest
    → IsBadSize size
    → Waits (scan (escape_byte dest ++ (size ∷ rest)) [] 0)
bad_size-Waits dest size rest db bad =
    rw
      (
        scan_byte dest (size ∷ rest) [] 0 db (omega arith),
        took_dest dest (size ∷ rest),
        scan_plain size rest (dest ∷ []) 0 (omega arith) (ground arith),
        took_bad_size dest size rest bad,
      )
      (scan-Waits rest (dest ∷ size ∷ []) size (omega arith) (omega arith) bad)

consume-Waits :
    (stale : ℕ → ℕ) (s : Switches) (f : ℕ) (p : Port) (t : Scan)
    → scan (after_sync (find_sync p.in_bytes)) [] 0 ≡ t
    → Waits t
    → consume stale s (suc f) p ≡ consumed (record p { in_bytes = find_sync p.in_bytes })
consume-Waits stale s f p cut e w = consume_partial stale s f p cut e (inl refl)
consume-Waits stale s f p (ended body size) e w =
    consume_partial stale s f p (ended body size) e (inr (body, size, refl, w))
consume-Waits stale s f p (whole body size rest) e w = absurd w

find_sync_there : (bs : Bytes) → find_sync (sync ∷ bs) ≡ sync ∷ bs
unfolding find_sync
find_sync_there bs = refl

-- Once a packet with the size byte 0 or 255 stands at the front, consume_input does nothing, whatever
-- follows it: no later packet is ever answered.
pub consume_input_stuck :
    (stale : ℕ → ℕ) (s : Switches) (dest size : ℕ) (later : Bytes) (p : Port)
    → IsByte dest
    → IsBadSize size
    → p.in_bytes ≡ sync ∷ (escape_byte dest ++ (size ∷ later))
    → consume_input stale s p ≡ consumed p
unfolding consume_input
consume_input_stuck stale s dest size later p db bad e =
    let found : find_sync p.in_bytes ≡ p.in_bytes =
      rw e (find_sync_there (escape_byte dest ++ (size ∷ later))) in
    let waits : Waits (scan (after_sync (find_sync p.in_bytes)) [] 0) =
      rw (found, e) (bad_size-Waits dest size later db bad) in
    consume-Waits stale s (length p.in_bytes) p _ refl waits
    ∙ ap (λ i. consumed (record p { in_bytes = i })) found
