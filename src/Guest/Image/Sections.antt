-- ===== src/Guest/Image/Sections.antt =====
-- What the image holds once guest_load has copied the headers and the sections.
use systemes3recomp.Prelude.{
  ℕ, zero, suc, ◌+◌, ◌-◌, ◌≤◌, ◌<◌, ◌≡◌, ◌⊎◌, inl, inr, refl, ◌∙◌, Bool, true, false, List, [], ◌∷◌,
  length, get_or, take, drop, length-take, length-drop, All, Bytes, if◌then◌else◌, Bool-cases, none,
  min, arith,
}
use systemes3recomp.Memory.{Memory, in_range, copy_in, fill}
use systemes3recomp.Guest.Image.{
  u32, ok, fault, read_section, place_section, load_sections, map_image, Mapped, snapshot_section,
  Section, Header, section_at, raw_bytes, skipped,
}

-- The section table: its headers in their order.
abbrev pub IsTable : Bytes → ℕ → List Section → Type 0
IsTable img sec [] = Unit {0}
IsTable img sec (s ∷ ss) = (read_section img sec ≡ ok s) × IsTable img (sec + 40) ss

-- The section is passed over, or lies in the file and in the image.
abbrev pub Fits : Bytes → Header → Section → Type 0
Fits img h s =
    (skipped img s ≡ true)
    ⊎ ((s.roff + s.rsize ≤ length img)
        × (h.base ≤ section_at h s)
        × (section_at h s + s.rsize ≤ h.base + h.image_size))

-- The section is copied to a range that holds the address.
abbrev pub covers : Bytes → Header → Section → ℕ → Bool
covers img h s x =
    if skipped img s then false else in_range (section_at h s) (length (raw_bytes img s)) x

-- The byte at an address as the file's sections tell it: the last one that covers it decides.
unfoldable pub section_byte : Bytes → Header → List Section → ℕ → ℕ → ℕ
section_byte img h [] before x = before
section_byte img h (s ∷ ss) before x =
    section_byte img h ss
      (if covers img h s x then get_or img (s.roff + (x - section_at h s)) 0 else before) x

get_or-drop : (bs : Bytes) (n i : ℕ) → get_or (drop n bs) i 0 ≡ get_or bs (n + i) 0
get_or-drop bs zero i = ground arith
get_or-drop [] (suc n) i = ground arith
get_or-drop (b ∷ bs) (suc n) i = ground (arith, get_or-drop bs n i)

get_or-take : (bs : Bytes) (n i : ℕ) → i < n → get_or (take n bs) i 0 ≡ get_or bs i 0
get_or-take bs zero i h = absurd (omega arith)
get_or-take [] (suc n) i h = ground arith
get_or-take (b ∷ bs) (suc n) zero h = refl
get_or-take (b ∷ bs) (suc n) (suc i) h = get_or-take bs n i (omega arith)

length-raw_bytes :
    (img : Bytes) (s : Section) → s.roff + s.rsize ≤ length img → length (raw_bytes img s) ≡ s.rsize
length-raw_bytes img s h =
    omega (arith, length-take s.rsize (drop s.roff img), length-drop s.roff img)

-- One section.
place_section_lem :
    (img : Bytes) (h : Header) (s : Section) (m : Memory)
    → Fits img h s
    → (m' : Memory) × (place_section img h s m ≡ ok m')
      × ((x : ℕ)
          → m' x ≡ (if covers img h s x then get_or img (s.roff + (x - section_at h s)) 0 else m x))
unfolding place_section copy_in
place_section_lem img h s m (inl over) = (m, rw over, λ x. rw over)
place_section_lem img h s m (inr (f, lo, hi)) = elim (Bool-cases (skipped img s)) [
  | inl over ↦ (m, rw over, λ x. rw over)
  | inr more ↦ (
    copy_in m (section_at h s) (raw_bytes img s),
    rw more (ground arith),
    λ x. rw more (
        ground (
          arith,
          length-raw_bytes img s f,
          get_or-take (drop s.roff img) s.rsize (x - section_at h s),
          get_or-drop img s.roff (x - section_at h s),
        )),
  )
]

section_byte_ext :
    (img : Bytes) (h : Header) (ss : List Section) (a b x : ℕ)
    → a ≡ b
    → section_byte img h ss a x ≡ section_byte img h ss b x
section_byte_ext img h ss a b x e = rw e

load_sections_lem :
    (room : ℕ → Bool) (img : Bytes) (h : Header) (ss : List Section) (sec : ℕ) (m : Mapped)
    → IsTable img sec ss
    → All (Fits img h) ss
    → (m' : Mapped) × (load_sections room img h (length ss) sec m ≡ ok m')
      × ((x : ℕ) → m'.memory x ≡ section_byte img h ss (m.memory x) x)
unfolding load_sections section_byte
load_sections_lem room img h [] sec m t f = (m, refl, λ x. refl)
load_sections_lem room img h (s ∷ ss) sec m t f =
    let (placed, e, bytes) = place_section_lem img h s m.memory f.0 in
    let next : Mapped = record {
      memory = placed;
      snapshot = snapshot_section room img h s placed m.snapshot;
    } in
    let (m', r, rest) = load_sections_lem room img h ss (sec + 40) next t.1 f.1 in
    (m', rw (t.0, e, r), λ x. rest x ∙ section_byte_ext img h ss _ _ x (bytes x))

-- What an address holds behind the sections: a header byte, zero in the image, else what it held.
abbrev pub header_byte : Bytes → Header → Memory → ℕ → ℕ
header_byte img h m x =
    if in_range h.base (min h.hdr_size (length img)) x
    then get_or img (x - h.base) 0
    else if in_range h.base h.image_size x
    then 0
    else m x

-- guest_load maps a file whose sections fit: it meets no fault, and each address holds the byte of
-- the last section that covers it, else the file's header, zero within the image, and outside what
-- was there.
pub map_image_lem :
    (room : ℕ → Bool) (img : Bytes) (h : Header) (ss : List Section) (m : Memory)
    → h.nsections ≡ length ss
    → h.hdr_size ≤ h.image_size
    → IsTable img h.sections_at ss
    → All (Fits img h) ss
    → (m' : Mapped) × (map_image room img h m ≡ ok m')
      × ((x : ℕ) → m'.memory x ≡ section_byte img h ss (header_byte img h m x) x)
unfolding map_image copy_in fill
map_image_lem room img h ss m n hs t f =
    let headers : Bytes = take (min h.hdr_size (length img)) img in
    let start : Mapped = record {
      memory = copy_in (fill m h.base h.image_size 0) h.base headers;
      snapshot = none;
    } in
    let (m', r, rest) = load_sections_lem room img h ss h.sections_at start t f in
    let l : length headers ≡ min h.hdr_size (length img) =
      length-take (min h.hdr_size (length img)) img ∙ omega arith in
    (
      m',
      rw n (ground (arith, l, r)),
      λ x.
          rest x
          ∙ section_byte_ext img h ss _ _ x
              (ground (arith, l, get_or-take img (min h.hdr_size (length img)) (x - h.base))),
    )

-- A section whose offset and size add up to 2^32 or more passes the test of the file's length, in a file
-- below 2^32 bytes, if the sum exceeds 2^32 by no more than that length. Its copy is then a fault, and
-- where the image, below 4 GiB, has room for the section, this is the read outside the file.
pub place_section_wraps :
    (img : Bytes) (h : Header) (s : Section) (m : Memory)
    → length img < u32
    → 0 < s.rsize
    → u32 ≤ s.roff + s.rsize
    → s.roff + s.rsize ≤ u32 + length img
    → s.vaddr + s.rsize ≤ h.image_size
    → h.base + h.image_size ≤ u32
    → place_section img h s m ≡ fault
unfolding place_section
place_section_wraps img h s m l p lo hi inside low = ground arith
