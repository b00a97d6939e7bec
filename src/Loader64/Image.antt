-- ===== src/Loader64/Image.antt =====
-- The sections, the stack and the image's bounds of the 64-bit loader: src/runtime64/loader64.c.
use systemes3recomp.Prelude.{
  ℕ, zero, suc, ◌+◌, ◌-◌, ◌%◌, ◌≤◌, ◌<◌, ◌≡◌, ◌∙◌, refl, Bool, List, [], ◌∷◌, length, get_or, take,
  drop, length-take, length-drop, All, Bytes, ltb, ◌==◌, if◌then◌else◌, arith,
}
use systemes3recomp.Memory.{Memory, in_range, copy_in, fill}

-- An IMAGE_SECTION_HEADER, as far as the loader reads it; `is_text` says that the name starts with
-- ".text".
pub record Section : Type 0 where
  pub vaddr : ℕ
  pub vsize : ℕ
  pub rsize : ℕ
  pub roff : ℕ
  pub is_text : Bool

-- g_image's text_lo and text_hi.
pub record Text : Type 0 where
  pub lo : ℕ
  pub hi : ℕ

-- How many bytes of a section come from the file.
abbrev pub kept : Section → ℕ
kept s = if s.rsize == 0 then 0 else if ltb s.rsize s.vsize then s.rsize else s.vsize

-- One section: its bytes, and zeros behind them.
unfoldable pub place : Bytes → ℕ → Section → Memory → Memory
unfolding copy_in fill
place raw base s m =
    let dst = base + s.vaddr in
    let copied = if s.rsize == 0 then m else copy_in m dst (take (kept s) (drop s.roff raw)) in
    if ltb s.rsize s.vsize then fill copied (dst + s.rsize) (s.vsize - s.rsize) 0 else copied

unfoldable pub place_all : Bytes → ℕ → List Section → Memory → Memory
unfolding place
place_all raw base [] m = m
place_all raw base (s ∷ ss) m = place_all raw base ss (place raw base s m)

-- The bounds of the code: those of the last section with that name.
unfoldable pub text_bounds : ℕ → List Section → Text → Text
text_bounds base [] t = t
text_bounds base (s ∷ ss) t =
    text_bounds base ss
      (if s.is_text then record { lo = base + s.vaddr; hi = base + s.vaddr + s.vsize } else t)

-- What the section's range holds: its bytes from the file, then zeros.
abbrev pub section_byte : Bytes → Section → ℕ → ℕ
section_byte raw s i = if ltb i s.rsize then get_or raw (s.roff + i) 0 else 0

get_or-drop : (bs : Bytes) (n i : ℕ) → get_or (drop n bs) i 0 ≡ get_or bs (n + i) 0
get_or-drop bs zero i = ground arith
get_or-drop [] (suc n) i = ground arith
get_or-drop (b ∷ bs) (suc n) i = ground (arith, get_or-drop bs n i)

get_or-take : (bs : Bytes) (n i : ℕ) → i < n → get_or (take n bs) i 0 ≡ get_or bs i 0
get_or-take bs zero i h = absurd (omega arith)
get_or-take [] (suc n) i h = ground arith
get_or-take (b ∷ bs) (suc n) zero h = refl
get_or-take (b ∷ bs) (suc n) (suc i) h = get_or-take bs n i (omega arith)

-- A section whose bytes lie in the file fills its virtual range, with its bytes and zeros behind
-- them, and touches nothing else: a file that holds more of it than is mapped is cut.
pub place_lem :
    (raw : Bytes) (base : ℕ) (s : Section) (m : Memory) (x : ℕ)
    → s.roff + s.rsize ≤ length raw
    → place raw base s m x ≡ (
        if in_range (base + s.vaddr) s.vsize x
        then section_byte raw s (x - (base + s.vaddr))
        else m x)
unfolding place
place_lem raw base s m x h = ground (
  arith,
  length-take (kept s) (drop s.roff raw),
  length-drop s.roff raw,
  get_or-take (drop s.roff raw) (kept s) (x - (base + s.vaddr)),
  get_or-drop raw s.roff (x - (base + s.vaddr)),
)

-- The last section that holds the address decides.
unfoldable pub image_byte : Bytes → ℕ → List Section → ℕ → ℕ → ℕ
image_byte raw base [] before x = before
image_byte raw base (s ∷ ss) before x =
    image_byte raw base ss
      (if in_range (base + s.vaddr) s.vsize x
        then section_byte raw s (x - (base + s.vaddr))
        else before)
      x

image_byte_ext :
    (raw : Bytes) (base : ℕ) (ss : List Section) (a b x : ℕ)
    → a ≡ b
    → image_byte raw base ss a x ≡ image_byte raw base ss b x
image_byte_ext raw base ss a b x e = rw e

-- Behind the section table's loop each address holds what the last section that maps it says, its
-- byte of the file or a zero, and an address that none maps is left alone.
pub place_all_lem :
    (raw : Bytes) (base : ℕ) (ss : List Section) (m : Memory) (x : ℕ)
    → All (λ (s : Section). s.roff + s.rsize ≤ length raw) ss
    → place_all raw base ss m x ≡ image_byte raw base ss (m x) x
unfolding place_all image_byte
place_all_lem raw base [] m x f = refl
place_all_lem raw base (s ∷ ss) m x f =
    place_all_lem raw base ss (place raw base s m) x f.1
    ∙ image_byte_ext raw base ss _ _ x (place_lem raw base s m x f.0)

-- es3_alloc_stack: `p` is what VirtualAlloc gives for the guard page, the stack and the headroom, 0
-- if it gives nothing.
unfoldable pub alloc_stack : ℕ → ℕ → ℕ
alloc_stack p bytes = if p == 0 then 0 else (let top = p + 0x1000 + bytes in top - top % 16)

abbrev pub stack_headroom : ℕ
stack_headroom = 0x10000

-- The stack pointer is on a 16-byte boundary, has all but at most 15 of the bytes below it and above
-- the guard page, and has the headroom above it within what was allocated.
pub alloc_stack_bounds :
    (p bytes : ℕ)
    → 0 < p
    → 16 ≤ bytes
    → (alloc_stack p bytes % 16 ≡ 0)
      × (p + 0x1000 + bytes < alloc_stack p bytes + 16)
      × (p + 0x1000 < alloc_stack p bytes)
      × (alloc_stack p bytes + stack_headroom ≤ p + (bytes + 0x1000 + stack_headroom))
unfolding alloc_stack
alloc_stack_bounds p bytes h b = ground arith
