-- ===== src/Guest/Image.antt =====
-- guest_load of src/runtime/guest.c: the header, the section table and the copies into the image.
use systemes3recomp.Prelude.{
  ℕ, zero, suc, ◌+◌, ◌-◌, ◌*◌, ◌/◌, ◌%◌, ◌^◌, ◌≤◌, ◌<◌, ◌≡◌, Bool, true, false, not, ◌&&◌, ◌||◌,
  Option, none, some, List, [], ◌∷◌, ◌++◌, length, get_or, take, drop, Bytes, leb, ltb, ◌==◌,
  if◌then◌else◌, min, bit_and,
}
use systemes3recomp.Memory.{Memory, copy_in, fill}
use systemes3recomp.Guest.Snapshot.{Snapshot, guest_snapshot}
pub mod Sections
pub mod Headers

abbrev pub u32 : ℕ
u32 = 2 ^ 32

-- rd16le and rd32le; none is a read behind the end of the file's buffer.
unfoldable pub rd16le : Bytes → ℕ → Option ℕ
rd16le img p =
    if leb (p + 2) (length img) then some (get_or img p 0 + 2 ^ 8 * get_or img (p + 1) 0) else none

unfoldable pub rd32le : Bytes → ℕ → Option ℕ
rd32le img p =
    if leb (p + 4) (length img)
    then some (
        get_or img p 0
        + 2 ^ 8 * get_or img (p + 1) 0
        + 2 ^ 16 * get_or img (p + 2) 0
        + 2 ^ 24 * get_or img (p + 3) 0)
    else none

-- What becomes of a step of the load: its result, a message and -1, or an access outside the file's
-- buffer or the image.
pub data Loaded {ℓ} (A : Type ℓ) : Type ℓ where
  ok : A → Loaded A
  short_read : Loaded A
  not_pe : Loaded A
  no_signature : Loaded A
  not_i386 : Loaded A
  unmapped : Loaded A
  no_stack : Loaded A
  no_boundary : Loaded A
  fault : Loaded A

infixl 5 ◌>>=◌
abbrev pub ◌>>=◌ {ℓ κ} : {A : Type ℓ} {B : Type κ} → Loaded A → (A → Loaded B) → Loaded B
ok a >>= f = f a
short_read >>= f = short_read
not_pe >>= f = not_pe
no_signature >>= f = no_signature
not_i386 >>= f = not_i386
unmapped >>= f = unmapped
no_stack >>= f = no_stack
no_boundary >>= f = no_boundary
fault >>= f = fault

-- A read that must succeed.
abbrev pub read {ℓ} : {A : Type ℓ} → Option A → Loaded A
read none = fault
read (some a) = ok a

pub record Header : Type 0 where
  pub base : ℕ
  pub entry : ℕ
  pub image_size : ℕ
  pub hdr_size : ℕ
  pub nsections : ℕ
  pub sections_at : ℕ

-- memcmp(img + pe, "PE\0\0", 4); none is a read outside the buffer.
unfoldable pub has_signature : Bytes → ℕ → Option Bool
has_signature img pe =
    if leb (pe + 4) (length img)
    then some (
        get_or img pe 0 == b'P'
        && get_or img (pe + 1) 0 == b'E'
        && get_or img (pe + 2) 0 == 0
        && get_or img (pe + 3) 0 == 0)
    else none

-- The fields, behind the checks.
unfoldable pub read_fields : Bytes → ℕ → Loaded Header
read_fields img pe = do
  nsections ← read (rd16le img (pe + 6))
  opt_size ← read (rd16le img (pe + 20))
  base ← read (rd32le img (pe + 24 + 28))
  entry ← read (rd32le img (pe + 24 + 16))
  image_size ← read (rd32le img (pe + 24 + 56))
  hdr_size ← read (rd32le img (pe + 24 + 60))
  ok (record {
    base = base;
    entry = (base + entry) % u32;
    image_size = image_size;
    hdr_size = hdr_size;
    nsections = nsections;
    sections_at = pe + 24 + opt_size;
  })

-- The machine is looked at behind the signature.
unfoldable pub read_machine : Bytes → ℕ → Bool → Loaded Header
read_machine img pe false = no_signature
read_machine img pe true = do
  machine ← read (rd16le img (pe + 4))
  if machine == 0x014c then read_fields img pe else not_i386

-- The checks behind the test of the file's length.
unfoldable pub checked : Bytes → ℕ → Bool → Loaded Header
checked img pe true = no_signature
checked img pe false = do signed ← read (has_signature img pe); read_machine img pe signed

-- The checks in their order. `pe + 0x78` is a uint32_t.
unfoldable pub read_header : Bytes → Loaded Header
unfolding rd16le rd32le has_signature read_fields
read_header img =
    if ltb (length img) 0x40 || not (get_or img 0 0 == b'M' && get_or img 1 0 == b'Z')
    then not_pe
    else do pe ← read (rd32le img 0x3c); checked img pe (ltb (length img % u32) ((pe + 0x78) % u32))

pub record Section : Type 0 where
  pub vaddr : ℕ
  pub rsize : ℕ
  pub roff : ℕ
  pub flags : ℕ

unfoldable pub read_section : Bytes → ℕ → Loaded Section
read_section img sec = do
  vaddr ← read (rd32le img (sec + 12))
  rsize ← read (rd32le img (sec + 16))
  roff ← read (rd32le img (sec + 20))
  flags ← read (rd32le img (sec + 36))
  ok (record { vaddr = vaddr; rsize = rsize; roff = roff; flags = flags })

-- The section is passed over: it has no bytes in the file, or they reach past its end. The sum is
-- a uint32_t.
abbrev pub skipped : Bytes → Section → Bool
skipped img s = s.rsize == 0 || ltb (length img % u32) ((s.roff + s.rsize) % u32)

-- The bytes of a section in the file.
abbrev pub raw_bytes : Bytes → Section → Bytes
raw_bytes img s = take s.rsize (drop s.roff img)

-- Where a section goes: g_base + vaddr, a uint32_t.
abbrev pub section_at : Header → Section → ℕ
section_at h s = (h.base + s.vaddr) % u32

-- One memcpy: a fault where the file's buffer or the image does not hold the whole of it.
unfoldable pub place_section : Bytes → Header → Section → Memory → Loaded Memory
place_section img h s m =
    if skipped img s
    then ok m
    else if ltb (length img) (s.roff + s.rsize)
        || ltb (section_at h s) h.base
        || ltb (h.base + h.image_size) (section_at h s + s.rsize)
    then fault
    else ok (copy_in m (section_at h s) (raw_bytes img s))

-- What is mapped so far, and the snapshot of the code.
pub record Mapped : Type 0 where
  pub memory : Memory
  pub snapshot : Option Snapshot

-- A section that is copied and is mapped executable is offered to the snapshot. `room` is malloc.
unfoldable pub snapshot_section :
    (ℕ → Bool) → Bytes → Header → Section → Memory → Option Snapshot → Option Snapshot
snapshot_section room img h s m snap =
    if not (skipped img s) && not (bit_and s.flags 0x20000000 == 0)
    then guest_snapshot (room s.rsize) m (section_at h s) (section_at h s + s.rsize) snap
    else snap

-- The section table's loop over `n` headers from `sec`, 40 bytes each.
unfoldable pub load_sections : (ℕ → Bool) → Bytes → Header → ℕ → ℕ → Mapped → Loaded Mapped
unfolding read_section place_section
load_sections room img h zero sec mapped = ok mapped
load_sections room img h (suc n) sec mapped = do
  s ← read_section img sec
  placed ← place_section img h s mapped.memory
  load_sections room img h n (sec + 40)
      (record { memory = placed; snapshot = snapshot_section room img h s placed mapped.snapshot })

-- memset of the image, the copy of the headers, and the sections.
unfoldable pub map_image : (ℕ → Bool) → Bytes → Header → Memory → Loaded Mapped
map_image room img h m =
    let headers = take (min h.hdr_size (length img)) img in
    if ltb h.image_size (length headers)
    then fault
    else load_sections room img h h.nsections h.sections_at
        (record { memory = copy_in (fill m h.base h.image_size 0) h.base headers; snapshot = none })
