-- ===== src/Guest/Imports.antt =====
-- guest_load of src/runtime/guest.c as a whole: the import table's slots, the guest's stack, and the sizes that the environment sets.
use systemes3recomp.Prelude.{
  ℕ, zero, suc, ◌+◌, ◌-◌, ◌*◌, ◌/◌, ◌%◌, ◌^◌, ◌≤◌, ◌<◌, ◌≡◌, ◌⊎◌, inl, inr, refl, ◌∙◌, Bool, true,
  false, not, ◌&&◌, ◌||◌, Option, none, some, List, [], ◌∷◌, length, get_or, ap, All, Bytes, leb,
  ltb, ◌==◌, if◌then◌else◌, Bool-cases, bit_and, arith,
}
use systemes3recomp.Memory.{Memory, fill, in_range, rd32, wr32, rd32-wr32, rd32-wr32_apart}
use systemes3recomp.Guest.Image.{
  u32, Loaded, ok, fault, unmapped, short_read, no_stack, no_boundary, ◌>>=◌, Section, Header,
  skipped, section_at, read_header, map_image, Mapped,
}
use systemes3recomp.Guest.Snapshot.{Snapshot}
pub mod Slots
pub mod Whole

-- mb_env: a size in megabytes; `set` is the variable's value as atoi reads it, none if it is unset
-- or not positive.
unfoldable pub mb_env : Option ℕ → ℕ → ℕ
mb_env none dflt = dflt * 2 ^ 20 % u32
mb_env (some zero) dflt = dflt * 2 ^ 20 % u32
mb_env (some (suc v)) dflt = suc v * 2 ^ 20 % u32

-- What the code takes of cpu.h: the 32-bit read and write of guest memory. A word that is written is
-- read, and a write leaves the words that it does not touch.
pub record Words : Type 0 where
  pub load : Memory → ℕ → ℕ
  pub store : Memory → ℕ → ℕ → Memory
  pub load-store : (m : Memory) (at v : ℕ) → v < u32 → load (store m at v) at ≡ v
  pub load-store_apart :
      (m : Memory) (at other v : ℕ)
      → (at + 4 ≤ other) ⊎ (other + 4 ≤ at)
      → load (store m at v) other ≡ load m other

abbrev pub little_endian : Words
little_endian = record {
  load = rd32;
  store = wr32;
  load-store = rd32-wr32;
  load-store_apart = rd32-wr32_apart;
}

-- One slot of the import address table: its address and its import.
pub record Slot : Type 0 where
  pub slot_va : ℕ
  pub id : ℕ

-- HLE_ADDR of es3_rt.h, a uint32_t.
abbrev pub hle_addr : ℕ → ℕ
hle_addr id = (0xe5300000 + 4 * id) % u32

-- The loop of guest_load over IAT_SLOTS.
unfoldable pub patch_slots : Words → List Slot → Memory → Memory
patch_slots w [] m = m
patch_slots w (s ∷ ss) m = patch_slots w ss (w.store m s.slot_va (hle_addr s.id))

unfoldable pub guest_patch_import : Words → List Slot → ℕ → ℕ → Memory → Memory
guest_patch_import w [] id value m = m
guest_patch_import w (s ∷ ss) id value m =
    guest_patch_import w ss id value (if s.id == id then w.store m s.slot_va value else m)

abbrev pub stack_sz : ℕ
stack_sz = 8 * 2 ^ 20

abbrev pub page : ℕ
page = 0x1000

-- The guest's stack pointer: a page below the top, cut to 16 bytes.
unfoldable pub stack_pointer : ℕ → ℕ
stack_pointer stack_lo = let top = (stack_lo + stack_sz - page) % u32 in top - top % 16

-- What guest_load leaves: g_entry, g_base, g_image_size, g_stack_pointer, the memory, the snapshot.
pub record Guest : Type 0 where
  pub entry : ℕ
  pub base : ℕ
  pub image_size : ℕ
  pub stack : ℕ
  pub memory : Memory
  pub snapshot : Option Snapshot

-- What the host answers: the file's bytes (none: it cannot be opened or read), whether the image's
-- range can be reserved, malloc, the stack's address, and whether hybrid_init succeeds.
pub record Host : Type 0 where
  pub file : Option Bytes
  pub reserve : ℕ → ℕ → Bool
  pub room : ℕ → Bool
  pub stack_lo : Option ℕ
  pub hybrid_init : ℕ → ℕ → Bool
  pub frame_mb : Option ℕ
  pub arena_mb : Option ℕ

-- guest_load behind the sections, from where the stack is allocated.
unfoldable pub finish_load : Words → List Slot → Host → Header → Mapped → Option ℕ → Loaded Guest
finish_load w slots host h mapped none = no_stack
finish_load w slots host h mapped (some lo) =
    if host.hybrid_init (mb_env host.frame_mb 2) (mb_env host.arena_mb 32)
    then ok (record {
      entry = h.entry;
      base = h.base;
      image_size = h.image_size;
      stack = stack_pointer lo;
      memory = fill (patch_slots w slots mapped.memory) lo stack_sz 0;
      snapshot = mapped.snapshot;
    })
    else no_boundary

-- guest_load behind the read of the file.
unfoldable pub load_file : Words → List Slot → Host → Memory → Bytes → Loaded Guest
load_file w slots host m img = do
  h ← read_header img
  mapped ← if host.reserve h.base h.image_size then map_image host.room img h m else unmapped
  finish_load w slots host h mapped host.stack_lo

unfoldable pub guest_load : Words → List Slot → Host → Memory → Loaded Guest
guest_load w slots host m = elim host.file [
  | none ↦ short_read
  | some [] ↦ short_read
  | some img ↦ load_file w slots host m img
]
