-- ===== src/Guest/Tests.antt =====
-- The loader of src/runtime/guest.c at concrete files, and the theorems about it at these.
use systemes3recomp.Guest.Imports.Slots.{Apart, slot}
use systemes3recomp.Prelude.{
  All, ◌⊎◌, ◌≤◌, ◌*◌, ◌+◌, inl, ℕ, ◌-◌, ◌/◌, ◌%◌, ◌^◌, ◌<◌, ◌≡◌, inr, refl, ap, true, false, none,
  some, List, [], ◌∷◌, ◌++◌, length, replicate, Bytes, arith,
}
use systemes3recomp.Jvs.{codes}
use systemes3recomp.Memory.{rd32, Memory, fill, copy_in, copy_out}
use systemes3recomp.Guest.Image.{
  rd32le, ok, fault, Header, Section, read_header, checked, read_machine, read_section,
  place_section,
}
use systemes3recomp.Guest.Image.Sections.{section_byte, header_byte, place_section_wraps}
use systemes3recomp.Guest.Fingerprint.{
  Lifted, file_fingerprint, hash_bytes, hash_byte, is_lifted, leaf, leaf_from, is_lifted-changed,
}
use systemes3recomp.Guest.Snapshot.{Snapshot, guest_diff}
use systemes3recomp.Guest.Snapshot.Diff.{reported, differs}
use systemes3recomp.Guest.Snapshot.Invariant.{guest_diff_lem}
use systemes3recomp.Guest.Imports.{
  Slot, Host, Guest, guest_load, little_endian, stack_pointer, stack_sz,
}
use systemes3recomp.Guest.Imports.Whole.{guest_load_lem}

abbrev zeros : ℕ → Bytes
zeros n = replicate n 0

abbrev word : ℕ → Bytes
word v = (v % 256) ∷ (v / 256 % 256) ∷ (v / 2 ^ 16 % 256) ∷ (v / 2 ^ 24 % 256) ∷ []

-- A file of one section with four bytes, at 0x400000 + 0x1000, entered at its start.
abbrev small : Bytes
small =
    (b'M' ∷ b'Z' ∷ zeros 58)
    ++ (word 0x40
        ++ ((b'P' ∷ b'E' ∷ 0 ∷ 0 ∷ 0x4c ∷ 1 ∷ 1 ∷ 0 ∷ zeros 12)
            ++ ((0x60 ∷ 0 ∷ 0 ∷ 0 ∷ zeros 16)
                ++ (word 0x1000
                    ++ (zeros 8
                        ++ (word 0x400000
                            ++ (zeros 24
                                ++ (word 0x2000
                                    ++ (word 64
                                        ++ (zeros 32
                                            ++ (zeros 12
                                                ++ (word 0x1000
                                                    ++ (word 4
                                                        ++ (word 224
                                                            ++ (zeros 12
                                                            ++ (word 0x60000020
                                                            ++ (1 ∷ 2 ∷ 3 ∷ 4 ∷ [])))))))))))))))))

abbrev small_header : Header
small_header = record {
  base = 0x400000;
  entry = 0x401000;
  image_size = 0x2000;
  hdr_size = 64;
  nsections = 1;
  sections_at = 184;
}

abbrev small_section : Section
small_section = record { vaddr = 0x1000; rsize = 4; roff = 224; flags = 0x60000020 }

small_read : read_header small ≡ ok small_header
unfolding read_header checked read_machine
small_read = refl

small_table : read_section small 184 ≡ ok small_section
unfolding read_section rd32le
small_table = refl

-- It is mapped, its code is kept, and the slot of its one import is patched.
abbrev blank : Memory
blank = λ x. 0

abbrev host : Host
host = record {
  file = some small;
  reserve = λ base size. true;
  room = λ n. true;
  stack_lo = some 0x1000000;
  hybrid_init = λ frame arena. true;
  frame_mb = none;
  arena_mb = some 64;
}

abbrev slots : List Slot
slots =
    record { slot_va = 0x401800; id = 7 }
    ∷ record { slot_va = 0x401804; id = 3 }
    ∷ record { slot_va = 0x401808; id = 7 }
    ∷ []

slots-Apart : Apart slots
slots-Apart = ((inl (omega arith), (inl (omega arith), tt)), ((inl (omega arith), tt), (tt, tt)))

leaf_test : leaf (codes "C:\\game\\mk.exe") ≡ codes "mk.exe"
unfolding leaf leaf_from
leaf_test = refl

guest_load_lem_example :
    (g : Guest) × (mapped : Memory) × (patched : Memory) × (guest_load little_endian slots host
        blank
      ≡ ok g)
    × (g.entry ≡ 0x401000)
    × (g.stack ≡ stack_pointer 0x1000000)
    × ((x : ℕ)
        → mapped x
          ≡ section_byte small small_header
              (small_section ∷ [])
              (header_byte small small_header blank x)
              x)
    × ((i : ℕ)
        → i < length slots
        → rd32 patched (slot slots i).slot_va ≡ (0xe5300000 + 4 * (slot slots i).id) % 2 ^ 32)
    × ((va : ℕ)
        → All (λ (t : Slot). (va + 4 ≤ t.slot_va) ⊎ (t.slot_va + 4 ≤ va)) slots
        → rd32 patched va ≡ rd32 mapped va)
    × (g.memory ≡ fill patched 0x1000000 stack_sz 0)
guest_load_lem_example =
    guest_load_lem little_endian slots host blank small small_header (small_section ∷ []) 0x1000000
      refl (λ e. cc) small_read refl refl (omega arith) (small_table, tt)
      (inr (omega arith, omega arith, omega arith), tt) refl refl slots-Apart

-- A section of 32 bytes, 16 of them from the file offset 0, that runs over the end of 4 GiB.
abbrev wrapping : Section
wrapping = record { vaddr = 0x1000; rsize = 0x20; roff = 0xfffffff0; flags = 0 }

place_section_wraps_example : place_section small small_header wrapping blank ≡ fault
place_section_wraps_example =
    place_section_wraps small small_header wrapping blank (omega arith) (omega arith) (omega arith)
      (omega arith) (omega arith) (omega arith)

-- The fingerprint of a build of two bytes.
abbrev build : Lifted
build = record { hash = file_fingerprint (77 ∷ 90 ∷ []); size = 2 }

build-is_lifted : is_lifted build (77 ∷ 90 ∷ []) ≡ true
unfolding is_lifted file_fingerprint hash_bytes hash_byte
build-is_lifted = refl

is_lifted-changed_example : is_lifted build (77 ∷ 91 ∷ []) ≡ false
is_lifted-changed_example =
    is_lifted-changed build (77 ∷ []) [] 90 91 (omega arith) (omega arith) tt (omega arith)
      build-is_lifted

-- Two changed bytes and a byte between them that is not.
abbrev was : Snapshot
was = record { lo = 0x1000; hi = 0x1004; copy = 1 ∷ 2 ∷ 3 ∷ 4 ∷ [] }

abbrev patched : Memory
patched = copy_in blank 0x1000 (1 ∷ 9 ∷ 3 ∷ 9 ∷ [])

patched_runs :
    (guest_diff patched (some was)).0
    ≡ record { start = 1; size = 1 } ∷ record { start = 3; size = 1 } ∷ []
unfolding guest_diff copy_in copy_out
patched_runs = refl

guest_diff_lem_example :
    ((j : ℕ)
      → j < 0x1004 - 0x1000
      → reported (guest_diff patched (some was)).0 j
        ≡ differs (copy_out patched 0x1000 (0x1004 - 0x1000)) (1 ∷ 2 ∷ 3 ∷ 4 ∷ []) j)
    × ((guest_diff patched (some was)).1
        ≡ some (record was { copy = copy_out patched 0x1000 (0x1004 - 0x1000) }))
    × ((guest_diff patched (guest_diff patched (some was)).1).0 ≡ [])
guest_diff_lem_example =
    guest_diff_lem patched was (omega arith, refl) (omega (arith, ap length patched_runs))
