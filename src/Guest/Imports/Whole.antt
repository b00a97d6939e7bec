-- ===== src/Guest/Imports/Whole.antt =====
-- guest_load of src/runtime/guest.c from the file to the guest it leaves.
use systemes3recomp.Prelude.{
  ◌+◌, ◌*◌, ◌%◌, ◌^◌, ◌<◌, ◌⊎◌, ℕ, ◌≤◌, ◌≡◌, ◌≢◌, refl, true, some, List, [], ◌∷◌, length, All,
  Bytes, arith,
}
use systemes3recomp.Memory.{Memory, fill}
use systemes3recomp.Guest.Image.{ok, Header, Section, read_header}
use systemes3recomp.Guest.Image.Sections.{IsTable, Fits, section_byte, header_byte, map_image_lem}
use systemes3recomp.Guest.Imports.Slots.{Apart, slot, patch_slots_lem, slot_kept}
use systemes3recomp.Guest.Imports.{
  Words, Slot, Host, Guest, mb_env, stack_sz, stack_pointer, patch_slots, finish_load, load_file,
  guest_load,
}

-- guest_load of a file whose header is valid and whose sections fit, where the host gives it the
-- image's range, a stack and hybrid_init, and the slots of the import table do not overlap, succeeds: it
-- enters at the header's entry point. Behind its loop over the slots, the word at each holds the address
-- 0xe5300000 + 4 * id of its import, and every other word is as the file's sections and headers have it;
-- memory is that, with the stack cleared.
pub guest_load_lem :
    (w : Words) (slots : List Slot) (host : Host) (m : Memory) (img : Bytes) (h : Header)
    (ss : List Section) (lo : ℕ)
    → host.file ≡ some img
    → img ≢ []
    → read_header img ≡ ok h
    → host.reserve h.base h.image_size ≡ true
    → h.nsections ≡ length ss
    → h.hdr_size ≤ h.image_size
    → IsTable img h.sections_at ss
    → All (Fits img h) ss
    → host.stack_lo ≡ some lo
    → host.hybrid_init (mb_env host.frame_mb 2) (mb_env host.arena_mb 32) ≡ true
    → Apart slots
    → (g : Guest) × (mapped : Memory) × (patched : Memory) × (guest_load w slots host m ≡ ok g)
      × (g.entry ≡ h.entry)
      × (g.stack ≡ stack_pointer lo)
      × ((x : ℕ) → mapped x ≡ section_byte img h ss (header_byte img h m x) x)
      × ((i : ℕ)
          → i < length slots
          → w.load patched (slot slots i).slot_va ≡ (0xe5300000 + 4 * (slot slots i).id) % 2 ^ 32)
      × ((va : ℕ)
          → All (λ (t : Slot). (va + 4 ≤ t.slot_va) ⊎ (t.slot_va + 4 ≤ va)) slots
          → w.load patched va ≡ w.load mapped va)
      × (g.memory ≡ fill patched lo stack_sz 0)
unfolding guest_load load_file finish_load
guest_load_lem w slots host m [] h ss lo f ne r res n hs t fits st hy a = absurd (ne refl)
guest_load_lem w slots host m (b ∷ bs) h ss lo f ne r res n hs t fits st hy a =
    let (mapped, e, bytes) = map_image_lem host.room (b ∷ bs) h ss m n hs t fits in
    (
      record {
        entry = h.entry;
        base = h.base;
        image_size = h.image_size;
        stack = stack_pointer lo;
        memory = fill (patch_slots w slots mapped.memory) lo stack_sz 0;
        snapshot = mapped.snapshot;
      },
      mapped.memory,
      patch_slots w slots mapped.memory,
      ground (arith, e),
      refl,
      refl,
      bytes,
      λ i l. patch_slots_lem w slots mapped.memory i a l,
      λ va k. slot_kept w slots va mapped.memory k,
      refl,
    )
