-- ===== src/Guest/Imports/Slots.antt =====
-- The import table's slots and the guest's stack, as guest_load of src/runtime/guest.c leaves them.
use systemes3recomp.Prelude.{
  ℕ, zero, suc, ◌+◌, ◌-◌, ◌%◌, ◌≤◌, ◌<◌, ◌≡◌, ◌⊎◌, inl, inr, refl, ◌∙◌, Bool, true, false, List, [],
  ◌∷◌, length, get_or, ap, All, ◌==◌, if◌then◌else◌, Bool-cases, arith,
}
use systemes3recomp.Memory.{Memory}
use systemes3recomp.Guest.Image.{u32}
use systemes3recomp.Guest.Imports.{
  Words, Slot, hle_addr, patch_slots, guest_patch_import, stack_sz, page, stack_pointer,
}

-- The slots' words do not overlap.
abbrev pub Apart : List Slot → Type 0
Apart [] = Unit {0}
Apart (s ∷ ss) =
    All (λ (t : Slot). (s.slot_va + 4 ≤ t.slot_va) ⊎ (t.slot_va + 4 ≤ s.slot_va)) ss × Apart ss

swap_sides : (P Q : Type 0) → P ⊎ Q → Q ⊎ P
swap_sides P Q (inl p) = inr p
swap_sides P Q (inr q) = inl q

-- A later patch leaves a slot that stands apart from the slots patched.
import_kept :
    (w : Words) (ss : List Slot) (id value va : ℕ) (m : Memory)
    → All (λ (t : Slot). (va + 4 ≤ t.slot_va) ⊎ (t.slot_va + 4 ≤ va)) ss
    → w.load (guest_patch_import w ss id value m) va ≡ w.load m va
unfolding guest_patch_import
import_kept w [] id value va m a = refl
import_kept w (s ∷ ss) id value va m a = elim (Bool-cases (s.id == id)) [
  | inl e ↦ rw e (
      import_kept w ss id value va (w.store m s.slot_va value) a.1
      ∙ w.load-store_apart m s.slot_va va value (swap_sides _ _ a.0))
  | inr e ↦ rw e (import_kept w ss id value va m a.1)
]

abbrev pub slot : List Slot → ℕ → Slot
slot ss i = get_or ss i (record { slot_va = 0; id = 0 })

slot-All : (P : Slot → Type 0) (ss : List Slot) (i : ℕ) → All P ss → i < length ss → P (slot ss i)
slot-All P [] i a h = absurd (omega arith)
slot-All P (s ∷ ss) zero a h = a.0
slot-All P (s ∷ ss) (suc i) a h = slot-All P ss i a.1 (omega arith)

-- One patch seen from a slot apart.
patched_apart :
    (w : Words) (m : Memory) (at va value : ℕ) (b : Bool)
    → (at + 4 ≤ va) ⊎ (va + 4 ≤ at)
    → w.load (if b then w.store m at value else m) va ≡ w.load m va
patched_apart w m at va value true a = w.load-store_apart m at va value a
patched_apart w m at va value false a = refl

patched_here :
    (w : Words) (m : Memory) (at value : ℕ) (b : Bool)
    → value < u32
    → w.load (if b then w.store m at value else m) at ≡ (if b then value else w.load m at)
patched_here w m at value true v = w.load-store m at value v
patched_here w m at value false v = refl

-- guest_patch_import fills every slot of the import, wherever it stands in the table, and leaves the
-- slots of the other imports. The slots' words do not overlap.
pub guest_patch_import_lem :
    (w : Words) (ss : List Slot) (id value : ℕ) (m : Memory) (i : ℕ)
    → value < u32
    → Apart ss
    → i < length ss
    → w.load (guest_patch_import w ss id value m) (slot ss i).slot_va
      ≡ (if (slot ss i).id == id then value else w.load m (slot ss i).slot_va)
unfolding guest_patch_import
guest_patch_import_lem w [] id value m i v a h = absurd (omega arith)
guest_patch_import_lem w (s ∷ ss) id value m zero v a h =
    import_kept w ss id value s.slot_va (if s.id == id then w.store m s.slot_va value else m) a.0
    ∙ patched_here w m s.slot_va value (s.id == id) v
guest_patch_import_lem w (s ∷ ss) id value m (suc i) v a h =
    let next : Memory = if s.id == id then w.store m s.slot_va value else m in
    guest_patch_import_lem w ss id value next i v a.1 (omega arith)
    ∙ ap (λ (x : ℕ). if (slot ss i).id == id then value else x)
        (patched_apart w m s.slot_va (slot ss i).slot_va value (s.id == id)
          (slot-All _ ss i a.0 (omega arith)))

pub slot_kept :
    (w : Words) (ss : List Slot) (va : ℕ) (m : Memory)
    → All (λ (t : Slot). (va + 4 ≤ t.slot_va) ⊎ (t.slot_va + 4 ≤ va)) ss
    → w.load (patch_slots w ss m) va ≡ w.load m va
unfolding patch_slots
slot_kept w [] va m a = refl
slot_kept w (s ∷ ss) va m a =
    slot_kept w ss va (w.store m s.slot_va (hle_addr s.id)) a.1
    ∙ w.load-store_apart m s.slot_va va (hle_addr s.id) (swap_sides _ _ a.0)

-- Behind guest_load's loop every slot of the import table holds its import's sentinel. The slots'
-- words do not overlap.
pub patch_slots_lem :
    (w : Words) (ss : List Slot) (m : Memory) (i : ℕ)
    → Apart ss
    → i < length ss
    → w.load (patch_slots w ss m) (slot ss i).slot_va ≡ hle_addr (slot ss i).id
unfolding patch_slots
patch_slots_lem w [] m i a h = absurd (omega arith)
patch_slots_lem w (s ∷ ss) m zero a h =
    slot_kept w ss s.slot_va (w.store m s.slot_va (hle_addr s.id)) a.0
    ∙ w.load-store m s.slot_va (hle_addr s.id) (omega arith)
patch_slots_lem w (s ∷ ss) m (suc i) a h =
    patch_slots_lem w ss (w.store m s.slot_va (hle_addr s.id)) i a.1 (omega arith)

-- The guest's stack pointer is on a 16-byte boundary, with room below it and more than a page above
-- it in the stack that was allocated, where that lies below 4 GiB.
pub stack_pointer_bounds :
    (lo : ℕ)
    → lo + stack_sz ≤ u32
    → (stack_pointer lo % 16 ≡ 0)
      × (lo + stack_sz - page - 16 < stack_pointer lo)
      × (stack_pointer lo + page ≤ lo + stack_sz)
unfolding stack_pointer
stack_pointer_bounds lo h = omega arith
