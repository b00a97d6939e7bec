-- ===== src/Loader64/Relocations/Slots.antt =====
-- What the relocations of src/runtime64/loader64.c do to the image's slots.
use systemes3recomp.Prelude.{
  ℕ, zero, suc, ◌+◌, ◌%◌, ◌^◌, ◌≤◌, ◌<◌, ◌≡◌, ◌⊎◌, refl, ap, ◌∙◌, false, some, List, [], ◌∷◌,
  length, get_or, All, ◌==◌, arith,
}
use systemes3recomp.Memory.{Memory, rd64, wr64_outside, rd64-wr64, rd64-wr64_apart}
use systemes3recomp.Loader64.Relocations.{shift, relocate}
use systemes3recomp.Loader64.Relocations.Walk.{Clear, IsBlocks, table_slots, shift_all}
use systemes3recomp.Loader64.Relocations.Blocks.{blocks_shift}

-- The slots do not overlap.
abbrev pub Spaced : List ℕ → Type 0
Spaced [] = Unit {0}
Spaced (s ∷ ss) = All (λ t. (s + 8 ≤ t) ⊎ (t + 8 ≤ s)) ss × Spaced ss

rd64-shift_apart :
    (delta slot other : ℕ) (m : Memory)
    → (slot + 8 ≤ other) ⊎ (other + 8 ≤ slot)
    → rd64 (shift delta m slot) other ≡ rd64 m other
unfolding shift
rd64-shift_apart delta slot other m h =
    rd64-wr64_apart m slot other ((rd64 m slot + delta) % 2 ^ 64) h

rd64-shift_all_apart :
    (delta other : ℕ) (ss : List ℕ) (m : Memory)
    → All (λ t. (other + 8 ≤ t) ⊎ (t + 8 ≤ other)) ss
    → rd64 (shift_all delta m ss) other ≡ rd64 m other
unfolding shift_all
rd64-shift_all_apart delta other [] m a = refl
rd64-shift_all_apart delta other (s ∷ ss) m a =
    rd64-shift_all_apart delta other ss (shift delta m s) a.1
    ∙ rd64-shift_apart delta s other m (ground arith)

rd64-shift_self :
    (delta slot : ℕ) (m : Memory) → rd64 (shift delta m slot) slot ≡ (rd64 m slot + delta) % 2 ^ 64
unfolding shift
rd64-shift_self delta slot m = rd64-wr64 m slot ((rd64 m slot + delta) % 2 ^ 64) (omega arith)

get_or-All : (P : ℕ → Type 0) (ss : List ℕ) (i : ℕ) → All P ss → i < length ss → P (get_or ss i 0)
get_or-All P [] i a h = absurd (omega arith)
get_or-All P (s ∷ ss) zero a h = a.0
get_or-All P (s ∷ ss) (suc i) a h = get_or-All P ss i a.1 (omega arith)

shift_all_slot :
    (delta : ℕ) (ss : List ℕ) (m : Memory) (i : ℕ)
    → Spaced ss
    → i < length ss
    → rd64 (shift_all delta m ss) (get_or ss i 0) ≡ (rd64 m (get_or ss i 0) + delta) % 2 ^ 64
unfolding shift_all
shift_all_slot delta [] m i s h = absurd (omega arith)
shift_all_slot delta (t ∷ ss) m zero s h =
    rd64-shift_all_apart delta t ss (shift delta m t) s.0 ∙ rd64-shift_self delta t m
shift_all_slot delta (t ∷ ss) m (suc i) s h =
    shift_all_slot delta ss (shift delta m t) i s.1 (omega arith)
    ∙ ap (λ (v : ℕ). (v + delta) % 2 ^ 64)
        (rd64-shift_apart delta t (get_or ss i 0) m (get_or-All _ ss i s.0 (omega arith)))

-- An address in none of the slots.
abbrev pub Clears : ℕ → List ℕ → Type 0
Clears x ss = All (λ s. (x < s) ⊎ (s + 8 ≤ x)) ss

shift_all_outside :
    (delta : ℕ) (ss : List ℕ) (m : Memory) (x : ℕ) → Clears x ss → shift_all delta m ss x ≡ m x
unfolding shift_all shift
shift_all_outside delta [] m x o = refl
shift_all_outside delta (s ∷ ss) m x o =
    shift_all_outside delta ss (shift delta m s) x o.1
    ∙ wr64_outside m s ((rd64 m s + delta) % 2 ^ 64) x o.0

ne_zero : (a : ℕ) → 0 < a → (a == 0) ≡ false
ne_zero a h = ground arith

-- For an image that is not at its preferred base, every slot that the table lists is moved by the
-- difference once, on 64 bits, and no other byte changes: if the table's blocks are well formed, and
-- its slots overlap neither one another nor the table.
pub relocate_lem :
    (base delta va size : ℕ) (m : Memory)
    → 0 < delta
    → IsBlocks (suc size) (base + va) (base + va + size) m
    → All
        (Clear (base + va) (base + va + size))
        (table_slots (suc size) base (base + va) (base + va + size) m)
    → Spaced (table_slots (suc size) base (base + va) (base + va + size) m)
    → (m' : Memory) × (relocate base delta va size m ≡ some m')
      × ((i : ℕ)
          → i < length (table_slots (suc size) base (base + va) (base + va + size) m)
          → rd64 m' (get_or (table_slots (suc size) base (base + va) (base + va + size) m) i 0)
            ≡ (rd64 m (get_or (table_slots (suc size) base (base + va) (base + va + size) m) i 0)
                + delta)
              % 2 ^ 64)
      × ((x : ℕ)
          → Clears x (table_slots (suc size) base (base + va) (base + va + size) m)
          → m' x ≡ m x)
unfolding relocate
relocate_lem base delta va size m d w c s =
    let slots : List ℕ = table_slots (suc size) base (base + va) (base + va + size) m in
    (
      shift_all delta m slots,
      rw (ne_zero delta d) (
          blocks_shift (suc size) base delta (base + va) (base + va) (base + va + size) m m
            (λ x l h. refl) (omega arith) w c),
      λ i h. shift_all_slot delta slots m i s h,
      λ x o. shift_all_outside delta slots m x o,
    )
