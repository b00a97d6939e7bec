-- ===== src/Loader64/Tests.antt =====
-- The loader of src/runtime64/loader64.c at a small relocation table, and the theorems about it there.
use systemes3recomp.Prelude.{
  ℕ, ◌+◌, ◌%◌, ◌^◌, ◌<◌, ◌≡◌, inl, inr, refl, some, [], ◌∷◌, length, get_or, All, arith,
}
use systemes3recomp.Memory.{Memory, copy_in, rd16, rd32, rd64}
use systemes3recomp.Loader64.Relocations.{relocate}
use systemes3recomp.Loader64.Relocations.Walk.{table_slots, entry_slots, IsBlocks, Clear}
use systemes3recomp.Loader64.Relocations.Slots.{Clears, Spaced, relocate_lem}

-- One block of two slots and a padding entry, and a block of size 0.
abbrev image : Memory
image =
    copy_in (λ x. 0) 0x1000
      (0 ∷ 0x20 ∷ 0 ∷ 0 ∷ 16 ∷ 0 ∷ 0 ∷ 0 ∷ 0x08 ∷ 0xa0 ∷ 0x10 ∷ 0xa0 ∷ 0 ∷ 0 ∷ 0 ∷ 0 ∷ [])

image_slots : table_slots 25 0 0x1000 0x1018 image ≡ 0x2008 ∷ 0x2010 ∷ []
unfolding table_slots entry_slots copy_in rd32 rd16
image_slots = refl

image-IsBlocks : IsBlocks 25 0x1000 0x1018 image
unfolding copy_in rd32
image-IsBlocks = inr (inr (omega arith, omega arith, omega arith, inr (inl (refl, omega arith))))

image-Clear : All (Clear 0x1000 0x1018) (table_slots 25 0 0x1000 0x1018 image)
unfolding table_slots entry_slots copy_in rd32 rd16
image-Clear = omega arith

image-Spaced : Spaced (table_slots 25 0 0x1000 0x1018 image)
unfolding table_slots entry_slots copy_in rd32 rd16
image-Spaced = omega arith

relocate_lem_example :
    (m' : Memory) × (relocate 0 0x5000 0x1000 24 image ≡ some m')
    × ((i : ℕ)
        → i < length (table_slots 25 0 0x1000 0x1018 image)
        → rd64 m' (get_or (table_slots 25 0 0x1000 0x1018 image) i 0)
          ≡ (rd64 image (get_or (table_slots 25 0 0x1000 0x1018 image) i 0) + 0x5000) % 2 ^ 64)
    × ((x : ℕ) → Clears x (table_slots 25 0 0x1000 0x1018 image) → m' x ≡ image x)
relocate_lem_example =
    relocate_lem 0 0x5000 0x1000 24 image (omega arith) image-IsBlocks image-Clear image-Spaced
