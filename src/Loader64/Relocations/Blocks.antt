-- ===== src/Loader64/Relocations/Blocks.antt =====
-- The walk over the blocks of src/runtime64/loader64.c shifts the slots that the table lists.
use systemes3recomp.Prelude.{
  ℕ, zero, suc, ◌+◌, ◌≤◌, ◌<◌, ◌≡◌, inl, inr, refl, sym, ap, subst, ◌∙◌, false, some, List, [],
  ◌++◌, All, leb, ◌==◌, arith,
}
use systemes3recomp.Memory.{Memory, rd32}
use systemes3recomp.Loader64.Relocations.{entry_count, reloc_entries, reloc_blocks}
use systemes3recomp.Loader64.Relocations.Walk.{
  Agree, Clear, IsBlocks, entry_slots, table_slots, shift_all, Agree-rd32, entries_shift,
  Agree-shift_all, shift_all-append, All-append_inv,
}

gt→leb : (a b : ℕ) → b < a → leb a b ≡ false
gt→leb a b h = ground arith

ne→== : (a : ℕ) → 0 < a → (a == 0) ≡ false
ne→== a h = ground arith

-- The two ends of the table.
slots_done : (f base p stop : ℕ) (m : Memory) → stop ≤ p → table_slots (suc f) base p stop m ≡ []
unfolding table_slots
slots_done f base p stop m h = ground arith

slots_zero :
    (f base p stop : ℕ) (m : Memory) → rd32 m (p + 4) ≡ 0 → table_slots (suc f) base p stop m ≡ []
unfolding table_slots
slots_zero f base p stop m h = ground arith

walk_done :
    (f base delta p stop : ℕ) (m : Memory)
    → stop ≤ p
    → reloc_blocks (suc f) base delta p stop m ≡ some m
unfolding reloc_blocks
walk_done f base delta p stop m h = ground arith

walk_zero :
    (f base delta p stop : ℕ) (m : Memory)
    → rd32 m (p + 4) ≡ 0
    → reloc_blocks (suc f) base delta p stop m ≡ some m
unfolding reloc_blocks
walk_zero f base delta p stop m h = ground arith

-- One block that does not end the table, in the table's slots and in the walk.
slots_step :
    (f base p stop size : ℕ) (m : Memory)
    → rd32 m (p + 4) ≡ size
    → p < stop
    → 0 < size
    → table_slots (suc f) base p stop m
      ≡ entry_slots base (rd32 m p) (entry_count size) (p + 8) m
        ++ table_slots f base (p + size) stop m
unfolding table_slots
slots_step f base p stop size m e h s =
    subst
      (λ (k : ℕ).
        0 < k
        → table_slots (suc f) base p stop m
          ≡ entry_slots base (rd32 m p) (entry_count k) (p + 8) m
            ++ table_slots f base (p + k) stop m)
      e (λ (g : 0 < rd32 m (p + 4)). rw (gt→leb stop p h, ne→== (rd32 m (p + 4)) g) refl) s

walk_step :
    (f base delta p stop size : ℕ) (m : Memory)
    → rd32 m (p + 4) ≡ size
    → p < stop
    → 0 < size
    → reloc_blocks (suc f) base delta p stop m
      ≡ reloc_blocks f base delta
          (p + size)
          stop
          (reloc_entries base delta (rd32 m p) (entry_count size) (p + 8) m)
unfolding reloc_blocks
walk_step f base delta p stop size m e h s =
    subst
      (λ (k : ℕ).
        0 < k
        → reloc_blocks (suc f) base delta p stop m
          ≡ reloc_blocks f base delta (p + k) stop
              (reloc_entries base delta (rd32 m p) (entry_count k) (p + 8) m))
      e (λ (g : 0 < rd32 m (p + 4)). rw (gt→leb stop p h, ne→== (rd32 m (p + 4)) g) refl) s

pub blocks_shift :
    (f base delta lo p stop : ℕ) (m₀ m : Memory)
    → Agree lo stop m₀ m
    → lo ≤ p
    → IsBlocks f p stop m₀
    → All (Clear lo stop) (table_slots f base p stop m₀)
    → reloc_blocks f base delta p stop m ≡ some (shift_all delta m (table_slots f base p stop m₀))
blocks_shift zero base delta lo p stop m₀ m a l w c = absurd w
blocks_shift (suc f) base delta lo p stop m₀ m a l (inl e) c =
    rw (walk_done f base delta p stop m e, slots_done f base p stop m₀ e) (unfold shift_all in refl)
blocks_shift (suc f) base delta lo p stop m₀ m a l (inr (inl (z, h))) c =
    rw
      (
        walk_zero f base delta p stop m
            (Agree-rd32 lo stop (p + 4) m₀ m a (omega arith) (omega arith) ∙ z),
        slots_zero f base p stop m₀ z,
      )
      (unfold shift_all in refl)
blocks_shift (suc f) base delta lo p stop m₀ m a l (inr (inr (s, u, h, w))) c =
    let size : ℕ = rd32 m₀ (p + 4) in
    let here : List ℕ = entry_slots base (rd32 m₀ p) (entry_count size) (p + 8) m₀ in
    let later : List ℕ = table_slots f base (p + size) stop m₀ in
    let same : rd32 m (p + 4) ≡ size =
      Agree-rd32 lo stop (p + 4) m₀ m a (omega arith) (omega arith) in
    let split : table_slots (suc f) base p stop m₀ ≡ here ++ later =
      slots_step f base p stop size m₀ refl (omega arith) (omega arith) in
    let (ch, cl) =
      All-append_inv (Clear lo stop) here later (subst (All (Clear lo stop)) split c) in
    walk_step f base delta p stop size m same (omega arith) (omega arith)
    ∙ ap
        (λ (page : ℕ).
          reloc_blocks f base delta (p + size) stop
            (reloc_entries base delta page (entry_count size) (p + 8) m))
        (Agree-rd32 lo stop p m₀ m a l (omega arith))
    ∙ ap (reloc_blocks f base delta (p + size) stop) (
        entries_shift lo stop base delta (rd32 m₀ p) (entry_count size) (p + 8) m₀ m a (omega arith)
          (omega arith) ch)
    ∙ blocks_shift f base delta lo (p + size) stop m₀ (shift_all delta m here)
        (Agree-shift_all lo stop delta here m₀ m ch a) (omega arith) w cl
    ∙ ap (λ (x : Memory). some x)
        (sym (shift_all-append delta m here later) ∙ ap (shift_all delta m) (sym split))
