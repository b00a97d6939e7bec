-- ===== src/Loader64/Relocations/Walk.antt =====
-- The walk over the relocation blocks ends, and shifts the slots that the table lists.
use systemes3recomp.Prelude.{
  ℕ, zero, suc, ◌+◌, ◌-◌, ◌*◌, ◌%◌, ◌^◌, ◌≤◌, ◌<◌, ◌≡◌, ◌≢◌, ◌⊎◌, inl, inr, refl, ap, ◌∙◌, Option,
  none, some, List, [], ◌∷◌, ◌++◌, All, leb, ◌==◌, if◌then◌else◌, Bool-cases, arith,
}
use systemes3recomp.Memory.{Memory, rd16, rd32, rd64, wr64_outside}
use systemes3recomp.Loader64.Relocations.{
  shift, shift_entry, slot_of, entry_count, reloc_entries, reloc_blocks, relocate,
}

blocks_end :
    (f base delta p stop : ℕ) (m : Memory)
    → stop - p < f
    → reloc_blocks f base delta p stop m ≢ none
unfolding reloc_blocks
blocks_end zero base delta p stop m h = absurd (omega arith)
blocks_end (suc f) base delta p stop m h =
    let size : ℕ = rd32 m (p + 4) in
    let moved : Memory = reloc_entries base delta (rd32 m p) (entry_count size) (p + 8) m in
    elim (Bool-cases (leb stop p)) [
      | inl e ↦ rw e (λ s. cc)
      | inr e ↦ elim (Bool-cases (size == 0)) [
        | inl z ↦ rw (e, z) (λ s. cc)
        | inr z ↦ rw (e, z) (blocks_end f base delta (p + size) stop moved (ground arith))
      ]
    ]

-- The walk over the relocation table ends, whatever the table holds.
pub relocate-ends : (base delta va size : ℕ) (m : Memory) → relocate base delta va size m ≢ none
unfolding relocate
relocate-ends base delta va size m =
    ground (arith, blocks_end (suc size) base delta (base + va) (base + va + size) m (omega arith))

abbrev pub with_entry : Option ℕ → List ℕ → List ℕ
with_entry none slots = slots
with_entry (some slot) slots = slot ∷ slots

-- The slots that a block's entries name, and those of the blocks of a table.
unfoldable pub entry_slots : ℕ → ℕ → ℕ → ℕ → Memory → List ℕ
entry_slots base page zero ent m = []
entry_slots base page (suc n) ent m =
    with_entry (slot_of base page (rd16 m ent)) (entry_slots base page n (ent + 2) m)

unfoldable pub table_slots : ℕ → ℕ → ℕ → ℕ → Memory → List ℕ
table_slots zero base p stop m = []
table_slots (suc f) base p stop m =
    let size = rd32 m (p + 4) in
    let more : List ℕ =
      entry_slots base (rd32 m p) (entry_count size) (p + 8) m
      ++ table_slots f base (p + size) stop m in
    if leb stop p then [] else if size == 0 then [] else more

unfoldable pub shift_all : ℕ → Memory → List ℕ → Memory
shift_all delta m [] = m
shift_all delta m (s ∷ ss) = shift_all delta (shift delta m s) ss

-- Every block up to the one that ends the table has room for its header and lies in the table.
abbrev pub IsBlocks : ℕ → ℕ → ℕ → Memory → Type 0
IsBlocks zero p stop m = ⊥
IsBlocks (suc f) p stop m =
    (stop ≤ p)
    ⊎ ((rd32 m (p + 4) ≡ 0 × (p + 8 ≤ stop))
        ⊎ ((8 ≤ rd32 m (p + 4))
            × (rd32 m (p + 4) < 2 ^ 32)
            × (p + rd32 m (p + 4) ≤ stop)
            × IsBlocks f (p + rd32 m (p + 4)) stop m))

-- The table as it was, and a slot clear of it.
abbrev pub Agree : ℕ → ℕ → Memory → Memory → Type 0
Agree lo hi m₀ m = (x : ℕ) → lo ≤ x → x < hi → m x ≡ m₀ x

abbrev pub Clear : ℕ → ℕ → ℕ → Type 0
Clear lo hi slot = (slot + 8 ≤ lo) ⊎ (hi ≤ slot)

Agree-rd16 :
    (lo hi at : ℕ) (m₀ m : Memory)
    → Agree lo hi m₀ m
    → lo ≤ at
    → at + 2 ≤ hi
    → rd16 m at ≡ rd16 m₀ at
unfolding rd16
Agree-rd16 lo hi at m₀ m a l h =
    omega (arith, a at (omega arith) (omega arith), a (at + 1) (omega arith) (omega arith))

pub Agree-rd32 :
    (lo hi at : ℕ) (m₀ m : Memory)
    → Agree lo hi m₀ m
    → lo ≤ at
    → at + 4 ≤ hi
    → rd32 m at ≡ rd32 m₀ at
unfolding rd32
Agree-rd32 lo hi at m₀ m a l h = omega (
  arith,
  a at (omega arith) (omega arith),
  a (at + 1) (omega arith) (omega arith),
  a (at + 2) (omega arith) (omega arith),
  a (at + 3) (omega arith) (omega arith),
)

Agree-shift :
    (lo hi delta slot : ℕ) (m₀ m : Memory)
    → Clear lo hi slot
    → Agree lo hi m₀ m
    → Agree lo hi m₀ (shift delta m slot)
unfolding shift
Agree-shift lo hi delta slot m₀ m c a x l h =
    wr64_outside m slot ((rd64 m slot + delta) % 2 ^ 64) x (ground arith) ∙ a x l h

pub Agree-shift_all :
    (lo hi delta : ℕ) (ss : List ℕ) (m₀ m : Memory)
    → All (Clear lo hi) ss
    → Agree lo hi m₀ m
    → Agree lo hi m₀ (shift_all delta m ss)
unfolding shift_all
Agree-shift_all lo hi delta [] m₀ m c a = a
Agree-shift_all lo hi delta (s ∷ ss) m₀ m c a =
    Agree-shift_all lo hi delta ss m₀ (shift delta m s) c.1 (Agree-shift lo hi delta s m₀ m c.0 a)

Agree-shift_entry :
    (lo hi delta : ℕ) (o : Option ℕ) (ss : List ℕ) (m₀ m : Memory)
    → All (Clear lo hi) (with_entry o ss)
    → Agree lo hi m₀ m
    → Agree lo hi m₀ (shift_entry delta m o) × All (Clear lo hi) ss
Agree-shift_entry lo hi delta none ss m₀ m c a = (a, c)
Agree-shift_entry lo hi delta (some s) ss m₀ m c a = (Agree-shift lo hi delta s m₀ m c.0 a, c.1)

shift_all-with_entry :
    (delta : ℕ) (m : Memory) (o : Option ℕ) (ss : List ℕ)
    → shift_all delta (shift_entry delta m o) ss ≡ shift_all delta m (with_entry o ss)
unfolding shift_all
shift_all-with_entry delta m none ss = refl
shift_all-with_entry delta m (some s) ss = refl

pub entries_shift :
    (lo hi base delta page n ent : ℕ) (m₀ m : Memory)
    → Agree lo hi m₀ m
    → lo ≤ ent
    → ent + 2 * n ≤ hi
    → All (Clear lo hi) (entry_slots base page n ent m₀)
    → reloc_entries base delta page n ent m ≡ shift_all delta m (entry_slots base page n ent m₀)
unfolding reloc_entries entry_slots
entries_shift lo hi base delta page zero ent m₀ m a l h c = unfold shift_all in refl
entries_shift lo hi base delta page (suc n) ent m₀ m a l h c =
    let o : Option ℕ = slot_of base page (rd16 m₀ ent) in
    let rest : List ℕ = entry_slots base page n (ent + 2) m₀ in
    let (a', c') = Agree-shift_entry lo hi delta o rest m₀ m c a in
    ap
      (λ (e : ℕ).
        reloc_entries base delta page n (ent + 2) (shift_entry delta m (slot_of base page e)))
      (Agree-rd16 lo hi ent m₀ m a l (omega arith))
    ∙ entries_shift lo hi base delta page n (ent + 2) m₀ (shift_entry delta m o) a' (omega arith)
        (omega arith) c'
    ∙ shift_all-with_entry delta m o rest

pub shift_all-append :
    (delta : ℕ) (m : Memory) (ss ts : List ℕ)
    → shift_all delta m (ss ++ ts) ≡ shift_all delta (shift_all delta m ss) ts
unfolding shift_all
shift_all-append delta m [] ts = refl
shift_all-append delta m (s ∷ ss) ts = shift_all-append delta (shift delta m s) ss ts

pub All-append_inv : (P : ℕ → Type 0) (ss ts : List ℕ) → All P (ss ++ ts) → All P ss × All P ts
All-append_inv P [] ts a = (tt, a)
All-append_inv P (s ∷ ss) ts a = let (b, c) = All-append_inv P ss ts a.1 in ((a.0, b), c)
