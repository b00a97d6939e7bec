-- ===== src/Loader64/Relocations.antt =====
-- The relocations of the 64-bit loader: the walk of src/runtime64/loader64.c over the .reloc blocks.
pub mod Walk
pub mod Blocks
pub mod Slots
use systemes3recomp.Prelude.{
  ℕ, zero, suc, ◌+◌, ◌-◌, ◌*◌, ◌/◌, ◌%◌, ◌^◌, ◌≤◌, ◌<◌, ◌≡◌, ◌≢◌, ◌⊎◌, inl, inr, refl, sym, ap, ◌∙◌,
  Bool, true, false, not, Option, none, some, List, [], ◌∷◌, ◌++◌, length, All, leb, ltb, ◌==◌,
  if◌then◌else◌, Bool-cases, arith,
}
use systemes3recomp.Memory.{Memory, rd16, rd32, rd64, wr64}

-- *slot += g_image_delta, on 64 bits.
unfoldable pub shift : ℕ → Memory → ℕ → Memory
shift delta m slot = wr64 m slot ((rd64 m slot + delta) % 2 ^ 64)

-- Where an entry of a block points, if it is a DIR64 one.
abbrev pub slot_of : ℕ → ℕ → ℕ → Option ℕ
slot_of base page e = if e / 2 ^ 12 == 10 then some (base + (page + e % 2 ^ 12) % 2 ^ 32) else none

-- Such an entry's slot is shifted; the others are padding.
abbrev pub shift_entry : ℕ → Memory → Option ℕ → Memory
shift_entry delta m none = m
shift_entry delta m (some slot) = shift delta m slot

-- The loop over `n` entries from `ent`.
unfoldable pub reloc_entries : ℕ → ℕ → ℕ → ℕ → ℕ → Memory → Memory
reloc_entries base delta page zero ent m = m
reloc_entries base delta page (suc n) ent m =
    reloc_entries base delta page n (ent + 2) (shift_entry delta m (slot_of base page (rd16 m ent)))

-- How many entries a block of a size has: (SizeOfBlock - sizeof *br) / 2 on 64 bits, cut to 32.
abbrev pub entry_count : ℕ → ℕ
entry_count size = (size + 2 ^ 64 - 8) % 2 ^ 64 / 2 % 2 ^ 32

-- The loop over the blocks from `p` to `stop`. A size of 0 ends it. none is that the fuel ran out.
unfoldable pub reloc_blocks : ℕ → ℕ → ℕ → ℕ → ℕ → Memory → Option Memory
unfolding reloc_entries
reloc_blocks zero base delta p stop m = none
reloc_blocks (suc f) base delta p stop m =
    let size = rd32 m (p + 4) in
    let moved = reloc_entries base delta (rd32 m p) (entry_count size) (p + 8) m in
    let more : Option Memory = reloc_blocks f base delta (p + size) stop moved in
    if leb stop p then some m else if size == 0 then some m else more

-- The relocations, for a directory entry of `size` bytes at `va`; with no delta there are none.
unfoldable pub relocate : ℕ → ℕ → ℕ → ℕ → Memory → Option Memory
unfolding reloc_blocks
relocate base delta va size m =
    if delta == 0
    then some m
    else reloc_blocks (suc size) base delta (base + va) (base + va + size) m
