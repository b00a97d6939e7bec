-- ===== src/Memory.antt =====
-- Byte-addressed memory: memcpy, memset and the little-endian reads and writes, as the two image
-- loaders (src/runtime/guest.c, src/runtime64/loader64.c) use them.
use systemes3recomp.Prelude.{
  ℕ, zero, suc, ◌+◌, ◌-◌, ◌*◌, ◌/◌, ◌%◌, ◌^◌, ◌≤◌, ◌<◌, ◌≡◌, ◌⊎◌, inr, ◌∙◌, ap₂, refl, Bool, ◌&&◌,
  [], ◌∷◌, length, get_or, Bytes, leb, ltb, if◌then◌else◌, arith,
}

-- What every address holds.
abbrev pub Memory : Type 0
Memory = ℕ → ℕ

-- The address `x` lies in the `n` bytes from `at`.
abbrev pub in_range : ℕ → ℕ → ℕ → Bool
in_range at n x = leb at x && ltb x (at + n)

-- memcpy of a buffer to `at`.
unfoldable pub copy_in : Memory → ℕ → Bytes → Memory
copy_in m at bs x = if in_range at (length bs) x then get_or bs (x - at) 0 else m x

-- memset of `n` bytes from `at`.
unfoldable pub fill : Memory → ℕ → ℕ → ℕ → Memory
fill m at n v x = if in_range at n x then v else m x

-- The `n` bytes from `at`, as a buffer.
unfoldable pub copy_out : Memory → ℕ → ℕ → Bytes
copy_out m at zero = []
copy_out m at (suc n) = m at ∷ copy_out m (at + 1) n

-- The four bytes of a word, the low one first.
abbrev pub le32 : ℕ → Bytes
le32 v = (v % 256) ∷ (v / 2 ^ 8 % 256) ∷ (v / 2 ^ 16 % 256) ∷ (v / 2 ^ 24 % 256) ∷ []

unfoldable pub wr32 : Memory → ℕ → ℕ → Memory
unfolding copy_in
wr32 m at v = copy_in m at (le32 v)

unfoldable pub rd32 : Memory → ℕ → ℕ
rd32 m at = m at + 256 * m (at + 1) + 2 ^ 16 * m (at + 2) + 2 ^ 24 * m (at + 3)

-- A word that is written is read back.
pub rd32-wr32 : (m : Memory) (at v : ℕ) → v < 2 ^ 32 → rd32 (wr32 m at v) at ≡ v
unfolding rd32 wr32
rd32-wr32 m at v h = ground arith

-- A write that does not touch a word's four bytes leaves it.
pub rd32-wr32_apart :
    (m : Memory) (at other v : ℕ)
    → (at + 4 ≤ other) ⊎ (other + 4 ≤ at)
    → rd32 (wr32 m at v) other ≡ rd32 m other
unfolding rd32 wr32
rd32-wr32_apart m at other v h = ground arith

pub length-copy_out : (m : Memory) (at n : ℕ) → length (copy_out m at n) ≡ n
unfolding copy_out
length-copy_out m at zero = refl
length-copy_out m at (suc n) = omega (arith, length-copy_out m (at + 1) n)

pub get_or-copy_out :
    (m : Memory) (at n i d : ℕ) → i < n → get_or (copy_out m at n) i d ≡ m (at + i)
unfolding copy_out
get_or-copy_out m at zero i d h = absurd (omega arith)
get_or-copy_out m at (suc n) zero d h = ground arith
get_or-copy_out m at (suc n) (suc i) d h = ground (arith, get_or-copy_out m (at + 1) n i d)

unfoldable pub rd16 : Memory → ℕ → ℕ
rd16 m at = m at + 256 * m (at + 1)

-- Sixty-four bits, as two words.
unfoldable pub rd64 : Memory → ℕ → ℕ
rd64 m at = rd32 m at + 2 ^ 32 * rd32 m (at + 4)

unfoldable pub wr64 : Memory → ℕ → ℕ → Memory
wr64 m at v = wr32 (wr32 m at (v % 2 ^ 32)) (at + 4) (v / 2 ^ 32)

wr32_outside : (m : Memory) (at v x : ℕ) → (x < at) ⊎ (at + 4 ≤ x) → wr32 m at v x ≡ m x
unfolding wr32
wr32_outside m at v x h = ground arith

pub wr64_outside : (m : Memory) (at v x : ℕ) → (x < at) ⊎ (at + 8 ≤ x) → wr64 m at v x ≡ m x
unfolding wr64
wr64_outside m at v x h = ground (
  arith,
  wr32_outside (wr32 m at (v % 2 ^ 32)) (at + 4) (v / 2 ^ 32) x,
  wr32_outside m at (v % 2 ^ 32) x,
)

two_words :
    (m : Memory) (at lo hi : ℕ)
    → lo < 2 ^ 32
    → hi < 2 ^ 32
    → (rd32 (wr32 (wr32 m at lo) (at + 4) hi) at ≡ lo)
      × (rd32 (wr32 (wr32 m at lo) (at + 4) hi) (at + 4) ≡ hi)
two_words m at lo hi h k = (
  rd32-wr32_apart (wr32 m at lo) (at + 4) at hi (inr (omega arith)) ∙ rd32-wr32 m at lo h,
  rd32-wr32 (wr32 m at lo) (at + 4) hi k,
)

pub rd64-wr64 : (m : Memory) (at v : ℕ) → v < 2 ^ 64 → rd64 (wr64 m at v) at ≡ v
unfolding rd64 wr64
rd64-wr64 m at v h =
    let words = two_words m at (v % 2 ^ 32) (v / 2 ^ 32) (omega arith) (omega arith) in
    omega (arith, words)

pub rd64-wr64_apart :
    (m : Memory) (at other v : ℕ)
    → (at + 8 ≤ other) ⊎ (other + 8 ≤ at)
    → rd64 (wr64 m at v) other ≡ rd64 m other
unfolding rd64 wr64
rd64-wr64_apart m at other v h =
    ap₂ (λ (a b : ℕ). a + 2 ^ 32 * b)
      (rd32-wr32_apart (wr32 m at (v % 2 ^ 32)) (at + 4) other (v / 2 ^ 32) (ground arith)
        ∙ rd32-wr32_apart m at other (v % 2 ^ 32) (ground arith))
      (rd32-wr32_apart (wr32 m at (v % 2 ^ 32)) (at + 4) (other + 4) (v / 2 ^ 32) (ground arith)
        ∙ rd32-wr32_apart m at (other + 4) (v % 2 ^ 32) (ground arith))
