-- ===== src/Fifo.antt =====
-- The byte pipe from a board to the game: `out`, `out_head` and `out_tail` of src/runtime/jvs.c and
-- of src/runtime/card.c, which declare it alike, with out_push, out_avail and out_take.
-- The array is a function on indices, and only those below `fifo_size` are used (`IsValid`).
pub mod Refine
use systemes3recomp.Prelude.{
  ℕ, zero, suc, ◌+◌, ◌-◌, ◌%◌, ◌^◌, ◌<◌, true, false, ◌==◌, if◌then◌else◌, Bytes, [], ◌∷◌,
}

abbrev pub fifo_size : ℕ
fifo_size = 4096

pub record Fifo : Type 0 where
  pub out : ℕ → ℕ
  pub head : ℕ
  pub tail : ℕ

abbrev pub store : (ℕ → ℕ) → ℕ → ℕ → ℕ → ℕ
store f i b j = if i == j then b else f j

-- A full pipe drops the byte.
unfoldable pub push : Fifo → ℕ → Fifo
push f b =
    let next = (f.tail + 1) % fifo_size in
    if next == f.head then f else record f { out = store f.out f.tail b; tail = next }

-- The bytes waiting, as jvs.c computes it.
unfoldable pub avail : Fifo → ℕ
avail f = (f.tail + fifo_size - f.head) % fifo_size

-- As card.c computes it: the difference wraps at 32 bits.
unfoldable pub avail_wrapped : Fifo → ℕ
avail_wrapped f = ((f.tail + 2 ^ 32 - f.head) % 2 ^ 32 + fifo_size) % 2 ^ 32 % fifo_size

-- At most `n` bytes, oldest first.
unfoldable pub take_out : Fifo → ℕ → Bytes × Fifo
take_out f zero = ([], f)
take_out f (suc n) = elim (f.head == f.tail) [
  | true ↦ ([], f)
  | false ↦
      let (bs, g) = take_out (record f { head = (f.head + 1) % fifo_size }) n in
      (f.out f.head ∷ bs, g)
]

abbrev pub empty : Fifo
empty = record { out = λ _. 0; head = 0; tail = 0 }

pub record IsValid (f : Fifo) : Type 0 where
  pub head_in : f.head < fifo_size
  pub tail_in : f.tail < fifo_size
