-- ===== src/Callbacks/Planted.antt =====
-- A jump to a thunk, written over guest code that a real library calls: es3_plant_callback of
-- src/runtime/hle_callback.c, with the snapshot of src/runtime/guest.c that it refreshes.
use systemes3recomp.Prelude.{
  ℕ, zero, suc, ◌+◌, ◌-◌, ◌%◌, ◌^◌, ◌≤◌, ◌<◌, ◌≡◌, ◌≢◌, ◌⊎◌, inl, inr, refl, sym, ap, ap₂, ◌∙◌,
  Bool, true, false, not, ◌||◌, ltb, ◌==◌, if◌then◌else◌, Option, none, some, List, [], ◌∷◌, ◌++◌,
  length, take, drop, arith,
}
use systemes3recomp.Memory.{Memory, copy_in, copy_out, rd32, wr32, rd32-wr32, length-copy_out}
use systemes3recomp.Guest.Snapshot.{Snapshot, splice, guest_resnapshot, guest_diff}
use systemes3recomp.Guest.Snapshot.Diff.{diff_from_same}
use systemes3recomp.Callbacks.{callback}

-- The five bytes at `va`.
unfoldable pub plant : ℕ → ℕ → Memory → Memory
plant t va m = wr32 (copy_in m va (0xE9 ∷ [])) (va + 1) ((t + 2 ^ 33 - (va + 5)) % 2 ^ 32)

-- es3_plant_callback: what it answers, and the memory and the snapshot. `writable` says whether
-- VirtualProtect allows it; none is abort.
unfoldable pub plant_callback :
    (ℕ → ℕ) → (ℕ → Bool) → ℕ → Memory → Option Snapshot → Option (ℕ × Memory × Option Snapshot)
unfolding callback plant
plant_callback thunk writable va m s = elim (callback thunk va) [
  | none ↦ none
  | some t ↦
      let m' = plant t va m in
      if t == 0 || not (writable va)
      then some (0, m, s)
      else some (1, m', guest_resnapshot m' va 5 s)
]

-- The snapshot is the code as it is.
abbrev pub IsCurrent : Memory → Snapshot → Type 0
IsCurrent m s = (s.lo ≤ s.hi) × (s.copy ≡ copy_out m s.lo (s.hi - s.lo))

-- The code lies in the snapshot's range, or outside it.
abbrev pub IsApart : ℕ → Snapshot → Type 0
IsApart va s = ((s.lo ≤ va) × (va + 5 ≤ s.hi)) ⊎ ((va + 5 ≤ s.lo) ⊎ (s.hi ≤ va))

copy_out_same :
    (m m' : Memory) (at n : ℕ)
    → ((i : ℕ) → i < n → m (at + i) ≡ m' (at + i))
    → copy_out m at n ≡ copy_out m' at n
unfolding copy_out
copy_out_same m m' at zero h = refl
copy_out_same m m' at (suc n) h =
    let first : m at ≡ m' at = ap m (omega arith) ∙ h 0 (omega arith) ∙ ap m' (omega arith) in
    ap₂ (λ (x : ℕ) (xs : List ℕ). x ∷ xs) first
      (copy_out_same m m' (at + 1) n
        (λ i l. ap m (omega arith) ∙ h (suc i) (omega arith) ∙ ap m' (omega arith)))

take-copy_out : (m : Memory) (at i n : ℕ) → i ≤ n → take i (copy_out m at n) ≡ copy_out m at i
unfolding copy_out
take-copy_out m at zero n h = refl
take-copy_out m at (suc i) zero h = absurd (omega arith)
take-copy_out m at (suc i) (suc n) h =
    ap (λ xs. m at ∷ xs) (take-copy_out m (at + 1) i n (omega arith))

drop-copy_out :
    (m : Memory) (at i n : ℕ) → i ≤ n → drop i (copy_out m at n) ≡ copy_out m (at + i) (n - i)
unfolding copy_out
drop-copy_out m at zero n h = ap₂ (copy_out m) (omega arith) (omega arith)
drop-copy_out m at (suc i) zero h = absurd (omega arith)
drop-copy_out m at (suc i) (suc n) h =
    drop-copy_out m (at + 1) i n (omega arith) ∙ ap₂ (copy_out m) (omega arith) (omega arith)

copy_out-append :
    (m : Memory) (at a b : ℕ) → copy_out m at a ++ copy_out m (at + a) b ≡ copy_out m at (a + b)
unfolding copy_out
copy_out-append m at zero b = ap₂ (copy_out m) (omega arith) (omega arith)
copy_out-append m at (suc a) b =
    let e : suc (a + b) ≡ suc a + b = omega arith in
    ap (λ xs. m at ∷ xs)
      (ap (λ x. copy_out m (at + 1) a ++ copy_out m x b) (omega arith)
        ∙ copy_out-append m (at + 1) a b)
    ∙ ap (copy_out m at) e

pub plant_outside : (t va : ℕ) (m : Memory) (x : ℕ) → (x < va) ⊎ (va + 5 ≤ x) → plant t va m x ≡ m x
unfolding plant copy_in wr32
plant_outside t va m x h = ground arith

-- The jump stands at the address, and lands on the thunk.
pub plant_lands :
    (t va : ℕ) (m : Memory)
    → t < 2 ^ 32
    → va + 5 ≤ 2 ^ 32
    → (plant t va m va ≡ 0xE9) × ((va + 5 + rd32 (plant t va m) (va + 1)) % 2 ^ 32 ≡ t)
unfolding plant copy_in wr32
plant_lands t va m h k =
    let v : ℕ = (t + 2 ^ 33 - (va + 5)) % 2 ^ 32 in
    let back = rd32-wr32 (copy_in m va (0xE9 ∷ [])) (va + 1) v (omega arith) in
    (ground arith, omega (arith, back))

spliced :
    (m m' : Memory) (lo i k n : ℕ)
    → i + k ≤ n
    → ((x : ℕ) → (x < lo + i) ⊎ (lo + i + k ≤ x) → m' x ≡ m x)
    → splice (copy_out m lo n) i (copy_out m' (lo + i) k) ≡ copy_out m' lo n
spliced m m' lo i k n h e =
    let front : take i (copy_out m lo n) ≡ copy_out m' lo i =
      take-copy_out m lo i n (omega arith)
      ∙ copy_out_same m m' lo i (λ j l. sym (e (lo + j) (inl (omega arith)))) in
    let back : drop (i + length (copy_out m' (lo + i) k)) (copy_out m lo n)
        ≡ copy_out m' (lo + (i + k)) (n - (i + k)) =
      ap (λ a. drop (i + a) (copy_out m lo n)) (length-copy_out m' (lo + i) k)
      ∙ drop-copy_out m lo (i + k) n h
      ∙ copy_out_same m m' (lo + (i + k)) (n - (i + k))
          (λ j l. sym (e (lo + (i + k) + j) (inr (omega arith)))) in
    ap₂ (λ a b. a ++ (copy_out m' (lo + i) k ++ b)) front back
    ∙ ap (λ a. copy_out m' lo i ++ (copy_out m' (lo + i) k ++ copy_out m' a (n - (i + k))))
        (omega arith)
    ∙ ap (λ a. copy_out m' lo i ++ a) (copy_out-append m' (lo + i) k (n - (i + k)))
    ∙ copy_out-append m' lo i (k + (n - (i + k)))
    ∙ ap (copy_out m' lo) (omega arith)

-- A refreshed snapshot is the code as it is, after a write of five bytes in its range or outside it.
nothing_new :
    (m m' : Memory) (s : Snapshot) (va : ℕ)
    → IsCurrent m s
    → IsApart va s
    → ((x : ℕ) → (x < va) ⊎ (va + 5 ≤ x) → m' x ≡ m x)
    → (guest_diff m' (guest_resnapshot m' va 5 (some s))).0 ≡ []
unfolding guest_diff guest_resnapshot
nothing_new m m' s va (r, c) (inl (a, b)) e =
    let inside : (ltb va s.lo || ltb s.hi (va + 5)) ≡ false = ground arith in
    let at : s.lo + (va - s.lo) ≡ va = omega arith in
    let copy : splice s.copy (va - s.lo) (copy_out m' va 5) ≡ copy_out m' s.lo (s.hi - s.lo) =
      ap₂ (λ xs a. splice xs (va - s.lo) (copy_out m' a 5)) c (sym at)
      ∙ spliced m m' s.lo (va - s.lo) 5 (s.hi - s.lo) (omega arith) (λ x d. e x (ground arith)) in
    rw (inside, copy) (diff_from_same (s.hi - s.lo) 0 0 (copy_out m' s.lo (s.hi - s.lo)))
nothing_new m m' s va (r, c) (inr d) e =
    let outside : (ltb va s.lo || ltb s.hi (va + 5)) ≡ true = ground arith in
    let copy : s.copy ≡ copy_out m' s.lo (s.hi - s.lo) =
      c ∙ copy_out_same m m' s.lo (s.hi - s.lo) (λ j l. sym (e (s.lo + j) (ground arith))) in
    rw (outside, copy) (diff_from_same (s.hi - s.lo) 0 0 (copy_out m' s.lo (s.hi - s.lo)))

called : (thunk : ℕ → ℕ) (va : ℕ) → va ≢ 0 → thunk va ≢ 0 → callback thunk va ≡ some (thunk va)
unfolding callback
called thunk va a b = ground arith

-- If the snapshot is the code as it is: a callback that has a thunk, lies whole in the snapshot's range
-- or outside it, and can be made writable becomes a jump to its thunk; no other byte changes, and the
-- next report on the code names nothing.
pub plant_callback_lem :
    (thunk : ℕ → ℕ) (writable : ℕ → Bool) (va : ℕ) (m : Memory) (s : Snapshot)
    → va ≢ 0
    → thunk va ≢ 0
    → thunk va < 2 ^ 32
    → va + 5 ≤ 2 ^ 32
    → writable va ≡ true
    → IsCurrent m s
    → IsApart va s
    → (m' : Memory) × (s' : Option Snapshot) × (plant_callback thunk writable va m (some s)
        ≡ some (1, m', s'))
      × (m' va ≡ 0xE9)
      × ((va + 5 + rd32 m' (va + 1)) % 2 ^ 32 ≡ thunk va)
      × ((x : ℕ) → (x < va) ⊎ (va + 5 ≤ x) → m' x ≡ m x)
      × ((guest_diff m' s').0 ≡ [])
unfolding plant_callback
plant_callback_lem thunk writable va m s a b t l w c d =
    let m' : Memory = plant (thunk va) va m in
    let (jump, lands) = plant_lands (thunk va) va m t l in
    (
      m',
      guest_resnapshot m' va 5 (some s),
      ground (arith, called thunk va a b),
      jump,
      lands,
      plant_outside (thunk va) va m,
      nothing_new m m' s va c d (plant_outside (thunk va) va m),
    )
