-- ===== src/Guest/Snapshot/Invariant.antt =====
-- The snapshot of the game's code and the reports about it, over its life.
use systemes3recomp.Prelude.{
  ℕ, ◌+◌, ◌-◌, ◌≤◌, ◌<◌, ◌≡◌, ap, ◌∙◌, Bool, Option, none, some, List, [], ◌∷◌, ◌++◌, length, take,
  drop, length-append, length-take, length-drop, Bytes, arith,
}
use systemes3recomp.Memory.{Memory, copy_out, length-copy_out}
use systemes3recomp.Guest.Snapshot.{
  Snapshot, splice, guest_snapshot, guest_resnapshot, diff_from, guest_diff,
}
use systemes3recomp.Guest.Snapshot.Diff.{
  reported, differs, diff_from_refreshes, diff_from_reports, length-diff_from, diff_from_same,
}

-- A snapshot holds a byte for every address of its range.
abbrev pub IsWhole : Option Snapshot → Type 0
IsWhole none = Unit {0}
IsWhole (some s) = (s.lo < s.hi) × (length s.copy ≡ s.hi - s.lo)

guest_snapshot-IsWhole :
    (room : Bool) (m : Memory) (lo hi : ℕ) (s : Option Snapshot)
    → IsWhole s
    → IsWhole (guest_snapshot room m lo hi s)
unfolding guest_snapshot
guest_snapshot-IsWhole room m lo hi (some s) w = w
guest_snapshot-IsWhole room m lo hi none w = ground (arith, length-copy_out m lo (hi - lo))

length-splice :
    (bs : Bytes) (i : ℕ) (new : Bytes)
    → i + length new ≤ length bs
    → length (splice bs i new) ≡ length bs
length-splice bs i new h = omega (
  arith,
  length-append (take i bs) (new ++ drop (i + length new) bs),
  length-append new (drop (i + length new) bs),
  length-take i bs,
  length-drop (i + length new) bs,
)

guest_resnapshot-IsWhole :
    (m : Memory) (lo n : ℕ) (s : Option Snapshot) → IsWhole s → IsWhole (guest_resnapshot m lo n s)
unfolding guest_resnapshot
guest_resnapshot-IsWhole m lo n none w = w
guest_resnapshot-IsWhole m lo n (some s) w =
    ground (arith, length-splice s.copy (lo - s.lo) (copy_out m lo n), length-copy_out m lo n)

guest_diff-IsWhole : (m : Memory) (s : Option Snapshot) → IsWhole s → IsWhole (guest_diff m s).1
unfolding guest_diff
guest_diff-IsWhole m none w = w
guest_diff-IsWhole m (some s) w = ground (
  arith,
  length-copy_out m s.lo (s.hi - s.lo),
  length-diff_from (s.hi - s.lo) 0 0 (copy_out m s.lo (s.hi - s.lo)) s.copy,
)

-- What the loader, es3_plant_callback and the reports do to the snapshot, in any order.
pub data Event : Type 0 where
  taken : Bool → Memory → ℕ → ℕ → Event
  retaken : Memory → ℕ → ℕ → Event
  compared : Memory → Event

abbrev pub after : Event → Option Snapshot → Option Snapshot
after (taken room m lo hi) s = guest_snapshot room m lo hi s
after (retaken m lo n) s = guest_resnapshot m lo n s
after (compared m) s = (guest_diff m s).1

abbrev pub after_all : List Event → Option Snapshot → Option Snapshot
after_all [] s = s
after_all (e ∷ es) s = after_all es (after e s)

-- Whatever is done in whatever order, and whatever the code is at the time, the snapshot holds one
-- byte for each address of a range that is not empty.
pub snapshot-IsWhole :
    (es : List Event) (s : Option Snapshot) → IsWhole s → IsWhole (after_all es s)
snapshot-IsWhole [] s w = w
snapshot-IsWhole (taken room m lo hi ∷ es) s w =
    snapshot-IsWhole es (guest_snapshot room m lo hi s) (guest_snapshot-IsWhole room m lo hi s w)
snapshot-IsWhole (retaken m lo n ∷ es) s w =
    snapshot-IsWhole es (guest_resnapshot m lo n s) (guest_resnapshot-IsWhole m lo n s w)
snapshot-IsWhole (compared m ∷ es) s w =
    snapshot-IsWhole es (guest_diff m s).1 (guest_diff-IsWhole m s w)

zero_left : (j : ℕ) → j ≡ 0 + j
zero_left j = omega arith

-- A report of at most 40 ranges names the addresses whose byte is not the snapshot's, and no others;
-- and the snapshot it leaves is the code as it is, so that a second report names nothing.
pub guest_diff_lem :
    (m : Memory) (s : Snapshot)
    → IsWhole (some s)
    → length (guest_diff m (some s)).0 ≤ 40
    → ((j : ℕ)
        → j < s.hi - s.lo
        → reported (guest_diff m (some s)).0 j ≡ differs (copy_out m s.lo (s.hi - s.lo)) s.copy j)
      × ((guest_diff m (some s)).1 ≡ some (record s { copy = copy_out m s.lo (s.hi - s.lo) }))
      × ((guest_diff m (guest_diff m (some s)).1).0 ≡ [])
unfolding guest_diff
guest_diff_lem m s w few =
    let n : ℕ = s.hi - s.lo in
    let now : Bytes = copy_out m s.lo n in
    let l : length now ≡ n = length-copy_out m s.lo n in
    let fresh : (diff_from n 0 0 now s.copy).1 ≡ now =
      diff_from_refreshes n 0 0 now s.copy (omega (arith, l)) (omega (arith, l)) (omega arith) in
    (
      λ j h.
          ap (reported (diff_from n 0 0 now s.copy).0) (zero_left j)
          ∙ diff_from_reports n 0 0 now s.copy j (omega (arith, l)) (omega (arith, l)) (omega arith)
              (omega (arith, l)),
      ap (λ (c : Bytes). some (record s { copy = c })) fresh,
      rw fresh (diff_from_same n 0 0 now),
    )
