-- ===== src/Guest/Snapshot.antt =====
-- What a loaded library did to the game's code: es3_guest_snapshot, es3_guest_resnapshot and
-- es3_guest_diff of src/runtime/guest.c.
use systemes3recomp.Prelude.{
  ℕ, zero, suc, ◌+◌, ◌-◌, ◌≤◌, ◌<◌, Bool, true, false, not, ◌&&◌, ◌||◌, Option, none, some, List,
  [], ◌∷◌, ◌++◌, length, take, drop, Bytes, leb, ltb, ◌==◌, if◌then◌else◌,
}
use systemes3recomp.Memory.{Memory, copy_out}
pub mod Diff
pub mod Invariant

-- g_code_copy, g_code_lo and g_code_hi. No snapshot is a null g_code_copy.
pub record Snapshot : Type 0 where
  pub lo : ℕ
  pub hi : ℕ
  pub copy : Bytes

-- `room` says whether malloc has the bytes.
unfoldable pub guest_snapshot : Bool → Memory → ℕ → ℕ → Option Snapshot → Option Snapshot
guest_snapshot room m lo hi (some s) = some s
guest_snapshot room m lo hi none =
    if leb hi lo || not room
    then none
    else some (record { lo = lo; hi = hi; copy = copy_out m lo (hi - lo) })

-- The first bytes of a buffer written over another from an offset.
abbrev pub splice : Bytes → ℕ → Bytes → Bytes
splice bs i new = take i bs ++ (new ++ drop (i + length new) bs)

unfoldable pub guest_resnapshot : Memory → ℕ → ℕ → Option Snapshot → Option Snapshot
guest_resnapshot m lo n none = none
guest_resnapshot m lo n (some s) =
    if ltb lo s.lo || ltb s.hi (lo + n)
    then some s
    else some (record s { copy = splice s.copy (lo - s.lo) (copy_out m lo n) })

-- A range of code that differs: its offset and its length.
pub record Run : Type 0 where
  pub start : ℕ
  pub size : ℕ

-- The inner loop: how many bytes differ before the first that does not.
unfoldable pub run_length : Bytes → Bytes → ℕ
run_length [] was = 0
run_length (x ∷ now) [] = 0
run_length (x ∷ now) (y ∷ was) = if x == y then 0 else suc (run_length now was)

-- What the loop over the bytes from offset `i` reports, and the copy as it leaves it. The copy takes
-- the new bytes of a run; the loop ends behind its 41st; behind a run it goes on at
-- the byte after, which is the same on both sides. `runs` is how many there were. The fuel is
-- the number of bytes.
unfoldable pub diff_from : ℕ → ℕ → ℕ → Bytes → Bytes → List Run × Bytes
unfolding run_length
diff_from zero i runs now was = ([], was)
diff_from (suc f) i runs [] was = ([], was)
diff_from (suc f) i runs (x ∷ now) [] = ([], [])
diff_from (suc f) i runs (x ∷ now) (y ∷ was) = elim (x == y) [
  | true ↦ (let (rs, rest) = diff_from f (i + 1) runs now was in (rs, y ∷ rest))
  | false ↦
      let k = run_length (x ∷ now) (y ∷ was) in
      let run : Run = record { start = i; size = k } in
      let new = take k (x ∷ now) in
      let later : List Run × Bytes =
        diff_from f (i + k) (runs + 1) (drop k (x ∷ now)) (drop k (y ∷ was)) in
      if ltb 40 (runs + 1)
      then (run ∷ [], new ++ drop k (y ∷ was))
      else (run ∷ later.0, new ++ later.1)
]

-- es3_guest_diff: the ranges it reports, and the snapshot it leaves.
unfoldable pub guest_diff : Memory → Option Snapshot → List Run × Option Snapshot
unfolding diff_from
guest_diff m none = ([], none)
guest_diff m (some s) =
    let n = s.hi - s.lo in
    let (runs, copy) = diff_from n 0 0 (copy_out m s.lo n) s.copy in
    (runs, some (record s { copy = copy }))
