-- ===== src/Guest/Snapshot/Diff.antt =====
-- What the loop of es3_guest_diff reports, and how it refreshes the snapshot.
use systemes3recomp.Prelude.{
  ℕ, zero, suc, ◌+◌, ◌-◌, ◌≤◌, ◌<◌, ◌≡◌, refl, ap, inl, inr, Bool, true, false, not, ◌&&◌, ◌||◌,
  List, [], ◌∷◌, ◌++◌, length, get_or, take, drop, length-drop, length-take, length-append, Bytes,
  leb, ltb, ◌==◌, Bool-cases, arith,
}
use systemes3recomp.Guest.Snapshot.{Run, run_length, diff_from}

-- The offset lies in one of the ranges.
unfoldable pub reported : List Run → ℕ → Bool
reported [] j = false
reported (r ∷ rs) j = leb r.start j && ltb j (r.start + r.size) || reported rs j

-- The byte at an offset differs.
unfoldable pub differs : Bytes → Bytes → ℕ → Bool
differs now was j = not (get_or now j 0 == get_or was j 0)

run_length-le : (now was : Bytes) → run_length now was ≤ length now
unfolding run_length
run_length-le [] was = omega arith
run_length-le (x ∷ now) [] = omega arith
run_length-le (x ∷ now) (y ∷ was) = ground (arith, run_length-le now was)

run_length-differs : (now was : Bytes) (j : ℕ) → j < run_length now was → differs now was j ≡ true
unfolding run_length differs
run_length-differs [] was j h = absurd (omega arith)
run_length-differs (x ∷ now) [] j h = absurd (omega arith)
run_length-differs (x ∷ now) (y ∷ was) zero h = ground arith
run_length-differs (x ∷ now) (y ∷ was) (suc j) h = ground (arith, run_length-differs now was j)

run_length_pos : (x y : ℕ) (now was : Bytes) → (x == y) ≡ false → 0 < run_length (x ∷ now) (y ∷ was)
unfolding run_length
run_length_pos x y now was e = ground arith

take-append-drop : (k : ℕ) (bs : Bytes) → take k bs ++ drop k bs ≡ bs
take-append-drop zero bs = refl
take-append-drop (suc k) [] = refl
take-append-drop (suc k) (b ∷ bs) = ap (◌∷◌ b) (take-append-drop k bs)

get_or-drop : (bs : Bytes) (n i : ℕ) → get_or (drop n bs) i 0 ≡ get_or bs (n + i) 0
get_or-drop bs zero i = ground arith
get_or-drop [] (suc n) i = ground arith
get_or-drop (b ∷ bs) (suc n) i = ground (arith, get_or-drop bs n i)

-- Unless it ends early, the loop leaves the copy as the code is.
pub diff_from_refreshes :
    (f i runs : ℕ) (now was : Bytes)
    → length now ≡ length was
    → length now ≤ f
    → runs + length (diff_from f i runs now was).0 ≤ 40
    → (diff_from f i runs now was).1 ≡ now
unfolding diff_from
diff_from_refreshes zero i runs [] [] l g h = refl
diff_from_refreshes zero i runs [] (y ∷ was) l g h = absurd (omega arith)
diff_from_refreshes zero i runs (x ∷ now) was l g h = absurd (omega arith)
diff_from_refreshes (suc f) i runs [] [] l g h = refl
diff_from_refreshes (suc f) i runs [] (y ∷ was) l g h = absurd (omega arith)
diff_from_refreshes (suc f) i runs (x ∷ now) [] l g h = absurd (omega arith)
diff_from_refreshes (suc f) i runs (x ∷ now) (y ∷ was) l g h =
    let k : ℕ = run_length (x ∷ now) (y ∷ was) in
    ground (
      arith,
      run_length_pos x y now was,
      diff_from_refreshes f (i + 1) runs now was (omega arith) (omega arith),
      diff_from_refreshes f (i + k) (runs + 1) (drop k (x ∷ now)) (drop k (y ∷ was)),
      length-drop k (x ∷ now),
      length-drop k (y ∷ was),
      take-append-drop k (x ∷ now),
    )

-- No range starts before the loop does.
diff_from_start :
    (f i runs : ℕ) (now was : Bytes) (j : ℕ)
    → j < i
    → reported (diff_from f i runs now was).0 j ≡ false
unfolding diff_from reported
diff_from_start zero i runs now was j h = refl
diff_from_start (suc f) i runs [] was j h = refl
diff_from_start (suc f) i runs (x ∷ now) [] j h = refl
diff_from_start (suc f) i runs (x ∷ now) (y ∷ was) j h =
    let k : ℕ = run_length (x ∷ now) (y ∷ was) in
    ground (
      arith,
      diff_from_start f (i + 1) runs now was j,
      diff_from_start f (i + k) (runs + 1) (drop k (x ∷ now)) (drop k (y ∷ was)) j,
    )

differs_head : (x y : ℕ) (now was : Bytes) → differs (x ∷ now) (y ∷ was) 0 ≡ not (x == y)
unfolding differs
differs_head x y now was = refl

sub_back : (k j : ℕ) → k ≤ j → k + (j - k) ≡ j
sub_back k j h = omega arith

differs_tail :
    (x y : ℕ) (now was : Bytes) (j : ℕ) → differs (x ∷ now) (y ∷ was) (suc j) ≡ differs now was j
unfolding differs
differs_tail x y now was j = refl

differs-drop :
    (now was : Bytes) (k j : ℕ)
    → k ≤ j
    → differs (drop k now) (drop k was) (j - k) ≡ differs now was j
unfolding differs
differs-drop now was k j h = ground (
  arith,
  get_or-drop now k (j - k),
  get_or-drop was k (j - k),
  ap (λ i. get_or now i 0) (sub_back k j h),
  ap (λ i. get_or was i 0) (sub_back k j h),
)

-- Unless it ends early, the loop reports the bytes that differ and no others.
pub diff_from_reports :
    (f i runs : ℕ) (now was : Bytes) (j : ℕ)
    → length now ≡ length was
    → length now ≤ f
    → runs + length (diff_from f i runs now was).0 ≤ 40
    → j < length now
    → reported (diff_from f i runs now was).0 (i + j) ≡ differs now was j
unfolding diff_from reported
diff_from_reports zero i runs now was j l g h p = absurd (omega arith)
diff_from_reports (suc f) i runs [] was j l g h p = absurd (omega arith)
diff_from_reports (suc f) i runs (x ∷ now) [] j l g h p = absurd (omega arith)
diff_from_reports (suc f) i runs (x ∷ now) (y ∷ was) zero l g h p =
    let k : ℕ = run_length (x ∷ now) (y ∷ was) in
    ground (
      arith,
      run_length_pos x y now was,
      run_length-differs (x ∷ now) (y ∷ was) 0,
      diff_from_start f (i + 1) runs now was (i + 0),
      differs_head x y now was,
    )
diff_from_reports (suc f) i runs (x ∷ now) (y ∷ was) (suc j) l g h p =
    let k : ℕ = run_length (x ∷ now) (y ∷ was) in
    let next : i + suc j ≡ i + 1 + j = omega arith in
    let beyond : (d : k ≤ suc j) → i + suc j ≡ i + k + (suc j - k) = λ d. omega arith in
    elim (Bool-cases (x == y)) [
      | inl same ↦ ground (
        arith,
        ap (reported (diff_from f (i + 1) runs now was).0) next,
        differs_tail x y now was j,
        diff_from_reports f (i + 1) runs now was j,
      )
      | inr changed ↦ elim (Bool-cases (ltb (suc j) k)) [
        | inl inside ↦ ground (arith, run_length-differs (x ∷ now) (y ∷ was) (suc j))
        | inr behind ↦ ground (
          arith,
          ap (reported (diff_from f (i + k) (runs + 1) (drop k (x ∷ now)) (drop k (y ∷ was))).0)
              (beyond (ground arith)),
          differs-drop (x ∷ now) (y ∷ was) k (suc j) (ground arith),
          run_length_pos x y now was,
          length-drop k (x ∷ now),
          length-drop k (y ∷ was),
          diff_from_reports f (i + k) (runs + 1) (drop k (x ∷ now)) (drop k (y ∷ was)) (suc j - k),
        )
      ]
    ]

-- The copy keeps its length.
pub length-diff_from :
    (f i runs : ℕ) (now was : Bytes)
    → length now ≡ length was
    → length (diff_from f i runs now was).1 ≡ length was
unfolding diff_from
length-diff_from zero i runs now was l = refl
length-diff_from (suc f) i runs [] was l = refl
length-diff_from (suc f) i runs (x ∷ now) [] l = refl
length-diff_from (suc f) i runs (x ∷ now) (y ∷ was) l =
    let k : ℕ = run_length (x ∷ now) (y ∷ was) in
    let later : List Run × Bytes =
      diff_from f (i + k) (runs + 1) (drop k (x ∷ now)) (drop k (y ∷ was)) in
    ground (
      arith,
      run_length-le (x ∷ now) (y ∷ was),
      length-diff_from f (i + 1) runs now was (omega arith),
      length-diff_from f (i + k) (runs + 1) (drop k (x ∷ now)) (drop k (y ∷ was)),
      length-take k (x ∷ now),
      length-drop k (x ∷ now),
      length-drop k (y ∷ was),
      length-append (take k (x ∷ now)) (drop k (y ∷ was)),
      length-append (take k (x ∷ now)) later.1,
    )

-- Code that is as it was is reported nowhere.
pub diff_from_same : (f i runs : ℕ) (now : Bytes) → (diff_from f i runs now now).0 ≡ []
unfolding diff_from
diff_from_same zero i runs now = refl
diff_from_same (suc f) i runs [] = refl
diff_from_same (suc f) i runs (x ∷ now) = ground (arith, diff_from_same f (i + 1) runs now)
