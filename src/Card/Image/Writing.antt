-- ===== src/Card/Image/Writing.antt =====
-- What a write into the image changes.
use systemes3recomp.Prelude.{
  ℕ, ◌+◌, ◌-◌, ◌≤◌, ◌≡◌, ap, ◌∙◌, Bytes, ◌++◌, length, length-append, length-take, length-drop,
  take, drop, take-append, take-append_le, drop-append_le, drop-append_ge, drop-drop,
  take-drop-take, arith,
}
use systemes3recomp.Card.Image.{write_at}

pub length-write_at :
    (i : ℕ) (xs bs : Bytes) → i + length xs ≤ length bs → length (write_at i xs bs) ≡ length bs
unfolding write_at
length-write_at i xs bs h =
    let tail = drop (i + length xs) bs in
    omega (
      arith,
      length-append (take i bs) (xs ++ tail),
      length-append xs tail,
      length-take i bs,
      length-drop (i + length xs) bs,
    )

-- What is behind the offset.
drop-write_at :
    (i k : ℕ) (xs bs : Bytes)
    → i ≤ length bs
    → drop (i + k) (write_at i xs bs) ≡ drop k (xs ++ drop (i + length xs) bs)
unfolding write_at
drop-write_at i k xs bs h =
    let e : i + k ≡ length (take i bs) + k = omega (arith, length-take i bs) in
    let tail = xs ++ drop (i + length xs) bs in
    ap (λ n. drop n (take i bs ++ tail)) e ∙ drop-append_ge (take i bs) tail k

-- The bytes written are found again.
pub read-write_at :
    (i n : ℕ) (xs bs : Bytes)
    → length xs ≡ n
    → i ≤ length bs
    → take n (drop i (write_at i xs bs)) ≡ xs
read-write_at i n xs bs e h =
    let z : i ≡ i + 0 = omega arith in
    let tail = drop (i + length xs) bs in
    ap (λ k. take n (drop k (write_at i xs bs))) z
    ∙ ap (take n) (drop-write_at i 0 xs bs h)
    ∙ ap (λ k. take k (xs ++ tail)) {x = n} {y = length xs} (omega arith)
    ∙ take-append xs tail

-- Bytes in front of them stay.
pub read-write_at_before :
    (i j n : ℕ) (xs bs : Bytes)
    → j + n ≤ i
    → i ≤ length bs
    → take n (drop j (write_at i xs bs)) ≡ take n (drop j bs)
unfolding write_at
read-write_at_before i j n xs bs h l =
    let front = take i bs in
    let tail = xs ++ drop (i + length xs) bs in
    ap (take n) (drop-append_le front tail j (omega (arith, length-take i bs)))
    ∙ take-append_le (drop j front) tail n (omega (arith, length-take i bs, length-drop j front))
    ∙ take-drop-take bs i j n h

-- Bytes behind them stay.
pub read-write_at_behind :
    (i j n : ℕ) (xs bs : Bytes)
    → i + length xs ≤ j
    → i ≤ length bs
    → take n (drop j (write_at i xs bs)) ≡ take n (drop j bs)
read-write_at_behind i j n xs bs h l =
    let k = j - (i + length xs) in
    let e : j ≡ i + (length xs + k) = omega arith in
    let e' : i + length xs + k ≡ j = omega arith in
    ap (take n) (
      ap (λ m. drop m (write_at i xs bs)) e
      ∙ drop-write_at i (length xs + k) xs bs l
      ∙ drop-append_ge xs (drop (i + length xs) bs) k
      ∙ drop-drop bs (i + length xs) k
      ∙ ap (λ m. drop m bs) e')
