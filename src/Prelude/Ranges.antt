-- ===== src/Prelude/Ranges.antt =====
-- take, drop and ranges of a list.
use Prim.Native.Nat.{ℕ, zero, suc, ◌+◌, ◌≤◌}
use mathlib.Core.Path.{◌≡◌, refl, ap, ◌∙◌}
use mathlib.Core.List.{List, [], ◌∷◌, ◌++◌}
use native.Mathlib.Omega.{arith}
use systemes3recomp.Prelude.Lists.{length, take, drop}

module _ {ℓ} {A : Type ℓ} where
  pub drop-append_ge : (xs ys : List A) (k : ℕ) → drop (length xs + k) (xs ++ ys) ≡ drop k ys
  drop-append_ge [] ys k = ap (λ i. drop i ys) (omega arith)
  drop-append_ge (x ∷ xs) ys k =
      let e : suc (length xs) + k ≡ suc (length xs + k) = omega arith in
      ap (λ i. drop i (x ∷ (xs ++ ys))) e ∙ drop-append_ge xs ys k

  pub take-append_le : (xs ys : List A) (n : ℕ) → n ≤ length xs → take n (xs ++ ys) ≡ take n xs
  take-append_le xs ys zero h = refl
  take-append_le [] ys (suc n) h = absurd (omega arith)
  take-append_le (x ∷ xs) ys (suc n) h = ap (◌∷◌ x) (take-append_le xs ys n (omega arith))

  pub drop-append_le :
      (xs ys : List A) (n : ℕ) → n ≤ length xs → drop n (xs ++ ys) ≡ drop n xs ++ ys
  drop-append_le xs ys zero h = refl
  drop-append_le [] ys (suc n) h = absurd (omega arith)
  drop-append_le (x ∷ xs) ys (suc n) h = drop-append_le xs ys n (omega arith)

  pub take-take : (xs : List A) (m n : ℕ) → m ≤ n → take m (take n xs) ≡ take m xs
  take-take xs zero n h = refl
  take-take xs (suc m) zero h = absurd (omega arith)
  take-take [] (suc m) (suc n) h = refl
  take-take (x ∷ xs) (suc m) (suc n) h = ap (◌∷◌ x) (take-take xs m n (omega arith))

  pub take_all : (xs : List A) (n : ℕ) → length xs ≤ n → take n xs ≡ xs
  take_all [] zero h = refl
  take_all [] (suc n) h = refl
  take_all (x ∷ xs) zero h = absurd (omega arith)
  take_all (x ∷ xs) (suc n) h = ap (◌∷◌ x) (take_all xs n (omega arith))

  drop_nil : (n : ℕ) → drop {A = A} n [] ≡ []
  drop_nil zero = refl
  drop_nil (suc n) = refl

  pub drop-drop : (xs : List A) (m n : ℕ) → drop n (drop m xs) ≡ drop (m + n) xs
  drop-drop xs zero n = ap (λ i. drop i xs) (omega arith)
  drop-drop [] (suc m) n =
      drop_nil n ∙ ap (λ i. drop {A = A} i []) {x = suc (m + n)} {y = suc m + n} (omega arith)
  drop-drop (x ∷ xs) (suc m) n =
      let e : suc (m + n) ≡ suc m + n = omega arith in
      drop-drop xs m n ∙ ap (λ i. drop i (x ∷ xs)) e

  -- A range that ends before the first `i` elements do is the same in these.
  pub take-drop-take :
      (xs : List A) (i j n : ℕ) → j + n ≤ i → take n (drop j (take i xs)) ≡ take n (drop j xs)
  take-drop-take xs i zero n h = take-take xs n i (omega arith)
  take-drop-take xs zero (suc j) n h = absurd (omega arith)
  take-drop-take [] (suc i) (suc j) n h = refl
  take-drop-take (x ∷ xs) (suc i) (suc j) n h = take-drop-take xs i j n (omega arith)

  pub drop_all : (xs : List A) (n : ℕ) → length xs ≤ n → drop n xs ≡ []
  drop_all [] n h = drop_nil n
  drop_all (x ∷ xs) zero h = absurd (omega arith)
  drop_all (x ∷ xs) (suc n) h = drop_all xs n (omega arith)
