-- ===== src/Prelude/Xor.antt =====
-- Exclusive or of two numbers, from its binary digits: it is injective in each argument.
use Prim.Native.Nat.{
  ℕ, zero, suc, ◌+◌, ◌-◌, ◌*◌, ◌/◌, ◌%◌, ◌^◌, ◌≤◌, ◌<◌, bit_xor, digits, differ, bit_xor-bitwise,
}
use mathlib.Core.Path.{◌≡◌, refl, sym, ◌∙◌}
use native.Mathlib.Omega.{arith}

-- The digits of an exclusive or, with a bound on their number.
xor_digits : ℕ → ℕ → ℕ → ℕ
xor_digits n a b = digits (λ y. y) differ n a b

bit_xor_digits : (a b : ℕ) → bit_xor a b ≡ xor_digits a a b
unfolding xor_digits
bit_xor_digits a b = λ i. bit_xor-bitwise a b i

differ_lem : (a b : ℕ) → a < 2 → b < 2 → differ a b ≡ (a + b) % 2
differ_lem zero b h k = omega arith
differ_lem (suc zero) zero h k = refl
differ_lem (suc zero) (suc zero) h k = refl
differ_lem (suc zero) (suc (suc b)) h k = absurd (omega arith)
differ_lem (suc (suc a)) b h k = absurd (omega arith)

xor_digits_zero : (n b : ℕ) → xor_digits n 0 b ≡ b
unfolding xor_digits
xor_digits_zero zero b = refl
xor_digits_zero (suc n) b = refl

xor_digits_step :
    (n a b : ℕ)
    → a ≤ n
    → xor_digits n a b ≡ 2 * xor_digits (n - 1) (a / 2) (b / 2) + (a % 2 + b % 2) % 2
unfolding xor_digits
xor_digits_step zero zero b h = omega arith
xor_digits_step zero (suc a) b h = absurd (omega arith)
xor_digits_step (suc n) zero b h =
    omega (arith, xor_digits_zero (suc n) b, xor_digits_zero (suc n - 1) (b / 2))
xor_digits_step (suc n) (suc a) b h =
    let e : suc n - 1 ≡ n = omega arith in
    rw e (omega (arith, differ_lem (suc a % 2) (b % 2) (omega arith) (omega arith)))

xor_digits_left :
    (k n m x y b : ℕ) → x ≤ k → y ≤ k → x ≤ n → y ≤ m → xor_digits n x b ≡ xor_digits m y b → x ≡ y
xor_digits_left zero n m x y b hx hy hn hm e = omega arith
xor_digits_left (suc k) n m x y b hx hy hn hm e =
    let split : (2 * xor_digits (n - 1) (x / 2) (b / 2) + (x % 2 + b % 2) % 2)
        ≡ (2 * xor_digits (m - 1) (y / 2) (b / 2) + (y % 2 + b % 2) % 2) =
      sym (xor_digits_step n x b hn) ∙ e ∙ xor_digits_step m y b hm in
    omega (
      arith,
      xor_digits_left k (n - 1) (m - 1) (x / 2) (y / 2) (b / 2) (omega arith) (omega arith)
          (omega arith) (omega arith) (omega (arith, split)),
      split,
    )

xor_digits_right :
    (k n a x y : ℕ) → a ≤ n → x ≤ k → y ≤ k → xor_digits n a x ≡ xor_digits n a y → x ≡ y
xor_digits_right zero n a x y h hx hy e = omega arith
xor_digits_right (suc k) n a x y h hx hy e =
    let split : (2 * xor_digits (n - 1) (a / 2) (x / 2) + (a % 2 + x % 2) % 2)
        ≡ (2 * xor_digits (n - 1) (a / 2) (y / 2) + (a % 2 + y % 2) % 2) =
      sym (xor_digits_step n a x h) ∙ e ∙ xor_digits_step n a y h in
    omega (
      arith,
      xor_digits_right k (n - 1) (a / 2) (x / 2) (y / 2) (omega arith) (omega arith) (omega arith)
          (omega (arith, split)),
      split,
    )

xor_digits-lt : (k n a b : ℕ) → a ≤ n → a < 2 ^ k → b < 2 ^ k → xor_digits n a b < 2 ^ k
xor_digits-lt zero n a b h p q =
    let a0 : a ≡ 0 = omega arith in rw a0 (omega (arith, xor_digits_zero n b))
xor_digits-lt (suc k) n a b h p q = omega (
  arith,
  xor_digits_step n a b h,
  xor_digits-lt k (n - 1) (a / 2) (b / 2) (omega arith) (omega arith) (omega arith),
)

pub bit_xor-eq_left : (x y b : ℕ) → bit_xor x b ≡ bit_xor y b → x ≡ y
bit_xor-eq_left x y b e =
    xor_digits_left (x + y) x y x y b (omega arith) (omega arith) (omega arith) (omega arith)
      (sym (bit_xor_digits x b) ∙ e ∙ bit_xor_digits y b)

pub bit_xor-eq_right : (a x y : ℕ) → bit_xor a x ≡ bit_xor a y → x ≡ y
bit_xor-eq_right a x y e =
    xor_digits_right (x + y) a a x y (omega arith) (omega arith) (omega arith)
      (sym (bit_xor_digits a x) ∙ e ∙ bit_xor_digits a y)

pub bit_xor-lt : (k a b : ℕ) → a < 2 ^ k → b < 2 ^ k → bit_xor a b < 2 ^ k
bit_xor-lt k a b p q = rw (bit_xor_digits a b) (xor_digits-lt k a a b (omega arith) p q)
