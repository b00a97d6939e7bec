-- ===== src/Text/Decimal.antt =====
-- A number that is printed is read back.
use systemes3recomp.Prelude.{
  ℕ, zero, suc, ◌+◌, ◌-◌, ◌*◌, ◌/◌, ◌%◌, ◌^◌, ◌≤◌, ◌<◌, ◌≡◌, ap, ◌∷◌, length, Bytes, arith,
}
use systemes3recomp.Text.{atoi_from, emit}

-- Reading the last digit of a number behind those before it.
atoi_digit : (n : ℕ) (rest : Bytes) → atoi_from (n / 10) ((b'0' + n % 10) ∷ rest) ≡ atoi_from n rest
unfolding atoi_from
atoi_digit n rest =
    let value : 10 * (n / 10) + (b'0' + n % 10 - b'0') ≡ n = omega arith in
    ground (arith, ap (λ (x : ℕ). atoi_from x rest) value)

atoi_single :
    (n : ℕ) (rest : Bytes) → n < 10 → atoi_from 0 ((b'0' + n % 10) ∷ rest) ≡ atoi_from n rest
unfolding atoi_from
atoi_single n rest h =
    let value : 10 * 0 + (b'0' + n % 10 - b'0') ≡ n = omega arith in
    ground (arith, ap (λ (x : ℕ). atoi_from x rest) value)

pub atoi_from-emit :
    (f n : ℕ) (rest : Bytes) → n < f → atoi_from 0 (emit f n rest) ≡ atoi_from n rest
unfolding atoi_from emit
atoi_from-emit zero n rest h = absurd (omega arith)
atoi_from-emit (suc f) n rest h = ground (
  arith,
  atoi_digit n rest,
  atoi_single n rest,
  atoi_from-emit f (n / 10) ((b'0' + n % 10) ∷ rest),
)

-- How many digits a number has.
pub length-emit :
    (f n k : ℕ) (rest : Bytes)
    → n < f
    → n < 10 ^ k
    → 0 < k
    → length (emit f n rest) ≤ k + length rest
unfolding emit
length-emit zero n k rest h b p = absurd (omega arith)
length-emit (suc f) n zero rest h b p = absurd (omega arith)
length-emit (suc f) n (suc zero) rest h b p = ground arith
length-emit (suc f) n (suc (suc k)) rest h b p =
    ground (arith, length-emit f (n / 10) (suc k) ((b'0' + n % 10) ∷ rest))
