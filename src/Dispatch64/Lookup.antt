-- ===== src/Dispatch64/Lookup.antt =====
-- The binary search of src/runtime64/dispatch64.c against a search from the front.
use systemes3recomp.Prelude.{
  ℕ, zero, suc, ◌+◌, ◌-◌, ◌/◌, ◌≤◌, ◌<◌, ◌≡◌, inl, inr, refl, ltb, ◌==◌, ◌&&◌, if◌then◌else◌,
  Option, none, some, List, [], ◌∷◌, length, get_or, All, Bool-cases, arith,
}
use systemes3recomp.Dispatch64.{lower_bound, lookup}

-- The addresses do not fall.
abbrev pub Ascending : List (ℕ × ℕ) → Type 0
Ascending [] = Unit
Ascending (e ∷ es) = All (λ (x : ℕ × ℕ). e.0 ≤ x.0) es × Ascending es

abbrev pub va_at : List (ℕ × ℕ) → ℕ → ℕ
va_at t i = (get_or t i (0, 0)).0

-- The function of the first entry with an address.
unfoldable pub first_of : List (ℕ × ℕ) → ℕ → Option ℕ
first_of [] va = none
first_of (e ∷ es) va = if e.0 == va then some e.1 else first_of es va

head_le :
    (v : ℕ) (es : List (ℕ × ℕ)) (i : ℕ)
    → All (λ (x : ℕ × ℕ). v ≤ x.0) es
    → i < length es
    → v ≤ va_at es i
head_le v [] i h l = absurd (omega arith)
head_le v (e ∷ es) zero h l = h.0
head_le v (e ∷ es) (suc i) h l = head_le v es i h.1 (omega arith)

va_at_le : (t : List (ℕ × ℕ)) (i j : ℕ) → Ascending t → i ≤ j → j < length t → va_at t i ≤ va_at t j
va_at_le [] i j a h l = absurd (omega arith)
va_at_le (e ∷ es) zero zero a h l = omega arith
va_at_le (e ∷ es) (suc i) zero a h l = absurd (omega arith)
va_at_le (e ∷ es) zero (suc j) a h l = head_le e.0 es j a.0 (omega arith)
va_at_le (e ∷ es) (suc i) (suc j) a h l = va_at_le es i j a.1 (omega arith) (omega arith)

-- Where an address would stand.
abbrev Cut : List (ℕ × ℕ) → ℕ → ℕ → Type 0
Cut t va n =
    (n ≤ length t)
    × ((i : ℕ) → i < n → va_at t i < va)
    × ((i : ℕ) → n ≤ i → i < length t → va ≤ va_at t i)

lower_bound-Cut :
    (fuel : ℕ) (t : List (ℕ × ℕ)) (va lo hi : ℕ)
    → Ascending t
    → lo ≤ hi
    → hi ≤ length t
    → hi - lo < fuel
    → ((i : ℕ) → i < lo → va_at t i < va)
    → ((i : ℕ) → hi ≤ i → i < length t → va ≤ va_at t i)
    → Cut t va (lower_bound fuel t va lo hi)
unfolding lower_bound
lower_bound-Cut zero t va lo hi a p q f below above = absurd (omega arith)
lower_bound-Cut (suc fuel) t va lo hi a p q f below above =
    let mid : ℕ = lo + (hi - lo) / 2 in
    elim (Bool-cases (ltb lo hi)) [
      | inr done ↦ rw done (omega arith, below, λ i h l. above i (ground arith) l)
      | inl more ↦ elim (Bool-cases (ltb (va_at t mid) va)) [
        | inl up ↦
            rw (more, up)
              (lower_bound-Cut fuel t va (mid + 1) hi a (ground arith) q (ground arith)
                (λ i h. ground (arith, va_at_le t i mid a)) above)
        | inr down ↦
            rw (more, down)
              (lower_bound-Cut fuel t va lo mid a (omega arith) (ground arith) (ground arith) below
                (λ i h l. ground (arith, va_at_le t mid i a)))
      ]
    ]

first_of-above :
    (es : List (ℕ × ℕ)) (v va : ℕ)
    → All (λ (x : ℕ × ℕ). v ≤ x.0) es
    → va < v
    → first_of es va ≡ none
unfolding first_of
first_of-above [] v va h l = refl
first_of-above (e ∷ es) v va h l = ground (arith, first_of-above es v va h.1 l)

first_of-Cut :
    (t : List (ℕ × ℕ)) (va n : ℕ)
    → Ascending t
    → Cut t va n
    → (if ltb n (length t) && va_at t n == va then some (get_or t n (0, 0)).1 else none)
      ≡ first_of t va
unfolding first_of
first_of-Cut [] va n a c = ground arith
first_of-Cut (e ∷ es) va zero a c = ground (arith, c.2 0, first_of-above es e.0 va a.0)
first_of-Cut (e ∷ es) va (suc n) a c =
    let rest : Cut es va n = (
      omega (arith, c.0),
      λ i h. c.1 (suc i) (omega arith),
      λ i h l. c.2 (suc i) (omega arith) (omega arith),
    ) in
    ground (arith, c.1 0, first_of-Cut es va n a.1 rest)

-- In a table that is sorted by address, lookup gives the function of the first entry with the address,
-- and nothing just if there is none.
pub lookup-first_of : (t : List (ℕ × ℕ)) (va : ℕ) → Ascending t → lookup t va ≡ first_of t va
unfolding lookup
lookup-first_of t va a =
    let cut =
      lower_bound-Cut (suc (length t)) t va 0 (length t) a (omega arith) (omega arith) (omega arith)
        (λ i h. absurd (omega arith)) (λ i h l. absurd (omega arith)) in
    first_of-Cut t va (lower_bound (suc (length t)) t va 0 (length t)) a cut
