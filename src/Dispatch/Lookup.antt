-- ===== src/Dispatch/Lookup.antt =====
-- Looking up a guest address: the index and the binary search find the same.
use systemes3recomp.Prelude.{
  ℕ, zero, suc, ◌+◌, ◌-◌, ◌/◌, ◌≤◌, ◌<◌, ◌≡◌, ◌≢◌, refl, ap, ◌∙◌, none, some, List, [], ◌∷◌, length,
  get_or, All, arith,
}
use native.Mathlib.Decide.{dec_lt, ℕ_discrete}
use systemes3recomp.Dispatch.{Entry, nothing, search_between}

module _ {ℓ} {S : Type ℓ} where
  -- The table is sorted by address, and has no address twice.
  abbrev pub Ascending : List (Entry S) → Type ℓ
  Ascending [] = Unit
  Ascending (e ∷ es) = All (λ (x : Entry S). e.va < x.va) es × Ascending es

  abbrev pub va_at : List (Entry S) → ℕ → ℕ
  va_at table i = (get_or table i nothing).va

  pub get_or-All :
      (v : ℕ) (es : List (Entry S)) (i : ℕ)
      → All (λ (x : Entry S). v < x.va) es
      → i < length es
      → v < va_at es i
  get_or-All v [] i h l = absurd (omega arith)
  get_or-All v (e ∷ es) zero h l = h.0
  get_or-All v (e ∷ es) (suc i) h l = get_or-All v es i h.1 (omega arith)

  pub va_at_lt :
      (table : List (Entry S)) (i j : ℕ)
      → Ascending table
      → i < j
      → j < length table
      → va_at table i < va_at table j
  va_at_lt [] i j a h l = absurd (omega arith)
  va_at_lt (e ∷ es) i zero a h l = absurd (omega arith)
  va_at_lt (e ∷ es) zero (suc j) a h l = get_or-All e.va es j a.0 (omega arith)
  va_at_lt (e ∷ es) (suc i) (suc j) a h l = va_at_lt es i j a.1 (omega arith) (omega arith)

  -- What the search does with the entry in the middle.
  search_hit :
      (fuel : ℕ) (table : List (Entry S)) (va lo hi : ℕ)
      → lo < hi
      → va_at table (lo + (hi - lo) / 2) ≡ va
      → search_between (suc fuel) table va lo hi ≡ some (get_or table (lo + (hi - lo) / 2) nothing)
  unfolding search_between
  search_hit fuel table va lo hi h e = ground arith

  search_up :
      (fuel : ℕ) (table : List (Entry S)) (va lo hi : ℕ)
      → lo < hi
      → va_at table (lo + (hi - lo) / 2) < va
      → search_between (suc fuel) table va lo hi
        ≡ search_between fuel table va (lo + (hi - lo) / 2 + 1) hi
  unfolding search_between
  search_up fuel table va lo hi h l = ground arith

  search_down :
      (fuel : ℕ) (table : List (Entry S)) (va lo hi : ℕ)
      → lo < hi
      → va < va_at table (lo + (hi - lo) / 2)
      → search_between (suc fuel) table va lo hi
        ≡ search_between fuel table va lo (lo + (hi - lo) / 2)
  unfolding search_between
  search_down fuel table va lo hi h l = ground arith

  search_empty :
      (fuel : ℕ) (table : List (Entry S)) (va lo hi : ℕ)
      → hi ≤ lo
      → search_between fuel table va lo hi ≡ none
  unfolding search_between
  search_empty zero table va lo hi h = refl
  search_empty (suc fuel) table va lo hi h = ground arith

  pub search_found :
      (fuel : ℕ) (table : List (Entry S)) (i lo hi : ℕ)
      → Ascending table
      → lo ≤ i
      → i < hi
      → hi ≤ length table
      → hi - lo < fuel
      → search_between fuel table (va_at table i) lo hi ≡ some (get_or table i nothing)
  search_found zero table i lo hi a l h n f = absurd (omega arith)
  search_found (suc fuel) table i lo hi a l h n f =
      let mid = lo + (hi - lo) / 2 in
      elim (dec_lt i mid) [
        | yes under ↦
            let less = va_at_lt table i mid a under (omega arith) in
            search_down fuel table (va_at table i) lo hi (omega arith) less
            ∙ search_found fuel table i lo mid a l under (omega arith) (omega arith)
        | no not_under ↦ elim (dec_lt mid i) [
          | yes over ↦
              let less = va_at_lt table mid i a over (omega arith) in
              search_up fuel table (va_at table i) lo hi (omega arith) less
              ∙ search_found fuel table i (mid + 1) hi a (omega arith) h n (omega arith)
          | no not_over ↦
              let e : mid ≡ i = omega arith in
              search_hit fuel table (va_at table i) lo hi (omega arith) (ap (va_at table) e)
              ∙ ap (λ k. some (get_or table k nothing)) e
        ]
      ]

  pub search_missing :
      (fuel : ℕ) (table : List (Entry S)) (va lo hi : ℕ)
      → ((i : ℕ) → i < length table → va_at table i ≢ va)
      → hi ≤ length table
      → search_between fuel table va lo hi ≡ none
  search_missing zero table va lo hi h n = unfold search_between in refl
  search_missing (suc fuel) table va lo hi h n = elim (dec_lt lo hi) [
    | no stop ↦ search_empty (suc fuel) table va lo hi (omega arith)
    | yes go ↦
        let mid = lo + (hi - lo) / 2 in
        let ne = h mid (omega arith) in
        elim (dec_lt (va_at table mid) va) [
          | yes under ↦
              search_up fuel table va lo hi go under ∙ search_missing fuel table va (mid + 1) hi h n
          | no not_under ↦ elim (ℕ_discrete (va_at table mid) va) [
            | yes e ↦ absurd (ne e)
            | no _ ↦
                search_down fuel table va lo hi go (omega arith)
                ∙ search_missing fuel table va lo mid h (omega arith)
          ]
        ]
  ]
