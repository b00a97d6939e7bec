-- ===== src/Dispatch/Fast.antt =====
-- The table indexed by addresses answers as the search does.
use systemes3recomp.Prelude.{
  ℕ, zero, suc, ◌+◌, ◌-◌, ◌≤◌, ◌<◌, ◌≡◌, ◌≢◌, refl, sym, ◌∙◌, ◌⊎◌, inl, inr, Bool, true, false,
  ◌&&◌, ltb, leb, Bool-cases, Option, none, some, List, [], ◌∷◌, length, length-set,
  length-replicate, get_or, set, replicate, All, arith,
}
use native.Mathlib.Decide.{ℕ_discrete}
use systemes3recomp.Dispatch.{Entry, nothing, fill_index, last_va, build_index, find}
use systemes3recomp.Dispatch.Lookup.{Ascending, va_at, get_or-All, search_found, search_missing}

module _ {ℓ} {A : Type ℓ} where
  get_or-set_same : (xs : List A) (i : ℕ) (v d : A) → i < length xs → get_or (set xs i v) i d ≡ v
  get_or-set_same [] i v d h = absurd (omega arith)
  get_or-set_same (x ∷ xs) zero v d h = refl
  get_or-set_same (x ∷ xs) (suc i) v d h = get_or-set_same xs i v d (omega arith)

  get_or-set_other :
      (xs : List A) (i j : ℕ) (v d : A) → i ≢ j → get_or (set xs i v) j d ≡ get_or xs j d
  get_or-set_other [] i j v d h = refl
  get_or-set_other (x ∷ xs) zero zero v d h = absurd (h refl)
  get_or-set_other (x ∷ xs) zero (suc j) v d h = refl
  get_or-set_other (x ∷ xs) (suc i) zero v d h = refl
  get_or-set_other (x ∷ xs) (suc i) (suc j) v d h = get_or-set_other xs i j v d (omega arith)

  get_or-replicate : (n i : ℕ) (v : A) → get_or (replicate n v) i v ≡ v
  get_or-replicate zero i v = refl
  get_or-replicate (suc n) zero v = refl
  get_or-replicate (suc n) (suc i) v = get_or-replicate n i v

module _ {ℓ} {S : Type ℓ} where
  -- No entry fills the cell `k`.
  fill_missing :
      (es : List (Entry S)) (base k : ℕ) (fast : List (Option (Entry S)))
      → All (λ (x : Entry S). base ≤ x.va) es
      → ((i : ℕ) → i < length es → va_at es i ≢ base + k)
      → get_or (fill_index es base fast) k none ≡ get_or fast k none
  unfolding fill_index
  fill_missing [] base k fast b h = refl
  fill_missing (e ∷ es) base k fast b h =
      let low = b.0 in
      let ne = h 0 (omega arith) in
      let other : e.va - base ≢ k = λ q. ne (omega arith) in
      fill_missing es base k (set fast (e.va - base) (some e)) b.1 (λ i l. h (suc i) (omega arith))
      ∙ get_or-set_other fast (e.va - base) k (some e) none other

  fill_found :
      (es : List (Entry S)) (base i : ℕ) (fast : List (Option (Entry S)))
      → Ascending es
      → All (λ (x : Entry S). base ≤ x.va) es
      → i < length es
      → va_at es i - base < length fast
      → get_or (fill_index es base fast) (va_at es i - base) none ≡ some (get_or es i nothing)
  unfolding fill_index
  fill_found [] base i fast a b l n = absurd (omega arith)
  fill_found (e ∷ es) base zero fast a b l n =
      let low = b.0 in
      fill_missing es base (e.va - base) (set fast (e.va - base) (some e)) b.1
        (λ i m q. let above = get_or-All e.va es i a.0 m in omega arith)
      ∙ get_or-set_same fast (e.va - base) (some e) none n
  fill_found (e ∷ es) base (suc i) fast a b l n =
      fill_found es base i (set fast (e.va - base) (some e)) a.1 b.1 (omega arith)
        (omega (arith, length-set fast (e.va - base) (some e)))

  absent :
      (e : Entry S) (es : List (Entry S)) (va : ℕ)
      → e.va ≢ va
      → ((i : ℕ) → i < length es → va_at es i ≢ va)
      → (i : ℕ) → i < length (e ∷ es)
      → va_at (e ∷ es) i ≢ va
  absent e es va away h zero l = away
  absent e es va away h (suc i) l = h i (omega arith)

  -- Where an address stands in the table, if it does.
  place :
      (table : List (Entry S)) (va : ℕ)
      → ((i : ℕ) × (i < length table) × (va_at table i ≡ va))
        ⊎ ((i : ℕ) → i < length table → va_at table i ≢ va)
  place [] va = inr (λ i l. absurd (omega arith))
  place (e ∷ es) va = elim (ℕ_discrete e.va va) [
    | yes here ↦ inl (0, omega arith, here)
    | no away ↦ elim (place es va) [
      | inl (i, l, h) ↦ inl (suc i, omega arith, h)
      | inr h ↦ inr (absent e es va away h)
    ]
  ]

  All-weaken :
      (v : ℕ) (es : List (Entry S))
      → All (λ (x : Entry S). v < x.va) es
      → All (λ (x : Entry S). v ≤ x.va) es
  All-weaken v [] h = tt
  All-weaken v (e ∷ es) h = let l = h.0 in (omega arith, All-weaken v es h.1)

  va_at_last :
      (v : ℕ) (es : List (Entry S)) (i : ℕ)
      → Ascending es
      → i < length es
      → va_at es i ≤ last_va v es
  va_at_last v [] i a l = absurd (omega arith)
  va_at_last v (e ∷ []) zero a l = omega arith
  va_at_last v (e ∷ []) (suc i) a l = absurd (omega arith)
  va_at_last v (e ∷ f ∷ es) zero a l =
      let less = a.0.0 in let rest = va_at_last e.va (f ∷ es) 0 a.1 (omega arith) in omega arith
  va_at_last v (e ∷ f ∷ es) (suc i) a l = va_at_last e.va (f ∷ es) i a.1 (omega arith)

  -- The search over the whole table.
  find_by_search :
      (table : List (Entry S)) (i : ℕ)
      → Ascending table
      → i < length table
      → find none table (va_at table i) ≡ some (get_or table i nothing)
  unfolding find
  find_by_search table i a l =
      search_found (suc (length table)) table i 0 (length table) a (omega arith) l (omega arith)
        (omega arith)

  find_no_search :
      (table : List (Entry S)) (va : ℕ)
      → ((i : ℕ) → i < length table → va_at table i ≢ va)
      → find none table va ≡ none
  unfolding find
  find_no_search table va h =
      search_missing (suc (length table)) table va 0 (length table) h (omega arith)

  -- The cells of the index, for an address inside its span.
  fast_cell :
      (e : Entry S) (es : List (Entry S)) (va : ℕ)
      → Ascending (e ∷ es)
      → e.va ≤ va
      → get_or
          (fill_index (e ∷ es) e.va (replicate (last_va e.va es + 1 - e.va) none))
          (va - e.va)
          none
        ≡ find none (e ∷ es) va
  fast_cell e es va a l =
      let n = last_va e.va es + 1 - e.va in
      let above : All (λ (x : Entry S). e.va ≤ x.va) (e ∷ es) =
        (omega arith, All-weaken e.va es a.0) in
      elim (place (e ∷ es) va) [
        | inl (i, inside, here) ↦
            let last = va_at_last e.va (e ∷ es) i a inside in
            let fits : va_at (e ∷ es) i - e.va < length (replicate {A = Option (Entry S)} n none) =
              omega (arith, length-replicate {A = Option (Entry S)} n none, last) in
            rw (sym here) (
              fill_found (e ∷ es) e.va i (replicate n none) a above inside fits
              ∙ sym (find_by_search (e ∷ es) i a inside))
        | inr away ↦
            fill_missing (e ∷ es) e.va (va - e.va) (replicate n none) above
              (λ i k q. away i k (omega arith))
            ∙ get_or-replicate n (va - e.va) none
            ∙ sym (find_no_search (e ∷ es) va away)
      ]

  -- Whether the index could be allocated or not, and whether the address is inside its span or not,
  -- find answers as the binary search over a sorted table does.
  pub find-build_index :
      (memory : Bool) (table : List (Entry S)) (va : ℕ)
      → Ascending table
      → find (build_index memory table) table va ≡ find none table va
  unfolding find build_index
  find-build_index memory [] va a = refl
  find-build_index false (e ∷ es) va a = refl
  find-build_index true (e ∷ es) va a =
      elim (Bool-cases (leb e.va va && ltb va (last_va e.va es + 1))) [
        | inr outside ↦ rw outside refl
        | inl inside ↦ let low : e.va ≤ va = ground arith in rw inside (fast_cell e es va a low)
      ]

  -- find gives, for the address of any entry of a sorted table, that entry.
  pub find_found :
      (memory : Bool) (table : List (Entry S)) (i : ℕ)
      → Ascending table
      → i < length table
      → find (build_index memory table) table (va_at table i) ≡ some (get_or table i nothing)
  find_found memory table i a l =
      find-build_index memory table (va_at table i) a ∙ find_by_search table i a l

  -- find gives nothing for an address that no entry of a sorted table has.
  pub find_missing :
      (memory : Bool) (table : List (Entry S)) (va : ℕ)
      → Ascending table
      → ((i : ℕ) → i < length table → va_at table i ≢ va)
      → find (build_index memory table) table va ≡ none
  find_missing memory table va a h = find-build_index memory table va a ∙ find_no_search table va h
