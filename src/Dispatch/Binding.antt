-- ===== src/Dispatch/Binding.antt =====
-- The span of the bound addresses.
use systemes3recomp.Prelude.{
  ℕ, ◌≤◌, ◌<◌, ◌≡◌, ◌≢◌, refl, inl, inr, Bool, false, ◌&&◌, leb, ltb, ==_of_ne, Bool-cases, List,
  [], ◌∷◌, length, length-append, All, All-append, if◌then◌else◌, arith,
}
use systemes3recomp.Dispatch.{
  Bound, Bindings, guest_hle_max, no_bindings, bind_guest, guest_hle_run,
}

module _ {ℓ} {S : Type ℓ} where
  -- At most 64 handlers, at addresses inside the span.
  pub record Spans (b : Bindings S) : Type ℓ where
    pub few : length b.bound ≤ guest_hle_max
    pub inside : All (λ (x : Bound S). (b.low ≤ x.va) × (x.va ≤ b.high)) b.bound

  -- A wider span holds them too.
  widen :
      (l h l' h' : ℕ) (bs : List (Bound S))
      → l' ≤ l
      → h ≤ h'
      → All (λ (x : Bound S). (l ≤ x.va) × (x.va ≤ h)) bs
      → All (λ (x : Bound S). (l' ≤ x.va) × (x.va ≤ h')) bs
  widen l h l' h' [] p q a = tt
  widen l h l' h' (b ∷ bs) p q a =
      let here = a.0 in ((omega (arith, here.0), omega (arith, here.1)), widen l h l' h' bs p q a.1)

  bind_guest-Spans :
      (va : ℕ) (handler : S → Bool × S) (b : Bindings S) → Spans b → Spans (bind_guest va handler b)
  unfolding bind_guest
  bind_guest-Spans va handler b v = elim (Bool-cases (leb guest_hle_max (length b.bound))) [
    | inl full ↦ rw full v
    | inr room ↦
        let bound : Bound S = record { va = va; handler = handler } in
        let low = if ltb va b.low then va else b.low in
        let high = if ltb b.high va then va else b.high in
        let less : length b.bound < guest_hle_max = ground arith in
        rw room (record {
          few = omega (arith, length-append b.bound (bound ∷ []), less);
          inside =
              All-append (λ (x : Bound S). (low ≤ x.va) × (x.va ≤ high)) b.bound (bound ∷ [])
                (widen b.low b.high low high b.bound (ground arith) (ground arith) v.inside)
                ((ground arith, ground arith), tt);
        })
  ]

  -- Handlers bound one after another, as a game's start does.
  abbrev pub bind_all : List (Bound S) → Bindings S → Bindings S
  bind_all [] b = b
  bind_all (x ∷ xs) b = bind_all xs (bind_guest x.va x.handler b)

  bind_all-Spans : (xs : List (Bound S)) (b : Bindings S) → Spans b → Spans (bind_all xs b)
  bind_all-Spans [] b v = v
  bind_all-Spans (x ∷ xs) b v =
      bind_all-Spans xs (bind_guest x.va x.handler b) (bind_guest-Spans x.va x.handler b v)

  run_outside :
      (l h va : ℕ) (bs : List (Bound S)) (s : S)
      → All (λ (x : Bound S). (l ≤ x.va) × (x.va ≤ h)) bs
      → (leb l va && leb va h) ≡ false
      → guest_hle_run bs va s ≡ (false, s)
  unfolding guest_hle_run
  run_outside l h va [] s a o = refl
  run_outside l h va (b ∷ bs) s a o =
      let low = a.0.0 in
      let high = a.0.1 in
      let ne : b.va ≢ va = λ e. ground arith in
      rw (==_of_ne b.va va ne) (run_outside l h va bs s a.1 o)

  -- However many handlers are bound, in whatever order, no handler at all answers an address outside
  -- the span that dispatch_inner tests first: the test saves the search, and loses no binding.
  pub guest_hle_run_outside :
      (xs : List (Bound S)) (va : ℕ) (s : S)
      → (leb (bind_all xs no_bindings).low va && leb va (bind_all xs no_bindings).high) ≡ false
      → guest_hle_run (bind_all xs no_bindings).bound va s ≡ (false, s)
  guest_hle_run_outside xs va s o =
      let b = bind_all xs no_bindings in
      run_outside b.low b.high va b.bound s
        (bind_all-Spans xs no_bindings (record { few = omega arith; inside = tt })).inside o
