-- ===== src/Dispatch64/Kept.antt =====
-- What a dispatch of src/runtime64/dispatch64.c leaves as it was: the shadow call stack of its callers,
-- the current CPU, and the limit.
use systemes3recomp.Prelude.{
  ℕ, zero, suc, ◌+◌, ◌-◌, ◌<◌, ◌≡◌, ◌⊎◌, inl, inr, refl, ◌∙◌, ltb, leb, ◌==◌, Bool, true, false,
  not, ◌&&◌, if◌then◌else◌, some, Bool-cases, Option-cases, arith,
}
use systemes3recomp.Dispatch64.{
  leaves, unwound, Body, Program, Runtime, Ending, returns, calls, returned, stopped, aborted,
  out_of_bounds, starved, push, check_limit, lookup, run_body, restoring, call_lifted, call_native,
  dispatch, is_logged, cs_max, watch_reader, to_preferred,
}

-- The frames below, the CPU and the limit are as they were.
pub record Restored (limit : ℕ) (r r' : Runtime) : Type 0 where
  pub depth : r'.depth ≡ r.depth
  pub cur : r'.cur ≡ r.cur
  pub stack : (i : ℕ) → i < r.depth → r'.stack i ≡ r.stack i
  pub within : (limit ≡ 0) ⊎ (r'.count < limit)

abbrev Within : ℕ → Runtime → Type 0
Within limit r = (limit ≡ 0) ⊎ (r.count < limit)

Restored-trans :
    {limit : ℕ} {r s t : Runtime} → Restored limit r s → Restored limit s t → Restored limit r t
Restored-trans a b = record {
  depth = b.depth ∙ a.depth;
  cur = b.cur ∙ a.cur;
  stack = λ i h. b.stack i (omega (arith, a.depth)) ∙ a.stack i h;
  within = b.within;
}

-- A frame is taken off again.
popped :
    (limit pref cpu : ℕ) (r x : Runtime) (armed armed' : Bool)
    → Restored limit (record (push pref (record r { cur = cpu })) { armed = armed }) x
    → Restored limit r (record x { depth = x.depth - 1; cur = r.cur; armed = armed' })
unfolding push
popped limit pref cpu r x armed armed' a = record {
  depth = omega (arith, a.depth);
  cur = refl;
  stack = λ i h. ground (arith, a.stack i);
  within = a.within;
}

module _ {ℓ} {S : Type ℓ} where
  -- A dispatch that returns has restored what it found.
  abbrev pub Restores : ℕ → Runtime → Ending S → Type 0
  Restores limit r (returned r' s) = Restored limit r r'
  Restores limit r stopped = Unit
  Restores limit r aborted = Unit
  Restores limit r out_of_bounds = Unit
  Restores limit r starved = Unit
  Restores limit r (unwound s) = Unit

  abbrev Keeps : ℕ → (Bool → ℕ → ℕ → Runtime → S → Ending S) → Type ℓ
  Keeps limit go =
      (jump : Bool) (cpu target : ℕ) (r : Runtime) (s : S)
      → Restores limit r (go jump cpu target r s)

  Restores-after :
      (limit : ℕ) (r r' : Runtime) (o : Ending S)
      → Restored limit r r'
      → Restores limit r' o
      → Restores limit r o
  Restores-after limit r r' (returned t s) a b = Restored-trans a b
  Restores-after limit r r' stopped a b = tt
  Restores-after limit r r' aborted a b = tt
  Restores-after limit r r' out_of_bounds a b = tt
  Restores-after limit r r' starved a b = tt
  Restores-after limit r r' (unwound s) a b = tt

  call_then :
      (limit : ℕ) (r : Runtime) (o : Ending S) (next : S → Runtime → Ending S)
      → Restores limit r o
      → ((s : S) (r' : Runtime) → Within limit r' → Restores limit r' (next s r'))
      → Restores limit r (elim o [
        | returned r' s' ↦ next s' r'
        | stopped ↦ stopped
        | aborted ↦ aborted
        | out_of_bounds ↦ out_of_bounds
        | starved ↦ starved
        | unwound s0 ↦ unwound s0
      ])
  call_then limit r (returned t s) next a b = Restores-after limit r t (next s t) a (b s t a.within)
  call_then limit r stopped next a b = tt
  call_then limit r aborted next a b = tt
  call_then limit r out_of_bounds next a b = tt
  call_then limit r starved next a b = tt
  call_then limit r (unwound s) next a b = tt

  run_body-Restores :
      (limit : ℕ) (go : Bool → ℕ → ℕ → Runtime → S → Ending S) (b : Body S) (r : Runtime)
      → Keeps limit go
      → Within limit r
      → Restores limit r (run_body go b r)
  unfolding run_body
  run_body-Restores limit go (returns s) r keeps w = record {
    depth = refl;
    cur = refl;
    stack = λ i h. refl;
    within = w;
  }
  run_body-Restores limit go (leaves s) r keeps w = tt
  run_body-Restores limit go (calls jump cpu target s k) r keeps w =
      call_then limit r (go jump cpu target r s) (λ s' r'. run_body go (k s') r')
        (keeps jump cpu target r s) (λ s' r' w'. run_body-Restores limit go (k s') r' keeps w')

  restoring-Restores :
      (limit : ℕ) (f : Runtime → Runtime) (inner r : Runtime) (o : Ending S)
      → Restores limit inner o
      → ((x : Runtime) → Restored limit inner x → Restored limit r (f x))
      → Restores limit r (restoring f o)
  unfolding restoring
  restoring-Restores limit f inner r (returned t s) a b = b t a
  restoring-Restores limit f inner r stopped a b = tt
  restoring-Restores limit f inner r aborted a b = tt
  restoring-Restores limit f inner r out_of_bounds a b = tt
  restoring-Restores limit f inner r starved a b = tt
  restoring-Restores limit f inner r (unwound s) a b = tt

  check_limit-Restored :
      (g : Program S) (r r' : Runtime) → check_limit g r ≡ some r' → Restored g.limit r r'
  unfolding check_limit
  check_limit-Restored g r r' e = record {
    depth = ground arith;
    cur = ground arith;
    stack = λ i h. ground arith;
    within = ground arith;
  }

  either :
      (limit : ℕ) (r : Runtime) (b : Bool) (x y : Ending S)
      → Restores limit r x
      → Restores limit r y
      → Restores limit r (if b then x else y)
  either limit r true x y p q = p
  either limit r false x y p q = q

  call_lifted-Restores :
      (g : Program S) (go : Bool → ℕ → ℕ → Runtime → S → Ending S) (cpu fn pref : ℕ) (r : Runtime)
      (s : S)
      → Keeps g.limit go
      → Within g.limit r
      → Restores g.limit r (call_lifted g go cpu fn pref r s)
  unfolding call_lifted push
  call_lifted-Restores g go cpu fn pref r s keeps w =
      let inner : Runtime = push pref (record r { cur = cpu }) in
      either g.limit r (is_logged g.log_calls pref) _ _
        (restoring-Restores g.limit (λ x. record x { cur = r.cur }) (record r { cur = cpu }) r
          (run_body go (g.code fn cpu s) (record r { cur = cpu }))
          (run_body-Restores g.limit go (g.code fn cpu s) (record r { cur = cpu }) keeps w)
          (λ x a. record { depth = a.depth; cur = refl; stack = a.stack; within = a.within }))
        (either g.limit r (g.log_callees && leb (cs_max + 2) inner.depth) _ _ tt (
          either g.limit r (not (g.watch_serialize == 0) && pref == g.watch_serialize) _ _
            (restoring-Restores g.limit
              (λ x. record x { depth = x.depth - 1; cur = r.cur; armed = false })
              (record inner { armed = true }) r
              (run_body go (g.code fn cpu s) (record inner { armed = true }))
              (run_body-Restores g.limit go (g.code fn cpu s) (record inner { armed = true }) keeps
                w)
              (λ x a. popped g.limit pref cpu r x true false a))
            (restoring-Restores g.limit (λ x. record x { depth = x.depth - 1; cur = r.cur })
              (watch_reader g pref inner) r
              (run_body go (g.code fn cpu s) (watch_reader g pref inner))
              (run_body-Restores g.limit go (g.code fn cpu s) (watch_reader g pref inner) keeps w)
              (λ x a. popped g.limit pref cpu r x (watch_reader g pref inner).armed x.armed a))))

  call_native-Restores :
      (g : Program S) (go : Bool → ℕ → ℕ → Runtime → S → Ending S) (cpu target : ℕ) (r : Runtime)
      (s : S)
      → Keeps g.limit go
      → Within g.limit r
      → Restores g.limit r (call_native g go cpu target r s)
  unfolding call_native
  call_native-Restores g go cpu target r s keeps w =
      elim (Bool-cases (leb g.text_lo target && ltb target g.text_hi)) [
        | inl e ↦ rw e tt
        | inr e ↦ rw e (run_body-Restores g.limit go (g.native target cpu s) r keeps w)
      ]

  -- Whatever the lifted and the native functions do, and however they call one another: a dispatch that
  -- returns leaves the depth of the call stack, the frames of its callers and the current CPU as they
  -- were, and has not gone past the limit where one is set.
  pub dispatch-Restores :
      (fuel : ℕ) (g : Program S) (jump : Bool) (cpu target : ℕ) (r : Runtime) (s : S)
      → Restores g.limit r (dispatch fuel g jump cpu target r s)
  unfolding dispatch
  dispatch-Restores zero g jump cpu target r s = tt
  dispatch-Restores (suc fuel) g jump cpu target r s =
      let pref : ℕ = to_preferred g.delta target in
      let s' : S = if jump then s else g.io_board_call pref s in
      let keeps : Keeps g.limit (dispatch fuel g) =
        λ j c t x y. dispatch-Restores fuel g j c t x y in
      elim (Option-cases (check_limit g r)) [
        | inl e ↦ rw (e, dispatch) tt
        | inr (r', e) ↦
            let checked = check_limit-Restored g r r' e in
            elim (Option-cases (lookup g.sorted pref)) [
              | inl none_such ↦
                  rw (e, none_such, dispatch)
                    (Restores-after g.limit r r' _ checked (
                      call_native-Restores g (dispatch fuel g) cpu target r' s' keeps
                        checked.within))
              | inr (fn, found) ↦
                  rw (e, found, dispatch)
                    (Restores-after g.limit r r' _ checked (
                      either g.limit r' jump _ _
                        (Restores-after g.limit r' (watch_reader g pref r') _
                          (record {
                            depth = refl;
                            cur = refl;
                            stack = λ i h. refl;
                            within = checked.within;
                          })
                          (run_body-Restores g.limit (dispatch fuel g) (g.code fn cpu s')
                            (watch_reader g pref r') keeps checked.within))
                        (call_lifted-Restores g (dispatch fuel g) cpu fn pref r' s' keeps
                          checked.within)))
            ]
      ]
