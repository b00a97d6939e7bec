-- ===== src/Dispatch64.antt =====
-- Where a guest call of the 64-bit runtime goes: lookup, dispatch and dispatch_jmp of
-- src/runtime64/dispatch64.c, with the shadow call stack and the limit on dispatches. What a call does to
-- the CPU and the memory is a state of any type, `S`.
pub mod Lookup
pub mod Kept
pub mod Stack
pub mod Answers
pub mod Opened
pub mod Bridge
mod Tests
use systemes3recomp.Prelude.{
  ℕ, zero, suc, ◌+◌, ◌-◌, ◌/◌, ◌%◌, ◌^◌, Bool, true, false, not, ◌&&◌, ◌||◌, ltb, leb, ◌==◌,
  if◌then◌else◌, Option, none, some, List, [], ◌∷◌, length, get_or,
}

-- The loop of lookup over g_sorted, a list of addresses with their functions, for at most `fuel` rounds.
unfoldable pub lower_bound : ℕ → List (ℕ × ℕ) → ℕ → ℕ → ℕ → ℕ
lower_bound zero t va lo hi = lo
lower_bound (suc fuel) t va lo hi =
    let mid = lo + (hi - lo) / 2 in
    let upper = lower_bound fuel t va (mid + 1) hi in
    let lower = lower_bound fuel t va lo mid in
    if ltb lo hi then (if ltb (get_or t mid (0, 0)).0 va then upper else lower) else lo

unfoldable pub lookup : List (ℕ × ℕ) → ℕ → Option ℕ
lookup t va =
    let lo = lower_bound (suc (length t)) t va 0 (length t) in
    let e = get_or t lo (0, 0) in if ltb lo (length t) && e.0 == va then some e.1 else none

-- What a lifted or a native function does, as far as dispatch can tell: it returns, or it dispatches
-- with a CPU, by a call or by a jump, and goes on from the state behind that, or leaves for a
-- frame that catches an exception.
pub data Body {ℓ} (S : Type ℓ) : Type ℓ where
  returns : S → Body S
  calls : Bool → ℕ → ℕ → S → (S → Body S) → Body S
  leaves : S → Body S

-- A run of the recompiled game: g_sorted and the functions behind it, the native ones, g_image_delta,
-- g_image.text_lo and text_hi, io_board_call, g_dispatch_limit, g_log_calls, g_watch_serialize,
-- g_watch_reader, and whether the callees of a function are traced.
pub record Program {ℓ} (S : Type ℓ) : Type ℓ where
  pub sorted : List (ℕ × ℕ)
  pub code : ℕ → ℕ → S → Body S
  pub native : ℕ → ℕ → S → Body S
  pub delta : ℕ
  pub text_lo : ℕ
  pub text_hi : ℕ
  pub io_board_call : ℕ → S → S
  pub limit : ℕ
  pub log_calls : List ℕ
  pub watch_serialize : ℕ
  pub watch_reader : ℕ
  pub log_callees : Bool

-- cs_depth, cs_stack, g_cur_cpu, g_watch_armed and g_dispatch_count, of one thread.
pub record Runtime : Type 0 where
  pub depth : ℕ
  pub stack : ℕ → ℕ
  pub cur : ℕ
  pub armed : Bool
  pub count : ℕ

-- What becomes of a dispatch. It may stop at the limit, abort, or read outside cs_stack; `starved` is
-- the fuel's end.
pub data Ending {ℓ} (S : Type ℓ) : Type ℓ where
  returned : Runtime → S → Ending S
  stopped : Ending S
  aborted : Ending S
  out_of_bounds : Ending S
  starved : Ending S
  unwound : S → Ending S

abbrev pub cs_max : ℕ
cs_max = 256

-- to_preferred; a negative delta is its value modulo 2 ^ 64.
abbrev pub to_preferred : ℕ → ℕ → ℕ
to_preferred delta real = (real + 2 ^ 64 - delta) % 2 ^ 64

unfoldable pub is_logged : List ℕ → ℕ → Bool
is_logged [] va = false
is_logged (x ∷ xs) va = x == va || is_logged xs va

-- cs_stack[cs_depth++] = pref, where there is room.
unfoldable pub push : ℕ → Runtime → Runtime
push pref r = record r {
  depth = r.depth + 1;
  stack = λ i. if ltb r.depth cs_max && i == r.depth then pref else r.stack i;
}

-- es3_dump_callstack: the innermost 40 at most; none is a read outside cs_stack.
unfoldable pub dump_from : ℕ → ℕ → (ℕ → ℕ) → Option (List ℕ)
dump_from zero top stack = some []
dump_from (suc n) top stack =
    if leb cs_max (top - 1) then none else elim (dump_from n (top - 1) stack) [
      | none ↦ none
      | some rest ↦ some (stack (top - 1) ∷ rest)
    ]

unfoldable pub dump_callstack : Runtime → Option (List ℕ)
dump_callstack r = dump_from (if ltb r.depth 40 then r.depth else 40) r.depth r.stack

module _ {ℓ} {S : Type ℓ} where
  -- check_limit; none is exit(3).
  unfoldable pub check_limit : Program S → Runtime → Option Runtime
  check_limit g r =
      if g.limit == 0
      then some r
      else if leb g.limit (r.count + 1)
      then none
      else some (record r { count = r.count + 1 })

  -- es3_watch_reader, as far as it changes g_watch_armed.
  abbrev pub watch_reader : Program S → ℕ → Runtime → Runtime
  watch_reader g pref r = record r {
    armed = r.armed && (g.watch_reader == 0 || not (pref == g.watch_reader));
  }

  -- A function's dispatches in their order; `go` is dispatch and dispatch_jmp.
  unfoldable pub run_body : (Bool → ℕ → ℕ → Runtime → S → Ending S) → Body S → Runtime → Ending S
  run_body go (returns s) r = returned r s
  run_body go (leaves s) r = unwound s
  run_body go (calls jump cpu target s k) r = elim (go jump cpu target r s) [
    | returned r' s' ↦ run_body go (k s') r'
    | stopped ↦ stopped
    | aborted ↦ aborted
    | out_of_bounds ↦ out_of_bounds
    | starved ↦ starved
    | unwound s0 ↦ unwound s0
  ]

  -- What is put back behind a function that has returned.
  unfoldable pub restoring : (Runtime → Runtime) → Ending S → Ending S
  restoring f (returned r s) = returned (f r) s
  restoring f stopped = stopped
  restoring f aborted = aborted
  restoring f out_of_bounds = out_of_bounds
  restoring f starved = starved
  restoring f (unwound s) = unwound s

  -- The middle of dispatch: a lifted function `fn` at `pref`.
  unfoldable pub call_lifted :
      Program S → (Bool → ℕ → ℕ → Runtime → S → Ending S) → ℕ → ℕ → ℕ → Runtime → S → Ending S
  unfolding push run_body restoring is_logged
  call_lifted g go cpu fn pref r s =
      let watched = not (g.watch_serialize == 0) && pref == g.watch_serialize in
      let inner = push pref (record r { cur = cpu }) in
      if is_logged g.log_calls pref
      then restoring (λ x. record x { cur = r.cur })
          (run_body go (g.code fn cpu s) (record r { cur = cpu }))
      else if g.log_callees && leb (cs_max + 2) inner.depth
      then out_of_bounds
      else if watched
      then restoring (λ x. record x { depth = x.depth - 1; cur = r.cur; armed = false })
          (run_body go (g.code fn cpu s) (record inner { armed = true }))
      else restoring (λ x. record x { depth = x.depth - 1; cur = r.cur })
          (run_body go (g.code fn cpu s) (watch_reader g pref inner))

  -- The end of both: an address with no lifted function.
  unfoldable pub call_native :
      Program S → (Bool → ℕ → ℕ → Runtime → S → Ending S) → ℕ → ℕ → Runtime → S → Ending S
  unfolding run_body
  call_native g go cpu target r s =
      if leb g.text_lo target && ltb target g.text_hi
      then aborted
      else run_body go (g.native target cpu s) r

  -- dispatch, and dispatch_jmp where `jump` is set.
  unfoldable pub dispatch : ℕ → Program S → Bool → ℕ → ℕ → Runtime → S → Ending S
  unfolding check_limit lookup call_lifted call_native
  dispatch zero g jump cpu target r s = starved
  dispatch (suc fuel) g jump cpu target r s =
      let pref = to_preferred g.delta target in
      let s' = if jump then s else g.io_board_call pref s in
      elim (check_limit g r) [
        | none ↦ stopped
        | some r' ↦ elim (lookup g.sorted pref) [
          | none ↦ call_native g (dispatch fuel g) cpu target r' s'
          | some fn ↦
              if jump
              then run_body (dispatch fuel g) (g.code fn cpu s') (watch_reader g pref r')
              else call_lifted g (dispatch fuel g) cpu fn pref r' s'
        ]
      ]
