-- ===== src/Dispatch.antt =====
-- Where a guest call goes: src/runtime/dispatch.c. What a call does to the CPU, the memory and the
-- libraries is a state of any type, `S`; lifted functions, handlers and the calls of other files are
-- functions on it.
pub mod Lookup
pub mod Fast
pub mod Binding
mod Tests
use systemes3recomp.Prelude.{
  ℕ, zero, suc, ◌+◌, ◌-◌, ◌/◌, Bool, true, false, ◌&&◌, ltb, leb, ◌==◌, if◌then◌else◌, Option, none,
  some, List, [], ◌∷◌, ◌++◌, length, get_or, set, replicate,
}

-- An entry of g_table: a guest address and what is there. `fn` is the address of the host code.
pub record Entry {ℓ} (S : Type ℓ) : Type ℓ where
  pub va : ℕ
  pub fn : ℕ
  pub body : S → S

-- g_fast, with g_fast_lo and g_fast_hi; there may be no index.
pub record Index {ℓ} (S : Type ℓ) : Type ℓ where
  pub low : ℕ
  pub high : ℕ
  pub fast : List (Option (Entry S))

module _ {ℓ} {S : Type ℓ} where
  abbrev pub nothing : Entry S
  nothing = record { va = 0; fn = 0; body = λ s. s }

  -- The loop of find: a binary search between `lo` and `hi`, for at most `fuel` rounds.
  unfoldable pub search_between : ℕ → List (Entry S) → ℕ → ℕ → ℕ → Option (Entry S)
  search_between zero table va lo hi = none
  search_between (suc fuel) table va lo hi =
      let mid = lo + (hi - lo) / 2 in
      let e = get_or table mid nothing in
      let upper = search_between fuel table va (mid + 1) hi in
      let lower = search_between fuel table va lo mid in
      if ltb lo hi
      then (if e.va == va then some e else if ltb e.va va then upper else lower)
      else none

  -- dispatch_build_index: the loop that fills the table of addresses from `base` on.
  unfoldable pub fill_index : List (Entry S) → ℕ → List (Option (Entry S)) → List (Option (Entry S))
  fill_index [] base fast = fast
  fill_index (e ∷ es) base fast = fill_index es base (set fast (e.va - base) (some e))

  abbrev pub last_va : ℕ → List (Entry S) → ℕ
  last_va d [] = d
  last_va d (e ∷ es) = last_va e.va es

  -- `memory` says whether calloc gives the table.
  unfoldable pub build_index : Bool → List (Entry S) → Option (Index S)
  build_index memory [] = none
  build_index memory (e ∷ es) =
      let high = last_va e.va es + 1 in
      if memory
      then some (record {
        low = e.va;
        high = high;
        fast = fill_index (e ∷ es) e.va (replicate (high - e.va) none);
      })
      else none

  -- find
  unfoldable pub find : Option (Index S) → List (Entry S) → ℕ → Option (Entry S)
  find none table va = search_between (suc (length table)) table va 0 (length table)
  find (some x) table va =
      if leb x.low va && ltb va x.high
      then get_or x.fast (va - x.low) none
      else search_between (suc (length table)) table va 0 (length table)

  -- dispatch_owner: the loop, with the best host address so far and its guest address.
  unfoldable pub owner_from : List (Entry S) → ℕ → ℕ → ℕ → ℕ
  owner_from [] a best va = va
  owner_from (e ∷ es) a best va =
      if leb e.fn a && ltb best e.fn then owner_from es a e.fn e.va else owner_from es a best va

  unfoldable pub owner : List (Entry S) → ℕ → ℕ
  owner table host = owner_from table host 0 0

-- A guest function answered by the runtime: its handler says whether it has answered.
pub record Bound {ℓ} (S : Type ℓ) : Type ℓ where
  pub va : ℕ
  pub handler : S → Bool × S

abbrev pub guest_hle_max : ℕ
guest_hle_max = 64

-- g_guest_hle, with es3_guest_hle_lo and es3_guest_hle_hi.
pub record Bindings {ℓ} (S : Type ℓ) : Type ℓ where
  pub bound : List (Bound S)
  pub low : ℕ
  pub high : ℕ

module _ {ℓ} {S : Type ℓ} where
  abbrev pub no_bindings : Bindings S
  no_bindings = record { bound = []; low = 0xFFFFFFFF; high = 0 }

  -- es3_bind_guest
  unfoldable pub bind_guest : ℕ → (S → Bool × S) → Bindings S → Bindings S
  bind_guest va handler b = if leb guest_hle_max (length b.bound) then b else record {
    bound = b.bound ++ (record { va = va; handler = handler } ∷ []);
    low = if ltb va b.low then va else b.low;
    high = if ltb b.high va then va else b.high;
  }

  -- es3_guest_hle_run
  unfoldable pub guest_hle_run : List (Bound S) → ℕ → S → Bool × S
  guest_hle_run [] va s = (false, s)
  guest_hle_run (b ∷ bs) va s = if b.va == va then b.handler s else guest_hle_run bs va s

-- What dispatch_inner takes from other files: HLE_IS_ADDR with hle_call, hybrid_thunk_target,
-- es3_is_host_code, and hle_call_address.
pub record Outside {ℓ} (S : Type ℓ) : Type ℓ where
  pub is_hle : ℕ → Bool
  pub hle_call : ℕ → S → S
  pub thunk_target : ℕ → Option ℕ
  pub is_host_code : ℕ → Bool
  pub call_address : ℕ → S → S

module _ {ℓ} {S : Type ℓ} where
  -- The address behind a thunk, or the address itself.
  abbrev pub target : Outside S → ℕ → ℕ
  target o va = elim (o.thunk_target va) [ none ↦ va | some t ↦ t ]

  -- dispatch_inner behind the bindings; none is abort().
  unfoldable pub run_code : Outside S → Option (Index S) → List (Entry S) → ℕ → S → Option S
  run_code o x table va s = elim (find x table va) [
    | some e ↦ some (e.body s)
    | none ↦ if o.is_host_code va then some (o.call_address va s) else none
  ]

  unfoldable pub dispatch_inner :
      Outside S → Option (Index S) → List (Entry S) → Bindings S → ℕ → S → Option S
  dispatch_inner o x table b va s =
      let t = target o va in
      let (answered, s') = guest_hle_run b.bound t s in
      if o.is_hle va
      then some (o.hle_call va s)
      else if leb b.low t && leb t b.high
      then (if answered then some s' else run_code o x table t s')
      else run_code o x table t s
