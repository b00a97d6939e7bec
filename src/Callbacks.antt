-- ===== src/Callbacks.antt =====
-- The imports that take a pointer to guest code, and the way back from it: src/runtime/hle_callback.c.
-- pcrecomp's thunks and its dispatch, and the forwarded call of src/runtime/hle_native.c, are parameters.
pub mod Initterm
pub mod Planted
pub mod Windows
pub mod Answered
pub mod Laws
mod Tests
use systemes3recomp.Prelude.{
  ℕ, zero, suc, ◌+◌, ◌-◌, ◌*◌, ◌%◌, ◌^◌, bit_or, Bool, true, false, not, ◌&&◌, ◌||◌, leb, ltb, ◌==◌,
  if◌then◌else◌, Option, none, some, List, [], ◌∷◌,
}
use systemes3recomp.Memory.{Memory, rd32, wr32}
use systemes3recomp.Native.{a32}

-- The guest's registers, eax, ecx, edx, ebx, esp, ebp, esi and edi by their numbers, and its memory.
pub record Guest : Type 0 where
  pub gpr : ℕ → ℕ
  pub memory : Memory

abbrev pub eax : ℕ
eax = 0

abbrev pub edx : ℕ
edx = 2

abbrev pub esp : ℕ
esp = 4

abbrev pub set : ℕ → ℕ → (ℕ → ℕ) → ℕ → ℕ
set k v r i = if i == k then v else r i

-- A32(n), and a write of the slot that it reads.
abbrev pub arg : Guest → ℕ → ℕ
arg c n = a32 c.memory (c.gpr esp) n

abbrev pub set_arg : ℕ → ℕ → Guest → Guest
set_arg n v c = record c { memory = wr32 c.memory (c.gpr esp + 4 + 4 * n) v }

-- RET
abbrev pub ret : ℕ → Guest → Guest
ret v c = record c { gpr = set eax v c.gpr }

-- How many bytes the callee has taken off the stack beyond its return address.
unfoldable pub cleaned : ℕ → ℕ → ℕ
cleaned esp0 now =
    let slot = (esp0 + 4) % 2 ^ 32 in
    if leb slot now then (now + 2 ^ 32 - esp0 + 2 ^ 32 - 4) % 2 ^ 32 else 0

-- es3_hybrid_invoke, the threads and the traces left out: the registers that it leaves in `r`, its
-- result, and the memory. Its `or` has no bit in common.
unfoldable pub hybrid_invoke : (ℕ → Guest → Guest) → ℕ → (ℕ → ℕ) → Memory → (ℕ → ℕ) × ℕ × Memory
unfolding cleaned
hybrid_invoke dispatch ova r m =
    let c = dispatch ova (record { gpr = r; memory = m }) in
    (
      set edx (c.gpr edx) (set eax (c.gpr eax) r),
      c.gpr eax + 2 ^ 32 * cleaned (r esp) (c.gpr esp),
      c.memory,
    )

-- A slot of `seen` and of `hits`, which is a byte.
pub record Crossing : Type 0 where
  pub va : ℕ
  pub hits : ℕ

abbrev pub crossings : ℕ
crossings = 256

-- The search for the callback's slot among the `room` that are left, and whether the crossing is shown.
unfoldable pub note_crossing : ℕ → ℕ → List Crossing → Bool × List Crossing
note_crossing zero ova seen = (false, seen)
note_crossing (suc room) ova [] = (true, record { va = ova; hits = 1 } ∷ [])
note_crossing (suc room) ova (s ∷ seen) =
    let (show, rest) = note_crossing room ova seen in
    if s.va == ova
    then (ltb s.hits 8, record s { hits = (s.hits + 1) % 256 } ∷ seen)
    else (show, s ∷ rest)

-- es3_callback. `thunk` is hybrid_thunk, 0 where there are no more; none is abort.
unfoldable pub callback : (ℕ → ℕ) → ℕ → Option ℕ
callback thunk va = if va == 0 then some 0 else if thunk va == 0 then none else some (thunk va)

-- guest_image_base and guest_image_size.
pub record Image : Type 0 where
  pub base : ℕ
  pub size : ℕ

abbrev pub in_image : Image → ℕ → Bool
in_image g va = leb g.base va && ltb va ((g.base + g.size) % 2 ^ 32)

-- wrap_callback_arg up to the forwarded call.
unfoldable pub wrap_arg : Image → (ℕ → ℕ) → ℕ → Guest → Option Guest
unfolding callback
wrap_arg g thunk n c =
    if not (in_image g (arg c n))
    then some c
    else elim (callback thunk (arg c n)) [ none ↦ none | some t ↦ some (set_arg n t c) ]

-- A word of a struct that holds a callback.
unfoldable pub wrap_word : Image → (ℕ → ℕ) → Bool → ℕ → Memory → Option Memory
unfolding callback
wrap_word g thunk off at m =
    if not (in_image g (rd32 m at)) || off
    then some m
    else elim (callback thunk (rd32 m at)) [ none ↦ none | some t ↦ some (wr32 m at t) ]

-- The module handle behind it. `own` is GetModuleHandleW(NULL).
unfoldable pub fix_instance : Image → Bool → ℕ → ℕ → Memory → Memory
fix_instance g off own at m = if rd32 m at == g.base && not off then wr32 m at own else m

-- wrap_callback_field up to the forwarded call. `no_thunk` and `no_fix` say whether
-- ES3_NO_WNDPROC_THUNK and ES3_NO_HINSTANCE_FIX are set.
unfoldable pub wrap_field : Image → (ℕ → ℕ) → Bool → Bool → ℕ → ℕ → Guest → Option Guest
unfolding wrap_word fix_instance
wrap_field g thunk no_thunk no_fix own off c =
    let sp = arg c 0 in
    if sp == 0 then some c else elim (wrap_word g thunk no_thunk (sp + off) c.memory) [
      | none ↦ none
      | some m ↦ some (record c { memory = fix_instance g no_fix own (sp + off + 12) m })
    ]

-- hle_call_native behind what was done to the frame; none is abort.
abbrev pub forward : (Guest → Guest) → Option Guest → Option Guest
forward native none = none
forward native (some c) = some (native c)

-- hle_register_class and hle_register_class_ex.
unfoldable pub register_class :
    Image → (ℕ → ℕ) → Bool → Bool → ℕ → (Guest → Guest) → Guest → Option Guest
unfolding wrap_field
register_class g thunk no_thunk no_fix own native c =
    forward native (wrap_field g thunk no_thunk no_fix own 4 c)

unfoldable pub register_class_ex :
    Image → (ℕ → ℕ) → Bool → Bool → ℕ → (Guest → Guest) → Guest → Option Guest
unfolding wrap_field
register_class_ex g thunk no_thunk no_fix own native c =
    forward native (wrap_field g thunk no_thunk no_fix own 8 c)

-- hle_set_window_long: -4 is GWL_WNDPROC.
unfoldable pub set_window_long : Image → (ℕ → ℕ) → (Guest → Guest) → Guest → Option Guest
unfolding wrap_arg
set_window_long g thunk native c =
    forward native (if arg c 1 == 2 ^ 32 - 4 then wrap_arg g thunk 2 c else some c)

abbrev pub default_stack : ℕ
default_stack = 16 * 2 ^ 20

-- thread_stack_size: what it answers, which is what `cached` is then. `mb` is atoi of
-- ES3_THREAD_STACK_MB, a 32-bit word, if it is set.
unfoldable pub thread_stack_size : Option ℕ → ℕ → ℕ
thread_stack_size none cached = if cached == 0 then default_stack else cached
thread_stack_size (some mb) cached =
    let asked = mb * 2 ^ 20 % 2 ^ 32 in
    if not (cached == 0)
    then cached
    else if ltb 0 mb && ltb mb (2 ^ 31)
    then asked
    else default_stack

-- hle_create_thread up to the forwarded call, 0x10000 being STACK_SIZE_PARAM_IS_A_RESERVATION.
unfoldable pub create_thread : Image → (ℕ → ℕ) → ℕ → Guest → Option Guest
unfolding wrap_arg
create_thread g thunk size c =
    let sized = set_arg 1 size c in
    wrap_arg g thunk 2 (set_arg 4 (bit_or (arg sized 4) 0x10000) sized)
