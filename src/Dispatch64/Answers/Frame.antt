-- ===== src/Dispatch64/Answers/Frame.antt =====
-- What a native call of src/runtime64/dispatch64.c does to the guest's stack and to what it is given.
use systemes3recomp.Prelude.{
  Option, ℕ, zero, suc, ◌+◌, ◌-◌, ◌%◌, ◌^◌, ◌≤◌, ◌<◌, ◌≡◌, ◌⊎◌, inl, inr, refl, ◌∙◌, Bool, true,
  false, not, ◌&&◌, ◌||◌, ltb, leb, ◌==◌, if◌then◌else◌, none, some, [], ◌∷◌, Option-cases, arith,
}
use systemes3recomp.Memory.{Memory, copy_in, fill, in_range, rd64, rd64-wr64}
use systemes3recomp.Loader64.Image.{alloc_stack}
use systemes3recomp.Dispatch64.{
  leaves, unwound, Body, Runtime, Ending, returns, returned, stopped, aborted, out_of_bounds,
  starved, run_body,
}
use systemes3recomp.Dispatch64.Opened.{Ring}
use systemes3recomp.Dispatch64.Answers.{
  Machine, Host, ThreadStart, sentinel, push_return, call_guest, initterm_from, slots, copy_bytes,
  hasp_record, hasp_read, invoke_native, replace_arguments, forward, answer_native, answer_window,
  native_call, thread_shim, fresh_thread, stack_bytes,
}

-- The call's return address is off the stack where it has returned.
abbrev pub Popped : ℕ → Ending Machine → Type 0
Popped sp (returned r s) = s.regs.rsp ≡ (sp + 8) % 2 ^ 64
Popped sp stopped = Unit
Popped sp aborted = Unit
Popped sp out_of_bounds = Unit
Popped sp starved = Unit
Popped sp (unwound s) = Unit

abbrev pub Pops : (Bool → ℕ → ℕ → Runtime → Machine → Ending Machine) → Type 0
Pops go =
    (jump : Bool) (cpu target : ℕ) (r : Runtime) (s : Machine)
    → Popped s.regs.rsp (go jump cpu target r s)

module _ (go : Bool → ℕ → ℕ → Runtime → Machine → Ending Machine) (pops : Pops go) where
  call_then :
      (sp sp' : ℕ) (o : Ending Machine) (next : Machine → Runtime → Ending Machine)
      → Popped sp o
      → ((s : Machine) (r : Runtime) → s.regs.rsp ≡ (sp + 8) % 2 ^ 64 → Popped sp' (next s r))
      → Popped sp' (elim o [
        | returned r' s' ↦ next s' r'
        | stopped ↦ stopped
        | aborted ↦ aborted
        | out_of_bounds ↦ out_of_bounds
        | starved ↦ starved
        | unwound s0 ↦ unwound s0
      ])
  call_then sp sp' (returned r s) next a b = b s r a
  call_then sp sp' stopped next a b = tt
  call_then sp sp' aborted next a b = tt
  call_then sp sp' out_of_bounds next a b = tt
  call_then sp sp' starved next a b = tt
  call_then sp sp' (unwound s) next a b = tt

  either :
      (b : Bool) (sp : ℕ) (x y : Body Machine) (r : Runtime)
      → Popped sp (run_body go x r)
      → Popped sp (run_body go y r)
      → Popped sp (run_body go (if b then x else y) r)
  either true sp x y r p q = p
  either false sp x y r p q = q

  call_guest-Popped :
      (cpu fn sp : ℕ) (s : Machine) (k : Machine → Body Machine) (r : Runtime)
      → s.regs.rsp ≡ (sp + 8) % 2 ^ 64
      → ((s' : Machine) (r' : Runtime)
          → s'.regs.rsp ≡ (sp + 8) % 2 ^ 64
          → Popped sp (run_body go (k s') r'))
      → Popped sp (run_body go (call_guest cpu fn s k) r)
  unfolding call_guest run_body push_return
  call_guest-Popped cpu fn sp s k r e next =
      call_then (push_return s).regs.rsp sp (go false cpu fn r (push_return s))
        (λ s' r'. run_body go (k s') r') (pops false cpu fn r (push_return s))
        (λ s' r' e'. next s' r' (e' ∙ omega arith))

  initterm_from-Popped :
      (cpu : ℕ) (wants : Bool) (rcx rdx n p sp : ℕ) (s : Machine) (r : Runtime)
      → s.regs.rsp ≡ (sp + 8) % 2 ^ 64
      → Popped sp (run_body go (initterm_from cpu wants rcx rdx n p s) r)
  unfolding initterm_from run_body
  initterm_from-Popped cpu wants rcx rdx zero p sp s r e = e
  initterm_from-Popped cpu wants rcx rdx (suc n) p sp s r e =
      either (rd64 s.memory p == 0) sp _ _ r
        (initterm_from-Popped cpu wants rcx rdx n (p + 8) sp s r e)
        (call_guest-Popped cpu (rd64 s.memory p) sp s _ r e (λ s' r' e'.
          either (wants && not (s'.regs.rax % 2 ^ 32 == 0)) sp _ _ r' e'
            (initterm_from-Popped cpu wants rcx rdx n (p + 8) sp s' r' e')))

  forward-Popped :
      (h : Host) (cpu target sp : ℕ) (s : Machine) (r : Runtime)
      → s.regs.rsp ≡ (sp + 8) % 2 ^ 64
      → Popped sp (run_body go (forward h cpu target s) r)
  unfolding forward run_body replace_arguments invoke_native
  forward-Popped h cpu target sp s r e =
      let kept : (replace_arguments h target s).rsp ≡ s.regs.rsp = ground arith in
      let s' : Machine = record s { regs = replace_arguments h target s } in
      let listed : Bool = target == h.addresses.initterm || target == h.addresses.initterm_e in
      either (listed && not (s'.regs.rcx == 0) && not (s'.regs.rdx == 0)) sp
        (initterm_from cpu (target == h.addresses.initterm_e) s'.regs.rcx s'.regs.rdx
          (slots s'.regs.rcx s'.regs.rdx) s'.regs.rcx s')
        (returns (invoke_native h target s')) r
        (initterm_from-Popped cpu (target == h.addresses.initterm_e) s'.regs.rcx s'.regs.rdx
          (slots s'.regs.rcx s'.regs.rdx) s'.regs.rcx sp s' r (kept ∙ e))
        (kept ∙ e)

  answer_native-rsp :
      (h : Host) (target : ℕ) (s t : Machine)
      → answer_native h target s ≡ some t
      → t.regs.rsp ≡ s.regs.rsp
  unfolding answer_native hasp_read
  answer_native-rsp h target s t e = ground arith

  answer_window-rsp :
      (h : Host) (target : ℕ) (s t : Machine)
      → answer_window h target s ≡ some t
      → t.regs.rsp ≡ s.regs.rsp
  unfolding answer_window
  answer_window-rsp h target s t e = ground arith

  caught :
      (o : Option Machine) (sp : ℕ) (b : Body Machine) (r : Runtime)
      → Popped sp (run_body go b r)
      → Popped sp (run_body go (elim o [ some t ↦ leaves t | none ↦ b ]) r)
  unfolding run_body
  caught none sp b r p = p
  caught (some t) sp b r p = tt

  uncaught-Popped :
      (h : Host) (cpu target sp : ℕ) (s : Machine) (r : Runtime)
      → s.regs.rsp ≡ (sp + 8) % 2 ^ 64
      → Popped sp (
          run_body go
            (elim (answer_native h target s) [ some t ↦ returns t | none ↦ forward h cpu target s ])
            r)
  unfolding run_body
  uncaught-Popped h cpu target sp s r k = elim (Option-cases (answer_native h target s)) [
    | inr (t, a) ↦ rw a (answer_native-rsp h target s t a ∙ k)
    | inl a ↦ rw a (forward-Popped h cpu target sp s r k)
  ]

  -- If the guest's functions take their return addresses off the stack where they return, a native call
  -- that returns has taken its own off, once, and moved the stack by nothing else, whatever is called, the
  -- functions of an _initterm table included.
  pub native_call-Popped :
      (h : Host) (cpu target : ℕ) (s : Machine) (r : Runtime)
      → Popped s.regs.rsp (run_body go (native_call h cpu target s) r)
  unfolding native_call run_body
  native_call-Popped h cpu target s r =
      let sp : ℕ = s.regs.rsp in
      let s' : Machine = record s { regs = record s.regs { rsp = (sp + 8) % 2 ^ 64 } } in
      let thrown = h.eh_throw (rd64 s.memory sp) s.regs.rcx s.regs.rdx s' in
      let rest = uncaught-Popped h cpu target sp s' r refl in
      elim (Option-cases (answer_window h target s')) [
        | inr (t, e) ↦ rw (e, native_call, run_body) (answer_window-rsp h target s' t e)
        | inl e ↦
            rw (e, native_call)
              (either (target == h.addresses.cxx_throw_exception) sp _ _ r
                (caught thrown sp _ r rest) rest)
      ]

copy_in-one : (m : Memory) (at v x : ℕ) → copy_in m at (v ∷ []) x ≡ (if x == at then v else m x)
unfolding copy_in
copy_in-one m at v x = ground arith

copy_bytes_lem :
    (n from to : ℕ) (m : Memory) (x : ℕ)
    → (from + n ≤ to) ⊎ (to + n ≤ from)
    → copy_bytes n from to m x ≡ (if in_range to n x then m (from + (x - to)) else m x)
unfolding copy_bytes
copy_bytes_lem zero from to m x h = ground arith
copy_bytes_lem (suc n) from to m x h =
    let m' : Memory = copy_in m to (m from ∷ []) in
    let other : (y : ℕ) → m' y ≡ (if y == to then m from else m y) = copy_in-one m to (m from) in
    copy_bytes_lem n (from + 1) (to + 1) m' x (ground arith)
    ∙ ground (arith, other x, other (from + 1 + (x - (to + 1))))

named :
    (buf len sp : ℕ) (m : Memory) (x : ℕ)
    → 5 ≤ len
    → (sp + 0x39 ≤ buf) ⊎ (buf + len ≤ sp + 0x34)
    → copy_bytes 5 (sp + 0x34) buf (fill m buf len 0) x ≡ (
        if not (in_range buf len x)
        then m x
        else if ltb x (buf + 5)
        then m (sp + 0x34 + (x - buf))
        else 0)
unfolding fill
named buf len sp m x h d =
    copy_bytes_lem 5 (sp + 0x34) buf (fill m buf len 0) x (ground arith) ∙ ground arith

signed :
    (m : Memory) (buf x : ℕ)
    → copy_in m (buf + 0x3e) (0x5a ∷ 0xa5 ∷ []) x
      ≡ (if x == buf + 0x3e then 0x5a else if x == buf + 0x3f then 0xff - 0x5a else m x)
unfolding copy_in
signed m buf x = ground arith

-- The record that the dongle is read for, where the buffer holds it and does not lie on the five bytes
-- of the id: the id, zeros, and the byte 0x5a with its complement at 0x3e. Nothing else changes.
pub hasp_record_lem :
    (buf len sp : ℕ) (m : Memory) (x : ℕ)
    → 0x40 ≤ len
    → (sp + 0x39 ≤ buf) ⊎ (buf + len ≤ sp + 0x34)
    → hasp_record buf len sp m x ≡ (
        if not (in_range buf len x)
        then m x
        else if ltb x (buf + 5)
        then m (sp + 0x34 + (x - buf))
        else if x == buf + 0x3e
        then 0x5a
        else if x == buf + 0x3f
        then 0xff - 0x5a
        else 0)
unfolding hasp_record
hasp_record_lem buf len sp m x h d =
    let before : Memory = copy_bytes 5 (sp + 0x34) buf (fill m buf len 0) in
    let long : leb 0x40 len ≡ true = ground arith in
    let front = named buf len sp m x (omega arith) d in
    rw long (signed before buf x ∙ ground (arith, front))

pushed :
    (s : Machine)
    → 8 ≤ s.regs.rsp
    → s.regs.rsp < 2 ^ 64
    → ((push_return s).regs.rsp + 8 ≡ s.regs.rsp)
      × (rd64 (push_return s).memory (push_return s).regs.rsp ≡ sentinel)
unfolding push_return
pushed s h l =
    (omega arith, rd64-wr64 s.memory ((s.regs.rsp + 2 ^ 64 - 8) % 2 ^ 64) sentinel (omega arith))

started : (s : Machine) → (push_return s).regs.rcx ≡ s.regs.rcx
unfolding push_return
started s = refl

allocated :
    (p bytes : ℕ)
    → 0 < p
    → p + 0x1000 + bytes < 2 ^ 64
    → (alloc_stack p bytes % 16 ≡ 0) × (16 ≤ alloc_stack p bytes) × (alloc_stack p bytes < 2 ^ 64)
unfolding alloc_stack
allocated p bytes h l = ground arith

-- A thread that is given a stack starts in the guest with its parameter, the return address of the runtime
-- on its stack, and the stack as a call leaves it: 8 behind a 16-byte boundary.
pub thread_shim_lem :
    (t : ThreadStart) (alloc : ℕ → ℕ) (m : Memory) (files : Ring)
    → 0 < alloc (stack_bytes t)
    → alloc (stack_bytes t) + 0x1000 + stack_bytes t < 2 ^ 64
    → (s : Machine) × (thread_shim t alloc m files ≡ some s)
      × (s.regs.rcx ≡ t.param)
      × (s.regs.rsp % 16 ≡ 8)
      × (rd64 s.memory s.regs.rsp ≡ sentinel)
unfolding thread_shim
thread_shim_lem t alloc m files given fits =
    let bytes : ℕ = stack_bytes t in
    let sp : ℕ = alloc_stack (alloc bytes) bytes in
    let room = allocated (alloc bytes) bytes given fits in
    let top = pushed (fresh_thread t sp m files) (omega (arith, room)) room.2 in
    let there : (sp == 0) ≡ false = ground (arith, room) in
    (
      push_return (fresh_thread t sp m files),
      rw there,
      started (fresh_thread t sp m files),
      omega (arith, top.0, room.0),
      top.1,
    )
