-- ===== src/Dispatch64/Answers.antt =====
-- The native calls of the 64-bit runtime: es3_native_call and es3_thread_shim of
-- src/runtime64/dispatch64.c. The call itself, which the thunk makes on the host, is a parameter.
pub mod Frame
pub mod Initterm
use systemes3recomp.Prelude.{
  ℕ, zero, suc, ◌+◌, ◌-◌, ◌*◌, ◌/◌, ◌%◌, ◌^◌, Bool, true, false, not, ◌&&◌, ◌||◌, ltb, leb, ◌==◌,
  if◌then◌else◌, Option, none, some, List, [], ◌∷◌, Bytes,
}
use systemes3recomp.Memory.{Memory, copy_in, fill, rd64, wr32, wr64}
use systemes3recomp.Loader64.Image.{alloc_stack}
use systemes3recomp.Dispatch64.{leaves, Body, returns, calls}
use systemes3recomp.Dispatch64.Opened.{Ring, note_file}

-- The registers that a native call reads or sets; `xmm` holds 128 bits each.
pub record Regs : Type 0 where
  pub rax : ℕ
  pub rcx : ℕ
  pub rdx : ℕ
  pub rsp : ℕ
  pub r8 : ℕ
  pub r9 : ℕ
  pub xmm : ℕ → ℕ

-- The CPU of the call, the memory, and the files that were opened.
pub record Machine : Type 0 where
  pub regs : Regs
  pub memory : Memory
  pub files : Ring

-- HLEFRAME
pub record HleFrame : Type 0 where
  pub fn : ℕ
  pub rcx : ℕ
  pub rdx : ℕ
  pub r8 : ℕ
  pub r9 : ℕ
  pub stack : ℕ
  pub nstack : ℕ
  pub x0 : ℕ
  pub x1 : ℕ
  pub x2 : ℕ
  pub x3 : ℕ

-- The addresses that are answered here, 0 for one that the game does not import.
pub record Addresses : Type 0 where
  pub get_command_line_w : ℕ
  pub get_command_line_a : ℕ
  pub get_system_metrics : ℕ
  pub message_box_w : ℕ
  pub message_box_a : ℕ
  pub cxx_throw_exception : ℕ
  pub hasp_login : ℕ
  pub hasp_logout : ℕ
  pub hasp_read : ℕ
  pub hasp_decrypt : ℕ
  pub raise_exception : ℕ
  pub direct_input8_create : ℕ
  pub create_thread : ℕ
  pub initterm : ℕ
  pub initterm_e : ℕ
  pub create_file_w : ℕ
  pub create_file_a : ℕ

-- What is set at the start, and what the host does: the command lines, the screen's size,
-- g_swallow_raise, the runtime's own module, the shim's address and the address that malloc gives for
-- the record it is handed; es3_eh_throw, which leaves
-- with a state for the frame that catches and returns, none, where no guest frame does; hle_invoke; and the path that
-- CreateFile was given, by its address and whether it is wide.
pub record Host : Type 0 where
  pub addresses : Addresses
  pub command_line_w : ℕ
  pub command_line_a : ℕ
  pub screen_w : ℕ
  pub screen_h : ℕ
  pub swallow_raise : Bool
  pub own_module : ℕ
  pub shim : ℕ
  pub malloc : Machine → ℕ
  pub eh_throw : ℕ → ℕ → ℕ → Machine → Option Machine
  pub invoke : HleFrame → Memory → ℕ × ℕ × Memory
  pub path : Memory → Bool → ℕ → Bytes

abbrev pub answer : ℕ → Machine → Machine
answer v s = record s { regs = record s.regs { rax = v } }

-- A handler that is tested for being there.
abbrev pub is_bound : ℕ → ℕ → Bool
is_bound at target = not (at == 0) && target == at

-- es3_call_guest, up to its dispatch.
abbrev pub sentinel : ℕ
sentinel = 0xE5E3CA11E5E3CA11

unfoldable pub push_return : Machine → Machine
push_return s =
    let sp = (s.regs.rsp + 2 ^ 64 - 8) % 2 ^ 64 in
    record s { regs = record s.regs { rsp = sp }; memory = wr64 s.memory sp sentinel }

unfoldable pub call_guest : ℕ → ℕ → Machine → (Machine → Body Machine) → Body Machine
unfolding push_return
call_guest cpu target s k = calls false cpu target (push_return s) k

-- The end of _initterm and _initterm_e.
unfoldable pub initterm_end : ℕ → ℕ → ℕ → Machine → Machine
initterm_end rcx rdx rc s = record s { regs = record s.regs { rcx = rcx; rdx = rdx; rax = rc } }

-- The loop over the table from `p` to `end`, for `n` slots.
unfoldable pub initterm_from : ℕ → Bool → ℕ → ℕ → ℕ → ℕ → Machine → Body Machine
unfolding call_guest initterm_end
initterm_from cpu wants rcx rdx zero p s = returns (initterm_end rcx rdx 0 s)
initterm_from cpu wants rcx rdx (suc n) p s =
    let fn = rd64 s.memory p in
    let skipped = initterm_from cpu wants rcx rdx n (p + 8) s in
    let next = λ (s' : Machine).
      let rc = s'.regs.rax % 2 ^ 32 in
      let rest = initterm_from cpu wants rcx rdx n (p + 8) s' in
      if wants && not (rc == 0) then returns (initterm_end rcx rdx rc s') else rest in
    if fn == 0 then skipped else call_guest cpu fn s next

-- The slots of a table.
abbrev pub slots : ℕ → ℕ → ℕ
slots p end = (end - p + 7) / 8

-- The bytes that are copied one by one.
unfoldable pub copy_bytes : ℕ → ℕ → ℕ → Memory → Memory
copy_bytes zero from to m = m
copy_bytes (suc n) from to m = copy_bytes n (from + 1) (to + 1) (copy_in m to (m from ∷ []))

-- hasp_read: the dongle's record, with the id that lies on the stack.
unfoldable pub hasp_record : ℕ → ℕ → ℕ → Memory → Memory
unfolding copy_bytes
hasp_record buf len sp m =
    let cleared = fill m buf len 0 in
    let named = copy_bytes 5 (sp + 0x34) buf cleared in
    if leb 0x40 len then copy_in named (buf + 0x3e) (0x5a ∷ 0xa5 ∷ []) else cleared

unfoldable pub hasp_read : Machine → Machine
unfolding hasp_record
hasp_read s =
    let buf = rd64 s.memory (s.regs.rsp + 0x20) in
    let len = s.regs.r9 in
    let read = not (buf == 0) && not (len == 0) && ltb len (2 ^ 20) in
    record s {
      regs = record s.regs { rax = 0 };
      memory = if read then hasp_record buf len s.regs.rsp s.memory else s.memory;
    }

-- The frame of the real call.
unfoldable pub frame_of : ℕ → Regs → HleFrame
frame_of target r = record {
  fn = target;
  rcx = r.rcx;
  rdx = r.rdx;
  r8 = r.r8;
  r9 = r.r9;
  stack = r.rsp + 32;
  nstack = 24;
  x0 = r.xmm 0;
  x1 = r.xmm 1;
  x2 = r.xmm 2;
  x3 = r.xmm 3;
}

-- The files that are remembered behind a call of CreateFile.
unfoldable pub note_opened : Host → ℕ → HleFrame → ℕ → Memory → Ring → Ring
unfolding note_file
note_opened h target f rax m r =
    let wide = not (target == h.addresses.create_file_a) in
    let file = target == h.addresses.create_file_w || target == h.addresses.create_file_a in
    if not file || rax == 2 ^ 64 - 1 || (wide && f.rcx == 0)
    then r
    else note_file (h.path m wide f.rcx) r

-- The real call.
unfoldable pub invoke_native : Host → ℕ → Machine → Machine
unfolding frame_of note_opened
invoke_native h target s =
    let f = frame_of target s.regs in
    let (rax, xmm0, m) = h.invoke f s.memory in
    record {
      regs = record s.regs { rax = rax; xmm = λ i. if i == 0 then xmm0 else s.regs.xmm i };
      memory = m;
      files = note_opened h target f rax m s.files;
    }

-- What DirectInput8Create and CreateThread are given in place of their arguments; `s` is the state at
-- the call.
unfoldable pub replace_arguments : Host → ℕ → Machine → Regs
replace_arguments h target s =
    let r = s.regs in
    let input =
      if target == h.addresses.direct_input8_create then record r { rcx = h.own_module } else r in
    if target == h.addresses.create_thread && not (input.r8 == 0)
    then record input { r8 = h.shim; r9 = h.malloc s }
    else input

-- The rest of es3_native_call, behind what it answers itself.
unfoldable pub forward : Host → ℕ → ℕ → Machine → Body Machine
unfolding initterm_from invoke_native replace_arguments
forward h cpu target s =
    let s' : Machine = record s { regs = replace_arguments h target s } in
    let r = s'.regs in
    let listed = target == h.addresses.initterm || target == h.addresses.initterm_e in
    if listed && not (r.rcx == 0) && not (r.rdx == 0)
    then initterm_from cpu (target == h.addresses.initterm_e) r.rcx r.rdx (slots r.rcx r.rdx) r.rcx
        s'
    else returns (invoke_native h target s')

-- The imports that es3_native_call answers itself; none is one that it forwards.
unfoldable pub answer_native : Host → ℕ → Machine → Option Machine
unfolding hasp_read
answer_native h target s =
    let what = s.regs.rcx % 2 ^ 32 in
    if is_bound h.addresses.hasp_login target
    then some (record s {
      regs = record s.regs { rax = 0 };
      memory = if s.regs.r8 == 0 then s.memory else wr32 s.memory s.regs.r8 1;
    })
    else if is_bound h.addresses.hasp_logout target
    then some (answer 0 s)
    else if is_bound h.addresses.hasp_read target
    then some (hasp_read s)
    else if is_bound h.addresses.hasp_decrypt target
    then some (answer 0 s)
    else if target == h.addresses.raise_exception && (what == 0x406D1388 || h.swallow_raise)
    then some (answer 0 s)
    else none

-- The ones before the throw of a C++ exception.
unfoldable pub answer_window : Host → ℕ → Machine → Option Machine
answer_window h target s =
    let what = s.regs.rcx % 2 ^ 32 in
    if target == h.addresses.get_command_line_w
    then some (answer h.command_line_w s)
    else if target == h.addresses.get_command_line_a
    then some (answer h.command_line_a s)
    else if is_bound h.addresses.get_system_metrics target && (what == 0 || what == 1)
    then some (answer (if what == 0 then h.screen_w else h.screen_h) s)
    else if is_bound h.addresses.message_box_w target || is_bound h.addresses.message_box_a target
    then some (answer 1 s)
    else none

-- es3_native_call
unfoldable pub native_call : Host → ℕ → ℕ → Machine → Body Machine
unfolding answer_window answer_native forward
native_call h cpu target s =
    let gsp = s.regs.rsp in
    let s' : Machine = record s { regs = record s.regs { rsp = (gsp + 8) % 2 ^ 64 } } in
    let uncaught : Body Machine = elim (answer_native h target s') [
      | some t ↦ returns t
      | none ↦ forward h cpu target s'
    ] in
    let thrown = h.eh_throw (rd64 s.memory gsp) s.regs.rcx s.regs.rdx s' in
    elim (answer_window h target s') [
      | some t ↦ returns t
      | none ↦
          if target == h.addresses.cxx_throw_exception
          then elim thrown [ some t ↦ leaves t | none ↦ uncaught ]
          else uncaught
    ]

-- thread_start_t
pub record ThreadStart : Type 0 where
  pub guest_fn : ℕ
  pub param : ℕ
  pub stack : ℕ

-- What CreateThread's arguments are kept as.
abbrev pub thread_start : Regs → ThreadStart
thread_start r = record { guest_fn = r.r8; param = r.r9; stack = r.rdx }

-- The CPU of a new thread.
abbrev pub fresh_thread : ThreadStart → ℕ → Memory → Ring → Machine
fresh_thread t sp m files = record {
  regs = record { rax = 0; rcx = t.param; rdx = 0; rsp = sp; r8 = 0; r9 = 0; xmm = λ i. 0 };
  memory = m;
  files = files;
}

-- The stack that a thread asks for.
abbrev pub stack_bytes : ThreadStart → ℕ
stack_bytes t = if t.stack == 0 then 2 ^ 20 else t.stack

-- es3_thread_shim: the state at the dispatch of the thread's function, with what VirtualAlloc gives; none
-- is a thread with no stack.
unfoldable pub thread_shim : ThreadStart → (ℕ → ℕ) → Memory → Ring → Option Machine
unfolding alloc_stack push_return
thread_shim t alloc m files =
    let sp = alloc_stack (alloc (stack_bytes t)) (stack_bytes t) in
    if sp == 0 then none else some (push_return (fresh_thread t sp m files))
