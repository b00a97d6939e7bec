-- ===== src/Dispatch64/Bridge.antt =====
-- Native code that calls a guest address: es3_bridge_callback of src/runtime64/dispatch64.c, which runs
-- the lifted function on a stack of its own.
pub mod Laws
use systemes3recomp.Prelude.{
  ℕ, ◌+◌, ◌-◌, ◌%◌, ◌^◌, ◌≤◌, ◌<◌, ◌≡◌, ◌≢◌, ◌⊎◌, inl, inr, refl, ◌∙◌, Bool, true, false, not, ◌&&◌,
  ◌||◌, ltb, leb, ◌==◌, if◌then◌else◌, Option, none, some, List, [], ◌∷◌, get_or, length,
  Option-cases, arith,
}
use systemes3recomp.Memory.{
  Memory, copy_in, copy_out, rd64, in_range, length-copy_out, get_or-copy_out,
}
use systemes3recomp.Dispatch64.{lookup, to_preferred}

-- The registers of a CPU and of a CONTEXT, by their numbers: rax, rcx, rdx, rbx, rsp, rbp, rsi, rdi, r8
-- to r15. `rip` is a CONTEXT's.
pub record Context : Type 0 where
  pub gpr : ℕ → ℕ
  pub rip : ℕ
  pub xmm : ℕ → ℕ

-- EXCEPTION_RECORD: the code, and the kind and the address of an access.
pub record Fault : Type 0 where
  pub code : ℕ
  pub access : ℕ
  pub address : ℕ

-- The image: its base, .text, and g_sorted with g_image_delta.
pub record Guest : Type 0 where
  pub base : ℕ
  pub text_lo : ℕ
  pub text_hi : ℕ
  pub sorted : List (ℕ × ℕ)
  pub delta : ℕ

abbrev pub bridge_stack : ℕ
bridge_stack = 2 ^ 20

abbrev pub bridge_argcopy : ℕ
bridge_argcopy = 512

abbrev pub rsp : ℕ
rsp = 4

-- The tests before anything is done.
unfoldable pub is_callback : Guest → Fault → Bool
unfolding lookup
is_callback g f =
    let inside = leb g.text_lo f.address && ltb f.address g.text_hi in
    let found : Bool = elim (lookup g.sorted (to_preferred g.delta f.address)) [
      | none ↦ false
      | some fn ↦ true
    ] in
    f.code == 0xC0000005 && f.access == 8 && not (g.base == 0) && inside && found

-- The stack pointer of the lifted function, on the thread's stack at `stack`.
unfoldable pub bridge_top : ℕ → ℕ → ℕ
bridge_top stack sp =
    let top = stack + bridge_stack - bridge_argcopy in top - (top + 2 ^ 64 - sp) % 16

-- The CPU that is dispatched with.
unfoldable pub seeded : ℕ → Context → Context
unfolding bridge_top
seeded stack ctx = record {
  gpr = λ i. if i == rsp then bridge_top stack (ctx.gpr rsp) else ctx.gpr i;
  rip = 0;
  xmm = ctx.xmm;
}

unfoldable pub copy_frame : ℕ → Context → Memory → Memory
copy_frame stack ctx m =
    copy_in m (bridge_top stack (ctx.gpr rsp)) (copy_out m (ctx.gpr rsp) bridge_argcopy)

-- rax, and what a callee keeps.
abbrev pub is_taken : ℕ → Bool
is_taken i = i == 0 || i == 3 || i == 5 || i == 6 || i == 7 || leb 12 i

-- The context behind the callee's `c`.
unfoldable pub resumed : ℕ → Context → Context → Context
resumed retaddr ctx c = record {
  gpr = λ i. if i == rsp then ctx.gpr rsp + 8 else if is_taken i then c.gpr i else ctx.gpr i;
  rip = retaddr;
  xmm = c.xmm;
}

-- The stack that a thread's callback runs on, the CPU, and the memory with the frame on that stack.
unfoldable pub enter : ℕ → ℕ → Context → Memory → ℕ × Context × Memory
unfolding seeded copy_frame
enter given tls ctx m =
    let stack = if tls == 0 then given else tls in (stack, seeded stack ctx, copy_frame stack ctx m)

-- es3_bridge_callback. `tls` is tls_stack, `given` what VirtualAlloc gives for it, 0 for nothing, and
-- `run` the dispatch. none is 0: the fault is not a callback.
unfoldable pub bridge_callback :
    Guest
    → (ℕ → Context → Memory → Context × Memory)
    → ℕ
    → Fault
    → Context
    → ℕ
    → Memory
    → Option (Context × ℕ × Memory)
unfolding is_callback enter resumed
bridge_callback g run given f ctx tls m =
    let sp = ctx.gpr rsp in
    let retaddr = rd64 m sp in
    let (stack, cpu, framed) = enter given tls ctx m in
    let (c, m') = run f.address cpu framed in
    let shadow = copy_out m' (cpu.gpr rsp + 8) 32 in
    if not (is_callback g f) || stack == 0
    then none
    else some (resumed retaddr ctx c, stack, copy_in m' (sp + 8) shadow)
