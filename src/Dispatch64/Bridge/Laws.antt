-- ===== src/Dispatch64/Bridge/Laws.antt =====
-- What a bridged callback of src/runtime64/dispatch64.c is given and what it gives back.
use systemes3recomp.Prelude.{
  ◌⊎◌, All, List, [], ◌∷◌, sym, ℕ, ◌+◌, ◌-◌, ◌%◌, ◌^◌, ◌≤◌, ◌<◌, ◌≡◌, ◌≢◌, refl, ◌∙◌, true, false,
  ◌==◌, if◌then◌else◌, some, arith,
}
use systemes3recomp.Memory.{
  Memory, copy_in, copy_out, rd64, in_range, length-copy_out, get_or-copy_out,
}
use systemes3recomp.Dispatch64.{lookup, to_preferred}
use systemes3recomp.Dispatch64.Bridge.{
  Context, Fault, Guest, bridge_stack, bridge_argcopy, rsp, is_callback, bridge_top, seeded,
  copy_frame, resumed, enter, bridge_callback,
}

bridge_top_bounds :
    (stack sp : ℕ)
    → sp < 2 ^ 64
    → (bridge_top stack sp % 16 ≡ sp % 16)
      × (stack + bridge_stack < bridge_top stack sp + bridge_argcopy + 16)
      × (bridge_top stack sp + bridge_argcopy ≤ stack + bridge_stack)
unfolding bridge_top
bridge_top_bounds stack sp h = omega arith

copied :
    (m : Memory) (at from n x : ℕ)
    → copy_in m at (copy_out m from n) x ≡ (if in_range at n x then m (from + (x - at)) else m x)
unfolding copy_in
copied m at from n x = ground (arith, length-copy_out m from n, get_or-copy_out m from n (x - at) 0)

-- A lifted function that native code calls is entered as the call left the machine: every register is the
-- caller's but the stack pointer, which has the caller's phase of 16 bytes, and the 512 bytes from it are
-- the caller's frame, the return address and the arguments among them, all within the private stack.
pub seeded_lem :
    (stack : ℕ) (ctx : Context) (m : Memory)
    → ctx.gpr rsp < 2 ^ 64
    → ((i : ℕ) → i ≢ rsp → (seeded stack ctx).gpr i ≡ ctx.gpr i)
      × ((seeded stack ctx).gpr rsp % 16 ≡ ctx.gpr rsp % 16)
      × ((i : ℕ)
          → i < bridge_argcopy
          → copy_frame stack ctx m ((seeded stack ctx).gpr rsp + i) ≡ m (ctx.gpr rsp + i))
      × (stack < (seeded stack ctx).gpr rsp)
      × ((seeded stack ctx).gpr rsp + bridge_argcopy ≤ stack + bridge_stack)
unfolding seeded copy_frame
seeded_lem stack ctx m h =
    let sp : ℕ = ctx.gpr rsp in
    let top : ℕ = bridge_top stack sp in
    let bounds = bridge_top_bounds stack sp h in
    (
      λ i e. ground arith,
      bounds.0,
      λ i l. copied m top sp bridge_argcopy (top + i) ∙ ground arith,
      omega (arith, bounds),
      bounds.2,
    )

-- rax, and what the Windows convention for 64 bits has a callee keep: rbx, rbp, rsi, rdi and r12
-- to r15.
abbrev pub from_callee : List ℕ
from_callee = 0 ∷ 3 ∷ 5 ∷ 6 ∷ 7 ∷ 12 ∷ 13 ∷ 14 ∷ 15 ∷ []

-- What the convention lets a callee change: rcx, rdx and r8 to r11.
abbrev pub scratch : List ℕ
scratch = 1 ∷ 2 ∷ 8 ∷ 9 ∷ 10 ∷ 11 ∷ []

module _ (retaddr : ℕ) (ctx c : Context) where
  resumed-rip : (resumed retaddr ctx c).rip ≡ retaddr
  unfolding resumed
  resumed-rip = refl

  resumed-rsp : (resumed retaddr ctx c).gpr rsp ≡ ctx.gpr rsp + 8
  unfolding resumed
  resumed-rsp = refl

  resumed-callee : All (λ i. (resumed retaddr ctx c).gpr i ≡ c.gpr i) from_callee
  unfolding resumed
  resumed-callee = (refl, (refl, (refl, (refl, (refl, (refl, (refl, (refl, (refl, tt)))))))))

  resumed-scratch : All (λ i. (resumed retaddr ctx c).gpr i ≡ ctx.gpr i) scratch
  unfolding resumed
  resumed-scratch = (refl, (refl, (refl, (refl, (refl, (refl, tt))))))

  resumed-xmm : (i : ℕ) → (resumed retaddr ctx c).xmm i ≡ c.xmm i
  unfolding resumed
  resumed-xmm i = refl

same_top :
    (stack a b : ℕ)
    → a < 2 ^ 64
    → b < 2 ^ 64
    → a % 16 ≡ b % 16
    → bridge_top stack a ≡ bridge_top stack b
unfolding bridge_top
same_top stack a b h k e = omega arith

seeded-xmm : (stack : ℕ) (ctx : Context) (i : ℕ) → (seeded stack ctx).xmm i ≡ ctx.xmm i
unfolding seeded
seeded-xmm stack ctx i = refl

seeded-top :
    (stack : ℕ) (a b : Context)
    → a.gpr rsp < 2 ^ 64
    → b.gpr rsp < 2 ^ 64
    → a.gpr rsp % 16 ≡ b.gpr rsp % 16
    → (seeded stack a).gpr rsp ≡ (seeded stack b).gpr rsp
unfolding seeded
seeded-top stack a b h k e = same_top stack (a.gpr rsp) (b.gpr rsp) h k e

callback_test :
    (g : Guest) (f : Fault) (fn : ℕ)
    → f.code ≡ 0xC0000005
    → f.access ≡ 8
    → g.base ≢ 0
    → g.text_lo ≤ f.address
    → f.address < g.text_hi
    → lookup g.sorted (to_preferred g.delta f.address) ≡ some fn
    → is_callback g f ≡ true
unfolding is_callback
callback_test g f fn code access base lo hi found = ground (arith, found)

enter_some :
    (given tls : ℕ) (ctx : Context) (m : Memory)
    → 0 < given
    → ((enter given tls ctx m).0 == 0) ≡ false
unfolding enter
enter_some given tls ctx m h = ground arith

enter_stack :
    (given tls : ℕ) (ctx : Context) (m : Memory)
    → (enter given tls ctx m).0 ≡ (if tls == 0 then given else tls)
unfolding enter
enter_stack given tls ctx m = refl

-- How a lifted function is entered: on the thread's stack, or on `given` if the thread has none, with the
-- caller's registers, and with the caller's frame, at the same phase of 16 bytes.
pub record IsEntry (given tls : ℕ) (ctx : Context) (m : Memory) (cpu : Context) (framed : Memory)
    : Type 0 where
  pub kept : (i : ℕ) → i ≢ rsp → cpu.gpr i ≡ ctx.gpr i
  pub vectors : (i : ℕ) → cpu.xmm i ≡ ctx.xmm i
  pub phase : cpu.gpr rsp % 16 ≡ ctx.gpr rsp % 16
  pub frame : (i : ℕ) → i < 512 → framed (cpu.gpr rsp + i) ≡ m (ctx.gpr rsp + i)
  pub above : (if tls == 0 then given else tls) < cpu.gpr rsp
  pub below : cpu.gpr rsp + 512 ≤ (if tls == 0 then given else tls) + 2 ^ 20

enter-IsEntry :
    (given tls : ℕ) (ctx : Context) (m : Memory)
    → ctx.gpr rsp < 2 ^ 64
    → IsEntry given tls ctx m (enter given tls ctx m).1 (enter given tls ctx m).2
unfolding enter
enter-IsEntry given tls ctx m h =
    let stack : ℕ = if tls == 0 then given else tls in
    let (a, b, c, d, e) = seeded_lem stack ctx m h in
    record { kept = a; vectors = seeded-xmm stack ctx; phase = b; frame = c; above = d; below = e }

-- A fault at an address of the image's code, by an attempt to execute it, where a lifted function begins
-- there and the thread has or is given a stack: the function is entered as IsEntry says, and the native
-- code goes on behind its call, at its return address, with rax, the registers that a callee keeps and xmm
-- from the function and its scratch registers as they were. Of the function's frame the 32 bytes of shadow
-- space come back to the caller's; no other byte changes.
pub bridge_callback_lem :
    (g : Guest) (run : ℕ → Context → Memory → Context × Memory) (given : ℕ) (f : Fault)
    (ctx : Context) (tls : ℕ) (m : Memory) (fn : ℕ)
    → f.code ≡ 0xC0000005
    → f.access ≡ 8
    → g.base ≢ 0
    → g.text_lo ≤ f.address
    → f.address < g.text_hi
    → lookup g.sorted (to_preferred g.delta f.address) ≡ some fn
    → 0 < given
    → ctx.gpr rsp < 2 ^ 64
    → (stack : ℕ) × (cpu : Context) × (framed : Memory) × (out : Context) × (m' : Memory)
      × (bridge_callback g run given f ctx tls m ≡ some (out, stack, m'))
      × (stack ≡ (if tls == 0 then given else tls))
      × IsEntry given tls ctx m cpu framed
      × (out.rip ≡ rd64 m (ctx.gpr rsp))
      × (out.gpr rsp ≡ ctx.gpr rsp + 8)
      × All (λ i. out.gpr i ≡ (run f.address cpu framed).0.gpr i) from_callee
      × All (λ i. out.gpr i ≡ ctx.gpr i) scratch
      × ((i : ℕ) → out.xmm i ≡ (run f.address cpu framed).0.xmm i)
      × ((i : ℕ)
          → i < 32
          → m' (ctx.gpr rsp + 8 + i) ≡ (run f.address cpu framed).1 (cpu.gpr rsp + 8 + i))
      × ((x : ℕ)
          → (x < ctx.gpr rsp + 8) ⊎ (ctx.gpr rsp + 40 ≤ x)
          → m' x ≡ (run f.address cpu framed).1 x)
unfolding bridge_callback
bridge_callback_lem g run given f ctx tls m fn code access base lo hi found there l =
    let e = enter given tls ctx m in
    let sp : ℕ = ctx.gpr rsp in
    let ran : Context × Memory = run f.address e.1 e.2 in
    let called = callback_test g f fn code access base lo hi found in
    let back : ℕ → Type 0 = λ x.
      copy_in ran.1 (sp + 8) (copy_out ran.1 (e.1.gpr rsp + 8) 32) x
      ≡ (if in_range (sp + 8) 32 x then ran.1 (e.1.gpr rsp + 8 + (x - (sp + 8))) else ran.1 x) in
    let shadow : (x : ℕ) → back x = λ x. copied ran.1 (sp + 8) (e.1.gpr rsp + 8) 32 x in
    (
      e.0,
      e.1,
      e.2,
      resumed (rd64 m sp) ctx ran.0,
      copy_in ran.1 (sp + 8) (copy_out ran.1 (e.1.gpr rsp + 8) 32),
      rw (called, enter_some given tls ctx m there) refl,
      enter_stack given tls ctx m,
      enter-IsEntry given tls ctx m l,
      resumed-rip (rd64 m sp) ctx ran.0,
      resumed-rsp (rd64 m sp) ctx ran.0,
      resumed-callee (rd64 m sp) ctx ran.0,
      resumed-scratch (rd64 m sp) ctx ran.0,
      resumed-xmm (rd64 m sp) ctx ran.0,
      λ i h. shadow (sp + 8 + i) ∙ ground arith,
      λ x h. shadow x ∙ ground arith,
    )

-- A callback that arrives on a thread while another is running is entered on the outer one's stack, since
-- that is the thread's by then, whatever VirtualAlloc would give: if their stack pointers have the same
-- phase of 16 bytes, its frame stands where the outer one's does, and replaces the return address and the
-- arguments.
pub enter_nested :
    (given given' tls : ℕ) (outer inner : Context) (m m' : Memory) (i : ℕ)
    → 0 < given
    → outer.gpr rsp < 2 ^ 64
    → inner.gpr rsp < 2 ^ 64
    → outer.gpr rsp % 16 ≡ inner.gpr rsp % 16
    → i < 512
    → let (stack, cpu, framed) = enter given tls outer m in
      let (stack', cpu', framed') = enter given' stack inner m' in
      (stack' ≡ stack)
      × (cpu'.gpr rsp ≡ cpu.gpr rsp)
      × (framed' (cpu.gpr rsp + i) ≡ m' (inner.gpr rsp + i))
unfolding enter
enter_nested given given' tls outer inner m m' i there h k phase l =
    let stack : ℕ = if tls == 0 then given else tls in
    let set : (stack == 0) ≡ false = ground arith in
    let same : (seeded stack outer).gpr rsp ≡ (seeded stack inner).gpr rsp =
      seeded-top stack outer inner h k phase in
    rw set (refl, sym same, rw same ((seeded_lem stack inner m' k).2 i l))
