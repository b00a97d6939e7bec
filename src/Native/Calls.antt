-- ===== src/Native/Calls.antt =====
-- A forwarded import: hle_call_native of src/runtime/hle_native.c, with the guest's x87 values moved onto
-- the host's stack and the result moved back.
use systemes3recomp.Prelude.{
  sym, Option, none, some, not, ◌||◌, leb, take, false, ℕ, zero, suc, ◌+◌, ◌-◌, ◌*◌, ◌%◌, ◌^◌, ◌≤◌,
  ◌<◌, ◌≡◌, ◌≢◌, inl, inr, refl, ◌∙◌, ap, Bool, ◌&&◌, ltb, ◌==◌, if◌then◌else◌, Option, List, [],
  ◌∷◌, length, Bytes, Bool-cases, arith,
}
use systemes3recomp.Memory.{Memory, wr32, rd32-wr32, rd32-wr32_apart}
use systemes3recomp.Jvs.{codes}
use systemes3recomp.Hle.{dll_eq, Import}
use systemes3recomp.Native.{
  takes_hinstance, a32, replace_from, looked_at, replace_hinstance, ci_helpers, fpu_args,
}

-- The host's x87 stack: hybrid_fpu_push of values, the top first, hybrid_fpu_depth and hybrid_fpu_pop.
pub record Fpu {ℓ} (V F : Type ℓ) : Type ℓ where
  pub push : List V → F → F
  pub depth : F → ℕ
  pub pop : F → V × F

-- What a push and a pop do to the depth, as long as the eight registers hold the values.
pub record FpuLaws {ℓ} {V F : Type ℓ} (u : Fpu V F) : Type ℓ where
  pub depth-push :
      (vs : List V) (f : F)
      → length vs + u.depth f ≤ 8
      → u.depth (u.push vs f) ≡ length vs + u.depth f
  pub depth-pop : (f : F) → u.depth (u.pop f).1 ≡ u.depth f - 1

-- The guest's CPU: eax, ecx, edx, ebx, esp, ebp, esi and edi, by their numbers, and its x87 registers.
pub record Guest {ℓ} (V : Type ℓ) : Type ℓ where
  pub gpr : ℕ → ℕ
  pub st : ℕ → V
  pub fpu_top : ℕ

-- The host beside it: the guest's memory and the x87 stack.
pub record Side {ℓ} (F : Type ℓ) : Type ℓ where
  pub memory : Memory
  pub fpu : F

abbrev pub eax : ℕ
eax = 0

abbrev pub edx : ℕ
edx = 2

abbrev pub esp : ℕ
esp = 4

-- The `n` values from st(0), the first from `top`.
unfoldable pub x87_arguments {ℓ} : {V : Type ℓ} → ℕ → ℕ → (ℕ → V) → List V
x87_arguments zero top st = []
x87_arguments (suc n) top st = st (top % 8) ∷ x87_arguments n (top + 1) st

length-x87_arguments {ℓ} :
    {V : Type ℓ} (n top : ℕ) (st : ℕ → V) → length (x87_arguments n top st) ≡ n
unfolding x87_arguments
length-x87_arguments zero top st = refl
length-x87_arguments (suc n) top st = ap suc (length-x87_arguments n (top + 1) st)

module _ {ℓ} {V F : Type ℓ} where
  unfoldable pub pop_all : Fpu V F → ℕ → F → F
  pop_all u zero f = f
  pop_all u (suc n) f = pop_all u n (u.pop f).1

  -- The values that the callee has left, beyond `before`.
  unfoldable pub take_result : Fpu V F → (V → Guest V → Guest V) → ℕ → Guest V → F → Guest V × F
  unfolding pop_all
  take_result u fpush before c f =
      let extra = u.depth f - before in
      let (v, rest) = u.pop f in
      if extra == 0 then (c, f) else (fpush v c, pop_all u (extra - 1) rest)

  -- hle_call_native of the import `i`. `machine` is hybrid_call_machine of what is bound, with the
  -- registers, and gives eax, edx and esp; `off`, `base` and `own` as in replace_hinstance.
  unfoldable pub call_native :
      Fpu V F
      → (V → Guest V → Guest V)
      → Bool
      → ℕ
      → ℕ
      → ((ℕ → ℕ) → Side F → (ℕ × ℕ × ℕ) × Side F)
      → Import
      → Guest V
      → Side F
      → Guest V × Side F
  unfolding x87_arguments take_result replace_hinstance
  call_native u fpush off base own machine i c s =
      let n = fpu_args ci_helpers i.name in
      let args = x87_arguments n c.fpu_top c.st in
      let pushed = if n == 0 then s.fpu else u.push args s.fpu in
      let used = if n == 0 then c else record c { fpu_top = (c.fpu_top + n) % 8 } in
      let before = u.depth pushed - n in
      let m = replace_hinstance off i.purge i.dll base own (c.gpr esp) s.memory in
      let (out, s') = machine c.gpr (record { memory = m; fpu = pushed }) in
      let returned = record used {
        gpr = λ k.
            if k == eax
            then out.0
            else if k == edx
            then out.1
            else if k == esp
            then out.2
            else c.gpr k;
      } in
      let (c', f) = take_result u fpush before returned s'.fpu in (c', record s' { fpu = f })

  module _ (u : Fpu V F) (laws : FpuLaws u) where
    depth-pop_all : (n : ℕ) (f : F) → u.depth (pop_all u n f) ≡ u.depth f - n
    unfolding pop_all
    depth-pop_all zero f = omega arith
    depth-pop_all (suc n) f = omega (arith, depth-pop_all n (u.pop f).1, laws.depth-pop f)

    depth-take_result :
        (fpush : V → Guest V → Guest V) (before : ℕ) (c : Guest V) (f : F)
        → before ≤ u.depth f
        → u.depth (take_result u fpush before c f).1 ≡ before
    unfolding take_result
    depth-take_result fpush before c f h =
        let rest : F = (u.pop f).1 in
        ground (arith, depth-pop_all (u.depth f - before - 1) rest, laws.depth-pop f)

    depth_pushed :
        (n top : ℕ) (st : ℕ → V) (f : F)
        → n + u.depth f ≤ 8
        → u.depth (if n == 0 then f else u.push (x87_arguments n top st) f) - n ≡ u.depth f
    depth_pushed n top st f h =
        let l = length-x87_arguments n top st in
        ground (arith, laws.depth-push (x87_arguments n top st) f (omega (arith, l)), l)

    -- However many x87 arguments an import takes and however many values it leaves: a forwarded call
    -- leaves the host's x87 stack as deep as it was, if the arguments fit in the registers that are free
    -- and the callee has taken no more than them.
    pub depth-call_native :
        (fpush : V → Guest V → Guest V) (off : Bool) (base own : ℕ)
        (machine : (ℕ → ℕ) → Side F → (ℕ × ℕ × ℕ) × Side F) (i : Import) (c : Guest V) (s : Side F)
        → ((r : ℕ → ℕ) (x : Side F)
            → u.depth x.fpu ≤ u.depth (machine r x).1.fpu + fpu_args ci_helpers i.name)
        → fpu_args ci_helpers i.name + u.depth s.fpu ≤ 8
        → u.depth (call_native u fpush off base own machine i c s).1.fpu ≡ u.depth s.fpu
    unfolding call_native
    depth-call_native fpush off base own machine i c s leaves fits =
        let n : ℕ = fpu_args ci_helpers i.name in
        let pushed : F = if n == 0 then s.fpu else u.push (x87_arguments n c.fpu_top c.st) s.fpu in
        let m : Memory = replace_hinstance off i.purge i.dll base own (c.gpr esp) s.memory in
        let x : Side F = record { memory = m; fpu = pushed } in
        depth-take_result fpush (u.depth pushed - n) _ (machine c.gpr x).1.fpu
          (omega (arith, leaves c.gpr x))
        ∙ depth_pushed n c.fpu_top c.st s.fpu fits

slot_apart : (m : Memory) (at k j v : ℕ) → k ≢ j → a32 (wr32 m (at + 4 + 4 * k) v) at j ≡ a32 m at j
slot_apart m at k j v h = rd32-wr32_apart m (at + 4 + 4 * k) (at + 4 + 4 * j) v (omega arith)

replace_from-before :
    (n k base own at j : ℕ) (m : Memory)
    → j < k
    → a32 (replace_from n k base own at m) at j ≡ a32 m at j
unfolding replace_from
replace_from-before zero k base own at j m h = refl
replace_from-before (suc n) k base own at j m h = elim (Bool-cases (a32 m at k == base)) [
  | inl e ↦ rw e (
      replace_from-before n (k + 1) base own at j (wr32 m (at + 4 + 4 * k) own) (omega arith)
      ∙ slot_apart m at k j own (omega arith))
  | inr e ↦ rw e (replace_from-before n (k + 1) base own at j m (omega arith))
]

replace_from-slot :
    (n k base own at j : ℕ) (m : Memory)
    → own < 2 ^ 32
    → k ≤ j
    → a32 (replace_from n k base own at m) at j
      ≡ (if ltb j (k + n) && a32 m at j == base then own else a32 m at j)
unfolding replace_from
replace_from-slot zero k base own at j m w h = ground arith
replace_from-slot (suc n) k base own at j m w h =
    let m' : Memory = if a32 m at k == base then wr32 m (at + 4 + 4 * k) own else m in
    let here : a32 m' at k ≡ (if a32 m at k == base then own else a32 m at k) =
      ground (arith, rd32-wr32 m (at + 4 + 4 * k) own) in
    let there : k ≢ j → a32 m' at j ≡ a32 m at j = λ ne. ground (arith, slot_apart m at k j own) in
    elim (Bool-cases (j == k)) [
      | inl e ↦
          let same : j ≡ k = ground arith in
          replace_from-before n (k + 1) base own at j m' (omega arith)
          ∙ rw same (here ∙ ground arith)
      | inr e ↦
          let ne : k ≢ j = ground arith in
          replace_from-slot n (k + 1) base own at j m' w (ground arith) ∙ ground (arith, there ne)
    ]

-- The libraries whose handles are meant, without their endings.
abbrev pub handle_libraries : List Bytes
handle_libraries = codes "USER32" ∷ codes "DINPUT" ∷ codes "GDI32" ∷ codes "d3d" ∷ []

-- A library's name begins with one of them, in whatever case.
abbrev pub is_one_of : List Bytes → Bytes → Bool
is_one_of [] dll = false
is_one_of (l ∷ ls) dll = dll_eq (take (length l) dll) l || is_one_of ls dll

abbrev pub taken_bytes : Option ℕ → ℕ
taken_bytes none = 0
taken_bytes (some purge) = purge

same_libraries : (dll : Bytes) → takes_hinstance dll ≡ is_one_of handle_libraries dll
unfolding takes_hinstance
same_libraries dll = ground arith

-- How many arguments are looked at, by each of them.
looked_at_lem :
    (off : Bool) (purge : Option ℕ) (dll : Bytes) (j : ℕ)
    → ltb j (looked_at off purge dll) ≡ (
        not off
        && is_one_of handle_libraries dll
        && ltb j 16
        && leb (4 * j + 4) (taken_bytes purge))
unfolding looked_at
looked_at_lem off none dll j = ground arith
looked_at_lem off (some purge) dll j = rw (sym (same_libraries dll)) (ground arith)

-- An argument of a forwarded import that is the guest's image base becomes the runtime's own module if the
-- substitution is not switched off, the name of the import's library begins with USER32, DINPUT, GDI32 or
-- d3d in whatever case, the argument is one of the first 16, and the import takes it off the stack. Every
-- other argument reaches it as the guest pushed it.
pub replace_hinstance_lem :
    (off : Bool) (purge : Option ℕ) (dll : Bytes) (base own at j : ℕ) (m : Memory)
    → own < 2 ^ 32
    → a32 (replace_hinstance off purge dll base own at m) at j ≡ (
        if not off
          && is_one_of handle_libraries dll
          && ltb j 16
          && leb (4 * j + 4) (taken_bytes purge)
          && (a32 m at j == base)
        then own
        else a32 m at j)
unfolding replace_hinstance
replace_hinstance_lem off purge dll base own at j m w =
    replace_from-slot (looked_at off purge dll) 0 base own at j m w (omega arith)
    ∙ ap (λ n. if ltb j n && a32 m at j == base then own else a32 m at j) (omega arith)
    ∙ ap (λ b. if b && a32 m at j == base then own else a32 m at j) (looked_at_lem off purge dll j)
    ∙ ground arith
