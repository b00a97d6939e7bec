-- ===== src/Callbacks/Laws.antt =====
-- What real code is given in place of guest code, and what the guest is given back
-- (src/runtime/hle_callback.c).
use systemes3recomp.Prelude.{
  subst, sym, ℕ, zero, suc, ◌+◌, ◌*◌, ◌/◌, ◌%◌, ◌^◌, ◌<◌, ◌≡◌, ◌≢◌, inl, inr, refl, ap, ◌∙◌, bit_or,
  Bool, true, false, not, ◌&&◌, ◌||◌, ◌==◌, if◌then◌else◌, Option, none, some, Bool-cases, arith,
}
use systemes3recomp.Memory.{Memory, rd32, wr32, rd32-wr32_apart}
use systemes3recomp.Callbacks.{
  Guest, eax, edx, esp, arg, set_arg, cleaned, hybrid_invoke, Image, in_image, callback, wrap_arg,
  create_thread,
}

cleaned_lem : (esp0 n : ℕ) → esp0 + 4 + n < 2 ^ 32 → cleaned esp0 (esp0 + 4 + n) ≡ n
unfolding cleaned
cleaned_lem esp0 n h = ground arith

-- A lifted function that ends with its `ret n`, for any n: real code is given its eax and edx, is told to
-- take n bytes more off its stack, and every other register is as it was.
pub hybrid_invoke_lem :
    (dispatch : ℕ → Guest → Guest) (ova n : ℕ) (r : ℕ → ℕ) (m : Memory)
    → r esp + 4 + n < 2 ^ 32
    → (dispatch ova (record { gpr = r; memory = m })).gpr esp ≡ r esp + 4 + n
    → (dispatch ova (record { gpr = r; memory = m })).gpr eax < 2 ^ 32
    → ((hybrid_invoke dispatch ova r m).1 % 2 ^ 32
        ≡ (dispatch ova (record { gpr = r; memory = m })).gpr eax)
      × ((hybrid_invoke dispatch ova r m).1 / 2 ^ 32 ≡ n)
      × ((i : ℕ)
          → (hybrid_invoke dispatch ova r m).0 i ≡ (
              if i == eax || i == edx
              then (dispatch ova (record { gpr = r; memory = m })).gpr i
              else r i))
unfolding hybrid_invoke
hybrid_invoke_lem dispatch ova n r m h p q =
    let c : Guest = dispatch ova (record { gpr = r; memory = m }) in
    let k : cleaned (r esp) (c.gpr esp) ≡ n = rw p (cleaned_lem (r esp) n h) in
    (omega (arith, k, q), omega (arith, k, q), λ i. ground arith)

-- What pcrecomp does for one address, if it is in the image: there is a thunk left, outside the image.
pub record Thunks (g : Image) (thunk : ℕ → ℕ) (va : ℕ) : Type 0 where
  pub left : in_image g va ≡ true → thunk va ≢ 0
  pub word : thunk va < 2 ^ 32
  pub outside : in_image g va ≡ true → in_image g (thunk va) ≡ false

-- What real code is given for a value.
unfoldable pub wrapped : Image → (ℕ → ℕ) → ℕ → ℕ
wrapped g thunk va = if in_image g va && not (va == 0) then thunk va else va

set_arg_apart : (c : Guest) (k j v : ℕ) → k ≢ j → arg (set_arg k v c) j ≡ arg c j
set_arg_apart c k j v h =
    rd32-wr32_apart c.memory (c.gpr esp + 4 + 4 * k) (c.gpr esp + 4 + 4 * j) v (omega arith)

rd32_word : (m : Memory) (at v : ℕ) → rd32 (wr32 m at v) at ≡ v % 2 ^ 32
unfolding rd32 wr32
rd32_word m at v = ground arith

set_arg_same : (c : Guest) (k v : ℕ) → arg (set_arg k v c) k ≡ v % 2 ^ 32
set_arg_same c k v = rd32_word c.memory (c.gpr esp + 4 + 4 * k) v

-- An argument behind a write of a slot.
pub arg-set_arg :
    (c : Guest) (k v j : ℕ) → arg (set_arg k v c) j ≡ (if j == k then v % 2 ^ 32 else arg c j)
arg-set_arg c k v j = elim (Bool-cases (j == k)) [
  | inl e ↦ rw e (ap (arg (set_arg k v c)) (ground arith) ∙ set_arg_same c k v)
  | inr e ↦ rw e (set_arg_apart c k j v (ground arith))
]

-- An argument behind a write that depends on a test.
pub arg-set_arg_if :
    (b : Bool) (c : Guest) (k v j : ℕ)
    → arg (if b then set_arg k v c else c) j ≡ (if j == k && b then v % 2 ^ 32 else arg c j)
arg-set_arg_if true c k v j = ground (arith, arg-set_arg c k v j)
arg-set_arg_if false c k v j = ground arith

-- Real code is never given an address of the image for a callback.
pub wrapped-outside :
    (g : Image) (thunk : ℕ → ℕ) (va : ℕ)
    → Thunks g thunk va
    → 0 < g.base
    → in_image g (wrapped g thunk va) ≡ false
unfolding wrapped
wrapped-outside g thunk va t b = ground (arith, t.outside)

-- The slot holds the thunk, if it is rewritten.
slot :
    (b : Bool) (n v : ℕ) (c : Guest)
    → v < 2 ^ 32
    → (k : ℕ)
    → arg (if b then set_arg n v c else c) k
      ≡ (if k == n then if b then v else arg c n else arg c k)
slot true n v c h k = ground (arith, arg-set_arg c n v k)
slot false n v c h k = ground arith

callback-wrapped :
    (g : Image) (thunk : ℕ → ℕ) (va : ℕ)
    → Thunks g thunk va
    → in_image g va ≡ true
    → callback thunk va ≡ some (wrapped g thunk va)
unfolding callback wrapped
callback-wrapped g thunk va t e = ground (arith, t.left)

rewritten :
    (g : Image) (thunk : ℕ → ℕ) (n : ℕ) (c : Guest)
    → Thunks g thunk (arg c n)
    → wrap_arg g thunk n c
      ≡ some (if in_image g (arg c n) then set_arg n (wrapped g thunk (arg c n)) c else c)
unfolding wrap_arg
rewritten g thunk n c t = elim (Bool-cases (in_image g (arg c n))) [
  | inl e ↦ rw (e, callback-wrapped g thunk (arg c n) t e) refl
  | inr e ↦ rw e refl
]

wrapped-word :
    (g : Image) (thunk : ℕ → ℕ) (va : ℕ)
    → Thunks g thunk va
    → va < 2 ^ 32
    → wrapped g thunk va < 2 ^ 32
unfolding wrapped
wrapped-word g thunk va t h = ground (arith, t.word)

wrapped_choice :
    (g : Image) (thunk : ℕ → ℕ) (va : ℕ)
    → (if in_image g va then wrapped g thunk va else va) ≡ wrapped g thunk va
unfolding wrapped
wrapped_choice g thunk va = ground arith

-- Real code is called with these arguments, and not at all if nothing is forwarded.
abbrev pub Gives : Option Guest → (ℕ → ℕ) → Type 0
Gives none f = false ≡ true
Gives (some c) f = (n : ℕ) → arg c n ≡ f n

-- wrap_callback_arg forwards the call, whatever the arguments, with that argument wrapped and every other
-- one as it was.
pub wrap_arg-Gives :
    (g : Image) (thunk : ℕ → ℕ) (n : ℕ) (c : Guest)
    → Thunks g thunk (arg c n)
    → arg c n < 2 ^ 32
    → Gives (wrap_arg g thunk n c) (λ k. if k == n then wrapped g thunk (arg c n) else arg c k)
wrap_arg-Gives g thunk n c t h = rw (rewritten g thunk n c t) (λ k.
    slot (in_image g (arg c n)) n (wrapped g thunk (arg c n)) c (wrapped-word g thunk (arg c n) t h)
      k
    ∙ ap (λ v. if k == n then v else arg c k) (wrapped_choice g thunk (arg c n)))

-- What the real call for a thread is given: the size of its stack, which is reserved, the thunk, and
-- whatever else the guest has asked for.
abbrev pub thread_frame : Image → (ℕ → ℕ) → ℕ → Guest → ℕ → ℕ
thread_frame g thunk size c k =
    if k == 2
    then wrapped g thunk (arg c 2)
    else if k == 1
    then size
    else if k == 4
    then bit_or (arg c 4) 0x10000 % 2 ^ 32
    else arg c k

Gives-same : (o : Option Guest) (f f' : ℕ → ℕ) → Gives o f → ((k : ℕ) → f k ≡ f' k) → Gives o f'
Gives-same none f f' h e = h
Gives-same (some c) f f' h e = λ k. h k ∙ e k

-- The two slots that are written.
abbrev sized : ℕ → Guest → Guest
sized size c = set_arg 4 (bit_or (arg (set_arg 1 size c) 4) 0x10000) (set_arg 1 size c)

sized_apart : (size : ℕ) (c : Guest) (k : ℕ) → 1 ≢ k → 4 ≢ k → arg (sized size c) k ≡ arg c k
sized_apart size c k a b =
    set_arg_apart (set_arg 1 size c) 4 k (bit_or (arg (set_arg 1 size c) 4) 0x10000) b
    ∙ set_arg_apart c 1 k size a

sized_lem :
    (g : Image) (thunk : ℕ → ℕ) (size : ℕ) (c : Guest)
    → size < 2 ^ 32
    → (k : ℕ)
    → (if k == 2 then wrapped g thunk (arg (sized size c) 2) else arg (sized size c) k)
      ≡ thread_frame g thunk size c k
sized_lem g thunk size c h zero = sized_apart size c 0 (omega arith) (omega arith)
sized_lem g thunk size c h (suc zero) =
    set_arg_apart (set_arg 1 size c) 4 1 (bit_or (arg (set_arg 1 size c) 4) 0x10000) (omega arith)
    ∙ set_arg_same c 1 size
    ∙ omega arith
sized_lem g thunk size c h (suc (suc zero)) =
    ap (wrapped g thunk) (sized_apart size c 2 (omega arith) (omega arith))
sized_lem g thunk size c h (suc (suc (suc zero))) = sized_apart size c 3 (omega arith) (omega arith)
sized_lem g thunk size c h (suc (suc (suc (suc zero)))) =
    set_arg_same (set_arg 1 size c) 4 (bit_or (arg (set_arg 1 size c) 4) 0x10000)
    ∙ ap (λ v. bit_or v 0x10000 % 2 ^ 32) (set_arg_apart c 1 4 size (omega arith))
sized_lem g thunk size c h (suc (suc (suc (suc (suc k))))) =
    ground (arith, sized_apart size c (suc (suc (suc (suc (suc k))))))

-- If the start has a thunk outside the image where it is in the image, and the size and the start are
-- 32-bit words: a thread of the guest is always started, through the start's thunk if it is in the image, with the runtime's
-- stack size, which is reserved, and with every other argument as the guest has it.
pub create_thread-Gives :
    (g : Image) (thunk : ℕ → ℕ) (size : ℕ) (c : Guest)
    → Thunks g thunk (arg c 2)
    → size < 2 ^ 32
    → arg c 2 < 2 ^ 32
    → Gives (create_thread g thunk size c) (thread_frame g thunk size c)
unfolding create_thread
create_thread-Gives g thunk size c t h w =
    let kept : arg (sized size c) 2 ≡ arg c 2 = sized_apart size c 2 (omega arith) (omega arith) in
    let l : arg (sized size c) 2 < 2 ^ 32 = rw kept w in
    Gives-same (wrap_arg g thunk 2 (sized size c)) _ (thread_frame g thunk size c)
      (wrap_arg-Gives g thunk 2 (sized size c) (subst (Thunks g thunk) (sym kept) t) l)
      (sized_lem g thunk size c h)
