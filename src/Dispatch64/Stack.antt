-- ===== src/Dispatch64/Stack.antt =====
-- What es3_dump_callstack of src/runtime64/dispatch64.c reads of the shadow call stack.
use systemes3recomp.Prelude.{
  ℕ, zero, suc, ◌+◌, ◌-◌, ◌≤◌, ◌<◌, ◌≡◌, inl, inr, refl, ◌∙◌, sym, ltb, leb, if◌then◌else◌, none,
  some, List, [], ◌∷◌, length, take, take_all, ap, Bool-cases, arith,
}
use systemes3recomp.Dispatch64.{Runtime, push, dump_from, dump_callstack, cs_max}

-- The call stack behind the calls of `path`, the innermost first.
unfoldable pub entered : List ℕ → Runtime → Runtime
entered [] r = r
entered (va ∷ outer) r = push va (entered outer r)

pub depth-entered : (path : List ℕ) (r : Runtime) → (entered path r).depth ≡ length path + r.depth
unfolding entered push
depth-entered [] r = omega arith
depth-entered (va ∷ outer) r = omega (arith, depth-entered outer r)

pushed :
    (outer : List ℕ) (va : ℕ) (r : Runtime)
    → r.depth ≡ 0
    → length outer < cs_max
    → (push va (entered outer r)).stack (length outer) ≡ va
unfolding push
pushed outer va r d h = ground (arith, depth-entered outer r)

-- What is pushed leaves what a read below sees.
dump_from-push :
    (n : ℕ) (r : Runtime) (va top : ℕ)
    → top ≤ r.depth
    → n ≤ top
    → dump_from n top (push va r).stack ≡ dump_from n top r.stack
unfolding dump_from push
dump_from-push zero r va top h k = refl
dump_from-push (suc n) r va top h k = ground (arith, dump_from-push n r va (top - 1))

dump_from-entered :
    (path : List ℕ) (r : Runtime) (n : ℕ)
    → r.depth ≡ 0
    → length path ≤ cs_max
    → n ≤ length path
    → dump_from n (length path) (entered path r).stack ≡ some (take n path)
unfolding dump_from entered
dump_from-entered path r zero d h k = refl
dump_from-entered [] r (suc n) d h k = absurd (omega arith)
dump_from-entered (va ∷ outer) r (suc n) d h k =
    let top : (push va (entered outer r)).stack (length outer) ≡ va = pushed outer va r d h in
    let rest : dump_from n (length outer) (push va (entered outer r)).stack ≡ some (take n outer) =
      dump_from-push n (entered outer r) va (length outer) (omega (arith, depth-entered outer r))
        (omega arith)
      ∙ dump_from-entered outer r n d (omega arith) (omega arith) in
    ground arith

dump_short :
    (path : List ℕ) (r : Runtime)
    → r.depth ≡ 0
    → length path ≤ cs_max
    → dump_callstack (entered path r) ≡ some (take 40 path)
unfolding dump_callstack
dump_short path r d h =
    let depth : (entered path r).depth ≡ length path = omega (arith, depth-entered path r) in
    elim (Bool-cases (ltb (length path) 40)) [
      | inl few ↦
          rw (depth, few)
            (dump_from-entered path r (length path) d h (omega arith)
              ∙ ap some (
                  take_all path (length path) (omega arith)
                  ∙ sym (take_all path 40 (ground arith))))
      | inr many ↦ rw (depth, many) (dump_from-entered path r 40 d h (ground arith))
    ]

dump_long :
    (path : List ℕ) (r : Runtime)
    → r.depth ≡ 0
    → cs_max < length path
    → dump_callstack (entered path r) ≡ none
unfolding dump_callstack dump_from
dump_long path r d h = ground (arith, depth-entered path r)

-- A call stack of 256 calls at most is shown as it is: the innermost 40, in their order. Of a deeper one
-- the dump reads past the end of cs_stack.
pub dump_callstack-entered :
    (path : List ℕ) (r : Runtime)
    → r.depth ≡ 0
    → dump_callstack (entered path r)
      ≡ (if leb (length path) cs_max then some (take 40 path) else none)
dump_callstack-entered path r d = elim (Bool-cases (leb (length path) cs_max)) [
  | inl short ↦ rw short (dump_short path r d (ground arith))
  | inr long ↦ rw long (dump_long path r d (ground arith))
]
