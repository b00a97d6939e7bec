-- ===== src/Callbacks/Initterm.antt =====
-- The tables of initialisers that run_initterm of src/runtime/hle_callback.c walks.
use systemes3recomp.Prelude.{
  ℕ, zero, suc, ◌+◌, ◌-◌, ◌*◌, ◌/◌, ◌%◌, ◌^◌, ◌<◌, ◌≡◌, refl, ◌∙◌, ap, Bool, true, false, not, ◌&&◌,
  ◌==◌, if◌then◌else◌, List, [], ◌∷◌, length, get_or, arith,
}
use systemes3recomp.Memory.{rd32, wr32}
use systemes3recomp.Callbacks.{Guest, eax, esp, set, arg, ret}

-- push32 of CALLBACK_RETURN.
unfoldable pub push_return : Guest → Guest
push_return c =
    let top = (c.gpr esp + 2 ^ 32 - 4) % 2 ^ 32 in
    record { gpr = set esp top c.gpr; memory = wr32 c.memory top 0xE5FFFF00 }

-- The loop, over `n` slots from `p`: `err`, and the state.
unfoldable pub initterm_from : (ℕ → Guest → Guest) → Bool → ℕ → ℕ → Guest → ℕ × Guest
initterm_from dispatch stop zero p c = (0, c)
initterm_from dispatch stop (suc n) p c =
    let fp = rd32 c.memory p in
    let c' = dispatch fp (push_return c) in
    let skipped = initterm_from dispatch stop n (p + 4) c in
    let rest = initterm_from dispatch stop n (p + 4) c' in
    if fp == 0 then skipped else if stop && not (c'.gpr eax == 0) then (c'.gpr eax, c') else rest

-- run_initterm. The table ends below 2^32 - 4, so that its pointer does not wrap.
unfoldable pub run_initterm : (ℕ → Guest → Guest) → Bool → Guest → ℕ × Guest
unfolding initterm_from
run_initterm dispatch stop c = initterm_from dispatch stop ((arg c 1 + 3 - arg c 0) / 4) (arg c 0) c

-- hle_initterm and hle_initterm_e.
unfoldable pub hle_initterm : (ℕ → Guest → Guest) → Guest → Guest
unfolding run_initterm
hle_initterm dispatch c = ret 0 (run_initterm dispatch false c).1

unfoldable pub hle_initterm_e : (ℕ → Guest → Guest) → Guest → Guest
unfolding run_initterm
hle_initterm_e dispatch c = let (err, c') = run_initterm dispatch true c in ret err c'

-- The memory holds a table of functions at `p`.
abbrev pub Holds : ℕ → List ℕ → Guest → Type 0
Holds p fns c = (i : ℕ) → i < length fns → rd32 c.memory (p + 4 * i) ≡ get_or fns i 0

-- The functions run one after the other, the empty slots left out, up to the first error if a result is
-- wanted.
unfoldable pub run_table : (ℕ → Guest → Guest) → Bool → List ℕ → Guest → ℕ × Guest
run_table f stop [] c = (0, c)
run_table f stop (fn ∷ fns) c =
    let c' = f fn (push_return c) in
    let skipped = run_table f stop fns c in
    let rest = run_table f stop fns c' in
    if fn == 0 then skipped else if stop && not (c'.gpr eax == 0) then (c'.gpr eax, c') else rest

Holds-tail : (p fn : ℕ) (fns : List ℕ) (c : Guest) → Holds p (fn ∷ fns) c → Holds (p + 4) fns c
Holds-tail p fn fns c h = λ i l. ap (λ a. rd32 c.memory a) (omega arith) ∙ h (suc i) (omega arith)

-- The walk of a table runs its functions in their order, and for _initterm_e up to the first that fails.
-- `Inv` is what each function keeps, the table among it.
pub initterm_from-run_table {ℓ} :
    (Inv : Guest → Type ℓ) (f : ℕ → Guest → Guest) (stop : Bool) (p : ℕ) (fns : List ℕ) (c : Guest)
    → ((fn : ℕ) (x : Guest) → Inv x → Inv (f fn (push_return x)))
    → ((x : Guest) → Inv x → Holds p fns x)
    → Inv c
    → initterm_from f stop (length fns) p c ≡ run_table f stop fns c
unfolding initterm_from run_table
initterm_from-run_table Inv f stop p [] c keeps h v = refl
initterm_from-run_table Inv f stop p (fn ∷ fns) c keeps h v =
    let here : rd32 c.memory p ≡ fn =
      ap (λ a. rd32 c.memory a) (omega arith) ∙ h c v 0 (omega arith) in
    let rest = λ (x : Guest) (w : Inv x).
      initterm_from-run_table Inv f stop (p + 4) fns x keeps (λ y u. Holds-tail p fn fns y (h y u))
        w in
    rw (here, rest c v, rest (f fn (push_return c)) (keeps fn c v)) refl
