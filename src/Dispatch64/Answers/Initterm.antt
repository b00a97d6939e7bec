-- ===== src/Dispatch64/Answers/Initterm.antt =====
-- The tables of initialisers that _initterm and _initterm_e run, in src/runtime64/dispatch64.c.
use systemes3recomp.Prelude.{
  subst, sym, ◌||◌, ◌≢◌, ◌⊎◌, inl, inr, ◌++◌, Bool-cases, ℕ, suc, ◌+◌, ◌*◌, ◌%◌, ◌^◌, ◌<◌, ◌≡◌,
  refl, ◌∙◌, ap, Bool, true, false, not, ◌&&◌, ◌==◌, if◌then◌else◌, List, [], ◌∷◌, length, get_or,
  arith,
}
use systemes3recomp.Memory.{rd64}
use systemes3recomp.Dispatch64.{Body, Runtime, Ending, returned, run_body}
use systemes3recomp.Dispatch64.Answers.{
  Addresses, Host, forward, slots, replace_arguments, Machine, push_return, call_guest,
  initterm_end, initterm_from,
}

-- The memory holds a table of functions at `p`.
abbrev pub Holds : ℕ → List ℕ → Machine → Type 0
Holds p fns s = (i : ℕ) → i < length fns → rd64 s.memory (p + 8 * i) ≡ get_or fns i 0

-- The functions run one after the other, the empty slots left out, up to the first error if a result is
-- wanted: what is answered, and the state.
unfoldable pub run_table : (ℕ → Machine → Machine) → Bool → List ℕ → Machine → ℕ × Machine
run_table f wants [] s = (0, s)
run_table f wants (fn ∷ fns) s =
    let s' = f fn (push_return s) in
    let rc = s'.regs.rax % 2 ^ 32 in
    let skipped = run_table f wants fns s in
    let rest = run_table f wants fns s' in
    if fn == 0 then skipped else if wants && not (rc == 0) then (rc, s') else rest

-- The guest's functions return, each with a state of its own.
abbrev pub returning : (ℕ → Machine → Machine) → Bool → ℕ → ℕ → Runtime → Machine → Ending Machine
returning f jump cpu target r s = returned r (f target s)

Holds-tail : (p fn : ℕ) (fns : List ℕ) (s : Machine) → Holds p (fn ∷ fns) s → Holds (p + 8) fns s
Holds-tail p fn fns s h = λ i l. ap (λ a. rd64 s.memory a) (omega arith) ∙ h (suc i) (omega arith)

either :
    (f : ℕ → Machine → Machine) (rcx rdx : ℕ) (b : Bool) (x y : Body Machine) (u v : ℕ × Machine)
    (r : Runtime)
    → run_body (returning f) x r ≡ returned r (initterm_end rcx rdx u.0 u.1)
    → run_body (returning f) y r ≡ returned r (initterm_end rcx rdx v.0 v.1)
    → run_body (returning f) (if b then x else y) r
      ≡ returned r (initterm_end rcx rdx (if b then u else v).0 (if b then u else v).1)
either f rcx rdx true x y u v r p q = p
either f rcx rdx false x y u v r p q = q

-- The loop over a table runs its functions in their order, up to the first error if a result is wanted. `Inv` is what each function keeps, the table among it.
initterm_from-run_table {ℓ} :
    (Inv : Machine → Type ℓ) (f : ℕ → Machine → Machine) (cpu : ℕ) (wants : Bool) (rcx rdx p : ℕ)
    (fns : List ℕ) (s : Machine) (r : Runtime)
    → ((fn : ℕ) (x : Machine) → Inv x → Inv (f fn (push_return x)))
    → ((x : Machine) → Inv x → Holds p fns x)
    → Inv s
    → run_body (returning f) (initterm_from cpu wants rcx rdx (length fns) p s) r
      ≡ returned r (initterm_end rcx rdx (run_table f wants fns s).0 (run_table f wants fns s).1)
unfolding initterm_from run_body run_table call_guest
initterm_from-run_table Inv f cpu wants rcx rdx p [] s r keeps h v = refl
initterm_from-run_table Inv f cpu wants rcx rdx p (fn ∷ fns) s r keeps h v =
    let here : rd64 s.memory p ≡ fn =
      ap (λ a. rd64 s.memory a) (omega arith) ∙ h s v 0 (omega arith) in
    let s' : Machine = f fn (push_return s) in
    let rest = λ (x : Machine) (w : Inv x).
      initterm_from-run_table Inv f cpu wants rcx rdx (p + 8) fns x r keeps
        (λ y w'. Holds-tail p fn fns y (h y w')) w in
    rw here (
      either f rcx rdx (fn == 0) _ _ (run_table f wants fns s)
        (if wants && not (s'.regs.rax % 2 ^ 32 == 0)
          then (s'.regs.rax % 2 ^ 32, s')
          else run_table f wants fns s')
        r (rest s v)
        (either f rcx rdx (wants && not (s'.regs.rax % 2 ^ 32 == 0)) _ _ (s'.regs.rax % 2 ^ 32, s')
          (run_table f wants fns s') r refl (rest s' (keeps fn s v))))

-- What one slot of a table does, and all of them: each function runs, in order, and an empty slot is
-- passed over.
abbrev pub step : (ℕ → Machine → Machine) → ℕ → Machine → Machine
step f fn s = if fn == 0 then s else f fn (push_return s)

abbrev pub run_all : (ℕ → Machine → Machine) → List ℕ → Machine → Machine
run_all f [] s = s
run_all f (fn ∷ fns) s = run_all f fns (step f fn s)

-- The low half of what a function answers.
abbrev pub answer_of : Machine → ℕ
answer_of s = s.regs.rax % 2 ^ 32

-- Each function answers 0.
abbrev pub AllSucceed : (ℕ → Machine → Machine) → List ℕ → Machine → Type 0
AllSucceed f [] s = Unit
AllSucceed f (fn ∷ fns) s =
    (fn ≢ 0 → answer_of (f fn (push_return s)) ≡ 0) × AllSucceed f fns (step f fn s)

-- All functions have run and succeeded, and the answer is 0; or those before some function have, it has
-- failed, and nothing behind it has run.
abbrev pub UpToFailure : (ℕ → Machine → Machine) → List ℕ → Machine → ℕ → Machine → Type 0
UpToFailure f fns s rc t =
    (AllSucceed f fns s × (rc ≡ 0) × (t ≡ run_all f fns s))
    ⊎ ((before : List ℕ) × (fn : ℕ) × (rest : List ℕ) × (fns ≡ before ++ (fn ∷ rest))
        × AllSucceed f before s
        × (fn ≢ 0)
        × (t ≡ f fn (push_return (run_all f before s)))
        × (rc ≡ answer_of t)
        × (rc ≢ 0))

UpToFailure-step :
    (f : ℕ → Machine → Machine) (fn : ℕ) (fns : List ℕ) (s : Machine) (rc : ℕ) (t : Machine)
    → (fn ≢ 0 → answer_of (f fn (push_return s)) ≡ 0)
    → UpToFailure f fns (step f fn s) rc t
    → UpToFailure f (fn ∷ fns) s rc t
UpToFailure-step f fn fns s rc t ok (inl (a, b, c)) = inl ((ok, a), b, c)
UpToFailure-step f fn fns s rc t ok (inr (before, g, rest, e, a, n, c, d, z)) =
    inr (fn ∷ before, g, rest, ap (λ xs. fn ∷ xs) e, (ok, a), n, c, d, z)

-- A slot that is passed over or succeeds, where the rest of the table is run from the state behind it.
goes_on :
    (f : ℕ → Machine → Machine) (fn : ℕ) (fns : List ℕ) (s s' : Machine)
    → step f fn s ≡ s'
    → (fn ≢ 0 → answer_of (f fn (push_return s)) ≡ 0)
    → run_table f true (fn ∷ fns) s ≡ run_table f true fns s'
    → UpToFailure f fns s' (run_table f true fns s').0 (run_table f true fns s').1
    → UpToFailure f (fn ∷ fns) s (run_table f true (fn ∷ fns) s).0 (run_table f true (fn ∷ fns) s).1
goes_on f fn fns s s' same ok e rest =
    subst (λ (p : ℕ × Machine). UpToFailure f (fn ∷ fns) s p.0 p.1) (sym e)
      (UpToFailure-step f fn fns s (run_table f true fns s').0 (run_table f true fns s').1 ok (
        subst (λ x. UpToFailure f fns x (run_table f true fns s').0 (run_table f true fns s').1)
          (sym same) rest))

run_table-UpToFailure :
    (f : ℕ → Machine → Machine) (fns : List ℕ) (s : Machine)
    → UpToFailure f fns s (run_table f true fns s).0 (run_table f true fns s).1
unfolding run_table
run_table-UpToFailure f [] s = inl (tt, refl, refl)
run_table-UpToFailure f (fn ∷ fns) s =
    let s' : Machine = f fn (push_return s) in
    elim (Bool-cases (fn == 0)) [
      | inl z ↦
          goes_on f fn fns s s (rw z refl) (λ n. absurd (n (ground arith))) (rw z refl)
            (run_table-UpToFailure f fns s)
      | inr z ↦ elim (Bool-cases (answer_of s' == 0)) [
        | inl k ↦
            goes_on f fn fns s s' (rw z refl) (λ n. ground arith) (rw (z, k) refl)
              (run_table-UpToFailure f fns s')
        | inr k ↦
            let e : run_table f true (fn ∷ fns) s ≡ (answer_of s', s') = rw (z, k) refl in
            subst (λ (p : ℕ × Machine). UpToFailure f (fn ∷ fns) s p.0 p.1) (sym e)
              (inr ([], fn, fns, refl, tt, (λ q. ground arith), refl, refl, (λ q. ground arith)))
      ]
    ]

run_table-run_all :
    (f : ℕ → Machine → Machine) (fns : List ℕ) (s : Machine)
    → run_table f false fns s ≡ (0, run_all f fns s)
unfolding run_table
run_table-run_all f [] s = refl
run_table-run_all f (fn ∷ fns) s = elim (Bool-cases (fn == 0)) [
  | inl z ↦ rw z (run_table-run_all f fns s)
  | inr z ↦ rw z (run_table-run_all f fns (f fn (push_return s)))
]

-- The two functions are apart from those whose arguments are replaced, and from each other.
abbrev pub AreApart : Addresses → Type 0
AreApart a =
    (a.initterm ≢ a.initterm_e)
    × (a.initterm ≢ a.direct_input8_create)
    × (a.initterm ≢ a.create_thread)
    × (a.initterm_e ≢ a.direct_input8_create)
    × (a.initterm_e ≢ a.create_thread)

kept_arguments :
    (h : Host) (target : ℕ) (s : Machine)
    → target ≢ h.addresses.direct_input8_create
    → target ≢ h.addresses.create_thread
    → replace_arguments h target s ≡ s.regs
unfolding replace_arguments
kept_arguments h target s a b = ground arith

-- The call of either function goes to the loop over its table.
forwarded :
    (h : Host) (cpu target : ℕ) (fns : List ℕ) (s : Machine)
    → (target == h.addresses.initterm || target == h.addresses.initterm_e) ≡ true
    → target ≢ h.addresses.direct_input8_create
    → target ≢ h.addresses.create_thread
    → s.regs.rcx ≢ 0
    → s.regs.rdx ≡ s.regs.rcx + 8 * length fns
    → forward h cpu target s
      ≡ initterm_from cpu
          (target == h.addresses.initterm_e)
          s.regs.rcx
          s.regs.rdx
          (length fns)
          s.regs.rcx
          s
unfolding forward
forwarded h cpu target fns s listed a b n e =
    let there : (s.regs.rcx == 0) ≡ false = ground arith in
    let ends : (s.regs.rdx == 0) ≡ false = ground arith in
    let count : slots s.regs.rcx s.regs.rdx ≡ length fns = omega arith in
    rw (kept_arguments h target s a b, listed, there, ends, count) refl

-- A table of functions from rcx to rdx, which no function that runs disturbs: _initterm runs all of them in
-- their order, empty slots passed over, whatever they answer, and answers 0. _initterm_e stops behind the
-- first that answers other than 0 in its low 32 bits, and answers that, or else 0. Both give rcx and rdx
-- back as they were.
pub initterm_lem {ℓ} :
    (Inv : Machine → Type ℓ) (f : ℕ → Machine → Machine) (h : Host) (cpu : ℕ) (fns : List ℕ)
    (s : Machine) (r : Runtime)
    → AreApart h.addresses
    → ((fn : ℕ) (x : Machine) → Inv x → Inv (f fn (push_return x)))
    → ((x : Machine) → Inv x → Holds s.regs.rcx fns x)
    → Inv s
    → s.regs.rcx ≢ 0
    → s.regs.rdx ≡ s.regs.rcx + 8 * length fns
    → (run_body (returning f) (forward h cpu h.addresses.initterm s) r
        ≡ returned r (initterm_end s.regs.rcx s.regs.rdx 0 (run_all f fns s)))
      × ((rc : ℕ) × (t : Machine) × (run_body
              (returning f)
              (forward h cpu h.addresses.initterm_e s)
              r
            ≡ returned r (initterm_end s.regs.rcx s.regs.rdx rc t))
          × UpToFailure f fns s rc t)
initterm_lem Inv f h cpu fns s r apart keeps holds v n e =
    let a = h.addresses in
    let other : (a.initterm == a.initterm_e) ≡ false = ground (arith, apart.0) in
    let itself : (a.initterm_e == a.initterm_e) ≡ true = ground arith in
    let first = forwarded h cpu a.initterm fns s (ground arith) apart.1 apart.2 n e in
    let second = forwarded h cpu a.initterm_e fns s (ground arith) apart.3 apart.4 n e in
    let rcx = s.regs.rcx in
    let rdx = s.regs.rdx in
    let plain = initterm_from-run_table Inv f cpu false rcx rdx rcx fns s r keeps holds v in
    let stopping = initterm_from-run_table Inv f cpu true rcx rdx rcx fns s r keeps holds v in
    (
      rw (first, other)
          (plain
            ∙ ap (λ (p : ℕ × Machine). returned r (initterm_end rcx rdx p.0 p.1))
                (run_table-run_all f fns s)),
      (
        (run_table f true fns s).0,
        (run_table f true fns s).1,
        rw (second, itself) stopping,
        run_table-UpToFailure f fns s,
      ),
    )
