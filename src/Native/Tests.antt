-- ===== src/Native/Tests.antt =====
-- Forwarded calls at concrete inputs, and the theorems about them there (src/runtime/hle_native.c).
use systemes3recomp.Prelude.{
  ◌*◌, ℕ, ◌+◌, ◌-◌, ◌≤◌, ◌≡◌, length-append, refl, true, false, ◌&&◌, ltb, leb, ◌==◌, if◌then◌else◌,
  Option, none, some, List, [], ◌∷◌, ◌++◌, length, drop, arith,
}
use systemes3recomp.Memory.{Memory, copy_in, rd32, wr32}
use systemes3recomp.Hle.{Import, same_text, dll_eq}
use systemes3recomp.Jvs.{codes}
use systemes3recomp.Native.{
  host_regions, Query, Factory, a32, is_cached, replace_hinstance, ci_helpers, fpu_args,
  takes_hinstance,
}
use systemes3recomp.Native.Regions.{Uniform, Question, IsSound, ask_all, answers, ask_all-answers}
use systemes3recomp.Native.Calls.{
  is_one_of, handle_libraries, Fpu, FpuLaws, Guest, Side, call_native, depth-call_native,
  replace_hinstance_lem,
}
use systemes3recomp.Native.Windowed.{parameters}

-- One library, from 0x10000000.
abbrev library : ℕ → Option Query
library a =
    if leb 0x10000000 a && ltb a 0x10004000
    then some (record { committed = true; executable = true; base = 0x10000000; size = 0x4000 })
    else none

library-Uniform : Uniform library
library-Uniform va q e x a h l = ground arith

nothing_cached : (query : ℕ → Option Query) → IsSound query []
unfolding is_cached
nothing_cached query = record { sound = λ a h. cc; bounded = omega arith }

-- Before the library is loaded, and behind that.
abbrev questions : List Question
questions =
    ((λ a. none), 0x10000010)
    ∷ (library, 0x10000010)
    ∷ (library, 0x10000020)
    ∷ (library, 0x400010)
    ∷ []

ask_all-answers_example :
    ((ask_all 0x400000 0x1000 questions []).0 ≡ answers 0x400000 0x1000 questions)
    × (length (ask_all 0x400000 0x1000 questions []).1 ≤ host_regions)
ask_all-answers_example =
    ask_all-answers 0x400000 0x1000 (λ a. none) questions []
      (
        (λ a h. h),
        (λ va q e x a h l. ground arith),
        (
          (λ a h. ground arith),
          library-Uniform,
          ((λ a h. h), library-Uniform, ((λ a h. h), library-Uniform, tt)),
        ),
      )
      (nothing_cached (λ a. none))

-- A stack of x87 values, and a callee that takes two and leaves one.
abbrev values : Fpu ℕ (List ℕ)
values = record {
  push = λ vs f. vs ++ f;
  depth = λ f. length f;
  pop = λ f. elim f [ [] ↦ (0, []) | v ∷ rest ↦ (v, rest) ];
}

popped : (f : List ℕ) → values.depth (values.pop f).1 ≡ values.depth f - 1
popped [] = omega arith
popped (v ∷ f) = omega arith

values_laws : FpuLaws values
values_laws = record { depth-push = λ vs f h. length-append vs f; depth-pop = λ f. popped f }

abbrev power : Import
power = record { name = codes "_CIpow"; dll = codes "MSVCR100.dll"; purge = some 0 }

abbrev caller : Guest ℕ
caller = record { gpr = λ k. 0x8000; st = λ i. i; fpu_top = 6 }

abbrev machine : (ℕ → ℕ) → Side (List ℕ) → (ℕ × ℕ × ℕ) × Side (List ℕ)
machine r x = ((r 0, r 2, r 4 + 4), record x { fpu = 81 ∷ drop 2 x.fpu })

abbrev side : Side (List ℕ)
side = record { memory = λ a. 0; fpu = 7 ∷ [] }

power_arguments : fpu_args ci_helpers power.name ≡ 2
unfolding fpu_args same_text
power_arguments = refl

takes_two : (f : List ℕ) → length f ≤ length (81 ∷ drop 2 f) + 2
takes_two [] = omega arith
takes_two (a ∷ []) = omega arith
takes_two (a ∷ b ∷ f) = omega arith

depth-call_native_example :
    length (call_native values (λ v c. c) false 0x400000 0x7000 machine power caller side).1.fpu ≡ 1
depth-call_native_example =
    depth-call_native values values_laws (λ v c. c) false 0x400000 0x7000 machine power caller side
      (λ r x. rw power_arguments (takes_two x.fpu)) (rw power_arguments (omega arith))

-- A window class is registered with the guest's image base as its second argument.
abbrev frame : Memory
frame = copy_in (λ a. 0) 0x8008 (0 ∷ 0 ∷ 0x40 ∷ 0 ∷ [])

replace_hinstance_lem_example :
    a32
      (replace_hinstance false (some 8) (codes "USER32.dll") 0x400000 0x7000 0x8000 frame)
      0x8000
      1
    ≡ (if is_one_of handle_libraries (codes "USER32.dll")
          && ltb 1 16
          && leb (4 * 1 + 4) 8
          && (a32 frame 0x8000 1 == 0x400000)
        then 0x7000
        else a32 frame 0x8000 1)
replace_hinstance_lem_example =
    replace_hinstance_lem false (some 8) (codes "USER32.dll") 0x400000 0x7000 0x8000 1 frame
      (omega arith)

replaced :
    a32
      (replace_hinstance false (some 8) (codes "USER32.dll") 0x400000 0x7000 0x8000 frame)
      0x8000
      1
    ≡ 0x7000
unfolding replace_hinstance rd32 wr32 dll_eq takes_hinstance
replaced = refl

-- Parameters at 0x100 that ask for the full screen.
abbrev factory : Factory
factory = record { create_device = 0x5000; create_device_ex = 0x6000 }

abbrev asked : Memory
asked = copy_in (copy_in (λ a. 0) 0x8018 (0 ∷ 1 ∷ 0 ∷ 0 ∷ [])) 0x130 (60 ∷ 0 ∷ 0 ∷ 0 ∷ [])

given : parameters factory 0x6000 0x8000 asked ≡ 0x100
unfolding rd32 copy_in
given = refl
