-- ===== src/Callbacks/Tests.antt =====
-- Callbacks at concrete inputs, and the theorems about them there (src/runtime/hle_callback.c).
use systemes3recomp.Prelude.{
  ℕ, ◌+◌, ◌*◌, ◌%◌, ◌^◌, ◌≤◌, ◌<◌, ◌≡◌, ◌⊎◌, inl, refl, true, false, ◌==◌, if◌then◌else◌, Option,
  some, [], ◌∷◌, arith,
}
use systemes3recomp.Memory.{Memory, copy_in, copy_out, rd32, wr32}
use systemes3recomp.Guest.Snapshot.{Snapshot, guest_diff}
use systemes3recomp.Jvs.{codes}
use systemes3recomp.Hle.{dll_eq}
use systemes3recomp.Callbacks.{
  Guest, Image, esp, arg, note_crossing, thread_stack_size, create_thread,
}
use systemes3recomp.Callbacks.Planted.{plant_callback, plant_callback_lem}
use systemes3recomp.Callbacks.Laws.{Thunks, Gives, thread_frame, create_thread-Gives}
use systemes3recomp.Callbacks.Answered.{
  behind_last, behind_prefix, leaf_of, is_named, refuse_io_emulator, file_trace_boring,
}

abbrev image : Image
image = record { base = 0x400000; size = 0x1000 }

-- Each address of the image has a thunk far from it.
abbrev thunks : ℕ → ℕ
thunks va = 0x70000000 + va % 0x10000

-- A call with a return address and the arguments 0, 0x8000, 0x400100, 7 and 4 on its stack.
abbrev caller : Guest
caller = record {
  gpr = λ i. if i == esp then 0x10000 else i;
  memory = wr32 (wr32 (wr32 (wr32 (λ a. 0) 0x10008 0x8000) 0x1000c 0x400100) 0x10010 7) 0x10014 4;
}

start_thunk : Thunks image thunks (arg caller 2)
start_thunk = record { left = λ h. omega arith; word = omega arith; outside = λ h. ground arith }

word_0x400100 : arg caller 2 < 2 ^ 32
unfolding rd32 wr32 copy_in
word_0x400100 = ground arith

create_thread-Gives_example :
    Gives
      (create_thread image thunks (16 * 2 ^ 20) caller)
      (thread_frame image thunks (16 * 2 ^ 20) caller)
create_thread-Gives_example =
    create_thread-Gives image thunks (16 * 2 ^ 20) caller start_thunk (omega arith) word_0x400100

abbrev code : Snapshot
code = record { lo = 0x401000; hi = 0x401010; copy = copy_out (λ a. 0x90) 0x401000 16 }

plant_callback_lem_example :
    (m' : Memory) × (s' : Option Snapshot) × (plant_callback
        (λ va. 0x70001000)
        (λ va. true)
        0x401004
        (λ a. 0x90)
        (some code)
      ≡ some (1, m', s'))
    × (m' 0x401004 ≡ 0xE9)
    × ((0x401004 + 5 + rd32 m' (0x401004 + 1)) % 2 ^ 32 ≡ 0x70001000)
    × ((x : ℕ) → (x < 0x401004) ⊎ (0x401004 + 5 ≤ x) → m' x ≡ 0x90)
    × ((guest_diff m' s').0 ≡ [])
plant_callback_lem_example =
    plant_callback_lem (λ va. 0x70001000) (λ va. true) 0x401004 (λ a. 0x90) code (λ e. omega arith)
      (λ e. omega arith) (omega arith) (omega arith) refl (omega arith, refl)
      (inl (omega arith, omega arith))

-- The ninth crossing of a callback is not shown, and the 257th is.
ninth_test : (note_crossing 256 9 (record { va = 9; hits = 8 } ∷ [])).0 ≡ false
unfolding note_crossing
ninth_test = refl

wrapped_test :
    (note_crossing 256 9 (record { va = 9; hits = 255 } ∷ [])).1 ≡ record { va = 9; hits = 0 } ∷ []
unfolding note_crossing
wrapped_test = refl

-- 4096 MB are none.
stack_test : thread_stack_size (some 4096) 0 ≡ 0
unfolding thread_stack_size
stack_test = refl

refused_test : refuse_io_emulator true (some (codes "C:\\io/x\\jvsEMUmk.DLL")) ≡ true
unfolding refuse_io_emulator behind_last behind_prefix leaf_of is_named dll_eq
refused_test = refl

passed_test : refuse_io_emulator true (some (codes "JVSEmu2.dll")) ≡ false
unfolding refuse_io_emulator behind_last behind_prefix leaf_of is_named dll_eq
passed_test = refl

boring_test : file_trace_boring false (codes "./Data/kart.bin") ≡ true
unfolding file_trace_boring
boring_test = refl
