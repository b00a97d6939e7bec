-- ===== src/Hle/Tests.antt =====
-- Two slots of one import.
use systemes3recomp.Prelude.{ℕ, ◌≡◌, refl, none, some, List, [], ◌∷◌}
use systemes3recomp.Jvs.{codes}
use systemes3recomp.Hle.{Import, board_note, note_in, dll_eq}

abbrev imports : List Import
imports =
    record { name = codes "Sleep"; dll = codes "KERNEL32.dll"; purge = some 4 }
    ∷ record { name = codes "ordinal_2"; dll = codes "eOkaoDt.dll"; purge = none }
    ∷ record { name = codes "Sleep"; dll = codes "KERNEL32.dll"; purge = some 4 }
    ∷ []

abbrev sleep : ℕ
sleep = 7

camera : board_note (codes "EOKAODT.DLL") ≡ some (codes "OMRON OKAO Vision - face detection")
unfolding board_note note_in dll_eq
camera = refl
