-- ===== src/IoBoard/Tests.antt =====
-- The USB I/O board at concrete questions, and the theorems about it there
-- (src/runtime/hle_callback.c).
use systemes3recomp.Prelude.{
  ◌≤◌, ◌≡◌, refl, true, false, some, arith, List, [], ◌∷◌, take, All, ◌==◌, if◌then◌else◌,
}
use systemes3recomp.IoBoard.{
  word, block, Reads, Node, no_port, new_scan, descriptor, descriptor_of, copy_descriptor, device,
}
use systemes3recomp.IoBoard.Laws.{
  Question, has_port, ask_all, ask_all-once, Within, descriptor-Within,
}

abbrev fresh : Node
fresh = record { port = no_port; hub = 0; armed = true; given = false; root = 0 }

abbrev found : Node
found = record { port = 2; hub = 7; armed = true; given = false; root = 0 }

-- A request for the device descriptor, of port 2, with 18 bytes.
abbrev request : Reads
request = record { rd16 = λ a. if a == 0x106 then 0x100 else 18; rd32 = λ a. 2 }

answer_cut :
    descriptor true request found 7 0x100 0x200 20 0x300
    ≡ some (block 0x20c (take 8 device) ∷ word 0x300 20 ∷ [])
unfolding descriptor descriptor_of copy_descriptor
answer_cut = refl

descriptor-Within_example :
    All (Within 0x200 20 0x300) (block 0x20c (take 8 device) ∷ word 0x300 20 ∷ [])
descriptor-Within_example =
    descriptor-Within true request found 7 0x100 0x200 20 0x300
      (block 0x20c (take 8 device) ∷ word 0x300 20 ∷ []) answer_cut

abbrev empty_ports : Reads
empty_ports = record { rd16 = λ a. 0; rd32 = λ a. 0 }

abbrev questions : List Question
questions =
    record { reads = empty_ports; hub = 7; port = 1; buf = 0x100; len = 35 }
    ∷ record { reads = empty_ports; hub = 7; port = 2; buf = 0x100; len = 35 }
    ∷ []

ask_all-once_example :
    ((ask_all true questions (new_scan fresh)).1 ≤ 1)
    × (has_port (ask_all true questions (new_scan fresh)).0
        ≡ ((ask_all true questions (new_scan fresh)).1 == 1))
ask_all-once_example = ask_all-once true questions fresh (omega arith, (omega arith, tt))
