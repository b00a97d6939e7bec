-- ===== src/Card/Tests.antt =====
-- Runs of the card reader, and each property at a concrete input.
use systemes3recomp.Prelude.{
  ◌≡◌, refl, true, false, none, some, ◌⊎◌, inl, Bytes, [], ◌∷◌, ◌++◌, take, drop, replicate, arith,
}
use systemes3recomp.Fifo
use systemes3recomp.Fifo.Refine.{contents, take_out_refines}
use systemes3recomp.Jvs.{codes}
use systemes3recomp.ComName.{unset, claims, is_com, com_number, is_wanted, skip_device}
use systemes3recomp.Card.{
  Disk, written_to, Port, Reader, initial_port, initial_reader, tap, in_field,
}
use systemes3recomp.Card.Image.{load, parse_uid, hexnib}
use systemes3recomp.Card.Mifare.{mifare, answer, block}
use systemes3recomp.Card.Mifare.Laws.{mifare-block, mifare_write_read, Touches}
use systemes3recomp.Card.Chip.{respond, command}
use systemes3recomp.Card.Chip.Wire.{sent_frame}
use systemes3recomp.Card.Receive.{consume}
use systemes3recomp.Card.Receive.Wire.{frame, consume-frame}
use systemes3recomp.Card.Line.{write, open_port}
use systemes3recomp.Card.Line.Exchange.{write_command}
use systemes3recomp.Card.Line.Invariant.{
  IsSound, IsValid, Machine, MachineStep, opened, writes, start, next,
}
use systemes3recomp.Card.Line.Reached.{MachineReach-IsValid}

-- A reader with a card on it that has not been used.
abbrev blank : Reader
blank = record (initial_reader []) { image = replicate 1024 0x00; present_until = 5000 }

-- GetFirmwareVersion.
abbrev version : Bytes
version = 0xD4 ∷ 0x02 ∷ []

-- A disk that takes the whole card.
abbrev disk : Disk
disk = written_to 1024

abbrev pattern_bytes : Bytes
pattern_bytes = replicate 16 0x5A

initial_IsSound : IsSound initial_port
initial_IsSound = record { pipe = omega arith; room = omega arith }

-- The card is on the reader for two seconds from the tap on, and no longer.
tapped :
    (respond false 2999 disk (0xD4 ∷ 0x4A ∷ []) (tap 1000 (initial_reader []))).0
    ≡ 0xD5 ∷ 0x4B ∷ 1 ∷ 1 ∷ 0 ∷ 4 ∷ 8 ∷ 4 ∷ 0x3E ∷ 0x86 ∷ 0xD0 ∷ 0x2D ∷ []
unfolding respond tap in_field
tapped = refl

gone :
    (respond false 3000 disk (0xD4 ∷ 0x4A ∷ []) (tap 1000 (initial_reader []))).0
    ≡ 0xD5 ∷ 0x4B ∷ 0 ∷ []
unfolding respond tap in_field
gone = refl

-- ES3_CARD_UID with a wrong digit keeps the bytes behind it.
parsed : parse_uid (1 ∷ 2 ∷ 3 ∷ 4 ∷ []) (codes "aBz0") ≡ 0xAB ∷ 2 ∷ 3 ∷ 4 ∷ []
unfolding parse_uid hexnib
parsed = refl

write_command_example :
    let after =
      (write false disk true 1000
        ((0x55 ∷ 0x55 ∷ []) ++ (replicate 3 0x00 ++ frame version 0x2A 0x00))
        (initial_port, blank)).0 in
    (after.0.in_bytes ≡ [])
    × (contents after.0.out
        ≡ contents initial_port.out ++ sent_frame (respond false 1000 disk version blank).0)
    × (after.1 ≡ (respond false 1000 disk version blank).1)
write_command_example =
    write_command false disk true 1000 (0x55 ∷ 0x55 ∷ []) 3 version 0x2A 0x00 initial_port blank
      (λ e. omega arith, (λ e. omega arith, tt)) (omega arith) (omega arith)
      (unfold contents in omega arith) initial_IsSound refl refl

mifare-block_example :
    (block (mifare false 1000 disk (0xA0 ∷ 0x04 ∷ pattern_bytes) blank).1.image 5
      ≡ block blank.image 5)
    ⊎ (Touches false 1000 (0xA0 ∷ 0x04 ∷ pattern_bytes) blank 5
        × (block (mifare false 1000 disk (0xA0 ∷ 0x04 ∷ pattern_bytes) blank).1.image 5
            ≡ take 16 (drop 2 (0xA0 ∷ 0x04 ∷ pattern_bytes))))
mifare-block_example = mifare-block false 1000 disk (0xA0 ∷ 0x04 ∷ pattern_bytes) blank 5 refl

mifare_write_read_example :
    let (sector, unlocked) = mifare false 1000 disk (0x60 ∷ 4 ∷ replicate 10 0xFF) blank in
    let (wrote, changed) = mifare false 1000 disk (0xA0 ∷ 4 ∷ pattern_bytes) unlocked in
    let (found, _) = mifare false 1000 disk (0x30 ∷ 4 ∷ []) changed in
    (sector ≡ answer 0x00 [])
    × (wrote ≡ answer 0x00 [])
    × (found ≡ answer 0x00 pattern_bytes)
    × (changed.file ≡ take 1024 changed.image)
mifare_write_read_example =
    mifare_write_read false 1000 disk 4 (replicate 10 0xFF) pattern_bytes blank
      (unfold in_field in refl) refl (omega arith) (omega arith) refl

-- The machine once the game has opened COM4 and there was no file.
abbrev opened_machine : Machine
opened_machine = record {
  ready = true;
  port = record initial_port { handle = 64 };
  reader = load none none disk (initial_reader []);
}

open_step :
    MachineStep
      (record { ready = false; port = initial_port; reader = initial_reader [] })
      opened_machine
open_step =
    opened false unset none none disk 64 (some (codes "COM4")) true opened_machine.port
      opened_machine.reader (inl refl)
      (unfold open_port claims is_com com_number is_wanted skip_device in refl)

MachineReach-IsValid_example : IsValid (record {
  ready = true;
  port =
      (write false disk true 1000
        (frame version 0x2A 0x00)
        (opened_machine.port, opened_machine.reader)).0.0;
  reader =
      (write false disk true 1000
        (frame version 0x2A 0x00)
        (opened_machine.port, opened_machine.reader)).0.1;
})
MachineReach-IsValid_example =
    MachineReach-IsValid
      (next (next start open_step) (writes false disk true 1000 (frame version 0x2A 0x00) refl))

consume-frame_example :
    consume false 1000 disk
      ((0x55 ∷ []) ++ (replicate 1 0x00 ++ (frame version 0x2A 0x00 ++ (0x55 ∷ []))))
      (blank, Fifo.empty)
    ≡ consume false 1000 disk (0x55 ∷ []) (command false 1000 disk version (blank, Fifo.empty))
consume-frame_example =
    consume-frame false 1000 disk (0x55 ∷ []) 1 version 0x2A 0x00 (0x55 ∷ []) (blank, Fifo.empty)
      (λ e. omega arith, tt) (omega arith)

-- A read of ten bytes, of which none has come.
abbrev reading : Port
reading = record initial_port { read_pending = true; read_len = 10; read_deadline = 1100 }

take_out_refines_example :
    ((Fifo.take_out Fifo.empty 3).0 ≡ take 3 (contents Fifo.empty))
    × (contents (Fifo.take_out Fifo.empty 3).1 ≡ drop 3 (contents Fifo.empty))
    × Fifo.IsValid (Fifo.take_out Fifo.empty 3).1
take_out_refines_example = take_out_refines 3 {f = Fifo.empty} (omega arith)
