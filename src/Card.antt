-- ===== src/Card.antt =====
-- The IC card reader: src/runtime/card.c, an NXP PN53x with a MIFARE Classic 1K card on a serial
-- port. This file is the card and the reader's state; the children are its parts.
pub mod Image
pub mod Mifare
pub mod Chip
pub mod Receive
pub mod Line
pub mod Kept
mod Tests
use systemes3recomp.Prelude.{
  take, ℕ, ◌+◌, ◌/◌, ◌%◌, ◌^◌, Bool, false, ◌&&◌, ◌||◌, ltb, if◌then◌else◌, Option, none, Bytes, [],
  ◌∷◌, replicate,
}
use systemes3recomp.Fifo
use systemes3recomp.Fifo.{Fifo}

abbrev pub card_bytes : ℕ
card_bytes = 1024

abbrev pub block_bytes : ℕ
block_bytes = 16

abbrev pub blocks : ℕ
blocks = card_bytes / block_bytes

abbrev pub namco_key_a : Bytes
namco_key_a = 0x60 ∷ 0x90 ∷ 0xD0 ∷ 0x06 ∷ 0x32 ∷ 0xF5 ∷ []

abbrev pub dwell_ms : ℕ
dwell_ms = 2000

-- The statics of the card and of the PN53x: g_card, g_uid, g_card_dirty, g_n_reads, g_n_writes,
-- g_present_until and g_auth_sector, whose -1 is `none`; and `file`, the card image on disk.
pub record Reader : Type 0 where
  pub image : Bytes
  pub uid : Bytes
  pub dirty : Bool
  pub n_reads : ℕ
  pub n_writes : ℕ
  pub present_until : ℕ
  pub auth_sector : Option ℕ
  pub file : Bytes

-- card_in_field: `always` is card_always(), and `now` is GetTickCount64.
unfoldable pub in_field : Bool → ℕ → Reader → Bool
in_field always now r = always || ltb now r.present_until

-- es3_card_tap
unfoldable pub tap : ℕ → Reader → Reader
tap now r = record r { present_until = (now + dwell_ms) % 2 ^ 64 }

-- What becomes of the file when it is written: fopen does not give it, or empties it, and that many bytes
-- of the card reach it before fwrite or fclose fails.
pub data Disk : Type 0 where
  refused : Disk
  written_to : ℕ → Disk

-- card_save, which looks at fopen only.
unfoldable pub save : Disk → Reader → Reader
save refused r = r
save (written_to n) r = if r.dirty then record r { file = take n r.image; dirty = false } else r

-- What es3_card_state copies out: the UID, whether the card is present, the counters and the image.
unfoldable pub card_state : Bool → ℕ → Reader → Bytes × Bool × ℕ × ℕ × Bytes
card_state always now r = (r.uid, in_field always now r, r.n_reads, r.n_writes, r.image)

-- CardPort, with `in` and `in_len` as one list, and 0 for NULL.
pub record Port : Type 0 where
  pub handle : ℕ
  pub out : Fifo
  pub in_bytes : Bytes
  pub read_pending : Bool
  pub read_buf : ℕ
  pub read_len : ℕ
  pub read_ovl : ℕ
  pub read_routine : ℕ
  pub read_thread : ℕ
  pub read_deadline : ℕ

abbrev pub initial_reader : Bytes → Reader
initial_reader file = record {
  image = replicate card_bytes 0;
  uid = 0x3E ∷ 0x86 ∷ 0xD0 ∷ 0x2D ∷ [];
  dirty = false;
  n_reads = 0;
  n_writes = 0;
  present_until = 0;
  auth_sector = none;
  file = file;
}

abbrev pub initial_port : Port
initial_port = record {
  handle = 0;
  out = Fifo.empty;
  in_bytes = [];
  read_pending = false;
  read_buf = 0;
  read_len = 0;
  read_ovl = 0;
  read_routine = 0;
  read_thread = 0;
  read_deadline = 0;
}
