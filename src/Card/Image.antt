-- ===== src/Card/Image.antt =====
-- The card image: hexnib, card_format and card_load of src/runtime/card.c.
pub mod Blank
pub mod Writing
use Prim.Native.Nat.{bit_xor}
use systemes3recomp.Prelude.{
  ℕ, zero, suc, ◌+◌, ◌-◌, ◌*◌, Bool, true, ◌&&◌, leb, ◌==◌, if◌then◌else◌, Option, none, some,
  Bytes, [], ◌∷◌, ◌++◌, length, get_or, take, drop, replicate,
}
use systemes3recomp.Jvs.{codes}
use systemes3recomp.Card.{Disk, Reader, card_bytes, block_bytes, namco_key_a, save}

-- hexnib: -1 is `none`.
unfoldable pub hexnib : ℕ → Option ℕ
hexnib c =
    if leb b'0' c && leb c b'9'
    then some (c - b'0')
    else if leb b'a' c && leb c b'f'
    then some (c - b'a' + 10)
    else if leb b'A' c && leb c b'F'
    then some (c - b'A' + 10)
    else none

-- memcpy to offset `i`.
unfoldable pub write_at : ℕ → Bytes → Bytes → Bytes
write_at i xs bs = take i bs ++ (xs ++ drop (i + length xs) bs)

abbrev pub uid_check : Bytes → ℕ
uid_check uid =
    bit_xor (bit_xor (bit_xor (get_or uid 0 0) (get_or uid 1 0)) (get_or uid 2 0)) (get_or uid 3 0)

-- What is written into each sector trailer: key A, the access bits and key B.
abbrev pub trailer : Bytes
trailer = namco_key_a ++ (0xFF ∷ 0x07 ∷ 0x80 ∷ 0x69 ∷ replicate 6 0xFF)

-- The loop over the sectors, `k` of them from sector `s` on.
unfoldable pub write_trailers : ℕ → ℕ → Bytes → Bytes
write_trailers zero s image = image
write_trailers (suc k) s image =
    write_trailers k (s + 1) (write_at ((s * 4 + 3) * block_bytes) trailer image)

-- The image that card_format leaves in g_card.
unfoldable pub format_image : Bytes → Bytes
format_image uid =
    let zeroed = write_at 0 (take 4 uid) (replicate card_bytes 0) in
    let head = write_at 4 (uid_check uid ∷ 0x08 ∷ 0x04 ∷ 0x00 ∷ []) zeroed in
    write_trailers 16 0 head

-- card_format
unfoldable pub format : Reader → Reader
format r = record r { image = format_image r.uid }

-- The four bytes of ES3_CARD_UID over those of `uid`, up to the first that is not two hex digits.
-- A text shorter than that ends in a nul, which is no digit.
unfoldable pub parse_uid : Bytes → Bytes → Bytes
parse_uid [] hex = []
parse_uid (b ∷ uid) hex = elim (hexnib (get_or hex 0 0)) [
  | none ↦ b ∷ uid
  | some hi ↦ elim (hexnib (get_or hex 1 0)) [
    | none ↦ b ∷ uid
    | some lo ↦ (hi * 16 + lo) ∷ parse_uid uid (drop 2 hex)
  ]
]

-- g_card_path: MAX_PATH is 260.
unfoldable pub card_path : Option Bytes → Bytes
card_path none = codes "es3_card.bin"
card_path (some []) = codes "es3_card.bin"
card_path (some (c ∷ cs)) = take 259 (c ∷ cs)

-- card_load: `hex` is ES3_CARD_UID, `found` what fopen and fread find of the file, and `opens` what
-- becomes of it when it is written.
unfoldable pub load : Option Bytes → Option Bytes → Disk → Reader → Reader
load hex found opens r =
    let named = record r { uid = elim hex [ none ↦ r.uid | some h ↦ parse_uid r.uid h ] } in
    let blank = save opens (record (format named) { dirty = true }) in
    elim found [
      | none ↦ blank
      | some bytes ↦
          if length (take card_bytes bytes) == card_bytes
          then record named { image = take card_bytes bytes; uid = take 4 (take card_bytes bytes) }
          else blank
    ]
