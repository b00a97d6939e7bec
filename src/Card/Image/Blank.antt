-- ===== src/Card/Image/Blank.antt =====
-- The blank card, and which card a run starts with.
use Prim.Native.Nat.{bit_xor}
use systemes3recomp.Prelude.{
  ℕ, zero, suc, ◌≤◌, ◌<◌, ◌==◌, ◌≡◌, refl, true, false, Option, none, some, Bytes, [], ◌∷◌, ◌++◌,
  length, length-take, take, take-take, drop, ◌⊎◌, inl, inr, replicate, arith,
}
use systemes3recomp.Card.{Disk, Reader, card_bytes, save}
use systemes3recomp.Card.Image.{
  write_at, write_trailers, trailer, format_image, format, parse_uid, load,
}

-- `n` sectors of three empty blocks and a trailer.
abbrev pub sectors : ℕ → Bytes
sectors zero = []
sectors (suc n) = replicate 48 0x00 ++ (trailer ++ sectors n)

-- The manufacturer's block: the UID, its check byte, and what kind of card it is.
abbrev pub block_zero : ℕ → ℕ → ℕ → ℕ → Bytes
block_zero a b c d =
    (a ∷ b ∷ c ∷ d ∷ bit_xor (bit_xor (bit_xor a b) c) d ∷ 0x08 ∷ 0x04 ∷ []) ++ replicate 9 0x00

-- card_format lays the card out as a MIFARE Classic 1K is laid out: block 0, two empty blocks and a
-- trailer, then fifteen sectors of three empty blocks and a trailer.
pub format_image_lem :
    (a b c d : ℕ)
    → format_image (a ∷ b ∷ c ∷ d ∷ [])
      ≡ block_zero a b c d ++ (replicate 32 0x00 ++ (trailer ++ sectors 15))
unfolding format_image write_trailers write_at
format_image_lem a b c d = refl

parse_uid-keeps_length : (uid hex : Bytes) → length (parse_uid uid hex) ≡ length uid
unfolding parse_uid
parse_uid-keeps_length [] hex = refl
parse_uid-keeps_length (b ∷ uid) hex = ground (arith, parse_uid-keeps_length uid (drop 2 hex))

-- The UID of the next blank card.
abbrev pub blank_uid : Option Bytes → Reader → Bytes
blank_uid none r = r.uid
blank_uid (some h) r = parse_uid r.uid h

pub blank_uid-length : (hex : Option Bytes) (r : Reader) → length (blank_uid hex r) ≡ length r.uid
blank_uid-length none r = refl
blank_uid-length (some h) r = parse_uid-keeps_length r.uid h

-- A file with a whole card is that card: its UID is the one the reader reports, whatever
-- ES3_CARD_UID says, and the file stays as it is.
pub load_whole :
    (hex : Option Bytes) (bytes : Bytes) (opens : Disk) (r : Reader)
    → card_bytes ≤ length bytes
    → load hex (some bytes) opens r ≡ record r { image = take card_bytes bytes; uid = take 4 bytes }
unfolding load
load_whole hex bytes opens r h =
    let full : (length (take card_bytes bytes) == card_bytes) ≡ true =
      ground (arith, length-take card_bytes bytes) in
    let uid : take 4 (take card_bytes bytes) ≡ take 4 bytes =
      take-take bytes 4 card_bytes (omega arith) in
    rw (full, uid) refl

not_whole :
    (bytes : Bytes)
    → length bytes < card_bytes
    → (length (take card_bytes bytes) == card_bytes) ≡ false
not_whole bytes h = ground (arith, length-take card_bytes bytes)

-- The card in use after a start without a whole card in the file.
abbrev pub fresh : Option Bytes → Disk → Reader → Reader
fresh hex opens r =
    save opens
      (record r { uid = blank_uid hex r; image = format_image (blank_uid hex r); dirty = true })

-- Without such a file, a blank card with that UID takes its place, and is saved if the file can be
-- written; else it stays marked as not saved.
pub load_blank :
    (hex found : Option Bytes) (opens : Disk) (r : Reader)
    → (found ≡ none) ⊎ ((bytes : Bytes) × (found ≡ some bytes) × (length bytes < card_bytes))
    → load hex found opens r ≡ fresh hex opens r
unfolding load format
load_blank none found opens r (inl e) = rw e refl
load_blank (some h) found opens r (inl e) = rw e refl
load_blank none found opens r (inr (bytes, e, few)) = rw (e, not_whole bytes few) refl
load_blank (some h) found opens r (inr (bytes, e, few)) = rw (e, not_whole bytes few) refl
