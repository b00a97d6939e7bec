-- ===== src/Card/Mifare.antt =====
-- The card's own commands: mifare of src/runtime/card.c.
pub mod Laws
use systemes3recomp.Prelude.{
  ℕ, ◌+◌, ◌*◌, ◌/◌, Bool, true, false, not, ◌||◌, ltb, leb, ◌==◌, if◌then◌else◌, Option, none, some,
  Bytes, [], ◌∷◌, ◌++◌, length, get_or, take, drop,
}
use systemes3recomp.Card.{Disk, Reader, block_bytes, blocks, in_field, save}
use systemes3recomp.Card.Image.{write_at}

-- `g_auth_sector == s`
abbrev pub is_sector : Option ℕ → ℕ → Bool
is_sector none s = false
is_sector (some t) s = t == s

-- The answer with a status byte and some data.
abbrev pub answer : ℕ → Bytes → Bytes
answer status bs = 0xD5 ∷ 0x41 ∷ status ∷ bs

-- The block at `blk`, and g_card with that block replaced.
unfoldable pub block : Bytes → ℕ → Bytes
block image blk = take block_bytes (drop (blk * block_bytes) image)

-- `p` holds the `n` bytes of the command; `r` and `rn` are the list that it returns.
unfoldable pub mifare : Bool → ℕ → Disk → Bytes → Reader → Bytes × Reader
mifare always now opens p r =
    let n = length p in
    let cmd = if ltb 0 n then get_or p 0 0 else 0 in
    let blk = if ltb 1 n then get_or p 1 0 else 0 in
    if not (in_field always now r)
    then (answer 0x01 [], r)
    else if cmd == 0x60 || cmd == 0x61
    then (if leb 16 (blk / 4)
        then (answer 0x14 [], r)
        else (answer 0x00 [], record r { auth_sector = some (blk / 4) }))
    else if cmd == 0x30
    then (if leb blocks blk || not (is_sector r.auth_sector (blk / 4))
        then (answer 0x14 [], r)
        else (answer 0x00 (block r.image blk), record r { n_reads = r.n_reads + 1 }))
    else if cmd == 0xA0
    then (if leb blocks blk || ltb n (2 + block_bytes) || not (is_sector r.auth_sector (blk / 4))
        then (answer 0x14 [], r)
        else if blk == 0
        then (answer 0x00 [], r)
        else (
          answer 0x00 [],
          save opens (record r {
            image = write_at (blk * block_bytes) (take block_bytes (drop 2 p)) r.image;
            dirty = true;
            n_writes = r.n_writes + 1;
          }),
        ))
    else (answer 0x14 [], r)
