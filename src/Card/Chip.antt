-- ===== src/Card/Chip.antt =====
-- The PN53x: send_frame and command of src/runtime/card.c. dump_blowfish, which a command calls, only
-- writes a file from the game's memory when it is asked to by ES3_DUMP_BF, and is left out.
pub mod Wire
use systemes3recomp.Prelude.{
  ℕ, zero, suc, ◌+◌, ◌-◌, ◌/◌, ◌%◌, Bool, not, ltb, leb, ◌==◌, if◌then◌else◌, Option, none, Bytes,
  [], ◌∷◌, ◌++◌, length, get_or, drop, take, total, min,
}
use systemes3recomp.Fifo
use systemes3recomp.Fifo.{Fifo}
use systemes3recomp.Card.{Disk, Reader, in_field}
use systemes3recomp.Card.Mifare.{mifare}

-- The pushes of one loop.
unfoldable pub push_all : Fifo → Bytes → Fifo
push_all f [] = f
push_all f (b ∷ bs) = push_all (Fifo.push f b) bs

-- send_frame
unfoldable pub send_frame : Bytes → Fifo → Fifo
send_frame body f =
    let n = length body in
    let started = push_all f (0x00 ∷ 0x00 ∷ 0xFF ∷ (n % 256) ∷ ((0x100 - n) % 256) ∷ []) in
    push_all (push_all started body) (((0x100 - total body % 256) % 256) ∷ 0x00 ∷ [])

-- `pat[i % 4]` for `k` registers from register `i` on.
unfoldable pub registers : ℕ → ℕ → Bytes
registers zero i = []
registers (suc k) i = get_or (0x77 ∷ 0x1C ∷ 0x11 ∷ 0xF1 ∷ []) (i % 4) 0 ∷ registers k (i + 1)

-- `r[1] = 0x45` after mifare.
abbrev pub set_second : ℕ → Bytes → Bytes
set_second v [] = []
set_second v (b ∷ []) = b ∷ []
set_second v (b ∷ c ∷ cs) = b ∷ v ∷ cs

-- The answer to one command, of the `n` bytes `p`.
unfoldable pub respond : Bool → ℕ → Disk → Bytes → Reader → Bytes × Reader
respond always now opens p r =
    let n = length p in
    let cmd = if ltb 1 n then get_or p 1 0 else 0 in
    if cmd == 0x02
    then (0xD5 ∷ 0x03 ∷ 0x32 ∷ 0x01 ∷ 0x06 ∷ 0x07 ∷ [], r)
    else if cmd == 0x06
    then (0xD5 ∷ 0x07 ∷ registers (min ((n - 2) / 2) 62) 0, r)
    else if cmd == 0x08
    then (0xD5 ∷ 0x09 ∷ 0x00 ∷ [], r)
    else if cmd == 0x0C
    then (0xD5 ∷ 0x0D ∷ 0x3F ∷ 0x01 ∷ 0x03 ∷ [], r)
    else if cmd == 0x0E
    then (0xD5 ∷ 0x0F ∷ [], r)
    else if cmd == 0x12
    then (0xD5 ∷ 0x13 ∷ [], r)
    else if cmd == 0x14
    then (0xD5 ∷ 0x15 ∷ [], r)
    else if cmd == 0x18
    then (0xD5 ∷ 0x19 ∷ [], r)
    else if cmd == 0x32
    then (0xD5 ∷ 0x33 ∷ [], r)
    else if cmd == 0x4A
    then (if not (in_field always now r) then (0xD5 ∷ 0x4B ∷ 0x00 ∷ [], r) else (
      0xD5 ∷ 0x4B ∷ 0x01 ∷ 0x01 ∷ 0x00 ∷ 0x04 ∷ 0x08 ∷ 0x04 ∷ take 4 r.uid,
      record r { auth_sector = none },
    ))
    else if cmd == 0x40
    then mifare always now opens (if ltb 3 n then drop 3 p else []) r
    else if cmd == 0x44
    then (let (bs, r') = mifare always now opens (if ltb 2 n then drop 2 p else []) r in
        (set_second 0x45 bs, r'))
    else if cmd == 0x52
    then (0xD5 ∷ 0x53 ∷ 0x01 ∷ 0x00 ∷ [], record r { auth_sector = none })
    else (0x7F ∷ ((cmd + 1) % 256) ∷ [], r)

-- command: the answer is never empty, so it is always sent.
unfoldable pub command : Bool → ℕ → Disk → Bytes → Reader × Fifo → Reader × Fifo
command always now opens p (r, f) =
    let (bs, r') = respond always now opens p r in
    (r', if length bs == 0 then f else send_frame bs f)
