-- ===== src/Jvs/Frame.antt =====
-- A reply on the wire: out_byte and reply of src/runtime/jvs.c.
pub mod Wire
use systemes3recomp.Prelude.{
  ℕ, ◌+◌, ◌-◌, ◌%◌, ◌||◌, ◌==◌, ltb, if◌then◌else◌, Bytes, [], ◌∷◌, ◌++◌, length, total,
}
use systemes3recomp.Fifo
use systemes3recomp.Fifo.{Fifo}
use systemes3recomp.Jvs.{sync, escape, Port}

-- out_byte: every byte of a reply but the leading SYNC is escaped.
unfoldable pub out_byte : Fifo → ℕ → Fifo
out_byte f b =
    if b == sync || b == escape then Fifo.push (Fifo.push f escape) (b - 1) else Fifo.push f b

-- The loop of `reply` over the body, and the sum that it carries.
unfoldable pub out_bytes : Fifo → Bytes → Fifo
out_bytes f [] = f
out_bytes f (b ∷ bs) = out_bytes (out_byte f b) bs

-- `sum` starts as the length, and the destination adds 0.
unfoldable pub reply : Bytes → Port → Port
reply body p =
    let n = length body in
    if ltb 255 (n + 1)
    then p
    else let started = out_byte (out_byte (Fifo.push p.out sync) 0x00) (n + 1) in
      let sum = n + 1 + total body in
      record p { out = out_byte (out_bytes started body) (sum % 256) }
