-- ===== src/Jvs/Receive.antt =====
-- Pulling packets out of what the game has written: consume_input of src/runtime/jvs.c.
--
-- `in` is the list of its `in_len` bytes, and `body[256]` the list of its `blen` bytes; behind
-- those stands what an earlier call left on the stack, `stale`.
pub mod Scanning
pub mod Rounds
pub mod Packets
pub mod Stuck
use systemes3recomp.Prelude.{
  ℕ, zero, suc, Bool, ◌+◌, ◌-◌, ◌%◌, true, false, ◌&&◌, ◌||◌, not, ◌==◌, ltb, leb, if◌then◌else◌,
  Bytes, [], ◌∷◌, ◌++◌, length, get_or, take, total,
}
use systemes3recomp.Jvs.{Port, Switches, sync, escape}
use systemes3recomp.Jvs.Frame.{reply}
use systemes3recomp.Jvs.Command.{Outcome, answered, unanswered, undefined, handle_packet, body_size}

-- The bytes from the first SYNC on.
unfoldable pub find_sync : Bytes → Bytes
find_sync [] = []
find_sync (b ∷ bs) = if b == sync then b ∷ bs else find_sync bs

-- `in + 1`.
abbrev pub after_sync : Bytes → Bytes
after_sync [] = []
after_sync (b ∷ bs) = bs

-- How the un-escaping loop ends: inside an escape, by its bounds with the body and the size found
-- so far, or with a whole packet and the input that follows it.
pub data Scan : Type 0 where
  cut : Scan
  ended : Bytes → ℕ → Scan
  whole : Bytes → ℕ → Bytes → Scan

-- `size` once `body` has grown: it is the second byte.
unfoldable pub size_of : Bytes → ℕ → ℕ
size_of body size = if length body == 2 then get_or body 1 0 else size

unfoldable pub is_whole : Bytes → ℕ → Bool
is_whole body size = leb 2 (length body) && not (size == 0) && length body == size + 2

-- The loop over k, on the input from `in[k]` on.
unfoldable pub scan : Bytes → Bytes → ℕ → Scan
scan [] body size = ended body size
scan (b ∷ []) body size =
    if leb body_size (length body)
    then ended body size
    else if b == escape
    then cut
    else (let grown = body ++ (b ∷ []) in
        let size' = size_of grown size in
        if is_whole grown size' then whole grown size' [] else ended grown size')
scan (b ∷ c ∷ cs) body size = elim (leb body_size (length body)) [
  | true ↦ ended body size
  | false ↦ elim (b == escape) [
    | true ↦
        let grown = body ++ (((c + 1) % 256) ∷ []) in
        let size' = size_of grown size in
        let rest = scan cs grown size' in
        if is_whole grown size' then whole grown size' cs else rest
    | false ↦
        let grown = body ++ (b ∷ []) in
        let size' = size_of grown size in
        let rest = scan (c ∷ cs) grown size' in
        if is_whole grown size' then whole grown size' (c ∷ cs) else rest
  ]
]

-- One packet: the sum is checked before anything else is looked at. A packet with a wrong sum is
-- answered with status 3, whatever its destination.
unfoldable pub packet : (ℕ → ℕ) → Switches → Bytes → ℕ → Port → Outcome
packet stale s body size p =
    if total (take (size + 1) body) % 256 == get_or body (size + 1) (stale (size + 1))
    then handle_packet s (get_or body 0 (stale 0)) (λ i. get_or body (i + 2) (stale (i + 2)))
        (size - 1) p
    else answered (0x03 ∷ []) (reply (0x03 ∷ []) p)

-- How consume_input ends. `faulted` is undefined behaviour, and `starved` fuel that runs out, which the code has no counterpart of.
pub data Consumed : Type 0 where
  consumed : Port → Consumed
  faulted : Consumed
  starved : Consumed

-- The rounds of `for (;;)`.
unfoldable pub consume : (ℕ → ℕ) → Switches → ℕ → Port → Consumed
consume stale s zero p = starved
consume stale s (suc fuel) p =
    let found = find_sync p.in_bytes in
    let q = record p { in_bytes = found } in
    elim (ltb (length found) 3) [
      | true ↦ consumed q
      | false ↦ elim (scan (after_sync found) [] 0) [
        | cut ↦ consumed q
        | ended body size ↦
            if size == 0 || ltb (length body) (size + 2) then consumed q else faulted
        | whole body size rest ↦ elim (packet stale s body size q) [
          | answered _ r ↦ consume stale s fuel (record r { in_bytes = rest })
          | unanswered r ↦ consume stale s fuel (record r { in_bytes = rest })
          | undefined ↦ faulted
        ]
      ]
    ]

-- Every packet takes a byte at least.
unfoldable pub consume_input : (ℕ → ℕ) → Switches → Port → Consumed
consume_input stale s p = consume stale s (suc (length p.in_bytes)) p
