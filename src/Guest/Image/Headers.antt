-- ===== src/Guest/Image/Headers.antt =====
-- What guest_load takes of a file's header.
use systemes3recomp.Prelude.{
  ℕ, ◌+◌, ◌%◌, ◌^◌, ◌≤◌, ◌<◌, ◌≡◌, ◌≢◌, inl, inr, Bool-cases, Bool, true, false, none, some, length,
  get_or, Bytes, ltb, arith,
}
use systemes3recomp.Guest.Image.{
  u32, rd16le, rd32le, fault, has_signature, read_fields, read_machine, checked, read_header,
}

rd16le-inside : (img : Bytes) (p : ℕ) → p + 2 ≤ length img → rd16le img p ≢ none
unfolding rd16le
rd16le-inside img p h = ground arith

rd32le-inside : (img : Bytes) (p : ℕ) → p + 4 ≤ length img → rd32le img p ≢ none
unfolding rd32le
rd32le-inside img p h = ground arith

read_fields-inside : (img : Bytes) (pe : ℕ) → pe + 0x78 ≤ length img → read_fields img pe ≢ fault
unfolding read_fields
read_fields-inside img pe h = ground (
  arith,
  rd16le-inside img (pe + 6) (omega arith),
  rd16le-inside img (pe + 20) (omega arith),
  rd32le-inside img (pe + 24 + 28) (omega arith),
  rd32le-inside img (pe + 24 + 16) (omega arith),
  rd32le-inside img (pe + 24 + 56) (omega arith),
  rd32le-inside img (pe + 24 + 60) (omega arith),
)

read_machine-inside :
    (img : Bytes) (pe : ℕ) (b : Bool) → pe + 0x78 ≤ length img → read_machine img pe b ≢ fault
unfolding read_machine
read_machine-inside img pe true h =
    ground (arith, rd16le-inside img (pe + 4) (omega arith), read_fields-inside img pe h)
read_machine-inside img pe false h = λ e. cc

checked-inside :
    (img : Bytes) (pe : ℕ)
    → length img < u32
    → pe + 0x78 < u32
    → checked img pe (ltb (length img % u32) ((pe + 0x78) % u32)) ≢ fault
unfolding checked has_signature
checked-inside img pe l low = elim (Bool-cases (ltb (length img % u32) ((pe + 0x78) % u32))) [
  | inl long ↦ rw long (λ e. cc)
  | inr fits ↦ rw fits (
      ground (
        arith,
        read_machine-inside img pe true (ground arith),
        read_machine-inside img pe false (ground arith),
      ))
]

-- A file below 4 GiB whose header offset does not come within 0x78 of 2 ^ 32 is read without a
-- fault, whatever else it holds.
pub read_header-inside :
    (img : Bytes) (pe : ℕ)
    → length img < u32
    → rd32le img 0x3c ≡ some pe
    → pe + 0x78 < u32
    → read_header img ≢ fault
unfolding read_header
read_header-inside img pe l r low = ground (arith, checked-inside img pe l low)

-- An offset that close to 2 ^ 32 passes the test of the file's length, and the signature is looked
-- for outside the file.
pub read_header_wraps :
    (img : Bytes) (pe : ℕ)
    → 0x78 ≤ length img
    → length img < 2 ^ 31
    → get_or img 0 0 ≡ b'M'
    → get_or img 1 0 ≡ b'Z'
    → rd32le img 0x3c ≡ some pe
    → u32 ≤ pe + 0x78
    → pe < u32
    → read_header img ≡ fault
unfolding read_header checked has_signature
read_header_wraps img pe short l m z r lo hi = ground arith
