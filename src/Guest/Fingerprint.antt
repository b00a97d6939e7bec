-- ===== src/Guest/Fingerprint.antt =====
-- The check that the file is the one the lifted code was made from: file_fingerprint and check_image
-- of src/runtime/guest.c.
use systemes3recomp.Prelude.{
  ℕ, ◌*◌, ◌%◌, ◌^◌, ◌<◌, ◌≡◌, ◌≢◌, Bool, true, false, ◌&&◌, ◌||◌, [], ◌∷◌, ◌++◌, length, All, Bytes,
  IsByte, ◌==◌, if◌then◌else◌, arith,
}
use Prim.Native.Nat.{bit_xor}
use systemes3recomp.Prelude.Xor.{bit_xor-eq_left, bit_xor-eq_right, bit_xor-lt}

abbrev pub u64 : ℕ
u64 = 2 ^ 64

-- One byte of the FNV-1a hash.
unfoldable pub hash_byte : ℕ → ℕ → ℕ
hash_byte h b = bit_xor h b * 0x100000001b3 % u64

-- The loop, from a hash.
unfoldable pub hash_bytes : ℕ → Bytes → ℕ
hash_bytes h [] = h
hash_bytes h (b ∷ bs) = hash_bytes (hash_byte h b) bs

unfoldable pub file_fingerprint : Bytes → ℕ
file_fingerprint img = hash_bytes 0xcbf29ce484222325 img

-- What the build was lifted from: ES3_IMAGE_HASH and ES3_IMAGE_SIZE.
pub record Lifted : Type 0 where
  pub hash : ℕ
  pub size : ℕ

-- check_image warns unless both agree.
unfoldable pub is_lifted : Lifted → Bytes → Bool
is_lifted l img = file_fingerprint img == l.hash && length img == l.size

-- The leaf of a path: what stands behind its last backslash or slash. `found` is the leaf so far.
unfoldable pub leaf_from : Bytes → Bytes → Bytes
leaf_from found [] = found
leaf_from found (c ∷ cs) = leaf_from (if c == 0x5c || c == b'/' then cs else found) cs

unfoldable pub leaf : Bytes → Bytes
leaf path = leaf_from path path

-- The prime is odd, so it can be undone.
times_prime :
    (x y : ℕ) → x < u64 → y < u64 → x * 0x100000001b3 % u64 ≡ y * 0x100000001b3 % u64 → x ≡ y
times_prime x y h k e = omega arith

hash_byte-lt : (h b : ℕ) → hash_byte h b < u64
unfolding hash_byte
hash_byte-lt h b = omega arith

hash_byte-eq_left :
    (h k b : ℕ) → h < u64 → k < u64 → b < 256 → hash_byte h b ≡ hash_byte k b → h ≡ k
unfolding hash_byte
hash_byte-eq_left h k b p q r e = bit_xor-eq_left h k b (
    times_prime (bit_xor h b) (bit_xor k b) (bit_xor-lt 64 h b p (omega arith))
      (bit_xor-lt 64 k b q (omega arith)) e)

hash_byte-eq_right :
    (h a b : ℕ) → h < u64 → a < 256 → b < 256 → hash_byte h a ≡ hash_byte h b → a ≡ b
unfolding hash_byte
hash_byte-eq_right h a b p q r e = bit_xor-eq_right h a b (
    times_prime (bit_xor h a) (bit_xor h b) (bit_xor-lt 64 h a p (omega arith))
      (bit_xor-lt 64 h b p (omega arith)) e)

-- From different hashes the same bytes lead to different hashes.
hash_bytes-eq :
    (bs : Bytes) (h k : ℕ)
    → All IsByte bs
    → h < u64
    → k < u64
    → hash_bytes h bs ≡ hash_bytes k bs
    → h ≡ k
unfolding hash_bytes
hash_bytes-eq [] h k a p q e = e
hash_bytes-eq (b ∷ bs) h k a p q e =
    hash_byte-eq_left h k b p q a.0
      (hash_bytes-eq bs (hash_byte h b) (hash_byte k b) a.1 (hash_byte-lt h b) (hash_byte-lt k b) e)

hash_bytes-changed :
    (pre post : Bytes) (h x y : ℕ)
    → h < u64
    → IsByte x
    → IsByte y
    → All IsByte post
    → hash_bytes h (pre ++ x ∷ post) ≡ hash_bytes h (pre ++ y ∷ post)
    → x ≡ y
unfolding hash_bytes
hash_bytes-changed [] post h x y p hx hy a e =
    hash_byte-eq_right h x y p hx hy
      (hash_bytes-eq post (hash_byte h x) (hash_byte h y) a (hash_byte-lt h x) (hash_byte-lt h y) e)
hash_bytes-changed (b ∷ pre) post h x y p hx hy a e =
    hash_bytes-changed pre post (hash_byte h b) x y (hash_byte-lt h b) hx hy a e

-- A file that differs from the lifted one in one byte is never taken for it.
pub is_lifted-changed :
    (l : Lifted) (pre post : Bytes) (x y : ℕ)
    → IsByte x
    → IsByte y
    → All IsByte post
    → x ≢ y
    → is_lifted l (pre ++ x ∷ post) ≡ true
    → is_lifted l (pre ++ y ∷ post) ≡ false
unfolding is_lifted file_fingerprint
is_lifted-changed l pre post x y hx hy a ne e =
    ground (arith, hash_bytes-changed pre post 0xcbf29ce484222325 x y)
