-- ===== src/Card/Mifare/Laws.antt =====
-- What the card's commands may change.
use systemes3recomp.Prelude.{
  ℕ, ◌+◌, ◌*◌, ◌/◌, ◌≤◌, ◌<◌, ◌≡◌, ◌≢◌, refl, ap, ◌∙◌, Bool, true, ◌⊎◌, inl, inr, some, Option,
  none, Bytes, [], ◌∷◌, length, get_or, length-take, length-drop, take, take_all, drop, arith,
}
use native.Mathlib.Decide.{dec_lt}
use systemes3recomp.Card.{Disk, refused, written_to, Reader, card_bytes, in_field, save}
use systemes3recomp.Card.Image.{write_at}
use systemes3recomp.Card.Image.Writing.{read-write_at, read-write_at_before, read-write_at_behind}
use systemes3recomp.Card.Mifare.{answer, is_sector, block, mifare}

-- A write command that the card obeys.
pub record IsWrite (always : Bool) (now : ℕ) (p : Bytes) (r : Reader) : Type 0 where
  pub present : in_field always now r ≡ true
  pub is_write : get_or p 0 0 ≡ 0xA0
  pub whole : 18 ≤ length p
  pub above_zero : 0 < get_or p 1 0
  pub below_end : get_or p 1 0 < 64
  pub unlocked : r.auth_sector ≡ some (get_or p 1 0 / 4)

-- The reader after that write.
abbrev pub written : Disk → Bytes → Reader → Reader
written opens p r = save opens (record r {
  image = write_at (get_or p 1 0 * 16) (take 16 (drop 2 p)) r.image;
  dirty = true;
  n_writes = r.n_writes + 1;
})

sector_iff : (o : Option ℕ) (s : ℕ) → is_sector o s ≡ true → o ≡ some s
sector_iff none s h = ground arith
sector_iff (some t) s h = ap some (ground arith)

module _ (always : Bool) (now : ℕ) (opens : Disk) where
  pub mifare_write :
      (p : Bytes) (r : Reader)
      → IsWrite always now p r
      → mifare always now opens p r ≡ (answer 0x00 [], written opens p r)
  unfolding mifare
  mifare_write p r w = ground arith

  -- Whatever the command is, it is such a write, or it leaves the card, its file and its UID alone.
  pub mifare-cases :
      (p : Bytes) (r : Reader)
      → IsWrite always now p r
        ⊎ (((mifare always now opens p r).1.image ≡ r.image)
            × ((mifare always now opens p r).1.uid ≡ r.uid)
            × ((mifare always now opens p r).1.dirty ≡ r.dirty)
            × ((mifare always now opens p r).1.file ≡ r.file))
  unfolding mifare
  mifare-cases p r = ground (arith, sector_iff r.auth_sector (get_or p 1 0 / 4))

save-image : (opens : Disk) (r : Reader) → (save opens r).image ≡ r.image
unfolding save
save-image refused r = refl
save-image (written_to n) r = ground arith

-- What the file holds behind a write of an image.
abbrev pub file_after : Disk → Bytes → Bytes → Bytes
file_after refused image file = file
file_after (written_to n) image file = take n image

save_file :
    (opens : Disk) (r : Reader)
    → r.dirty ≡ true
    → (save opens r).file ≡ file_after opens (save opens r).image r.file
unfolding save
save_file refused r d = refl
save_file (written_to n) r d = ground arith

-- What card_save leaves alone.
save_lem :
    (opens : Disk) (always : Bool) (now : ℕ) (r : Reader)
    → (in_field always now (save opens r) ≡ in_field always now r)
      × ((save opens r).auth_sector ≡ r.auth_sector)
unfolding save in_field
save_lem refused always now r = (refl, refl)
save_lem (written_to n) always now r = ground arith

in_field-unlocked :
    (always : Bool) (now : ℕ) (o : Option ℕ) (r : Reader)
    → in_field always now (record r { auth_sector = o }) ≡ in_field always now r
unfolding in_field
in_field-unlocked always now o r = refl

in_field-written :
    (opens : Disk) (always : Bool) (now : ℕ) (p : Bytes) (r : Reader)
    → in_field always now (written opens p r) ≡ in_field always now r
unfolding in_field save
in_field-written refused always now p r = refl
in_field-written (written_to n) always now p r = ground arith

-- One block replaced: it holds the bytes written, and every other block is as before.
block-write_at :
    (k j : ℕ) (bs image : Bytes)
    → length image ≡ card_bytes
    → length bs ≡ 16
    → k < 64
    → ((j ≡ k) × (block (write_at (k * 16) bs image) j ≡ bs))
      ⊎ ((j ≢ k) × (block (write_at (k * 16) bs image) j ≡ block image j))
unfolding block
block-write_at k j bs image full h l = elim (dec_lt j k) [
  | yes front ↦
      inr (
        omega arith,
        read-write_at_before (k * 16) (j * 16) 16 bs image (omega arith) (omega arith),
      )
  | no above ↦ elim (dec_lt k j) [
    | yes behind ↦ inr (
      omega arith,
      read-write_at_behind (k * 16) (j * 16) 16 bs image (omega arith) (omega arith),
    )
    | no below ↦
        let e : j ≡ k = omega arith in
        inl (
          e,
          ap (λ i. take 16 (drop (i * 16) (write_at (k * 16) bs image))) e
              ∙ read-write_at (k * 16) 16 bs image h (omega arith),
        )
  ]
]

found-write_at :
    (k : ℕ) (bs image : Bytes)
    → length image ≡ card_bytes
    → length bs ≡ 16
    → k < 64
    → block (write_at (k * 16) (take 16 bs) image) k ≡ bs
found-write_at k bs image full h l =
    let e = take_all bs 16 (omega arith) in
    elim (block-write_at k k bs image full h l) [
      | inl (_, found) ↦ rw e found
      | inr (ne, _) ↦ absurd (ne refl)
    ]

-- The bytes of a write command.
pub length-payload : (p : Bytes) → 18 ≤ length p → length (take 16 (drop 2 p)) ≡ 16
length-payload p h = omega (arith, length-take 16 (drop 2 p), length-drop 2 p)

-- `j` is the block that the command writes, if it is a write that the card obeys.
abbrev pub Touches : Bool → ℕ → Bytes → Reader → ℕ → Type 0
Touches always now p r j = IsWrite always now p r × (j ≡ get_or p 1 0)

module _ (always : Bool) (now : ℕ) (opens : Disk) where
  -- No command changes a block of the card unless it is a whole write command for just that block,
  -- other than block 0, while the card is on the reader and its sector has been authenticated. Then
  -- the block holds the sixteen bytes of the command.
  pub mifare-block :
      (p : Bytes) (r : Reader) (j : ℕ)
      → length r.image ≡ card_bytes
      → (block (mifare always now opens p r).1.image j ≡ block r.image j)
        ⊎ (Touches always now p r j
            × (block (mifare always now opens p r).1.image j ≡ take 16 (drop 2 p)))
  mifare-block p r j full = elim (mifare-cases always now opens p r) [
    | inr same ↦ inl (ap (λ image. block image j) same.0)
    | inl w ↦
        let e = ap (λ m. m.1.image) (mifare_write always now opens p r w) ∙ save-image opens _ in
        elim (block-write_at (get_or p 1 0) j (take 16 (drop 2 p)) r.image full
          (length-payload p w.whole) w.below_end) [
            | inl (hit, found) ↦ inr ((w, hit), ap (λ image. block image j) e ∙ found)
            | inr (_, kept) ↦ inl (ap (λ image. block image j) e ∙ kept)
          ]
  ]

  mifare_read :
      (blk : ℕ) (r : Reader)
      → in_field always now r ≡ true
      → blk < 64
      → r.auth_sector ≡ some (blk / 4)
      → mifare always now opens (0x30 ∷ blk ∷ []) r
        ≡ (answer 0x00 (block r.image blk), record r { n_reads = r.n_reads + 1 })
  unfolding mifare
  mifare_read blk r h l a = ground arith

  mifare_auth :
      (blk : ℕ) (r : Reader) (key : Bytes)
      → in_field always now r ≡ true
      → blk < 64
      → mifare always now opens (0x60 ∷ blk ∷ key) r
        ≡ (answer 0x00 [], record r { auth_sector = some (blk / 4) })
  unfolding mifare
  mifare_auth blk r key h l = ground arith

  -- Authenticate a sector, write a block of it, read it back: the three commands answer success, and
  -- the last one the bytes that were written. The file is as before if it cannot be opened, and else
  -- holds as many bytes of the changed card as reach it. The card is present, and the block is one of
  -- the 63 behind block 0.
  pub mifare_write_read :
      (blk : ℕ) (key bs : Bytes) (r : Reader)
      → in_field always now r ≡ true
      → length r.image ≡ card_bytes
      → 0 < blk
      → blk < 64
      → length bs ≡ 16
      → let (sector, unlocked) = mifare always now opens (0x60 ∷ blk ∷ key) r in
        let (wrote, changed) = mifare always now opens (0xA0 ∷ blk ∷ bs) unlocked in
        let (found, _) = mifare always now opens (0x30 ∷ blk ∷ []) changed in
        (sector ≡ answer 0x00 [])
        × (wrote ≡ answer 0x00 [])
        × (found ≡ answer 0x00 bs)
        × (changed.file ≡ file_after opens changed.image r.file)
  mifare_write_read blk key bs r present full low high n =
      let u : Reader = record r { auth_sector = some (blk / 4) } in
      let here = in_field-unlocked always now (some (blk / 4)) r ∙ present in
      let w : IsWrite always now (0xA0 ∷ blk ∷ bs) u = record {
        present = here;
        is_write = refl;
        whole = omega arith;
        above_zero = low;
        below_end = high;
        unlocked = refl;
      } in
      let after : Reader = written opens (0xA0 ∷ blk ∷ bs) u in
      let saved = save_lem opens always now _ in
      let still : in_field always now after ≡ true =
        in_field-written opens always now (0xA0 ∷ blk ∷ bs) u ∙ here in
      rw
        (
          mifare_auth blk r key present high,
          mifare_write always now opens (0xA0 ∷ blk ∷ bs) u w,
          mifare_read blk after still high saved.1,
        )
        (
          refl,
          refl,
          ap (answer 0x00) (
              ap (λ image. block image blk) (save-image opens _)
              ∙ found-write_at blk bs r.image full n high),
          save_file opens _ refl,
        )
