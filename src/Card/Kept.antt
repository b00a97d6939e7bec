-- ===== src/Card/Kept.antt =====
-- What every command keeps of the card.
use systemes3recomp.Prelude.{
  zero, suc, ap₂, ℕ, ◌≡◌, refl, sym, ap, ◌∙◌, Bool, true, false, inl, inr, Option, none, some,
  Bytes, [], length, length-take, take, take-take, take_all, ◌∷◌, drop, get_or, ◌*◌, ◌⊎◌, ltb,
  if◌then◌else◌, arith,
}
use systemes3recomp.Fifo.{Fifo}
use systemes3recomp.Card.{Disk, refused, written_to, Reader, card_bytes, save}
use systemes3recomp.Card.Image.{load, format_image}
use systemes3recomp.Card.Image.Blank.{
  fresh, blank_uid, blank_uid-length, load_blank, load_whole, format_image_lem,
}
use native.Mathlib.Decide.{dec_lt}
use systemes3recomp.Card.Image.Writing.{length-write_at, read-write_at_before}
use systemes3recomp.Card.Mifare.{mifare}
use systemes3recomp.Card.Mifare.Laws.{IsWrite, written, mifare-cases, mifare_write, length-payload}
use systemes3recomp.Card.Chip.{respond, command}

-- The card is whole, the UID that the reader reports is the card's, and where the card is not dirty the
-- file is the card as far as the file reaches, all of it unless a write came out short.
pub record IsValid (r : Reader) : Type 0 where
  pub whole : length r.image ≡ card_bytes
  pub uid_kept : take 4 r.image ≡ r.uid
  pub saved : r.dirty ≡ false → take card_bytes r.file ≡ take (length r.file) r.image

take-length-take : (n : ℕ) (xs : Bytes) → take (length (take n xs)) xs ≡ take n xs
take-length-take zero xs = refl
take-length-take (suc n) [] = refl
take-length-take (suc n) (x ∷ xs) = ap (λ ys. x ∷ ys) (take-length-take n xs)

-- What has reached the file is a front of the card.
front_saved :
    (n : ℕ) (image : Bytes)
    → length image ≡ card_bytes
    → take card_bytes (take n image) ≡ take (length (take n image)) image
front_saved n image full =
    take_all (take n image) card_bytes (omega (arith, length-take n image))
    ∙ sym (take-length-take n image)

-- A dirty card after card_save, however the write comes out.
save-IsValid :
    (opens : Disk) (r : Reader)
    → length r.image ≡ card_bytes
    → take 4 r.image ≡ r.uid
    → r.dirty ≡ true
    → IsValid (save opens r)
unfolding save
save-IsValid (written_to n) r full kept d =
    rw d (record { whole = full; uid_kept = kept; saved = λ e. front_saved n r.image full })
save-IsValid refused r full kept d = record { whole = full; uid_kept = kept; saved = λ e. cc }

written-IsValid :
    (always : Bool) (now : ℕ) (opens : Disk) (p : Bytes) (r : Reader)
    → IsWrite always now p r
    → IsValid r
    → IsValid (written opens p r)
written-IsValid always now opens p r w v =
    let at : ℕ = get_or p 1 0 * 16 in
    let bs = take 16 (drop 2 p) in
    let full = length-payload p w.whole in
    let low = w.above_zero in
    let high = w.below_end in
    let size = v.whole in
    save-IsValid opens _ (length-write_at at bs r.image (omega arith) ∙ v.whole)
      (read-write_at_before at 0 4 bs r.image (omega arith) (omega arith) ∙ v.uid_kept) refl

pub mifare-IsValid :
    (always : Bool) (now : ℕ) (opens : Disk) (p : Bytes) (r : Reader)
    → IsValid r
    → IsValid (mifare always now opens p r).1
mifare-IsValid always now opens p r v = elim (mifare-cases always now opens p r) [
  | inl w ↦ rw (mifare_write always now opens p r w) (written-IsValid always now opens p r w v)
  | inr same ↦ record {
    whole = ap length same.0 ∙ v.whole;
    uid_kept = ap (take 4) same.0 ∙ v.uid_kept ∙ sym same.1;
    saved = λ e.
        ap (take card_bytes) same.3
        ∙ v.saved (sym same.2 ∙ e)
        ∙ ap₂ (λ (f : Bytes) (i : Bytes). take (length f) i) (sym same.3) (sym same.0);
  }
]

-- The card's command in an InDataExchange, and in an InCommunicateThru.
abbrev exchanged : Bytes → Bytes
exchanged p = if ltb 3 (length p) then drop 3 p else []

abbrev through : Bytes → Bytes
through p = if ltb 2 (length p) then drop 2 p else []

-- A command of the chip is one of the card's, forgets the sector, or changes nothing.
respond-cases :
    (always : Bool) (now : ℕ) (opens : Disk) (p : Bytes) (r : Reader)
    → ((respond always now opens p r).1 ≡ (mifare always now opens (exchanged p) r).1)
      ⊎ ((respond always now opens p r).1 ≡ (mifare always now opens (through p) r).1)
      ⊎ ((respond always now opens p r).1 ≡ record r { auth_sector = none })
      ⊎ ((respond always now opens p r).1 ≡ r)
unfolding respond
respond-cases always now opens p r = ground arith

respond-IsValid :
    (always : Bool) (now : ℕ) (opens : Disk) (p : Bytes) (r : Reader)
    → IsValid r
    → IsValid (respond always now opens p r).1
respond-IsValid always now opens p r v = elim (respond-cases always now opens p r) [
  | inl e ↦ rw e (mifare-IsValid always now opens (exchanged p) r v)
  | inr (inl e) ↦ rw e (mifare-IsValid always now opens (through p) r v)
  | inr (inr (inl e)) ↦ rw e (record { whole = v.whole; uid_kept = v.uid_kept; saved = v.saved })
  | inr (inr (inr e)) ↦ rw e v
]

pub command-IsValid :
    (always : Bool) (now : ℕ) (opens : Disk) (p : Bytes) (st : Reader × Fifo)
    → IsValid st.0
    → IsValid (command always now opens p st).0
unfolding command
command-IsValid always now opens p (r, f) v = respond-IsValid always now opens p r v

format_image-parts :
    (uid : Bytes)
    → length uid ≡ 4
    → (length (format_image uid) ≡ card_bytes) × (take 4 (format_image uid) ≡ uid)
format_image-parts (a ∷ b ∷ c ∷ d ∷ []) h = rw (format_image_lem a b c d) (refl, refl)
format_image-parts [] h = absurd (omega arith)
format_image-parts (a ∷ []) h = absurd (omega arith)
format_image-parts (a ∷ b ∷ []) h = absurd (omega arith)
format_image-parts (a ∷ b ∷ c ∷ []) h = absurd (omega arith)
format_image-parts (a ∷ b ∷ c ∷ d ∷ e ∷ l) h = absurd (omega arith)

fresh-IsValid :
    (hex : Option Bytes) (opens : Disk) (r : Reader)
    → length r.uid ≡ 4
    → IsValid (fresh hex opens r)
fresh-IsValid hex opens r h =
    let parts = format_image-parts (blank_uid hex r) (blank_uid-length hex r ∙ h) in
    save-IsValid opens _ parts.0 parts.1 refl

-- card_load leaves a valid card whatever the file holds, if `found` is what it holds.
pub load-IsValid :
    (hex : Option Bytes) (opens : Disk) (r : Reader) (found : Option Bytes)
    → length r.uid ≡ 4
    → (found ≡ none) ⊎ (found ≡ some r.file)
    → IsValid (load hex found opens r)
load-IsValid hex opens r found h (inl e) =
    rw (load_blank hex found opens r (inl e)) (fresh-IsValid hex opens r h)
load-IsValid hex opens r found h (inr e) = elim (dec_lt (length r.file) card_bytes) [
  | yes few ↦ rw (load_blank hex found opens r (inr (r.file, e, few))) (fresh-IsValid hex opens r h)
  | no many ↦
      rw (e, load_whole hex r.file opens r (omega arith))
        (record {
          whole = length-take card_bytes r.file ∙ omega arith;
          uid_kept = take-take r.file 4 card_bytes (omega arith);
          saved = λ _. sym (
              take_all (take card_bytes r.file) (length r.file)
                (omega (arith, length-take card_bytes r.file)));
        })
]
