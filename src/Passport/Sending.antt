-- ===== src/Passport/Sending.antt =====
-- What send_all of src/runtime/passport.c hands over, whatever send answers.
use systemes3recomp.Prelude.{
  ℕ, zero, suc, ◌≤◌, ◌<◌, ◌≡◌, refl, ap, ◌∙◌, List, [], ◌∷◌, ◌++◌, append_assoc, length, take, drop,
  length-drop, All, Bytes, arith,
}
use systemes3recomp.Passport.{send_all}

take-append-drop : (k : ℕ) (bs : Bytes) → take k bs ++ drop k bs ≡ bs
take-append-drop zero bs = refl
take-append-drop (suc k) [] = refl
take-append-drop (suc k) (b ∷ bs) = ap (◌∷◌ b) (take-append-drop k bs)

-- What is handed over is the front of the text, in its order and with no byte twice; and all of it,
-- if every call of send takes at least one byte and there are as many calls as bytes.
pub send_all-front :
    (answers : List ℕ) (p : Bytes)
    → (rest : Bytes) × (send_all answers p ++ rest ≡ p)
      × (All (λ r. 0 < r) answers → length p ≤ length answers → rest ≡ [])
unfolding send_all
send_all-front answers [] = ([], refl, λ a l. refl)
send_all-front [] (b ∷ bs) = (b ∷ bs, refl, λ a l. absurd (omega arith))
send_all-front (zero ∷ answers) (b ∷ bs) = (b ∷ bs, refl, λ a l. absurd (omega arith))
send_all-front (suc r ∷ answers) (b ∷ bs) =
    let (rest, front, whole) = send_all-front answers (drop r bs) in
    (
      rest,
      ap (◌∷◌ b) (
          append_assoc (take r bs) (send_all answers (drop r bs)) rest
          ∙ ap (◌++◌ (take r bs)) front
          ∙ take-append-drop r bs),
      λ a l. whole a.1 (omega (arith, length-drop r bs)),
    )
