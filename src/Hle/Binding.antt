-- ===== src/Hle/Binding.antt =====
-- What hle_bind binds.
use systemes3recomp.Prelude.{
  ℕ, zero, suc, ◌<◌, ◌≡◌, refl, inl, inr, true, false, Bool-cases, if◌then◌else◌, Option, none,
  some, Bytes, List, [], ◌∷◌, length, get_or, arith,
}
use systemes3recomp.Hle.{Import, same_text, bind}

abbrev pub no_import : Import
no_import = record { name = []; dll = []; purge = none }

module _ {ℓ} {H : Type ℓ} where
  bind_same :
      (i : Import) (imports : List Import) (name : Bytes) (fn : H) (h : Option H)
      (hs : List (Option H))
      → same_text i.name name ≡ true
      → (bind (i ∷ imports) name fn (h ∷ hs)).0 ≡ some fn ∷ (bind imports name fn hs).0
  unfolding bind
  bind_same i imports name fn h hs e = rw e refl

  bind_other :
      (i : Import) (imports : List Import) (name : Bytes) (fn : H) (h : Option H)
      (hs : List (Option H))
      → same_text i.name name ≡ false
      → (bind (i ∷ imports) name fn (h ∷ hs)).0 ≡ h ∷ (bind imports name fn hs).0
  unfolding bind
  bind_other i imports name fn h hs e = rw e refl

  -- hle_bind gives the handler to every import of that name, in however many slots it stands, and
  -- leaves every other import's handler as it was.
  pub bind_lem :
      (imports : List Import) (name : Bytes) (fn : H) (hs : List (Option H)) (k : ℕ)
      → length hs ≡ length imports
      → k < length imports
      → get_or (bind imports name fn hs).0 k none
        ≡ (if same_text (get_or imports k no_import).name name then some fn else get_or hs k none)
  bind_lem [] name fn hs k e l = absurd (omega arith)
  bind_lem (i ∷ imports) name fn [] k e l = absurd (omega arith)
  bind_lem (i ∷ imports) name fn (h ∷ hs) zero e l = elim (Bool-cases (same_text i.name name)) [
    | inl same ↦ rw (bind_same i imports name fn h hs same, same) refl
    | inr other ↦ rw (bind_other i imports name fn h hs other, other) refl
  ]
  bind_lem (i ∷ imports) name fn (h ∷ hs) (suc k) e l =
      let ih = bind_lem imports name fn hs k (omega arith) (omega arith) in
      elim (Bool-cases (same_text i.name name)) [
        | inl same ↦ rw (bind_same i imports name fn h hs same) ih
        | inr other ↦ rw (bind_other i imports name fn h hs other) ih
      ]
