-- ===== src/Text/Search.antt =====
-- Where strstr and strchr find a text.
use systemes3recomp.Prelude.{
  ℕ, ◌≡◌, ◌≢◌, ◌⊎◌, inl, inr, refl, sym, true, false, some, [], ◌∷◌, ◌++◌, All, Bytes, ◌==◌,
  Bool-cases, arith,
}
use systemes3recomp.Text.{c_string, starts_with, contains, split_at}

pub split_at-append :
    (c : ℕ) (pre post : Bytes)
    → All (λ b. b ≢ c) pre
    → split_at c (pre ++ c ∷ post) ≡ some (pre, post)
unfolding split_at
split_at-append c [] post a = ground arith
split_at-append c (b ∷ pre) post a = ground (arith, split_at-append c pre post a.1)

pub contains_without : (p : ℕ) (ps s : Bytes) → All (λ b. b ≢ p) s → contains (p ∷ ps) s ≡ false
unfolding contains starts_with
contains_without p ps [] a = refl
contains_without p ps (b ∷ s) a = ground (arith, contains_without p ps s a.1)

pub All-c_string : (P : ℕ → Type 0) (s : Bytes) → All P s → All P (c_string s)
unfolding c_string
All-c_string P [] a = a
All-c_string P (b ∷ s) a = elim (Bool-cases (b == 0)) [
  | inl e ↦ rw e tt
  | inr e ↦ rw e (a.0, All-c_string P s a.1)
]

pub c_string-append : (s t : Bytes) → All (λ b. b ≢ 0) s → c_string (s ++ t) ≡ s ++ c_string t
unfolding c_string
c_string-append [] t a = refl
c_string-append (b ∷ s) t a = ground (arith, c_string-append s t a.1)

starts_with-append : (p s : Bytes) → starts_with p (p ++ s) ≡ true
unfolding starts_with
starts_with-append [] s = refl
starts_with-append (b ∷ p) s = ground (arith, starts_with-append p s)

contains_head : (p s : Bytes) → starts_with p s ≡ true → contains p s ≡ true
unfolding contains
contains_head p [] h = h
contains_head p (b ∷ s) h = rw h

pub contains-append : (p pre s : Bytes) → contains p (pre ++ (p ++ s)) ≡ true
unfolding contains
contains-append p [] s = contains_head p (p ++ s) (starts_with-append p s)
contains-append p (b ∷ pre) s = ground (arith, contains-append p pre s)

-- Of two ways to cut a text in two, one front is the start of the other.
pub cut_twice :
    (a b c d : Bytes)
    → a ++ b ≡ c ++ d
    → ((z : Bytes) × (c ≡ a ++ z) × (b ≡ z ++ d)) ⊎ ((z : Bytes) × (a ≡ c ++ z) × (d ≡ z ++ b))
cut_twice [] b c d e = inl (c, refl, e)
cut_twice (x ∷ a) b [] d e = inr (x ∷ a, refl, sym e)
cut_twice (x ∷ a) b (y ∷ c) d e = elim (cut_twice a b c d (cc)) [
  | inl (z, p, q) ↦ inl (z, cc, q)
  | inr (z, p, q) ↦ inr (z, cc, q)
]
