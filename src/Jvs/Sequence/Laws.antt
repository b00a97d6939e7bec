-- ===== src/Jvs/Sequence/Laws.antt =====
-- The timetable is followed whatever the moments are at which it is looked at.
use systemes3recomp.Prelude.{
  ℕ, ◌+◌, ◌≤◌, ◌<◌, ◌≡◌, refl, ap, ◌∙◌, inl, inr, true, false, leb, leb→le, le→leb, Bool-cases,
  List, [], ◌∷◌, arith,
}
use systemes3recomp.Jvs.{Switches}
use systemes3recomp.Jvs.Sequence.{Entry, apply, seq_tick}

seq_tick_due :
    (t : ℕ) (e : Entry) (es : List Entry) (s : Switches)
    → leb e.when t ≡ true
    → seq_tick t (e ∷ es) s
      ≡ (let r = seq_tick t es (apply e s).0 in (r.0, r.1, (apply e s).1 + r.2))
unfolding seq_tick
seq_tick_due t e es s h = rw h refl

seq_tick_later :
    (t : ℕ) (e : Entry) (es : List Entry) (s : Switches)
    → leb e.when t ≡ false
    → seq_tick t (e ∷ es) s ≡ (e ∷ es, s, 0)
unfolding seq_tick
seq_tick_later t e es s h = rw h refl

-- Looking at it at `a` ms and again at `b` ms leaves the switches, the entries to come and the number
-- of pictures as looking at it once, at `b` ms, does: an entry that is late is not lost or repeated.
pub seq_tick_twice :
    (a b : ℕ) (es : List Entry) (s : Switches)
    → a ≤ b
    → let (rest, t, n) = seq_tick a es s in
      let (rest', t', m) = seq_tick b rest t in seq_tick b es s ≡ (rest', t', n + m)
seq_tick_twice a b [] s h = unfold seq_tick in refl
seq_tick_twice a b (e ∷ es) s h = elim (Bool-cases (leb e.when a)) [
  | inr later ↦
      let r = seq_tick b (e ∷ es) s in
      rw (seq_tick_later a e es s later) (
        ap {A = ℕ} {B = List Entry × Switches × ℕ} (λ n. (r.0, r.1, n)) {x = r.2} {y = 0 + r.2}
          (omega arith))
  | inl due ↦
      let ih = seq_tick_twice a b es (apply e s).0 h in
      let first = seq_tick a es (apply e s).0 in
      let second = seq_tick b first.0 first.1 in
      let n = (apply e s).1 in
      let due' : leb e.when b ≡ true = le→leb e.when b (omega (arith, leb→le e.when a due)) in
      rw (seq_tick_due a e es s due, seq_tick_due b e es s due')
        (ap {A = List Entry × Switches × ℕ} {B = List Entry × Switches × ℕ}
            (λ r. (r.0, r.1, n + r.2)) ih
          ∙ ap {A = ℕ} {B = List Entry × Switches × ℕ} (λ k. (second.0, second.1, k))
              {x = n + (first.2 + second.2)} {y = n + first.2 + second.2} (omega arith))
]

-- What an entry at the front that is to come says.
abbrev pub Waits : ℕ → List Entry → Type 0
Waits elapsed [] = Unit
Waits elapsed (e ∷ es) = elapsed < e.when

-- After seq_tick no entry at the front is due any more.
pub seq_tick-Waits :
    (elapsed : ℕ) (es : List Entry) (s : Switches) → Waits elapsed (seq_tick elapsed es s).0
unfolding seq_tick
seq_tick-Waits elapsed [] s = tt
seq_tick-Waits elapsed (e ∷ es) s = elim (Bool-cases (leb e.when elapsed)) [
  | inl due ↦ rw due (seq_tick-Waits elapsed es (apply e s).0)
  | inr later ↦ rw later (ground arith)
]
