-- ===== src/Card/Receive/Frames.antt =====
-- What consume does with the frames that the game writes.
use systemes3recomp.Prelude.{
  ℕ, zero, suc, ◌≤◌, ◌<◌, ◌≡◌, refl, sym, ap, ◌∙◌, Bool, Bytes, [], ◌∷◌, length, length-drop, drop,
  arith,
}
use systemes3recomp.Fifo.{Fifo}
use systemes3recomp.Card.{Disk, Reader}
use systemes3recomp.Card.Chip.{command}
use systemes3recomp.Card.Receive.{Round, stop, skip, run, round, consume_from, consume}

-- A round that goes on takes a byte at least.
abbrev Advances : Bytes → Round → Type 0
Advances l stop = Unit
Advances l (skip k) = (0 < k) × (0 < length l)
Advances l (run p k) = (0 < k) × (0 < length l)

round-Advances : (l : Bytes) → Advances l (round l)
unfolding round
round-Advances l = ground arith

module _ (always : Bool) (now : ℕ) (opens : Disk) where
  -- On with what a round leaves.
  abbrev pub continue :
      (Bytes → Reader × Fifo → Bytes × (Reader × Fifo))
      → Bytes
      → Reader × Fifo
      → Round
      → Bytes × (Reader × Fifo)
  continue next l st stop = (l, st)
  continue next l st (skip k) = next (drop k l) st
  continue next l st (run p k) = next (drop k l) (command always now opens p st)

  pub consume_from-suc :
      (f : ℕ) (l : Bytes) (st : Reader × Fifo) (t : Round)
      → round l ≡ t
      → consume_from always now opens (suc f) l st
        ≡ continue (consume_from always now opens f) l st t
  unfolding consume_from
  consume_from-suc f l st stop e = ground arith
  consume_from-suc f l st (skip k) e = ground arith
  consume_from-suc f l st (run p k) e = ground arith

  continue_cong :
      (next other : Bytes → Reader × Fifo → Bytes × (Reader × Fifo)) (l : Bytes)
      (st : Reader × Fifo)
      → ((m : Bytes) (s : Reader × Fifo) → length m < length l → next m s ≡ other m s)
      → (t : Round) → Advances l t
      → continue next l st t ≡ continue other l st t
  continue_cong next other l st h stop a = refl
  continue_cong next other l st h (skip k) a =
      h (drop k l) st (omega (arith, length-drop k l, a.0, a.1))
  continue_cong next other l st h (run p k) a =
      h (drop k l) (command always now opens p st) (omega (arith, length-drop k l, a.0, a.1))

  consume_from-nil :
      (f : ℕ) (l : Bytes) (st : Reader × Fifo)
      → length l ≡ 0
      → consume_from always now opens f l st ≡ (l, st)
  unfolding consume_from
  consume_from-nil zero l st h = refl
  consume_from-nil (suc f) [] st h = consume_from-suc f [] st stop (unfold round in refl)
  consume_from-nil (suc f) (b ∷ l) st h = absurd (omega arith)

  -- Any two amounts of fuel that are enough give the same result.
  consume_fuel :
      (f g : ℕ) (l : Bytes) (st : Reader × Fifo)
      → length l ≤ f
      → length l ≤ g
      → consume_from always now opens f l st ≡ consume_from always now opens g l st
  consume_fuel zero g l st hf hg =
      consume_from-nil 0 l st (omega arith) ∙ sym (consume_from-nil g l st (omega arith))
  consume_fuel (suc f) zero l st hf hg =
      consume_from-nil (suc f) l st (omega arith) ∙ sym (consume_from-nil 0 l st (omega arith))
  consume_fuel (suc f) (suc g) l st hf hg =
      consume_from-suc f l st (round l) refl
      ∙ continue_cong (consume_from always now opens f) (consume_from always now opens g) l st
          (λ m s less. consume_fuel f g m s (omega arith) (omega arith)) (round l)
          (round-Advances l)
      ∙ sym (consume_from-suc g l st (round l) refl)

  -- consume is the loop of the source, run to its end: a round that stops keeps the bytes, and every
  -- other is followed by consume on what it leaves, however many rounds that takes.
  pub consume_unroll :
      (l : Bytes) (st : Reader × Fifo)
      → consume always now opens l st ≡ continue (consume always now opens) l st (round l)
  unfolding consume
  consume_unroll l st =
      consume_fuel (length l) (suc (length l)) l st (omega arith) (omega arith)
      ∙ consume_from-suc (length l) l st (round l) refl
      ∙ continue_cong (consume_from always now opens (length l)) (consume always now opens) l st
          (λ m s less. consume_fuel (length l) (length m) m s (omega arith) (omega arith)) (round l)
          (round-Advances l)

  pub consume-round :
      (l : Bytes) (st : Reader × Fifo) (t : Round)
      → round l ≡ t
      → consume always now opens l st ≡ continue (consume always now opens) l st t
  consume-round l st t e = consume_unroll l st ∙ ap (continue (consume always now opens) l st) e
