-- ===== src/Jvs/Command/Fuel.antt =====
-- The loop over the commands of a packet ends by its test: the fuel given to it is enough.
use systemes3recomp.Prelude.{ℕ, zero, suc, ◌+◌, ◌≤◌, ◌≡◌, refl, ◌⊎◌, inl, inr, Bytes, arith}
use systemes3recomp.Jvs.{Port, Switches}
use systemes3recomp.Jvs.Command.{Step, more, silent, write_body, command, commands}

write_body_advances :
    (i j : ℕ) (body xs b : Bytes) (p q : Port) → write_body i body xs p ≡ more j b q → j ≡ i
unfolding write_body
write_body_advances i j body xs b p q h = ground arith

command_advances :
    (s : Switches) (d : ℕ → ℕ) (n cmd i j : ℕ) (body b : Bytes) (p q : Port)
    → command s d n cmd i body p ≡ more j b q
    → (i ≤ j) ⊎ (n ≤ j)
unfolding command write_body
command_advances s d n cmd i j body b p q h = ground arith

-- One round, when the rounds after it agree.
commands_round :
    (s : Switches) (d : ℕ → ℕ) (n f g i : ℕ) (body : Bytes) (p : Port) (t : Step)
    → ((j : ℕ) (b : Bytes) (q : Port)
        → n ≤ j + f
        → n ≤ j + g
        → commands s d n f j b q ≡ commands s d n g j b q)
    → n ≤ i + suc f
    → n ≤ i + suc g
    → command s d n (d i) (i + 1) body p ≡ t
    → commands s d n (suc f) i body p ≡ commands s d n (suc g) i body p
unfolding commands
commands_round s d n f g i body p (silent p') ih hf hg e = ground arith
commands_round s d n f g i body p Step.undefined ih hf hg e = ground arith
commands_round s d n f g i body p (more j b q) ih hf hg e =
    let ends : n ≤ j + f × n ≤ j + g = elim (command_advances s d n (d i) (i + 1) j body b p q e) [
      | inl h ↦ (omega arith, omega arith)
      | inr h ↦ (omega arith, omega arith)
    ] in
    ground (arith, ih j b q ends.0 ends.1)

-- Any two amounts of fuel that cover the rest of the packet give the same outcome.
pub commands_fuel :
    (s : Switches) (d : ℕ → ℕ) (n f g i : ℕ) (body : Bytes) (p : Port)
    → n ≤ i + f
    → n ≤ i + g
    → commands s d n f i body p ≡ commands s d n g i body p
commands_fuel s d n zero zero i body p hf hg = refl
commands_fuel s d n zero (suc g) i body p hf hg = unfold commands in ground arith
commands_fuel s d n (suc f) zero i body p hf hg = unfold commands in ground arith
commands_fuel s d n (suc f) (suc g) i body p hf hg =
    commands_round s d n f g i body p _ (λ j b q. commands_fuel s d n f g j b q) hf hg refl
