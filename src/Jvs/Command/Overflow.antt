-- ===== src/Jvs/Command/Overflow.antt =====
-- The requests that make handle_packet write past the end of `body`.
use systemes3recomp.Prelude.{
  ℕ, zero, suc, ◌+◌, ◌*◌, ◌≤◌, ◌<◌, ◌≡◌, ◌⊎◌, Bytes, [], ◌∷◌, length, length-append, arith,
}
use systemes3recomp.Jvs.{Port, Switches, broadcast}
use systemes3recomp.Jvs.Command.{
  Step, Outcome, write_body, word_bytes, switch_bytes, coin_bytes, analog_bytes, rotary_bytes,
  player_word, command, commands, answer, body_size,
}

length-word_bytes : (w k : ℕ) → length (word_bytes w k) ≡ k
unfolding word_bytes
length-word_bytes w zero = omega arith
length-word_bytes w (suc k) = omega (arith, length-word_bytes w k)

pub length-switch_bytes :
    (s : Switches) (bytes k p : ℕ) → length (switch_bytes s bytes k p) ≡ k * bytes
unfolding switch_bytes
length-switch_bytes s bytes zero p = omega arith
length-switch_bytes s bytes (suc k) p = omega (
  arith,
  length-append (word_bytes (player_word s p) bytes) (switch_bytes s bytes k (p + 1)),
  length-word_bytes (player_word s p) bytes,
  length-switch_bytes s bytes k (p + 1),
)

pub length-coin_bytes : (p : Port) (k c : ℕ) → length (coin_bytes p k c) ≡ 2 * k
unfolding coin_bytes
length-coin_bytes p zero c = omega arith
length-coin_bytes p (suc k) c = omega (arith, length-coin_bytes p k (c + 1))

pub length-analog_bytes : (s : Switches) (k c : ℕ) → length (analog_bytes s k c) ≡ 2 * k
unfolding analog_bytes
length-analog_bytes s zero c = omega arith
length-analog_bytes s (suc k) c = omega (arith, length-analog_bytes s k (c + 1))

pub length-rotary_bytes : (k : ℕ) → length (rotary_bytes k) ≡ 2 * k
unfolding rotary_bytes
length-rotary_bytes zero = omega arith
length-rotary_bytes (suc k) = omega (arith, length-rotary_bytes k)

write_body_over :
    (i : ℕ) (body xs : Bytes) (p : Port)
    → body_size < length body + length xs
    → write_body i body xs p ≡ Step.undefined
unfolding write_body
write_body_over i body xs p h = ground arith

-- What the board is asked for does not fit into `body`, or shifts a switch word by 32 bits or more.
abbrev pub AsksTooMuch : ℕ → ℕ → ℕ → Type 0
AsksTooMuch cmd k bytes =
    (((cmd ≡ 0x21) ⊎ (cmd ≡ 0x22) ⊎ (cmd ≡ 0x25) ⊎ (cmd ≡ 0x26)) × (128 ≤ k))
    ⊎ ((cmd ≡ 0x20) × (0 < k) × ((254 ≤ k * bytes) ⊎ (5 ≤ bytes)))

command_overflows :
    (s : Switches) (d : ℕ → ℕ) (n cmd : ℕ) (b : ℕ) (p : Port)
    → AsksTooMuch cmd (d 1) (d 2)
    → command s d n cmd 1 (b ∷ []) p ≡ Step.undefined
unfolding command write_body
command_overflows s d n cmd b p h = ground (
  arith,
  length-switch_bytes s (d 2) (d 1) 0,
  length-coin_bytes p (d 1) 0,
  length-analog_bytes s (d 1) 0,
  length-rotary_bytes (d 1),
)

-- A packet for this node whose first command asks for 128 or more coin slots, analog channels or
-- encoders, for 254 or more bytes of switches, or for five or more bytes a player of them, makes
-- the board run into undefined behaviour.
pub answer_overflows :
    (s : Switches) (dest n : ℕ) (d : ℕ → ℕ) (p : Port)
    → (dest ≡ broadcast) ⊎ (dest ≡ p.address)
    → 0 < n
    → AsksTooMuch (d 0) (d 1) (d 2)
    → answer s dest d n p ≡ Outcome.undefined
unfolding answer commands
answer_overflows s dest zero d p ours h t = absurd (omega arith)
answer_overflows s dest (suc n) d p ours h t =
    let one : 0 + 1 ≡ 1 = omega arith in
    ground (arith, command_overflows s d (suc n) (d 0) 0x01 p t)
