-- ===== src/Jvs/Input/Coins.antt =====
-- One press of the coin button is one coin, however often it is looked at.
use systemes3recomp.Prelude.{
  ℕ, ◌+◌, ◌%◌, ◌^◌, ◌<◌, ◌≡◌, refl, ap, Bool, false, not, ◌&&◌, if◌then◌else◌, Bytes, List, [], ◌∷◌,
  length, set, length-set, get_or, arith,
}
use systemes3recomp.Jvs.Line.{insert_coin}
use systemes3recomp.Jvs.Input.{Asked, Inputs, levels, input_poll}

-- Polls one after another.
abbrev pub polls : List Asked → Inputs → Inputs
polls [] i = i
polls (a ∷ more) i = polls more (input_poll false a i).0

-- How often the coin button goes down, if `held` says whether it is down already.
abbrev pub presses : Bool → List Asked → ℕ
presses held [] = 0
presses held (a ∷ more) =
    (if (levels a).coin && not held then 1 else 0) + presses (levels a).coin more

get-set : (xs : Bytes) (v : ℕ) → 0 < length xs → get_or (set xs 0 v) 0 0 ≡ v
get-set [] v h = absurd (omega arith)
get-set (x ∷ xs) v h = refl

-- One poll.
poll_coin :
    (a : Asked) (i : Inputs)
    → 0 < length i.port.coin
    → get_or i.port.coin 0 0 < 2 ^ 32
    → i.pending < 2 ^ 32
    → let j = (input_poll false a i).0 in
      let n : ℕ = if (levels a).coin && not i.had_coin then 1 else 0 in
      (get_or j.port.coin 0 0 ≡ (get_or i.port.coin 0 0 + n) % 2 ^ 32)
      × (j.pending ≡ (i.pending + n) % 2 ^ 32)
      × (length j.port.coin ≡ length i.port.coin)
      × (j.had_coin ≡ (levels a).coin)
unfolding input_poll insert_coin
poll_coin a i h c d = ground (
  arith,
  get-set i.port.coin ((get_or i.port.coin 0 0 + 1) % 2 ^ 32) h,
  length-set i.port.coin 0 ((get_or i.port.coin 0 0 + 1) % 2 ^ 32),
)

-- Over any number of polls the coins of slot 1, and the coins that es3_coin_take can take, go up by
-- the number of times that the coin button of the keyboard or of the pad goes down: holding it is
-- one coin. Both are 32-bit counters.
pub polls_coins :
    (more : List Asked) (i : Inputs)
    → 0 < length i.port.coin
    → get_or i.port.coin 0 0 < 2 ^ 32
    → i.pending < 2 ^ 32
    → (get_or (polls more i).port.coin 0 0
        ≡ (get_or i.port.coin 0 0 + presses i.had_coin more) % 2 ^ 32)
      × ((polls more i).pending ≡ (i.pending + presses i.had_coin more) % 2 ^ 32)
polls_coins [] i h c d = (omega arith, omega arith)
polls_coins (a ∷ more) i h c d =
    let one = poll_coin a i h c d in
    let j = (input_poll false a i).0 in
    let ih = polls_coins more j (omega arith) (omega arith) (omega arith) in
    let e = ap (λ b. presses b more) one.3 in (omega arith, omega arith)
