-- ===== src/Input/Coins.antt =====
-- A press of the coin button is reported once.
use systemes3recomp.Prelude.{
  ℕ, ◌+◌, ◌≡◌, refl, Bool, false, not, ◌&&◌, if◌then◌else◌, List, [], ◌∷◌, arith,
}
use systemes3recomp.Input.{Seen, Latch, read_controls, input_poll}

-- Polls one after another: how many of them report a coin.
abbrev pub reported : List Seen → Latch → ℕ
reported [] l = 0
reported (a ∷ more) l =
    (if (input_poll false a l).0.coin then 1 else 0) + reported more (input_poll false a l).1

-- How often the coin button goes down, if `held` says whether it is down already.
abbrev pub presses : Bool → List Seen → ℕ
presses held [] = 0
presses held (a ∷ more) =
    (if (read_controls a).coin && not held then 1 else 0) + presses (read_controls a).coin more

poll_coin :
    (a : Seen) (l : Latch)
    → l.latched ≡ 0
    → ((input_poll false a l).0.coin ≡ ((read_controls a).coin && not l.had_coin))
      × ((input_poll false a l).1.latched ≡ 0)
      × ((input_poll false a l).1.had_coin ≡ (read_controls a).coin)
unfolding input_poll
poll_coin a l h = ground arith

-- However fast the caller polls, as many polls report a coin as the coin button of the keyboard or of
-- the pad goes down, starting from an empty latch.
pub reported-presses :
    (more : List Seen) (l : Latch) → l.latched ≡ 0 → reported more l ≡ presses l.had_coin more
reported-presses [] l h = refl
reported-presses (a ∷ more) l h =
    let one = poll_coin a l h in
    let rest = reported-presses more (input_poll false a l).1 one.1 in rw (rest, one.0, one.2) refl
