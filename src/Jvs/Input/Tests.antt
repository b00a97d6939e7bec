-- ===== src/Jvs/Input/Tests.antt =====
-- The coin button, the wheel and the timetable at concrete inputs.
use systemes3recomp.Prelude.{◌≡◌, refl, Bool, true, false, none, List, [], ◌∷◌}
use systemes3recomp.Controls.{Keys}
use systemes3recomp.Jvs.Input.{Asked, levels, from_keys}
use systemes3recomp.Jvs.Input.Coins.{presses}

abbrev no_keys : Keys
no_keys = record {
  enter = false;
  left_control = false;
  space = false;
  z = false;
  up = false;
  down = false;
  left = false;
  right = false;
  s = false;
  t = false;
  five = false;
  c = false;
}

-- The coin key, held or not.
abbrev coin_key : Bool → Asked
coin_key b = record { front = true; keys = record no_keys { five = b }; pad = none }

abbrev two_presses : List Asked
two_presses = coin_key true ∷ coin_key true ∷ coin_key false ∷ coin_key true ∷ []

presses_two : presses false two_presses ≡ 2
unfolding levels from_keys
presses_two = refl
