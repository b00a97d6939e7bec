-- ===== src/Input/Tests.antt =====
-- Two presses, held for different times.
use systemes3recomp.Prelude.{◌≡◌, refl, Bool, true, false, none, List, [], ◌∷◌}
use systemes3recomp.Input.{Seen, read_controls, read_keys}
use systemes3recomp.Input.Coins.{presses}

abbrev coin_key : Bool → Seen
coin_key b = record {
  front = true;
  keys = record {
    enter = false;
    left_control = false;
    space = false;
    z = false;
    up = false;
    down = false;
    left = false;
    right = false;
    s = false;
    t = false;
    five = b;
    c = false;
  };
  pad = none;
}

abbrev two_presses : List Seen
two_presses = coin_key true ∷ coin_key true ∷ coin_key false ∷ coin_key true ∷ []

presses_two : presses false two_presses ≡ 2
unfolding read_controls read_keys
presses_two = refl
