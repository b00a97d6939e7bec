-- ===== src/Passport/Tests.antt =====
-- The card's window of src/runtime/passport.c at concrete inputs.
use systemes3recomp.Prelude.{◌≤◌, ◌<◌, ◌≡◌, refl, true, some, [], ◌∷◌, replicate, Bytes}
use systemes3recomp.Jvs.{codes}
use systemes3recomp.Passport.{CardState, state_json, serve_one, passport_port}
use systemes3recomp.Passport.State.{passport_port_bounds}

abbrev card : CardState
card = record {
  uid = 4 ∷ 0xab ∷ 0xcd ∷ 0xef ∷ [];
  present = true;
  reads = 12;
  writes = 0;
  img = replicate 2 0x5a;
  file = codes "card.bin";
}

abbrev tap_request : Bytes
tap_request = codes "POST /tap HTTP/1.1\r\n\r\n"

serve_one_tap :
    serve_one [] card tap_request
    ≡ some (record { taps = true; kind = codes "application/json"; body = codes "{\"ok\":true}" })
unfolding serve_one
serve_one_tap = refl

state_json_test :
    state_json card
    ≡ codes
        "{\"uid\":\"04ABCDEF\",\"present\":true,\"reads\":12,\"writes\":0,\"file\":\"card.bin\",\"blocks\":\"5A5A\"}"
unfolding state_json
state_json_test = refl

passport_port_bounds_example :
    (0 < passport_port (some 70000)) × (passport_port (some 70000) ≤ 65535)
passport_port_bounds_example = passport_port_bounds (some 70000)
