-- ===== src/Ports/Tests.antt =====
-- The file calls of the game at concrete handles, and the theorems about them there
-- (src/runtime/hle_callback.c).
use systemes3recomp.Card.{refused}
use systemes3recomp.Prelude.{◌≡◌, ◌⊎◌, true, false, []}
use systemes3recomp.Jvs
use systemes3recomp.Jvs.{codes, initial_switches}
use systemes3recomp.Card
use systemes3recomp.Ports.{Desk, World, is_jvs, is_card}
use systemes3recomp.Ports.Owners.{cancels, serve_call, KeepsJvs, KeepsCard, serve_call-keeps}

abbrev desk : Desk
desk = record {
  jvs_ready = true;
  jvs = record Jvs.initial_port { handle = 0x100 };
  card_ready = true;
  card = record Card.initial_port { handle = 0x200 };
  reader = Card.initial_reader [];
  stub = 0;
}

abbrev world : World
world = record {
  stale = λ i. 0;
  switches = initial_switches;
  memory = true;
  now = 1000;
  thread = 0x300;
  always = false;
  opens = refused;
  rd32 = λ a. 0;
}

serve_call-keeps_example :
    ((is_jvs desk 0x200 ≡ true) ⊎ KeepsJvs desk (serve_call world desk 0x200 cancels))
    × ((is_card desk 0x200 ≡ true) ⊎ KeepsCard desk (serve_call world desk 0x200 cancels))
serve_call-keeps_example = serve_call-keeps world desk 0x200 cancels
