-- ===== src/Jvs/Command/Refine.antt =====
-- The interpreter of handle_packet does what the description of the requests says.
use systemes3recomp.Prelude.{
  sym, ℕ, zero, suc, ◌+◌, ◌-◌, ◌*◌, ◌≤◌, ◌<◌, ◌≡◌, refl, ap, ◌∙◌, subst, ◌&&◌, ltb, leb, le→leb,
  if◌then◌else◌, Bytes, List, [], ◌∷◌, ◌++◌, length, length-append, get_or, set, All, arith,
  append_assoc, append-nil,
}
use systemes3recomp.Jvs.{Port, Switches, coin_slots}
use systemes3recomp.Jvs.Command.{more, write_body, take_coins, command, commands, body_size}
use systemes3recomp.Jvs.Command.Fuel.{commands_fuel}
use systemes3recomp.Jvs.Command.Told.{told, told-report}
use systemes3recomp.Jvs.Command.Request.{
  Request, set_address, identify, command_revision, jvs_revision, comms_version, feature_check,
  read_switches, read_coins, read_analog, read_rotary, drop_coins, general_output, add_coins,
  analog_output, character_output, comms_method, encode, encode_all, report, reports, spend, effect,
  effects, IsRequest,
}

-- The bytes `bs` stand in memory from `i` on.
abbrev pub StandsAt : (ℕ → ℕ) → ℕ → Bytes → Type 0
StandsAt d i [] = Unit
StandsAt d i (b ∷ bs) = (d i ≡ b) × StandsAt d (i + 1) bs

pub StandsAt-append :
    (d : ℕ → ℕ) (xs ys : Bytes) (i : ℕ)
    → StandsAt d i (xs ++ ys)
    → StandsAt d i xs × StandsAt d (i + length xs) ys
StandsAt-append d [] ys i h = (tt, subst (λ j. StandsAt d j ys) (omega arith) h)
StandsAt-append d (x ∷ xs) ys i h =
    let rest = StandsAt-append d xs ys (i + 1) h.1 in
    ((h.0, rest.0), subst (λ j. StandsAt d j ys) (omega arith) rest.1)

spend_lem :
    (cs : Bytes) (slot n : ℕ)
    → spend cs slot n ≡ (
        if leb 1 slot && leb slot (length cs)
        then set cs
            (slot - 1)
            (if ltb n (get_or cs (slot - 1) 0) then get_or cs (slot - 1) 0 - n else 0)
        else cs)
spend_lem [] slot n = ground arith
spend_lem (c ∷ cs) zero n = refl
spend_lem (c ∷ cs) (suc zero) n = ground arith
spend_lem (c ∷ cs) (suc (suc slot)) n = ground (arith, spend_lem cs (suc slot) n)

take_coins-spend :
    (p : Port) (slot n : ℕ)
    → length p.coin ≡ coin_slots
    → take_coins slot n p ≡ record p { coin = spend p.coin slot n }
unfolding take_coins
take_coins-spend p slot n h = ground (arith, spend_lem p.coin slot n)

write_body_fits :
    (i : ℕ) (body xs : Bytes) (p : Port)
    → length body + length xs ≤ body_size
    → write_body i body xs p ≡ more i (body ++ xs) p
unfolding write_body
write_body_fits i body xs p h = rw (le→leb _ _ h)

-- One request: what the interpreter writes for it goes behind the body, and the next command is read
-- behind its bytes.
command-told :
    (s : Switches) (d : ℕ → ℕ) (n i : ℕ) (body : Bytes) (p : Port) (r : Request)
    → IsRequest r
    → length p.coin ≡ coin_slots
    → StandsAt d i (encode r)
    → length body + length (told s p r) ≤ body_size
    → command s d n (d i) (i + 1) body p
      ≡ more (i + length (encode r)) (body ++ told s p r) (effect p r)
unfolding command
command-told s d n i body p identify ok c h fits =
    ground (arith, write_body_fits (i + 1) body (told s p identify) (effect p identify) fits)
command-told s d n i body p command_revision ok c h fits = ground (
  arith,
  write_body_fits (i + 1) body (told s p command_revision) (effect p command_revision) fits,
)
command-told s d n i body p jvs_revision ok c h fits =
    ground
      (arith, write_body_fits (i + 1) body (told s p jvs_revision) (effect p jvs_revision) fits)
command-told s d n i body p comms_version ok c h fits =
    ground
      (arith, write_body_fits (i + 1) body (told s p comms_version) (effect p comms_version) fits)
command-told s d n i body p feature_check ok c h fits =
    ground
      (arith, write_body_fits (i + 1) body (told s p feature_check) (effect p feature_check) fits)
command-told s d n i body p (read_switches k bytes) ok c h fits = ground (
  arith,
  write_body_fits (i + 3) body (told s p (read_switches k bytes)) (effect p (read_switches k bytes))
      fits,
)
command-told s d n i body p (read_coins k) ok c h fits =
    ground
      (arith, write_body_fits (i + 2) body (told s p (read_coins k)) (effect p (read_coins k)) fits)
command-told s d n i body p (read_analog k) ok c h fits =
    ground (
      arith,
      write_body_fits (i + 2) body (told s p (read_analog k)) (effect p (read_analog k)) fits,
    )
command-told s d n i body p (read_rotary k) ok c h fits =
    ground (
      arith,
      write_body_fits (i + 2) body (told s p (read_rotary k)) (effect p (read_rotary k)) fits,
    )
command-told s d n i body p (drop_coins slot hi lo) ok c h fits = ground (
  arith,
  write_body_fits (i + 4) body (told s p (drop_coins slot hi lo)) (effect p (drop_coins slot hi lo))
      fits,
  take_coins-spend p slot (hi * 256 + lo) c,
)
command-told s d n i body p (general_output bs) ok c h fits = ground (
  arith,
  write_body_fits (i + 2 + length bs) body (told s p (general_output bs))
      (effect p (general_output bs)) fits,
)
command-told s d n i body p (add_coins slot hi lo) ok c h fits = ground (
  arith,
  write_body_fits (i + 4) body (told s p (add_coins slot hi lo)) (effect p (add_coins slot hi lo))
      fits,
)
command-told s d n i body p (analog_output channel v) ok c h fits = ground (
  arith,
  write_body_fits (i + 3) body (told s p (analog_output channel v))
      (effect p (analog_output channel v)) fits,
)
command-told s d n i body p (character_output x) ok c h fits = ground (
  arith,
  write_body_fits (i + 2) body (told s p (character_output x)) (effect p (character_output x)) fits,
)
command-told s d n i body p (comms_method m) ok c h fits = ground (
  arith,
  write_body_fits (i + 2) body (told s p (comms_method m)) (effect p (comms_method m)) fits,
)
command-told s d n i body p (set_address a) ok c h fits =
    ground (
      arith,
      write_body_fits (i + 2) body (told s p (set_address a)) (effect p (set_address a)) fits,
    )

command_refines :
    (s : Switches) (d : ℕ → ℕ) (n i : ℕ) (body : Bytes) (p : Port) (r : Request)
    → IsRequest r
    → length p.coin ≡ coin_slots
    → StandsAt d i (encode r)
    → length body + length (report s p r) ≤ body_size
    → command s d n (d i) (i + 1) body p
      ≡ more (i + length (encode r)) (body ++ report s p r) (effect p r)
command_refines s d n i body p r ok c h fits =
    let same : told s p r ≡ report s p r = told-report s p r ok c in
    subst
      (λ bs.
        command s d n (d i) (i + 1) body p ≡ more (i + length (encode r)) (body ++ bs) (effect p r))
      same
      (command-told s d n i body p r ok c h
        (subst (λ (bs : Bytes). length body + length bs ≤ body_size) (sym same) fits))

length-spend : (cs : Bytes) (slot n : ℕ) → length (spend cs slot n) ≡ length cs
length-spend [] slot n = refl
length-spend (c ∷ cs) zero n = refl
length-spend (c ∷ cs) (suc zero) n = refl
length-spend (c ∷ cs) (suc (suc slot)) n = ap suc (length-spend cs (suc slot) n)

pub coin-effect : (p : Port) (r : Request) → length (effect p r).coin ≡ length p.coin
coin-effect p (drop_coins slot hi lo) = length-spend p.coin slot (hi * 256 + lo)
coin-effect p _ = refl

encode_pos : (r : Request) → 0 < length (encode r)
encode_pos (set_address a) = omega arith
encode_pos _ = omega arith

commands_more :
    (s : Switches) (d : ℕ → ℕ) (n fuel i j : ℕ) (body body' : Bytes) (p q : Port)
    → i < n
    → command s d n (d i) (i + 1) body p ≡ more j body' q
    → length body' ≤ 176
    → commands s d n (suc fuel) i body p ≡ commands s d n fuel j body' q
unfolding commands
commands_more s d n fuel i j body body' p q h e room = ground arith

-- Well-formed requests at the front of what is left of a packet: the loop goes on behind them.
pub commands_before :
    (s : Switches) (d : ℕ → ℕ) (n fuel i : ℕ) (body : Bytes) (p : Port) (rs : List Request)
    → All IsRequest rs
    → length p.coin ≡ coin_slots
    → StandsAt d i (encode_all rs)
    → i + length (encode_all rs) ≤ n
    → n ≤ i + fuel
    → length body + length (reports s p rs) ≤ 176
    → commands s d n fuel i body p
      ≡ commands s d n n (i + length (encode_all rs)) (body ++ reports s p rs) (effects p rs)
commands_before s d n fuel i body p [] ok c h e f room =
    let here : i + 0 ≡ i = omega arith in
    rw (append-nil, here) (commands_fuel s d n fuel n i body p f (omega arith))
commands_before s d n zero i body p (r ∷ rs) ok c h e f room =
    absurd (omega (arith, encode_pos r, length-append (encode r) (encode_all rs)))
commands_before s d n (suc fuel) i body p (r ∷ rs) ok c h e f room =
    let q = effect p r in
    let j = i + length (encode r) in
    let stands = StandsAt-append d (encode r) (encode_all rs) i h in
    let size = length-append (report s p r) (reports s q rs) in
    let bytes = length-append (encode r) (encode_all rs) in
    let size' = length-append body (report s p r) in
    let behind : j + length (encode_all rs) ≡ i + length (encode r ++ encode_all rs) =
      omega arith in
    commands_more s d n fuel i j body (body ++ report s p r) p q (omega (arith, encode_pos r))
      (command_refines s d n i body p r ok.0 c stands.0 (omega arith)) (omega arith)
    ∙ commands_before s d n fuel j (body ++ report s p r) q rs ok.1 (coin-effect p r ∙ c) stands.1
        (omega arith) (omega (arith, encode_pos r)) (omega arith)
    ∙ rw (behind, append_assoc)
