-- ===== src/Jvs/Line/Kept.antt =====
-- The invariant of the port, and what a packet leaves alone.
use systemes3recomp.Prelude.{
  ℕ, zero, suc, ◌+◌, ◌-◌, ◌*◌, ◌≤◌, ◌<◌, ◌≡◌, refl, ap, ◌∙◌, inl, inr, ltb, Bool-cases, Bytes, [],
  ◌∷◌, length, length-set, get_or, if◌then◌else◌, arith, ◌⊎◌, not, ◌&&◌, ◌||◌, ◌==◌,
}
use systemes3recomp.Fifo
use systemes3recomp.Fifo.{Fifo, fifo_size}
use systemes3recomp.Fifo.Refine.{push-IsValid}
use native.Mathlib.Decide.{dec_lt}
use systemes3recomp.Jvs.{sync, escape, broadcast, Port, Switches, coin_slots}
use systemes3recomp.Jvs.Frame.{out_byte, out_bytes, reply}
use systemes3recomp.Jvs.Command.{
  Step, more, silent, Outcome, answered, unanswered, undefined, write_body, take_coins, command,
  commands, answer, handle_packet,
}

pub record IsValid (p : Port) : Type 0 where
  pub pipe : Fifo.IsValid p.out
  pub room : length p.in_bytes ≤ fifo_size
  pub slots : length p.coin ≡ coin_slots

-- `q` is `p` but for the address and the coins, of which there are as many.
pub record Keeps (p q : Port) : Type 0 where
  pub same : q ≡ record p { address = q.address; coin = q.coin }
  pub slots : length q.coin ≡ length p.coin

Keeps-refl : (p : Port) → Keeps p p
Keeps-refl p = record { same = refl; slots = refl }

Keeps-trans : {p q r : Port} → Keeps p q → Keeps q r → Keeps p r
Keeps-trans {p} {q} {r} h k = record {
  same =
      k.same
      ∙ ap {A = Port} {B = Port} (λ x. record x { address = r.address; coin = r.coin }) h.same;
  slots = k.slots ∙ h.slots;
}

take_coins-Keeps : (slot n : ℕ) (p : Port) → Keeps p (take_coins slot n p)
unfolding take_coins
take_coins-Keeps slot n p = ground (
  arith,
  length-set p.coin (slot - 1)
      (if ltb n (get_or p.coin (slot - 1) 0) then get_or p.coin (slot - 1) 0 - n else 0),
)

command_more :
    (s : Switches) (d : ℕ → ℕ) (n cmd i j : ℕ) (body b : Bytes) (p q : Port)
    → command s d n cmd i body p ≡ more j b q
    → (q ≡ record p { address = q.address })
      ⊎ (q ≡ take_coins (d i) (d (i + 1) * 256 + d (i + 2)) p)
unfolding command write_body
command_more s d n cmd i j body b p q h = ground arith

command_silent :
    (s : Switches) (d : ℕ → ℕ) (n cmd i : ℕ) (body : Bytes) (p q : Port)
    → command s d n cmd i body p ≡ silent q
    → q ≡ record p { address = 0 }
unfolding command write_body
command_silent s d n cmd i body p q h = ground arith

-- The port that a step, or a packet, leaves.
abbrev StepKeeps : Port → Step → Type 0
StepKeeps p (more _ _ q) = Keeps p q
StepKeeps p (silent q) = Keeps p q
StepKeeps p Step.undefined = Unit

abbrev pub OutcomeKeeps : Port → Outcome → Type 0
OutcomeKeeps p (answered _ q) = Keeps p q
OutcomeKeeps p (unanswered q) = Keeps p q
OutcomeKeeps p undefined = Unit

Keeps-address : (p q : Port) → q ≡ record p { address = q.address } → Keeps p q
Keeps-address p q h = ground arith

command-StepKeeps :
    (s : Switches) (d : ℕ → ℕ) (n cmd i : ℕ) (body : Bytes) (p : Port) (t : Step)
    → command s d n cmd i body p ≡ t
    → StepKeeps p t
command-StepKeeps s d n cmd i body p (more j b q) h =
    elim (command_more s d n cmd i j body b p q h) [
      | inl e ↦ Keeps-address p q e
      | inr e ↦ rw e (take_coins-Keeps (d i) (d (i + 1) * 256 + d (i + 2)) p)
    ]
command-StepKeeps s d n cmd i body p (silent q) h =
    let e = command_silent s d n cmd i body p q h in rw e (record { same = refl; slots = refl })
command-StepKeeps s d n cmd i body p Step.undefined h = tt

OutcomeKeeps-trans : (p q : Port) (o : Outcome) → Keeps p q → OutcomeKeeps q o → OutcomeKeeps p o
OutcomeKeeps-trans p q (answered _ r) h k = Keeps-trans h k
OutcomeKeeps-trans p q (unanswered r) h k = Keeps-trans h k
OutcomeKeeps-trans p q undefined h k = tt

module _ (s : Switches) (d : ℕ → ℕ) (n : ℕ) where
  -- The loop after one step.
  after : ℕ → Step → Outcome
  after fuel (more j b q) = if ltb 176 (length b) then answered b q else commands s d n fuel j b q
  after fuel (silent q) = unanswered q
  after fuel Step.undefined = undefined

  commands-after :
      (fuel i : ℕ) (body : Bytes) (p : Port)
      → i < n
      → commands s d n (suc fuel) i body p ≡ after fuel (command s d n (d i) (i + 1) body p)
  unfolding commands after
  commands-after fuel i body p h = ground arith

  commands_done :
      (fuel i : ℕ) (body : Bytes) (p : Port)
      → n ≤ i
      → commands s d n fuel i body p ≡ answered body p
  unfolding commands
  commands_done zero i body p h = refl
  commands_done (suc fuel) i body p h = ground arith

  after-Keeps :
      (fuel : ℕ) (p : Port) (t : Step)
      → StepKeeps p t
      → ((j : ℕ) (b : Bytes) (q : Port) → OutcomeKeeps q (commands s d n fuel j b q))
      → OutcomeKeeps p (after fuel t)
  unfolding after
  after-Keeps fuel p (more j b q) k ih = elim (Bool-cases (ltb 176 (length b))) [
    | inl full ↦ rw full k
    | inr room ↦ rw room (OutcomeKeeps-trans p q _ k (ih j b q))
  ]
  after-Keeps fuel p (silent q) k ih = k
  after-Keeps fuel p Step.undefined k ih = tt

  commands-Keeps :
      (fuel i : ℕ) (body : Bytes) (p : Port) → OutcomeKeeps p (commands s d n fuel i body p)
  commands-Keeps zero i body p = unfold commands in Keeps-refl p
  commands-Keeps (suc fuel) i body p = elim (dec_lt i n) [
    | yes h ↦ rw (commands-after fuel i body p h) (
        after-Keeps fuel p _ (command-StepKeeps s d n (d i) (i + 1) body p _ refl)
          (λ j b q. commands-Keeps fuel j b q))
    | no h ↦ rw (commands_done (suc fuel) i body p (omega arith)) (Keeps-refl p)
  ]

  -- Up to the reply, a packet changes at most the address and the coins, and keeps their number.
  pub answer-Keeps : (dest : ℕ) (p : Port) → OutcomeKeeps p (answer s dest d n p)
  answer-Keeps dest p = elim (Bool-cases (not (dest == broadcast) && not (dest == p.address))) [
    | inl others ↦ unfold answer in rw others (Keeps-refl p)
    | inr ours ↦ unfold answer in rw ours (commands-Keeps n 0 (0x01 ∷ []) p)
  ]

out_byte-IsValid : {f : Fifo} (b : ℕ) → Fifo.IsValid f → Fifo.IsValid (out_byte f b)
unfolding out_byte
out_byte-IsValid {f} b v = elim (Bool-cases (b == sync || b == escape)) [
  | inl special ↦ rw special (push-IsValid (b - 1) (push-IsValid escape v))
  | inr plain ↦ rw plain (push-IsValid b v)
]

out_bytes-IsValid : (bs : Bytes) {f : Fifo} → Fifo.IsValid f → Fifo.IsValid (out_bytes f bs)
unfolding out_bytes
out_bytes-IsValid [] v = v
out_bytes-IsValid (b ∷ bs) v = out_bytes-IsValid bs (out_byte-IsValid b v)

-- Whether the reply fits or not, only the pipe changes, and it stays valid.
pub reply-IsValid : (body : Bytes) {p : Port} → IsValid p → IsValid (reply body p)
unfolding reply
reply-IsValid body {p} v = elim (Bool-cases (ltb 255 (length body + 1))) [
  | inl long ↦ rw long v
  | inr short ↦ rw short (record {
    pipe =
        out_byte-IsValid _ (
          out_bytes-IsValid body (out_byte-IsValid _ (out_byte-IsValid _ (push-IsValid _ v.pipe))));
    room = v.room;
    slots = v.slots;
  })
]

Keeps-IsValid : {p q : Port} → Keeps p q → IsValid p → IsValid q
Keeps-IsValid {p} {q} k v =
    rw k.same (record { pipe = v.pipe; room = v.room; slots = k.slots ∙ v.slots })

abbrev pub OutcomeIsValid : Outcome → Type 0
OutcomeIsValid (answered _ q) = IsValid q
OutcomeIsValid (unanswered q) = IsValid q
OutcomeIsValid undefined = Unit

module _ (s : Switches) (dest : ℕ) (d : ℕ → ℕ) (n : ℕ) (p : Port) where
  pub handle_packet_answered :
      {body : Bytes} {q : Port}
      → answer s dest d n p ≡ answered body q
      → handle_packet s dest d n p ≡ answered body (reply body q)
  unfolding handle_packet
  handle_packet_answered e = ground arith

  pub handle_packet_unanswered :
      {q : Port} → answer s dest d n p ≡ unanswered q → handle_packet s dest d n p ≡ unanswered q
  unfolding handle_packet
  handle_packet_unanswered e = ground arith

  handle_packet_undefined : answer s dest d n p ≡ undefined → handle_packet s dest d n p ≡ undefined
  unfolding handle_packet
  handle_packet_undefined e = ground arith

  handle_packet_cases :
      IsValid p
      → (o : Outcome) → answer s dest d n p ≡ o
      → OutcomeKeeps p o
      → OutcomeIsValid (handle_packet s dest d n p)
  handle_packet_cases v (answered b q) e k =
      rw (handle_packet_answered e) (reply-IsValid b (Keeps-IsValid k v))
  handle_packet_cases v (unanswered q) e k = rw (handle_packet_unanswered e) (Keeps-IsValid k v)
  handle_packet_cases v undefined e k = rw (handle_packet_undefined e) tt

  -- A packet, answered or not, keeps the invariant.
  pub handle_packet-IsValid : IsValid p → OutcomeIsValid (handle_packet s dest d n p)
  handle_packet-IsValid v = handle_packet_cases v _ refl (answer-Keeps s d n dest p)
