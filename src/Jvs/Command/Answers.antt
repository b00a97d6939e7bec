-- ===== src/Jvs/Command/Answers.antt =====
-- What a whole packet of commands gets: handle_packet up to the reply.
use systemes3recomp.Prelude.{
  ℕ, zero, suc, ◌+◌, ◌≤◌, ◌<◌, ◌≡◌, ◌≢◌, refl, subst, ◌∙◌, ◌⊎◌, Bytes, List, [], ◌∷◌, ◌++◌, length,
  All, arith,
}
use systemes3recomp.Jvs.{Port, Switches, coin_slots, broadcast}
use systemes3recomp.Jvs.Command.{more, answered, unanswered, command, commands, answer}
use systemes3recomp.Jvs.Command.Request.{Request, encode_all, reports, effects, IsRequest}
use systemes3recomp.Jvs.Command.Refine.{StandsAt, StandsAt-append, commands_before}

-- The packet is for this node.
abbrev pub IsOurs : ℕ → Port → Type 0
IsOurs dest p = (dest ≡ broadcast) ⊎ (dest ≡ p.address)

answer_ours :
    (s : Switches) (dest n : ℕ) (d : ℕ → ℕ) (p : Port)
    → IsOurs dest p
    → answer s dest d n p ≡ commands s d n n 0 (0x01 ∷ []) p
unfolding answer
answer_ours s dest n d p h = ground arith

answer_before :
    (s : Switches) (dest n : ℕ) (d : ℕ → ℕ) (p : Port) (rs : List Request)
    → IsOurs dest p
    → All IsRequest rs
    → length p.coin ≡ coin_slots
    → StandsAt d 0 (encode_all rs)
    → length (encode_all rs) ≤ n
    → length (reports s p rs) ≤ 175
    → answer s dest d n p
      ≡ commands s d n n (length (encode_all rs)) (0x01 ∷ reports s p rs) (effects p rs)
answer_before s dest n d p rs ours ok c h e room =
    let here : 0 + length (encode_all rs) ≡ length (encode_all rs) = omega arith in
    answer_ours s dest n d p ours
    ∙ commands_before s d n n 0 (0x01 ∷ []) p rs ok c h (omega arith) (omega arith) (omega arith)
    ∙ rw here

commands_end :
    (s : Switches) (d : ℕ → ℕ) (fuel i : ℕ) (body : Bytes) (p : Port)
    → commands s d i fuel i body p ≡ answered body p
unfolding commands
commands_end s d zero i body p = refl
commands_end s d (suc fuel) i body p = ground arith

commands_reset :
    (s : Switches) (d : ℕ → ℕ) (n fuel i : ℕ) (body : Bytes) (p : Port)
    → i < n
    → d i ≡ 0xF0
    → 0 < fuel
    → commands s d n fuel i body p ≡ unanswered (record p { address = 0 })
unfolding commands command
commands_reset s d n zero i body p h e f = absurd (omega arith)
commands_reset s d n (suc fuel) i body p h e f = ground arith

-- No command of the board.
abbrev pub IsUnknown : ℕ → Type 0
IsUnknown c =
    All (λ k. c ≢ k)
      (0xF0 ∷ 0xF1 ∷ 0x10 ∷ 0x11 ∷ 0x12 ∷ 0x13 ∷ 0x14 ∷ 0x20 ∷ 0x21 ∷ 0x22 ∷ 0x25 ∷ 0x26 ∷ 0x30
        ∷ 0x32 ∷ 0x31 ∷ 0x33 ∷ 0x34 ∷ 0xF2 ∷ 0xF3 ∷ [])

command_unknown :
    (s : Switches) (d : ℕ → ℕ) (n c i : ℕ) (body : Bytes) (p : Port)
    → IsUnknown c
    → command s d n c i body p ≡ more n (0x02 ∷ []) p
unfolding command
command_unknown s d n c i body p u = ground arith

commands_unknown :
    (s : Switches) (d : ℕ → ℕ) (n fuel i : ℕ) (body : Bytes) (p : Port)
    → i < n
    → IsUnknown (d i)
    → 0 < fuel
    → commands s d n fuel i body p ≡ answered (0x02 ∷ []) p
commands_unknown s d n zero i body p h e f = absurd (omega arith)
commands_unknown s d n (suc fuel) i body p h e f =
    unfold commands in
    ground
      (arith, command_unknown s d n (d i) (i + 1) body p e, commands_end s d fuel n (0x02 ∷ []) p)

-- A packet of well-formed requests for this node, whose reports come to at most 175 bytes, is
-- answered by status 1 and the reports in their order, each made after the changes of the requests
-- before it, and the changes of all of them stay.
pub answer_refines :
    (s : Switches) (dest n : ℕ) (d : ℕ → ℕ) (p : Port) (rs : List Request)
    → IsOurs dest p
    → All IsRequest rs
    → length p.coin ≡ coin_slots
    → StandsAt d 0 (encode_all rs)
    → n ≡ length (encode_all rs)
    → length (reports s p rs) ≤ 175
    → answer s dest d n p ≡ answered (0x01 ∷ reports s p rs) (effects p rs)
answer_refines s dest n d p rs ours ok c h e room =
    answer_before s dest n d p rs ours ok c h (omega arith) room
    ∙ rw e (
        commands_end s d (length (encode_all rs)) (length (encode_all rs)) (0x01 ∷ reports s p rs)
          (effects p rs))

-- A packet for another node is not answered and changes nothing.
pub answer_others :
    (s : Switches) (dest n : ℕ) (d : ℕ → ℕ) (p : Port)
    → dest ≢ broadcast
    → dest ≢ p.address
    → answer s dest d n p ≡ unanswered p
unfolding answer
answer_others s dest n d p h k = ground arith

-- A reset behind well-formed requests, whose reports come to at most 175 bytes, takes the address
-- away and is not answered, whatever follows it; the changes of the requests before it stay.
pub answer_reset :
    (s : Switches) (dest n : ℕ) (d : ℕ → ℕ) (p : Port) (rs : List Request)
    → IsOurs dest p
    → All IsRequest rs
    → length p.coin ≡ coin_slots
    → StandsAt d 0 (encode_all rs ++ (0xF0 ∷ []))
    → length (encode_all rs) < n
    → length (reports s p rs) ≤ 175
    → answer s dest d n p ≡ unanswered (record (effects p rs) { address = 0 })
answer_reset s dest n d p rs ours ok c h e room =
    let stands = StandsAt-append d (encode_all rs) (0xF0 ∷ []) 0 h in
    answer_before s dest n d p rs ours ok c stands.0 (omega arith) room
    ∙ commands_reset s d n n (length (encode_all rs)) (0x01 ∷ reports s p rs) (effects p rs) e
        (subst (λ j. d j ≡ 0xF0) (omega arith) stands.1.0) (omega arith)

-- A command that the board does not know, behind well-formed requests whose reports come to at most
-- 175 bytes, turns the answer into the single status 2: their reports are lost, and their changes
-- stay.
pub answer_unknown :
    (s : Switches) (dest n : ℕ) (d : ℕ → ℕ) (p : Port) (rs : List Request)
    → IsOurs dest p
    → All IsRequest rs
    → length p.coin ≡ coin_slots
    → StandsAt d 0 (encode_all rs)
    → length (encode_all rs) < n
    → IsUnknown (d (length (encode_all rs)))
    → length (reports s p rs) ≤ 175
    → answer s dest d n p ≡ answered (0x02 ∷ []) (effects p rs)
answer_unknown s dest n d p rs ours ok c h e u room =
    answer_before s dest n d p rs ours ok c h (omega arith) room
    ∙ commands_unknown s d n n (length (encode_all rs)) (0x01 ∷ reports s p rs) (effects p rs) e u
        (omega arith)
