-- ===== src/Jvs/Tests.antt =====
-- Runs of the JVS board on small inputs, and the theorems about it at concrete inputs.
use systemes3recomp.Prelude.{
  ℕ, ◌+◌, ◌^◌, ◌≤◌, ◌≡◌, ◌≢◌, refl, inl, inr, true, false, Option, some, none, Bytes, List, [], ◌∷◌,
  ◌++◌, arith, length, get_or,
}
use systemes3recomp.Fifo
use systemes3recomp.Fifo.Refine.{contents}
use systemes3recomp.Jvs.{Port, initial_port, initial_switches}
use systemes3recomp.Jvs.Frame.{reply, out_byte, out_bytes}
use systemes3recomp.Jvs.Frame.Wire.{escape_byte, check_sum, frame, reply_refines}
use systemes3recomp.Jvs.Command.{
  Outcome, answered, answer, commands, command, write_body, take_coins, handle_packet, coin_bytes,
}
use systemes3recomp.Jvs.Command.Request.{
  Request, set_address, drop_coins, read_coins, encode_all, reports, effects,
}
use systemes3recomp.Jvs.Command.Answers.{answer_refines}
use systemes3recomp.Jvs.Command.Overflow.{answer_overflows}
use systemes3recomp.Jvs.Receive.{
  consumed, starved, consume_input, consume, find_sync, scan, size_of, is_whole, packet,
}
use systemes3recomp.Jvs.Receive.Packets.{data_of, consume_input-frame}
use systemes3recomp.Jvs.Receive.Rounds.{resume, consume_input-ne-starved}
use systemes3recomp.Jvs.Receive.Stuck.{consume_input_stuck}
use systemes3recomp.Jvs.Line.{Effect, insert_coin, append_input, finish_read, post_read, write}
use systemes3recomp.Jvs.Line.Kept.{IsValid}
use systemes3recomp.Jvs.Line.Invariant.{start, next, coin, Reach-IsValid}
use systemes3recomp.Jvs.Line.Reads.{posted_read_ends}
use systemes3recomp.Jvs.Line.Exchange.{write_requests}

-- The stack holds zeros.
abbrev zeros : ℕ → ℕ
zeros _ = 0

-- Noise, then SET ADDRESS 1 to every node.
abbrev wire : Bytes
wire = 0x00 ∷ 0xE0 ∷ 0xFF ∷ 0x03 ∷ 0xF1 ∷ 0x01 ∷ 0xF4 ∷ []

abbrev coins : Port
coins = record initial_port { coin = 5 ∷ 0 ∷ 0 ∷ [] }

-- Take the address 1, spend two coins of slot 1, and report the coins of one slot.
abbrev asks : List Request
asks = set_address 1 ∷ drop_coins 1 0 2 ∷ read_coins 1 ∷ []

reports-asks : reports initial_switches coins asks ≡ 1 ∷ 1 ∷ 1 ∷ 0 ∷ 3 ∷ []
unfolding coin_bytes
reports-asks = refl

frame-asks :
    frame 0 (0x01 ∷ 1 ∷ 1 ∷ 1 ∷ 0 ∷ 3 ∷ []) ≡ 0xE0 ∷ 0 ∷ 7 ∷ 1 ∷ 1 ∷ 1 ∷ 1 ∷ 0 ∷ 3 ∷ 14 ∷ []
unfolding escape_byte
frame-asks = refl

contents-empty : contents Fifo.empty ≡ []
unfolding contents
contents-empty = refl

coins-IsValid : IsValid coins
coins-IsValid = omega arith

asks_room :
    length (contents coins.out) + length (frame 0 (0x01 ∷ reports initial_switches coins asks))
    ≤ 4095
asks_room = unfold contents coin_bytes escape_byte in omega arith

asks_short : length (reports initial_switches coins asks) ≤ 175
asks_short = unfold coin_bytes in omega arith

out_of : Option (Port × List Effect) → Bytes
out_of none = []
out_of (some (p, _)) = (Fifo.take_out p.out 100).0

-- What the game sends and gets for it, as bytes.
exchange :
    out_of (
      write zeros initial_switches true 0
        (0xE0 ∷ 0xFF ∷ 9 ∷ 0xF1 ∷ 1 ∷ 0x30 ∷ 1 ∷ 0 ∷ 2 ∷ 0x21 ∷ 1 ∷ 0x4F ∷ [])
        coins)
    ≡ 0xE0 ∷ 0 ∷ 7 ∷ 1 ∷ 1 ∷ 1 ∷ 1 ∷ 0 ∷ 3 ∷ 14 ∷ []
unfolding out_of write append_input consume_input consume find_sync scan size_of is_whole packet
    handle_packet answer commands command write_body take_coins coin_bytes reply out_byte out_bytes
    Fifo.push Fifo.take_out finish_read
exchange = refl

write_requests_example :
    (q : Port) × (write zeros initial_switches true 0 (frame 0xFF (encode_all asks)) coins
      ≡ some (finish_read true 0 q))
    × (contents q.out ≡ contents coins.out ++ frame 0 (0x01 ∷ reports initial_switches coins asks))
    × (q ≡ record (effects coins asks) { out = q.out; in_bytes = [] })
write_requests_example =
    write_requests zeros initial_switches true 0 0xFF asks coins coins-IsValid refl (inl refl)
      (omega arith) (omega arith) (omega arith) (omega arith) asks_short asks_room

consume_input-frame_example :
    consume_input zeros initial_switches
      (record initial_port { in_bytes = (7 ∷ []) ++ (frame 0xFF (0xE0 ∷ []) ++ (5 ∷ [])) })
    ≡ resume (consume_input zeros initial_switches) (5 ∷ []) (
        handle_packet initial_switches 0xFF
          (data_of zeros 0xFF (0xE0 ∷ []) (check_sum 0xFF (0xE0 ∷ [])))
          1
          (record initial_port { in_bytes = frame 0xFF (0xE0 ∷ []) ++ (5 ∷ []) }))
consume_input-frame_example =
    consume_input-frame zeros initial_switches 0xFF (0xE0 ∷ []) (7 ∷ []) (5 ∷ [])
      (record initial_port { in_bytes = (7 ∷ []) ++ (frame 0xFF (0xE0 ∷ []) ++ (5 ∷ [])) })
      ((λ e. absurd (omega arith)), tt) (omega arith) (omega arith) (omega arith) refl

consume_input-ne-starved_example :
    consume_input zeros initial_switches (record initial_port { in_bytes = wire }) ≢ starved
consume_input-ne-starved_example =
    consume_input-ne-starved zeros initial_switches (record initial_port { in_bytes = wire })

consume_input_stuck_example :
    consume_input zeros initial_switches
      (record initial_port { in_bytes = 0xE0 ∷ (escape_byte 0xFF ++ (0 ∷ wire)) })
    ≡ consumed (record initial_port { in_bytes = 0xE0 ∷ (escape_byte 0xFF ++ (0 ∷ wire)) })
consume_input_stuck_example =
    consume_input_stuck zeros initial_switches 0xFF 0 wire
      (record initial_port { in_bytes = 0xE0 ∷ (escape_byte 0xFF ++ (0 ∷ wire)) }) (omega arith)
      (inl refl) refl

-- The commands of `asks`, then a command byte.
abbrev data_at : ℕ → ℕ → ℕ
data_at c i = get_or (encode_all asks ++ (c ∷ [])) i 0

answer_refines_example :
    answer initial_switches 0xFF (data_at 0) 8 coins
    ≡ answered (0x01 ∷ reports initial_switches coins asks) (effects coins asks)
answer_refines_example =
    answer_refines initial_switches 0xFF 8 (data_at 0) coins asks (inl refl) (omega arith) refl
      (omega arith) refl asks_short

answer_overflows_example :
    answer initial_switches 0xFF (λ i. get_or (0x22 ∷ 200 ∷ []) i 0) 2 coins ≡ Outcome.undefined
answer_overflows_example =
    answer_overflows initial_switches 0xFF 2 (λ i. get_or (0x22 ∷ 200 ∷ []) i 0) coins (inl refl)
      (omega arith) (inl (inr (inl refl), omega arith))

reply_refines_example :
    Fifo.IsValid (reply (1 ∷ []) initial_port).out
    × (contents (reply (1 ∷ []) initial_port).out ≡ contents initial_port.out ++ frame 0 (1 ∷ []))
    × (reply (1 ∷ []) initial_port
        ≡ record initial_port { out = (reply (1 ∷ []) initial_port).out })
reply_refines_example =
    reply_refines (1 ∷ []) initial_port (omega arith)
      (rw contents-empty (unfold escape_byte in omega arith)) (omega arith)

-- A board that a coin was put into.
Reach-IsValid_example : IsValid (insert_coin initial_port)
Reach-IsValid_example = Reach-IsValid zeros (next start coin)

-- A port whose read of three bytes waits, with two bytes there.
abbrev reading : Port
reading = record initial_port {
  out = record { out = λ i. i + 10; head = 4095; tail = 1 };
  read_pending = true;
  read_len = 3;
  read_deadline = 100;
}

posted_read_ends_example :
    (finish_read true (2 ^ 32 + 7) (post_read true 7 1 0x1000 3 0 0 initial_port).0).0.read_pending
    ≡ false
posted_read_ends_example =
    posted_read_ends true 7 (2 ^ 32 + 7) 1 0x1000 3 0 0 initial_port (omega arith) (omega arith)
