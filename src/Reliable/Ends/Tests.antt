-- ===== src/Reliable/Ends/Tests.antt =====
-- A run of the two ends of a reliable link (daemon/reliable_datagram.c).
use spines.Prelude.{ℕ, ◌<◌, ◌≡◌, refl, Bool, true, false, Option, none, some, List, [], arith}
use spines.Prelude.Options.{Returns}
use spines.Prelude.Loops.{for_from}
use spines.Reliable.Window.{RelData, Packet, Action, add_nacks_twice}
use spines.Reliable.Timer.{timeout_val}
use spines.Reliable.Sending.{reliable_send_msg, send_much}
use spines.Reliable.Receiving.{AckResult, known, process_ack}
use spines.Reliable.Receiving.Got.{got}
use spines.Reliable.Receiving.Processed.{result_of}
use spines.Reliable.Ends.{
  create_reliable_data, mail_of, Elem, here, Ends, acted, flip, Reach, stay, next, send, connect,
  flush, other, take_mail,
}
use spines.Reliable.Ends.Reliability.{start, start-reliable}
use spines.Reliable.Numbers.{numbers, cfg}

abbrev new_link : RelData ℕ
new_link = create_reliable_data numbers cfg

abbrev done : Option (RelData ℕ × List Action) → RelData ℕ × List Action
done none = (new_link, [])
done (some x) = x

-- The left end is given a message before the link is connected, and sends it then.
abbrev given : RelData ℕ × List Action
given = done (reliable_send_msg numbers cfg 1 777 60 3 new_link)

abbrev up : RelData ℕ
up = record (given.0) { connected = true }

abbrev flushed : RelData ℕ × List Action
flushed = done (send_much numbers cfg 2 up)

given-eq : reliable_send_msg numbers cfg 1 777 60 3 new_link ≡ some (given.0, given.1)
unfolding create_reliable_data reliable_send_msg
given-eq = refl

flushed-eq : send_much numbers cfg 2 up ≡ some (flushed.0, flushed.1)
unfolding create_reliable_data reliable_send_msg send_much add_nacks_twice for_from timeout_val
flushed-eq = refl

abbrev first_packet : Packet
first_packet = record {
  buff = some 777;
  data_len = 60;
  pack_type = 3;
  seq_no = 0;
  cummulative_ack = 0;
  nacks = [];
}

abbrev after_flush : Ends ℕ
after_flush =
    acted numbers cfg
      (acted numbers cfg (acted numbers cfg (start numbers cfg) given.0 (mail_of given.1)) up [])
      flushed.0 (mail_of flushed.1)

first_packet-sent : Elem (false, first_packet) after_flush.to_right
unfolding create_reliable_data reliable_send_msg send_much add_nacks_twice for_from timeout_val
first_packet-sent = here

-- The right end takes the packet.
abbrev result : Option (AckResult × RelData ℕ × List Action) → AckResult × RelData ℕ × List Action
result none = (known, new_link, [])
result (some x) = x

abbrev taken : AckResult × RelData ℕ × List Action
taken = result (process_ack numbers cfg 3 false first_packet new_link)

taken-eq : process_ack numbers cfg 3 false first_packet new_link ≡ some (taken.0, taken.1, taken.2)
unfolding create_reliable_data process_ack
taken-eq = refl

abbrev final : Ends ℕ
final = flip (acted numbers cfg (flip after_flush) taken.1 [])

received : got final.right.recv 0 ≡ true
unfolding create_reliable_data process_ack
received = refl

reached : Reach numbers cfg (start numbers cfg) final
unfolding create_reliable_data
reached =
    next
      (next
        (next (next stay (send _ 1 777 60 3 given.0 given.1 (omega arith) given-eq)) (connect _))
        (flush _ 2 flushed.0 flushed.1 flushed-eq))
      (other (take_mail _ 3 false first_packet taken.0 taken.1 taken.2 first_packet-sent taken-eq))

start-reliable_example :
    ((i : ℕ) → i < final.left.tail → got final.right.recv i ≡ true)
    × ((i : ℕ) → got final.right.recv i ≡ true → i < final.left.head)
    × ((now : ℕ) (is_ack : Bool) (p : Packet)
        → Elem (is_ack, p) final.to_right
        → Returns
            (process_ack numbers cfg now is_ack p final.right)
            (λ (r, s', out). r ≡ result_of numbers cfg is_ack (got final.right.recv p.seq_no)))
start-reliable_example = start-reliable numbers cfg final (omega arith) reached
