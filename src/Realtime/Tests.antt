-- ===== src/Realtime/Tests.antt =====
-- Runs of a realtime link (daemon/realtime_udp.c).
use spines.Prelude.{
  false, ◌%◌, ◌<◌, ℕ, ◌+◌, ◌*◌, ◌≤◌, ◌≡◌, refl, true, none, some, List, [], ◌∷◌, length, arith,
}
use spines.Prelude.Loops.{for_from}
use spines.Realtime.{max_history, RtData, empty_cell, is_old}
use spines.Realtime.Receive.{
  process_data, accept, open_window, make_room, mark_lost, add_nack, clear, mark_received,
  advance_tail, delivered,
}
use spines.Realtime.Receive.Window.{IsWindow}
use spines.Realtime.Receive.Once.{
  deliveries, AllSmall, Processed, process_data-Processed, delivered_once,
}
use spines.Realtime.Send.{
  Env, Message, clean_rt_history, clean_rounds, process_rt_nack_packet, resend, send_rt_retransm,
}
use spines.Realtime.Send.Laws.{IsHistory, Resent, in_history}
use spines.Realtime.Send.Retransm.{retransm-Resent}

-- `Link_Send` takes 1200 bytes of a request.
abbrev nack_room : ℕ
nack_room = 1200

abbrev fresh : RtData
fresh = record {
  head = 0;
  tail = 0;
  window = λ i. record { buff = none; len = 0; timestamp = 0 };
  recv_head = 0;
  recv_tail = 0;
  recv_window = λ i. record { flags = empty_cell; timestamp = 0 };
  nacks = [];
  retransm = none;
  bucket = 0;
}

fresh-IsWindow : IsWindow fresh
fresh-IsWindow = omega arith

fresh-IsHistory : IsHistory fresh
fresh-IsHistory = record {
  ordered = omega arith;
  fits = omega arith;
  held = λ s lo hi. absurd (omega arith);
  tokens = omega arith;
}

-- The packet 2 comes first and requests 0 and 1; then 0 comes twice.
abbrev script : List (ℕ × ℕ)
script = (10, 2) ∷ (20, 0) ∷ (30, 0) ∷ []

script-AllSmall : AllSmall script
script-AllSmall = omega arith

first_comes :
    let (v, d) = process_data nack_room 10 2 fresh in
    (v ≡ delivered true) × (d.nacks ≡ 0 ∷ 1 ∷ []) × (d.recv_head ≡ 3) × (d.recv_tail ≡ 0)
unfolding process_data advance_tail accept open_window make_room for_from mark_lost add_nack clear
    mark_received
first_comes = (refl, refl, refl, refl)

process_data-Processed_example :
    Processed nack_room 10 2 fresh (process_data nack_room 10 2 fresh).1
process_data-Processed_example =
    process_data-Processed nack_room 10 2 fresh fresh-IsWindow (omega arith)

delivered_once_example : deliveries nack_room 0 script fresh ≤ 1
delivered_once_example = delivered_once nack_room 0 script fresh fresh-IsWindow script-AllSmall

abbrev env : Env
env = record { network_flag = true; link_send = λ s. true }

abbrev message : Message
message = record { buff = 77; len = 100; dissemination = some 24 }

-- One packet is in the history, with four tokens.
abbrev sent_one : RtData
sent_one = record fresh {
  head = 1;
  window = λ i. record { buff = some 77; len = 132; timestamp = 5 };
  bucket = 4;
}

sent_one-IsHistory : IsHistory sent_one
sent_one-IsHistory = record {
  ordered = omega arith;
  fits = omega arith;
  held = λ s lo hi e. cc;
  tokens = omega arith;
}

-- Of the requested packets only 0 was sent.
abbrev requested : List ℕ
requested = 3 ∷ 0 ∷ []

resends :
    (send_rt_retransm env 6 (process_rt_nack_packet 2 requested sent_one)).0
    ≡ (0, record { buff = some 77; len = 132; timestamp = 5 }) ∷ []
unfolding send_rt_retransm process_rt_nack_packet clean_rt_history clean_rounds resend is_old
resends = refl

retransm-Resent_example :
    let (sent, d') = send_rt_retransm env 6 (process_rt_nack_packet 2 requested sent_one) in
    Resent sent_one.tail sent_one.head sent_one.window requested sent
    × (length sent * 2 + d'.bucket ≤ sent_one.bucket)
    × ((env.network_flag ≡ true)
        → ((s : ℕ) → env.link_send s ≡ true)
        → length requested * 2 ≤ sent_one.bucket
        → (first : ℕ) × (sent_one.tail ≤ first)
          × ((i : ℕ)
              → sent_one.tail ≤ i
              → i < first
              → is_old 6 (sent_one.window (i % max_history)).timestamp ≡ true)
          × (first < sent_one.head
              → is_old 6 (sent_one.window (first % max_history)).timestamp ≡ false)
          × (sent ≡ in_history first sent_one.head sent_one.window requested))
    × (d'.retransm ≡ none)
    × IsHistory d'
retransm-Resent_example = retransm-Resent env 6 requested sent_one sent_one-IsHistory
