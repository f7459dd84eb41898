-- ===== src/Reliable/Tests.antt =====
-- Runs of the functions of daemon/reliable_datagram.c.
use spines.Prelude.{
  List, ltb, ℕ, ◌+◌, ◌*◌, ◌≤◌, ◌<◌, ◌≡◌, ◌⊎◌, refl, true, false, ◌||◌, none, some, [], ◌∷◌, ◌==◌,
  if◌then◌else◌, arith,
}
use spines.Prelude.Options.{Returns}
use spines.Prelude.Loops.{for_from}
use spines.Realtime.{empty_cell, recvd_cell}
use spines.Reliable.{ReliableData, Env, send_ack, add_request, is_due}
use spines.Reliable.Window.{stream_window, BufferCell, RelData, Packet}
use spines.Reliable.Window.Outstanding.{IsInOrder}
use spines.Reliable.Timer.{
  timeout_val, timeout_val_ack, wireless_delay, base_timeout, base_timeout_ack,
}
use spines.Reliable.Timer.Bounds.{micros, Scaled, timeout_val_bounds}
use spines.Reliable.Sending.{reliable_send_msg}
use spines.Reliable.Sending.Kept.{Sent, reliable_send_msg-Sent}
use spines.Reliable.Receiving.{
  advance_tail, grow, measure, release, release_from, receive, settle, acknowledge, keep_nacks,
  process_ack,
}
use spines.Reliable.Datagrams.{Datagram, schedule_ack, process_rel_udp_data_packet}
use spines.Reliable.Datagrams.Once.{process_all, IsSound, Once, process_all-Once}
use spines.Reliable.Receiving.Processed.{IsReceivable, Processed, process_ack-Processed}
use spines.Reliable.Resending.{reliable_timeout, send_nack_retransm}
use spines.Reliable.Resending.Whole.{
  HasMinimum, TimedOut, reliable_timeout-TimedOut, Answered, send_nack_retransm-Answered,
}
use spines.Reliable.Numbers.{numbers, cfg}
use spines.Reliable.Acks.{Asked, send_ack-Asked}

abbrev env : Env
env = record { fast_retransmit = false; room = 1400 }

-- 7 and 9 are missing, and 9 is too near to the head 11.
abbrev holes : ReliableData
holes = record {
  recv_head = 11;
  recv_tail = 7;
  recv_window =
      λ i. record { flag = (if i == 7 || i == 9 then empty_cell else recvd_cell); nack_sent = 0 };
  rtt = 100;
  scheduled_ack = true;
}

requests_hole : (send_ack env 5000 holes).1.0 ≡ 7 ∷ []
unfolding send_ack add_request is_due for_from
requests_hole = refl

send_ack-Asked_example :
    ((send_ack env 5000 holes).0 ≡ 7)
    × Asked env 5000 holes 11 (send_ack env 5000 holes).1.0 (send_ack env 5000 holes).1.1
send_ack-Asked_example = send_ack-Asked env 5000 holes (omega arith) (omega arith)

abbrev cell_of_number : ℕ → BufferCell
cell_of_number i = record {
  seq_no = i;
  buff = if ltb i 6 then some (100 + i) else none;
  pack_type = 3;
  data_len = 40;
  timestamp = 0;
  resent = false;
}

-- 8 and 10 are there, 7 and 9 are missing.
abbrev receiving : ReliableData
receiving = record {
  recv_head = 11;
  recv_tail = 7;
  recv_window =
      λ i. record { flag = (if i == 8 || i == 10 then recvd_cell else empty_cell); nack_sent = 0 };
  rtt = 100;
  scheduled_ack = true;
}

-- 4 and 5 are sent and not acknowledged, 6 waits in front of the window.
abbrev busy : RelData ℕ
busy = record {
  recv = receiving;
  connected = true;
  seq_no = 7;
  msg_buff = record (cell_of_number 6) { buff = some 106 } ∷ [];
  window_size = 2;
  max_size = 20000;
  ssthresh = 20000;
  window = cell_of_number;
  head = 6;
  tail = 4;
  nacks = 4 ∷ [];
  scheduled_timeout = true;
  timeout_multiply = 2;
  cong_flag = true;
  blocked_on = none;
}

busy-IsInOrder : IsInOrder numbers busy
busy-IsInOrder = record {
  ordered = omega arith;
  fits = omega arith;
  numbered = (refl, refl, refl);
  below = omega arith;
  size = omega arith;
  within = refl;
  stored = λ j h. ground arith;
  held = λ i lo hi. (omega arith, ground arith);
}

busy-HasMinimum : HasMinimum numbers cfg busy
busy-HasMinimum = record { positive = omega arith; minimum = omega arith }

reliable_send_msg-Sent_example :
    Returns
      (reliable_send_msg numbers cfg 50 777 60 3 busy)
      (λ (s', out). Sent numbers cfg 50 busy (some 777, 60) s' out)
reliable_send_msg-Sent_example =
    reliable_send_msg-Sent numbers cfg 50 777 60 3 busy busy-IsInOrder (omega arith)

-- The other end has what is below 5 and sends its number 9.
abbrev nine : Packet
nine = record {
  buff = some 900;
  data_len = 40;
  pack_type = 3;
  seq_no = 9;
  cummulative_ack = 5;
  nacks = [];
}

nine-IsReceivable : IsReceivable numbers cfg false nine busy
nine-IsReceivable = record {
  clean = record {
    ordered = omega arith;
    fits = omega arith;
    below = omega arith;
    beyond = λ i lo hi. ground arith;
  };
  hole = refl;
  near = λ e. omega arith;
  small = λ e. omega arith;
}

process_ack-Processed_example :
    Returns
      (process_ack numbers cfg 50 false nine busy)
      (λ (r, s', out). Processed numbers cfg false nine busy r s')
process_ack-Processed_example =
    process_ack-Processed numbers cfg 50 false nine busy busy-IsInOrder nine-IsReceivable

reliable_timeout-TimedOut_example :
    (busy.connected ≡ true
      → Returns
          (reliable_timeout numbers cfg 50 busy)
          (λ (s', out). TimedOut numbers cfg busy s' out))
    × (busy.connected ≡ false → reliable_timeout numbers cfg 50 busy ≡ none)
reliable_timeout-TimedOut_example =
    reliable_timeout-TimedOut numbers cfg 50 busy busy-IsInOrder busy-HasMinimum

send_nack_retransm-Answered_example :
    (busy.connected ≡ true
      → Returns
          (send_nack_retransm numbers cfg 50 busy)
          (λ (s', out). Answered numbers cfg busy s' out))
    × (busy.connected ≡ false → send_nack_retransm numbers cfg 50 busy ≡ none)
send_nack_retransm-Answered_example =
    send_nack_retransm-Answered numbers cfg 50 busy busy-IsInOrder busy-HasMinimum

timeout_val_bounds_example :
    let t = timeout_val none 700000 4 in
    let t' = timeout_val_ack none 700000 4 in
    let twice = timeout_val none 700000 (4 * 2) in
    Scaled 4 (wireless_delay none (base_timeout 700000)) t
    × Scaled 4 (wireless_delay none (base_timeout_ack 700000)) t'
    × ((9 ≤ twice.0) ⊎ (micros twice ≡ micros t * 2))
    × (0 < 700000 → t' ≡ t)
    × (micros (base_timeout 0) ≡ 1000000)
    × (micros (base_timeout_ack 0) ≡ 2000)
timeout_val_bounds_example = timeout_val_bounds none 700000 4 (omega arith) (omega arith)

abbrev datagram : Packet → Datagram
datagram p = record { num_elements = 2; len = 100; is_ack = false; packet = p }

abbrev seven : Packet
seven = record nine { buff = some 700; seq_no = 7 }

-- 9 comes twice, then 7.
abbrev datagrams : List (ℕ × Datagram)
datagrams = (50, datagram nine) ∷ (60, datagram nine) ∷ (70, datagram seven) ∷ []

delivers_once : Returns (process_all numbers cfg 28 datagrams busy) (λ (ns, s'). ns ≡ 9 ∷ 7 ∷ [])
unfolding process_all process_rel_udp_data_packet process_ack keep_nacks acknowledge settle receive
    schedule_ack release_from release measure grow stream_window advance_tail
delivers_once = refl

busy-IsSound : IsSound numbers cfg 28 busy
busy-IsSound = record { in_order = busy-IsInOrder; clean = nine-IsReceivable.clean; hole = refl }

process_all-Once_example :
    Returns (process_all numbers cfg 28 datagrams busy) (λ (ns, s'). Once numbers cfg 28 busy ns s')
process_all-Once_example =
    process_all-Once numbers cfg 28 datagrams busy busy-IsSound
      (omega arith, omega arith, (omega arith, omega arith, (omega arith, omega arith, tt)))
