-- ===== src/Realtime/Receive.antt =====
-- `Process_RT_UDP_data_packet` of daemon/realtime_udp.c: the receive window of a realtime link.
pub mod Window
pub mod Accept
pub mod Once
use spines.Prelude.{
  ℕ, zero, suc, ◌+◌, ◌-◌, ◌*◌, ◌%◌, ◌^◌, Bool, true, false, ◌&&◌, ◌||◌, not, Option, none, some,
  List, [], ◌∷◌, ◌++◌, ltb, leb, ◌==◌, if◌then◌else◌, length,
}
use spines.Prelude.Loops.{for_from}
use spines.Realtime.{
  RtData, RecvCell, CellFlag, empty_cell, recvd_cell, is_empty, max_history, store, is_old,
}

-- `recv_window[i % MAX_HISTORY]`
abbrev pub cell : RtData → ℕ → RecvCell
cell d i = d.recv_window (i % max_history)

abbrev pub flag : RtData → ℕ → CellFlag
flag d i = (cell d i).flags

-- `recv_window[i % MAX_HISTORY].flags = EMPTY_CELL`
unfoldable pub clear : ℕ → RtData → RtData
clear i d = record d {
  recv_window =
      store d.recv_window (i % max_history)
        (record { flags = empty_cell; timestamp = (cell d i).timestamp });
}

-- The inner loop: the first number from `i` on whose cell is not empty, or `i + rounds`.
unfoldable pub first_kept : RtData → ℕ → ℕ → ℕ
first_kept d zero i = i
first_kept d (suc rounds) i =
    let rest = first_kept d rounds (suc i) in if is_empty (flag d i) then rest else i

-- The loop that advances the receive tail over packets that are old; the tail rises in each round,
-- so `recv_head - recv_tail` rounds are enough.
unfoldable pub advance_tail : ℕ → ℕ → RtData → RtData
advance_tail now zero d = d
advance_tail now (suc fuel) d =
    let i = first_kept d (d.recv_head - d.recv_tail) d.recv_tail in
    let rest = advance_tail now fuel (record (clear i d) { recv_tail = i + 1 }) in
    if ltb d.recv_tail d.recv_head
    then if i == d.recv_head then d else if is_old now (cell d i).timestamp then rest else d
    else d

-- A round of the loop that makes room in the history.
unfoldable pub drop_tail : RtData → RtData
drop_tail d = record (clear d.recv_tail d) { recv_tail = d.recv_tail + 1 }

-- `while(seq_no - recv_tail >= MAX_HISTORY)`, a round for each number by which it is too large.
unfoldable pub make_room : ℕ → RtData → RtData
make_room seq_no d = for_from (seq_no - d.recv_tail + 1 - max_history) 0 (λ _ s. drop_tail s) d

-- What is done with a packet. The flag of `delivered` is whether `Send_RT_Nack` is queued.
pub data Verdict : Type 0 where
  malformed old duplicate : Verdict
  delivered : Bool → Verdict

unfoldable pub mark_received : ℕ → ℕ → RtData → RtData
mark_received now seq_no d = record d {
  recv_window =
      store d.recv_window (seq_no % max_history) (record { flags = recvd_cell; timestamp = now });
}

-- `sizeof(packet_body) - sizeof(udp_header)` is a number that the packet size fixes.
module _ (nack_room : ℕ) where
  -- A lost packet is added to the retransmission request while there is room for it.
  unfoldable pub add_nack : ℕ → RtData → RtData
  add_nack i d =
      if ltb (length d.nacks * 8 + 16) nack_room
      then record d { nacks = d.nacks ++ (i ∷ []) }
      else d

  unfoldable pub mark_lost : ℕ → RtData → RtData
  mark_lost i d = add_nack i (clear i d)

  -- The branch for a number that is not below the head.
  unfoldable pub open_window : ℕ → RtData → RtData
  open_window seq_no d =
      let d₁ = make_room seq_no d in
      let d₂ = for_from (seq_no - d₁.recv_head) d₁.recv_head mark_lost d₁ in
      record d₂ { recv_head = (seq_no + 1) % 2 ^ 64 }

  -- The packet is new.
  unfoldable pub accept : ℕ → ℕ → RtData → Verdict × RtData
  accept now seq_no d =
      let opened = open_window seq_no d in
      if leb d.recv_head seq_no
      then (delivered (ltb 0 (length opened.nacks)), mark_received now seq_no opened)
      else (delivered false, mark_received now seq_no d)

  unfoldable pub process_data : ℕ → ℕ → RtData → Verdict × RtData
  process_data now seq_no d =
      if ltb seq_no d.recv_tail
      then (old, d)
      else if ltb seq_no d.recv_head && not (is_empty (flag d seq_no))
      then (duplicate, d)
      else accept now seq_no (advance_tail now (d.recv_head - d.recv_tail) d)

  -- `Process_RT_UDP_data_packet`, with the number of elements of the message, the length of its second
  -- one, and `sizeof(udp_header)`.
  unfoldable pub process_rt_udp_data_packet : ℕ → ℕ → ℕ → ℕ → ℕ → RtData → Verdict × RtData
  process_rt_udp_data_packet header_size num_elements len now seq_no d =
      if not (num_elements == 2) || ltb len header_size
      then (malformed, d)
      else process_data now seq_no d
