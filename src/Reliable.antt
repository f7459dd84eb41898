-- ===== src/Reliable.antt =====
-- `Send_Ack` of daemon/reliable_datagram.c: the acknowledgement of a reliable link, with its requests
-- for missing packets.
pub mod Ends
pub mod Datagrams
pub mod Resending
pub mod Receiving
pub mod Acks
pub mod Window
pub mod Timer
pub mod Sending
pub mod Numbers
mod Tests
use spines.Prelude.{
  ℕ, ◌+◌, ◌-◌, ◌*◌, ◌%◌, Bool, true, false, ◌&&◌, ◌||◌, not, List, [], ◌∷◌, ◌++◌, ltb, ◌==◌,
  if◌then◌else◌, length,
}
use spines.Prelude.Loops.{for_from}
use spines.Realtime.{CellFlag, empty_cell, recvd_cell, nack_cell, sent_cell, store, is_empty}

-- MAX_WINDOW
abbrev pub max_window : ℕ
max_window = 20000

-- A time is its number of microseconds.
pub record RelCell : Type 0 where
  pub flag : CellFlag
  pub nack_sent : ℕ

-- The fields of `Reliable_Data` that the function uses.
pub record ReliableData : Type 0 where
  pub recv_head : ℕ
  pub recv_tail : ℕ
  pub recv_window : ℕ → RelCell
  pub rtt : ℕ
  pub scheduled_ack : Bool

-- `recv_window[i % MAX_WINDOW]`
abbrev pub window_cell : ReliableData → ℕ → RelCell
window_cell d i = d.recv_window (i % max_window)

abbrev pub is_nack : CellFlag → Bool
is_nack empty_cell = false
is_nack recvd_cell = false
is_nack nack_cell = true
is_nack sent_cell = false

-- How long a request is not repeated.
abbrev pub repeat_after : ℕ → ℕ
repeat_after rtt = if rtt == 0 then 1000000 else rtt * 2

-- `Fast_Retransmit`, and the room for requests in a packet: the size of its body less a number.
pub record Env : Type 0 where
  pub fast_retransmit : Bool
  pub room : ℕ

module _ (env : Env) (now : ℕ) where
  -- The tests of the loop's body: `i` is requested, for the first time or again.
  unfoldable pub is_due : ℕ → ℕ → RelCell → ℕ → Bool
  is_due recv_head rtt cell i =
      if is_empty cell.flag
      then ltb 3 (recv_head - i) || (ltb 1 (recv_head - i) && env.fast_retransmit)
      else is_nack cell.flag && ltb (cell.nack_sent + repeat_after rtt) now

  -- The loop's body. Once there is no room it changes nothing more, as after the code's `break`.
  unfoldable pub add_request : ℕ → List ℕ × ReliableData → List ℕ × ReliableData
  add_request i (nacks, d) =
      if ltb env.room (8 + length nacks * 4) || not (is_due d.recv_head d.rtt (window_cell d i) i)
      then (nacks, d)
      else (
        nacks ++ (i ∷ []),
        record d {
          recv_window =
              store d.recv_window (i % max_window) (record { flag = nack_cell; nack_sent = now });
        },
      )

  -- The cumulative acknowledgement, the requested numbers and the state.
  unfoldable pub send_ack : ReliableData → ℕ × (List ℕ × ReliableData)
  send_ack d = (
    d.recv_tail,
    for_from (d.recv_head - d.recv_tail) d.recv_tail add_request
        ([], record d { scheduled_ack = false }),
  )
