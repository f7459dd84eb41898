-- ===== src/Reliable/Receiving.antt =====
-- `Process_Ack`, `Process_ack_packet` and `Try_to_Send` of daemon/reliable_datagram.c.
pub mod Processed
pub mod Freed
pub mod Got
use spines.Prelude.{
  ℕ, zero, suc, ◌+◌, ◌-◌, ◌*◌, ◌/◌, ◌%◌, ◌^◌, Bool, true, false, ◌&&◌, ◌||◌, not, Option, none,
  some, List, [], ◌∷◌, ◌++◌, ltb, ◌==◌, if◌then◌else◌, length, take,
}
use spines.Prelude.Options.{◌>>=◌}
use spines.Realtime.{CellFlag, empty_cell, recvd_cell, nack_cell, sent_cell, store}
use spines.Reliable.{max_window, RelCell, ReliableData, window_cell}
use spines.Reliable.Window.{
  Floats, Config, BufferCell, RelData, Packet, Action, queue_timeout, dequeue_timeout,
  queue_retransm, queue_try_to_send, sent_cell_at, is_nil, stream_window,
}
use spines.Reliable.Window.Outstanding.{is_some}
use spines.Reliable.Timer.{timeout_val_ack}
use spines.Reliable.Sending.{send_much}

-- The results 1, 0 and -1.
pub data AckResult : Type 0 where
  fresh known only_ack : AckResult

abbrev pub is_recvd : CellFlag → Bool
is_recvd empty_cell = false
is_recvd recvd_cell = true
is_recvd nack_cell = false
is_recvd sent_cell = false

-- `recv_window[i % MAX_WINDOW].flag = flag`
abbrev pub set_flag : CellFlag → ℕ → ReliableData → ReliableData
set_flag f i d = record d {
  recv_window = store d.recv_window (i % max_window) (record (window_cell d i) { flag = f });
}

-- The loop that moves the receive tail over what is there: a round for each number up to the head.
unfoldable pub advance_tail : ℕ → ReliableData → ReliableData
advance_tail zero d = d
advance_tail (suc rounds) d =
    let rest =
      advance_tail rounds
        (record (set_flag empty_cell d.recv_tail d) { recv_tail = (d.recv_tail + 1) % 2 ^ 32 }) in
    if is_recvd (window_cell d d.recv_tail).flag then rest else d

abbrev pub raise_head : ℕ → ReliableData → ReliableData
raise_head seq d = record d {
  recv_head = if ltb seq d.recv_head then d.recv_head else (seq + 1) % 2 ^ 32;
}

-- The part on the receiving window: whether the number is new, and the window with it.
unfoldable pub receive : ℕ → ReliableData → Bool × ReliableData
unfolding advance_tail
receive seq d =
    if is_recvd (window_cell d seq).flag || ltb seq d.recv_tail
    then (false, d)
    else (let d' = set_flag recvd_cell seq (raise_head seq d) in
        (true, advance_tail (d'.recv_head - d'.recv_tail) d'))

module _ (fl : Floats) (cfg : Config) where
  open fl use {Float, float, lt, add, div}

  -- The requests are kept for `Send_Nack_Retransm`, as far as there is room.
  unfoldable pub keep_nacks : List ℕ → RelData Float → RelData Float × List Action
  keep_nacks nacks s =
      let room =
        if ltb cfg.body_size (length s.nacks * 4 + length nacks * 4)
        then (cfg.body_size - length s.nacks * 4) / 4
        else length nacks in
      (
        record s { nacks = if is_nil nacks then s.nacks else s.nacks ++ take room nacks },
        if is_nil nacks then [] else queue_retransm ∷ [],
      )

  -- The round trip time is measured at every tenth number, if that was not sent again.
  unfoldable pub measure : ℕ → ℕ → RelData Float → RelData Float
  measure now ack s =
      let c = sent_cell_at s (ack - 1) in
      let estimate = now - c.timestamp in
      let smoothed = if s.recv.rtt == 0 then estimate else cfg.smooth estimate s.recv.rtt in
      record s {
        recv = record (s.recv) {
          rtt = if ack % 10 == 0 && is_some c.buff && not c.resent then smoothed else s.recv.rtt;
        };
      }

  -- The congestion window grows while messages wait: slow start, then congestion avoidance.
  unfoldable pub grow : RelData Float → Float → Float
  grow s stream =
      let wider =
        add s.window_size
          (if lt s.window_size (float s.ssthresh) then float 1 else div (float 1) stream) in
      if cfg.tcp_fairness && not (is_nil s.msg_buff)
      then (if lt (float s.max_size) wider then float s.max_size else wider)
      else s.window_size

  abbrev pub clear_cell : ℕ → RelData Float → RelData Float
  clear_cell i s = record s {
    window =
        store s.window (i % max_window)
          (record (sent_cell_at s i) { buff = none; data_len = 0; pack_type = 0 });
  }

  -- The loop's body, for a cell that holds a message; the daemon exits at one that does not.
  unfoldable pub release : ℕ → RelData Float → Option (RelData Float)
  unfolding grow stream_window
  release i s =
      let s1 = clear_cell i s in
      let stream = stream_window fl cfg s1 (sent_cell_at s1 s1.tail) in
      if is_some (sent_cell_at s i).buff
      then some (record s1 { tail = (s1.tail + 1) % 2 ^ 32; window_size = grow s1 stream })
      else none

  unfoldable pub release_from : ℕ → ℕ → RelData Float → Option (RelData Float)
  unfolding release
  release_from zero i s = some s
  release_from (suc rounds) i s = release i s >>= release_from rounds (suc i)

  -- The cumulative acknowledgement.
  unfoldable pub acknowledge : ℕ → ℕ → RelData Float → Option (RelData Float × List Action)
  unfolding release_from measure
  acknowledge now ack s =
      if ltb s.tail ack
      then (release_from (ack - s.tail) s.tail (measure now ack s) >>= λ s'.
          some (s', if is_nil s'.msg_buff then [] else queue_try_to_send ∷ []))
      else some (s, [])

  -- The backoff is reduced by an eighth, and the timeout queued anew if something is not acknowledged.
  unfoldable pub settle : RelData Float → RelData Float × List Action
  settle s =
      let m = s.timeout_multiply * 7 / 8 in
      let multiply = if ltb m 1 then 1 else m in
      (
        record s { timeout_multiply = multiply; scheduled_timeout = ltb s.tail s.head },
        (if s.scheduled_timeout then dequeue_timeout ∷ [] else [])
            ++ (if ltb s.tail s.head
                then queue_timeout (timeout_val_ack cfg.wireless s.recv.rtt multiply) ∷ []
                else []),
      )

  -- The end: a packet with data goes through the receiving window.
  abbrev pub take_data :
      Bool → ℕ → RelData Float → List Action → AckResult × RelData Float × List Action
  take_data is_ack seq s out =
      if is_ack
      then (only_ack, s, out)
      else (let (new, d) = receive seq s.recv in
          (if new then fresh else known, record s { recv = d }, out))

  unfoldable pub process_ack :
      ℕ → Bool → Packet → RelData Float → Option (AckResult × RelData Float × List Action)
  unfolding keep_nacks acknowledge settle receive
  process_ack now is_ack p s =
      let (s1, out1) = keep_nacks p.nacks s in
      if ltb s1.head p.cummulative_ack
      then some (known, s1, out1)
      else acknowledge now p.cummulative_ack s1 >>= λ (s2, out2).
          let (s3, out3) = settle s2 in some (take_data is_ack p.seq_no s3 (out1 ++ (out2 ++ out3)))

  -- An acknowledgement that arrives on a link that is not connected is dropped.
  unfoldable pub process_ack_packet :
      ℕ → Packet → RelData Float → Option (RelData Float × List Action)
  unfolding process_ack
  process_ack_packet now p s =
      if s.connected
      then (process_ack now true p s >>= λ (r, s', out). some (s', out))
      else some (s, [])

  unfoldable pub try_to_send : ℕ → RelData Float → Option (RelData Float × List Action)
  unfolding send_much
  try_to_send now s = send_much fl cfg now s
