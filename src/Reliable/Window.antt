-- ===== src/Reliable/Window.antt =====
-- The sending half of `Reliable_Data` (daemon/link.h), and what the functions of
-- daemon/reliable_datagram.c share: the packets, the congestion window and the requests that a packet
-- carries. The congestion window is a number with a floating point in the code; its type and the
-- operations on it are parameters, `Floats`.
pub mod Outstanding
pub mod Requests
use Prim.Native.Nat.{bit_and}
use spines.Prelude.{
  ℕ, ◌+◌, ◌-◌, ◌*◌, ◌/◌, ◌%◌, ◌≤◌, ◌<◌, ◌≡◌, ◌⊎◌, Bool, true, false, ◌&&◌, ◌||◌, not, Option, none,
  some, List, [], ◌∷◌, ◌++◌, ltb, ◌==◌, if◌then◌else◌, length,
}
use spines.Prelude.Loops.{for_from}
use spines.Realtime.{nack_cell, store, is_empty}
use spines.Reliable.{
  max_window, ReliableData, window_cell, repeat_after, is_nack, Env, is_due, add_request,
}

-- `exact` is what the code relies on: a float holds every number below 2 ^ 24 exactly, so that a
-- number below a float that is no more than another number is below that number. The order is that
-- of the numbers, and a float does not exceed such a number after it is made less: by one or more, or
-- by all of it, with one added; or by half of one or more, or of itself. Floats are nonnegative here.
pub record Floats : Type 1 where
  pub Float : Type 0
  pub float : ℕ → Float
  pub trunc : Float → ℕ
  pub lt : Float → Float → Bool
  pub add : Float → Float → Float
  pub sub : Float → Float → Float
  pub div : Float → Float → Float
  pub exact :
      (n m : ℕ) (w : Float) → m < 16777216 → lt (float m) w ≡ false → lt (float n) w ≡ true → n < m
  pub order : (n m : ℕ) → n ≤ m → lt (float m) (float n) ≡ false
  pub less_one :
      (m : ℕ) (w v : Float)
      → m < 16777216
      → 0 < m
      → lt (float m) w ≡ false
      → (lt v (float 1) ≡ false) ⊎ (v ≡ w)
      → lt (float m) (add (sub w v) (float 1)) ≡ false
  pub less_half :
      (m : ℕ) (w v : Float)
      → m < 16777216
      → lt (float m) w ≡ false
      → (lt v (float 1) ≡ false) ⊎ (v ≡ w)
      → lt (float m) (sub w (div v (float 2))) ≡ false

-- The options of the daemon that the functions read, `sizeof(packet_body)`, the link's id, the delay
-- of a wireless link, the comparison of the first bytes of two messages and the smoothing of round
-- trip times.
pub record Config : Type 0 where
  pub tcp_fairness : Bool
  pub stream_fairness : Bool
  pub fast_retransmit : Bool
  pub wireless : Option ℕ
  pub network_flag : Bool
  pub minimum_window : ℕ
  pub body_size : ℕ
  pub linkid : ℕ
  pub same_stream : Option ℕ → Option ℕ → Bool
  pub smooth : ℕ → ℕ → ℕ

-- A message that is kept: its contents, as the identity of its buffer.
pub record BufferCell : Type 0 where
  pub seq_no : ℕ
  pub buff : Option ℕ
  pub pack_type : ℕ
  pub data_len : ℕ
  pub timestamp : ℕ
  pub resent : Bool

-- `recv` is the receiving half. `nacks` is `nack_buff`, which `nack_len` measures, and `blocked_on`
-- the global `Link_Sessions_Blocked_On`.
pub record RelData (F : Type 0) : Type 0 where
  pub recv : ReliableData
  pub connected : Bool
  pub seq_no : ℕ
  pub msg_buff : List BufferCell
  pub window_size : F
  pub max_size : ℕ
  pub ssthresh : ℕ
  pub window : ℕ → BufferCell
  pub head : ℕ
  pub tail : ℕ
  pub nacks : List ℕ
  pub scheduled_timeout : Bool
  pub timeout_multiply : ℕ
  pub cong_flag : Bool
  pub blocked_on : Option ℕ

-- A data packet with its reliable tail and the requests behind it.
pub record Packet : Type 0 where
  pub buff : Option ℕ
  pub data_len : ℕ
  pub pack_type : ℕ
  pub seq_no : ℕ
  pub cummulative_ack : ℕ
  pub nacks : List ℕ

-- A packet given to `Link_Send`, and the calls of other parts of the daemon.
pub data Action : Type 0 where
  link_send : Packet → Action
  queue_timeout : ℕ × ℕ → Action
  dequeue_timeout dequeue_ack queue_retransm queue_try_to_send : Action
  block_all_sessions resume_all_sessions : Action

-- `MAX_BUFF_LINK`
abbrev pub max_buff_link : ℕ
max_buff_link = 10000

-- `window[i % MAX_WINDOW]`
abbrev pub sent_cell_at : {F : Type 0} → RelData F → ℕ → BufferCell
sent_cell_at s i = s.window (i % max_window)

abbrev pub is_nil {ℓ} : {A : Type ℓ} → List A → Bool
is_nil [] = true
is_nil (x ∷ xs) = false

-- `pack_type & UDP_DATA_TYPE` or `pack_type & REL_UDP_DATA_TYPE`
unfoldable pub is_udp : ℕ → Bool
is_udp pack_type = not (bit_and pack_type 2 == 0) || not (bit_and pack_type 3 == 0)

module _ (fl : Floats) where
  open fl use {Float, float, lt}

  -- `head - tail < window_size`
  unfoldable pub has_room : RelData Float → Bool
  has_room s = lt (float (s.head - s.tail)) s.window_size

module _ (fl : Floats) (cfg : Config) where
  open fl use {Float, float, lt, add}

  -- The messages in the window that belong to the stream of the given one.
  unfoldable pub count_stream : RelData Float → Option ℕ → ℕ
  count_stream s cur =
      for_from (s.head - s.tail) s.tail
        (λ i n.
          if lt (float i) (add (float s.tail) s.window_size)
            && cfg.same_stream (sent_cell_at s i).buff cur
          then n + 1
          else n)
        0

  -- `stream_window`, for the stream of the message in a cell.
  unfoldable pub stream_window : RelData Float → BufferCell → Float
  unfolding count_stream is_udp
  stream_window s c =
      if cfg.stream_fairness && is_udp c.pack_type
      then (let n = count_stream s c.buff in if n == 0 then float 1 else float n)
      else s.window_size

module _ (cfg : Config) where
  -- The room for requests behind a message.
  abbrev pub nack_env : ℕ → Env
  nack_env data_len = record {
    fast_retransmit = cfg.fast_retransmit;
    room = cfg.body_size - 4 - data_len;
  }

  -- The requests behind a message, as `Reliable_Send_Msg` and `Reliable_timeout` add them.
  unfoldable pub add_nacks : ℕ → ℕ → ReliableData → List ℕ × ReliableData
  add_nacks now data_len d =
      for_from (d.recv_head - d.recv_tail) d.recv_tail (add_request (nack_env data_len) now) ([], d)

  -- Notes the request for a number.
  abbrev pub request : ℕ → ℕ → List ℕ × ReliableData → List ℕ × ReliableData
  request now i (nacks, d) = (
    nacks ++ (i ∷ []),
    record d {
      recv_window =
          store d.recv_window (i % max_window) (record { flag = nack_cell; nack_sent = now });
    },
  )

  -- The second test of the loops of `Send_Much` and `Send_Nack_Retransm`, which no `else` parts from
  -- the first.
  unfoldable pub request_again : ℕ → ℕ → List ℕ × ReliableData → List ℕ × ReliableData
  request_again now i (nacks, d) =
      let cell = window_cell d i in
      if is_nack cell.flag && ltb (cell.nack_sent + repeat_after d.rtt) now
      then request now i (nacks, d)
      else (nacks, d)

  unfoldable pub request_first : ℕ → ℕ → List ℕ × ReliableData → List ℕ × ReliableData
  request_first now i (nacks, d) =
      if is_empty (window_cell d i).flag
        && (ltb 3 (d.recv_head - i) || (ltb 1 (d.recv_head - i) && cfg.fast_retransmit))
      then request now i (nacks, d)
      else (nacks, d)

  unfoldable pub add_request_twice : ℕ → ℕ → ℕ → List ℕ × ReliableData → List ℕ × ReliableData
  unfolding request_again request_first
  add_request_twice now data_len i (nacks, d) =
      if ltb (nack_env data_len).room (8 + length nacks * 4)
      then (nacks, d)
      else request_again now i (request_first now i (nacks, d))

  -- The requests behind a message, as `Send_Much` and `Send_Nack_Retransm` add them.
  unfoldable pub add_nacks_twice : ℕ → ℕ → ReliableData → List ℕ × ReliableData
  unfolding add_request_twice
  add_nacks_twice now data_len d =
      for_from (d.recv_head - d.recv_tail) d.recv_tail (add_request_twice now data_len) ([], d)
