-- ===== src/Reliable/Ends.antt =====
-- The two ends of a reliable link (daemon/reliable_datagram.c), with all packets that were sent: the
-- network may deliver each of them any number of times, in any order, or never. The link starts as
-- `Create_Link` (daemon/link.c) makes it.
pub mod Receives
pub mod Emits
pub mod Calls
pub mod Way
pub mod Reliability
mod Tests
use spines.Prelude.{
  ℕ, suc, ◌%◌, ◌^◌, ◌<◌, ◌≡◌, Bool, true, false, Option, none, some, List, [], ◌∷◌, ◌++◌,
  if◌then◌else◌,
}
use spines.Realtime.{empty_cell}
use spines.Reliable.{max_window, ReliableData, Env, send_ack}
use spines.Reliable.Window.{
  Floats, Config, BufferCell, RelData, Packet, Action, link_send, queue_timeout, dequeue_timeout,
  dequeue_ack, queue_retransm, queue_try_to_send, block_all_sessions, resume_all_sessions,
}
use spines.Reliable.Sending.{reliable_send_msg, send_much}
use spines.Reliable.Receiving.{AckResult, process_ack}
use spines.Reliable.Resending.{reliable_timeout, send_nack_retransm}
use spines.Reliable.Resending.Whole.{HasMinimum}

-- `Reliable_Data` as `Create_Link` sets it up.
unfoldable pub create_reliable_data : (fl : Floats) → Config → RelData (fl.Float)
create_reliable_data fl cfg = record {
  recv = record {
    recv_head = 0;
    recv_tail = 0;
    recv_window = λ i. record { flag = empty_cell; nack_sent = 0 };
    rtt = 0;
    scheduled_ack = false;
  };
  connected = false;
  seq_no = 0;
  msg_buff = [];
  window_size = if cfg.tcp_fairness then fl.float cfg.minimum_window else fl.float max_window;
  max_size = max_window;
  ssthresh = max_window;
  window = λ i. record {
    seq_no = 0;
    buff = none;
    pack_type = 0;
    data_len = 0;
    timestamp = 0;
    resent = false;
  };
  head = 0;
  tail = 0;
  nacks = [];
  scheduled_timeout = false;
  timeout_multiply = 1;
  cong_flag = true;
  blocked_on = none;
}

-- A packet on the network: whether it is an acknowledgement alone, and its contents.
abbrev pub Mail : Type 0
Mail = Bool × Packet

abbrev pub mail_of : List Action → List Mail
mail_of [] = []
mail_of (link_send p ∷ out) = (false, p) ∷ mail_of out
mail_of (queue_timeout t ∷ out) = mail_of out
mail_of (dequeue_timeout ∷ out) = mail_of out
mail_of (dequeue_ack ∷ out) = mail_of out
mail_of (queue_retransm ∷ out) = mail_of out
mail_of (queue_try_to_send ∷ out) = mail_of out
mail_of (block_all_sessions ∷ out) = mail_of out
mail_of (resume_all_sessions ∷ out) = mail_of out

pub data Elem (x : Mail) : List Mail → Type 0 where
  here : {l : List Mail} → Elem x (x ∷ l)
  there : {y : Mail} {l : List Mail} → Elem x l → Elem x (y ∷ l)

pub record Ends (F : Type 0) : Type 0 where
  pub left : RelData F
  pub right : RelData F
  pub to_left : List Mail
  pub to_right : List Mail

abbrev pub flip : {F : Type 0} → Ends F → Ends F
flip e = record { left = e.right; right = e.left; to_left = e.to_right; to_right = e.to_left }

module _ (fl : Floats) (cfg : Config) where
  open fl use {Float}

  -- The left end has done something and has sent packets.
  abbrev pub acted : Ends Float → RelData Float → List Mail → Ends Float
  acted e s mail = record e { left = s; to_right = mail ++ e.to_right }

  -- One end sends a message, sends what waits, times out, answers requests, acknowledges, becomes connected or takes a
  -- packet from the network.
  pub data Step : Ends Float → Ends Float → Type 0 where
    send :
        (e : Ends Float) (now buff len type : ℕ) (s : RelData Float) (out : List Action)
        → suc e.left.seq_no < 2 ^ 32
        → reliable_send_msg fl cfg now buff len type e.left ≡ some (s, out)
        → Step e (acted e s (mail_of out))
    flush :
        (e : Ends Float) (now : ℕ) (s : RelData Float) (out : List Action)
        → send_much fl cfg now e.left ≡ some (s, out)
        → Step e (acted e s (mail_of out))
    timeout :
        (e : Ends Float) (now : ℕ) (s : RelData Float) (out : List Action)
        → HasMinimum fl cfg e.left
        → reliable_timeout fl cfg now e.left ≡ some (s, out)
        → Step e (acted e s (mail_of out))
    answer_requests :
        (e : Ends Float) (now : ℕ) (s : RelData Float) (out : List Action)
        → HasMinimum fl cfg e.left
        → send_nack_retransm fl cfg now e.left ≡ some (s, out)
        → Step e (acted e s (mail_of out))
    ack :
        (e : Ends Float) (env : Env) (now : ℕ) (p : Packet)
        → p.cummulative_ack ≡ (send_ack env now e.left.recv).0
        → Step e (
            acted e
              (record (e.left) { recv = (send_ack env now e.left.recv).1.1 })
              ((true, p) ∷ []))
    connect : (e : Ends Float) → Step e (acted e (record (e.left) { connected = true }) [])
    take_mail :
        (e : Ends Float) (now : ℕ) (is_ack : Bool) (p : Packet) (r : AckResult) (s : RelData Float)
        (out : List Action)
        → Elem (is_ack, p) e.to_left
        → process_ack fl cfg now is_ack p e.left ≡ some (r, s, out)
        → Step e (acted e s [])
    other : {e f : Ends Float} → Step (flip e) f → Step e (flip f)

  pub data Reach (e : Ends Float) : Ends Float → Type 0 where
    stay : Reach e e
    next : {f g : Ends Float} → Reach e f → Step f g → Reach e g
