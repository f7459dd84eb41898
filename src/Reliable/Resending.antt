-- ===== src/Reliable/Resending.antt =====
-- `Reliable_timeout` and `Send_Nack_Retransm` of daemon/reliable_datagram.c.
pub mod Whole
pub mod Again
use spines.Prelude.{
  ℕ, zero, suc, ◌+◌, ◌-◌, ◌*◌, ◌%◌, Bool, true, false, ◌&&◌, ◌||◌, not, Option, none, some, List,
  [], ◌∷◌, ◌++◌, ltb, ◌==◌, if◌then◌else◌,
}
use spines.Realtime.{store}
use spines.Reliable.{max_window, ReliableData}
use spines.Reliable.Window.{
  Floats, Config, BufferCell, RelData, Packet, Action, link_send, queue_timeout, sent_cell_at,
  is_nil, stream_window, add_nacks, add_nacks_twice,
}
use spines.Reliable.Window.Outstanding.{is_some}
use spines.Reliable.Timer.{timeout_val}
use spines.Reliable.Sending.{packet_of, cancel_ack, ack_actions}

module _ (fl : Floats) (cfg : Config) where
  open fl use {Float, float, trunc, lt, add, sub, div}

  abbrev pub at_least_minimum : Float → Float
  at_least_minimum w = if lt w (float cfg.minimum_window) then float cfg.minimum_window else w

  -- The slow-start threshold after a loss.
  abbrev pub lower_ssthresh : RelData Float → Float → ℕ
  lower_ssthresh s stream =
      let half = trunc (sub s.window_size (div stream (float 2))) in
      if ltb half cfg.minimum_window then cfg.minimum_window else half

  -- The congestion window after a timeout.
  unfoldable pub after_timeout : RelData Float → Float → RelData Float
  after_timeout s stream = record s {
    ssthresh = if cfg.tcp_fairness then lower_ssthresh s stream else s.ssthresh;
    window_size =
        if cfg.tcp_fairness
        then at_least_minimum (add (sub s.window_size stream) (float 1))
        else s.window_size;
  }

  -- The congestion window after requests, once while `cong_flag` is set.
  unfoldable pub after_nacks : RelData Float → Float → RelData Float
  after_nacks s stream = record s {
    ssthresh = if cfg.tcp_fairness && s.cong_flag then lower_ssthresh s stream else s.ssthresh;
    window_size =
        if cfg.tcp_fairness && s.cong_flag
        then at_least_minimum (sub s.window_size (div stream (float 2)))
        else s.window_size;
    cong_flag = cfg.tcp_fairness || s.cong_flag;
  }

  -- Sends the message of a cell again, with the requests that the argument finds.
  abbrev pub resend_cell :
      (ℕ → ReliableData → List ℕ × ReliableData) → ℕ → RelData Float → RelData Float × List Action
  resend_cell requests i s =
      let c = sent_cell_at s i in
      let (nacks, d) = requests c.data_len s.recv in
      (
        record s {
          window = store s.window (i % max_window) (record c { resent = true });
          recv = d;
        },
        if cfg.network_flag then link_send (packet_of c d nacks) ∷ [] else [],
      )

  -- The loop over the window.
  unfoldable pub resend_from : ℕ → ℕ → ℕ → RelData Float → RelData Float × List Action
  resend_from now zero i s = (s, [])
  resend_from now (suc rounds) i s =
      let (s', out) = resend_cell (add_nacks cfg now) i s in
      let (s'', out') = resend_from now rounds (suc i) s' in (s'', out ++ out')

  abbrev pub double : ℕ → ℕ
  double multiply = if ltb 100 (multiply * 2) then 100 else multiply * 2

  -- None where the daemon exits.
  unfoldable pub reliable_timeout : ℕ → RelData Float → Option (RelData Float × List Action)
  unfolding after_timeout resend_from stream_window
  reliable_timeout now s =
      let s1 = cancel_ack (after_timeout s (stream_window fl cfg s (sent_cell_at s s.tail))) in
      let (s2, out) = resend_from now (s.head - s.tail) s.tail s1 in
      let multiply = double s.timeout_multiply in
      if not s.connected
      then none
      else if s.head == s.tail
      then some (record s { scheduled_timeout = false }, [])
      else some (
        record s2 { timeout_multiply = multiply },
        ack_actions s
            ++ (out ++ (queue_timeout (timeout_val cfg.wireless s2.recv.rtt multiply) ∷ [])),
      )

  -- The loop over the requests: one for a message that is not there is passed over.
  unfoldable pub answer : ℕ → List ℕ → RelData Float → RelData Float × List Action
  answer now [] s = (s, [])
  answer now (n ∷ ns) s =
      let here = is_some (sent_cell_at s n).buff in
      let (s', out) = resend_cell (add_nacks_twice cfg now) n s in
      let (s'', out') = answer now ns (if here then s' else s) in
      (s'', if here then out ++ out' else out')

  abbrev pub first_or_zero : List ℕ → ℕ
  first_or_zero [] = 0
  first_or_zero (n ∷ ns) = n

  unfoldable pub send_nack_retransm : ℕ → RelData Float → Option (RelData Float × List Action)
  unfolding after_nacks answer stream_window
  send_nack_retransm now s =
      let stream = stream_window fl cfg s (sent_cell_at s (first_or_zero s.nacks)) in
      let (s1, out) = answer now s.nacks (cancel_ack (after_nacks s stream)) in
      if not s.connected
      then none
      else if is_nil s.nacks
      then some (s, [])
      else if s.head == s.tail
      then some (record s { scheduled_timeout = false }, [])
      else some (record s1 { nacks = [] }, ack_actions s ++ out)
