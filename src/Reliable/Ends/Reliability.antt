-- ===== src/Reliable/Ends/Reliability.antt =====
-- A reliable link (daemon/reliable_datagram.c) from one end to the other.
use spines.Prelude.{
  ℕ, ◌≤◌, ◌<◌, ◌≡◌, refl, ◌∙◌, inl, inr, Bool, true, some, List, [], ◌∷◌, arith, Bool-cases,
}
use spines.Prelude.Options.{Returns, Returns-map, Returns-some, Whenever-some}
use spines.Reliable.{max_window, send_ack}
use spines.Reliable.Window.{Floats, Config, RelData, Packet, Action}
use spines.Reliable.Window.Outstanding.{IsInOrder}
use spines.Reliable.Sending.Kept.{Sent, reliable_send_msg-Sent, Flushed, send_much-Flushed}
use spines.Reliable.Receiving.{process_ack}
use spines.Reliable.Receiving.Got.{got}
use spines.Reliable.Receiving.Processed.{is_valid_ack, result_of, Processed, process_ack-Processed}
use spines.Reliable.Resending.{reliable_timeout, send_nack_retransm}
use spines.Reliable.Resending.Whole.{
  HasMinimum, TimedOut, reliable_timeout-TimedOut, Answered, send_nack_retransm-Answered,
}
use spines.Reliable.Ends.{
  create_reliable_data, mail_of, Elem, Ends, acted, Step, send, flush, timeout, answer_requests,
  ack, connect, take_mail, other, Reach, stay, next,
}
use spines.Reliable.Ends.Receives.{Receives-refl, send_ack-Receives}
use spines.Reliable.Ends.Emits.{Emitted, send_much-Emitted}
use spines.Reliable.Ends.Calls.{
  reliable_send_msg-Emitted, reliable_timeout-Emitted, send_nack_retransm-Emitted,
}
use spines.Reliable.Ends.Way.{
  AcksBelow, All-Elem, mail_of-Emits, Way, Way-sent, Way-answered, Way-IsReceivable, Way-received,
  Way-acknowledged,
}

module _ (fl : Floats) (cfg : Config) where
  open fl use {Float}

  abbrev pub Both : Ends Float → Type 0
  Both e =
      Way fl cfg e.left e.right e.to_right e.to_left
      × Way fl cfg e.right e.left e.to_left e.to_right

  acted-Both :
      (e : Ends Float) (s : RelData Float) (out : List Action)
      → Both e
      → Emitted e.left s out
      → IsInOrder fl s
      → Both (acted fl cfg e s (mail_of out))
  acted-Both e s out (there_way, back_way) emitted order = (
    Way-sent fl cfg e.left s e.right e.to_right e.to_left out there_way emitted order,
    Way-answered fl cfg e.right e.left s e.to_left e.to_right (mail_of out) back_way
        emitted.receives (mail_of-Emits s.head e.left.recv.recv_tail out emitted.packets).0,
  )

  timeout-IsInOrder :
      (now : ℕ) (s s' : RelData Float) (out : List Action)
      → IsInOrder fl s
      → HasMinimum fl cfg s
      → reliable_timeout fl cfg now s ≡ some (s', out)
      → IsInOrder fl s'
  timeout-IsInOrder now s s' out w m done =
      let (up, down) = reliable_timeout-TimedOut fl cfg now s w m in
      elim (Bool-cases s.connected) [
        | inl t ↦ (Returns-some (λ (s1, out1). TimedOut fl cfg s s1 out1) _ done ((up t))).in_order
        | inr f ↦ let none_there = down f in absurd (cc)
      ]

  answer-IsInOrder :
      (now : ℕ) (s s' : RelData Float) (out : List Action)
      → IsInOrder fl s
      → HasMinimum fl cfg s
      → send_nack_retransm fl cfg now s ≡ some (s', out)
      → IsInOrder fl s'
  answer-IsInOrder now s s' out w m done =
      let (up, down) = send_nack_retransm-Answered fl cfg now s w m in
      elim (Bool-cases s.connected) [
        | inl t ↦ (Returns-some (λ (s1, out1). Answered fl cfg s s1 out1) _ done (up t)).in_order
        | inr f ↦ let none_there = down f in absurd (cc)
      ]

  Step-Both : {e f : Ends Float} → Step fl cfg e f → Both e → Both f
  Step-Both (send e now buff len type s out small done) b =
      let sent =
        Returns-some (λ (s', out'). Sent fl cfg now e.left (some buff, len) s' out') _ done
          ((reliable_send_msg-Sent fl cfg now buff len type e.left b.0.in_order small)) in
      acted-Both e s out b
        (Whenever-some (λ (s', out'). Emitted e.left s' out') _ done
          (reliable_send_msg-Emitted fl cfg now buff len type e.left b.0.in_order small))
        sent.in_order
  Step-Both (flush e now s out done) b =
      let flushed =
        Returns-some (λ (s', out'). Flushed fl cfg now e.left.seq_no e.left.msg_buff e.left s' out')
          _ done ((send_much-Flushed fl cfg now e.left.seq_no e.left b.0.in_order)) in
      acted-Both e s out b
        (Returns-some (λ (s', out'). Emitted e.left s' out') _ done
          ((send_much-Emitted fl cfg now e.left.seq_no e.left b.0.in_order)))
        (rw flushed.seq_no flushed.waits)
  Step-Both (timeout e now s out m done) b =
      acted-Both e s out b
        (Whenever-some (λ (s', out'). Emitted e.left s' out') _ done
          (reliable_timeout-Emitted fl cfg now e.left b.0.in_order m))
        (timeout-IsInOrder now e.left s out b.0.in_order m done)
  Step-Both (answer_requests e now s out m done) b =
      acted-Both e s out b
        (Whenever-some (λ (s', out'). Emitted e.left s' out') _ done
          (send_nack_retransm-Emitted fl cfg now e.left b.0.in_order m))
        (answer-IsInOrder now e.left s out b.0.in_order m done)
  Step-Both (ack e env now p same) (there_way, back_way) =
      let (acked, r) = send_ack-Receives env now e.left.recv in
      let s : RelData Float = record (e.left) { recv = (send_ack env now e.left.recv).1.1 } in
      (
        record {
          in_order = there_way.in_order;
          clean = there_way.clean;
          hole = there_way.hole;
          dropped = there_way.dropped;
          sent = there_way.sent;
          acks = there_way.acks;
          numbers = (λ with_data. absurd (ground arith), there_way.numbers);
        },
        Way-answered fl cfg e.right e.left s e.to_left e.to_right ((true, p) ∷ []) back_way r
            (omega (arith, same, acked), tt),
      )
  Step-Both (connect e) b =
      acted-Both e (record (e.left) { connected = true }) [] b
        (record {
          tail = refl;
          head = omega arith;
          receives = Receives-refl e.left.recv;
          packets = tt;
        })
        b.0.in_order
  Step-Both (take_mail e now is_ack p r s out m done) (there_way, back_way) =
      let processed =
        Returns-some (λ (r', s', out'). Processed fl cfg is_ack p e.left r' s') _ done
          ((process_ack-Processed fl cfg now is_ack p e.left there_way.in_order
            (Way-IsReceivable fl cfg e.right e.left e.to_left e.to_right is_ack p back_way m))) in
      (
        Way-acknowledged fl cfg e.left s e.right e.to_right e.to_left is_ack p r there_way m
            processed,
        Way-received fl cfg e.right e.left s e.to_left e.to_right is_ack p r back_way m processed,
      )
  Step-Both (other st) (there_way, back_way) =
      let (a, b) = Step-Both st (back_way, there_way) in (b, a)

  Reach-Both : {e f : Ends Float} → Reach fl cfg e f → Both e → Both f
  Reach-Both stay b = b
  Reach-Both (next r st) b = Step-Both st (Reach-Both r b)

  -- A link as it is made, with nothing on the network.
  abbrev pub start : Ends Float
  start = record {
    left = create_reliable_data fl cfg;
    right = create_reliable_data fl cfg;
    to_left = [];
    to_right = [];
  }

  start-Way :
      cfg.minimum_window ≤ max_window
      → Way fl cfg (create_reliable_data fl cfg) (create_reliable_data fl cfg) [] []
  unfolding create_reliable_data
  start-Way small = record {
    in_order = record {
      ordered = omega arith;
      fits = omega arith;
      numbered = refl;
      below = omega arith;
      size = omega arith;
      within = elim (Bool-cases cfg.tcp_fairness) [
        | inl t ↦ rw t (fl.order cfg.minimum_window max_window small)
        | inr t ↦ rw t (fl.order max_window max_window (omega arith))
      ];
      held = λ i lo hi. absurd (omega arith);
      stored = λ j h. absurd (ground arith);
    };
    clean = record {
      ordered = omega arith;
      fits = omega arith;
      below = omega arith;
      beyond = λ i lo hi. refl;
    };
    hole = refl;
    dropped = omega arith;
    sent = λ i h. absurd (ground arith);
    acks = tt;
    numbers = tt;
  }

  -- Whatever the network loses, repeats or reorders, and whatever the ends do in the meantime: what one
  -- end has dropped as acknowledged was received by the other; only numbers that were sent are
  -- received; and for every packet that the network may deliver `Process_Ack` returns, and finds a
  -- packet with data to be new exactly if its number was not received before.
  pub start-reliable :
      (e : Ends Float)
      → cfg.minimum_window ≤ max_window
      → Reach fl cfg start e
      → ((i : ℕ) → i < e.left.tail → got e.right.recv i ≡ true)
        × ((i : ℕ) → got e.right.recv i ≡ true → i < e.left.head)
        × ((now : ℕ) (is_ack : Bool) (p : Packet)
            → Elem (is_ack, p) e.to_right
            → Returns
                (process_ack fl cfg now is_ack p e.right)
                (λ (r, s', out). r ≡ result_of fl cfg is_ack (got e.right.recv p.seq_no)))
  start-reliable e small reach =
      let (way, back) = Reach-Both reach (start-Way small, start-Way small) in
      (
        λ i lt. ground (arith, way.dropped),
        way.sent,
        λ now is_ack p m.
            let valid =
              All-Elem (AcksBelow e.left.recv.recv_tail) (is_ack, p) e.to_right m back.acks in
            Returns-map (λ (r, s', out). Processed fl cfg is_ack p e.right r s')
              (λ (r, s', out). r ≡ result_of fl cfg is_ack (got e.right.recv p.seq_no))
              (process_ack fl cfg now is_ack p e.right)
              (process_ack-Processed fl cfg now is_ack p e.right back.in_order
                (Way-IsReceivable fl cfg e.left e.right e.to_right e.to_left is_ack p way m))
              λ (r, s', out) d.
                let above = back.sent e.right.head in
                let is_sent : is_valid_ack fl cfg p e.right ≡ true = ground (arith, above) in
                d.result ∙ rw is_sent refl,
      )
