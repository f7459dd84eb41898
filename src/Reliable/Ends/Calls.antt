-- ===== src/Reliable/Ends/Calls.antt =====
-- Calls of `Reliable_Send_Msg`, `Reliable_timeout` and `Send_Nack_Retransm`
-- (daemon/reliable_datagram.c): what they send.
use spines.Prelude.{
  inr, inl, Bool-cases, List, ℕ, zero, suc, ◌+◌, ◌-◌, ◌%◌, ◌^◌, ◌≤◌, ◌<◌, ◌≡◌, refl, false, ◌||◌,
  not, some, [], ◌∷◌, ltb, ◌==◌, if◌then◌else◌, arith,
}
use spines.Prelude.Options.{Returns-Whenever, Whenever, Whenever-bind, Whenever-if}
use spines.Reliable.{max_window}
use spines.Reliable.Window.{
  Floats, Config, BufferCell, RelData, link_send, dequeue_ack, block_all_sessions, sent_cell_at,
  is_nil, has_room, stream_window, add_nacks, add_nacks_twice,
}
use spines.Reliable.Window.Outstanding.{is_some, IsInOrder}
use spines.Reliable.Sending.{
  packet_of, place, ack_actions, cancel_ack, send_much, buffer, send_now, new_cell, send_or_buffer,
  reliable_send_msg,
}
use spines.Reliable.Resending.{
  after_timeout, answer, after_nacks, first_or_zero, send_nack_retransm, resend_cell, resend_from,
  double, reliable_timeout,
}
use spines.Reliable.Resending.Again.{Resent-IsInOrder, resend_cell-Resent}
use spines.Reliable.Ends.Receives.{add_nacks_twice-Receives, Receives-refl, add_nacks-Receives}
use spines.Reliable.Ends.Emits.{
  Emits-append, Emits-if, Emitted, Emitted-trans, Emitted-around, timeout_actions-Emits,
  send_much-Emitted,
}
use spines.Reliable.Resending.Whole.{HasMinimum, after_timeout-IsInOrder, after_nacks-IsInOrder}

module _ (fl : Floats) (cfg : Config) (now : ℕ) where
  open fl use {Float}

  buffer-Emitted :
      (c : BufferCell) (s : RelData Float)
      → let (s', out) = buffer fl cfg now c s in Emitted s s' out
  unfolding buffer
  buffer-Emitted c s = record {
    tail = refl;
    head = omega arith;
    receives = Receives-refl s.recv;
    packets = Emits-if s.head s.recv.recv_tail _ (block_all_sessions ∷ []) tt;
  }

  send_now-Emitted :
      (c : BufferCell) (s : RelData Float)
      → suc c.seq_no < 2 ^ 32
      → ltb c.seq_no s.head ≡ false
      → let (s', out) = send_now fl cfg now c s in Emitted s s' out
  unfolding send_now
  send_now-Emitted c s small le =
      let (nacks, d) = add_nacks cfg now c.data_len (record (s.recv) { scheduled_ack = false }) in
      let r = add_nacks-Receives cfg now c.data_len (record (s.recv) { scheduled_ack = false }) in
      let s' = (send_now fl cfg now c s).0 in
      Emitted-around s s' (ack_actions s)
        (if cfg.network_flag then link_send (packet_of c d nacks) ∷ [] else []) _
        (Emits-if s'.head s.recv.recv_tail s.recv.scheduled_ack (dequeue_ack ∷ []) tt)
        (timeout_actions-Emits fl cfg now 0 s'.head s.recv.recv_tail
          (record (cancel_ack (place c s)) { recv = d }))
        (record {
          tail = refl;
          head = ground arith;
          receives = record { tail = r.tail; head = r.head; flags = r.flags };
          packets =
              Emits-if s'.head s.recv.recv_tail cfg.network_flag
                (link_send (packet_of c d nacks) ∷ []) ((omega arith, r.tail), tt);
        })

  send_or_buffer-Emitted :
      (c : BufferCell) (s : RelData Float)
      → suc c.seq_no < 2 ^ 32
      → Whenever (send_or_buffer fl cfg now c s) (λ (s', out). Emitted s s' out)
  unfolding send_or_buffer
  send_or_buffer-Emitted c s small =
      Whenever-if (λ (s', out). Emitted s s' out)
        (not (has_room fl s) || not (is_nil s.msg_buff) || not s.connected) _ _
        (λ wait. buffer-Emitted c s)
        λ go.
          Whenever-if (λ (s', out). Emitted s s' out) (ltb c.seq_no s.head) _ _ (λ exits. tt)
            λ le. send_now-Emitted c s small le

  pub reliable_send_msg-Emitted :
      (buff buff_len pack_type : ℕ) (s : RelData Float)
      → IsInOrder fl s
      → suc s.seq_no < 2 ^ 32
      → Whenever
          (reliable_send_msg fl cfg now buff buff_len pack_type s)
          (λ (s', out). Emitted s s' out)
  unfolding reliable_send_msg new_cell
  reliable_send_msg-Emitted buff buff_len pack_type s w small =
      let c = new_cell fl cfg now s.seq_no buff buff_len pack_type in
      let s1 : RelData Float = record s { seq_no = (s.seq_no + 1) % 2 ^ 32 } in
      Whenever-bind (λ (s2, out). Emitted s1 s2 out) _
        (if s1.connected then send_much fl cfg now s1 else some (s1, [])) _
        (Whenever-if (λ (s2, out). Emitted s1 s2 out) s.connected _ _
          (λ up.
            Returns-Whenever (λ (s2, out). Emitted s1 s2 out) (send_much fl cfg now s1)
              (send_much-Emitted fl cfg now s.seq_no s1 w))
          (λ down. record {
            tail = refl;
            head = omega arith;
            receives = Receives-refl s.recv;
            packets = tt;
          }))
        λ (s2, out) e.
          Whenever-bind (λ (s3, out'). Emitted s2 s3 out') _ (send_or_buffer fl cfg now c s2) _
            (send_or_buffer-Emitted c s2 small)
            λ (s3, out') e'.
              let both = Emitted-trans s1 s2 s3 out out' e e' in
              record {
                tail = both.tail;
                head = both.head;
                receives = both.receives;
                packets = both.packets;
              }

  resend_from-Emitted :
      (rounds i : ℕ) (s : RelData Float)
      → IsInOrder fl s
      → s.tail ≤ i
      → i + rounds ≤ s.head
      → let (s', out) = resend_from fl cfg now rounds i s in Emitted s s' out × (s'.head ≡ s.head)
  unfolding resend_from
  resend_from-Emitted zero i s w lo hi = (
    record { tail = refl; head = omega arith; receives = Receives-refl s.recv; packets = tt },
    refl,
  )
  resend_from-Emitted (suc n) i s w lo hi =
      let (s1, out) = resend_cell fl cfg (add_nacks cfg now) i s in
      let (w1, kept) =
        Resent-IsInOrder fl cfg s s1 (resend_cell-Resent fl cfg (add_nacks cfg now) i s) w in
      let r = add_nacks-Receives cfg now (sent_cell_at s i).data_len s.recv in
      let (e, same) = resend_from-Emitted n (suc i) s1 w1 (omega arith) (omega arith) in
      let number = (w.held i lo (omega arith)).0 in
      (
        Emitted-trans s s1 (resend_from fl cfg now n (suc i) s1).0 out _
            (record {
              tail = refl;
              head = omega arith;
              receives = r;
              packets =
                  Emits-if s.head s.recv.recv_tail cfg.network_flag (link_send _ ∷ [])
                    ((omega (arith, number), r.tail), tt);
            })
            e,
        same,
      )

  pub reliable_timeout-Emitted :
      (s : RelData Float)
      → IsInOrder fl s
      → HasMinimum fl cfg s
      → Whenever (reliable_timeout fl cfg now s) (λ (s', out). Emitted s s' out)
  unfolding reliable_timeout after_timeout
  reliable_timeout-Emitted s w m =
      let s1 =
        cancel_ack (after_timeout fl cfg s (stream_window fl cfg s (sent_cell_at s s.tail))) in
      let w1 = after_timeout-IsInOrder fl cfg s (sent_cell_at s s.tail) w m in
      let (s2, out) = resend_from fl cfg now (s.head - s.tail) s.tail s1 in
      let (e, same) =
        resend_from-Emitted (s.head - s.tail) s.tail s1 w1 (omega arith)
          (omega (arith, w.ordered)) in
      Whenever-if (λ (s', out). Emitted s s' out) (not s.connected) _ _ (λ exits. tt)
        λ up.
          Whenever-if (λ (s', out). Emitted s s' out) (s.head == s.tail) _ _
            (λ empty. record {
              tail = refl;
              head = omega arith;
              receives = Receives-refl s.recv;
              packets = tt;
            })
            λ there.
              Emitted-around s (record s2 { timeout_multiply = double fl cfg s.timeout_multiply })
                (ack_actions s) out _
                (Emits-if s2.head s.recv.recv_tail s.recv.scheduled_ack (dequeue_ack ∷ []) tt) tt
                (record {
                  tail = e.tail;
                  head = e.head;
                  receives = record {
                    tail = e.receives.tail;
                    head = e.receives.head;
                    flags = e.receives.flags;
                  };
                  packets = e.packets;
                })

  answer-Emitted :
      (ns : List ℕ) (s : RelData Float)
      → IsInOrder fl s
      → let (s', out) = answer fl cfg now ns s in Emitted s s' out
  unfolding answer
  answer-Emitted [] s w = record {
    tail = refl;
    head = omega arith;
    receives = Receives-refl s.recv;
    packets = tt;
  }
  answer-Emitted (n ∷ ns) s w =
      let (s1, out) = resend_cell fl cfg (add_nacks_twice cfg now) n s in
      let (w1, kept) =
        Resent-IsInOrder fl cfg s s1 (resend_cell-Resent fl cfg (add_nacks_twice cfg now) n s) w in
      let r = add_nacks_twice-Receives cfg now (sent_cell_at s n).data_len s.recv in
      elim (Bool-cases (is_some (sent_cell_at s n).buff)) [
        | inl here ↦ rw here (
            Emitted-trans s s1 (answer fl cfg now ns s1).0 out (answer fl cfg now ns s1).1
              (record {
                tail = refl;
                head = omega arith;
                receives = r;
                packets =
                    Emits-if s.head s.recv.recv_tail cfg.network_flag (link_send _ ∷ [])
                      ((w.stored (n % max_window) here, r.tail), tt);
              })
              (answer-Emitted ns s1 w1))
        | inr gone ↦ rw gone (answer-Emitted ns s w)
      ]

  pub send_nack_retransm-Emitted :
      (s : RelData Float)
      → IsInOrder fl s
      → HasMinimum fl cfg s
      → Whenever (send_nack_retransm fl cfg now s) (λ (s', out). Emitted s s' out)
  unfolding send_nack_retransm after_nacks
  send_nack_retransm-Emitted s w m =
      let c = sent_cell_at s (first_or_zero fl cfg s.nacks) in
      let s1 = cancel_ack (after_nacks fl cfg s (stream_window fl cfg s c)) in
      let w1 = after_nacks-IsInOrder fl cfg s c w m in
      let e = answer-Emitted s.nacks s1 w1 in
      let (s2, out) = answer fl cfg now s.nacks s1 in
      let unchanged : Emitted s s [] = record {
        tail = refl;
        head = omega arith;
        receives = Receives-refl s.recv;
        packets = tt;
      } in
      Whenever-if (λ (s', out). Emitted s s' out) (not s.connected) _ _ (λ exits. tt)
        λ up.
          Whenever-if (λ (s', out). Emitted s s' out) (is_nil s.nacks) _ _ (λ asked_none. unchanged)
            λ asked.
              Whenever-if (λ (s', out). Emitted s s' out) (s.head == s.tail) _ _
                (λ empty. record {
                  tail = refl;
                  head = omega arith;
                  receives = Receives-refl s.recv;
                  packets = tt;
                })
                λ there. record {
                  tail = e.tail;
                  head = e.head;
                  receives = record {
                    tail = e.receives.tail;
                    head = e.receives.head;
                    flags = e.receives.flags;
                  };
                  packets =
                      Emits-append s2.head s2.head s.recv.recv_tail s.recv.recv_tail (ack_actions s)
                        out (omega arith) refl
                        (Emits-if s2.head s.recv.recv_tail s.recv.scheduled_ack (dequeue_ack ∷ [])
                          tt)
                        e.packets;
                }
