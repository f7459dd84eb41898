-- ===== src/Reliable/Ends/Emits.antt =====
-- What the functions of daemon/reliable_datagram.c put into their packets.
use spines.Prelude.{
  ℕ, ◌≤◌, ◌<◌, ◌≡◌, refl, sym, ◌∙◌, inl, inr, Bool, true, false, ◌||◌, not, List, [], ◌∷◌, ◌++◌,
  ltb, if◌then◌else◌, length, arith, Bool-cases,
}
use spines.Prelude.Options.{Returns, Returns-bind, Returns-if}
use spines.Reliable.Window.{
  Floats, Config, BufferCell, RelData, Action, link_send, queue_timeout, dequeue_timeout,
  dequeue_ack, queue_retransm, queue_try_to_send, block_all_sessions, resume_all_sessions, is_nil,
  has_room,
}
use spines.Reliable.Window.Outstanding.{Waits}
use spines.Reliable.Sending.{
  ack_actions, timeout_actions, cancel_ack, resume, send_buffered, send_while_room, send_much,
}
use spines.Reliable.Sending.Rounds.{send_buffered-Waits}
use spines.Reliable.Ends.Receives.{
  Receives, Receives-refl, Receives-trans, add_nacks_twice-Receives,
}

-- Each packet has a number below the limit, and acknowledges what is below the given one.
abbrev pub Emits : ℕ → ℕ → List Action → Type 0
Emits limit ack [] = Unit
Emits limit ack (link_send p ∷ out) =
    ((p.seq_no < limit) × (p.cummulative_ack ≡ ack)) × Emits limit ack out
Emits limit ack (queue_timeout t ∷ out) = Emits limit ack out
Emits limit ack (dequeue_timeout ∷ out) = Emits limit ack out
Emits limit ack (dequeue_ack ∷ out) = Emits limit ack out
Emits limit ack (queue_retransm ∷ out) = Emits limit ack out
Emits limit ack (queue_try_to_send ∷ out) = Emits limit ack out
Emits limit ack (block_all_sessions ∷ out) = Emits limit ack out
Emits limit ack (resume_all_sessions ∷ out) = Emits limit ack out

-- A larger limit, and more that is done.
pub Emits-append :
    (limit limit' ack ack' : ℕ) (a b : List Action)
    → limit ≤ limit'
    → ack' ≡ ack
    → Emits limit ack a
    → Emits limit' ack' b
    → Emits limit' ack' (a ++ b)
Emits-append l l' k k' [] b le e h h' = h'
Emits-append l l' k k' (link_send p ∷ a) b le e ((lt, same), h) h' =
    ((omega arith, same ∙ sym e), Emits-append l l' k k' a b le e h h')
Emits-append l l' k k' (queue_timeout t ∷ a) b le e h h' = Emits-append l l' k k' a b le e h h'
Emits-append l l' k k' (dequeue_timeout ∷ a) b le e h h' = Emits-append l l' k k' a b le e h h'
Emits-append l l' k k' (dequeue_ack ∷ a) b le e h h' = Emits-append l l' k k' a b le e h h'
Emits-append l l' k k' (queue_retransm ∷ a) b le e h h' = Emits-append l l' k k' a b le e h h'
Emits-append l l' k k' (queue_try_to_send ∷ a) b le e h h' = Emits-append l l' k k' a b le e h h'
Emits-append l l' k k' (block_all_sessions ∷ a) b le e h h' = Emits-append l l' k k' a b le e h h'
Emits-append l l' k k' (resume_all_sessions ∷ a) b le e h h' = Emits-append l l' k k' a b le e h h'

pub Emits-if :
    (limit ack : ℕ) (b : Bool) (out : List Action)
    → Emits limit ack out
    → Emits limit ack (if b then out else [])
Emits-if limit ack true out h = h
Emits-if limit ack false out h = tt

module _ {F : Type 0} where
  -- What sending leaves as it is, and what it puts into packets.
  pub record Emitted (s s' : RelData F) (out : List Action) : Type 0 where
    pub tail : s'.tail ≡ s.tail
    pub head : s.head ≤ s'.head
    pub receives : Receives s.recv s'.recv
    pub packets : Emits s'.head s.recv.recv_tail out

  pub Emitted-trans :
      (a b c : RelData F) (out out' : List Action)
      → Emitted a b out
      → Emitted b c out'
      → Emitted a c (out ++ out')
  Emitted-trans a b c out out' e e' = record {
    tail = e'.tail ∙ e.tail;
    head = omega (arith, e.head, e'.head);
    receives = Receives-trans a.recv b.recv c.recv e.receives e'.receives;
    packets =
        Emits-append b.head c.head a.recv.recv_tail a.recv.recv_tail out out' e'.head refl e.packets
          (rw (sym e.receives.tail) e'.packets);
  }

  -- Nothing is sent before or after.
  pub Emitted-around :
      (s s' : RelData F) (before out after : List Action)
      → Emits s'.head s.recv.recv_tail before
      → Emits s'.head s.recv.recv_tail after
      → Emitted s s' out
      → Emitted s s' (before ++ (out ++ after))
  Emitted-around s s' before out after b a e = record {
    tail = e.tail;
    head = e.head;
    receives = e.receives;
    packets =
        Emits-append s'.head s'.head _ _ before (out ++ after) (omega arith) refl b
          (Emits-append s'.head s'.head _ _ out after (omega arith) refl e.packets a);
  }

module _ (fl : Floats) (cfg : Config) (now last : ℕ) where
  open fl use {Float}

  send_buffered-Emitted :
      (buff_size : ℕ) (s : RelData Float) (c : BufferCell) (cs : List BufferCell)
      → Waits fl s last (c ∷ cs)
      → has_room fl s ≡ true
      → let (s', sent) = send_buffered fl cfg now buff_size c s in Emitted s s' (sent ∷ [])
  unfolding send_buffered
  send_buffered-Emitted buff_size s c cs w room =
      let (w', grown, next) = send_buffered-Waits fl last cfg now buff_size s c cs w room in
      let r = add_nacks_twice-Receives cfg now c.data_len s.recv in
      record {
        tail = refl;
        head = omega (arith, next);
        receives = r;
        packets = ((omega (arith, next, w.numbered), r.tail), tt);
      }

  send_while_room-Emitted :
      (buff_size : ℕ) (waiting : List BufferCell) (s : RelData Float)
      → Waits fl s last waiting
      → Returns (send_while_room fl cfg now buff_size waiting s) (λ (s', out). Emitted s s' out)
  unfolding send_while_room send_buffered
  send_while_room-Emitted buff_size [] s w = record {
    tail = refl;
    head = omega arith;
    receives = Receives-refl s.recv;
    packets = tt;
  }
  send_while_room-Emitted buff_size (c ∷ cs) s w =
      let (s1, sent) = send_buffered fl cfg now buff_size c s in
      elim (Bool-cases (has_room fl s)) [
        | inl room ↦
            let (w1, grown, next) = send_buffered-Waits fl last cfg now buff_size s c cs w room in
            let first : ltb c.seq_no s.head ≡ false = ground (arith, w.numbered) in
            let one = send_buffered-Emitted buff_size s c cs w room in
            rw (room, first)
              (Returns-bind (λ (s', out). Emitted s1 s' out) _
                (send_while_room fl cfg now buff_size cs s1) _
                (send_while_room-Emitted buff_size cs s1 w1)
                λ (s', out) e. Emitted-trans s s1 s' (sent ∷ []) out one e)
        | inr full ↦ rw full (record {
          tail = refl;
          head = omega arith;
          receives = Receives-refl s.recv;
          packets = tt;
        })
      ]

  pub timeout_actions-Emits :
      (limit ack : ℕ) (s : RelData Float) → Emits limit ack (timeout_actions fl cfg now s)
  timeout_actions-Emits limit ack s =
      Emits-append limit limit ack ack (if s.scheduled_timeout then dequeue_timeout ∷ [] else []) _
        (omega arith) refl (Emits-if limit ack s.scheduled_timeout (dequeue_timeout ∷ []) tt) tt

  pub send_much-Emitted :
      (s : RelData Float)
      → Waits fl s last s.msg_buff
      → Returns (send_much fl cfg now s) (λ (s', out). Emitted s s' out)
  unfolding send_much
  send_much-Emitted s w =
      Returns-if (λ (s', out). Emitted s s' out)
        (not s.connected || not (has_room fl s) || is_nil s.msg_buff) _ _
        (λ stop. record {
          tail = refl;
          head = omega arith;
          receives = Receives-refl s.recv;
          packets = tt;
        })
        (λ go.
          Returns-bind (λ (s', out). Emitted (cancel_ack s) s' out) _
            (send_while_room fl cfg now (length s.msg_buff) s.msg_buff (cancel_ack s)) _
            (send_while_room-Emitted (length s.msg_buff) s.msg_buff (cancel_ack s) w)
            λ (s', out) e.
              let s'' = (resume fl cfg now s').0 in
              Emitted-around s (record s'' { scheduled_timeout = true }) (ack_actions s) out
                ((resume fl cfg now s').1 ++ timeout_actions fl cfg now s'')
                (Emits-if s'.head s.recv.recv_tail s.recv.scheduled_ack (dequeue_ack ∷ []) tt)
                (Emits-append s'.head s'.head s.recv.recv_tail s.recv.recv_tail
                  (resume fl cfg now s').1 _ (omega arith) refl
                  (Emits-if s'.head s.recv.recv_tail _ (resume_all_sessions ∷ []) tt)
                  (timeout_actions-Emits s'.head s.recv.recv_tail s''))
                (record {
                  tail = e.tail;
                  head = e.head;
                  receives = record {
                    tail = e.receives.tail;
                    head = e.receives.head;
                    flags = e.receives.flags;
                  };
                  packets = e.packets;
                }))
