-- ===== src/Reliable/Sending/Rounds.antt =====
-- The loop of `Send_Much` (daemon/reliable_datagram.c): what waits moves into the window, in order.
use spines.Prelude.{
  ℕ, suc, ◌+◌, ◌-◌, ◌%◌, ◌^◌, ◌<◌, ◌≡◌, refl, ap, ◌∙◌, ◌⊎◌, inl, inr, true, false, List, [], ◌∷◌,
  ◌++◌, map, ltb, ◌==◌, arith, Bool-cases,
}
use spines.Prelude.Options.{Returns, Returns-bind}
use spines.Reliable.{max_window, ReliableData}
use spines.Reliable.Window.{
  Floats, Config, BufferCell, RelData, Action, link_send, queue_timeout, dequeue_timeout,
  dequeue_ack, queue_retransm, queue_try_to_send, block_all_sessions, resume_all_sessions, has_room,
}
use spines.Reliable.Window.Outstanding.{
  Item, item, in_window, is_some, Numbered-le, Waits, has_room-lt, items-store,
}
use spines.Reliable.Sending.{place, send_buffered, send_while_room}
use mathlib.Core.List.{append_assoc}

-- The messages among what is done.
abbrev pub sent_items : List Action → List Item
sent_items [] = []
sent_items (link_send p ∷ out) = (p.buff, p.data_len) ∷ sent_items out
sent_items (queue_timeout t ∷ out) = sent_items out
sent_items (dequeue_timeout ∷ out) = sent_items out
sent_items (dequeue_ack ∷ out) = sent_items out
sent_items (queue_retransm ∷ out) = sent_items out
sent_items (queue_try_to_send ∷ out) = sent_items out
sent_items (block_all_sessions ∷ out) = sent_items out
sent_items (resume_all_sessions ∷ out) = sent_items out

pub sent_items-append : (a b : List Action) → sent_items (a ++ b) ≡ sent_items a ++ sent_items b
sent_items-append [] b = refl
sent_items-append (link_send p ∷ out) b = rw (sent_items-append out b) refl
sent_items-append (queue_timeout t ∷ out) b = sent_items-append out b
sent_items-append (dequeue_timeout ∷ out) b = sent_items-append out b
sent_items-append (dequeue_ack ∷ out) b = sent_items-append out b
sent_items-append (queue_retransm ∷ out) b = sent_items-append out b
sent_items-append (queue_try_to_send ∷ out) b = sent_items-append out b
sent_items-append (block_all_sessions ∷ out) b = sent_items-append out b
sent_items-append (resume_all_sessions ∷ out) b = sent_items-append out b

module _ (fl : Floats) (last : ℕ) where
  open fl use {Float}

  -- The last message of the window is the next one that waits.
  pub place-Waits :
      (s : RelData Float) (c c0 : BufferCell) (cs : List BufferCell) (d : ReliableData)
      → Waits fl s last (c0 ∷ cs)
      → s.head < s.tail + max_window
      → c.seq_no ≡ c0.seq_no
      → c.buff ≡ c0.buff
      → let s' : RelData Float = record (place c s) { recv = d } in
        Waits fl s' last cs × (in_window s' ≡ in_window s ++ (item c ∷ [])) × (s'.head ≡ suc s.head)
  place-Waits s c c0 cs d w room e eb =
      let (n, b, rest) = w.numbered in
      let le = Numbered-le (suc s.head) cs last rest in
      let number : c.seq_no ≡ s.head = e ∙ n in
      let head : (c.seq_no + 1) % 2 ^ 32 ≡ suc s.head = omega (arith, w.below) in
      let count : suc s.head - s.tail ≡ suc (s.head - s.tail) = omega (arith, w.ordered) in
      (
        record {
          ordered = rw head (omega (arith, w.ordered));
          fits = rw head (omega arith);
          numbered = rw head rest;
          below = w.below;
          size = w.size;
          within = w.within;
          stored = λ j h. elim (Bool-cases (c.seq_no % max_window == j)) [
            | inl t ↦ rw (t, head) (omega (arith, number))
            | inr f ↦
                let old : is_some (s.window j).buff ≡ true = ground arith in
                rw (f, head) (omega (arith, w.stored j old))
          ];
          held = λ i lo hi. elim (Bool-cases (c.seq_no % max_window == i % max_window)) [
            | inl t ↦ let same : c.seq_no ≡ i = ground arith in rw t (same, ap is_some eb ∙ b)
            | inr f ↦ rw f (w.held i lo (ground arith))
          ];
        },
        rw (head, count)
            (items-store (s.head - s.tail) s.tail c.seq_no s.window c (omega (arith, w.ordered))
              (omega arith)),
        head,
      )

  -- What one round of the loop does with the message in front.
  pub send_buffered-Waits :
      (cfg : Config) (now buff_size : ℕ) (s : RelData Float) (c : BufferCell) (cs : List BufferCell)
      → Waits fl s last (c ∷ cs)
      → has_room fl s ≡ true
      → let (s', sent) = send_buffered fl cfg now buff_size c s in
        Waits fl s' last cs × (in_window s' ≡ in_window s ++ (item c ∷ [])) × (s'.head ≡ suc s.head)
  unfolding send_buffered
  send_buffered-Waits cfg now buff_size s c cs w room =
      place-Waits s (record c { pack_type = _; timestamp = now; resent = false }) c cs s.recv w
        (has_room-lt fl s w room) refl refl

  -- What the loop leaves of the messages that waited: those that were sent are the first of them, in
  -- order; nothing is lost, and it stops only where the window is full or nothing waits.
  pub record Drained (waiting : List BufferCell) (s s' : RelData Float) (out : List Action)
      : Type 0 where
    pub waits : Waits fl s' last s'.msg_buff
    pub kept : in_window s' ++ map item s'.msg_buff ≡ in_window s ++ map item waiting
    pub sends : sent_items out ++ map item s'.msg_buff ≡ map item waiting
    pub stops : (has_room fl s' ≡ false) ⊎ (s'.msg_buff ≡ [])
    pub tail : s'.tail ≡ s.tail
    pub seq_no : s'.seq_no ≡ s.seq_no
    pub connected : s'.connected ≡ s.connected
    pub blocked_on : s'.blocked_on ≡ s.blocked_on

  pub send_while_room-Drained :
      (cfg : Config) (now buff_size : ℕ) (waiting : List BufferCell) (s : RelData Float)
      → Waits fl s last waiting
      → Returns
          (send_while_room fl cfg now buff_size waiting s)
          (λ (s', out). Drained waiting s s' out)
  unfolding send_while_room send_buffered
  send_while_room-Drained cfg now buff_size [] s w = record {
    waits = w;
    kept = refl;
    sends = refl;
    stops = inr refl;
    tail = refl;
    seq_no = refl;
    connected = refl;
    blocked_on = refl;
  }
  send_while_room-Drained cfg now buff_size (c ∷ cs) s w =
      let (s1, sent) = send_buffered fl cfg now buff_size c s in
      elim (Bool-cases (has_room fl s)) [
        | inl room ↦
            let (w1, grown, next) = send_buffered-Waits cfg now buff_size s c cs w room in
            let first : ltb c.seq_no s.head ≡ false = ground (arith, w.numbered) in
            rw (room, first)
              (Returns-bind (λ (s', out). Drained cs s1 s' out) _
                (send_while_room fl cfg now buff_size cs s1) _
                (send_while_room-Drained cfg now buff_size cs s1 w1)
                λ (s', out) d. record {
                  waits = d.waits;
                  kept = d.kept ∙ rw grown (append_assoc (in_window s) (item c ∷ []) (map item cs));
                  sends = ap (λ l. item c ∷ l) d.sends;
                  stops = d.stops;
                  tail = d.tail;
                  seq_no = d.seq_no;
                  connected = d.connected;
                  blocked_on = d.blocked_on;
                })
        | inr full ↦ rw full (record {
          waits = w;
          kept = refl;
          sends = refl;
          stops = inl full;
          tail = refl;
          seq_no = refl;
          connected = refl;
          blocked_on = refl;
        })
      ]
