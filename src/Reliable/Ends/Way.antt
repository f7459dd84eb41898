-- ===== src/Reliable/Ends/Way.antt =====
-- What holds of the two ends of a reliable link (daemon/reliable_datagram.c) for the messages of one
-- of them, whatever the network does.
use spines.Prelude.{
  ℕ, ◌≤◌, ◌<◌, ◌≡◌, ap, sym, ◌∙◌, inl, inr, Bool, true, false, ◌&&◌, ◌||◌, not, List, [], ◌∷◌, ◌++◌,
  ◌==◌, arith, Bool-cases,
}
use spines.Reliable.Window.{
  Floats, Config, RelData, Packet, Action, link_send, queue_timeout, dequeue_timeout, dequeue_ack,
  queue_retransm, queue_try_to_send, block_all_sessions, resume_all_sessions,
}
use spines.Reliable.Window.Outstanding.{Numbered-le, IsInOrder}
use spines.Reliable.Receiving.{AckResult}
use spines.Reliable.Receiving.Got.{got, IsClean}
use spines.Reliable.Receiving.Processed.{is_valid_ack, IsReceivable, Processed}
use spines.Reliable.Ends.{Mail, mail_of, Elem, here, there}
use spines.Reliable.Ends.Receives.{Receives, Receives-got, Receives-IsClean}
use spines.Reliable.Ends.Emits.{Emits, Emitted}

abbrev pub All : (Mail → Type 0) → List Mail → Type 0
All P [] = Unit
All P (x ∷ l) = P x × All P l

pub All-Elem : (P : Mail → Type 0) (x : Mail) (l : List Mail) → Elem x l → All P l → P x
All-Elem P x [] m h = elim m [ ]
All-Elem P x (x' ∷ l) here h = h.0
All-Elem P x (y ∷ l) (there m) h = All-Elem P x l m h.1

All-map : (P Q : Mail → Type 0) (l : List Mail) → ((x : Mail) → P x → Q x) → All P l → All Q l
All-map P Q [] k h = tt
All-map P Q (x ∷ l) k (p, h) = (k x p, All-map P Q l k h)

All-append : (P : Mail → Type 0) (a b : List Mail) → All P a → All P b → All P (a ++ b)
All-append P [] b h h' = h'
All-append P (x ∷ a) b (p, h) h' = (p, All-append P a b h h')

-- A packet acknowledges nothing from a number on; a packet with data has a number below another.
abbrev pub AcksBelow : ℕ → Mail → Type 0
AcksBelow n (is_ack, p) = p.cummulative_ack ≤ n

abbrev pub DataBelow : ℕ → Mail → Type 0
DataBelow n (is_ack, p) = is_ack ≡ false → p.seq_no < n

pub mail_of-Emits :
    (limit ack : ℕ) (out : List Action)
    → Emits limit ack out
    → All (AcksBelow ack) (mail_of out) × All (DataBelow limit) (mail_of out)
mail_of-Emits limit ack [] h = (tt, tt)
mail_of-Emits limit ack (link_send p ∷ out) ((lt, same), h) =
    let (a, b) = mail_of-Emits limit ack out h in ((omega (arith, same), a), (λ data_packet. lt, b))
mail_of-Emits limit ack (queue_timeout t ∷ out) h = mail_of-Emits limit ack out h
mail_of-Emits limit ack (dequeue_timeout ∷ out) h = mail_of-Emits limit ack out h
mail_of-Emits limit ack (dequeue_ack ∷ out) h = mail_of-Emits limit ack out h
mail_of-Emits limit ack (queue_retransm ∷ out) h = mail_of-Emits limit ack out h
mail_of-Emits limit ack (queue_try_to_send ∷ out) h = mail_of-Emits limit ack out h
mail_of-Emits limit ack (block_all_sessions ∷ out) h = mail_of-Emits limit ack out h
mail_of-Emits limit ack (resume_all_sessions ∷ out) h = mail_of-Emits limit ack out h

new-number :
    (old valid is_ack same : Bool)
    → old ≡ false
    → (old || (valid && not is_ack && same)) ≡ true
    → (is_ack ≡ false) × (same ≡ true)
new-number old valid is_ack same e h = (ground arith, ground arith)

module _ (fl : Floats) (cfg : Config) where
  open fl use {Float}

  -- For the messages from `s` to `r`: what `s` has dropped was received by `r`, which has received
  -- only what was sent, and the same holds of the packets that say so.
  pub record Way (s r : RelData Float) (to_r to_s : List Mail) : Type 0 where
    pub in_order : IsInOrder fl s
    pub clean : IsClean r.recv
    pub hole : got r.recv r.recv.recv_tail ≡ false
    pub dropped : s.tail ≤ r.recv.recv_tail
    pub sent : (i : ℕ) → got r.recv i ≡ true → i < s.head
    pub acks : All (AcksBelow r.recv.recv_tail) to_s
    pub numbers : All (DataBelow s.head) to_r

  -- The end that sends has sent.
  pub Way-sent :
      (s s' r : RelData Float) (to_r to_s : List Mail) (out : List Action)
      → Way s r to_r to_s
      → Emitted s s' out
      → IsInOrder fl s'
      → Way s' r (mail_of out ++ to_r) to_s
  Way-sent s s' r to_r to_s out w e order = record {
    in_order = order;
    clean = w.clean;
    hole = w.hole;
    dropped = omega (arith, e.tail, w.dropped);
    sent = λ i h. omega (arith, e.head, w.sent i h);
    acks = w.acks;
    numbers =
        All-append (DataBelow s'.head) (mail_of out) to_r
          (mail_of-Emits s'.head s.recv.recv_tail out e.packets).1
          (All-map (DataBelow s.head) (DataBelow s'.head) to_r
            (λ (is_ack, p) below with_data. omega (arith, e.head, below with_data)) w.numbers);
  }

  -- The end that receives has sent.
  pub Way-answered :
      (s r r' : RelData Float) (to_r to_s mail : List Mail)
      → Way s r to_r to_s
      → Receives r.recv r'.recv
      → All (AcksBelow r.recv.recv_tail) mail
      → Way s r' to_r (mail ++ to_s)
  Way-answered s r r' to_r to_s mail w same new = record {
    in_order = w.in_order;
    clean = Receives-IsClean r.recv r'.recv same w.clean;
    hole = Receives-got r.recv r'.recv same r'.recv.recv_tail ∙ ap (got r.recv) same.tail ∙ w.hole;
    dropped = omega (arith, same.tail, w.dropped);
    sent = λ i h. w.sent i (sym (Receives-got r.recv r'.recv same i) ∙ h);
    acks = rw same.tail (All-append (AcksBelow r.recv.recv_tail) mail to_s new w.acks);
    numbers = w.numbers;
  }

  -- A packet from the network fits.
  pub Way-IsReceivable :
      (s r : RelData Float) (to_r to_s : List Mail) (is_ack : Bool) (p : Packet)
      → Way s r to_r to_s
      → Elem (is_ack, p) to_r
      → IsReceivable fl cfg is_ack p r
  Way-IsReceivable s r to_r to_s is_ack p w m =
      let le = Numbered-le s.head s.msg_buff s.seq_no w.in_order.numbered in
      let below = All-Elem (DataBelow s.head) (is_ack, p) to_r m w.numbers in
      record {
        clean = w.clean;
        hole = w.hole;
        near = λ with_data. omega (arith, below with_data, w.in_order.fits, w.dropped);
        small = λ with_data. omega (arith, below with_data, le, w.in_order.below);
      }

  -- The end that receives has taken a packet.
  pub Way-received :
      (s r r' : RelData Float) (to_r to_s : List Mail) (is_ack : Bool) (p : Packet)
      (result : AckResult)
      → Way s r to_r to_s
      → Elem (is_ack, p) to_r
      → Processed fl cfg is_ack p r result r'
      → Way s r' to_r to_s
  Way-received s r r' to_r to_s is_ack p result w m d = record {
    in_order = w.in_order;
    clean = d.clean;
    hole = d.hole;
    dropped = omega (arith, d.recv_tail, w.dropped);
    sent = λ i h. elim (Bool-cases (got r.recv i)) [
      | inl old ↦ w.sent i old
      | inr new ↦
          let (with_data, number) =
            new-number (got r.recv i) (is_valid_ack fl cfg p r) is_ack (p.seq_no == i) new
              (sym (d.received i) ∙ h) in
          let below = All-Elem (DataBelow s.head) (is_ack, p) to_r m w.numbers in
          ground (arith, below with_data)
    ];
    acks =
        All-map (AcksBelow r.recv.recv_tail) (AcksBelow r'.recv.recv_tail) to_s
          (λ (a, q) le. omega (arith, d.recv_tail, le)) w.acks;
    numbers = w.numbers;
  }

  -- The end that sends has taken a packet.
  pub Way-acknowledged :
      (s s' r : RelData Float) (to_r to_s : List Mail) (is_ack : Bool) (p : Packet)
      (result : AckResult)
      → Way s r to_r to_s
      → Elem (is_ack, p) to_s
      → Processed fl cfg is_ack p s result s'
      → Way s' r to_r to_s
  Way-acknowledged s s' r to_r to_s is_ack p result w m d =
      let below = All-Elem (AcksBelow r.recv.recv_tail) (is_ack, p) to_s m w.acks in
      record {
        in_order = d.in_order;
        clean = w.clean;
        hole = w.hole;
        dropped = ground (arith, d.tail, w.dropped);
        sent = λ i h. omega (arith, d.head, w.sent i h);
        acks = w.acks;
        numbers = rw d.head w.numbers;
      }
