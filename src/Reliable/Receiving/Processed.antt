-- ===== src/Reliable/Receiving/Processed.antt =====
-- `Process_Ack` (daemon/reliable_datagram.c) as a whole: on the sending window it drops what is
-- acknowledged, on the receiving window it notes the number of the packet.
use spines.Prelude.{
  ℕ, zero, suc, ◌+◌, ◌-◌, ◌^◌, ◌≤◌, ◌<◌, ◌≡◌, refl, ap, sym, ◌∙◌, Bool, true, false, ◌&&◌, ◌||◌,
  not, List, [], ◌∷◌, ◌++◌, map, ltb, ◌==◌, if◌then◌else◌, length, drop, arith,
}
use spines.Prelude.Options.{Returns, Returns-bind, Returns-if}
use spines.Reliable.{max_window, ReliableData}
use spines.Reliable.Window.{Floats, Config, BufferCell, RelData, Packet, Action}
use spines.Reliable.Window.Outstanding.{item, items, in_window, outstanding, IsInOrder}
use spines.Reliable.Receiving.{
  AckResult, fresh, known, only_ack, keep_nacks, measure, release_from, acknowledge, settle,
  take_data, process_ack,
}
use spines.Reliable.Receiving.Freed.{Frame, Freed, in_order-Freed, release_from-Freed}
use spines.Reliable.Receiving.Got.{got, IsClean, receive-got}

length-items : (n i : ℕ) (w : ℕ → BufferCell) → length (items n i w) ≡ n
length-items zero i w = refl
length-items (suc n) i w = ap suc (length-items n (suc i) w)

drop-append : {A : Type 0} (n : ℕ) (a b : List A) → n ≤ length a → drop n (a ++ b) ≡ drop n a ++ b
drop-append zero a b le = refl
drop-append (suc n) [] b le = elim le [ ]
drop-append (suc n) (x ∷ a) b le = drop-append n a b (omega arith)

module _ (fl : Floats) (cfg : Config) where
  open fl use {Float}

  -- What an acknowledgement of everything below a number does to the messages.
  pub record Acked (ack : ℕ) (s s' : RelData Float) : Type 0 where
    pub in_order : IsInOrder fl s'
    pub left : outstanding s' ≡ drop (ack - s.tail) (outstanding s)
    pub tail : s'.tail ≡ (if ltb s.tail ack then ack else s.tail)
    pub frame : Frame fl cfg s s'
    pub recv : (rtt : ℕ) × (s'.recv ≡ record (s.recv) { rtt = rtt })

  acknowledge-Acked :
      (now ack : ℕ) (s : RelData Float)
      → IsInOrder fl s
      → ack ≤ s.head
      → Returns (acknowledge fl cfg now ack s) (λ (s', out). Acked ack s s')
  unfolding acknowledge measure
  acknowledge-Acked now ack s w le =
      Returns-if (λ (s', out). Acked ack s s') (ltb s.tail ack) _ _
        (λ news.
          Returns-bind (λ s'. Freed fl cfg (ack - s.tail) (measure fl cfg now ack s) s') _
            (release_from fl cfg (ack - s.tail) s.tail (measure fl cfg now ack s)) _
            (release_from-Freed fl cfg (ack - s.tail) s.tail (measure fl cfg now ack s) w refl
              (ground arith))
            λ s' f. record {
              in_order = in_order-Freed fl cfg _ _ s' f;
              left =
                  rw (f.dropped, f.frame.msg_buff)
                    (sym (
                      drop-append (ack - s.tail) (in_window s) (map item s.msg_buff)
                        (omega (arith, length-items (s.head - s.tail) s.tail s.window))));
              tail = ground (arith, f.tail);
              frame = record {
                head = f.frame.head;
                seq_no = f.frame.seq_no;
                msg_buff = f.frame.msg_buff;
                connected = f.frame.connected;
                recv_tail = f.frame.recv_tail;
              };
              recv = (_, f.recv);
            })
        (λ old.
          let none_new : ack - s.tail ≡ 0 = ground arith in
          record {
            in_order = w;
            left = rw none_new refl;
            tail = rw old refl;
            frame = record {
              head = refl;
              seq_no = refl;
              msg_buff = refl;
              connected = refl;
              recv_tail = refl;
            };
            recv = (s.recv.rtt, refl);
          })

  -- The cumulative acknowledgement is of numbers that were sent.
  abbrev pub is_valid_ack : Packet → RelData Float → Bool
  is_valid_ack p s = not (ltb s.head p.cummulative_ack)

  -- The result for a packet with data, and for an acknowledgement alone.
  abbrev pub result_of : Bool → Bool → AckResult
  result_of is_ack seen = if is_ack then only_ack else if seen then known else fresh

  pub record Processed (is_ack : Bool) (p : Packet) (s : RelData Float) (r : AckResult)
      (s' : RelData Float) : Type 0 where
    pub in_order : IsInOrder fl s'
    pub left : outstanding s' ≡ (
        if is_valid_ack p s
        then drop (p.cummulative_ack - s.tail) (outstanding s)
        else outstanding s)
    pub tail :
        s'.tail
        ≡ (if is_valid_ack p s && ltb s.tail p.cummulative_ack then p.cummulative_ack else s.tail)
    pub head : s'.head ≡ s.head
    pub seq_no : s'.seq_no ≡ s.seq_no
    pub clean : IsClean s'.recv
    pub hole : got s'.recv s'.recv.recv_tail ≡ false
    pub result : r ≡ (if is_valid_ack p s then result_of is_ack (got s.recv p.seq_no) else known)
    pub received :
        (i : ℕ)
        → got s'.recv i ≡ (got s.recv i || (is_valid_ack p s && not is_ack && p.seq_no == i))
    pub recv_tail : s.recv.recv_tail ≤ s'.recv.recv_tail

  -- The number of a packet with data fits the receiving window.
  pub record IsReceivable (is_ack : Bool) (p : Packet) (s : RelData Float) : Type 0 where
    pub clean : IsClean s.recv
    pub hole : got s.recv s.recv.recv_tail ≡ false
    pub near : is_ack ≡ false → p.seq_no < s.recv.recv_tail + max_window
    pub small : is_ack ≡ false → suc p.seq_no < 2 ^ 32

  take_data-Processed :
      (is_ack : Bool) (p : Packet) (s s2 : RelData Float) (out : List Action)
      → Acked p.cummulative_ack s s2
      → IsReceivable is_ack p s
      → is_valid_ack p s ≡ true
      → let (r, s', out') = take_data fl cfg is_ack p.seq_no (settle fl cfg s2).0 out in
        Processed is_ack p s r s'
  unfolding settle
  take_data-Processed true p s s2 out a v valid =
      let (rtt, e) = a.recv in
      rw e (record {
        in_order = a.in_order;
        left = rw valid a.left;
        tail = rw valid a.tail;
        head = a.frame.head;
        seq_no = a.frame.seq_no;
        clean = v.clean;
        hole = v.hole;
        result = rw valid refl;
        received = λ i. rw valid (ground arith);
        recv_tail = omega arith;
      })
  take_data-Processed false p s s2 out a v valid =
      let (rtt, e) = a.recv in
      let d : ReliableData = record (s.recv) { rtt = rtt } in
      let (new, clean, more, hole, up) =
        receive-got p.seq_no d v.clean (v.near refl) (v.small refl) v.hole in
      rw e (record {
        in_order = a.in_order;
        left = rw valid a.left;
        tail = rw valid a.tail;
        head = a.frame.head;
        seq_no = a.frame.seq_no;
        clean = clean;
        hole = hole;
        result = rw (valid, new) (ground arith);
        received = λ i. more i ∙ rw valid refl;
        recv_tail = up;
      })

  -- From a link in order, for a packet whose number, if it has data, fits the
  -- receiving window, `Process_Ack` never
  -- exits. A cumulative acknowledgement of more than was sent is ignored together with its packet.
  -- Any other drops just the messages below it from those that are outstanding, whose order stays. A
  -- packet with data is found to be new exactly if its number was not received before; then this
  -- number is received and no other. The tail of the receiving window only moves up, and stands at
  -- the first number that was not received.
  pub process_ack-Processed :
      (now : ℕ) (is_ack : Bool) (p : Packet) (s : RelData Float)
      → IsInOrder fl s
      → IsReceivable is_ack p s
      → Returns (process_ack fl cfg now is_ack p s) (λ (r, s', out). Processed is_ack p s r s')
  unfolding process_ack keep_nacks
  process_ack-Processed now is_ack p s w v =
      let s1 = (keep_nacks fl cfg p.nacks s).0 in
      let out1 = (keep_nacks fl cfg p.nacks s).1 in
      Returns-if (λ (r, s', out). Processed is_ack p s r s') (ltb s.head p.cummulative_ack) _ _
        (λ strange.
          let invalid : is_valid_ack p s ≡ false = ground arith in
          record {
            in_order = w;
            left = rw invalid refl;
            tail = rw invalid refl;
            head = refl;
            seq_no = refl;
            clean = v.clean;
            hole = v.hole;
            result = rw invalid refl;
            received = λ i. rw invalid (ground arith);
            recv_tail = omega arith;
          })
        (λ sent.
          Returns-bind (λ (s2, out2). Acked p.cummulative_ack s1 s2) _
            (acknowledge fl cfg now p.cummulative_ack s1) _
            (acknowledge-Acked now p.cummulative_ack s1 w (ground arith))
            λ (s2, out2) a.
              let same : Acked p.cummulative_ack s s2 = record {
                in_order = a.in_order;
                left = a.left;
                tail = a.tail;
                frame = record {
                  head = a.frame.head;
                  seq_no = a.frame.seq_no;
                  msg_buff = a.frame.msg_buff;
                  connected = a.frame.connected;
                  recv_tail = a.frame.recv_tail;
                };
                recv = a.recv;
              } in
              take_data-Processed is_ack p s s2 (out1 ++ (out2 ++ (settle fl cfg s2).1)) same v
                (ground arith))
