-- ===== src/Reliable/Datagrams/Once.antt =====
-- That the packets of a reliable link are delivered once each (daemon/reliable_udp.c).
use spines.Prelude.{
  ℕ, suc, ◌+◌, ◌^◌, ◌≤◌, ◌<◌, ◌≡◌, refl, ap, ◌∙◌, inl, inr, Bool, true, false, ◌&&◌, ◌||◌, not,
  Option, some, List, [], ◌∷◌, ltb, ◌==◌, if◌then◌else◌, arith, Bool-cases,
}
use spines.Prelude.Options.{Returns, Returns-bind, Returns-if, ◌>>=◌}
use spines.Reliable.{max_window}
use spines.Reliable.Window.{Floats, Config, RelData, Action}
use spines.Reliable.Window.Outstanding.{IsInOrder}
use spines.Reliable.Receiving.{AckResult, fresh, known, only_ack, process_ack}
use spines.Reliable.Receiving.Got.{got, IsClean}
use spines.Reliable.Receiving.Processed.{
  Processed, IsReceivable, is_valid_ack, result_of, process_ack-Processed,
}
use spines.Reliable.Datagrams.{
  Datagram, Outcome, ignored, is_fresh, schedule_ack, process_rel_udp_data_packet,
}

-- How often a number is in a list.
abbrev pub times : ℕ → List ℕ → ℕ
times i [] = 0
times i (n ∷ ns) = (if n == i then 1 else 0) + times i ns

-- A number that is received again changes nothing.
same_received :
    (seen : ℕ → Bool) (valid fit : Bool) (seq i : ℕ) (new : Bool)
    → new ≡ (valid && fit && not (seen seq))
    → (seen i || (valid && fit && seq == i)) ≡ (seen i || (new && seq == i))
same_received seen valid fit seq i new e = elim (Bool-cases (seq == i)) [
  | inl t ↦
      let at : seq ≡ i = ground arith in
      let e' : new ≡ (valid && fit && not (seen i)) =
        e ∙ ap (λ n. valid && fit && not (seen n)) at in
      rw (t, e') (ground arith)
  | inr f ↦ rw f (ground arith)
]

same_number : (i seq : ℕ) → (seq == i) ≡ true → i ≡ seq
same_number i seq e = ground arith

times-step :
    (before mid after same : Bool) (n : ℕ)
    → n ≡ (if not mid && after then 1 else 0)
    → mid ≡ (before || same)
    → (same ≡ true → before ≡ false)
    → (mid ≡ true → after ≡ true)
    → (if same then 1 else 0) + n ≡ (if not before && after then 1 else 0)
times-step before mid after same n e m new kept = ground arith

times-same :
    (before mid after : Bool) (n : ℕ)
    → n ≡ (if not mid && after then 1 else 0)
    → mid ≡ before
    → n ≡ (if not before && after then 1 else 0)
times-same before mid after n e m = e ∙ rw m refl

module _ (fl : Floats) (cfg : Config) (header_size : ℕ) where
  open fl use {Float}

  -- The packets that arrive at their times: the numbers of those that are delivered.
  unfoldable pub process_all : List (ℕ × Datagram) → RelData Float → Option (List ℕ × RelData Float)
  unfolding process_rel_udp_data_packet
  process_all [] s = some ([], s)
  process_all ((now, g) ∷ gs) s = process_rel_udp_data_packet fl cfg header_size now g s >>= λ o.
      process_all gs o.state >>= λ (ns, s').
      some ((if o.delivered then g.packet.seq_no ∷ ns else ns), s')

  -- A link in order, both ways.
  pub record IsSound (s : RelData Float) : Type 0 where
    pub in_order : IsInOrder fl s
    pub clean : IsClean s.recv
    pub hole : got s.recv s.recv.recv_tail ≡ false

  -- The numbers fit the receiving window as it stands at the start.
  abbrev pub Near : ℕ → List (ℕ × Datagram) → Type 0
  Near tail [] = Unit
  Near tail ((now, g) ∷ gs) =
      (g.packet.seq_no < tail + max_window) × (suc g.packet.seq_no < 2 ^ 32) × Near tail gs

  -- What one packet does to the numbers that were received.
  pub record Handled (g : Datagram) (s : RelData Float) (o : Outcome (RelData Float)) : Type 0 where
    pub sound : IsSound o.state
    pub recv_tail : s.recv.recv_tail ≤ o.state.recv.recv_tail
    pub new : o.delivered ≡ true → got s.recv g.packet.seq_no ≡ false
    pub received :
        (i : ℕ) → got o.state.recv i ≡ (got s.recv i || (o.delivered && g.packet.seq_no == i))

  -- Once each: what is received in the end was received before, or is delivered just once.
  pub record Once (s : RelData Float) (ns : List ℕ) (s' : RelData Float) : Type 0 where
    pub sound : IsSound s'
    pub kept : (i : ℕ) → got s.recv i ≡ true → got s'.recv i ≡ true
    pub once : (i : ℕ) → times i ns ≡ (if not (got s.recv i) && got s'.recv i then 1 else 0)

  -- Only a number that was not received before is new.
  result_of-fresh :
      (valid is_ack seen : Bool) (r : AckResult)
      → r ≡ (if valid then result_of fl cfg is_ack seen else known)
      → is_fresh r ≡ (valid && not is_ack && not seen)
  result_of-fresh false is_ack seen r e = ap is_fresh e
  result_of-fresh true true seen r e = ap is_fresh e
  result_of-fresh true false true r e = ap is_fresh e
  result_of-fresh true false false r e = ap is_fresh e

  with_ack : RelData Float → RelData Float
  with_ack s = record s { recv = record (s.recv) { scheduled_ack = true } }

  with_ack-IsSound : (s : RelData Float) → IsSound s → IsSound (with_ack s)
  unfolding with_ack
  with_ack-IsSound s h =
      let c = h.clean in
      record {
        in_order = h.in_order;
        clean = record { ordered = c.ordered; fits = c.fits; below = c.below; beyond = c.beyond };
        hole = h.hole;
      }

  ignored-Handled : (g : Datagram) (s : RelData Float) → IsSound s → Handled g s (ignored fl cfg s)
  ignored-Handled g s h = record {
    sound = h;
    recv_tail = omega arith;
    new = λ e. absurd (ground arith);
    received = λ i. ground arith;
  }

  scheduled-Handled :
      (g : Datagram) (s s' : RelData Float) (r : AckResult) (out : List Action)
      → IsSound s'
      → s.recv.recv_tail ≤ s'.recv.recv_tail
      → (is_fresh r ≡ true → got s.recv g.packet.seq_no ≡ false)
      → ((i : ℕ) → got s'.recv i ≡ (got s.recv i || (is_fresh r && g.packet.seq_no == i)))
      → Handled g s (schedule_ack fl cfg r s' out)
  unfolding schedule_ack with_ack
  scheduled-Handled g s s' fresh out h le new received = record {
    sound = with_ack-IsSound s' h;
    recv_tail = le;
    new = new;
    received = received;
  }
  scheduled-Handled g s s' known out h le new received = record {
    sound = with_ack-IsSound s' h;
    recv_tail = le;
    new = new;
    received = received;
  }
  scheduled-Handled g s s' only_ack out h le new received = record {
    sound = h;
    recv_tail = le;
    new = new;
    received = received;
  }

  schedule_ack-Handled :
      (g : Datagram) (s s' : RelData Float) (r : AckResult) (out : List Action)
      → Processed fl cfg g.is_ack g.packet s r s'
      → Handled g s (schedule_ack fl cfg r s' out)
  unfolding schedule_ack with_ack
  schedule_ack-Handled g s s' r out p =
      let valid = is_valid_ack fl cfg g.packet s in
      let f : is_fresh r ≡ (valid && not g.is_ack && not (got s.recv g.packet.seq_no)) =
        result_of-fresh valid g.is_ack (got s.recv g.packet.seq_no) r p.result in
      let sound : IsSound s' = record { in_order = p.in_order; clean = p.clean; hole = p.hole } in
      let received = λ (i : ℕ).
        p.received i
        ∙ same_received (got s.recv) valid (not g.is_ack) g.packet.seq_no i (is_fresh r) f in
      scheduled-Handled g s s' r out sound p.recv_tail (λ e. ground (arith, f)) received

  process-Handled :
      (now : ℕ) (g : Datagram) (s : RelData Float)
      → IsSound s
      → g.packet.seq_no < s.recv.recv_tail + max_window
      → suc g.packet.seq_no < 2 ^ 32
      → Returns (process_rel_udp_data_packet fl cfg header_size now g s) (Handled g s)
  unfolding process_rel_udp_data_packet
  process-Handled now g s h near small =
      Returns-if (Handled g s)
        (not (g.num_elements == 2) || (ltb g.len header_size || not s.connected)) _ _
        (λ _. ignored-Handled g s h)
        λ _.
          let fits : IsReceivable fl cfg g.is_ack g.packet s = record {
            clean = h.clean;
            hole = h.hole;
            near = λ _. near;
            small = λ _. small;
          } in
          Returns-bind (λ (r, s', out). Processed fl cfg g.is_ack g.packet s r s') (Handled g s)
            (process_ack fl cfg now g.is_ack g.packet s) _
            (process_ack-Processed fl cfg now g.is_ack g.packet s h.in_order fits)
            λ (r, s', out) p. schedule_ack-Handled g s s' r out p

  Near-le : (t t' : ℕ) (gs : List (ℕ × Datagram)) → t ≤ t' → Near t gs → Near t' gs
  Near-le t t' [] le n = tt
  Near-le t t' ((now, g) ∷ gs) le (near, small, n) =
      (omega (arith, le, near), small, Near-le t t' gs le n)

  step-Once :
      (g : Datagram) (s : RelData Float) (o : Outcome (RelData Float)) (ns : List ℕ)
      (s' : RelData Float)
      → Handled g s o
      → Once o.state ns s'
      → Once s (if o.delivered then g.packet.seq_no ∷ ns else ns) s'
  step-Once g s o ns s' h r = elim (Bool-cases o.delivered) [
    | inl t ↦ rw t (record {
      sound = r.sound;
      kept = λ i e. r.kept i (h.received i ∙ rw e refl);
      once = λ i.
          times-step (got s.recv i) (got o.state.recv i) (got s'.recv i) (g.packet.seq_no == i)
            (times i ns) (r.once i) (h.received i ∙ rw t refl)
            (λ e. ap (got s.recv) (same_number i g.packet.seq_no e) ∙ h.new t) (r.kept i);
    })
    | inr f ↦ rw f (record {
      sound = r.sound;
      kept = λ i e. r.kept i (h.received i ∙ rw e refl);
      once = λ i.
          times-same (got s.recv i) (got o.state.recv i) (got s'.recv i) (times i ns) (r.once i)
            (h.received i ∙ rw f (ground arith));
    })
  ]

  -- On a link in order, for packets whose numbers fit the receiving window as it stands at the start,
  -- `Process_rel_udp_data_packet` never exits, whatever order they come in, and however often. Each
  -- number that is received in the end and was not received before is delivered just once, and no
  -- other is delivered.
  pub process_all-Once :
      (gs : List (ℕ × Datagram)) (s : RelData Float)
      → IsSound s
      → Near s.recv.recv_tail gs
      → Returns (process_all gs s) (λ (ns, s'). Once s ns s')
  unfolding process_all
  process_all-Once [] s h near = record { sound = h; kept = λ i e. e; once = λ i. ground arith }
  process_all-Once ((now, g) ∷ gs) s h (near, small, later) =
      Returns-bind (Handled g s) _ (process_rel_udp_data_packet fl cfg header_size now g s) _
        (process-Handled now g s h near small)
        λ o handled.
          Returns-bind (λ (ns, s'). Once o.state ns s') _ (process_all gs o.state) _
            (process_all-Once gs o.state handled.sound
              (Near-le s.recv.recv_tail o.state.recv.recv_tail gs handled.recv_tail later))
            λ (ns, s') r. step-Once g s o ns s' handled r
