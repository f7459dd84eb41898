-- ===== src/Reliable/Resending/Whole.antt =====
-- Calls of `Reliable_timeout` and `Send_Nack_Retransm` (daemon/reliable_datagram.c).
use spines.Prelude.{
  ℕ, ◌-◌, ◌%◌, ◌≤◌, ◌<◌, ◌≡◌, refl, ap, sym, ◌∙◌, ◌⊎◌, inl, inr, Bool, true, false, ◌&&◌, not, none,
  List, [], ◌∷◌, ◌++◌, ◌==◌, if◌then◌else◌, arith, Bool-cases,
}
use spines.Prelude.Options.{Returns, Returns-if}
use spines.Reliable.{max_window}
use spines.Reliable.Window.{
  Floats, Config, BufferCell, RelData, Packet, Action, link_send, sent_cell_at, is_nil,
  count_stream, is_udp, stream_window, add_nacks_twice,
}
use spines.Reliable.Window.Outstanding.{item, in_window, outstanding, is_some, Holds, IsInOrder}
use spines.Reliable.Sending.{cancel_ack, ack_actions}
use spines.Reliable.Sending.Rounds.{sent_items, sent_items-append}
use spines.Reliable.Resending.{
  after_timeout, after_nacks, resend_cell, resend_from, reliable_timeout, answer, first_or_zero,
  send_nack_retransm,
}
use spines.Reliable.Resending.Again.{
  sent_numbers, SameCells, Resent, Resent-refl, Resent-trans, Resent-window, Resent-IsInOrder,
  resend_cell-Resent, resend_from-Resent,
}
use mathlib.Core.List.{map, append-nil}

ack_actions-sent : {F : Type 0} (s : RelData F) → sent_items (ack_actions s) ≡ []
ack_actions-sent s = ground arith

is_nil-eq : (ns : List ℕ) → is_nil ns ≡ true → ns ≡ []
is_nil-eq [] h = refl
is_nil-eq (n ∷ ns) h = cc

-- What is sent besides, where the network is on.
linked-numbers :
    (b : Bool) (p : Packet) (a : List Action)
    → b ≡ true
    → sent_numbers ((if b then link_send p ∷ [] else []) ++ a) ≡ p.seq_no ∷ sent_numbers a
linked-numbers true p a e = refl
linked-numbers false p a e = cc

ack_actions-numbers :
    {F : Type 0} (s : RelData F) (a : List Action)
    → sent_numbers (ack_actions s ++ a) ≡ sent_numbers a
ack_actions-numbers s a = ground arith

-- The window holds the messages of those numbers.
abbrev pub HoldsAll : (ℕ → BufferCell) → List ℕ → Type 0
HoldsAll w [] = Unit
HoldsAll w (n ∷ ns) = Holds w n × HoldsAll w ns

SameCells-HoldsAll :
    (w w' : ℕ → BufferCell) → SameCells w w' → (ns : List ℕ) → HoldsAll w ns → HoldsAll w' ns
SameCells-HoldsAll w w' same [] h = h
SameCells-HoldsAll w w' same (n ∷ ns) ((e, b), h) =
    let (e', b', l') = same (n % max_window) in
    ((e' ∙ e, ap is_some b' ∙ b), SameCells-HoldsAll w w' same ns h)

-- The messages that are there, of those numbers.
abbrev pub found : (ℕ → BufferCell) → List ℕ → List BufferCell
found w [] = []
found w (n ∷ ns) =
    if is_some (w (n % max_window)).buff then w (n % max_window) ∷ found w ns else found w ns

SameCells-found :
    (w w' : ℕ → BufferCell)
    → SameCells w w'
    → (ns : List ℕ)
    → (map item (found w' ns) ≡ map item (found w ns))
      × (map (λ c. c.seq_no) (found w' ns) ≡ map (λ c. c.seq_no) (found w ns))
SameCells-found w w' same [] = (refl, refl)
SameCells-found w w' same (n ∷ ns) =
    let (e, b, l) = same (n % max_window) in
    let (i, s) = SameCells-found w w' same ns in
    elim (Bool-cases (is_some (w (n % max_window)).buff)) [
      | inl here ↦
          let here' : is_some (w' (n % max_window)).buff ≡ true = ap is_some b ∙ here in
          rw (here, here')
            (
              rw (b, l) (ap (λ t. item (w (n % max_window)) ∷ t) i),
              rw e (ap (λ t. (w (n % max_window)).seq_no ∷ t) s),
            )
      | inr gone ↦
          let gone' : is_some (w' (n % max_window)).buff ≡ false = ap is_some b ∙ gone in
          rw (gone, gone') (i, s)
    ]

-- What is sent besides, where the network is on.
linked-items :
    (b : Bool) (p : Packet) (a : List Action)
    → b ≡ true
    → sent_items ((if b then link_send p ∷ [] else []) ++ a) ≡ (p.buff, p.data_len) ∷ sent_items a
linked-items true p a e = refl
linked-items false p a e = cc

ack_actions-items :
    {F : Type 0} (s : RelData F) (a : List Action) → sent_items (ack_actions s ++ a) ≡ sent_items a
ack_actions-items s a = ground arith

module _ (fl : Floats) (cfg : Config) where
  open fl use {Float, float, lt}

  stream_window-large :
      (s : RelData Float) (c : BufferCell)
      → (lt (stream_window fl cfg s c) (float 1) ≡ false)
        ⊎ (stream_window fl cfg s c ≡ s.window_size)
  unfolding stream_window
  stream_window-large s c =
      let n = count_stream fl cfg s c.buff in
      elim (Bool-cases (cfg.stream_fairness && is_udp c.pack_type)) [
        | inl t ↦ inl (
            rw t (elim (Bool-cases (n == 0)) [
              | inl none_there ↦ rw none_there (fl.order 1 1 (omega arith))
              | inr there ↦ rw there (fl.order 1 n (ground arith))
            ]))
        | inr t ↦ inr (rw t refl)
      ]

  -- The congestion window can shrink to its minimum.
  pub record HasMinimum (s : RelData Float) : Type 0 where
    pub positive : 0 < s.max_size
    pub minimum : cfg.minimum_window ≤ s.max_size

  pub after_timeout-IsInOrder :
      (s : RelData Float) (c : BufferCell)
      → IsInOrder fl s
      → HasMinimum s
      → IsInOrder fl (after_timeout fl cfg s (stream_window fl cfg s c))
  unfolding after_timeout
  after_timeout-IsInOrder s c w m = record {
    ordered = w.ordered;
    fits = w.fits;
    numbered = w.numbered;
    below = w.below;
    size = w.size;
    within = ground (
      arith,
      w.within,
      fl.order cfg.minimum_window s.max_size m.minimum,
      fl.less_one s.max_size s.window_size (stream_window fl cfg s c) (omega (arith, w.size))
          m.positive w.within (stream_window-large s c),
    );
    held = w.held;
    stored = w.stored;
  }

  pub after_nacks-IsInOrder :
      (s : RelData Float) (c : BufferCell)
      → IsInOrder fl s
      → HasMinimum s
      → IsInOrder fl (after_nacks fl cfg s (stream_window fl cfg s c))
  unfolding after_nacks
  after_nacks-IsInOrder s c w m = record {
    ordered = w.ordered;
    fits = w.fits;
    numbered = w.numbered;
    below = w.below;
    size = w.size;
    within = ground (
      arith,
      w.within,
      fl.order cfg.minimum_window s.max_size m.minimum,
      fl.less_half s.max_size s.window_size (stream_window fl cfg s c) (omega (arith, w.size))
          w.within (stream_window-large s c),
    );
    held = w.held;
    stored = w.stored;
  }

  pub record TimedOut (s s' : RelData Float) (out : List Action) : Type 0 where
    pub in_order : IsInOrder fl s'
    pub kept : outstanding s' ≡ outstanding s
    pub sends : cfg.network_flag ≡ true → sent_items out ≡ in_window s
    pub backoff : s.timeout_multiply ≤ 100 → s'.timeout_multiply ≤ 100

  -- On a connected link in order, a timeout sends every message of the window again, each once and in
  -- their order, and loses none; the multiplier of the backoff stays at 100 or below. On any other
  -- link the daemon exits.
  pub reliable_timeout-TimedOut :
      (now : ℕ) (s : RelData Float)
      → IsInOrder fl s
      → HasMinimum s
      → (s.connected ≡ true
          → Returns (reliable_timeout fl cfg now s) (λ (s', out). TimedOut s s' out))
        × (s.connected ≡ false → reliable_timeout fl cfg now s ≡ none)
  unfolding reliable_timeout after_timeout
  reliable_timeout-TimedOut now s w m =
      let s1 =
        cancel_ack (after_timeout fl cfg s (stream_window fl cfg s (sent_cell_at s s.tail))) in
      let w1 = after_timeout-IsInOrder s (sent_cell_at s s.tail) w m in
      let (s2, out) = resend_from fl cfg now (s.head - s.tail) s.tail s1 in
      let (r, sends) = resend_from-Resent fl cfg now (s.head - s.tail) s.tail s1 in
      let (w2, kept) = Resent-IsInOrder fl cfg s1 s2 r w1 in
      (
        λ up.
            Returns-if (λ (s', out). TimedOut s s' out) (not s.connected) _ _
              (λ down. absurd (ground arith))
              λ _.
                Returns-if (λ (s', out). TimedOut s s' out) (s.head == s.tail) _ _
                  (λ empty.
                    let none_there : s.head - s.tail ≡ 0 = ground arith in
                    record {
                      in_order = w;
                      kept = refl;
                      sends = λ on. rw none_there refl;
                      backoff = λ le. le;
                    })
                  λ there. record {
                    in_order = w2;
                    kept = kept;
                    sends =
                        λ on. simp (sent_items-append, ack_actions-sent s, append-nil, sends on);
                    backoff = λ le. ground arith;
                  },
        λ down. rw down refl,
      )

  answer-Resent :
      (now : ℕ) (ns : List ℕ) (s : RelData Float)
      → let (s', out) = answer fl cfg now ns s in
        Resent s s' × (cfg.network_flag ≡ true → HoldsAll s.window ns → sent_numbers out ≡ ns)
  unfolding answer
  answer-Resent now [] s = (Resent-refl s, λ on h. refl)
  answer-Resent now (n ∷ ns) s =
      let (s1, out) = resend_cell fl cfg (add_nacks_twice cfg now) n s in
      let one = resend_cell-Resent fl cfg (add_nacks_twice cfg now) n s in
      elim (Bool-cases (is_some (sent_cell_at s n).buff)) [
        | inl here ↦
            let (more, sends) = answer-Resent now ns s1 in
            rw here (
              Resent-trans fl cfg s s1 (answer fl cfg now ns s1).0 one more,
              λ on ((e, b), h).
                  linked-numbers cfg.network_flag _ (answer fl cfg now ns s1).1 on
                  ∙ ap (λ k. k ∷ sent_numbers (answer fl cfg now ns s1).1) e
                  ∙ ap (λ l. n ∷ l)
                      (sends on (
                        SameCells-HoldsAll s.window s1.window (Resent-window fl cfg s s1 one) ns
                          h)),
            )
        | inr gone ↦
            let (more, sends) = answer-Resent now ns s in
            rw gone (more, λ on ((e, b), h). absurd (ground arith))
      ]

  -- The requests are answered with the messages that are there, in the order of the requests.
  answer-found :
      (now : ℕ) (ns : List ℕ) (s : RelData Float)
      → cfg.network_flag ≡ true
      → let (s', out) = answer fl cfg now ns s in
        (sent_items out ≡ map item (found s.window ns))
        × (sent_numbers out ≡ map (λ c. c.seq_no) (found s.window ns))
  unfolding answer
  answer-found now [] s on = (refl, refl)
  answer-found now (n ∷ ns) s on =
      let (s1, out) = resend_cell fl cfg (add_nacks_twice cfg now) n s in
      let one = resend_cell-Resent fl cfg (add_nacks_twice cfg now) n s in
      elim (Bool-cases (is_some (sent_cell_at s n).buff)) [
        | inr gone ↦ rw gone (answer-found now ns s on)
        | inl here ↦
            let (i, q) = answer-found now ns s1 on in
            let (i', q') = SameCells-found s.window s1.window (Resent-window fl cfg s s1 one) ns in
            rw here (
              linked-items cfg.network_flag _ (answer fl cfg now ns s1).1 on
                  ∙ ap (λ l. item (sent_cell_at s n) ∷ l) (i ∙ i'),
              linked-numbers cfg.network_flag _ (answer fl cfg now ns s1).1 on
                  ∙ ap (λ l. (sent_cell_at s n).seq_no ∷ l) (q ∙ q'),
            )
      ]

  pub record Answered (s s' : RelData Float) (out : List Action) : Type 0 where
    pub in_order : IsInOrder fl s'
    pub kept : outstanding s' ≡ outstanding s
    pub sends :
        cfg.network_flag ≡ true
        → s.tail < s.head
        → (sent_items out ≡ map item (found s.window s.nacks))
          × (sent_numbers out ≡ map (λ c. c.seq_no) (found s.window s.nacks))
          × (s'.nacks ≡ [])
    pub all :
        cfg.network_flag ≡ true
        → HoldsAll s.window s.nacks
        → s.tail < s.head
        → sent_numbers out ≡ s.nacks

  -- On a connected link in order, an answer to the requests leaves what is outstanding as it is. Where
  -- the network is on and something is outstanding, it sends just those of the requested messages that
  -- are there, with their numbers and contents and in the order of the requests, passing over the
  -- others, and no request is left; where all are outstanding, the numbers sent are just those
  -- requested. On any other link the daemon exits.
  pub send_nack_retransm-Answered :
      (now : ℕ) (s : RelData Float)
      → IsInOrder fl s
      → HasMinimum s
      → (s.connected ≡ true
          → Returns (send_nack_retransm fl cfg now s) (λ (s', out). Answered s s' out))
        × (s.connected ≡ false → send_nack_retransm fl cfg now s ≡ none)
  unfolding send_nack_retransm after_nacks
  send_nack_retransm-Answered now s w m =
      let c = sent_cell_at s (first_or_zero fl cfg s.nacks) in
      let s1 = cancel_ack (after_nacks fl cfg s (stream_window fl cfg s c)) in
      let w1 = after_nacks-IsInOrder s c w m in
      let (s2, out) = answer fl cfg now s.nacks s1 in
      let (r, sends) = answer-Resent now s.nacks s1 in
      let (w2, kept) = Resent-IsInOrder fl cfg s1 s2 r w1 in
      (
        λ up.
            Returns-if (λ (s', out). Answered s s' out) (not s.connected) _ _
              (λ down. absurd (ground arith))
              λ _.
                Returns-if (λ (s', out). Answered s s' out) (is_nil s.nacks) _ _
                  (λ asked_none. record {
                    in_order = w;
                    kept = refl;
                    sends = λ on some_there.
                        let e = is_nil-eq s.nacks asked_none in rw e (refl, refl, refl);
                    all = λ on h some_there. sym (is_nil-eq s.nacks asked_none);
                  })
                  λ asked.
                    Returns-if (λ (s', out). Answered s s' out) (s.head == s.tail) _ _
                      (λ empty. record {
                        in_order = w;
                        kept = refl;
                        sends = λ on some_there. absurd (ground arith);
                        all = λ on h some_there. absurd (ground arith);
                      })
                      λ there. record {
                        in_order = w2;
                        kept = kept;
                        sends = λ on some_there.
                            let (i, q) = answer-found now s.nacks s1 on in
                            (ack_actions-items s out ∙ i, ack_actions-numbers s out ∙ q, refl);
                        all = λ on h some_there. ack_actions-numbers s out ∙ sends on h;
                      },
        λ down. rw down refl,
      )
