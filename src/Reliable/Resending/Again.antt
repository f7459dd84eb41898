-- ===== src/Reliable/Resending/Again.antt =====
-- What `Reliable_timeout` and `Send_Nack_Retransm` (daemon/reliable_datagram.c) send again.
use spines.Prelude.{
  sym, arith, ℕ, zero, suc, ◌-◌, ◌%◌, ◌≡◌, refl, ap, ◌∙◌, inl, inr, Bool, true, false, List, [],
  ◌∷◌, ◌++◌, map, ◌==◌, if◌then◌else◌, Bool-cases, ==_iff,
}
use spines.Realtime.{store}
use spines.Reliable.{max_window, ReliableData}
use spines.Reliable.Window.{
  Floats, Config, BufferCell, RelData, Packet, Action, link_send, queue_timeout, dequeue_timeout,
  dequeue_ack, queue_retransm, queue_try_to_send, block_all_sessions, resume_all_sessions,
  sent_cell_at, add_nacks,
}
use spines.Reliable.Window.Outstanding.{item, items, outstanding, is_some, IsInOrder, items-same}
use spines.Reliable.Sending.Rounds.{sent_items, sent_items-append}
use spines.Reliable.Resending.{resend_cell, resend_from}

-- The numbers of the messages among what is done.
abbrev pub sent_numbers : List Action → List ℕ
sent_numbers [] = []
sent_numbers (link_send p ∷ out) = p.seq_no ∷ sent_numbers out
sent_numbers (queue_timeout t ∷ out) = sent_numbers out
sent_numbers (dequeue_timeout ∷ out) = sent_numbers out
sent_numbers (dequeue_ack ∷ out) = sent_numbers out
sent_numbers (queue_retransm ∷ out) = sent_numbers out
sent_numbers (queue_try_to_send ∷ out) = sent_numbers out
sent_numbers (block_all_sessions ∷ out) = sent_numbers out
sent_numbers (resume_all_sessions ∷ out) = sent_numbers out

-- Cells with the same message under the same number.
abbrev pub SameCells : (ℕ → BufferCell) → (ℕ → BufferCell) → Type 0
SameCells w w' =
    (j : ℕ)
    → ((w' j).seq_no ≡ (w j).seq_no)
      × ((w' j).buff ≡ (w j).buff)
      × ((w' j).data_len ≡ (w j).data_len)

store-SameCells :
    (w : ℕ → BufferCell) (i : ℕ) (c : BufferCell)
    → (c.seq_no ≡ (w i).seq_no) × (c.buff ≡ (w i).buff) × (c.data_len ≡ (w i).data_len)
    → SameCells w (store w i c)
store-SameCells w i c same j = elim (Bool-cases (i == j)) [
  | inl t ↦ let e = (==_iff i j).0 t in rw t (rw (← e) same)
  | inr f ↦ rw f (refl, refl, refl)
]

-- A packet that goes out only if the network is on.
pub link-sent :
    (b : Bool) (p : Packet)
    → b ≡ true
    → (sent_items (if b then link_send p ∷ [] else []) ≡ (p.buff, p.data_len) ∷ [])
      × (sent_numbers (if b then link_send p ∷ [] else []) ≡ p.seq_no ∷ [])
link-sent true p e = (refl, refl)
link-sent false p e = cc

SameCells-items : (w w' : ℕ → BufferCell) → SameCells w w' → (n i : ℕ) → items n i w' ≡ items n i w
SameCells-items w w' same n i =
    items-same n i w w' λ j lo hi. let (a, b, c) = same (j % max_window) in rw (b, c) refl

module _ {F : Type 0} where
  -- Only the cells, the receiving half and `cong_flag` and the like of the window may differ.
  pub record Resent (s s' : RelData F) : Type 0 where
    pub window : ℕ → BufferCell
    pub recv : ReliableData
    pub rest : s' ≡ record s { window = window; recv = recv }
    pub same : SameCells s.window window

  pub Resent-refl : (s : RelData F) → Resent s s
  Resent-refl s = record {
    window = s.window;
    recv = s.recv;
    rest = refl;
    same = λ j. (refl, refl, refl);
  }

module _ (fl : Floats) (cfg : Config) where
  open fl use {Float, float, lt}

  pub Resent-trans : (a b c : RelData Float) → Resent a b → Resent b c → Resent a c
  Resent-trans a b c r r' = record {
    window = r'.window;
    recv = r'.recv;
    rest = r'.rest ∙ rw r.rest refl;
    same = λ j.
        let window : b.window ≡ r.window = ap (λ (t : RelData Float). t.window) r.rest in
        let (n, x, l) = r.same j in
        let (n', x', l') = r'.same j in
        (
          n' ∙ ap (λ (w : ℕ → BufferCell). (w j).seq_no) window ∙ n,
          x' ∙ ap (λ (w : ℕ → BufferCell). (w j).buff) window ∙ x,
          l' ∙ ap (λ (w : ℕ → BufferCell). (w j).data_len) window ∙ l,
        );
  }

  pub resend_cell-Resent :
      (requests : ℕ → ReliableData → List ℕ × ReliableData) (i : ℕ) (s : RelData Float)
      → Resent s (resend_cell fl cfg requests i s).0
  resend_cell-Resent requests i s = record {
    window = (resend_cell fl cfg requests i s).0.window;
    recv = (resend_cell fl cfg requests i s).0.recv;
    rest = refl;
    same =
        store-SameCells s.window (i % max_window) (record (sent_cell_at s i) { resent = true })
          (refl, refl, refl);
  }

  pub Resent-window : (s s' : RelData Float) → Resent s s' → SameCells s.window s'.window
  Resent-window s s' r =
      let window : s'.window ≡ r.window = ap (λ (t : RelData Float). t.window) r.rest in
      rw window r.same

  pub resend_from-Resent :
      (now rounds i : ℕ) (s : RelData Float)
      → let (s', out) = resend_from fl cfg now rounds i s in
        Resent s s' × (cfg.network_flag ≡ true → sent_items out ≡ items rounds i s.window)
  unfolding resend_from
  resend_from-Resent now zero i s = (Resent-refl s, λ up. refl)
  resend_from-Resent now (suc n) i s =
      let (s1, out) = resend_cell fl cfg (add_nacks cfg now) i s in
      let one = resend_cell-Resent (add_nacks cfg now) i s in
      let (more, sends) = resend_from-Resent now n (suc i) s1 in
      (
        Resent-trans s s1 (resend_from fl cfg now n (suc i) s1).0 one more,
        λ up.
            sent_items-append out (resend_from fl cfg now n (suc i) s1).1
            ∙ ap (λ l. l ++ sent_items (resend_from fl cfg now n (suc i) s1).1)
                (link-sent cfg.network_flag _ up).0
            ∙ ap (λ l. item (sent_cell_at s i) ∷ l)
                (sends up ∙ SameCells-items s.window s1.window (Resent-window s s1 one) n (suc i)),
      )

  pub Resent-IsInOrder :
      (s s' : RelData Float)
      → Resent s s'
      → IsInOrder fl s
      → IsInOrder fl s' × (outstanding s' ≡ outstanding s)
  Resent-IsInOrder s s' r w = rw r.rest (
    record {
      ordered = w.ordered;
      fits = w.fits;
      numbered = w.numbered;
      below = w.below;
      size = w.size;
      within = w.within;
      stored =
          λ j h. let (n, b, l) = r.same j in omega (arith, n, w.stored j (sym (ap is_some b) ∙ h));
      held = λ i lo hi.
          let (n, b, l) = r.same (i % max_window) in
          let (n', b') = w.held i lo hi in (n ∙ n', ap is_some b ∙ b');
    },
    ap (λ l. l ++ map item s.msg_buff)
        (SameCells-items s.window r.window r.same (s.head - s.tail) s.tail),
  )
