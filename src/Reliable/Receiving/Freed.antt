-- ===== src/Reliable/Receiving/Freed.antt =====
-- What `Process_Ack` (daemon/reliable_datagram.c) takes out of the sending window.
use spines.Prelude.{
  inr, inl, Bool-cases, ℕ, zero, suc, ◌+◌, ◌-◌, ◌%◌, ◌^◌, ◌≤◌, ◌<◌, ◌≡◌, refl, ap, sym, ◌∙◌, true,
  false, List, [], ◌∷◌, ◌==◌, drop, arith,
}
use spines.Prelude.Options.{Returns, Returns-bind, Returns-map}
use spines.Realtime.{store}
use spines.Reliable.{max_window}
use spines.Reliable.Window.{
  Floats, Config, BufferCell, RelData, sent_cell_at, is_udp, stream_window,
}
use spines.Reliable.Window.Outstanding.{items, in_window, Numbered-le, Waits, IsInOrder, items-same}
use spines.Reliable.Receiving.{is_some, grow, clear_cell, release, release_from}

-- The window without its first message, whose cell is written.
items-next :
    (n m i : ℕ) (w : ℕ → BufferCell) (c : BufferCell)
    → m ≡ suc n
    → m ≤ max_window
    → items n (suc i) (store w (i % max_window) c) ≡ drop 1 (items m i w)
items-next n m i w c e le = rw e (
    items-same n (suc i) w (store w (i % max_window) c) λ j lo hi.
      let apart : (i % max_window == j % max_window) ≡ false = ground arith in rw apart refl)

drop-drop : {A : Type 0} (n : ℕ) (l : List A) → drop n (drop 1 l) ≡ drop (suc n) l
drop-drop n (x ∷ l) = refl
drop-drop zero [] = refl
drop-drop (suc n) [] = refl

module _ (fl : Floats) (cfg : Config) where
  open fl use {Float, float, lt}

  -- The window does not grow beyond its largest size.
  grow-within :
      (s : RelData Float) (stream : Float)
      → lt (float s.max_size) s.window_size ≡ false
      → lt (float s.max_size) (grow fl cfg s stream) ≡ false
  unfolding grow
  grow-within s stream h = ground (arith, fl.order s.max_size s.max_size)

  -- What stays as it is.
  pub record Frame (s s' : RelData Float) : Type 0 where
    pub head : s'.head ≡ s.head
    pub seq_no : s'.seq_no ≡ s.seq_no
    pub msg_buff : s'.msg_buff ≡ s.msg_buff
    pub connected : s'.connected ≡ s.connected
    pub recv_tail : s'.recv.recv_tail ≡ s.recv.recv_tail

  -- What an acknowledgement does: the first messages of the window are dropped.
  pub record Freed (rounds : ℕ) (s s' : RelData Float) : Type 0 where
    pub waits : Waits fl s' s.seq_no s.msg_buff
    pub dropped : in_window s' ≡ drop rounds (in_window s)
    pub tail : s'.tail ≡ s.tail + rounds
    pub frame : Frame s s'
    pub recv : s'.recv ≡ s.recv
    pub nacks : s'.nacks ≡ s.nacks

  release-Freed :
      (s : RelData Float)
      → IsInOrder fl s
      → s.tail < s.head
      → Returns (release fl cfg s.tail s) (λ s'. Freed 1 s s')
  unfolding release
  release-Freed s w lt' =
      let here = (w.held s.tail (omega arith) lt').1 in
      let next : (s.tail + 1) % 2 ^ 32 ≡ suc s.tail =
        omega (arith, w.below, Numbered-le s.head s.msg_buff s.seq_no w.numbered) in
      rw here (record {
        waits = record {
          ordered = rw next lt';
          fits = rw next (omega (arith, w.fits));
          numbered = w.numbered;
          below = w.below;
          size = w.size;
          within = grow-within (clear_cell fl cfg s.tail s) _ w.within;
          stored = λ j h. elim (Bool-cases (s.tail % max_window == j)) [
            | inl t ↦ absurd (ground arith)
            | inr f ↦
                let old : is_some (s.window j).buff ≡ true = ground arith in rw f (w.stored j old)
          ];
          held = λ i lo hi.
              let apart : (s.tail % max_window == i % max_window) ≡ false =
                ground (arith, w.fits) in
              rw apart (w.held i (ground arith) hi);
        };
        dropped = rw next (
            items-next (s.head - suc s.tail) (s.head - s.tail) s.tail s.window _ (omega arith)
              (omega (arith, w.fits)));
        tail = omega arith;
        frame = record {
          head = refl;
          seq_no = refl;
          msg_buff = refl;
          connected = refl;
          recv_tail = refl;
        };
        recv = refl;
        nacks = refl;
      })

  -- The fairness between streams does not show in `Process_Ack`: the cell that it looks at has just
  -- been cleared.
  pub stream_window-cleared :
      (s : RelData Float) (i : ℕ)
      → let s' = clear_cell fl cfg i s in
        stream_window fl cfg s' (sent_cell_at s' i) ≡ s.window_size
  unfolding stream_window is_udp
  stream_window-cleared s i =
      let here : (i % max_window == i % max_window) ≡ true = ground arith in rw here (ground arith)

  pub in_order-Freed : (n : ℕ) (s s' : RelData Float) → Freed n s s' → IsInOrder fl s'
  in_order-Freed n s s' f = rw (f.frame.seq_no, f.frame.msg_buff) f.waits

  Freed-next : (n : ℕ) (s s1 s2 : RelData Float) → Freed 1 s s1 → Freed n s1 s2 → Freed (suc n) s s2
  Freed-next n s s1 s2 f1 f2 = record {
    waits = rw (sym f1.frame.seq_no, sym f1.frame.msg_buff) f2.waits;
    dropped = f2.dropped ∙ ap (drop n) f1.dropped ∙ drop-drop n (in_window s);
    tail = omega (arith, f1.tail, f2.tail);
    frame = record {
      head = f2.frame.head ∙ f1.frame.head;
      seq_no = f2.frame.seq_no ∙ f1.frame.seq_no;
      msg_buff = f2.frame.msg_buff ∙ f1.frame.msg_buff;
      connected = f2.frame.connected ∙ f1.frame.connected;
      recv_tail = f2.frame.recv_tail ∙ f1.frame.recv_tail;
    };
    recv = f2.recv ∙ f1.recv;
    nacks = f2.nacks ∙ f1.nacks;
  }

  pub release_from-Freed :
      (rounds i : ℕ) (s : RelData Float)
      → IsInOrder fl s
      → i ≡ s.tail
      → s.tail + rounds ≤ s.head
      → Returns (release_from fl cfg rounds i s) (λ s'. Freed rounds s s')
  unfolding release_from
  release_from-Freed zero i s w e le = record {
    waits = w;
    dropped = refl;
    tail = omega arith;
    frame = record {
      head = refl;
      seq_no = refl;
      msg_buff = refl;
      connected = refl;
      recv_tail = refl;
    };
    recv = refl;
    nacks = refl;
  }
  release_from-Freed (suc n) i s w e le = rw e (
      Returns-bind (λ s1. Freed 1 s s1) _ (release fl cfg s.tail s) _
        (release-Freed s w (omega arith))
        λ s1 f1.
          Returns-map (Freed n s1) (Freed (suc n) s) (release_from fl cfg n (suc s.tail) s1)
            (release_from-Freed n (suc s.tail) s1 (in_order-Freed 1 s s1 f1)
              (omega (arith, f1.tail)) (omega (arith, f1.tail, f1.frame.head)))
            λ s2 f2. Freed-next n s s1 s2 f1 f2)
