-- ===== src/Reliable/Sending/Kept.antt =====
-- `Send_Much` and `Reliable_Send_Msg` (daemon/reliable_datagram.c): nothing is lost or reordered.
use spines.Prelude.{
  ℕ, suc, ◌+◌, ◌%◌, ◌^◌, ◌<◌, ◌≡◌, refl, ap, sym, ◌∙◌, ◌⊎◌, inl, inr, Bool, true, false, ◌||◌, not,
  some, List, [], ◌∷◌, ◌++◌, map, ltb, if◌then◌else◌, length, arith, Bool-cases,
}
use spines.Prelude.Options.{Returns, Returns-bind, Returns-if, ◌>>=◌}
use spines.Reliable.Window.{
  Floats, Config, BufferCell, RelData, Packet, Action, link_send, dequeue_timeout, dequeue_ack,
  block_all_sessions, resume_all_sessions, is_nil, has_room, add_nacks,
}
use spines.Reliable.Window.Outstanding.{
  Item, item, in_window, outstanding, is_some, Numbered, Numbered-snoc, Waits, IsInOrder,
  has_room-lt,
}
use spines.Reliable.Sending.{
  place, packet_of, cancel_ack, ack_actions, timeout_actions, send_while_room, may_resume, resume,
  send_much, must_block, buffer, send_now, new_cell, send_or_buffer, reliable_send_msg,
}
use spines.Reliable.Sending.Rounds.{
  sent_items, sent_items-append, place-Waits, Drained, send_while_room-Drained,
}
use mathlib.Core.List.{append-nil, append_assoc, map-append}

is_nil-eq : (cs : List BufferCell) → is_nil cs ≡ true → cs ≡ []
is_nil-eq [] h = refl
is_nil-eq (c ∷ cs) h = cc

Numbered-none :
    (first : ℕ) (cs : List BufferCell) (last : ℕ)
    → is_nil cs ≡ true
    → Numbered first cs last
    → first ≡ last
Numbered-none first [] last e h = h
Numbered-none first (c ∷ cs) last e h = cc

none-Numbered :
    (first : ℕ) (cs : List BufferCell) (last : ℕ)
    → is_nil cs ≡ true
    → first ≡ last
    → Numbered first cs last
none-Numbered first [] last e h = h
none-Numbered first (c ∷ cs) last e h = cc

-- Nothing waits behind.
append-none :
    (l all : List Item) (cs : List BufferCell) → is_nil cs ≡ true → l ++ map item cs ≡ all → l ≡ all
append-none l all [] e h = sym (append-nil l) ∙ h
append-none l all (c ∷ cs) e h = cc

none-append : (l : List Item) (cs : List BufferCell) → is_nil cs ≡ true → l ++ map item cs ≡ l
none-append l [] e = append-nil l
none-append l (c ∷ cs) e = cc

module _ (fl : Floats) (cfg : Config) (now : ℕ) where
  open fl use {Float}

  ack_actions-sent : (s : RelData Float) → sent_items (ack_actions s) ≡ []
  ack_actions-sent s = ground arith

  if-sent :
      (b : Bool) (a : Action)
      → sent_items (a ∷ []) ≡ []
      → sent_items (if b then a ∷ [] else []) ≡ []
  if-sent b a e = ground arith

  -- What stands round the messages of a call sends none.
  around-sent :
      (s s' : RelData Float) (out : List Action) (b : Bool) (a : Action)
      → sent_items (a ∷ []) ≡ []
      → sent_items
          (ack_actions s ++ (out ++ ((if b then a ∷ [] else []) ++ timeout_actions fl cfg now s')))
        ≡ sent_items out
  around-sent s s' out b a e = simp (
    sent_items-append,
    ack_actions-sent s,
    if-sent b a e,
    if-sent s'.scheduled_timeout dequeue_timeout refl,
    append-nil,
  )

  linked-sent :
      (b : Bool) (s s' : RelData Float) (p : Packet)
      → b ≡ true
      → sent_items
          (ack_actions s ++ ((if b then link_send p ∷ [] else []) ++ timeout_actions fl cfg now s'))
        ≡ (p.buff, p.data_len) ∷ []
  linked-sent true s s' p e = around-sent s s' (link_send p ∷ []) false dequeue_ack refl
  linked-sent false s s' p e = cc

module _ (fl : Floats) (cfg : Config) (now last : ℕ) where
  open fl use {Float}

  -- Everything that `Send_Much` does, but for what it sends, is about other things.
  pub record Flushed (waiting : List BufferCell) (s s' : RelData Float) (out : List Action)
      : Type 0 where
    pub waits : Waits fl s' last s'.msg_buff
    pub kept : outstanding s' ≡ in_window s ++ map item waiting
    pub sends : sent_items out ++ map item s'.msg_buff ≡ map item waiting
    pub stops : s.connected ≡ true → (has_room fl s' ≡ false) ⊎ (s'.msg_buff ≡ [])
    pub tail : s'.tail ≡ s.tail
    pub seq_no : s'.seq_no ≡ s.seq_no
    pub connected : s'.connected ≡ s.connected

  resume-Flushed :
      (s s' : RelData Float) (out : List Action)
      → Drained fl last s.msg_buff (cancel_ack s) s' out
      → let (s'', resumed) = resume fl cfg now s' in
        Flushed s.msg_buff s
          (record s'' { scheduled_timeout = true })
          (ack_actions s ++ (out ++ (resumed ++ timeout_actions fl cfg now s'')))
  unfolding has_room
  resume-Flushed s s' out d =
      let s'' = (resume fl cfg now s').0 in
      let quiet =
        around-sent fl cfg now s s'' out (may_resume fl cfg now s') resume_all_sessions refl in
      record {
        waits = d.waits;
        kept = d.kept;
        sends = rw quiet d.sends;
        stops = λ up. d.stops;
        tail = d.tail;
        seq_no = d.seq_no;
        connected = d.connected;
      }

  stopped :
      (s : RelData Float)
      → (not s.connected || not (has_room fl s) || is_nil s.msg_buff) ≡ true
      → s.connected ≡ true
      → (has_room fl s ≡ false) ⊎ (s.msg_buff ≡ [])
  stopped s t up = elim (Bool-cases (has_room fl s)) [
    | inl room ↦ inr (is_nil-eq s.msg_buff (ground (arith, t, up, room)))
    | inr full ↦ inl full
  ]

  -- From a link in order `Send_Much` never exits.
  pub send_much-Flushed :
      (s : RelData Float)
      → Waits fl s last s.msg_buff
      → Returns (send_much fl cfg now s) (λ (s', out). Flushed s.msg_buff s s' out)
  unfolding send_much
  send_much-Flushed s w =
      elim (Bool-cases (not s.connected || not (has_room fl s) || is_nil s.msg_buff)) [
        | inl t ↦ rw t (record {
          waits = w;
          kept = refl;
          sends = refl;
          stops = λ up. stopped s t up;
          tail = refl;
          seq_no = refl;
          connected = refl;
        })
        | inr f ↦ rw f (
            Returns-bind (λ (s', out). Drained fl last s.msg_buff (cancel_ack s) s' out) _
              (send_while_room fl cfg now (length s.msg_buff) s.msg_buff (cancel_ack s)) _
              (send_while_room-Drained fl last cfg now (length s.msg_buff) s.msg_buff (cancel_ack s)
                w)
              λ (s', out) d. resume-Flushed s s' out d)
      ]

module _ (fl : Floats) (cfg : Config) (now : ℕ) where
  open fl use {Float}

  -- What a call of `Reliable_Send_Msg` does with a message: it is the last of those that are
  -- outstanding.
  pub record Sent (s : RelData Float) (new : Item) (s' : RelData Float) (out : List Action)
      : Type 0 where
    pub in_order : IsInOrder fl s'
    pub kept : outstanding s' ≡ outstanding s ++ (new ∷ [])
    pub sends :
        cfg.network_flag ≡ true
        → sent_items out ++ map item s'.msg_buff ≡ map item s.msg_buff ++ (new ∷ [])
    pub stops : s.connected ≡ true → (has_room fl s' ≡ false) ⊎ (s'.msg_buff ≡ [])
    pub seq_no : s'.seq_no ≡ suc s.seq_no

  abbrev numbered_next : RelData Float → RelData Float
  numbered_next s = record s { seq_no = (s.seq_no + 1) % 2 ^ 32 }

  must_buffer : RelData Float → Bool
  must_buffer s = not (has_room fl s) || not (is_nil s.msg_buff) || not s.connected

  buffer-Sent :
      (c : BufferCell) (s s2 : RelData Float) (out : List Action)
      → Flushed fl cfg now s.seq_no s.msg_buff (numbered_next s) s2 out
      → c.seq_no ≡ s.seq_no
      → is_some c.buff ≡ true
      → suc s.seq_no < 2 ^ 32
      → must_buffer s2 ≡ true
      → let (s3, out') = buffer fl cfg now c s2 in Sent s (item c) s3 (out ++ out')
  unfolding buffer has_room must_buffer
  buffer-Sent c s s2 out f e b small must =
      let next : s2.seq_no ≡ suc s.seq_no = omega (arith, f.seq_no) in
      let moved = map-append item s2.msg_buff (c ∷ []) in
      record {
        in_order = record {
          ordered = f.waits.ordered;
          fits = f.waits.fits;
          numbered = rw next (Numbered-snoc s2.head s2.msg_buff s.seq_no c f.waits.numbered e b);
          below = rw next small;
          size = f.waits.size;
          within = f.waits.within;
          held = f.waits.held;
          stored = f.waits.stored;
        };
        kept =
            rw moved (sym (append_assoc (in_window s2) (map item s2.msg_buff) (item c ∷ [])))
            ∙ ap (λ l. l ++ (item c ∷ [])) f.kept;
        sends = λ up.
            let quiet =
              sent_items-append out (buffer fl cfg now c s2).1
              ∙ ap (λ l. sent_items out ++ l)
                  (if-sent fl cfg now
                    (must_block fl cfg now (record s2 { msg_buff = s2.msg_buff ++ (c ∷ []) }))
                    block_all_sessions refl)
              ∙ append-nil (sent_items out) in
            rw (quiet, moved)
              (sym (append_assoc (sent_items out) (map item s2.msg_buff) (item c ∷ [])))
            ∙ ap (λ l. l ++ (item c ∷ [])) f.sends;
        stops = λ up. inl (elim (f.stops up) [
          | inl full ↦ full
          | inr none_waits ↦
              let nil : is_nil s2.msg_buff ≡ true = ap is_nil none_waits in
              let on : s2.connected ≡ true = f.connected ∙ up in ground arith
        ]);
        seq_no = next;
      }

  send_now-Sent :
      (c : BufferCell) (s s2 : RelData Float) (out : List Action)
      → Flushed fl cfg now s.seq_no s.msg_buff (numbered_next s) s2 out
      → c.seq_no ≡ s.seq_no
      → is_some c.buff ≡ true
      → suc s.seq_no < 2 ^ 32
      → must_buffer s2 ≡ false
      → (ltb c.seq_no s2.head ≡ false)
        × (let (s3, out') = send_now fl cfg now c s2 in Sent s (item c) s3 (out ++ out'))
  unfolding send_now has_room must_buffer
  send_now-Sent c s s2 out f e b small may =
      let next : s2.seq_no ≡ suc s.seq_no = omega (arith, f.seq_no) in
      let room : has_room fl s2 ≡ true = ground arith in
      let nil : is_nil s2.msg_buff ≡ true = ground arith in
      let at_head = Numbered-none s2.head s2.msg_buff s.seq_no nil f.waits.numbered in
      let waits : Waits fl s2 (suc s.seq_no) (c ∷ []) = record {
        ordered = f.waits.ordered;
        fits = f.waits.fits;
        numbered = (e ∙ sym at_head, b, ap suc at_head);
        below = small;
        size = f.waits.size;
        within = f.waits.within;
        held = f.waits.held;
        stored = f.waits.stored;
      } in
      let (nacks, d) = add_nacks cfg now c.data_len (cancel_ack (place c s2)).recv in
      let (placed, grown, head) =
        place-Waits fl (suc s.seq_no) s2 c c [] d waits (has_room-lt fl s2 f.waits room) refl
          refl in
      let s3 = (send_now fl cfg now c s2).0 in
      (
        ground arith,
        record {
          in_order = record {
            ordered = placed.ordered;
            fits = placed.fits;
            numbered =
                none-Numbered ((c.seq_no + 1) % 2 ^ 32) s2.msg_buff s2.seq_no nil
                  (placed.numbered ∙ sym next);
            below = rw next small;
            size = placed.size;
            within = placed.within;
            held = placed.held;
            stored = placed.stored;
          };
          kept =
              none-append (in_window s3) s2.msg_buff nil
              ∙ grown
              ∙ ap (λ l. l ++ (item c ∷ []))
                  (append-none (in_window s2) (outstanding s) s2.msg_buff nil f.kept);
          sends = λ up.
              ap (λ l. l ++ map item s2.msg_buff)
                (sent_items-append out (send_now fl cfg now c s2).1
                  ∙ ap (λ l. sent_items out ++ l)
                      (linked-sent fl cfg now cfg.network_flag s2
                        (record (cancel_ack (place c s2)) { recv = d }) (packet_of c d nacks) up))
              ∙ none-append (sent_items out ++ (item c ∷ [])) s2.msg_buff nil
              ∙ ap (λ l. l ++ (item c ∷ []))
                  (append-none (sent_items out) (map item s.msg_buff) s2.msg_buff nil f.sends);
          stops = λ up. inr (is_nil-eq s2.msg_buff nil);
          seq_no = next;
        },
      )

  start-Flushed :
      (s : RelData Float)
      → IsInOrder fl s
      → Returns
          (if s.connected
            then send_much fl cfg now (numbered_next s)
            else some (numbered_next s, []))
          (λ (s2, out). Flushed fl cfg now s.seq_no s.msg_buff (numbered_next s) s2 out)
  start-Flushed s w =
      Returns-if (λ (s2, out). Flushed fl cfg now s.seq_no s.msg_buff (numbered_next s) s2 out)
        s.connected (send_much fl cfg now (numbered_next s)) (some (numbered_next s, []))
        (λ up. send_much-Flushed fl cfg now s.seq_no (numbered_next s) w)
        (λ down. record {
          waits = w;
          kept = refl;
          sends = refl;
          stops = λ up. absurd (ground arith);
          tail = refl;
          seq_no = refl;
          connected = refl;
        })

  finish-Sent :
      (c : BufferCell) (s s2 : RelData Float) (out : List Action)
      → Flushed fl cfg now s.seq_no s.msg_buff (numbered_next s) s2 out
      → c.seq_no ≡ s.seq_no
      → is_some c.buff ≡ true
      → suc s.seq_no < 2 ^ 32
      → Returns
          (send_or_buffer fl cfg now c s2 >>= λ (s3, out'). some (s3, out ++ out'))
          (λ (s3, all). Sent s (item c) s3 all)
  unfolding send_or_buffer must_buffer
  finish-Sent c s s2 out f e b small = elim (Bool-cases (must_buffer s2)) [
    | inl t ↦ rw t (buffer-Sent c s s2 out f e b small t)
    | inr t ↦ let (at, sent) = send_now-Sent c s s2 out f e b small t in rw (t, at) sent
  ]

  -- From a link in order, and below the last sequence number, `Reliable_Send_Msg` never exits, and
  -- leaves the link in order. Of what is outstanding, in the window or in front of it, nothing is
  -- lost or reordered, and the message comes last. What is sent is the first of what waits in front
  -- with the message behind it; and a connected link keeps nothing waiting while its window has room.
  pub reliable_send_msg-Sent :
      (buff buff_len pack_type : ℕ) (s : RelData Float)
      → IsInOrder fl s
      → suc s.seq_no < 2 ^ 32
      → Returns
          (reliable_send_msg fl cfg now buff buff_len pack_type s)
          (λ (s', out). Sent s (some buff, buff_len) s' out)
  unfolding reliable_send_msg new_cell
  reliable_send_msg-Sent buff buff_len pack_type s w small =
      let c = new_cell fl cfg now s.seq_no buff buff_len pack_type in
      Returns-bind (λ (s2, out). Flushed fl cfg now s.seq_no s.msg_buff (numbered_next s) s2 out) _
        (if s.connected then send_much fl cfg now (numbered_next s) else some (numbered_next s, []))
        _ (start-Flushed s w) λ (s2, out) f. finish-Sent c s s2 out f refl refl small
