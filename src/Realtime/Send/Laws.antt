-- ===== src/Realtime/Send/Laws.antt =====
-- What the history of a realtime link (daemon/realtime_udp.c) keeps and retransmits.
use spines.Prelude.{
  ap, sym, false, ℕ, zero, suc, ◌+◌, ◌-◌, ◌*◌, ◌%◌, ◌^◌, ◌≤◌, ◌<◌, ◌≡◌, ◌≢◌, refl, ◌∙◌, inl, inr,
  true, ◌&&◌, none, some, List, [], ◌∷◌, ltb, leb, ◌==◌, if◌then◌else◌, length, arith, Bool-cases,
}
use spines.Realtime.{RtData, HistoryCell, max_history, max_bucket, rt_retransm_tok, is_old}
use spines.Realtime.Send.{
  sent_cell_of, drop_oldest, clean_rounds, clean_rt_history, make_space, save, best_link, Env,
  Message, saved_len, forward_rt_udp_data, resend,
}

-- The numbers from the tail to the head have their packets, no more than there is room for, and
-- the bucket does not overflow.
pub record IsHistory (d : RtData) : Type 0 where
  pub ordered : d.tail ≤ d.head
  pub fits : d.head ≤ d.tail + max_history
  pub held : (s : ℕ) → d.tail ≤ s → s < d.head → (sent_cell_of d s).buff ≢ none
  pub tokens : d.bucket ≤ max_bucket

-- Some of the oldest packets are let go and no other is touched.
pub record Cleaned (d d' : RtData) : Type 0 where
  pub tail : d.tail ≤ d'.tail
  pub head : d'.head ≡ d.head
  pub bucket : d'.bucket ≡ d.bucket
  pub retransm : d'.retransm ≡ d.retransm
  pub history : IsHistory d'
  pub same : (s : ℕ) → d'.tail ≤ s → s < d.head → sent_cell_of d' s ≡ sent_cell_of d s

drop_oldest-Cleaned : (d : RtData) → IsHistory d → d.tail < d.head → Cleaned d (drop_oldest d)
unfolding drop_oldest
drop_oldest-Cleaned d h lt = record {
  tail = omega arith;
  head = refl;
  bucket = refl;
  retransm = refl;
  history = record {
    ordered = omega arith;
    fits = omega (arith, h.fits);
    held = λ s lo hi. ground (arith, h.held s (omega arith) hi, h.fits);
    tokens = h.tokens;
  };
  same = λ s lo hi. ground (arith, h.fits);
}

Cleaned-refl : (d : RtData) → IsHistory d → Cleaned d d
Cleaned-refl d h = record {
  tail = omega arith;
  head = refl;
  bucket = refl;
  retransm = refl;
  history = h;
  same = λ s lo hi. refl;
}

Cleaned-trans : (d e f : RtData) → Cleaned d e → Cleaned e f → Cleaned d f
Cleaned-trans d e f a b = record {
  tail = omega (arith, a.tail, b.tail);
  head = b.head ∙ a.head;
  bucket = b.bucket ∙ a.bucket;
  retransm = b.retransm ∙ a.retransm;
  history = b.history;
  same = λ s lo hi. b.same s lo (omega (arith, a.head)) ∙ a.same s (omega (arith, b.tail)) hi;
}

pub clean_rounds-Cleaned :
    (now rounds : ℕ) (d : RtData) → IsHistory d → Cleaned d (clean_rounds now rounds d)
unfolding clean_rounds
clean_rounds-Cleaned now zero d h = Cleaned-refl d h
clean_rounds-Cleaned now (suc rounds) d h = elim (Bool-cases (ltb d.tail d.head)) [
  | inr t ↦ rw t (Cleaned-refl d h)
  | inl t ↦ elim (Bool-cases (is_old now (sent_cell_of d d.tail).timestamp)) [
    | inr u ↦ rw (t, u) (Cleaned-refl d h)
    | inl u ↦
        let step = drop_oldest-Cleaned d h (ground arith) in
        rw (t, u)
          (Cleaned-trans d _ _ step (clean_rounds-Cleaned now rounds (drop_oldest d) step.history))
  ]
]

-- Before a packet is saved there is room for it.
dropped_enough :
    (rounds : ℕ) (d : RtData)
    → d.head ≤ d.tail + suc rounds
    → (drop_oldest d).head ≤ (drop_oldest d).tail + rounds
unfolding drop_oldest
dropped_enough rounds d h = omega arith

dropped_tail : (d : RtData) (i : ℕ) → d.tail < i → (drop_oldest d).tail ≤ i
unfolding drop_oldest
dropped_tail d i h = omega arith

-- The cleaning drops old packets only, and stops at the first that is not old.
pub record Stops (now : ℕ) (d d' : RtData) : Type 0 where
  pub old : (i : ℕ) → d.tail ≤ i → i < d'.tail → is_old now (sent_cell_of d i).timestamp ≡ true
  pub young : d'.tail < d.head → is_old now (sent_cell_of d d'.tail).timestamp ≡ false

pub clean_rounds-Stops :
    (now rounds : ℕ) (d : RtData)
    → IsHistory d
    → d.head ≤ d.tail + rounds
    → Stops now d (clean_rounds now rounds d)
unfolding clean_rounds
clean_rounds-Stops now zero d h enough = record {
  old = λ i lo hi. absurd (omega arith);
  young = λ lt. absurd (omega arith);
}
clean_rounds-Stops now (suc rounds) d h enough = elim (Bool-cases (ltb d.tail d.head)) [
  | inr t ↦
      rw t (record { old = λ i lo hi. absurd (omega arith); young = λ lt. absurd (ground arith) })
  | inl t ↦ elim (Bool-cases (is_old now (sent_cell_of d d.tail).timestamp)) [
    | inr u ↦ rw (t, u) (record { old = λ i lo hi. absurd (omega arith); young = λ lt. u })
    | inl u ↦
        let step = drop_oldest-Cleaned d h (ground arith) in
        let e = drop_oldest d in
        let c = clean_rounds-Cleaned now rounds e step.history in
        let r = clean_rounds-Stops now rounds e step.history (dropped_enough rounds d enough) in
        rw (t, u)
          (record {
            old = λ i lo hi. elim (Bool-cases (i == d.tail)) [
              | inl v ↦ let at : i ≡ d.tail = ground arith in rw at u
              | inr v ↦
                  let past : e.tail ≤ i = dropped_tail d i (ground arith) in
                  let below : i < d.head = omega (arith, c.history.ordered, c.head, step.head) in
                  ap (λ (x : HistoryCell). is_old now x.timestamp) (sym (step.same i past below))
                  ∙ r.old i past hi
            ];
            young = λ lt.
                ap (λ (x : HistoryCell). is_old now x.timestamp)
                  (sym (step.same (clean_rounds now rounds e).tail c.tail lt))
                ∙ r.young (omega (arith, step.head));
          })
  ]
]

make_space-Cleaned :
    (d : RtData)
    → IsHistory d
    → Cleaned d (make_space d) × ((make_space d).head < (make_space d).tail + max_history)
unfolding make_space
make_space-Cleaned d h = elim (Bool-cases (leb max_history (d.head - d.tail))) [
  | inl t ↦
      let c = drop_oldest-Cleaned d h (ground arith) in
      rw t (c, unfold drop_oldest in omega (arith, h.fits))
  | inr t ↦ rw t (Cleaned-refl d h, ground arith)
]

-- What a packet that goes to a link leaves: it is in the history under the number of the head, and
-- every packet that is still in the history is as it was.
pub record Forwarded (m : Message) (now : ℕ) (d d' : RtData) : Type 0 where
  pub head : d'.head ≡ d.head + 1
  pub tail : d.tail ≤ d'.tail
  pub history : IsHistory d'
  pub saved :
      sent_cell_of d' d.head ≡ record { buff = some m.buff; len = saved_len m; timestamp = now }
  pub same : (s : ℕ) → d'.tail ≤ s → s < d.head → sent_cell_of d' s ≡ sent_cell_of d s

save-Forwarded :
    (m : Message) (now : ℕ) (d e : RtData)
    → d.head + 1 < 2 ^ 64
    → Cleaned d e
    → e.head < e.tail + max_history
    → Forwarded m now d (save now m.buff (saved_len m) e)
unfolding save
save-Forwarded m now d e small c room = record {
  head = omega (arith, c.head);
  tail = c.tail;
  history = record {
    ordered = omega (arith, c.head, c.history.ordered);
    fits = omega (arith, c.head, room);
    held = λ s lo hi. ground (arith, c.history.held s lo, room, c.head);
    tokens = ground (arith, c.history.tokens);
  };
  saved = ground (arith, c.head);
  same = λ s lo hi. ground (arith, c.same s lo hi, c.head, room);
}

-- From a history, and for a number below the last of 64 bits, a packet that is forwarded over a
-- realtime link is saved in its history with the length that
-- retransmission needs, under the number of the head, whether it can be sent or not; there is
-- always room for it, and the packets that stay in the history are unchanged.
pub forward-Forwarded :
    (env : Env) (now : ℕ) (m : Message) (d : RtData)
    → IsHistory d
    → d.head + 1 < 2 ^ 64
    → Forwarded m now d (forward_rt_udp_data env best_link now m d).1
unfolding forward_rt_udp_data clean_rt_history
forward-Forwarded env now m d h small =
    let cleaned = clean_rounds-Cleaned now (d.head - d.tail) d h in
    let (room, fits) = make_space-Cleaned _ cleaned.history in
    save-Forwarded m now d _ small (Cleaned-trans d _ _ cleaned room) fits

-- The packets of a history, by the fields that hold it.
module _ (tail head : ℕ) (window : ℕ → HistoryCell) where
  -- Some of the requested packets, in the order of the requests, each one in the history.
  pub data Resent : List ℕ → List (ℕ × HistoryCell) → Type 0 where
    stopped : {rest : List ℕ} → Resent rest []
    skipped :
        {s : ℕ} {rest : List ℕ} {sent : List (ℕ × HistoryCell)}
        → Resent rest sent
        → Resent (s ∷ rest) sent
    resent :
        {s : ℕ} {rest : List ℕ} {sent : List (ℕ × HistoryCell)}
        → tail ≤ s
        → s < head
        → Resent rest sent
        → Resent (s ∷ rest) ((s, window (s % max_history)) ∷ sent)

  -- All of them.
  unfoldable pub in_history : List ℕ → List (ℕ × HistoryCell)
  in_history [] = []
  in_history (s ∷ rest) =
      if ltb s head && leb tail s
      then (s, window (s % max_history)) ∷ in_history rest
      else in_history rest

pub resend-Resent :
    (env : Env) (requested : List ℕ) (d : RtData)
    → Resent d.tail d.head d.window requested (resend env requested d).0
unfolding resend
resend-Resent env [] d = stopped
resend-Resent env (s ∷ rest) d =
    let d' : RtData = record d { bucket = d.bucket - rt_retransm_tok } in
    elim (Bool-cases (ltb s d.head && leb d.tail s)) [
      | inr t ↦ rw t (skipped (resend-Resent env rest d))
      | inl t ↦ elim (Bool-cases (ltb d.bucket rt_retransm_tok)) [
        | inl u ↦ rw (t, u) stopped
        | inr u ↦ elim (Bool-cases env.network_flag) [
          | inr v ↦ rw (t, u, v) (skipped (resend-Resent env rest d'))
          | inl v ↦ elim (Bool-cases (env.link_send s)) [
            | inl w ↦
                rw (t, u, v, w) (resent (ground arith) (ground arith) (resend-Resent env rest d'))
            | inr w ↦ rw (t, u, v, w) (resent (ground arith) (ground arith) stopped)
          ]
        ]
      ]
    ]

-- Each packet takes two tokens from the bucket.
pub resend-tokens :
    (env : Env) (requested : List ℕ) (d : RtData)
    → length (resend env requested d).0 * 2 + (resend env requested d).1.bucket ≤ d.bucket
unfolding resend
resend-tokens env [] d = omega arith
resend-tokens env (s ∷ rest) d =
    let d' : RtData = record d { bucket = d.bucket - rt_retransm_tok } in
    ground (arith, resend-tokens env rest d, resend-tokens env rest d')

pub resend_all :
    (env : Env) (requested : List ℕ) (d : RtData)
    → env.network_flag ≡ true
    → ((s : ℕ) → env.link_send s ≡ true)
    → length requested * 2 ≤ d.bucket
    → (resend env requested d).0 ≡ in_history d.tail d.head d.window requested
unfolding resend in_history
resend_all env [] d on ok enough = refl
resend_all env (s ∷ rest) d on ok enough =
    let d' : RtData = record d { bucket = d.bucket - rt_retransm_tok } in
    elim (Bool-cases (ltb s d.head && leb d.tail s)) [
      | inr t ↦ rw t (resend_all env rest d on ok (omega arith))
      | inl t ↦ ground (arith, ok s, resend_all env rest d' on ok (omega arith))
    ]
