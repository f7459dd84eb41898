-- ===== src/Reliable/Acks.antt =====
-- What `Send_Ack` (daemon/reliable_datagram.c) requests.
use spines.Prelude.{
  ℕ, suc, ◌+◌, ◌-◌, ◌*◌, ◌≤◌, ◌<◌, ◌≡◌, refl, ◌∙◌, inl, inr, sym, ◌⊎◌, Bool, true, false, ◌||◌, not,
  List, [], ◌∷◌, ◌++◌, ltb, ◌==◌, if◌then◌else◌, length, arith, Bool-cases,
}
use spines.Prelude.Loops.{for_from_inv}
use spines.Realtime.{CellFlag, empty_cell, recvd_cell, nack_cell, sent_cell}
use spines.Reliable.{
  max_window, ReliableData, window_cell, repeat_after, Env, is_due, add_request, send_ack,
}

-- A number is among those requested.
abbrev pub requests : List ℕ → ℕ → Bool
requests [] s = false
requests (n ∷ nacks) s = n == s || requests nacks s

requests-append :
    (nacks : List ℕ) (i s : ℕ) → requests (nacks ++ (i ∷ [])) s ≡ (requests nacks s || i == s)
requests-append [] i s = ground arith
requests-append (n ∷ nacks) i s = ground (arith, requests-append nacks i s)

length-snoc : (nacks : List ℕ) (i : ℕ) → length (nacks ++ (i ∷ [])) ≡ suc (length nacks)
length-snoc [] i = refl
length-snoc (n ∷ nacks) i = ground (arith, length-snoc nacks i)

module _ (env : Env) (now : ℕ) (d : ReliableData) where
  -- A number that was not received and is to be requested: for the first time, where more than three
  -- numbers from it on are known, or more than one with fast retransmission; or again, where the wait
  -- since the last request is over.
  abbrev pub IsWanted : ℕ → Type 0
  IsWanted s =
      (((window_cell d s).flag ≡ empty_cell)
        × ((s + 3 < d.recv_head) ⊎ ((env.fast_retransmit ≡ true) × (s + 1 < d.recv_head))))
      ⊎ (((window_cell d s).flag ≡ nack_cell)
          × ((window_cell d s).nack_sent + (if d.rtt == 0 then 1000000 else d.rtt * 2) < now))

  -- The number is missing and due for a request, before the call.
  abbrev pub due : ℕ → Bool
  due s = is_due env now d.recv_head d.rtt (window_cell d s) s

  -- What is requested of the numbers below `i`, and what the window holds.
  pub record Asked (i : ℕ) (nacks : List ℕ) (d' : ReliableData) : Type 0 where
    pub head : d'.recv_head ≡ d.recv_head
    pub tail : d'.recv_tail ≡ d.recv_tail
    pub wanted : (s : ℕ) → (due s ≡ true → IsWanted s) × (IsWanted s → due s ≡ true)
    pub rtt : d'.rtt ≡ d.rtt
    pub few : d.recv_tail + length nacks ≤ i
    pub only : (s : ℕ) → requests nacks s ≡ true → (d.recv_tail ≤ s) × (s < i) × (due s ≡ true)
    pub all :
        8 + (d.recv_head - d.recv_tail) * 4 ≤ env.room
        → (s : ℕ) → d.recv_tail ≤ s
        → s < i
        → due s ≡ true
        → requests nacks s ≡ true
    pub cells :
        (s : ℕ)
        → d.recv_tail ≤ s
        → s < d.recv_head
        → window_cell d' s ≡ (
            if requests nacks s
            then record { flag = nack_cell; nack_sent = now }
            else window_cell d s)

  of_flag :
      (s : ℕ) (f : CellFlag)
      → f ≡ (window_cell d s).flag
      → (due s ≡ true → IsWanted s) × (IsWanted s → due s ≡ true)
  unfolding is_due
  of_flag s empty_cell e = (λ h. inl (sym e, ground (arith, e)), λ w. ground (arith, e))
  of_flag s recvd_cell e = (λ h. ground (arith, e), λ w. ground (arith, e))
  of_flag s nack_cell e = (λ h. inr (sym e, ground (arith, e)), λ w. ground (arith, e))
  of_flag s sent_cell e = (λ h. ground (arith, e), λ w. ground (arith, e))

  due-IsWanted : (s : ℕ) → (due s ≡ true → IsWanted s) × (IsWanted s → due s ≡ true)
  due-IsWanted s = of_flag s (window_cell d s).flag refl

  add_request-Asked :
      (i : ℕ) (nacks : List ℕ) (d' : ReliableData)
      → d.recv_head ≤ d.recv_tail + max_window
      → d.recv_tail ≤ i
      → i < d.recv_head
      → Asked i nacks d'
      → let (nacks', e) = add_request env now i (nacks, d') in Asked (suc i) nacks' e
  unfolding add_request
  add_request-Asked i nacks d' fits from lt a =
      let cell : window_cell d' i ≡ window_cell d i = ground (arith, a.cells i from lt, a.only i) in
      let is_due' = is_due env now d'.recv_head d'.rtt (window_cell d' i) i in
      let same : is_due' ≡ due i = rw (a.head, a.rtt, cell) refl in
      elim (Bool-cases (ltb env.room (8 + length nacks * 4) || not is_due')) [
        | inl t ↦ rw t (record {
          head = a.head;
          tail = a.tail;
          wanted = a.wanted;
          rtt = a.rtt;
          few = omega (arith, a.few);
          only = λ s h. let (lo, hi, u) = a.only s h in (lo, omega arith, u);
          all = λ enough s lo hi u. elim (Bool-cases (s == i)) [
            | inl v ↦ absurd (ground (arith, same, a.few))
            | inr v ↦ a.all enough s lo (ground arith) u
          ];
          cells = a.cells;
        })
        | inr t ↦ rw t (record {
          head = a.head;
          tail = a.tail;
          wanted = a.wanted;
          rtt = a.rtt;
          few = omega (arith, a.few, length-snoc nacks i);
          only = λ s h. elim (Bool-cases (requests nacks s)) [
            | inl v ↦ let (lo, hi, u) = a.only s v in (lo, omega arith, u)
            | inr v ↦
                let e : i ≡ s = ground (arith, requests-append nacks i s) in
                (omega arith, omega arith, ground (arith, same))
          ];
          all = λ enough s lo hi u. elim (Bool-cases (s == i)) [
            | inl v ↦ ground (arith, requests-append nacks i s)
            | inr v ↦ ground (arith, requests-append nacks i s, a.all enough s lo (ground arith) u)
          ];
          cells = λ s lo hi. elim (Bool-cases (s == i)) [
            | inl v ↦ ground (arith, requests-append nacks i s)
            | inr v ↦ ground (arith, requests-append nacks i s, a.cells s lo hi)
          ];
        })
      ]

  -- From a window that its numbers fit: an acknowledgement confirms everything below the tail. It asks
  -- only for numbers between tail and head that were not received, and of these for those that were
  -- not asked for before and have enough numbers behind them, or that were, with the wait for the
  -- answer over; for all of these if there is room. It notes the time of each request; all other cells
  -- stay as they were.
  pub send_ack-Asked :
      d.recv_tail ≤ d.recv_head
      → d.recv_head ≤ d.recv_tail + max_window
      → let (acked, (nacks, d')) = send_ack env now d in
        (acked ≡ d.recv_tail) × Asked d.recv_head nacks d'
  unfolding send_ack
  send_ack-Asked ordered fits = (
    refl,
    (for_from_inv (λ i (nacks, e). (d.recv_tail ≤ i) × Asked i nacks e) (add_request env now)
        d.recv_head
        (λ i (nacks, e) lt (from, a). (omega arith, add_request-Asked i nacks e fits from lt a))
        (d.recv_head - d.recv_tail) d.recv_tail ([], record d { scheduled_ack = false })
        (omega arith)
        (
          omega arith,
          record {
            head = refl;
            tail = refl;
            wanted = due-IsWanted;
            rtt = refl;
            few = omega arith;
            only = λ s h. absurd (ground arith);
            all = λ enough s lo hi u. absurd (omega arith);
            cells = λ s lo hi. refl;
          },
        )).1,
  )

-- What one acknowledgement asks for, the next one does not ask for again before twice the round trip
-- time has passed (a second where that is not known), from a window that its numbers fit.
pub send_ack_again :
    (env : Env) (now later : ℕ) (d : ReliableData)
    → d.recv_tail ≤ d.recv_head
    → d.recv_head ≤ d.recv_tail + max_window
    → later ≤ now + repeat_after d.rtt
    → (s : ℕ) → requests (send_ack env now d).1.0 s ≡ true
    → requests (send_ack env later (send_ack env now d).1.1).1.0 s ≡ false
unfolding is_due
send_ack_again env now later d ordered fits soon s h =
    let (acked, a) = send_ack-Asked env now d ordered fits in
    let d' = (send_ack env now d).1.1 in
    let (acked', b) =
      send_ack-Asked env later d' (omega (arith, a.head, a.tail)) (omega (arith, a.head, a.tail)) in
    let (lo, hi, was_due) = a.only s h in
    let cell : window_cell d' s ≡ record { flag = nack_cell; nack_sent = now } =
      a.cells s lo hi ∙ rw h refl in
    let not_due : due env later d' s ≡ false = rw (cell, a.rtt, is_due) (ground arith) in
    elim (Bool-cases (requests (send_ack env later d').1.0 s)) [
      | inl t ↦ absurd (ground (arith, b.only s t, not_due))
      | inr t ↦ t
    ]
