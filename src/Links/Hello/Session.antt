-- ===== src/Links/Hello/Session.antt =====
-- What a hello does to a leg, and when a leg is given up (daemon/hello.c).
use spines.Prelude.{
  ℕ, zero, suc, ◌+◌, ◌≤◌, ◌<◌, ◌≡◌, ◌≢◌, refl, Bool, true, false, ◌||◌, some, List, [], ◌∷◌, ◌++◌,
  ltb, leb, ◌==◌, if◌then◌else◌, arith, Bool-cases, ◌⊎◌, inl, inr, ap, ◌∙◌,
}
use spines.Links.Hello.{
  Status, disconnected_leg, not_yet_connected_leg, connected_leg, Leg, Action, Hello, Env,
  dead_link_cnt, connect_link_cnt, is_minus_one, is_connected, is_disconnected, dead_leg, is_stale,
  accept, process_hello_packet, check_link_loss, reset_loss, dequeue_request_cnt, queue_send_hello,
  queue_dead_leg, send_hello,
}
use spines.Links.Hello.Laws.{
  WellFormedAt, WellFormed, HasCosts, restart-some, advance-Advanced, disconnect_network_leg-some,
}

WellFormedAt-heard :
    (s : Status) (leg : Leg) (id seq out : ℕ)
    → WellFormedAt s leg
    → WellFormedAt s
        (record leg { other_side_ctrl_link_id = id; other_side_hello_seq = seq; hellos_out = out })
WellFormedAt-heard disconnected_leg leg id seq out well = well
WellFormedAt-heard not_yet_connected_leg leg id seq out well = well
WellFormedAt-heard connected_leg leg id seq out well = well

module _ (env : Env) (h : Hello) where
  -- The leg is as it was, or is a hello further on the way to being connected.
  abbrev pub Heard : Leg → Leg → Type 0
  Heard leg leg' =
      (leg'.other_side_ctrl_link_id ≡ h.ctrl_link_id)
      × (((is_stale env h leg ≡ true)
            × (leg' ≡ record leg { other_side_ctrl_link_id = h.ctrl_link_id }))
          ⊎ ((is_stale env h leg ≡ false)
              × (is_connected leg'.status
                  ≡ (is_connected leg.status || leb connect_link_cnt (leg.connect_cnter + 1)))
              × (leg'.other_side_hello_seq ≡ h.seq_no)
              × (leg'.hellos_out ≡ 0)))

  accept-Heard :
      (leg : Leg)
      → HasCosts env
      → WellFormed leg
      → is_disconnected leg.status ≡ false
      → leg.other_side_ctrl_link_id ≡ h.ctrl_link_id
      → (leg' : Leg) × (acts : List Action) × (accept env h leg ≡ some (leg', acts))
        × WellFormed leg'
        × (is_disconnected leg'.status ≡ false)
        × Heard leg leg'
  unfolding accept
  accept-Heard leg costs well up same = elim (Bool-cases (is_stale env h leg)) [
    | inl stale ↦ (
      leg,
      check_link_loss h.pack_seq_no ∷ [],
      rw stale refl,
      well,
      up,
      (same, inl (stale, rw (← same) refl)),
    )
    | inr fresh ↦
        let heard = record leg { other_side_hello_seq = h.seq_no; hellos_out = 0 } in
        let well' = WellFormedAt-heard leg.status leg leg.other_side_ctrl_link_id h.seq_no 0 well in
        let (leg', acts, ran, advanced) = advance-Advanced env heard costs well' up in
        let (ok, still, conn, out, seq, id) = advanced in
        (
          leg',
          check_link_loss h.pack_seq_no
              ∷ dequeue_request_cnt
              ∷ ((if h.is_hello_req then queue_send_hello ∷ [] else []) ++ acts),
          rw (fresh, ran) refl,
          ok,
          still,
          (id ∙ same, inr (fresh, conn, seq, out)),
        )
  ]

  -- Where the costs that a leg can get are not the -1 of one that is not connected, processing a hello
  -- never exits and keeps a leg well-formed that is not disconnected. A hello of
  -- another session than the one that the other side is in starts the leg again. Any other takes up
  -- the session; a stale one changes nothing else of the leg; one that is not stale clears the count of
  -- unanswered hellos, and a leg that is not connected becomes so by it exactly if it is the sixth.
  pub process_hello_packet-WellFormed :
      (leg : Leg)
      → HasCosts env
      → WellFormed leg
      → is_disconnected leg.status ≡ false
      → (leg' : Leg) × (acts : List Action) × (process_hello_packet env h leg ≡ some (leg', acts))
        × WellFormed leg'
        × (is_disconnected leg'.status ≡ false)
        × (((leg.other_side_ctrl_link_id ≢ 0)
              × (h.ctrl_link_id ≢ leg.other_side_ctrl_link_id)
              × (leg'.status ≡ not_yet_connected_leg)
              × (leg'.connect_cnter ≡ 0)
              × (leg'.other_side_ctrl_link_id ≡ 0))
            ⊎ Heard leg leg')
  unfolding process_hello_packet
  process_hello_packet-WellFormed leg costs well up =
      elim (Bool-cases (h.ctrl_link_id == leg.other_side_ctrl_link_id)) [
        | inl same ↦
            let (leg', acts, ran, ok, still, heard) =
              accept-Heard leg costs well up (ground arith) in
            (leg', acts, rw same ran, ok, still, inr heard)
        | inr differs ↦ elim (Bool-cases (leg.other_side_ctrl_link_id == 0)) [
          | inl first ↦
              let begun = record leg { other_side_ctrl_link_id = h.ctrl_link_id } in
              let well' =
                WellFormedAt-heard leg.status leg h.ctrl_link_id leg.other_side_hello_seq
                  leg.hellos_out well in
              let (leg', acts, ran, ok, still, heard) = accept-Heard begun costs well' up refl in
              (
                leg',
                reset_loss h.pack_seq_no ∷ acts,
                rw (differs, first, ran) refl,
                ok,
                still,
                inr heard,
              )
          | inr other ↦
              let (leg', acts, ran, state, minus_one, cnt, id) = restart-some env leg up in
              (
                leg',
                acts,
                rw (differs, other) ran,
                rw state (minus_one, omega arith),
                rw state refl,
                inl (ground arith, ground arith, state, cnt, id),
              )
        ]
      ]

-- A leg that sends hellos with no answer between, its `Dead_Leg` among the events at the last.
abbrev pub sent_hellos : ℕ → ℕ → Leg → Leg
sent_hellos cnt_start zero leg = leg
sent_hellos cnt_start (suc n) leg = (send_hello cnt_start (sent_hellos cnt_start n leg)).0

abbrev pub asks_dead_leg : List Action → Bool
asks_dead_leg [] = false
asks_dead_leg (queue_dead_leg ∷ acts) = true
asks_dead_leg (a ∷ acts) = asks_dead_leg acts

sent_hellos-out :
    (cnt_start n : ℕ) (leg : Leg)
    → ((sent_hellos cnt_start n leg).hellos_out ≡ leg.hellos_out + n)
      × ((sent_hellos cnt_start n leg).status ≡ leg.status)
unfolding send_hello
sent_hellos-out cnt_start zero leg = (omega arith, refl)
sent_hellos-out cnt_start (suc n) leg =
    let (out, state) = sent_hellos-out cnt_start n leg in (omega arith, state)

asks-send_hello :
    (cnt_start : ℕ) (leg : Leg)
    → asks_dead_leg (send_hello cnt_start leg).1 ≡ (leg.hellos_out == dead_link_cnt)
unfolding send_hello
asks-send_hello cnt_start leg = elim (Bool-cases (leg.hellos_out == cnt_start)) [
  | inl counts ↦ elim (Bool-cases (leg.hellos_out == dead_link_cnt)) [
    | inl dead ↦ rw (counts, dead) refl
    | inr alive ↦ rw (counts, alive) refl
  ]
  | inr counts_not ↦ elim (Bool-cases (leg.hellos_out == dead_link_cnt)) [
    | inl dead ↦ rw (counts_not, dead) refl
    | inr alive ↦ rw (counts_not, alive) refl
  ]
]

-- Of the hellos that a leg sends after it heard one, with no answer between, just the eleventh has
-- `Dead_Leg` called. That disconnects the leg then, while it does nothing to a leg that has sent fewer
-- than ten since it heard a hello.
pub dead_leg-silence :
    (cnt_start n : ℕ) (leg : Leg)
    → leg.hellos_out ≡ 0
    → is_disconnected leg.status ≡ false
    → (asks_dead_leg (send_hello cnt_start (sent_hellos cnt_start n leg)).1 ≡ (n == 10))
      × (((n < 10)
            × (dead_leg (sent_hellos cnt_start n leg) ≡ some (sent_hellos cnt_start n leg, [])))
          ⊎ ((10 ≤ n)
              × ((leg' : Leg) × (acts : List Action) × (dead_leg (sent_hellos cnt_start n leg)
                    ≡ some (leg', acts))
                  × (leg'.status ≡ disconnected_leg)
                  × (is_minus_one leg'.cost ≡ true))))
unfolding dead_leg
dead_leg-silence cnt_start n leg heard up =
    let sent = sent_hellos cnt_start n leg in
    let (out, state) = sent_hellos-out cnt_start n leg in
    let n_out : sent.hellos_out ≡ n = omega arith in
    (
      asks-send_hello cnt_start sent ∙ ap (λ k. k == 10) n_out,
      elim (Bool-cases (ltb sent.hellos_out dead_link_cnt)) [
        | inl few ↦ inl (ground arith, rw few refl)
        | inr many ↦
            let (c, acts, ran, minus_one) =
              disconnect_network_leg-some sent (ap is_disconnected state ∙ up) in
            inr (
              ground arith,
              (
                record sent {
                  status = disconnected_leg;
                  ctrl_link_id = 0;
                  other_side_ctrl_link_id = 0;
                  cost = c;
                },
                acts,
                rw many ran,
                refl,
                minus_one,
              ),
            )
      ],
    )
