-- ===== src/Links/Hello/Laws.antt =====
-- How a leg becomes connected and is given up (daemon/hello.c, daemon/network.c).
use spines.Prelude.{
  ◌+◌, ◌<◌, ◌≡◌, refl, Bool, true, false, ◌&&◌, ◌||◌, not, some, List, [], ◌∷◌, ◌++◌, leb, arith,
  Bool-cases, Option-cases, ◌⊎◌, inl, inr, sym, ap, ◌∙◌,
}
use spines.Prelude.Int.{ℤ, pos, negsuc}
use mathlib.Core.Bool.{true≢false}
use spines.Links.Hello.{
  Status, disconnected_leg, not_yet_connected_leg, connected_leg, Leg, Action, Env,
  connect_link_cnt, is_minus_one, same_cost, cost_actions, is_connected, is_disconnected,
  network_leg_set_cost, disconnect_network_leg, create_control_link, send_hello, advance, restart,
  destroy_links, fresh_leg, queue_send_hello, create_data_links, queue_try_to_send,
}

-- A leg has a cost exactly if it is connected, which it is from the sixth hello on.
abbrev pub WellFormedAt : Status → Leg → Type 0
WellFormedAt disconnected_leg leg = is_minus_one leg.cost ≡ true
WellFormedAt not_yet_connected_leg leg =
    (is_minus_one leg.cost ≡ true) × (leg.connect_cnter < connect_link_cnt)
WellFormedAt connected_leg leg =
    (is_minus_one leg.cost ≡ false) × (leg.connect_cnter ≡ connect_link_cnt)

abbrev pub WellFormed : Leg → Type 0
WellFormed leg = WellFormedAt leg.status leg

-- The costs that a connected leg is given are costs.
abbrev pub HasCosts : Env → Type 0
HasCosts env =
    (is_minus_one env.initial_cost ≡ false)
    × ((c : ℤ) → env.updated_cost ≡ some c → is_minus_one c ≡ false)

Status-cases :
    (s : Status) → (s ≡ disconnected_leg) ⊎ ((s ≡ not_yet_connected_leg) ⊎ (s ≡ connected_leg))
Status-cases disconnected_leg = inl refl
Status-cases not_yet_connected_leg = inr (inl refl)
Status-cases connected_leg = inr (inr refl)

same_cost-minus_one : (c d : ℤ) → same_cost c d ≡ true → is_minus_one c ≡ is_minus_one d
same_cost-minus_one (pos a) (pos b) h = refl
same_cost-minus_one (pos a) (negsuc b) h = ground arith
same_cost-minus_one (negsuc a) (pos b) h = ground arith
same_cost-minus_one (negsuc a) (negsuc b) h = ground arith

-- A cost is set, and nothing else.
network_leg_set_cost-some :
    (new : ℤ) (leg : Leg)
    → is_minus_one new ≡ not (is_connected leg.status)
    → (c : ℤ) × (acts : List Action) × (network_leg_set_cost new leg
        ≡ some (record leg { cost = c }, acts))
      × (is_minus_one c ≡ is_minus_one new)
unfolding network_leg_set_cost
network_leg_set_cost-some new leg fits =
    let agree : ((not (is_minus_one new) && not (is_connected leg.status))
          || (is_minus_one new && is_connected leg.status))
        ≡ false =
      rw fits (never (is_connected leg.status)) in
    elim (Bool-cases (same_cost new leg.cost)) [
      | inl same ↦
          (leg.cost, [], rw (agree, same) refl, sym (same_cost-minus_one new leg.cost same))
      | inr differs ↦ (new, cost_actions new leg.cost, rw (agree, differs) refl, refl)
    ]
  where
    never : (b : Bool) → ((not (not b) && not b) || (not b && b)) ≡ false
    never true = refl
    never false = refl

pub disconnect_network_leg-some :
    (leg : Leg)
    → is_disconnected leg.status ≡ false
    → (c : ℤ) × (acts : List Action) × (disconnect_network_leg leg
        ≡ some (
          record leg {
            status = disconnected_leg;
            ctrl_link_id = 0;
            other_side_ctrl_link_id = 0;
            cost = c;
          },
          acts,
        ))
      × (is_minus_one c ≡ true)
unfolding disconnect_network_leg
disconnect_network_leg-some leg up =
    let cut = record leg {
      status = disconnected_leg;
      ctrl_link_id = 0;
      other_side_ctrl_link_id = 0;
    } in
    let (c, acts, ran, minus_one) = network_leg_set_cost-some (negsuc 0) cut refl in
    (c, destroy_links ∷ acts, rw (up, ran) refl, minus_one)

module _ (env : Env) where
  pub restart-some :
      (leg : Leg)
      → is_disconnected leg.status ≡ false
      → (leg' : Leg) × (acts : List Action) × (restart env leg ≡ some (leg', acts))
        × (leg'.status ≡ not_yet_connected_leg)
        × (is_minus_one leg'.cost ≡ true)
        × (leg'.connect_cnter ≡ 0)
        × (leg'.other_side_ctrl_link_id ≡ 0)
  unfolding restart create_control_link send_hello
  restart-some leg up =
      let (c, acts, ran, minus_one) = disconnect_network_leg-some leg up in
      let sent = send_hello env.hello_cnt_start (fresh_leg env.fresh_id leg) in
      (
        sent.0,
        acts ++ (queue_send_hello ∷ []) ++ sent.1,
        rw (ran, minus_one) refl,
        refl,
        refl,
        refl,
        refl,
      )

  -- What an accepted hello does to the connection of the leg.
  abbrev Advanced : Leg → Leg → Type 0
  Advanced leg leg' =
      WellFormed leg'
      × (is_disconnected leg'.status ≡ false)
      × (is_connected leg'.status
          ≡ (is_connected leg.status || leb connect_link_cnt (leg.connect_cnter + 1)))
      × (leg'.hellos_out ≡ leg.hellos_out)
      × (leg'.other_side_hello_seq ≡ leg.other_side_hello_seq)
      × (leg'.other_side_ctrl_link_id ≡ leg.other_side_ctrl_link_id)

  advance-not_yet :
      (leg : Leg)
      → is_minus_one env.initial_cost ≡ false
      → leg.status ≡ not_yet_connected_leg
      → is_minus_one leg.cost ≡ true
      → leg.connect_cnter < connect_link_cnt
      → (leg' : Leg) × (acts : List Action) × (advance env not_yet_connected_leg leg
          ≡ some (leg', acts))
        × Advanced leg leg'
  unfolding advance
  advance-not_yet leg costs state minus_one few =
      let up = record leg { connect_cnter = leg.connect_cnter + 1; status = connected_leg } in
      elim (Bool-cases (leb connect_link_cnt (leg.connect_cnter + 1))) [
        | inr too_few ↦ (
          record leg { connect_cnter = leg.connect_cnter + 1 },
          [],
          rw too_few refl,
          (
            rw state (minus_one, ground arith),
            rw state refl,
            rw (state, too_few) refl,
            refl,
            refl,
            refl,
          ),
        )
        | inl enough ↦
            let (c, acts, ran, is_cost) = network_leg_set_cost-some env.initial_cost up costs in
            (
              record up { cost = c },
              acts
                  ++ (create_data_links ∷ queue_send_hello ∷ queue_try_to_send ∷ queue_try_to_send
                      ∷ []),
              rw (enough, ran) refl,
              ((is_cost ∙ costs, ground arith), refl, rw (state, enough) refl, refl, refl, refl),
            )
      ]

  advance-connected :
      (leg : Leg)
      → HasCosts env
      → leg.status ≡ connected_leg
      → is_minus_one leg.cost ≡ false
      → leg.connect_cnter ≡ connect_link_cnt
      → (leg' : Leg) × (acts : List Action) × (advance env connected_leg leg ≡ some (leg', acts))
        × Advanced leg leg'
  unfolding advance
  advance-connected leg (initial, updated) state is_cost enough =
      elim (Option-cases env.updated_cost) [
        | inl no_update ↦ (
          leg,
          [],
          rw no_update refl,
          (rw state (is_cost, enough), rw state refl, rw state refl, refl, refl, refl),
        )
        | inr (new, update) ↦
            let fits : is_minus_one new ≡ not (is_connected leg.status) =
              rw state (updated new update) in
            let (c, acts, ran, same) = network_leg_set_cost-some new leg fits in
            (
              record leg { cost = c },
              acts,
              rw update ran,
              (
                rw state (same ∙ updated new update, enough),
                rw state refl,
                rw state refl,
                refl,
                refl,
                refl,
              ),
            )
      ]

  pub advance-Advanced :
      (leg : Leg)
      → HasCosts env
      → WellFormed leg
      → is_disconnected leg.status ≡ false
      → (leg' : Leg) × (acts : List Action) × (advance env leg.status leg ≡ some (leg', acts))
        × Advanced leg leg'
  advance-Advanced leg costs well up = elim (Status-cases leg.status) [
    | inl down ↦ absurd (true≢false (sym (ap is_disconnected down) ∙ up))
    | inr not_down ↦ elim not_down [
      | inl state ↦
          let (minus_one, few) = rw state at well in
          let (leg', acts, ran, advanced) = advance-not_yet leg costs.0 state minus_one few in
          (leg', acts, ap (λ s. advance env s leg) state ∙ ran, advanced)
      | inr state ↦
          let (is_cost, enough) = rw state at well in
          let (leg', acts, ran, advanced) = advance-connected leg costs state is_cost enough in
          (leg', acts, ap (λ s. advance env s leg) state ∙ ran, advanced)
    ]
  ]
