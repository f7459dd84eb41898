-- ===== src/Links/Hello.antt =====
-- The hello protocol of a leg: daemon/hello.c, daemon/network.c and daemon/link.c.
pub mod Laws
pub mod Session
mod Tests
use spines.Prelude.{
  ℕ, ◌+◌, ◌%◌, ◌^◌, Bool, true, false, ◌&&◌, ◌||◌, not, Option, none, some, List, [], ◌∷◌, ◌++◌,
  ltb, leb, ◌==◌, if◌then◌else◌,
}
use spines.Prelude.Int.{ℤ, pos, negsuc}
use spines.Routing.Regime.{◌>>=◌}

-- `Network_Leg_Status`
pub data Status : Type 0 where
  disconnected_leg : Status
  not_yet_connected_leg : Status
  connected_leg : Status

-- What the hello protocol keeps in `Network_Leg` and in the `Control_Data` of its control link.
pub record Leg : Type 0 where
  pub status : Status
  pub cost : ℤ
  pub ctrl_link_id : ℕ
  pub other_side_ctrl_link_id : ℕ
  pub hellos_out : ℕ
  pub connect_cnter : ℕ
  pub hello_seq : ℕ
  pub other_side_hello_seq : ℕ

-- The calls and events that the functions make, in their order.
pub data Action : Type 0 where
  net_send_hello : (seq_no ctrl_link_id : ℕ) → Action
  queue_send_hello : Action
  queue_request_cnt : Action
  dequeue_request_cnt : Action
  queue_dead_leg : Action
  queue_try_to_send : Action
  reset_loss : (seq_no : ℕ) → Action
  check_link_loss : (seq_no : ℕ) → Action
  create_data_links : Action
  destroy_links : Action
  sync_states : Action
  forget_neighbor : Action
  announce_cost : ℤ → Action

-- What is read of a hello: its session, the number of its packet, its own number, and whether it asks
-- for an answer.
pub record Hello : Type 0 where
  pub ctrl_link_id : ℕ
  pub pack_seq_no : ℕ
  pub seq_no : ℕ
  pub is_hello_req : Bool

-- The next identifier of a control link, which is random, the cost of a leg that becomes connected,
-- and the cost that `Network_Leg_Update_Cost` finds if it is called and finds a new one. Then
-- `hello_cnt_start`.
pub record Env : Type 0 where
  pub fresh_id : ℕ
  pub initial_cost : ℤ
  pub updated_cost : Option ℤ
  pub hello_cnt_start : ℕ

-- DEAD_LINK_CNT and CONNECT_LINK_CNT
abbrev pub dead_link_cnt : ℕ
dead_link_cnt = 10

abbrev pub connect_link_cnt : ℕ
connect_link_cnt = 6

abbrev pub is_minus_one : ℤ → Bool
is_minus_one (pos n) = false
is_minus_one (negsuc n) = n == 0

abbrev pub same_cost : ℤ → ℤ → Bool
same_cost (pos a) (pos b) = a == b
same_cost (pos a) (negsuc b) = false
same_cost (negsuc a) (pos b) = false
same_cost (negsuc a) (negsuc b) = a == b

abbrev pub is_connected : Status → Bool
is_connected disconnected_leg = false
is_connected not_yet_connected_leg = false
is_connected connected_leg = true

abbrev pub is_disconnected : Status → Bool
is_disconnected disconnected_leg = true
is_disconnected not_yet_connected_leg = false
is_disconnected connected_leg = false

-- What follows a change of the cost.
abbrev pub cost_actions : ℤ → ℤ → List Action
cost_actions new old =
    if is_minus_one old
    then sync_states ∷ announce_cost new ∷ []
    else if is_minus_one new
    then forget_neighbor ∷ announce_cost new ∷ []
    else announce_cost new ∷ []

-- `Network_Leg_Set_Cost`. `none`: the program exits.
unfoldable pub network_leg_set_cost : ℤ → Leg → Option (Leg × List Action)
network_leg_set_cost new leg =
    if (not (is_minus_one new) && not (is_connected leg.status))
      || (is_minus_one new && is_connected leg.status)
    then none
    else if same_cost new leg.cost
    then some (leg, [])
    else some (record leg { cost = new }, cost_actions new leg.cost)

-- `Disconnect_Network_Leg`
unfoldable pub disconnect_network_leg : Leg → Option (Leg × List Action)
disconnect_network_leg leg =
    if is_disconnected leg.status
    then none
    else (network_leg_set_cost (negsuc 0)
          (record leg { status = disconnected_leg; ctrl_link_id = 0; other_side_ctrl_link_id = 0 })
        >>= λ cut. some (cut.0, destroy_links ∷ cut.1))

-- What `Create_Link` does to the leg, for a control link.
abbrev pub fresh_leg : ℕ → Leg → Leg
fresh_leg fresh_id leg = record leg {
  status = not_yet_connected_leg;
  cost = negsuc 0;
  ctrl_link_id = fresh_id;
  other_side_ctrl_link_id = 0;
  hellos_out = 0;
  connect_cnter = 0;
  hello_seq = 0;
  other_side_hello_seq = 0;
}

unfoldable pub create_control_link : ℕ → Leg → Option (Leg × List Action)
create_control_link fresh_id leg =
    if is_disconnected leg.status && is_minus_one leg.cost
    then some (fresh_leg fresh_id leg, queue_send_hello ∷ [])
    else none

-- `Send_Hello` with `Net_Send_Hello`, less the cleaning of the realtime link's history
unfoldable pub send_hello : ℕ → Leg → Leg × List Action
send_hello hello_cnt_start leg = (
  record leg { hellos_out = leg.hellos_out + 1; hello_seq = (leg.hello_seq + 1) % 2 ^ 32 },
  (if leg.hellos_out == hello_cnt_start then queue_request_cnt ∷ [] else [])
      ++ (if leg.hellos_out == dead_link_cnt then queue_dead_leg ∷ [] else [])
      ++ (net_send_hello leg.hello_seq leg.ctrl_link_id ∷ queue_send_hello ∷ []),
)

-- `Dead_Leg`
unfoldable pub dead_leg : Leg → Option (Leg × List Action)
dead_leg leg =
    if ltb leg.hellos_out dead_link_cnt then some (leg, []) else disconnect_network_leg leg

module _ (env : Env) where
  -- The part of `Process_hello_packet` that depends on the status of the leg.
  unfoldable pub advance : Status → Leg → Option (Leg × List Action)
  advance disconnected_leg leg = none
  advance connected_leg leg = elim env.updated_cost [
    | none ↦ some (leg, [])
    | some cost ↦ network_leg_set_cost cost leg
  ]
  advance not_yet_connected_leg leg =
      let counted = record leg { connect_cnter = leg.connect_cnter + 1 } in
      if leb connect_link_cnt counted.connect_cnter
      then (network_leg_set_cost env.initial_cost (record counted { status = connected_leg })
          >>= λ up. some (
            up.0,
            up.1
                ++ (create_data_links ∷ queue_send_hello ∷ queue_try_to_send ∷ queue_try_to_send
                    ∷ []),
          ))
      else some (counted, [])

  -- A hello of another session: the leg is started again, with a hello sent at once.
  unfoldable pub restart : Leg → Option (Leg × List Action)
  restart leg = disconnect_network_leg leg >>= λ cut.
      create_control_link env.fresh_id cut.0 >>= λ made.
      (let sent = send_hello env.hello_cnt_start made.0 in some (sent.0, cut.1 ++ made.1 ++ sent.1))

  -- Whether the hello took too long to get here; the sum has 32 bits.
  abbrev pub is_stale : Hello → Leg → Bool
  is_stale h leg = ltb ((h.seq_no + 3) % 2 ^ 32) leg.other_side_hello_seq

  -- What is done with a hello of the session that the leg is in.
  unfoldable pub accept : Hello → Leg → Option (Leg × List Action)
  accept h leg =
      if is_stale h leg
      then some (leg, check_link_loss h.pack_seq_no ∷ [])
      else (advance leg.status (record leg { other_side_hello_seq = h.seq_no; hellos_out = 0 })
          >>= λ done. some (
            done.0,
            check_link_loss h.pack_seq_no
                ∷ dequeue_request_cnt
                ∷ ((if h.is_hello_req then queue_send_hello ∷ [] else []) ++ done.1),
          ))

  -- `Process_hello_packet`, for a packet of the right size.
  unfoldable pub process_hello_packet : Hello → Leg → Option (Leg × List Action)
  process_hello_packet h leg =
      if h.ctrl_link_id == leg.other_side_ctrl_link_id
      then accept h leg
      else if leg.other_side_ctrl_link_id == 0
      then (accept h (record leg { other_side_ctrl_link_id = h.ctrl_link_id }) >>= λ done.
          some (done.0, reset_loss h.pack_seq_no ∷ done.1))
      else restart leg
