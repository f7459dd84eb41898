-- ===== src/Links/Hello/Tests.antt =====
-- The hello protocol of daemon/hello.c on examples.
use spines.Prelude.{◌≤◌, ◌<◌, ◌≡◌, ◌≢◌, refl, true, false, none, some, List, [], ◌==◌, ◌⊎◌, arith}
use spines.Prelude.Int.{pos, negsuc}
use spines.Links.Hello.{
  not_yet_connected_leg, disconnected_leg, Leg, Action, Hello, Env, is_minus_one, is_disconnected,
  send_hello, dead_leg, process_hello_packet,
}
use spines.Links.Hello.Laws.{WellFormed}
use spines.Links.Hello.Session.{
  Heard, sent_hellos, asks_dead_leg, process_hello_packet-WellFormed, dead_leg-silence,
}

abbrev env : Env
env = record { fresh_id = 77; initial_cost = pos 1; updated_cost = none; hello_cnt_start = 7 }

-- A leg that has heard five hellos.
abbrev leg : Leg
leg = record {
  status = not_yet_connected_leg;
  cost = negsuc 0;
  ctrl_link_id = 11;
  other_side_ctrl_link_id = 22;
  hellos_out = 0;
  connect_cnter = 5;
  hello_seq = 6;
  other_side_hello_seq = 5;
}

abbrev hello : Hello
hello = record { ctrl_link_id = 22; pack_seq_no = 9; seq_no = 6; is_hello_req = false }

process_hello_packet-WellFormed_example :
    (leg' : Leg) × (acts : List Action) × (process_hello_packet env hello leg ≡ some (leg', acts))
    × WellFormed leg'
    × (is_disconnected leg'.status ≡ false)
    × (((leg.other_side_ctrl_link_id ≢ 0)
          × (hello.ctrl_link_id ≢ leg.other_side_ctrl_link_id)
          × (leg'.status ≡ not_yet_connected_leg)
          × (leg'.connect_cnter ≡ 0)
          × (leg'.other_side_ctrl_link_id ≡ 0))
        ⊎ Heard env hello leg leg')
process_hello_packet-WellFormed_example =
    process_hello_packet-WellFormed env hello leg (refl, λ c e. ground arith) (refl, omega arith)
      refl

dead_leg-silence_example :
    (asks_dead_leg (send_hello 7 (sent_hellos 7 12 leg)).1 ≡ (12 == 10))
    × (((12 < 10) × (dead_leg (sent_hellos 7 12 leg) ≡ some (sent_hellos 7 12 leg, [])))
        ⊎ ((10 ≤ 12)
            × ((leg' : Leg) × (acts : List Action) × (dead_leg (sent_hellos 7 12 leg)
                  ≡ some (leg', acts))
                × (leg'.status ≡ disconnected_leg)
                × (is_minus_one leg'.cost ≡ true))))
dead_leg-silence_example = dead_leg-silence 7 12 leg refl refl
