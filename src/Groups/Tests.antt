-- ===== src/Groups/Tests.antt =====
-- Joining and leaving groups, of daemon/multicast.c, on examples.
use spines.Prelude.{ℕ, ◌≡◌, refl, true, false, ◌&&◌, ◌⊎◌, none, some, [], ◌==◌, if◌then◌else◌}
use spines.Prelude.Int.{ℤ, pos}
use spines.Flood.{Env}
use spines.Groups.{Session, Groups, failure, join_group, leave_group}
use spines.Groups.Updated.{WellFormed, is_group_addr, is_active_state}
use spines.Groups.Join.{join_group-WellFormed}
use spines.Groups.Leave.{leave_group-WellFormed}

abbrev here : Env
here = record {
  my_address = 1;
  now_sec = 100000;
  now_usec = 0;
  is_connected_neighbor = λ n. n == 2;
  neighbor_id = λ n. n;
}

abbrev no_groups : Groups
no_groups = record {
  tables = record {
    states = λ a d. none;
    changed = [];
    update_lts = 0;
    is_queued = false;
    discarded = [];
  };
  joined_groups = λ s m. false;
  joined_sessions = λ m. [];
}

abbrev session : Session
session = record { sess_id = 7; is_udp = true }

abbrev mcast : ℕ
mcast = 0xE0000001

no_groups-WellFormed : WellFormed here no_groups
no_groups-WellFormed m = (refl, tt, λ s. refl)

join_group-WellFormed_example :
    (r : ℤ) × (g' : Groups) × (join_group here mcast session no_groups ≡ some (r, g'))
    × WellFormed here g'
    × (((is_group_addr here mcast && true ≡ false) × (r ≡ failure) × (g' ≡ no_groups))
        ⊎ ((is_group_addr here mcast && true ≡ true)
            × (g'.joined_groups 7 mcast ≡ true)
            × (r ≡ (if is_active_state (no_groups.tables.states 1 mcast) then pos 1 else pos 2))))
join_group-WellFormed_example =
    join_group-WellFormed here mcast session no_groups no_groups-WellFormed

-- The groups after the session joined, from the witness above.
abbrev some_groups : Groups
some_groups = (join_group-WellFormed here mcast session no_groups no_groups-WellFormed).1

leave_group-WellFormed_example :
    (r : ℤ) × (g' : Groups) × (leave_group here mcast session some_groups ≡ some (r, g'))
    × WellFormed here g'
    × (((is_group_addr here mcast ≡ false) × (r ≡ failure) × (g' ≡ some_groups))
        ⊎ ((is_group_addr here mcast ≡ true) × (r ≡ pos 1) × (g'.joined_groups 7 mcast ≡ false)))
leave_group-WellFormed_example =
    leave_group-WellFormed here mcast session some_groups
      (join_group-WellFormed here mcast session no_groups no_groups-WellFormed).3
