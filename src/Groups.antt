-- ===== src/Groups.antt =====
-- The multicast groups of the local sessions and of other nodes: daemon/multicast.c.
pub mod Updated
pub mod Join
pub mod Leave
mod Tests
use spines.Prelude.{
  ℕ, zero, suc, ◌+◌, ◌-◌, ◌%◌, Bool, true, false, ◌&&◌, ◌||◌, not, Option, none, some, List, [],
  ◌∷◌, ◌==◌, if◌then◌else◌,
}
use spines.Prelude.Int.{ℤ, pos, negsuc}
use spines.Routing.Address.{is_mcast_addr, is_acast_addr}
use spines.Routing.Regime.{◌>>=◌}
use spines.Flood.{StateData, Cell, Tables, Env, ProtDef, bump, put_state, add_to_changed_states}

-- ACTIVE_GROUP is the lowest bit of the status, an `int16` that other nodes send.
abbrev pub is_active : ℤ → Bool
is_active (pos n) = n % 2 == 1
is_active (negsuc n) = n % 2 == 0

unfoldable pub activate : ℤ → ℤ
activate (pos n) = if n % 2 == 1 then pos n else pos (n + 1)
activate (negsuc n) = if n % 2 == 0 then negsuc n else negsuc (n - 1)

unfoldable pub deactivate : ℤ → ℤ
deactivate (pos n) = if n % 2 == 1 then pos (n - 1) else pos n
deactivate (negsuc n) = if n % 2 == 0 then negsuc (n + 1) else negsuc n

-- What `Create_Group` makes of a group that is not known.
unfoldable pub create_group : Env → ℕ → StateData
create_group env nid =
    let own = nid == env.my_address in
    record {
      sec = if own then env.now_sec else 0;
      usec = if own then env.now_usec else 0;
      my_sec = env.now_sec;
      my_usec = env.now_usec;
      value = pos 0;
      age = 0;
      lts = 0;
    }

unfoldable pub get_or_create_group : Env → ℕ → ℕ → Tables → StateData
get_or_create_group env nid mcast t = elim (t.states nid mcast) [
  | some g ↦ g
  | none ↦ create_group env nid
]

-- `Groups_Process_state_cell`
unfoldable pub groups_process_state_cell : Env → ℕ → Cell → Tables → Option (Bool × Tables)
groups_process_state_cell env source cell t =
    let group = record (get_or_create_group env source cell.dest t) {
      sec = cell.sec;
      usec = cell.usec;
    } in
    if source == env.my_address
    then (add_to_changed_states env true env.my_address source cell.dest (bump group) t >>= λ t'.
        some (false, t'))
    else some
        (true, put_state source cell.dest (record group { age = cell.age; value = cell.value }) t)

-- `Groups_Is_state_relevant`
abbrev pub groups_is_state_relevant : StateData → Bool
groups_is_state_relevant s = is_active s.value

-- `Groups_Prot_Def`, with the sizes of `group_state_packet` and `group_cell_packet`.
abbrev pub groups_prot_def : ProtDef
groups_prot_def = record {
  header_size = 8;
  cell_size = 16;
  is_route_change = false;
  is_groups = true;
  is_state_relevant = groups_is_state_relevant;
  process_state_cell = groups_process_state_cell;
}

-- Of a session: its identifier and whether its type is UDP_SES_TYPE.
pub record Session : Type 0 where
  pub sess_id : ℕ
  pub is_udp : Bool

-- The states of the groups, `joined_groups` of the sessions, and `joined_sessions` of the local
-- node's groups.
pub record Groups : Type 0 where
  pub tables : Tables
  pub joined_groups : ℕ → ℕ → Bool
  pub joined_sessions : ℕ → List ℕ

abbrev pub contains : List ℕ → ℕ → Bool
contains [] s = false
contains (x ∷ xs) s = if x == s then true else contains xs s

abbrev pub remove : List ℕ → ℕ → List ℕ
remove [] s = []
remove (x ∷ xs) s = if x == s then xs else x ∷ remove xs s

abbrev pub set_joined : ℕ → ℕ → Bool → Groups → Groups
set_joined ses mcast b g = record g {
  joined_groups = λ s m. if s == ses && m == mcast then b else g.joined_groups s m;
}

abbrev pub set_sessions : ℕ → List ℕ → Groups → Groups
set_sessions mcast ss g = record g {
  joined_sessions = λ m. if m == mcast then ss else g.joined_sessions m;
}

abbrev pub is_nil : List ℕ → Bool
is_nil [] = true
is_nil (x ∷ xs) = false

-- What `Join_Group` and `Leave_Group` return.
abbrev pub failure : ℤ
failure = negsuc 0

module _ (env : Env) where
  -- `Join_Group`. `none`: the program exits.
  unfoldable pub join_group : ℕ → Session → Groups → Option (ℤ × Groups)
  join_group mcast ses g =
      if not (is_mcast_addr mcast) && not (is_acast_addr mcast)
      then some (failure, g)
      else if not ses.is_udp
      then some (failure, g)
      else if g.joined_groups ses.sess_id mcast
      then some (pos 1, g)
      else (let state = get_or_create_group env env.my_address mcast g.tables in
          let joined = λ (t : Tables). set_joined ses.sess_id mcast true (
            set_sessions mcast (ses.sess_id ∷ g.joined_sessions mcast) (record g { tables = t })) in
          if is_active state.value
          then some (pos 1, joined (put_state env.my_address mcast state g.tables))
          else (add_to_changed_states env true env.my_address env.my_address mcast
                (bump (record state { value = activate state.value })) g.tables
              >>= λ t. some (pos 2, joined t)))

  -- `Leave_Group`. The state that `joined_groups` has for the group is the local node's in the table.
  unfoldable pub leave_group : ℕ → Session → Groups → Option (ℤ × Groups)
  leave_group mcast ses g =
      if not (is_mcast_addr mcast) && not (is_acast_addr mcast)
      then some (failure, g)
      else if not (g.joined_groups ses.sess_id mcast)
      then some (pos 1, g)
      else if not (contains (g.joined_sessions mcast) ses.sess_id)
      then none
      else (let left =
            set_joined ses.sess_id mcast false
              (set_sessions mcast (remove (g.joined_sessions mcast) ses.sess_id) g) in
          let state = get_or_create_group env env.my_address mcast g.tables in
          if is_nil (left.joined_sessions mcast)
          then (add_to_changed_states env true env.my_address env.my_address mcast
                (bump (record state { value = deactivate state.value })) g.tables
              >>= λ t. some (pos 1, record left { tables = t }))
          else some (pos 1, left))
