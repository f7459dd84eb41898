-- ===== src/Flood.antt =====
-- State flooding: daemon/state_flood.c. Each node keeps a table of timed states, the edges or the
-- group memberships of all nodes, and passes on what is newer than what it has.
pub mod Receive
pub mod Send
pub mod Keep
pub mod Waiting
mod Tests
use spines.Prelude.{
  ℕ, ◌+◌, ◌<◌, Bool, true, false, ◌&&◌, ◌||◌, Option, none, some, List, [], ◌∷◌, ltb, leb, ◌==◌,
  if◌then◌else◌,
}
use spines.Prelude.Int.{ℤ}
use spines.Routing.Regime.{◌>>=◌}

-- `State_Data`, the common part of edges and group states, with the field `lts` that edges have. Its
-- keys `source_addr` and `dest_addr` are those of the table.
pub record StateData : Type 0 where
  pub sec : ℕ
  pub usec : ℕ
  pub my_sec : ℕ
  pub my_usec : ℕ
  pub value : ℤ
  -- An int16 in the code, copied from and to cells; taken not to be negative.
  pub age : ℕ
  pub lts : ℕ

-- `State_Cell`, with the field that `edge_cell_packet` adds.
pub record Cell : Type 0 where
  pub dest : ℕ
  pub sec : ℕ
  pub usec : ℕ
  pub value : ℤ
  pub age : ℕ
  pub lts : ℕ

-- `Changed_State`: a changed state by its keys, and the neighbors that need not hear of it.
pub record Changed : Type 0 where
  pub source : ℕ
  pub dest : ℕ
  pub mask : ℕ → Bool

-- The tables of a protocol: `All_States` and `Changed_States`, the latter in the order in which the
-- program walks it. Beside them `Link_State_Update_LTS`, whether `Send_State_Updates` is queued, and
-- the groups that `Discard_Mcast_Neighbors` is called for, the last one first.
pub record Tables : Type 0 where
  pub states : ℕ → ℕ → Option StateData
  pub changed : List Changed
  pub update_lts : ℕ
  pub is_queued : Bool
  pub discarded : List ℕ

-- The local address, the time, and of the nodes: which ones are connected neighbors, and the
-- `neighbor_id` of those.
pub record Env : Type 0 where
  pub my_address : ℕ
  pub now_sec : ℕ
  pub now_usec : ℕ
  pub is_connected_neighbor : ℕ → Bool
  pub neighbor_id : ℕ → ℕ

-- `Prot_Def`: what a protocol adds. `process_state_cell` takes the source, the cell and the tables,
-- and tells whether the state is to be propagated; `none` where the program exits.
pub record ProtDef : Type 0 where
  pub header_size : ℕ
  pub cell_size : ℕ
  pub is_route_change : Bool
  pub is_groups : Bool
  pub is_state_relevant : StateData → Bool
  pub process_state_cell : Env → ℕ → Cell → Tables → Option (Bool × Tables)

-- The order of two times, seconds first.
abbrev pub is_before : ℕ → ℕ → ℕ → ℕ → Bool
is_before sec usec sec' usec' = ltb sec sec' || (sec == sec' && ltb usec usec')

-- `if (++timestamp_usec >= 1000000) ...`
unfoldable pub bump : StateData → StateData
bump s =
    if leb 1000000 (s.usec + 1)
    then record s { sec = s.sec + 1; usec = 0 }
    else record s { usec = s.usec + 1 }

abbrev pub put_state : ℕ → ℕ → StateData → Tables → Tables
put_state source dest s t = record t {
  states = λ a b. if source == a && dest == b then some s else t.states a b;
}

-- `Find_Changed_State`, and the assignment to the mask of what it finds.
unfoldable pub find_changed_state : ℕ → ℕ → List Changed → Option Changed
find_changed_state source dest [] = none
find_changed_state source dest (c ∷ rest) =
    if c.source == source && c.dest == dest then some c else find_changed_state source dest rest

unfoldable pub set_mask : ℕ → ℕ → (ℕ → Bool) → List Changed → List Changed
set_mask source dest mask [] = []
set_mask source dest mask (c ∷ rest) =
    if c.source == source && c.dest == dest
    then record c { mask = mask } ∷ rest
    else c ∷ set_mask source dest mask rest

-- A new changed state is put at the end.
unfoldable pub insert_changed : ℕ → ℕ → (ℕ → Bool) → List Changed → List Changed
insert_changed source dest mask [] = record { source = source; dest = dest; mask = mask } ∷ []
insert_changed source dest mask (c ∷ rest) = c ∷ insert_changed source dest mask rest

abbrev pub is_empty_list : List Changed → Bool
is_empty_list [] = true
is_empty_list (c ∷ rest) = false

-- All neighbors need to know, except the sender who told it.
abbrev pub mask_of : Env → ℕ → ℕ → Bool
mask_of env sender n = if sender == env.my_address then false else n == env.neighbor_id sender

-- What `Add_to_changed_states` makes of the tables, for the state of the given keys, which is `s`; the
-- flag is whether the protocol is that of the groups.
unfoldable pub added : Env → Bool → ℕ → ℕ → ℕ → StateData → Tables → Tables
added env is_groups sender source dest s t =
    let touched =
      put_state source dest (record s { my_sec = env.now_sec; my_usec = env.now_usec }) t in
    let mask = mask_of env sender in
    record touched {
      changed = elim (find_changed_state source dest t.changed) [
        | none ↦ insert_changed source dest mask t.changed
        | some c ↦ set_mask source dest mask t.changed
      ];
      is_queued = t.is_queued || is_empty_list t.changed;
      discarded = if is_groups then dest ∷ t.discarded else t.discarded;
    }

-- `Add_to_changed_states`. `none`: the program exits, as the sender is no neighbor.
unfoldable pub add_to_changed_states : Env → Bool → ℕ → ℕ → ℕ → StateData → Tables → Option Tables
add_to_changed_states env is_groups sender source dest s t =
    if sender == env.my_address || env.is_connected_neighbor sender
    then some (added env is_groups sender source dest s t)
    else none
