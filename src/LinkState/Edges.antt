-- ===== src/LinkState/Edges.antt =====
-- Edges as states that are flooded: the protocol definition of daemon/link_state.c.
pub mod Process
pub mod Own
pub mod Told
pub mod Converge
mod Tests
use spines.Prelude.{
  ℕ, ◌+◌, Bool, true, false, ◌&&◌, ◌||◌, Option, none, some, leb, ◌==◌, if◌then◌else◌,
}
use spines.Prelude.Int.{ℤ, pos, negsuc, ltb_ℤ}
use spines.Routing.Regime.{◌>>=◌}
use spines.LinkState.{lts_inc, lts_cmp}
use spines.Flood.{StateData, Cell, Tables, Env, ProtDef, bump, put_state, add_to_changed_states}

-- What `Edge_Process_state_cell` has `Create_Edge` make of an edge that is not known: the state, and
-- the counter of timestamps, of which an own edge takes one.
unfoldable pub create_edge : Env → ℕ → ℕ → StateData × ℕ
create_edge env source update_lts =
    let own = source == env.my_address in
    (
      record {
        sec = if own then env.now_sec else 0;
        usec = if own then env.now_usec else 0;
        my_sec = env.now_sec;
        my_usec = env.now_usec;
        value = negsuc 0;
        age = 0;
        lts = if own then lts_inc update_lts else 0;
      },
      if own then lts_inc update_lts else update_lts,
    )

unfoldable pub get_or_create_edge : Env → ℕ → ℕ → Tables → StateData × ℕ
get_or_create_edge env source dest t = elim (t.states source dest) [
  | some edge ↦ (edge, t.update_lts)
  | none ↦ create_edge env source t.update_lts
]

-- `if (Link_State_LTS_cmp(edge_cell->lts, Link_State_Update_LTS) > 0) ...`
unfoldable pub raise_lts : ℕ → ℕ → ℕ
raise_lts cell_lts update_lts =
    if ltb_ℤ (pos 0) (lts_cmp cell_lts update_lts) then cell_lts else update_lts

-- `Edge_Is_state_relevant`
abbrev pub edge_is_state_relevant : StateData → Bool
edge_is_state_relevant s = elim s.value [ pos c ↦ true | negsuc c ↦ false ]

-- `Edge_Process_state_cell`. Others' edges are taken over. For an edge of the local node the time is
-- raised over that of the cell, so that what the local node says of it wins.
unfoldable pub edge_process_state_cell : Env → ℕ → Cell → Tables → Option (Bool × Tables)
edge_process_state_cell env source cell t =
    let (known, lts) = get_or_create_edge env source cell.dest t in
    let lts' = raise_lts cell.lts lts in
    let edge = record known { sec = cell.sec; usec = cell.usec } in
    if source == env.my_address
    then (add_to_changed_states env false env.my_address source cell.dest
          (record (bump edge) { lts = lts_inc lts' }) (record t { update_lts = lts_inc lts' })
        >>= λ t'. some (false, t'))
    else some (
      true,
      put_state source cell.dest
          (record edge { age = cell.age; value = cell.value; lts = cell.lts })
          (record t { update_lts = lts' }),
    )

-- `Edge_Prot_Def`, with the sizes of `link_state_packet` and `edge_cell_packet`.
abbrev pub edge_prot_def : ProtDef
edge_prot_def = record {
  header_size = 8;
  cell_size = 20;
  is_route_change = true;
  is_groups = false;
  is_state_relevant = edge_is_state_relevant;
  process_state_cell = edge_process_state_cell;
}
