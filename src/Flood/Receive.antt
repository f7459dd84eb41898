-- ===== src/Flood/Receive.antt =====
-- `Process_state_packet` of daemon/state_flood.c: what is done with the cells that a neighbor sends.
pub mod Mask
use spines.Prelude.{
  ℕ, ◌+◌, Bool, true, false, ◌&&◌, ◌||◌, Option, none, some, List, [], ◌∷◌, ltb, leb, ◌==◌,
  if◌then◌else◌,
}
use spines.Routing.Regime.{◌>>=◌}
use spines.Flood.{
  StateData, Cell, Changed, Tables, Env, ProtDef, is_before, find_changed_state, set_mask,
  add_to_changed_states,
}

-- Whether a cell is newer than what the table has.
unfoldable pub is_news : Option StateData → Cell → Bool
is_news none cell = true
is_news (some s) cell = is_before s.sec s.usec cell.sec cell.usec

abbrev pub is_same_time : Option StateData → Cell → Bool
is_same_time none cell = false
is_same_time (some s) cell = s.sec == cell.sec && s.usec == cell.usec

-- A neighbor that sent what is known already needs not hear of it.
unfoldable pub mark_sender : Env → ℕ → ℕ → ℕ → Tables → Tables
mark_sender env sender source dest t = elim (find_changed_state source dest t.changed) [
  | none ↦ t
  | some c ↦ record t {
    changed =
        set_mask source dest (λ n. if n == env.neighbor_id sender then true else c.mask n)
          t.changed;
  }
]

module _ (env : Env) (prot : ProtDef) (sender : ℕ) where
  -- The body of the loop over the cells of a source: whether something changed, and the tables.
  -- `none`: the program exits.
  unfoldable pub process_cell : ℕ → Cell → Tables → Option (Bool × Tables)
  process_cell source cell t =
      let known = t.states source cell.dest in
      if is_news known cell
      then (prot.process_state_cell env source cell t >>= λ processed.
          if processed.0
          then elim (processed.1.states source cell.dest) [
            | none ↦ none
            | some s ↦
                add_to_changed_states env prot.is_groups sender source cell.dest s processed.1
                >>= λ t'. some (true, t')
          ]
          else some processed)
      else if is_same_time known cell
      then some (false, mark_sender env sender source cell.dest t)
      else some (false, t)

  -- The cells of one state packet, and the state packets of a message, whose length is that of the
  -- cells that it announces.
  unfoldable pub process_cells : ℕ → List Cell → Tables → Option (Bool × Tables)
  process_cells source [] t = some (false, t)
  process_cells source (cell ∷ rest) t = process_cell source cell t >>= λ here.
      process_cells source rest here.1 >>= λ later. some (here.0 || later.0, later.1)

  unfoldable pub process_packets : List (ℕ × List Cell) → Tables → Option (Bool × Tables)
  process_packets [] t = some (false, t)
  process_packets ((source, cells) ∷ rest) t = process_cells source cells t >>= λ here.
      process_packets rest here.1 >>= λ later. some (here.0 || later.0, later.1)

  -- The data part of `Process_state_packet`; the flag of its result is whether routes are scheduled.
  unfoldable pub process_state_packet : List (ℕ × List Cell) → Tables → Option (Bool × Tables)
  process_state_packet packets t =
      process_packets packets t >>= λ done. some (done.0 && prot.is_route_change, done.1)
