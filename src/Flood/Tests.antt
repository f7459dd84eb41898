-- ===== src/Flood/Tests.antt =====
-- Flooding, of daemon/state_flood.c, on examples.
use spines.Prelude.{
  ℕ, ◌+◌, ◌*◌, ◌≤◌, ◌≡◌, refl, true, false, ◌||◌, ◌⊎◌, Option, none, some, List, [], ◌∷◌, length,
  ◌++◌, ◌==◌, if◌then◌else◌, arith, map,
}
use spines.Prelude.Int.{pos}
use spines.Flood.{StateData, Cell, Changed, Tables, Env, added}
use spines.Flood.Receive.{is_news}
use spines.Flood.Receive.Mask.{WaitsForOthers, process_cell-WaitsForOthers}
use spines.Flood.Send.{
  StateMessage, mark, pack, send_source, send_sources, net_send_state_updates, send_state_updates,
}
use spines.Flood.Send.All.{all_cells, net_send_state_all, net_send_state_all-exact}
use spines.Flood.Send.Conserve.{waiting}
use spines.Flood.Send.Packed.{sent_in}
use spines.Flood.Send.Exactly.{net_send_state_updates-exact}
use spines.Flood.Send.Neighbors.{cells_to, is_member}
use spines.Flood.Send.Rounds.{all_to_send, calls, calls-some, send_state_updates-emptied}
use spines.Flood.Send.Fit.{AllFit, count_sent}
use spines.Flood.Send.Sized.{to_send, net_send_state_updates-Sends}
use spines.Prelude.Options.{Returns}
use spines.Flood.Keep.{
  Indexes, Chains, remove_state, try_remove_node, collect_state, collect_chain, collect_chains,
  state_garbage_collect,
}
use spines.Flood.Keep.Sound.{IsSound}
use spines.Flood.Keep.Collect.{IsOld, state_garbage_collect-kept}
use spines.LinkState.Edges.{edge_prot_def}
use spines.LinkState.Edges.Process.{process_cell-news, taken, taken_in}

abbrev here : Env
here = record {
  my_address = 1;
  now_sec = 100000;
  now_usec = 0;
  is_connected_neighbor = λ n. n == 2 || n == 3;
  neighbor_id = λ n. n;
}

abbrev state_at : ℕ → StateData
state_at my_sec = record {
  sec = 10;
  usec = 0;
  my_sec = my_sec;
  my_usec = 0;
  value = pos 3;
  age = 0;
  lts = 1;
}

abbrev told_cell : Cell
told_cell = record { dest = 6; sec = 10; usec = 0; value = pos 3; age = 0; lts = 1 }

-- The local node's edge to 2, and that of 5 to 6.
abbrev some_states : ℕ → ℕ → Option StateData
some_states a d =
    if a == 1
    then if d == 2 then some (state_at 0) else none
    else if a == 5
    then if d == 6 then some (state_at 99990) else none
    else none

abbrev waiting_changes : List Changed
waiting_changes =
    record { source = 5; dest = 6; mask = λ n. n == 2 }
    ∷ record { source = 1; dest = 2; mask = λ n. false }
    ∷ []

abbrev some_tables : Tables
some_tables = record {
  states = some_states;
  changed = waiting_changes;
  update_lts = 0;
  is_queued = true;
  discarded = [];
}

abbrev no_tables : Tables
no_tables = record {
  states = λ a d. none;
  changed = [];
  update_lts = 0;
  is_queued = false;
  discarded = [];
}

abbrev state_of : ℕ → ℕ → StateData
state_of a d = state_at 99990

-- Neighbor 3 needs both changed states, in one message of two state packets.
sends_both :
    map (λ m. m.bytes) (net_send_state_updates here edge_prot_def state_of 3 waiting_changes).2
    ≡ 56 ∷ []
unfolding net_send_state_updates send_sources send_source pack
sends_both = refl

net_send_state_updates-exact_example :
    (let (all, cs', messages) =
        net_send_state_updates here edge_prot_def state_of 3 waiting_changes in
      ((a : ℕ)
        → sent_in a messages ++ waiting here edge_prot_def state_of 3 a cs'
          ≡ waiting here edge_prot_def state_of 3 a waiting_changes)
      × (map (mark here edge_prot_def state_of 3) cs'
          ≡ map (mark here edge_prot_def state_of 3) waiting_changes)
      × (all ≡ true → (a : ℕ) → waiting here edge_prot_def state_of 3 a cs' ≡ []))
net_send_state_updates-exact_example =
    net_send_state_updates-exact here edge_prot_def state_of 3 waiting_changes (omega arith)
      (omega arith)

net_send_state_updates-Sends_example :
    (let (all, cs', messages) =
        net_send_state_updates here edge_prot_def state_of 3 waiting_changes in
      AllFit edge_prot_def messages
      × (length messages ≤ 6)
      × (all ≡ false → length messages ≡ 6)
      × (count_sent messages + to_send 3 cs' ≡ to_send 3 waiting_changes))
net_send_state_updates-Sends_example =
    net_send_state_updates-Sends here edge_prot_def state_of (omega arith) (omega arith) 3
      waiting_changes

calls-some_example :
    (k : ℕ) × (sent : List (ℕ × List StateMessage)) × (calls here edge_prot_def state_of 10
        (2 ∷ 3 ∷ [])
        waiting_changes
      ≡ some (k, [], sent))
    × (k * 6 ≤ all_to_send (2 ∷ 3 ∷ []) waiting_changes + 6)
    × ((n a : ℕ)
        → is_member n (2 ∷ 3 ∷ []) ≡ true
        → cells_to n a sent ≡ waiting here edge_prot_def state_of n a waiting_changes)
calls-some_example =
    calls-some here edge_prot_def state_of (omega arith) (omega arith) 10 (2 ∷ 3 ∷ [])
      waiting_changes (omega arith)

send_state_updates-emptied_example :
    (let (again, left, sent) =
        send_state_updates here edge_prot_def state_of (2 ∷ 3 ∷ []) waiting_changes in
      ((again ≡ false)
        × (left ≡ [])
        × ((n a : ℕ)
            → is_member n (2 ∷ 3 ∷ []) ≡ true
            → cells_to n a sent ≡ waiting here edge_prot_def state_of n a waiting_changes))
      ⊎ ((again ≡ true)
          × ((n a : ℕ)
              → cells_to n a sent ++ waiting here edge_prot_def state_of n a left
                ≡ waiting here edge_prot_def state_of n a waiting_changes)))
send_state_updates-emptied_example =
    send_state_updates-emptied here edge_prot_def state_of (omega arith) (omega arith) (2 ∷ 3 ∷ [])
      waiting_changes

abbrev chains : List (ℕ × List (ℕ × StateData))
chains = (5, (6, state_at 99990) ∷ (7, state_at 5) ∷ []) ∷ (1, (2, state_at 0) ∷ []) ∷ []

net_send_state_all-exact_example :
    sent_in 5 (net_send_state_all here edge_prot_def chains) ≡ all_cells here edge_prot_def 5 chains
net_send_state_all-exact_example =
    net_send_state_all-exact here edge_prot_def (omega arith) chains 5

-- The tables after neighbor 2 told of an edge that was not known.
abbrev news_tables : Tables
news_tables =
    added here false 2 5 6 (taken here 2 5 told_cell no_tables)
      (taken_in here 2 5 told_cell no_tables)

process_cell-WaitsForOthers_example :
    WaitsForOthers here edge_prot_def 2 5 told_cell no_tables news_tables
unfolding is_news
process_cell-WaitsForOthers_example =
    process_cell-WaitsForOthers here edge_prot_def 2 5 told_cell no_tables news_tables
      (ground arith) (process_cell-news here 2 5 told_cell no_tables refl (ground arith) refl)

abbrev chains_of_states : Chains
chains_of_states = (1, 2 ∷ []) ∷ (5, 6 ∷ []) ∷ []

abbrev indexes : Indexes
indexes = record {
  states = some_states;
  has_chain = λ a. a == 1 || a == 5;
  by_dest = some (λ d a. if a == 1 then d == 2 else if a == 5 then d == 6 else false);
  nodes = λ n. n == 2 || n == 6;
}

indexes-IsSound : IsSound here true chains_of_states indexes
indexes-IsSound = record {
  listed = λ a d t. ground arith;
  chained = λ a d t. ground arith;
  agrees = λ a d. ground arith;
  past = λ a d s e. ground arith;
  known = λ on a d t. ground arith;
}

-- The old edge of the local node goes, and with it the node that it leads to.
collects_one : Returns (state_garbage_collect here true chains_of_states indexes) (λ ix.
    (ix.states 1 2 ≡ none) × (ix.nodes 2 ≡ false) × (ix.has_chain 1 ≡ false) × (ix.nodes 6 ≡ true))
unfolding state_garbage_collect collect_chains collect_chain collect_state remove_state
    try_remove_node
collects_one = (refl, refl, refl, refl)

state_garbage_collect-kept_example :
    Returns (state_garbage_collect here true chains_of_states indexes) (λ ix'.
      IsSound here true chains_of_states ix'
      × ((a d : ℕ) (s : StateData)
          → some_states a d ≡ some s
          → (IsOld here true chains_of_states s → ix'.states a d ≡ none)
            × (¬ IsOld here true chains_of_states s → ix'.states a d ≡ some s))
      × ((a d : ℕ) → some_states a d ≡ none → ix'.states a d ≡ none))
state_garbage_collect-kept_example =
    state_garbage_collect-kept here true chains_of_states indexes indexes-IsSound
