-- ===== src/Flood/Send.antt =====
-- `Net_Send_State_Updates` and `Send_State_Updates` of daemon/state_flood.c: the changed states are
-- packed into messages for the neighbors that need them.
pub mod Packed
pub mod Conserve
pub mod Fit
pub mod Exactly
pub mod Sized
pub mod Rounds
pub mod Neighbors
pub mod All
use spines.Prelude.{
  ℕ, zero, suc, ◌+◌, ◌-◌, ◌/◌, ◌%◌, ◌^◌, Bool, true, false, ◌&&◌, not, List, [], ◌∷◌, ◌++◌, ltb,
  leb, ◌==◌, if◌then◌else◌,
}
use spines.Flood.{StateData, Cell, Changed, Env, ProtDef}

-- A message, and what is being packed: the bytes of the buffer and its state packets, then what
-- `Reliable_Send_Msg` was called for, the last message first, with the number of calls.
pub record StateMessage : Type 0 where
  pub bytes : ℕ
  pub packets : List (ℕ × List Cell)

pub record Packing : Type 0 where
  pub pack_bytes : ℕ
  pub buff : List (ℕ × List Cell)
  pub sent : List StateMessage
  pub pkt_cnt : ℕ

-- `sizeof(packet_body) - sizeof(reliable_tail)`
abbrev pub room : ℕ
room = 1472 - 20 - 8

abbrev pub flush : Packing → Packing
flush p = record {
  pack_bytes = 0;
  buff = [];
  sent = record { bytes = p.pack_bytes; packets = p.buff } ∷ p.sent;
  pkt_cnt = p.pkt_cnt + 1;
}

-- The last state packet of the buffer is the one that is being filled.
abbrev pub add_cell : Cell → List (ℕ × List Cell) → List (ℕ × List Cell)
add_cell cell [] = []
add_cell cell ((source, cells) ∷ []) = (source, cells ++ (cell ∷ [])) ∷ []
add_cell cell (packet ∷ next ∷ rest) = packet ∷ add_cell cell (next ∷ rest)

module _ (prot : ProtDef) where
  abbrev pub start_packet : ℕ → Packing → Packing
  start_packet source p = record p {
    pack_bytes = p.pack_bytes + prot.header_size;
    buff = p.buff ++ ((source, []) ∷ []);
  }

  abbrev pub put_cell : Cell → Packing → Packing
  put_cell cell p = record p {
    pack_bytes = p.pack_bytes + prot.cell_size;
    buff = add_cell cell p.buff;
  }

  -- Whether the buffer is too full for another cell, which begins a state packet or not.
  abbrev pub is_full : Bool → Packing → Bool
  is_full true p = ltb (room - prot.header_size - prot.cell_size) p.pack_bytes
  is_full false p = ltb (room - prot.cell_size) p.pack_bytes

module _ (env : Env) where
  -- The cell for a state, whose age grows by one for every ten seconds.
  abbrev pub cell_of : ℕ → StateData → Cell
  cell_of dest s = record {
    dest = dest;
    sec = s.sec;
    usec = s.usec;
    value = s.value;
    age = (s.age + (env.now_sec - s.my_sec) / 10) % 2 ^ 16;
    lts = s.lts;
  }

-- `state_of` is what the `state` of a changed state points to, `neighbor_id` the neighbor.
module _ (env : Env) (prot : ProtDef) (state_of : ℕ → ℕ → StateData) (neighbor_id : ℕ) where
  -- A cell is packed, where `is_first` tells whether it is the first of its source, unless that would
  -- take more than five messages before it.
  unfoldable pub pack : Bool → ℕ → Cell → Packing → Bool × Packing
  pack is_first source cell p =
      if is_full prot is_first p
      then if ltb 5 (p.pkt_cnt + 1)
        then (false, flush p)
        else (true, put_cell prot cell (start_packet prot source (flush p)))
      else if is_first
      then (true, put_cell prot cell (start_packet prot source p))
      else (true, put_cell prot cell p)

  abbrev pub is_needed : ℕ → Changed → Bool
  is_needed source c = c.source == source && not (c.mask neighbor_id)

  abbrev pub mark : Changed → Changed
  mark c = record c { mask = λ n. if n == neighbor_id then true else c.mask n }

  -- The changed states of a source: whether all of them were packed, the changed states as they are
  -- marked then, and the packing.
  unfoldable pub send_source : Bool → ℕ → List Changed → Packing → Bool × List Changed × Packing
  send_source is_first source [] p = (true, [], p)
  send_source is_first source (c ∷ cs) p = elim (is_needed source c) [
    | false ↦ let (all, cs', p') = send_source is_first source cs p in (all, c ∷ cs', p')
    | true ↦
        let (fits, q) = pack is_first source (cell_of env c.dest (state_of c.source c.dest)) p in
        elim fits [
          | false ↦ (false, c ∷ cs, q)
          | true ↦ let (all, cs', p') = send_source false source cs q in (all, mark c ∷ cs', p')
        ]
  ]

  -- `done_srcs`
  abbrev pub contains : List ℕ → ℕ → Bool
  contains [] source = false
  contains (x ∷ xs) source = if x == source then true else contains xs source

  -- The loop over the changed states, for their sources.
  unfoldable pub send_sources :
      List Changed → List ℕ → List Changed → Packing → Bool × List Changed × Packing
  send_sources [] done_srcs cs p = (true, cs, p)
  send_sources (c ∷ rest) done_srcs cs p = elim (contains done_srcs c.source) [
    | true ↦ send_sources rest done_srcs cs p
    | false ↦
        let (all, cs', p') = send_source true c.source cs p in
        elim all [
          | false ↦ (false, cs', p')
          | true ↦ send_sources rest (c.source ∷ done_srcs) cs' p'
        ]
  ]

  abbrev pub new_packing : Packing
  new_packing = record { pack_bytes = 0; buff = []; sent = []; pkt_cnt = 0 }

  -- What is left in the buffer is sent, unless the work stopped early.
  abbrev pub finish : Bool → List Changed → Packing → Bool × List Changed × List StateMessage
  finish false cs p = (false, cs, p.sent)
  finish true cs p = if p.pack_bytes == 0 then (true, cs, p.sent) else (true, cs, (flush p).sent)

  -- `Net_Send_State_Updates`: whether everything was sent, the changed states, and the messages.
  unfoldable pub net_send_state_updates : List Changed → Bool × List Changed × List StateMessage
  net_send_state_updates cs =
      let (all, cs', p) = send_sources cs [] cs new_packing in finish all cs' p

-- `Send_State_Updates`, for the neighbors in the order of their ids that are connected: whether it is
-- queued again, the changed states that are left, and what is sent to each.
module _ (env : Env) (prot : ProtDef) (state_of : ℕ → ℕ → StateData) where
  unfoldable pub send_to_each :
      List ℕ → List Changed → Bool × List Changed × List (ℕ × List StateMessage)
  send_to_each [] cs = (true, cs, [])
  send_to_each (n ∷ ns) cs =
      let (all, cs', messages) = net_send_state_updates env prot state_of n cs in
      let (all', cs'', sent) = send_to_each ns cs' in (all && all', cs'', (n, messages) ∷ sent)

  unfoldable pub send_state_updates :
      List ℕ → List Changed → Bool × List Changed × List (ℕ × List StateMessage)
  send_state_updates connected cs =
      let (all, cs', sent) = send_to_each connected cs in
      if all then (false, [], sent) else (true, cs', sent)
