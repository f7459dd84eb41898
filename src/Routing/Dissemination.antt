-- ===== src/Routing/Dissemination.antt =====
-- `Source_Based_Disseminate` of daemon/route.c: packets that carry a mask of the edges that they
-- may take, forwarded once each.
pub mod Once
mod Tests
use spines.Prelude.{
  ℕ, zero, suc, ◌+◌, ◌%◌, Bool, true, false, ◌&&◌, ◌||◌, not, Option, none, some, List, [], ◌∷◌,
  ltb, ◌==◌, if◌then◌else◌,
}
use spines.Prelude.Maps.{Map}
use spines.MultiPath.Mask.{Mask, neighbor_on_path}

-- `seq_pair`
pub record SeqPair : Type 0 where
  pub seq : ℕ
  pub incarnation : ℕ

-- `Source_Seq_Hist`, by source and slot.
abbrev pub History : Type 0
History = ℕ → ℕ → SeqPair

-- SOURCE_HIST_SIZE
abbrev pub source_hist_size : ℕ
source_hist_size = 100000

-- The fields of the headers that are read, the mask, and the eight bytes of the stamped path.
pub record Packet : Type 0 where
  pub source : ℕ
  pub dest : ℕ
  pub source_seq : ℕ
  pub source_incarnation : ℕ
  pub mask : Mask
  pub path : List ℕ

-- `neighbors` are the addresses of the neighbors 1 to `Degree[My_ID]`, each with its mask;
-- `is_known` tells which addresses are in `All_Nodes`.
pub record Env : Type 0 where
  pub my_address : ℕ
  pub my_id : ℕ
  pub lookup_addr_to_id : Map ℕ
  pub neighbors : List (ℕ × Mask)
  pub is_known : ℕ → Bool
  pub path_stamp_debug : Bool

-- The first zero byte of the path becomes the identifier of the local node.
unfoldable pub stamp_path : ℕ → List ℕ → List ℕ
stamp_path my_id [] = []
stamp_path my_id (b ∷ path) = if b == 0 then (my_id % 256) ∷ path else b ∷ stamp_path my_id path

-- The tests that drop a packet: seen before, or older than what the slot holds.
unfoldable pub is_duplicate : SeqPair → Packet → Bool
is_duplicate prev p = prev.seq == p.source_seq && prev.incarnation == p.source_incarnation

unfoldable pub is_very_old : SeqPair → Packet → Bool
is_very_old prev p =
    ltb p.source_incarnation prev.incarnation
    || (ltb p.source_seq prev.seq && prev.incarnation == p.source_incarnation)

abbrev pub slot : Packet → ℕ
slot p = p.source_seq % source_hist_size

abbrev pub record_seq : History → ℕ → Packet → History
record_seq hist src_id p s i =
    if (src_id == s) && (slot p == i)
    then record { seq = p.source_seq; incarnation = p.source_incarnation }
    else hist s i

module _ (env : Env) where
  -- The loop over the neighbors: those that `Forward_Data` is called for, in order.
  unfoldable pub targets : ℕ → Packet → List (ℕ × Mask) → List ℕ
  targets last_hop p [] = []
  targets last_hop p ((addr, mask) ∷ ngbrs) =
      let rest = targets last_hop p ngbrs in
      if (addr == last_hop)
        || (addr == p.source)
        || (env.my_address == p.dest)
        || not (neighbor_on_path p.mask mask)
      then rest
      else if env.is_known addr
      then addr ∷ rest
      else rest

  -- What the call gives: `none` for NO_ROUTE, else the packet as it is forwarded and to whom.
  -- `last_hop` is none where `src_link` is null.
  unfoldable pub source_based_disseminate :
      History → Option ℕ → Packet → Option (Packet × List ℕ) × History
  source_based_disseminate hist last_hop p = elim (env.lookup_addr_to_id p.source) [
    | none ↦ (none, hist)
    | some src_id ↦
        let prev = hist src_id (slot p) in
        if is_duplicate prev p then (none, hist) else if is_very_old prev p then (none, hist) else (
          some (
            (if env.path_stamp_debug then record p { path = stamp_path env.my_id p.path } else p),
            targets (elim last_hop [ none ↦ env.my_address | some a ↦ a ]) p env.neighbors,
          ),
          record_seq hist src_id p,
        )
  ]

  -- The history after packets that arrive one after another, each from its last hop.
  unfoldable pub receive : List (Option ℕ × Packet) → History → History
  receive [] hist = hist
  receive ((last_hop, p) ∷ rest) hist = receive rest (source_based_disseminate hist last_hop p).1
