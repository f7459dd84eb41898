-- ===== src/Routing/Multicast.antt =====
-- `RR_Get_Mcast_Neighbors` and `RR_Discard_Mcast_Neighbors` of daemon/route.c: to which neighbors
-- the local node forwards what an origin sends to a group, and the cache of the answers.
pub mod Neighbors
pub mod Cache
mod Tests
use spines.Prelude.{
  ℕ, Bool, true, false, ◌&&◌, Option, none, some, List, [], ◌∷◌, ◌==◌, if◌then◌else◌,
}
use spines.Prelude.Int.{ℤ, ltb_ℤ}
use spines.Prelude.Maps.{Map, empty, put, erase}
use spines.Routing.Address.{is_mcast_addr, is_acast_addr}
use spines.Routing.Regime.{Regime, get_next_hop}

-- `active` is the bit ACTIVE_GROUP of `status`.
pub record GroupState : Type 0 where
  pub node_nid : ℕ
  pub active : Bool

-- What the function reads beside the regime: the address of the local node, the field `cost` of
-- each node, and `All_Groups_by_Name`, the states of each group in the order of their table.
pub record Env : Type 0 where
  pub my_address : ℕ
  pub node_cost : ℕ → ℤ
  pub groups_by_name : Map (List GroupState)

abbrev pub contains : ℕ → List ℕ → Bool
contains x [] = false
contains x (y ∷ ys) = if y == x then true else contains x ys

-- `stdhash_put` of a node under its own identifier.
abbrev pub put_node : ℕ → List ℕ → List ℕ
put_node x xs = if contains x xs then xs else x ∷ xs

-- The neighbors found so far, and the best one for an anycast group.
abbrev pub Found : Type 0
Found = List ℕ × Option ℕ

module _ (env : Env) (rr : Regime) (sender group : ℕ) where
  unfoldable pub better : Option ℕ → ℕ → Option ℕ
  better none h = some h
  better (some b) h = if ltb_ℤ (env.node_cost h) (env.node_cost b) then some h else some b

  -- The body of the loop over the states of the group; `none` is its `break`.
  unfoldable pub scan_state : GroupState → Found → Option Found
  scan_state g (neighbors, best) =
      if g.active
      then if is_acast_addr group && g.node_nid == env.my_address
        then none
        else elim (get_next_hop rr sender g.node_nid) [
          | none ↦ some (neighbors, best)
          | some h ↦
              if is_mcast_addr group
              then some (put_node h neighbors, best)
              else if is_acast_addr group
              then some (neighbors, better best h)
              else some (neighbors, best)
        ]
      else some (neighbors, best)

  unfoldable pub scan : List GroupState → Found → Found
  scan [] found = found
  scan (g ∷ gs) found = elim (scan_state g found) [ none ↦ (found.0, none) | some f ↦ scan gs f ]

  -- What follows the loop.
  unfoldable pub add_best : Found → List ℕ
  add_best (neighbors, none) = neighbors
  add_best (neighbors, some b) = if is_acast_addr group then put_node b neighbors else neighbors

  -- The answer that is built on demand.
  unfoldable pub build : List GroupState → List ℕ
  unfolding scan add_best
  build states = add_best (scan states ([], none))

-- The cached answers for a group; a group that has no table gets an empty one.
unfoldable pub sources_of : Regime → ℕ → Map (List ℕ)
sources_of rr group = elim (rr.groups group) [ none ↦ empty | some sources ↦ sources ]

-- `none` in place of the neighbors is the null pointer of an unknown group.
unfoldable pub get_mcast_neighbors : Env → Regime → ℕ → ℕ → Option (List ℕ) × Regime
unfolding sources_of
get_mcast_neighbors env rr sender group = elim (env.groups_by_name group) [
  | none ↦ (none, rr)
  | some states ↦ elim (sources_of rr group sender) [
    | some neighbors ↦
        (some neighbors, record rr { groups = put rr.groups group (sources_of rr group) })
    | none ↦
        let neighbors = build env rr sender group states in
        (
          some neighbors,
          record rr { groups = put rr.groups group (put (sources_of rr group) sender neighbors) },
        )
  ]
]

unfoldable pub discard_mcast_neighbors : Regime → ℕ → Regime
discard_mcast_neighbors rr group = record rr { groups = erase rr.groups group }
