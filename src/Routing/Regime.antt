-- ===== src/Routing/Regime.antt =====
-- `Routing_Regime` of daemon/route.c: its construction from the known edges by `RR_Init`, and the
-- lookups of routes in it.
pub mod Links
pub mod Entered
pub mod Ways
pub mod Routes
pub use spines.Prelude.Options.{◌>>=◌, bind-some}
use spines.Prelude.{
  ℕ, suc, ◌+◌, ◌*◌, Option, none, some, List, [], ◌∷◌, ◌==◌, if◌then◌else◌, length, Bool, true,
  false, zero, ◌≡◌, refl, arith,
}
use spines.Prelude.Int.{ℤ, pos, negsuc, pos_part, neg_part}
use spines.Prelude.Maps.{Map, empty, put}
use spines.Routing.{Route, Edge}
use spines.Routing.Table.{at, write, blank_all, compute}

-- `groups` caches, for a multicast group and an origin, the neighbors to forward to.
pub record Regime : Type 0 where
  pub num_nodes : ℕ
  pub node_ids : List ℕ
  pub node_indexes : Map ℕ
  pub routes : List Route
  pub groups : Map (Map (List ℕ))

-- The loop over `All_Nodes_by_ID` that numbers the nodes.
unfoldable pub index_nodes : ℕ → List ℕ → Map ℕ → Map ℕ
index_nodes i [] indexes = indexes
index_nodes i (nid ∷ nodes) indexes = index_nodes (suc i) nodes (put indexes nid i)

-- `none` is the -1 of a node that has no index.
unfoldable pub get_node_index : Regime → ℕ → Option ℕ
get_node_index rr nid = rr.node_indexes nid

abbrev is_down : ℤ → Bool
is_down (pos c) = false
is_down (negsuc zero) = true
is_down (negsuc (suc c)) = false

-- `abs`
abbrev pub abs : ℤ → ℕ
abs c = pos_part c + neg_part c

-- The route of one hop over an edge.
unfoldable pub over : ℕ → Edge → Route
over this_node e = record {
  distance = pos 1;
  cost = pos (abs e.cost);
  forwarder = if e.src == this_node then some e.dst else none;
  predecessor = e.src;
}

module _ (this_node : ℕ) (indexes : Map ℕ) (n : ℕ) where
  -- The body of the loop over the edges. `none`: the program exits, as an end has no index.
  unfoldable pub fill_edge : Edge → List Route → Option (List Route)
  fill_edge e m =
      if is_down e.cost
      then some m
      else do i ← indexes e.src; j ← indexes e.dst; some (write n i j (over this_node e) m)

  -- The loop over the states of one chain, and that over the chains.
  unfoldable pub fill_chain : List Edge → List Route → Option (List Route)
  fill_chain [] m = some m
  fill_chain (e ∷ es) m = fill_edge e m >>= fill_chain es

  unfoldable pub fill_all : List (List Edge) → List Route → Option (List Route)
  fill_all [] m = some m
  fill_all (es ∷ rest) m = fill_chain es m >>= fill_all rest

-- `RR_Init`. `nodes` is `All_Nodes_by_ID` in its order, `edges` is `All_Edges` in the order of the
-- two tables, and `raw` the memory that `malloc` gives for the routes.
unfoldable pub rr_init : ℕ → List ℕ → List (List Edge) → List Route → Option Regime
rr_init this_node nodes edges raw =
    let n = length nodes in
    let indexes = index_nodes 0 nodes empty in
    do
      m ← fill_all this_node indexes n edges (blank_all n raw)
      some (record {
        num_nodes = n;
        node_ids = nodes;
        node_indexes = indexes;
        routes = compute nodes n m;
        groups = empty;
      })

unfoldable pub find_route : Regime → ℕ → ℕ → Option Route
unfolding get_node_index
find_route rr src_id dst_id = do
  i ← get_node_index rr src_id
  j ← get_node_index rr dst_id
  some (at rr.num_nodes rr.routes i j)

unfoldable pub get_next_hop : Regime → ℕ → ℕ → Option ℕ
unfolding find_route
get_next_hop rr src_id dst_id = do route ← find_route rr src_id dst_id; route.forwarder
