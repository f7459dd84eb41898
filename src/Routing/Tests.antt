-- ===== src/Routing/Tests.antt =====
-- Runs of the routing of daemon/route.c on small networks.
use spines.Prelude.{
  ℕ, zero, suc, ◌+◌, ◌≤◌, ◌≡◌, ◌↔◌, refl, none, some, List, [], ◌∷◌, arith, replicate,
}
use mathlib.Core.List.{flatten}
use spines.Prelude.Int.{pos, negsuc}
use spines.Prelude.Maps.{empty}
use spines.Routing.{Route, Edge}
use spines.Routing.Table.{outside, compute, blank_all, blank}
use spines.Prelude.Loops.{for_from}
use spines.Routing.Regime.{
  Regime, rr_init, fill_edge, fill_chain, fill_all, find_route, get_next_hop, abs, index_nodes,
}
use spines.Routing.Regime.Links.{IsDistinct}
use spines.Routing.Regime.Entered.{last_edge}
use spines.Routing.Regime.Ways.{Way, NoLoops}
use spines.Routing.Regime.Routes.{IsInput, rr_init-find_route, rr_init-get_next_hop}

-- Three nodes: the way from 10 over 20 to 30 is cheaper than the edge from 10 to 30.
abbrev nodes : List ℕ
nodes = 10 ∷ 20 ∷ 30 ∷ []

abbrev chains : List (List Edge)
chains =
    (record { src = 10; dst = 20; cost = pos 2 } ∷ record { src = 10; dst = 30; cost = pos 9 } ∷ [])
    ∷ (record { src = 20; dst = 30; cost = pos 3 } ∷ [])
    ∷ []

abbrev memory : List Route
memory = replicate 9 outside

abbrev regime : Regime
regime = record {
  num_nodes = 3;
  node_ids = nodes;
  node_indexes = index_nodes 0 nodes empty;
  routes = elim (fill_all 10 (index_nodes 0 nodes empty) 3 chains (blank_all 3 memory)) [
    | none ↦ []
    | some m ↦ compute nodes 3 m
  ];
  groups = empty;
}

distinct : IsDistinct nodes
distinct zero zero p q e = refl
distinct zero (suc zero) p q e = absurd (omega arith)
distinct zero (suc (suc zero)) p q e = absurd (omega arith)
distinct zero (suc (suc (suc j))) p q e = absurd (omega arith)
distinct (suc zero) zero p q e = absurd (omega arith)
distinct (suc zero) (suc zero) p q e = refl
distinct (suc zero) (suc (suc zero)) p q e = absurd (omega arith)
distinct (suc zero) (suc (suc (suc j))) p q e = absurd (omega arith)
distinct (suc (suc zero)) zero p q e = absurd (omega arith)
distinct (suc (suc zero)) (suc zero) p q e = absurd (omega arith)
distinct (suc (suc zero)) (suc (suc zero)) p q e = refl
distinct (suc (suc zero)) (suc (suc (suc j))) p q e = absurd (omega arith)
distinct (suc (suc (suc i))) j p q e = absurd (omega arith)

loops : NoLoops (flatten chains)
unfolding last_edge flatten
loops s = ground arith

input : IsInput nodes chains memory
input = record { distinct = distinct; loops = loops; room = refl }

ran : rr_init 10 nodes chains memory ≡ some regime
unfolding rr_init index_nodes fill_all fill_chain fill_edge blank_all blank for_from
ran = refl

-- The known edges of the network.
abbrev edges : List Edge
edges = flatten chains

rr_init-find_route_example :
    (r : Route) × (find_route regime 10 30 ≡ some r)
    × ((c : ℕ) → (r.cost ≡ pos c) ↔ (Way edges 30 10 c × ((b : ℕ) → Way edges 30 10 b → c ≤ b)))
    × ((r.cost ≡ negsuc 0) ↔ ((c : ℕ) → ¬ Way edges 30 10 c))
rr_init-find_route_example =
    rr_init-find_route 10 nodes chains memory input ran 0 2 (omega arith) (omega arith)

rr_init-get_next_hop_example :
    ((h : ℕ)
      → get_next_hop regime 10 30 ≡ some h
      → (e : Edge) × (b : ℕ) × (last_edge edges 10 h ≡ some e)
        × Way edges 30 h b
        × ((c : ℕ) → Way edges 30 10 c → abs e.cost + b ≤ c))
    × (get_next_hop regime 10 30 ≡ none ↔ ((c : ℕ) → ¬ Way edges 30 10 c))
rr_init-get_next_hop_example =
    rr_init-get_next_hop 10 nodes chains memory input ran 0 2 (omega arith) refl (omega arith)
      (omega arith)
