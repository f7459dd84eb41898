-- ===== src/Routing/Multicast/Tests.antt =====
-- Runs of the multicast forwarding and of the dissemination of daemon/route.c.
use spines.Prelude.{ℕ, ◌≡◌, refl, true, false, none, some, List, [], ◌∷◌, ◌==◌, if◌then◌else◌}
use spines.Prelude.Int.{pos, negsuc, ◌≤ℤ◌}
use spines.Prelude.Maps.{empty, put}
use spines.Routing.{Route}
use spines.Routing.Address.{is_mcast_addr, is_acast_addr}
use spines.Routing.Regime.{Regime, get_next_hop, find_route, get_node_index}
use spines.Routing.Multicast.{
  Env, GroupState, contains, build, scan, scan_state, better, add_best, get_mcast_neighbors,
  sources_of,
}
use spines.Routing.Multicast.Neighbors.{reaches, is_member, build-mcast, build-acast}
use spines.Routing.Multicast.Cache.{Cached, IsFresh, get_mcast_neighbors-IsFresh}

abbrev no_route : Route
no_route = record { distance = negsuc 0; cost = negsuc 0; forwarder = none; predecessor = 0 }

abbrev route_to : ℕ → Route
route_to h = record { distance = pos 1; cost = pos 1; forwarder = some h; predecessor = 10 }

-- The node 10 with its neighbors 20 and 30.
abbrev regime : Regime
regime = record {
  num_nodes = 3;
  node_ids = 10 ∷ 20 ∷ 30 ∷ [];
  node_indexes = put (put (put empty 10 0) 20 1) 30 2;
  routes = no_route ∷ route_to 20 ∷ route_to 30 ∷ [];
  groups = empty;
}

abbrev members : List GroupState
members =
    record { node_nid = 20; active = true }
    ∷ record { node_nid = 30; active = true }
    ∷ record { node_nid = 10; active = false }
    ∷ []

abbrev mcast : ℕ
mcast = 0xE0000001

abbrev acast : ℕ
acast = 0xF0000001

-- The neighbor 30 is the cheaper one.
abbrev env : Env
env = record {
  my_address = 10;
  node_cost = λ n. if n == 30 then pos 1 else pos 4;
  groups_by_name = put (put empty mcast members) acast members;
}

both_build :
    (build env regime 10 mcast members ≡ 30 ∷ 20 ∷ [])
    × (build env regime 10 acast members ≡ 30 ∷ [])
unfolding build scan scan_state better add_best get_next_hop find_route get_node_index is_mcast_addr
    is_acast_addr
both_build = (refl, refl)

regime-IsFresh : IsFresh env regime
unfolding sources_of
regime-IsFresh = record { cached = λ group sender l e. cc }

build-mcast_example :
    contains 30 (build env regime 10 mcast members) ≡ reaches env regime 10 mcast 30 members
unfolding is_mcast_addr
build-mcast_example = build-mcast env regime 10 mcast 30 members refl

abbrev me_too : List GroupState
me_too = record { node_nid = 10; active = true } ∷ []

build-acast_example :
    (is_member env regime 10 acast members ≡ true → build env regime 10 acast members ≡ [])
    × (is_member env regime 10 acast members ≡ false
        → (((x : ℕ) → reaches env regime 10 acast x members ≡ false)
            → build env regime 10 acast members ≡ [])
          × ((x : ℕ)
              → reaches env regime 10 acast x members ≡ true
              → (b : ℕ) × (build env regime 10 acast members ≡ b ∷ [])
                × (reaches env regime 10 acast b members ≡ true)
                × (env.node_cost b ≤ℤ env.node_cost x)))
unfolding is_acast_addr
build-acast_example = build-acast env regime 10 acast refl members

get_mcast_neighbors-IsFresh_example :
    ((states : List GroupState)
      → env.groups_by_name mcast ≡ some states
      → ((get_mcast_neighbors env regime 10 mcast).0 ≡ some (build env regime 10 mcast states))
        × Cached regime 10 mcast
            (build env regime 10 mcast states)
            (get_mcast_neighbors env regime 10 mcast).1)
    × (env.groups_by_name mcast ≡ none → get_mcast_neighbors env regime 10 mcast ≡ (none, regime))
    × IsFresh env (get_mcast_neighbors env regime 10 mcast).1
get_mcast_neighbors-IsFresh_example = get_mcast_neighbors-IsFresh env regime 10 mcast regime-IsFresh
