-- ===== src/Routing/Delivery/Tests.antt =====
-- Runs of `Deliver_and_Forward_Data` of daemon/route.c.
use spines.Prelude.{
  ◌≤◌, ◌&&◌, ltb, ℕ, ◌-◌, ◌<◌, ◌≡◌, ◌≢◌, ◌⊎◌, inl, inr, refl, true, false, none, some, List, [],
  ◌∷◌, ◌==◌, arith,
}
use spines.Prelude.Int.{pos}
use spines.Prelude.Maps.{empty, put}
use spines.Routing.Address.{is_node_addr, is_mcast_addr, is_acast_addr}
use spines.Routing.Regime.{Regime, get_next_hop, find_route, get_node_index}
use spines.Routing.Multicast
use spines.Routing.Multicast.{GroupState, get_mcast_neighbors}
use spines.Routing.Delivery.{
  udp_link, min_weight_routing, it_priority_routing, Header, Env, Outcome, deliver, site_multicast,
  converted, disseminated, deliver_and_forward_data,
}
use spines.Routing.Delivery.Laws.{connected, NotSelf, unicast_lem}
use spines.Routing.Delivery.Groups.{Disseminated, multicast_lem, disseminated_lem}

-- The node 10 with its neighbor 20.
abbrev regime : Regime
regime = record {
  num_nodes = 2;
  node_ids = 10 ∷ 20 ∷ [];
  node_indexes = put (put empty 10 0) 20 1;
  routes =
      record { distance = pos 0; cost = pos 0; forwarder = none; predecessor = 0 }
      ∷ record { distance = pos 1; cost = pos 1; forwarder = some 20; predecessor = 10 }
      ∷ [];
  groups = empty;
}

abbrev groups : Multicast.Env
groups = record { my_address = 10; node_cost = λ n. pos 1; groups_by_name = empty }

abbrev env : Env
env = record {
  my_address = 10;
  groups = groups;
  forward_udp_data = λ n. some 0;
  forward_rel_udp_data = λ n. some 0;
  forward_rt_udp_data = λ n. some 0;
  forward_intru_tol_data = λ n. some 0;
  disseminate = λ s. some 0;
  is_connected_neighbor = λ n. true;
  is_active_member = λ g. g == 0xFEFF0007;
  deliver_udp_data = some 2;
}

abbrev header : Header
header = record { source = 10; dest = 20; dest_port = 0xFF07; ttl = 5 }

next_hop : get_next_hop regime 10 20 ≡ some 20
unfolding get_next_hop find_route get_node_index
next_hop = refl

dest-is_node_addr : is_node_addr 20 ≡ true
unfolding is_node_addr is_mcast_addr is_acast_addr
dest-is_node_addr = refl

-- A site multicast packet of the local node is delivered to its group.
site :
    (o : Outcome) × (deliver_and_forward_data env it_priority_routing udp_link
        (record header { dest = 10 })
        regime
      ≡ some o)
    × (o.header.dest ≡ 0xFEFF0007)
    × (o.is_delivered ≡ true)
unfolding deliver_and_forward_data disseminated deliver site_multicast converted is_node_addr
    is_mcast_addr is_acast_addr
site = (_, refl, refl, refl)

unicast_lem_example :
    (o : Outcome) × (deliver_and_forward_data env min_weight_routing udp_link header regime
      ≡ some o)
    × (o.regime ≡ regime)
    × (header.ttl ≡ 0 → (o.header ≡ header) × (o.sent_to ≡ []) × (o.is_delivered ≡ false))
    × (0 < header.ttl
        → (o.header ≡ record header { ttl = header.ttl - 1 })
          × (o.is_delivered ≡ (header.dest == env.my_address))
          × (((header.dest ≡ env.my_address) ⊎ (header.ttl ≡ 1)) → o.sent_to ≡ [])
          × (header.dest ≢ env.my_address
              → 1 < header.ttl
              → (get_next_hop regime header.source header.dest ≡ none → o.sent_to ≡ [])
                × ((n : ℕ)
                    → get_next_hop regime header.source header.dest ≡ some n
                    → o.sent_to ≡ n ∷ [])))
unicast_lem_example =
    unicast_lem env udp_link header regime (inl refl) dest-is_node_addr
      (λ e. ground (arith, next_hop, e))

abbrev to_group : Header
to_group = record header { dest = 0xE0000001 }

group-is_node_addr : is_node_addr 0xE0000001 ≡ false
unfolding is_node_addr is_mcast_addr is_acast_addr
group-is_node_addr = refl

no_neighbors :
    (neighbors : List ℕ)
    → (get_mcast_neighbors groups regime 10 0xE0000001).0 ≡ some neighbors
    → NotSelf env neighbors
unfolding get_mcast_neighbors
no_neighbors neighbors e = cc

multicast_lem_example :
    (o : Outcome) × (deliver_and_forward_data env min_weight_routing udp_link to_group regime
      ≡ some o)
    × (o.is_delivered ≡ (ltb 0 to_group.ttl && env.is_active_member 0xE0000001))
    × (to_group.ttl ≤ 1 → (o.sent_to ≡ []) × (o.regime ≡ regime))
    × (1 < to_group.ttl → o.regime ≡ (get_mcast_neighbors groups regime 10 0xE0000001).1)
    × ((get_mcast_neighbors groups regime 10 0xE0000001).0 ≡ none → o.sent_to ≡ [])
    × (1 < to_group.ttl
        → (neighbors : List ℕ)
        → (get_mcast_neighbors groups regime 10 0xE0000001).0 ≡ some neighbors
        → o.sent_to ≡ connected env neighbors)
multicast_lem_example =
    multicast_lem env udp_link to_group regime (inl refl) group-is_node_addr no_neighbors

abbrev to_site : Header
to_site = record header { dest = 10; dest_port = 0xFF07 }

disseminated_lem_example :
    (o : Outcome) × (deliver_and_forward_data env it_priority_routing udp_link to_site regime
      ≡ some o)
    × Disseminated env it_priority_routing (record to_site { ttl = to_site.ttl - 1 }) o
disseminated_lem_example =
    disseminated_lem env it_priority_routing udp_link to_site regime (inr (inl refl)) (omega arith)
