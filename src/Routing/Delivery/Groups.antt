-- ===== src/Routing/Delivery/Groups.antt =====
-- What `Deliver_and_Forward_Data` (daemon/route.c) does with a packet for a group, and after a
-- dissemination.
use spines.Prelude.{
  ℕ, ◌+◌, ◌-◌, ◌/◌, ◌%◌, ◌≤◌, ◌<◌, ◌≡◌, ◌⊎◌, inl, inr, refl, ◌∙◌, ◌&&◌, Bool, true, false, none,
  some, List, [], ltb, leb, ◌==◌, if◌then◌else◌, arith, Option-cases, Bool-cases,
}
use spines.Routing.Address.{is_node_addr}
use spines.Routing.Regime.{Regime}
use spines.Routing.Multicast.{get_mcast_neighbors}
use spines.Routing.Delivery.{
  Mode, Scheme, min_weight_routing, source_based_routing, it_priority_routing, it_reliable_routing,
  unknown_routing, Header, Env, Outcome, route_multicast, site_multicast, converted, deliver,
  stopped, disseminated, deliver_and_forward_data,
}
use spines.Routing.Delivery.Laws.{IsRouted, connected, NotSelf, forward_each-connected, deliver_lem}

module _ (env : Env) where
  -- A packet for a group, on a mode that routes and where the local node is no neighbor of its own. It
  -- goes to those connected neighbors that the routing state gives for the group, if its time to live
  -- is more than one, and to nobody else or otherwise. It is delivered exactly if its time to live is
  -- not zero and the local node is an active member. The routing state changes only by the lookup of
  -- the neighbors, and not at all where the packet does not go on.
  pub multicast_lem :
      (mode : Mode) (h : Header) (rr : Regime)
      → IsRouted mode
      → is_node_addr h.dest ≡ false
      → ((neighbors : List ℕ)
          → (get_mcast_neighbors env.groups rr h.source h.dest).0 ≡ some neighbors
          → NotSelf env neighbors)
      → (o : Outcome) × (deliver_and_forward_data env min_weight_routing mode h rr ≡ some o)
        × (o.is_delivered ≡ (ltb 0 h.ttl && env.is_active_member h.dest))
        × (h.ttl ≤ 1 → (o.sent_to ≡ []) × (o.regime ≡ rr))
        × (1 < h.ttl → o.regime ≡ (get_mcast_neighbors env.groups rr h.source h.dest).1)
        × ((get_mcast_neighbors env.groups rr h.source h.dest).0 ≡ none → o.sent_to ≡ [])
        × (1 < h.ttl
            → (neighbors : List ℕ)
            → (get_mcast_neighbors env.groups rr h.source h.dest).0 ≡ some neighbors
            → o.sent_to ≡ connected env neighbors)
  unfolding deliver_and_forward_data route_multicast stopped
  multicast_lem mode h rr r group apart =
      let h' : Header = record h { ttl = h.ttl - 1 } in
      let answer = get_mcast_neighbors env.groups rr h.source h.dest in
      elim (Bool-cases (h.ttl == 0)) [
        | inl dead ↦
            let over : h.ttl ≡ 0 = ground arith in
            (
              stopped env h rr,
              rw dead refl,
              rw over refl,
              λ few. (refl, refl),
              λ long. absurd (omega arith),
              λ e. refl,
              λ long. absurd (omega arith),
            )
        | inr alive ↦
            let lives : ltb 0 h.ttl ≡ true = ground arith in
            elim (Bool-cases (ltb 0 (h.ttl - 1))) [
              | inr last ↦
                  let (head, to, regime, here) = deliver_lem env none h' [] rr in
                  (
                    deliver env none h' [] rr,
                    rw (alive, group, last) refl,
                    here ∙ rw (group, lives) refl,
                    λ few. (to, regime),
                    λ long. absurd (ground arith),
                    λ e. to,
                    λ long. absurd (ground arith),
                  )
              | inl goes_on ↦ elim (Option-cases answer.0) [
                | inl t ↦
                    let (head, to, regime, here) = deliver_lem env none h' [] answer.1 in
                    (
                      deliver env none h' [] answer.1,
                      rw (alive, group, goes_on, t) refl,
                      here ∙ rw (group, lives) refl,
                      λ few. absurd (ground arith),
                      λ long. regime,
                      λ e. to,
                      λ long neighbors e. absurd (ground arith),
                    )
                | inr (neighbors, t) ↦
                    let (ret, e) =
                      forward_each-connected env mode neighbors none r (apart neighbors t) in
                    let (head, to, regime, here) =
                      deliver_lem env ret h' (connected env neighbors) answer.1 in
                    (
                      deliver env ret h' (connected env neighbors) answer.1,
                      rw (alive, group, goes_on, t, e) refl,
                      here ∙ rw (group, lives) refl,
                      λ few. absurd (ground arith),
                      λ long. regime,
                      λ e. absurd (ground arith),
                      λ long neighbors' e.
                          let same : neighbors' ≡ neighbors = ground arith in to ∙ rw same refl,
                    )
              ]
            ]
      ]

  -- The intrusion-tolerant kinds of routing take a packet for the local node and one of the last 256
  -- ports as one for a group.
  abbrev pub is_site_multicast : Scheme → Header → Bool
  is_site_multicast min_weight_routing h = false
  is_site_multicast source_based_routing h = false
  is_site_multicast unknown_routing h = false
  is_site_multicast it_priority_routing h = h.dest == env.my_address && h.dest_port / 256 == 0xFF
  is_site_multicast it_reliable_routing h = h.dest == env.my_address && h.dest_port / 256 == 0xFF

  abbrev pub site_group : Header → ℕ
  site_group h = 0xFEFF0000 + h.dest_port % 256

  site_group-is_node_addr : (h : Header) → is_node_addr (site_group h) ≡ false
  unfolding is_node_addr
  site_group-is_node_addr h = ground arith

  converted-site :
      (h : Header)
      → converted env h ≡ (
          if h.dest == env.my_address && h.dest_port / 256 == 0xFF
          then record h { dest = site_group h }
          else h)
  unfolding converted
  converted-site h =
      let e : (leb 0xFF00 h.dest_port && leb h.dest_port 0xFFFF) ≡ (h.dest_port / 256 == 0xFF) =
        ground arith in
      rw e refl

  site_multicast-site :
      (scheme : Scheme) (h : Header)
      → site_multicast env scheme h
        ≡ (if is_site_multicast scheme h then record h { dest = site_group h } else h)
  unfolding site_multicast
  site_multicast-site min_weight_routing h = refl
  site_multicast-site source_based_routing h = refl
  site_multicast-site unknown_routing h = refl
  site_multicast-site it_priority_routing h = converted-site h
  site_multicast-site it_reliable_routing h = converted-site h

  -- What is done with a packet after its dissemination.
  pub record Disseminated (scheme : Scheme) (h : Header) (o : Outcome) : Type 0 where
    pub dropped : env.disseminate scheme ≡ none → (o.header ≡ h) × (o.is_delivered ≡ false)
    pub site :
        (status : ℕ)
        → env.disseminate scheme ≡ some status
        → is_site_multicast scheme h ≡ true
        → (o.header ≡ record h { dest = site_group h })
          × (o.is_delivered ≡ env.is_active_member (site_group h))
    pub node :
        (status : ℕ)
        → env.disseminate scheme ≡ some status
        → is_site_multicast scheme h ≡ false
        → is_node_addr h.dest ≡ true
        → (o.header ≡ h) × (o.is_delivered ≡ (h.dest == env.my_address))
    pub group :
        (status : ℕ)
        → env.disseminate scheme ≡ some status
        → is_site_multicast scheme h ≡ false
        → is_node_addr h.dest ≡ false
        → (o.header ≡ h) × (o.is_delivered ≡ env.is_active_member h.dest)

  disseminated-Disseminated :
      (scheme : Scheme) (h : Header) (rr : Regime)
      → Disseminated scheme h (disseminated env scheme h rr)
  unfolding disseminated stopped
  disseminated-Disseminated scheme h rr =
      let after =
        λ (status : ℕ). deliver_lem env (some status) (site_multicast env scheme h) [] rr in
      record {
        dropped = λ e. rw (e, disseminated) (refl, refl);
        site = λ status e is_site.
            let to : site_multicast env scheme h ≡ record h { dest = site_group h } =
              site_multicast-site scheme h ∙ rw is_site refl in
            rw (e, disseminated)
              ((after status).0 ∙ to, (after status).3 ∙ rw (to, site_group-is_node_addr h) refl);
        node = λ status e no_site is_node.
            let to : site_multicast env scheme h ≡ h =
              site_multicast-site scheme h ∙ rw no_site refl in
            rw (e, disseminated) ((after status).0 ∙ to, (after status).3 ∙ rw (to, is_node) refl);
        group = λ status e no_site no_node.
            let to : site_multicast env scheme h ≡ h =
              site_multicast-site scheme h ∙ rw no_site refl in
            rw (e, disseminated) ((after status).0 ∙ to, (after status).3 ∙ rw (to, no_node) refl);
      }

  -- With a time to live, by the other kinds of routing: a packet that their dissemination drops reaches
  -- no client. One that it does not drop is taken, if it is a site multicast, as one for its group, and
  -- is delivered exactly if the local node is an active member of that. Any other keeps its
  -- destination, and is delivered exactly if that is the local node, or a group of which the local
  -- node is an active member.
  pub disseminated_lem :
      (scheme : Scheme) (mode : Mode) (h : Header) (rr : Regime)
      → ((scheme ≡ source_based_routing)
          ⊎ ((scheme ≡ it_priority_routing) ⊎ (scheme ≡ it_reliable_routing)))
      → 0 < h.ttl
      → (o : Outcome) × (deliver_and_forward_data env scheme mode h rr ≡ some o)
        × Disseminated scheme (record h { ttl = h.ttl - 1 }) o
  unfolding deliver_and_forward_data
  disseminated_lem min_weight_routing mode h rr kind long =
      absurd (elim kind [ inl e ↦ cc | inr (inl e) ↦ cc | inr (inr e) ↦ cc ])
  disseminated_lem unknown_routing mode h rr kind long =
      absurd (elim kind [ inl e ↦ cc | inr (inl e) ↦ cc | inr (inr e) ↦ cc ])
  disseminated_lem source_based_routing mode h rr kind long =
      let alive : (h.ttl == 0) ≡ false = ground arith in
      let h' : Header = record h { ttl = h.ttl - 1 } in
      (
        disseminated env source_based_routing h' rr,
        rw alive refl,
        disseminated-Disseminated source_based_routing h' rr,
      )
  disseminated_lem it_priority_routing mode h rr kind long =
      let alive : (h.ttl == 0) ≡ false = ground arith in
      let h' : Header = record h { ttl = h.ttl - 1 } in
      (
        disseminated env it_priority_routing h' rr,
        rw alive refl,
        disseminated-Disseminated it_priority_routing h' rr,
      )
  disseminated_lem it_reliable_routing mode h rr kind long =
      let alive : (h.ttl == 0) ≡ false = ground arith in
      let h' : Header = record h { ttl = h.ttl - 1 } in
      (
        disseminated env it_reliable_routing h' rr,
        rw alive refl,
        disseminated-Disseminated it_reliable_routing h' rr,
      )
