-- ===== src/Routing/Delivery.antt =====
-- `Forward_Data` and `Deliver_and_Forward_Data` of daemon/route.c: what a node does with a data
-- packet.
pub mod Laws
pub mod Groups
mod Tests
use spines.Prelude.{
  ℕ, ◌+◌, ◌-◌, ◌%◌, Bool, true, false, ◌&&◌, ◌||◌, not, Option, none, some, List, [], ◌∷◌, ltb, leb,
  ◌==◌, if◌then◌else◌,
}
use spines.Routing.Address.{is_node_addr}
use spines.Routing.Regime.{Regime, get_next_hop, ◌>>=◌}
use spines.Routing.Multicast

-- `Link_Type`
pub data Mode : Type 0 where
  control_link udp_link reliable_udp_link realtime_udp_link : Mode
  reserved0_link reserved1_link intrusion_tol_link other_link : Mode

-- The kinds of routing that `hdr->routing` asks for.
pub data Scheme : Type 0 where
  min_weight_routing source_based_routing it_priority_routing it_reliable_routing : Scheme
  unknown_routing : Scheme

-- The fields of `udp_header` that are read.
pub record Header : Type 0 where
  pub source : ℕ
  pub dest : ℕ
  pub dest_port : ℕ
  pub ttl : ℕ

-- The other parts of the daemon: the link protocols and the three kinds of dissemination, by the
-- status that they return; which neighbors are connected; of which groups the local node is an
-- active member; and the status of a delivery to the local clients. `none` is NO_ROUTE.
pub record Env : Type 0 where
  pub my_address : ℕ
  pub groups : Multicast.Env
  pub forward_udp_data : ℕ → Option ℕ
  pub forward_rel_udp_data : ℕ → Option ℕ
  pub forward_rt_udp_data : ℕ → Option ℕ
  pub forward_intru_tol_data : ℕ → Option ℕ
  pub disseminate : Scheme → Option ℕ
  pub is_connected_neighbor : ℕ → Bool
  pub is_active_member : ℕ → Bool
  pub deliver_udp_data : Option ℕ

-- What the call leaves: its result, the header, whom the packet was forwarded to by
-- MIN_WEIGHT_ROUTING, whether it was
-- delivered to the local clients, and the routing state with its cache.
pub record Outcome : Type 0 where
  pub ret : Option ℕ
  pub header : Header
  pub sent_to : List ℕ
  pub is_delivered : Bool
  pub regime : Regime

module _ (env : Env) where
  -- The outer `none`: the program exits.
  unfoldable pub forward_data : ℕ → Mode → Option (Option ℕ)
  forward_data next_hop mode = if next_hop == env.my_address then none else elim mode [
    | udp_link ↦ some (env.forward_udp_data next_hop)
    | reliable_udp_link ↦ some (env.forward_rel_udp_data next_hop)
    | realtime_udp_link ↦ some (env.forward_rt_udp_data next_hop)
    | intrusion_tol_link ↦ some (env.forward_intru_tol_data next_hop)
    | control_link ↦ none
    | reserved0_link ↦ none
    | reserved1_link ↦ none
    | other_link ↦ none
  ]

  -- The loop over the neighbors of a group: the status so far, and whom the packet goes to.
  unfoldable pub forward_each : Mode → List ℕ → Option ℕ → Option (Option ℕ × List ℕ)
  forward_each mode [] ret = some (ret, [])
  forward_each mode (next_hop ∷ rest) ret =
      let sends = env.is_connected_neighbor next_hop in
      let status = if sends then forward_data next_hop mode else some ret in
      status >>= λ st. forward_each mode rest st >>= λ later.
      some (later.0, if sends then next_hop ∷ later.1 else later.1)

  -- The branch for MIN_WEIGHT_ROUTING, after the TTL is decremented.
  unfoldable pub route_unicast : Mode → Header → Regime → Option (Option ℕ × List ℕ)
  route_unicast mode h rr =
      if not (h.dest == env.my_address) && ltb 0 h.ttl
      then elim (get_next_hop rr h.source h.dest) [
        | none ↦ some (none, [])
        | some next_hop ↦ forward_data next_hop mode >>= λ status. some (status, next_hop ∷ [])
      ]
      else some (none, [])

  unfoldable pub route_multicast : Mode → Header → Regime → Option ((Option ℕ × List ℕ) × Regime)
  route_multicast mode h rr =
      if ltb 0 h.ttl
      then (let (found, rr') = Multicast.get_mcast_neighbors env.groups rr h.source h.dest in
          elim found [
            | none ↦ some ((none, []), rr')
            | some neighbors ↦ forward_each mode neighbors none >>= λ sent. some (sent, rr')
          ])
      else some ((none, []), rr)

  -- The conversion to a site multicast address.
  unfoldable pub converted : Header → Header
  converted h =
      if h.dest == env.my_address && (leb 0xFF00 h.dest_port && leb h.dest_port 0xFFFF)
      then record h { dest = 0xFEFF0000 + h.dest_port % 256 }
      else h

  unfoldable pub site_multicast : Scheme → Header → Header
  site_multicast scheme h = elim scheme [
    | min_weight_routing ↦ h
    | source_based_routing ↦ h
    | unknown_routing ↦ h
    | it_priority_routing ↦ converted h
    | it_reliable_routing ↦ converted h
  ]

  -- The delivery to the local clients, which all schemes end with.
  unfoldable pub deliver : Option ℕ → Header → List ℕ → Regime → Outcome
  deliver ret h sent rr =
      let local : Outcome = record {
        ret = env.deliver_udp_data;
        header = h;
        sent_to = sent;
        is_delivered = true;
        regime = rr;
      } in
      let here =
        if is_node_addr h.dest then h.dest == env.my_address else env.is_active_member h.dest in
      if here then local else record local { ret = ret; is_delivered = false }

  unfoldable pub stopped : Header → Regime → Outcome
  stopped h rr = record { ret = none; header = h; sent_to = []; is_delivered = false; regime = rr }

  -- The branches for the kinds of dissemination, and what follows them.
  unfoldable pub disseminated : Scheme → Header → Regime → Outcome
  disseminated scheme h rr = elim (env.disseminate scheme) [
    | none ↦ stopped h rr
    | some status ↦ deliver (some status) (site_multicast scheme h) [] rr
  ]

  unfoldable pub deliver_and_forward_data : Scheme → Mode → Header → Regime → Option Outcome
  deliver_and_forward_data scheme mode hdr rr =
      let h = record hdr { ttl = hdr.ttl - 1 } in
      if hdr.ttl == 0 then some (stopped hdr rr) else elim scheme [
        | min_weight_routing ↦
            if is_node_addr h.dest
            then (route_unicast mode h rr >>= λ sent. some (deliver sent.0 h sent.1 rr))
            else route_multicast mode h rr >>= λ routed.
                some (deliver routed.0.0 h routed.0.1 routed.1)
        | source_based_routing ↦ some (disseminated source_based_routing h rr)
        | it_priority_routing ↦ some (disseminated it_priority_routing h rr)
        | it_reliable_routing ↦ some (disseminated it_reliable_routing h rr)
        | unknown_routing ↦ some (stopped h rr)
      ]
