-- ===== src/Routing/Delivery/Laws.antt =====
-- What `Deliver_and_Forward_Data` (daemon/route.c) does with a packet for a node.
use spines.Prelude.{
  ℕ, ◌-◌, ◌<◌, ◌≡◌, ◌≢◌, ◌⊎◌, inl, inr, refl, ◌∙◌, true, false, ◌&&◌, not, Option, none, some, List,
  [], ◌∷◌, ltb, ◌==◌, if◌then◌else◌, arith, Option-cases, Bool-cases,
}
use spines.Routing.Address.{is_node_addr}
use spines.Routing.Regime.{Regime, get_next_hop}
use spines.Routing.Delivery.{
  Mode, min_weight_routing, udp_link, reliable_udp_link, realtime_udp_link, intrusion_tol_link,
  control_link, reserved0_link, reserved1_link, other_link, Header, Env, Outcome, forward_data,
  forward_each, route_unicast, deliver, stopped, deliver_and_forward_data,
}

-- The modes that route data.
abbrev pub IsRouted : Mode → Type 0
IsRouted mode =
    (mode ≡ udp_link)
    ⊎ ((mode ≡ reliable_udp_link) ⊎ ((mode ≡ realtime_udp_link) ⊎ (mode ≡ intrusion_tol_link)))

-- The neighbors that are connected.
abbrev pub connected : Env → List ℕ → List ℕ
connected env [] = []
connected env (n ∷ rest) =
    if env.is_connected_neighbor n then n ∷ connected env rest else connected env rest

-- None is the local node itself.
abbrev pub NotSelf : Env → List ℕ → Type 0
NotSelf env [] = Unit
NotSelf env (n ∷ rest) = (n ≢ env.my_address) × NotSelf env rest

module _ (env : Env) where
  forward_data-some :
      (next_hop : ℕ) (mode : Mode)
      → IsRouted mode
      → next_hop ≢ env.my_address
      → (status : Option ℕ) × (forward_data env next_hop mode ≡ some status)
  unfolding forward_data
  forward_data-some next_hop control_link r ne =
      absurd
        (elim r [ inl e ↦ cc | inr (inl e) ↦ cc | inr (inr (inl e)) ↦ cc | inr (inr (inr e)) ↦ cc ])
  forward_data-some next_hop reserved0_link r ne =
      absurd
        (elim r [ inl e ↦ cc | inr (inl e) ↦ cc | inr (inr (inl e)) ↦ cc | inr (inr (inr e)) ↦ cc ])
  forward_data-some next_hop reserved1_link r ne =
      absurd
        (elim r [ inl e ↦ cc | inr (inl e) ↦ cc | inr (inr (inl e)) ↦ cc | inr (inr (inr e)) ↦ cc ])
  forward_data-some next_hop other_link r ne =
      absurd
        (elim r [ inl e ↦ cc | inr (inl e) ↦ cc | inr (inr (inl e)) ↦ cc | inr (inr (inr e)) ↦ cc ])
  forward_data-some next_hop udp_link r ne = (env.forward_udp_data next_hop, ground arith)
  forward_data-some next_hop reliable_udp_link r ne =
      (env.forward_rel_udp_data next_hop, ground arith)
  forward_data-some next_hop realtime_udp_link r ne =
      (env.forward_rt_udp_data next_hop, ground arith)
  forward_data-some next_hop intrusion_tol_link r ne =
      (env.forward_intru_tol_data next_hop, ground arith)

  pub forward_each-connected :
      (mode : Mode) (neighbors : List ℕ) (ret : Option ℕ)
      → IsRouted mode
      → NotSelf env neighbors
      → (ret' : Option ℕ) × (forward_each env mode neighbors ret
          ≡ some (ret', connected env neighbors))
  unfolding forward_each
  forward_each-connected mode [] ret r ns = (ret, refl)
  forward_each-connected mode (n ∷ rest) ret r (ne, ns) =
      elim (Bool-cases (env.is_connected_neighbor n)) [
        | inl t ↦
            let (status, e) = forward_data-some n mode r ne in
            let (ret', later) = forward_each-connected mode rest status r ns in
            (ret', rw (t, e, later))
        | inr t ↦
            let (ret', later) = forward_each-connected mode rest ret r ns in (ret', rw (t, later))
      ]

  pub deliver_lem :
      (ret : Option ℕ) (h : Header) (sent : List ℕ) (rr : Regime)
      → let o = deliver env ret h sent rr in
        (o.header ≡ h)
        × (o.sent_to ≡ sent)
        × (o.regime ≡ rr)
        × (o.is_delivered ≡ (
            if is_node_addr h.dest then h.dest == env.my_address else env.is_active_member h.dest))
  unfolding deliver
  deliver_lem ret h sent rr =
      elim (Bool-cases
        (if is_node_addr h.dest then h.dest == env.my_address else env.is_active_member h.dest)) [
          | inl t ↦ rw t (refl, refl, refl, refl)
          | inr t ↦ rw t (refl, refl, refl, refl)
        ]

  routed :
      (mode : Mode) (h : Header) (rr : Regime)
      → IsRouted mode
      → get_next_hop rr h.source h.dest ≢ some env.my_address
      → (ret : Option ℕ) × (sent : List ℕ) × (route_unicast env mode h rr ≡ some (ret, sent))
        × (((h.dest ≡ env.my_address) ⊎ (h.ttl ≡ 0)) → sent ≡ [])
        × (h.dest ≢ env.my_address
            → 0 < h.ttl
            → (get_next_hop rr h.source h.dest ≡ none → sent ≡ [])
              × ((n : ℕ) → get_next_hop rr h.source h.dest ≡ some n → sent ≡ n ∷ []))
  unfolding route_unicast
  routed mode h rr r away = elim (Bool-cases (not (h.dest == env.my_address) && ltb 0 h.ttl)) [
    | inr t ↦ (none, [], rw t refl, λ stays. refl, λ other long. absurd (ground arith))
    | inl t ↦ elim (Option-cases (get_next_hop rr h.source h.dest)) [
      | inl u ↦ (
        none,
        [],
        rw (t, u) refl,
        λ stays. refl,
        λ other long. (λ e. refl, λ n e. absurd (ground arith)),
      )
      | inr (n, u) ↦
          let (status, e) = forward_data-some n mode r (λ same. away (ground arith)) in
          (
            status,
            n ∷ [],
            rw (t, u, e),
            λ stays. absurd (ground arith),
            λ other long. (λ v. absurd (ground arith), λ n' v. ground arith),
          )
    ]
  ]

  -- A packet for a node, with routes that do not lead back here: it is delivered exactly at its
  -- destination; elsewhere it goes to the next hop towards the destination while its time to live
  -- lasts, and to nobody where there is none; with no time to live left it is not touched.
  pub unicast_lem :
      (mode : Mode) (h : Header) (rr : Regime)
      → IsRouted mode
      → is_node_addr h.dest ≡ true
      → get_next_hop rr h.source h.dest ≢ some env.my_address
      → (o : Outcome) × (deliver_and_forward_data env min_weight_routing mode h rr ≡ some o)
        × (o.regime ≡ rr)
        × (h.ttl ≡ 0 → (o.header ≡ h) × (o.sent_to ≡ []) × (o.is_delivered ≡ false))
        × (0 < h.ttl
            → (o.header ≡ record h { ttl = h.ttl - 1 })
              × (o.is_delivered ≡ (h.dest == env.my_address))
              × (((h.dest ≡ env.my_address) ⊎ (h.ttl ≡ 1)) → o.sent_to ≡ [])
              × (h.dest ≢ env.my_address
                  → 1 < h.ttl
                  → (get_next_hop rr h.source h.dest ≡ none → o.sent_to ≡ [])
                    × ((n : ℕ) → get_next_hop rr h.source h.dest ≡ some n → o.sent_to ≡ n ∷ [])))
  unfolding deliver_and_forward_data stopped
  unicast_lem mode h rr r node away =
      let h' : Header = record h { ttl = h.ttl - 1 } in
      let untouched : Outcome = record {
        ret = none;
        header = h;
        sent_to = [];
        is_delivered = false;
        regime = rr;
      } in
      elim (Bool-cases (h.ttl == 0)) [
        | inl t ↦ (untouched, rw t refl, refl, λ z. (refl, refl, refl), λ lt. absurd (ground arith))
        | inr t ↦
            let (ret, sent, e, none_left, hops) = routed mode h' rr r away in
            let (head, to, regime, here) = deliver_lem ret h' sent rr in
            (
              deliver env ret h' sent rr,
              rw (t, node, e),
              regime,
              λ z. absurd (ground arith),
              λ lt. (
                head,
                here ∙ rw node refl,
                λ stays.
                    to ∙ none_left (elim stays [ inl d ↦ inl d | inr one ↦ inr (omega arith) ]),
                λ other long.
                    let (lost, found) = hops other (omega arith) in
                    (λ e. to ∙ lost e, λ n e. to ∙ found n e),
              ),
            )
      ]
