-- ===== src/Routing/Regime/Routes.antt =====
-- The answers of the routing table that `RR_Init` of daemon/route.c builds, against the edges.
use spines.Prelude.{
  ℕ, ◌+◌, ◌*◌, ◌≤◌, ◌<◌, ◌≡◌, ◌≢◌, ◌⊎◌, ◌↔◌, inl, inr, none, some, List, length, get_or, arith,
  Option-cases, sym,
}
use mathlib.Core.List.{flatten}
use spines.Prelude.Int.{pos, negsuc}
use spines.Prelude.Maps.{Map, empty}
use spines.Routing.{Route, Edge}
use spines.Routing.Table.{at, blank, blank_all, compute}
use spines.Routing.Table.Cells.{Holds}
use spines.Routing.Table.Shortest.{compute-shortest, compute-Holds, stage_signs}
use spines.Routing.Table.Forwarders.{compute_next_hop}
use spines.Routing.Regime.{Regime, index_nodes, abs, fill_all, rr_init, find_route, get_next_hop}
use spines.Routing.Regime.Links.{IsIndex, IsDistinct, index_nodes-IsIndex}
use spines.Routing.Regime.Entered.{
  last_edge, fill_chain-known, fill_chain-Holds, fill_all-flatten, blank_all-Holds,
}
use spines.Routing.Regime.Ways.{
  Way, NoLoops, start, start-IsInitial, Walk-Way, Way-Walk, start-IsLocal, start_link,
}

-- What `RR_Init` is given: nodes that are distinct, edges that lead from a node to another, and
-- memory for a route from each node to each.
pub record IsInput (nodes : List ℕ) (chains : List (List Edge)) (raw : List Route) : Type 0 where
  pub distinct : IsDistinct nodes
  pub loops : NoLoops (flatten chains)
  pub room : length raw ≡ length nodes * length nodes

module _ (this_node : ℕ) (nodes : List ℕ) (chains : List (List Edge)) (raw : List Route)
    {rr : Regime} (input : IsInput nodes chains raw)
    (ran : rr_init this_node nodes chains raw ≡ some rr) where
  abbrev es : List Edge
  es = flatten chains

  abbrev indexes : Map ℕ
  indexes = index_nodes 0 nodes empty

  index : IsIndex nodes indexes
  index = index_nodes-IsIndex nodes input.distinct

  -- The matrix that the loops over the edges leave, and the regime that is made of it.
  filled :
      (m : List Route) × (fill_all this_node indexes
          (length nodes)
          chains
          (blank_all (length nodes) raw)
        ≡ some m)
      × (rr ≡ record {
        num_nodes = length nodes;
        node_ids = nodes;
        node_indexes = indexes;
        routes = compute nodes (length nodes) m;
        groups = empty;
      })
  unfolding rr_init
  filled =
      elim (Option-cases
        (fill_all this_node indexes (length nodes) chains (blank_all (length nodes) raw))) [
          | inl t ↦ absurd (ground arith)
          | inr (m, t) ↦ (m, t, ground arith)
        ]

  known : (s d : ℕ) (e : Edge) → last_edge es s d ≡ some e → (j : ℕ) × (indexes d ≡ some j)
  known s d e h =
      let (m, t, made) = filled in
      fill_chain-known this_node nodes indexes index es (blank_all (length nodes) raw) m s d e
        (rw (fill_all-flatten this_node nodes indexes index chains (blank_all (length nodes) raw))
          at t)
        h

  abbrev first : ℕ → ℕ → Route
  first = start this_node nodes indexes index es input.loops known

  filled-Holds : Holds (length nodes) first filled.0
  filled-Holds =
      let (m, t, made) = filled in
      fill_chain-Holds this_node nodes indexes index es blank (blank_all (length nodes) raw) m
        (blank_all-Holds (length nodes) raw input.room)
        (rw (fill_all-flatten this_node nodes indexes index chains (blank_all (length nodes) raw))
          at t)

  -- The route from the node of one index to that of another.
  routed :
      (i j : ℕ)
      → i < length nodes
      → j < length nodes
      → find_route rr (get_or nodes i 0) (get_or nodes j 0)
        ≡ some (at (length nodes) (compute nodes (length nodes) filled.0) i j)
  unfolding find_route
  routed i j p q = let (m, t, made) = filled in rw (made, index.of_id i p, index.of_id j q)

  abbrev entry : ℕ → ℕ → Route
  entry i j = at (length nodes) (compute nodes (length nodes) filled.0) i j

  -- The matrix against the ways, by indexes.
  entry-pos :
      (i j c : ℕ)
      → i < length nodes
      → j < length nodes
      → ((entry i j).cost ≡ pos c) ↔ (
          Way es (get_or nodes j 0) (get_or nodes i 0) c
          × ((b : ℕ) → Way es (get_or nodes j 0) (get_or nodes i 0) b → c ≤ b))
  entry-pos i j c p q =
      let sp =
        compute-shortest nodes (length nodes) first filled.0 i j
          (start-IsInitial this_node nodes indexes index es input.loops known) filled-Holds p q in
      (
        λ h.
            let (w, least) = (sp.0 c).0 h in
            (
              Walk-Way this_node nodes indexes index es input.loops known w,
              λ b v. least b (
                  Way-Walk this_node nodes indexes index es input.loops known j q v i
                    (index.of_id i p)),
            ),
        λ (w, least). (sp.0 c).1 (
          Way-Walk this_node nodes indexes index es input.loops known j q w i (index.of_id i p),
          λ b v. least b (Walk-Way this_node nodes indexes index es input.loops known v),
        ),
      )

  entry_none :
      (i j : ℕ)
      → i < length nodes
      → j < length nodes
      → ((entry i j).cost ≡ negsuc 0) ↔ ((c : ℕ) → ¬ Way es (get_or nodes j 0) (get_or nodes i 0) c)
  entry_none i j p q =
      let sp =
        compute-shortest nodes (length nodes) first filled.0 i j
          (start-IsInitial this_node nodes indexes index es input.loops known) filled-Holds p q in
      (
        λ h c w.
            sp.1.0 h c (
              Way-Walk this_node nodes indexes index es input.loops known j q w i
                (index.of_id i p)),
        λ no. sp.1.1 (λ c w. no c (Walk-Way this_node nodes indexes index es input.loops known w)),
      )

  entry_signs :
      (i j : ℕ)
      → i < length nodes
      → j < length nodes
      → ((entry i j).cost ≡ negsuc 0) ⊎ ((c : ℕ) × ((entry i j).cost ≡ pos c))
  entry_signs i j p q =
      rw ((compute-Holds nodes (length nodes) first filled.0 filled-Holds).entry i j p q) (
        stage_signs nodes (length nodes)
          (start-IsInitial this_node nodes indexes index es input.loops known) (length nodes) i j)

  -- The routing table that `RR_Init` builds, where its nodes are distinct, no edge leads from a node
  -- to itself and there is memory for each pair, is right about the edges: between any two known
  -- nodes it holds a route, whose cost is c exactly when some way over edges that are up has
  -- that cost and none costs less, and is -1 exactly when there is no way.
  pub rr_init-find_route :
      (i j : ℕ)
      → i < length nodes
      → j < length nodes
      → (r : Route) × (find_route rr (get_or nodes i 0) (get_or nodes j 0) ≡ some r)
        × ((c : ℕ)
            → (r.cost ≡ pos c) ↔ (
                Way es (get_or nodes j 0) (get_or nodes i 0) c
                × ((b : ℕ) → Way es (get_or nodes j 0) (get_or nodes i 0) b → c ≤ b)))
        × ((r.cost ≡ negsuc 0) ↔ ((c : ℕ) → ¬ Way es (get_or nodes j 0) (get_or nodes i 0) c))
  rr_init-find_route i j p q =
      (entry i j, routed i j p q, λ c. entry-pos i j c p q, entry_none i j p q)

  module _ (me j : ℕ) (p : me < length nodes) (here : get_or nodes me 0 ≡ this_node)
      (q : j < length nodes) (ne : j ≢ me) where
    got : get_next_hop rr this_node (get_or nodes j 0) ≡ (entry me j).forwarder
    unfolding get_next_hop
    got = rw (← here, routed me j p q)

    abbrev FirstNextHop : Type 0
    FirstNextHop =
        (h : ℕ) × (e : Edge) × (b : ℕ) × ((entry me j).forwarder ≡ some (get_or nodes h 0))
        × (last_edge es this_node (get_or nodes h 0) ≡ some e)
        × Way es (get_or nodes j 0) (get_or nodes h 0) b
        × ((c : ℕ) → Way es (get_or nodes j 0) this_node c → abs e.cost + b ≤ c)

    hop_on :
        ((entry me j).cost ≡ negsuc 0 → (entry me j).forwarder ≡ none)
        × ((c : ℕ) → (entry me j).cost ≡ pos c → FirstNextHop)
    hop_on =
        let nh =
          compute_next_hop nodes (length nodes) me
            (start-IsInitial this_node nodes indexes index es input.loops known)
            (start-IsLocal this_node nodes indexes index es input.loops known me p here) p filled.0
            j filled-Holds q ne in
        (
          nh.1,
          λ c s.
              let (x, a, b, x-lt, apart, fw, link, rest, sum) = nh.0 c s in
              elim (start_link this_node nodes indexes index es input.loops known me x a link) [
                | inl (same, z) ↦ absurd (apart (sym same))
                | inr (e, t, a_eq) ↦ (
                  x,
                  e,
                  b,
                  fw,
                  rw (← here) t,
                  ((entry-pos x j b x-lt q).0 rest).0,
                  λ c' w. omega (arith, ((entry-pos me j c p q).0 s).1 c' (rw here w)),
                )
              ],
        )

  -- On the same conditions, the next hop that the table gives the local node, if it is among the
  -- nodes, for another known node: the far end of an
  -- edge of its own that is up and from which a way goes on, such that the edge and that way
  -- together cost no more than any way; and there is none exactly when no way leads there.
  pub rr_init-get_next_hop :
      (me j : ℕ)
      → me < length nodes
      → get_or nodes me 0 ≡ this_node
      → j < length nodes
      → j ≢ me
      → ((h : ℕ)
          → get_next_hop rr this_node (get_or nodes j 0) ≡ some h
          → (e : Edge) × (b : ℕ) × (last_edge es this_node h ≡ some e)
            × Way es (get_or nodes j 0) h b
            × ((c : ℕ) → Way es (get_or nodes j 0) this_node c → abs e.cost + b ≤ c))
        × (get_next_hop rr this_node (get_or nodes j 0) ≡ none
            ↔ ((c : ℕ) → ¬ Way es (get_or nodes j 0) this_node c))
  rr_init-get_next_hop me j p here q ne = (
    λ h e. elim (entry_signs me j p q) [
      | inl down ↦ absurd (ground (arith, got me j p here q ne, (hop_on me j p here q ne).0 down))
      | inr (c, s) ↦
          let (x, e', b, fw, link, way, least) = (hop_on me j p here q ne).1 c s in
          let same : h ≡ get_or nodes x 0 = ground (arith, got me j p here q ne) in
          (e', b, rw same link, rw same way, least)
    ],
    (
      λ e. elim (entry_signs me j p q) [
        | inl down ↦ rw here at ((entry_none me j p q).0 down)
        | inr (c, s) ↦
            let (x, e', b, fw, link, way, least) = (hop_on me j p here q ne).1 c s in
            absurd (ground (arith, got me j p here q ne))
      ],
      λ no.
          rw (got me j p here q ne)
            ((hop_on me j p here q ne).0 ((entry_none me j p q).1 (rw here no))),
    ),
  )
