-- ===== src/Routing/Multicast/Neighbors.antt =====
-- Which neighbors the answer for a group holds (daemon/route.c, `RR_Get_Mcast_Neighbors`).
use spines.Prelude.{
  ℕ, ◌≡◌, ◌⊎◌, inl, inr, refl, Bool, true, false, ◌&&◌, ◌||◌, Option, none, some, List, [], ◌∷◌,
  ◌==◌, arith, Option-cases, Bool-cases,
}
use spines.Prelude.Int.{ltb_ℤ, ◌≤ℤ◌}
use spines.Routing.Address.{is_mcast_addr, is_acast_addr, mcast-ne-acast}
use spines.Routing.Regime.{Regime, get_next_hop}
use spines.Routing.Multicast.{
  Env, GroupState, Found, contains, put_node, better, scan_state, scan, build,
}

contains-put_node : (x h : ℕ) (l : List ℕ) → contains x (put_node h l) ≡ (h == x || contains x l)
contains-put_node x h l = elim (Bool-cases (contains h l)) [
  | inl t ↦ ground arith
  | inr t ↦ ground arith
]

module _ (env : Env) (rr : Regime) (sender group : ℕ) where
  -- The next hop towards the node of one state is `x`.
  abbrev pub hops_to : ℕ → GroupState → Bool
  hops_to x g =
      g.active && elim (get_next_hop rr sender g.node_nid) [ none ↦ false | some h ↦ h == x ]

  -- `x` is the next hop towards some active member.
  abbrev pub reaches : ℕ → List GroupState → Bool
  reaches x [] = false
  reaches x (g ∷ gs) = hops_to x g || reaches x gs

  -- The local node is an active member.
  abbrev pub is_member : List GroupState → Bool
  is_member [] = false
  is_member (g ∷ gs) = (g.active && g.node_nid == env.my_address) || is_member gs

  scan-mcast :
      (x : ℕ) (states : List GroupState) (l : List ℕ) (best : Option ℕ)
      → is_mcast_addr group ≡ true
      → (contains x (scan env rr sender group states (l, best)).0
          ≡ (contains x l || reaches x states))
        × ((scan env rr sender group states (l, best)).1 ≡ best)
  unfolding scan scan_state
  scan-mcast x [] l best h = (ground arith, refl)
  scan-mcast x (g ∷ gs) l best h = elim (Option-cases (get_next_hop rr sender g.node_nid)) [
    | inl t ↦ ground (arith, mcast-ne-acast group h, scan-mcast x gs l best h)
    | inr (y, t) ↦ ground (
      arith,
      mcast-ne-acast group h,
      contains-put_node x y l,
      scan-mcast x gs (put_node y l) best h,
      scan-mcast x gs l best h,
    )
  ]

  -- For a multicast group the answer holds exactly the next hops towards the active members.
  pub build-mcast :
      (x : ℕ) (states : List GroupState)
      → is_mcast_addr group ≡ true
      → contains x (build env rr sender group states) ≡ reaches x states
  unfolding build
  build-mcast x states h = ground (arith, scan-mcast x states [] none h)

  module _ (acast : is_acast_addr group ≡ true) where
    not_mcast : is_mcast_addr group ≡ false
    not_mcast = ground (arith, mcast-ne-acast group)

    scan_member :
        (states : List GroupState) (l : List ℕ) (best : Option ℕ)
        → is_member states ≡ true
        → scan env rr sender group states (l, best) ≡ (l, none)
    unfolding scan scan_state
    scan_member [] l best m = cc
    scan_member (g ∷ gs) l best m = elim (Option-cases (get_next_hop rr sender g.node_nid)) [
      | inl t ↦ ground (arith, acast, not_mcast, scan_member gs l best)
      | inr (y, t) ↦ ground (
        arith,
        acast,
        not_mcast,
        scan_member gs l best,
        scan_member gs l (better env rr sender group best y),
      )
    ]

    -- What the loop leaves as the best next hop, started from one.
    record Best (states : List GroupState) (l : List ℕ) (best : Option ℕ) (out : Found)
        : Type 0 where
      kept : out.0 ≡ l
      from : (b : ℕ) → out.1 ≡ some b → (best ≡ some b) ⊎ (reaches b states ≡ true)
      old :
          (a : ℕ)
          → best ≡ some a
          → (b : ℕ) × (out.1 ≡ some b) × (env.node_cost b ≤ℤ env.node_cost a)
      new :
          (x : ℕ)
          → reaches x states ≡ true
          → (b : ℕ) × (out.1 ≡ some b) × (env.node_cost b ≤ℤ env.node_cost x)

    better-le :
        (best : Option ℕ) (y : ℕ)
        → (b : ℕ) × (better env rr sender group best y ≡ some b)
          × ((best ≡ some b) ⊎ (b ≡ y))
          × (env.node_cost b ≤ℤ env.node_cost y)
          × ((a : ℕ) → best ≡ some a → env.node_cost b ≤ℤ env.node_cost a)
    unfolding better
    better-le none y = (y, refl, inr refl, omega arith, λ a e. ground arith)
    better-le (some a) y = elim (Bool-cases (ltb_ℤ (env.node_cost y) (env.node_cost a))) [
      | inl t ↦ (y, ground arith, inr refl, omega arith, λ a' e. ground arith)
      | inr t ↦ (a, ground arith, inl refl, ground arith, λ a' e. ground arith)
    ]

    -- A state that is passed over.
    skipped :
        (g : GroupState) (gs : List GroupState) (l : List ℕ) (best : Option ℕ) (out : Found)
        → out ≡ scan env rr sender group gs (l, best)
        → ((x : ℕ) → hops_to x g ≡ false)
        → Best gs l best (scan env rr sender group gs (l, best))
        → Best (g ∷ gs) l best out
    skipped g gs l best out e unmet r = rw e (record {
      kept = r.kept;
      from = λ b t. ground (arith, r.from b t, unmet b);
      old = r.old;
      new = λ x t. r.new x (ground (arith, unmet x));
    })

    scan-Best :
        (states : List GroupState) (l : List ℕ) (best : Option ℕ)
        → is_member states ≡ false
        → Best states l best (scan env rr sender group states (l, best))
    unfolding scan scan_state
    scan-Best [] l best m = record {
      kept = refl;
      from = λ b e. inl e;
      old = λ a e. (a, e, omega arith);
      new = λ x e. absurd (ground arith);
    }
    scan-Best (g ∷ gs) l best m = elim (Bool-cases g.active) [
      | inl on ↦ elim (Option-cases (get_next_hop rr sender g.node_nid)) [
        | inl t ↦
            let step : scan env rr sender group (g ∷ gs) (l, best)
                ≡ scan env rr sender group gs (l, best) =
              ground (arith, acast, not_mcast) in
            skipped g gs l best _ step (ground arith) (scan-Best gs l best (ground arith))
        | inr (y, t) ↦
            let (b, made, which, le_new, le_old) = better-le best y in
            let step : scan env rr sender group (g ∷ gs) (l, best)
                ≡ scan env rr sender group gs (l, some b) =
              ground (arith, acast, not_mcast) in
            let r = scan-Best gs l (some b) (ground arith) in
            rw step (record {
              kept = r.kept;
              from = λ z e. ground (arith, r.from z);
              old =
                  λ a e. let (z, found, le) = r.old b refl in (z, found, omega (arith, le_old a e));
              new = λ x e. elim (Bool-cases (reaches x gs)) [
                | inl later ↦ r.new x later
                | inr now ↦
                    let (z, found, le) = r.old b refl in
                    let same : y ≡ x = ground arith in (z, found, rw (← same) (omega arith))
              ];
            })
      ]
      | inr off ↦
          let step : scan env rr sender group (g ∷ gs) (l, best)
              ≡ scan env rr sender group gs (l, best) =
            ground arith in
          skipped g gs l best _ step (ground arith) (scan-Best gs l best (ground arith))
    ]

    -- For an anycast group the answer is empty if the local node is an active member itself.
    -- Otherwise it is empty if there is no next hop towards an active member, and is one of these
    -- next hops if there is any, whose cost is no more than that of any other.
    pub build-acast :
        (states : List GroupState)
        → (is_member states ≡ true → build env rr sender group states ≡ [])
          × (is_member states ≡ false
              → (((x : ℕ) → reaches x states ≡ false) → build env rr sender group states ≡ [])
                × ((x : ℕ)
                    → reaches x states ≡ true
                    → (b : ℕ) × (build env rr sender group states ≡ b ∷ [])
                      × (reaches b states ≡ true)
                      × (env.node_cost b ≤ℤ env.node_cost x)))
    unfolding build
    build-acast states = (
      λ m. ground (arith, scan_member states [] none m),
      λ m.
          let r = scan-Best states [] none m in
          (
            λ none_reached. elim (Option-cases (scan env rr sender group states ([], none)).1) [
              | inl t ↦ ground (arith, r.kept)
              | inr (b, t) ↦ absurd (ground (arith, r.from b t, none_reached b))
            ],
            λ x reached.
                let (b, found, le) = r.new x reached in
                (b, ground (arith, acast, r.kept), ground (arith, r.from b found), le),
          ),
    )
