-- ===== src/Routing/Table/Forwarders.antt =====
-- The forwarders that the routing computation of daemon/route.c leaves: where the local node sends
-- what it routes.
use spines.Prelude.{
  ℕ, zero, suc, ◌+◌, ◌≤◌, ◌<◌, ◌≡◌, ◌≢◌, refl, ◌⊎◌, inl, inr, arith, List, get_or, none, some,
}
use mathlib.Core.Path.{subst}
use spines.Prelude.{Option-cases, sym}
use spines.Prelude.Int.{pos, negsuc, ◌+ℤ◌}
use spines.Routing.{Route}
use spines.Routing.Table.{at, joined, or_forwarder, compute}
use spines.Routing.Table.Cells.{Holds}
use spines.Routing.Table.Walks.{Walk, direct, onward, weaken, join}
use spines.Routing.Table.Shortest.{
  IsInitial, stage, stage-le, stage-Walk, relaxed_cases, compute-Holds,
}

-- Before the computation the local node forwards to the far end of each of its links, and nothing
-- else has a forwarder.
pub record IsLocal (node_ids : List ℕ) (n me : ℕ) (f : ℕ → ℕ → Route) : Type 0 where
  pub link :
      (j c : ℕ) → j ≢ me → (f me j).cost ≡ pos c → (f me j).forwarder ≡ some (get_or node_ids j 0)
  pub only :
      (i j x : ℕ)
      → i < n
      → (f i j).forwarder ≡ some x
      → (i ≡ me) × (j ≢ me) × (x ≡ get_or node_ids j 0) × ((c : ℕ) × ((f i j).cost ≡ pos c))

module _ (node_ids : List ℕ) (n me : ℕ) (f : ℕ → ℕ → Route) where
  -- A neighbor `m` of the local node from which a walk leads on to `j`, at no more than `c` in all.
  pub record Leads (k j x c : ℕ) : Type 0 where
    pub m : ℕ
    pub a : ℕ
    pub b : ℕ
    pub m-lt : m < n
    pub apart : m ≢ me
    pub id : x ≡ get_or node_ids m 0
    pub near : (f me m).cost ≡ pos a
    pub rest : Walk f n k j m b
    pub inner : (m < k) ⊎ (m ≡ j)
    pub cost : a + b ≤ c

module _ (node_ids : List ℕ) (n me : ℕ) {f : ℕ → ℕ → Route} (initial : IsInitial n f)
    (local : IsLocal node_ids n me f) (me-lt : me < n) where
  abbrev st : ℕ → ℕ → ℕ → Route
  st k = stage node_ids k f

  -- Such a neighbor gives a walk of the local node.
  Leads-le :
      (k j x c : ℕ)
      → k ≤ n
      → j < n
      → Leads node_ids n me f k j x c
      → (d : ℕ) × ((st k me j).cost ≡ pos d) × (d ≤ c)
  Leads-le k j x c h q l = elim l.inner [
    | inl below ↦
        let (d, s, g) =
          stage-le node_ids n initial k h me-lt (onward l.m-lt below l.near l.rest refl) in
        (d, s, omega arith)
    | inr last ↦
        let e : (f me j).cost ≡ pos l.a = subst (λ t. (f me t).cost ≡ pos l.a) last l.near in
        let (d, s, g) = stage-le node_ids n initial k h me-lt (direct e) in (d, s, omega arith)
  ]

  -- One more round, and a route that goes on from `j` or costs more.
  Leads-suc :
      (k j x c c' : ℕ)
      → c ≤ c'
      → Leads node_ids n me f k j x c
      → Leads node_ids n me f (suc k) j x c'
  Leads-suc k j x c c' h l = record {
    m = l.m;
    a = l.a;
    b = l.b;
    m-lt = l.m-lt;
    apart = l.apart;
    id = l.id;
    near = l.near;
    rest = weaken (omega arith) l.rest;
    inner = omega (arith, l.inner);
    cost = omega arith;
  }

  Leads-join :
      (k j x c b : ℕ)
      → k < n
      → Leads node_ids n me f k k x c
      → Walk f n k j k b
      → Leads node_ids n me f (suc k) j x (c + b)
  Leads-join k j x c b h l w = record {
    m = l.m;
    a = l.a;
    b = l.b + b;
    m-lt = l.m-lt;
    apart = l.apart;
    id = l.id;
    near = l.near;
    rest = join h (omega arith) (weaken (omega arith) l.rest) (weaken (omega arith) w) refl;
    inner = inl (omega (arith, l.inner));
    cost = omega arith;
  }

  forwarder-Leads :
      (k i j x : ℕ)
      → k ≤ n
      → i < n
      → j < n
      → (st k i j).forwarder ≡ some x
      → (c : ℕ) × ((st k i j).cost ≡ pos c) × Leads node_ids n me f k j x c
  unfolding stage joined or_forwarder ◌+ℤ◌
  forwarder-Leads zero i j x h p q e =
      let (here, apart, id, (c, s)) = local.only i j x p e in
      (
        c,
        s,
        record {
          m = j;
          a = c;
          b = 0;
          m-lt = q;
          apart = apart;
          id = id;
          near = ground arith;
          rest = direct (initial.diagonal j q);
          inner = inr refl;
          cost = omega arith;
        },
      )
  forwarder-Leads (suc k) i j x h p q e = elim (relaxed_cases node_ids k (st k) i j) [
    | inl same ↦
        let (c, t, l) = forwarder-Leads k i j x (omega arith) p q (rw same at e) in
        (c, rw same t, Leads-suc k j x c c (omega arith) l)
    | inr r ↦ elim (Option-cases (st k k j).forwarder) [
      | inl missing ↦
          let (c, t, l) = forwarder-Leads k i k x (omega arith) p h (ground arith) in
          (
            c + r.second,
            ground arith,
            Leads-join k j x c r.second h l
                (stage-Walk node_ids n initial k (omega arith) r.second_cost),
          )
      | inr (y, found) ↦
          let (c, t, l) = forwarder-Leads k k j x (omega arith) h q (ground arith) in
          (
            r.first + r.second,
            ground arith,
            Leads-suc k j x c (r.first + r.second) (ground arith) l,
          )
    ]
  ]

  -- The local node has a forwarder for whatever it reaches.
  me-forwarder :
      (k j c : ℕ)
      → k ≤ n
      → j < n
      → j ≢ me
      → (st k me j).cost ≡ pos c
      → (x : ℕ) × ((st k me j).forwarder ≡ some x)
  unfolding stage joined or_forwarder ◌+ℤ◌
  me-forwarder zero j c h q ne e = (get_or node_ids j 0, local.link j c ne e)
  me-forwarder (suc k) j c h q ne e = elim (relaxed_cases node_ids k (st k) me j) [
    | inl same ↦ rw same (me-forwarder k j c (omega arith) q ne (rw same at e))
    | inr r ↦ elim (Option-cases (st k k j).forwarder) [
      | inl missing ↦
          let (x, t) =
            me-forwarder k k r.first (omega arith) h (λ s. r.apart (sym s)) r.first_cost in
          (x, ground arith)
      | inr (y, found) ↦
          let (b, t, l) = forwarder-Leads k k j y (omega arith) h q found in
          let (d, s, g) = Leads-le k j y b (omega arith) q l in absurd (ground (arith, r.cheaper d))
    ]
  ]

  -- Where the local node sends what it routes: for a destination that it reaches, the entry's
  -- forwarder is a neighbor of it, and the link to that neighbor with the cheapest route from there
  -- makes up the cost of the entry; for one that it does not reach there is no forwarder.
  pub compute_next_hop :
      (m : List Route) (j : ℕ)
      → Holds n f m
      → j < n
      → j ≢ me
      → ((c : ℕ)
          → (at n (compute node_ids n m) me j).cost ≡ pos c
          → (h : ℕ) × (a : ℕ) × (b : ℕ) × (h < n)
            × (h ≢ me)
            × ((at n (compute node_ids n m) me j).forwarder ≡ some (get_or node_ids h 0))
            × ((f me h).cost ≡ pos a)
            × ((at n (compute node_ids n m) h j).cost ≡ pos b)
            × (c ≡ a + b))
        × ((at n (compute node_ids n m) me j).cost ≡ negsuc 0
            → (at n (compute node_ids n m) me j).forwarder ≡ none)
  compute_next_hop m j held q ne =
      let done = compute-Holds node_ids n f m held in
      (
        λ c e.
            let e' : (st n me j).cost ≡ pos c = ground (arith, done.entry me j me-lt q) in
            let (x, s) = me-forwarder n j c (omega arith) q ne e' in
            let (c', t, l) = forwarder-Leads n me j x (omega arith) me-lt q s in
            let (b, u, g) = stage-le node_ids n initial n (omega arith) l.m-lt l.rest in
            let (d, v, g') = stage-le node_ids n initial n (omega arith) me-lt (
              onward l.m-lt l.m-lt l.near (stage-Walk node_ids n initial n (omega arith) u) refl) in
            (
              l.m,
              l.a,
              b,
              l.m-lt,
              l.apart,
              ground (arith, done.entry me j me-lt q, l.id),
              l.near,
              ground (arith, done.entry l.m j l.m-lt q),
              ground (arith, l.cost),
            ),
        λ e. elim (Option-cases (st n me j).forwarder) [
          | inl missing ↦ ground (arith, done.entry me j me-lt q)
          | inr (x, found) ↦
              let (c, t, l) = forwarder-Leads n me j x (omega arith) me-lt q found in
              absurd (ground (arith, done.entry me j me-lt q))
        ],
      )
