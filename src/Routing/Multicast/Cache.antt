-- ===== src/Routing/Multicast/Cache.antt =====
-- The cache of the answers of `RR_Get_Mcast_Neighbors` in daemon/route.c.
use mathlib.Core.Option.{some-injective}
use spines.Prelude.{
  ℕ, ◌≡◌, ◌≢◌, refl, sym, ap, ◌∙◌, ◌⊎◌, inl, inr, true, Option, none, some, List, [], ◌∷◌, ◌==◌,
  if◌then◌else◌, arith, Option-cases, Bool-cases,
}
use spines.Prelude.Maps.{Map, put, erase}
use spines.Routing.Regime.{Regime, get_next_hop}
use spines.Routing.Multicast.{
  Env, GroupState, Found, better, scan_state, scan, add_best, sources_of, build,
  get_mcast_neighbors, discard_mcast_neighbors,
}

-- Every cached answer is the one that would be built now.
pub record IsFresh (env : Env) (rr : Regime) : Type 0 where
  pub cached :
      (group sender : ℕ) (l : List ℕ)
      → sources_of rr group sender ≡ some l
      → (states : List GroupState) × (env.groups_by_name group ≡ some states)
        × (l ≡ build env rr sender group states)

-- The cache and the table of the groups play no part in what is built from the states of a group.
module _ (env : Env) (rr : Regime) (names : Map (List GroupState))
    (groups : Map (Map (List ℕ))) where
  abbrev env' : Env
  env' = record env { groups_by_name = names }

  abbrev rr' : Regime
  rr' = record rr { groups = groups }

  scan_state_frame :
      (sender group : ℕ) (g : GroupState) (found : Found)
      → scan_state env' rr' sender group g found ≡ scan_state env rr sender group g found
  unfolding scan_state better get_next_hop
  scan_state_frame sender group g found = refl

  scan_frame :
      (sender group : ℕ) (states : List GroupState) (found : Found)
      → scan env' rr' sender group states found ≡ scan env rr sender group states found
  unfolding scan
  scan_frame sender group [] found = refl
  scan_frame sender group (g ∷ gs) found =
      elim (Option-cases (scan_state env rr sender group g found)) [
        | inl t ↦ rw (scan, scan_state_frame, t)
        | inr (f, t) ↦ rw (scan, scan_state_frame, t) (scan_frame sender group gs f)
      ]

  build_frame :
      (sender group : ℕ) (states : List GroupState)
      → build env' rr' sender group states ≡ build env rr sender group states
  unfolding build add_best
  build_frame sender group states = rw scan_frame

module _ (env : Env) (rr : Regime) where
  -- A table of fresh answers for one group keeps the cache fresh.
  put_sources-IsFresh :
      (group : ℕ) (sources : Map (List ℕ))
      → IsFresh env rr
      → ((sender : ℕ) (l : List ℕ)
          → sources sender ≡ some l
          → (states : List GroupState) × (env.groups_by_name group ≡ some states)
            × (l ≡ build env rr sender group states))
      → IsFresh env (record rr { groups = put rr.groups group sources })
  unfolding sources_of
  put_sources-IsFresh group sources fresh new = record {
    cached = λ group' sender l e. elim (Bool-cases (group == group')) [
      | inl t ↦
          let same : group ≡ group' = ground arith in
          let (states, known, built) = new sender l (ground arith) in
          (
            states,
            rw (← same) known,
            rw
                (build_frame env rr env.groups_by_name (put rr.groups group sources) sender group'
                  states)
                (rw (← same) built),
          )
      | inr t ↦
          let (states, known, built) = fresh.cached group' sender l (ground arith) in
          (
            states,
            known,
            rw
                (build_frame env rr env.groups_by_name (put rr.groups group sources) sender group'
                  states)
                built,
          )
    ];
  }

-- What the lookup does to the cache: it holds the given answer for the sender and the group, and what
-- it held for others; nothing else of the routing state changes.
pub record Cached (rr : Regime) (sender group : ℕ) (answer : List ℕ) (rr' : Regime) : Type 0 where
  pub here : sources_of rr' group sender ≡ some answer
  pub others :
      (group' sender' : ℕ)
      → (group' ≢ group) ⊎ (sender' ≢ sender)
      → sources_of rr' group' sender' ≡ sources_of rr group' sender'
  pub routes : rr' ≡ record rr { groups = rr'.groups }

put-Cached :
    (rr : Regime) (sender group : ℕ) (answer : List ℕ) (sources : Map (List ℕ))
    → sources sender ≡ some answer
    → ((sender' : ℕ) → sender' ≢ sender → sources sender' ≡ sources_of rr group sender')
    → Cached rr sender group answer (record rr { groups = put rr.groups group sources })
unfolding sources_of
put-Cached rr sender group answer sources here others =
    let self : (group == group) ≡ true = ground arith in
    record {
      here = ground (arith, here);
      others = λ group' sender' apart. elim (Bool-cases (group == group')) [
        | inl t ↦
            let e : group ≡ group' = ground arith in
            let same = others sender' (elim apart [ inl ne ↦ absurd (ne (sym e)) | inr ne ↦ ne ]) in
            let same' = ap (λ g. sources_of rr g sender') e in ground (arith, same, same')
        | inr t ↦ ground arith
      ];
      routes = refl;
    }

-- With a fresh cache a known group is answered by what is built from its states, whether the answer
-- was cached or not, and an unknown group by the null pointer, with no change. The answer for a known
-- group is in the cache afterwards, the cached answers for other groups or senders are as before,
-- and nothing else of the routing state changes, so no route does; the cache stays fresh.
pub get_mcast_neighbors-IsFresh :
    (env : Env) (rr : Regime) (sender group : ℕ)
    → IsFresh env rr
    → ((states : List GroupState)
        → env.groups_by_name group ≡ some states
        → ((get_mcast_neighbors env rr sender group).0 ≡ some (build env rr sender group states))
          × Cached rr sender group
              (build env rr sender group states)
              (get_mcast_neighbors env rr sender group).1)
      × (env.groups_by_name group ≡ none → get_mcast_neighbors env rr sender group ≡ (none, rr))
      × IsFresh env (get_mcast_neighbors env rr sender group).1
unfolding get_mcast_neighbors
get_mcast_neighbors-IsFresh env rr sender group fresh =
    elim (Option-cases (env.groups_by_name group)) [
      | inl t ↦ (
        λ states e. absurd (ground arith),
        λ e. rw (t, get_mcast_neighbors),
        rw (t, get_mcast_neighbors) fresh,
      )
      | inr (states, t) ↦ elim (Option-cases (sources_of rr group sender)) [
        | inr (l, u) ↦
            let (states', known, built) = fresh.cached group sender l u in
            (
              λ states'' e.
                  let same : l ≡ build env rr sender group states'' =
                    built
                    ∙ ap (build env rr sender group)
                        (some-injective states' states'' (sym known ∙ e)) in
                  rw (t, u, get_mcast_neighbors)
                    (
                      ap some same,
                      put-Cached rr sender group _ (sources_of rr group) (u ∙ ap some same)
                          (λ s' ne. refl),
                    ),
              λ e. absurd (ground arith),
              rw (t, u, get_mcast_neighbors)
                  (put_sources-IsFresh env rr group (sources_of rr group) fresh
                    (λ sender' l' e. fresh.cached group sender' l' e)),
            )
        | inl u ↦ (
          λ states'' e.
              let same : states ≡ states'' = some-injective states states'' (sym t ∙ e) in
              rw (t, u, get_mcast_neighbors)
                (
                  ap (λ l. some (build env rr sender group l)) same,
                  put-Cached rr sender group _ _
                      (ground (arith, same, ap (build env rr sender group) same))
                      (λ s' ne. ground arith),
                ),
          λ e. absurd (ground arith),
          rw (t, u, get_mcast_neighbors)
              (put_sources-IsFresh env rr group _ fresh (λ sender' l' e.
                elim (Bool-cases (sender == sender')) [
                  | inl v ↦ (states, t, ground arith)
                  | inr v ↦ fresh.cached group sender' l' (ground arith)
                ])),
        )
      ]
    ]

-- When the states of a group change, discarding its answers makes the cache fresh again for the
-- new states, whatever it held for that group; and it forgets no other group's answers.
pub discard-IsFresh :
    (env : Env) (rr : Regime) (group : ℕ) (states : Option (List GroupState))
    → IsFresh env rr
    → let after = discard_mcast_neighbors rr group in
      IsFresh
        (record env { groups_by_name = λ g. if group == g then states else env.groups_by_name g })
        after
      × ((other : ℕ) → other ≢ group → after.groups other ≡ rr.groups other)
unfolding discard_mcast_neighbors sources_of
discard-IsFresh env rr group states fresh = (
  record {
    cached = λ other sender l e. elim (Bool-cases (group == other)) [
      | inl t ↦ absurd (ground arith)
      | inr t ↦
          let (known_states, known, built) = fresh.cached other sender l (ground arith) in
          (
            known_states,
            ground arith,
            rw
                (build_frame env rr (λ g. if group == g then states else env.groups_by_name g)
                  (erase rr.groups group) sender other known_states)
                built,
          )
    ];
  },
  λ other ne. ground arith,
)
