-- ===== src/MultiPath/Stamp/Laws.antt =====
-- What `MultiPath_Stamp_Bitmask` (daemon/multipath.c) stamps, whatever it has in its cache.
use Prim.Native.Nat.{bit_or}
use mathlib.Core.Option.{some-injective}
use spines.Prelude.{
  ℕ, ◌≤◌, ◌<◌, ◌≡◌, ◌≢◌, ◌⊎◌, inl, inr, refl, false, ◌&&◌, ◌||◌, not, Option, none, some, ltb, leb,
  ◌==◌, if◌then◌else◌, arith, Option-cases, Bool-cases,
}
use spines.MultiPath.Mask.{Mask, words}
use spines.MultiPath.Stamp.{
  max_nodes, max_k, dg_k_flag, Graph, none_graph, k2_graph, src_graph, dst_graph, src_dst_graph,
  Cache, Env, cache_set, cached_or_computed, fill_higher, disjoint_paths, graph_mask, stamp_bitmask,
}

module _ (env : Env) where
  -- The mask is the one computed for the destination and that number of paths; or for some other
  -- number, for which fewer paths were found, and no more of them than are asked for.
  abbrev pub Answers : ℕ → ℕ → Mask → Type 0
  Answers d k m =
      (m ≡ (env.compute d k).1)
      ⊎ ((j : ℕ) × ((env.compute d j).0 ≢ 0)
          × ((env.compute d j).0 < j)
          × ((env.compute d j).0 ≤ k)
          × (m ≡ (env.compute d j).1))

  -- Every cached mask answers for what it is cached under.
  abbrev pub IsSound : Cache → Type 0
  IsSound c = (d k : ℕ) (m : Mask) → c d k ≡ some m → Answers d k m

  Answers-same :
      (d d' k k' : ℕ) (m m' : Mask) → d ≡ d' → k ≡ k' → m ≡ m' → Answers d k m → Answers d' k' m'
  Answers-same d d' k k' m m' e e' e'' a = rw (← e, ← e', ← e'') a

  cache_set-IsSound :
      (c : Cache) (d k : ℕ) (m : Mask) → IsSound c → Answers d k m → IsSound (cache_set c d k m)
  cache_set-IsSound c d k m s a d' k' m' e = elim (Bool-cases ((d == d') && (k == k'))) [
    | inl t ↦
        Answers-same d d' k k' m m' (ground arith) (ground arith) (some-injective m m' (rw t at e))
          a
    | inr t ↦ s d' k' m' (rw t at e)
  ]

  cached_or_computed-IsSound :
      (c : Cache) (d k : ℕ)
      → IsSound c
      → Answers d k (cached_or_computed env c d k).0 × IsSound (cached_or_computed env c d k).1
  unfolding cached_or_computed
  cached_or_computed-IsSound c d k s = elim (Option-cases (c d k)) [
    | inl t ↦
        rw (t, cached_or_computed)
          (inl refl, cache_set-IsSound c d k (env.compute d k).1 s (inl refl))
    | inr (m, t) ↦ rw (t, cached_or_computed) (s d k m t, s)
  ]

  fill_higher-IsSound :
      (c : Cache) (d k : ℕ)
      → IsSound c
      → ((env.compute d k).0 == 0) ≡ false
      → (env.compute d k).0 < k
      → IsSound (fill_higher env c d k (env.compute d k).0 (env.compute d k).1)
  unfolding fill_higher
  fill_higher-IsSound c d k s some_found fewer d' k' m' e =
      let (ret, m) = env.compute d k in
      elim (Bool-cases ((d == d') && (leb ret k' && leb k' max_k && not (k == k')))) [
        | inl t ↦
            Answers-same d d' k' k' m m' (ground arith) refl (some-injective m m' (rw t at e))
              (inr (k, ground arith, fewer, ground arith, refl))
        | inr t ↦ s d' k' m' (rw t at e)
      ]

  disjoint_paths-IsSound :
      (c : Cache) (d k : ℕ)
      → IsSound c
      → Answers d k (disjoint_paths env c d k).0 × IsSound (disjoint_paths env c d k).1
  unfolding disjoint_paths
  disjoint_paths-IsSound c d k s = elim (Option-cases (c d k)) [
    | inr (m, t) ↦ rw (t, disjoint_paths) (s d k m t, s)
    | inl t ↦
        let (ret, m) = env.compute d k in
        let s' = cache_set-IsSound c d k m s (inl refl) in
        rw (t, disjoint_paths)
          (elim (Bool-cases (not (ret == 0) && ltb ret k)) [
            | inr f ↦ rw f (inl refl, s')
            | inl f ↦ rw f (
              inl refl,
              fill_higher-IsSound (cache_set c d k m) d k s' (ground arith) (ground arith),
            )
          ])
  ]

  -- The mask for a graph: of two paths, or of the graph, or of both together.
  abbrev pub GraphAnswers : Graph → ℕ → Mask → Type 0
  GraphAnswers none_graph d m = Answers d 2 m
  GraphAnswers k2_graph d m = Answers d 2 m
  GraphAnswers src_graph d m = m ≡ env.bitmasks d src_graph
  GraphAnswers dst_graph d m = m ≡ env.bitmasks d dst_graph
  GraphAnswers src_dst_graph d m =
      (two : Mask) × Answers d 2 two × (m ≡ words bit_or two (env.bitmasks d src_dst_graph))

  graph_mask-IsSound :
      (g : Graph) (c : Cache) (d : ℕ)
      → IsSound c
      → GraphAnswers g d (graph_mask env g c d).0 × IsSound (graph_mask env g c d).1
  unfolding graph_mask
  graph_mask-IsSound none_graph c d s = disjoint_paths-IsSound c d 2 s
  graph_mask-IsSound k2_graph c d s = cached_or_computed-IsSound c d 2 s
  graph_mask-IsSound src_graph c d s = (refl, s)
  graph_mask-IsSound dst_graph c d s = (refl, s)
  graph_mask-IsSound src_dst_graph c d s =
      let (a, s') = cached_or_computed-IsSound c d 2 s in
      (((cached_or_computed env c d 2).0, a, refl), s')

  -- What a destination and a number of paths are answered with.
  pub record Stamped (d k : ℕ) (o : Option Mask) : Type 0 where
    pub refused : ((d ≡ 0) × (0 < k)) ⊎ (max_nodes < d) → o ≡ none
    pub flooded : d ≤ max_nodes → k ≡ 0 → o ≡ some env.flooding
    pub graph :
        0 < d
        → d ≤ max_nodes
        → k ≡ dg_k_flag
        → (m : Mask) × (o ≡ some m) × GraphAnswers (env.current_graph d) d m
    pub paths :
        0 < d
        → d ≤ max_nodes
        → 0 < k
        → k ≢ dg_k_flag
        → (m : Mask) × (o ≡ some m) × Answers d (if ltb max_k k then max_k else k) m

  -- From a cache whose masks answer for what they are cached under, the function refuses just a
  -- destination out of range, or none with a number of paths. With no number it stamps the mask for
  -- flooding. With the number for dissemination graphs it stamps the mask of the destination's graph.
  -- With another number, five at most, it stamps a mask computed for that number, or one for which
  -- fewer paths were found than it was computed for, and no more than that number. The cache then
  -- holds masks that answer for what they are cached under.
  pub stamp_bitmask-IsSound :
      (c : Cache) (d k : ℕ)
      → IsSound c
      → Stamped d k (stamp_bitmask env c d k).0 × IsSound (stamp_bitmask env c d k).1
  unfolding stamp_bitmask
  stamp_bitmask-IsSound c d k s = elim (Bool-cases ((d == 0 && ltb 0 k) || ltb max_nodes d)) [
    | inl far ↦ rw far (
      record {
        refused = λ h. refl;
        flooded = λ le e. absurd (ground arith);
        graph = λ pos le e. absurd (ground arith);
        paths = λ pos le some_k other. absurd (ground arith);
      },
      s,
    )
    | inr near ↦
        let k' = if ltb max_k k && not (k == dg_k_flag) then max_k else k in
        rw near (elim (Bool-cases (k' == 0)) [
          | inl none_asked ↦ rw none_asked (
            record {
              refused = λ h. absurd (ground arith);
              flooded = λ le e. refl;
              graph = λ pos le e. absurd (ground arith);
              paths = λ pos le some_k other. absurd (ground arith);
            },
            s,
          )
          | inr asked ↦ rw asked (elim (Bool-cases (k' == dg_k_flag)) [
            | inl is_graph ↦
                let (a, s') = graph_mask-IsSound (env.current_graph d) c d s in
                rw is_graph (
                  record {
                    refused = λ h. absurd (ground arith);
                    flooded = λ le e. absurd (ground arith);
                    graph = λ pos le e. ((graph_mask env (env.current_graph d) c d).0, refl, a);
                    paths = λ pos le some_k other. absurd (ground arith);
                  },
                  s',
                )
            | inr is_paths ↦
                let (a, s') = disjoint_paths-IsSound c d k' s in
                rw is_paths (
                  record {
                    refused = λ h. absurd (ground arith);
                    flooded = λ le e. absurd (ground arith);
                    graph = λ pos le e. absurd (ground arith);
                    paths = λ pos le some_k other.
                        let same : k' ≡ (if ltb max_k k then max_k else k) = ground arith in
                        (
                          (disjoint_paths env c d k').0,
                          refl,
                          Answers-same d d k' _ _ _ refl same refl a,
                        );
                  },
                  s',
                )
          ])
        ])
  ]
