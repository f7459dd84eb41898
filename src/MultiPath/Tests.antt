-- ===== src/MultiPath/Tests.antt =====
-- Runs of the masks of daemon/multipath.c.
use spines.Prelude.{◌≡◌, refl, true, false, none, some, [], ◌∷◌, ◌==◌, if◌then◌else◌}
use spines.MultiPath.Mask.{
  Mask, words, collect, neighbor_on_path, is_superset, create_superset, is_equal,
}
use spines.MultiPath.Stamp.{
  Env, Cache, src_dst_graph, none_graph, stamp_bitmask, disjoint_paths, fill_higher,
}
use spines.MultiPath.Stamp.Laws.{IsSound, Stamped, stamp_bitmask-IsSound}

abbrev one_path : Mask
one_path = 5 ∷ 0 ∷ []

abbrev two_paths : Mask
two_paths = 7 ∷ 1 ∷ []

masks :
    (is_superset one_path two_paths ≡ true)
    × (is_superset two_paths one_path ≡ false)
    × (neighbor_on_path one_path (2 ∷ 1 ∷ []) ≡ false)
    × (create_superset one_path (2 ∷ 1 ∷ []) ≡ two_paths)
    × (is_equal one_path two_paths ≡ false)
unfolding is_superset neighbor_on_path create_superset is_equal words collect
masks = (refl, refl, refl, refl, refl)

-- A network with a single path to each destination.
abbrev env : Env
env = record {
  flooding = two_paths;
  current_graph = λ d. if d == 3 then src_dst_graph else none_graph;
  bitmasks = λ d g. 8 ∷ 8 ∷ [];
  compute = λ d k. if k == 0 then (0, []) else (1, one_path);
}

abbrev nothing_cached : Cache
nothing_cached d k = none

-- The mask of one path answers for three paths, and is cached for one, two, four and five.
stamps_three :
    let (m, c) = stamp_bitmask env nothing_cached 4 3 in
    (m ≡ some one_path) × (c 4 1 ≡ some one_path) × (c 4 5 ≡ some one_path) × (c 4 6 ≡ none)
unfolding stamp_bitmask disjoint_paths fill_higher
stamps_three = (refl, refl, refl, refl)

stamp_bitmask-IsSound_example :
    Stamped env 4 3 (stamp_bitmask env nothing_cached 4 3).0
    × IsSound env (stamp_bitmask env nothing_cached 4 3).1
stamp_bitmask-IsSound_example = stamp_bitmask-IsSound env nothing_cached 4 3 (λ d k m e. cc)
