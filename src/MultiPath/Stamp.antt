-- ===== src/MultiPath/Stamp.antt =====
-- `MultiPath_Stamp_Bitmask` of daemon/multipath.c: which mask a packet gets, and the cache of the
-- masks that were computed.
pub mod Laws
use Prim.Native.Nat.{bit_or}
use spines.Prelude.{
  ℕ, zero, suc, ◌+◌, Bool, true, false, ◌&&◌, ◌||◌, not, Option, none, some, ltb, leb, ◌==◌,
  if◌then◌else◌,
}
use spines.MultiPath.Mask.{Mask, words}

-- MAX_NODES, MULTIPATH_MAX_K and DG_K_FLAG
abbrev pub max_nodes : ℕ
max_nodes = 50

abbrev pub max_k : ℕ
max_k = 5

abbrev pub dg_k_flag : ℕ
dg_k_flag = max_k + 1

-- The types of dissemination graphs, in the order of their numbers.
pub data Graph : Type 0 where
  none_graph k2_graph src_graph dst_graph src_dst_graph : Graph

-- `MP_Cache`, by destination and number of paths.
abbrev pub Cache : Type 0
Cache = ℕ → ℕ → Option Mask

-- What the function reads: `MP_Flooding_Bitmask`, the current graph of each destination with its
-- bitmasks, and what `MultiPath_Compute` finds for a destination and a number of paths.
pub record Env : Type 0 where
  pub flooding : Mask
  pub current_graph : ℕ → Graph
  pub bitmasks : ℕ → Graph → Mask
  pub compute : ℕ → ℕ → ℕ × Mask

abbrev pub cache_set : Cache → ℕ → ℕ → Mask → Cache
cache_set c d k m d' k' = if (d == d') && (k == k') then some m else c d' k'

-- `memcpy` of a mask into the packet.
abbrev pub copied : Mask × Cache → Option Mask × Cache
copied r = (some r.0, r.1)

module _ (env : Env) where
  -- The mask of `k` paths, from the cache or computed and cached.
  unfoldable pub cached_or_computed : Cache → ℕ → ℕ → Mask × Cache
  cached_or_computed c d k = elim (c d k) [
    | some m ↦ (m, c)
    | none ↦ let m = (env.compute d k).1 in (m, cache_set c d k m)
  ]

  -- The loop that caches the mask for each larger number of paths, from `ret` to max_k.
  unfoldable pub fill_higher : Cache → ℕ → ℕ → ℕ → Mask → Cache
  fill_higher c d k ret m d' k' =
      if (d == d') && (leb ret k' && leb k' max_k && not (k == k')) then some m else c d' k'

  -- The end of the function: node-disjoint paths.
  unfoldable pub disjoint_paths : Cache → ℕ → ℕ → Mask × Cache
  disjoint_paths c d k = elim (c d k) [
    | some m ↦ (m, c)
    | none ↦
        let (ret, m) = env.compute d k in
        let c' = cache_set c d k m in
        if not (ret == 0) && ltb ret k then (m, fill_higher c' d k ret m) else (m, c')
  ]

  -- The branch for dissemination graphs.
  unfoldable pub graph_mask : Graph → Cache → ℕ → Mask × Cache
  graph_mask none_graph c d = disjoint_paths c d 2
  graph_mask k2_graph c d = cached_or_computed c d 2
  graph_mask src_graph c d = (env.bitmasks d src_graph, c)
  graph_mask dst_graph c d = (env.bitmasks d dst_graph, c)
  graph_mask src_dst_graph c d =
      let (m, c') = cached_or_computed c d 2 in (words bit_or m (env.bitmasks d src_dst_graph), c')

  -- `none`: the function returns 0 and leaves the mask alone.
  unfoldable pub stamp_bitmask : Cache → ℕ → ℕ → Option Mask × Cache
  stamp_bitmask c dest_id k =
      if (dest_id == 0 && ltb 0 k) || ltb max_nodes dest_id
      then (none, c)
      else let k' = if ltb max_k k && not (k == dg_k_flag) then max_k else k in
        if k' == 0
        then (some env.flooding, c)
        else if k' == dg_k_flag
        then copied (graph_mask (env.current_graph dest_id) c dest_id)
        else copied (disjoint_paths c dest_id k')
