-- ===== src/Routing/Table.antt =====
-- The routing matrix of `RR_Init` in daemon/route.c: how it is set up, and the three nested loops
-- that compute all shortest routes in place.
pub mod Cells
pub mod Walks
pub mod Shortest
pub mod Forwarders
use spines.Prelude.{
  ℕ, zero, suc, ◌+◌, ◌*◌, Bool, true, false, ◌||◌, Option, none, some, List, ltb, ◌==◌,
  if◌then◌else◌, get_or, set,
}
use spines.Prelude.Int.{ℤ, pos, negsuc, ◌+ℤ◌, ltb_ℤ}
use spines.Prelude.Loops.{for_from}
use spines.Routing.{Route}

-- What a read out of the matrix gives; no index of the code is out of range.
abbrev pub outside : Route
outside = record { distance = negsuc 0; cost = negsuc 0; forwarder = none; predecessor = 0 }

-- `rr->Routes[i * num_nodes + j]`
abbrev pub at : ℕ → List Route → ℕ → ℕ → Route
at n m i j = get_or m (i * n + j) outside

abbrev pub write : ℕ → ℕ → ℕ → Route → List Route → List Route
write n i j r m = set m (i * n + j) r

-- The first value of an entry.
unfoldable pub blank : ℕ → ℕ → Route
blank i j =
    if i == j
    then record { distance = pos 0; cost = pos 0; forwarder = none; predecessor = 0 }
    else record { distance = negsuc 0; cost = negsuc 0; forwarder = none; predecessor = 0 }

-- The two loops that initialise the allocated memory.
unfoldable pub blank_all : ℕ → List Route → List Route
blank_all n m = for_from n 0 (λ i m. for_from n 0 (λ j m. write n i j (blank i j) m) m) m

unfoldable pub improves : Route → Route → Route → Bool
improves ik kj ij = ltb_ℤ ij.cost (pos 0) || ltb_ℤ (ik.cost +ℤ kj.cost) ij.cost

unfoldable pub or_forwarder : Option ℕ → Option ℕ → Option ℕ
or_forwarder none f = f
or_forwarder (some g) f = some g

-- The route from i to j that goes through the node `via`.
unfoldable pub joined : ℕ → Route → Route → Route
joined via ik kj = record {
  distance = ik.distance +ℤ kj.distance;
  cost = ik.cost +ℤ kj.cost;
  forwarder = or_forwarder kj.forwarder ik.forwarder;
  predecessor = via;
}

-- `RR_Init` keeps the `Node_ID` of each index in `Node_IDs`.
module _ (node_ids : List ℕ) (n : ℕ) where
  -- The body of the loop over j.
  unfoldable pub relax : ℕ → ℕ → ℕ → List Route → List Route
  relax k i j m =
      if i == j || j == k || ltb_ℤ (at n m k j).cost (pos 0)
      then m
      else if improves (at n m i k) (at n m k j) (at n m i j)
      then write n i j (joined (get_or node_ids k 0) (at n m i k) (at n m k j)) m
      else m

  -- The body of the loop over i.
  unfoldable pub relax_row : ℕ → ℕ → List Route → List Route
  relax_row k i m =
      if i == k || ltb_ℤ (at n m i k).cost (pos 0) then m else for_from n 0 (relax k i) m

  -- The body of the loop over k.
  unfoldable pub relax_all : ℕ → List Route → List Route
  relax_all k m = for_from n 0 (relax_row k) m

  -- Floyd-Warshall.
  unfoldable pub compute : List Route → List Route
  compute m = for_from n 0 relax_all m
