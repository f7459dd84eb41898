-- ===== src/Routing/Table/Shortest.antt =====
-- Floyd-Warshall as daemon/route.c runs it: every entry is the cost of a cheapest walk.
use spines.Prelude.{
  ℕ, zero, suc, ◌+◌, ◌≤◌, ◌<◌, ◌≡◌, ◌≢◌, ◌⊎◌, ◌↔◌, inl, inr, Bool-cases, arith, ◌==◌, List, get_or,
  ◌||◌,
}
use spines.Prelude.Int.{pos, pos_part, negsuc, ◌+ℤ◌, ltb_ℤ}
use spines.Prelude.Loops.{for_from_inv}
use spines.Routing.{Route}
use spines.Routing.Table.{at, improves, joined, compute}
use spines.Routing.Table.Cells.{Holds, relaxed, relaxed_in_row, relax_all-Holds}
use spines.Routing.Table.Walks.{Walk, direct, onward, weaken, join, split}

-- A matrix before the computation: 0 on the diagonal, and elsewhere a cost or -1.
pub record IsInitial (n : ℕ) (f : ℕ → ℕ → Route) : Type 0 where
  pub diagonal : (i : ℕ) → i < n → (f i i).cost ≡ pos 0
  pub other : (i j : ℕ) → ((f i j).cost ≡ negsuc 0) ⊎ ((c : ℕ) × ((f i j).cost ≡ pos c))

module _ (node_ids : List ℕ) where
  -- The entries after the first `k` rounds.
  unfoldable pub stage : ℕ → (ℕ → ℕ → Route) → ℕ → ℕ → Route
  stage zero f = f
  stage (suc k) f = relaxed node_ids k (stage k f)

  module _ (k : ℕ) (g : ℕ → ℕ → Route) where
    -- A cost only falls.
    relaxed-le :
        (i j d : ℕ)
        → (g i j).cost ≡ pos d
        → (d' : ℕ) × ((relaxed node_ids k g i j).cost ≡ pos d') × (d' ≤ d)
    unfolding relaxed relaxed_in_row improves joined ◌+ℤ◌
    relaxed-le i j d e = (pos_part (relaxed node_ids k g i j).cost, ground arith, ground arith)

    relaxed_through :
        (i j a b : ℕ)
        → (g i i).cost ≡ pos 0
        → (g i k).cost ≡ pos a
        → (g k j).cost ≡ pos b
        → (d : ℕ) × ((relaxed node_ids k g i j).cost ≡ pos d) × (d ≤ a + b)
    unfolding relaxed relaxed_in_row improves joined ◌+ℤ◌
    relaxed_through i j a b z p q =
        (pos_part (relaxed node_ids k g i j).cost, ground arith, ground arith)

    -- What a round does to an entry: nothing, or it joins the two routes at `k`.
    pub record Joins (i j : ℕ) : Type 0 where
      pub first : ℕ
      pub second : ℕ
      pub apart : i ≢ k
      pub first_cost : (g i k).cost ≡ pos first
      pub second_cost : (g k j).cost ≡ pos second
      pub cheaper : (d : ℕ) → (g i j).cost ≡ pos d → first + second < d
      pub result : relaxed node_ids k g i j ≡ joined (get_or node_ids k 0) (g i k) (g k j)

    pub relaxed_cases : (i j : ℕ) → (relaxed node_ids k g i j ≡ g i j) ⊎ Joins i j
    unfolding relaxed relaxed_in_row improves ◌+ℤ◌
    relaxed_cases i j = elim (Bool-cases (i == k || ltb_ℤ (g i k).cost (pos 0))) [
      | inl t ↦ inl (ground arith)
      | inr t ↦ elim (Bool-cases (i == j || j == k || ltb_ℤ (g k j).cost (pos 0))) [
        | inl u ↦ inl (ground arith)
        | inr u ↦ elim (Bool-cases (improves (g i k) (g k j) (g i j))) [
          | inl v ↦ inr (record {
            first = pos_part (g i k).cost;
            second = pos_part (g k j).cost;
            apart = ground arith;
            first_cost = ground arith;
            second_cost = ground arith;
            cheaper = λ d e. ground arith;
            result = ground arith;
          })
          | inr v ↦ inl (ground arith)
        ]
      ]
    ]

  module _ (n : ℕ) {f : ℕ → ℕ → Route} (initial : IsInitial n f) where
    pub stage-diagonal : (k i : ℕ) → i < n → (stage k f i i).cost ≡ pos 0
    unfolding stage relaxed relaxed_in_row
    stage-diagonal zero i p = initial.diagonal i p
    stage-diagonal (suc k) i p = ground (arith, stage-diagonal k i p)

    -- After `k` rounds no walk whose inner nodes are below `k` is cheaper than the entry.
    pub stage-le :
        (k : ℕ) {i j c : ℕ}
        → k ≤ n
        → i < n
        → Walk f n k j i c
        → (d : ℕ) × ((stage k f i j).cost ≡ pos d) × (d ≤ c)
    unfolding stage
    stage-le zero h p (direct {c = c} e) = (c, e, omega arith)
    stage-le zero h p (onward p' q' e w s) = elim q' [ ]
    stage-le (suc k) {i} {j} {c} h p w = elim (split w) [
      | inl v ↦
          let (d, e, l) = stage-le k (omega arith) p v in
          let (d', e', l') = relaxed-le k (stage k f) i j d e in (d', e', omega arith)
      | inr (a, b, u, v, l) ↦
          let (a', ea, la) = stage-le k (omega arith) p u in
          let (b', eb, lb) = stage-le k (omega arith) (omega arith) v in
          let (d, e, l') = relaxed_through k (stage k f) i j a' b' (stage-diagonal k i p) ea eb in
          (d, e, omega arith)
    ]

    -- An entry with a cost has a walk of that cost.
    pub stage-Walk : (k : ℕ) {i j c : ℕ} → k ≤ n → (stage k f i j).cost ≡ pos c → Walk f n k j i c
    unfolding stage joined ◌+ℤ◌
    stage-Walk zero h e = direct e
    stage-Walk (suc k) {i} {j} {c} h e = elim (relaxed_cases k (stage k f) i j) [
      | inl same ↦ weaken (omega arith) (stage-Walk k (omega arith) (ground arith))
      | inr r ↦
          join (omega arith) (omega arith)
            (weaken (omega arith) (stage-Walk k (omega arith) r.first_cost))
            (weaken (omega arith) (stage-Walk k (omega arith) r.second_cost)) (ground arith)
    ]

    -- A cost is -1 or not negative.
    pub stage_signs :
        (k i j : ℕ) → ((stage k f i j).cost ≡ negsuc 0) ⊎ ((c : ℕ) × ((stage k f i j).cost ≡ pos c))
    unfolding stage joined ◌+ℤ◌
    stage_signs zero i j = initial.other i j
    stage_signs (suc k) i j = elim (relaxed_cases k (stage k f) i j) [
      | inl same ↦ rw same (stage_signs k i j)
      | inr r ↦ inr (r.first + r.second, ground arith)
    ]

  pub compute-Holds :
      (n : ℕ) (f : ℕ → ℕ → Route) (m : List Route)
      → Holds n f m
      → Holds n (stage n f) (compute node_ids n m)
  unfolding compute stage
  compute-Holds n f m h =
      for_from_inv (λ k s. Holds n (stage k f) s) _ n
        (λ k s p held. relax_all-Holds node_ids n k (stage k f) p s held) n 0 m (omega arith) h

  -- The routing computation is right: from a matrix that holds the links, it ends in one of the
  -- same size where an entry has the cost `c` exactly when some walk has that cost and none costs
  -- less, and the cost -1 exactly when there is no walk.
  pub compute-shortest :
      (n : ℕ) (f : ℕ → ℕ → Route) (m : List Route) (i j : ℕ)
      → IsInitial n f
      → Holds n f m
      → i < n
      → j < n
      → ((c : ℕ)
          → ((at n (compute node_ids n m) i j).cost ≡ pos c)
            ↔ (Walk f n n j i c × ((b : ℕ) → Walk f n n j i b → c ≤ b)))
        × (((at n (compute node_ids n m) i j).cost ≡ negsuc 0) ↔ ((c : ℕ) → ¬ Walk f n n j i c))
  compute-shortest n f m i j initial h p q =
      let e = (compute-Holds n f m h).entry i j p q in
      let lower : (c : ℕ) → Walk f n n j i c → (d : ℕ) × ((stage n f i j).cost ≡ pos d) × (d ≤ c) =
        λ c w. stage-le n initial n (omega arith) p w in
      rw e (
        λ c. (
          λ s. (stage-Walk n initial n (omega arith) s, λ b w. ground (arith, lower b w)),
          λ (w, least).
              let (d, s, l) = lower c w in
              ground (arith, least d (stage-Walk n initial n (omega arith) s)),
        ),
        (
          λ s c w. ground (arith, lower c w),
          λ none. elim (stage_signs n initial n i j) [
            | inl s ↦ s
            | inr (c, s) ↦ absurd (none c (stage-Walk n initial n (omega arith) s))
          ],
        ),
      )
