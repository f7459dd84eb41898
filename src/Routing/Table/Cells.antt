-- ===== src/Routing/Table/Cells.antt =====
-- What the loops of the routing matrix do to each entry.
use spines.Prelude.{
  ℕ, zero, suc, ◌+◌, ◌*◌, ◌<◌, ◌≡◌, ◌∙◌, false, ◌&&◌, ◌||◌, List, [], ◌∷◌, arith, ltb, ◌==◌,
  if◌then◌else◌, get_or, set, length, length-set,
}
use spines.Prelude.Int.{pos, ltb_ℤ}
use spines.Prelude.Loops.{for_from, for_from_inv}
use spines.Prelude.{sym, inl, inr, Bool-cases}
use spines.Routing.{Route}
use spines.Routing.Table.{outside, at, write, improves, joined, relax, relax_row, relax_all}

index-lt : (n i j : ℕ) → i < n → j < n → i * n + j < n * n
index-lt n i j p q = grind arith

index_injective_lt : (n i j i' j' : ℕ) → j < n → i < i' → i * n + j < i' * n + j'
index_injective_lt n i j i' j' p q = grind arith

-- Two entries share an index only if they are one.
index_eq :
    (n i j i' j' : ℕ) → j < n → j' < n → (i * n + j == i' * n + j') ≡ ((i == i') && (j == j'))
index_eq n i j i' j' p q =
    ground (arith, index_injective_lt n i j i' j', index_injective_lt n i' j' i j)

get_or-set :
    (m : List Route) (a b : ℕ) (r : Route)
    → a < length m
    → get_or (set m a r) b outside ≡ (if a == b then r else get_or m b outside)
get_or-set [] a b r h = elim h [ ]
get_or-set (x ∷ m) zero zero r h = ground arith
get_or-set (x ∷ m) zero (suc b) r h = ground arith
get_or-set (x ∷ m) (suc a) zero r h = ground arith
get_or-set (x ∷ m) (suc a) (suc b) r h = ground (arith, get_or-set m a b r)

-- A write to an entry is read back there, and changes no other.
pub at-write :
    (n i j i' j' : ℕ) (r : Route) (m : List Route)
    → length m ≡ n * n
    → i < n
    → j < n
    → j' < n
    → at n (write n i j r m) i' j' ≡ (if (i == i') && (j == j') then r else at n m i' j')
at-write n i j i' j' r m e p q q' =
    ground (arith, index-lt n i j, index_eq n i j i' j', get_or-set m (i * n + j) (i' * n + j') r)

-- `m` is a matrix whose entries are given by `f`.
pub record Holds (n : ℕ) (f : ℕ → ℕ → Route) (m : List Route) : Type 0 where
  pub size : length m ≡ n * n
  pub entry : (i j : ℕ) → i < n → j < n → at n m i j ≡ f i j

pub write-Holds :
    (n i j : ℕ) (r : Route) (f g : ℕ → ℕ → Route) (m : List Route)
    → i < n
    → j < n
    → Holds n f m
    → ((i' j' : ℕ) → i' < n → j' < n → g i' j' ≡ (if (i == i') && (j == j') then r else f i' j'))
    → Holds n g (write n i j r m)
write-Holds n i j r f g m p q h e = record {
  size = length-set m (i * n + j) r ∙ h.size;
  entry = λ i' j' p' q'.
      ground (arith, at-write n i j i' j' r m h.size p q, h.entry i' j' p' q', e i' j' p' q');
}

-- The entry (i, j) of `f` after the round `k` of the loop over j, and of the whole round.
module _ (node_ids : List ℕ) (k : ℕ) (f : ℕ → ℕ → Route) where
  unfoldable pub relaxed_in_row : ℕ → ℕ → Route
  relaxed_in_row i j =
      if i == j || j == k || ltb_ℤ (f k j).cost (pos 0)
      then f i j
      else if improves (f i k) (f k j) (f i j)
      then joined (get_or node_ids k 0) (f i k) (f k j)
      else f i j

  unfoldable pub relaxed : ℕ → ℕ → Route
  unfolding relaxed_in_row
  relaxed i j = if i == k || ltb_ℤ (f i k).cost (pos 0) then f i j else relaxed_in_row i j

  -- The matrix inside the loop over j, and inside the loop over i.
  unfoldable row_part : ℕ → ℕ → ℕ → ℕ → Route
  row_part i last i' j' = if (i == i') && ltb j' last then relaxed_in_row i j' else f i' j'

  unfoldable all_part : ℕ → ℕ → ℕ → Route
  all_part last i' j' = if ltb i' last then relaxed i' j' else f i' j'

pub Holds-congr :
    (n : ℕ) (f g : ℕ → ℕ → Route) (m : List Route)
    → Holds n f m
    → ((i j : ℕ) → i < n → j < n → g i j ≡ f i j)
    → Holds n g m
Holds-congr n f g m h e = record {
  size = h.size;
  entry = λ i j p q. h.entry i j p q ∙ sym (e i j p q);
}

module _ (node_ids : List ℕ) (n k : ℕ) (f : ℕ → ℕ → Route) (k-lt : k < n) where
  -- The three entries that the body of the loop over j reads are still those of `f`.
  reads :
      (i j : ℕ) (m : List Route)
      → i < n
      → (i == k) ≡ false
      → j < n
      → Holds n (row_part node_ids k f i j) m
      → (at n m i k ≡ f i k) × (at n m k j ≡ f k j) × (at n m i j ≡ f i j)
  unfolding row_part relaxed_in_row
  reads i j m p ne q h = (
    ground (arith, h.entry i k p k-lt),
    ground (arith, h.entry k j k-lt q),
    ground (arith, h.entry i j p q),
  )

  relax-Holds :
      (i j : ℕ) (m : List Route)
      → i < n
      → (i == k) ≡ false
      → j < n
      → Holds n (row_part node_ids k f i j) m
      → Holds n (row_part node_ids k f i (suc j)) (relax node_ids n k i j m)
  unfolding relax row_part relaxed_in_row
  relax-Holds i j m p ne q h =
      let (ik, kj, ij) = reads i j m p ne q h in
      elim (Bool-cases (i == j || j == k || ltb_ℤ (f k j).cost (pos 0))) [
        | inl skip ↦ rw (kj, skip) (Holds-congr n _ _ m h (λ i' j' p' q'. ground arith))
        | inr go ↦ elim (Bool-cases (improves (f i k) (f k j) (f i j))) [
          | inl better ↦
              rw (ik, kj, ij, go, better)
                (write-Holds n i j _ _ _ m p q h (λ i' j' p' q'. ground arith))
          | inr worse ↦
              rw (ik, kj, ij, go, worse) (Holds-congr n _ _ m h (λ i' j' p' q'. ground arith))
        ]
      ]

  row_loop-Holds :
      (i : ℕ) (m : List Route)
      → i < n
      → (i == k) ≡ false
      → Holds n f m
      → Holds n (row_part node_ids k f i n) (for_from n 0 (relax node_ids n k i) m)
  row_loop-Holds i m p ne h =
      for_from_inv (λ j s. Holds n (row_part node_ids k f i j) s) _ n
        (λ j s q held. relax-Holds i j s p ne q held) n 0 m (omega arith)
        (Holds-congr n _ _ m h (λ i' j' p' q'. unfold row_part in ground arith))

module _ (node_ids : List ℕ) (n k : ℕ) (f : ℕ → ℕ → Route) (k-lt : k < n) where
  relax_row-Holds :
      (i : ℕ) (m : List Route)
      → i < n
      → Holds n (all_part node_ids k f i) m
      → Holds n (all_part node_ids k f (suc i)) (relax_row node_ids n k i m)
  unfolding relax_row all_part relaxed row_part relaxed_in_row
  relax_row-Holds i m p h =
      let ik : at n m i k ≡ f i k = ground (arith, h.entry i k p k-lt) in
      elim (Bool-cases (i == k || ltb_ℤ (f i k).cost (pos 0))) [
        | inl skip ↦ rw (ik, skip) (Holds-congr n _ _ m h (λ i' j' p' q'. ground arith))
        | inr go ↦
            rw (ik, go)
              (Holds-congr n _ _ _ (row_loop-Holds node_ids n k _ k-lt i m p (ground arith) h)
                (λ i' j' p' q'. ground arith))
      ]

  -- One round of the loop over k changes each entry as `relaxed` says, and reads no entry that it
  -- has changed.
  pub relax_all-Holds :
      (m : List Route) → Holds n f m → Holds n (relaxed node_ids k f) (relax_all node_ids n k m)
  unfolding relax_all all_part
  relax_all-Holds m h =
      Holds-congr n _ _ _
        (for_from_inv (λ i s. Holds n (all_part node_ids k f i) s) _ n
          (λ i s p held. relax_row-Holds i s p held) n 0 m (omega arith)
          (Holds-congr n _ _ m h (λ i' j' p' q'. ground arith)))
        (λ i' j' p' q'. ground arith)
