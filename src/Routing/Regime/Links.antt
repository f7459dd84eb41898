-- ===== src/Routing/Regime/Links.antt =====
-- How `RR_Init` of daemon/route.c numbers the nodes and enters the edges.
use spines.Prelude.{
  ℕ, zero, suc, ◌+◌, ◌<◌, ◌≡◌, ◌⊎◌, inl, inr, some, List, [], ◌∷◌, ◌==◌, length, get_or, arith,
  Bool-cases,
}
use spines.Prelude.Maps.{Map, empty, put}
use spines.Routing.Regime.{index_nodes}

-- `indexes` numbers the nodes of the list by their places in it.
pub record IsIndex (nodes : List ℕ) (indexes : Map ℕ) : Type 0 where
  pub to_id : (nid i : ℕ) → indexes nid ≡ some i → (i < length nodes) × (get_or nodes i 0 ≡ nid)
  pub of_id : (i : ℕ) → i < length nodes → indexes (get_or nodes i 0) ≡ some i

abbrev pub IsDistinct : List ℕ → Type 0
IsDistinct nodes =
    (i j : ℕ) → i < length nodes → j < length nodes → get_or nodes i 0 ≡ get_or nodes j 0 → i ≡ j

index_nodes-to_id :
    (k : ℕ) (nodes : List ℕ) (m : Map ℕ) (nid i : ℕ)
    → index_nodes k nodes m nid ≡ some i
    → (m nid ≡ some i) ⊎ ((j : ℕ) × (i ≡ k + j) × (j < length nodes) × (get_or nodes j 0 ≡ nid))
unfolding index_nodes
index_nodes-to_id k [] m nid i e = inl e
index_nodes-to_id k (x ∷ nodes) m nid i e =
    elim (index_nodes-to_id (suc k) nodes (put m x k) nid i e) [
      | inl old ↦ elim (Bool-cases (x == nid)) [
        | inl t ↦ inr (0, ground arith, omega arith, ground arith)
        | inr t ↦ inl (ground arith)
      ]
      | inr (j, s, l, g) ↦ inr (suc j, omega arith, omega arith, g)
    ]

index_nodes-kept :
    (k : ℕ) (nodes : List ℕ) (m : Map ℕ) (nid x : ℕ)
    → m nid ≡ some x
    → (y : ℕ) × (index_nodes k nodes m nid ≡ some y)
unfolding index_nodes
index_nodes-kept k [] m nid x e = (x, e)
index_nodes-kept k (z ∷ nodes) m nid x e = elim (Bool-cases (z == nid)) [
  | inl t ↦ index_nodes-kept (suc k) nodes (put m z k) nid k (ground arith)
  | inr t ↦ index_nodes-kept (suc k) nodes (put m z k) nid x (ground arith)
]

index_nodes-found :
    (k : ℕ) (nodes : List ℕ) (m : Map ℕ) (i : ℕ)
    → i < length nodes
    → (y : ℕ) × (index_nodes k nodes m (get_or nodes i 0) ≡ some y)
unfolding index_nodes
index_nodes-found k [] m i h = elim h [ ]
index_nodes-found k (z ∷ nodes) m zero h =
    index_nodes-kept (suc k) nodes (put m z k) z k (ground arith)
index_nodes-found k (z ∷ nodes) m (suc i) h =
    index_nodes-found (suc k) nodes (put m z k) i (omega arith)

pub index_nodes-IsIndex :
    (nodes : List ℕ) → IsDistinct nodes → IsIndex nodes (index_nodes 0 nodes empty)
index_nodes-IsIndex nodes distinct = record { to_id = to; of_id = of }
  where
    to :
        (nid i : ℕ)
        → index_nodes 0 nodes empty nid ≡ some i
        → (i < length nodes) × (get_or nodes i 0 ≡ nid)
    to nid i e = elim (index_nodes-to_id 0 nodes empty nid i e) [
      | inl old ↦ cc
      | inr (j, s, l, g) ↦ let s' : i ≡ j = omega arith in (omega arith, rw s' g)
    ]

    of : (i : ℕ) → i < length nodes → index_nodes 0 nodes empty (get_or nodes i 0) ≡ some i
    of i h =
        let (j, e) = index_nodes-found 0 nodes empty i h in
        let (l, g) = to (get_or nodes i 0) j e in let s : j ≡ i = distinct j i l h g in rw s at e
