-- ===== src/Routing/Regime/Entered.antt =====
-- What the loops over the edges in `RR_Init` of daemon/route.c leave in the matrix.
use spines.Prelude.{
  ℕ, ◌*◌, ◌<◌, ◌≡◌, refl, inl, inr, Bool, ◌&&◌, not, Option, none, some, List, [], ◌∷◌, ◌++◌, ◌==◌,
  if◌then◌else◌, length, get_or, arith, ltb, Option-cases, Bool-cases,
}
use mathlib.Core.List.{flatten}
use spines.Prelude.Maps.{Map}
use spines.Prelude.Loops.{for_from, for_from_inv}
use spines.Routing.{Route, Edge}
use spines.Routing.Table.{at, write, blank, blank_all}
use spines.Routing.Table.Cells.{Holds, write-Holds, Holds-congr}
use spines.Routing.Regime.{is_down, over, fill_edge, fill_chain, fill_all, ◌>>=◌}
use spines.Routing.Regime.Links.{IsIndex}

abbrev pub links : Edge → ℕ → ℕ → Bool
links e s d = not (is_down e.cost) && (e.src == s && e.dst == d)

-- The last edge of the list that is up and leads from `s` to `d`.
unfoldable pub last_edge : List Edge → ℕ → ℕ → Option Edge
last_edge [] s d = none
last_edge (e ∷ es) s d = elim (last_edge es s d) [
  | some e' ↦ some e'
  | none ↦ if links e s d then some e else none
]

unfoldable pub entered : ℕ → Option Edge → Route → Route
entered this_node none r = r
entered this_node (some e) r = over this_node e

pub last_edge_ends :
    (es : List Edge) (s d : ℕ) {e : Edge} → last_edge es s d ≡ some e → (e.src ≡ s) × (e.dst ≡ d)
unfolding last_edge
last_edge_ends [] s d h = cc
last_edge_ends (e ∷ es) s d h = elim (Option-cases (last_edge es s d)) [
  | inl t ↦ ground arith
  | inr (e', t) ↦ ground (arith, last_edge_ends es s d t)
]

module _ (this_node : ℕ) (nodes : List ℕ) (indexes : Map ℕ) (index : IsIndex nodes indexes) where
  abbrev pub n : ℕ
  n = length nodes

  abbrev pub id : ℕ → ℕ
  id i = get_or nodes i 0

  fill_edge-Holds :
      (e : Edge) (f : ℕ → ℕ → Route) (m m' : List Route)
      → Holds n f m
      → fill_edge this_node indexes n e m ≡ some m'
      → Holds n (λ i j. if links e (id i) (id j) then over this_node e else f i j) m'
  unfolding fill_edge
  fill_edge-Holds e f m m' h s = elim (Bool-cases (is_down e.cost)) [
    | inl down ↦
        let same : m ≡ m' = ground arith in
        rw (← same) (Holds-congr n _ _ m h (λ i j p q. ground arith))
    | inr up ↦ elim (Option-cases (indexes e.src)) [
      | inl none_i ↦ absurd (ground arith)
      | inr (i, at_i) ↦ elim (Option-cases (indexes e.dst)) [
        | inl none_j ↦ absurd (ground arith)
        | inr (j, at_j) ↦
            let (p, a) = index.to_id e.src i at_i in
            let (q, b) = index.to_id e.dst j at_j in
            let same : write n i j (over this_node e) m ≡ m' = ground arith in
            rw (← same) (
              write-Holds n i j _ _ _ m p q h
                (λ i' j' p' q'. ground (arith, index.of_id i' p', index.of_id j' q')))
      ]
    ]
  ]

  -- Every end of an edge that is up has an index, if the program does not exit.
  pub fill_chain-known :
      (es : List Edge) (m m' : List Route) (s d : ℕ) (e : Edge)
      → fill_chain this_node indexes n es m ≡ some m'
      → last_edge es s d ≡ some e
      → (j : ℕ) × (indexes d ≡ some j)
  unfolding fill_chain fill_edge last_edge
  fill_chain-known [] m m' s d e h l = cc
  fill_chain-known (x ∷ es) m m' s d e h l =
      elim (Option-cases (fill_edge this_node indexes n x m)) [
        | inl t ↦ absurd (ground arith)
        | inr (m₁, t) ↦ elim (Option-cases (last_edge es s d)) [
          | inr (e', u) ↦ fill_chain-known es m₁ m' s d e' (ground arith) u
          | inl u ↦ elim (Option-cases (indexes d)) [
            | inr found ↦ found
            | inl missing ↦ absurd (ground arith)
          ]
        ]
      ]

  pub fill_chain-Holds :
      (es : List Edge) (f : ℕ → ℕ → Route) (m m' : List Route)
      → Holds n f m
      → fill_chain this_node indexes n es m ≡ some m'
      → Holds n (λ i j. entered this_node (last_edge es (id i) (id j)) (f i j)) m'
  unfolding fill_chain last_edge entered
  fill_chain-Holds [] f m m' h s = let same : m ≡ m' = ground arith in rw (← same) h
  fill_chain-Holds (e ∷ es) f m m' h s = elim (Option-cases (fill_edge this_node indexes n e m)) [
    | inl t ↦ absurd (ground arith)
    | inr (m₁, t) ↦
        Holds-congr n _ _ m'
          (fill_chain-Holds es _ m₁ m' (fill_edge-Holds e f m m₁ h t) (ground arith))
          (λ i j p q. ground arith)
  ]

  fill_chain-append :
      (es fs : List Edge) (m : List Route)
      → fill_chain this_node indexes n (es ++ fs) m
        ≡ (fill_chain this_node indexes n es m >>= fill_chain this_node indexes n fs)
  unfolding fill_chain
  fill_chain-append [] fs m = refl
  fill_chain-append (e ∷ es) fs m = elim (Option-cases (fill_edge this_node indexes n e m)) [
    | inl t ↦ rw t
    | inr (m₁, t) ↦ rw t (fill_chain-append es fs m₁)
  ]

  -- The two nested loops over the edges are one.
  pub fill_all-flatten :
      (chains : List (List Edge)) (m : List Route)
      → fill_all this_node indexes n chains m ≡ fill_chain this_node indexes n (flatten chains) m
  unfolding fill_all fill_chain flatten
  fill_all-flatten [] m = refl
  fill_all-flatten (es ∷ rest) m =
      rw fill_chain-append (elim (Option-cases (fill_chain this_node indexes n es m)) [
        | inl t ↦ rw t
        | inr (m₁, t) ↦ rw t (fill_all-flatten rest m₁)
      ])

blank_row-Holds :
    (n i : ℕ) (g : ℕ → ℕ → Route) (m : List Route)
    → i < n
    → Holds n g m
    → Holds n
        (λ i' j'. if i == i' then blank i' j' else g i' j')
        (for_from n 0 (λ j s. write n i j (blank i j) s) m)
blank_row-Holds n i g m p h =
    Holds-congr n _ _ _
      (for_from_inv
        (λ j s. Holds n (λ i' j'. if (i == i') && ltb j' j then blank i' j' else g i' j') s) _ n
        (λ j s q held. write-Holds n i j _ _ _ s p q held (λ i' j' p' q'. ground arith)) n 0 m
        (omega arith) (Holds-congr n _ _ m h (λ i' j' p' q'. ground arith)))
      (λ i' j' p' q'. ground arith)

-- The loops that initialise the matrix write every entry, whatever the memory held.
pub blank_all-Holds :
    (n : ℕ) (raw : List Route) → length raw ≡ n * n → Holds n blank (blank_all n raw)
unfolding blank_all
blank_all-Holds n raw e =
    let held : Holds n (at n raw) raw = record { size = e; entry = λ i j p q. refl } in
    Holds-congr n _ _ _
      (for_from_inv (λ i s. Holds n (λ i' j'. if ltb i' i then blank i' j' else at n raw i' j') s) _
        n
        (λ i s p h. Holds-congr n _ _ _ (blank_row-Holds n i _ s p h) (λ i' j' p' q'. ground arith))
        n 0 raw (omega arith) (Holds-congr n _ _ raw held (λ i' j' p' q'. ground arith)))
      (λ i' j' p' q'. ground arith)
