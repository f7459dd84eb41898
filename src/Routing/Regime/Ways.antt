-- ===== src/Routing/Regime/Ways.antt =====
-- The routes of daemon/route.c against the edges themselves, by the identifiers of the nodes.
use spines.Prelude.{
  ℕ, ◌+◌, ◌<◌, ◌≡◌, refl, ◌⊎◌, inl, inr, none, some, List, ◌==◌, length, get_or, arith,
  Option-cases, Bool-cases, sym, ap,
}
use mathlib.Core.Path.{subst}
use spines.Prelude.Int.{pos}
use spines.Prelude.Maps.{Map}
use spines.Routing.{Route, Edge}
use spines.Routing.Table.{blank}
use spines.Routing.Table.Walks.{Walk, direct, onward}
use spines.Routing.Table.Shortest.{IsInitial}
use spines.Routing.Table.Forwarders.{IsLocal}
use spines.Routing.Regime.{abs, over}
use spines.Routing.Regime.Links.{IsIndex}
use spines.Routing.Regime.Entered.{last_edge, entered, last_edge_ends}

-- A way from `s` to `d` over edges that are up, with the sum of the sizes of their costs.
pub data Way (es : List Edge) (d : ℕ) : ℕ → ℕ → Type 0 where
  arrived : {s c : ℕ} → s ≡ d → c ≡ 0 → Way es d s c
  hop :
      {s t b c : ℕ} {e : Edge}
      → last_edge es s t ≡ some e
      → Way es d t b
      → c ≡ abs e.cost + b
      → Way es d s c

-- No edge leads from a node to itself.
abbrev pub NoLoops : List Edge → Type 0
NoLoops es = (s : ℕ) → last_edge es s s ≡ none

module _ (this_node : ℕ) (nodes : List ℕ) (indexes : Map ℕ) (index : IsIndex nodes indexes)
    (es : List Edge) (loops : NoLoops es)
    (known : (s d : ℕ) (e : Edge)
      → last_edge es s d ≡ some e
      → (j : ℕ) × (indexes d ≡ some j)) where
  abbrev pub n : ℕ
  n = length nodes

  abbrev pub id : ℕ → ℕ
  id i = get_or nodes i 0

  abbrev pub start : ℕ → ℕ → Route
  start i j = entered this_node (last_edge es (id i) (id j)) (blank i j)

  pub start-IsInitial : IsInitial n start
  unfolding entered blank over
  start-IsInitial = record {
    diagonal = λ i p. ground (arith, loops (id i));
    other = λ i j. elim (Option-cases (last_edge es (id i) (id j))) [
      | inl t ↦ elim (Bool-cases (i == j)) [
        | inl same ↦ inr (0, ground arith)
        | inr apart ↦ inl (ground arith)
      ]
      | inr (e, t) ↦ inr (abs e.cost, ground arith)
    ];
  }

  pub start_link :
      (i j c : ℕ)
      → (start i j).cost ≡ pos c
      → ((i ≡ j) × (c ≡ 0))
        ⊎ ((e : Edge) × (last_edge es (id i) (id j) ≡ some e) × (c ≡ abs e.cost))
  unfolding entered blank over
  start_link i j c h = elim (Option-cases (last_edge es (id i) (id j))) [
    | inl t ↦ inl (ground arith)
    | inr (e, t) ↦ inr (e, t, ground arith)
  ]

  Way-eq : {d s t b c : ℕ} → s ≡ t → b ≡ c → Way es d t b → Way es d s c
  Way-eq {d} {s} {t} {b} {c} p q w =
      subst (λ x. Way es d x c) (sym p) (subst (λ x. Way es d t x) q w)

  pub Walk-Way : {j i c : ℕ} → Walk start n n j i c → Way es (id j) (id i) c
  Walk-Way {j} {i} {c} (direct h) = elim (start_link i j c h) [
    | inl (same, z) ↦ arrived (ap id same) z
    | inr (e, t, s) ↦ hop t (arrived refl refl) (omega arith)
  ]
  Walk-Way (onward {i} {m} {a} {b} {c} p q h rest s) =
      let w = Walk-Way rest in
      elim (start_link i m a h) [
        | inl (same, z) ↦ Way-eq (ap id same) (omega arith) w
        | inr (e, t, s') ↦ hop t w (omega arith)
      ]

  start-pos :
      (i m : ℕ) (e : Edge)
      → last_edge es (id i) (id m) ≡ some e
      → (start i m).cost ≡ pos (abs e.cost)
  unfolding entered over
  start-pos i m e h = ground arith

  pub Way-Walk :
      (j : ℕ)
      → j < n
      → {s c : ℕ} → Way es (id j) s c
      → (i : ℕ) → indexes s ≡ some i
      → Walk start n n j i c
  Way-Walk j q {s} {c} (arrived same z) i h =
      let i_eq : i ≡ j = ground (arith, index.of_id j q) in
      direct (rw (i_eq, start-IsInitial.diagonal j q, z))
  Way-Walk j q (hop {s} {t} {b} {c} {e} l rest sum) i h =
      let (m, hm) = known s t e l in
      let (m-lt, m_id) = index.to_id t m hm in
      let (i-lt, i_id) = index.to_id s i h in
      onward m-lt m-lt (start-pos i m e (rw (i_id, m_id) l)) (Way-Walk j q rest m hm) sum

  pub start-IsLocal : (me : ℕ) → me < n → id me ≡ this_node → IsLocal nodes n me start
  unfolding entered blank over
  start-IsLocal me p here = record {
    link = λ j c ne h. elim (Option-cases (last_edge es (id me) (id j))) [
      | inl t ↦ absurd (ground arith)
      | inr (e, t) ↦ ground (arith, last_edge_ends es (id me) (id j) t)
    ];
    only = λ i j x q h. elim (Option-cases (last_edge es (id i) (id j))) [
      | inl t ↦ absurd (ground arith)
      | inr (e, t) ↦
          let (a, b) = last_edge_ends es (id i) (id j) t in
          let same : i ≡ me = ground (arith, index.of_id i q, index.of_id me p) in
          (same, λ loop. ground (arith, loops (id i)), ground arith, (abs e.cost, ground arith))
    ];
  }
