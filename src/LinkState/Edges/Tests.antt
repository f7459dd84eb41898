-- ===== src/LinkState/Edges/Tests.antt =====
-- Edges that are told, of daemon/link_state.c and daemon/state_flood.c, on examples.
use spines.Prelude.{
  ℕ, ◌≡◌, ◌≢◌, refl, true, false, ◌||◌, none, some, [], ◌∷◌, ◌==◌, inl, inr, arith, sym, ◌∙◌,
}
use spines.Prelude.Int.{ℤ, pos}
use mathlib.Core.List.Memᴰ
use mathlib.Core.List.{Memᴰ}
use spines.Flood.{StateData, Cell, Changed, Tables, Env, is_before, find_changed_state}
use spines.Flood.Receive.{is_news, process_cell}
use spines.LinkState.Edges.{edge_prot_def}
use spines.LinkState.Edges.Own.{value_of, age_of, process_cell-own_wins}
use spines.LinkState.Edges.Process.{Content, contents}
use spines.LinkState.Edges.Told.{Messages, receive_all, told, newest, receive_all-newest}
use spines.LinkState.Edges.Converge.{Stamped, receive_all-converge}

abbrev first : ℕ
first = 10

abbrev second : ℕ
second = 12

abbrev node : ℕ → Env
node a = record {
  my_address = a;
  now_sec = 100000;
  now_usec = 0;
  is_connected_neighbor = λ n. n == 2 || n == 3;
  neighbor_id = λ n. n;
}

abbrev cell_at : ℕ → ℤ → Cell
cell_at sec value = record { dest = 6; sec = sec; usec = 0; value = value; age = 0; lts = 1 }

abbrev no_tables : Tables
no_tables = record {
  states = λ a d. none;
  changed = [];
  update_lts = 0;
  is_queued = false;
  discarded = [];
}

-- Two nodes hear of a change of an edge, one of them in the wrong order.
abbrev in_order : Messages
in_order =
    (2, (5, cell_at first (pos 3) ∷ []) ∷ []) ∷ (3, (5, cell_at second (pos 4) ∷ []) ∷ []) ∷ []

abbrev reordered : Messages
reordered =
    (3, (5, cell_at second (pos 4) ∷ []) ∷ []) ∷ (2, (5, cell_at first (pos 3) ∷ []) ∷ []) ∷ []

abbrev content_at : ℕ → ℤ → Content
content_at sec value = record { sec = sec; usec = 0; value = value; age = 0; lts = 1 }

receive_all-newest_example :
    (t' : Tables) × (receive_all (node 1) reordered no_tables ≡ some t')
    × ((a d : ℕ) → a ≢ 1 → contents t' a d ≡ newest (contents no_tables a d) (told a d reordered))
receive_all-newest_example = receive_all-newest (node 1) reordered no_tables (refl, (refl, tt))

two_differ : Stamped (content_at first (pos 3) ∷ content_at second (pos 4) ∷ [])
two_differ c c' m m' sec usec = elim (Memᴰ.cases_cons m) [
  | inl e ↦ elim (Memᴰ.cases_cons m') [
    | inl e' ↦ e ∙ sym e'
    | inr n' ↦ elim (Memᴰ.cases_cons n') [
      | inl e' ↦ absurd (apart (rw (e, e') at sec))
      | inr none_left ↦ absurd (Memᴰ.not-nil none_left)
    ]
  ]
  | inr n ↦ elim (Memᴰ.cases_cons n) [
    | inr none_left ↦ absurd (Memᴰ.not-nil none_left)
    | inl e ↦ elim (Memᴰ.cases_cons m') [
      | inl e' ↦ absurd (apart (sym (rw (e, e') at sec)))
      | inr n' ↦ elim (Memᴰ.cases_cons n') [
        | inl e' ↦ e ∙ sym e'
        | inr none_left ↦ absurd (Memᴰ.not-nil none_left)
      ]
    ]
  ]
]
  where
    apart : first ≢ second
    apart = ground arith

swap : (x y c : Content) → Memᴰ c (x ∷ y ∷ []) → Memᴰ c (y ∷ x ∷ [])
swap x y c m = elim (Memᴰ.cases_cons m) [
  | inl e ↦ Memᴰ.tail (Memᴰ.head e)
  | inr n ↦ elim (Memᴰ.cases_cons n) [
    | inl e ↦ Memᴰ.head e
    | inr none_left ↦ absurd (Memᴰ.not-nil none_left)
  ]
]

receive_all-converge_example :
    (u : Tables) × (u' : Tables) × (receive_all (node 1) in_order no_tables ≡ some u)
    × (receive_all (node 9) reordered no_tables ≡ some u')
    × (contents u 5 6 ≡ contents u' 5 6)
receive_all-converge_example =
    receive_all-converge (node 1) (node 9) in_order reordered no_tables no_tables 5 6
      (refl, (refl, tt)) (refl, (refl, tt)) (ground arith) (ground arith) two_differ
      (λ c. (
        swap (content_at first (pos 3)) (content_at second (pos 4)) c,
        swap (content_at second (pos 4)) (content_at first (pos 3)) c,
      ))

-- A neighbor tells what the node said of its edge before it was started again.
abbrev stale : Cell
stale = cell_at 200000 (pos 7)

process_cell-own_wins_example :
    (s : StateData) × (c : Changed) × (t' : Tables) × (process_cell
        (node 1)
        edge_prot_def
        2
        1
        stale
        no_tables
      ≡ some (false, t'))
    × (t'.states 1 6 ≡ some s)
    × (s.value ≡ value_of (no_tables.states 1 6))
    × (s.age ≡ age_of (no_tables.states 1 6))
    × (is_before 200000 0 s.sec s.usec ≡ true)
    × (find_changed_state 1 6 t'.changed ≡ some c)
    × ((n : ℕ) → c.mask n ≡ false)
unfolding is_news
process_cell-own_wins_example = process_cell-own_wins (node 1) 2 stale no_tables refl
