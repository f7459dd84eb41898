-- ===== src/LinkState/Edges/Process.antt =====
-- What one cell does to the table of edges (daemon/link_state.c, daemon/state_flood.c).
use spines.Prelude.{
  ℕ, ◌≡◌, ◌≢◌, refl, Bool, true, false, ◌||◌, Option, none, some, ◌==◌, if◌then◌else◌, arith,
  Bool-cases, Option-cases, ◌⊎◌, inl, inr, sym, ap, ◌∙◌,
}
use spines.Prelude.Int.{ℤ}
use spines.Flood.{
  StateData, Cell, Tables, Env, is_before, put_state, find_changed_state, added,
  add_to_changed_states,
}
use spines.Flood.Receive.{is_news, is_same_time, mark_sender, process_cell}
use spines.LinkState.Edges.{get_or_create_edge, raise_lts, edge_process_state_cell, edge_prot_def}

-- The part of a state that is flooded.
pub record Content : Type 0 where
  pub sec : ℕ
  pub usec : ℕ
  pub value : ℤ
  pub age : ℕ
  pub lts : ℕ

abbrev pub content_of : StateData → Content
content_of s = record { sec = s.sec; usec = s.usec; value = s.value; age = s.age; lts = s.lts }

abbrev pub content_of_cell : Cell → Content
content_of_cell c = record { sec = c.sec; usec = c.usec; value = c.value; age = c.age; lts = c.lts }

abbrev pub content : Option StateData → Option Content
content none = none
content (some s) = some (content_of s)

abbrev pub contents : Tables → ℕ → ℕ → Option Content
contents t source dest = content (t.states source dest)

-- The newer of what is there and a cell.
abbrev pub newer : Option Content → Content → Option Content
newer none c = some c
newer (some k) c = if is_before k.sec k.usec c.sec c.usec then some c else some k

newer-news :
    (known : Option StateData) (cell : Cell)
    → is_news known cell ≡ true
    → newer (content known) (content_of_cell cell) ≡ some (content_of_cell cell)
unfolding is_news
newer-news none cell news = refl
newer-news (some s) cell news = rw news refl

newer-old :
    (known : Option StateData) (cell : Cell)
    → is_news known cell ≡ false
    → newer (content known) (content_of_cell cell) ≡ content known
unfolding is_news
newer-old none cell old = ground arith
newer-old (some s) cell old = rw old refl

mark_sender-states :
    (env : Env) (sender source dest : ℕ) (t : Tables)
    → (mark_sender env sender source dest t).states ≡ t.states
unfolding mark_sender
mark_sender-states env sender source dest t =
    elim (Option-cases (find_changed_state source dest t.changed)) [
      | inl none_waits ↦ rw (none_waits, mark_sender) refl
      | inr (c, waits) ↦ rw (waits, mark_sender) refl
    ]

module _ (env : Env) (sender : ℕ) where
  -- What a cell about another node's edge leaves, if it is news.
  abbrev pub taken : ℕ → Cell → Tables → StateData
  taken source cell t = record (get_or_create_edge env source cell.dest t).0 {
    sec = cell.sec;
    usec = cell.usec;
    age = cell.age;
    value = cell.value;
    lts = cell.lts;
  }

  abbrev pub taken_in : ℕ → Cell → Tables → Tables
  taken_in source cell t =
      put_state source cell.dest (taken source cell t)
        (record t { update_lts = raise_lts cell.lts (get_or_create_edge env source cell.dest t).1 })

  edge_process_state_cell-other :
      (source : ℕ) (cell : Cell) (t : Tables)
      → source ≢ env.my_address
      → edge_process_state_cell env source cell t ≡ some (true, taken_in source cell t)
  unfolding edge_process_state_cell
  edge_process_state_cell-other source cell t other =
      let e : (source == env.my_address) ≡ false = ground arith in rw e refl

  pub process_cell-news :
      (source : ℕ) (cell : Cell) (t : Tables)
      → env.is_connected_neighbor sender ≡ true
      → source ≢ env.my_address
      → is_news (t.states source cell.dest) cell ≡ true
      → process_cell env edge_prot_def sender source cell t
        ≡ some (
          true,
          added env false sender source cell.dest (taken source cell t) (taken_in source cell t),
        )
  unfolding process_cell add_to_changed_states
  process_cell-news source cell t near other news =
      let self : (source == source) ≡ true = ground arith in
      let self' : (cell.dest == cell.dest) ≡ true = ground arith in
      let allowed : (sender == env.my_address || env.is_connected_neighbor sender) ≡ true =
        ground arith in
      rw (news, edge_process_state_cell-other source cell t other, self, self', allowed) refl

  contents-added :
      (source : ℕ) (cell : Cell) (t : Tables)
      → contents
          (added env false sender source cell.dest (taken source cell t) (taken_in source cell t))
          source
          cell.dest
        ≡ some (content_of_cell cell)
  unfolding added
  contents-added source cell t =
      let self : (source == source) ≡ true = ground arith in
      let self' : (cell.dest == cell.dest) ≡ true = ground arith in rw (self, self') refl

  pub process_cell-old :
      (source : ℕ) (cell : Cell) (t : Tables)
      → is_news (t.states source cell.dest) cell ≡ false
      → (b : Bool) × (t' : Tables) × (process_cell env edge_prot_def sender source cell t
          ≡ some (b, t'))
        × (t'.states ≡ t.states)
  unfolding process_cell
  process_cell-old source cell t old =
      elim (Bool-cases (is_same_time (t.states source cell.dest) cell)) [
        | inl known ↦ (
          false,
          mark_sender env sender source cell.dest t,
          rw (old, known) refl,
          mark_sender-states env sender source cell.dest t,
        )
        | inr older ↦ (false, t, rw (old, older) refl, refl)
      ]

  -- A neighbor's cell about another node's edge leaves the newer of the cell and what was there, and
  -- changes no other edge.
  pub process_cell-newer :
      (source : ℕ) (cell : Cell) (t : Tables)
      → env.is_connected_neighbor sender ≡ true
      → source ≢ env.my_address
      → (b : Bool) × (t' : Tables) × (process_cell env edge_prot_def sender source cell t
          ≡ some (b, t'))
        × (contents t' source cell.dest
            ≡ newer (contents t source cell.dest) (content_of_cell cell))
        × ((a d : ℕ) → ((a ≢ source) ⊎ (d ≢ cell.dest)) → t'.states a d ≡ t.states a d)
  process_cell-newer source cell t near other =
      elim (Bool-cases (is_news (t.states source cell.dest) cell)) [
        | inl news ↦ (
          true,
          added env false sender source cell.dest (taken source cell t) (taken_in source cell t),
          process_cell-news source cell t near other news,
          contents-added source cell t ∙ sym (newer-news (t.states source cell.dest) cell news),
          λ a d apart. unfold added in elim apart [ inl ne ↦ ground arith | inr ne ↦ ground arith ],
        )
        | inr old ↦
            let (b, t', ran, same) = process_cell-old source cell t old in
            (
              b,
              t',
              ran,
              ap (λ st. content (st source cell.dest)) same
                  ∙ sym (newer-old (t.states source cell.dest) cell old),
              λ a d apart. ap (λ st. st a d) same,
            )
      ]
