-- ===== src/LinkState/Edges/Own.antt =====
-- What a cell about an edge of the local node does (daemon/link_state.c, daemon/state_flood.c).
use spines.Prelude.{
  ℕ, ◌+◌, ◌≡◌, ◌≢◌, refl, Bool, true, false, Option, none, some, leb, ◌==◌, arith, Bool-cases,
  Option-cases, inl, inr, ◌∙◌,
}
use spines.Prelude.Int.{ℤ, negsuc}
use spines.LinkState.{lts_inc}
use spines.Flood.{
  StateData, Cell, Changed, Tables, Env, is_before, bump, find_changed_state, added,
  add_to_changed_states,
}
use spines.Flood.Waiting.{find_changed_state-added}
use spines.Flood.Receive.{is_news, process_cell}
use spines.LinkState.Edges.{
  create_edge, get_or_create_edge, raise_lts, edge_process_state_cell, edge_prot_def,
}

-- The value and the age of an edge, where an edge that is not known counts as new.
abbrev pub value_of : Option StateData → ℤ
value_of none = negsuc 0
value_of (some s) = s.value

abbrev pub age_of : Option StateData → ℕ
age_of none = 0
age_of (some s) = s.age

bump-newer : (s : StateData) → is_before s.sec s.usec (bump s).sec (bump s).usec ≡ true
unfolding bump
bump-newer s = elim (Bool-cases (leb 1000000 (s.usec + 1))) [
  | inl over ↦ rw over (ground arith)
  | inr within ↦ rw within (ground arith)
]

bump-value : (s : StateData) → ((bump s).value ≡ s.value) × ((bump s).age ≡ s.age)
unfolding bump
bump-value s = elim (Bool-cases (leb 1000000 (s.usec + 1))) [
  | inl over ↦ rw over (refl, refl)
  | inr within ↦ rw within (refl, refl)
]

added-states :
    (env : Env) (is_groups : Bool) (sender source dest a d : ℕ) (s : StateData) (t : Tables)
    → a ≢ source
    → (added env is_groups sender source dest s t).states a d ≡ t.states a d
unfolding added
added-states env is_groups sender source dest a d s t ne =
    let e : (source == a) ≡ false = ground arith in rw e refl

module _ (env : Env) where
  -- What the local node says of its edge in answer to the cell, and the tables with it.
  abbrev pub answer_lts : Cell → Tables → ℕ
  answer_lts cell t =
      lts_inc (raise_lts cell.lts (get_or_create_edge env env.my_address cell.dest t).1)

  abbrev pub answer : Cell → Tables → StateData
  answer cell t =
      record (bump (record (get_or_create_edge env env.my_address cell.dest t).0 {
        sec = cell.sec;
        usec = cell.usec;
      })) { lts = answer_lts cell t }

  abbrev pub answered : Cell → Tables → Tables
  answered cell t =
      added env false env.my_address env.my_address cell.dest (answer cell t)
        (record t { update_lts = answer_lts cell t })

  pub process_cell-own :
      (sender : ℕ) (cell : Cell) (t : Tables)
      → is_news (t.states env.my_address cell.dest) cell ≡ true
      → process_cell env edge_prot_def sender env.my_address cell t ≡ some (false, answered cell t)
  unfolding process_cell edge_process_state_cell add_to_changed_states
  process_cell-own sender cell t news =
      let self : (env.my_address == env.my_address) ≡ true = ground arith in rw (news, self) refl

  pub answered-states :
      (cell : Cell) (t : Tables) (a d : ℕ)
      → a ≢ env.my_address
      → (answered cell t).states a d ≡ t.states a d
  answered-states cell t a d ne =
      added-states env false env.my_address env.my_address cell.dest a d (answer cell t) _ ne

  known-value :
      (cell : Cell) (t : Tables)
      → ((get_or_create_edge env env.my_address cell.dest t).0.value
          ≡ value_of (t.states env.my_address cell.dest))
        × ((get_or_create_edge env env.my_address cell.dest t).0.age
            ≡ age_of (t.states env.my_address cell.dest))
  unfolding get_or_create_edge create_edge
  known-value cell t = elim (Option-cases (t.states env.my_address cell.dest)) [
    | inl unknown ↦ rw (unknown, get_or_create_edge) (refl, refl)
    | inr (s, there) ↦ rw (there, get_or_create_edge) (refl, refl)
  ]

  -- A cell about an edge of the local node that is newer than what the node knows neither changes what
  -- the node says of its edge nor is propagated: the edge keeps its value and age (a new edge has the
  -- value -1 and the age 0), is given a time after the cell's, and waits to be sent to all neighbors,
  -- the sender of the cell included.
  pub process_cell-own_wins :
      (sender : ℕ) (cell : Cell) (t : Tables)
      → is_news (t.states env.my_address cell.dest) cell ≡ true
      → (s : StateData) × (c : Changed) × (t' : Tables) × (process_cell env edge_prot_def sender
            env.my_address cell t
          ≡ some (false, t'))
        × (t'.states env.my_address cell.dest ≡ some s)
        × (s.value ≡ value_of (t.states env.my_address cell.dest))
        × (s.age ≡ age_of (t.states env.my_address cell.dest))
        × (is_before cell.sec cell.usec s.sec s.usec ≡ true)
        × (find_changed_state env.my_address cell.dest t'.changed ≡ some c)
        × ((n : ℕ) → c.mask n ≡ false)
  process_cell-own_wins sender cell t news =
      let self : (env.my_address == env.my_address) ≡ true = ground arith in
      let self' : (cell.dest == cell.dest) ≡ true = ground arith in
      let known = record (get_or_create_edge env env.my_address cell.dest t).0 {
        sec = cell.sec;
        usec = cell.usec;
      } in
      let (c, waits, same) =
        find_changed_state-added env false env.my_address env.my_address cell.dest (answer cell t)
          (record t { update_lts = answer_lts cell t }) in
      (
        record (answer cell t) { my_sec = env.now_sec; my_usec = env.now_usec },
        c,
        answered cell t,
        process_cell-own sender cell t news,
        unfold added in rw (self, self') refl,
        (bump-value known).0 ∙ (known-value cell t).0,
        (bump-value known).1 ∙ (known-value cell t).1,
        bump-newer known,
        waits,
        λ n. rw (same, self) refl,
      )
