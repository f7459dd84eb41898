-- ===== src/Flood/Receive/Mask.antt =====
-- Which neighbors a received cell is still to be sent to (daemon/state_flood.c).
use spines.Prelude.{
  ℕ, ◌≡◌, ◌≢◌, refl, Bool, true, false, Option, none, some, ◌==◌, if◌then◌else◌, arith, Bool-cases,
  inl, inr, sym, ap, ◌∙◌,
}
use spines.Routing.Regime.{◌>>=◌, bind-some}
use spines.Flood.{
  StateData, Cell, Changed, Tables, Env, ProtDef, find_changed_state, added, add_to_changed_states,
}
use spines.Flood.Waiting.{find_changed_state-added, find_changed_state-set}
use spines.Flood.Receive.{is_news, is_same_time, mark_sender, process_cell}

is_same_time-old :
    (known : Option StateData) (cell : Cell)
    → is_same_time known cell ≡ true
    → is_news known cell ≡ false
unfolding is_news
is_same_time-old none cell h = ground arith
is_same_time-old (some s) cell h = ground arith

module _ (env : Env) (prot : ProtDef) (sender source : ℕ) (cell : Cell) (t : Tables) where
  -- The state of the cell waits to be sent to exactly the neighbors other than the sender.
  abbrev pub WaitsForOthers : Tables → Type 0
  WaitsForOthers t' =
      (c : Changed) × (find_changed_state source cell.dest t'.changed ≡ some c)
      × ((n : ℕ) → c.mask n ≡ (n == env.neighbor_id sender))

  add_to_changed_states-WaitsForOthers :
      (s : StateData) (t₀ t' : Tables)
      → sender ≢ env.my_address
      → add_to_changed_states env prot.is_groups sender source cell.dest s t₀ ≡ some t'
      → WaitsForOthers t'
  unfolding add_to_changed_states
  add_to_changed_states-WaitsForOthers s t₀ t' other h =
      let (c, waits, same) =
        find_changed_state-added env prot.is_groups sender source cell.dest s t₀ in
      let t'-eq : added env prot.is_groups sender source cell.dest s t₀ ≡ t' = ground arith in
      (c, rw (sym t'-eq) waits, λ n. rw same (ground arith))

  relay-WaitsForOthers :
      (flag : Bool) (o : Option StateData) (t₁ t' : Tables)
      → sender ≢ env.my_address
      → if◌then◌else◌ {A = Option (Bool × Tables)} flag
          (elim o [
            | none ↦ none
            | some s ↦
                add_to_changed_states env prot.is_groups sender source cell.dest s t₁ >>= λ t₂.
                some (true, t₂)
          ])
          (some (flag, t₁))
        ≡ some (true, t')
      → WaitsForOthers t'
  relay-WaitsForOthers true none t₁ t' other h = ground arith
  relay-WaitsForOthers true (some s) t₁ t' other h =
      let (t₂, was_added, more) =
        bind-some (add_to_changed_states env prot.is_groups sender source cell.dest s t₁)
          (λ t₂. some (true, t₂)) (true, t') h in
      let same : t₂ ≡ t' = ground arith in
      add_to_changed_states-WaitsForOthers s t₁ t' other (was_added ∙ ap some same)
  relay-WaitsForOthers false o t₁ t' other h = ground arith

  -- A cell for which the protocol has the news passed on is then to be sent to exactly the neighbors
  -- other than the sender.
  pub process_cell-WaitsForOthers :
      (t' : Tables)
      → sender ≢ env.my_address
      → process_cell env prot sender source cell t ≡ some (true, t')
      → WaitsForOthers t'
  unfolding process_cell
  process_cell-WaitsForOthers t' other h =
      elim (Bool-cases (is_news (t.states source cell.dest) cell)) [
        | inl news ↦
            let (processed, ran, more) =
              bind-some (prot.process_state_cell env source cell t) _ (true, t') (rw news at h) in
            relay-WaitsForOthers processed.0 (processed.1.states source cell.dest) processed.1 t'
              other more
        | inr old ↦ ground arith
      ]

  -- A cell that tells what is known already is no news, and if what it tells waits to be sent, then
  -- the sender needs not hear of it any more, while nothing changes for other neighbors.
  pub process_cell-mark :
      (c : Changed)
      → is_same_time (t.states source cell.dest) cell ≡ true
      → find_changed_state source cell.dest t.changed ≡ some c
      → (c' : Changed) × (t' : Tables) × (process_cell env prot sender source cell t
          ≡ some (false, t'))
        × (t'.states ≡ t.states)
        × (find_changed_state source cell.dest t'.changed ≡ some c')
        × (c'.mask (env.neighbor_id sender) ≡ true)
        × ((n : ℕ) → n ≢ env.neighbor_id sender → c'.mask n ≡ c.mask n)
  unfolding process_cell mark_sender
  process_cell-mark c known waits =
      let old : is_news (t.states source cell.dest) cell ≡ false =
        is_same_time-old (t.states source cell.dest) cell known in
      (
        record c { mask = λ n. if n == env.neighbor_id sender then true else c.mask n },
        mark_sender env sender source cell.dest t,
        rw (old, known) refl,
        rw (waits, mark_sender) refl,
        rw (waits, mark_sender) (find_changed_state-set source cell.dest _ t.changed c waits),
        ground arith,
        λ n apart. ground arith,
      )
