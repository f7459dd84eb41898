-- ===== src/Flood/Waiting.antt =====
-- The changed states that wait to be sent: `Changed_States` of daemon/state_flood.c.
use spines.Prelude.{
  ℕ, ◌≡◌, refl, Bool, true, none, some, List, [], ◌∷◌, ◌==◌, arith, Option-cases, inl, inr,
}
use spines.Flood.{
  StateData, Changed, Tables, Env, find_changed_state, set_mask, insert_changed, mask_of, added,
}

find_changed_state-insert :
    (source dest : ℕ) (mask : ℕ → Bool) (cs : List Changed)
    → find_changed_state source dest cs ≡ none
    → find_changed_state source dest (insert_changed source dest mask cs)
      ≡ some (record { source = source; dest = dest; mask = mask })
unfolding find_changed_state insert_changed
find_changed_state-insert source dest mask [] h =
    let self : (source == source) ≡ true = ground arith in
    let self' : (dest == dest) ≡ true = ground arith in rw (self, self') refl
find_changed_state-insert source dest mask (c ∷ cs) h =
    ground (arith, find_changed_state-insert source dest mask cs)

pub find_changed_state-set :
    (source dest : ℕ) (mask : ℕ → Bool) (cs : List Changed) (c : Changed)
    → find_changed_state source dest cs ≡ some c
    → find_changed_state source dest (set_mask source dest mask cs)
      ≡ some (record c { mask = mask })
unfolding find_changed_state set_mask
find_changed_state-set source dest mask [] c h = ground arith
find_changed_state-set source dest mask (d ∷ cs) c h =
    ground (arith, find_changed_state-set source dest mask cs c)

-- A changed state is put last in the queue, or its mask is replaced.
pub find_changed_state-added :
    (env : Env) (is_groups : Bool) (sender source dest : ℕ) (s : StateData) (t : Tables)
    → (c : Changed) × (find_changed_state source dest
          (added env is_groups sender source dest s t).changed
        ≡ some c)
      × (c.mask ≡ mask_of env sender)
unfolding added
find_changed_state-added env is_groups sender source dest s t =
    elim (Option-cases (find_changed_state source dest t.changed)) [
      | inl none_waits ↦ (
        record { source = source; dest = dest; mask = mask_of env sender },
        rw (none_waits, added)
            (find_changed_state-insert source dest (mask_of env sender) t.changed none_waits),
        refl,
      )
      | inr (c, waits) ↦ (
        record c { mask = mask_of env sender },
        rw (waits, added)
            (find_changed_state-set source dest (mask_of env sender) t.changed c waits),
        refl,
      )
    ]
