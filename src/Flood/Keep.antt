-- ===== src/Flood/Keep.antt =====
-- The upkeep of the states: `Resend_States` and `State_Garbage_Collect` of daemon/state_flood.c.
pub mod Resend
pub mod Collect
pub mod Sound
use spines.Prelude.{
  ℕ, ◌+◌, ◌-◌, ◌*◌, Bool, true, false, ◌&&◌, ◌||◌, not, Option, none, some, List, [], ◌∷◌, ltb, leb,
  ◌==◌, if◌then◌else◌,
}
use spines.Routing.Regime.{◌>>=◌}
use spines.Flood.{StateData, Tables, Env, ProtDef, is_before, bump, add_to_changed_states}

-- `state_resend_time` and `gb_collect_remove`, in seconds.
abbrev pub state_resend_time : ℕ
state_resend_time = 30000

abbrev pub gb_collect_remove : ℕ
gb_collect_remove = 90000

module _ (env : Env) where
  -- Whether a state was stamped by the local clock as long ago as that.
  abbrev pub is_older : ℕ → ℕ → ℕ → Bool
  is_older limit sec usec = not (is_before env.now_sec env.now_usec (sec + limit) usec)

  -- The loop over the local node's states, in the order of their hash table; the flag of the result
  -- tells whether it stopped after more than 500, to go on in a second. `none`: the program exits.
  unfoldable pub resend_states : ProtDef → ℕ → List ℕ → Tables → Option (Bool × Tables)
  resend_states prot cnt [] t = some (false, t)
  resend_states prot cnt (dest ∷ rest) t = elim (t.states env.my_address dest) [
    | none ↦ resend_states prot cnt rest t
    | some s ↦ elim (is_older state_resend_time s.my_sec s.my_usec && prot.is_state_relevant s) [
      | false ↦ resend_states prot cnt rest t
      | true ↦
          add_to_changed_states env prot.is_groups env.my_address env.my_address dest (bump s) t
          >>= λ t'. elim (ltb 500 (cnt + 1)) [
            | true ↦ some (true, t')
            | false ↦ resend_states prot (cnt + 1) rest t'
          ]
    ]
  ]

  -- What the program asserts of the time of a state, from which the time before the state was received
  -- is taken away: neither this time nor that since it is negative. An age is taken not to be.
  abbrev pub is_past : StateData → Bool
  is_past s =
      leb (s.age * 10) s.my_sec
      && not (is_before env.now_sec env.now_usec (s.my_sec - s.age * 10) s.my_usec)

  -- A state that is not heard of for long.
  abbrev pub is_expired : StateData → Bool
  is_expired s = is_older gb_collect_remove (s.my_sec - s.age * 10) s.my_usec

abbrev pub is_some : Option StateData → Bool
is_some none = false
is_some (some s) = true

-- `All_States`, with the chains that it has for sources; `All_States_by_Dest`, by what it has, or none
-- where the protocol gives NULL; and `All_Nodes`.
pub record Indexes : Type 0 where
  pub states : ℕ → ℕ → Option StateData
  pub has_chain : ℕ → Bool
  pub by_dest : Option (ℕ → ℕ → Bool)
  pub nodes : ℕ → Bool

abbrev pub erase : ℕ → ℕ → Indexes → Indexes
erase source dest ix = record ix {
  states = λ a d. if source == a && dest == d then none else ix.states a d;
}

-- The removal from both indexes. `none`: the program exits.
unfoldable pub remove_state : ℕ → ℕ → Indexes → Option Indexes
remove_state source dest ix = elim ix.by_dest [
  | none ↦ some (erase source dest ix)
  | some f ↦ elim (f dest source) [
    | false ↦ none
    | true ↦ some (record (erase source dest ix) {
      by_dest = some (λ d a. if source == a && dest == d then false else f d a);
    })
  ]
]

-- The chains of the hash table: each source with its destinations, in the order of the tables.
abbrev pub Chains : Type 0
Chains = List (ℕ × List ℕ)

-- Whether some chain has a state with the destination.
abbrev pub has_dest : Chains → Indexes → ℕ → Bool
has_dest [] ix nd = false
has_dest ((a, dests) ∷ rest) ix nd =
    (ix.has_chain a && is_some (ix.states a nd)) || has_dest rest ix nd

abbrev pub is_one_of : (ℕ → Bool) → List ℕ → Bool
is_one_of p [] = false
is_one_of p (d ∷ ds) = p d || is_one_of p ds

-- Whether the chain of a source has a state.
abbrev pub has_state : Chains → Indexes → ℕ → Bool
has_state [] ix source = false
has_state ((a, dests) ∷ rest) ix source =
    (a == source && is_one_of (λ d. is_some (ix.states a d)) dests) || has_state rest ix source

module _ (env : Env) (is_link_state : Bool) (chains : Chains) where
  -- `Try_Remove_Node` of daemon/node.c. `none`: the result is negative, and the program exits.
  unfoldable pub try_remove_node : ℕ → Indexes → Option Indexes
  try_remove_node nd ix =
      if nd == env.my_address || (ix.has_chain nd || has_dest chains ix nd)
      then some ix
      else if ix.nodes nd
      then some (record ix { nodes = λ n. if n == nd then false else ix.nodes n })
      else none

  -- The body of the inner loop.
  unfoldable pub collect_state : ℕ → ℕ → Indexes → Option Indexes
  unfolding remove_state try_remove_node
  collect_state source dest ix = elim (ix.states source dest) [
    | none ↦ some ix
    | some s ↦
        if not (is_past env s)
        then none
        else if is_expired env s
        then (remove_state source dest ix >>= λ ix'.
            if is_link_state
            then (try_remove_node source ix' >>= λ ix''. try_remove_node dest ix'')
            else some ix')
        else some ix
  ]

  unfoldable pub collect_chain : ℕ → List ℕ → Indexes → Option Indexes
  unfolding collect_state
  collect_chain source [] ix = some ix
  collect_chain source (dest ∷ dests) ix =
      collect_state source dest ix >>= λ ix'. collect_chain source dests ix'

  -- A chain that is empty is removed.
  abbrev pub end_chain : ℕ → Indexes → Indexes
  end_chain source ix =
      if has_state chains ix source
      then ix
      else record ix { has_chain = λ a. if a == source then false else ix.has_chain a }

  unfoldable pub collect_chains : Chains → Indexes → Option Indexes
  unfolding collect_chain
  collect_chains [] ix = some ix
  collect_chains ((source, dests) ∷ rest) ix =
      collect_chain source dests ix >>= λ ix'. collect_chains rest (end_chain source ix')

  -- `State_Garbage_Collect`. `none`: the program exits.
  unfoldable pub state_garbage_collect : Indexes → Option Indexes
  unfolding collect_chains
  state_garbage_collect ix = collect_chains chains ix
