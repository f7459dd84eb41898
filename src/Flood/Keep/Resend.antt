-- ===== src/Flood/Keep/Resend.antt =====
-- What `Resend_States` refreshes (daemon/state_flood.c).
use spines.Prelude.{
  ◌⊎◌, ℕ, ◌≡◌, Bool, true, false, ◌&&◌, Option, some, List, [], ◌∷◌, ◌==◌, if◌then◌else◌,
}
use spines.Flood.{is_before, StateData, Tables, Env, ProtDef, bump, added}
use spines.Flood.Keep.{state_resend_time, is_older}

module _ (env : Env) (prot : ProtDef) where
  abbrev is_due : StateData → Bool
  is_due s = is_older env state_resend_time s.my_sec s.my_usec && prot.is_state_relevant s

  -- The tables after a state was refreshed.
  abbrev refreshed : ℕ → StateData → Tables → Tables
  refreshed dest s t = added env prot.is_groups env.my_address env.my_address dest (bump s) t

  -- Of a destination no relevant state of the local node waits for being sent again.
  abbrev pub Fresh : ℕ → Tables → Type 0
  Fresh dest t = (s : StateData) → t.states env.my_address dest ≡ some s → is_due s ≡ false

  -- What the state of a destination is after it was refreshed.
  stamped : StateData → StateData
  stamped s = record (bump s) { my_sec = env.now_sec; my_usec = env.now_usec }

  abbrev occurs : ℕ → List ℕ → Bool
  occurs dest [] = false
  occurs dest (x ∷ xs) = if x == dest then true else occurs dest xs

  -- What is sent again is the same state with a newer timestamp, stamped by the local clock.
  pub record Renewed (s s' : StateData) : Type 0 where
    pub newer : is_before s.sec s.usec s'.sec s'.usec ≡ true
    pub clock : (s'.my_sec ≡ env.now_sec) × (s'.my_usec ≡ env.now_usec)
    pub same :
        s' ≡ record s { sec = s'.sec; usec = s'.usec; my_sec = env.now_sec; my_usec = env.now_usec }

  -- A step that leaves a state alone, or sends it again if it is due.
  abbrev Steps : Tables → Tables → Type 0
  Steps t t₁ =
      (dest : ℕ) (s : StateData)
      → t.states env.my_address dest ≡ some s
      → (t₁.states env.my_address dest ≡ some s)
        ⊎ ((is_due s ≡ true) × (t₁.states env.my_address dest ≡ some (stamped s)))

  -- Each state of the local node is as it was, or was due and is renewed.
  abbrev pub Renews : Tables → Tables → Type 0
  Renews t t' =
      (dest : ℕ) (s : StateData)
      → t.states env.my_address dest ≡ some s
      → (t'.states env.my_address dest ≡ some s)
        ⊎ ((is_due s ≡ true)
            × (s' : StateData) × (t'.states env.my_address dest ≡ some s')
            × Renewed s s')

  -- A result, where what was fresh stays so, and all states that the whole loop comes to are fresh.
  abbrev pub Refreshes : List ℕ → Tables → Option (Bool × Tables) → Type 0
  Refreshes dests t o =
      (stopped : Bool) × (t' : Tables) × (o ≡ some (stopped, t'))
      × ((dest : ℕ) → Fresh dest t → Fresh dest t')
      × (stopped ≡ false → (dest : ℕ) → occurs dest dests ≡ true → Fresh dest t')
      × Renews t t'
