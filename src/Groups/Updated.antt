-- ===== src/Groups/Updated.antt =====
-- The groups of the local node as they are kept well-formed (daemon/multicast.c).
use spines.Prelude.{
  ℕ, ◌+◌, ◌≡◌, ◌≢◌, refl, Bool, true, false, ◌||◌, not, leb, Option, none, some, List, [], ◌∷◌,
  ◌==◌, arith, Bool-cases, Option-cases, inl, inr, sym, ap, ◌∙◌,
}
use spines.Prelude.Int.{ℤ, pos, negsuc}
use spines.Routing.Address.{is_mcast_addr, is_acast_addr}
use spines.Flood.{StateData, Tables, Env, bump, put_state, added, add_to_changed_states}
use spines.Groups.{
  is_active, activate, deactivate, get_or_create_group, create_group, Groups, contains, remove,
  set_joined, set_sessions, is_nil,
}

pub is_active-activate : (v : ℤ) → is_active (activate v) ≡ true
unfolding activate
is_active-activate (pos n) = ground arith
is_active-activate (negsuc n) = ground arith

pub is_active-deactivate : (v : ℤ) → is_active (deactivate v) ≡ false
unfolding deactivate
is_active-deactivate (pos n) = ground arith
is_active-deactivate (negsuc n) = ground arith

-- A list without repetition.
abbrev pub Distinct : List ℕ → Type 0
Distinct [] = Unit
Distinct (x ∷ xs) = (contains xs x ≡ false) × Distinct xs

pub contains-remove_self : (xs : List ℕ) (s : ℕ) → Distinct xs → contains (remove xs s) s ≡ false
contains-remove_self [] s d = refl
contains-remove_self (x ∷ xs) s (new, d) = elim (Bool-cases (x == s)) [
  | inl this ↦ let e : x ≡ s = ground arith in rw this (rw e at new)
  | inr that ↦ rw (that, that) (contains-remove_self xs s d)
]

pub contains-remove_other :
    (xs : List ℕ) (s o : ℕ) → o ≢ s → contains (remove xs s) o ≡ contains xs o
contains-remove_other [] s o ne = refl
contains-remove_other (x ∷ xs) s o ne = elim (Bool-cases (x == s)) [
  | inl this ↦ let apart : (x == o) ≡ false = ground arith in rw (this, apart) refl
  | inr that ↦ rw that (elim (Bool-cases (x == o)) [
    | inl e ↦ rw e refl
    | inr e ↦ rw e (contains-remove_other xs s o ne)
  ])
]

pub contains-some : (xs : List ℕ) (s : ℕ) → contains xs s ≡ true → not (is_nil xs) ≡ true
contains-some [] s h = h
contains-some (x ∷ xs) s h = refl

pub Distinct-remove : (xs : List ℕ) (s : ℕ) → Distinct xs → Distinct (remove xs s)
Distinct-remove [] s d = d
Distinct-remove (x ∷ xs) s (new, d) = elim (Bool-cases (x == s)) [
  | inl this ↦ rw this d
  | inr that ↦ rw that (contains-remove_other xs s x (ground arith) ∙ new, Distinct-remove xs s d)
]

abbrev pub is_active_state : Option StateData → Bool
is_active_state none = false
is_active_state (some s) = is_active s.value

module _ (env : Env) where
  -- A group of the local node is active exactly if some session joined it, and sessions and groups
  -- tell the same of who joined.
  abbrev pub WellFormed : Groups → Type 0
  WellFormed g =
      (m : ℕ)
      → (is_active_state (g.tables.states env.my_address m) ≡ not (is_nil (g.joined_sessions m)))
        × Distinct (g.joined_sessions m)
        × ((s : ℕ) → g.joined_groups s m ≡ contains (g.joined_sessions m) s)

  -- What a change of the local node's state of a group does to the states.
  abbrev pub Updated : ℕ → Bool → Tables → Tables → Type 0
  Updated mcast active t t' =
      (is_active_state (t'.states env.my_address mcast) ≡ active)
      × ((m : ℕ) → m ≢ mcast → t'.states env.my_address m ≡ t.states env.my_address m)

  pub put_state-Updated :
      (mcast : ℕ) (s : StateData) (t : Tables)
      → Updated mcast (is_active s.value) t (put_state env.my_address mcast s t)
  put_state-Updated mcast s t =
      let self : (env.my_address == env.my_address) ≡ true = ground arith in
      let self' : (mcast == mcast) ≡ true = ground arith in
      (
        rw (self, self') refl,
        λ m ne. let apart : (mcast == m) ≡ false = ground arith in rw (self, apart) refl,
      )

  bump-value : (s : StateData) → (bump s).value ≡ s.value
  unfolding bump
  bump-value s = elim (Bool-cases (leb 1000000 (s.usec + 1))) [
    | inl over ↦ rw over refl
    | inr within ↦ rw within refl
  ]

  pub added-Updated :
      (mcast : ℕ) (s : StateData) (t : Tables)
      → Updated mcast
          (is_active s.value)
          t
          (added env true env.my_address env.my_address mcast (bump s) t)
  unfolding added
  added-Updated mcast s t =
      let self : (env.my_address == env.my_address) ≡ true = ground arith in
      let self' : (mcast == mcast) ≡ true = ground arith in
      (
        rw (self, self') (ap is_active (bump-value s)),
        λ m ne. let apart : (mcast == m) ≡ false = ground arith in rw (self, apart) refl,
      )

  -- What adding or removing a session of a group does, where the states are updated to match.
  pub update-WellFormed :
      (mcast ses : ℕ) (b : Bool) (ss : List ℕ) (g : Groups) (t : Tables)
      → WellFormed g
      → Updated mcast (not (is_nil ss)) g.tables t
      → Distinct ss
      → contains ss ses ≡ b
      → ((s : ℕ) → s ≢ ses → contains ss s ≡ contains (g.joined_sessions mcast) s)
      → WellFormed (set_joined ses mcast b (set_sessions mcast ss (record g { tables = t })))
  update-WellFormed mcast ses b ss g t well (active, others) distinct this that m =
      elim (Bool-cases (m == mcast)) [
        | inr apart ↦
            let (act, dist, tell) = well m in
            rw apart (
              ap is_active_state (others m (ground arith)) ∙ act,
              dist,
              λ s. elim (Bool-cases (s == ses)) [ inl e ↦ rw e (tell s) | inr e ↦ rw e (tell s) ],
            )
        | inl same ↦
            let e : m ≡ mcast = ground arith in
            let self : (mcast == mcast) ≡ true = ground arith in
            rw (e, self)
              (
                active,
                distinct,
                λ s. elim (Bool-cases (s == ses)) [
                  | inl here ↦
                      let e' : s ≡ ses = ground arith in
                      rw (here) (sym this ∙ ap (contains ss) (sym e'))
                  | inr there ↦ rw there ((well mcast).2 s ∙ sym (that s (ground arith)))
                ],
              )
      ]

  abbrev pub is_group_addr : ℕ → Bool
  is_group_addr mcast = is_mcast_addr mcast || is_acast_addr mcast

  pub add_own :
      (mcast : ℕ) (s : StateData) (t : Tables)
      → add_to_changed_states env true env.my_address env.my_address mcast s t
        ≡ some (added env true env.my_address env.my_address mcast s t)
  unfolding add_to_changed_states
  add_own mcast s t =
      let self : (env.my_address == env.my_address) ≡ true = ground arith in rw self refl

  pub get_or_create_group-active :
      (mcast : ℕ) (t : Tables)
      → is_active (get_or_create_group env env.my_address mcast t).value
        ≡ is_active_state (t.states env.my_address mcast)
  unfolding get_or_create_group create_group
  get_or_create_group-active mcast t = elim (Option-cases (t.states env.my_address mcast)) [
    | inl unknown ↦ rw (unknown, get_or_create_group) (ground arith)
    | inr (s, there) ↦ rw (there, get_or_create_group) refl
  ]
