-- ===== src/Flood/Keep/Sound.antt =====
-- What `State_Garbage_Collect` (daemon/state_flood.c) works on, and the removal of one state.
use spines.Prelude.{
  ℕ, ◌≡◌, refl, Bool, true, false, ◌&&◌, ◌||◌, Option, none, some, List, [], ◌∷◌, ◌==◌,
  if◌then◌else◌, arith, Bool-cases, inl, inr, sym, ap, ◌∙◌,
}
use mathlib.Core.Bool.{true≢false}
use spines.Prelude.Options.{Returns}
use spines.Flood.{StateData, Env}
use spines.Flood.Keep.{
  Indexes, Chains, is_past, is_expired, is_some, erase, remove_state, has_dest, has_state,
  is_one_of,
}
use spines.Routing.Regime.{◌>>=◌}

-- What is left of a state.
abbrev pub kept : Env → Option StateData → Option StateData
kept env none = none
kept env (some s) = if is_expired env s then none else some s

pub kept-both :
    (env : Env) (p q : Bool) (x : Option StateData)
    → (if q then kept env (if p then kept env x else x) else (if p then kept env x else x))
      ≡ (if p || q then kept env x else x)
kept-both env false false x = refl
kept-both env false true x = refl
kept-both env true false x = refl
kept-both env true true none = refl
kept-both env true true (some s) = elim (Bool-cases (is_expired env s)) [
  | inl t ↦ rw t refl
  | inr t ↦ rw (t, t) refl
]

-- The destination is among those of a chain of the source.
abbrev pub occurs : ℕ → ℕ → Chains → Bool
occurs a d [] = false
occurs a d ((source, dests) ∷ rest) =
    (source == a && is_one_of (λ x. x == d) dests) || occurs a d rest

pub bind-Returns :
    {A B : Type 0} (Q : A → Type 0) (P : B → Type 0) (o : Option A) (f : A → Option B)
    → Returns o Q
    → ((a : A) → Q a → Returns (f a) P)
    → Returns (o >>= f) P
bind-Returns Q P none f r k = absurd r
bind-Returns Q P (some a) f r k = k a r

is_one_of-some :
    (f : ℕ → Option StateData) (d : ℕ) (dests : List ℕ)
    → is_one_of (λ x. x == d) dests ≡ true
    → is_some (f d) ≡ true
    → is_one_of (λ x. is_some (f x)) dests ≡ true
is_one_of-some f d [] h t = absurd (true≢false (sym h))
is_one_of-some f d (x ∷ dests) h t = elim (Bool-cases (x == d)) [
  | inl this ↦
      let e : d ≡ x = ground arith in
      let here : is_some (f x) ≡ true = sym (ap (λ y. is_some (f y)) e) ∙ t in rw here refl
  | inr that ↦ let rest = is_one_of-some f d dests (rw that at h) t in rw rest (ground arith)
]

pub has_state-some :
    (chains : Chains) (ix : Indexes) (a d : ℕ)
    → occurs a d chains ≡ true
    → is_some (ix.states a d) ≡ true
    → has_state chains ix a ≡ true
has_state-some [] ix a d h t = absurd (true≢false (sym h))
has_state-some ((source, dests) ∷ rest) ix a d h t =
    elim (Bool-cases (source == a && is_one_of (λ x. x == d) dests)) [
      | inr that ↦
          let later = has_state-some rest ix a d (rw that at h) t in rw later (ground arith)
      | inl this ↦
          let e : source ≡ a = ground arith in
          let at : (source == a) ≡ true = ground arith in
          let among : is_one_of (λ x. x == d) dests ≡ true = ground arith in
          let some_there = is_one_of-some (ix.states a) d dests among t in
          rw at (
            ap (λ b. b || has_state rest ix a)
              (ap (λ c. is_one_of (λ x. is_some (ix.states c x)) dests) e ∙ some_there))
    ]

pub has_dest-some :
    (chains : Chains) (ix : Indexes) (a d : ℕ)
    → occurs a d chains ≡ true
    → ix.has_chain a ≡ true
    → is_some (ix.states a d) ≡ true
    → has_dest chains ix d ≡ true
has_dest-some [] ix a d h c t = absurd (true≢false (sym h))
has_dest-some ((source, dests) ∷ rest) ix a d h c t =
    elim (Bool-cases (source == a && is_one_of (λ x. x == d) dests)) [
      | inr that ↦
          let later = has_dest-some rest ix a d (rw that at h) c t in rw later (ground arith)
      | inl this ↦
          let e : a ≡ source = ground arith in
          let c' : ix.has_chain source ≡ true = sym (ap ix.has_chain e) ∙ c in
          let t' : is_some (ix.states source d) ≡ true =
            sym (ap (λ b. is_some (ix.states b d)) e) ∙ t in
          rw (c', t') refl
    ]

module _ (env : Env) (is_link_state : Bool) (chains : Chains) where
  abbrev pub Agrees : (ℕ → ℕ → Option StateData) → Option (ℕ → ℕ → Bool) → Type 0
  Agrees states none = Unit
  Agrees states (some f) = (a d : ℕ) → f d a ≡ is_some (states a d)

  -- Each state is in a chain, in the index by destination, and not from the future; and with link
  -- state its destination is a node.
  pub record IsSound (ix : Indexes) : Type 0 where
    pub listed : (a d : ℕ) → is_some (ix.states a d) ≡ true → occurs a d chains ≡ true
    pub chained : (a d : ℕ) → is_some (ix.states a d) ≡ true → ix.has_chain a ≡ true
    pub agrees : Agrees ix.states ix.by_dest
    pub past : (a d : ℕ) (s : StateData) → ix.states a d ≡ some s → is_past env s ≡ true
    pub known :
        is_link_state ≡ true
        → (a d : ℕ) → is_some (ix.states a d) ≡ true
        → (d == env.my_address || ix.nodes d) ≡ true

  -- What is left after some keys were come to.
  pub record Swept (p : ℕ → ℕ → Bool) (ix ix' : Indexes) : Type 0 where
    pub sound : IsSound ix'
    pub left :
        (a d : ℕ) → ix'.states a d ≡ (if p a d then kept env (ix.states a d) else ix.states a d)

  pub Swept-trans :
      (p q : ℕ → ℕ → Bool) (ix ix₁ ix₂ : Indexes)
      → Swept p ix ix₁
      → Swept q ix₁ ix₂
      → Swept (λ a d. p a d || q a d) ix ix₂
  Swept-trans p q ix ix₁ ix₂ r r' = record {
    sound = r'.sound;
    left = λ a d.
        r'.left a d
        ∙ ap (λ x. if q a d then kept env x else x) (r.left a d)
        ∙ kept-both env (p a d) (q a d) (ix.states a d);
  }

  pub Swept-stays :
      (source dest : ℕ) (ix : Indexes)
      → IsSound ix
      → kept env (ix.states source dest) ≡ ix.states source dest
      → Swept (λ a d. source == a && dest == d) ix ix
  Swept-stays source dest ix h stays = record {
    sound = h;
    left = λ a d. elim (Bool-cases (source == a && dest == d)) [
      | inr that ↦ rw that refl
      | inl this ↦
          let e : source ≡ a = ground arith in
          let e' : dest ≡ d = ground arith in rw this (rw (← e, ← e') (sym stays))
    ];
  }

  -- The indexes after a state was removed from both.
  abbrev pub Removed : ℕ → ℕ → Indexes → Indexes → Type 0
  Removed source dest ix ix' =
      IsSound ix'
      × ((a d : ℕ) → ix'.states a d ≡ (if source == a && dest == d then none else ix.states a d))
      × (ix'.has_chain ≡ ix.has_chain)
      × (ix'.nodes ≡ ix.nodes)

  was_there :
      (source dest : ℕ) (ix : Indexes) (a d : ℕ)
      → is_some ((erase source dest ix).states a d) ≡ true
      → is_some (ix.states a d) ≡ true
  was_there source dest ix a d t = elim (Bool-cases (source == a && dest == d)) [
    | inl this ↦ absurd (true≢false (sym (rw this at t)))
    | inr that ↦ rw that at t
  ]

  erased-IsSound :
      (source dest : ℕ) (ix : Indexes) (by : Option (ℕ → ℕ → Bool))
      → IsSound ix
      → Agrees (erase source dest ix).states by
      → IsSound (record (erase source dest ix) { by_dest = by })
  erased-IsSound source dest ix by h agrees = record {
    listed = λ a d t. h.listed a d (was_there source dest ix a d t);
    chained = λ a d t. h.chained a d (was_there source dest ix a d t);
    agrees = agrees;
    past = λ a d s e. elim (Bool-cases (source == a && dest == d)) [
      | inl this ↦ absurd (ground (arith, rw this at e))
      | inr that ↦ h.past a d s (rw that at e)
    ];
    known = λ on a d t. h.known on a d (was_there source dest ix a d t);
  }

  pub remove_state-Removed :
      (source dest : ℕ) (ix : Indexes)
      → IsSound ix
      → is_some (ix.states source dest) ≡ true
      → (by : Option (ℕ → ℕ → Bool)) → ix.by_dest ≡ by
      → Returns (remove_state source dest ix) (Removed source dest ix)
  unfolding remove_state
  remove_state-Removed source dest ix h there none e =
      rw (e, remove_state)
        (erased-IsSound source dest ix ix.by_dest h (rw e tt), λ a d. refl, refl, refl)
  remove_state-Removed source dest ix h there (some f) e =
      let agrees : (a d : ℕ) → f d a ≡ is_some (ix.states a d) = rw e at h.agrees in
      let indexed : f dest source ≡ true = agrees source dest ∙ there in
      rw (e, indexed, remove_state)
        (
          erased-IsSound source dest ix _ h (λ a d. elim (Bool-cases (source == a && dest == d)) [
            | inl this ↦ rw this refl
            | inr that ↦ rw that (agrees a d)
          ]),
          λ a d. refl,
          refl,
          refl,
        )
