-- ===== src/Flood/Keep/Collect.antt =====
-- What `State_Garbage_Collect` removes (daemon/state_flood.c).
use spines.Prelude.{
  ℕ, ◌+◌, ◌*◌, ◌≤◌, ◌<◌, ◌⊎◌, ◌≡◌, refl, Bool, true, false, ◌&&◌, ◌||◌, not, Option, none, some,
  List, [], ◌∷◌, ◌==◌, if◌then◌else◌, arith, Bool-cases, Option-cases, inl, inr, sym, ap, ◌∙◌,
}
use mathlib.Core.Bool.{true≢false}
use spines.Prelude.Options.{Returns, Returns-if, Returns-map}
use spines.Flood.{StateData, Env}
use spines.Flood.Keep.{
  Indexes, Chains, is_past, is_expired, is_some, remove_state, has_dest, has_state, is_one_of,
  try_remove_node, collect_state, collect_chain, end_chain, collect_chains, state_garbage_collect,
}
use spines.Routing.Regime.{◌>>=◌}
use spines.Flood.Keep.Sound.{
  kept, occurs, bind-Returns, has_state-some, has_dest-some, IsSound, Swept, Swept-trans,
  Swept-stays, Removed, remove_state-Removed,
}

module _ (env : Env) (is_link_state : Bool) (chains : Chains) where
  -- A node that may be removed is known, the local one, or the source of a chain.
  abbrev MayRemove : ℕ → Indexes → Type 0
  MayRemove nd ix = (nd == env.my_address || (ix.has_chain nd || ix.nodes nd)) ≡ true

  try_remove_node-IsSound :
      (nd : ℕ) (ix : Indexes)
      → IsSound env is_link_state chains ix
      → MayRemove nd ix
      → Returns
          (try_remove_node env is_link_state chains nd ix)
          (λ ix'. IsSound env is_link_state chains ix' × (ix'.states ≡ ix.states))
  unfolding try_remove_node
  try_remove_node-IsSound nd ix h may =
      Returns-if (λ ix'. IsSound env is_link_state chains ix' × (ix'.states ≡ ix.states))
        (nd == env.my_address || (ix.has_chain nd || has_dest chains ix nd)) _ _
        (λ needed. (h, refl))
        λ unneeded.
          Returns-if (λ ix'. IsSound env is_link_state chains ix' × (ix'.states ≡ ix.states))
            (ix.nodes nd) _ _
            (λ is_node. (
              record {
                listed = h.listed;
                chained = h.chained;
                agrees = h.agrees;
                past = h.past;
                known = λ on a d t. elim (Bool-cases (d == nd)) [
                  | inr that ↦ rw that (h.known on a d t)
                  | inl this ↦
                      let e : d ≡ nd = ground arith in
                      let there : has_dest chains ix nd ≡ true =
                        ap (has_dest chains ix) (sym e)
                        ∙ has_dest-some chains ix a d (h.listed a d t) (h.chained a d t) t in
                      absurd (ground arith)
                ];
              },
              refl,
            ))
            λ no_node. absurd (ground arith)

  removed_nodes :
      (source dest : ℕ) (ix : Indexes)
      → IsSound env is_link_state chains ix
      → ix.has_chain source ≡ true
      → is_link_state ≡ true
      → (dest == env.my_address || ix.nodes dest) ≡ true
      → Returns
          (try_remove_node env is_link_state chains source ix >>= λ ix'.
            try_remove_node env is_link_state chains dest ix')
          (λ ix'. IsSound env is_link_state chains ix' × (ix'.states ≡ ix.states))
  unfolding try_remove_node
  removed_nodes source dest ix h chain on is_known =
      let needed : (source == env.my_address || (ix.has_chain source || has_dest chains ix source))
          ≡ true =
        ground arith in
      rw needed (try_remove_node-IsSound dest ix h (ground arith))

  gone_left :
      (source dest : ℕ) (ix : Indexes) (a d : ℕ)
      → kept env (ix.states source dest) ≡ none
      → (if source == a && dest == d then none else ix.states a d)
        ≡ (if source == a && dest == d then kept env (ix.states a d) else ix.states a d)
  gone_left source dest ix a d gone = elim (Bool-cases (source == a && dest == d)) [
    | inr that ↦ rw that refl
    | inl this ↦
        let e : source ≡ a = ground arith in
        let e' : dest ≡ d = ground arith in rw this (rw (← e, ← e') (sym gone))
  ]

  collect_state-Swept :
      (source dest : ℕ) (ix : Indexes)
      → IsSound env is_link_state chains ix
      → Returns
          (collect_state env is_link_state chains source dest ix)
          (Swept env is_link_state chains (λ a d. source == a && dest == d) ix)
  unfolding collect_state
  collect_state-Swept source dest ix h = elim (Option-cases (ix.states source dest)) [
    | inl gone ↦
        rw (gone, collect_state)
          (Swept-stays env is_link_state chains source dest ix h (rw gone refl))
    | inr (s, there) ↦
        let is_there : is_some (ix.states source dest) ≡ true = ap is_some there in
        let past : not (is_past env s) ≡ false = ap not (h.past source dest s there) in
        elim (Bool-cases (is_expired env s)) [
          | inr fresh ↦
              rw (there, past, fresh, collect_state)
                (Swept-stays env is_link_state chains source dest ix h (rw (there, fresh) refl))
          | inl old ↦
              let gone : kept env (ix.states source dest) ≡ none = rw (there, old) refl in
              rw (there, past, old, collect_state)
                (bind-Returns (Removed env is_link_state chains source dest ix) _
                  (remove_state source dest ix) _
                  (remove_state-Removed env is_link_state chains source dest ix h is_there
                    ix.by_dest refl)
                  (λ ix₁ (h₁, states, chain, nodes).
                    Returns-if (Swept env is_link_state chains (λ a d. source == a && dest == d) ix)
                      is_link_state _ _
                      (λ on.
                        Returns-map
                          (λ ix'. IsSound env is_link_state chains ix' × (ix'.states ≡ ix₁.states))
                          _ _
                          (removed_nodes source dest ix₁ h₁
                            (ap (λ (c : ℕ → Bool). c source) chain ∙ h.chained source dest is_there)
                            on
                            (ap (λ (c : ℕ → Bool). dest == env.my_address || c dest) nodes
                              ∙ h.known on source dest is_there))
                          (λ ix' (h', same). record {
                            sound = h';
                            left = λ a d.
                                ap (λ (st : ℕ → ℕ → Option StateData). st a d) same
                                ∙ states a d
                                ∙ gone_left source dest ix a d gone;
                          }))
                      λ off. record {
                        sound = h₁;
                        left = λ a d. states a d ∙ gone_left source dest ix a d gone;
                      }))
        ]
  ]

  abbrev among : ℕ → List ℕ → ℕ → ℕ → Bool
  among source dests a d = source == a && is_one_of (λ x. x == d) dests

  Swept-same :
      (p q : ℕ → ℕ → Bool) (ix ix' : Indexes)
      → ((a d : ℕ) → p a d ≡ q a d)
      → Swept env is_link_state chains p ix ix'
      → Swept env is_link_state chains q ix ix'
  Swept-same p q ix ix' same r = record {
    sound = r.sound;
    left = λ a d.
        r.left a d ∙ ap (λ b. if b then kept env (ix.states a d) else ix.states a d) (same a d);
  }

  collect_chain-Swept :
      (source : ℕ) (dests : List ℕ) (ix : Indexes)
      → IsSound env is_link_state chains ix
      → Returns
          (collect_chain env is_link_state chains source dests ix)
          (Swept env is_link_state chains (among source dests) ix)
  unfolding collect_chain
  collect_chain-Swept source [] ix h = record { sound = h; left = λ a d. ground arith }
  collect_chain-Swept source (dest ∷ dests) ix h =
      bind-Returns (Swept env is_link_state chains (λ a d. source == a && dest == d) ix) _
        (collect_state env is_link_state chains source dest ix) _
        (collect_state-Swept source dest ix h)
        λ ix₁ r.
          Returns-map (Swept env is_link_state chains (among source dests) ix₁) _ _
            (collect_chain-Swept source dests ix₁ r.sound)
            λ ix₂ r'.
              Swept-same _ (among source (dest ∷ dests)) ix ix₂ (λ a d. ground arith)
                (Swept-trans env is_link_state chains _ (among source dests) ix ix₁ ix₂ r r')

  end_chain-IsSound :
      (source : ℕ) (ix : Indexes)
      → IsSound env is_link_state chains ix
      → IsSound env is_link_state chains (end_chain env is_link_state chains source ix)
  end_chain-IsSound source ix h = elim (Bool-cases (has_state chains ix source)) [
    | inl some_left ↦ rw some_left h
    | inr empty ↦ rw empty (record {
      listed = h.listed;
      chained = λ a d t. elim (Bool-cases (a == source)) [
        | inr that ↦ rw that (h.chained a d t)
        | inl this ↦
            let e : a ≡ source = ground arith in
            let there : has_state chains ix source ≡ true =
              ap (has_state chains ix) (sym e) ∙ has_state-some chains ix a d (h.listed a d t) t in
            absurd (true≢false (sym there ∙ empty))
      ];
      agrees = h.agrees;
      past = h.past;
      known = h.known;
    })
  ]

  end_chain-states :
      (source : ℕ) (ix : Indexes)
      → (end_chain env is_link_state chains source ix).states ≡ ix.states
  end_chain-states source ix = elim (Bool-cases (has_state chains ix source)) [
    | inl some_left ↦ rw some_left refl
    | inr empty ↦ rw empty refl
  ]

  collect_chains-Swept :
      (rest : Chains) (ix : Indexes)
      → IsSound env is_link_state chains ix
      → Returns
          (collect_chains env is_link_state chains rest ix)
          (Swept env is_link_state chains (λ a d. occurs a d rest) ix)
  unfolding collect_chains
  collect_chains-Swept [] ix h = record { sound = h; left = λ a d. refl }
  collect_chains-Swept ((source, dests) ∷ rest) ix h =
      bind-Returns (Swept env is_link_state chains (among source dests) ix) _
        (collect_chain env is_link_state chains source dests ix) _
        (collect_chain-Swept source dests ix h)
        λ ix₁ r.
          let ended = end_chain env is_link_state chains source ix₁ in
          let r₁ : Swept env is_link_state chains (among source dests) ix ended = record {
            sound = end_chain-IsSound source ix₁ r.sound;
            left = λ a d.
                ap (λ (st : ℕ → ℕ → Option StateData). st a d) (end_chain-states source ix₁)
                ∙ r.left a d;
          } in
          Returns-map (Swept env is_link_state chains (λ a d. occurs a d rest) ended) _ _
            (collect_chains-Swept rest ended r₁.sound)
            λ ix₂ r'. Swept-trans env is_link_state chains (among source dests) _ ix ended ix₂ r₁ r'

  -- A state is old if the local clock is at least 90000 seconds past the time that it was stamped
  -- with, less ten seconds for each unit of its age.
  abbrev pub IsOld : StateData → Type 0
  IsOld s =
      (s.my_sec + 90000 < env.now_sec + s.age * 10)
      ⊎ ((s.my_sec + 90000 ≡ env.now_sec + s.age * 10) × (s.my_usec ≤ env.now_usec))

  expired-IsOld : (s : StateData) → is_past env s ≡ true → is_expired env s ≡ true → IsOld s
  expired-IsOld s past old = ground arith

  fresh-not-IsOld : (s : StateData) → is_past env s ≡ true → is_expired env s ≡ false → ¬ IsOld s
  fresh-not-IsOld s past fresh = ground arith

  -- Where each state is in its chain and in the index by destination, if the protocol has one, and
  -- is not from the future, and with link state its destination is a node: the collection does not
  -- exit, and all this holds again. Just the states that are old are removed, and the others stay.
  pub state_garbage_collect-kept :
      (ix : Indexes)
      → IsSound env is_link_state chains ix
      → Returns (state_garbage_collect env is_link_state chains ix) (λ ix'.
        IsSound env is_link_state chains ix'
        × ((a d : ℕ) (s : StateData)
            → ix.states a d ≡ some s
            → (IsOld s → ix'.states a d ≡ none) × (¬ IsOld s → ix'.states a d ≡ some s))
        × ((a d : ℕ) → ix.states a d ≡ none → ix'.states a d ≡ none))
  unfolding state_garbage_collect
  state_garbage_collect-kept ix h =
      Returns-map (Swept env is_link_state chains (λ a d. occurs a d chains) ix) _ _
        (collect_chains-Swept chains ix h)
        λ ix' r. (
          r.sound,
          λ a d s there.
              let is_listed : occurs a d chains ≡ true = h.listed a d (ap is_some there) in
              let left : ix'.states a d ≡ kept env (some s) =
                r.left a d ∙ rw is_listed (ap (kept env) there) in
              let past = h.past a d s there in
              elim (Bool-cases (is_expired env s)) [
                | inl old ↦
                    let gone : ix'.states a d ≡ none = left ∙ rw old refl in
                    (λ is_old. gone, λ young. absurd (young (expired-IsOld s past old)))
                | inr fresh ↦
                    let stays : ix'.states a d ≡ some s = left ∙ rw fresh refl in
                    (λ is_old. absurd (fresh-not-IsOld s past fresh is_old), λ young. stays)
              ],
          λ a d gone. r.left a d ∙ elim (Bool-cases (occurs a d chains)) [
            | inl t ↦ rw (t, gone) refl
            | inr t ↦ rw (t, gone) refl
          ],
        )
