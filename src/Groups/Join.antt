-- ===== src/Groups/Join.antt =====
-- What `Join_Group` does (daemon/multicast.c).
use spines.Prelude.{
  ℕ, ◌≡◌, refl, true, false, ◌&&◌, not, some, ◌∷◌, ◌==◌, if◌then◌else◌, arith, Bool-cases, ◌⊎◌, inl,
  inr, sym, ◌∙◌,
}
use spines.Prelude.Int.{ℤ, pos}
use spines.Routing.Address.{is_mcast_addr, is_acast_addr}
use spines.Flood.{Tables, Env, bump, put_state, added}
use spines.Groups.{
  is_active, activate, get_or_create_group, Session, Groups, set_joined, set_sessions, failure,
  join_group,
}
use spines.Groups.Updated.{
  is_active-activate, contains-some, put_state-Updated, added-Updated, update-WellFormed, add_own,
  get_or_create_group-active, is_active_state, Updated, is_group_addr, WellFormed,
}

module _ (env : Env) where
  abbrev joined_by : ℕ → ℕ → Groups → Tables → Groups
  joined_by mcast ses g t =
      set_joined ses mcast true
        (set_sessions mcast (ses ∷ g.joined_sessions mcast) (record g { tables = t }))

  -- The groups after a session joined a group that it is not in.
  joined-WellFormed :
      (mcast ses : ℕ) (g : Groups) (t : Tables)
      → WellFormed env g
      → g.joined_groups ses mcast ≡ false
      → Updated env mcast true g.tables t
      → WellFormed env (joined_by mcast ses g t)
        × ((joined_by mcast ses g t).joined_groups ses mcast ≡ true)
  joined-WellFormed mcast ses g t well new updated =
      let self : (ses == ses) ≡ true = ground arith in
      let self' : (mcast == mcast) ≡ true = ground arith in
      let (act, dist, tell) = well mcast in
      (
        update-WellFormed env mcast ses true (ses ∷ g.joined_sessions mcast) g t well updated
            (sym (tell ses) ∙ new, dist) (rw self refl)
            (λ s ne. let apart : (ses == s) ≡ false = ground arith in rw apart refl),
        rw (self, self') refl,
      )

  join_group-new :
      (mcast : ℕ) (ses : Session) (g : Groups)
      → WellFormed env g
      → (not (is_mcast_addr mcast) && not (is_acast_addr mcast)) ≡ false
      → ses.is_udp ≡ true
      → g.joined_groups ses.sess_id mcast ≡ false
      → (r : ℤ) × (g' : Groups) × (join_group env mcast ses g ≡ some (r, g'))
        × WellFormed env g'
        × (g'.joined_groups ses.sess_id mcast ≡ true)
        × (r ≡ (if is_active_state (g.tables.states env.my_address mcast) then pos 1 else pos 2))
  unfolding join_group
  join_group-new mcast ses g well group udp new =
      let s = get_or_create_group env env.my_address mcast g.tables in
      let known = get_or_create_group-active env mcast g.tables in
      elim (Bool-cases (is_active s.value)) [
        | inl active ↦
            let t = put_state env.my_address mcast s g.tables in
            let updated : Updated env mcast true g.tables t = (
              (put_state-Updated env mcast s g.tables).0 ∙ active,
              (put_state-Updated env mcast s g.tables).1,
            ) in
            let (well', joined) = joined-WellFormed mcast ses.sess_id g t well new updated in
            (
              pos 1,
              joined_by mcast ses.sess_id g t,
              rw (group, udp, new, active) refl,
              well',
              joined,
              rw (sym known ∙ active) refl,
            )
        | inr inactive ↦
            let s' = record s { value = activate s.value } in
            let t = added env true env.my_address env.my_address mcast (bump s') g.tables in
            let updated : Updated env mcast true g.tables t = (
              (added-Updated env mcast s' g.tables).0 ∙ is_active-activate s.value,
              (added-Updated env mcast s' g.tables).1,
            ) in
            let (well', joined) = joined-WellFormed mcast ses.sess_id g t well new updated in
            (
              pos 2,
              joined_by mcast ses.sess_id g t,
              rw (group, udp, new, inactive, add_own env mcast (bump s') g.tables) refl,
              well',
              joined,
              rw (sym known ∙ inactive) refl,
            )
      ]

  -- Joining never exits and keeps the groups well-formed. It fails exactly for an address that is no
  -- group's or a session of another type, and then changes nothing. Otherwise the session is in the
  -- group afterwards, and the result is 2 exactly if the group was not active.
  pub join_group-WellFormed :
      (mcast : ℕ) (ses : Session) (g : Groups)
      → WellFormed env g
      → (r : ℤ) × (g' : Groups) × (join_group env mcast ses g ≡ some (r, g'))
        × WellFormed env g'
        × (((is_group_addr env mcast && ses.is_udp ≡ false) × (r ≡ failure) × (g' ≡ g))
            ⊎ ((is_group_addr env mcast && ses.is_udp ≡ true)
                × (g'.joined_groups ses.sess_id mcast ≡ true)
                × (r ≡ (
                    if is_active_state (g.tables.states env.my_address mcast)
                    then pos 1
                    else pos 2))))
  unfolding join_group
  join_group-WellFormed mcast ses g well = elim (Bool-cases (is_group_addr env mcast)) [
    | inr no_group ↦
        let e : (not (is_mcast_addr mcast) && not (is_acast_addr mcast)) ≡ true = ground arith in
        (failure, g, rw e refl, well, inl (ground arith, refl, refl))
    | inl group ↦
        let e : (not (is_mcast_addr mcast) && not (is_acast_addr mcast)) ≡ false = ground arith in
        elim (Bool-cases ses.is_udp) [
          | inr other_type ↦
              (failure, g, rw (e, other_type) refl, well, inl (ground arith, refl, refl))
          | inl udp ↦ elim (Bool-cases (g.joined_groups ses.sess_id mcast)) [
            | inl joined ↦
                let (act, dist, tell) = well mcast in
                let active : is_active_state (g.tables.states env.my_address mcast) ≡ true =
                  act
                  ∙ contains-some (g.joined_sessions mcast) ses.sess_id
                      (sym (tell ses.sess_id) ∙ joined) in
                (
                  pos 1,
                  g,
                  rw (e, udp, joined) refl,
                  well,
                  inr (ground arith, joined, rw active refl),
                )
            | inr new ↦
                let (r, g', ran, well', joined, res) = join_group-new mcast ses g well e udp new in
                (r, g', ran, well', inr (ground arith, joined, res))
          ]
        ]
  ]
