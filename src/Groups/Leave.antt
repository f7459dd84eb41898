-- ===== src/Groups/Leave.antt =====
-- What `Leave_Group` does (daemon/multicast.c).
use spines.Prelude.{
  ℕ, ◌≡◌, refl, true, false, ◌&&◌, not, some, ◌==◌, arith, Bool-cases, ◌⊎◌, inl, inr, sym, ap, ◌∙◌,
}
use spines.Prelude.Int.{ℤ, pos}
use spines.Routing.Address.{is_mcast_addr, is_acast_addr}
use spines.Flood.{Tables, Env, bump, added}
use spines.Groups.{
  deactivate, get_or_create_group, Session, Groups, contains, remove, set_joined, set_sessions,
  is_nil, failure, leave_group,
}
use spines.Groups.Updated.{
  is_active-deactivate, contains-remove_self, contains-remove_other, contains-some, Distinct-remove,
  added-Updated, update-WellFormed, add_own, Updated, is_group_addr, WellFormed,
}

module _ (env : Env) where
  abbrev left_by : ℕ → ℕ → Groups → Tables → Groups
  left_by mcast ses g t =
      set_joined ses mcast false
        (set_sessions mcast (remove (g.joined_sessions mcast) ses) (record g { tables = t }))

  left-WellFormed :
      (mcast ses : ℕ) (g : Groups) (t : Tables)
      → WellFormed env g
      → Updated env mcast (not (is_nil (remove (g.joined_sessions mcast) ses))) g.tables t
      → WellFormed env (left_by mcast ses g t)
        × ((left_by mcast ses g t).joined_groups ses mcast ≡ false)
  left-WellFormed mcast ses g t well updated =
      let self : (ses == ses) ≡ true = ground arith in
      let self' : (mcast == mcast) ≡ true = ground arith in
      let (act, dist, tell) = well mcast in
      (
        update-WellFormed env mcast ses false (remove (g.joined_sessions mcast) ses) g t well
            updated (Distinct-remove (g.joined_sessions mcast) ses dist)
            (contains-remove_self (g.joined_sessions mcast) ses dist)
            (λ s ne. contains-remove_other (g.joined_sessions mcast) ses s ne),
        rw (self, self') refl,
      )

  leave_group-member :
      (mcast : ℕ) (ses : Session) (g : Groups)
      → WellFormed env g
      → (not (is_mcast_addr mcast) && not (is_acast_addr mcast)) ≡ false
      → g.joined_groups ses.sess_id mcast ≡ true
      → (g' : Groups) × (leave_group env mcast ses g ≡ some (pos 1, g'))
        × WellFormed env g'
        × (g'.joined_groups ses.sess_id mcast ≡ false)
  unfolding leave_group
  leave_group-member mcast ses g well group joined =
      let (act, dist, tell) = well mcast in
      let member : contains (g.joined_sessions mcast) ses.sess_id ≡ true =
        sym (tell ses.sess_id) ∙ joined in
      let self : (mcast == mcast) ≡ true = ground arith in
      let rest = remove (g.joined_sessions mcast) ses.sess_id in
      elim (Bool-cases (is_nil rest)) [
        | inl last ↦
            let s = get_or_create_group env env.my_address mcast g.tables in
            let s' = record s { value = deactivate s.value } in
            let t = added env true env.my_address env.my_address mcast (bump s') g.tables in
            let updated : Updated env mcast (not (is_nil rest)) g.tables t = (
              (added-Updated env mcast s' g.tables).0
                  ∙ is_active-deactivate s.value
                  ∙ sym (ap not last),
              (added-Updated env mcast s' g.tables).1,
            ) in
            let (well', left) = left-WellFormed mcast ses.sess_id g t well updated in
            (
              left_by mcast ses.sess_id g t,
              rw (group, joined, member, self, last, add_own env mcast (bump s') g.tables) refl,
              well',
              left,
            )
        | inr others ↦
            let active = act ∙ contains-some (g.joined_sessions mcast) ses.sess_id member in
            let updated : Updated env mcast (not (is_nil rest)) g.tables g.tables =
              (active ∙ sym (ap not others), λ m ne. refl) in
            let (well', left) = left-WellFormed mcast ses.sess_id g g.tables well updated in
            (
              left_by mcast ses.sess_id g g.tables,
              rw (group, joined, member, self, others) refl,
              well',
              left,
            )
      ]

  -- Leaving never exits and keeps the groups well-formed. It fails exactly for an address that is no
  -- group's, and then changes nothing. Otherwise it returns 1, and the session is not in the group
  -- afterwards.
  pub leave_group-WellFormed :
      (mcast : ℕ) (ses : Session) (g : Groups)
      → WellFormed env g
      → (r : ℤ) × (g' : Groups) × (leave_group env mcast ses g ≡ some (r, g'))
        × WellFormed env g'
        × (((is_group_addr env mcast ≡ false) × (r ≡ failure) × (g' ≡ g))
            ⊎ ((is_group_addr env mcast ≡ true)
                × (r ≡ pos 1)
                × (g'.joined_groups ses.sess_id mcast ≡ false)))
  unfolding leave_group
  leave_group-WellFormed mcast ses g well = elim (Bool-cases (is_group_addr env mcast)) [
    | inr no_group ↦
        let e : (not (is_mcast_addr mcast) && not (is_acast_addr mcast)) ≡ true = ground arith in
        (failure, g, rw e refl, well, inl (no_group, refl, refl))
    | inl group ↦
        let e : (not (is_mcast_addr mcast) && not (is_acast_addr mcast)) ≡ false = ground arith in
        elim (Bool-cases (g.joined_groups ses.sess_id mcast)) [
          | inr not_in ↦ (pos 1, g, rw (e, not_in) refl, well, inr (group, refl, not_in))
          | inl joined ↦
              let (g', ran, well', left) = leave_group-member mcast ses g well e joined in
              (pos 1, g', ran, well', inr (group, refl, left))
        ]
  ]
