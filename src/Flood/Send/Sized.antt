-- ===== src/Flood/Send/Sized.antt =====
-- The number and the sizes of the messages that `Net_Send_State_Updates` sends (daemon/state_flood.c).
use spines.Prelude.{
  ℕ, ◌+◌, ◌≤◌, ◌<◌, ◌≡◌, refl, Bool, true, false, List, [], ◌∷◌, ◌==◌, if◌then◌else◌, arith,
  Bool-cases, ◌⊎◌, inl, inr, sym, ◌∙◌, length,
}
use mathlib.Core.Bool.{true≢false}
use spines.Flood.{StateData, Cell, Changed, Env, ProtDef}
use spines.Flood.Send.{
  StateMessage, Packing, room, pack, is_needed, mark, send_source, send_sources, contains,
  new_packing, finish, net_send_state_updates,
}
use spines.Flood.Send.Conserve.{
  Open, cell_for, send_source-skip, send_source-take, send_source-full,
}
use spines.Flood.Send.Fit.{
  count, count_sent, size, AllFit, WellPacked, Stopped, count_packed, pack-Grown,
}

-- The changed states that a neighbor still needs.
abbrev needs : ℕ → Changed → ℕ
needs n c = if c.mask n then 0 else 1

abbrev pub to_send : ℕ → List Changed → ℕ
to_send n [] = 0
to_send n (c ∷ cs) = needs n c + to_send n cs

module _ (env : Env) (prot : ProtDef) (state_of : ℕ → ℕ → StateData)
    (has_header : 0 < prot.header_size) (has_room : prot.header_size + prot.cell_size ≤ room) where
  -- After a part of the work all that is packed fits, with as many cells as wait no longer.
  abbrev Sized : ℕ → List Changed → Packing → Bool × List Changed × Packing → Type 0
  Sized n cs p (all, cs', p') =
      (((all ≡ true) × WellPacked prot p') ⊎ ((all ≡ false) × Stopped prot p'))
      × (count_packed prot p' + to_send n cs' ≡ count_packed prot p + to_send n cs)

  to_send-mark :
      (n source : ℕ) (c : Changed)
      → is_needed env prot state_of n source c ≡ true
      → (needs n c ≡ 1) × (needs n (mark env prot state_of n c) ≡ 0)
  to_send-mark n source c needed =
      let self : (n == n) ≡ true = ground arith in
      let unmarked : c.mask n ≡ false = ground arith in (rw unmarked refl, rw self refl)

  send_source-Sized :
      (n : ℕ) (is_first : Bool) (source : ℕ) (cs : List Changed) (p : Packing)
      → Open env prot state_of n is_first source p
      → WellPacked prot p
      → Sized n cs p (send_source env prot state_of n is_first source cs p)
  unfolding send_source
  send_source-Sized n is_first source [] p fills well = (inl (refl, well), refl)
  send_source-Sized n is_first source (c ∷ cs) p fills well =
      let cell = cell_for env prot state_of n c in
      let q = (pack env prot state_of n is_first source cell p).1 in
      elim (Bool-cases (is_needed env prot state_of n source c)) [
        | inr skip ↦
            let (ok, same) = send_source-Sized n is_first source cs p fills well in
            rw (send_source-skip env prot state_of n is_first source c cs p skip) (ok, omega arith)
        | inl needed ↦
            let (was, now) = to_send-mark n source c needed in
            elim (pack-Grown prot has_header has_room env state_of n is_first source cell p fills
              well) [
                | inl (fits, (grown, counted, ends)) ↦
                    let (ok, same) = send_source-Sized n false source cs q (inr ends) grown in
                    rw (send_source-take env prot state_of n is_first source c cs p needed fits)
                      (ok, omega arith)
                | inr (full, stopped, counted) ↦
                    rw (send_source-full env prot state_of n is_first source c cs p needed full)
                      (inr (refl, stopped), omega arith)
              ]
      ]

  pub send_sources-Sized :
      (n : ℕ) (rest : List Changed) (done_srcs : List ℕ) (cs : List Changed) (p : Packing)
      → WellPacked prot p
      → Sized n cs p (send_sources env prot state_of n rest done_srcs cs p)
  unfolding send_sources
  send_sources-Sized n [] done_srcs cs p well = (inl (refl, well), refl)
  send_sources-Sized n (c ∷ rest) done_srcs cs p well =
      elim (Bool-cases (contains env prot state_of n done_srcs c.source)) [
        | inl done ↦ rw (done, send_sources) (send_sources-Sized n rest done_srcs cs p well)
        | inr new ↦
            let (ok, same) = send_source-Sized n true c.source cs p (inl refl) well in
            elim ok [
              | inl (all, well') ↦
                  let (ok', same') =
                    send_sources-Sized n rest (c.source ∷ done_srcs)
                      (send_source env prot state_of n true c.source cs p).1
                      (send_source env prot state_of n true c.source cs p).2 well' in
                  rw (new, all, send_sources) (ok', omega arith)
              | inr (some_left, stopped) ↦
                  rw (new, some_left, send_sources) (inr (refl, stopped), same)
            ]
      ]

  pub size-zero : (packets : List (ℕ × List Cell)) → size prot packets ≡ 0 → count packets ≡ 0
  size-zero [] h = refl
  size-zero ((source, cells) ∷ rest) h = omega arith

  -- What a call of `Net_Send_State_Updates` sends.
  abbrev Sends : ℕ → List Changed → Bool × List Changed × List StateMessage → Type 0
  Sends n cs (all, cs', messages) =
      AllFit prot messages
      × (length messages ≤ 6)
      × (all ≡ false → length messages ≡ 6)
      × (count_sent messages + to_send n cs' ≡ to_send n cs)

  finish-Sends :
      (n : ℕ) (cs : List Changed) (all : Bool) (cs' : List Changed) (p : Packing)
      → Sized n cs (new_packing env prot state_of n) (all, cs', p)
      → Sends n cs (finish env prot state_of n all cs' p)
  finish-Sends n cs false cs' p (inl (e, well), same) = absurd (true≢false (sym e))
  finish-Sends n cs false cs' p (inr (e, (empty, fit, six)), same) =
      let none : count p.buff ≡ 0 = rw empty refl in (fit, omega arith, λ h. six, omega arith)
  finish-Sends n cs true cs' p (inr (e, stopped), same) = absurd (true≢false e)
  finish-Sends n cs true cs' p (inl (e, (bytes, within, some_cell, fit, cnt, few)), same) =
      elim (Bool-cases (p.pack_bytes == 0)) [
        | inl nothing ↦
            let zero_bytes : p.pack_bytes ≡ 0 = ground arith in
            let none = size-zero p.buff (sym bytes ∙ zero_bytes) in
            rw nothing (fit, omega arith, λ h. absurd (true≢false h), omega arith)
        | inr more ↦
            let some_bytes : 0 < p.pack_bytes = ground arith in
            rw more (
              ((bytes, within, some_cell some_bytes), fit),
              omega arith,
              λ h. absurd (true≢false h),
              omega arith,
            )
      ]

  -- The messages that are sent to a neighbor fit, each has some cell, and there are six at most, and
  -- just six where not all is sent. As many changed states need no more sending as cells were sent.
  pub net_send_state_updates-Sends :
      (n : ℕ) (cs : List Changed)
      → (let (all, cs', messages) = net_send_state_updates env prot state_of n cs in
          AllFit prot messages
          × (length messages ≤ 6)
          × (all ≡ false → length messages ≡ 6)
          × (count_sent messages + to_send n cs' ≡ to_send n cs))
  unfolding net_send_state_updates
  net_send_state_updates-Sends n cs =
      let start = new_packing env prot state_of n in
      let r = send_sources env prot state_of n cs [] cs start in
      finish-Sends n cs r.0 r.1 r.2
        (send_sources-Sized n cs [] cs start (refl, omega arith, λ h. h, tt, refl, omega arith))
