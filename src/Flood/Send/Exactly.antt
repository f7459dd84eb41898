-- ===== src/Flood/Send/Exactly.antt =====
-- What `Net_Send_State_Updates` sends to a neighbor (daemon/state_flood.c).
use spines.Prelude.{
  ℕ, ◌+◌, ◌≤◌, ◌<◌, ◌≡◌, ◌≢◌, refl, Bool, true, false, ◌||◌, List, [], ◌∷◌, ◌++◌, ◌==◌, arith,
  Bool-cases, ◌⊎◌, inl, inr, sym, ap, ◌∙◌, map,
}
use mathlib.Core.Bool.{true≢false}
use mathlib.Core.List.{append-nil}
use spines.Flood.{StateData, Cell, Changed, Env, ProtDef}
use spines.Flood.Send.{
  Packing, room, mark, send_source, send_sources, contains, new_packing, finish,
  net_send_state_updates,
}
use spines.Flood.Send.Conserve.{Keeps, send_source-Keeps, waiting}
use spines.Flood.Send.Packed.{packed, sent_in}
use spines.Flood.Send.Fit.{size, WellPacked, Stopped}
use spines.Flood.Send.Sized.{send_sources-Sized}

abbrev occurs : ℕ → List Changed → Bool
occurs a [] = false
occurs a (c ∷ cs) = c.source == a || occurs a cs

size-nil :
    (prot : ProtDef)
    → 0 < prot.header_size
    → (packets : List (ℕ × List Cell)) → size prot packets ≡ 0
    → packets ≡ []
size-nil prot has_header [] h = refl
size-nil prot has_header ((source, cells) ∷ rest) h = absurd (omega arith)

module _ (env : Env) (prot : ProtDef) (state_of : ℕ → ℕ → StateData) (n : ℕ) where
  abbrev waits : ℕ → List Changed → List Cell
  waits a cs = waiting env prot state_of n a cs

  abbrev is_done : List ℕ → ℕ → Bool
  is_done done_srcs a = contains env prot state_of n done_srcs a

  -- Of each source, what is packed waits no longer, and nothing changes for other neighbors.
  abbrev Conserves : List Changed → Packing → List Changed → Packing → Type 0
  Conserves cs p cs' p' =
      ((a : ℕ) → packed a p' ++ waits a cs' ≡ packed a p ++ waits a cs)
      × (map (mark env prot state_of n) cs' ≡ map (mark env prot state_of n) cs)

  Keeps-Conserves :
      (source : ℕ) (cs : List Changed) (p : Packing) (r : Bool × List Changed × Packing)
      → Keeps env prot state_of n source cs p r
      → Conserves cs p r.1 r.2
  Keeps-Conserves source cs p r (kept, others, same, done) = (
    λ a. elim (Bool-cases (a == source)) [
      | inl here ↦ let e : a ≡ source = ground arith in rw e kept
      | inr there ↦
          let (no_more, still) = others a (ground arith) in
          rw (still) (ap (λ l. l ++ waits a cs) no_more)
    ],
    same,
  )

  send_sources-Conserves :
      (rest : List Changed) (done_srcs : List ℕ) (cs : List Changed) (p : Packing)
      → (let r = send_sources env prot state_of n rest done_srcs cs p in Conserves cs p r.1 r.2)
  unfolding send_sources
  send_sources-Conserves [] done_srcs cs p = (λ a. refl, refl)
  send_sources-Conserves (c ∷ rest) done_srcs cs p =
      elim (Bool-cases (is_done done_srcs c.source)) [
        | inl done ↦ rw (done, send_sources) (send_sources-Conserves rest done_srcs cs p)
        | inr new ↦
            let r = send_source env prot state_of n true c.source cs p in
            let (kept, same) =
              Keeps-Conserves c.source cs p r
                (send_source-Keeps env prot state_of n true c.source cs p (inl refl)) in
            elim (Bool-cases r.0) [
              | inl all ↦
                  let (kept', same') = send_sources-Conserves rest (c.source ∷ done_srcs) r.1 r.2 in
                  rw (new, all, send_sources) (λ a. kept' a ∙ kept a, same' ∙ same)
              | inr some_left ↦ rw (new, some_left, send_sources) (kept, same)
            ]
      ]

  -- Nothing of the source waits, or its turn is still to come.
  abbrev Served : ℕ → List Changed → List ℕ → List Changed → Type 0
  Served a rest done_srcs cs =
      (waits a cs ≡ []) ⊎ ((occurs a rest ≡ true) × (is_done done_srcs a ≡ false))

  Served-skip :
      (a : ℕ) (c : Changed) (rest : List Changed) (done_srcs : List ℕ) (cs : List Changed)
      → is_done done_srcs c.source ≡ true
      → Served a (c ∷ rest) done_srcs cs
      → Served a rest done_srcs cs
  Served-skip a c rest done_srcs cs done (inl empty) = inl empty
  Served-skip a c rest done_srcs cs done (inr (later, new)) = elim (Bool-cases (c.source == a)) [
    | inl this ↦
        let e : c.source ≡ a = ground arith in
        absurd (true≢false (sym done ∙ ap (λ b. is_done done_srcs b) e ∙ new))
    | inr that ↦ inr (rw that at later, new)
  ]

  Served-next :
      (a : ℕ) (c : Changed) (rest : List Changed) (done_srcs : List ℕ) (cs cs' : List Changed)
      → ((a ≢ c.source) → waits a cs' ≡ waits a cs)
      → waits c.source cs' ≡ []
      → Served a (c ∷ rest) done_srcs cs
      → Served a rest (c.source ∷ done_srcs) cs'
  Served-next a c rest done_srcs cs cs' others done served = elim (Bool-cases (c.source == a)) [
    | inl this ↦ let e : a ≡ c.source = ground arith in inl (rw e done)
    | inr that ↦ elim served [
      | inl empty ↦ inl (others (ground arith) ∙ empty)
      | inr (later, new) ↦ inr (ground arith, rw that new)
    ]
  ]

  send_sources-all :
      (a : ℕ) (rest : List Changed) (done_srcs : List ℕ) (cs : List Changed) (p : Packing)
      → Served a rest done_srcs cs
      → (send_sources env prot state_of n rest done_srcs cs p).0 ≡ true
      → waits a (send_sources env prot state_of n rest done_srcs cs p).1 ≡ []
  unfolding send_sources
  send_sources-all a [] done_srcs cs p served all = elim served [
    | inl empty ↦ empty
    | inr (later, new) ↦ absurd (true≢false (sym later))
  ]
  send_sources-all a (c ∷ rest) done_srcs cs p served all =
      elim (Bool-cases (is_done done_srcs c.source)) [
        | inl done ↦
            rw (done, send_sources)
              (send_sources-all a rest done_srcs cs p
                (Served-skip a c rest done_srcs cs done served) (rw (done, send_sources) at all))
        | inr new ↦
            let r = send_source env prot state_of n true c.source cs p in
            let (kept, others, same, finished) =
              send_source-Keeps env prot state_of n true c.source cs p (inl refl) in
            elim (Bool-cases r.0) [
              | inl ok ↦
                  let next =
                    Served-next a c rest done_srcs cs r.1 (λ ne. (others a ne).1) (finished ok)
                      served in
                  rw (new, ok, send_sources)
                    (send_sources-all a rest (c.source ∷ done_srcs) r.1 r.2 next
                      (rw (new, ok, send_sources) at all))
              | inr some_left ↦ absurd (true≢false (sym (rw (new, some_left, send_sources) at all)))
            ]
      ]

  waits-none : (a : ℕ) (cs : List Changed) → occurs a cs ≡ false → waits a cs ≡ []
  waits-none a [] h = refl
  waits-none a (c ∷ cs) h =
      let apart : (c.source == a) ≡ false = ground arith in
      rw apart (waits-none a cs (ground arith))

  Served-all : (a : ℕ) (cs : List Changed) → Served a cs [] cs
  Served-all a cs = elim (Bool-cases (occurs a cs)) [
    | inl some_occurs ↦ inr (some_occurs, refl)
    | inr none_occurs ↦ inl (waits-none a cs none_occurs)
  ]

  finish-same :
      (has_header : 0 < prot.header_size) (a : ℕ) (all : Bool) (cs : List Changed) (p : Packing)
      → ((all ≡ true) × WellPacked prot p) ⊎ ((all ≡ false) × Stopped prot p)
      → (let (all', cs', messages) = finish env prot state_of n all cs p in
          (all' ≡ all) × (cs' ≡ cs) × (sent_in a messages ≡ packed a p))
  finish-same has_header a false cs p (inl (e, well)) = absurd (true≢false (sym e))
  finish-same has_header a false cs p (inr (e, (empty, fit, six))) =
      (refl, refl, rw empty (sym (append-nil (sent_in a p.sent))))
  finish-same has_header a true cs p (inr (e, stopped)) = absurd (true≢false e)
  finish-same has_header a true cs p (inl (e, (bytes, within, some_cell, fit, cnt, few))) =
      elim (Bool-cases (p.pack_bytes == 0)) [
        | inl nothing ↦
            let zero_bytes : p.pack_bytes ≡ 0 = ground arith in
            let empty = size-nil prot has_header p.buff (sym bytes ∙ zero_bytes) in
            rw (nothing, empty) (refl, refl, sym (append-nil (sent_in a p.sent)))
        | inr more ↦ rw more (refl, refl, refl)
      ]

-- What is sent to a neighbor of the states of a source is, in their order, what the neighbor needed and
-- needs no longer. What other neighbors need stays the same. If the call ends with all sent, then the
-- neighbor needs nothing more.
pub net_send_state_updates-exact :
    (env : Env) (prot : ProtDef) (state_of : ℕ → ℕ → StateData) (n : ℕ) (cs : List Changed)
    → 0 < prot.header_size
    → prot.header_size + prot.cell_size ≤ room
    → (let (all, cs', messages) = net_send_state_updates env prot state_of n cs in
        ((a : ℕ)
          → sent_in a messages ++ waiting env prot state_of n a cs'
            ≡ waiting env prot state_of n a cs)
        × (map (mark env prot state_of n) cs' ≡ map (mark env prot state_of n) cs)
        × (all ≡ true → (a : ℕ) → waiting env prot state_of n a cs' ≡ []))
unfolding net_send_state_updates
net_send_state_updates-exact env prot state_of n cs has_header has_room =
    let start = new_packing env prot state_of n in
    let r = send_sources env prot state_of n cs [] cs start in
    let (ok, counted) =
      send_sources-Sized env prot state_of has_header has_room n cs [] cs start
        (refl, omega arith, λ h. h, tt, refl, omega arith) in
    let (kept, same) = send_sources-Conserves env prot state_of n cs [] cs start in
    let ends = λ (a : ℕ). finish-same env prot state_of n has_header a r.0 r.1 r.2 ok in
    (
      λ a. rw ((ends a).1, (ends a).2) (kept a),
      rw ((ends 0).1) same,
      λ all a. rw ((ends a).1) (
          send_sources-all env prot state_of n a cs [] cs start
            (Served-all env prot state_of n a cs) (sym (ends a).0 ∙ all)),
    )
