-- ===== src/Flood/Send/Fit.antt =====
-- The sizes of the messages of `Net_Send_State_Updates` and their number (daemon/state_flood.c).
use spines.Prelude.{
  ℕ, ◌+◌, ◌*◌, ◌≤◌, ◌<◌, ◌≡◌, refl, Bool, true, false, List, [], ◌∷◌, ◌++◌, ltb, arith, tests,
  Bool-cases, ◌⊎◌, inl, inr, length, length-append,
}
use native.Mathlib.Nat.{add-mul}
use spines.Flood.{StateData, Cell, Env, ProtDef}
use spines.Flood.Send.{StateMessage, Packing, room, flush, start_packet, put_cell, is_full, pack}
use spines.Flood.Send.Conserve.{Open, Open-later}
use spines.Flood.Send.Packed.{Ends, Ends-put, add_cell-last}

-- The number of cells.
abbrev pub count : List (ℕ × List Cell) → ℕ
count [] = 0
count ((source, cells) ∷ rest) = length cells + count rest

abbrev pub count_sent : List StateMessage → ℕ
count_sent [] = 0
count_sent (m ∷ ms) = count m.packets + count_sent ms

count-append : (xs ys : List (ℕ × List Cell)) → count (xs ++ ys) ≡ count xs + count ys
count-append [] ys = omega arith
count-append ((source, cells) ∷ xs) ys = omega (arith, count-append xs ys)

is_full-some :
    (prot : ProtDef) (is_first : Bool) (p : Packing)
    → is_full prot is_first p ≡ true
    → 0 < p.pack_bytes
is_full-some prot true p full = omega tests
is_full-some prot false p full = omega tests

is_full-first :
    (prot : ProtDef) (is_first : Bool) (p : Packing)
    → prot.header_size + prot.cell_size ≤ room
    → is_full prot is_first p ≡ false
    → is_first ≡ true
    → p.pack_bytes + prot.header_size + prot.cell_size ≤ room
is_full-first prot true p has_room fits first = ground arith
is_full-first prot false p has_room fits first = ground arith

is_full-later :
    (prot : ProtDef) (is_first : Bool) (p : Packing)
    → prot.header_size + prot.cell_size ≤ room
    → is_full prot is_first p ≡ false
    → p.pack_bytes + prot.cell_size ≤ room
is_full-later prot true p has_room fits = ground arith
is_full-later prot false p has_room fits = ground arith

module _ (prot : ProtDef) where
  -- The bytes of state packets.
  abbrev pub size : List (ℕ × List Cell) → ℕ
  size [] = 0
  size ((source, cells) ∷ rest) = prot.header_size + length cells * prot.cell_size + size rest

  size-append : (xs ys : List (ℕ × List Cell)) → size (xs ++ ys) ≡ size xs + size ys
  size-append [] ys = omega arith
  size-append ((source, cells) ∷ xs) ys = omega (arith, size-append xs ys)

  -- A message that can be sent: it has some cell, and has room for all that is in it.
  abbrev pub Fits : StateMessage → Type 0
  Fits m = (m.bytes ≡ size m.packets) × (m.bytes ≤ room) × (0 < count m.packets)

  abbrev pub AllFit : List StateMessage → Type 0
  AllFit [] = Unit
  AllFit (m ∷ ms) = Fits m × AllFit ms

  abbrev pub WellPacked : Packing → Type 0
  WellPacked p =
      (p.pack_bytes ≡ size p.buff)
      × (p.pack_bytes ≤ room)
      × (0 < p.pack_bytes → 0 < count p.buff)
      × AllFit p.sent
      × (length p.sent ≡ p.pkt_cnt)
      × (p.pkt_cnt ≤ 5)

  -- What is left after too many messages.
  abbrev pub Stopped : Packing → Type 0
  Stopped p = (p.buff ≡ []) × AllFit p.sent × (length p.sent ≡ 6)

  abbrev pub count_packed : Packing → ℕ
  count_packed p = count_sent p.sent + count p.buff

  put_cell-size :
      (source : ℕ) (cell : Cell) (p : Packing)
      → Ends source p.buff
      → (size (put_cell prot cell p).buff ≡ size p.buff + prot.cell_size)
        × (count (put_cell prot cell p).buff ≡ count p.buff + 1)
  put_cell-size source cell p (pre, cells, e) =
      rw
        (
          e,
          add_cell-last cell pre source cells,
          size-append pre ((source, cells ++ (cell ∷ [])) ∷ []),
          size-append pre ((source, cells) ∷ []),
          count-append pre ((source, cells ++ (cell ∷ [])) ∷ []),
          count-append pre ((source, cells) ∷ []),
          length-append cells (cell ∷ []),
        )
        (omega (arith, add-mul (length cells) 1 prot.cell_size), omega arith)

  module _ (has_header : 0 < prot.header_size)
      (has_room : prot.header_size + prot.cell_size ≤ room) where
    -- When it is too full, the buffer is a message that fits.
    flush-Fits :
        (is_first : Bool) (p : Packing)
        → WellPacked p
        → is_full prot is_first p ≡ true
        → AllFit (flush p).sent × (length (flush p).sent ≡ p.pkt_cnt + 1)
    flush-Fits is_first p (same, within, some_cell, fit, cnt, few) full =
        let some_bytes : 0 < p.pack_bytes = is_full-some prot is_first p full in
        (((same, within, some_cell some_bytes), fit), omega arith)

    -- A packing with one more cell.
    abbrev pub Grown : ℕ → Packing → Packing → Type 0
    Grown source p q = WellPacked q × (count_packed q ≡ count_packed p + 1) × Ends source q.buff

    Grown-put :
        (source : ℕ) (cell : Cell) (p : Packing)
        → Ends source p.buff
        → WellPacked p
        → p.pack_bytes + prot.cell_size ≤ room
        → Grown source p (put_cell prot cell p)
    Grown-put source cell p ends (same, within, some_cell, fit, cnt, few) small =
        let (grown, counted) = put_cell-size source cell p ends in
        (
          (omega arith, omega arith, λ h. omega arith, fit, cnt, few),
          omega arith,
          Ends-put prot source cell p ends,
        )

    Grown-start :
        (source : ℕ) (cell : Cell) (p : Packing)
        → WellPacked p
        → p.pack_bytes + prot.header_size + prot.cell_size ≤ room
        → Grown source p (put_cell prot cell (start_packet prot source p))
    Grown-start source cell p (same, within, some_cell, fit, cnt, few) small =
        let q = start_packet prot source p in
        let (grown, counted) = put_cell-size source cell q (p.buff, [], refl) in
        let grown' : size q.buff ≡ size p.buff + prot.header_size =
          omega (arith, size-append p.buff ((source, []) ∷ [])) in
        let counted' : count q.buff ≡ count p.buff =
          omega (arith, count-append p.buff ((source, []) ∷ [])) in
        (
          (omega arith, omega arith, λ h. omega arith, fit, cnt, few),
          omega arith,
          Ends-put prot source cell q (p.buff, [], refl),
        )

    Grown-flush :
        (is_first : Bool) (source : ℕ) (cell : Cell) (p : Packing)
        → WellPacked p
        → is_full prot is_first p ≡ true
        → p.pkt_cnt + 1 ≤ 5
        → Grown source p (put_cell prot cell (start_packet prot source (flush p)))
    Grown-flush is_first source cell p well full few =
        let (fit, cnt) = flush-Fits is_first p well full in
        let (grown, counted, ends) =
          Grown-start source cell (flush p) (refl, omega arith, λ h. h, fit, cnt, few)
            (omega arith) in
        (grown, omega arith, ends)

    pub pack-Grown :
        (env : Env) (state_of : ℕ → ℕ → StateData) (n : ℕ) (is_first : Bool) (source : ℕ)
        (cell : Cell) (p : Packing)
        → Open env prot state_of n is_first source p
        → WellPacked p
        → (((pack env prot state_of n is_first source cell p).0 ≡ true)
            × Grown source p (pack env prot state_of n is_first source cell p).1)
          ⊎ (((pack env prot state_of n is_first source cell p).0 ≡ false)
              × Stopped (pack env prot state_of n is_first source cell p).1
              × (count_packed (pack env prot state_of n is_first source cell p).1 ≡ count_packed p))
    unfolding pack
    pack-Grown env state_of n is_first source cell p fills well =
        let (same, within, some_cell, fit₀, cnt₀, at_most) = well in
        elim (Bool-cases (is_full prot is_first p)) [
          | inl full ↦ elim (Bool-cases (ltb 5 (p.pkt_cnt + 1))) [
            | inl many ↦
                let (fit, cnt) = flush-Fits is_first p well full in
                rw (full, many)
                  (inr (
                    refl,
                    (refl, fit, let more : 5 < p.pkt_cnt + 1 = ground arith in omega arith),
                    omega arith,
                  ))
            | inr few ↦
                rw (full, few)
                  (inl (refl, Grown-flush is_first source cell p well full (ground arith)))
          ]
          | inr fits ↦ elim (Bool-cases is_first) [
            | inl first ↦
                rw (fits, first)
                  (inl (
                    refl,
                    Grown-start source cell p well
                        (is_full-first prot is_first p has_room fits first),
                  ))
            | inr not_first ↦
                rw (fits, not_first)
                  (inl (
                    refl,
                    Grown-put source cell p
                        (Open-later env prot state_of n is_first source p fills not_first) well
                        (is_full-later prot is_first p has_room fits),
                  ))
          ]
        ]
