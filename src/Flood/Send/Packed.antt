-- ===== src/Flood/Send/Packed.antt =====
-- The cells that a packing holds, by their source (daemon/state_flood.c).
use spines.Prelude.{
  ℕ, ◌≡◌, refl, List, [], ◌∷◌, ◌++◌, ◌==◌, if◌then◌else◌, Bool-cases, inl, inr, sym, ap, ◌∙◌,
}
use mathlib.Core.List.{append-nil, append_assoc}
use spines.Flood.{Cell, ProtDef}
use spines.Flood.Send.{StateMessage, Packing, flush, add_cell, start_packet, put_cell}

-- The cells of a source in state packets, in messages of which the last comes first, and in a packing.
abbrev pub cells_in : ℕ → List (ℕ × List Cell) → List Cell
cells_in a [] = []
cells_in a ((source, cells) ∷ rest) = (if source == a then cells else []) ++ cells_in a rest

abbrev pub sent_in : ℕ → List StateMessage → List Cell
sent_in a [] = []
sent_in a (m ∷ ms) = sent_in a ms ++ cells_in a m.packets

abbrev pub packed : ℕ → Packing → List Cell
packed a p = sent_in a p.sent ++ cells_in a p.buff

pub cells_in-append :
    (a : ℕ) (xs ys : List (ℕ × List Cell)) → cells_in a (xs ++ ys) ≡ cells_in a xs ++ cells_in a ys
cells_in-append a [] ys = refl
cells_in-append a ((source, cells) ∷ xs) ys =
    rw (cells_in-append a xs ys)
      (sym (append_assoc (if source == a then cells else []) (cells_in a xs) (cells_in a ys)))

-- The state packet that is being filled.
abbrev pub Ends : ℕ → List (ℕ × List Cell) → Type 0
Ends source buff =
    (pre : List (ℕ × List Cell)) × (cells : List Cell) × (buff ≡ pre ++ ((source, cells) ∷ []))

pub add_cell-last :
    (cell : Cell) (pre : List (ℕ × List Cell)) (source : ℕ) (cells : List Cell)
    → add_cell cell (pre ++ ((source, cells) ∷ [])) ≡ pre ++ ((source, cells ++ (cell ∷ [])) ∷ [])
add_cell-last cell [] source cells = refl
add_cell-last cell (x ∷ []) source cells = refl
add_cell-last cell (x ∷ y ∷ pre) source cells =
    ap (λ r. x ∷ r) (add_cell-last cell (y ∷ pre) source cells)

abbrev pub here : ℕ → ℕ → Cell → List Cell
here a source cell = if source == a then cell ∷ [] else []

module _ (prot : ProtDef) where
  pub packed-flush : (a : ℕ) (p : Packing) → packed a (flush p) ≡ packed a p
  packed-flush a p = append-nil (packed a p)

  pub packed-put :
      (a source : ℕ) (cell : Cell) (p : Packing)
      → Ends source p.buff
      → packed a (put_cell prot cell p) ≡ packed a p ++ here a source cell
  packed-put a source cell p (pre, cells, e) =
      rw
        (
          e,
          add_cell-last cell pre source cells,
          cells_in-append a pre ((source, cells ++ (cell ∷ [])) ∷ []),
          cells_in-append a pre ((source, cells) ∷ []),
        )
        (elim (Bool-cases (source == a)) [
          | inl same ↦ rw same (simp (append-nil, append_assoc))
          | inr apart ↦ rw apart (simp append-nil)
        ])

  pub Ends-put :
      (source : ℕ) (cell : Cell) (p : Packing)
      → Ends source p.buff
      → Ends source (put_cell prot cell p).buff
  Ends-put source cell p (pre, cells, e) =
      (pre, cells ++ (cell ∷ []), ap (add_cell cell) e ∙ add_cell-last cell pre source cells)

  pub packed-start :
      (a source : ℕ) (p : Packing) → packed a (start_packet prot source p) ≡ packed a p
  packed-start a source p =
      rw (cells_in-append a p.buff ((source, []) ∷ [])) (elim (Bool-cases (source == a)) [
        | inl same ↦ rw same (simp (append-nil))
        | inr apart ↦ rw apart (simp append-nil)
      ])
