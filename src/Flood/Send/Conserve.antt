-- ===== src/Flood/Send/Conserve.antt =====
-- No changed state is lost or sent twice: what is sent and what still waits, of each source
-- (daemon/state_flood.c).
use spines.Prelude.{
  ℕ, ◌+◌, ◌≡◌, ◌≢◌, refl, Bool, true, false, List, [], ◌∷◌, ◌++◌, ◌==◌, ltb, if◌then◌else◌, arith,
  Bool-cases, ◌⊎◌, inl, inr, sym, ap, ◌∙◌, map,
}
use mathlib.Core.Bool.{true≢false}
use mathlib.Core.List.{append-nil, append_assoc}
use spines.Flood.{StateData, Cell, Changed, Env, ProtDef}
use spines.Flood.Send.{
  Packing, flush, start_packet, put_cell, is_full, cell_of, pack, is_needed, mark, send_source,
}
use spines.Flood.Send.Packed.{Ends, Ends-put, here, packed, packed-flush, packed-put, packed-start}

module _ (env : Env) (prot : ProtDef) (state_of : ℕ → ℕ → StateData) (n : ℕ) where
  abbrev pub cell_for : Changed → Cell
  cell_for c = cell_of env c.dest (state_of c.source c.dest)

  -- The cells of a source that a neighbor needs.
  abbrev pub waiting : ℕ → List Changed → List Cell
  waiting a [] = []
  waiting a (c ∷ cs) =
      (if is_needed env prot state_of n a c then cell_for c ∷ [] else []) ++ waiting a cs

  abbrev pub Open : Bool → ℕ → Packing → Type 0
  Open is_first source p = (is_first ≡ true) ⊎ Ends source p.buff

  -- What packing a cell does to the cells that are packed.
  abbrev pub Packs : ℕ → Cell → Packing → Bool × Packing → Type 0
  Packs source cell p (fits, q) =
      ((fits ≡ true)
        × Ends source q.buff
        × ((a : ℕ) → packed a q ≡ packed a p ++ here a source cell))
      ⊎ ((fits ≡ false) × ((a : ℕ) → packed a q ≡ packed a p))

  Packs-start :
      (source : ℕ) (cell : Cell) (p p₀ : Packing)
      → ((a : ℕ) → packed a p ≡ packed a p₀)
      → Packs source cell p₀ (true, put_cell prot cell (start_packet prot source p))
  Packs-start source cell p p₀ same =
      let fills : Ends source (start_packet prot source p).buff = (p.buff, [], refl) in
      inl (
        refl,
        Ends-put prot source cell (start_packet prot source p) fills,
        λ a.
            packed-put prot a source cell (start_packet prot source p) fills
            ∙ ap (λ r. r ++ here a source cell) (packed-start prot a source p ∙ same a),
      )

  pub Open-later :
      (is_first : Bool) (source : ℕ) (p : Packing)
      → Open is_first source p
      → is_first ≡ false
      → Ends source p.buff
  Open-later is_first source p (inl first) not_first = absurd (true≢false (sym first ∙ not_first))
  Open-later is_first source p (inr ends) not_first = ends

  pub pack-Packs :
      (is_first : Bool) (source : ℕ) (cell : Cell) (p : Packing)
      → Open is_first source p
      → Packs source cell p (pack env prot state_of n is_first source cell p)
  unfolding pack
  pack-Packs is_first source cell p fills = elim (Bool-cases (is_full prot is_first p)) [
    | inl full ↦ elim (Bool-cases (ltb 5 (p.pkt_cnt + 1))) [
      | inl many ↦ rw (full, many) (inr (refl, λ a. packed-flush prot a p))
      | inr few ↦ rw (full, few) (Packs-start source cell (flush p) p (λ a. packed-flush prot a p))
    ]
    | inr fits ↦ elim (Bool-cases is_first) [
      | inl first ↦ rw (fits, first) (Packs-start source cell p p (λ a. refl))
      | inr not_first ↦
          let ends = Open-later is_first source p fills not_first in
          rw (fits, not_first)
            (inl
              (refl, Ends-put prot source cell p ends, λ a. packed-put prot a source cell p ends))
    ]
  ]

  pub is_needed-mark :
      (a : ℕ) (c : Changed) → is_needed env prot state_of n a (mark env prot state_of n c) ≡ false
  is_needed-mark a c = let self : (n == n) ≡ true = ground arith in rw self (ground arith)

  mark-mark :
      (c : Changed)
      → mark env prot state_of n (mark env prot state_of n c) ≡ mark env prot state_of n c
  mark-mark c = λ i. record c { mask = λ m. twice m i }
    where
      twice :
          (m : ℕ)
          → (if m == n then true else if m == n then true else c.mask m)
            ≡ (if m == n then true else c.mask m)
      twice m = ground arith

  here_self : (source : ℕ) (c : Changed) → here source source (cell_for c) ≡ cell_for c ∷ []
  here_self source c = let self : (source == source) ≡ true = ground arith in rw self refl

  pub send_source-skip :
      (is_first : Bool) (source : ℕ) (c : Changed) (cs : List Changed) (p : Packing)
      → is_needed env prot state_of n source c ≡ false
      → send_source env prot state_of n is_first source (c ∷ cs) p ≡ (
          let (all, cs', p') = send_source env prot state_of n is_first source cs p in
          (all, c ∷ cs', p'))
  unfolding send_source
  send_source-skip is_first source c cs p skip = rw (skip, send_source) refl

  pub send_source-full :
      (is_first : Bool) (source : ℕ) (c : Changed) (cs : List Changed) (p : Packing)
      → is_needed env prot state_of n source c ≡ true
      → (pack env prot state_of n is_first source (cell_for c) p).0 ≡ false
      → send_source env prot state_of n is_first source (c ∷ cs) p
        ≡ (false, c ∷ cs, (pack env prot state_of n is_first source (cell_for c) p).1)
  unfolding send_source
  send_source-full is_first source c cs p needed full = rw (needed, full, send_source) refl

  pub send_source-take :
      (is_first : Bool) (source : ℕ) (c : Changed) (cs : List Changed) (p : Packing)
      → is_needed env prot state_of n source c ≡ true
      → (pack env prot state_of n is_first source (cell_for c) p).0 ≡ true
      → send_source env prot state_of n is_first source (c ∷ cs) p ≡ (
          let (all, cs', p') =
            send_source env prot state_of n false source cs
              (pack env prot state_of n is_first source (cell_for c) p).1 in
          (all, mark env prot state_of n c ∷ cs', p'))
  unfolding send_source
  send_source-take is_first source c cs p needed fits = rw (needed, fits, send_source) refl

  -- What is packed of a source waits no longer, nothing changes for other sources or for other
  -- neighbors, and nothing waits when all is packed.
  abbrev pub Keeps : ℕ → List Changed → Packing → Bool × List Changed × Packing → Type 0
  Keeps source cs p (all, cs', p') =
      (packed source p' ++ waiting source cs' ≡ packed source p ++ waiting source cs)
      × ((a : ℕ) → a ≢ source → (packed a p' ≡ packed a p) × (waiting a cs' ≡ waiting a cs))
      × (map (mark env prot state_of n) cs' ≡ map (mark env prot state_of n) cs)
      × (all ≡ true → waiting source cs' ≡ [])

  Keeps-skip :
      (source : ℕ) (c : Changed) (cs : List Changed) (p : Packing)
      (r : Bool × List Changed × Packing)
      → is_needed env prot state_of n source c ≡ false
      → Keeps source cs p r
      → Keeps source (c ∷ cs) p (r.0, c ∷ r.1, r.2)
  Keeps-skip source c cs p r skip (kept, others, same, done) = (
    rw skip kept,
    λ a ne. (
      (others a ne).0,
      ap (λ l. (if is_needed env prot state_of n a c then cell_for c ∷ [] else []) ++ l)
          (others a ne).1,
    ),
    ap (λ r. mark env prot state_of n c ∷ r) same,
    rw skip done,
  )

  Keeps-take :
      (source : ℕ) (c : Changed) (cs : List Changed) (p q : Packing)
      (r : Bool × List Changed × Packing)
      → is_needed env prot state_of n source c ≡ true
      → ((a : ℕ) → packed a q ≡ packed a p ++ here a source (cell_for c))
      → Keeps source cs q r
      → Keeps source (c ∷ cs) p (r.0, mark env prot state_of n c ∷ r.1, r.2)
  Keeps-take source c cs p q r needed took (kept, others, same, done) = (
    rw (is_needed-mark source c, needed)
        (kept
          ∙ ap (λ r. r ++ waiting source cs)
              (took source ∙ ap (λ r. packed source p ++ r) (here_self source c))
          ∙ append_assoc (packed source p) (cell_for c ∷ []) (waiting source cs)),
    λ a ne.
        let apart : (source == a) ≡ false = ground arith in
        let elsewhere : is_needed env prot state_of n a c ≡ false = ground arith in
        (
          (others a ne).0 ∙ took a ∙ rw apart (append-nil (packed a p)),
          rw (is_needed-mark a c, elsewhere) (others a ne).1,
        ),
    ap (λ r. mark env prot state_of n (mark env prot state_of n c) ∷ r) same
        ∙ ap (λ r. r ∷ map (mark env prot state_of n) cs) (mark-mark c),
    rw (is_needed-mark source c) done,
  )

  pub send_source-Keeps :
      (is_first : Bool) (source : ℕ) (cs : List Changed) (p : Packing)
      → Open is_first source p
      → Keeps source cs p (send_source env prot state_of n is_first source cs p)
  unfolding send_source
  send_source-Keeps is_first source [] p fills = (refl, λ a ne. (refl, refl), refl, λ all. refl)
  send_source-Keeps is_first source (c ∷ cs) p fills =
      elim (Bool-cases (is_needed env prot state_of n source c)) [
        | inr skip ↦ rw (send_source-skip is_first source c cs p skip) (
            Keeps-skip source c cs p (send_source env prot state_of n is_first source cs p) skip
              (send_source-Keeps is_first source cs p fills))
        | inl needed ↦ elim (pack-Packs is_first source (cell_for c) p fills) [
          | inl (fits, ends, took) ↦
              let q = (pack env prot state_of n is_first source (cell_for c) p).1 in
              rw (send_source-take is_first source c cs p needed fits) (
                Keeps-take source c cs p q (send_source env prot state_of n false source cs q)
                  needed took (send_source-Keeps false source cs q (inr ends)))
          | inr (full, took) ↦ rw (send_source-full is_first source c cs p needed full) (
            ap (λ r. r ++ waiting source (c ∷ cs)) (took source),
            λ a ne. (took a, refl),
            refl,
            λ all. absurd (true≢false (sym all)),
          )
        ]
      ]
