-- ===== src/Flood/Send/All.antt =====
-- `Net_Send_State_All` of daemon/state_flood.c: all states are sent to a new neighbor.
use spines.Prelude.{
  ℕ, ◌<◌, ◌≡◌, refl, Bool, true, false, List, [], ◌∷◌, ◌++◌, ◌==◌, if◌then◌else◌, Bool-cases, arith,
  ◌⊎◌, inl, inr, sym, ap, ◌∙◌,
}
use mathlib.Core.Bool.{true≢false}
use mathlib.Core.List.{append-nil, append_assoc}
use spines.Flood.{StateData, Cell, Env, ProtDef}
use spines.Flood.Send.{StateMessage, Packing, flush, start_packet, put_cell, is_full, cell_of}
use spines.Flood.Send.Packed.{
  Ends, Ends-put, here, packed, packed-flush, packed-put, packed-start, sent_in, cells_in,
}

module _ (env : Env) (prot : ProtDef) where
  -- A cell is packed, where a flush begins a new state packet in any case.
  unfoldable pub pack_all : Bool → ℕ → Cell → Packing → Packing
  pack_all is_first source cell p =
      if is_full prot is_first p
      then put_cell prot cell (start_packet prot source (flush p))
      else if is_first
      then put_cell prot cell (start_packet prot source p)
      else put_cell prot cell p

  -- The states of a source, with their destinations.
  unfoldable pub send_chain : Bool → ℕ → List (ℕ × StateData) → Packing → Packing
  send_chain is_first source [] p = p
  send_chain is_first source ((dest, s) ∷ chain) p =
      send_chain false source chain (pack_all is_first source (cell_of env dest s) p)

  unfoldable pub send_chains : List (ℕ × List (ℕ × StateData)) → Packing → Packing
  send_chains [] p = p
  send_chains ((source, chain) ∷ rest) p = send_chains rest (send_chain true source chain p)

  -- The messages, the last one first.
  unfoldable pub net_send_state_all : List (ℕ × List (ℕ × StateData)) → List StateMessage
  net_send_state_all states =
      let p = send_chains states (record { pack_bytes = 0; buff = []; sent = []; pkt_cnt = 0 }) in
      if p.pack_bytes == 0 then p.sent else (flush p).sent

  -- The cells of the states of a source.
  abbrev pub cells_of : List (ℕ × StateData) → List Cell
  cells_of [] = []
  cells_of ((dest, s) ∷ chain) = cell_of env dest s ∷ cells_of chain

  abbrev pub all_cells : ℕ → List (ℕ × List (ℕ × StateData)) → List Cell
  all_cells a [] = []
  all_cells a ((source, chain) ∷ rest) =
      (if source == a then cells_of chain else []) ++ all_cells a rest

  begun :
      (source : ℕ) (cell : Cell) (p p₀ : Packing)
      → ((a : ℕ) → packed a p ≡ packed a p₀)
      → Ends source (put_cell prot cell (start_packet prot source p)).buff
        × ((a : ℕ)
            → packed a (put_cell prot cell (start_packet prot source p))
              ≡ packed a p₀ ++ here a source cell)
  begun source cell p p₀ same =
      let fills : Ends source (start_packet prot source p).buff = (p.buff, [], refl) in
      (
        Ends-put prot source cell (start_packet prot source p) fills,
        λ a.
            packed-put prot a source cell (start_packet prot source p) fills
            ∙ ap (λ r. r ++ here a source cell) (packed-start prot a source p ∙ same a),
      )

  pack_all-packed :
      (is_first : Bool) (source : ℕ) (cell : Cell) (p : Packing)
      → ((is_first ≡ true) ⊎ Ends source p.buff)
      → Ends source (pack_all is_first source cell p).buff
        × ((a : ℕ) → packed a (pack_all is_first source cell p) ≡ packed a p ++ here a source cell)
  unfolding pack_all
  pack_all-packed is_first source cell p fills = elim (Bool-cases (is_full prot is_first p)) [
    | inl full ↦ rw full (begun source cell (flush p) p (λ a. packed-flush prot a p))
    | inr fits ↦ elim (Bool-cases is_first) [
      | inl first ↦ rw (fits, first) (begun source cell p p (λ a. refl))
      | inr not_first ↦
          let ends = elim fills as (λ h. Ends source p.buff) [
            | inl first ↦ absurd (true≢false (sym first ∙ not_first))
            | inr ends ↦ ends
          ] in
          rw (fits, not_first)
            (Ends-put prot source cell p ends, λ a. packed-put prot a source cell p ends)
    ]
  ]

  send_chain-packed :
      (is_first : Bool) (source : ℕ) (chain : List (ℕ × StateData)) (p : Packing)
      → ((is_first ≡ true) ⊎ Ends source p.buff)
      → (a : ℕ)
      → packed a (send_chain is_first source chain p)
        ≡ packed a p ++ (if source == a then cells_of chain else [])
  unfolding send_chain
  send_chain-packed is_first source [] p fills a = elim (Bool-cases (source == a)) [
    | inl same ↦ rw same (sym (append-nil (packed a p)))
    | inr apart ↦ rw apart (sym (append-nil (packed a p)))
  ]
  send_chain-packed is_first source ((dest, s) ∷ chain) p fills a =
      let cell = cell_of env dest s in
      let (ends, took) = pack_all-packed is_first source cell p fills in
      send_chain-packed false source chain (pack_all is_first source cell p) (inr ends) a
      ∙ ap (λ l. l ++ (if source == a then cells_of chain else [])) (took a)
      ∙ append_assoc (packed a p) (here a source cell) (if source == a then cells_of chain else [])
      ∙ elim (Bool-cases (source == a)) [ inl same ↦ rw same refl | inr apart ↦ rw apart refl ]

  send_chains-packed :
      (states : List (ℕ × List (ℕ × StateData))) (p : Packing) (a : ℕ)
      → packed a (send_chains states p) ≡ packed a p ++ all_cells a states
  unfolding send_chains
  send_chains-packed [] p a = sym (append-nil (packed a p))
  send_chains-packed ((source, chain) ∷ rest) p a =
      send_chains-packed rest (send_chain true source chain p) a
      ∙ ap (λ l. l ++ all_cells a rest) (send_chain-packed true source chain p (inl refl) a)
      ∙ append_assoc (packed a p) (if source == a then cells_of chain else []) (all_cells a rest)

  module _ (has_cell : 0 < prot.cell_size) where
    -- Nothing is in the buffer when it has no bytes.
    abbrev Filled : Packing → Type 0
    Filled p = p.pack_bytes ≡ 0 → p.buff ≡ []

    pack_all-Filled :
        (is_first : Bool) (source : ℕ) (cell : Cell) (p : Packing)
        → Filled (pack_all is_first source cell p)
    unfolding pack_all
    pack_all-Filled is_first source cell p = elim (Bool-cases (is_full prot is_first p)) [
      | inl full ↦ rw full (λ none. absurd (omega arith))
      | inr fits ↦ elim (Bool-cases is_first) [
        | inl first ↦ rw (fits, first) (λ none. absurd (omega arith))
        | inr not_first ↦ rw (fits, not_first) (λ none. absurd (omega arith))
      ]
    ]

    send_chain-Filled :
        (is_first : Bool) (source : ℕ) (chain : List (ℕ × StateData)) (p : Packing)
        → Filled p
        → Filled (send_chain is_first source chain p)
    unfolding send_chain
    send_chain-Filled is_first source [] p filled = filled
    send_chain-Filled is_first source ((dest, s) ∷ chain) p filled =
        send_chain-Filled false source chain (pack_all is_first source (cell_of env dest s) p)
          (pack_all-Filled is_first source (cell_of env dest s) p)

    send_chains-Filled :
        (states : List (ℕ × List (ℕ × StateData))) (p : Packing)
        → Filled p
        → Filled (send_chains states p)
    unfolding send_chains
    send_chains-Filled [] p filled = filled
    send_chains-Filled ((source, chain) ∷ rest) p filled =
        send_chains-Filled rest (send_chain true source chain p)
          (send_chain-Filled true source chain p filled)

    -- A new neighbor is sent the states of each source, each once and in their order.
    pub net_send_state_all-exact :
        (states : List (ℕ × List (ℕ × StateData))) (a : ℕ)
        → sent_in a (net_send_state_all states) ≡ all_cells a states
    unfolding net_send_state_all
    net_send_state_all-exact states a =
        let start : Packing = record { pack_bytes = 0; buff = []; sent = []; pkt_cnt = 0 } in
        let p = send_chains states start in
        let sends : packed a p ≡ all_cells a states = send_chains-packed states start a in
        elim (Bool-cases (p.pack_bytes == 0)) [
          | inl nothing ↦
              let empty : p.buff ≡ [] =
                send_chains-Filled states start (λ h. refl) (ground arith) in
              rw nothing (
                sym (append-nil (sent_in a p.sent))
                ∙ ap (λ b. sent_in a p.sent ++ cells_in a b) (sym empty)
                ∙ sends)
          | inr more ↦ rw more sends
        ]
