-- ===== src/Realtime/Receive/Window.antt =====
-- The loops of `Process_RT_UDP_data_packet` (daemon/realtime_udp.c) on the receive window.
use spines.Prelude.{
  ℕ, zero, suc, ◌+◌, ◌-◌, ◌≤◌, ◌<◌, ◌≡◌, refl, ◌∙◌, ◌⊎◌, inl, inr, false, ltb, leb, ◌==◌, arith,
  Bool-cases,
}
use spines.Realtime.{RtData, is_empty, max_history, is_old}
use spines.Realtime.Receive.{cell, flag, clear, first_kept, advance_tail}

-- The head is not below the tail, and what lies between fits the window.
pub record IsWindow (d : RtData) : Type 0 where
  pub ordered : d.recv_tail ≤ d.recv_head
  pub fits : d.recv_head ≤ d.recv_tail + max_history

-- A number that is dropped if it comes: below the tail, or below the head and received.
abbrev pub Dropped : RtData → ℕ → Type 0
Dropped d s = (s < d.recv_tail) ⊎ ((s < d.recv_head) × (is_empty (flag d s) ≡ false))

pub first_kept_bounds :
    (d : RtData) (rounds i : ℕ) → (i ≤ first_kept d rounds i) × (first_kept d rounds i ≤ i + rounds)
unfolding first_kept
first_kept_bounds d zero i = omega arith
first_kept_bounds d (suc rounds) i = ground (arith, first_kept_bounds d rounds (suc i))

-- What the loop over the old packets leaves: the head stays, the tail rises to at most the head,
-- no number that was dropped is taken, and no number gets room that had none.
pub record Advanced (d d' : RtData) : Type 0 where
  pub head : d'.recv_head ≡ d.recv_head
  pub nacks : d'.nacks ≡ d.nacks
  pub tail : d.recv_tail ≤ d'.recv_tail
  pub window : IsWindow d'
  pub kept : (s : ℕ) → Dropped d s → Dropped d' s
  pub back : (s : ℕ) → d'.recv_tail ≤ s → Dropped d' s → Dropped d s

-- Clearing the cell of `i` and raising the tail past it.
past_tail : ℕ → RtData → RtData
past_tail i d = record (clear i d) { recv_tail = i + 1 }

past_tail-Advanced :
    (i : ℕ) (d : RtData)
    → IsWindow d
    → d.recv_tail ≤ i
    → i < d.recv_head
    → Advanced d (past_tail i d)
unfolding past_tail clear
past_tail-Advanced i d w p q = record {
  head = refl;
  nacks = refl;
  tail = omega arith;
  window = omega arith;
  kept = λ s h. elim h [
    | inl below ↦ inl (omega arith)
    | inr (le, full) ↦ elim (Bool-cases (leb s i)) [
      | inl t ↦ inl (ground arith)
      | inr t ↦ inr (le, ground arith)
    ]
  ];
  back = λ s p h. ground arith;
}

Advanced-trans : (d e f : RtData) → Advanced d e → Advanced e f → Advanced d f
Advanced-trans d e f a b = record {
  head = b.head ∙ a.head;
  nacks = b.nacks ∙ a.nacks;
  tail = omega (arith, a.tail, b.tail);
  window = b.window;
  kept = λ s h. b.kept s (a.kept s h);
  back = λ s p h. a.back s (omega (arith, b.tail)) (b.back s p h);
}

Advanced-refl : (d : RtData) → IsWindow d → Advanced d d
Advanced-refl d w = record {
  head = refl;
  nacks = refl;
  tail = omega arith;
  window = w;
  kept = λ s h. h;
  back = λ s p h. h;
}

pub advance_tail-Advanced :
    (now fuel : ℕ) (d : RtData) → IsWindow d → Advanced d (advance_tail now fuel d)
unfolding advance_tail past_tail
advance_tail-Advanced now zero d w = Advanced-refl d w
advance_tail-Advanced now (suc fuel) d w =
    let i = first_kept d (d.recv_head - d.recv_tail) d.recv_tail in
    let bounds = first_kept_bounds d (d.recv_head - d.recv_tail) d.recv_tail in
    elim (Bool-cases (ltb d.recv_tail d.recv_head)) [
      | inr t ↦ rw t (Advanced-refl d w)
      | inl t ↦ elim (Bool-cases (i == d.recv_head)) [
        | inl u ↦ rw (t, u) (Advanced-refl d w)
        | inr u ↦ elim (Bool-cases (is_old now (cell d i).timestamp)) [
          | inr v ↦ rw (t, u, v) (Advanced-refl d w)
          | inl v ↦
              let step = past_tail-Advanced i d w (omega arith) (ground arith) in
              rw (t, u, v)
                (Advanced-trans d _ _ step
                  (advance_tail-Advanced now fuel (past_tail i d) step.window))
        ]
      ]
    ]
