-- ===== src/Reliable/Receiving/Got.antt =====
-- The receiving half of a reliable link (daemon/reliable_datagram.c) as a set of numbers.
use spines.Prelude.{
  ℕ, zero, suc, ◌+◌, ◌-◌, ◌%◌, ◌^◌, ◌≤◌, ◌<◌, ◌≡◌, refl, ◌∙◌, inl, inr, Bool, true, false, ◌&&◌,
  ◌||◌, not, ltb, ◌==◌, arith, Bool-cases,
}
use spines.Realtime.{empty_cell, recvd_cell}
use spines.Reliable.{max_window, RelCell, ReliableData, window_cell}
use spines.Reliable.Receiving.{is_recvd, set_flag, advance_tail, raise_head, receive}

-- The number was received.
abbrev pub got : ReliableData → ℕ → Bool
got d i = ltb i d.recv_tail || (ltb i d.recv_head && is_recvd (window_cell d i).flag)

-- The numbers between the tail and the head have cells of their own, and no cell from the head on is
-- marked as received.
pub record Clean (recv_tail recv_head : ℕ) (recv_window : ℕ → RelCell) : Type 0 where
  pub ordered : recv_tail ≤ recv_head
  pub fits : recv_head ≤ recv_tail + max_window
  pub below : recv_head < 2 ^ 32
  pub beyond :
      (i : ℕ)
      → recv_head ≤ i
      → i < recv_tail + max_window
      → is_recvd (recv_window (i % max_window)).flag ≡ false

abbrev pub IsClean : ReliableData → Type 0
IsClean d = Clean d.recv_tail d.recv_head d.recv_window

abbrev step : ReliableData → ReliableData
step d = record (set_flag empty_cell d.recv_tail d) { recv_tail = (d.recv_tail + 1) % 2 ^ 32 }

-- The tail moves over a number that was received.
step-IsClean :
    (d : ReliableData)
    → IsClean d
    → d.recv_tail < d.recv_head
    → is_recvd (window_cell d d.recv_tail).flag ≡ true
    → IsClean (step d) × ((i : ℕ) → got (step d) i ≡ got d i)
step-IsClean d c lt there =
    let next : (d.recv_tail + 1) % 2 ^ 32 ≡ suc d.recv_tail = omega (arith, c.below) in
    (
      record {
        ordered = rw next lt;
        fits = rw next (omega (arith, c.fits));
        below = c.below;
        beyond = λ i lo hi. elim (Bool-cases (d.recv_tail % max_window == i % max_window)) [
          | inl t ↦ rw t refl
          | inr t ↦ rw t (c.beyond i lo (ground arith))
        ];
      },
      λ i. elim (Bool-cases (d.recv_tail % max_window == i % max_window)) [
        | inl t ↦ elim (Bool-cases (i == d.recv_tail)) [
          | inl at ↦ let e : i ≡ d.recv_tail = ground arith in rw e (ground arith)
          | inr off ↦ ground (arith, c.fits)
        ]
        | inr t ↦ ground arith
      ],
    )

advance_tail-IsClean :
    (rounds : ℕ) (d : ReliableData)
    → IsClean d
    → rounds ≡ d.recv_head - d.recv_tail
    → let d' = advance_tail rounds d in
      IsClean d'
      × ((i : ℕ) → got d' i ≡ got d i)
      × (got d' d'.recv_tail ≡ false)
      × (d.recv_tail ≤ d'.recv_tail)
unfolding advance_tail
advance_tail-IsClean zero d c e = (c, λ i. refl, ground (arith, c.ordered), omega arith)
advance_tail-IsClean (suc rounds) d c e =
    elim (Bool-cases (is_recvd (window_cell d d.recv_tail).flag)) [
      | inl there ↦
          let (c', same) = step-IsClean d c (omega arith) there in
          let next : (d.recv_tail + 1) % 2 ^ 32 ≡ suc d.recv_tail = omega (arith, c.below) in
          let (c'', same', hole, up) =
            advance_tail-IsClean rounds (step d) c' (rw next (omega arith)) in
          rw there (c'', λ i. same' i ∙ same i, hole, omega arith)
      | inr hole ↦ rw hole (c, λ i. refl, ground arith, omega arith)
    ]

marked-IsClean :
    (seq : ℕ) (d : ReliableData)
    → IsClean d
    → d.recv_tail ≤ seq
    → seq < d.recv_tail + max_window
    → suc seq < 2 ^ 32
    → let d' = set_flag recvd_cell seq (raise_head seq d) in
      IsClean d' × ((i : ℕ) → got d' i ≡ (got d i || seq == i))
marked-IsClean seq d c lo hi small =
    let next : (seq + 1) % 2 ^ 32 ≡ suc seq = omega arith in
    (
      record {
        ordered = rw next (ground (arith, c.ordered));
        fits = rw next (ground (arith, c.fits));
        below = rw next (ground (arith, c.below));
        beyond = λ i above room.
            let past : (seq < i) × (d.recv_head ≤ i) = ground arith in
            let apart : (seq % max_window == i % max_window) ≡ false = ground arith in
            rw apart (c.beyond i past.1 room);
      },
      λ i. elim (Bool-cases (seq == i)) [
        | inl t ↦ let e : seq ≡ i = ground arith in rw (← e) (rw next (ground arith))
        | inr f ↦ elim (Bool-cases (seq % max_window == i % max_window)) [
          | inl t ↦ rw (next, t) (ground (arith, c.fits, c.ordered))
          | inr t ↦ rw (next, t) (ground (arith, c.fits, c.ordered, c.beyond i))
        ]
      ],
    )

-- A number within the window, and below the last sequence number, is found to be new exactly if it
-- was not received before. Then it is received, and no other number is or ceases to be; the tail,
-- which is what the link acknowledges, moves up to the first number that was not received.
pub receive-got :
    (seq : ℕ) (d : ReliableData)
    → IsClean d
    → seq < d.recv_tail + max_window
    → suc seq < 2 ^ 32
    → got d d.recv_tail ≡ false
    → let (new, d') = receive seq d in
      (new ≡ not (got d seq))
      × IsClean d'
      × ((i : ℕ) → got d' i ≡ (got d i || seq == i))
      × (got d' d'.recv_tail ≡ false)
      × (d.recv_tail ≤ d'.recv_tail)
unfolding receive
receive-got seq d c hi small hole =
    elim (Bool-cases (is_recvd (window_cell d seq).flag || ltb seq d.recv_tail)) [
      | inl t ↦
          let old : got d seq ≡ true = ground (arith, c.beyond seq) in
          rw t (
            rw old refl,
            c,
            λ i. elim (Bool-cases (seq == i)) [
              | inl e ↦ let e' : seq ≡ i = ground arith in rw (← e') (rw old refl)
              | inr f ↦ ground arith
            ],
            hole,
            omega arith,
          )
      | inr t ↦
          let (c', more) = marked-IsClean seq d c (ground arith) hi small in
          let d' = set_flag recvd_cell seq (raise_head seq d) in
          let (c'', same, hole', up) =
            advance_tail-IsClean (d'.recv_head - d'.recv_tail) d' c' refl in
          let new : got d seq ≡ false = ground (arith, c.beyond seq) in
          rw t (rw new refl, c'', λ i. same i ∙ more i, hole', up)
    ]
