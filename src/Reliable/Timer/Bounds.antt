-- ===== src/Reliable/Timer/Bounds.antt =====
-- How long a link waits before it sends again.
use spines.Prelude.{
  ℕ, zero, suc, ◌+◌, ◌*◌, ◌/◌, ◌≤◌, ◌<◌, ◌≡◌, ◌⊎◌, inl, inr, refl, false, Option, none, some, ltb,
  arith, Bool-cases, ap,
}
use spines.Reliable.Timer.{
  wireless_delay, base_timeout, base_timeout_ack, scale, timeout_val, timeout_val_ack,
}

-- Seconds and microseconds in microseconds.
abbrev pub micros : ℕ × ℕ → ℕ
micros (sec, usec) = sec * 1000000 + usec

-- A delay of a wireless link is long enough.
abbrev pub IsDelay : Option ℕ → Type 0
IsDelay none = 2000 ≤ 2000
IsDelay (some delay) = 2000 ≤ delay

base_timeout-micros : (rtt : ℕ) → 2000 ≤ micros (base_timeout rtt)
unfolding base_timeout
base_timeout-micros rtt = ground arith

wireless_delay-micros :
    (wireless : Option ℕ) (t : ℕ × ℕ)
    → IsDelay wireless
    → 2000 ≤ micros t
    → 2000 ≤ micros (wireless_delay wireless t)
unfolding wireless_delay
wireless_delay-micros none t d h = h
wireless_delay-micros (some delay) (sec, usec) d h = ground arith

scale-micros :
    (multiply sec usec : ℕ)
    → let t = scale multiply (sec, usec) in
      (t.0 ≤ 9) × (t.1 < 1000000) × ((9 ≤ t.0) ⊎ (micros t ≡ micros (sec, usec) * multiply))
unfolding scale
scale-micros multiply sec usec =
    elim (Bool-cases (ltb 9 (sec * multiply + usec * multiply / 1000000))) [
      | inl t ↦ rw t (omega arith, omega arith, inl (omega arith))
      | inr t ↦ rw t (ground arith, omega arith, inr (grind arith))
    ]

scale_bounds :
    (multiply : ℕ) (t : ℕ × ℕ)
    → 0 < multiply
    → 2000 ≤ micros t
    → let t' = scale multiply t in (t'.0 ≤ 9) × (t'.1 < 1000000) × (2000 ≤ micros t')
scale_bounds zero t pos h = elim pos [ ]
scale_bounds (suc m) (sec, usec) pos h =
    let (cap, low, exact) = scale-micros (suc m) sec usec in
    (cap, low, elim exact [ inl e ↦ omega arith | inr e ↦ rw e (grind arith) ])

base_timeout_ack-known : (rtt : ℕ) → 0 < rtt → base_timeout_ack rtt ≡ base_timeout rtt
unfolding base_timeout base_timeout_ack
base_timeout_ack-known rtt known = ground arith

base_timeout-unknown : micros (base_timeout 0) ≡ 1000000
unfolding base_timeout
base_timeout-unknown = refl

base_timeout_ack-unknown : micros (base_timeout_ack 0) ≡ 2000
unfolding base_timeout_ack
base_timeout_ack-unknown = refl

base_timeout_ack-micros : (rtt : ℕ) → 2000 ≤ micros (base_timeout_ack rtt)
unfolding base_timeout_ack
base_timeout_ack-micros rtt = ground arith

-- Twice the multiplier is twice the wait, below the limit.
scale-twice :
    (multiply sec usec : ℕ)
    → (9 ≤ (scale (multiply * 2) (sec, usec)).0)
      ⊎ (micros (scale (multiply * 2) (sec, usec)) ≡ micros (scale multiply (sec, usec)) * 2)
unfolding scale
scale-twice multiply sec usec =
    let a = sec * multiply in
    let b = usec * multiply in
    let a' : sec * (multiply * 2) ≡ a * 2 = omega arith in
    let b' : usec * (multiply * 2) ≡ b * 2 = omega arith in
    rw (a', b')
      (elim (Bool-cases (ltb 9 (a * 2 + b * 2 / 1000000))) [
        | inl t ↦ rw t (inl (omega arith))
        | inr t ↦
            let few : ltb 9 (a + b / 1000000) ≡ false = ground arith in
            rw (t, few) (inr (omega arith))
      ])

-- The wait as long as the basic one times the multiplier, up to nine seconds, and between two
-- milliseconds and ten seconds.
abbrev pub Scaled : ℕ → ℕ × ℕ → ℕ × ℕ → Type 0
Scaled multiply base t =
    (2000 ≤ micros t) × (micros t < 10000000) × ((9 ≤ t.0) ⊎ (micros t ≡ micros base * multiply))

scale-Scaled :
    (multiply : ℕ) (t : ℕ × ℕ)
    → 0 < multiply
    → 2000 ≤ micros t
    → Scaled multiply t (scale multiply t)
scale-Scaled multiply (sec, usec) pos h =
    let (cap, low, enough) = scale_bounds multiply (sec, usec) pos h in
    (enough, omega arith, (scale-micros multiply sec usec).2)

-- Where a wireless link has a delay of at least two milliseconds, and the multiplier is not zero: a
-- retransmission waits for at least two milliseconds and for less than ten seconds, whatever the
-- round trip time, and up to nine seconds the wait is the basic one times the multiplier. This holds
-- of `Process_Ack` too, with its own basic wait. For the other functions twice the multiplier is twice
-- the wait, up to nine seconds. The basic wait of `Process_Ack` is theirs where the round trip time is
-- known; where it is not, it is two milliseconds before the delay of a wireless link is applied, in
-- place of a second.
pub timeout_val_bounds :
    (wireless : Option ℕ) (rtt multiply : ℕ)
    → IsDelay wireless
    → 0 < multiply
    → let t = timeout_val wireless rtt multiply in
      let t' = timeout_val_ack wireless rtt multiply in
      let twice = timeout_val wireless rtt (multiply * 2) in
      Scaled multiply (wireless_delay wireless (base_timeout rtt)) t
      × Scaled multiply (wireless_delay wireless (base_timeout_ack rtt)) t'
      × ((9 ≤ twice.0) ⊎ (micros twice ≡ micros t * 2))
      × (0 < rtt → t' ≡ t)
      × (micros (base_timeout 0) ≡ 1000000)
      × (micros (base_timeout_ack 0) ≡ 2000)
unfolding timeout_val timeout_val_ack
timeout_val_bounds wireless rtt multiply delay pos =
    let base = wireless_delay wireless (base_timeout rtt) in
    let base' = wireless_delay wireless (base_timeout_ack rtt) in
    (
      scale-Scaled multiply base pos
          (wireless_delay-micros wireless (base_timeout rtt) delay (base_timeout-micros rtt)),
      scale-Scaled multiply base' pos (
          wireless_delay-micros wireless (base_timeout_ack rtt) delay
            (base_timeout_ack-micros rtt)),
      scale-twice multiply base.0 base.1,
      λ known.
          ap (λ b. scale multiply (wireless_delay wireless b)) (base_timeout_ack-known rtt known),
      base_timeout-unknown,
      base_timeout_ack-unknown,
    )
