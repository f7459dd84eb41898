-- ===== src/Realtime/Receive/Once.antt =====
-- What `Process_RT_UDP_data_packet` (daemon/realtime_udp.c) does to the receive window as a whole:
-- which packets it delivers, which numbers it requests, and that none is delivered twice.
use spines.Prelude.{
  ℕ, suc, ◌+◌, ◌-◌, ◌^◌, ◌≤◌, ◌<◌, ◌≡◌, refl, ◌∙◌, ◌⊎◌, inl, inr, ◌↔◌, Bool, true, false, ◌&&◌, not,
  List, [], ◌∷◌, ltb, ◌==◌, if◌then◌else◌, arith, Bool-cases,
}
use spines.Realtime.{RtData, is_empty}
use spines.Realtime.Receive.{
  flag, advance_tail, accept, process_data, Verdict, malformed, old, duplicate, delivered,
}
use spines.Realtime.Receive.Window.{IsWindow, Dropped, Advanced, advance_tail-Advanced}
use spines.Realtime.Receive.Accept.{accept-Accepted, Requested}

abbrev pub is_delivered : Verdict → Bool
is_delivered malformed = false
is_delivered old = false
is_delivered duplicate = false
is_delivered (delivered queued) = true

-- The deliveries of `s` among those of a sequence of packets, each with the time it comes at.
unfoldable pub deliveries : ℕ → ℕ → List (ℕ × ℕ) → RtData → ℕ
deliveries nack_room s [] d = 0
deliveries nack_room s ((now, seq_no) ∷ packets) d =
    let (v, d') = process_data nack_room now seq_no d in
    let rest = deliveries nack_room s packets d' in
    if seq_no == s && is_delivered v then suc rest else rest

-- Below the last number that the counters of 64 bits hold.
abbrev pub AllSmall : List (ℕ × ℕ) → Type 0
AllSmall [] = Unit
AllSmall ((now, seq_no) ∷ packets) = (seq_no + 1 < 2 ^ 64) × AllSmall packets

module _ (nack_room now seq_no : ℕ) (d : RtData) where
  -- A packet is left out exactly if its number is below the tail, or below the head and in a cell
  -- that is not empty.
  pub verdict_iff : is_delivered (process_data nack_room now seq_no d).0 ≡ false ↔ Dropped d seq_no
  unfolding process_data accept
  verdict_iff = (
    λ p. elim (Bool-cases (ltb seq_no d.recv_tail)) [
      | inl t ↦ inl (ground arith)
      | inr t ↦ inr (ground arith, ground arith)
    ],
    λ h. elim h [ inl below ↦ ground arith | inr (le, full) ↦ ground arith ],
  )

  -- What the handler leaves of a window.
  pub record Processed (d' : RtData) : Type 0 where
    pub window : IsWindow d'
    pub taken : Dropped d' seq_no
    pub kept : (s : ℕ) → Dropped d s → Dropped d' s
    pub only : (s : ℕ) → d'.recv_tail ≤ s → Dropped d' s → Dropped d s ⊎ (s ≡ seq_no)
    pub requested :
        (seq_no < d.recv_head → d'.nacks ≡ d.nacks)
        × (d.recv_head ≤ seq_no → Requested nack_room d.nacks d.recv_head seq_no d'.nacks)

  ignored-Processed : IsWindow d → Dropped d seq_no → Processed d
  ignored-Processed w h = record {
    window = w;
    taken = h;
    kept = λ s g. g;
    only = λ s p g. inl g;
    requested = (λ p. refl, λ p. absurd (omega arith));
  }

  accepted-Processed :
      (e : RtData)
      → Advanced d e
      → IsWindow d
      → d.recv_tail ≤ seq_no
      → seq_no + 1 < 2 ^ 64
      → Processed (accept nack_room now seq_no e).1
  accepted-Processed e a w lo small =
      let r = accept-Accepted nack_room now seq_no e a.window small (omega (arith, a.head)) in
      record {
        window = r.window;
        taken = r.taken;
        kept = λ s h. r.kept s (a.kept s h);
        only = λ s p h. elim (r.only s p h) [
          | inl g ↦ inl (a.back s (omega (arith, r.tail)) g)
          | inr q ↦ inr q
        ];
        requested = (
          λ p. r.requested.0 (omega (arith, a.head)) ∙ a.nacks,
          λ p.
              let q = r.requested.1 (omega (arith, a.head)) in
              record {
                count = q.count;
                added = ground (arith, q.added, a.nacks, a.head);
                at_most = omega (arith, q.at_most, a.head);
                all_or_full = ground (arith, q.all_or_full, a.head);
              },
        );
      }

  -- From a window, and for a number below the last of 64 bits: the state after a packet is a window
  -- again; the packet's number is dropped from then on, and so is every number that was dropped
  -- before; of the numbers not below the tail no other one is; and a packet at or above the head
  -- requests the numbers from the head up to it, all of them or as many as there is room for, while
  -- one below the head requests nothing.
  pub process_data-Processed :
      IsWindow d → seq_no + 1 < 2 ^ 64 → Processed (process_data nack_room now seq_no d).1
  unfolding process_data
  process_data-Processed w small = elim (Bool-cases (ltb seq_no d.recv_tail)) [
    | inl t ↦ rw t (ignored-Processed w (inl (ground arith)))
    | inr t ↦ elim (Bool-cases (ltb seq_no d.recv_head && not (is_empty (flag d seq_no)))) [
      | inl u ↦ rw (t, u) (ignored-Processed w (inr (ground arith, ground arith)))
      | inr u ↦
          rw (t, u)
            (accepted-Processed (advance_tail now (d.recv_head - d.recv_tail) d)
              (advance_tail-Advanced now (d.recv_head - d.recv_tail) d w) w (ground arith) small)
    ]
  ]

-- A packet that is dropped stays dropped, whatever comes in between.
none_again :
    (nack_room s : ℕ) (packets : List (ℕ × ℕ)) (d : RtData)
    → IsWindow d
    → AllSmall packets
    → Dropped d s
    → deliveries nack_room s packets d ≡ 0
unfolding deliveries
none_again nack_room s [] d w small h = refl
none_again nack_room s ((now, seq_no) ∷ packets) d w (small, others) h =
    let p = process_data-Processed nack_room now seq_no d w small in
    let v = (verdict_iff nack_room now seq_no d).1 in
    let rest = none_again nack_room s packets _ p.window others (p.kept s h) in
    elim (Bool-cases (seq_no == s)) [
      | inl t ↦ ground (arith, rest, v (ground arith))
      | inr t ↦ ground (arith, rest)
    ]

-- Whatever packets come, and at whatever times, each is delivered at most once from a window on,
-- where the numbers are below the last of 64 bits.
pub delivered_once :
    (nack_room s : ℕ) (packets : List (ℕ × ℕ)) (d : RtData)
    → IsWindow d
    → AllSmall packets
    → deliveries nack_room s packets d ≤ 1
unfolding deliveries
delivered_once nack_room s [] d w small = omega arith
delivered_once nack_room s ((now, seq_no) ∷ packets) d w (small, others) =
    let p = process_data-Processed nack_room now seq_no d w small in
    let rest = delivered_once nack_room s packets _ p.window others in
    elim (Bool-cases (seq_no == s)) [
      | inl t ↦
          let none_left = none_again nack_room seq_no packets _ p.window others p.taken in
          ground (arith, none_left)
      | inr t ↦ ground (arith, rest)
    ]
