-- ===== src/Realtime/Receive/Accept.antt =====
-- The branches of `Process_RT_UDP_data_packet` (daemon/realtime_udp.c) that take a packet in.
use spines.Prelude.{
  ℕ, zero, suc, ◌+◌, ◌-◌, ◌*◌, ◌^◌, ◌≤◌, ◌<◌, ◌≡◌, refl, sym, leb→le, ◌⊎◌, inl, inr, true, List, [],
  ◌∷◌, ◌++◌, ltb, leb, ◌==◌, length, arith, Bool-cases,
}
use mathlib.Core.List.{append_assoc, append-nil}
use spines.Prelude.Loops.{for_from, for_from_inv}
use spines.Realtime.{RtData, is_empty, max_history}
use spines.Realtime.Receive.{
  flag, clear, drop_tail, make_room, add_nack, mark_lost, open_window, mark_received, accept,
}
use spines.Realtime.Receive.Window.{IsWindow, Dropped}

-- The state inside the loop that makes room: the tail may pass the head there.
record Roomed (d : RtData) (rounds : ℕ) (d' : RtData) : Type 0 where
  head : d'.recv_head ≡ d.recv_head
  nacks : d'.nacks ≡ d.nacks
  tail : d'.recv_tail ≡ d.recv_tail + rounds
  kept : (s : ℕ) → Dropped d s → Dropped d' s
  back : (s : ℕ) → d'.recv_tail ≤ s → Dropped d' s → Dropped d s

drop_tail-Roomed :
    (d : RtData) (i : ℕ) (s : RtData) → IsWindow d → Roomed d i s → Roomed d (suc i) (drop_tail s)
unfolding drop_tail clear
drop_tail-Roomed d i s w r = record {
  head = r.head;
  nacks = r.nacks;
  tail = omega (arith, r.tail);
  kept = λ n h. elim (r.kept n h) [
    | inl below ↦ inl (omega arith)
    | inr (le, full) ↦ elim (Bool-cases (leb n s.recv_tail)) [
      | inl t ↦ inl (ground arith)
      | inr t ↦ inr (le, ground (arith, r.tail, r.head))
    ]
  ];
  back = λ n p h. r.back n (omega arith) (ground arith);
}

make_room-Roomed :
    (seq_no : ℕ) (d : RtData)
    → IsWindow d
    → Roomed d (seq_no - d.recv_tail + 1 - max_history) (make_room seq_no d)
unfolding make_room
make_room-Roomed seq_no d w =
    for_from_inv (λ i s. Roomed d i s) _ (seq_no - d.recv_tail + 1 - max_history)
      (λ i s p r. drop_tail-Roomed d i s w r) (seq_no - d.recv_tail + 1 - max_history) 0 d
      (omega arith)
      (record { head = refl; nacks = refl; tail = omega arith; kept = λ s h. h; back = λ s p h. h })

-- `count` numbers from `first` on.
pub seqs : ℕ → ℕ → List ℕ
seqs first zero = []
seqs first (suc count) = seqs first count ++ (first + count) ∷ []

module _ (nack_room : ℕ) where
  -- The numbers from `first` to `last` are requested, all of them or as many as there is room for.
  pub record Requested (nacks : List ℕ) (first last : ℕ) (nacks' : List ℕ) : Type 0 where
    pub count : ℕ
    pub added : nacks' ≡ nacks ++ seqs first count
    pub at_most : first + count ≤ last
    pub all_or_full : (first + count ≡ last) ⊎ (nack_room ≤ length nacks' * 8 + 16)

  -- The state inside the loop over the lost numbers, from the head on.
  record Marked (d : RtData) (i : ℕ) (d' : RtData) : Type 0 where
    head : d'.recv_head ≡ d.recv_head
    tail : d'.recv_tail ≡ d.recv_tail
    before : (s : ℕ) → d.recv_tail ≤ s → s < d.recv_head → flag d' s ≡ flag d s
    lost : (s : ℕ) → d.recv_head ≤ s → s < i → is_empty (flag d' s) ≡ true
    requested : Requested d.nacks d.recv_head i d'.nacks

  mark_lost-Marked :
      (d : RtData) (seq_no i : ℕ) (s : RtData)
      → seq_no < d.recv_tail + max_history
      → d.recv_head ≤ i
      → i < seq_no
      → Marked d i s
      → Marked d (suc i) (mark_lost nack_room i s)
  unfolding mark_lost add_nack clear seqs
  mark_lost-Marked d seq_no i s fits from p r = record {
    head = ground (arith, r.head);
    tail = ground (arith, r.tail);
    before = λ n lo hi. ground (arith, r.before n lo hi);
    lost = λ n lo hi. ground (arith, r.lost n lo);
    requested = elim (Bool-cases (ltb (length s.nacks * 8 + 16) nack_room)) [
      | inl t ↦ elim r.requested.all_or_full [
        | inl all ↦ record {
          count = suc r.requested.count;
          added = ground (
            arith,
            r.requested.added,
            append_assoc d.nacks (seqs d.recv_head r.requested.count) (i ∷ []),
          );
          at_most = omega arith;
          all_or_full = inl (omega arith);
        }
        | inr full ↦ absurd (ground arith)
      ]
      | inr t ↦ record {
        count = r.requested.count;
        added = ground (arith, r.requested.added);
        at_most = omega (arith, r.requested.at_most);
        all_or_full = inr (ground arith);
      }
    ];
  }

  mark_all-Marked :
      (d : RtData) (seq_no : ℕ)
      → seq_no < d.recv_tail + max_history
      → d.recv_head ≤ seq_no
      → Marked d seq_no (for_from (seq_no - d.recv_head) d.recv_head (mark_lost nack_room) d)
  unfolding seqs
  mark_all-Marked d seq_no fits le =
      (for_from_inv (λ i s. (d.recv_head ≤ i) × Marked d i s) _ seq_no
        (λ i s p (from, r). (omega arith, mark_lost-Marked d seq_no i s fits from p r))
        (seq_no - d.recv_head) d.recv_head d (omega arith)
        (
          omega arith,
          record {
            head = refl;
            tail = refl;
            before = λ s lo hi. refl;
            lost = λ s lo hi. absurd (omega arith);
            requested = record {
              count = 0;
              added = sym (append-nil d.nacks);
              at_most = omega arith;
              all_or_full = inl (omega arith);
            };
          },
        )).1

  -- What accepting a packet does to a window, from the state `d` before it.
  pub record Accepted (d : RtData) (seq_no : ℕ) (d' : RtData) : Type 0 where
    pub window : IsWindow d'
    pub tail : d.recv_tail ≤ d'.recv_tail
    pub taken : Dropped d' seq_no
    pub kept : (s : ℕ) → Dropped d s → Dropped d' s
    pub only : (s : ℕ) → d'.recv_tail ≤ s → Dropped d' s → Dropped d s ⊎ (s ≡ seq_no)
    pub requested :
        (seq_no < d.recv_head → d'.nacks ≡ d.nacks)
        × (d.recv_head ≤ seq_no → Requested d.nacks d.recv_head seq_no d'.nacks)

  pub accept-Accepted :
      (now seq_no : ℕ) (d : RtData)
      → IsWindow d
      → seq_no + 1 < 2 ^ 64
      → d.recv_head ≤ seq_no + max_history
      → Accepted d seq_no (accept nack_room now seq_no d).1
  unfolding accept open_window mark_received
  accept-Accepted now seq_no d w small lo = elim (Bool-cases (leb d.recv_head seq_no)) [
    | inl ahead ↦
        let roomed = make_room seq_no d in
        let r = make_room-Roomed seq_no d w in
        let m =
          mark_all-Marked roomed seq_no (omega (arith, r.tail, leb→le _ _ ahead))
            (omega (arith, r.head, leb→le _ _ ahead)) in
        rw ahead (record {
          window = omega (arith, r.tail, m.head, m.tail, r.head, leb→le _ _ ahead);
          tail = omega (arith, m.tail, r.tail);
          taken = inr (omega (arith, leb→le _ _ ahead), ground arith);
          kept = λ s h. elim (r.kept s h) [
            | inl below ↦ inl (omega (arith, m.tail))
            | inr (le, full) ↦ elim (Bool-cases (ltb s roomed.recv_tail)) [
              | inl t ↦ inl (ground (arith, m.tail))
              | inr t ↦ inr (
                omega (arith, r.head, leb→le _ _ ahead),
                ground (arith, m.before s (ground arith) le),
              )
            ]
          ];
          only = λ s p h. elim (Bool-cases (ltb s roomed.recv_head)) [
            | inl t ↦ elim (Bool-cases (s == seq_no)) [
              | inl u ↦ inr (ground arith)
              | inr u ↦ inl (
                  r.back s (omega (arith, m.tail))
                    (ground (arith, m.tail, m.before s (omega (arith, m.tail)) (ground arith))))
            ]
            | inr t ↦ inr (elim h [
              | inl below ↦ absurd (omega arith)
              | inr (le, full) ↦ elim (Bool-cases (s == seq_no)) [
                | inl u ↦ ground arith
                | inr u ↦
                    absurd (ground (arith, m.lost s (ground arith) (ground arith), m.tail, r.tail))
              ]
            ])
          ];
          requested = (
            λ p. absurd (omega (arith, leb→le _ _ ahead)),
            λ p. record {
              count = m.requested.count;
              added = ground (arith, m.requested.added, r.nacks, r.head);
              at_most = omega (arith, m.requested.at_most, r.head);
              all_or_full = ground (arith, m.requested.all_or_full, r.head);
            },
          );
        })
    | inr behind ↦ rw behind (record {
      window = omega arith;
      tail = omega arith;
      taken = inr (ground arith, ground arith);
      kept = λ s h. ground arith;
      only = λ s p h. ground arith;
      requested = (λ p. refl, λ p. absurd (ground arith));
    })
  ]
