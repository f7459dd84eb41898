-- ===== src/Links/Bucket/Limited.antt =====
-- That a leg keeps to its rate (daemon/link.c).
use spines.Prelude.{
  ℕ, ◌+◌, ◌-◌, ◌≤◌, ◌<◌, ◌≡◌, ◌⊎◌, refl, ap, sym, ◌∙◌, inl, inr, Bool, true, false, ◌&&◌, ◌||◌, not,
  List, [], ◌∷◌, ◌++◌, ltb, leb, ◌==◌, if◌then◌else◌, length, arith, Bool-cases,
}
use spines.Prelude.Options.{Returns, Returns-if}
use spines.Prelude.Int.{ℤ, pos, ◌+ℤ◌, ◌-ℤ◌, ltb_ℤ}
use spines.Links.Bucket.{
  BufCell, total_bytes, Bucket, Limits, is_empty, affords, send_while_affordable,
  leg_try_send_buffered, fit, link_send, refilled, fill_leg_bucket,
}
use mathlib.Core.List.{append-nil}

-- The bytes of the packets that are sent.
abbrev pub bytes_of : List BufCell → ℕ
bytes_of [] = 0
bytes_of (c ∷ cs) = total_bytes c + bytes_of cs

-- The first packet that waits cannot be sent yet.
abbrev pub Stopped : ℕ → List BufCell → Type 0
Stopped n [] = Unit
Stopped n (c ∷ cs) = n < total_bytes c

afford-pos : (n : ℕ) (c : BufCell) → affords (pos n) c ≡ leb (total_bytes c) n
afford-pos n c = ground arith

spend-pos : (n t : ℕ) → t ≤ n → pos n -ℤ pos t ≡ pos (n - t)
unfolding ◌-ℤ◌
spend-pos n t le = ground arith

-- What the loop sends is the first of what waits, and costs its bytes.
record Drained (n : ℕ) (cs sent : List BufCell) (b : ℤ) (rest : List BufCell) : Type 0 where
  left : ℕ
  bytes : b ≡ pos left
  spent : bytes_of sent + left ≡ n
  order : sent ++ rest ≡ cs
  stopped : Stopped left rest

send_while_affordable-Drained :
    (n : ℕ) (cs : List BufCell)
    → let (sent, b, rest) = send_while_affordable (pos n) cs in Drained n cs sent b rest
unfolding send_while_affordable
send_while_affordable-Drained n [] = record {
  left = n;
  bytes = refl;
  spent = omega arith;
  order = refl;
  stopped = tt;
}
send_while_affordable-Drained n (c ∷ cs) = elim (Bool-cases (affords (pos n) c)) [
  | inl t ↦
      let le : total_bytes c ≤ n = ground (arith, afford-pos n c) in
      let d = send_while_affordable-Drained (n - total_bytes c) cs in
      rw (t, spend-pos n (total_bytes c) le)
        (record {
          left = d.left;
          bytes = d.bytes;
          spent = omega (arith, d.spent);
          order = ap (λ l. c ∷ l) d.order;
          stopped = d.stopped;
        })
  | inr f ↦ rw f (record {
    left = n;
    bytes = refl;
    spent = omega arith;
    order = refl;
    stopped = ground (arith, afford-pos n c);
  })
]

affords-le : (n : ℕ) (c : BufCell) (b : ℤ) → b ≡ pos n → affords b c ≡ true → total_bytes c ≤ n
affords-le n c b e h = ground arith

empty-snoc : (c : BufCell) (cs : List BufCell) → is_empty cs ≡ true → c ∷ cs ≡ cs ++ (c ∷ [])
empty-snoc c [] e = refl
empty-snoc c (x ∷ cs) e = cc

empty-Stopped : (n : ℕ) (cs : List BufCell) → is_empty cs ≡ true → Stopped n cs
empty-Stopped n [] e = tt
empty-Stopped n (c ∷ cs) e = cc

stays-Stopped :
    (n m : ℕ) (cs : List BufCell) → (is_empty cs ≡ true) ⊎ (m ≤ n) → Stopped n cs → Stopped m cs
stays-Stopped n m [] h s = tt
stays-Stopped n m (c ∷ cs) (inl e) s = cc
stays-Stopped n m (c ∷ cs) (inr le) s = omega arith

both-true :
    (limited a b : Bool)
    → limited ≡ true
    → (not limited || (a && b)) ≡ true
    → (a ≡ true) × (b ≡ true)
both-true limited a b on h = (ground arith, ground arith)

module _ (limits : Limits) where
  open limits use {bucket_cap, credit}

  -- A leg with that many bytes, no more than the bucket holds, where no packet waits that it could
  -- send.
  pub record IsLimited (n : ℕ) (leg : Bucket) : Type 0 where
    pub bytes : leg.bucket_bytes ≡ pos n
    pub within : n ≤ bucket_cap
    pub stopped : Stopped n leg.bucket_buf

  -- What a call with that many bytes does: what is sent costs its bytes, and is the first of the packets
  -- that wait.
  pub record Passed (budget : ℕ) (queued : List BufCell) (leg' : Bucket) (sent : List BufCell)
      : Type 0 where
    pub left : ℕ
    pub limited : IsLimited left leg'
    pub spent : bytes_of sent + left ≡ budget
    pub order : sent ++ leg'.bucket_buf ≡ queued

  try_send-Passed :
      (n : ℕ) (leg : Bucket)
      → leg.bucket_bytes ≡ pos n
      → n ≤ bucket_cap
      → let (leg', sent) = leg_try_send_buffered leg in
        Passed n leg.bucket_buf leg' sent × (leg'.bucket_last_filled ≡ leg.bucket_last_filled)
  unfolding leg_try_send_buffered
  try_send-Passed n leg e le =
      let d = send_while_affordable-Drained n leg.bucket_buf in
      rw e (
        record {
          left = d.left;
          limited = record {
            bytes = d.bytes;
            within = omega (arith, d.spent);
            stopped = d.stopped;
          };
          spent = d.spent;
          order = d.order;
        },
        refl,
      )

  -- The packets that wait after a packet was given to the leg, before any is sent.
  abbrev pub queued : BufCell → Bucket → List BufCell
  queued c leg =
      leg.bucket_buf ++ (if leb limits.max_buffered (length leg.bucket_buf) then [] else c ∷ [])

  abbrev pub Paid : ℕ → List BufCell → Bucket → Bucket × List BufCell → Type 0
  Paid n waiting leg (leg', sent) =
      Passed n waiting leg' sent × (leg'.bucket_last_filled ≡ leg.bucket_last_filled)

  -- The packet goes out at once.
  direct-Paid :
      (n : ℕ) (c : BufCell) (leg : Bucket)
      → IsLimited n leg
      → leb limits.max_buffered (length leg.bucket_buf) ≡ false
      → is_empty leg.bucket_buf ≡ true
      → affords leg.bucket_bytes c ≡ true
      → Paid n
          (queued c leg)
          leg
          (record leg { bucket_bytes = leg.bucket_bytes -ℤ pos (total_bytes c) }, c ∷ [])
  direct-Paid n c leg l room empty can =
      let le : total_bytes c ≤ n = affords-le n c leg.bucket_bytes l.bytes can in
      (
        record {
          left = n - total_bytes c;
          limited = record {
            bytes = ap (λ b. b -ℤ pos (total_bytes c)) l.bytes ∙ spend-pos n (total_bytes c) le;
            within = omega (arith, l.within);
            stopped = empty-Stopped (n - total_bytes c) leg.bucket_buf empty;
          };
          spent = omega arith;
          order = rw room (empty-snoc c leg.bucket_buf empty);
        },
        refl,
      )

  -- On a limited leg, what `Link_Send` sends costs just its bytes; what was sent and what waits are
  -- what waited before, in order, with the packet behind it unless too many wait; and no packet
  -- waits that could be sent.
  pub link_send-Paid :
      (n : ℕ) (c : BufCell) (leg : Bucket)
      → limits.limited ≡ true
      → fit limits.max_packet_size c.lengths ≡ true
      → IsLimited n leg
      → Returns (link_send limits c leg) (Paid n (queued c leg) leg)
  unfolding link_send
  link_send-Paid n c leg on fits l =
      Returns-if (Paid n (queued c leg) leg)
        (limits.limited && leb limits.max_buffered (length leg.bucket_buf)) _ _
        (λ full.
          let many : leb limits.max_buffered (length leg.bucket_buf) ≡ true = ground arith in
          (
            record {
              left = n;
              limited = l;
              spent = omega arith;
              order = rw many (sym (append-nil leg.bucket_buf));
            },
            refl,
          ))
        λ more.
          let room : leb limits.max_buffered (length leg.bucket_buf) ≡ false = ground arith in
          Returns-if (Paid n (queued c leg) leg)
            (not limits.limited || (is_empty leg.bucket_buf && affords leg.bucket_bytes c)) _ _
            (λ now.
              direct-Paid n c leg l room
                (both-true limits.limited (is_empty leg.bucket_buf) (affords leg.bucket_bytes c) on
                  now).0
                (both-true limits.limited (is_empty leg.bucket_buf) (affords leg.bucket_bytes c) on
                  now).1)
            λ later.
              Returns-if (Paid n (queued c leg) leg) (fit limits.max_packet_size c.lengths) _ _
                (λ ok. rw room (
                  try_send-Passed n (record leg { bucket_buf = leg.bucket_buf ++ (c ∷ []) }) l.bytes
                    l.within))
                λ large. absurd (ground arith)

  -- The bytes that a leg has after a refill.
  abbrev pub budget : ℕ → ℕ → Bucket → ℕ
  budget n now leg =
      let m = n + credit (now - leg.bucket_last_filled) in
      if n == bucket_cap then n else if ltb bucket_cap m then bucket_cap else m

  abbrev pub Filled : ℕ → ℕ → Bucket → Bucket × List BufCell → Type 0
  Filled n now leg (leg', sent) =
      Passed (budget n now leg) leg.bucket_buf leg' sent
      × (leg'.bucket_last_filled ≡ (if n == bucket_cap then leg.bucket_last_filled else now))

  at-full :
      (n : ℕ) (leg : Bucket)
      → IsLimited n leg
      → not (ltb_ℤ leg.bucket_bytes (pos bucket_cap)) ≡ true
      → (n == bucket_cap) ≡ true
  at-full n leg l h = ground (arith, l.bytes, l.within)

  not-full :
      (n : ℕ) (leg : Bucket)
      → IsLimited n leg
      → not (ltb_ℤ leg.bucket_bytes (pos bucket_cap)) ≡ false
      → (n == bucket_cap) ≡ false
  not-full n leg l h = ground (arith, l.bytes, l.within)

  refilled-pos :
      (n now : ℕ) (leg : Bucket)
      → leg.bucket_bytes ≡ pos n
      → (n == bucket_cap) ≡ false
      → refilled limits now leg ≡ pos (budget n now leg)
  unfolding ◌+ℤ◌
  refilled-pos n now leg e off = rw (e, off) (ground arith)

  is_broke :
      (n now : ℕ) (leg : Bucket)
      → (n == bucket_cap) ≡ false
      → IsLimited n leg
      → (not (is_empty leg.bucket_buf) && ltb_ℤ (pos 0) (refilled limits now leg)) ≡ false
      → refilled limits now leg ≡ pos (budget n now leg)
      → (is_empty leg.bucket_buf ≡ true) ⊎ (budget n now leg ≤ n)
  is_broke n now leg off l h e = elim (Bool-cases (is_empty leg.bucket_buf)) [
    | inl t ↦ inl t
    | inr f ↦ inr (ground (arith, l.within))
  ]

  -- A refill of a limited leg never exits. It adds the bytes for the time since the last one, as far as
  -- the bucket holds them, and sends what waits, in order, until a packet has to wait; a bucket
  -- that is full stays as it is, and so does the time of its last refill.
  pub fill_leg_bucket-Filled :
      (n now : ℕ) (leg : Bucket)
      → IsLimited n leg
      → Returns (fill_leg_bucket limits now leg) (Filled n now leg)
  unfolding fill_leg_bucket
  fill_leg_bucket-Filled n now leg l =
      Returns-if (Filled n now leg) (ltb_ℤ (pos bucket_cap) leg.bucket_bytes) _ _
        (λ over. absurd (ground (arith, l.bytes, l.within)))
        λ _.
          Returns-if (Filled n now leg) (not (ltb_ℤ leg.bucket_bytes (pos bucket_cap))) _ _
            (λ full.
              let at : (n == bucket_cap) ≡ true = at-full n leg l full in
              rw at (record { left = n; limited = l; spent = omega arith; order = refl }, refl))
            λ less.
              let off : (n == bucket_cap) ≡ false = not-full n leg l less in
              let b = budget n now leg in
              let leg' : Bucket = record leg {
                bucket_bytes = refilled limits now leg;
                bucket_last_filled = now;
              } in
              let bytes : refilled limits now leg ≡ pos b = refilled-pos n now leg l.bytes off in
              let le : b ≤ bucket_cap = ground (arith, l.within) in
              Returns-if (Filled n now leg)
                (not (is_empty leg.bucket_buf) && ltb_ℤ (pos 0) (refilled limits now leg)) _ _
                (λ some_wait.
                  let (p, same) = try_send-Passed b leg' bytes le in (p, same ∙ rw off refl))
                λ none_waits. (
                  record {
                    left = b;
                    limited = record {
                      bytes = bytes;
                      within = le;
                      stopped =
                          stays-Stopped n b leg.bucket_buf
                            (is_broke n now leg off l none_waits bytes) l.stopped;
                    };
                    spent = omega arith;
                    order = refl;
                  },
                  rw off refl,
                )
