-- ===== src/Links/Bucket/Rate.antt =====
-- Over any run of sends and refills a leg keeps to its rate (daemon/link.c).
use spines.Prelude.{
  ltb, if◌then◌else◌, ℕ, ◌+◌, ◌*◌, ◌-◌, ◌≤◌, ◌≡◌, refl, ◌∙◌, inl, inr, true, Option, some, List, [],
  ◌∷◌, ◌++◌, ◌==◌, arith, Bool-cases,
}
use spines.Prelude.Options.{Returns, Returns-bind, ◌>>=◌}
use spines.Links.Bucket.{BufCell, Bucket, Limits, fit, link_send, fill_leg_bucket}
use spines.Links.Bucket.Limited.{
  bytes_of, IsLimited, queued, Paid, link_send-Paid, Filled, fill_leg_bucket-Filled,
}

-- A packet for the leg, or a refill at some time.
pub data Event : Type 0 where
  offer : BufCell → Event
  refill : ℕ → Event

bytes_of-append : (a b : List BufCell) → bytes_of (a ++ b) ≡ bytes_of a + bytes_of b
bytes_of-append [] b = omega arith
bytes_of-append (c ∷ a) b = omega (arith, bytes_of-append a b)

module _ (limits : Limits) where
  open limits use {bucket_cap, credit}

  unfoldable pub step : Event → Bucket → Option (Bucket × List BufCell)
  step (offer c) leg = link_send limits c leg
  step (refill now) leg = fill_leg_bucket limits now leg

  unfoldable pub run : List Event → Bucket → Option (Bucket × List BufCell)
  unfolding step
  run [] leg = some (leg, [])
  run (e ∷ es) leg =
      step e leg >>= λ (leg', sent). run es leg' >>= λ (leg'', sent'). some (leg'', sent ++ sent')

  -- The packets fit their buffers, and the times of the refills do not go back behind `t`.
  abbrev pub Timely : ℕ → List Event → Type 0
  Timely t [] = Unit
  Timely t (offer c ∷ es) = (fit limits.max_packet_size c.lengths ≡ true) × Timely t es
  Timely t (refill now ∷ es) = (t ≤ now) × Timely now es

  -- What is sent and what is left are covered by the bytes at the start and the time since then.
  pub record Rated (kbps n : ℕ) (leg leg' : Bucket) (sent : List BufCell) : Type 0 where
    pub left : ℕ
    pub limited : IsLimited limits left leg'
    pub later : leg.bucket_last_filled ≤ leg'.bucket_last_filled
    pub covered :
        (bytes_of sent + left) * 8000
        ≤ n * 8000 + kbps * (leg'.bucket_last_filled - leg.bucket_last_filled)

  -- What is computed for a time is no more than that many kilobits per second give, which are a
  -- 8000th of a byte each microsecond. The code's rounding never raises it above: the exact value is a
  -- multiple of an 8000th, and the error of the floating point is far below that for all numbers of
  -- bytes that an unsigned int holds.
  abbrev pub IsBounded : ℕ → Type 0
  IsBounded kbps = (usec : ℕ) → credit usec * 8000 ≤ kbps * usec

  Rated-trans :
      (kbps n : ℕ) (a b c : Bucket) (sent sent' : List BufCell)
      → (r : Rated kbps n a b sent) → Rated kbps r.left b c sent'
      → Rated kbps n a c (sent ++ sent')
  Rated-trans kbps n a b c sent sent' r r' =
      let d = b.bucket_last_filled - a.bucket_last_filled in
      let d' = c.bucket_last_filled - b.bucket_last_filled in
      let whole : c.bucket_last_filled - a.bucket_last_filled ≡ d + d' =
        omega (arith, r.later, r'.later) in
      record {
        left = r'.left;
        limited = r'.limited;
        later = omega (arith, r.later, r'.later);
        covered = rw whole (omega (arith, r.covered, r'.covered, bytes_of-append sent sent'));
      }

  offer-Rated :
      (kbps n : ℕ) (c : BufCell) (leg leg' : Bucket) (sent : List BufCell)
      → Paid limits n (queued limits c leg) leg (leg', sent)
      → Rated kbps n leg leg' sent
  offer-Rated kbps n c leg leg' sent (p, same) = record {
    left = p.left;
    limited = p.limited;
    later = omega (arith, same);
    covered = omega (arith, p.spent);
  }

  refill-covered :
      (kbps n now : ℕ) (leg leg' : Bucket) (bytes left : ℕ)
      → IsBounded kbps
      → leg'.bucket_last_filled ≡ now
      → bytes + left ≡ (
          let m = n + credit (now - leg.bucket_last_filled) in
          if ltb bucket_cap m then bucket_cap else m)
      → (bytes + left) * 8000 ≤ n * 8000 + kbps * (leg'.bucket_last_filled - leg.bucket_last_filled)
  refill-covered kbps n now leg leg' bytes left bounded time spent =
      let d = now - leg.bucket_last_filled in
      let most : bytes + left ≤ n + credit d = ground arith in
      rw time (omega (arith, most, bounded d))

  refill-Rated :
      (kbps n now : ℕ) (leg leg' : Bucket) (sent : List BufCell)
      → IsBounded kbps
      → IsLimited limits n leg
      → leg.bucket_last_filled ≤ now
      → Filled limits n now leg (leg', sent)
      → Rated kbps n leg leg' sent × (leg'.bucket_last_filled ≤ now)
  refill-Rated kbps n now leg leg' sent bounded l le (p, time) =
      elim (Bool-cases (n == bucket_cap)) [
        | inl t ↦
            let time' : leg'.bucket_last_filled ≡ leg.bucket_last_filled = time ∙ rw t refl in
            let spent : bytes_of sent + p.left ≡ n = p.spent ∙ rw t refl in
            (
              record {
                left = p.left;
                limited = p.limited;
                later = omega arith;
                covered = omega arith;
              },
              omega arith,
            )
        | inr f ↦
            let time' : leg'.bucket_last_filled ≡ now = time ∙ rw f refl in
            (
              record {
                left = p.left;
                limited = p.limited;
                later = omega arith;
                covered =
                    refill-covered kbps n now leg leg' _ p.left bounded time' (p.spent ∙ rw f refl);
              },
              omega arith,
            )
      ]

  -- On a leg with a rate limit, whose bucket is not overfull and whose first waiting packet costs more
  -- than it holds, let packets that fit the buffers be sent and the bucket be refilled at times in
  -- their order, by no more bytes than a rate in kilobits per second gives. Then the daemon does not
  -- exit, and the bytes that are sent and those that are left are no more than those that the bucket
  -- held and those that the rate gives for the time from its last refill before to its last refill
  -- after.
  pub run-Rated :
      (kbps n t : ℕ) (es : List Event) (leg : Bucket)
      → limits.limited ≡ true
      → IsBounded kbps
      → IsLimited limits n leg
      → leg.bucket_last_filled ≤ t
      → Timely t es
      → Returns (run es leg) (λ (leg', sent). Rated kbps n leg leg' sent)
  unfolding run
  run-Rated kbps n t [] leg on bounded l le h = record {
    left = n;
    limited = l;
    later = omega arith;
    covered = omega arith;
  }
  run-Rated kbps n t (offer c ∷ es) leg on bounded l le (fits, h) =
      Returns-bind (Paid limits n (queued limits c leg) leg) _ (link_send limits c leg) _
        (link_send-Paid limits n c leg on fits l)
        λ (leg1, sent) paid.
          let r = offer-Rated kbps n c leg leg1 sent paid in
          Returns-bind (λ (leg2, sent'). Rated kbps r.left leg1 leg2 sent') _ (run es leg1) _
            (run-Rated kbps r.left t es leg1 on bounded r.limited (omega (arith, paid.1)) h)
            λ (leg2, sent') r'. Rated-trans kbps n leg leg1 leg2 sent sent' r r'
  run-Rated kbps n t (refill now ∷ es) leg on bounded l le (later, h) =
      Returns-bind (Filled limits n now leg) _ (fill_leg_bucket limits now leg) _
        (fill_leg_bucket-Filled limits n now leg l)
        λ (leg1, sent) filled.
          let (r, not_after) =
            refill-Rated kbps n now leg leg1 sent bounded l (omega arith) filled in
          Returns-bind (λ (leg2, sent'). Rated kbps r.left leg1 leg2 sent') _ (run es leg1) _
            (run-Rated kbps r.left now es leg1 on bounded r.limited not_after h)
            λ (leg2, sent') r'. Rated-trans kbps n leg leg1 leg2 sent sent' r r'
