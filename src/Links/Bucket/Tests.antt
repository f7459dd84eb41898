-- ===== src/Links/Bucket/Tests.antt =====
-- Runs of the rate limit of a leg (daemon/link.c).
use spines.Prelude.{◌*◌, ℕ, ◌/◌, ◌≤◌, refl, true, List, [], ◌∷◌, arith}
use spines.Prelude.Int.{pos}
use spines.Prelude.Options.{Returns}
use spines.Links.Bucket.{BufCell, Bucket, Limits}
use spines.Links.Bucket.Limited.{IsLimited}
use spines.Links.Bucket.Rate.{Event, offer, refill, run, Rated, run-Rated}

-- A byte each ten microseconds.
abbrev limits : Limits
limits = record {
  limited = true;
  max_buffered = 3;
  bucket_cap = 1600;
  max_packet_size = 1472;
  credit = λ usec. usec / 10;
}

abbrev packet : ℕ → ℕ → BufCell
packet id len = record { link_type = 1; scat = id; lengths = 28 ∷ len ∷ [] }

abbrev leg : Bucket
leg = record { bucket_bytes = pos 1000; bucket_last_filled = 5000; bucket_buf = [] }

leg-IsLimited : IsLimited limits 1000 leg
leg-IsLimited = record { bytes = refl; within = omega arith; stopped = tt }

abbrev events : List Event
events = offer (packet 7 500) ∷ offer (packet 8 1000) ∷ refill 8000 ∷ refill 12000 ∷ []

credit-bounded : (usec : ℕ) → usec / 10 * 8000 ≤ 800 * usec
credit-bounded usec = omega arith

run-Rated_example :
    Returns (run limits events leg) (λ (leg', sent). Rated limits 800 1000 leg leg' sent)
run-Rated_example =
    run-Rated limits 800 1000 6000 events leg refl credit-bounded leg-IsLimited (omega arith)
      (refl, (refl, (omega arith, (omega arith, tt))))
