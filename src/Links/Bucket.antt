-- ===== src/Links/Bucket.antt =====
-- The rate limit of a leg: `Link_Send`, `Leg_Try_Send_Buffered` and `Fill_Leg_Bucket` of daemon/link.c.
pub mod Limited
pub mod Rate
mod Tests
use spines.Prelude.{
  ℕ, ◌+◌, ◌-◌, ◌<◌, Bool, true, false, ◌&&◌, ◌||◌, not, Option, none, some, List, [], ◌∷◌, ◌++◌,
  ltb, leb, ◌==◌, if◌then◌else◌, length,
}
use spines.Prelude.Int.{ℤ, pos, ◌+ℤ◌, ◌-ℤ◌, ltb_ℤ}

-- A packet that waits: the type of its link, its contents, as the identity of its buffers, and the
-- lengths of their parts.
pub record BufCell : Type 0 where
  pub link_type : ℕ
  pub scat : ℕ
  pub lengths : List ℕ

abbrev pub sum : List ℕ → ℕ
sum [] = 0
sum (n ∷ ns) = n + sum ns

abbrev pub total_bytes : BufCell → ℕ
total_bytes c = sum c.lengths

pub record Bucket : Type 0 where
  pub bucket_bytes : ℤ
  pub bucket_last_filled : ℕ
  pub bucket_buf : List BufCell

-- `Leg_Rate_Limit_kbps >= 0`, `Leg_Max_Buffered`, `Leg_Bucket_Cap`, `MAX_PACKET_SIZE`, and `to_add`,
-- the bytes that are computed in floating point for a number of microseconds.
pub record Limits : Type 0 where
  pub limited : Bool
  pub max_buffered : ℕ
  pub bucket_cap : ℕ
  pub max_packet_size : ℕ
  pub credit : ℕ → ℕ

abbrev pub is_empty : List BufCell → Bool
is_empty [] = true
is_empty (c ∷ cs) = false

-- `total_bytes <= bucket_bytes`
abbrev pub affords : ℤ → BufCell → Bool
affords b c = not (ltb_ℤ b (pos (total_bytes c)))

-- The loop: what is sent, and what is left of the bytes and of the packets.
unfoldable pub send_while_affordable : ℤ → List BufCell → List BufCell × ℤ × List BufCell
send_while_affordable b [] = ([], b, [])
send_while_affordable b (c ∷ cs) =
    let (sent, b', rest) = send_while_affordable (b -ℤ pos (total_bytes c)) cs in
    if affords b c then (c ∷ sent, b', rest) else ([], b, c ∷ cs)

unfoldable pub leg_try_send_buffered : Bucket → Bucket × List BufCell
unfolding send_while_affordable
leg_try_send_buffered leg =
    let (sent, b, rest) = send_while_affordable leg.bucket_bytes leg.bucket_buf in
    (record leg { bucket_bytes = b; bucket_buf = rest }, sent)

-- The parts of a packet fit the buffers.
abbrev pub fit : ℕ → List ℕ → Bool
fit size [] = true
fit size (n ∷ ns) = leb n size && fit size ns

module _ (limits : Limits) where
  -- None where the daemon exits.
  unfoldable pub link_send : BufCell → Bucket → Option (Bucket × List BufCell)
  unfolding leg_try_send_buffered
  link_send c leg =
      if limits.limited && leb limits.max_buffered (length leg.bucket_buf)
      then some (leg, [])
      else if not limits.limited || (is_empty leg.bucket_buf && affords leg.bucket_bytes c)
      then some (record leg { bucket_bytes = leg.bucket_bytes -ℤ pos (total_bytes c) }, c ∷ [])
      else if fit limits.max_packet_size c.lengths
      then some (leg_try_send_buffered (record leg { bucket_buf = leg.bucket_buf ++ (c ∷ []) }))
      else none

  -- The bytes after a refill, and no more than the bucket holds.
  abbrev pub refilled : ℕ → Bucket → ℤ
  refilled now leg =
      let b = leg.bucket_bytes +ℤ pos (limits.credit (now - leg.bucket_last_filled)) in
      if ltb_ℤ (pos limits.bucket_cap) b then pos limits.bucket_cap else b

  unfoldable pub fill_leg_bucket : ℕ → Bucket → Option (Bucket × List BufCell)
  unfolding leg_try_send_buffered
  fill_leg_bucket now leg =
      let leg' : Bucket = record leg {
        bucket_bytes = refilled now leg;
        bucket_last_filled = now;
      } in
      if ltb_ℤ (pos limits.bucket_cap) leg.bucket_bytes
      then none
      else if not (ltb_ℤ leg.bucket_bytes (pos limits.bucket_cap))
      then some (leg, [])
      else if not (is_empty leg.bucket_buf) && ltb_ℤ (pos 0) leg'.bucket_bytes
      then some (leg_try_send_buffered leg')
      else some (leg', [])
