-- ===== src/LinkState/Order.antt =====
-- What `Link_State_LTS_cmp` (daemon/link_state.c) makes of the counter's wrap.
use spines.Prelude.{ℕ, zero, suc, ◌+◌, ◌%◌, ◌^◌, ◌≤◌, ◌<◌, ◌≡◌, ◌↔◌, arith}
use spines.Prelude.Int.{pos, negsuc}
use spines.LinkState.{quarter_range, lts_inc, lts_cmp}

-- The counter after a number of increments.
abbrev pub incremented : ℕ → ℕ → ℕ
incremented zero lts = lts
incremented (suc times) lts = lts_inc (incremented times lts)

incremented-eq : (times lts : ℕ) → lts < 2 ^ 16 → incremented times lts ≡ (lts + times) % 2 ^ 16
unfolding lts_inc
incremented-eq zero lts small = omega arith
incremented-eq (suc times) lts small = omega (arith, incremented-eq times lts small)

-- A timestamp that was incremented at least once and at most a quarter of the range is higher than
-- it was, also where it wraps on the way, and what it was is lower.
pub lts_cmp-incremented :
    (times lts : ℕ)
    → lts < 2 ^ 16
    → 0 < times
    → times ≤ quarter_range
    → (lts_cmp (incremented times lts) lts ≡ pos 1)
      × (lts_cmp lts (incremented times lts) ≡ negsuc 0)
unfolding lts_cmp
lts_cmp-incremented times lts small some_times few =
    rw (incremented-eq times lts small) (ground arith, ground arith)

-- Of any two timestamps, swapping them swaps higher and lower, and neither is higher exactly if they
-- are equal.
pub lts_cmp-swap :
    (left right : ℕ)
    → ((lts_cmp left right ≡ pos 1) ↔ (lts_cmp right left ≡ negsuc 0))
      × ((lts_cmp left right ≡ pos 0) ↔ (left ≡ right))
      × ((lts_cmp left right ≡ negsuc 0) ↔ (lts_cmp right left ≡ pos 1))
unfolding lts_cmp
lts_cmp-swap left right = (
  (λ e. ground arith, λ e. ground arith),
  (λ e. ground arith, λ e. ground arith),
  (λ e. ground arith, λ e. ground arith),
)
