-- ===== src/LinkState.antt =====
-- The Lamport timestamps of link state updates: daemon/link_state.c.
pub mod Order
pub mod Edges
mod Tests
use spines.Prelude.{ℕ, ◌+◌, ◌%◌, ◌^◌, Bool, ◌&&◌, ltb, leb, ◌==◌, if◌then◌else◌}
use spines.Prelude.Int.{ℤ, pos, negsuc}

-- `Link_State_LTS` has 16 bits. LTS_QUARTER_RANGE and LTS_THREE_QUARTER_RANGE
abbrev pub quarter_range : ℕ
quarter_range = 16384

abbrev pub three_quarter_range : ℕ
three_quarter_range = 49152

-- What `Link_State_LTS_inc` makes of the counter, which it returns.
unfoldable pub lts_inc : ℕ → ℕ
lts_inc lts = (lts + 1) % 2 ^ 16

-- `Link_State_LTS_cmp`
unfoldable pub lts_cmp : ℕ → ℕ → ℤ
lts_cmp left right =
    if ltb left right
    then if ltb left quarter_range && leb three_quarter_range right then pos 1 else negsuc 0
    else if left == right
    then pos 0
    else if ltb right quarter_range && leb three_quarter_range left
    then negsuc 0
    else pos 1
