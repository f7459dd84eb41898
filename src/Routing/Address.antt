-- ===== src/Routing/Address.antt =====
-- The classes of destination addresses: the macros of daemon/net_types.h.
use spines.Prelude.{ℕ, ◌/◌, ◌^◌, ◌<◌, ◌≡◌, Bool, true, false, ◌&&◌, ◌||◌, not, ◌==◌, arith}

-- An address is an unsigned number of 32 bits, so the masks of the macros leave its high digits.
unfoldable pub is_mcast_addr : ℕ → Bool
is_mcast_addr x = x / 2 ^ 28 == 0xE || x / 2 ^ 8 == 0xFEFF00

unfoldable pub is_acast_addr : ℕ → Bool
is_acast_addr x = x / 2 ^ 28 == 0xF && not (x / 2 ^ 8 == 0xFEFF00)

unfoldable pub is_node_addr : ℕ → Bool
unfolding is_mcast_addr is_acast_addr
is_node_addr x = not (is_mcast_addr x) && not (is_acast_addr x)

-- No address is both a multicast and an anycast address.
pub mcast-ne-acast : (x : ℕ) → is_mcast_addr x ≡ true → is_acast_addr x ≡ false
unfolding is_mcast_addr is_acast_addr
mcast-ne-acast x h = ground arith

-- Of the addresses of 32 bits, the node addresses are those below the multicast range and nothing
-- else.
pub is_node_addr_iff_lt :
    (x : ℕ)
    → x < 2 ^ 32
    → (is_node_addr x ≡ true → x < 0xE0000000) × (x < 0xE0000000 → is_node_addr x ≡ true)
unfolding is_node_addr
is_node_addr_iff_lt x h = ground arith
