-- ===== src/LinkState/Tests.antt =====
-- Comparisons of timestamps of daemon/link_state.c.
use spines.Prelude.{◌≡◌, refl}
use spines.Prelude.Int.{pos, negsuc}
use spines.LinkState.{lts_cmp, lts_inc}

wraps : (lts_inc 65535 ≡ 0) × (lts_cmp 0 65535 ≡ pos 1) × (lts_cmp 16384 65535 ≡ negsuc 0)
unfolding lts_inc lts_cmp
wraps = (refl, refl, refl)
