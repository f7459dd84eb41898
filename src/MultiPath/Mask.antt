-- ===== src/MultiPath/Mask.antt =====
-- The bitmasks of daemon/multipath.c: a bit for each edge of the network, kept and combined as
-- words of 64 bits. All masks have `MultiPath_Bitmask_Size` bytes, so lists of one length.
pub mod Laws
use Prim.Native.Nat.{bit_and, bit_or, bit_xor}
use spines.Prelude.{ℕ, Bool, true, false, ◌&&◌, not, List, [], ◌∷◌, ◌==◌, if◌then◌else◌}

abbrev pub Mask : Type 0
Mask = List ℕ

-- A loop that combines the words of two masks by an operation.
unfoldable pub words : (ℕ → ℕ → ℕ) → Mask → Mask → Mask
words f [] _ = []
words f (a ∷ xs) [] = []
words f (a ∷ xs) (b ∷ ys) = f a b ∷ words f xs ys

-- A loop that collects the bits of all words, started from `temp`.
unfoldable pub collect : ℕ → Mask → ℕ
collect temp [] = temp
collect temp (a ∷ xs) = collect (bit_or temp a) xs

unfoldable pub neighbor_on_path : Mask → Mask → Bool
unfolding words collect
neighbor_on_path mask neighbor_mask = not (collect 0 (words bit_and mask neighbor_mask) == 0)

unfoldable pub is_superset : Mask → Mask → Bool
unfolding words collect
is_superset old_mask new_mask =
    let tmp1 = words bit_xor old_mask new_mask in
    let tmp2 = words bit_and old_mask tmp1 in not (collect 0 tmp1 == 0) && collect 0 tmp2 == 0

unfoldable pub create_superset : Mask → Mask → Mask
unfolding words
create_superset old_mask new_mask = words bit_or old_mask new_mask

-- The `return 0` in the loop leaves it at the first words that differ.
unfoldable pub is_equal : Mask → Mask → Bool
is_equal [] _ = true
is_equal (a ∷ xs) [] = true
is_equal (a ∷ xs) (b ∷ ys) = if a == b then is_equal xs ys else false
