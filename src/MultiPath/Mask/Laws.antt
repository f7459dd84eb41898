-- ===== src/MultiPath/Mask/Laws.antt =====
-- What the operations on masks in daemon/multipath.c mean for each edge.
use Prim.Native.Nat.{min, max, bit_and, bit_or, bit_xor}
use spines.Prelude.{
  ℕ, zero, suc, ◌≤◌, ◌≡◌, ◌≢◌, ◌↔◌, refl, sym, true, false, [], ◌∷◌, length, get_or, arith,
}
use mathlib.Core.Path.{ap₂}
use spines.Prelude.Bits.{
  bit, unlike, bit-lt, bit-bit_and, bit-bit_or, bit-bit_xor, bit_ext, bit-zero, eq_zero_of_bits,
}
use spines.MultiPath.Mask.{
  Mask, words, collect, neighbor_on_path, is_superset, create_superset, is_equal,
}

-- The bit `k` of the word `w`: 1 if the mask holds that edge.
abbrev pub edge : Mask → ℕ → ℕ → ℕ
edge m w k = bit (get_or m w 0) k

edge-words :
    (f : ℕ → ℕ → ℕ) (g : ℕ → ℕ → ℕ)
    → ((a b k : ℕ) → bit (f a b) k ≡ g (bit a k) (bit b k))
    → g 0 0 ≡ 0
    → (xs ys : Mask) (w k : ℕ) → length xs ≡ length ys
    → edge (words f xs ys) w k ≡ g (edge xs w k) (edge ys w k)
unfolding words
edge-words f g law z [] [] w k e = rw (bit-zero k) (sym z)
edge-words f g law z [] (b ∷ ys) w k e = absurd (omega arith)
edge-words f g law z (a ∷ xs) [] w k e = absurd (omega arith)
edge-words f g law z (a ∷ xs) (b ∷ ys) zero k e = law a b k
edge-words f g law z (a ∷ xs) (b ∷ ys) (suc w) k e = edge-words f g law z xs ys w k (omega arith)

or_zero : (a b : ℕ) → (bit_or a b ≡ 0) ↔ ((a ≡ 0) × (b ≡ 0))
or_zero a b = (
  λ e. (
    eq_zero_of_bits a (λ k. ground (arith, bit-bit_or a b k, bit-zero k)),
    eq_zero_of_bits b (λ k. ground (arith, bit-bit_or a b k, bit-zero k)),
  ),
  λ (p, q). eq_zero_of_bits (bit_or a b) (λ k. rw (bit-bit_or, p, q, bit-zero) (omega arith)),
)

-- The collected bits are all 0 exactly when those of every word are.
collect_zero :
    (temp : ℕ) (m : Mask) → (collect temp m ≡ 0) ↔ ((temp ≡ 0) × ((w k : ℕ) → edge m w k ≡ 0))
unfolding collect
collect_zero temp [] = (λ e. (e, λ w k. bit-zero k), λ (e, h). e)
collect_zero temp (a ∷ m) = (
  λ e.
      let (t, h) = (collect_zero (bit_or temp a) m).0 e in
      let (p, q) = (or_zero temp a).0 t in
      (
        p,
        λ w. elim w as (λ w. (k : ℕ) → edge (a ∷ m) w k ≡ 0) [
          | zero ↦ λ k. rw (q, bit-zero k)
          | suc w ↦ λ k. h w k
        ],
      ),
  λ (e, h).
      (collect_zero (bit_or temp a) m).1
        ((or_zero temp a).1 (e, eq_zero_of_bits a (λ k. h 0 k)), λ w k. h (suc w) k),
)

-- Every edge of one mask is in the other.
abbrev pub Covers : Mask → Mask → Type 0
Covers big small = (w k : ℕ) → edge small w k ≤ edge big w k

mask_ext : (a b : Mask) → length a ≡ length b → ((w k : ℕ) → edge a w k ≡ edge b w k) → a ≡ b
mask_ext [] [] e h = refl
mask_ext [] (y ∷ b) e h = absurd (omega arith)
mask_ext (x ∷ a) [] e h = absurd (omega arith)
mask_ext (x ∷ a) (y ∷ b) e h =
    ap₂ ◌∷◌ (bit_ext x y (λ k. h 0 k)) (mask_ext a b (omega arith) (λ w k. h (suc w) k))

length-words : (f : ℕ → ℕ → ℕ) (a b : Mask) → length a ≡ length b → length (words f a b) ≡ length a
unfolding words
length-words f [] b e = refl
length-words f (x ∷ a) [] e = absurd (omega arith)
length-words f (x ∷ a) (y ∷ b) e = omega (arith, length-words f a b)

-- Of masks of the same length, `MultiPath_Is_Equal` returns 1 exactly for equal ones.
pub is_equal_iff : (a b : Mask) → length a ≡ length b → (is_equal a b ≡ true) ↔ (a ≡ b)
unfolding is_equal
is_equal_iff [] [] e = (λ h. refl, λ h. refl)
is_equal_iff [] (y ∷ b) e = absurd (omega arith)
is_equal_iff (x ∷ a) [] e = absurd (omega arith)
is_equal_iff (x ∷ a) (y ∷ b) e =
    let ih = is_equal_iff a b (omega arith) in (λ h. ground (arith, ih), λ h. ground (arith, ih))

module _ (a b : Mask) (same : length a ≡ length b) where
  -- Of masks of the same length, a neighbor is not on the path exactly when no edge is in both its
  -- mask and the packet's.
  pub neighbor_on_path-eq-false :
      (neighbor_on_path a b ≡ false) ↔ ((w k : ℕ) → min (edge a w k) (edge b w k) ≡ 0)
  unfolding neighbor_on_path
  neighbor_on_path-eq-false = (
    λ e w k. omega (
      arith,
      ((collect_zero 0 (words bit_and a b)).0 (ground arith)).1 w k,
      edge-words bit_and min bit-bit_and refl a b w k same,
    ),
    λ h.
        let e : collect 0 (words bit_and a b) ≡ 0 = (collect_zero 0 (words bit_and a b)).1 (
          refl,
          λ w k. omega (arith, h w k, edge-words bit_and min bit-bit_and refl a b w k same),
        ) in
        rw e,
  )

  -- The edges of the old mask that the new one lacks.
  lacking :
      (w k : ℕ)
      → edge (words bit_and a (words bit_xor a b)) w k
        ≡ min (edge a w k) (unlike (edge a w k) (edge b w k))
  lacking w k = omega (
    arith,
    edge-words bit_and min bit-bit_and refl a (words bit_xor a b) w k
        (rw (length-words bit_xor a b same)),
    edge-words bit_xor unlike bit-bit_xor refl a b w k same,
  )

  xor_zero : (collect 0 (words bit_xor a b) ≡ 0) ↔ (a ≡ b)
  xor_zero = (
    λ e. mask_ext a b same (λ w k. omega (
      arith,
      ((collect_zero 0 (words bit_xor a b)).0 e).1 w k,
      edge-words bit_xor unlike bit-bit_xor refl a b w k same,
      bit-lt (get_or a w 0) k,
      bit-lt (get_or b w 0) k,
    )),
    λ e. (collect_zero 0 (words bit_xor a b)).1 (
      refl,
      λ w k. rw (edge-words bit_xor unlike bit-bit_xor refl a b w k same, e) (omega arith),
    ),
  )

  lacking_zero : (collect 0 (words bit_and a (words bit_xor a b)) ≡ 0) ↔ Covers b a
  lacking_zero = (
    λ e w k. omega (
      arith,
      ((collect_zero 0 (words bit_and a (words bit_xor a b))).0 e).1 w k,
      lacking w k,
      bit-lt (get_or a w 0) k,
      bit-lt (get_or b w 0) k,
    ),
    λ h. (collect_zero 0 (words bit_and a (words bit_xor a b))).1 (
      refl,
      λ w k. omega (arith, h w k, lacking w k, bit-lt (get_or a w 0) k, bit-lt (get_or b w 0) k),
    ),
  )

  -- For masks of the same length, `MultiPath_Is_Superset` returns 1 exactly if the new mask has every edge of the old one, and
  -- some edge more.
  pub is_superset_iff : (is_superset a b ≡ true) ↔ (Covers b a × (a ≢ b))
  unfolding is_superset
  is_superset_iff = (
    λ e. (lacking_zero.0 (ground arith), λ s. ground (arith, xor_zero.1 s)),
    λ (c, ne). ground (arith, lacking_zero.1 c, xor_zero.0),
  )

  -- `MultiPath_Create_Superset` leaves exactly the edges of either mask.
  pub create_superset-edge :
      (w k : ℕ) → edge (create_superset a b) w k ≡ max (edge a w k) (edge b w k)
  unfolding create_superset
  create_superset-edge w k = edge-words bit_or max bit-bit_or refl a b w k same

-- For masks of the same length: after `MultiPath_Create_Superset` the mask has every edge of both masks and no other, and if it
-- differs from the old mask then `MultiPath_Is_Superset` finds it a superset of it.
pub create_superset-is_superset :
    (a b : Mask)
    → length a ≡ length b
    → Covers (create_superset a b) a
      × Covers (create_superset a b) b
      × ((c : Mask) → Covers c a → Covers c b → Covers c (create_superset a b))
      × (a ≢ create_superset a b → is_superset a (create_superset a b) ≡ true)
create_superset-is_superset a b same =
    let up : Covers (create_superset a b) a =
      λ w k. omega (arith, create_superset-edge a b same w k) in
    (
      up,
      λ w k. omega (arith, create_superset-edge a b same w k),
      λ c p q w k. omega (arith, create_superset-edge a b same w k, p w k, q w k),
      λ ne.
          (is_superset_iff a (create_superset a b)
              (unfold create_superset in sym (length-words bit_or a b same))).1
            (up, ne),
    )
