-- ===== src/Prelude/Loops.antt =====
-- Counted loops, with the rule that proves an invariant of them.
use Prim.Native.Nat.{ℕ, zero, suc, ◌+◌, ◌<◌}
use mathlib.Core.Path.{◌≡◌, subst}
use native.Mathlib.Omega.{arith}

-- `for (i = first; i != first + rounds; ++i) s = body i s`
unfoldable pub for_from {ℓ} : {S : Type ℓ} → ℕ → ℕ → (ℕ → S → S) → S → S
for_from zero first body s = s
for_from (suc rounds) first body s = for_from rounds (suc first) body (body first s)

pub for_from_inv {ℓ κ} :
    {S : Type ℓ} (P : ℕ → S → Type κ) (body : ℕ → S → S) (last : ℕ)
    → ((i : ℕ) (s : S) → i < last → P i s → P (suc i) (body i s))
    → (rounds first : ℕ) (s : S) → first + rounds ≡ last
    → P first s
    → P last (for_from rounds first body s)
unfolding for_from
for_from_inv P body last keep zero first s e h =
    let e' : first ≡ last = omega arith in subst (λ k. P k s) e' h
for_from_inv P body last keep (suc rounds) first s e h =
    for_from_inv P body last keep rounds (suc first) (body first s) (omega arith)
      (keep first s (omega arith) h)
