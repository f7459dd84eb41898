-- ===== src/Routing/Table/Walks.antt =====
-- Walks over the links of a matrix: what the shortest routes of daemon/route.c are measured by.
use spines.Prelude.{ℕ, suc, ◌+◌, ◌≤◌, ◌<◌, ◌≡◌, refl, ◌⊎◌, inl, inr, arith}
use spines.Prelude.Int.{pos}
use mathlib.Core.Path.{subst}
use spines.Routing.{Route}

lt_or_eq : {m k : ℕ} → m < suc k → (m < k) ⊎ (m ≡ k)
lt_or_eq h = omega arith

-- A walk from `i` to `j`, of a cost, over links of `f`, whose inner nodes are below `k`.
module _ (f : ℕ → ℕ → Route) (n : ℕ) where
  pub data Walk (k j : ℕ) : ℕ → ℕ → Type 0 where
    direct : {i c : ℕ} → (f i j).cost ≡ pos c → Walk k j i c
    onward :
        {i m a b c : ℕ}
        → m < n
        → m < k
        → (f i m).cost ≡ pos a
        → Walk k j m b
        → c ≡ a + b
        → Walk k j i c

module _ {f : ℕ → ℕ → Route} {n : ℕ} where
  pub weaken : {k l j i c : ℕ} → k ≤ l → Walk f n k j i c → Walk f n l j i c
  weaken h (direct e) = direct e
  weaken h (onward p q e w s) = onward p (omega arith) e (weaken h w) s

  pub join :
      {k m j i a b c : ℕ}
      → m < n
      → m < k
      → Walk f n k m i a
      → Walk f n k j m b
      → c ≡ a + b
      → Walk f n k j i c
  join p q (direct e) v s = onward p q e v s
  join p q (onward p' q' e w t) v s = onward p' q' e (join p q w v refl) (omega arith)

module _ (f : ℕ → ℕ → Route) (n : ℕ) where
  -- A walk through `k` costs no less than its part before the first visit of `k` and its part after
  -- the last.
  abbrev pub Split : ℕ → ℕ → ℕ → ℕ → Type 0
  Split k j i c = (a : ℕ) × (b : ℕ) × Walk f n k k i a × Walk f n k j k b × (a + b ≤ c)

module _ {f : ℕ → ℕ → Route} {n : ℕ} where
  -- A link to `m` in front of a walk that is split.
  link-Split :
      {k j i m w b c : ℕ}
      → m < n
      → (m < k) ⊎ (m ≡ k)
      → (f i m).cost ≡ pos w
      → Split f n k j m b
      → c ≡ w + b
      → Split f n k j i c
  link-Split {w = w} p (inl q) e (x, y, u, v, h) s = (w + x, y, onward p q e u refl, v, omega arith)
  link-Split {i = i} {w = w} p (inr q) e (x, y, u, v, h) s =
      (w, y, direct (subst (λ t. (f i t).cost ≡ pos w) q e), v, omega arith)

  -- The same where the walk does not visit `k`.
  link-Walk :
      {k j i m w b c : ℕ}
      → m < n
      → (m < k) ⊎ (m ≡ k)
      → (f i m).cost ≡ pos w
      → Walk f n k j m b
      → c ≡ w + b
      → Walk f n k j i c ⊎ Split f n k j i c
  link-Walk p (inl q) e r s = inl (onward p q e r s)
  link-Walk {k} {j} {i} {w = w} {b = b} p (inr q) e r s = inr (
    w,
    b,
    direct (subst (λ t. (f i t).cost ≡ pos w) q e),
    subst (λ t. Walk f n k j t b) q r,
    omega arith,
  )

  pub split : {k j i c : ℕ} → Walk f n (suc k) j i c → Walk f n k j i c ⊎ Split f n k j i c
  split (direct e) = inl (direct e)
  split (onward p q e rest s) = elim (split rest) [
    | inl r ↦ link-Walk p (lt_or_eq q) e r s
    | inr r ↦ inr (link-Split p (lt_or_eq q) e r s)
  ]
