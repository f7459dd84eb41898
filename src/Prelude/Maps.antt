-- ===== src/Prelude/Maps.antt =====
-- Finite maps from numbers, as functions: what the program uses of its hash tables.
use Prim.Native.Nat.{ℕ}
use mathlib.Core.Option.{Option, none, some}
use spines.Prelude.Tests.{◌==◌, if◌then◌else◌}

abbrev pub Map {ℓ} : Type ℓ → Type ℓ
Map V = ℕ → Option V

abbrev pub empty {ℓ} : {V : Type ℓ} → Map V
empty k = none

abbrev pub put {ℓ} : {V : Type ℓ} → Map V → ℕ → V → Map V
put m k v j = if k == j then some v else m j

abbrev pub erase {ℓ} : {V : Type ℓ} → Map V → ℕ → Map V
erase m k j = if k == j then none else m j
