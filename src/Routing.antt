-- ===== src/Routing.antt =====
-- The data of the routing table of daemon/route.c and daemon/route.h.
pub mod Table
pub mod Regime
pub mod Address
pub mod Multicast
pub mod Dissemination
pub mod Delivery
mod Tests
use spines.Prelude.{ℕ, Option}
use spines.Prelude.Int.{ℤ}

-- `Route_d`. A pointer to a node is the node's `Node_ID`; `none` is the null pointer.
pub record Route : Type 0 where
  pub distance : ℤ
  pub cost : ℤ
  pub forwarder : Option ℕ
  pub predecessor : ℕ

-- The fields of an `Edge` that routing reads; the end nodes by their `Node_ID`.
pub record Edge : Type 0 where
  pub src : ℕ
  pub dst : ℕ
  pub cost : ℤ
