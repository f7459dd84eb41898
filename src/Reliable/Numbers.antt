-- ===== src/Reliable/Numbers.antt =====
-- Whole numbers in place of floats, and options of the daemon, for runs of the functions of
-- daemon/reliable_datagram.c.
use spines.Prelude.{ℕ, ◌+◌, ◌-◌, ◌*◌, ◌/◌, ◌≤◌, ◌<◌, ◌≡◌, ◌⊎◌, true, false, none, ltb, arith}
use spines.Reliable.Window.{Floats, Config}

pub less_one-numbers :
    (m w v : ℕ)
    → m < 16777216
    → 0 < m
    → ltb m w ≡ false
    → (ltb v 1 ≡ false) ⊎ (v ≡ w)
    → ltb m (w - v + 1) ≡ false
less_one-numbers m w v small pos le large = ground arith

pub less_half-numbers :
    (m w v : ℕ)
    → m < 16777216
    → ltb m w ≡ false
    → (ltb v 1 ≡ false) ⊎ (v ≡ w)
    → ltb m (w - v / 2) ≡ false
less_half-numbers m w v small le large = ground arith

pub exact-numbers : (n m w : ℕ) → m < 16777216 → ltb m w ≡ false → ltb n w ≡ true → n < m
exact-numbers n m w small le lt = ground arith

pub order-numbers : (n m : ℕ) → n ≤ m → ltb m n ≡ false
order-numbers n m le = ground arith

-- Whole numbers meet what is asked of floats.
abbrev pub numbers : Floats
numbers = record {
  Float = ℕ;
  float = λ n. n;
  trunc = λ n. n;
  lt = ltb;
  add = λ a b. a + b;
  sub = λ a b. a - b;
  div = λ a b. a / b;
  exact = exact-numbers;
  order = order-numbers;
  less_one = less_one-numbers;
  less_half = less_half-numbers;
}

abbrev pub cfg : Config
cfg = record {
  tcp_fairness = true;
  stream_fairness = false;
  fast_retransmit = false;
  wireless = none;
  network_flag = true;
  minimum_window = 1;
  body_size = 1400;
  linkid = 3;
  same_stream = λ a b. true;
  smooth = λ estimate rtt. (estimate + 4 * rtt) / 5;
}
