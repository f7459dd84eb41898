-- ===== src/Realtime.antt =====
-- The state of a realtime link: `Realtime_Data` of daemon/link.h, and its age test of
-- daemon/realtime_udp.c.
pub mod Receive
pub mod Send
mod Tests
use spines.Prelude.{
  ℕ, ◌+◌, ◌-◌, ◌*◌, ◌/◌, ◌%◌, ◌^◌, Bool, true, false, ◌&&◌, Option, List, ltb, ◌==◌, if◌then◌else◌,
}

-- MAX_HISTORY, HISTORY_TIME, MAX_BUCKET and RT_RETRANSM_TOK
abbrev pub max_history : ℕ
max_history = 1000

abbrev pub history_time : ℕ
history_time = 100000

abbrev pub max_bucket : ℕ
max_bucket = 500

abbrev pub rt_retransm_tok : ℕ
rt_retransm_tok = 2

-- EMPTY_CELL, RECVD_CELL, NACK_CELL and SENT_CELL
pub data CellFlag : Type 0 where
  empty_cell recvd_cell nack_cell sent_cell : CellFlag

abbrev pub is_empty : CellFlag → Bool
is_empty empty_cell = true
is_empty recvd_cell = false
is_empty nack_cell = false
is_empty sent_cell = false

-- A time is its number of microseconds.
pub record RecvCell : Type 0 where
  pub flags : CellFlag
  pub timestamp : ℕ

-- A packet that is kept: its contents, as the identity of its buffer, and its length.
pub record HistoryCell : Type 0 where
  pub buff : Option ℕ
  pub len : ℕ
  pub timestamp : ℕ

-- An array is a function of its index. `nacks` is the part of `nack_buff` that `num_nacks` counts,
-- and `retransm` the numbers in `retransm_buff`, none where that is null.
pub record RtData : Type 0 where
  pub head : ℕ
  pub tail : ℕ
  pub window : ℕ → HistoryCell
  pub recv_head : ℕ
  pub recv_tail : ℕ
  pub recv_window : ℕ → RecvCell
  pub nacks : List ℕ
  pub retransm : Option (List ℕ)
  pub bucket : ℕ

abbrev pub store {ℓ} : {A : Type ℓ} → (ℕ → A) → ℕ → A → ℕ → A
store f i v j = if i == j then v else f j

-- `diff > HISTORY_TIME`, where `diff` is the age in microseconds in a signed number of 32 bits.
unfoldable pub is_old : ℕ → ℕ → Bool
is_old now timestamp =
    let diff = (now + (timestamp / 2 ^ 32 + 1) * 2 ^ 32 - timestamp) % 2 ^ 32 in
    ltb history_time diff && ltb diff (2 ^ 31)
