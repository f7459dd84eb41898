-- ===== src/Links/Loss.antt =====
-- The sequence numbers by which a leg estimates its loss: `Relative_Position`, `Check_Link_Loss` and
-- `Set_Loss_SeqNo` of daemon/link.c.
pub mod Laws
use spines.Prelude.{
  ℕ, zero, suc, ◌+◌, ◌-◌, ◌*◌, ◌/◌, ◌%◌, Bool, true, false, ◌&&◌, ◌||◌, Option, none, some, ltb,
  leb, ◌==◌, if◌then◌else◌,
}
use spines.Prelude.Int.{ℤ, pos, negsuc, sub_ℕ}
use spines.Realtime.{store}

-- PACK_MAX_SEQ
abbrev pub pack_max_seq : ℕ
pack_max_seq = 30000

-- `Relative_Position`, for numbers that are not negative.
unfoldable pub relative_position : ℕ → ℕ → ℤ
relative_position base seq =
    if leb base seq
    then if ltb (seq - base) (pack_max_seq / 2)
      then sub_ℕ seq base
      else sub_ℕ seq (base + pack_max_seq)
    else if ltb (pack_max_seq / 2) (base - seq)
    then sub_ℕ (seq + pack_max_seq) base
    else sub_ℕ seq base

-- INTRUSION_TOL_LINK, by its number in `Link_Type`.
abbrev pub intrusion_tol_link : ℕ
intrusion_tol_link = 6

-- The test for a packet that is reordered or a duplicate, its differences moved to the other side.
unfoldable pub is_reordered : ℕ → ℕ → Bool
is_reordered head seq_no =
    (leb seq_no head && ltb (head + head) (pack_max_seq + seq_no + seq_no))
    || (ltb head seq_no && ltb (pack_max_seq + head + head) (seq_no + seq_no))

-- The arithmetic of floating point: `loss_rate * LOSS_DECAY_FACTOR`, and that with
-- `1.0 - LOSS_DECAY_FACTOR` added.
pub record LossEnv : Type 1 where
  pub Rate : Type 0
  pub decay : Rate → Rate
  pub decay_lost : Rate → Rate

module _ (env : LossEnv) where
  -- `Loss_Data`. The numbers that are kept are below 2 ^ 15.
  pub record LossData : Type 0 where
    pub loss_rate : env.Rate
    pub recvd_seqs : ℕ → ℕ
    pub my_seqs : ℕ → ℕ

  -- The loop over the numbers that are missing; `none` where the fuel runs out.
  unfoldable pub count_gap : ℕ → ℕ → ℕ → env.Rate → Option env.Rate
  count_gap zero i seq_no rate = none
  count_gap (suc fuel) i seq_no rate =
      if i == seq_no
      then some rate
      else count_gap fuel ((i + 1) % pack_max_seq) seq_no (env.decay_lost rate)

  -- `Check_Link_Loss` on a leg with a control link.
  unfoldable pub check_link_loss : ℕ → ℕ → ℕ → LossData → Option LossData
  check_link_loss fuel seq_no link_type l_data =
      let head = l_data.recvd_seqs link_type in
      let received : LossData = record l_data {
        recvd_seqs = store l_data.recvd_seqs link_type seq_no;
      } in
      if seq_no == 0xFFFF || link_type == intrusion_tol_link
      then some l_data
      else if head == pack_max_seq + 1
      then some received
      else if is_reordered head seq_no
      then some l_data
      else elim (count_gap fuel ((head + 1) % pack_max_seq) seq_no l_data.loss_rate) [
        | none ↦ none
        | some rate ↦ some (record received { loss_rate = env.decay rate })
      ]

  -- `Set_Loss_SeqNo`: the number of the next packet.
  unfoldable pub set_loss_seq_no : ℕ → LossData → ℕ × LossData
  set_loss_seq_no link_type l_data =
      let next = l_data.my_seqs link_type + 1 in
      let seq_no = if leb pack_max_seq next then 0 else next in
      (seq_no, record l_data { my_seqs = store l_data.my_seqs link_type seq_no })
