-- ===== src/Realtime/Send.antt =====
-- The sending side of a realtime link: the history of the packets that were sent, and their
-- retransmission, of daemon/realtime_udp.c.
pub mod Laws
pub mod Retransm
use spines.Prelude.{
  ℕ, zero, suc, ◌+◌, ◌-◌, ◌%◌, ◌^◌, Bool, true, false, ◌&&◌, not, Option, none, some, List, [], ◌∷◌,
  ltb, leb, ◌==◌, if◌then◌else◌,
}
use spines.Realtime.{RtData, HistoryCell, max_history, max_bucket, rt_retransm_tok, store, is_old}

-- `window[i % MAX_HISTORY]`
abbrev pub sent_cell_of : RtData → ℕ → HistoryCell
sent_cell_of d i = d.window (i % max_history)

-- The oldest packet is let go.
unfoldable pub drop_oldest : RtData → RtData
drop_oldest d = record d {
  window = store d.window (d.tail % max_history) (record (sent_cell_of d d.tail) { buff = none });
  tail = d.tail + 1;
}

-- The loop that cleans the history of old packets, for a number of rounds.
unfoldable pub clean_rounds : ℕ → ℕ → RtData → RtData
clean_rounds now zero d = d
clean_rounds now (suc rounds) d =
    let rest = clean_rounds now rounds (drop_oldest d) in
    if ltb d.tail d.head && is_old now (sent_cell_of d d.tail).timestamp then rest else d

-- `Clean_RT_history`: a round for each packet in the history is enough.
unfoldable pub clean_rt_history : ℕ → RtData → RtData
clean_rt_history now d = clean_rounds now (d.head - d.tail) d

-- The last packet is dropped if there is no more room.
unfoldable pub make_space : RtData → RtData
make_space d = if leb max_history (d.head - d.tail) then drop_oldest d else d

-- The packet is saved with its length, and one more token goes into the bucket.
unfoldable pub save : ℕ → ℕ → ℕ → RtData → RtData
save now buff len d = record d {
  window =
      store d.window (d.head % max_history)
        (record { buff = some buff; len = len; timestamp = now });
  head = (d.head + 1) % 2 ^ 64;
  bucket = if ltb d.bucket max_bucket then d.bucket + 1 else d.bucket;
}

-- Where `next_hop` leads: the local node, no realtime link, or a link.
pub data NextHop : Type 0 where
  this_node no_link best_link : NextHop

-- BUFF_DROP and BUFF_EMPTY
pub data Status : Type 0 where
  buff_drop buff_empty : Status

-- `network_flag`, and whether `Link_Send` succeeds for a packet, by the number that it carries.
pub record Env : Type 0 where
  pub network_flag : Bool
  pub link_send : ℕ → Bool

-- The fields of a message: the buffer of its data with its length, and the size of the
-- dissemination header, which it has as a third element or not.
pub record Message : Type 0 where
  pub buff : ℕ
  pub len : ℕ
  pub dissemination : Option ℕ

-- The length that is saved, with `sizeof(rt_seq_type)`.
abbrev pub saved_len : Message → ℕ
saved_len m = m.len + 8 + elim m.dissemination [ none ↦ 0 | some dh_size ↦ dh_size ]

unfoldable pub forward_rt_udp_data : Env → NextHop → ℕ → Message → RtData → Status × RtData
forward_rt_udp_data env this_node now m d = (buff_empty, d)
forward_rt_udp_data env no_link now m d = (buff_drop, d)
forward_rt_udp_data env best_link now m d =
    let d' = make_space (clean_rt_history now d) in
    (
      if env.network_flag && not (env.link_send d'.head) then buff_drop else buff_empty,
      save now m.buff (saved_len m) d',
    )

-- `Send_RT_Nack`: the numbers that it requests.
unfoldable pub send_rt_nack : RtData → List ℕ × RtData
send_rt_nack d = (d.nacks, record d { nacks = [] })

-- `Process_RT_nack_packet`, with the number of elements of the message: the numbers in the packet
-- replace those that wait for retransmission.
unfoldable pub process_rt_nack_packet : ℕ → List ℕ → RtData → RtData
process_rt_nack_packet num_elements requested d =
    if num_elements == 2 then record d { retransm = some requested } else d

module _ (env : Env) where
  -- The loop of `Send_RT_Retransm` over the requested numbers: the packets that it gives to
  -- `Link_Send`, by number and cell.
  unfoldable pub resend : List ℕ → RtData → List (ℕ × HistoryCell) × RtData
  resend [] d = ([], d)
  resend (seq_no ∷ rest) d =
      let wanted = ltb seq_no d.head && leb d.tail seq_no in
      let d' = if wanted then record d { bucket = d.bucket - rt_retransm_tok } else d in
      let later = resend rest d' in
      let packet : ℕ × HistoryCell = (seq_no, sent_cell_of d seq_no) in
      if wanted && ltb d.bucket rt_retransm_tok
      then ([], d)
      else if wanted && env.network_flag
      then if env.link_send seq_no then (packet ∷ later.0, later.1) else (packet ∷ [], d')
      else later

  unfoldable pub send_rt_retransm : ℕ → RtData → List (ℕ × HistoryCell) × RtData
  send_rt_retransm now d = elim d.retransm [
    | none ↦ ([], d)
    | some requested ↦
        let (sent, d') = resend requested (clean_rt_history now d) in
        (sent, record d' { retransm = none })
  ]
