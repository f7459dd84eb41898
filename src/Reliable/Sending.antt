-- ===== src/Reliable/Sending.antt =====
-- `Reliable_Send_Msg` and `Send_Much` of daemon/reliable_datagram.c.
pub mod Kept
pub mod Rounds
use Prim.Native.Nat.{bit_and, bit_or, bit_xor}
use spines.Prelude.{
  ℕ, ◌+◌, ◌-◌, ◌*◌, ◌/◌, ◌%◌, ◌^◌, Bool, true, false, ◌&&◌, ◌||◌, not, Option, none, some, List, [],
  ◌∷◌, ◌++◌, ltb, leb, ◌==◌, if◌then◌else◌, length,
}
use spines.Prelude.Options.{◌>>=◌}
use spines.Realtime.{store}
use spines.Reliable.{max_window, ReliableData}
use spines.Reliable.Window.{
  Floats, Config, BufferCell, RelData, Packet, Action, link_send, queue_timeout, dequeue_timeout,
  dequeue_ack, block_all_sessions, resume_all_sessions, max_buff_link, is_nil, has_room, add_nacks,
  add_nacks_twice,
}
use spines.Reliable.Timer.{timeout_val}

-- The explicit congestion mark for a buffer of that many messages.
unfoldable pub ecn_mark : ℕ → ℕ → ℕ
ecn_mark buff_size pack_type =
    let mark = bit_and pack_type 0x300 in
    if ltb (max_buff_link / 4) buff_size && leb buff_size (max_buff_link / 2)
    then (if mark == 0 then bit_or pack_type 0x100 else pack_type)
    else if ltb (max_buff_link / 2) buff_size && leb buff_size max_buff_link
    then (if ltb mark 0x200
        then bit_or (if mark == 0x100 then bit_xor pack_type 0x100 else pack_type) 0x200
        else pack_type)
    else if ltb max_buff_link buff_size
    then bit_or pack_type 0x300
    else pack_type

-- The packet of a cell with the acknowledgement and the requests that go with it.
abbrev pub packet_of : BufferCell → ReliableData → List ℕ → Packet
packet_of c d nacks = record {
  buff = c.buff;
  data_len = c.data_len;
  pack_type = c.pack_type;
  seq_no = c.seq_no;
  cummulative_ack = d.recv_tail;
  nacks = nacks;
}

module _ {F : Type 0} where
  -- A cell goes into the window at its sequence number and becomes the highest sent.
  abbrev pub place : BufferCell → RelData F → RelData F
  place c s = record s {
    window = store s.window (c.seq_no % max_window) c;
    head = (c.seq_no + 1) % 2 ^ 32;
  }

  -- An acknowledgement that is queued is cancelled, as the packets carry it.
  abbrev pub cancel_ack : RelData F → RelData F
  cancel_ack s = record s { recv = record (s.recv) { scheduled_ack = false } }

  abbrev pub ack_actions : RelData F → List Action
  ack_actions s = if s.recv.scheduled_ack then dequeue_ack ∷ [] else []

module _ (fl : Floats) (cfg : Config) (now : ℕ) where
  open fl use {Float}

  -- The timeout is queued anew.
  abbrev pub timeout_actions : RelData Float → List Action
  timeout_actions s =
      (if s.scheduled_timeout then dequeue_timeout ∷ [] else [])
      ++ (queue_timeout (timeout_val cfg.wireless s.recv.rtt s.timeout_multiply) ∷ [])

  -- One round of the loop of `Send_Much`, after its tests.
  unfoldable pub send_buffered : ℕ → BufferCell → RelData Float → RelData Float × Action
  unfolding ecn_mark
  send_buffered buff_size c s =
      let c' : BufferCell = record c {
        pack_type = ecn_mark buff_size c.pack_type;
        timestamp = now;
        resent = false;
      } in
      let (nacks, d) = add_nacks_twice cfg now c.data_len s.recv in
      (record (place c' s) { recv = d }, link_send (packet_of c' d nacks))

  -- The loop of `Send_Much`: none where the daemon exits.
  unfoldable pub send_while_room :
      ℕ → List BufferCell → RelData Float → Option (RelData Float × List Action)
  unfolding send_buffered has_room
  send_while_room buff_size [] s = some (record s { msg_buff = [] }, [])
  send_while_room buff_size (c ∷ cs) s =
      let (s', sent) = send_buffered buff_size c s in
      let rest = send_while_room buff_size cs s' in
      if has_room fl s
      then (if ltb c.seq_no s.head then none else (rest >>= λ (s'', out). some (s'', sent ∷ out)))
      else some (record s { msg_buff = c ∷ cs }, [])

  -- The sessions that were blocked for this link go on once its buffer is short.
  abbrev pub may_resume : RelData Float → Bool
  may_resume s = elim (s.blocked_on) [
    | none ↦ false
    | some link ↦ link == cfg.linkid && ltb (length s.msg_buff) (max_buff_link / 4)
  ]

  abbrev pub resume : RelData Float → RelData Float × List Action
  resume s = (
    record s { blocked_on = if may_resume s then none else s.blocked_on },
    if may_resume s then resume_all_sessions ∷ [] else [],
  )

  unfoldable pub send_much : RelData Float → Option (RelData Float × List Action)
  unfolding send_while_room
  send_much s =
      if not s.connected || not (has_room fl s) || is_nil s.msg_buff
      then some (s, [])
      else send_while_room (length s.msg_buff) s.msg_buff (cancel_ack s) >>= λ (s', out).
          let (s'', resumed) = resume s' in
          some (
            record s'' { scheduled_timeout = true },
            ack_actions s ++ (out ++ (resumed ++ timeout_actions s'')),
          )

  -- Too many messages wait, and the sessions are not blocked for some link already.
  abbrev pub must_block : RelData Float → Bool
  must_block s =
      ltb max_buff_link (length s.msg_buff)
      && elim (s.blocked_on) [ none ↦ true | some link ↦ false ]

  abbrev pub block : RelData Float → RelData Float × List Action
  block s = (
    record s { blocked_on = if must_block s then some cfg.linkid else s.blocked_on },
    if must_block s then block_all_sessions ∷ [] else [],
  )

  -- The message waits in the buffer in front of the link.
  unfoldable pub buffer : BufferCell → RelData Float → RelData Float × List Action
  buffer c s = block (record s { msg_buff = s.msg_buff ++ (c ∷ []) })

  -- The message goes out.
  unfoldable pub send_now : BufferCell → RelData Float → RelData Float × List Action
  send_now c s =
      let s' = cancel_ack (place c s) in
      let (nacks, d) = add_nacks cfg now c.data_len s'.recv in
      (
        record s' { recv = d; scheduled_timeout = true },
        ack_actions s
            ++ ((if cfg.network_flag then link_send (packet_of c d nacks) ∷ [] else [])
                ++ timeout_actions (record s' { recv = d })),
      )

  unfoldable pub new_cell : ℕ → ℕ → ℕ → ℕ → BufferCell
  new_cell seq_no buff buff_len pack_type = record {
    seq_no = seq_no;
    buff = some buff;
    pack_type = pack_type;
    data_len = buff_len;
    timestamp = now;
    resent = false;
  }

  -- The part after the attempt to send what waits in front.
  unfoldable pub send_or_buffer : BufferCell → RelData Float → Option (RelData Float × List Action)
  unfolding buffer send_now
  send_or_buffer c s =
      if not (has_room fl s) || not (is_nil s.msg_buff) || not s.connected
      then some (buffer c s)
      else if ltb c.seq_no s.head
      then none
      else some (send_now c s)

  unfoldable pub reliable_send_msg :
      ℕ → ℕ → ℕ → RelData Float → Option (RelData Float × List Action)
  unfolding send_much send_or_buffer new_cell
  reliable_send_msg buff buff_len pack_type s =
      let c = new_cell s.seq_no buff buff_len pack_type in
      let s1 : RelData Float = record s { seq_no = (s.seq_no + 1) % 2 ^ 32 } in
      (if s1.connected then send_much s1 else some (s1, [])) >>= λ (s2, out).
      send_or_buffer c s2 >>= λ (s3, out'). some (s3, out ++ out')
