-- ===== src/Reliable/Datagrams.antt =====
-- Packets with data on a reliable link: `Process_rel_udp_data_packet` and `Forward_Rel_UDP_Data` of
-- daemon/reliable_udp.c.
pub mod Once
use spines.Prelude.{
  ℕ, Bool, true, false, ◌||◌, not, Option, none, some, List, [], ◌∷◌, ltb, ◌==◌, if◌then◌else◌,
}
use spines.Prelude.Options.{◌>>=◌}
use spines.Reliable.Window.{Floats, Config, RelData, Packet, Action}
use spines.Reliable.Receiving.{AckResult, fresh, known, only_ack, process_ack}
use spines.Reliable.Sending.{reliable_send_msg}

-- What arrives: `scat->num_elements`, the length of the second element, and the packet, as the type
-- says with data or as an acknowledgement only.
pub record Datagram : Type 0 where
  pub num_elements : ℕ
  pub len : ℕ
  pub is_ack : Bool
  pub packet : Packet

-- zero_timeout and short_timeout
pub data AckTime : Type 0 where
  at_once soon : AckTime

-- Whether the packet is delivered and forwarded, and when `Send_Ack` is queued.
pub record Outcome (S : Type 0) : Type 0 where
  pub delivered : Bool
  pub ack : Option AckTime
  pub state : S
  pub actions : List Action

-- Where `next_hop` leads: the local node, no reliable link, or a link.
pub data NextHop : Type 0 where
  this_node no_link best_link : NextHop

-- BUFF_EMPTY, BUFF_DROP and BUFF_OK
pub data Status : Type 0 where
  buff_empty buff_drop buff_ok : Status

abbrev pub is_fresh : AckResult → Bool
is_fresh fresh = true
is_fresh known = false
is_fresh only_ack = false

module _ (fl : Floats) (cfg : Config) where
  open fl use {Float}

  abbrev pub ignored : RelData Float → Outcome (RelData Float)
  ignored s = record { delivered = false; ack = none; state = s; actions = [] }

  -- An acknowledgement waits for a second packet, but not for long.
  unfoldable pub schedule_ack : AckResult → RelData Float → List Action → Outcome (RelData Float)
  schedule_ack only_ack s out = record { delivered = false; ack = none; state = s; actions = out }
  schedule_ack r s out = record {
    delivered = is_fresh r;
    ack = some (if s.recv.scheduled_ack then at_once else soon);
    state = record s { recv = record (s.recv) { scheduled_ack = true } };
    actions = out;
  }

  -- `header_size` is `sizeof(udp_header)`.
  unfoldable pub process_rel_udp_data_packet :
      ℕ → ℕ → Datagram → RelData Float → Option (Outcome (RelData Float))
  unfolding process_ack schedule_ack
  process_rel_udp_data_packet header_size now g s =
      if not (g.num_elements == 2) || (ltb g.len header_size || not s.connected)
      then some (ignored s)
      else process_ack fl cfg now g.is_ack g.packet s >>= λ (r, s', out).
          some (schedule_ack r s' out)

  -- `data_type` is that of the message, with the bits of its class; the daemon exits where it is
  -- set already. A message for the local node is processed as one that is not reliable.
  unfoldable pub forward_rel_udp_data :
      NextHop → ℕ → ℕ → ℕ → Bool → ℕ → RelData Float → Option (Status × RelData Float × List Action)
  unfolding reliable_send_msg
  forward_rel_udp_data hop now buff len is_typed data_type s = if is_typed then none else elim hop [
    | this_node ↦ some (buff_empty, s, [])
    | no_link ↦ some (buff_drop, s, [])
    | best_link ↦
        (reliable_send_msg fl cfg now buff len data_type s >>= λ (s', out). some (buff_ok, s', out))
  ]
