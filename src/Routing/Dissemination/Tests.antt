-- ===== src/Routing/Dissemination/Tests.antt =====
-- A run of the source-based dissemination of daemon/route.c.
use spines.Prelude.{◌≡◌, refl, true, none, some, [], ◌∷◌}
use spines.Prelude.Maps.{empty, put}
use spines.MultiPath.Mask.{neighbor_on_path, words, collect}
use spines.Routing.Dissemination.{
  History, Packet, Env, source_based_disseminate, receive, targets, stamp_path, is_duplicate,
  is_very_old, record_seq,
}
use spines.Routing.Dissemination.Once.{forwarded_once}

-- The neighbors 20, 30 and 40; the mask leaves out 40, and 20 is the source.
abbrev env : Env
env = record {
  my_address = 10;
  my_id = 1;
  lookup_addr_to_id = put (put empty 10 1) 20 2;
  neighbors = (20, 1 ∷ []) ∷ (30, 2 ∷ []) ∷ (40, 4 ∷ []) ∷ [];
  is_known = λ a. true;
  path_stamp_debug = true;
}

abbrev packet : Packet
packet = record {
  source = 20;
  dest = 50;
  source_seq = 7;
  source_incarnation = 3;
  mask = 3 ∷ [];
  path = 2 ∷ 0 ∷ 0 ∷ 0 ∷ 0 ∷ 0 ∷ 0 ∷ 0 ∷ [];
}

abbrev newer : Packet
newer = record packet { source_seq = 100007 }

abbrev nothing_seen : History
nothing_seen src i = record { seq = 0; incarnation = 0 }

abbrev stamped : Packet
stamped = record packet { path = 2 ∷ 1 ∷ 0 ∷ 0 ∷ 0 ∷ 0 ∷ 0 ∷ 0 ∷ [] }

forwards :
    source_based_disseminate env nothing_seen (some 20) packet
    ≡ (some (stamped, 30 ∷ []), record_seq nothing_seen 2 packet)
unfolding source_based_disseminate targets stamp_path is_duplicate is_very_old neighbor_on_path
    words collect
forwards = refl

forwarded_once_example :
    source_based_disseminate env
      (receive env ((some 40, newer) ∷ []) (record_seq nothing_seen 2 packet))
      (some 30)
      packet
    ≡ (none, receive env ((some 40, newer) ∷ []) (record_seq nothing_seen 2 packet))
forwarded_once_example =
    forwarded_once env nothing_seen (record_seq nothing_seen 2 packet) (some 20) packet
      (stamped, 30 ∷ []) forwards ((some 40, newer) ∷ []) (some 30)
