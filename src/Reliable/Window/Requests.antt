-- ===== src/Reliable/Window/Requests.antt =====
-- The requests behind a packet: the two forms of the loop ask for the same.
use spines.Prelude.{ℕ, zero, suc, ◌-◌, ◌≡◌, refl, List, [], arith}
use spines.Prelude.Loops.{for_from}
use spines.Reliable.{ReliableData, is_due, add_request}
use spines.Reliable.Window.{Config, nack_env, add_request_twice, add_nacks, add_nacks_twice}

module _ (cfg : Config) (now data_len : ℕ) where
  add_request_twice_lem :
      (i : ℕ) (p : List ℕ × ReliableData)
      → add_request_twice cfg now data_len i p ≡ add_request (nack_env cfg data_len) now i p
  unfolding add_request_twice add_request is_due
  add_request_twice_lem i (nacks, d) = ground arith

  for_from-twice :
      (rounds first : ℕ) (p : List ℕ × ReliableData)
      → for_from rounds first (add_request_twice cfg now data_len) p
        ≡ for_from rounds first (add_request (nack_env cfg data_len) now) p
  unfolding for_from
  for_from-twice zero first p = refl
  for_from-twice (suc n) first p =
      rw (add_request_twice_lem first p)
        (for_from-twice n (suc first) (add_request (nack_env cfg data_len) now first p))

  -- The requests that `Send_Much` and `Send_Nack_Retransm` add to a packet, by two tests in a row, are
  -- those that `Reliable_Send_Msg` and `Reliable_timeout` add by one or the other.
  pub add_nacks_twice_lem :
      (d : ReliableData) → add_nacks_twice cfg now data_len d ≡ add_nacks cfg now data_len d
  unfolding add_nacks_twice add_nacks
  add_nacks_twice_lem d = for_from-twice (d.recv_head - d.recv_tail) d.recv_tail ([], d)
