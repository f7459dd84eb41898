-- ===== src/Reliable/Ends/Receives.antt =====
-- Sending (daemon/reliable_datagram.c) notes requests in the receiving window, and changes nothing of
-- what was received.
use spines.Prelude.{
  ℕ, ◌+◌, ◌-◌, ◌*◌, ◌%◌, ◌≡◌, refl, sym, ◌∙◌, inl, inr, Bool, true, false, ◌||◌, not, List, [], ltb,
  ◌==◌, length, arith, Bool-cases, ==_iff,
}
use spines.Prelude.Loops.{for_from_inv}
use spines.Realtime.{CellFlag, empty_cell, recvd_cell, nack_cell, sent_cell}
use spines.Reliable.{max_window, ReliableData, window_cell, Env, is_due, add_request, send_ack}
use spines.Reliable.Window.{Config, nack_env, add_nacks, add_nacks_twice}
use spines.Reliable.Window.Requests.{add_nacks_twice_lem}
use spines.Reliable.Receiving.{is_recvd}
use spines.Reliable.Receiving.Got.{got, IsClean}

-- The same numbers were received.
pub record Receives (d d' : ReliableData) : Type 0 where
  pub tail : d'.recv_tail ≡ d.recv_tail
  pub head : d'.recv_head ≡ d.recv_head
  pub flags : (j : ℕ) → is_recvd (d'.recv_window j).flag ≡ is_recvd (d.recv_window j).flag

pub Receives-refl : (d : ReliableData) → Receives d d
Receives-refl d = record { tail = refl; head = refl; flags = λ j. refl }

pub Receives-trans : (a b c : ReliableData) → Receives a b → Receives b c → Receives a c
Receives-trans a b c r r' = record {
  tail = r'.tail ∙ r.tail;
  head = r'.head ∙ r.head;
  flags = λ j. r'.flags j ∙ r.flags j;
}

pub Receives-got : (d d' : ReliableData) → Receives d d' → (i : ℕ) → got d' i ≡ got d i
Receives-got d d' r i = rw (r.tail, r.head, r.flags (i % max_window)) refl

pub Receives-IsClean : (d d' : ReliableData) → Receives d d' → IsClean d → IsClean d'
Receives-IsClean d d' r c =
    rw (r.tail, r.head)
      (record {
        ordered = c.ordered;
        fits = c.fits;
        below = c.below;
        beyond = λ i lo hi. r.flags (i % max_window) ∙ c.beyond i lo hi;
      })

or-not : (a b : Bool) → (a || not b) ≡ false → b ≡ true
or-not a b h = ground arith

due-not-recvd :
    (env : Env) (now head rtt i sent : ℕ) (flag : CellFlag)
    → is_due env now head rtt (record { flag = flag; nack_sent = sent }) i ≡ true
    → is_recvd flag ≡ false
unfolding is_due
due-not-recvd env now head rtt i sent empty_cell h = refl
due-not-recvd env now head rtt i sent recvd_cell h = cc
due-not-recvd env now head rtt i sent nack_cell h = refl
due-not-recvd env now head rtt i sent sent_cell h = refl

add_request-Receives :
    (env : Env) (now i : ℕ) (nacks : List ℕ) (d : ReliableData)
    → Receives d (add_request env now i (nacks, d)).1
unfolding add_request
add_request-Receives env now i nacks d =
    let due = is_due env now d.recv_head d.rtt (window_cell d i) i in
    elim (Bool-cases (ltb env.room (8 + length nacks * 4) || not due)) [
      | inl t ↦ rw t (Receives-refl d)
      | inr t ↦
          let open_cell =
            due-not-recvd env now d.recv_head d.rtt i (window_cell d i).nack_sent
              (window_cell d i).flag (or-not (ltb env.room (8 + length nacks * 4)) due t) in
          rw t (record {
            tail = refl;
            head = refl;
            flags = λ j. elim (Bool-cases (i % max_window == j)) [
              | inl e ↦ let e' = (==_iff (i % max_window) j).0 e in rw e (rw (← e') (sym open_cell))
              | inr e ↦ rw e refl
            ];
          })
    ]

-- The requests behind a packet.
pub add_nacks-Receives :
    (cfg : Config) (now len : ℕ) (d : ReliableData) → Receives d (add_nacks cfg now len d).1
unfolding add_nacks
add_nacks-Receives cfg now len d =
    for_from_inv (λ i (nacks, e). Receives d e) (add_request (nack_env cfg len) now)
      (d.recv_tail + (d.recv_head - d.recv_tail))
      (λ i (nacks, e) lt r.
        Receives-trans d e (add_request (nack_env cfg len) now i (nacks, e)).1 r
          (add_request-Receives (nack_env cfg len) now i nacks e))
      (d.recv_head - d.recv_tail) d.recv_tail ([], d) refl (Receives-refl d)

pub add_nacks_twice-Receives :
    (cfg : Config) (now len : ℕ) (d : ReliableData) → Receives d (add_nacks_twice cfg now len d).1
add_nacks_twice-Receives cfg now len d =
    rw (add_nacks_twice_lem cfg now len d) (add_nacks-Receives cfg now len d)

-- An acknowledgement alone.
pub send_ack-Receives :
    (env : Env) (now : ℕ) (d : ReliableData)
    → ((send_ack env now d).0 ≡ d.recv_tail) × Receives d (send_ack env now d).1.1
unfolding send_ack
send_ack-Receives env now d = (
  refl,
  for_from_inv (λ i (nacks, e). Receives d e) (add_request env now)
      (d.recv_tail + (d.recv_head - d.recv_tail))
      (λ i (nacks, e) lt r.
        Receives-trans d e (add_request env now i (nacks, e)).1 r
          (add_request-Receives env now i nacks e))
      (d.recv_head - d.recv_tail) d.recv_tail ([], record d { scheduled_ack = false }) refl
      (record { tail = refl; head = refl; flags = λ j. refl }),
)
