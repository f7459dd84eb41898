-- ===== src/Reliable/Timer.antt =====
-- The retransmission timeout of daemon/reliable_datagram.c, in seconds and microseconds.
pub mod Bounds
use spines.Prelude.{
  ℕ, ◌+◌, ◌*◌, ◌/◌, ◌%◌, ◌≤◌, ◌<◌, ◌≡◌, ◌≢◌, Bool, true, false, ◌&&◌, Option, none, some, ltb, ◌==◌,
  if◌then◌else◌, arith,
}

-- The delay of a wireless link, where it is shorter than 30 milliseconds.
unfoldable pub wireless_delay : Option ℕ → ℕ × ℕ → ℕ × ℕ
wireless_delay none t = t
wireless_delay (some delay) (sec, usec) =
    if sec == 0 && ltb usec 30000 then (sec, delay) else (sec, usec)

-- At least two milliseconds; a second where the round trip time is not known.
unfoldable pub base_timeout : ℕ → ℕ × ℕ
base_timeout rtt =
    let sec = rtt * 2 / 1000000 in
    let usec = rtt * 2 % 1000000 in
    if sec == 0 && usec == 0
    then (1, usec)
    else if sec == 0 && ltb usec 2000
    then (sec, 2000)
    else (sec, usec)

-- The same two tests in the order of `Process_Ack`.
unfoldable pub base_timeout_ack : ℕ → ℕ × ℕ
base_timeout_ack rtt =
    let sec = rtt * 2 / 1000000 in
    let usec = rtt * 2 % 1000000 in
    if sec == 0 && ltb usec 2000
    then (sec, 2000)
    else if sec == 0 && usec == 0
    then (1, usec)
    else (sec, usec)

-- The multiplier of the backoff, and DEAD_LINK_CNT - 1 seconds at most.
unfoldable pub scale : ℕ → ℕ × ℕ → ℕ × ℕ
scale multiply (sec, usec) =
    let sec' = sec * multiply + usec * multiply / 1000000 in
    (if ltb 9 sec' then 9 else sec', usec * multiply % 1000000)

unfoldable pub timeout_val : Option ℕ → ℕ → ℕ → ℕ × ℕ
unfolding wireless_delay base_timeout scale
timeout_val wireless rtt multiply = scale multiply (wireless_delay wireless (base_timeout rtt))

unfoldable pub timeout_val_ack : Option ℕ → ℕ → ℕ → ℕ × ℕ
unfolding wireless_delay base_timeout_ack scale
timeout_val_ack wireless rtt multiply =
    scale multiply (wireless_delay wireless (base_timeout_ack rtt))
