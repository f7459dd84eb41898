-- ===== src/Links/Loss/Laws.antt =====
-- What `Check_Link_Loss` and its companions (daemon/link.c) make of sequence numbers.
use spines.Prelude.{
  ℕ, zero, suc, ◌+◌, ◌-◌, ◌%◌, ◌≤◌, ◌<◌, ◌≡◌, ◌≢◌, refl, true, false, none, some, arith,
}
use spines.Prelude.Int.{pos_part, neg_part}
use spines.Realtime.{store}
use spines.Links.Loss.{
  pack_max_seq, relative_position, intrusion_tol_link, LossEnv, LossData, count_gap, is_reordered,
  check_link_loss, set_loss_seq_no,
}

-- Of two sequence numbers, the relative position is the one offset from -15000 up to 14999 that
-- leads round the circle from the first to the second.
pub relative_position_lem :
    (base seq : ℕ)
    → base < pack_max_seq
    → seq < pack_max_seq
    → let d = relative_position base seq in
      (pos_part d < 15000)
      × (neg_part d ≤ 15000)
      × ((base + pos_part d) % pack_max_seq ≡ (seq + neg_part d) % pack_max_seq)
unfolding relative_position
relative_position_lem base seq p q = ground arith

-- `times` applications.
abbrev pub iterate {ℓ} : {A : Type ℓ} → ℕ → (A → A) → A → A
iterate zero f x = x
iterate (suc times) f x = iterate times f (f x)

-- What is told as reordered: what is not ahead on the circle by 1 to 15000.
is_reordered-ahead :
    (head ahead : ℕ)
    → head < pack_max_seq
    → 0 < ahead
    → ahead ≤ 15000
    → is_reordered head ((head + ahead) % pack_max_seq) ≡ false
unfolding is_reordered
is_reordered-ahead head ahead p q r = ground arith

is_reordered-behind :
    (head behind : ℕ)
    → head < pack_max_seq
    → behind < 15000
    → is_reordered head ((head + pack_max_seq - behind) % pack_max_seq) ≡ true
unfolding is_reordered
is_reordered-behind head behind p q = ground arith

module _ (env : LossEnv) where
  count_gap-iterate :
      (fuel i lost : ℕ) (rate : env.Rate)
      → i < pack_max_seq
      → lost < pack_max_seq
      → lost < fuel
      → count_gap env fuel i ((i + lost) % pack_max_seq) rate
        ≡ some (iterate lost env.decay_lost rate)
  unfolding count_gap
  count_gap-iterate zero i lost rate p q r = absurd (omega arith)
  count_gap-iterate (suc fuel) i zero rate p q r = ground arith
  count_gap-iterate (suc fuel) i (suc lost) rate p q r =
      let next = (i + 1) % pack_max_seq in
      let same : (next + lost) % pack_max_seq ≡ (i + suc lost) % pack_max_seq = omega arith in
      ground (
        arith,
        same,
        count_gap-iterate fuel next lost (env.decay_lost rate) (omega arith) (omega arith)
            (omega arith),
      )

  -- A number that is not on the circle is never reached.
  count_gap-none :
      (fuel i seq_no : ℕ) (rate : env.Rate)
      → i < pack_max_seq
      → pack_max_seq ≤ seq_no
      → count_gap env fuel i seq_no rate ≡ none
  unfolding count_gap
  count_gap-none zero i seq_no rate p q = refl
  count_gap-none (suc fuel) i seq_no rate p q = ground (
    arith,
    count_gap-none fuel ((i + 1) % pack_max_seq) seq_no (env.decay_lost rate) (omega arith) q,
  )

  module _ (link_type : ℕ) (l : LossData env) (fuel : ℕ) where
    abbrev pub last_seq : ℕ
    last_seq = l.recvd_seqs link_type

    abbrev pub received : ℕ → env.Rate → LossData env
    received seq_no rate = record l {
      loss_rate = rate;
      recvd_seqs = store l.recvd_seqs link_type seq_no;
    }

    -- On a link that takes part, and with the last number on the circle: a packet that is ahead of
    -- it by one more than `lost`, at most 15000, counts that many losses and then a packet received,
    -- and becomes the last; the loop needs no more rounds than that. A packet that is the last one
    -- or behind it by less than 15000 changes nothing.
    pub check_link_loss_lem :
        link_type ≢ intrusion_tol_link
        → last_seq < pack_max_seq
        → ((lost : ℕ)
            → lost < 15000
            → lost < fuel
            → check_link_loss env fuel ((last_seq + (lost + 1)) % pack_max_seq) link_type l
              ≡ some (
                  received
                    ((last_seq + (lost + 1)) % pack_max_seq)
                    (env.decay (iterate lost env.decay_lost l.loss_rate))))
          × ((behind : ℕ)
              → behind < 15000
              → check_link_loss env fuel
                  ((last_seq + pack_max_seq - behind) % pack_max_seq)
                  link_type
                  l
                ≡ some l)
    unfolding check_link_loss
    check_link_loss_lem other p = (
      λ lost q r.
          let seq_no = (last_seq + (lost + 1)) % pack_max_seq in
          let first = (last_seq + 1) % pack_max_seq in
          let same : (first + lost) % pack_max_seq ≡ seq_no = omega arith in
          ground (
            arith,
            same,
            is_reordered-ahead last_seq (lost + 1) p (omega arith) (omega arith),
            count_gap-iterate fuel first lost l.loss_rate (omega arith) (omega arith) r,
          ),
      λ behind q. ground (arith, is_reordered-behind last_seq behind p q),
    )

    -- The loop over the missing numbers never ends, however many rounds it gets, for a packet on a
    -- link that takes part whose number is not below 30000, is not the one of hello pings, and is not
    -- found to be reordered.
    pub check_link_loss-none :
        (seq_no : ℕ)
        → link_type ≢ intrusion_tol_link
        → last_seq < pack_max_seq
        → pack_max_seq ≤ seq_no
        → seq_no ≢ 0xFFFF
        → is_reordered last_seq seq_no ≡ false
        → check_link_loss env fuel seq_no link_type l ≡ none
    unfolding check_link_loss
    check_link_loss-none seq_no other p q ne ahead = ground (
      arith,
      count_gap-none fuel ((last_seq + 1) % pack_max_seq) seq_no l.loss_rate (omega arith) q,
    )

-- Two ends that agree on the last number agree again after the next packet, which counts no loss:
-- where the number is on the circle, the link takes part, and the loop gets a round.
pub set_loss_seq_no-check_link_loss :
    (env : LossEnv) (link_type fuel : ℕ) (sender receiver : LossData env)
    → link_type ≢ intrusion_tol_link
    → sender.my_seqs link_type < pack_max_seq
    → receiver.recvd_seqs link_type ≡ sender.my_seqs link_type
    → let (seq_no, sender') = set_loss_seq_no env link_type sender in
      (receiver' : LossData env) × (check_link_loss env (suc fuel) seq_no link_type receiver
        ≡ some receiver')
      × (receiver'.loss_rate ≡ env.decay receiver.loss_rate)
      × (receiver'.recvd_seqs link_type ≡ sender'.my_seqs link_type)
      × (sender'.my_seqs link_type < pack_max_seq)
unfolding set_loss_seq_no
set_loss_seq_no-check_link_loss env link_type fuel sender receiver other p same =
    let last_seq = receiver.recvd_seqs link_type in
    let step =
      (check_link_loss_lem env link_type receiver (suc fuel) other (omega arith)).0 0 (omega arith)
        (omega arith) in
    let next = (last_seq + 1) % pack_max_seq in
    (
      record receiver {
        loss_rate = env.decay receiver.loss_rate;
        recvd_seqs = store receiver.recvd_seqs link_type next;
      },
      ground (arith, step),
      refl,
      ground arith,
      ground arith,
    )
