-- ===== src/Links/Tests.antt =====
-- Runs of the loss estimation of daemon/link.c.
use spines.Prelude.{ℕ, ◌+◌, ◌<◌, ◌≡◌, refl, false, none, some, arith}
use spines.Prelude.Int.{pos, negsuc}
use spines.Links.Loss.{
  pack_max_seq, relative_position, LossEnv, LossData, is_reordered, check_link_loss,
  set_loss_seq_no,
}
use spines.Links.Loss.Laws.{check_link_loss-none, set_loss_seq_no-check_link_loss}

positions :
    (relative_position 29999 1 ≡ pos 2)
    × (relative_position 1 29999 ≡ negsuc 1)
    × (relative_position 0 15000 ≡ negsuc 14999)
unfolding relative_position
positions = (refl, refl, refl)

-- A rate that counts the losses.
abbrev env : LossEnv
env = record { Rate = ℕ; decay = λ r. r; decay_lost = λ r. r + 1 }

abbrev at_end : LossData env
at_end = record { loss_rate = 0; recvd_seqs = λ t. 29999; my_seqs = λ t. 29999 }

abbrev midway : LossData env
midway = record at_end { recvd_seqs = λ t. 20000 }

ahead : is_reordered 20000 30000 ≡ false
unfolding is_reordered
ahead = refl

check_link_loss-none_example : check_link_loss env 100 30000 3 midway ≡ none
check_link_loss-none_example =
    check_link_loss-none env 3 midway 100 30000 (omega arith) (omega arith) (omega arith)
      (omega arith) ahead

set_loss_seq_no-check_link_loss_example :
    let (seq_no, sender') = set_loss_seq_no env 3 at_end in
    (receiver' : LossData env) × (check_link_loss env 1 seq_no 3 at_end ≡ some receiver')
    × (receiver'.loss_rate ≡ 0)
    × (receiver'.recvd_seqs 3 ≡ sender'.my_seqs 3)
    × (sender'.my_seqs 3 < pack_max_seq)
set_loss_seq_no-check_link_loss_example =
    set_loss_seq_no-check_link_loss env 3 0 at_end at_end (omega arith) (omega arith) refl
