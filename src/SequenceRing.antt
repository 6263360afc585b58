-- ===== src/SequenceRing.antt =====
-- src/sequence_ring.c: the two rings that order payloads by their 8-bit ARQ sequence.
-- This module has what they share; each ring is a child. `int` indices of a ring are numbers: each
-- of them is 0 or a result of `ring_wrap`. Ring memory is indexed by slot, total as C's memory is.
pub mod Wrap
pub mod RcvRing
pub mod SendRing
use skylink.Base.{ℕ, ◌+◌, ◌-◌, ◌%◌, Bool, not, ◌==◌}
use skylink.Base.Int.{ℤ, pos, pos_part}
use skylink.Utilities.{positive_modulo}
use skylink.ElementBuffer.{eb_null_idx}

-- `ARQ_RESEND_SCHEDULE_DEPTH`, `ARQ_MAXIMUM_HORIZON`
abbrev pub arq_resend_schedule_depth : ℕ
arq_resend_schedule_depth = 16

abbrev pub arq_maximum_horizon : ℕ
arq_maximum_horizon = 64

pub record RingItem : Type 0 where
  pub idx : ℕ
  pub sequence : ℕ

abbrev pub empty_item : RingItem
empty_item = record { idx = eb_null_idx; sequence = 0 }

abbrev pub is_vacant : RingItem → Bool
is_vacant item = item.idx == eb_null_idx

unfoldable pub ring_wrap : ℤ → ℕ → ℕ
ring_wrap idx len = pos_part (positive_modulo idx (pos len))

-- `sky_arq_sequence_t` is `uint8_t`: the sum and the difference wrap.
abbrev pub seq_next : ℕ → ℕ
seq_next s = (s + 1) % 256

abbrev pub seq_diff : ℕ → ℕ → ℕ
seq_diff a b = (a + 256 - b) % 256
