-- ===== src/SequenceRing/Wrap.antt =====
-- Ring indices and sequences in the forms that linear arithmetic reads.
use native.Mathlib.Nat.{mod-eq_of_lt, mod-eq-sub-mod}
use skylink.Base.{ℕ, ◌+◌, ◌-◌, ◌<◌, ◌≤◌, ◌≡◌, arith, if◌then◌else◌, ltb, leb}
use skylink.Base.Int.{ℤ, pos, ◌-ℤ◌, emod}
use skylink.Utilities.Modulo.{positive_modulo-residue}
use skylink.SequenceRing.{ring_wrap}

-- `ring_wrap` is the residue.
pub ring_wrap-emod : (x : ℤ) (n : ℕ) → 0 < n → ring_wrap x n ≡ emod x n
unfolding ring_wrap
ring_wrap-emod x n h = ground (arith, positive_modulo-residue x n h)

-- At most once round.
pub ring_wrap_pos :
    (a n : ℕ) → 0 < n → a < n + n → ring_wrap (pos a) n ≡ (if ltb a n then a else a - n)
ring_wrap_pos a n h k = ground (
  arith,
  ring_wrap-emod (pos a) n h,
  mod-eq_of_lt {n = a} {m = n},
  mod-eq-sub-mod {n = a} {m = n},
  mod-eq_of_lt {n = a - n} {m = n},
)

-- The distance from one index on to another.
pub ring_wrap_sub :
    (a b n : ℕ)
    → a < n
    → b ≤ n
    → ring_wrap (pos a -ℤ pos b) n ≡ (if leb b a then a - b else a + n - b)
unfolding ◌-ℤ◌
ring_wrap_sub a b n h k = ground (
  arith,
  ring_wrap-emod (pos a -ℤ pos b) n,
  mod-eq_of_lt {n = a - b} {m = n},
  mod-eq_of_lt {n = b - a - 1} {m = n},
)
