-- ===== src/Mac/Wait.antt =====
-- Waiting for the own window of src/mac.c while the clock runs.
use skylink.Base.{ℕ, ◌+◌, ◌-◌, ◌%◌, ◌<◌, ◌≡◌, sym, ap, ◌∙◌, arith, true, false, if◌then◌else◌, ltb}
use skylink.Base.Int.{ℤ, pos, pos_part, ◌-ℤ◌, emod}
use skylink.Utilities.{wrap_time_ticks, mod_time_ticks}
use native.Mathlib.Nat.{mod-lt, mod-eq_of_lt, mod_self, mod-add-mod}
use skylink.Mac.{
  Mac, get_mac_cycle, wrap_tdd_cycle, time_to_own_window, own_window_remaining, can_send,
}
use skylink.Mac.Windows.{wrap_tdd_cycle-emod}

-- The time since the beginning of the cycle, `k` ticks later on a clock that wraps.
elapsed :
    (now t k : ℕ)
    → now < mod_time_ticks
    → t < mod_time_ticks
    → emod (pos now -ℤ pos t) mod_time_ticks + k < mod_time_ticks
    → emod (pos ((now + k) % mod_time_ticks) -ℤ pos t) mod_time_ticks
      ≡ emod (pos now -ℤ pos t) mod_time_ticks + k
unfolding ◌-ℤ◌
elapsed now t k n h e = ground arith

-- Within a cycle the place moves with the time, and at its end it is the beginning.
moved : (d k c : ℕ) → 0 < c → d % c + k < c → (d + k) % c ≡ d % c + k
moved d k c h e = sym (mod-add-mod d c k) ∙ mod-eq_of_lt e

come_round : (d k c : ℕ) → 0 < c → d % c + k ≡ c → (d + k) % c ≡ 0
come_round d k c h e = sym (mod-add-mod d c k) ∙ ap (λ n. n % c) e ∙ mod_self c

-- The time of the clock `k` ticks after `now`.
abbrev clock_after : ℕ → ℕ → ℤ
clock_after now k = pos ((now + k) % mod_time_ticks)

module _ (mac : Mac) (now t m cycle : ℕ) (at : mac.t0 ≡ pos t) (mine : mac.my_window_length ≡ pos m)
    (e : get_mac_cycle mac ≡ pos cycle) (some_window : 0 < m) (h : 0 < cycle)
    (n : now < mod_time_ticks) (u : t < mod_time_ticks) where
  abbrev since : ℕ
  since = emod (pos now -ℤ pos t) mod_time_ticks

  place_after :
      (k : ℕ)
      → since + k < mod_time_ticks
      → wrap_tdd_cycle mac (wrap_time_ticks (clock_after now k -ℤ mac.t0))
        ≡ pos ((since + k) % cycle)
  place_after k p =
      wrap_tdd_cycle-emod mac (clock_after now k) cycle e h
      ∙ ap (λ t. pos (emod (clock_after now k -ℤ t) mod_time_ticks % cycle)) at
      ∙ ap (λ n. pos (n % cycle)) (elapsed now t k n u p)

  can_send_after :
      (k : ℕ)
      → since + k < mod_time_ticks
      → can_send mac (clock_after now k) ≡ ltb ((since + k) % cycle) m
  unfolding can_send own_window_remaining ◌-ℤ◌
  can_send_after k p = rw (place_after k p, mine) (ground arith)

  wait_is :
      time_to_own_window mac (pos now)
      ≡ pos (if ltb (since % cycle) m then 0 else cycle - since % cycle)
  unfolding time_to_own_window ◌-ℤ◌
  wait_is =
      let place : wrap_tdd_cycle mac (wrap_time_ticks (pos now -ℤ mac.t0)) ≡ pos (since % cycle) =
        wrap_tdd_cycle-emod mac (pos now) cycle e h
        ∙ ap (λ t. pos (emod (pos now -ℤ t) mod_time_ticks % cycle)) at in
      rw (place, e, mine) (ground (arith, mod-lt since h))

-- The window opens as late as the node waits, for a cycle that is `d` ticks in.
opens_at :
    (d m c k : ℕ)
    → 0 < m
    → 0 < c
    → k ≡ (if ltb (d % c) m then 0 else c - d % c)
    → ltb ((d + k) % c) m ≡ true
opens_at d m c k p h e = ground (arith, come_round d k c h, moved d k c h, mod-lt d h)

closed_before :
    (d m c w k : ℕ)
    → 0 < c
    → w ≡ (if ltb (d % c) m then 0 else c - d % c)
    → k < w
    → ltb ((d + k) % c) m ≡ false
closed_before d m c w k h e l = ground (arith, moved d k c h)

-- A node whose cycle began at a time of the clock asks at such a time how long it has to wait. The
-- own window and the cycle are of at least one tick, and the wait ends before the clock has gone
-- round since the cycle began. Then the node may send when it has waited so long, and not before.
pub time_to_own_window-waits :
    (mac : Mac) (now t m cycle wait : ℕ)
    → mac.t0 ≡ pos t
    → mac.my_window_length ≡ pos m
    → get_mac_cycle mac ≡ pos cycle
    → 0 < m
    → 0 < cycle
    → now < mod_time_ticks
    → t < mod_time_ticks
    → time_to_own_window mac (pos now) ≡ pos wait
    → emod (pos now -ℤ pos t) mod_time_ticks + wait < mod_time_ticks
    → (can_send mac (pos ((now + wait) % mod_time_ticks)) ≡ true)
      × ((k : ℕ) → k < wait → can_send mac (pos ((now + k) % mod_time_ticks)) ≡ false)
time_to_own_window-waits mac now t m cycle wait at mine e p h n u w late =
    let is : wait ≡ (
        if ltb (since mac now t m cycle at mine e p h n u % cycle) m
        then 0
        else cycle - since mac now t m cycle at mine e p h n u % cycle) =
      ap pos_part (sym w ∙ wait_is mac now t m cycle at mine e p h n u) in
    let d = emod (pos now -ℤ pos t) mod_time_ticks in
    (
      can_send_after mac now t m cycle at mine e p h n u wait late ∙ opens_at d m cycle wait p h is,
      λ k l.
          can_send_after mac now t m cycle at mine e p h n u k (omega arith)
          ∙ closed_before d m cycle wait k h is l,
    )
