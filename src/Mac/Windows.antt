-- ===== src/Mac/Windows.antt =====
-- When the own window of src/mac.c is open.
use skylink.Base.{ℕ, ◌%◌, ◌<◌, ◌≡◌, ◌↔◌, refl, sym, ap, ◌∙◌, arith, true}
use skylink.Base.Int.{ℤ, pos, ◌-ℤ◌, emod, ◌≤ℤ◌, +ℤ_parts, -ℤ_parts}
use skylink.Utilities.{wrap_time_ticks, mod_time_ticks}
use skylink.Utilities.Modulo.{positive_modulo-residue}
use native.Mathlib.Nat.{mod-lt, mod_self}
use skylink.Mac.{
  Mac, get_mac_cycle, wrap_tdd_cycle, restart, expand_window, shrink_window, reset,
  time_to_own_window, own_window_remaining, can_send,
}

pub wrap_time_ticks-emod : (t : ℤ) → wrap_time_ticks t ≡ pos (emod t mod_time_ticks)
unfolding wrap_time_ticks
wrap_time_ticks-emod t = positive_modulo-residue t mod_time_ticks (omega arith)

-- The place in the cycle, for a cycle of `cycle` ticks.
pub wrap_tdd_cycle-emod :
    (mac : Mac) (now : ℤ) (cycle : ℕ)
    → get_mac_cycle mac ≡ pos cycle
    → 0 < cycle
    → wrap_tdd_cycle mac (wrap_time_ticks (now -ℤ mac.t0))
      ≡ pos (emod (now -ℤ mac.t0) mod_time_ticks % cycle)
unfolding wrap_tdd_cycle
wrap_tdd_cycle-emod mac now cycle e h =
    rw (e, wrap_time_ticks-emod (now -ℤ mac.t0))
      (positive_modulo-residue (pos (emod (now -ℤ mac.t0) mod_time_ticks)) cycle h)

-- In a cycle of at least one tick the node may send exactly when the time to its own window is zero,
-- which is never more than the cycle.
pub can_send_iff :
    (mac : Mac) (now : ℤ) (cycle : ℕ)
    → get_mac_cycle mac ≡ pos cycle
    → 0 < cycle
    → ((can_send mac now ≡ true) ↔ (time_to_own_window mac now ≡ pos 0))
      × (time_to_own_window mac now ≤ℤ pos cycle)
unfolding can_send time_to_own_window own_window_remaining ◌-ℤ◌
can_send_iff mac now cycle e h =
    let dt = wrap_tdd_cycle-emod mac now cycle e h in
    let inside = mod-lt (emod (now -ℤ mac.t0) mod_time_ticks) h in
    (
      (λ p. ground (arith, dt, inside, e, p), λ p. ground (arith, dt, inside, e, p)),
      ground (arith, dt, inside, e),
    )

-- Going back `ticks` from `now` and forth again.
pub back_and_forth :
    (now ticks : ℕ)
    → now < mod_time_ticks
    → ticks < mod_time_ticks
    → emod (pos now -ℤ pos (emod (pos now -ℤ pos ticks) mod_time_ticks)) mod_time_ticks ≡ ticks
unfolding ◌-ℤ◌
back_and_forth now ticks n k = ground arith

get_mac_cycle-restart : (mac : Mac) (now : ℤ) → get_mac_cycle (restart mac now) ≡ get_mac_cycle mac
unfolding get_mac_cycle
get_mac_cycle-restart mac now = refl

minus_zero : (x : ℤ) → x -ℤ pos 0 ≡ x
unfolding ◌-ℤ◌
minus_zero x = ground arith

-- A cycle that was begun at `now` is at its beginning.
restart-begins :
    (mac : Mac) (now cycle : ℕ)
    → get_mac_cycle mac ≡ pos cycle
    → 0 < cycle
    → cycle < mod_time_ticks
    → now < mod_time_ticks
    → own_window_remaining (restart mac (pos now)) (pos now) ≡ mac.my_window_length
unfolding own_window_remaining
restart-begins mac now cycle e h k n =
    let began : (restart mac (pos now)).t0 ≡ pos (emod (pos now -ℤ pos cycle) mod_time_ticks) =
      rw e (wrap_time_ticks-emod (pos now -ℤ pos cycle)) in
    let place : wrap_tdd_cycle (restart mac (pos now))
          (wrap_time_ticks (pos now -ℤ (restart mac (pos now)).t0))
        ≡ pos 0 =
      wrap_tdd_cycle-emod (restart mac (pos now)) (pos now) cycle
        (get_mac_cycle-restart mac (pos now) ∙ e) h
      ∙ ap (λ t. pos (emod (pos now -ℤ t) mod_time_ticks % cycle)) began
      ∙ ap (λ t. pos (t % cycle)) (back_and_forth now cycle n k)
      ∙ ap pos (mod_self cycle) in
    ap (λ t. mac.my_window_length -ℤ t) place ∙ minus_zero mac.my_window_length

-- Resetting at a time of the clock, for a cycle of at least one tick and less than the clock's
-- range, opens a whole
-- own window of the minimum length, and clears the adjustment counter.
pub reset-opens :
    (mac : Mac) (now cycle : ℕ)
    → get_mac_cycle (reset mac (pos now)) ≡ pos cycle
    → 0 < cycle
    → cycle < mod_time_ticks
    → now < mod_time_ticks
    → (own_window_remaining (reset mac (pos now)) (pos now)
        ≡ mac.config.minimum_window_length_ticks)
      × ((reset mac (pos now)).window_adjust_counter ≡ pos 0)
unfolding reset
reset-opens mac now cycle e h k n =
    let shortened = record mac {
      window_adjust_counter = pos 0;
      my_window_length = mac.config.minimum_window_length_ticks;
    } in
    (
      restart-begins shortened now cycle (sym (get_mac_cycle-restart shortened (pos now)) ∙ e) h k
          n,
      refl,
    )

-- The own window length is within the limits of the configuration.
abbrev pub IsLimited : Mac → Type 0
IsLimited mac =
    (mac.config.minimum_window_length_ticks ≤ℤ mac.my_window_length)
    × (mac.my_window_length ≤ℤ mac.config.maximum_window_length_ticks)

-- So it is, and the increment is not negative.
abbrev pub IsAdjustable : Mac → Type 0
IsAdjustable mac = IsLimited mac × (pos 0 ≤ℤ mac.config.window_adjust_increment_ticks)

-- Whatever the time, the limits are kept.
pub expand_window-IsLimited :
    (mac : Mac) (now : ℤ)
    → IsLimited mac
    → pos 0 ≤ℤ mac.config.window_adjust_increment_ticks
    → IsLimited (expand_window mac now)
unfolding expand_window
expand_window-IsLimited mac now (low, high) i =
    let sum = +ℤ_parts mac.my_window_length mac.config.window_adjust_increment_ticks in
    (ground (arith, sum), ground (arith, sum))

pub shrink_window-IsLimited :
    (mac : Mac) (now : ℤ)
    → IsLimited mac
    → pos 0 ≤ℤ mac.config.window_adjust_increment_ticks
    → IsLimited (shrink_window mac now)
unfolding shrink_window
shrink_window-IsLimited mac now (low, high) i =
    let difference = -ℤ_parts mac.my_window_length mac.config.window_adjust_increment_ticks in
    (ground (arith, difference), ground (arith, difference))

-- Expanding an own window within the limits, by an increment that is not negative, keeps it within
-- them, makes it no shorter, and begins the cycle anew, so that the whole window is open. The time
-- is one of the clock, and the new cycle is of at least one tick and less than the clock's range.
pub expand_window-opens :
    (mac : Mac) (now cycle : ℕ)
    → IsLimited mac
    → pos 0 ≤ℤ mac.config.window_adjust_increment_ticks
    → get_mac_cycle (expand_window mac (pos now)) ≡ pos cycle
    → 0 < cycle
    → cycle < mod_time_ticks
    → now < mod_time_ticks
    → let mac' = expand_window mac (pos now) in
      IsLimited mac'
      × (mac.my_window_length ≤ℤ mac'.my_window_length)
      × (own_window_remaining mac' (pos now) ≡ mac'.my_window_length)
unfolding expand_window
expand_window-opens mac now cycle (low, high) i e h k n =
    let sum = +ℤ_parts mac.my_window_length mac.config.window_adjust_increment_ticks in
    let limited = expand_window-IsLimited mac (pos now) (low, high) i in
    let longer = record mac { my_window_length = (expand_window mac (pos now)).my_window_length } in
    (
      limited,
      ground (arith, sum),
      restart-begins longer now cycle (sym (get_mac_cycle-restart longer (pos now)) ∙ e) h k n,
    )

-- Shrinking an own window within the limits, by an increment that is not negative, keeps it within
-- them, makes it no longer, and begins the cycle anew, so that the whole window is open. The time
-- is one of the clock, and the new cycle is of at least one tick and less than the clock's range.
pub shrink_window-opens :
    (mac : Mac) (now cycle : ℕ)
    → IsLimited mac
    → pos 0 ≤ℤ mac.config.window_adjust_increment_ticks
    → get_mac_cycle (shrink_window mac (pos now)) ≡ pos cycle
    → 0 < cycle
    → cycle < mod_time_ticks
    → now < mod_time_ticks
    → let mac' = shrink_window mac (pos now) in
      IsLimited mac'
      × (mac'.my_window_length ≤ℤ mac.my_window_length)
      × (own_window_remaining mac' (pos now) ≡ mac'.my_window_length)
unfolding shrink_window
shrink_window-opens mac now cycle (low, high) i e h k n =
    let difference = -ℤ_parts mac.my_window_length mac.config.window_adjust_increment_ticks in
    let limited = shrink_window-IsLimited mac (pos now) (low, high) i in
    let shorter = record mac {
      my_window_length = (shrink_window mac (pos now)).my_window_length;
    } in
    (
      limited,
      ground (arith, difference),
      restart-begins shorter now cycle (sym (get_mac_cycle-restart shorter (pos now)) ∙ e) h k n,
    )
