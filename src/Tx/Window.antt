-- ===== src/Tx/Window.antt =====
-- How src/skylink_tx.c adjusts the own window.
use skylink.Base.{arith, Bool, not, ◌&&◌, if_both}
use skylink.Base.Int.{ℤ, pos, ◌-ℤ◌, leb_ℤ, +ℤ_parts, -ℤ_parts}
use skylink.Mac.{Mac, expand_window, shrink_window}
use skylink.Mac.Windows.{IsAdjustable}
use skylink.Tx.{note_unused, note_closing, shrink_due, expand_due, track_tdd_state}

shrink_due-IsAdjustable :
    (now : ℤ) (mac : Mac) → IsAdjustable mac → IsAdjustable (shrink_due now mac)
unfolding shrink_window
shrink_due-IsAdjustable now mac ((low, high), i) =
    let difference = -ℤ_parts mac.my_window_length mac.config.window_adjust_increment_ticks in
    if_both IsAdjustable
      (leb_ℤ mac.window_adjust_counter (pos 0 -ℤ mac.config.window_adjustment_period)) _ mac
      ((ground (arith, difference), ground (arith, difference)), i) ((low, high), i)

expand_due-IsAdjustable :
    (now : ℤ) (mac : Mac) → IsAdjustable mac → IsAdjustable (expand_due now mac)
unfolding expand_window
expand_due-IsAdjustable now mac ((low, high), i) =
    let sum = +ℤ_parts mac.my_window_length mac.config.window_adjust_increment_ticks in
    if_both IsAdjustable (leb_ℤ mac.config.window_adjustment_period mac.window_adjust_counter) _ mac
      ((ground (arith, sum), ground (arith, sum)), i) ((low, high), i)

-- Tracking a window, whether the node may send or not and has something to send or not, keeps an own
-- window that is within its limits within them, where the increment is not negative, which it stays.
pub track_tdd_state-IsAdjustable :
    (mac : Mac) (can content : Bool) (now : ℤ)
    → IsAdjustable mac
    → IsAdjustable (track_tdd_state mac can content now)
unfolding track_tdd_state
track_tdd_state-IsAdjustable mac can content now v =
    let unused = if_both IsAdjustable (can && not content) _ mac v v in
    let noted = note_unused can content mac in
    let closed = if_both IsAdjustable (not can && noted.window_on) _ noted unused unused in
    let closing = note_closing can noted in
    let opened =
      if_both IsAdjustable (can && not closing.window_on) _ closing
        (expand_due-IsAdjustable now (shrink_due now closing)
          (shrink_due-IsAdjustable now closing closed))
        closed in
    if_both IsAdjustable can _ _ opened opened
