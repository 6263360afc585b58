-- ===== src/Mac/Belief.antt =====
-- What a node of src/mac.c believes of its peer's window.
use skylink.Base.{ℕ, ◌+◌, ◌-◌, ◌%◌, ◌<◌, ◌≤◌, ◌≡◌, refl, ap, ◌∙◌, arith, false, if◌then◌else◌}
use skylink.Base.Int.{ℤ, pos, ◌+ℤ◌, ◌-ℤ◌, ltb_ℤ, emod, ◌≤ℤ◌, +ℤ_parts, -ℤ_parts, eq_of_parts}
use skylink.Utilities.{wrap_time_ticks, mod_time_ticks}
use native.Mathlib.Nat.{mod-eq_of_lt, mod_self}
use skylink.Mac.{
  Mac, get_mac_cycle, update_belief, time_to_own_window, limit_length, wrap_tdd_cycle,
}
use skylink.Mac.Windows.{wrap_time_ticks-emod, wrap_tdd_cycle-emod, back_and_forth}

-- The time to the own window of a node whose cycle began `back` ticks before `now`, past its window.
time_to_own_window-back :
    (mac : Mac) (now back m cycle : ℕ)
    → mac.t0 ≡ pos (emod (pos now -ℤ pos back) mod_time_ticks)
    → mac.my_window_length ≡ pos m
    → get_mac_cycle mac ≡ pos cycle
    → 0 < m
    → m ≤ back
    → back ≤ cycle
    → cycle < mod_time_ticks
    → now < mod_time_ticks
    → time_to_own_window mac (pos now) ≡ pos (cycle - back)
unfolding time_to_own_window
time_to_own_window-back mac now back m cycle at mine e h p q k n =
    let place : wrap_tdd_cycle mac (wrap_time_ticks (pos now -ℤ mac.t0)) ≡ pos (back % cycle) =
      wrap_tdd_cycle-emod mac (pos now) cycle e (omega arith)
      ∙ ap (λ t. pos (emod (pos now -ℤ t) mod_time_ticks % cycle)) at
      ∙ ap (λ t. pos (t % cycle)) (back_and_forth now back n (omega arith)) in
    rw (place, e, mine) (finish back m cycle h p q)
  where
    finish :
        (back m cycle : ℕ)
        → 0 < m
        → m ≤ back
        → back ≤ cycle
        → (if ltb_ℤ (pos (back % cycle)) (pos m) then pos 0 else pos cycle -ℤ pos (back % cycle))
          ≡ pos (cycle - back)
    finish back m cycle h p q = ground (
      arith,
      eq_of_parts (pos cycle -ℤ pos (back % cycle)) (pos (cycle - back)),
      -ℤ_parts (pos cycle) (pos (back % cycle)),
      mod-eq_of_lt {n = back} {m = cycle},
      mod_self cycle,
    )

-- A cycle of windows and gaps that are not negative.
pub get_mac_cycle_pos :
    (mac : Mac) (m g length t : ℕ)
    → mac.my_window_length ≡ pos m
    → mac.config.gap_constant_ticks ≡ pos g
    → mac.peer_window_length ≡ pos length
    → mac.config.tail_constant_ticks ≡ pos t
    → get_mac_cycle mac ≡ pos (m + g + length + t)
unfolding get_mac_cycle ◌+ℤ◌
get_mac_cycle_pos mac m g length t mine gap peer tail =
    (λ i. mine i +ℤ gap i +ℤ peer i +ℤ tail i) ∙ ground arith

-- The newer one of the two beginnings that a belief update computes.
abbrev beginning : ℤ → ℤ → ℤ → ℤ → ℤ → ℤ
beginning now remaining length tail cycle =
    let left = if ltb_ℤ length remaining then length else remaining in
    let before = tail -ℤ cycle in
    if ltb_ℤ (now +ℤ left +ℤ before) (now +ℤ before)
    then wrap_time_ticks (now +ℤ before)
    else wrap_time_ticks (now +ℤ left +ℤ before)

beginning_pos :
    (now remaining length t cycle : ℕ)
    → remaining ≤ length
    → length + t ≤ cycle
    → beginning (pos now) (pos remaining) (pos length) (pos t) (pos cycle)
      ≡ pos (emod (pos now -ℤ pos (cycle - t - remaining)) mod_time_ticks)
beginning_pos now remaining length t cycle h k =
    let kept : ltb_ℤ (pos length) (pos remaining) ≡ false = ground arith in
    let before = -ℤ_parts (pos t) (pos cycle) in
    let least = +ℤ_parts (pos now) (pos t -ℤ pos cycle) in
    let sum = +ℤ_parts (pos now) (pos remaining) in
    let implied = +ℤ_parts (pos now +ℤ pos remaining) (pos t -ℤ pos cycle) in
    let later : ltb_ℤ (pos now +ℤ pos remaining +ℤ (pos t -ℤ pos cycle))
          (pos now +ℤ (pos t -ℤ pos cycle))
        ≡ false =
      ground (arith, before, least, sum, implied) in
    let same : pos now +ℤ pos remaining +ℤ (pos t -ℤ pos cycle)
        ≡ pos now -ℤ pos (cycle - t - remaining) =
      eq_of_parts (pos now +ℤ pos remaining +ℤ (pos t -ℤ pos cycle))
        (pos now -ℤ pos (cycle - t - remaining))
        (omega (arith, before, sum, implied, -ℤ_parts (pos now) (pos (cycle - t - remaining)))) in
    rw (kept, later, same) (wrap_time_ticks-emod (pos now -ℤ pos (cycle - t - remaining)))

-- A node that hears now of a peer's window, of a length within the limits and with no more than that
-- length remaining, takes its peer's window to be that long, and its own to open when the remaining
-- ticks and the tail have passed. The time is one of the clock, gap and tail are not negative, the own window is
-- not empty, and the cycle is less than the clock's range.
pub update_belief-turns :
    (mac : Mac) (now m g t length remaining : ℕ)
    → mac.my_window_length ≡ pos m
    → mac.config.gap_constant_ticks ≡ pos g
    → mac.config.tail_constant_ticks ≡ pos t
    → 0 < m
    → m + g + length + t < mod_time_ticks
    → now < mod_time_ticks
    → mac.config.minimum_window_length_ticks ≤ℤ pos length
    → pos length ≤ℤ mac.config.maximum_window_length_ticks
    → remaining ≤ length
    → let mac' = update_belief mac (pos now) (pos now) (pos length) (pos remaining) in
      (mac'.peer_window_length ≡ pos length)
      × (mac'.last_belief_update ≡ pos now)
      × (time_to_own_window mac' (pos now) ≡ pos (remaining + t))
unfolding update_belief
update_belief-turns mac now m g t length remaining mine gap tail h k n low high r =
    let mac' = update_belief mac (pos now) (pos now) (pos length) (pos remaining) in
    let limited : limit_length mac.config (pos length) ≡ pos length = ground arith in
    let cycle : (u : Mac)
        → u.my_window_length ≡ pos m
        → u.config.gap_constant_ticks ≡ pos g
        → u.peer_window_length ≡ pos length
        → u.config.tail_constant_ticks ≡ pos t
        → get_mac_cycle u ≡ pos (m + g + length + t) =
      λ u. get_mac_cycle_pos u m g length t in
    let heard : Mac = record mac {
      last_belief_update = pos now;
      peer_window_length = limit_length mac.config (pos length);
    } in
    let now_is_now : ltb_ℤ (pos now) (pos now) ≡ false = ground arith in
    let at : mac'.t0
        ≡ pos (emod (pos now -ℤ pos (m + g + length + t - t - remaining)) mod_time_ticks) =
      rw now_is_now (
        (λ i.
          beginning (pos now) (pos remaining) (limited i) (tail i)
            (cycle heard mine gap limited tail i))
        ∙ beginning_pos now remaining length t (m + g + length + t) r (omega arith)) in
    let left : m + g + length + t - (m + g + length + t - t - remaining) ≡ remaining + t =
      omega arith in
    (
      limited,
      refl,
      time_to_own_window-back mac' now (m + g + length + t - t - remaining) m (m + g + length + t)
            at mine (cycle mac' mine gap limited tail) h (omega arith) (omega arith) k n
          ∙ ap pos left,
    )
