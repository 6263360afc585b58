-- ===== src/Utilities.antt =====
-- src/utilities.c: byte order, the positive modulo, the tick clock.
pub mod Modulo
pub mod Range
use skylink.Base.{ℕ, zero, suc, ◌+◌, ◌*◌, ◌/◌, ◌%◌, ◌^◌, Bool, not, if◌then◌else◌}
use skylink.Base.Int.{ℤ, pos, negsuc, ◌+ℤ◌, ◌-ℤ◌, ◌*ℤ◌, ltb_ℤ, leb_ℤ, eqb_ℤ, abs, rem, int32}

-- `MOD_TIME_TICKS`
abbrev pub mod_time_ticks : ℕ
mod_time_ticks = 16777216

-- `while(x < 0) x = x + m;` on fuel.
unfoldable pub raise : ℕ → ℤ → ℤ → ℤ
raise zero x m = x
raise (suc f) x m = let next = raise f (x +ℤ m) m in if ltb_ℤ x (pos 0) then next else x

-- `while(x >= m) x = x - m;` on fuel.
unfoldable pub reduce : ℕ → ℤ → ℤ → ℤ
reduce zero x m = x
reduce (suc f) x m = let next = reduce f (x -ℤ m) m in if leb_ℤ m x then next else x

-- The loops run only where `abs x ≤ 12 m`, so that thirteen rounds are enough. These are the integers
-- that the code means: where `m * 12`, `abs(x)` or a sum overflows, it is positive_modulo_int32 below
-- that computes as the code does.
unfoldable pub positive_modulo : ℤ → ℤ → ℤ
positive_modulo x m =
    if ltb_ℤ (m *ℤ pos 12) (pos (abs x)) then rem (rem x m +ℤ m) m else reduce 13 (raise 13 x m) m

-- The same with every operation in `int32_t`: `x + m`, `x - m`, `m * 12` and `abs(x)` wrap round where
-- they overflow. (In C that is undefined.)
unfoldable pub raise_int32 : ℕ → ℤ → ℤ → ℤ
raise_int32 zero x m = x
raise_int32 (suc f) x m =
    let next = raise_int32 f (int32 (x +ℤ m)) m in if ltb_ℤ x (pos 0) then next else x

unfoldable pub reduce_int32 : ℕ → ℤ → ℤ → ℤ
reduce_int32 zero x m = x
reduce_int32 (suc f) x m =
    let next = reduce_int32 f (int32 (x -ℤ m)) m in if leb_ℤ m x then next else x

unfoldable pub positive_modulo_int32 : ℤ → ℤ → ℤ
positive_modulo_int32 x m =
    if ltb_ℤ (int32 (m *ℤ pos 12)) (int32 (pos (abs x)))
    then rem (int32 (rem x m +ℤ m)) m
    else reduce_int32 13 (raise_int32 13 x m) m

unfoldable pub wrap_time_ticks : ℤ → ℤ
unfolding positive_modulo
wrap_time_ticks t = positive_modulo t (pos mod_time_ticks)

-- On a little-endian host. A 16-bit word is a number below 2 ^ 16.
unfoldable pub hton16 : ℕ → ℕ
hton16 vh = vh / 256 % 256 + vh % 256 * 256

unfoldable pub hton32 : ℕ → ℕ
hton32 vh =
    vh / 2 ^ 24 % 256 + vh % 256 * 2 ^ 24 + vh / 256 % 256 * 2 ^ 16 + vh / 2 ^ 16 % 256 * 256

-- `_global_ticks_now` is passed explicitly: the new time, and whether it changed.
unfoldable pub sky_tick : ℤ → ℤ → ℤ × Bool
unfolding positive_modulo
sky_tick now time = (positive_modulo time (pos mod_time_ticks), not (eqb_ℤ time now))
