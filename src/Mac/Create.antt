-- ===== src/Mac/Create.antt =====
-- The configuration that a node of src/mac.c runs with.
use skylink.Base.{◌≤◌, ◌≡◌, refl, arith}
use skylink.Base.Int.{pos, ◌+ℤ◌, ◌≤ℤ◌}
use skylink.Mac.{MacConfig, create}
use skylink.Mac.Windows.{IsLimited}

-- Whatever the configuration, the created node's window limits are in order, its own window is
-- within them, and its idle frames, timeout, carrier sense and adjustment period are in their
-- ranges.
pub create-IsLimited :
    (config : MacConfig)
    → let mac = create config in
      let c = mac.config in
      IsLimited mac
      × (mac.peer_window_length ≡ c.minimum_window_length_ticks)
      × (c.idle_frames_per_window ≤ 3)
      × (pos 5000 ≤ℤ c.idle_timeout_ticks)
      × (c.idle_timeout_ticks ≤ℤ pos 90000)
      × (c.carrier_sense_ticks ≤ℤ c.minimum_window_length_ticks +ℤ c.gap_constant_ticks)
      × (pos 1 ≤ℤ c.window_adjustment_period)
      × (c.window_adjustment_period ≤ℤ pos 4)
unfolding create
create-IsLimited config = (
  (omega arith, ground arith),
  refl,
  ground arith,
  ground arith,
  ground arith,
  ground arith,
  ground arith,
  ground arith,
)
