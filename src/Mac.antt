-- ===== src/Mac.antt =====
-- src/mac.c: the medium access control. Two peers take turns in a cycle of own window, gap, peer
-- window and tail. Tick values and window lengths are `int32_t`, modelled as integers: clock
-- values are below 2 ^ 24 and lengths below 2 ^ 25, so that C's sums do not overflow.
pub mod Windows
pub mod Belief
pub mod Create
pub mod Wait
use skylink.Base.{
  ℕ, ◌+◌, ◌%◌, ◌^◌, Option, Bool, true, false, not, if◌then◌else◌, ltb, leb, ◌==◌, List, replicate,
}
use skylink.Base.Int.{ℤ, pos, negsuc, ◌+ℤ◌, ◌-ℤ◌, ltb_ℤ, leb_ℤ, pos_part}
use skylink.Frame.{TransmitFrame, add_extension_mac_tdd_control}
use skylink.Utilities.{positive_modulo, wrap_time_ticks, mod_time_ticks}

-- `SkyMACConfig`
pub record MacConfig : Type 0 where
  pub maximum_window_length_ticks : ℤ
  pub minimum_window_length_ticks : ℤ
  pub gap_constant_ticks : ℤ
  pub tail_constant_ticks : ℤ
  pub shift_threshold_ticks : ℤ
  pub idle_timeout_ticks : ℤ
  pub window_adjust_increment_ticks : ℤ
  pub carrier_sense_ticks : ℤ
  pub unauthenticated_mac_updates : ℕ
  pub window_adjustment_period : ℤ
  pub idle_frames_per_window : ℕ

-- `struct sky_mac_s`; the configuration is held by value. `window_on` and `unused_window_time` are
-- `bool`.
pub record Mac : Type 0 where
  pub config : MacConfig
  pub t0 : ℤ
  pub my_window_length : ℤ
  pub peer_window_length : ℤ
  pub last_belief_update : ℤ
  pub window_adjust_counter : ℤ
  pub vc_round_robin_start : ℕ
  pub window_on : Bool
  pub unused_window_time : Bool
  pub frames_sent_in_current_window_per_vc : List ℕ
  pub total_frames_sent_in_current_window : ℕ

-- `SKY_NUM_VIRTUAL_CHANNELS`
abbrev pub num_virtual_channels : ℕ
num_virtual_channels = 4

unfoldable pub get_mac_cycle : Mac → ℤ
get_mac_cycle mac =
    mac.my_window_length +ℤ mac.config.gap_constant_ticks +ℤ mac.peer_window_length
    +ℤ mac.config.tail_constant_ticks

unfoldable pub wrap_tdd_cycle : Mac → ℤ → ℤ
wrap_tdd_cycle mac ticks = positive_modulo ticks (get_mac_cycle mac)

-- The checks of the configuration, in the order of the code.
abbrev pub check_window : MacConfig → MacConfig
check_window c = record c {
  maximum_window_length_ticks =
      if ltb_ℤ c.maximum_window_length_ticks c.minimum_window_length_ticks
      then c.minimum_window_length_ticks
      else c.maximum_window_length_ticks;
}

abbrev pub check_idle : MacConfig → MacConfig
check_idle c = record c {
  idle_frames_per_window = if ltb 3 c.idle_frames_per_window then 3 else c.idle_frames_per_window;
  idle_timeout_ticks =
      if ltb_ℤ c.idle_timeout_ticks (pos 5000)
      then pos 25000
      else if ltb_ℤ (pos 90000) c.idle_timeout_ticks
      then pos 25000
      else c.idle_timeout_ticks;
}

-- The sum is at most `carrier_sense_ticks` where it is assigned, so that it fits into its
-- `int16_t`.
abbrev pub check_carrier : MacConfig → MacConfig
check_carrier c =
    let latest = c.minimum_window_length_ticks +ℤ c.gap_constant_ticks in
    record c {
      carrier_sense_ticks =
          if leb_ℤ latest c.carrier_sense_ticks then latest else c.carrier_sense_ticks;
    }

abbrev pub check_period : MacConfig → MacConfig
check_period c = record c {
  window_adjustment_period =
      if ltb_ℤ c.window_adjustment_period (pos 1)
      then pos 1
      else if ltb_ℤ (pos 4) c.window_adjustment_period
      then pos 4
      else c.window_adjustment_period;
}

unfoldable pub create : MacConfig → Mac
create config =
    let c = check_period (check_carrier (check_idle (check_window config))) in
    record {
      config = c;
      t0 = pos 0;
      my_window_length = c.minimum_window_length_ticks;
      peer_window_length = c.minimum_window_length_ticks;
      last_belief_update = pos mod_time_ticks -ℤ pos 300000;
      window_adjust_counter = pos 0;
      vc_round_robin_start = 0;
      window_on = false;
      unused_window_time = false;
      frames_sent_in_current_window_per_vc = replicate num_virtual_channels 0;
      total_frames_sent_in_current_window = 0;
    }

unfoldable pub shift_windowing : Mac → ℤ → Mac
shift_windowing mac t_shift =
    let back = if ltb_ℤ (pos 0) t_shift then t_shift else pos 0 -ℤ t_shift in
    record mac { t0 = wrap_time_ticks (mac.t0 -ℤ back) }

-- A cycle that begins anew at `now`.
abbrev pub restart : Mac → ℤ → Mac
restart mac now = record mac { t0 = wrap_time_ticks (now -ℤ get_mac_cycle mac) }

unfoldable pub expand_window : Mac → ℤ → Mac
expand_window mac now =
    let longer = mac.my_window_length +ℤ mac.config.window_adjust_increment_ticks in
    let length =
      if ltb_ℤ mac.config.maximum_window_length_ticks longer
      then mac.config.maximum_window_length_ticks
      else longer in
    restart (record mac { my_window_length = length }) now

unfoldable pub shrink_window : Mac → ℤ → Mac
shrink_window mac now =
    let shorter = mac.my_window_length -ℤ mac.config.window_adjust_increment_ticks in
    let length =
      if ltb_ℤ shorter mac.config.minimum_window_length_ticks
      then mac.config.minimum_window_length_ticks
      else shorter in
    restart (record mac { my_window_length = length }) now

unfoldable pub time_to_own_window : Mac → ℤ → ℤ
time_to_own_window mac now =
    let dt = wrap_tdd_cycle mac (wrap_time_ticks (now -ℤ mac.t0)) in
    if ltb_ℤ dt mac.my_window_length then pos 0 else get_mac_cycle mac -ℤ dt

unfoldable pub own_window_remaining : Mac → ℤ → ℤ
own_window_remaining mac now =
    mac.my_window_length -ℤ wrap_tdd_cycle mac (wrap_time_ticks (now -ℤ mac.t0))

unfoldable pub peer_window_remaining : Mac → ℤ → ℤ
peer_window_remaining mac now =
    let peer_window_starts = mac.t0 +ℤ mac.my_window_length +ℤ mac.config.gap_constant_ticks in
    mac.peer_window_length -ℤ wrap_tdd_cycle mac (wrap_time_ticks (now -ℤ peer_window_starts))

unfoldable pub can_send : Mac → ℤ → Bool
can_send mac now = ltb_ℤ (pos 0) (own_window_remaining mac now)

abbrev pub limit_length : MacConfig → ℤ → ℤ
limit_length c peer_mac_length =
    if ltb_ℤ peer_mac_length c.minimum_window_length_ticks
    then c.minimum_window_length_ticks
    else if ltb_ℤ c.maximum_window_length_ticks peer_mac_length
    then c.maximum_window_length_ticks
    else peer_mac_length

-- The diagnostic print is left out.
unfoldable pub update_belief : Mac → ℤ → ℤ → ℤ → ℤ → Mac
update_belief mac now receive_time peer_mac_length peer_mac_remaining =
    let length = limit_length mac.config peer_mac_length in
    let remaining = if ltb_ℤ length peer_mac_remaining then length else peer_mac_remaining in
    let now' =
      if ltb_ℤ now receive_time
      then receive_time +ℤ wrap_time_ticks (now -ℤ receive_time)
      else now in
    let heard = record mac { last_belief_update = now; peer_window_length = length } in
    let before = mac.config.tail_constant_ticks -ℤ get_mac_cycle heard in
    let implied_t0 = receive_time +ℤ remaining +ℤ before in
    let minimum_t0 = now' +ℤ before in
    record heard {
      t0 =
          if ltb_ℤ implied_t0 minimum_t0
          then wrap_time_ticks minimum_t0
          else wrap_time_ticks implied_t0;
      total_frames_sent_in_current_window = 0;
      frames_sent_in_current_window_per_vc = replicate num_virtual_channels 0;
    }

unfoldable pub reset : Mac → ℤ → Mac
reset mac now =
    restart
      (record mac {
        window_adjust_counter = pos 0;
        my_window_length = mac.config.minimum_window_length_ticks;
      })
      now

unfoldable pub carrier_sensed : Mac → ℤ → Mac
carrier_sensed mac now =
    if leb_ℤ (time_to_own_window mac now) mac.config.carrier_sense_ticks
    then record mac {
      t0 = wrap_time_ticks (now -ℤ get_mac_cycle mac +ℤ mac.config.carrier_sense_ticks);
    }
    else mac

unfoldable pub idle_frame_needed : Mac → ℤ → Bool
idle_frame_needed mac now =
    if mac.config.idle_frames_per_window == 0
    then false
    else if ltb_ℤ mac.config.idle_timeout_ticks (wrap_time_ticks (now -ℤ mac.last_belief_update))
    then false
    else ltb mac.total_frames_sent_in_current_window mac.config.idle_frames_per_window

-- The casts to `uint16_t` of a window that is not negative.
unfoldable pub set_frame_fields : Mac → TransmitFrame → ℤ → Option TransmitFrame
set_frame_fields mac tx now =
    let left = own_window_remaining mac now in
    let remaining = if ltb_ℤ left (pos 1) then pos 1 else left in
    add_extension_mac_tdd_control tx (pos_part mac.my_window_length % 2 ^ 16)
      (pos_part remaining % 2 ^ 16)
