-- ===== src/ReliableVc.antt =====
-- src/reliable_vc.c: a virtual channel. It has a send ring, a receive ring and the element buffer that both
-- store in, and connects by handshakes to a peer. Where C asks the clock for the time,
-- the time is an argument.
pub mod Frames
pub mod Handshake
pub mod Transfer
pub mod Transmit
pub mod Create
use skylink.Base.{
  ℕ, ◌+◌, ◌-◌, ◌*◌, ◌/◌, ◌%◌, Bool, true, false, not, ◌&&◌, ◌||◌, Option, none, some, List,
  if◌then◌else◌, ltb, leb, ◌==◌,
}
use skylink.Base.Int.{ℤ, pos, ◌+ℤ◌, ◌-ℤ◌, ltb_ℤ, leb_ℤ, pos_part}
use skylink.Base.Result.{Result, ok, err, too_long_payload, ring_sequences_out_of_sync, Code}
use skylink.Utilities.{wrap_time_ticks}
use skylink.ElementBuffer
use skylink.ElementBuffer.{ElementBuffer, BufferElement}
use skylink.SequenceRing.RcvRing
use skylink.SequenceRing.RcvRing.{RcvRing}
use skylink.SequenceRing.SendRing
use skylink.SequenceRing.SendRing.{SendRing}
use skylink.Frame.{payload_max_len}

-- `ARQ_STATE_OFF`, `ARQ_STATE_IN_INIT`, `ARQ_STATE_ON`: the flag has no other value.
pub data ArqState : Type 0 where
  off in_init on : ArqState

-- `struct sky_virtual_channel_s`
pub record VirtualChannel : Type 0 where
  pub element_buffer : ElementBuffer
  pub send_ring : SendRing
  pub rcv_ring : RcvRing
  pub arq_state_flag : ArqState
  pub handshake_send : ℕ
  pub arq_session_identifier : ℕ
  pub need_recall : Bool
  pub last_tx_tick : ℤ
  pub last_rx_tick : ℤ
  pub last_ctrl_send_tick : ℤ
  pub unconfirmed_payloads : ℤ

-- `SkyVCConfig`
pub record VcConfig : Type 0 where
  pub usable_element_size : ℤ
  pub rcv_ring_len : ℤ
  pub horizon_width : ℤ
  pub send_ring_len : ℤ
  pub require_authentication : ℕ

-- `SkyARQConfig`
pub record ArqConfig : Type 0 where
  pub timeout_ticks : ℤ
  pub idle_frame_threshold : ℤ
  pub idle_frames_per_window : ℤ

abbrev pub within : ℤ → ℤ → ℤ → ℤ → ℤ
within low high default x = if ltb_ℤ x low || ltb_ℤ high x then default else x

-- The checks of the configuration. The flags AUTHENTICATE_TX and USE_CRC32 are the bits 1 and 8.
unfoldable pub check_config : VcConfig → VcConfig
check_config c =
    let rcv_len = within (pos 6) (pos 250) (pos 32) c.rcv_ring_len in
    record {
      usable_element_size = within (pos 12) (pos 500) (pos 32) c.usable_element_size;
      rcv_ring_len = rcv_len;
      horizon_width =
          if ltb_ℤ (rcv_len -ℤ pos 3) c.horizon_width then rcv_len -ℤ pos 3 else c.horizon_width;
      send_ring_len = within (pos 6) (pos 250) (pos 32) c.send_ring_len;
      require_authentication =
          if c.require_authentication % 2 + c.require_authentication / 8 % 2 == 0
          then c.require_authentication + 8
          else c.require_authentication;
    }

unfoldable pub compute_required_element_count : ℕ → ℕ → ℕ → ℕ
compute_required_element_count elementsize total_ring_slots maximum_pl_size =
    total_ring_slots * ElementBuffer.element_requirement elementsize maximum_pl_size

-- Both rings wiped; the order is that of each caller.
abbrev pub buffer_of : Option ElementBuffer → ElementBuffer → ElementBuffer
buffer_of none eb = eb
buffer_of (some eb') eb = eb'

abbrev pub wipe_send : VirtualChannel → VirtualChannel
wipe_send vc =
    let (ring, eb) = SendRing.wipe vc.send_ring (some vc.element_buffer) 0 in
    record vc { send_ring = ring; element_buffer = buffer_of eb vc.element_buffer }

abbrev pub wipe_rcv : VirtualChannel → VirtualChannel
wipe_rcv vc =
    let (ring, eb) = RcvRing.wipe vc.rcv_ring (some vc.element_buffer) 0 in
    record vc { rcv_ring = ring; element_buffer = buffer_of eb vc.element_buffer }

abbrev pub wipe_buffer : VirtualChannel → VirtualChannel
wipe_buffer vc = record vc { element_buffer = ElementBuffer.wipe vc.element_buffer }

unfoldable pub wipe_to_arq_off_state : VirtualChannel → VirtualChannel
wipe_to_arq_off_state vc =
    let clean = wipe_buffer (wipe_rcv (wipe_send vc)) in
    record clean {
      need_recall = false;
      arq_state_flag = off;
      arq_session_identifier = 0;
      last_tx_tick = pos 0;
      last_rx_tick = pos 0;
      last_ctrl_send_tick = pos 0;
      unconfirmed_payloads = pos 0;
      handshake_send = 0;
    }

-- The time is not negative, so that its cast to `uint32_t` keeps it.
unfoldable pub wipe_to_arq_init_state : VirtualChannel → ℤ → VirtualChannel
wipe_to_arq_init_state vc time =
    let clean = wipe_send (wipe_rcv vc) in
    record clean {
      need_recall = false;
      arq_state_flag = in_init;
      arq_session_identifier = pos_part time;
      last_tx_tick = time;
      last_rx_tick = time;
      last_ctrl_send_tick = pos 0;
      unconfirmed_payloads = pos 0;
      handshake_send = 0;
    }

unfoldable pub wipe_to_arq_on_state : VirtualChannel → ℕ → ℤ → VirtualChannel
wipe_to_arq_on_state vc identifier time =
    let clean = wipe_send (wipe_rcv vc) in
    record clean {
      need_recall = false;
      arq_state_flag = on;
      arq_session_identifier = identifier;
      last_tx_tick = time;
      last_rx_tick = time;
      last_ctrl_send_tick = pos 0;
      unconfirmed_payloads = pos 0;
      handshake_send = 1;
    }

abbrev pub of_parts : ElementBuffer → SendRing → RcvRing → VirtualChannel
of_parts eb send rcv = record {
  element_buffer = eb;
  send_ring = send;
  rcv_ring = rcv;
  arq_state_flag = off;
  handshake_send = 0;
  arq_session_identifier = 0;
  need_recall = false;
  last_tx_tick = pos 0;
  last_rx_tick = pos 0;
  last_ctrl_send_tick = pos 0;
  unconfirmed_payloads = pos 0;
}

abbrev pub assembled :
    Option ElementBuffer → Option SendRing → Option RcvRing → Option VirtualChannel
assembled none send rcv = none
assembled (some eb) none rcv = none
assembled (some eb) (some send) none = none
assembled (some eb) (some send) (some rcv) = some (wipe_to_arq_off_state (of_parts eb send rcv))

-- `none` stands for a failed assertion. The argument `raw` is what the allocated memory holds.
unfoldable pub create : (ℕ → BufferElement) → VcConfig → Option VirtualChannel
create raw config =
    let c = check_config config in
    let usable = pos_part c.usable_element_size in
    let ring_slots = pos_part c.rcv_ring_len + pos_part c.send_ring_len - 2 in
    assembled
      (ElementBuffer.create raw usable
        (compute_required_element_count (usable + 4) ring_slots payload_max_len))
      (SendRing.create c.send_ring_len 0) (RcvRing.create c.rcv_ring_len c.horizon_width 0)

abbrev pub arq_connect : VirtualChannel → ℤ → VirtualChannel
arq_connect vc time = wipe_to_arq_init_state vc time

abbrev pub arq_disconnect : VirtualChannel → VirtualChannel
arq_disconnect vc = wipe_to_arq_off_state vc

abbrev pub check_expired : VirtualChannel → ℤ → ℤ → VirtualChannel
check_expired vc now timeout =
    let tx_timeout = ltb_ℤ timeout (wrap_time_ticks (now -ℤ vc.last_tx_tick)) in
    let rx_timeout = ltb_ℤ timeout (wrap_time_ticks (now -ℤ vc.last_rx_tick)) in
    if tx_timeout || rx_timeout then wipe_to_arq_off_state vc else vc

-- The test of the state.
abbrev pub timeouts_in : ArqState → VirtualChannel → ℤ → ℤ → VirtualChannel
timeouts_in off vc now timeout = vc
timeouts_in in_init vc now timeout = check_expired vc now timeout
timeouts_in on vc now timeout = check_expired vc now timeout

unfoldable pub check_timeouts : VirtualChannel → ℤ → ℤ → VirtualChannel
check_timeouts vc now timeout = timeouts_in vc.arq_state_flag vc now timeout

abbrev pub with_send :
    {A : Type 0} → VirtualChannel → A × SendRing × ElementBuffer → A × VirtualChannel
with_send vc (a, ring, eb) = (a, record vc { send_ring = ring; element_buffer = eb })

abbrev pub with_rcv :
    {A : Type 0} → VirtualChannel → A × RcvRing × ElementBuffer → A × VirtualChannel
with_rcv vc (a, ring, eb) = (a, record vc { rcv_ring = ring; element_buffer = eb })

unfoldable pub push_packet_to_send : VirtualChannel → List ℕ → ℕ → Result ℕ × VirtualChannel
push_packet_to_send vc payload length =
    if ltb payload_max_len length
    then (err too_long_payload, vc)
    else with_send vc (SendRing.push_packet_to_send vc.send_ring vc.element_buffer payload length)

-- What follows the reading of a packet: the tail moves up to the first packet not yet transmitted.
unfoldable pub forget_sent :
    VirtualChannel → Result (List ℕ × ℕ) × SendRing → Result (List ℕ × ℕ) × VirtualChannel
forget_sent vc (err e, ring) = (err e, record vc { send_ring = ring })
forget_sent vc (ok packet, ring) =
    let (_, ring', eb) = SendRing.clean_tail_up_to ring vc.element_buffer ring.tx_sequence in
    (ok packet, record vc { send_ring = ring'; element_buffer = eb })

unfoldable pub read_packet_for_tx_monotonic : VirtualChannel → Result (List ℕ × ℕ) × VirtualChannel
read_packet_for_tx_monotonic vc =
    forget_sent vc (SendRing.read_to_tx vc.send_ring vc.element_buffer false)

abbrev pub cleared_some : Result ℕ → Bool
cleared_some (err e) = false
cleared_some (ok n) = ltb 0 n

unfoldable pub update_tx_sync : VirtualChannel → ℕ → ℤ → VirtualChannel
update_tx_sync vc peer_rx_head now =
    let (outcome, ring, eb) =
      SendRing.clean_tail_up_to vc.send_ring vc.element_buffer peer_rx_head in
    record vc {
      send_ring = ring;
      element_buffer = eb;
      last_tx_tick =
          if cleared_some outcome || (ring.tx_sequence == peer_rx_head)
          then now
          else vc.last_tx_tick;
    }

unfoldable pub read_next_received : VirtualChannel → ℕ → Result (List ℕ) × VirtualChannel
read_next_received vc max_length =
    with_rcv vc (RcvRing.read_next_received vc.rcv_ring vc.element_buffer max_length)

unfoldable pub push_rx_packet_monotonic : VirtualChannel → List ℕ → ℕ → Result ℕ × VirtualChannel
push_rx_packet_monotonic vc src length =
    with_rcv vc
      (RcvRing.push_rx_packet vc.rcv_ring vc.element_buffer src length vc.rcv_ring.head_sequence)

-- An `int16_t` that is incremented.
abbrev pub next_int16 : ℤ → ℤ
next_int16 x = if leb_ℤ (pos 32767) x then pos 0 -ℤ pos 32768 else x +ℤ pos 1

unfoldable pub push_rx_packet : VirtualChannel → List ℕ → ℕ → ℕ → ℤ → Result ℕ × VirtualChannel
push_rx_packet vc src length sequence now =
    let (outcome, ring, eb) =
      RcvRing.push_rx_packet vc.rcv_ring vc.element_buffer src length sequence in
    (
      outcome,
      record vc {
        rcv_ring = ring;
        element_buffer = eb;
        last_rx_tick = if cleared_some outcome then now else vc.last_rx_tick;
        unconfirmed_payloads = next_int16 vc.unconfirmed_payloads;
      },
    )

abbrev pub is_out_of_sync : Code → Bool
is_out_of_sync ring_sequences_out_of_sync = true
is_out_of_sync _ = false

abbrev pub rx_synced : VirtualChannel → Result (Unit {0}) → ℤ → VirtualChannel
rx_synced vc (ok tt) now = record vc { last_rx_tick = now; need_recall = false }
rx_synced vc (err e) now = if is_out_of_sync e then record vc { need_recall = true } else vc

unfoldable pub update_rx_sync : VirtualChannel → ℕ → ℤ → VirtualChannel
update_rx_sync vc peer_tx_head now =
    rx_synced vc (RcvRing.get_sequence_sync_status vc.rcv_ring peer_tx_head) now

-- `SkyVCState`
pub record VcState : Type 0 where
  pub state : ArqState
  pub free_tx_slots : ℕ
  pub tx_frames : ℕ
  pub rx_frames : ℕ
  pub session_identifier : ℕ

unfoldable pub get_state : VirtualChannel → VcState
get_state vc = record {
  state = vc.arq_state_flag;
  free_tx_slots = SendRing.count_free_send_slots vc.send_ring;
  tx_frames = SendRing.count_packets_to_send vc.send_ring true;
  rx_frames = RcvRing.count_readable_packets vc.rcv_ring;
  session_identifier = vc.arq_session_identifier;
}

abbrev pub send_buffer_is_full : VirtualChannel → Bool
send_buffer_is_full vc = SendRing.is_full vc.send_ring

abbrev pub count_packets_to_tx : VirtualChannel → Bool → ℕ
count_packets_to_tx vc include_resend = SendRing.count_packets_to_send vc.send_ring include_resend

abbrev pub read_packet_for_tx : VirtualChannel → Bool → Result (List ℕ × ℕ) × VirtualChannel
read_packet_for_tx vc include_resend =
    let (outcome, ring) = SendRing.read_to_tx vc.send_ring vc.element_buffer include_resend in
    (outcome, record vc { send_ring = ring })

abbrev pub count_readable_rcv_packets : VirtualChannel → ℕ
count_readable_rcv_packets vc = RcvRing.count_readable_packets vc.rcv_ring
