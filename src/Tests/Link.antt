-- ===== src/Tests/Link.antt =====
-- The properties of frames, of the medium access control and of virtual channels at concrete inputs.
use skylink.Base.{ℕ, ◌+◌, ◌%◌, ◌<◌, ◌≡◌, ◌↔◌, refl, arith, true, false, List, [], ◌∷◌, some, none}
use skylink.Base.Int.{pos, ◌+ℤ◌, ◌-ℤ◌, ◌*ℤ◌, ◌≤ℤ◌}
use skylink.Base.Result.{ok}
use skylink.Utilities.{hton32, mod_time_ticks, positive_modulo, raise, reduce, wrap_time_ticks}
use skylink.Frame.{
  StaticHeader, TransmitFrame, ParsedFrame, parse_extension_headers, add_extension_arq_ctrl,
  add_extension_arq_sequence, append_extension,
}
use skylink.Frame.Parse.{parse_all, parse_extension_headers-encode, data_frame-parses}
use skylink.Mac.{
  wrap_tdd_cycle, Mac, MacConfig, get_mac_cycle, time_to_own_window, can_send, own_window_remaining,
  expand_window, update_belief,
}
use skylink.Mac.Windows.{can_send_iff, expand_window-opens, IsLimited}
use skylink.Mac.Wait.{time_to_own_window-waits}
use skylink.Mac.Belief.{update_belief-turns}
use skylink.SequenceRing.{empty_item}
use skylink.SequenceRing.RcvRing.{RcvRing}
use skylink.SequenceRing.SendRing.{SendRing}
use skylink.ReliableVc.{VirtualChannel, ArqState, off, in_init, on, ArqConfig}
use skylink.ReliableVc.Frames.{handle_extension, fill_in_init, fill_handshake}
use skylink.ReliableVc.Transfer.{IsValid}
use skylink.ReliableVc.Handshake.{greeting, handle_handshake-connects}
use skylink.Tests.Storage.{buffer}

abbrev pub header : ℕ → StaticHeader
header extension_length = record {
  vc = 1;
  flag_arq_on = true;
  flag_authenticated = false;
  flag_has_payload = false;
  sequence_control = 0;
  frame_sequence = 0;
  extension_length = extension_length;
}

abbrev pub parsed : ℕ → ParsedFrame
parsed extension_length = record {
  hdr = header extension_length;
  arq_sequence = none;
  arq_request = none;
  arq_ctrl = none;
  arq_handshake = none;
  mac_tdd = none;
  hmac_reset = none;
  payload = [];
}

abbrev pub frame : TransmitFrame
frame = record { hdr = header 0; length = 11; written = [] }

-- The version byte with an identity of three bytes, the identity and the static header.
abbrev start : List ℕ
start = 99 ∷ 1 ∷ 2 ∷ 3 ∷ 5 ∷ 0 ∷ 0 ∷ 0 ∷ 0 ∷ 0 ∷ 5 ∷ []

abbrev twice : List (ℕ × List ℕ)
twice = (0, 7 ∷ []) ∷ (0, 8 ∷ []) ∷ []

parse_extension_headers-encode_example :
    parse_extension_headers
      (99 ∷ 1 ∷ 2 ∷ 3 ∷ 5 ∷ 0 ∷ 0 ∷ 0 ∷ 0 ∷ 0 ∷ 4 ∷ 16 ∷ 7 ∷ 16 ∷ 8 ∷ 42 ∷ [])
      16
      (parsed 4)
    ≡ parse_all twice (ok (parsed 4))
parse_extension_headers-encode_example =
    parse_extension_headers-encode twice (99 ∷ 1 ∷ 2 ∷ 3 ∷ 5 ∷ 0 ∷ 0 ∷ 0 ∷ 0 ∷ 0 ∷ 4 ∷ []) (42 ∷ [])
      16 (parsed 4) refl refl (omega arith)
      (omega arith, omega arith, (omega arith, omega arith, tt))

data_frame-parses_example :
    (tx1 : TransmitFrame) × (tx2 : TransmitFrame) × (add_extension_arq_ctrl frame 9 4 ≡ some tx1)
    × (add_extension_arq_sequence tx1 8 ≡ some tx2)
    × (tx2.written ≡ 34 ∷ 9 ∷ 4 ∷ 16 ∷ 8 ∷ [])
    × (tx2.hdr.extension_length ≡ 5)
    × (tx2.length ≡ 16)
    × (parse_extension_headers
          (99 ∷ 1 ∷ 2 ∷ 3 ∷ 5 ∷ 0 ∷ 0 ∷ 0 ∷ 0 ∷ 0 ∷ 5 ∷ 34 ∷ 9 ∷ 4 ∷ 16 ∷ 8 ∷ 42 ∷ [])
          17
          (parsed 5)
        ≡ ok (record (parsed 5) { arq_ctrl = some (9 ∷ 4 ∷ []); arq_sequence = some (8 ∷ []) }))
data_frame-parses_example =
    data_frame-parses frame start (42 ∷ []) 9 4 8 17 (parsed 5) refl refl refl (omega arith) refl
      refl refl refl (omega arith)

abbrev pub config : MacConfig
config = record {
  maximum_window_length_ticks = pos 1000;
  minimum_window_length_ticks = pos 250;
  gap_constant_ticks = pos 600;
  tail_constant_ticks = pos 80;
  shift_threshold_ticks = pos 10000;
  idle_timeout_ticks = pos 25000;
  window_adjust_increment_ticks = pos 250;
  carrier_sense_ticks = pos 200;
  unauthenticated_mac_updates = 0;
  window_adjustment_period = pos 2;
  idle_frames_per_window = 1;
}

abbrev pub mac : Mac
mac = record {
  config = config;
  t0 = pos 5000;
  my_window_length = pos 500;
  peer_window_length = pos 400;
  last_belief_update = pos 4000;
  window_adjust_counter = pos 1;
  vc_round_robin_start = 0;
  window_on = true;
  unused_window_time = false;
  frames_sent_in_current_window_per_vc = 0 ∷ 0 ∷ 0 ∷ 0 ∷ [];
  total_frames_sent_in_current_window = 0;
}

can_send_iff_example :
    ((can_send mac (pos 5600) ≡ true) ↔ (time_to_own_window mac (pos 5600) ≡ pos 0))
    × (time_to_own_window mac (pos 5600) ≤ℤ pos 1580)
unfolding get_mac_cycle ◌+ℤ◌
can_send_iff_example = can_send_iff mac (pos 5600) 1580 refl (omega arith)

expand_window-opens_example :
    let mac' = expand_window mac (pos 100) in
    IsLimited mac'
    × (pos 500 ≤ℤ mac'.my_window_length)
    × (own_window_remaining mac' (pos 100) ≡ mac'.my_window_length)
unfolding expand_window get_mac_cycle ◌+ℤ◌
expand_window-opens_example =
    expand_window-opens mac 100 1830 (omega arith, omega arith) (omega arith) refl (omega arith)
      (omega arith) (omega arith)

update_belief-turns_example :
    let mac' = update_belief mac (pos 100) (pos 100) (pos 350) (pos 120) in
    (mac'.peer_window_length ≡ pos 350)
    × (mac'.last_belief_update ≡ pos 100)
    × (time_to_own_window mac' (pos 100) ≡ pos 200)
update_belief-turns_example =
    update_belief-turns mac 100 500 600 80 350 120 refl refl refl (omega arith) (omega arith)
      (omega arith) (omega arith) (omega arith) (omega arith)

abbrev pub send_ring : SendRing
send_ring = record {
  buff = λ i. empty_item;
  size = 8;
  head = 0;
  tx_head = 0;
  tail = 0;
  head_sequence = 0;
  tx_sequence = 0;
  tail_sequence = 0;
  storage_count = 0;
  resend_count = 0;
  resend_list = 0 ∷ 0 ∷ 0 ∷ 0 ∷ 0 ∷ 0 ∷ 0 ∷ 0 ∷ 0 ∷ 0 ∷ 0 ∷ 0 ∷ 0 ∷ 0 ∷ 0 ∷ 0 ∷ [];
}

abbrev pub rcv_ring : RcvRing
rcv_ring = record {
  buff = λ i. empty_item;
  size = 8;
  horizon_width = 3;
  head = 0;
  tail = 0;
  head_sequence = 0;
  tail_sequence = 0;
  storage_count = 0;
}

abbrev pub channel : ArqState → VirtualChannel
channel state = record {
  element_buffer = buffer;
  send_ring = send_ring;
  rcv_ring = rcv_ring;
  arq_state_flag = state;
  handshake_send = 0;
  arq_session_identifier = 66051;
  need_recall = false;
  last_tx_tick = pos 0;
  last_rx_tick = pos 0;
  last_ctrl_send_tick = pos 0;
  unconfirmed_payloads = pos 0;
}

pub channel-IsValid : (state : ArqState) → IsValid (channel state)
channel-IsValid state = record {
  send = record {
    u8_size = omega arith;
    head_in = omega arith;
    tx_in = omega arith;
    tail_in = omega arith;
    tail_u8 = omega arith;
    order = omega arith;
    tx_seq = refl;
    head_seq = refl;
    items = λ k p. absurd (omega arith);
    storage = refl;
    resends = omega arith;
    list = refl;
  };
  rcv = record {
    head_in = omega arith;
    tail_in = omega arith;
    head_u8 = omega arith;
    tail_u8 = omega arith;
    sequences = refl;
    room = omega arith;
    narrow = omega arith;
    received = λ k p. absurd (omega arith);
  };
  settled = refl;
}

-- A frame with a control extension, a sequence and a payload.
abbrev data_frame : ParsedFrame
data_frame = record (parsed 5) {
  arq_ctrl = some (1 ∷ 0 ∷ []);
  arq_sequence = some (0 ∷ []);
  payload = 42 ∷ [];
}

abbrev pub arq_config : ArqConfig
arq_config = record {
  timeout_ticks = pos 10000;
  idle_frame_threshold = pos 1000;
  idle_frames_per_window = pos 1;
}

handle_handshake-connects_example :
    let a = channel in_init in
    let b' = handle_extension (some (greeting in_init 66051)) (channel off) (pos 9) in
    let answer = greeting on b'.arq_session_identifier in
    let a' = handle_extension (some answer) a (pos 10) in
    (fill_in_init a arq_config frame 0
      ≡ some (ok true, a, append_extension frame 3 (greeting in_init 66051)))
    × (b'.arq_state_flag ≡ on)
    × (b'.arq_session_identifier ≡ hton32 66051)
    × (fill_handshake b' frame
        ≡ some (true, record b' { handshake_send = 0 }, append_extension frame 3 answer))
    × (a'.arq_state_flag ≡ on)
    × (a'.arq_session_identifier ≡ 66051)
    × (a'.handshake_send ≡ 0)
handle_handshake-connects_example =
    handle_handshake-connects (channel in_init) (channel off) arq_config frame frame 0 (pos 9)
      (pos 10) refl (omega arith) refl refl refl refl

waits_980 : time_to_own_window mac (pos 5600) ≡ pos 980
unfolding time_to_own_window get_mac_cycle wrap_tdd_cycle wrap_time_ticks positive_modulo raise
    reduce ◌+ℤ◌ ◌-ℤ◌ ◌*ℤ◌
waits_980 = refl

time_to_own_window-waits_example :
    (can_send mac (pos 6580) ≡ true)
    × ((k : ℕ) → k < 980 → can_send mac (pos ((5600 + k) % mod_time_ticks)) ≡ false)
unfolding get_mac_cycle ◌+ℤ◌ ◌-ℤ◌
time_to_own_window-waits_example =
    time_to_own_window-waits mac 5600 5000 500 1580 980 refl refl refl (omega arith) (omega arith)
      (omega arith) (omega arith) waits_980 (omega arith)
