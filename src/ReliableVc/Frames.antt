-- ===== src/ReliableVc/Frames.antt =====
-- What a virtual channel of src/reliable_vc.c reads from a frame and writes to one.
use skylink.Base.{
  ℕ, ◌+◌, ◌-◌, ◌%◌, Bool, true, false, not, ◌&&◌, ◌||◌, Option, none, some, List, ◌++◌,
  if◌then◌else◌, ltb, ◌==◌, length, get_or, drop,
}
use skylink.Base.Int.{ℤ, pos, ◌-ℤ◌, ltb_ℤ, leb_ℤ}
use skylink.Base.Result.{Result, ok, err, no_space_for_payload}
use skylink.Utilities.{wrap_time_ticks, hton16}
use skylink.SequenceRing.RcvRing
use skylink.SequenceRing.SendRing
use skylink.SequenceRing.SendRing.{SendRing}
use skylink.Frame.{
  TransmitFrame, ParsedFrame, word16, word32, add_extension_arq_handshake,
  add_extension_arq_request, add_extension_arq_ctrl, add_extension_arq_sequence, get_space_left,
}
use skylink.ReliableVc.{
  VirtualChannel, ArqState, off, in_init, on, ArqConfig, wipe_to_arq_on_state, update_tx_sync,
  update_rx_sync, push_rx_packet, push_rx_packet_monotonic, read_packet_for_tx_monotonic,
}

abbrev pub state_number : ArqState → ℕ
state_number off = 0
state_number in_init = 1
state_number on = 2

-- The handshake that a channel accepts anew.
abbrev pub renewed : VirtualChannel → ℕ → ℤ → VirtualChannel
renewed vc identifier time =
    let accepted = wipe_to_arq_on_state vc identifier time in record accepted { handshake_send = 1 }

-- The switch on the state. In the code the value is 1 for true and 0 for false.
abbrev pub handshake_in : ArqState → VirtualChannel → ℕ → ℕ → ℤ → Bool × VirtualChannel
handshake_in off vc peer_state identifier time = (true, renewed vc identifier time)
handshake_in in_init vc peer_state identifier time =
    if identifier == vc.arq_session_identifier
    then (true, record vc { arq_state_flag = on; handshake_send = 0 })
    else if ltb vc.arq_session_identifier identifier
    then (true, renewed vc identifier time)
    else (false, vc)
handshake_in on vc peer_state identifier time =
    if identifier == vc.arq_session_identifier
    then (false, record vc { handshake_send = if peer_state == state_number in_init then 1 else 0 })
    else (true, renewed vc identifier time)

unfoldable pub handle_handshake : VirtualChannel → ℕ → ℕ → ℤ → Bool × VirtualChannel
handle_handshake vc peer_state identifier time =
    handshake_in vc.arq_state_flag vc peer_state identifier time

-- A byte of an extension.
abbrev pub byte_at : List ℕ → ℕ → ℕ
byte_at bs i = get_or bs i 0 % 256

-- An extension is handled where it is there. `identifier` is read as the host lays it out.
abbrev pub handle_extension : Option (List ℕ) → VirtualChannel → ℤ → VirtualChannel
handle_extension none vc time = vc
handle_extension (some handshake) vc time =
    (handle_handshake vc (byte_at handshake 0) (word32 (drop 1 handshake)) time).1

abbrev pub handle_ctrl : Option (List ℕ) → VirtualChannel → ℤ → VirtualChannel
handle_ctrl none vc now = vc
handle_ctrl (some ctrl) vc now =
    update_rx_sync (update_tx_sync vc (byte_at ctrl 1) now) (byte_at ctrl 0) now

abbrev pub handle_request : Option (List ℕ) → VirtualChannel → VirtualChannel
handle_request none vc = vc
handle_request (some request) vc = record vc {
  send_ring =
      (SendRing.schedule_resends_by_mask vc.send_ring (byte_at request 0)
        (hton16 (word16 (drop 1 request)))).1;
}

-- The payload and what follows it; the value is false for -1.
abbrev pub handle_payload :
    List ℕ → Option (List ℕ) → Option (List ℕ) → VirtualChannel → ℤ → Bool × VirtualChannel
handle_payload payload none request vc now =
    if ltb 0 (length payload) then (false, vc) else (true, handle_request request vc)
handle_payload payload (some sequence) request vc now = (
  true,
  handle_request request (
      if ltb 0 (length payload)
      then (push_rx_packet vc payload (length payload) (byte_at sequence 0) now).1
      else vc),
)

-- The switch on the state.
abbrev pub process_in : ArqState → VirtualChannel → ParsedFrame → ℤ → Bool × VirtualChannel
process_in off vc parsed now = (
  true,
  if ltb 0 (length parsed.payload)
      then (push_rx_packet_monotonic vc parsed.payload (length parsed.payload)).1
      else vc,
)
process_in in_init vc parsed now = (true, vc)
process_in on vc parsed now =
    handle_payload parsed.payload parsed.arq_sequence parsed.arq_request
      (handle_ctrl parsed.arq_ctrl vc now) now

-- What follows the handshake, in the state that it leaves.
abbrev pub process_rest : VirtualChannel → ParsedFrame → ℤ → Bool × VirtualChannel
process_rest vc parsed now = process_in vc.arq_state_flag vc parsed now

unfoldable pub process_frame : VirtualChannel → ParsedFrame → ℤ → ℤ → Bool × VirtualChannel
process_frame vc parsed now time =
    process_rest (handle_extension parsed.arq_handshake vc time) parsed now

-- Something has not happened for longer than the threshold, or payloads are not confirmed.
abbrev pub is_idle : VirtualChannel → ArqConfig → ℤ → Bool
is_idle vc config now =
    ltb_ℤ config.idle_frame_threshold (wrap_time_ticks (now -ℤ vc.last_ctrl_send_tick))
    || ltb_ℤ config.idle_frame_threshold (wrap_time_ticks (now -ℤ vc.last_tx_tick))
    || ltb_ℤ config.idle_frame_threshold (wrap_time_ticks (now -ℤ vc.last_rx_tick))
    || ltb_ℤ (pos 0) vc.unconfirmed_payloads

abbrev pub has_missing : VirtualChannel → Bool
has_missing vc = not (RcvRing.get_horizon_bitmap vc.rcv_ring == 0) || vc.need_recall

unfoldable pub content_to_send : VirtualChannel → ArqConfig → ℤ → ℕ → Bool
content_to_send vc config now frames_sent =
    let may_idle = ltb_ℤ (pos frames_sent) config.idle_frames_per_window in
    elim vc.arq_state_flag [
      | off ↦ ltb 0 (SendRing.count_packets_to_send vc.send_ring false)
      | in_init ↦ may_idle
      | on ↦
          if ltb 0 (SendRing.count_packets_to_send vc.send_ring true)
          then true
          else if may_idle && has_missing vc
          then true
          else if ltb 0 vc.handshake_send
          then true
          else may_idle && is_idle vc config now
    ]

-- The packet goes to the frame's cursor.
abbrev pub append_packet : TransmitFrame → List ℕ → TransmitFrame
append_packet tx packet = record tx {
  length = tx.length + length packet;
  written = tx.written ++ packet;
  hdr = record tx.hdr { flag_has_payload = true };
}

-- The outcome of filling a frame, the channel and the frame; `none` stands for a failed assertion.
abbrev pub Filled : Type 0
Filled = Option (Result Bool × VirtualChannel × TransmitFrame)

-- The packet that the state without ARQ has read; a failure to read is a failed assertion.
abbrev pub fill_read : TransmitFrame → Result (List ℕ × ℕ) × VirtualChannel → Filled
fill_read tx (err e, vc) = none
fill_read tx (ok (packet, sequence), vc) = some (ok true, vc, append_packet tx packet)

abbrev pub fill_peeked : VirtualChannel → TransmitFrame → Result (Result ℕ × ℕ) → Filled
fill_peeked vc tx (err e) = some (ok false, vc, tx)
fill_peeked vc tx (ok (err e, sequence)) = some (ok false, vc, tx)
fill_peeked vc tx (ok (ok size, sequence)) =
    if size == 0
    then some (ok false, vc, tx)
    else if ltb_ℤ (get_space_left tx.length) (pos size)
    then none
    else fill_read tx (read_packet_for_tx_monotonic vc)

unfoldable pub fill_off : VirtualChannel → TransmitFrame → Filled
fill_off vc tx =
    fill_peeked vc tx (SendRing.peek_next_tx_size_and_sequence vc.send_ring vc.element_buffer false)

abbrev pub filled : VirtualChannel → Option TransmitFrame → Filled
filled vc none = none
filled vc (some tx) = some (ok true, vc, tx)

unfoldable pub fill_in_init : VirtualChannel → ArqConfig → TransmitFrame → ℕ → Filled
fill_in_init vc config tx frames_sent =
    if ltb_ℤ (pos frames_sent) config.idle_frames_per_window
    then filled vc (add_extension_arq_handshake tx (state_number in_init) vc.arq_session_identifier)
    else some (ok false, vc, tx)

-- The steps with ARQ on, each of which changes the channel and the frame and may set `ret`.
abbrev pub Step : Type 0
Step = Option (Bool × VirtualChannel × TransmitFrame)

abbrev pub stepped : VirtualChannel → Option TransmitFrame → Step
stepped vc none = none
stepped vc (some tx) = some (true, vc, tx)

unfoldable pub fill_handshake : VirtualChannel → TransmitFrame → Step
fill_handshake vc tx =
    if ltb 0 vc.handshake_send
    then stepped (record vc { handshake_send = vc.handshake_send - 1 })
        (add_extension_arq_handshake tx (state_number on) vc.arq_session_identifier)
    else some (false, vc, tx)

unfoldable pub fill_request : ArqConfig → ℕ → Step → Step
fill_request config frames_sent none = none
fill_request config frames_sent (some (ret, vc, tx)) =
    if ltb_ℤ (pos frames_sent) config.idle_frames_per_window && has_missing vc
    then stepped (record vc { need_recall = false })
        (add_extension_arq_request tx vc.rcv_ring.head_sequence
          (RcvRing.get_horizon_bitmap vc.rcv_ring))
    else some (ret, vc, tx)

unfoldable pub fill_ctrl : ArqConfig → ℤ → ℕ → Step → Step
fill_ctrl config now frames_sent none = none
fill_ctrl config now frames_sent (some (ret, vc, tx)) =
    if ltb_ℤ (pos frames_sent) config.idle_frames_per_window && is_idle vc config now
      || ltb 0 (SendRing.count_packets_to_send vc.send_ring true)
    then stepped (record vc { last_ctrl_send_tick = now; unconfirmed_payloads = pos 0 })
        (add_extension_arq_ctrl tx vc.send_ring.tx_sequence vc.rcv_ring.head_sequence)
    else some (ret, vc, tx)

-- The packet that the state with ARQ has read behind its sequence extension.
abbrev pub fill_sequenced :
    VirtualChannel → Option TransmitFrame → Result (List ℕ × ℕ) × SendRing → Filled
fill_sequenced vc none outcome = none
fill_sequenced vc (some tx) (err e, ring) = none
fill_sequenced vc (some tx) (ok (packet, sequence), ring) =
    some (ok true, record vc { send_ring = ring }, append_packet tx packet)

-- A packet that does not fit is read nonetheless, and lost.
abbrev pub fill_sized : VirtualChannel → TransmitFrame → Result (Result ℕ × ℕ) → Filled
fill_sized vc tx (err e) = some (err e, vc, tx)
fill_sized vc tx (ok (err e, sequence)) = some (err e, vc, tx)
fill_sized vc tx (ok (ok size, sequence)) =
    let read = SendRing.read_to_tx vc.send_ring vc.element_buffer true in
    if leb_ℤ (pos (size + 1 + 1)) (get_space_left tx.length)
    then fill_sequenced vc (add_extension_arq_sequence tx sequence) read
    else some (err no_space_for_payload, record vc { send_ring = read.1 }, tx)

unfoldable pub fill_packet : Step → Filled
fill_packet none = none
fill_packet (some (ret, vc, tx)) =
    if ltb 0 (SendRing.count_packets_to_send vc.send_ring true)
    then fill_sized vc tx
        (SendRing.peek_next_tx_size_and_sequence vc.send_ring vc.element_buffer true)
    else some (ok ret, vc, tx)

-- The switch on the state.
abbrev pub fill_in : ArqState → VirtualChannel → ArqConfig → TransmitFrame → ℤ → ℕ → Filled
fill_in off vc config tx now frames_sent = fill_off vc tx
fill_in in_init vc config tx now frames_sent = fill_in_init vc config tx frames_sent
fill_in on vc config tx now frames_sent = fill_packet (
    fill_ctrl config now frames_sent (
      fill_request config frames_sent
        (fill_handshake vc (record tx { hdr = record tx.hdr { flag_arq_on = true } }))))

unfoldable pub fill_frame : VirtualChannel → ArqConfig → TransmitFrame → ℤ → ℕ → Filled
fill_frame vc config tx now frames_sent = fill_in vc.arq_state_flag vc config tx now frames_sent
