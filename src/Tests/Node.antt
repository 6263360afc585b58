-- ===== src/Tests/Node.antt =====
-- The properties of whole instances at concrete inputs.
use skylink.Base.{
  ℕ, ◌+◌, ◌-◌, ◌%◌, ◌≡◌, ◌≤◌, inl, inr, refl, arith, true, Option, none, some, [], ◌∷◌, take,
  replicate,
}
use skylink.Base.Int.{pos, ◌+ℤ◌, ◌-ℤ◌, ◌*ℤ◌}
use skylink.Base.Result.{ok, auth_missing}
use skylink.Utilities.{positive_modulo, raise, reduce, wrap_time_ticks}
use skylink.ElementBuffer.{BufferElement}
use skylink.ElementBuffer
use skylink.SequenceRing.{ring_wrap}
use skylink.SequenceRing.RcvRing
use skylink.Frame.{parse_extension_headers, parse_loop, add_extension_mac_tdd_control}
use skylink.Frame.Radio.{RadioFrame, clear}
use skylink.Mac.{get_mac_cycle, wrap_tdd_cycle, own_window_remaining, can_send, set_frame_fields}
use skylink.Diag as Diagnosis
use skylink.Hmac
use skylink.Hmac.{check_swapped, Hmac, HmacConfig, get_next_tx_sequence}
use skylink.Fec.{fec_encode, fec_decode}
use skylink.ReliableVc
use skylink.ReliableVc.{
  compute_required_element_count, check_config, VirtualChannel, VcConfig, ArqState, off, on,
  arq_connect, check_timeouts,
}
use skylink.ReliableVc.Frames.{fill_frame, fill_off}
use skylink.SequenceRing.SendRing
use skylink.Node.{SkyAll, Config, create}
use skylink.Node.Invariant.{IsSound}
use skylink.Node.Reach.{start, later, receive, connect, with_channel, with_golay, Reach-IsSound}
use skylink.Node.Reset.{rx-keeps_sequence_tx}
use skylink.Node.Enforcement.{tx-keeps_need}
use skylink.Node.Air.{rx_with_golay-add_phy_header}
use skylink.Rx.{rx, rx_counted, rx_with_fec, rx_with_golay}
use skylink.Rx.Channels.{rx-IsSound, rx-refused}
use skylink.Tx.{
  Transmitted, tx, tx_picked, pick_vc, pick_loop, timed_out, add_phy_header, eval_hmac_reset,
}
use skylink.Tx.Channels.{tx-IsSound}
use skylink.Tx.Turns.{stop, pass, PassedOver-bound}
use skylink.Tests.Link.{config, mac, channel, channel-IsValid, arq_config}
use skylink.Tests.Coding.{coders, plain, hmac}

abbrev vc_config : VcConfig
vc_config = record {
  usable_element_size = pos 500;
  rcv_ring_len = pos 6;
  horizon_width = pos 2;
  send_ring_len = pos 6;
  require_authentication = 7;
}

abbrev conf : Config
conf = record {
  mac = config;
  hmac = record { key_length = pos 32; maximum_jump = pos 24; key = replicate 32 7 };
  vc = λ vc. vc_config;
  arq = arq_config;
  identity = 1 ∷ 2 ∷ 3 ∷ 0 ∷ 0 ∷ 0 ∷ 0 ∷ [];
  identity_len = 3;
}

-- Every channel has a sequence to enforce.
abbrev node : SkyAll
node = record {
  conf = conf;
  diag = Diagnosis.create;
  virtual_channels = λ vc. channel off;
  mac = mac;
  hmac = record hmac { vc_enforcement_need = λ vc. 1 };
}

node-IsSound : IsSound node
node-IsSound = record {
  channels = λ vc. channel-IsValid off;
  window = ((omega arith, omega arith), omega arith);
  turn = omega arith;
}

abbrev node_of : Transmitted → SkyAll
node_of none = node
node_of (some (ret, left, frame)) = left

abbrev frame_of : Transmitted → RadioFrame
frame_of none = clear
frame_of (some (ret, left, frame)) = frame

abbrev sent : Transmitted
sent = tx coders node clear (pos 5100)

picked : pick_vc (timed_out node (pos 5100)) (pos 5100) ≡ some 0
unfolding pick_vc pick_loop
picked = refl

generated : sent ≡ some (ok true, node_of sent, frame_of sent)
unfolding tx tx_picked pick_vc pick_loop can_send own_window_remaining wrap_tdd_cycle
    wrap_time_ticks positive_modulo raise reduce ◌+ℤ◌ ◌-ℤ◌ ◌*ℤ◌ get_mac_cycle set_frame_fields
    add_extension_mac_tdd_control eval_hmac_reset fill_frame fill_off check_timeouts
    get_next_tx_sequence SendRing.peek_next_tx_size_and_sequence SendRing.count_packets_to_send
    ring_wrap
generated = refl

PassedOver-bound_example : 1 ≤ (3 + 4 - 0) % 4
PassedOver-bound_example = PassedOver-bound coders 3 (omega arith) (omega arith) (
    pass 0 (node_of sent) clear (frame_of sent) (pos 5100) refl picked (λ e. omega arith) generated
      stop)

tx-keeps_need_example : (node_of sent).hmac.vc_enforcement_need 2 ≡ 1
tx-keeps_need_example =
    tx-keeps_need coders node (node_of sent) clear (frame_of sent) (pos 5100) (ok true) generated 2

tx-IsSound_example : IsSound (node_of sent)
tx-IsSound_example =
    tx-IsSound coders node (node_of sent) clear (frame_of sent) (pos 5100) (ok true) node-IsSound
      (inl generated)

-- A coded length of 44 before a block that decodes to a frame of the channel 1 without authentication.
abbrev unauthenticated : RadioFrame
unauthenticated = record {
  rx_time_ticks = pos 5190;
  length = 47;
  raw = 0 ∷ 0 ∷ 44 ∷ replicate 226 0;
}

rx-IsSound_example :
    IsSound (rx coders node unauthenticated (pos 5200)).1
    × IsSound (rx_with_fec coders node unauthenticated (pos 5200)).1
    × IsSound (rx_with_golay coders node unauthenticated (pos 5200)).1
rx-IsSound_example = rx-IsSound coders node unauthenticated (pos 5200) node-IsSound

abbrev refused : SkyAll
refused = (rx_with_golay coders node unauthenticated (pos 5200)).1

rx-refused_example :
    (refused.virtual_channels ≡ node.virtual_channels)
    × (refused.mac ≡ node.mac)
    × (refused.hmac.sequence_rx ≡ node.hmac.sequence_rx)
unfolding rx_with_golay rx_with_fec fec_decode rx rx_counted parse_extension_headers parse_loop
    check_swapped
rx-refused_example =
    rx-refused coders node refused unauthenticated (pos 5200) auth_missing (λ e. absurd (cc e))
      (inr (inr refl))

rx-keeps_sequence_tx_example :
    (rx_with_golay coders node unauthenticated (pos 5200)).1.hmac.sequence_tx ≡ hmac.sequence_tx
rx-keeps_sequence_tx_example = rx-keeps_sequence_tx coders node unauthenticated (pos 5200)

rx_with_golay-add_phy_header_example :
    (d : Diagnosis.Diagnostics) × (out : RadioFrame) × (rx_with_golay coders node
        (add_phy_header coders (fec_encode coders plain).1)
        (pos 9)
      ≡ rx coders (record node { diag = d }) out (pos 9))
    × (out.length ≡ 12)
    × (take out.length out.raw ≡ 99 ∷ 2 ∷ 3 ∷ 4 ∷ 5 ∷ 0 ∷ 0 ∷ 0 ∷ 0 ∷ 0 ∷ 0 ∷ 42 ∷ [])
rx_with_golay-add_phy_header_example =
    rx_with_golay-add_phy_header coders node plain (pos 9) (omega arith) (omega arith) refl refl
      (λ received l d. refl) (omega arith) refl

abbrev memory : ℕ → ℕ → BufferElement
memory i j = record { previous = 0; next = 0; bytes = [] }

abbrev or_node : Option SkyAll → SkyAll
or_node none = node
or_node (some made) = made

abbrev first : SkyAll
first = or_node (create memory conf)

abbrev connected : SkyAll
connected = with_channel first 1 (arq_connect (first.virtual_channels 1) (pos 100))

Reach-IsSound_example : IsSound (rx_with_golay coders connected unauthenticated (pos 5200)).1
unfolding create Hmac.create ReliableVc.create ElementBuffer.create compute_required_element_count
    check_config ElementBuffer.element_requirement SendRing.create RcvRing.create ◌-ℤ◌
Reach-IsSound_example =
    Reach-IsSound memory conf (omega arith) refl
      (later (later start (connect 1 (pos 100))) (receive with_golay unauthenticated (pos 5200)))
