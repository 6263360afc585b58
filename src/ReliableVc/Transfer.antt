-- ===== src/ReliableVc/Transfer.antt =====
-- The rings of a virtual channel of src/reliable_vc.c while it processes frames.
use skylink.Base.{ℕ, ◌<◌, arith, ◌==◌, Option, none, some, List, ltb, length, Bool-cases, inl, inr}
use skylink.Base.Int.{ℤ}
use skylink.Base.Result.{Result, ok, err}
use skylink.SequenceRing.RcvRing
use skylink.SequenceRing.RcvRing.{RcvRing}
use skylink.SequenceRing.RcvRing.Invariant
use skylink.SequenceRing.RcvRing.Horizon.{push_rx_packet-IsValid}
use skylink.SequenceRing.RcvRing.Create.{wipe-IsSettled}
use skylink.SequenceRing.SendRing.Invariant as Send
use skylink.SequenceRing.SendRing.Recall.{wiped}
use skylink.SequenceRing.SendRing.Mask.{schedule_resends_by_mask-IsValid}
use skylink.SequenceRing.SendRing.Acknowledge.{clean_tail_up_to-IsValid}
use skylink.Frame.{ParsedFrame}
use skylink.ReliableVc.{
  VirtualChannel, wipe_send, wipe_rcv, wipe_to_arq_off_state, wipe_to_arq_on_state, update_tx_sync,
  update_rx_sync, rx_synced, is_out_of_sync, push_rx_packet, push_rx_packet_monotonic, ArqState,
  off, in_init, on,
}
use skylink.ReliableVc.Frames.{
  handle_handshake, handle_extension, handle_ctrl, handle_request, handle_payload, process_in,
  process_frame, byte_at, renewed, handshake_in,
}

-- Both rings are valid, and the head of the receive ring is settled.
pub record IsValid (vc : VirtualChannel) : Type 0 where
  pub send : Send.IsValid vc.send_ring
  pub rcv : Invariant.IsValid vc.rcv_ring
  pub settled : Invariant.IsSettled vc.rcv_ring

pub wipe_send-IsValid : (vc : VirtualChannel) → IsValid vc → IsValid (wipe_send vc)
wipe_send-IsValid vc v = record {
  send =
      (wiped vc.send_ring (some vc.element_buffer) 0 (omega (arith, v.send.head_in)) v.send.u8_size
        (omega arith)).0;
  rcv = v.rcv;
  settled = v.settled;
}

pub wipe_rcv-IsValid : (vc : VirtualChannel) → IsValid vc → IsValid (wipe_rcv vc)
wipe_rcv-IsValid vc v =
    let w =
      wipe-IsSettled vc.rcv_ring (some vc.element_buffer) 0 (omega (arith, v.rcv.room)) v.rcv.narrow
        (omega arith) in
    record { send = v.send; rcv = w.0; settled = w.1 }

pub off-IsValid : (vc : VirtualChannel) → IsValid vc → IsValid (wipe_to_arq_off_state vc)
unfolding wipe_to_arq_off_state
off-IsValid vc v =
    let w = wipe_rcv-IsValid (wipe_send vc) (wipe_send-IsValid vc v) in
    record { send = w.send; rcv = w.rcv; settled = w.settled }

on-IsValid :
    (vc : VirtualChannel) (identifier : ℕ) (time : ℤ)
    → IsValid vc
    → IsValid (wipe_to_arq_on_state vc identifier time)
unfolding wipe_to_arq_on_state
on-IsValid vc identifier time v =
    let w = wipe_send-IsValid (wipe_rcv vc) (wipe_rcv-IsValid vc v) in
    record { send = w.send; rcv = w.rcv; settled = w.settled }

tx_sync-IsValid :
    (vc : VirtualChannel) (s : ℕ) (now : ℤ)
    → s < 256
    → IsValid vc
    → IsValid (update_tx_sync vc s now)
unfolding update_tx_sync
tx_sync-IsValid vc s now u8 v = record {
  send = clean_tail_up_to-IsValid vc.send_ring vc.element_buffer s v.send u8;
  rcv = v.rcv;
  settled = v.settled;
}

rx_synced-IsValid :
    (vc : VirtualChannel) (o : Result (Unit {0})) (now : ℤ)
    → IsValid vc
    → IsValid (rx_synced vc o now)
rx_synced-IsValid vc (ok tt) now v = record { send = v.send; rcv = v.rcv; settled = v.settled }
rx_synced-IsValid vc (err e) now v = elim (Bool-cases (is_out_of_sync e)) [
  | inl recall ↦ rw recall (record { send = v.send; rcv = v.rcv; settled = v.settled })
  | inr other ↦ rw other v
]

ctrl-IsValid :
    (ctrl : Option (List ℕ)) (vc : VirtualChannel) (now : ℤ)
    → IsValid vc
    → IsValid (handle_ctrl ctrl vc now)
unfolding update_rx_sync
ctrl-IsValid none vc now v = v
ctrl-IsValid (some ctrl) vc now v =
    rx_synced-IsValid (update_tx_sync vc (byte_at ctrl 1) now)
      (RcvRing.get_sequence_sync_status (update_tx_sync vc (byte_at ctrl 1) now).rcv_ring
        (byte_at ctrl 0))
      now (tx_sync-IsValid vc (byte_at ctrl 1) now (omega arith) v)

request-IsValid :
    (request : Option (List ℕ)) (vc : VirtualChannel)
    → IsValid vc
    → IsValid (handle_request request vc)
request-IsValid none vc v = v
request-IsValid (some request) vc v = record {
  send = schedule_resends_by_mask-IsValid vc.send_ring (byte_at request 0) _ v.send;
  rcv = v.rcv;
  settled = v.settled;
}

received-IsValid :
    (vc : VirtualChannel) (src : List ℕ) (length sequence : ℕ) (now : ℤ)
    → IsValid vc
    → IsValid (push_rx_packet vc src length sequence now).1
      × IsValid (push_rx_packet_monotonic vc src length).1
unfolding push_rx_packet push_rx_packet_monotonic
received-IsValid vc src length sequence now v =
    let a =
      push_rx_packet-IsValid vc.rcv_ring vc.element_buffer src length v.rcv sequence v.settled in
    let b =
      push_rx_packet-IsValid vc.rcv_ring vc.element_buffer src length v.rcv
        vc.rcv_ring.head_sequence v.settled in
    (
      record { send = v.send; rcv = a.0; settled = a.1 },
      record { send = v.send; rcv = b.0; settled = b.1 },
    )

renewed-IsValid :
    (vc : VirtualChannel) (identifier : ℕ) (time : ℤ)
    → IsValid vc
    → IsValid (renewed vc identifier time)
renewed-IsValid vc identifier time v =
    let w = on-IsValid vc identifier time v in
    record { send = w.send; rcv = w.rcv; settled = w.settled }

handshake-IsValid :
    (s : ArqState) (vc : VirtualChannel) (peer_state identifier : ℕ) (time : ℤ)
    → IsValid vc
    → IsValid (handshake_in s vc peer_state identifier time).1
handshake-IsValid off vc peer_state identifier time v = renewed-IsValid vc identifier time v
handshake-IsValid in_init vc peer_state identifier time v =
    elim (Bool-cases (identifier == vc.arq_session_identifier)) [
      | inl same ↦ rw same (record { send = v.send; rcv = v.rcv; settled = v.settled })
      | inr other ↦ elim (Bool-cases (ltb vc.arq_session_identifier identifier)) [
        | inl newer ↦ rw (other, newer) (renewed-IsValid vc identifier time v)
        | inr older ↦ rw (other, older) v
      ]
    ]
handshake-IsValid on vc peer_state identifier time v =
    elim (Bool-cases (identifier == vc.arq_session_identifier)) [
      | inl same ↦ rw same (record { send = v.send; rcv = v.rcv; settled = v.settled })
      | inr other ↦ rw other (renewed-IsValid vc identifier time v)
    ]

extension-IsValid :
    (handshake : Option (List ℕ)) (vc : VirtualChannel) (time : ℤ)
    → IsValid vc
    → IsValid (handle_extension handshake vc time)
unfolding handle_handshake
extension-IsValid none vc time v = v
extension-IsValid (some handshake) vc time v =
    handshake-IsValid vc.arq_state_flag vc (byte_at handshake 0) _ time v

payload-IsValid :
    (payload : List ℕ) (sequence request : Option (List ℕ)) (vc : VirtualChannel) (now : ℤ)
    → IsValid vc
    → IsValid (handle_payload payload sequence request vc now).1
payload-IsValid payload none request vc now v = elim (Bool-cases (ltb 0 (length payload))) [
  | inl some_bytes ↦ rw some_bytes v
  | inr empty ↦ rw empty (request-IsValid request vc v)
]
payload-IsValid payload (some sequence) request vc now v =
    request-IsValid request _ (elim (Bool-cases (ltb 0 (length payload))) [
      | inl some_bytes ↦
          rw some_bytes (received-IsValid vc payload (length payload) (byte_at sequence 0) now v).0
      | inr empty ↦ rw empty v
    ])

rest-IsValid :
    (s : ArqState) (vc : VirtualChannel) (parsed : ParsedFrame) (now : ℤ)
    → IsValid vc
    → IsValid (process_in s vc parsed now).1
rest-IsValid off vc parsed now v = elim (Bool-cases (ltb 0 (length parsed.payload))) [
  | inl some_bytes ↦
      rw some_bytes (received-IsValid vc parsed.payload (length parsed.payload) 0 now v).1
  | inr empty ↦ rw empty v
]
rest-IsValid in_init vc parsed now v = v
rest-IsValid on vc parsed now v =
    payload-IsValid parsed.payload parsed.arq_sequence parsed.arq_request
      (handle_ctrl parsed.arq_ctrl vc now) now (ctrl-IsValid parsed.arq_ctrl vc now v)

-- Whatever frame a channel with valid rings receives, in whatever state, its rings are valid afterwards:
-- handshakes that wipe them, acknowledgements, synchronisation, payloads and retransmission
-- requests included, taken or refused.
pub process_frame-IsValid :
    (vc : VirtualChannel) (parsed : ParsedFrame) (now time : ℤ)
    → IsValid vc
    → IsValid (process_frame vc parsed now time).1
unfolding process_frame
process_frame-IsValid vc parsed now time v =
    let vc' = handle_extension parsed.arq_handshake vc time in
    rest-IsValid vc'.arq_state_flag vc' parsed now
      (extension-IsValid parsed.arq_handshake vc time v)
