-- ===== src/ReliableVc/Transmit.antt =====
-- The rings of a virtual channel of src/reliable_vc.c while it fills frames.
use skylink.Base.{
  ℕ, ◌+◌, ◌≡◌, subst, arith, Bool, true, false, ◌==◌, ◌||◌, ◌&&◌, Option, none, some, List, ltb,
  Bool-cases, inl, inr,
}
use skylink.Base.Int.{ℤ, pos, ltb_ℤ, leb_ℤ}
use skylink.Base.Result.{Result, ok, err}
use skylink.SequenceRing.SendRing
use skylink.SequenceRing.SendRing.{SendRing}
use skylink.SequenceRing.SendRing.Invariant as Send
use skylink.SequenceRing.SendRing.Acknowledge.{clean_tail_up_to-IsValid}
use skylink.SequenceRing.SendRing.Pop.{read_to_tx-IsValid}
use skylink.Frame.{TransmitFrame, get_space_left}
use skylink.ReliableVc.{
  VirtualChannel, ArqState, off, in_init, on, ArqConfig, forget_sent, read_packet_for_tx_monotonic,
}
use skylink.ReliableVc.Frames.{
  Filled, Step, fill_read, fill_peeked, fill_off, filled, fill_in_init, stepped, fill_handshake,
  fill_request, fill_ctrl, fill_sequenced, fill_sized, fill_packet, fill_in, fill_frame, is_idle,
  has_missing,
}
use skylink.ReliableVc.Transfer.{IsValid}

-- The channel that is left, if an assertion has not failed, has valid rings.
abbrev FilledIsValid : Filled → Type 0
FilledIsValid none = Unit {0}
FilledIsValid (some (ret, vc, tx)) = IsValid vc

abbrev StepIsValid : Step → Type 0
StepIsValid none = Unit {0}
StepIsValid (some (ret, vc, tx)) = IsValid vc

sending-IsValid :
    (vc : VirtualChannel) (ring : SendRing)
    → IsValid vc
    → Send.IsValid ring
    → IsValid (record vc { send_ring = ring })
sending-IsValid vc ring v w = record { send = w; rcv = v.rcv; settled = v.settled }

forget_sent-IsValid :
    (vc : VirtualChannel) (outcome : Result (List ℕ × ℕ) × SendRing)
    → IsValid vc
    → Send.IsValid outcome.1
    → IsValid (forget_sent vc outcome).1
unfolding forget_sent
forget_sent-IsValid vc (err e, ring) v w = sending-IsValid vc ring v w
forget_sent-IsValid vc (ok packet, ring) v w = record {
  send =
      clean_tail_up_to-IsValid ring vc.element_buffer ring.tx_sequence w (omega (arith, w.tx_seq));
  rcv = v.rcv;
  settled = v.settled;
}

fill_read-IsValid :
    (tx : TransmitFrame) (outcome : Result (List ℕ × ℕ) × VirtualChannel)
    → IsValid outcome.1
    → FilledIsValid (fill_read tx outcome)
fill_read-IsValid tx (err e, vc) v = tt
fill_read-IsValid tx (ok (packet, sequence), vc) v = v

peeked-IsValid :
    (vc : VirtualChannel) (tx : TransmitFrame) (peeked : Result (Result ℕ × ℕ))
    → IsValid vc
    → FilledIsValid (fill_peeked vc tx peeked)
unfolding read_packet_for_tx_monotonic
peeked-IsValid vc tx (err e) v = v
peeked-IsValid vc tx (ok (err e, sequence)) v = v
peeked-IsValid vc tx (ok (ok size, sequence)) v = elim (Bool-cases (size == 0)) [
  | inl empty ↦ rw empty v
  | inr some_bytes ↦ elim (Bool-cases (ltb_ℤ (get_space_left tx.length) (pos size))) [
    | inl long ↦ rw (some_bytes, long) tt
    | inr short ↦
        rw (some_bytes, short)
          (fill_read-IsValid tx (read_packet_for_tx_monotonic vc) (
            forget_sent-IsValid vc (SendRing.read_to_tx vc.send_ring vc.element_buffer false) v
              (read_to_tx-IsValid vc.send_ring vc.element_buffer false v.send)))
  ]
]

filled-IsValid :
    (vc : VirtualChannel) (tx : Option TransmitFrame) → IsValid vc → FilledIsValid (filled vc tx)
filled-IsValid vc none v = tt
filled-IsValid vc (some tx) v = v

stepped-IsValid :
    (vc : VirtualChannel) (tx : Option TransmitFrame) → IsValid vc → StepIsValid (stepped vc tx)
stepped-IsValid vc none v = tt
stepped-IsValid vc (some tx) v = v

in_init-IsValid :
    (vc : VirtualChannel) (config : ArqConfig) (tx : TransmitFrame) (frames_sent : ℕ)
    → IsValid vc
    → FilledIsValid (fill_in_init vc config tx frames_sent)
unfolding fill_in_init
in_init-IsValid vc config tx frames_sent v =
    elim (Bool-cases (ltb_ℤ (pos frames_sent) config.idle_frames_per_window)) [
      | inl may ↦ rw may (filled-IsValid vc _ v)
      | inr spent ↦ rw spent v
    ]

with_handshake-IsValid :
    (vc : VirtualChannel) (tx : TransmitFrame) → IsValid vc → StepIsValid (fill_handshake vc tx)
unfolding fill_handshake
with_handshake-IsValid vc tx v = elim (Bool-cases (ltb 0 vc.handshake_send)) [
  | inl pending ↦
      rw pending (stepped-IsValid _ _ (record { send = v.send; rcv = v.rcv; settled = v.settled }))
  | inr sent ↦ rw sent v
]

with_request-IsValid :
    (config : ArqConfig) (frames_sent : ℕ) (step : Step)
    → StepIsValid step
    → StepIsValid (fill_request config frames_sent step)
unfolding fill_request
with_request-IsValid config frames_sent none v = tt
with_request-IsValid config frames_sent (some (ret, vc, tx)) v =
    elim (Bool-cases (ltb_ℤ (pos frames_sent) config.idle_frames_per_window && has_missing vc)) [
      | inl missing ↦
          rw missing
            (stepped-IsValid _ _ (record { send = v.send; rcv = v.rcv; settled = v.settled }))
      | inr complete ↦ rw complete v
    ]

with_ctrl-IsValid :
    (config : ArqConfig) (now : ℤ) (frames_sent : ℕ) (step : Step)
    → StepIsValid step
    → StepIsValid (fill_ctrl config now frames_sent step)
unfolding fill_ctrl
with_ctrl-IsValid config now frames_sent none v = tt
with_ctrl-IsValid config now frames_sent (some (ret, vc, tx)) v =
    elim (Bool-cases (
      ltb_ℤ (pos frames_sent) config.idle_frames_per_window && is_idle vc config now
      || ltb 0 (SendRing.count_packets_to_send vc.send_ring true))) [
        | inl due ↦
            rw due
              (stepped-IsValid _ _ (record { send = v.send; rcv = v.rcv; settled = v.settled }))
        | inr quiet ↦ rw quiet v
      ]

sequenced-IsValid :
    (vc : VirtualChannel) (tx : Option TransmitFrame) (outcome : Result (List ℕ × ℕ) × SendRing)
    → IsValid vc
    → Send.IsValid outcome.1
    → FilledIsValid (fill_sequenced vc tx outcome)
sequenced-IsValid vc none outcome v w = tt
sequenced-IsValid vc (some tx) (err e, ring) v w = tt
sequenced-IsValid vc (some tx) (ok (packet, sequence), ring) v w = sending-IsValid vc ring v w

sized-IsValid :
    (vc : VirtualChannel) (tx : TransmitFrame) (peeked : Result (Result ℕ × ℕ))
    → IsValid vc
    → FilledIsValid (fill_sized vc tx peeked)
sized-IsValid vc tx (err e) v = v
sized-IsValid vc tx (ok (err e, sequence)) v = v
sized-IsValid vc tx (ok (ok size, sequence)) v =
    let w = read_to_tx-IsValid vc.send_ring vc.element_buffer true v.send in
    let read = SendRing.read_to_tx vc.send_ring vc.element_buffer true in
    elim (Bool-cases (leb_ℤ (pos (size + 1 + 1)) (get_space_left tx.length))) [
      | inl fits ↦ rw fits (sequenced-IsValid vc _ read v w)
      | inr long ↦ rw long (sending-IsValid vc read.1 v w)
    ]

with_packet-IsValid : (step : Step) → StepIsValid step → FilledIsValid (fill_packet step)
unfolding fill_packet
with_packet-IsValid none v = tt
with_packet-IsValid (some (ret, vc, tx)) v =
    elim (Bool-cases (ltb 0 (SendRing.count_packets_to_send vc.send_ring true))) [
      | inl waiting ↦ rw waiting (sized-IsValid vc tx _ v)
      | inr empty ↦ rw empty v
    ]

fill_in-IsValid :
    (s : ArqState) (vc : VirtualChannel) (config : ArqConfig) (tx : TransmitFrame) (now : ℤ)
    (frames_sent : ℕ)
    → IsValid vc
    → FilledIsValid (fill_in s vc config tx now frames_sent)
unfolding fill_off
fill_in-IsValid off vc config tx now frames_sent v =
    peeked-IsValid vc tx
      (SendRing.peek_next_tx_size_and_sequence vc.send_ring vc.element_buffer false) v
fill_in-IsValid in_init vc config tx now frames_sent v = in_init-IsValid vc config tx frames_sent v
fill_in-IsValid on vc config tx now frames_sent v = with_packet-IsValid _ (
    with_ctrl-IsValid config now frames_sent _
      (with_request-IsValid config frames_sent _ (with_handshake-IsValid vc _ v)))

-- Filling a frame, in whatever state, leaves a channel with valid rings valid on every branch that no
-- failed assertion ends: handshakes, requests and control extensions, packets sent, sent again or too
-- long for the frame.
pub fill_frame-IsValid :
    (vc vc' : VirtualChannel) (config : ArqConfig) (tx tx' : TransmitFrame) (now : ℤ)
    (frames_sent : ℕ) (ret : Result Bool)
    → IsValid vc
    → fill_frame vc config tx now frames_sent ≡ some (ret, vc', tx')
    → IsValid vc'
unfolding fill_frame
fill_frame-IsValid vc vc' config tx tx' now frames_sent ret v e =
    subst FilledIsValid e (fill_in-IsValid vc.arq_state_flag vc config tx now frames_sent v)
