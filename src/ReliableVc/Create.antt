-- ===== src/ReliableVc/Create.antt =====
-- The operations of a virtual channel of src/reliable_vc.c that the application calls.
use skylink.Base.{
  ℕ, ◌+◌, ◌-◌, ◌≤◌, ◌≡◌, refl, sym, ap, ◌∙◌, subst, arith, Option, none, some, List, ltb,
  Bool-cases, inl, inr,
}
use skylink.Base.Int.{ℤ, pos, pos_part}
use skylink.ElementBuffer
use skylink.ElementBuffer.{ElementBuffer, BufferElement}
use skylink.SequenceRing.RcvRing
use skylink.SequenceRing.RcvRing.{RcvRing}
use skylink.SequenceRing.RcvRing.Invariant as Rcv
use skylink.SequenceRing.RcvRing.Create.{create-IsValid}
use skylink.SequenceRing.RcvRing.Horizon.{read_next_received-IsValid}
use skylink.SequenceRing.SendRing
use skylink.SequenceRing.SendRing.{SendRing}
use skylink.SequenceRing.SendRing.Invariant as Send
use skylink.SequenceRing.SendRing.Recall.{create-empty, push_packet_to_send-IsValid}
use skylink.Frame.{payload_max_len}
use skylink.ReliableVc.{
  VirtualChannel, VcConfig, within, check_config, compute_required_element_count, of_parts,
  assembled, create, wipe_to_arq_init_state, push_packet_to_send, read_next_received, wipe_rcv,
}
use skylink.ReliableVc.Transfer.{IsValid, off-IsValid, wipe_send-IsValid, wipe_rcv-IsValid}

within_bounds :
    (low high default : ℕ) (x : ℤ)
    → low ≤ default
    → default ≤ high
    → (n : ℕ) × (within (pos low) (pos high) (pos default) x ≡ pos n) × (low ≤ n) × (n ≤ high)
within_bounds low high default x h k = (
  pos_part (within (pos low) (pos high) (pos default) x),
  ground arith,
  ground arith,
  ground arith,
)

abbrev IsSend : Option SendRing → Type 0
IsSend none = Unit {0}
IsSend (some ring) = Send.IsValid ring

abbrev IsMade : Option VirtualChannel → Type 0
IsMade none = Unit {0}
IsMade (some vc) = IsValid vc

send_of :
    (length : ℤ) (n : ℕ) (ring : SendRing)
    → length ≡ pos n
    → 6 ≤ n
    → n ≤ 250
    → SendRing.create length 0 ≡ some ring
    → Send.IsValid ring
send_of length n ring e few many made =
    let (r, created, v, empty, tail, free) =
      create-empty n 0 (omega arith) (omega arith) (omega arith) in
    subst (λ (o : Option SendRing). IsSend o)
      (sym created ∙ ap (λ l. SendRing.create l 0) (sym e) ∙ made) v

of_parts-IsValid :
    (eb : Option ElementBuffer) (send : Option SendRing) (rcv : Option RcvRing)
    (vc : VirtualChannel)
    → ((ring : SendRing) → send ≡ some ring → Send.IsValid ring)
    → ((ring : RcvRing) → rcv ≡ some ring → Rcv.IsValid ring × Rcv.IsSettled ring)
    → assembled eb send rcv ≡ some vc
    → IsValid vc
of_parts-IsValid none send rcv vc s r e = absurd (ground (arith, e))
of_parts-IsValid (some eb) none rcv vc s r e = absurd (ground (arith, e))
of_parts-IsValid (some eb) (some send) none vc s r e = absurd (ground (arith, e))
of_parts-IsValid (some eb) (some send) (some rcv) vc s r e =
    let v = r rcv refl in
    subst IsMade e
      (off-IsValid (of_parts eb send rcv) (record { send = s send refl; rcv = v.0; settled = v.1 }))

-- A channel that is created, whatever the configuration and the memory, has valid rings.
pub created-IsValid :
    (raw : ℕ → BufferElement) (config : VcConfig) (vc : VirtualChannel)
    → create raw config ≡ some vc
    → IsValid vc
unfolding create check_config
created-IsValid raw config vc e =
    let c = check_config config in
    let (n, few, low, high) =
      within_bounds 6 250 32 config.send_ring_len (omega arith) (omega arith) in
    let usable = pos_part c.usable_element_size in
    let slots = pos_part c.rcv_ring_len + pos_part c.send_ring_len - 2 in
    of_parts-IsValid
      (ElementBuffer.create raw usable
        (compute_required_element_count (usable + 4) slots payload_max_len))
      (SendRing.create c.send_ring_len 0) (RcvRing.create c.rcv_ring_len c.horizon_width 0) vc
      (λ ring made. send_of c.send_ring_len n ring few low high made)
      (λ ring made.
        let v = create-IsValid c.rcv_ring_len c.horizon_width 0 ring (omega arith) made in
        (v.0, v.1))
      e

pub connect-IsValid :
    (vc : VirtualChannel) (time : ℤ) → IsValid vc → IsValid (wipe_to_arq_init_state vc time)
unfolding wipe_to_arq_init_state
connect-IsValid vc time v =
    let w = wipe_send-IsValid (wipe_rcv vc) (wipe_rcv-IsValid vc v) in
    record { send = w.send; rcv = w.rcv; settled = w.settled }

pub push-IsValid :
    (vc : VirtualChannel) (payload : List ℕ) (length : ℕ)
    → IsValid vc
    → IsValid (push_packet_to_send vc payload length).1
unfolding push_packet_to_send
push-IsValid vc payload length v = elim (Bool-cases (ltb payload_max_len length)) [
  | inl long ↦ rw long v
  | inr short ↦ rw short (record {
    send = push_packet_to_send-IsValid vc.send_ring vc.element_buffer payload length v.send;
    rcv = v.rcv;
    settled = v.settled;
  })
]

pub read-IsValid :
    (vc : VirtualChannel) (max_length : ℕ)
    → IsValid vc
    → IsValid (read_next_received vc max_length).1
unfolding read_next_received
read-IsValid vc max_length v =
    let w = read_next_received-IsValid vc.rcv_ring vc.element_buffer max_length v.rcv v.settled in
    record { send = v.send; rcv = w.0; settled = w.1 }
