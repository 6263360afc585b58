-- ===== src/SequenceRing/RcvRing/Horizon.antt =====
-- What the receive ring of src/sequence_ring.c accepts and hands out.
use skylink.Base.{
  ℕ, ◌+◌, ◌-◌, ◌%◌, ◌^◌, ◌<◌, ◌≤◌, ◌≡◌, ◌⊎◌, refl, arith, true, false, if◌then◌else◌, ltb, ◌==◌,
  Bool-cases, inl, inr, List,
}
use skylink.Base.Int.{pos}
use skylink.Base.Result.{Result, ok, err, ring_invalid_sequence, ring_packet_already_in}
use skylink.ElementBuffer
use skylink.ElementBuffer.{ElementBuffer}
use skylink.SequenceRing.{is_vacant, ring_wrap, seq_next, seq_diff}
use skylink.SequenceRing.Wrap.{ring_wrap_pos}
use skylink.SequenceRing.RcvRing.{
  RcvRing, count_readable_packets, advance_head, drop_tail, deliver_tail, store_item, accept_packet,
  read_next_received, push_rx_packet,
}
use skylink.SequenceRing.RcvRing.Invariant.{
  IsValid, IsSettled, readable, slot, Advanced, advance_head-Advanced,
  count_readable_packets-readable,
}

-- The slot of an accepted sequence, in the window of the horizon.
window_slot :
    (r : RcvRing) (d : ℕ)
    → IsValid r
    → d ≤ r.horizon_width
    → ring_wrap (pos (r.head + d)) r.size ≡ slot r.size r.head d
window_slot r d v h =
    ring_wrap_pos (r.head + d) r.size (omega (arith, v.head_in)) (omega (arith, v.head_in, v.room))

-- Storing an item in the window keeps the invariant.
store_item-IsValid :
    (r : RcvRing) (d idx sequence : ℕ)
    → IsValid r
    → d ≤ r.horizon_width
    → IsValid (store_item r (slot r.size r.head d) idx sequence)
store_item-IsValid r d idx sequence v h = record {
  head_in = v.head_in;
  tail_in = v.tail_in;
  head_u8 = v.head_u8;
  tail_u8 = v.tail_u8;
  sequences = v.sequences;
  room = v.room;
  narrow = v.narrow;
  received = λ k p.
      let apart : (slot r.size r.tail k == slot r.size r.head d) ≡ false =
        ground (arith, v.head_in, v.tail_in, v.room) in
      rw apart (v.received k p);
}

next_tail : (r : RcvRing) → IsValid r → (drop_tail r).tail ≡ slot r.size r.tail 1
next_tail r v =
    ring_wrap_pos (r.tail + 1) r.size (omega (arith, v.tail_in)) (omega (arith, v.tail_in))

readable-drop_tail :
    (r : RcvRing) → IsValid r → 0 < readable r → readable (drop_tail r) ≡ readable r - 1
readable-drop_tail r v h = ground (arith, next_tail r v, v.head_in, v.tail_in)

-- Dropping the tail of a ring with something to read keeps the invariant.
drop_tail-IsValid : (r : RcvRing) → IsValid r → 0 < readable r → IsValid (drop_tail r)
drop_tail-IsValid r v h = record {
  head_in = v.head_in;
  tail_in = ground (arith, next, v.tail_in);
  head_u8 = v.head_u8;
  tail_u8 = omega arith;
  sequences = rw left (omega (arith, v.sequences));
  room = rw left (omega (arith, v.room));
  narrow = v.narrow;
  received = λ k p.
      let q : k + 1 < readable r = omega (arith, left) in
      let here : slot r.size (drop_tail r).tail k ≡ slot r.size r.tail (k + 1) =
        ground (arith, next, v.tail_in, v.head_in) in
      let apart : (slot r.size r.tail (k + 1) == r.tail) ≡ false =
        ground (arith, v.head_in, v.tail_in) in
      rw (here, apart) (v.received (k + 1) q);
}
  where
    next : (drop_tail r).tail ≡ slot r.size r.tail 1
    next = next_tail r v

    left : readable (drop_tail r) ≡ readable r - 1
    left = readable-drop_tail r v h

-- The distance of a sequence that lies `d` ahead of the head.
pub seq_diff_ahead : (s d : ℕ) → s < 256 → d < 256 → seq_diff ((s + d) % 256) s ≡ d
seq_diff_ahead s d h k = omega arith

accept_packet-IsValid :
    (r : RcvRing) (d sequence : ℕ) (s : Result ℕ × ElementBuffer)
    → IsValid r
    → IsSettled r
    → d ≤ r.horizon_width
    → IsValid (accept_packet r (slot r.size r.head d) sequence s).1
      × IsSettled (accept_packet r (slot r.size r.head d) sequence s).1
unfolding accept_packet
accept_packet-IsValid r d sequence (err e, eb) v settled h = (v, settled)
accept_packet-IsValid r d sequence (ok idx, eb) v settled h =
    let a =
      advance_head-Advanced (store_item r (slot r.size r.head d) idx sequence)
        (store_item-IsValid r d idx sequence v h) in
    (a.valid, a.settled)

module _ (r : RcvRing) (eb : ElementBuffer) (src : List ℕ) (len : ℕ) (v : IsValid r) where
  -- A payload whose sequence lies `d` ahead of the head of a valid ring, within its horizon, whose
  -- slot is vacant and which the element buffer takes, goes to that slot with its sequence; the
  -- head then advances as far as it can, and the number of steps is returned.
  pub push_rx_packet-accepted :
      (d idx : ℕ) (eb' : ElementBuffer)
      → d ≤ r.horizon_width
      → is_vacant (r.buff (slot r.size r.head d)) ≡ true
      → ElementBuffer.store eb src (len % 2 ^ 16) ≡ (ok idx, eb')
      → let sequence = (r.head_sequence + d) % 256 in
        let stored = store_item r (slot r.size r.head d) idx sequence in
        (n : ℕ) × (r' : RcvRing) × (push_rx_packet r eb src len sequence ≡ (ok n, r', eb'))
        × Advanced stored r' n
  unfolding push_rx_packet accept_packet
  push_rx_packet-accepted d idx eb' h vacant s =
      let sequence = (r.head_sequence + d) % 256 in
      let stored = store_item r (slot r.size r.head d) idx sequence in
      let diff : seq_diff sequence r.head_sequence ≡ d =
        seq_diff_ahead r.head_sequence d v.head_u8 (omega (arith, v.narrow)) in
      let inside : ltb r.horizon_width d ≡ false = ground arith in
      (
        (advance_head stored).1,
        (advance_head stored).0,
        rw (diff, inside, window_slot r d v h, vacant, s),
        advance_head-Advanced stored (store_item-IsValid r d idx sequence v h),
      )

  -- A sequence outside of the horizon, or one within it whose slot is occupied, is refused, as
  -- invalid or as already in; neither the ring nor the element buffer changes.
  pub push_rx_packet-refused :
      (sequence : ℕ)
      → let d = seq_diff sequence r.head_sequence in
        (r.horizon_width < d)
          ⊎ ((d ≤ r.horizon_width) × (is_vacant (r.buff (slot r.size r.head d)) ≡ false))
        → push_rx_packet r eb src len sequence ≡ (
          err (if ltb r.horizon_width d then ring_invalid_sequence else ring_packet_already_in),
          r,
          eb,
        )
  unfolding push_rx_packet
  push_rx_packet-refused sequence (inl h) =
      let far : ltb r.horizon_width (seq_diff sequence r.head_sequence) ≡ true = ground arith in
      rw far refl
  push_rx_packet-refused sequence (inr (h, occupied)) =
      let near : ltb r.horizon_width (seq_diff sequence r.head_sequence) ≡ false = ground arith in
      rw (near, window_slot r (seq_diff sequence r.head_sequence) v h, occupied) refl

  -- Receiving any sequence keeps the ring valid and its head settled, on every branch.
  pub push_rx_packet-IsValid :
      (sequence : ℕ)
      → IsSettled r
      → IsValid (push_rx_packet r eb src len sequence).1
        × IsSettled (push_rx_packet r eb src len sequence).1
  unfolding push_rx_packet
  push_rx_packet-IsValid sequence settled =
      let d = seq_diff sequence r.head_sequence in
      elim (Bool-cases (ltb r.horizon_width d)) [
        | inl far ↦ rw far (v, settled)
        | inr near ↦
            let h : d ≤ r.horizon_width = ground arith in
            elim (Bool-cases (is_vacant (r.buff (slot r.size r.head d)))) [
              | inl vacant ↦
                  rw (near, window_slot r d v h, vacant)
                    (accept_packet-IsValid r d sequence (ElementBuffer.store eb src (len % 2 ^ 16))
                      v settled h)
              | inr occupied ↦ rw (near, window_slot r d v h, occupied) (v, settled)
            ]
      ]

deliver_tail-IsValid :
    (r : RcvRing) (eb : ElementBuffer) (outcome : Result (List ℕ))
    → IsValid r
    → IsSettled r
    → 0 < readable r
    → IsValid (deliver_tail r eb outcome).1 × IsSettled (deliver_tail r eb outcome).1
unfolding deliver_tail
deliver_tail-IsValid r eb (err e) v settled h = (v, settled)
deliver_tail-IsValid r eb (ok payload) v settled h =
    let a = advance_head-Advanced (drop_tail r) (drop_tail-IsValid r v h) in (a.valid, a.settled)

-- Reading keeps the ring valid and its head settled, on every branch.
pub read_next_received-IsValid :
    (r : RcvRing) (eb : ElementBuffer) (max_length : ℕ)
    → IsValid r
    → IsSettled r
    → IsValid (read_next_received r eb max_length).1
      × IsSettled (read_next_received r eb max_length).1
unfolding read_next_received
read_next_received-IsValid r eb max_length v settled =
    elim (Bool-cases (count_readable_packets r == 0)) [
      | inl empty ↦ rw empty (v, settled)
      | inr some_left ↦ rw some_left (
          deliver_tail-IsValid r eb (ElementBuffer.read eb (r.buff r.tail).idx max_length) v settled
            (ground (arith, count_readable_packets-readable r v)))
    ]

-- Reading a valid ring with something to read, where the element buffer yields the payload of the
-- tail, returns that payload and deletes it; the tail moves on by one sequence, and what is still
-- readable is what is left and what the head could advance.
pub read_next_received-reads :
    (r : RcvRing) (eb : ElementBuffer) (max_length : ℕ) (payload : List ℕ)
    → IsValid r
    → 0 < readable r
    → ElementBuffer.read eb (r.buff r.tail).idx max_length ≡ ok payload
    → (n : ℕ) × (r' : RcvRing) × (read_next_received r eb max_length
        ≡ (ok payload, r', (ElementBuffer.delete eb (r.buff r.tail).idx).1))
      × Advanced (drop_tail r) r' n
      × (r'.tail_sequence ≡ seq_next r.tail_sequence)
      × (readable r' + 1 ≡ readable r + n)
unfolding read_next_received deliver_tail
read_next_received-reads r eb max_length payload v h e =
    let left : (count_readable_packets r == 0) ≡ false =
      ground (arith, count_readable_packets-readable r v) in
    let a = advance_head-Advanced (drop_tail r) (drop_tail-IsValid r v h) in
    (
      (advance_head (drop_tail r)).1,
      (advance_head (drop_tail r)).0,
      rw (left, e),
      a,
      a.tail_sequence,
      omega (arith, a.steps, readable-drop_tail r v h),
    )
