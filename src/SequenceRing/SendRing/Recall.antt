-- ===== src/SequenceRing/SendRing/Recall.antt =====
-- What the send ring of src/sequence_ring.c takes, transmits and can recall.
use skylink.Base.{
  ℕ, ◌+◌, ◌%◌, ◌^◌, ◌<◌, ◌≤◌, ◌≡◌, ◌↔◌, refl, subst, arith, true, false, List, some, none, Option,
  ◌==◌, Bool-cases, inl, inr,
}
use skylink.Base.Int.{pos, ◌-ℤ◌, ltb_ℤ}
use skylink.Base.Result.{Result, ok, err}
use skylink.ElementBuffer
use skylink.ElementBuffer.{ElementBuffer}
use skylink.SequenceRing.{ring_wrap, seq_diff}
use skylink.SequenceRing.Wrap.{ring_wrap_pos, ring_wrap_sub}
use skylink.SequenceRing.RcvRing.Invariant.{slot}
use skylink.SequenceRing.SendRing.{
  SendRing, is_full, can_recall, get_recall_ring_index, count_free_send_slots,
  count_packets_to_send, step_tx, push_item, push_stored, push_packet_to_send, send_new,
  read_new_packet_to_tx, tx_max_length, wipe, create, allocated,
}
use skylink.SequenceRing.SendRing.Invariant.{
  IsValid, stored, sent, count_free_send_slots-stored, step_tx-IsValid, push_item-IsValid,
}

module _ (r : SendRing) (v : IsValid r) where
  sent-wrapped : ring_wrap (pos r.tx_head -ℤ pos r.tail) r.size ≡ sent r
  sent-wrapped = ring_wrap_sub r.tx_head r.tail r.size v.tx_in (omega (arith, v.tail_in))

  -- A sequence of a valid ring can be recalled exactly where it is one of those that have been
  -- transmitted and not yet acknowledged.
  pub can_recall_iff :
      (sequence : ℕ)
      → sequence < 256
      → (can_recall r sequence ≡ true)
        ↔ ((k : ℕ) × (k < sent r) × (sequence ≡ (r.tail_sequence + k) % 256))
  unfolding can_recall
  can_recall_iff sequence u8 = (
    λ e. (
      seq_diff sequence r.tail_sequence,
      ground (arith, rw sent-wrapped at e),
      omega (arith, v.tail_u8),
    ),
    λ (k, h, e).
        let d : seq_diff sequence r.tail_sequence ≡ k =
          omega (arith, v.tail_u8, v.tx_in, v.u8_size, v.order, v.head_in, small) in
        rw (sent-wrapped, d) (ground arith),
  )
    where
      small : sent r < 256
      small = ground (arith, v.tx_in, v.tail_in, v.u8_size)

  -- Where the sequence `k` places behind the tail of a valid ring is transmitted, its recall index
  -- is the slot of the item that was stored with that very sequence.
  pub get_recall_ring_index-finds :
      (k : ℕ)
      → k < sent r
      → let sequence = (r.tail_sequence + k) % 256 in
        (get_recall_ring_index r sequence ≡ ok (slot r.size r.tail k))
        × ((r.buff (slot r.size r.tail k)).sequence ≡ sequence)
  unfolding get_recall_ring_index
  get_recall_ring_index-finds k h =
      let sequence = (r.tail_sequence + k) % 256 in
      let can : can_recall r sequence ≡ true =
        (can_recall_iff sequence (omega arith)).1 (k, h, refl) in
      let small : sent r < r.size = ground (arith, v.tx_in, v.tail_in) in
      let d : seq_diff sequence r.tail_sequence ≡ k = omega (arith, v.tail_u8, v.u8_size, small) in
      (
        rw (
          can,
          d,
          ring_wrap_pos (r.tail + k) r.size (omega (arith, v.tail_in))
              (omega (arith, v.tail_in, small)),
        ),
        v.items k (omega (arith, v.order)),
      )

push_stored-IsValid :
    (r : SendRing) (outcome : Result ℕ × ElementBuffer)
    → IsValid r
    → stored r + 1 < r.size
    → IsValid (push_stored r outcome).1
unfolding push_stored
push_stored-IsValid r (err e, eb) v h = v
push_stored-IsValid r (ok idx, eb) v h = (push_item-IsValid r v idx h).0

not_full : (r : SendRing) → IsValid r → is_full r ≡ false → stored r + 1 < r.size
not_full r v e = ground (arith, count_free_send_slots-stored r v)

-- Pushing a payload keeps a ring valid on every branch.
pub push_packet_to_send-IsValid :
    (r : SendRing) (eb : ElementBuffer) (payload : List ℕ) (len : ℕ)
    → IsValid r
    → IsValid (push_packet_to_send r eb payload len).1
unfolding push_packet_to_send
push_packet_to_send-IsValid r eb payload len v = elim (Bool-cases (is_full r)) [
  | inl e ↦ rw e v
  | inr e ↦
      rw e
        (push_stored-IsValid r (ElementBuffer.store eb payload (len % 2 ^ 16)) v (not_full r v e))
]

-- A valid ring with a free slot queues a payload that the element buffer takes: the sequence
-- returned is the next of those stored, the item at that place has the payload's index and the sequence, one more
-- packet waits to be sent and one slot less is free.
pub push_packet_to_send-queues :
    (r : SendRing) (eb eb' : ElementBuffer) (payload : List ℕ) (len idx : ℕ)
    → IsValid r
    → 0 < count_free_send_slots r
    → ElementBuffer.store eb payload (len % 2 ^ 16) ≡ (ok idx, eb')
    → (r' : SendRing) × (push_packet_to_send r eb payload len
        ≡ (ok ((r.tail_sequence + stored r) % 256), r', eb'))
      × IsValid r'
      × (r'.buff (slot r.size r.tail (stored r))
          ≡ record { idx = idx; sequence = (r.tail_sequence + stored r) % 256 })
      × (stored r' ≡ stored r + 1)
      × (sent r' ≡ sent r)
      × (count_packets_to_send r' false ≡ count_packets_to_send r false + 1)
      × (count_free_send_slots r' + 1 ≡ count_free_send_slots r)
unfolding push_packet_to_send push_stored
push_packet_to_send-queues r eb eb' payload len idx v h e =
    let counted = count_free_send_slots-stored r v in
    let room : is_full r ≡ false = ground (arith, counted) in
    let (v', more) = push_item-IsValid r v idx (omega (arith, counted)) in
    let counted' = count_free_send_slots-stored (push_item r idx) v' in
    let here : slot r.size r.tail (stored r) ≡ r.head = ground (arith, v.head_in, v.tail_in) in
    let same : (r.head == r.head) ≡ true = ground arith in
    (
      push_item r idx,
      rw (room, e, v.head_seq) refl,
      v',
      rw (here, same, v.head_seq) refl,
      more,
      refl,
      omega (arith, counted, counted', more),
      omega (arith, counted, counted', more),
    )

-- A valid ring with an unsent packet, whose payload the element buffer yields, transmits the first
-- such packet with the sequence that it was stored with; one more packet is sent, none less is stored.
pub read_new_packet_to_tx-sends :
    (r : SendRing) (eb : ElementBuffer) (payload : List ℕ)
    → IsValid r
    → sent r < stored r
    → ElementBuffer.read eb (r.buff (slot r.size r.tail (sent r))).idx tx_max_length ≡ ok payload
    → (r' : SendRing) × (read_new_packet_to_tx r eb
        ≡ (ok (payload, (r.buff (slot r.size r.tail (sent r))).sequence), r'))
      × IsValid r'
      × (sent r' ≡ sent r + 1)
      × (stored r' ≡ stored r)
unfolding read_new_packet_to_tx send_new
read_new_packet_to_tx-sends r eb payload v h e =
    let counted = count_free_send_slots-stored r v in
    let waiting : (count_packets_to_send r false == 0) ≡ false = ground (arith, counted) in
    let here : slot r.size r.tail (sent r) ≡ r.tx_head = ground (arith, v.tx_in, v.tail_in) in
    let e' : ElementBuffer.read eb (r.buff r.tx_head).idx tx_max_length ≡ ok payload =
      subst (λ i. ElementBuffer.read eb (r.buff i).idx tx_max_length ≡ ok payload) here e in
    let (v', more) = step_tx-IsValid r v h in
    (step_tx r, rw (waiting, e', v.items (sent r) h, v.tx_seq) refl, v', more, refl)

send_new-IsValid :
    (r : SendRing) (outcome : Result (List ℕ))
    → IsValid r
    → sent r < stored r
    → IsValid (send_new r outcome).1
unfolding send_new
send_new-IsValid r (err e) v h = v
send_new-IsValid r (ok payload) v h = (step_tx-IsValid r v h).0

-- Reading a new packet keeps a ring valid on every branch.
pub read_new_packet_to_tx-IsValid :
    (r : SendRing) (eb : ElementBuffer) → IsValid r → IsValid (read_new_packet_to_tx r eb).1
unfolding read_new_packet_to_tx
read_new_packet_to_tx-IsValid r eb v = elim (Bool-cases (count_packets_to_send r false == 0)) [
  | inl e ↦ rw e v
  | inr e ↦ rw e (
      send_new-IsValid r (ElementBuffer.read eb (r.buff r.tx_head).idx tx_max_length) v
        (ground (arith, count_free_send_slots-stored r v)))
]

-- A wiped ring is valid and empty, and starts at the given sequence.
pub wiped :
    (r : SendRing) (eb : Option ElementBuffer) (initial_sequence : ℕ)
    → 0 < r.size
    → r.size ≤ 256
    → initial_sequence < 256
    → IsValid (wipe r eb initial_sequence).0 × (stored (wipe r eb initial_sequence).0 ≡ 0)
unfolding wipe
wiped r eb i few many u8 = (
  record {
    u8_size = many;
    head_in = few;
    tx_in = few;
    tail_in = few;
    tail_u8 = u8;
    order = omega arith;
    tx_seq = omega arith;
    head_seq = omega arith;
    items = λ k p. absurd (omega arith);
    storage = omega arith;
    resends = omega arith;
    list = refl;
  },
  omega arith,
)

-- For a length from 4 to 256 a ring is created; it is valid and empty, with the given sequence
-- at its tail and one slot less than its length free.
pub create-empty :
    (size initial_sequence : ℕ)
    → 4 ≤ size
    → size ≤ 256
    → initial_sequence < 256
    → (r : SendRing) × (create (pos size) initial_sequence ≡ some r)
      × IsValid r
      × (stored r ≡ 0)
      × (r.tail_sequence ≡ initial_sequence)
      × (count_free_send_slots r + 1 ≡ size)
unfolding create wipe
create-empty n i few many u8 =
    let wide : ltb_ℤ (pos n) (pos 4) ≡ false = ground arith in
    let counted = count_free_send_slots-stored made valid in
    (made, rw wide refl, valid, omega arith, refl, omega (arith, counted))
  where
    made : SendRing
    made = (wipe (allocated n) none i).0

    valid : IsValid made
    valid = (wiped (allocated n) none i (omega arith) many u8).0
