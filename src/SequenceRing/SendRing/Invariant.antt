-- ===== src/SequenceRing/SendRing/Invariant.antt =====
-- The invariant of the send ring of src/sequence_ring.c, and its measures.
use skylink.Base.{
  ℕ, ◌+◌, ◌-◌, ◌%◌, ◌<◌, ◌≤◌, ◌≡◌, ◌↔◌, ◌∙◌, arith, true, false, if◌then◌else◌, ltb, leb, ◌==◌,
  length, Bool-cases, inl, inr,
}
use skylink.Base.Int.{pos, ◌-ℤ◌}
use skylink.SequenceRing.{ring_wrap, arq_resend_schedule_depth}
use skylink.SequenceRing.Wrap.{ring_wrap_pos, ring_wrap_sub}
use skylink.SequenceRing.RcvRing.Invariant.{slot}
use skylink.SequenceRing.SendRing.{
  SendRing, is_full, count_free_send_slots, count_packets_to_send, step_tx, push_item, drop_tail,
}

-- How far index `j` is ahead of index `i` on a ring of `n` slots.
abbrev pub distance : ℕ → ℕ → ℕ → ℕ
distance n i j = if leb i j then j - i else j + n - i

-- The payloads in the ring, and those of them that have been transmitted.
abbrev pub stored : SendRing → ℕ
stored r = distance r.size r.tail r.head

abbrev pub sent : SendRing → ℕ
sent r = distance r.size r.tail r.tx_head

-- The sequences run with the indices, what is transmitted is a part of what is stored, and the
-- `k`-th item behind the tail has the `k`-th sequence.
pub record IsValid (r : SendRing) : Type 0 where
  pub u8_size : r.size ≤ 256
  pub head_in : r.head < r.size
  pub tx_in : r.tx_head < r.size
  pub tail_in : r.tail < r.size
  pub tail_u8 : r.tail_sequence < 256
  pub order : sent r ≤ stored r
  pub tx_seq : r.tx_sequence ≡ (r.tail_sequence + sent r) % 256
  pub head_seq : r.head_sequence ≡ (r.tail_sequence + stored r) % 256
  pub items :
      (k : ℕ)
      → k < stored r
      → (r.buff (slot r.size r.tail k)).sequence ≡ (r.tail_sequence + k) % 256
  pub storage : r.storage_count ≡ stored r
  pub resends : r.resend_count ≤ arq_resend_schedule_depth
  pub list : length r.resend_list ≡ arq_resend_schedule_depth

next_slot : (n i : ℕ) → i < n → ring_wrap (pos (i + 1)) n ≡ slot n i 1
next_slot n i h = ring_wrap_pos (i + 1) n (omega arith) (omega arith)

module _ (r : SendRing) (v : IsValid r) where
  -- In a valid ring the free slots and the stored payloads make up the ring but one slot; the ring is
  -- full when no slot is free; and the packets to send are those not yet transmitted, with the
  -- scheduled ones where they are asked for.
  pub count_free_send_slots-stored :
      (count_free_send_slots r + stored r + 1 ≡ r.size)
      × ((is_full r ≡ true) ↔ (count_free_send_slots r ≡ 0))
      × (count_packets_to_send r false + sent r ≡ stored r)
      × (count_packets_to_send r true ≡ count_packets_to_send r false + r.resend_count)
  unfolding is_full count_packets_to_send count_free_send_slots
  count_free_send_slots-stored = (free, (full, vacant), waiting, omega arith)
    where
      wrapped : ring_wrap (pos (r.head + 1)) r.size ≡ slot r.size r.head 1
      wrapped = next_slot r.size r.head v.head_in

      at_tail : ring_wrap (pos r.tail) r.size ≡ r.tail
      at_tail = ground (arith, ring_wrap_pos r.tail r.size, v.tail_in)

      free : ring_wrap (pos r.tail -ℤ pos (r.head + 1)) r.size + stored r + 1 ≡ r.size
      free = ground (
        arith,
        v.head_in,
        v.tail_in,
        ring_wrap_sub r.tail (r.head + 1) r.size v.tail_in (omega (arith, v.head_in)),
      )

      full :
          (ring_wrap (pos (r.head + 1)) r.size == ring_wrap (pos r.tail) r.size) ≡ true
          → ring_wrap (pos r.tail -ℤ pos (r.head + 1)) r.size ≡ 0
      full e = ground (arith, v.head_in, v.tail_in, rw (wrapped, at_tail) at e, free)

      vacant :
          ring_wrap (pos r.tail -ℤ pos (r.head + 1)) r.size ≡ 0
          → (ring_wrap (pos (r.head + 1)) r.size == ring_wrap (pos r.tail) r.size) ≡ true
      vacant e = rw (wrapped, at_tail) (ground (arith, v.head_in, v.tail_in, free))

      waiting : ring_wrap (pos r.head -ℤ pos r.tx_head) r.size + 0 + sent r ≡ stored r
      waiting = ground (
        arith,
        v.head_in,
        v.tail_in,
        v.tx_in,
        v.order,
        ring_wrap_sub r.head r.tx_head r.size v.head_in (omega (arith, v.tx_in)),
      )

  -- A transmitted packet.
  pub step_tx-IsValid : sent r < stored r → IsValid (step_tx r) × (sent (step_tx r) ≡ sent r + 1)
  step_tx-IsValid h = (
    record {
      u8_size = v.u8_size;
      head_in = v.head_in;
      tx_in = ground (arith, next, v.tx_in);
      tail_in = v.tail_in;
      tail_u8 = v.tail_u8;
      order = rw more (omega (arith, h));
      tx_seq = rw more (omega (arith, v.tx_seq));
      head_seq = v.head_seq;
      items = v.items;
      storage = v.storage;
      resends = v.resends;
      list = v.list;
    },
    more,
  )
    where
      next : (step_tx r).tx_head ≡ slot r.size r.tx_head 1
      next = next_slot r.size r.tx_head v.tx_in

      more : sent (step_tx r) ≡ sent r + 1
      more = ground (arith, next, v.tx_in, v.tail_in, v.head_in)

  -- A payload at the head of a ring that is not full.
  pub push_item-IsValid :
      (idx : ℕ)
      → stored r + 1 < r.size
      → IsValid (push_item r idx) × (stored (push_item r idx) ≡ stored r + 1)
  push_item-IsValid idx h = (
    record {
      u8_size = v.u8_size;
      head_in = ground (arith, next, v.head_in);
      tx_in = v.tx_in;
      tail_in = v.tail_in;
      tail_u8 = v.tail_u8;
      order = rw more (omega (arith, v.order));
      tx_seq = v.tx_seq;
      head_seq = rw more (omega (arith, v.head_seq));
      items = λ k p. elim (Bool-cases (ltb k (stored r))) [
        | inl q ↦
            let apart : (slot r.size r.tail k == r.head) ≡ false =
              ground (arith, v.head_in, v.tail_in) in
            rw apart (v.items k (ground arith))
        | inr q ↦
            let e : k ≡ stored r = ground (arith, rw more at p) in
            let at_head : (slot r.size r.tail k == r.head) ≡ true =
              ground (arith, e, v.head_in, v.tail_in) in
            rw (at_head, e) v.head_seq
      ];
      storage = rw more (omega (arith, v.storage));
      resends = v.resends;
      list = v.list;
    },
    more,
  )
    where
      next : (push_item r idx).head ≡ slot r.size r.head 1
      next = next_slot r.size r.head v.head_in

      more : stored (push_item r idx) ≡ stored r + 1
      more = ground (arith, next, v.head_in, v.tail_in)

  -- The acknowledged tail of a ring.
  pub drop_tail-IsValid :
      0 < sent r
      → IsValid (drop_tail r)
        × (stored (drop_tail r) ≡ stored r - 1)
        × (sent (drop_tail r) ≡ sent r - 1)
  drop_tail-IsValid h = (
    record {
      u8_size = v.u8_size;
      head_in = v.head_in;
      tx_in = v.tx_in;
      tail_in = ground (arith, next, v.tail_in);
      tail_u8 = omega arith;
      order = rw (less, less_sent) (omega (arith, v.order));
      tx_seq = rw less_sent (omega (arith, v.tx_seq));
      head_seq = rw less (omega (arith, v.head_seq, v.order));
      items = λ k p.
          let q : k + 1 < stored r = omega (arith, less) in
          let here : slot r.size (drop_tail r).tail k ≡ slot r.size r.tail (k + 1) =
            ground (arith, next, v.tail_in, v.head_in) in
          let apart : (slot r.size r.tail (k + 1) == r.tail) ≡ false =
            ground (arith, v.head_in, v.tail_in) in
          rw (here, apart) (v.items (k + 1) q ∙ omega arith);
      storage = rw less (omega (arith, v.storage));
      resends = v.resends;
      list = v.list;
    },
    less,
    less_sent,
  )
    where
      next : (drop_tail r).tail ≡ slot r.size r.tail 1
      next = next_slot r.size r.tail v.tail_in

      less : stored (drop_tail r) ≡ stored r - 1
      less = ground (arith, next, v.head_in, v.tail_in, v.order)

      less_sent : sent (drop_tail r) ≡ sent r - 1
      less_sent = ground (arith, next, v.tx_in, v.tail_in)
