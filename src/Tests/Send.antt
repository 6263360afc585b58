-- ===== src/Tests/Send.antt =====
-- The properties of the send ring at concrete inputs.
use skylink.Base.{
  ℕ, ◌+◌, ◌%◌, ◌<◌, ◌≡◌, ◌↔◌, ◌⊎◌, refl, ap, arith, true, false, [], ◌∷◌, if◌then◌else◌, ◌==◌,
  get_or,
}
use skylink.Base.Int.{◌+ℤ◌, ◌-ℤ◌, ◌*ℤ◌}
use skylink.Utilities.{positive_modulo, raise, reduce}
use skylink.Base.Result.{Result, ok, err, ring_invalid_acknowledge}
use skylink.ElementBuffer
use skylink.ElementBuffer.{ElementBuffer}
use skylink.ElementBuffer.Read.{read-Holds}
use skylink.SequenceRing.{RingItem, empty_item, ring_wrap}
use skylink.SequenceRing.SendRing.{
  SendRing, can_recall, push_packet_to_send, schedule_resend, schedule_resends_by_mask,
  count_free_send_slots, count_packets_to_send, pop_resend_sequence, read_new_packet_to_tx,
  clean_tail_up_to, add_resend, is_scheduled, mask_loop,
}
use skylink.SequenceRing.SendRing.Invariant.{IsValid, stored, sent, count_free_send_slots-stored}
use skylink.SequenceRing.SendRing.Recall.{
  can_recall_iff, push_packet_to_send-queues, read_new_packet_to_tx-sends,
}
use skylink.SequenceRing.SendRing.Acknowledge.{
  Cleared, indices, without, clean_tail_up_to-Cleared, clean_tail_up_to-refused,
}
use skylink.SequenceRing.SendRing.Schedule.{IsUnique, Scheduled}
use skylink.SequenceRing.SendRing.Mask.{Missing, schedule_resends_by_mask-schedules}
use skylink.SequenceRing.SendRing.Pop.{pop_resend_sequence-moves}
use skylink.Tests.Storage.{buffer, buffer-IsValid, payload, short, short-Holds, stored_at}

-- Four payloads from the tail on, round the end of the ring and of the sequences, three of them
-- transmitted and two of these scheduled.
abbrev items : ℕ → RingItem
items i =
    if i == 6
    then record { idx = 0; sequence = 254 }
    else if i == 7
    then record { idx = 0; sequence = 255 }
    else if i == 0
    then record { idx = 0; sequence = 0 }
    else if i == 1
    then record { idx = 2; sequence = 1 }
    else empty_item

abbrev ring : SendRing
ring = record {
  buff = items;
  size = 8;
  head = 2;
  tx_head = 1;
  tail = 6;
  head_sequence = 2;
  tx_sequence = 1;
  tail_sequence = 254;
  storage_count = 4;
  resend_count = 2;
  resend_list = 254 ∷ 255 ∷ 0 ∷ 0 ∷ 0 ∷ 0 ∷ 0 ∷ 0 ∷ 0 ∷ 0 ∷ 0 ∷ 0 ∷ 0 ∷ 0 ∷ 0 ∷ 0 ∷ [];
}

ring-IsValid : IsValid ring
ring-IsValid = record {
  u8_size = omega arith;
  head_in = omega arith;
  tx_in = omega arith;
  tail_in = omega arith;
  tail_u8 = omega arith;
  order = omega arith;
  tx_seq = refl;
  head_seq = refl;
  items = λ k p. ground arith;
  storage = refl;
  resends = omega arith;
  list = refl;
}

ring-IsUnique : IsUnique ring
ring-IsUnique i j h k e =
    let first : i ≡ 0 = omega arith in
    let second : j ≡ 1 = omega arith in
    let at_first : get_or ring.resend_list i 0 ≡ 254 =
      ap (λ m. get_or ring.resend_list m 0) first in
    let at_second : get_or ring.resend_list j 0 ≡ 255 =
      ap (λ m. get_or ring.resend_list m 0) second in
    omega (arith, e, at_first, at_second)

can_recall_iff_example : (can_recall ring 0 ≡ true) ↔ ((k : ℕ) × (k < 3) × (0 ≡ (254 + k) % 256))
can_recall_iff_example = can_recall_iff ring ring-IsValid 0 (omega arith)

abbrev taken : ElementBuffer
taken = (ElementBuffer.store buffer payload 3).1

push_packet_to_send-queues_example :
    (r' : SendRing) × (push_packet_to_send ring buffer payload 3 ≡ (ok 2, r', taken))
    × IsValid r'
    × (r'.buff 2 ≡ record { idx = 3; sequence = 2 })
    × (stored r' ≡ 5)
    × (sent r' ≡ 3)
    × (count_packets_to_send r' false ≡ count_packets_to_send ring false + 1)
    × (count_free_send_slots r' + 1 ≡ count_free_send_slots ring)
push_packet_to_send-queues_example =
    push_packet_to_send-queues ring buffer taken payload 3 3 ring-IsValid
      (omega (arith, count_free_send_slots-stored ring ring-IsValid))
      (ap (λ (t : Result ℕ). (t, taken)) stored_at)

read_new_packet_to_tx-sends_example :
    (r' : SendRing) × (read_new_packet_to_tx ring buffer ≡ (ok (short, 1), r'))
    × IsValid r'
    × (sent r' ≡ 4)
    × (stored r' ≡ 4)
read_new_packet_to_tx-sends_example =
    read_new_packet_to_tx-sends ring buffer short ring-IsValid (omega arith)
      (read-Holds buffer 2 [] short 281 buffer-IsValid short-Holds (omega arith))

clean_tail_up_to-Cleared_example :
    (r' : SendRing) × (eb' : ElementBuffer) × (clean_tail_up_to ring buffer 0 ≡ (ok 2, r', eb'))
    × (eb' ≡ without buffer (indices ring 0 2))
    × Cleared ring r' 2
clean_tail_up_to-Cleared_example = clean_tail_up_to-Cleared ring buffer 2 ring-IsValid (omega arith)

clean_tail_up_to-refused_example :
    (clean_tail_up_to ring buffer 2 ≡ (err ring_invalid_acknowledge, ring, buffer)) ↔ (3 < 4)
clean_tail_up_to-refused_example = clean_tail_up_to-refused ring buffer 2 ring-IsValid (omega arith)

abbrev requested : SendRing
requested = add_resend ring 0

schedule_resends_by_mask-schedules_example :
    IsValid requested
    × IsUnique requested
    × ((q : ℕ) → Scheduled requested q ↔ (Scheduled ring q ⊎ ((q ≡ 255) ⊎ Missing 16 0 0 65534 q)))
unfolding schedule_resends_by_mask mask_loop schedule_resend can_recall is_scheduled ring_wrap
    positive_modulo ◌-ℤ◌ ◌+ℤ◌ ◌*ℤ◌ raise reduce
schedule_resends_by_mask-schedules_example =
    schedule_resends_by_mask-schedules ring requested 255 65534 ring-IsValid ring-IsUnique
      (omega arith) refl

pop_resend_sequence-moves_example :
    (r' : SendRing) × (pop_resend_sequence ring ≡ (ok 254, r'))
    × IsValid r'
    × (r'.resend_count + 1 ≡ 2)
    × (get_or r'.resend_list 0 0 ≡ 254)
pop_resend_sequence-moves_example =
    pop_resend_sequence-moves ring 0 ring-IsValid (omega arith) (omega arith)
