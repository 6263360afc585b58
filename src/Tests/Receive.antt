-- ===== src/Tests/Receive.antt =====
-- The properties of the receive ring at concrete inputs.
use skylink.Base.{ℕ, ◌+◌, ◌≡◌, refl, ap, arith, [], if◌then◌else◌, ◌==◌}
use skylink.Base.Result.{Result, ok}
use skylink.ElementBuffer
use skylink.ElementBuffer.{ElementBuffer, element_requirement_for, eb_null_idx}
use skylink.SequenceRing.{RingItem, empty_item}
use skylink.SequenceRing.RcvRing.{
  RcvRing, store_item, push_rx_packet, read_next_received, drop_tail, advance_head,
}
use skylink.SequenceRing.RcvRing.Invariant.{IsValid, Advanced, readable, advance_head-Advanced}
use skylink.SequenceRing.RcvRing.Horizon.{push_rx_packet-accepted, read_next_received-reads}
use skylink.ElementBuffer.Read.{read-Holds}
use skylink.Tests.Storage.{buffer, buffer-IsValid, payload, short, short-Holds, stored_at}

-- The payload of element 2 is at the tail, with the sequence before the overflow; the slot behind
-- the head is vacant and the next one is occupied.
abbrev items : ℕ → RingItem
items i =
    if i == 0
    then record { idx = 2; sequence = 255 }
    else if i == 2
    then record { idx = 0; sequence = 1 }
    else empty_item

abbrev ring : RcvRing
ring = record {
  buff = items;
  size = 8;
  horizon_width = 3;
  head = 1;
  tail = 0;
  head_sequence = 0;
  tail_sequence = 255;
  storage_count = 2;
}

ring-IsValid : IsValid ring
ring-IsValid = record {
  head_in = omega arith;
  tail_in = omega arith;
  head_u8 = omega arith;
  tail_u8 = omega arith;
  sequences = refl;
  room = omega arith;
  narrow = omega arith;
  received = λ k p. ground arith;
}

abbrev stored : ElementBuffer
stored = (ElementBuffer.store buffer payload 3).1

push_rx_packet-accepted_example :
    (n : ℕ) × (r' : RcvRing) × (push_rx_packet ring buffer payload 3 0 ≡ (ok n, r', stored))
    × Advanced (store_item ring 1 3 0) r' n
push_rx_packet-accepted_example =
    push_rx_packet-accepted ring buffer payload 3 ring-IsValid 0 3 stored (omega arith) refl
      (ap (λ (t : Result ℕ). (t, stored)) stored_at)

read_next_received-reads_example :
    (n : ℕ) × (r' : RcvRing) × (read_next_received ring buffer 100
      ≡ (ok short, r', (ElementBuffer.delete buffer 2).1))
    × Advanced (drop_tail ring) r' n
    × (r'.tail_sequence ≡ 0)
    × (readable r' + 1 ≡ 1 + n)
read_next_received-reads_example =
    read_next_received-reads ring buffer 100 short ring-IsValid (omega arith)
      (read-Holds buffer 2 [] short 100 buffer-IsValid short-Holds (omega arith))

abbrev pushed : RcvRing
pushed = store_item ring 1 3 0

pushed-IsValid : IsValid pushed
pushed-IsValid = record {
  head_in = omega arith;
  tail_in = omega arith;
  head_u8 = omega arith;
  tail_u8 = omega arith;
  sequences = refl;
  room = omega arith;
  narrow = omega arith;
  received = λ k p. ground arith;
}

advance_head-Advanced_example : Advanced pushed (advance_head pushed).0 (advance_head pushed).1
advance_head-Advanced_example = advance_head-Advanced pushed pushed-IsValid
