-- ===== src/SequenceRing/SendRing.antt =====
-- The send ring of src/sequence_ring.c.
-- An operation returns its result, the ring and the element buffer where it changes them.
pub mod Invariant
pub mod Recall
pub mod Acknowledge
pub mod Schedule
pub mod Mask
pub mod Pop
use skylink.Base.{
  ℕ, zero, suc, ◌+◌, ◌-◌, ◌*◌, ◌/◌, ◌%◌, ◌^◌, Bool, true, false, not, ◌||◌, ◌&&◌, Option, none,
  some, List, [], ◌∷◌, if◌then◌else◌, ltb, leb, ◌==◌, get_or, set, replicate,
}
use skylink.Base.Int.{ℤ, pos, ◌-ℤ◌, ltb_ℤ, pos_part}
use skylink.Base.Result.{
  Result, ok, err, ring_empty, ring_ring_full, ring_cannot_recall, ring_resend_full,
  ring_invalid_acknowledge,
}
use skylink.ElementBuffer
use skylink.ElementBuffer.{ElementBuffer}
use skylink.SequenceRing.{
  RingItem, empty_item, ring_wrap, seq_next, seq_diff, arq_resend_schedule_depth,
}
use skylink.SequenceRing.RcvRing.{put_item, wipe_slots}

-- `struct sky_send_ring_s`; `size` is its `length`.
pub record SendRing : Type 0 where
  pub buff : ℕ → RingItem
  pub size : ℕ
  pub head : ℕ
  pub tx_head : ℕ
  pub tail : ℕ
  pub head_sequence : ℕ
  pub tx_sequence : ℕ
  pub tail_sequence : ℕ
  pub storage_count : ℕ
  pub resend_count : ℕ
  pub resend_list : List ℕ

-- `SKY_PAYLOAD_MAX_LEN + 100`
abbrev pub tx_max_length : ℕ
tx_max_length = 281

unfoldable pub wipe : SendRing → Option ElementBuffer → ℕ → SendRing × Option ElementBuffer
unfolding wipe_slots
wipe r eb initial_sequence =
    let (buff, eb') = wipe_slots r.size 0 r.buff eb in
    (
      record r {
        buff = buff;
        head = 0;
        tail = 0;
        tx_head = 0;
        head_sequence = initial_sequence;
        tx_sequence = initial_sequence;
        tail_sequence = initial_sequence;
        storage_count = 0;
        resend_count = 0;
        resend_list = replicate arq_resend_schedule_depth 0;
      },
      eb',
    )

-- The allocated ring before it is wiped; the wipe sets every field but the first two.
abbrev pub allocated : ℕ → SendRing
allocated size = record {
  buff = λ i. record { idx = 0; sequence = 0 };
  size = size;
  head = 0;
  tx_head = 0;
  tail = 0;
  head_sequence = 0;
  tx_sequence = 0;
  tail_sequence = 0;
  storage_count = 0;
  resend_count = 0;
  resend_list = [];
}

-- `none` stands for NULL.
unfoldable pub create : ℤ → ℕ → Option SendRing
create size initial_sequence =
    if ltb_ℤ size (pos 4)
    then none
    else some (wipe (allocated (pos_part size)) none initial_sequence).0

unfoldable pub is_full : SendRing → Bool
is_full r = ring_wrap (pos (r.head + 1)) r.size == ring_wrap (pos r.tail) r.size

unfoldable pub can_recall : SendRing → ℕ → Bool
can_recall r sequence =
    if leb (ring_wrap (pos r.tx_head -ℤ pos r.tail) r.size) (seq_diff sequence r.tail_sequence)
    then false
    else true

unfoldable pub get_recall_ring_index : SendRing → ℕ → Result ℕ
get_recall_ring_index r recall_sequence =
    if not (can_recall r recall_sequence)
    then err ring_cannot_recall
    else ok (ring_wrap (pos (r.tail + seq_diff recall_sequence r.tail_sequence)) r.size)

-- The stored payload's item goes to the head, and the head moves on.
abbrev pub push_item : SendRing → ℕ → SendRing
push_item r idx = record r {
  buff = put_item r.buff r.head (record { idx = idx; sequence = r.head_sequence });
  storage_count = r.storage_count + 1;
  head = ring_wrap (pos (r.head + 1)) r.size;
  head_sequence = seq_next r.head_sequence;
}

-- What follows the call of `sky_element_buffer_store`, given its outcome.
unfoldable pub push_stored :
    SendRing → Result ℕ × ElementBuffer → Result ℕ × SendRing × ElementBuffer
push_stored r (err e, eb) = (err e, r, eb)
push_stored r (ok idx, eb) = (ok r.head_sequence, push_item r idx, eb)

-- The value is the sequence of the payload.
unfoldable pub push_packet_to_send :
    SendRing → ElementBuffer → List ℕ → ℕ → Result ℕ × SendRing × ElementBuffer
push_packet_to_send r eb payload len =
    if is_full r
    then (err ring_ring_full, r, eb)
    else push_stored r (ElementBuffer.store eb payload (len % 2 ^ 16))

-- The loop that looks for a sequence among the first `n` entries from `i`.
unfoldable pub is_scheduled : ℕ → ℕ → List ℕ → ℕ → Bool
is_scheduled zero i xs sequence = false
is_scheduled (suc n) i xs sequence =
    let rest = is_scheduled n (i + 1) xs sequence in
    if get_or xs i 0 == sequence then true else rest

abbrev pub add_resend : SendRing → ℕ → SendRing
add_resend r sequence = record r {
  resend_list = set r.resend_list r.resend_count sequence;
  resend_count = r.resend_count + 1;
}

unfoldable pub schedule_resend : SendRing → ℕ → Result (Unit {0}) × SendRing
schedule_resend r sequence =
    if leb arq_resend_schedule_depth r.resend_count
    then (err ring_resend_full, r)
    else if not (can_recall r sequence)
    then (err ring_cannot_recall, r)
    else if is_scheduled r.resend_count 0 r.resend_list sequence
    then (ok tt, r)
    else (ok tt, add_resend r sequence)

-- The loop over the mask from bit `i`, of `k` bits. It goes on as long as the last call succeeded.
unfoldable pub mask_loop :
    ℕ → ℕ → Result (Unit {0}) × SendRing → ℕ → ℕ → Result (Unit {0}) × SendRing
mask_loop zero i outcome sequence mask = outcome
mask_loop (suc k) i (err e, r) sequence mask = (err e, r)
mask_loop (suc k) i (ok tt, r) sequence mask =
    mask_loop k (i + 1) (if mask / 2 ^ i % 2 == 0 then schedule_resend r sequence else (ok tt, r))
      (seq_next sequence) mask

-- `sky_arq_mask_t` is `uint16_t`.
unfoldable pub schedule_resends_by_mask : SendRing → ℕ → ℕ → Result (Unit {0}) × SendRing
schedule_resends_by_mask r sequence mask =
    mask_loop 16 0 (schedule_resend r sequence) (seq_next sequence) mask

unfoldable pub count_free_send_slots : SendRing → ℕ
count_free_send_slots r = ring_wrap (pos r.tail -ℤ pos (r.head + 1)) r.size

unfoldable pub count_packets_to_send : SendRing → Bool → ℕ
count_packets_to_send r include_resend =
    ring_wrap (pos r.head -ℤ pos r.tx_head) r.size + (if include_resend then r.resend_count else 0)

-- `for (i; i < count; i++) resend_list[i - 1] = resend_list[i];`, on `k` rounds.
unfoldable pub shift_loop : ℕ → ℕ → List ℕ → List ℕ
shift_loop zero i xs = xs
shift_loop (suc k) i xs = shift_loop k (i + 1) (set xs (i - 1) (get_or xs i 0))

-- The loop runs from 1 below the count that has already been decremented.
unfoldable pub pop_resend_sequence : SendRing → Result ℕ × SendRing
unfolding shift_loop
pop_resend_sequence r = if r.resend_count == 0 then (err ring_empty, r) else (
  ok (get_or r.resend_list 0 0),
  record r {
    resend_count = r.resend_count - 1;
    resend_list = shift_loop (r.resend_count - 1 - 1) 1 r.resend_list;
  },
)

abbrev pub step_tx : SendRing → SendRing
step_tx r = record r {
  tx_head = ring_wrap (pos (r.tx_head + 1)) r.size;
  tx_sequence = seq_next r.tx_sequence;
}

-- What follows the call of `sky_element_buffer_read`, given its outcome.
unfoldable pub send_new : SendRing → Result (List ℕ) → Result (List ℕ × ℕ) × SendRing
send_new r (err e) = (err e, r)
send_new r (ok payload) = (ok (payload, r.tx_sequence), step_tx r)

-- The value is the payload that goes to `tgt`, with its sequence; C returns the length.
unfoldable pub read_new_packet_to_tx : SendRing → ElementBuffer → Result (List ℕ × ℕ) × SendRing
read_new_packet_to_tx r eb =
    if count_packets_to_send r false == 0
    then (err ring_empty, r)
    else send_new r (ElementBuffer.read eb (r.buff r.tx_head).idx tx_max_length)

abbrev pub with_sequence : Result (List ℕ) → ℕ → Result (List ℕ × ℕ)
with_sequence (err e) sequence = err e
with_sequence (ok payload) sequence = ok (payload, sequence)

abbrev pub recall_at : SendRing → ElementBuffer → ℕ → Result ℕ → Result (List ℕ × ℕ)
recall_at r eb sequence (err e) = err ring_cannot_recall
recall_at r eb sequence (ok i) =
    with_sequence (ElementBuffer.read eb (r.buff i).idx tx_max_length) sequence

-- What follows the pop, given its outcome.
unfoldable pub recall_popped : ElementBuffer → Result ℕ × SendRing → Result (List ℕ × ℕ) × SendRing
recall_popped eb (err e, r) = (err ring_empty, r)
recall_popped eb (ok sequence, r) = (recall_at r eb sequence (get_recall_ring_index r sequence), r)

unfoldable pub read_recall_packet_to_tx : SendRing → ElementBuffer → Result (List ℕ × ℕ) × SendRing
read_recall_packet_to_tx r eb = recall_popped eb (pop_resend_sequence r)

-- What follows an attempt to retransmit: a new packet where it failed.
unfoldable pub or_new :
    ElementBuffer → Result (List ℕ × ℕ) × SendRing → Result (List ℕ × ℕ) × SendRing
or_new eb (ok v, r) = (ok v, r)
or_new eb (err e, r) = read_new_packet_to_tx r eb

unfoldable pub read_to_tx : SendRing → ElementBuffer → Bool → Result (List ℕ × ℕ) × SendRing
read_to_tx r eb include_resend =
    if include_resend && ltb 0 r.resend_count
    then or_new eb (read_recall_packet_to_tx r eb)
    else read_new_packet_to_tx r eb

-- The data length of an item's payload (a result, as `sky_element_buffer_get_data_length` may
-- fail), with the item's sequence, which is written in either case.
abbrev pub peek_item : ElementBuffer → RingItem → Result ℕ × ℕ
peek_item eb item = (ElementBuffer.get_data_length eb item.idx, item.sequence)

abbrev pub peek_new : SendRing → ElementBuffer → Result (Result ℕ × ℕ)
peek_new r eb =
    if count_packets_to_send r false == 0
    then err ring_empty
    else ok (peek_item eb (r.buff r.tx_head))

abbrev pub peek_recall : SendRing → ElementBuffer → Result ℕ → Result (Result ℕ × ℕ)
peek_recall r eb (err e) = peek_new r eb
peek_recall r eb (ok i) = ok (peek_item eb (r.buff i))

unfoldable pub peek_next_tx_size_and_sequence :
    SendRing → ElementBuffer → Bool → Result (Result ℕ × ℕ)
peek_next_tx_size_and_sequence r eb include_resend =
    if count_packets_to_send r include_resend == 0
    then err ring_empty
    else if include_resend && ltb 0 r.resend_count
    then peek_recall r eb (get_recall_ring_index r (get_or r.resend_list 0 0))
    else peek_new r eb

-- The tail's slot is cleared and the tail moves on.
abbrev pub drop_tail : SendRing → SendRing
drop_tail r = record r {
  buff = put_item r.buff r.tail empty_item;
  storage_count = r.storage_count - 1;
  tail = ring_wrap (pos (r.tail + 1)) r.size;
  tail_sequence = seq_next r.tail_sequence;
}

-- The loop of `sendRing_clean_tail_up_to` on fuel, with the number of payloads cleared so far.
unfoldable pub clean_loop : ℕ → SendRing → ElementBuffer → ℕ → ℕ → ℕ × SendRing × ElementBuffer
clean_loop zero r eb new_tail_sequence n_cleared = (n_cleared, r, eb)
clean_loop (suc f) r eb new_tail_sequence n_cleared =
    let rest =
      clean_loop f (drop_tail r) (ElementBuffer.delete eb (r.buff r.tail).idx).1 new_tail_sequence
        (n_cleared + 1) in
    if r.tail_sequence == new_tail_sequence then (n_cleared, r, eb) else rest

-- There are 256 sequences. The value is the number of payloads cleared.
unfoldable pub clean_tail_up_to : SendRing → ElementBuffer → ℕ → Result ℕ × SendRing × ElementBuffer
clean_tail_up_to r eb new_tail_sequence =
    if ltb (seq_diff r.tx_sequence r.tail_sequence) (seq_diff new_tail_sequence r.tail_sequence)
    then (err ring_invalid_acknowledge, r, eb)
    else let (n, r', eb') = clean_loop 256 r eb new_tail_sequence 0 in (ok n, r', eb')
