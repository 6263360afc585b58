-- ===== src/SequenceRing/RcvRing.antt =====
-- The receive ring of src/sequence_ring.c.
-- An operation returns its result, the ring and the element buffer.
pub mod Invariant
pub mod Horizon
pub mod Create
use skylink.Base.{
  ℕ, zero, suc, ◌+◌, ◌-◌, ◌*◌, ◌%◌, ◌^◌, Bool, true, false, not, ◌||◌, ◌&&◌, Option, none, some,
  List, [], ◌∷◌, if◌then◌else◌, ltb, leb, ◌==◌, length,
}
use skylink.Base.Int.{ℤ, pos, ◌+ℤ◌, ◌-ℤ◌, ltb_ℤ, leb_ℤ, pos_part}
use skylink.Base.Result.{
  Code, Result, ok, err, ring_empty, ring_invalid_sequence, ring_packet_already_in,
  ring_sequences_out_of_sync, ring_sequences_detached,
}
use skylink.ElementBuffer
use skylink.ElementBuffer.{ElementBuffer, eb_null_idx}
use skylink.SequenceRing.{
  RingItem, empty_item, is_vacant, ring_wrap, seq_next, seq_diff, arq_maximum_horizon,
}

-- `struct sky_rcv_ring_s`; `size` is its `length`.
pub record RcvRing : Type 0 where
  pub buff : ℕ → RingItem
  pub size : ℕ
  pub horizon_width : ℕ
  pub head : ℕ
  pub tail : ℕ
  pub head_sequence : ℕ
  pub tail_sequence : ℕ
  pub storage_count : ℕ

abbrev pub put_item : (ℕ → RingItem) → ℕ → RingItem → ℕ → RingItem
put_item buff i item j = if j == i then item else buff j

-- `if ((item->idx != EB_NULL_IDX) && elementBuffer) sky_element_buffer_delete(...)`
abbrev pub delete_item : RingItem → Option ElementBuffer → Option ElementBuffer
delete_item item none = none
delete_item item (some eb) =
    if is_vacant item then some eb else some (ElementBuffer.delete eb item.idx).1

-- The loop of the two wipes over the slots `i..i+k`.
unfoldable pub wipe_slots :
    ℕ → ℕ → (ℕ → RingItem) → Option ElementBuffer → (ℕ → RingItem) × Option ElementBuffer
wipe_slots zero i buff eb = (buff, eb)
wipe_slots (suc k) i buff eb =
    wipe_slots k (i + 1) (put_item buff i empty_item) (delete_item (buff i) eb)

unfoldable pub wipe : RcvRing → Option ElementBuffer → ℕ → RcvRing × Option ElementBuffer
unfolding wipe_slots
wipe r eb initial_sequence =
    let (buff, eb') = wipe_slots r.size 0 r.buff eb in
    (
      record r {
        buff = buff;
        head = 0;
        tail = 0;
        storage_count = 0;
        head_sequence = initial_sequence;
        tail_sequence = initial_sequence;
      },
      eb',
    )

-- The allocated ring before it is wiped: `memset` to zero, and the horizon within its maximum.
abbrev pub allocated : ℕ → ℕ → RcvRing
allocated size horizon_width = record {
  buff = λ i. record { idx = 0; sequence = 0 };
  size = size;
  horizon_width =
      if leb horizon_width arq_maximum_horizon then horizon_width else arq_maximum_horizon;
  head = 0;
  tail = 0;
  head_sequence = 0;
  tail_sequence = 0;
  storage_count = 0;
}

-- `none` stands for NULL.
unfoldable pub create : ℤ → ℤ → ℕ → Option RcvRing
unfolding ◌+ℤ◌
create size horizon_width initial_sequence =
    if ltb_ℤ size (pos 3) || ltb_ℤ horizon_width (pos 0)
    then none
    else if ltb_ℤ size (horizon_width +ℤ pos 3)
    then none
    else some (wipe (allocated (pos_part size) (pos_part horizon_width)) none initial_sequence).0

unfoldable pub count_readable_packets : RcvRing → ℕ
count_readable_packets r = ring_wrap (pos r.head -ℤ pos r.tail) r.size

abbrev pub tail_collision_imminent : RcvRing → Bool
tail_collision_imminent r = ring_wrap (pos (r.head + r.horizon_width + 1)) r.size == r.tail

abbrev pub step_head : RcvRing → RcvRing
step_head r = record r {
  head = ring_wrap (pos (r.head + 1)) r.size;
  head_sequence = seq_next r.head_sequence;
}

-- The loop of `rcvRing_advance_head` on fuel, with the steps made so far.
unfoldable pub advance_loop : ℕ → RcvRing → ℕ → RcvRing × ℕ
advance_loop zero r advanced = (r, advanced)
advance_loop (suc k) r advanced =
    let rest = advance_loop k (step_head r) (advanced + 1) in
    if is_vacant (r.buff r.head) || tail_collision_imminent r then (r, advanced) else rest

-- The head cannot go once round.
unfoldable pub advance_head : RcvRing → RcvRing × ℕ
unfolding advance_loop
advance_head r = advance_loop r.size r 0

-- The tail's slot is cleared and the tails move on.
abbrev pub drop_tail : RcvRing → RcvRing
drop_tail r = record r {
  buff = put_item r.buff r.tail empty_item;
  storage_count = r.storage_count - 1;
  tail = ring_wrap (pos (r.tail + 1)) r.size;
  tail_sequence = seq_next r.tail_sequence;
}

-- What follows the call of `sky_element_buffer_read`, given its outcome.
unfoldable pub deliver_tail :
    RcvRing → ElementBuffer → Result (List ℕ) → Result (List ℕ) × RcvRing × ElementBuffer
deliver_tail r eb (err e) = (err e, r, eb)
deliver_tail r eb (ok payload) =
    (ok payload, (advance_head (drop_tail r)).0, (ElementBuffer.delete eb (r.buff r.tail).idx).1)

-- The value is the payload that goes to `tgt`; C returns zero.
unfoldable pub read_next_received :
    RcvRing → ElementBuffer → ℕ → Result (List ℕ) × RcvRing × ElementBuffer
read_next_received r eb max_length =
    if count_readable_packets r == 0
    then (err ring_empty, r, eb)
    else deliver_tail r eb (ElementBuffer.read eb (r.buff r.tail).idx max_length)

abbrev pub store_item : RcvRing → ℕ → ℕ → ℕ → RcvRing
store_item r slot idx sequence = record r {
  buff = put_item r.buff slot (record { idx = idx; sequence = sequence });
  storage_count = r.storage_count + 1;
}

-- What follows the call of `sky_element_buffer_store`, given its outcome.
unfoldable pub accept_packet :
    RcvRing → ℕ → ℕ → Result ℕ × ElementBuffer → Result ℕ × RcvRing × ElementBuffer
accept_packet r slot sequence (err e, eb) = (err e, r, eb)
accept_packet r slot sequence (ok idx, eb) =
    let (r', advanced) = advance_head (store_item r slot idx sequence) in (ok advanced, r', eb)

-- The value is the number of steps that the head advances. `sky_element_buffer_store` takes a
-- `uint16_t` length.
unfoldable pub push_rx_packet :
    RcvRing → ElementBuffer → List ℕ → ℕ → ℕ → Result ℕ × RcvRing × ElementBuffer
push_rx_packet r eb src len sequence =
    let diff = seq_diff sequence r.head_sequence in
    let slot = ring_wrap (pos (r.head + diff)) r.size in
    if ltb r.horizon_width diff
    then (err ring_invalid_sequence, r, eb)
    else if not (is_vacant (r.buff slot))
    then (err ring_packet_already_in, r, eb)
    else accept_packet r slot sequence (ElementBuffer.store eb src (len % 2 ^ 16))

-- The loop over the horizon from bit `i`: `map |= (1U << i)` sets a bit that is not set.
unfoldable pub bitmap_loop : ℕ → RcvRing → ℕ → ℕ
bitmap_loop zero r i = 0
bitmap_loop (suc k) r i =
    (if is_vacant (r.buff (ring_wrap (pos (r.head + 1 + i)) r.size)) then 0 else 2 ^ i)
    + bitmap_loop k r (i + 1)

unfoldable pub get_horizon_bitmap : RcvRing → ℕ
unfolding bitmap_loop
get_horizon_bitmap r = bitmap_loop (if ltb r.horizon_width 16 then r.horizon_width else 16) r 0

unfoldable pub get_sequence_sync_status : RcvRing → ℕ → Result (Unit {0})
get_sequence_sync_status r peer_tx_head_sequence =
    if peer_tx_head_sequence == r.head_sequence
    then ok tt
    else if leb (seq_diff peer_tx_head_sequence r.head_sequence) arq_maximum_horizon
    then err ring_sequences_out_of_sync
    else err ring_sequences_detached
