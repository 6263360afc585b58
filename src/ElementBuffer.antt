-- ===== src/ElementBuffer.antt =====
-- src/element_buffer.c: the pool of linked elements that stores payloads.
-- An element is its two header words and its data section. The pool is memory indexed by element,
-- total as C's memory is; the invariant and the frame theorems say which elements are touched.
-- An operation that changes the buffer returns its result beside the new buffer.
pub mod Chain
pub mod Count
pub mod Scan
pub mod Acquire
pub mod Write
pub mod Store
pub mod Read
pub mod Delete
pub mod Wipe
pub mod Laws
pub mod SelfCheck
use Prim.Native.Nat.{min}
use mathlib.Core.Option
use skylink.Base.{
  ℕ, zero, suc, ◌+◌, ◌-◌, ◌*◌, ◌/◌, ◌%◌, ◌^◌, Bool, ◌&&◌, ◌||◌, not, true, false, Option, none,
  some, List, [], ◌∷◌, ◌++◌, if◌then◌else◌, ltb, ◌==◌, take, drop, length, get_or,
}
use skylink.Base.Int.{ℤ, pos, pos_part}
use skylink.Base.Result.{
  Result, ok, err, ebuffer_invalid_index, ebuffer_chain_corrupted, ebuffer_no_space,
  ebuffer_too_long_payload, undefined_behaviour,
}
use skylink.Utilities.{positive_modulo}

-- `EB_MAX_ELEMENT_COUNT`, `EB_END_IDX`, `EB_NULL_IDX`, `EB_LEN_BYTES`
abbrev pub eb_max_element_count : ℕ
eb_max_element_count = 65530

abbrev pub eb_end_idx : ℕ
eb_end_idx = 65531

abbrev pub eb_null_idx : ℕ
eb_null_idx = 65532

abbrev pub eb_len_bytes : ℕ
eb_len_bytes = 2

pub record BufferElement : Type 0 where
  pub previous : ℕ
  pub next : ℕ
  pub bytes : List ℕ

pub record ElementBuffer : Type 0 where
  pub pool : ℕ → BufferElement
  pub last_write_index : ℕ
  pub free_elements : ℕ
  pub element_count : ℕ
  pub element_size : ℕ
  pub element_usable_space : ℕ

-- `memcpy(d + off, bs, length bs)`
abbrev pub write_at : ℕ → List ℕ → List ℕ → List ℕ
write_at off bs d = take off d ++ (bs ++ drop (off + length bs) d)

abbrev pub put : (ℕ → BufferElement) → ℕ → BufferElement → ℕ → BufferElement
put pool i el j = if j == i then el else pool j

abbrev pub put_element : ElementBuffer → ℕ → BufferElement → ElementBuffer
put_element b i el = record b { pool = put b.pool i el }

unfoldable pub wrap_element : ElementBuffer → ℤ → ℕ
wrap_element b idx = pos_part (positive_modulo idx (pos b.element_count))

abbrev pub element_is_free : BufferElement → Bool
element_is_free el = el.previous == eb_null_idx && el.next == eb_null_idx

abbrev pub element_is_first : ElementBuffer → BufferElement → Bool
element_is_first b el =
    (el.previous == eb_end_idx && el.next == eb_end_idx)
    || (el.previous == eb_end_idx && ltb el.next b.element_count)

abbrev pub element_is_last : ElementBuffer → BufferElement → Bool
element_is_last b el =
    (el.next == eb_end_idx && el.previous == eb_end_idx)
    || (el.next == eb_end_idx && ltb el.previous b.element_count)

abbrev pub element_is_in_chain : ElementBuffer → BufferElement → Bool
element_is_in_chain b el =
    (el.previous == eb_end_idx && el.next == eb_end_idx)
    || (ltb el.previous b.element_count && ltb el.next b.element_count)
    || (el.previous == eb_end_idx && ltb el.next b.element_count)
    || (ltb el.previous b.element_count && el.next == eb_end_idx)

abbrev pub wipe_element : BufferElement → BufferElement
wipe_element el = record el { previous = eb_null_idx; next = eb_null_idx }

-- The loop of `element_buffer_get_next_free`, with the rounds left. `none` stands for -1.
unfoldable pub next_free_loop : ElementBuffer → ℕ → ℕ → ℕ → Option ℕ
next_free_loop b start i zero = none
next_free_loop b start i (suc k) =
    let idx = wrap_element b (pos (start + i)) in
    let rest = next_free_loop b start (i + 1) k in
    if element_is_free (b.pool idx) then some idx else rest

unfoldable pub get_next_free : ElementBuffer → ℕ → Option ℕ
get_next_free b start = next_free_loop b start 0 b.element_count

-- The loop of `element_buffer_get_n_free`: `last` is `tgt[i - 1]`, the result is `tgt[i..n)`.
unfoldable pub n_free_loop : ElementBuffer → ℕ → ℕ → ℕ → Option (List ℕ)
n_free_loop b idx0 last zero = some []
n_free_loop b idx0 last (suc k) = elim (get_next_free b (wrap_element b (pos (last + 1)))) [
  | none ↦ none
  | some idx ↦ if idx == idx0 then none else Option.map (λ r. idx ∷ r) (n_free_loop b idx0 idx k)
]

unfoldable pub get_n_free : ElementBuffer → ℕ → ℕ → Option (List ℕ)
get_n_free b n start = elim (get_next_free b start) [
  | none ↦ none
  | some idx0 ↦ Option.map (λ r. idx0 ∷ r) (n_free_loop b idx0 idx0 (n - 1))
]

unfoldable pub element_requirement : ℕ → ℕ → ℕ
element_requirement element_size len =
    let usable_size = element_size - 4 in (len + eb_len_bytes + usable_size - 1) / usable_size

unfoldable pub element_requirement_for : ElementBuffer → ℕ → ℕ
element_requirement_for b len =
    (len + eb_len_bytes + b.element_usable_space - 1) / b.element_usable_space

-- The wiping loop over the elements `i..i+k`.
abbrev pub wipe_loop : ℕ → ℕ → (ℕ → BufferElement) → ℕ → BufferElement
wipe_loop zero i pool = pool
wipe_loop (suc k) i pool = wipe_loop k (i + 1) (put pool i (wipe_element (pool i)))

unfoldable pub wipe : ElementBuffer → ElementBuffer
wipe b = record b {
  pool = wipe_loop b.element_count 0 b.pool;
  last_write_index = 0;
  free_elements = b.element_count;
}

-- `raw` is the memory that `SKY_MALLOC` returns. `none` stands for a failed SKY_ASSERT.
unfoldable pub create : (ℕ → BufferElement) → ℕ → ℕ → Option ElementBuffer
unfolding wipe
create raw usable count = if ltb eb_max_element_count count then none else some (wipe fresh)
  where
    fresh : ElementBuffer
    fresh = record {
      pool = raw;
      last_write_index = 0;
      free_elements = count;
      element_count = count;
      element_size = usable + 4;
      element_usable_space = usable;
    }

-- `memcpy(el0.data, &length, 2)` of a 16-bit length on a little-endian host, and the read back of it.
abbrev pub length_bytes : ℕ → List ℕ
length_bytes len = (len % 256) ∷ (len / 256 % 256) ∷ []

abbrev pub stored_length : BufferElement → ℕ
stored_length el = get_or el.bytes 0 0 + 256 * get_or el.bytes 1 0

-- One round of the copy: `idx` is linked behind `last` and takes the chunk.
abbrev pub link_element : ElementBuffer → ℕ → ℕ → List ℕ → ElementBuffer
link_element b last idx chunk =
    let linked = put_element b last (record (b.pool last) { next = idx }) in
    put_element linked idx (record {
      previous = last;
      next = eb_end_idx;
      bytes = write_at 0 chunk (linked.pool idx).bytes;
    })

-- The copy of the rest of the payload to the successive elements `idxs`, `last` before them.
unfoldable pub store_loop : ElementBuffer → ℕ → List ℕ → List ℕ → ℕ → ℕ → ElementBuffer
store_loop b last [] src len cursor = b
store_loop b last (idx ∷ idxs) src len cursor =
    let to_copy = min b.element_usable_space (len - cursor) in
    store_loop (link_element b last idx (take to_copy (drop cursor src))) idx idxs src len
      (cursor + to_copy)

-- The last of the elements, `indexes[n_required - 1]`.
abbrev pub last_of : ℕ → List ℕ → ℕ
last_of x [] = x
last_of x (y ∷ ys) = last_of y ys

-- What `store` does once the elements are acquired.
unfoldable pub store_at : ElementBuffer → List ℕ → List ℕ → ℕ → ℕ → Result ℕ × ElementBuffer
store_at b [] src len n_required = (err ebuffer_no_space, b)
store_at b (idx0 ∷ idxs) src len n_required =
    let to_copy = min len (b.element_usable_space - eb_len_bytes) in
    let el0 = b.pool idx0 in
    let headed = put_element b idx0 (record {
      previous = eb_end_idx;
      next = eb_end_idx;
      bytes = write_at eb_len_bytes (take to_copy src) (write_at 0 (length_bytes len) el0.bytes);
    }) in
    let stored = store_loop headed idx0 idxs src len to_copy in
    (
      ok idx0,
      record stored {
        last_write_index = last_of idx0 idxs;
        free_elements = stored.free_elements - n_required;
      },
    )

-- The size of the array `indexes` on the stack of `sky_element_buffer_store`.
abbrev pub indexes_size : ℕ
indexes_size = 42

-- The parameter of C is a `uint16_t`, which the length is converted to. Where more than `indexes_size` elements are required,
-- and the counter says that so many are free, C writes behind the array `indexes`.
-- `n_required == 0` cannot be with a positive usable space; the source tests it nonetheless.
unfoldable pub store : ElementBuffer → List ℕ → ℕ → Result ℕ × ElementBuffer
store b src length =
    let len = length % 2 ^ 16 in
    let required = element_requirement_for b len in
    let n_required = (if required == 0 then 1 else required) in
    if ltb b.free_elements required
    then (err ebuffer_no_space, b)
    else if ltb indexes_size n_required
    then (err undefined_behaviour, b)
    else elim (get_n_free b n_required b.last_write_index) [
      | none ↦ (err ebuffer_no_space, b)
      | some idxs ↦ store_at b idxs src len n_required
    ]

unfoldable pub get_data_length : ElementBuffer → ℕ → Result ℕ
get_data_length b idx =
    let el = b.pool idx in
    if element_is_first b el then ok (stored_length el) else err ebuffer_invalid_index

abbrev pub prepend : List ℕ → Result (List ℕ) → Result (List ℕ)
prepend xs (ok ys) = ok (xs ++ ys)
prepend xs (err e) = err e

-- The reading loop, with the rounds left, and the check behind it. The result is what the loop
-- writes to the target from `cursor` on.
unfoldable pub read_loop : ElementBuffer → ℕ → BufferElement → ℕ → ℕ → Result (List ℕ)
read_loop b zero el len cursor = if element_is_last b el then ok [] else err ebuffer_chain_corrupted
read_loop b (suc k) previous_el len cursor =
    let el = b.pool previous_el.next in
    let to_read = min b.element_usable_space (len - cursor) in
    let rest = read_loop b k el len (cursor + to_read) in
    if element_is_free el then err ebuffer_chain_corrupted else prepend (take to_read el.bytes) rest

-- The value is the payload that is written to the target; C returns its length.
unfoldable pub read : ElementBuffer → ℕ → ℕ → Result (List ℕ)
unfolding read_loop
read b idx max_len =
    let el = b.pool idx in
    let element_length = stored_length el in
    let to_read = min (b.element_usable_space - eb_len_bytes) element_length in
    let rounds = element_requirement_for b element_length - 1 in
    if not (element_is_first b el)
    then err ebuffer_invalid_index
    else if ltb max_len element_length
    then err ebuffer_too_long_payload
    else prepend (take to_read (drop eb_len_bytes el.bytes))
        (read_loop b rounds el element_length to_read)

-- `wipe_element(el); buffer->free_elements++;`
abbrev pub free_element : ElementBuffer → ℕ → ElementBuffer
free_element b idx = record b {
  pool = put b.pool idx (wipe_element (b.pool idx));
  free_elements = b.free_elements + 1;
}

-- The wiping loop of `delete`, on fuel.
unfoldable pub delete_loop : ℕ → ElementBuffer → ℕ → ElementBuffer
delete_loop zero b idx = b
delete_loop (suc k) b idx =
    let el = b.pool idx in
    let rest = delete_loop k (free_element b idx) el.next in
    if element_is_last b el then free_element b idx else rest

-- A chain has at most `element_count` elements.
unfoldable pub delete : ElementBuffer → ℕ → Result (Unit {0}) × ElementBuffer
unfolding delete_loop
delete b idx =
    if element_is_first b (b.pool idx)
    then (ok tt, delete_loop b.element_count b idx)
    else (err ebuffer_invalid_index, b)
