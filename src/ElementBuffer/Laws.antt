-- ===== src/ElementBuffer/Laws.antt =====
-- What a client of the element buffer of src/element_buffer.c relies on.
use skylink.Base.{
  ℕ, ◌^◌, ◌+◌, ◌*◌, ◌<◌, ◌≤◌, ◌≡◌, ◌↔◌, sym, ap, ◌∙◌, arith, true, false, List, [], ◌∷◌, length,
  inl, inr, Bool-cases,
}
use native.Mathlib.Decide.{dec_lt}
use skylink.Base.Result.{Result, ok, err, ebuffer_invalid_index, ebuffer_no_space}
use skylink.ElementBuffer.{
  ElementBuffer, eb_len_bytes, indexes_size, element_is_first, element_requirement_for, store, read,
  delete, get_data_length,
}
use skylink.ElementBuffer.Chain.{Holds, Holds-frame, IsValid, Apart, free_at}
use skylink.ElementBuffer.Count.{has, Each}
use skylink.ElementBuffer.Acquire.{Acquired}
use skylink.ElementBuffer.Store.{store-Stored, store-no_space, Linked-not_free, requirement_bounds}
use skylink.ElementBuffer.Read.{read-Holds}
use skylink.ElementBuffer.Delete.{delete-Wiped, Wiped-SameOutside}

free_of_Each :
    (b : ElementBuffer) (xs : List ℕ) (y : ℕ)
    → Each (λ x. (x < b.element_count) × (free_at b x ≡ true)) xs
    → has y xs ≡ true
    → free_at b y ≡ true
free_of_Each b [] y e m = absurd (cc)
free_of_Each b (x ∷ xs) y e m = ground (arith, free_of_Each b xs y e.1)

-- Elements that were free are apart from every held payload.
pub Acquired-Apart :
    (b : ElementBuffer) (xs : List ℕ) (idx : ℕ) (idxs bs : List ℕ)
    → IsValid b
    → Acquired b xs
    → Holds b idx idxs bs
    → Apart xs (idx ∷ idxs)
Acquired-Apart b xs idx idxs bs v a h y m = elim (Bool-cases (has y xs)) [
  | inl k ↦ absurd (
      cc (
        free_of_Each b xs y a.free k,
        Linked-not_free b.pool b.element_count 65531 (idx ∷ idxs) y v.bounded (omega arith) h.linked
            m,
      ))
  | inr k ↦ k
]

-- A payload whose length is a word and which requires no more than 42 elements is stored into a
-- valid buffer whose free elements are enough: the store returns an index from which a reader with
-- room for them reads the same bytes back, and the buffer stays valid.
pub read-store :
    (b : ElementBuffer) (src : List ℕ) (max_len : ℕ)
    → IsValid b
    → length src < 2 ^ 16
    → element_requirement_for b (length src) ≤ indexes_size
    → element_requirement_for b (length src) ≤ b.free_elements
    → length src ≤ max_len
    → (idx : ℕ) × (b' : ElementBuffer) × (store b src (length src) ≡ (ok idx, b'))
      × IsValid b'
      × (read b' idx max_len ≡ ok src)
read-store b src max_len v u16 stack h fits =
    let (idx, idxs, b', r, s) = store-Stored b src v u16 stack h in
    (idx, b', r, s.valid, read-Holds b' idx idxs src max_len s.valid s.holds fits)

-- A store of a payload whose length is a word and which requires no more than 42 elements, into a
-- valid buffer whose free elements are enough, leaves a payload that the buffer holds as it is, and a
-- reader with room reads it as before.
pub read-store_other :
    (b : ElementBuffer) (src : List ℕ) (j : ℕ) (js bs : List ℕ) (max_len : ℕ)
    → IsValid b
    → length src < 2 ^ 16
    → element_requirement_for b (length src) ≤ indexes_size
    → element_requirement_for b (length src) ≤ b.free_elements
    → Holds b j js bs
    → length bs ≤ max_len
    → (idx : ℕ) × (b' : ElementBuffer) × (store b src (length src) ≡ (ok idx, b'))
      × Holds b' j js bs
      × (read b' j max_len ≡ ok bs)
read-store_other b src j js bs max_len v u16 stack h k fits =
    let (idx, idxs, b', r, s) = store-Stored b src v u16 stack h in
    let k' : Holds b' j js bs =
      Holds-frame b b' j (idx ∷ idxs) js bs s.same
        (Acquired-Apart b (idx ∷ idxs) j js bs v s.acquired k) k in
    (idx, b', r, k', read-Holds b' j js bs max_len s.valid k' fits)

-- At an index that is not the first element of a chain every access is refused, and nothing
-- changes.
pub not_first-invalid :
    (b : ElementBuffer) (idx : ℕ)
    → element_is_first b (b.pool idx) ≡ false
    → (get_data_length b idx ≡ err ebuffer_invalid_index)
      × ((max_len : ℕ) → read b idx max_len ≡ err ebuffer_invalid_index)
      × (delete b idx ≡ (err ebuffer_invalid_index, b))
unfolding get_data_length read delete
not_first-invalid b idx e = (rw e, λ max_len. rw e, rw e)

-- Deleting a held payload of a valid buffer succeeds, keeps the buffer valid and counts exactly its
-- elements free, after which its index is refused.
pub delete-Holds :
    (b : ElementBuffer) (idx : ℕ) (idxs bs : List ℕ)
    → IsValid b
    → Holds b idx idxs bs
    → (b' : ElementBuffer) × (delete b idx ≡ (ok tt, b'))
      × IsValid b'
      × (b'.free_elements ≡ b.free_elements + element_requirement_for b (length bs))
      × ((max_len : ℕ) → read b' idx max_len ≡ err ebuffer_invalid_index)
delete-Holds b idx idxs bs v h =
    let (b', r, w, v') = delete-Wiped b idx idxs bs v h in
    (
      b',
      r,
      v',
      omega (arith, w.freed, h.required),
      (not_first-invalid b' idx (ground (arith, w.pool idx))).1,
    )

-- Deleting a held payload of a valid buffer leaves a payload held in other elements as it is, and
-- a reader with room reads it as before.
pub read-delete_other :
    (b : ElementBuffer) (idx : ℕ) (idxs bs : List ℕ) (j : ℕ) (js cs : List ℕ) (max_len : ℕ)
    → IsValid b
    → Holds b idx idxs bs
    → Holds b j js cs
    → Apart (idx ∷ idxs) (j ∷ js)
    → length cs ≤ max_len
    → (b' : ElementBuffer) × (delete b idx ≡ (ok tt, b'))
      × Holds b' j js cs
      × (read b' j max_len ≡ ok cs)
read-delete_other b idx idxs bs j js cs max_len v h k a fits =
    let (b', r, w, v') = delete-Wiped b idx idxs bs v h in
    let k' : Holds b' j js cs =
      Holds-frame b b' j (idx ∷ idxs) js cs (Wiped-SameOutside b b' idx idxs bs v h w) a k in
    (b', r, k', read-Holds b' j js cs max_len v' k' fits)

-- Storing a payload of at most 42 elements and a length that is a word in a valid buffer with enough
-- free elements and deleting it again succeeds and leaves the number of free elements as it was.
pub delete-store :
    (b : ElementBuffer) (src : List ℕ)
    → IsValid b
    → length src < 2 ^ 16
    → element_requirement_for b (length src) ≤ indexes_size
    → element_requirement_for b (length src) ≤ b.free_elements
    → (idx : ℕ) × (b' : ElementBuffer) × (b'' : ElementBuffer) × (store b src (length src)
        ≡ (ok idx, b'))
      × (delete b' idx ≡ (ok tt, b''))
      × IsValid b''
      × (b''.free_elements ≡ b.free_elements)
delete-store b src v u16 stack h =
    let (idx, idxs, b', r, s) = store-Stored b src v u16 stack h in
    let (b'', r', w, v'') = delete-Wiped b' idx idxs src s.valid s.holds in
    (idx, b', b'', r, r', v'', omega (arith, w.freed, s.used))

-- A valid buffer refuses a payload, whose length is a word and which requires no more than 42 elements,
-- for lack of space exactly when it requires more than the free elements.
pub store_iff :
    (b : ElementBuffer) (src : List ℕ)
    → IsValid b
    → length src < 2 ^ 16
    → element_requirement_for b (length src) ≤ indexes_size
    → ((store b src (length src) ≡ (err ebuffer_no_space, b))
        ↔ (b.free_elements < element_requirement_for b (length src)))
store_iff b src v u16 stack = (
  λ e. elim (dec_lt b.free_elements (element_requirement_for b (length src))) [
    | yes p ↦ p
    | no p ↦
        let (idx, idxs, b', r, s) = store-Stored b src v u16 stack (omega arith) in
        absurd (cc (ap (λ (t : Result ℕ × ElementBuffer). t.0) (sym r ∙ e)))
  ],
  λ p. store-no_space b src u16 p,
)

mul_mono : (a b u : ℕ) → a ≤ b → a * u ≤ b * u
mul_mono a b u h = grind arith

-- The requirement is the least number of elements whose usable bytes hold the length field and
-- the payload.
pub requirement_least :
    (b : ElementBuffer) (len n : ℕ)
    → 0 < b.element_usable_space
    → ((element_requirement_for b len ≤ n) ↔ (len + eb_len_bytes ≤ n * b.element_usable_space))
requirement_least b len n h = (
  λ p. omega (
    arith,
    requirement_bounds b len h,
    mul_mono (element_requirement_for b len) n b.element_usable_space p,
  ),
  λ p. elim (dec_lt n (element_requirement_for b len)) [
    | no q ↦ omega arith
    | yes q ↦ absurd (
        omega (
          arith,
          requirement_bounds b len h,
          mul_mono (n + 1) (element_requirement_for b len) b.element_usable_space (omega arith),
        ))
  ],
)

-- With the smallest usable size that a virtual channel is created with, no payload of a frame
-- needs more than the 42 indices that a store has room for on its stack.
pub requirement_within_stack :
    (b : ElementBuffer) (len : ℕ)
    → 12 ≤ b.element_usable_space
    → len ≤ 500
    → element_requirement_for b len ≤ indexes_size
requirement_within_stack b len h k = (requirement_least b len 42 (omega arith)).1 (omega arith)
