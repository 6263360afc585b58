-- ===== src/ElementBuffer/SelfCheck/Reach.antt =====
-- What an element buffer of src/element_buffer.c reaches by its operations from its creation on.
use skylink.Base.{
  ℕ, ◌+◌, ◌<◌, ◌≤◌, ◌≡◌, ◌^◌, sym, ◌∙◌, subst, arith, true, Option, none, some, List, length, inl,
  inr, Bool-cases, ltb,
}
use native.Mathlib.Decide.{dec_lt}
use skylink.Base.Result.{Result}
use skylink.ElementBuffer.{
  ElementBuffer, BufferElement, eb_len_bytes, eb_max_element_count, element_is_first,
  element_requirement_for, indexes_size, create, wipe, store, delete,
}
use skylink.ElementBuffer.Chain.{IsValid}
use skylink.ElementBuffer.Store.{store-no_space}
use skylink.ElementBuffer.Wipe.{wipe-IsValid}
use skylink.ElementBuffer.Laws.{not_first-invalid}
use skylink.ElementBuffer.SelfCheck.{entire_buffer_is_ok}
use skylink.ElementBuffer.SelfCheck.Covered.{
  IsCovered, Used-first, entire_buffer_is_ok-IsCovered, entire_buffer_is_ok-store,
  entire_buffer_is_ok-delete,
}

-- One operation: a payload is stored, whose length is a word and whose elements fit the array on
-- the stack of the code; the chain at an index of the pool is deleted; or the buffer is wiped.
pub data Step (b : ElementBuffer) : ElementBuffer → Type 0 where
  storing :
      (src : List ℕ)
      → length src < 2 ^ 16
      → element_requirement_for b (length src) ≤ indexes_size
      → Step b (store b src (length src)).1
  deleting : (idx : ℕ) → idx < b.element_count → Step b (delete b idx).1
  wiping : Step b (wipe b)

pub data Reach (first : ElementBuffer) : ElementBuffer → Type 0 where
  start : Reach first first
  later : {b b' : ElementBuffer} → Reach first b → Step b b' → Reach first b'

-- The buffer is valid, and made of held payloads and free elements.
abbrev IsSound : ElementBuffer → Type 0
IsSound b = IsValid b × IsCovered b

storing-IsSound :
    (b : ElementBuffer) (src : List ℕ)
    → length src < 2 ^ 16
    → element_requirement_for b (length src) ≤ indexes_size
    → IsSound b
    → IsSound (store b src (length src)).1
storing-IsSound b src u16 stack v =
    elim (dec_lt b.free_elements (element_requirement_for b (length src))) [
      | yes p ↦
          subst (λ (t : Result ℕ × ElementBuffer). IsSound t.1) (sym (store-no_space b src u16 p)) v
      | no p ↦
          let (idx, b', r, v', c', _) =
            entire_buffer_is_ok-store b src v.0 v.1 u16 stack (omega arith) in
          subst (λ (t : Result ℕ × ElementBuffer). IsSound t.1) (sym r) (v', c')
    ]

deleting-IsSound :
    (b : ElementBuffer) (idx : ℕ) → idx < b.element_count → IsSound b → IsSound (delete b idx).1
deleting-IsSound b idx p v = elim (Bool-cases (element_is_first b (b.pool idx))) [
  | inl e ↦ elim (v.1 idx p) [
    | inl f ↦ absurd (ground arith)
    | inr used ↦
        let (idxs, bs, h) = Used-first b idx v.0.bounded e used in
        let (b', r, v', c', _) = entire_buffer_is_ok-delete b idx idxs bs v.0 v.1 h in
        subst (λ (t : Result (Unit {0}) × ElementBuffer). IsSound t.1) (sym r) (v', c')
  ]
  | inr e ↦
      subst (λ (t : Result (Unit {0}) × ElementBuffer). IsSound t.1)
        (sym (not_first-invalid b idx e).2) v
]

wiping-IsSound :
    (b : ElementBuffer)
    → eb_len_bytes ≤ b.element_usable_space
    → 0 < b.element_count
    → b.element_count ≤ eb_max_element_count
    → IsSound (wipe b)
unfolding wipe
wiping-IsSound b u n h = let (v, _, free) = wipe-IsValid b u n h in (v, λ y p. inl (free y p))

step-IsSound : {b b' : ElementBuffer} → Step b b' → IsSound b → IsSound b'
step-IsSound {b = b} (storing src l fits) v = storing-IsSound b src l fits v
step-IsSound {b = b} (deleting idx p) v = deleting-IsSound b idx p v
step-IsSound {b = b} wiping v = wiping-IsSound b v.0.usable v.0.nonempty v.0.bounded

later-IsSound : {first b : ElementBuffer} → Reach first b → IsSound first → IsSound b
later-IsSound start v = v
later-IsSound (later run step) v = step-IsSound step (later-IsSound run v)

abbrev Made : Option ElementBuffer → Type 0
Made none = Unit {0}
Made (some b) = IsSound b

create-IsSound :
    (raw : ℕ → BufferElement) (usable count : ℕ)
    → eb_len_bytes ≤ usable
    → 0 < count
    → Made (create raw usable count)
unfolding create
create-IsSound raw usable count u n = elim (Bool-cases (ltb eb_max_element_count count)) [
  | inl e ↦ rw e tt
  | inr e ↦ rw e (
      wiping-IsSound
        (record {
          pool = raw;
          last_write_index = 0;
          free_elements = count;
          element_count = count;
          element_size = usable + 4;
          element_usable_space = usable;
        })
        u n (ground arith))
]

-- A buffer is created with room for the length field in an element, and with elements. Whatever it
-- reaches by storing payloads (whose length is a word and which need at most 42 elements), deleting
-- at any indices of the pool, and wiping, in any order and number, is valid and made of held payloads
-- and free elements, and its self-check ends and finds it in order.
pub Reach-entire_buffer_is_ok :
    {first b : ElementBuffer} (raw : ℕ → BufferElement) (usable count : ℕ)
    → eb_len_bytes ≤ usable
    → 0 < count
    → create raw usable count ≡ some first
    → Reach first b
    → IsValid b × IsCovered b × (entire_buffer_is_ok b ≡ some true)
Reach-entire_buffer_is_ok {b = b} raw usable count u n e run =
    let (v, c) = later-IsSound run (subst Made e (create-IsSound raw usable count u n)) in
    (v, c, entire_buffer_is_ok-IsCovered b v.bounded c ∙ ground (arith, v.counted))
