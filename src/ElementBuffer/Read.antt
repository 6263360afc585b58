-- ===== src/ElementBuffer/Read.antt =====
-- Reading a held payload, as sky_element_buffer_read of src/element_buffer.c does.
use Prim.Native.Nat.{min}
use skylink.Base.{
  ℕ, ◌+◌, ◌-◌, ◌<◌, ◌≤◌, ◌≡◌, ◌⊎◌, refl, sym, ap, arith, true, false, List, [], ◌∷◌, drop, length,
  length-drop, take-append-drop, inl, inr, ltb,
}
use skylink.Base.Result.{ok}
use skylink.ElementBuffer.{
  ElementBuffer, eb_end_idx, eb_max_element_count, element_is_first, element_is_last,
  element_is_free, element_requirement_for, read_loop, read,
}
use skylink.ElementBuffer.Chain.{Linked, Chunks, Holds, IsValid}

-- The first of linked elements is known for a first one.
pub Linked-first :
    (b : ElementBuffer) (x : ℕ) (xs : List ℕ)
    → Linked b.pool b.element_count eb_end_idx (x ∷ xs)
    → element_is_first b (b.pool x) ≡ true
Linked-first b x [] l = ground arith
Linked-first b x (y ∷ ys) l = ground arith

-- The last of linked elements, and it alone, is known for a last one.
pub Linked-last :
    (b : ElementBuffer) (p x : ℕ)
    → (p ≡ eb_end_idx) ⊎ (p < b.element_count)
    → Linked b.pool b.element_count p (x ∷ [])
    → element_is_last b (b.pool x) ≡ true
Linked-last b p x (inl e) l = ground arith
Linked-last b p x (inr h) l = ground arith

pub Linked-not_last :
    (b : ElementBuffer) (p x y : ℕ) (ys : List ℕ)
    → b.element_count ≤ eb_max_element_count
    → Linked b.pool b.element_count p (x ∷ y ∷ ys)
    → element_is_last b (b.pool x) ≡ false
Linked-not_last b p x y ys h l = ground arith

Linked-taken :
    (b : ElementBuffer) (p x y : ℕ) (ys : List ℕ)
    → b.element_count ≤ eb_max_element_count
    → Linked b.pool b.element_count p (x ∷ y ∷ ys)
    → element_is_free (b.pool y) ≡ false
Linked-taken b p x y ys h l = ground arith

read_loop-Chunks :
    (xs : List ℕ) (b : ElementBuffer) (p x len cursor : ℕ) (rest : List ℕ)
    → b.element_count ≤ eb_max_element_count
    → (p ≡ eb_end_idx) ⊎ (p < b.element_count)
    → Linked b.pool b.element_count p (x ∷ xs)
    → Chunks b.pool b.element_usable_space xs rest
    → len - cursor ≡ length rest
    → read_loop b (length xs) (b.pool x) len cursor ≡ ok rest
unfolding read_loop
read_loop-Chunks [] b p x len cursor rest bound hp l c e =
    rw (Linked-last b p x hp l) (ap ok (sym c))
read_loop-Chunks (y ∷ ys) b p x len cursor rest bound hp l c e =
    let u = b.element_usable_space in
    let ih : read_loop b (length ys) (b.pool y) len (cursor + min u (length rest))
        ≡ ok (drop u rest) =
      read_loop-Chunks ys b x y len (cursor + min u (length rest)) (drop u rest) bound (inr l.0) l.3
        c.1 (omega (arith, length-drop u rest)) in
    let taken : element_is_free (b.pool y) ≡ false = Linked-taken b p x y ys bound l in
    let next : (b.pool x).next ≡ y = l.2 in
    rw (next, e, taken, ih, c.0) (ap ok (take-append-drop u rest))

-- A held payload is read back whole, where the target has room for it.
pub read-Holds :
    (b : ElementBuffer) (idx : ℕ) (idxs bs : List ℕ) (max_len : ℕ)
    → IsValid b
    → Holds b idx idxs bs
    → length bs ≤ max_len
    → read b idx max_len ≡ ok bs
unfolding read
read-Holds b idx idxs bs max_len v h fits =
    let u = b.element_usable_space in
    let fits' : ltb max_len (length bs) ≡ false = ground arith in
    let rounds : element_requirement_for b (length bs) - 1 ≡ length idxs =
      omega (arith, h.required) in
    let ih : read_loop b (length idxs) (b.pool idx) (length bs) (min (u - 2) (length bs))
        ≡ ok (drop (u - 2) bs) =
      read_loop-Chunks idxs b eb_end_idx idx (length bs) (min (u - 2) (length bs)) (drop (u - 2) bs)
        v.bounded (inl refl) h.linked h.rest (omega (arith, length-drop (u - 2) bs)) in
    rw (Linked-first b idx idxs h.linked, h.stored, fits', rounds, ih, h.first)
      (ap ok (take-append-drop (u - 2) bs))
