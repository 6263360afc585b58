-- ===== src/ElementBuffer/Chain.antt =====
-- What it is for a buffer of src/element_buffer.c to hold a payload, and its invariant.
use Prim.Native.Nat.{min}
use skylink.Base.{
  ℕ, ◌+◌, ◌-◌, ◌<◌, ◌≤◌, ◌≡◌, sym, subst, arith, Bool, true, false, List, [], ◌∷◌, take, drop,
  length,
}
use skylink.ElementBuffer.{
  ElementBuffer, BufferElement, eb_end_idx, eb_max_element_count, eb_len_bytes, element_is_free,
  element_requirement_for, stored_length,
}
use skylink.ElementBuffer.Count.{count_from, has, Distinct}

abbrev pub next_of : List ℕ → ℕ
next_of [] = eb_end_idx
next_of (y ∷ ys) = y

-- The elements `xs` are inside the pool and linked both ways, the first of them back to `p`.
abbrev pub Linked : (ℕ → BufferElement) → ℕ → ℕ → List ℕ → Type 0
Linked pool n p [] = Unit
Linked pool n p (x ∷ xs) =
    (x < n) × ((pool x).previous ≡ p) × ((pool x).next ≡ next_of xs) × Linked pool n x xs

-- The elements `xs` hold the bytes `bs`, `u` to each.
abbrev pub Chunks : (ℕ → BufferElement) → ℕ → List ℕ → List ℕ → Type 0
Chunks pool u [] bs = bs ≡ []
Chunks pool u (x ∷ xs) bs =
    (take (min u (length bs)) (pool x).bytes ≡ take u bs) × Chunks pool u xs (drop u bs)

-- The chain `idx ∷ idxs` holds the payload `bs`.
pub record Holds (b : ElementBuffer) (idx : ℕ) (idxs bs : List ℕ) : Type 0 where
  pub linked : Linked b.pool b.element_count eb_end_idx (idx ∷ idxs)
  pub distinct : Distinct (idx ∷ idxs)
  pub required : length idxs + 1 ≡ element_requirement_for b (length bs)
  pub stored : stored_length (b.pool idx) ≡ length bs
  pub first :
      take
        (min (b.element_usable_space - eb_len_bytes) (length bs))
        (drop eb_len_bytes (b.pool idx).bytes)
      ≡ take (b.element_usable_space - eb_len_bytes) bs
  pub rest :
      Chunks b.pool b.element_usable_space idxs (drop (b.element_usable_space - eb_len_bytes) bs)

abbrev pub free_at : ElementBuffer → ℕ → Bool
free_at b i = element_is_free (b.pool i)

-- The counter of free elements is right, and the sizes are those that the code relies on.
pub record IsValid (b : ElementBuffer) : Type 0 where
  pub usable : eb_len_bytes ≤ b.element_usable_space
  pub nonempty : 0 < b.element_count
  pub bounded : b.element_count ≤ eb_max_element_count
  pub last : b.last_write_index < b.element_count
  pub counted : b.free_elements ≡ count_from (free_at b) 0 b.element_count

-- `b'` has the sizes of `b`, and the elements of `b` but for those of `xs`.
pub record SameOutside (xs : List ℕ) (b b' : ElementBuffer) : Type 0 where
  pub count : b'.element_count ≡ b.element_count
  pub usable : b'.element_usable_space ≡ b.element_usable_space
  pub same : (y : ℕ) → has y xs ≡ false → b'.pool y ≡ b.pool y

-- No element is in both lists.
abbrev pub Apart : List ℕ → List ℕ → Type 0
Apart xs ys = (y : ℕ) → has y ys ≡ true → has y xs ≡ false

module _ (pool pool' : ℕ → BufferElement) where
  pub Linked-frame :
      (n p : ℕ) (xs : List ℕ)
      → ((y : ℕ) → has y xs ≡ true → pool' y ≡ pool y)
      → Linked pool n p xs
      → Linked pool' n p xs
  Linked-frame n p [] same l = tt
  Linked-frame n p (x ∷ xs) same l =
      let e : pool' x ≡ pool x = same x (ground arith) in
      (l.0, rw e l.1, rw e l.2, Linked-frame n x xs (λ y h. same y (ground arith)) l.3)

  pub Chunks-frame :
      (u : ℕ) (xs bs : List ℕ)
      → ((y : ℕ) → has y xs ≡ true → pool' y ≡ pool y)
      → Chunks pool u xs bs
      → Chunks pool' u xs bs
  Chunks-frame u [] bs same c = c
  Chunks-frame u (x ∷ xs) bs same c =
      let e : pool' x ≡ pool x = same x (ground arith) in
      (rw e c.0, Chunks-frame u xs (drop u bs) (λ y h. same y (ground arith)) c.1)

-- A payload is untouched by an operation that keeps off its elements.
pub Holds-frame :
    (b b' : ElementBuffer) (idx : ℕ) (xs idxs bs : List ℕ)
    → SameOutside xs b b'
    → Apart xs (idx ∷ idxs)
    → Holds b idx idxs bs
    → Holds b' idx idxs bs
unfolding element_requirement_for
Holds-frame b b' idx xs idxs bs s a h =
    let at_idx : b'.pool idx ≡ b.pool idx = agree idx (ground arith) in
    record {
      linked =
          subst (λ n. Linked b'.pool n eb_end_idx (idx ∷ idxs)) (sym s.count)
            (Linked-frame b.pool b'.pool b.element_count eb_end_idx (idx ∷ idxs) agree h.linked);
      distinct = h.distinct;
      required = rw s.usable h.required;
      stored = rw at_idx h.stored;
      first = rw (s.usable, at_idx) h.first;
      rest =
          subst (λ u. Chunks b'.pool u idxs (drop (u - eb_len_bytes) bs)) (sym s.usable)
            (Chunks-frame b.pool b'.pool b.element_usable_space idxs
              (drop (b.element_usable_space - eb_len_bytes) bs) (λ y m. agree y (ground arith))
              h.rest);
    }
  where
    agree : (y : ℕ) → has y (idx ∷ idxs) ≡ true → b'.pool y ≡ b.pool y
    agree y m = s.same y (a y m)
