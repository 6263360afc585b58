-- ===== src/ElementBuffer/Store.antt =====
-- Storing a payload, as sky_element_buffer_store of src/element_buffer.c does.
use Prim.Native.Nat.{min}
use native.Mathlib.Nat.{div-add-mod, mod-lt}
use skylink.Base.{
  ℕ, ◌^◌, ◌%◌, ◌+◌, ◌-◌, ◌*◌, ◌<◌, ◌≤◌, ◌≡◌, refl, sym, ap, subst, ◌∙◌, arith, true, false, not,
  ◌&&◌, List, [], ◌∷◌, take, drop, length, length-take, take-min, ◌==◌, inl, inr, Bool-cases,
  drop-min, lt→ltb, some, take_exact, ltb,
}
use skylink.Base.Result.{ok, err, ebuffer_no_space}
use skylink.ElementBuffer.{
  indexes_size, ElementBuffer, BufferElement, eb_end_idx, eb_len_bytes, eb_max_element_count,
  element_is_free, element_requirement_for, write_at, length_bytes, put_element, store_loop,
  store_at, last_of, store, get_n_free,
}
use skylink.ElementBuffer.Chain.{Linked, Chunks, Holds, IsValid, SameOutside, free_at}
use skylink.ElementBuffer.Count.{count_from, count_from_drop, count_from_shift, has, Each}
use skylink.ElementBuffer.Acquire.{Acquired, get_n_free-Acquired}
use skylink.ElementBuffer.Write.{Written, store_loop-Written}

-- The ceiling division leaves room for the length field and the payload, and no element unused.
pub requirement_bounds :
    (b : ElementBuffer) (len : ℕ)
    → 0 < b.element_usable_space
    → (0 < element_requirement_for b len)
      × (len + eb_len_bytes ≤ element_requirement_for b len * b.element_usable_space)
      × (element_requirement_for b len * b.element_usable_space
          < len + eb_len_bytes + b.element_usable_space)
unfolding element_requirement_for
requirement_bounds b len h = grind (
  arith,
  div-add-mod (len + 2 + b.element_usable_space - 1) b.element_usable_space,
  mod-lt (len + 2 + b.element_usable_space - 1) h,
)

-- The first element as the store leaves it, and what is read back from it.
first_chunk :
    (u : ℕ) (src d : List ℕ)
    → take (min u (length src)) (
        drop 2
          (write_at 2 (take (min (length src) u) src) (write_at 0 (length_bytes (length src)) d)))
      ≡ take u src
first_chunk u src d =
    let e : min (length src) u ≡ min u (length src) = omega arith in
    rw e (
      take_exact (min u (length src)) (take (min u (length src)) src) _
        (omega (arith, length-take (min u (length src)) src))
      ∙ take-min u src)

-- A linked element is not free.
pub Linked-not_free :
    (pool : ℕ → BufferElement) (n p : ℕ) (xs : List ℕ) (y : ℕ)
    → n ≤ eb_max_element_count
    → p ≤ eb_end_idx
    → Linked pool n p xs
    → has y xs ≡ true
    → element_is_free (pool y) ≡ false
Linked-not_free pool n p [] y hn hp l m = absurd (cc)
Linked-not_free pool n p (x ∷ xs) y hn hp l m = ground (arith, Linked-not_free pool n x xs y hn)

last_of-lt : (n x : ℕ) (xs : List ℕ) → x < n → Each (λ y. y < n) xs → last_of x xs < n
last_of-lt n x [] h e = h
last_of-lt n x (y ∷ ys) h e = last_of-lt n y ys e.0 e.1

in_pool :
    (b : ElementBuffer) (xs : List ℕ)
    → Each (λ x. (x < b.element_count) × (free_at b x ≡ true)) xs
    → Each (λ x. x < b.element_count) xs
in_pool b [] e = tt
in_pool b (x ∷ xs) e = (e.0.0, in_pool b xs e.1)

-- What a store leaves behind.
pub record Stored (b b' : ElementBuffer) (idx : ℕ) (idxs src : List ℕ) : Type 0 where
  pub holds : Holds b' idx idxs src
  pub valid : IsValid b'
  pub same : SameOutside (idx ∷ idxs) b b'
  pub acquired : Acquired b (idx ∷ idxs)
  pub used : b'.free_elements + length idxs + 1 ≡ b.free_elements

abbrev headed : ElementBuffer → ℕ → List ℕ → ElementBuffer
headed b idx src = put_element b idx (record {
  previous = eb_end_idx;
  next = eb_end_idx;
  bytes =
      write_at eb_len_bytes (take (min (length src) (b.element_usable_space - eb_len_bytes)) src)
        (write_at 0 (length_bytes (length src)) (b.pool idx).bytes);
})

module _ (b : ElementBuffer) (idx : ℕ) (idxs src : List ℕ) (v : IsValid b)
    (a : Acquired b (idx ∷ idxs))
    (n : length idxs + 1 ≡ element_requirement_for b (length src)) where
  cursor : ℕ
  cursor = min (length src) (b.element_usable_space - eb_len_bytes)

  stored : ElementBuffer
  stored = store_loop (headed b idx src) idx idxs src (length src) cursor

  stored-Written : Written (headed b idx src) stored idx idxs (drop cursor src)
  unfolding cursor stored
  stored-Written =
      store_loop-Written idxs (headed b idx src) idx src cursor a.distinct (in_pool b idxs a.free.1)
        (ground arith) (omega arith) room
    where
      room : length src - cursor ≤ length idxs * b.element_usable_space
      room = omega (
        arith,
        requirement_bounds b (length src) (omega (arith, v.usable)),
        ap (λ (k : ℕ). k * b.element_usable_space) n,
      )

  outcome : ElementBuffer
  outcome = record stored {
    last_write_index = last_of idx idxs;
    free_elements = stored.free_elements - element_requirement_for b (length src);
  }

  store_at-outcome :
      store_at b (idx ∷ idxs) src (length src) (element_requirement_for b (length src))
      ≡ (ok idx, outcome)
  unfolding store_at outcome stored cursor
  store_at-outcome = refl

  at_head : (headed b idx src).pool idx ≡ record {
    previous = eb_end_idx;
    next = eb_end_idx;
    bytes =
        write_at eb_len_bytes
          (take (min (length src) (b.element_usable_space - eb_len_bytes)) src)
          (write_at 0 (length_bytes (length src)) (b.pool idx).bytes);
  }
  at_head = ground arith

  outcome-Linked : Linked outcome.pool b.element_count eb_end_idx (idx ∷ idxs)
  unfolding outcome
  outcome-Linked = (
    a.free.0.0,
    stored-Written.previous ∙ ap (λ (e : BufferElement). e.previous) at_head,
    stored-Written.next,
    stored-Written.linked,
  )

  outcome-SameOutside : SameOutside (idx ∷ idxs) b outcome
  unfolding outcome
  outcome-SameOutside = record {
    count = stored-Written.count;
    usable = stored-Written.usable;
    same = λ y m. stored-Written.outside y m ∙ ground arith;
  }

  skip : drop cursor src ≡ drop (b.element_usable_space - eb_len_bytes) src
  unfolding cursor
  skip =
      ap (λ k. drop k src)
        (let e : min (length src) (b.element_usable_space - eb_len_bytes)
              ≡ min (b.element_usable_space - eb_len_bytes) (length src) =
            omega arith in
          e)
      ∙ drop-min (b.element_usable_space - eb_len_bytes) src

  outcome-Holds : length src < 2 ^ 16 → Holds outcome idx idxs src
  unfolding outcome element_requirement_for
  outcome-Holds u16 =
      let w = stored-Written in
      let bytes = w.bytes ∙ ap (λ (e : BufferElement). e.bytes) at_head in
      record {
        linked =
            subst (λ k. Linked outcome.pool k eb_end_idx (idx ∷ idxs)) (sym w.count) outcome-Linked;
        distinct = a.distinct;
        required = rw w.usable n;
        stored = rw bytes (omega arith);
        first =
            rw (w.usable, bytes)
              (first_chunk (b.element_usable_space - eb_len_bytes) src (b.pool idx).bytes);
        rest =
            subst (λ u. Chunks stored.pool u idxs (drop (u - eb_len_bytes) src)) (sym w.usable)
              (subst (λ r. Chunks stored.pool b.element_usable_space idxs r) skip w.chunks);
      }

  free_at-outcome : (y : ℕ) → free_at outcome y ≡ (free_at b y && not (has y (idx ∷ idxs)))
  free_at-outcome y = elim (Bool-cases (has y (idx ∷ idxs))) [
    | inl m ↦
        Linked-not_free outcome.pool b.element_count eb_end_idx (idx ∷ idxs) y v.bounded
          (omega arith) outcome-Linked m
        ∙ ground (arith, m)
    | inr m ↦ ap element_is_free (outcome-SameOutside.same y m) ∙ ground (arith, m)
  ]

  outcome-counted : outcome.free_elements ≡ count_from (free_at outcome) 0 b.element_count
  unfolding outcome
  outcome-counted = omega (
    arith,
    stored-Written.free_elements,
    v.counted,
    count_from_drop (idx ∷ idxs) (free_at b) b.element_count a.distinct a.free,
    count_from_shift (free_at outcome) (λ y. free_at b y && not (has y (idx ∷ idxs))) 0 0
        b.element_count (λ d h. free_at-outcome (0 + d)),
    n,
  )

  outcome-IsValid : IsValid outcome
  unfolding outcome
  outcome-IsValid = record {
    usable = rw stored-Written.usable v.usable;
    nonempty = rw stored-Written.count v.nonempty;
    bounded = rw stored-Written.count v.bounded;
    last =
        rw stored-Written.count
          (last_of-lt b.element_count idx idxs a.free.0.0 (in_pool b idxs a.free.1));
    counted =
        subst (λ k. outcome.free_elements ≡ count_from (free_at outcome) 0 k)
          (sym stored-Written.count) outcome-counted;
  }

  store_at-Stored :
      length src < 2 ^ 16
      → element_requirement_for b (length src) ≤ b.free_elements
      → Stored b outcome idx idxs src
  unfolding outcome
  store_at-Stored u16 fits = record {
    holds = outcome-Holds u16;
    valid = outcome-IsValid;
    same = outcome-SameOutside;
    acquired = a;
    used = omega (arith, stored-Written.free_elements, n);
  }

  store_acquired :
      length src < 2 ^ 16
      → element_requirement_for b (length src) ≤ indexes_size
      → element_requirement_for b (length src) ≤ b.free_elements
      → get_n_free b (element_requirement_for b (length src)) b.last_write_index ≡ some (idx ∷ idxs)
      → store b src (length src) ≡ (ok idx, outcome)
  unfolding store
  store_acquired u16 stack fits r =
      let same : length src % 2 ^ 16 ≡ length src = omega arith in
      let big : ltb b.free_elements (element_requirement_for b (length src)) ≡ false =
        ground arith in
      let positive : (element_requirement_for b (length src) == 0) ≡ false = ground (arith, n) in
      let within : ltb indexes_size (element_requirement_for b (length src)) ≡ false =
        ground arith in
      rw (same, big, positive, within, r, store, same, positive, store_at-outcome)

-- A store of a payload whose length is a word into a valid buffer succeeds when the requirement is
-- within the array of indices and the free elements: the
-- payload is then held at the returned index in elements that were free, every other element is
-- as it was, the counter of free elements goes down by the elements used, and the buffer is valid.
pub store-Stored :
    (b : ElementBuffer) (src : List ℕ)
    → IsValid b
    → length src < 2 ^ 16
    → element_requirement_for b (length src) ≤ indexes_size
    → element_requirement_for b (length src) ≤ b.free_elements
    → (idx : ℕ) × (idxs : List ℕ) × (b' : ElementBuffer) × (store b src (length src) ≡ (ok idx, b'))
      × Stored b b' idx idxs src
unfolding store
store-Stored b src v u16 stack h =
    let needed = element_requirement_for b (length src) in
    let positive : 0 < needed = (requirement_bounds b (length src) (omega (arith, v.usable))).0 in
    let (idx, idxs, r, l, a) =
      get_n_free-Acquired b needed b.last_write_index v.last positive (omega (arith, v.counted)) in
    (
      idx,
      idxs,
      outcome b idx idxs src v a l,
      store_acquired b idx idxs src v a l u16 stack h r,
      store_at-Stored b idx idxs src v a l u16 h,
    )

-- A store of a payload whose length is a word and that needs more than the free elements fails, and
-- changes nothing.
pub store-no_space :
    (b : ElementBuffer) (src : List ℕ)
    → length src < 2 ^ 16
    → b.free_elements < element_requirement_for b (length src)
    → store b src (length src) ≡ (err ebuffer_no_space, b)
unfolding store
store-no_space b src u16 h =
    let same : length src % 2 ^ 16 ≡ length src = omega arith in rw (same, lt→ltb _ _ h)
