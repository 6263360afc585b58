-- ===== src/ElementBuffer/Delete.antt =====
-- Deleting a held payload, as sky_element_buffer_delete of src/element_buffer.c does.
use skylink.Base.{
  ℕ, zero, suc, ◌+◌, ◌<◌, ◌≤◌, ◌≡◌, ◌⊎◌, refl, sym, ap, ◌∙◌, arith, true, false, not, ◌&&◌, List,
  [], ◌∷◌, length, inl, inr, Bool-cases, ◌==◌, ==_iff, if◌then◌else◌, subst,
}
use skylink.Base.Result.{ok}
use skylink.ElementBuffer.{
  ElementBuffer, BufferElement, eb_end_idx, eb_max_element_count, wipe_element, free_element,
  delete_loop, delete,
}
use skylink.ElementBuffer.Chain.{Linked, Linked-frame, Holds, IsValid, SameOutside, free_at}
use skylink.ElementBuffer.Count.{
  count_from, count_from_drop, count_from_shift, count_all, has, Distinct, Each,
}
use skylink.ElementBuffer.Read.{Linked-first, Linked-last, Linked-not_last}
use skylink.ElementBuffer.Store.{Linked-not_free}

-- `b'` is `b` with the elements of `xs` wiped and counted free.
pub record Wiped (xs : List ℕ) (b b' : ElementBuffer) : Type 0 where
  pub count : b'.element_count ≡ b.element_count
  pub usable : b'.element_usable_space ≡ b.element_usable_space
  pub last : b'.last_write_index ≡ b.last_write_index
  pub freed : b'.free_elements ≡ b.free_elements + length xs
  pub pool : (y : ℕ) → b'.pool y ≡ (if has y xs then wipe_element (b.pool y) else b.pool y)

-- Wiping one element spares the others.
spared :
    (b : ElementBuffer) (x : ℕ) (xs : List ℕ)
    → has x xs ≡ false
    → (y : ℕ) → has y xs ≡ true
    → (free_element b x).pool y ≡ b.pool y
spared b x xs d y m = elim (Bool-cases (y == x)) [
  | inl e ↦ absurd (ground (arith, ap (λ k. has k xs) ((==_iff y x).0 e)))
  | inr e ↦ rw e
]

extend-Wiped :
    (b b' : ElementBuffer) (x : ℕ) (xs : List ℕ)
    → has x xs ≡ false
    → Wiped xs (free_element b x) b'
    → Wiped (x ∷ xs) b b'
extend-Wiped b b' x xs d w = record {
  count = w.count;
  usable = w.usable;
  last = w.last;
  freed = omega (arith, w.freed);
  pool = λ y. w.pool y ∙ ground (arith, ap (λ k. has k xs) {x = y} {y = x});
}

delete_loop-Wiped :
    (xs : List ℕ) (k : ℕ) (b : ElementBuffer) (p x : ℕ)
    → length xs < k
    → b.element_count ≤ eb_max_element_count
    → (p ≡ eb_end_idx) ⊎ (p < b.element_count)
    → Linked b.pool b.element_count p (x ∷ xs)
    → Distinct (x ∷ xs)
    → Wiped (x ∷ xs) b (delete_loop k b x)
unfolding delete_loop
delete_loop-Wiped xs zero b p x f bound hp l d = absurd (omega arith)
delete_loop-Wiped [] (suc k) b p x f bound hp l d =
    rw (Linked-last b p x hp l)
      (record { count = refl; usable = refl; last = refl; freed = refl; pool = λ y. ground arith })
delete_loop-Wiped (z ∷ zs) (suc k) b p x f bound hp l d =
    let rest : Linked (free_element b x).pool b.element_count x (z ∷ zs) =
      Linked-frame b.pool (free_element b x).pool b.element_count x (z ∷ zs)
        (spared b x (z ∷ zs) d.0) l.3 in
    let w : Wiped (z ∷ zs) (free_element b x) (delete_loop k (free_element b x) z) =
      delete_loop-Wiped zs k (free_element b x) x z (omega arith) bound (inr l.0) rest d.1 in
    rw (Linked-not_last b p x z zs bound l, l.2) (extend-Wiped b _ x (z ∷ zs) d.0 w)

-- As many distinct elements as fit the pool.
length-le-count : (n : ℕ) (xs : List ℕ) → Distinct xs → Each (λ x. x < n) xs → length xs ≤ n
length-le-count n xs d e =
    omega (arith, count_from_drop xs (λ y. true) n d (all_pass n xs e), count_all 0 n)
  where
    all_pass : (n : ℕ) (xs : List ℕ) → Each (λ x. x < n) xs → Each (λ x. (x < n) × (true ≡ true)) xs
    all_pass n [] e = tt
    all_pass n (x ∷ xs) e = ((e.0, refl), all_pass n xs e.1)

module _ (b b' : ElementBuffer) (idx : ℕ) (idxs bs : List ℕ) (v : IsValid b)
    (h : Holds b idx idxs bs) (w : Wiped (idx ∷ idxs) b b') where
  free_at-Wiped : (y : ℕ) → (free_at b' y && not (has y (idx ∷ idxs))) ≡ free_at b y
  free_at-Wiped y = elim (Bool-cases (has y (idx ∷ idxs))) [
    | inl m ↦ ground (
      arith,
      Linked-not_free b.pool b.element_count eb_end_idx (idx ∷ idxs) y v.bounded (omega arith)
          h.linked m,
    )
    | inr m ↦ ground (arith, w.pool y)
  ]

  all_freed :
      (xs : List ℕ)
      → (p : ℕ) → ((y : ℕ) → has y xs ≡ true → has y (idx ∷ idxs) ≡ true)
      → Linked b.pool b.element_count p xs
      → Each (λ x. (x < b.element_count) × (free_at b' x ≡ true)) xs
  all_freed [] p sub l = tt
  all_freed (x ∷ xs) p sub l =
      ((l.0, ground (arith, w.pool x, sub x)), all_freed xs x (λ y m. sub y (ground arith)) l.3)

  Wiped-IsValid : IsValid b'
  Wiped-IsValid = record {
    usable = rw w.usable v.usable;
    nonempty = rw w.count v.nonempty;
    bounded = rw w.count v.bounded;
    last = rw (w.count, w.last) v.last;
    counted =
        subst (λ k. b'.free_elements ≡ count_from (free_at b') 0 k) (sym w.count)
          (omega (
            arith,
            w.freed,
            v.counted,
            count_from_drop (idx ∷ idxs) (free_at b') b.element_count h.distinct
                (all_freed (idx ∷ idxs) eb_end_idx (λ y m. m) h.linked),
            count_from_shift (λ y. free_at b' y && not (has y (idx ∷ idxs))) (free_at b) 0 0
                b.element_count (λ d k. free_at-Wiped (0 + d)),
          ));
  }

  pub Wiped-SameOutside : SameOutside (idx ∷ idxs) b b'
  Wiped-SameOutside = record {
    count = w.count;
    usable = w.usable;
    same = λ y m. ground (arith, w.pool y);
  }

places :
    (pool : ℕ → BufferElement) (n p : ℕ) (xs : List ℕ) → Linked pool n p xs → Each (λ x. x < n) xs
places pool n p [] l = tt
places pool n p (x ∷ xs) l = (l.0, places pool n x xs l.3)

-- A held payload is in at most as many elements as there are.
pub chain_length :
    (b : ElementBuffer) (idx : ℕ) (idxs bs : List ℕ)
    → Holds b idx idxs bs
    → length idxs < b.element_count
chain_length b idx idxs bs h =
    length-le-count b.element_count (idx ∷ idxs) h.distinct
      (places b.pool b.element_count eb_end_idx (idx ∷ idxs) h.linked)

-- Deleting a held payload succeeds: it wipes exactly the elements of its chain and counts them
-- free, and the buffer stays valid.
pub delete-Wiped :
    (b : ElementBuffer) (idx : ℕ) (idxs bs : List ℕ)
    → IsValid b
    → Holds b idx idxs bs
    → (b' : ElementBuffer) × (delete b idx ≡ (ok tt, b')) × Wiped (idx ∷ idxs) b b' × IsValid b'
unfolding delete
delete-Wiped b idx idxs bs v h =
    let fits = chain_length b idx idxs bs h in
    let w : Wiped (idx ∷ idxs) b (delete_loop b.element_count b idx) =
      delete_loop-Wiped idxs b.element_count b eb_end_idx idx fits v.bounded (inl refl) h.linked
        h.distinct in
    (
      delete_loop b.element_count b idx,
      rw (Linked-first b idx idxs h.linked),
      w,
      Wiped-IsValid b (delete_loop b.element_count b idx) idx idxs bs v h w,
    )
