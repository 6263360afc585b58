-- ===== src/ElementBuffer/Acquire.antt =====
-- Acquiring free elements, as element_buffer_get_n_free of src/element_buffer.c does.
use native.Mathlib.Nat.{mod-eq_of_lt, mod-eq-sub-mod, mod-lt, mod-add-mod}
use skylink.Base.{
  ℕ, zero, suc, ◌+◌, ◌-◌, ◌%◌, ◌<◌, ◌≤◌, ◌≡◌, ◌≢◌, refl, ap, sym, subst, ◌∙◌, arith, Bool, true,
  false, some, inl, inr, List, [], ◌∷◌, length, ◌==◌, ==_of_ne,
}
use skylink.Base.Int.{pos}
use skylink.ElementBuffer.{ElementBuffer, wrap_element, get_next_free, n_free_loop, get_n_free}
use skylink.ElementBuffer.Chain.{free_at}
use skylink.ElementBuffer.Count.{
  count_from, count_from_head, count_from_shift, gap_lt, le-count_from, count_from_mem,
  count_from_turn, has, Distinct, Each,
}
use skylink.ElementBuffer.Scan.{wrap_element-mod, free_from, get_next_free-Found}

-- The elements `xs` are free, and stand one behind the other on the way round from `s`, all of
-- them behind place `p`.
abbrev pub Ahead : ElementBuffer → ℕ → ℕ → List ℕ → Type 0
Ahead b s p [] = Unit
Ahead b s p (x ∷ xs) =
    (q : ℕ) × (p < q)
    × (q < b.element_count)
    × (x ≡ (s + q) % b.element_count)
    × (free_from b s q ≡ true)
    × Ahead b s q xs

turn_index : (s p d c : ℕ) → 0 < c → (((s + p) % c + 1) % c + d) % c ≡ (s + (p + 1 + d)) % c
turn_index s p d c h =
    mod-add-mod ((s + p) % c + 1) c d
    ∙ ap (λ n. n % c) (let e : (s + p) % c + 1 + d ≡ (s + p) % c + (1 + d) = omega arith in e)
    ∙ mod-add-mod (s + p) c (1 + d)
    ∙ ap (λ n. n % c) (omega arith)

-- Less than once round does not come back to the start.
turn_ne : (s q c : ℕ) → s < c → 0 < q → q < c → (s + q) % c ≢ s
turn_ne s q c hs hq hc = ground (
  arith,
  mod-eq_of_lt {n = s + q} {m = c},
  mod-eq-sub-mod {n = s + q} {m = c},
  mod-eq_of_lt {n = s + q - c} {m = c},
)

module _ (b : ElementBuffer) (s : ℕ) (positive : 0 < b.element_count) where
  -- The scan that goes on behind place `p`.
  next_scan :
      (p m : ℕ)
      → count_from (free_from b (((s + p) % b.element_count + 1) % b.element_count)) 0 m
        ≡ count_from (free_from b s) (p + 1) m
  next_scan p m =
      count_from_shift (free_from b (((s + p) % b.element_count + 1) % b.element_count))
        (free_from b s) 0 (p + 1) m
        (λ d h. ap (free_at b) (
          ap (λ k. (((s + p) % b.element_count + 1) % b.element_count + k) % b.element_count)
            (let e : 0 + d ≡ d = omega arith in e)
          ∙ turn_index s p d b.element_count positive))

  -- What the next free element behind place `p` is, if one is left on the way to the start.
  next_free_ahead :
      (p k : ℕ)
      → s < b.element_count
      → p < b.element_count
      → free_from b s 0 ≡ true
      → suc k ≤ count_from (free_from b s) (p + 1) (b.element_count - p - 1)
      → (q : ℕ) × (p < q)
        × (q < b.element_count)
        × (get_next_free b (wrap_element b (pos ((s + p) % b.element_count + 1)))
            ≡ some ((s + q) % b.element_count))
        × (free_from b s q ≡ true)
        × (k ≤ count_from (free_from b s) (q + 1) (b.element_count - q - 1))
  next_free_ahead p k hs hp f0 h = elim (get_next_free-Found b (turn p) positive) [
    | inr (r, empty) ↦ absurd (
        omega (
          arith,
          next_scan p b.element_count,
          count_from_mem f (p + 1) b.element_count b.element_count (omega arith) (omega arith) back,
        ))
    | inl (idx, r, found) ↦ ahead idx found.place found.before found.index found.free found.gap r
  ]
    where
      f : ℕ → Bool
      f = free_from b s

      turn : ℕ → ℕ
      turn p = ((s + p) % b.element_count + 1) % b.element_count

      back : free_from b s b.element_count ≡ true
      back =
          ap (free_at b) (
            mod-eq-sub-mod {n = s + b.element_count} {m = b.element_count} (omega arith)
            ∙ ap (λ n. n % b.element_count)
                (let e : s + b.element_count - b.element_count ≡ s + 0 = omega arith in e))
          ∙ f0

      start : wrap_element b (pos ((s + p) % b.element_count + 1)) ≡ turn p
      start = wrap_element-mod b ((s + p) % b.element_count + 1) positive

      ahead :
          (idx q : ℕ)
          → q < 0 + b.element_count
          → idx ≡ (turn p + q) % b.element_count
          → free_from b (turn p) q ≡ true
          → count_from (free_from b (turn p)) 0 (q - 0) ≡ 0
          → get_next_free b (turn p) ≡ some idx
          → (x : ℕ) × (p < x)
            × (x < b.element_count)
            × (get_next_free b (wrap_element b (pos ((s + p) % b.element_count + 1)))
                ≡ some ((s + x) % b.element_count))
            × (free_from b s x ≡ true)
            × (k ≤ count_from (free_from b s) (x + 1) (b.element_count - x - 1))
      ahead idx q before index free gap r =
          let at_q : (turn p + q) % b.element_count ≡ (s + (p + 1 + q)) % b.element_count =
            turn_index s p q b.element_count positive in
          let none_between : count_from f (p + 1) q ≡ 0 =
            sym (next_scan p q) ∙ ap (count_from (free_from b (turn p)) 0) (omega arith) ∙ gap in
          let inside : q < b.element_count - p - 1 =
            gap_lt f (p + 1) q (b.element_count - p - 1) k none_between h in
          (
            p + 1 + q,
            omega arith,
            omega arith,
            rw start (r ∙ ap some (index ∙ at_q)),
            ap (free_at b) (sym at_q) ∙ free,
            subst (λ m. k ≤ count_from f (p + 1 + q + 1) m) (omega arith)
                (le-count_from f (p + 1) q (b.element_count - p - 1) k none_between h),
          )

  pub n_free_loop-Ahead :
      (k p : ℕ)
      → s < b.element_count
      → p < b.element_count
      → free_from b s 0 ≡ true
      → k ≤ count_from (free_from b s) (p + 1) (b.element_count - p - 1)
      → (idxs : List ℕ) × (n_free_loop b s ((s + p) % b.element_count) k ≡ some idxs)
        × (length idxs ≡ k)
        × Ahead b s p idxs
  unfolding n_free_loop
  n_free_loop-Ahead zero p hs hp f0 h = ([], refl, refl, tt)
  n_free_loop-Ahead (suc k) p hs hp f0 h =
      let (q, pq, qc, r, fq, left) = next_free_ahead p k hs hp f0 h in
      let (idxs, e, l, a) = n_free_loop-Ahead k q hs qc f0 left in
      (
        (s + q) % b.element_count ∷ idxs,
        rw (
          r,
          n_free_loop,
          ==_of_ne ((s + q) % b.element_count) s (turn_ne s q b.element_count hs (omega arith) qc),
          e,
        ),
        omega arith,
        (q, pq, qc, refl, fq, a),
      )

-- The elements of a way round are in the pool, free, and distinct.
Ahead-free :
    (b : ElementBuffer) (s p : ℕ) (xs : List ℕ)
    → 0 < b.element_count
    → Ahead b s p xs
    → Each (λ x. (x < b.element_count) × (free_at b x ≡ true)) xs
Ahead-free b s p [] h a = tt
Ahead-free b s p (x ∷ xs) h (q, _, _, e, f, a) =
    ((rw e (mod-lt (s + q) h), ap (free_at b) e ∙ f), Ahead-free b s q xs h a)

-- Two places of one round are two elements.
places_ne : (s p q c : ℕ) → s < c → p < q → q < c → ((s + p) % c == (s + q) % c) ≡ false
places_ne s p q c hs hp hq = ==_of_ne ((s + p) % c) ((s + q) % c) (
    ground (
      arith,
      mod-eq_of_lt {n = s + p} {m = c},
      mod-eq_of_lt {n = s + q} {m = c},
      mod-eq-sub-mod {n = s + p} {m = c},
      mod-eq-sub-mod {n = s + q} {m = c},
      mod-eq_of_lt {n = s + p - c} {m = c},
      mod-eq_of_lt {n = s + q - c} {m = c},
    ))

not-has-Ahead :
    (b : ElementBuffer) (s p r : ℕ) (xs : List ℕ)
    → s < b.element_count
    → r ≤ p
    → Ahead b s p xs
    → has ((s + r) % b.element_count) xs ≡ false
not-has-Ahead b s p r [] hs hr a = refl
not-has-Ahead b s p r (x ∷ xs) hs hr (q, pq, qc, e, f, a) = ground (
  arith,
  places_ne s r q b.element_count hs (omega arith) qc,
  not-has-Ahead b s q r xs hs (omega arith) a,
)

Ahead-Distinct :
    (b : ElementBuffer) (s p : ℕ) (xs : List ℕ) → s < b.element_count → Ahead b s p xs → Distinct xs
Ahead-Distinct b s p [] hs a = tt
Ahead-Distinct b s p (x ∷ xs) hs (q, pq, qc, e, f, a) = (
  ap (λ y. has y xs) e ∙ not-has-Ahead b s q q xs hs (omega arith) a,
  Ahead-Distinct b s q xs hs a,
)

-- What the code relies on of the acquired elements.
pub record Acquired (b : ElementBuffer) (idxs : List ℕ) : Type 0 where
  pub distinct : Distinct idxs
  pub free : Each (λ x. (x < b.element_count) × (free_at b x ≡ true)) idxs

-- The first element is at hand: the others follow it round.
acquire_from :
    (b : ElementBuffer) (n idx : ℕ)
    → idx < b.element_count
    → free_at b idx ≡ true
    → 0 < n
    → n ≤ count_from (free_at b) 0 b.element_count
    → (idxs : List ℕ) × (n_free_loop b idx idx (n - 1) ≡ some idxs)
      × (length idxs + 1 ≡ n)
      × Acquired b (idx ∷ idxs)
acquire_from b n idx hi f hn h =
    let (idxs, r, l, a) = n_free_loop-Ahead b idx positive (n - 1) 0 hi positive f0 enough in
    (
      idxs,
      ap (λ k. n_free_loop b idx k (n - 1)) (sym stay) ∙ r,
      omega arith,
      record {
        distinct = (
          ap (λ y. has y idxs) (sym stay) ∙ not-has-Ahead b idx 0 0 idxs hi (omega arith) a,
          Ahead-Distinct b idx 0 idxs hi a,
        );
        free = ((hi, f), Ahead-free b idx 0 idxs positive a);
      },
    )
  where
    positive : 0 < b.element_count
    positive = omega arith

    stay : (idx + 0) % b.element_count ≡ idx
    stay = omega (arith, mod-eq_of_lt {n = idx + 0} {m = b.element_count} (omega arith))

    f0 : free_from b idx 0 ≡ true
    f0 = ap (free_at b) stay ∙ f

    enough : n - 1 ≤ count_from (free_from b idx) (0 + 1) (b.element_count - 0 - 1)
    enough =
        let e : b.element_count - 0 - 1 ≡ b.element_count - 1 = omega arith in
        ground (
          arith,
          e,
          f0,
          count_from_turn (free_at b) idx b.element_count hi,
          count_from_head (free_from b idx) 0 b.element_count positive,
        )

-- As many free elements as there are can be acquired, from any start.
pub get_n_free-Acquired :
    (b : ElementBuffer) (n start : ℕ)
    → start < b.element_count
    → 0 < n
    → n ≤ count_from (free_at b) 0 b.element_count
    → (idx : ℕ) × (idxs : List ℕ) × (get_n_free b n start ≡ some (idx ∷ idxs))
      × (length idxs + 1 ≡ n)
      × Acquired b (idx ∷ idxs)
unfolding get_n_free
get_n_free-Acquired b n start hs hn h = elim (get_next_free-Found b start (omega arith)) [
  | inr (r, empty) ↦ absurd (omega (arith, count_from_turn (free_at b) start b.element_count hs))
  | inl (idx, r, found) ↦
      let (idxs, e, l, a) =
        acquire_from b n idx (rw found.index (mod-lt (start + found.place) (omega arith)))
          (ap (free_at b) found.index ∙ found.free) hn h in
      (idx, idxs, rw (r, get_n_free, e), l, a)
]
