-- ===== src/ElementBuffer/SelfCheck/Covered.antt =====
-- Buffers of src/element_buffer.c that consist of held payloads and free elements only: they pass
-- the self-check, and storing and deleting leave such a buffer.
use skylink.Base.{
  ℕ, ◌^◌, ◌<◌, ◌≤◌, ◌≡◌, ◌⊎◌, refl, sym, ap, ◌∙◌, arith, true, false, some, List, [], ◌∷◌, length,
  inl, inr, Bool-cases, ◌||◌, ◌==◌, ==_iff, subst,
}
use skylink.Base.Result.{ok}
use skylink.ElementBuffer.{
  ElementBuffer, BufferElement, eb_end_idx, eb_max_element_count, element_requirement_for,
  indexes_size, store, delete, element_is_first,
}
use skylink.ElementBuffer.Chain.{Linked, Holds, Holds-frame, IsValid, Apart, free_at}
use skylink.ElementBuffer.Count.{count_from, has}
use skylink.ElementBuffer.Store.{store-Stored}
use skylink.ElementBuffer.Delete.{delete-Wiped, Wiped-SameOutside}
use skylink.ElementBuffer.Laws.{Acquired-Apart}
use skylink.ElementBuffer.SelfCheck.{entire_buffer_is_ok}
use skylink.ElementBuffer.SelfCheck.Sound.{valid_chain-Holds, buffer_loop-counts}

-- The element `y` is one of a held payload.
abbrev pub Used : ElementBuffer → ℕ → Type 0
Used b y =
    (idx : ℕ) × (idxs : List ℕ) × (bs : List ℕ) × Holds b idx idxs bs × (has y (idx ∷ idxs) ≡ true)

-- Every element is free or one of a held payload.
abbrev pub IsCovered : ElementBuffer → Type 0
IsCovered b = (y : ℕ) → y < b.element_count → (free_at b y ≡ true) ⊎ Used b y

-- In a buffer of held payloads and free elements the self-check ends, and its answer is whether the
-- counter of free elements is their number.
pub entire_buffer_is_ok-IsCovered :
    (b : ElementBuffer)
    → b.element_count ≤ eb_max_element_count
    → IsCovered b
    → entire_buffer_is_ok b ≡ some (count_from (free_at b) 0 b.element_count == b.free_elements)
unfolding entire_buffer_is_ok
entire_buffer_is_ok-IsCovered b bound c =
    buffer_loop-counts b 0 b.element_count 0 (λ y p. elim (c y (omega arith)) [
      | inl e ↦ inl e
      | inr (idx, idxs, bs, h, m) ↦ inr (valid_chain-Holds b idx idxs bs y bound h m)
    ])
    ∙ ap (λ n. some (n == b.free_elements)) (omega arith)

passes : (b : ElementBuffer) → IsValid b → IsCovered b → entire_buffer_is_ok b ≡ some true
passes b v c = entire_buffer_is_ok-IsCovered b v.bounded c ∙ ground (arith, v.counted)

-- A store of a payload whose length is a word and which requires no more than 42 elements, into a
-- valid buffer of held payloads and free elements, with enough of these, leaves a
-- valid buffer of that kind that passes the self-check.
pub entire_buffer_is_ok-store :
    (b : ElementBuffer) (src : List ℕ)
    → IsValid b
    → IsCovered b
    → length src < 2 ^ 16
    → element_requirement_for b (length src) ≤ indexes_size
    → element_requirement_for b (length src) ≤ b.free_elements
    → (idx : ℕ) × (b' : ElementBuffer) × (store b src (length src) ≡ (ok idx, b'))
      × IsValid b'
      × IsCovered b'
      × (entire_buffer_is_ok b' ≡ some true)
entire_buffer_is_ok-store b src v c u16 stack fits =
    let (idx, idxs, b', r, s) = store-Stored b src v u16 stack fits in
    let kept : IsCovered b' = λ y p. elim (Bool-cases (has y (idx ∷ idxs))) [
      | inl m ↦ inr (idx, idxs, src, s.holds, m)
      | inr m ↦ elim (c y (omega (arith, s.same.count))) [
        | inl e ↦ inl (ground (arith, s.same.same y m))
        | inr (j, js, bs, h, n) ↦ inr (
          j,
          js,
          bs,
          Holds-frame b b' j (idx ∷ idxs) js bs s.same
              (Acquired-Apart b (idx ∷ idxs) j js bs v s.acquired h) h,
          n,
        )
      ]
    ] in
    (idx, b', r, s.valid, kept, passes b' s.valid kept)

has_tail : (a x : ℕ) (xs : List ℕ) → has a xs ≡ true → has a (x ∷ xs) ≡ true
has_tail a x xs m = ground arith

has_head : (a x : ℕ) (xs : List ℕ) → a ≡ x → has a (x ∷ xs) ≡ true
has_head a x xs e = ground arith

-- The element before one of a chain is in the chain, but for the first.
before :
    (pool : ℕ → BufferElement) (n p : ℕ) (xs : List ℕ) (y : ℕ)
    → Linked pool n p xs
    → has y xs ≡ true
    → (has (pool y).previous xs ≡ true) ⊎ ((pool y).previous ≡ p)
before pool n p [] y l m = absurd (cc)
before pool n p (x ∷ xs) y l m = elim (Bool-cases (y == x)) [
  | inl e ↦ inr (ap (λ k. (pool k).previous) ((==_iff y x).0 e) ∙ l.1)
  | inr e ↦ elim (before pool n x xs y l.3 (ground arith)) [
    | inl k ↦ inl (has_tail _ x xs k)
    | inr k ↦ inl (has_head _ x xs k)
  ]
]

-- Behind an element of the pool every element of a chain has one before it.
previous-lt :
    (pool : ℕ → BufferElement) (n p : ℕ) (xs : List ℕ) (y : ℕ)
    → p < n
    → Linked pool n p xs
    → has y xs ≡ true
    → (pool y).previous < n
previous-lt pool n p [] y h l m = absurd (cc)
previous-lt pool n p (x ∷ xs) y h l m = elim (Bool-cases (y == x)) [
  | inl e ↦ omega (arith, ap (λ k. (pool k).previous) ((==_iff y x).0 e), l.1)
  | inr e ↦ previous-lt pool n x xs y l.0 l.3 (ground arith)
]

-- A chain whose first element is not in another is apart from that.
chains-Apart :
    (pool : ℕ → BufferElement) (n p i : ℕ) (xs zs : List ℕ)
    → n ≤ eb_max_element_count
    → Linked pool n p (i ∷ xs)
    → Linked pool n eb_end_idx zs
    → has i zs ≡ false
    → Apart zs (i ∷ xs)
chains-Apart pool n p i [] zs bound l k d y m =
    ap (λ a. has a zs) ((==_iff y i).0 (ground arith)) ∙ d
chains-Apart pool n p i (z ∷ xs) zs bound l k d y m = elim (Bool-cases (y == i)) [
  | inl e ↦ ap (λ a. has a zs) ((==_iff y i).0 e) ∙ d
  | inr e ↦ chains-Apart pool n i z xs zs bound l.3 k next_apart y (ground arith)
]
  where
    next_apart : has z zs ≡ false
    next_apart = elim (Bool-cases (has z zs)) [
      | inr f ↦ f
      | inl t ↦ elim (before pool n eb_end_idx zs z k t) [
        | inl u ↦ absurd (cc (ap (λ a. has a zs) l.3.1))
        | inr u ↦ absurd (omega (arith, l.0, l.3.1))
      ]
    ]

-- Two chains from the same element have the same elements.
same_chain :
    (pool : ℕ → BufferElement) (n p q i y : ℕ) (xs js : List ℕ)
    → n ≤ eb_max_element_count
    → Linked pool n p (i ∷ xs)
    → Linked pool n q (i ∷ js)
    → has y (i ∷ xs) ≡ has y (i ∷ js)
same_chain pool n p q i y [] [] bound l k = refl
same_chain pool n p q i y [] (z ∷ zs) bound l k = absurd (omega (arith, l.2, k.2, k.3.0))
same_chain pool n p q i y (z ∷ zs) [] bound l k = absurd (omega (arith, l.2, k.2, l.3.0))
same_chain pool n p q i y (z ∷ zs) (w ∷ ws) bound l k =
    let e : w ≡ z = sym k.2 ∙ l.2 in
    let tail : has y (z ∷ zs) ≡ has y (w ∷ ws) =
      same_chain pool n i i z y zs ws bound l.3 (subst (λ a. Linked pool n i (a ∷ ws)) e k.3)
      ∙ ap (λ a. has y (a ∷ ws)) (sym e) in
    ap (λ t. (y == i) || t) tail

-- A held payload is in the elements of another, or apart from it.
Holds-cases :
    (b : ElementBuffer) (i j : ℕ) (xs js bs cs : List ℕ)
    → b.element_count ≤ eb_max_element_count
    → Holds b i xs bs
    → Holds b j js cs
    → Apart (i ∷ xs) (j ∷ js) ⊎ ((y : ℕ) → has y (j ∷ js) ≡ has y (i ∷ xs))
Holds-cases b i j xs js bs cs bound h k = elim (Bool-cases (has j (i ∷ xs))) [
  | inr f ↦
      inl (chains-Apart b.pool b.element_count eb_end_idx j js (i ∷ xs) bound k.linked h.linked f)
  | inl t ↦ elim (Bool-cases (j == i)) [
    | inl e ↦
        let same : j ≡ i = (==_iff j i).0 e in
        let l = subst (λ a. Linked b.pool b.element_count eb_end_idx (a ∷ js)) same k.linked in
        inr (λ y.
          ap (λ a. has y (a ∷ js)) same
          ∙ same_chain b.pool b.element_count eb_end_idx eb_end_idx i y js xs bound l h.linked)
    | inr e ↦ absurd (
        omega (
          arith,
          k.linked.1,
          previous-lt b.pool b.element_count i xs j h.linked.0 h.linked.3 (ground arith),
        ))
  ]
]

first_previous :
    (b : ElementBuffer) (el : BufferElement)
    → element_is_first b el ≡ true
    → el.previous ≡ eb_end_idx
first_previous b el e = ground arith

-- The first element of a chain is that of a held payload.
pub Used-first :
    (b : ElementBuffer) (y : ℕ)
    → b.element_count ≤ eb_max_element_count
    → element_is_first b (b.pool y) ≡ true
    → Used b y
    → (idxs : List ℕ) × (bs : List ℕ) × Holds b y idxs bs
Used-first b y bound e (j, js, bs, h, m) = elim (Bool-cases (y == j)) [
  | inl same ↦ (js, bs, subst (λ a. Holds b a js bs) (sym ((==_iff y j).0 same)) h)
  | inr other ↦ absurd (
      omega (
        arith,
        first_previous b (b.pool y) e,
        previous-lt b.pool b.element_count j js y h.linked.0 h.linked.3 (ground arith),
      ))
]

-- Deleting a held payload of a valid buffer of held payloads and free elements leaves a valid
-- buffer of that kind that passes the self-check.
pub entire_buffer_is_ok-delete :
    (b : ElementBuffer) (idx : ℕ) (idxs bs : List ℕ)
    → IsValid b
    → IsCovered b
    → Holds b idx idxs bs
    → (b' : ElementBuffer) × (delete b idx ≡ (ok tt, b'))
      × IsValid b'
      × IsCovered b'
      × (entire_buffer_is_ok b' ≡ some true)
entire_buffer_is_ok-delete b idx idxs bs v c h =
    let (b', r, w, v') = delete-Wiped b idx idxs bs v h in
    let outside = Wiped-SameOutside b b' idx idxs bs v h w in
    let kept : IsCovered b' = λ y p. elim (Bool-cases (has y (idx ∷ idxs))) [
      | inl m ↦ inl (ground (arith, w.pool y))
      | inr m ↦ elim (c y (omega (arith, w.count))) [
        | inl e ↦ inl (ground (arith, outside.same y m))
        | inr (j, js, cs, k, n) ↦ elim (Holds-cases b idx j idxs js bs cs v.bounded h k) [
          | inl a ↦ inr (j, js, cs, Holds-frame b b' j (idx ∷ idxs) js cs outside a k, n)
          | inr s ↦ absurd (cc (s y))
        ]
      ]
    ] in
    (b', r, v', kept, passes b' v' kept)
