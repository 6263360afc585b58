-- ===== src/ElementBuffer/SelfCheck/Sound.antt =====
-- The self-checks of src/element_buffer.c on a buffer of held payloads.
use skylink.Base.{
  ℕ, zero, suc, ◌+◌, ◌-◌, ◌<◌, ◌≤◌, ◌≡◌, ◌⊎◌, refl, ap, ◌∙◌, arith, Bool, true, some, List, [], ◌∷◌,
  length, inl, inr, Bool-cases, ◌==◌, ==_iff,
}
use skylink.ElementBuffer.{ElementBuffer, eb_end_idx, eb_max_element_count, element_is_in_chain}
use skylink.ElementBuffer.Chain.{Linked, Holds, free_at}
use skylink.ElementBuffer.Count.{count_from, has}
use skylink.ElementBuffer.Delete.{chain_length}
use skylink.ElementBuffer.SelfCheck.{
  chain_is_ok_backwards, chain_is_ok_forward, valid_chain, buffer_loop,
}

-- A walk that has ended needs no more fuel.
backwards_more :
    (k d : ℕ) (b : ElementBuffer) (x : ℕ) (r : Bool)
    → chain_is_ok_backwards k b x ≡ some r
    → chain_is_ok_backwards (k + d) b x ≡ some r
unfolding chain_is_ok_backwards
backwards_more zero d b x r e = absurd (cc)
backwards_more (suc k) d b x r e =
    let n : suc k + d ≡ suc (k + d) = omega arith in
    rw n (ground (arith, backwards_more k d b (b.pool x).previous r))

-- The element before `x`: none, or one that is linked to it and passes.
abbrev Before : ℕ → ElementBuffer → ℕ → ℕ → Type 0
Before k b p x =
    (p ≡ eb_end_idx)
    ⊎ ((p < b.element_count) × ((b.pool p).next ≡ x) × (chain_is_ok_backwards k b p ≡ some true))

backwards_step :
    (k : ℕ) (b : ElementBuffer) (p x : ℕ) (xs : List ℕ)
    → b.element_count ≤ eb_max_element_count
    → Linked b.pool b.element_count p (x ∷ xs)
    → Before k b p x
    → chain_is_ok_backwards (suc k) b x ≡ some true
unfolding chain_is_ok_backwards
backwards_step k b p x [] bound l h = ground arith
backwards_step k b p x (z ∷ zs) bound l h = ground arith

backwards-Linked :
    (xs : List ℕ) (k : ℕ) (b : ElementBuffer) (p x y : ℕ)
    → b.element_count ≤ eb_max_element_count
    → Linked b.pool b.element_count p (x ∷ xs)
    → Before k b p x
    → has y (x ∷ xs) ≡ true
    → chain_is_ok_backwards (suc k + length xs) b y ≡ some true
backwards-Linked [] k b p x y bound l h m =
    ap (chain_is_ok_backwards (suc k + 0) b) ((==_iff y x).0 (ground arith))
    ∙ backwards_more (suc k) 0 b x true (backwards_step k b p x [] bound l h)
backwards-Linked (z ∷ zs) k b p x y bound l h m =
    let ok = backwards_step k b p x (z ∷ zs) bound l h in
    elim (Bool-cases (y == x)) [
      | inl e ↦
          ap (chain_is_ok_backwards (suc k + suc (length zs)) b) ((==_iff y x).0 e)
          ∙ backwards_more (suc k) (suc (length zs)) b x true ok
      | inr e ↦
          let n : suc k + suc (length zs) ≡ suc (suc k) + length zs = omega arith in
          ap (λ n. chain_is_ok_backwards n b y) n
          ∙ backwards-Linked zs (suc k) b x z y bound l.3 (inr (l.0, l.2, ok)) (ground arith)
    ]

backwards-in_chain :
    (k : ℕ) (b : ElementBuffer) (y : ℕ)
    → chain_is_ok_backwards k b y ≡ some true
    → element_is_in_chain b (b.pool y) ≡ true
unfolding chain_is_ok_backwards
backwards-in_chain zero b y e = absurd (cc)
backwards-in_chain (suc k) b y e = ground arith

forward_head :
    (xs : List ℕ) (k : ℕ) (b : ElementBuffer) (p x : ℕ)
    → b.element_count ≤ eb_max_element_count
    → length xs < k
    → (p ≡ eb_end_idx) ⊎ (p < b.element_count)
    → Linked b.pool b.element_count p (x ∷ xs)
    → chain_is_ok_forward k b x ≡ some true
unfolding chain_is_ok_forward
forward_head xs zero b p x bound n hp l = absurd (omega arith)
forward_head [] (suc k) b p x bound n hp l = ground arith
forward_head (z ∷ zs) (suc k) b p x bound n hp l = ground (
  arith,
  forward_head zs k b x z bound (omega arith) (inr l.0) l.3,
  ap (chain_is_ok_forward k b) l.2,
  ap (λ n. (b.pool n).previous) l.2,
)

forward-Linked :
    (xs : List ℕ) (k : ℕ) (b : ElementBuffer) (p x y : ℕ)
    → b.element_count ≤ eb_max_element_count
    → length xs < k
    → (p ≡ eb_end_idx) ⊎ (p < b.element_count)
    → Linked b.pool b.element_count p (x ∷ xs)
    → has y (x ∷ xs) ≡ true
    → chain_is_ok_forward k b y ≡ some true
forward-Linked [] k b p x y bound n hp l m =
    ap (chain_is_ok_forward k b) ((==_iff y x).0 (ground arith))
    ∙ forward_head [] k b p x bound n hp l
forward-Linked (z ∷ zs) k b p x y bound n hp l m = elim (Bool-cases (y == x)) [
  | inl e ↦
      ap (chain_is_ok_forward k b) ((==_iff y x).0 e) ∙ forward_head (z ∷ zs) k b p x bound n hp l
  | inr e ↦ forward-Linked zs k b x z y bound (omega arith) (inr l.0) l.3 (ground arith)
]

-- A chain that holds a payload is in order from any of its elements.
pub valid_chain-Holds :
    (b : ElementBuffer) (idx : ℕ) (idxs bs : List ℕ) (y : ℕ)
    → b.element_count ≤ eb_max_element_count
    → Holds b idx idxs bs
    → has y (idx ∷ idxs) ≡ true
    → valid_chain b y ≡ some true
unfolding valid_chain
valid_chain-Holds b idx idxs bs y bound h m =
    let n : b.element_count ≡ suc 0 + length idxs + (b.element_count - (1 + length idxs)) =
      omega (arith, chain_length b idx idxs bs h) in
    let back : chain_is_ok_backwards b.element_count b y ≡ some true =
      ap (λ n. chain_is_ok_backwards n b y) n
      ∙ backwards_more (suc 0 + length idxs) (b.element_count - (1 + length idxs)) b y true
          (backwards-Linked idxs 0 b eb_end_idx idx y bound h.linked (inl refl) m) in
    let forward : chain_is_ok_forward b.element_count b y ≡ some true =
      forward-Linked idxs b.element_count b eb_end_idx idx y bound (chain_length b idx idxs bs h)
        (inl refl) h.linked m in
    rw (backwards-in_chain b.element_count b y back, back, forward) refl

pub buffer_loop-counts :
    (b : ElementBuffer) (i k counted : ℕ)
    → ((y : ℕ) → y < i + k → (free_at b y ≡ true) ⊎ (valid_chain b y ≡ some true))
    → buffer_loop b i k counted ≡ some ((counted + count_from (free_at b) i k) == b.free_elements)
unfolding buffer_loop count_from
buffer_loop-counts b i zero counted h = ap (λ n. some (n == b.free_elements)) (omega arith)
buffer_loop-counts b i (suc k) counted h =
    let more = buffer_loop-counts b (i + 1) k (counted + 1) (λ y p. h y (omega arith)) in
    let same = buffer_loop-counts b (i + 1) k counted (λ y p. h y (omega arith)) in
    elim (h i (omega arith)) [ inl e ↦ ground (arith, more) | inr e ↦ ground (arith, same) ]
