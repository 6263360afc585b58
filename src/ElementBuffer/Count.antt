-- ===== src/ElementBuffer/Count.antt =====
-- Counting the elements of a range that pass a test: ranges joined, shifted, turned round, and
-- changed at a list of places.
use native.Mathlib.Nat.{mod-eq_of_lt, mod-eq-sub-mod}
use native.Mathlib.Decide.{dec_lt}
use skylink.Base.{
  ℕ, zero, suc, ◌+◌, ◌-◌, ◌%◌, ◌<◌, ◌≤◌, ◌≡◌, refl, ap, arith, Bool, true, false, not, ◌&&◌, ◌||◌,
  List, [], ◌∷◌, if◌then◌else◌, ◌==◌, leb, ltb, length,
}

-- How many of `i..i+k` pass.
unfoldable pub count_from : (ℕ → Bool) → ℕ → ℕ → ℕ
count_from f i zero = 0
count_from f i (suc k) = (if f i then 1 else 0) + count_from f (i + 1) k

-- The first place of a range.
pub count_from_head :
    (f : ℕ → Bool) (i k : ℕ)
    → 0 < k
    → count_from f i k ≡ (if f i then 1 else 0) + count_from f (i + 1) (k - 1)
unfolding count_from
count_from_head f i zero h = absurd (omega arith)
count_from_head f i (suc k) h = let e : suc k - 1 ≡ k = omega arith in rw e refl

pub count_from_none : (f : ℕ → Bool) (i k : ℕ) → k ≡ 0 → count_from f i k ≡ 0
unfolding count_from
count_from_none f i zero h = refl
count_from_none f i (suc k) h = absurd (omega arith)

pub count_from_split :
    (f : ℕ → Bool) (i a b : ℕ) → count_from f i (a + b) ≡ count_from f i a + count_from f (i + a) b
unfolding count_from
count_from_split f i zero b = ground arith
count_from_split f i (suc a) b =
    let e : suc a + b ≡ suc (a + b) = omega arith in
    let e' : i + suc a ≡ i + 1 + a = omega arith in
    rw (e, e') (omega (arith, count_from_split f (i + 1) a b))

pub count_all : (i k : ℕ) → count_from (λ y. true) i k ≡ k
unfolding count_from
count_all i zero = refl
count_all i (suc k) = omega (arith, count_all (i + 1) k)

-- A range that nothing passes ends before one that something passes.
pub gap_lt : (f : ℕ → Bool) (i q n k : ℕ) → count_from f i q ≡ 0 → suc k ≤ count_from f i n → q < n
gap_lt f i q n k g h = elim (dec_lt q n) [
  | yes p ↦ p
  | no p ↦ absurd (
      let e : q ≡ n + (q - n) = omega arith in
      omega (arith, count_from_split f i n (q - n), ap (count_from f i) e))
]

-- What is left behind the first place that may pass.
pub le-count_from :
    (f : ℕ → Bool) (i q n k : ℕ)
    → count_from f i q ≡ 0
    → suc k ≤ count_from f i n
    → k ≤ count_from f (i + q + 1) (n - q - 1)
le-count_from f i q n k g h =
    let p : q < n = gap_lt f i q n k g h in
    let e : n ≡ q + (n - q) = omega arith in
    ground (
      arith,
      count_from_split f i q (n - q),
      ap (count_from f i) e,
      count_from_head f (i + q) (n - q) (omega arith),
    )

-- Two ranges whose tests agree place by place.
pub count_from_shift :
    (f g : ℕ → Bool) (i j k : ℕ)
    → ((d : ℕ) → d < k → f (i + d) ≡ g (j + d))
    → count_from f i k ≡ count_from g j k
unfolding count_from
count_from_shift f g i j zero h = refl
count_from_shift f g i j (suc k) h =
    ground (arith, h 0, count_from_shift f g (i + 1) (j + 1) k (λ d p. ground (arith, h (d + 1))))

pub count_from_mem :
    (f : ℕ → Bool) (i k j : ℕ) → i ≤ j → j < i + k → f j ≡ true → 0 < count_from f i k
unfolding count_from
count_from_mem f i zero j a b e = absurd (omega arith)
count_from_mem f i (suc k) j a b e = ground (arith, count_from_mem f (i + 1) k j)

-- The range may start anywhere, if it goes round.
pub count_from_turn :
    (f : ℕ → Bool) (s c : ℕ) → s < c → count_from (λ k. f ((s + k) % c)) 0 c ≡ count_from f 0 c
count_from_turn f s c h =
    let turned : ℕ → Bool = λ k. f ((s + k) % c) in
    let left : count_from turned 0 c ≡ count_from turned 0 (c - s + s) =
      ap (count_from turned 0) (omega arith) in
    let right : count_from f 0 c ≡ count_from f 0 (s + (c - s)) =
      ap (count_from f 0) (omega arith) in
    let start : count_from f (0 + s) (c - s) ≡ count_from f s (c - s) =
      ap (λ i. count_from f i (c - s)) (omega arith) in
    let before : count_from turned 0 (c - s) ≡ count_from f s (c - s) =
      count_from_shift turned f 0 s (c - s)
        (λ d p. ap f (omega (arith, mod-eq_of_lt {n = s + (0 + d)} {m = c} (omega arith)))) in
    let after : count_from turned (0 + (c - s)) s ≡ count_from f 0 s =
      count_from_shift turned f (0 + (c - s)) 0 s (λ d p. ap f (
        omega (
          arith,
          mod-eq-sub-mod {n = s + (0 + (c - s) + d)} {m = c} (omega arith),
          mod-eq_of_lt {n = s + (0 + (c - s) + d) - c} {m = c} (omega arith),
        ))) in
    omega (arith, count_from_split turned 0 (c - s) s, count_from_split f 0 s (c - s))

abbrev pub has : ℕ → List ℕ → Bool
has a [] = false
has a (x ∷ xs) = (a == x) || has a xs

abbrev pub Distinct : List ℕ → Type 0
Distinct [] = Unit
Distinct (x ∷ xs) = (has x xs ≡ false) × Distinct xs

abbrev pub Each {ℓ} : (ℕ → Type ℓ) → List ℕ → Type ℓ
Each P [] = Unit
Each P (x ∷ xs) = P x × Each P xs

-- Taking one place out of the test.
drop_one :
    (f : ℕ → Bool) (x i k : ℕ)
    → count_from f i k
      ≡ count_from (λ y. f y && not (y == x)) i k
        + (if leb i x && ltb x (i + k) && f x then 1 else 0)
unfolding count_from
drop_one f x i zero = ground arith
drop_one f x i (suc k) = ground (arith, drop_one f x (i + 1) k)

Each-apart :
    (xs : List ℕ) (f : ℕ → Bool) (n x : ℕ)
    → has x xs ≡ false
    → Each (λ y. (y < n) × (f y ≡ true)) xs
    → Each (λ y. (y < n) × ((f y && not (y == x)) ≡ true)) xs
Each-apart [] f n x h e = tt
Each-apart (y ∷ ys) f n x h e = ((e.0.0, ground arith), Each-apart ys f n x (ground arith) e.1)

-- Taking a list of distinct places out of the test.
pub count_from_drop :
    (xs : List ℕ) (f : ℕ → Bool) (n : ℕ)
    → Distinct xs
    → Each (λ x. (x < n) × (f x ≡ true)) xs
    → count_from f 0 n ≡ count_from (λ y. f y && not (has y xs)) 0 n + length xs
count_from_drop [] f n d e =
    omega (arith, count_from_shift f (λ y. f y && not (has y [])) 0 0 n (λ k p. ground arith))
count_from_drop (x ∷ xs) f n d e =
    let f' : ℕ → Bool = λ y. f y && not (y == x) in
    omega (
      arith,
      one,
      count_from_drop xs f' n d.1 (Each-apart xs f n x d.0 e.1),
      count_from_shift (λ y. f' y && not (has y xs)) (λ y. f y && not (has y (x ∷ xs))) 0 0 n
          (λ k p. ground arith),
    )
  where
    one : count_from f 0 n ≡ count_from (λ y. f y && not (y == x)) 0 n + 1
    one = ground (arith, drop_one f x 0 n)
