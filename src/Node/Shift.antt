-- ===== src/Node/Shift.antt =====
-- The loops of src/skylink_tx.c and src/skylink_rx.c that make room for the coded length and remove it.
use skylink.Base.{
  ℕ, zero, suc, ◌+◌, ◌-◌, ◌≤◌, ◌<◌, ◌≡◌, ◌≢◌, ◌⊎◌, true, refl, sym, ap, ◌∙◌, arith, List, [], ◌∷◌,
  ◌==◌, ==_iff, Bool-cases, inl, inr, length, get_or, set, take, length-set, get_or-set_self,
  get_or-set_ne,
}
use skylink.Fec.RoundTrip.{distance}
use skylink.Tx.{shift}
use skylink.Rx.{unshift}

pub length-shift : (i : ℕ) (raw : List ℕ) → length (shift i raw) ≡ length raw
unfolding shift
length-shift zero raw = refl
length-shift (suc i) raw =
    length-shift i (set raw (suc i + 3) (get_or raw (suc i) 0))
    ∙ length-set raw (suc i + 3) (get_or raw (suc i) 0)

pub length-unshift : (n i : ℕ) (raw : List ℕ) → length (unshift n i raw) ≡ length raw
unfolding unshift
length-unshift zero i raw = refl
length-unshift (suc n) i raw =
    length-unshift n (i + 1) (set raw i (get_or raw (i + 3) 0))
    ∙ length-set raw i (get_or raw (i + 3) 0)

-- The first four bytes, and those behind the moved ones, are left.
shift_outside :
    (i : ℕ) (raw : List ℕ) (j : ℕ)
    → (j < 4) ⊎ (i + 3 < j)
    → get_or (shift i raw) j 0 ≡ get_or raw j 0
unfolding shift
shift_outside zero raw j h = refl
shift_outside (suc i) raw j h =
    let v = get_or raw (suc i) 0 in
    shift_outside i (set raw (suc i + 3) v) j (ground (arith, h))
    ∙ get_or-set_ne raw (suc i + 3) j v 0 (λ e. ground (arith, h, e))

shift_inside :
    (i : ℕ) (raw : List ℕ) (j : ℕ)
    → 4 ≤ j
    → j ≤ i + 3
    → j < length raw
    → get_or (shift i raw) j 0 ≡ get_or raw (j - 3) 0
unfolding shift
shift_inside zero raw j h k l = absurd (omega arith)
shift_inside (suc i) raw j h k l =
    let v = get_or raw (suc i) 0 in
    elim (Bool-cases (j == suc i + 3)) [
      | inl last ↦
          let e : j ≡ suc i + 3 = (==_iff j (suc i + 3)).0 last in
          let f : suc i ≡ j - 3 = omega arith in
          shift_outside i (set raw (suc i + 3) v) j (inr (omega arith))
          ∙ ap (λ m. get_or (set raw m v) j 0) (sym e)
          ∙ get_or-set_self raw j v 0 l
          ∙ ap (λ m. get_or raw m 0) f
      | inr before ↦
          let e : j ≢ suc i + 3 = λ same. ground (arith, before, same) in
          shift_inside i (set raw (suc i + 3) v) j h (omega arith)
            (omega (arith, length-set raw (suc i + 3) v))
          ∙ get_or-set_ne raw (suc i + 3) (j - 3) v 0 (λ same. omega arith)
    ]

unshift_below :
    (n i : ℕ) (raw : List ℕ) (j : ℕ) → j < i → get_or (unshift n i raw) j 0 ≡ get_or raw j 0
unfolding unshift
unshift_below zero i raw j h = refl
unshift_below (suc n) i raw j h =
    unshift_below n (i + 1) (set raw i (get_or raw (i + 3) 0)) j (omega arith)
    ∙ get_or-set_ne raw i j (get_or raw (i + 3) 0) 0 (λ e. omega arith)

pub unshift_inside :
    (n i : ℕ) (raw : List ℕ) (j : ℕ)
    → i ≤ j
    → j < i + n
    → j < length raw
    → get_or (unshift n i raw) j 0 ≡ get_or raw (j + 3) 0
unfolding unshift
unshift_inside zero i raw j h k l = absurd (omega arith)
unshift_inside (suc n) i raw j h k l =
    let v = get_or raw (i + 3) 0 in
    elim (Bool-cases (j == i)) [
      | inl first ↦
          let e : j ≡ i = (==_iff j i).0 first in
          unshift_below n (i + 1) (set raw i v) j (omega arith)
          ∙ ap (λ m. get_or (set raw m v) j 0) (sym e)
          ∙ get_or-set_self raw j v 0 l
          ∙ ap (λ m. get_or raw (m + 3) 0) (sym e)
      | inr later ↦
          let e : j ≢ i = λ same. ground (arith, later, same) in
          unshift_inside n (i + 1) (set raw i v) j (omega arith) (omega arith)
            (omega (arith, length-set raw i v))
          ∙ get_or-set_ne raw i (j + 3) v 0 (λ same. omega arith)
    ]

-- The memory with a coded length in its first three bytes.
abbrev pub with_header : List ℕ → ℕ → ℕ → ℕ → List ℕ
with_header raw a b c = set (set (set raw 0 a) 1 b) 2 c

pub with_header_behind :
    (raw : List ℕ) (a b c j : ℕ) → 3 ≤ j → get_or (with_header raw a b c) j 0 ≡ get_or raw j 0
with_header_behind raw a b c j h =
    get_or-set_ne (set (set raw 0 a) 1 b) 2 j c 0 (λ e. omega arith)
    ∙ get_or-set_ne (set raw 0 a) 1 j b 0 (λ e. omega arith)
    ∙ get_or-set_ne raw 0 j a 0 (λ e. omega arith)

pub length-with_header : (raw : List ℕ) (a b c : ℕ) → length (with_header raw a b c) ≡ length raw
length-with_header raw a b c =
    length-set (set (set raw 0 a) 1 b) 2 c ∙ length-set (set raw 0 a) 1 b ∙ length-set raw 0 a

-- What comes back of the byte `j` of `n`: all but the first byte, which the fourth has replaced.
pub unshift-shift :
    (n : ℕ) (raw : List ℕ) (a b c j : ℕ)
    → n + 3 ≤ length raw
    → 0 < j
    → j < n
    → get_or (unshift n 0 (with_header (shift n raw) a b c)) j 0 ≡ get_or raw j 0
unshift-shift n raw a b c j h p q =
    let moved = with_header (shift n raw) a b c in
    let size = length-with_header (shift n raw) a b c ∙ length-shift n raw in
    let e : j + 3 - 3 ≡ j = omega arith in
    unshift_inside n 0 moved j (omega arith) (omega arith) (omega (arith, size))
    ∙ with_header_behind (shift n raw) a b c (j + 3) (omega arith)
    ∙ shift_inside n raw (j + 3) (omega arith) (omega arith) (omega arith)
    ∙ ap (λ m. get_or raw m 0) e

pub unshift-shift_first :
    (n : ℕ) (raw : List ℕ) (a b c : ℕ)
    → n + 3 ≤ length raw
    → 0 < n
    → get_or (unshift n 0 (with_header (shift n raw) a b c)) 0 0 ≡ get_or raw 3 0
unshift-shift_first n raw a b c h p =
    let moved = with_header (shift n raw) a b c in
    let size = length-with_header (shift n raw) a b c ∙ length-shift n raw in
    unshift_inside n 0 moved 0 (omega arith) (omega arith) (omega (arith, size))
    ∙ with_header_behind (shift n raw) a b c 3 (omega arith)
    ∙ shift_outside n raw 3 (inl (omega arith))

distance_same :
    (n : ℕ) (xs ys : List ℕ)
    → n ≤ length xs
    → n ≤ length ys
    → ((j : ℕ) → j < n → get_or xs j 0 ≡ get_or ys j 0)
    → distance (take n xs) (take n ys) ≡ 0
distance_same zero xs ys h k e = refl
distance_same (suc n) [] ys h k e = absurd (omega arith)
distance_same (suc n) (x ∷ xs) [] h k e = absurd (omega arith)
distance_same (suc n) (x ∷ xs) (y ∷ ys) h k e =
    let same : (x == y) ≡ true = (==_iff x y).1 (e 0 (omega arith)) in
    let rest = distance_same n xs ys (omega arith) (omega arith) (λ j p. e (suc j) (omega arith)) in
    rw (same, rest) refl

-- Lists that agree behind their first byte differ in at most one.
pub distance_first :
    (n : ℕ) (xs ys : List ℕ)
    → n ≤ length xs
    → n ≤ length ys
    → ((j : ℕ) → 0 < j → j < n → get_or xs j 0 ≡ get_or ys j 0)
    → distance (take n xs) (take n ys) ≤ 1
distance_first zero xs ys h k e = omega arith
distance_first (suc n) [] ys h k e = absurd (omega arith)
distance_first (suc n) (x ∷ xs) [] h k e = absurd (omega arith)
distance_first (suc n) (x ∷ xs) (y ∷ ys) h k e =
    let rest =
      distance_same n xs ys (omega arith) (omega arith)
        (λ j p. e (suc j) (omega arith) (omega arith)) in
    elim (Bool-cases (x == y)) [
      | inl same ↦ rw (same, rest) (omega arith)
      | inr other ↦ rw (other, rest) (omega arith)
    ]
