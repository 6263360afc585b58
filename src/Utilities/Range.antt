-- ===== src/Utilities/Range.antt =====
-- The range in which positive_modulo of src/utilities.c does not overflow.
use native.Mathlib.Nat.{mod-lt}
use skylink.Base.{ℕ, zero, suc, ◌*◌, ◌^◌, ◌<◌, ◌≡◌, refl, ap, if◌then◌else◌, ◌∙◌, arith}
use skylink.Base.Int.{
  ℤ, pos, negsuc, ◌+ℤ◌, ◌-ℤ◌, ◌*ℤ◌, abs, rem, emod, int32, leb_ℤ, +ℤ_parts, -ℤ_parts,
}
use skylink.Utilities.{
  raise, reduce, positive_modulo, raise_int32, reduce_int32, positive_modulo_int32,
}
use skylink.Utilities.Modulo.{positive_modulo-residue}

int32-same : (x : ℤ) → abs x < 2 ^ 31 → int32 x ≡ x
int32-same (pos n) h = ground arith
int32-same (negsuc n) h = ground arith

raise_int32-raise :
    (f : ℕ) (x : ℤ) (m : ℕ)
    → abs x < 2 ^ 31
    → m < 2 ^ 31
    → raise_int32 f x (pos m) ≡ raise f x (pos m)
unfolding raise_int32 raise
raise_int32-raise zero x m h k = refl
raise_int32-raise (suc f) (pos n) m h k = ground arith
raise_int32-raise (suc f) (negsuc n) m h k =
    let bound : abs (negsuc n +ℤ pos m) < 2 ^ 31 = ground (arith, +ℤ_parts (negsuc n) (pos m)) in
    rw (int32-same (negsuc n +ℤ pos m) bound)
      (ground (arith, raise_int32-raise f (negsuc n +ℤ pos m) m bound k))

raise-bound :
    (f : ℕ) (x : ℤ) (m : ℕ) → abs x < 2 ^ 31 → m < 2 ^ 31 → abs (raise f x (pos m)) < 2 ^ 31
unfolding raise
raise-bound zero x m h k = h
raise-bound (suc f) (pos n) m h k = ground arith
raise-bound (suc f) (negsuc n) m h k =
    let bound : abs (negsuc n +ℤ pos m) < 2 ^ 31 = ground (arith, +ℤ_parts (negsuc n) (pos m)) in
    ground (arith, raise-bound f (negsuc n +ℤ pos m) m bound k)

reduce_int32-reduce :
    (f : ℕ) (x : ℤ) (m : ℕ)
    → abs x < 2 ^ 31
    → m < 2 ^ 31
    → reduce_int32 f x (pos m) ≡ reduce f x (pos m)
unfolding reduce_int32 reduce
reduce_int32-reduce zero x m h k = refl
reduce_int32-reduce (suc f) (negsuc n) m h k = ground arith
reduce_int32-reduce (suc f) (pos n) m h k =
    let bound : abs (pos n -ℤ pos m) < 2 ^ 31 = ground (arith, -ℤ_parts (pos n) (pos m)) in
    rw (int32-same (pos n -ℤ pos m) bound) (
      ap (λ y. if leb_ℤ (pos m) (pos n) then y else pos n)
        (reduce_int32-reduce f (pos n -ℤ pos m) m bound k))

rem-small : (x : ℤ) (m : ℕ) → 0 < m → abs (rem x (pos m)) < m
rem-small (pos n) m p = mod-lt n p
rem-small (negsuc n) m p = ground (arith, mod-lt (suc n) p)

-- The sum of the branch that divides.
divided :
    (x : ℤ) (m : ℕ)
    → 0 < m
    → m * 12 < 2 ^ 31
    → int32 (rem x (pos m) +ℤ pos m) ≡ rem x (pos m) +ℤ pos m
divided x m p small =
    int32-same (rem x (pos m) +ℤ pos m) (sum (rem x (pos m)) m (rem-small x m p) (omega arith))
  where
    sum : (r : ℤ) (m : ℕ) → abs r < m → m < 2 ^ 30 → abs (r +ℤ pos m) < 2 ^ 31
    sum (pos n) m h k = ground (arith, +ℤ_parts (pos n) (pos m))
    sum (negsuc n) m h k = ground (arith, +ℤ_parts (negsuc n) (pos m))

product : (m : ℕ) → m * 12 < 2 ^ 31 → abs (pos m *ℤ pos 12) < 2 ^ 31
unfolding ◌*ℤ◌
product m h = ground arith

-- For a positive modulus whose twelvefold is below 2 ^ 31, and a dividend strictly between -2 ^ 31 and
-- 2 ^ 31, no operation of the positive modulo overflows: computed in `int32_t` it is the
-- mathematical residue, on both of its branches and for both signs of the dividend.
pub positive_modulo_int32-emod :
    (x : ℤ) (m : ℕ)
    → 0 < m
    → m * 12 < 2 ^ 31
    → abs x < 2 ^ 31
    → (positive_modulo_int32 x (pos m) ≡ positive_modulo x (pos m))
      × (positive_modulo_int32 x (pos m) ≡ pos (emod x m))
unfolding positive_modulo_int32 positive_modulo
positive_modulo_int32-emod x m p small h =
    let same : positive_modulo_int32 x (pos m) ≡ positive_modulo x (pos m) =
      rw
        (
          int32-same (pos m *ℤ pos 12) (product m small),
          int32-same (pos (abs x)) h,
          divided x m p small,
          raise_int32-raise 13 x m h (omega arith),
          reduce_int32-reduce 13 (raise 13 x (pos m)) m (raise-bound 13 x m h (omega arith))
              (omega arith),
        )
        refl in
    (same, same ∙ positive_modulo-residue x m p)
