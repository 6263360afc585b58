-- ===== src/Utilities/Modulo.antt =====
-- positive_modulo of src/utilities.c against the mathematical residue.
use native.Mathlib.Nat.{mod-eq_of_lt, mod-eq-sub-mod, mod-lt, add-mod_right, mod-add-mod}
use skylink.Base.{ℕ, zero, suc, ◌+◌, ◌-◌, ◌*◌, ◌%◌, ◌<◌, ◌≡◌, refl, arith, ltb, ◌∙◌, if◌then◌else◌}
use skylink.Base.Int.{ℤ, pos, negsuc, ◌+ℤ◌, ◌-ℤ◌, ◌*ℤ◌, emod, rem}
use skylink.Utilities.{raise, reduce, positive_modulo}

reduce_pos : (f n m : ℕ) → 0 < m → n < f * m → reduce f (pos n) (pos m) ≡ pos (n % m)
unfolding reduce ◌-ℤ◌
reduce_pos zero n m p h = absurd (omega arith)
reduce_pos (suc f) n m p h =
    ground (
      arith,
      reduce_pos f (n - m) m p,
      mod-eq_of_lt {n = n} {m = m},
      mod-eq-sub-mod {n = n} {m = m},
    )

raise_pos : (f n : ℕ) (m : ℤ) → raise f (pos n) m ≡ pos n
unfolding raise
raise_pos zero n m = refl
raise_pos (suc f) n m = ground arith

raise_negsuc : (f n m : ℕ) → 0 < m → n < f * m → raise f (negsuc n) (pos m) ≡ pos (m - 1 - n % m)
unfolding raise ◌+ℤ◌
raise_negsuc zero n m p h = absurd (omega arith)
raise_negsuc (suc f) n m p h = ground (
  arith,
  raise_negsuc f (n - m) m p,
  raise_pos f (m - 1 - n) (pos m),
  mod-eq_of_lt {n = n} {m = m},
  mod-eq-sub-mod {n = n} {m = m},
)

division_pos : (n m : ℕ) → 0 < m → (n % m + m) % m ≡ n % m
division_pos n m p = add-mod_right (n % m) m ∙ mod-eq_of_lt (mod-lt n p)

mod_suc : (n m : ℕ) → 0 < m → suc n % m ≡ (if ltb (n % m + 1) m then n % m + 1 else 0)
mod_suc n m p = ground (
  arith,
  mod-add-mod n m 1,
  mod-lt n p,
  mod-eq_of_lt {n = n % m + 1} {m = m},
  mod-eq-sub-mod {n = n % m + 1} {m = m},
  mod-eq_of_lt {n = 0} {m = m},
)

-- The residue from the remainder of `suc n`, which the code computes, against that of `n`.
division_neg : (n m : ℕ) → 0 < m → (m - suc n % m) % m ≡ m - 1 - n % m
division_neg n m p = ground (
  arith,
  mod_suc n m p,
  mod-lt n p,
  mod-eq_of_lt {n = m - suc n % m} {m = m},
  mod-eq-sub-mod {n = m} {m = m},
  mod-eq_of_lt {n = 0} {m = m},
)

branch_pos : (n m : ℕ) → 0 < m → rem (rem (pos n) (pos m) +ℤ pos m) (pos m) ≡ pos (n % m)
unfolding ◌+ℤ◌
branch_pos n m p = ground (arith, division_pos n m p)

branch_neg : (n m : ℕ) → 0 < m → rem (rem (negsuc n) (pos m) +ℤ pos m) (pos m) ≡ pos (m - 1 - n % m)
unfolding ◌+ℤ◌
branch_neg n m p = ground (arith, division_neg n m p, mod-lt (suc n) p, add-mod_right 0 m)

-- On integers, of any size.
pub positive_modulo-residue : (x : ℤ) (m : ℕ) → 0 < m → positive_modulo x (pos m) ≡ pos (emod x m)
unfolding positive_modulo ◌*ℤ◌
positive_modulo-residue (pos n) m p =
    ground (arith, reduce_pos 13 n m p, raise_pos 13 n (pos m), branch_pos n m p)
positive_modulo-residue (negsuc n) m p = ground (
  arith,
  reduce_pos 13 (m - 1 - n % m) m p,
  raise_negsuc 13 n m p,
  mod-eq_of_lt {n = m - 1 - n % m} {m = m},
  branch_neg n m p,
)
