-- ===== src/ElementBuffer/Scan.antt =====
-- The scan for a free element, element_buffer_get_next_free of src/element_buffer.c.
use skylink.Base.{
  ℕ, zero, suc, ◌+◌, ◌-◌, ◌%◌, ◌<◌, ◌≤◌, ◌≡◌, refl, ap, arith, Bool, true, false, none, some, ◌⊎◌,
  inl, inr, Bool-cases,
}
use skylink.Base.Int.{pos}
use skylink.Utilities.Modulo.{positive_modulo-residue}
use skylink.ElementBuffer.{ElementBuffer, wrap_element, next_free_loop, get_next_free}
use skylink.ElementBuffer.Chain.{free_at}
use skylink.ElementBuffer.Count.{count_from, count_from_head, count_from_none}

pub wrap_element-mod :
    (b : ElementBuffer) (i : ℕ) → 0 < b.element_count → wrap_element b (pos i) ≡ i % b.element_count
unfolding wrap_element
wrap_element-mod b i h = ground (arith, positive_modulo-residue (pos i) b.element_count h)

-- The free elements in the order in which a scan from `start` meets them.
abbrev pub free_from : ElementBuffer → ℕ → ℕ → Bool
free_from b start k = free_at b ((start + k) % b.element_count)

-- The scan stopped `q` places behind its start.
pub record Found (b : ElementBuffer) (start i k idx : ℕ) : Type 0 where
  pub place : ℕ
  pub after : i ≤ place
  pub before : place < i + k
  pub index : idx ≡ (start + place) % b.element_count
  pub free : free_from b start place ≡ true
  pub gap : count_from (free_from b start) i (place - i) ≡ 0

next_free_loop-Found :
    (b : ElementBuffer) (start i k : ℕ)
    → 0 < b.element_count
    → ((idx : ℕ) × (next_free_loop b start i k ≡ some idx) × Found b start i k idx)
      ⊎ ((next_free_loop b start i k ≡ none) × (count_from (free_from b start) i k ≡ 0))
unfolding next_free_loop count_from
next_free_loop-Found b start i zero h = inr (refl, refl)
next_free_loop-Found b start i (suc k) h = elim (Bool-cases (free_from b start i)) [
  | inl e ↦ inl (
    (start + i) % b.element_count,
    rw (wrap_element-mod b (start + i) h, e),
    record {
      place = i;
      after = omega arith;
      before = omega arith;
      index = refl;
      free = e;
      gap = count_from_none (free_from b start) i (i - i) (omega arith);
    },
  )
  | inr e ↦ elim (next_free_loop-Found b start (i + 1) k h) [
    | inl (idx, r, f) ↦ inl (
      idx,
      rw (wrap_element-mod b (start + i) h, e) r,
      record {
        place = f.place;
        after = omega (arith, f.after);
        before = omega (arith, f.before);
        index = f.index;
        free = f.free;
        gap = later f.place f.after e f.gap;
      },
    )
    | inr (r, none_free) ↦ inr (rw (wrap_element-mod b (start + i) h, e) r, rw (e, none_free))
  ]
]
  where
    later :
        (q : ℕ)
        → i + 1 ≤ q
        → free_from b start i ≡ false
        → count_from (free_from b start) (i + 1) (q - (i + 1)) ≡ 0
        → count_from (free_from b start) i (q - i) ≡ 0
    later q p e g = ground (
      arith,
      count_from_head (free_from b start) i (q - i),
      ap (count_from (free_from b start) (i + 1))
          (let m : q - i - 1 ≡ q - (i + 1) = omega arith in m),
    )

pub get_next_free-Found :
    (b : ElementBuffer) (start : ℕ)
    → 0 < b.element_count
    → ((idx : ℕ) × (get_next_free b start ≡ some idx) × Found b start 0 b.element_count idx)
      ⊎ ((get_next_free b start ≡ none) × (count_from (free_from b start) 0 b.element_count ≡ 0))
unfolding get_next_free
get_next_free-Found b start h = next_free_loop-Found b start 0 b.element_count h
