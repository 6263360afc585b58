-- ===== src/ElementBuffer/Wipe.antt =====
-- Wiping an element buffer of src/element_buffer.c.
use skylink.Base.{
  ℕ, zero, suc, ◌+◌, ◌<◌, ◌≤◌, ◌≡◌, refl, arith, true, ◌&&◌, if◌then◌else◌, leb, ltb, ap, ◌∙◌,
}
use skylink.ElementBuffer.{
  ElementBuffer, BufferElement, eb_len_bytes, eb_max_element_count, wipe_element, wipe_loop, wipe,
  put,
}
use skylink.ElementBuffer.Chain.{IsValid, free_at}
use skylink.ElementBuffer.Count.{count_from_shift, count_all}

one :
    (k i : ℕ) (pool : ℕ → BufferElement) (y : ℕ)
    → (if leb (i + 1) y && ltb y (i + 1 + k)
        then wipe_element (put pool i (wipe_element (pool i)) y)
        else put pool i (wipe_element (pool i)) y)
      ≡ (if leb i y && ltb y (i + suc k) then wipe_element (pool y) else pool y)
one k i pool y = ground (arith, ap pool {x = y} {y = i})

wipe_loop-range :
    (k i : ℕ) (pool : ℕ → BufferElement) (y : ℕ)
    → wipe_loop k i pool y ≡ (if leb i y && ltb y (i + k) then wipe_element (pool y) else pool y)
wipe_loop-range zero i pool y = ground arith
wipe_loop-range (suc k) i pool y =
    wipe_loop-range k (i + 1) (put pool i (wipe_element (pool i))) y ∙ one k i pool y

-- Wiping a buffer of sound sizes makes it valid, with every element of the pool free.
pub wipe-IsValid :
    (b : ElementBuffer)
    → eb_len_bytes ≤ b.element_usable_space
    → 0 < b.element_count
    → b.element_count ≤ eb_max_element_count
    → IsValid (wipe b)
      × ((wipe b).free_elements ≡ b.element_count)
      × ((y : ℕ) → y < b.element_count → free_at (wipe b) y ≡ true)
unfolding wipe
wipe-IsValid b u n h = (
  record {
    usable = u;
    nonempty = n;
    bounded = h;
    last = n;
    counted = omega (
      arith,
      count_all 0 b.element_count,
      count_from_shift (free_at (wipe b)) (λ y. true) 0 0 b.element_count
          (λ d p. freed (0 + d) (omega arith)),
    );
  },
  refl,
  freed,
)
  where
    freed : (y : ℕ) → y < b.element_count → free_at (wipe b) y ≡ true
    freed y p = ground (arith, wipe_loop-range b.element_count 0 b.pool y)
