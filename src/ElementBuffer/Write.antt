-- ===== src/ElementBuffer/Write.antt =====
-- Writing a payload to acquired elements: the loop of sky_element_buffer_store.
use Prim.Native.Nat.{min}
use skylink.Base.{
  ℕ, ◌+◌, ◌-◌, ◌*◌, ◌<◌, ◌≤◌, ◌≡◌, refl, sym, ap, subst, ◌∙◌, arith, false, List, [], ◌∷◌, take,
  drop, length, length-take, length-drop, take-min, drop-min, drop_all, drop-drop, take_exact,
}
use skylink.ElementBuffer.{ElementBuffer, eb_end_idx, write_at, put, link_element, store_loop}
use skylink.ElementBuffer.Chain.{next_of, Linked, Chunks}
use skylink.ElementBuffer.Count.{has, Distinct, Each}

-- A chunk read back from where it was written.
pub take-write_at :
    (u : ℕ) (xs d : List ℕ)
    → take (min u (length xs)) (write_at 0 (take (min u (length xs)) xs) d) ≡ take u xs
take-write_at u xs d =
    take_exact (min u (length xs)) (take (min u (length xs)) xs) _
      (omega (arith, length-take (min u (length xs)) xs))
    ∙ take-min u xs

-- `b'` is `b` after the payload bytes `bs` went to the elements `xs`, linked behind `last`.
pub record Written (b b' : ElementBuffer) (last : ℕ) (xs bs : List ℕ) : Type 0 where
  pub count : b'.element_count ≡ b.element_count
  pub usable : b'.element_usable_space ≡ b.element_usable_space
  pub free_elements : b'.free_elements ≡ b.free_elements
  pub outside : (y : ℕ) → has y (last ∷ xs) ≡ false → b'.pool y ≡ b.pool y
  pub previous : (b'.pool last).previous ≡ (b.pool last).previous
  pub bytes : (b'.pool last).bytes ≡ (b.pool last).bytes
  pub next : (b'.pool last).next ≡ next_of xs
  pub linked : Linked b'.pool b.element_count last xs
  pub chunks : Chunks b'.pool b.element_usable_space xs bs

linked_bytes : ElementBuffer → ℕ → ℕ → List ℕ
linked_bytes b last x = (put b.pool last (record (b.pool last) { next = x }) x).bytes

link_bytes :
    (b : ElementBuffer) (last x : ℕ) (chunk : List ℕ)
    → ((link_element b last x chunk).pool x).bytes ≡ write_at 0 chunk (linked_bytes b last x)
unfolding linked_bytes
link_bytes b last x chunk = ground arith

link_next :
    (b : ElementBuffer) (last x : ℕ) (chunk : List ℕ)
    → ((link_element b last x chunk).pool x).next ≡ eb_end_idx
link_next b last x chunk = ground arith

-- One more element in front of those that are written.
extend-Written :
    (b b' : ElementBuffer) (last x : ℕ) (xs bs chunk : List ℕ)
    → Distinct (last ∷ x ∷ xs)
    → x < b.element_count
    → chunk ≡ take (min b.element_usable_space (length bs)) bs
    → Written (link_element b last x chunk) b' x xs (drop b.element_usable_space bs)
    → Written b b' last (x ∷ xs) bs
extend-Written b b' last x xs bs chunk d hx e w =
    let kept : b'.pool last ≡ (link_element b last x chunk).pool last = w.outside last d.0 in
    record {
      count = w.count;
      usable = w.usable;
      free_elements = w.free_elements;
      outside = λ y m. w.outside y (ground arith) ∙ ground arith;
      previous = ground arith;
      bytes = ground arith;
      next = ground arith;
      linked = (hx, w.previous ∙ ground arith, w.next, w.linked);
      chunks = (
        ap (take (min b.element_usable_space (length bs))) (
              w.bytes
              ∙ link_bytes b last x chunk
              ∙ ap (λ c. write_at 0 c (linked_bytes b last x)) e)
            ∙ take-write_at b.element_usable_space bs (linked_bytes b last x),
        w.chunks,
      );
    }

pub store_loop-Written :
    (xs : List ℕ) (b : ElementBuffer) (last : ℕ) (src : List ℕ) (cursor : ℕ)
    → Distinct (last ∷ xs)
    → Each (λ x. x < b.element_count) xs
    → (b.pool last).next ≡ eb_end_idx
    → cursor ≤ length src
    → length src - cursor ≤ length xs * b.element_usable_space
    → Written b (store_loop b last xs src (length src) cursor) last xs (drop cursor src)
unfolding store_loop
store_loop-Written [] b last src cursor d e n c h = record {
  count = refl;
  usable = refl;
  free_elements = refl;
  outside = λ y m. refl;
  previous = refl;
  bytes = refl;
  next = n;
  linked = tt;
  chunks = drop_all cursor src (omega arith);
}
store_loop-Written (x ∷ xs) b last src cursor d e n c h =
    let u = b.element_usable_space in
    let left : length (drop cursor src) ≡ length src - cursor = length-drop cursor src in
    let chunk = take (min u (length src - cursor)) (drop cursor src) in
    let b' = store_loop b last (x ∷ xs) src (length src) cursor in
    extend-Written b b' last x xs (drop cursor src) chunk d e.0
      (ap (λ k. take (min u k) (drop cursor src)) (sym left))
      (subst (λ rest. Written (link_element b last x chunk) b' x xs rest)
        (sym (drop-drop cursor (min u (length src - cursor)) src)
          ∙ ap (λ k. drop (min u k) (drop cursor src)) (sym left)
          ∙ drop-min u (drop cursor src))
        (store_loop-Written xs (link_element b last x chunk) x src
          (cursor + min u (length src - cursor)) d.1 e.1 (link_next b last x chunk) (omega arith)
          (omega arith)))
