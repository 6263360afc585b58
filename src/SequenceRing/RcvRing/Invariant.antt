-- ===== src/SequenceRing/RcvRing/Invariant.antt =====
-- The invariant of the receive ring of src/sequence_ring.c, and the advance of its head.
use skylink.Base.{
  ℕ, zero, suc, ◌+◌, ◌-◌, ◌%◌, ◌<◌, ◌≡◌, refl, sym, subst, ◌∙◌, arith, true, false, ◌||◌,
  if◌then◌else◌, ltb, leb, ◌==◌, Bool-cases, inl, inr,
}
use skylink.SequenceRing.{is_vacant}
use skylink.SequenceRing.Wrap.{ring_wrap_pos, ring_wrap_sub}
use skylink.SequenceRing.RcvRing.{
  RcvRing, count_readable_packets, tail_collision_imminent, step_head, advance_loop, advance_head,
}

-- How far the head is ahead of the tail.
abbrev pub readable : RcvRing → ℕ
readable r = if leb r.tail r.head then r.head - r.tail else r.head + r.size - r.tail

-- The slot that is `k` places behind `i`.
abbrev pub slot : ℕ → ℕ → ℕ → ℕ
slot n i k = if ltb (i + k) n then i + k else i + k - n

-- The sequences differ by what is readable, the horizon stays clear of the tail, and every slot
-- from the tail up to the head is occupied.
pub record IsValid (r : RcvRing) : Type 0 where
  pub head_in : r.head < r.size
  pub tail_in : r.tail < r.size
  pub head_u8 : r.head_sequence < 256
  pub tail_u8 : r.tail_sequence < 256
  pub sequences : r.head_sequence ≡ (r.tail_sequence + readable r) % 256
  pub room : readable r + r.horizon_width < r.size
  pub narrow : r.horizon_width < 256
  pub received : (k : ℕ) → k < readable r → is_vacant (r.buff (slot r.size r.tail k)) ≡ false

-- The head waits at a vacant slot, or the horizon has reached the tail.
abbrev pub IsSettled : RcvRing → Type 0
IsSettled r = (is_vacant (r.buff r.head) || tail_collision_imminent r) ≡ true

pub count_readable_packets-readable :
    (r : RcvRing) → IsValid r → count_readable_packets r ≡ readable r
unfolding count_readable_packets
count_readable_packets-readable r v =
    ring_wrap_sub r.head r.tail r.size v.head_in (omega (arith, v.tail_in))

collision :
    (r : RcvRing)
    → IsValid r
    → tail_collision_imminent r ≡ (readable r + r.horizon_width + 1 == r.size)
collision r v =
    ground
      (arith, v.head_in, v.tail_in, v.room, ring_wrap_pos (r.head + r.horizon_width + 1) r.size)

next_head : (r : RcvRing) → IsValid r → (step_head r).head ≡ slot r.size r.head 1
next_head r v =
    ring_wrap_pos (r.head + 1) r.size (omega (arith, v.head_in)) (omega (arith, v.head_in))

module _ (r : RcvRing) (v : IsValid r) (occupied : is_vacant (r.buff r.head) ≡ false)
    (clear : tail_collision_imminent r ≡ false) where
  readable-step_head : readable (step_head r) ≡ readable r + 1
  readable-step_head = ground (arith, v.head_in, v.tail_in, v.room, next_head r v, collision r v)

  step_head-IsValid : IsValid (step_head r)
  step_head-IsValid = record {
    head_in = ground (arith, next_head r v, v.head_in);
    tail_in = v.tail_in;
    head_u8 = omega arith;
    tail_u8 = v.tail_u8;
    sequences = rw readable-step_head (omega (arith, v.sequences));
    room = rw readable-step_head (ground (arith, collision r v, v.room));
    narrow = v.narrow;
    received = λ k h. elim (Bool-cases (ltb k (readable r))) [
      | inl p ↦ v.received k (ground arith)
      | inr p ↦
          let e : k ≡ readable r = ground (arith, rw readable-step_head at h) in
          let at_head : slot r.size r.tail k ≡ r.head = ground (arith, e, v.head_in, v.tail_in) in
          rw at_head occupied
    ];
  }

-- `r'` is `r` with its head `n` places further on, past occupied slots only.
pub record Advanced (r r' : RcvRing) (n : ℕ) : Type 0 where
  pub valid : IsValid r'
  pub settled : IsSettled r'
  pub buff : r'.buff ≡ r.buff
  pub size : r'.size ≡ r.size
  pub horizon_width : r'.horizon_width ≡ r.horizon_width
  pub tail : r'.tail ≡ r.tail
  pub tail_sequence : r'.tail_sequence ≡ r.tail_sequence
  pub storage_count : r'.storage_count ≡ r.storage_count
  pub steps : readable r' ≡ readable r + n

advance_loop-Advanced :
    (k : ℕ) (r : RcvRing) (advanced : ℕ)
    → IsValid r
    → r.size < readable r + r.horizon_width + 1 + k
    → (n : ℕ) × ((advance_loop k r advanced).1 ≡ advanced + n)
      × Advanced r (advance_loop k r advanced).0 n
unfolding advance_loop
advance_loop-Advanced zero r advanced v h = absurd (omega (arith, v.room))
advance_loop-Advanced (suc k) r advanced v h =
    elim (Bool-cases (is_vacant (r.buff r.head) || tail_collision_imminent r)) [
      | inl e ↦ rw e (
        0,
        omega arith,
        record {
          valid = v;
          settled = e;
          buff = refl;
          size = refl;
          horizon_width = refl;
          tail = refl;
          tail_sequence = refl;
          storage_count = refl;
          steps = omega arith;
        },
      )
      | inr e ↦
          let occupied : is_vacant (r.buff r.head) ≡ false = ground arith in
          let clear : tail_collision_imminent r ≡ false = ground arith in
          let grown = readable-step_head r v occupied clear in
          let (n, count, a) =
            advance_loop-Advanced k (step_head r) (advanced + 1)
              (step_head-IsValid r v occupied clear) (omega (arith, grown)) in
          rw e (
            suc n,
            omega arith,
            record {
              valid = a.valid;
              settled = a.settled;
              buff = a.buff;
              size = a.size;
              horizon_width = a.horizon_width;
              tail = a.tail;
              tail_sequence = a.tail_sequence;
              storage_count = a.storage_count;
              steps = omega (arith, a.steps, grown);
            },
          )
    ]

-- Advancing the head of a valid ring ends: the head then waits at a vacant slot or the horizon has
-- reached the tail, the number returned is how much more is readable, only occupied slots were
-- passed, and nothing but the head has changed.
pub advance_head-Advanced :
    (r : RcvRing) → IsValid r → Advanced r (advance_head r).0 (advance_head r).1
unfolding advance_head
advance_head-Advanced r v =
    let (n, count, a) = advance_loop-Advanced r.size r 0 v (omega arith) in
    subst (Advanced r (advance_loop r.size r 0).0) (sym (count ∙ omega arith)) a
