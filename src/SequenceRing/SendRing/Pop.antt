-- ===== src/SequenceRing/SendRing/Pop.antt =====
-- Taking a sequence off the schedule of src/sequence_ring.c, and transmitting.
use skylink.Base.{
  ℕ, zero, suc, ◌+◌, ◌-◌, ◌<◌, ◌≤◌, ◌≡◌, ◌≢◌, ◌&&◌, refl, sym, ◌∙◌, ap, arith, Bool, false, List,
  if◌then◌else◌, ltb, ◌==◌, Bool-cases, inl, inr, length, get_or, set, length-set, get_or-set_self,
  get_or-set_ne,
}
use skylink.Base.Result.{Result, ok, err}
use skylink.ElementBuffer.{ElementBuffer}
use skylink.SequenceRing.SendRing.{
  SendRing, shift_loop, pop_resend_sequence, read_recall_packet_to_tx, read_to_tx, recall_popped,
  or_new,
}
use skylink.SequenceRing.SendRing.Invariant.{IsValid}
use skylink.SequenceRing.SendRing.Recall.{read_new_packet_to_tx-IsValid}

shift_loop-length : (k i : ℕ) (xs : List ℕ) → length (shift_loop k i xs) ≡ length xs
unfolding shift_loop
shift_loop-length zero i xs = refl
shift_loop-length (suc k) i xs =
    shift_loop-length k (i + 1) (set xs (i - 1) (get_or xs i 0))
    ∙ length-set xs (i - 1) (get_or xs i 0)

-- The shift moves the entries `i .. i+k-1` down by one.
shift_loop-get :
    (k i : ℕ) (xs : List ℕ) (j : ℕ)
    → 0 < i
    → i + k ≤ length xs
    → get_or (shift_loop k i xs) j 0 ≡ (
        if ltb (j + 1) i
        then get_or xs j 0
        else if ltb (j + 1) (i + k)
        then get_or xs (j + 1) 0
        else get_or xs j 0)
unfolding shift_loop
shift_loop-get zero i xs j h l = ground arith
shift_loop-get (suc k) i xs j h l =
    let ys = set xs (i - 1) (get_or xs i 0) in
    let rest =
      shift_loop-get k (i + 1) ys j (omega arith)
        (omega (arith, length-set xs (i - 1) (get_or xs i 0))) in
    let self : get_or ys (i - 1) 0 ≡ get_or xs i 0 =
      get_or-set_self xs (i - 1) (get_or xs i 0) 0 (omega arith) in
    let other : (m : ℕ) → i - 1 ≢ m → get_or ys m 0 ≡ get_or xs m 0 =
      λ m p. get_or-set_ne xs (i - 1) m (get_or xs i 0) 0 p in
    elim (Bool-cases (j == i - 1)) [
      | inl here ↦
          let e : j ≡ i - 1 = ground arith in
          let e' : j + 1 ≡ i = omega arith in
          let at : get_or ys j 0 ≡ get_or xs (j + 1) 0 =
            ap (λ m. get_or ys m 0) e ∙ self ∙ ap (λ m. get_or xs m 0) (sym e') in
          ground (arith, rest, at)
      | inr there ↦
          let same = other j (λ q. ground arith) in
          let next = other (j + 1) in ground (arith, rest, same, next)
    ]

popped-IsValid : (r : SendRing) → IsValid r → IsValid (pop_resend_sequence r).1
unfolding pop_resend_sequence
popped-IsValid r v = elim (Bool-cases (r.resend_count == 0)) [
  | inl e ↦ rw e v
  | inr e ↦ rw e (record {
    u8_size = v.u8_size;
    head_in = v.head_in;
    tx_in = v.tx_in;
    tail_in = v.tail_in;
    tail_u8 = v.tail_u8;
    order = v.order;
    tx_seq = v.tx_seq;
    head_seq = v.head_seq;
    items = v.items;
    storage = v.storage;
    resends = omega (arith, v.resends);
    list = shift_loop-length (r.resend_count - 1 - 1) 1 r.resend_list ∙ v.list;
  })
]

-- Popping a valid ring's schedule of two or more sequences returns the first and moves the others up
-- by one, but for the last: it is lost, and the last place repeats the last but one.
pub pop_resend_sequence-moves :
    (r : SendRing) (j : ℕ)
    → IsValid r
    → 2 ≤ r.resend_count
    → j + 1 < r.resend_count
    → (r' : SendRing) × (pop_resend_sequence r ≡ (ok (get_or r.resend_list 0 0), r'))
      × IsValid r'
      × (r'.resend_count + 1 ≡ r.resend_count)
      × (get_or r'.resend_list j 0 ≡ (
          if ltb (j + 2) r.resend_count
          then get_or r.resend_list (j + 1) 0
          else get_or r.resend_list (r.resend_count - 2) 0))
unfolding pop_resend_sequence
pop_resend_sequence-moves r j v h k =
    let some_left : (r.resend_count == 0) ≡ false = ground arith in
    let shifted =
      shift_loop-get (r.resend_count - 1 - 1) 1 r.resend_list j (omega arith)
        (omega (arith, v.list, v.resends)) in
    let valid : IsValid (pop_resend_sequence r).1 = popped-IsValid r v in
    (
      (pop_resend_sequence r).1,
      rw some_left refl,
      valid,
      rw some_left (omega arith),
      rw some_left (elim (Bool-cases (ltb (j + 2) r.resend_count)) [
        | inl more ↦ ground (arith, shifted)
        | inr last ↦
            let e : r.resend_count - 2 ≡ j = ground arith in
            let same : get_or r.resend_list (r.resend_count - 2) 0 ≡ get_or r.resend_list j 0 =
              ap (λ m. get_or r.resend_list m 0) e in
            ground (arith, shifted, same)
      ]),
    )

recall_popped-IsValid :
    (eb : ElementBuffer) (t : Result ℕ × SendRing) → IsValid t.1 → IsValid (recall_popped eb t).1
unfolding recall_popped
recall_popped-IsValid eb (err e, r) v = v
recall_popped-IsValid eb (ok sequence, r) v = v

or_new-IsValid :
    (eb : ElementBuffer) (t : Result (List ℕ × ℕ) × SendRing)
    → IsValid t.1
    → IsValid (or_new eb t).1
unfolding or_new
or_new-IsValid eb (ok p, r) v = v
or_new-IsValid eb (err e, r) v = read_new_packet_to_tx-IsValid r eb v

-- Transmitting keeps a ring valid on every branch, with or without retransmissions.
pub read_to_tx-IsValid :
    (r : SendRing) (eb : ElementBuffer) (include_resend : Bool)
    → IsValid r
    → IsValid (read_to_tx r eb include_resend).1
unfolding read_to_tx read_recall_packet_to_tx
read_to_tx-IsValid r eb include_resend v =
    elim (Bool-cases (include_resend && ltb 0 r.resend_count)) [
      | inl e ↦ rw e (
          or_new-IsValid eb (read_recall_packet_to_tx r eb)
            (recall_popped-IsValid eb (pop_resend_sequence r) (popped-IsValid r v)))
      | inr e ↦ rw e (read_new_packet_to_tx-IsValid r eb v)
    ]
