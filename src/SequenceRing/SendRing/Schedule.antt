-- ===== src/SequenceRing/SendRing/Schedule.antt =====
-- Scheduling one sequence for retransmission, in the send ring of src/sequence_ring.c.
use skylink.Base.{
  ℕ, zero, suc, ◌+◌, ◌<◌, ◌≤◌, ◌≡◌, ◌≢◌, ◌⊎◌, refl, sym, subst, ◌∙◌, ap, arith, true, false, List,
  ltb, leb, ◌==◌, ==_iff, Bool-cases, inl, inr, get_or, set, length-set, get_or-set_self,
  get_or-set_ne,
}
use skylink.Base.Result.{Result, ok}
use skylink.SequenceRing.{arq_resend_schedule_depth}
use skylink.SequenceRing.SendRing.{SendRing, can_recall, is_scheduled, add_resend, schedule_resend}
use skylink.SequenceRing.SendRing.Invariant.{IsValid, stored, sent}

is_scheduled-at :
    (n i : ℕ) (xs : List ℕ) (s j : ℕ)
    → i ≤ j
    → j < i + n
    → get_or xs j 0 ≡ s
    → is_scheduled n i xs s ≡ true
unfolding is_scheduled
is_scheduled-at zero i xs s j h k e = absurd (omega arith)
is_scheduled-at (suc n) i xs s j h k e = elim (Bool-cases (get_or xs i 0 == s)) [
  | inl here ↦ rw here refl
  | inr there ↦
      let apart : i ≢ j = λ (p : i ≡ j).
        absurd (cc ((==_iff (get_or xs i 0) s).1 (ap (λ m. get_or xs m 0) p ∙ e), there)) in
      rw there (is_scheduled-at n (i + 1) xs s j (ground arith) (omega arith) e)
]

is_scheduled-found :
    (n i : ℕ) (xs : List ℕ) (s : ℕ)
    → is_scheduled n i xs s ≡ true
    → (j : ℕ) × (i ≤ j) × (j < i + n) × (get_or xs j 0 ≡ s)
unfolding is_scheduled
is_scheduled-found zero i xs s e = absurd (ground arith)
is_scheduled-found (suc n) i xs s e = elim (Bool-cases (get_or xs i 0 == s)) [
  | inl here ↦ (i, omega arith, omega arith, (==_iff (get_or xs i 0) s).0 here)
  | inr there ↦
      let (j, h, k, at) = is_scheduled-found n (i + 1) xs s (rw there at e) in
      (j, omega arith, omega arith, at)
]

-- The sequence is in the schedule.
abbrev pub Scheduled : SendRing → ℕ → Type 0
Scheduled r s = is_scheduled r.resend_count 0 r.resend_list s ≡ true

-- No sequence is in the schedule twice.
abbrev pub IsUnique : SendRing → Type 0
IsUnique r =
    (i j : ℕ) → i < j → j < r.resend_count → get_or r.resend_list i 0 ≢ get_or r.resend_list j 0

add_resend-IsValid :
    (r : SendRing) (s : ℕ)
    → IsValid r
    → r.resend_count < arq_resend_schedule_depth
    → IsValid (add_resend r s)
add_resend-IsValid r s v h = record {
  u8_size = v.u8_size;
  head_in = v.head_in;
  tx_in = v.tx_in;
  tail_in = v.tail_in;
  tail_u8 = v.tail_u8;
  order = v.order;
  tx_seq = v.tx_seq;
  head_seq = v.head_seq;
  items = v.items;
  storage = v.storage;
  resends = omega (arith, h);
  list = length-set r.resend_list r.resend_count s ∙ v.list;
}

add_resend-Scheduled :
    (r : SendRing) (s t : ℕ)
    → IsValid r
    → r.resend_count < arq_resend_schedule_depth
    → Scheduled r t ⊎ (t ≡ s)
    → Scheduled (add_resend r s) t
add_resend-Scheduled r s t v h (inl e) =
    let (j, _, k, at) = is_scheduled-found r.resend_count 0 r.resend_list t e in
    is_scheduled-at (r.resend_count + 1) 0 (set r.resend_list r.resend_count s) t j (omega arith)
      (omega arith) (get_or-set_ne r.resend_list r.resend_count j s 0 (λ q. omega arith) ∙ at)
add_resend-Scheduled r s t v h (inr e) =
    is_scheduled-at (r.resend_count + 1) 0 (set r.resend_list r.resend_count s) t r.resend_count
      (omega arith) (omega arith)
      (get_or-set_self r.resend_list r.resend_count s 0 (omega (arith, v.list)) ∙ sym e)

add_resend-only :
    (r : SendRing) (s t : ℕ)
    → IsValid r
    → r.resend_count < arq_resend_schedule_depth
    → Scheduled (add_resend r s) t
    → Scheduled r t ⊎ (t ≡ s)
add_resend-only r s t v h e =
    let (j, _, k, at) =
      is_scheduled-found (r.resend_count + 1) 0 (set r.resend_list r.resend_count s) t e in
    elim (Bool-cases (j == r.resend_count)) [
      | inl last ↦ inr (
          sym at
          ∙ ap (λ m. get_or (set r.resend_list r.resend_count s) m 0)
              ((==_iff j r.resend_count).0 last)
          ∙ get_or-set_self r.resend_list r.resend_count s 0 (omega (arith, v.list)))
      | inr old ↦ inl (
          is_scheduled-at r.resend_count 0 r.resend_list t j (omega arith) (ground arith) (
            sym (
              get_or-set_ne r.resend_list r.resend_count j s 0
                (λ q. absurd (cc ((==_iff j r.resend_count).1 (sym q), old))))
            ∙ at))
    ]

add_resend-IsUnique :
    (r : SendRing) (s : ℕ)
    → IsValid r
    → r.resend_count < arq_resend_schedule_depth
    → is_scheduled r.resend_count 0 r.resend_list s ≡ false
    → IsUnique r
    → IsUnique (add_resend r s)
add_resend-IsUnique r s v h new u i j p q e =
    let before = get_or-set_ne r.resend_list r.resend_count i s 0 (λ t. omega arith) in
    elim (Bool-cases (ltb j r.resend_count)) [
      | inl old ↦
          u i j p (ground arith)
            (sym before ∙ e ∙ get_or-set_ne r.resend_list r.resend_count j s 0 (λ t. ground arith))
      | inr last ↦
          let k : j ≡ r.resend_count = ground arith in
          let at : get_or r.resend_list i 0 ≡ s =
            sym before
            ∙ e
            ∙ ap (λ m. get_or (set r.resend_list r.resend_count s) m 0) k
            ∙ get_or-set_self r.resend_list r.resend_count s 0 (omega (arith, v.list)) in
          absurd (
            cc (
              is_scheduled-at r.resend_count 0 r.resend_list s i (omega arith) (omega arith) at,
              new,
            ))
    ]

-- What a call of `schedule_resend` may leave.
pub record Outcome (r : SendRing) (s : ℕ) (t : Result (Unit {0}) × SendRing) : Type 0 where
  pub valid : IsValid t.1
  pub keeps : (q : ℕ) → Scheduled r q → Scheduled t.1 q
  pub only : (q : ℕ) → Scheduled t.1 q → Scheduled r q ⊎ (q ≡ s)
  pub unique : IsUnique r → IsUnique t.1
  pub grows : r.resend_count ≤ t.1.resend_count
  pub scheduled : t.0 ≡ ok tt → Scheduled t.1 s
  pub window : (t.1.tail_sequence ≡ r.tail_sequence) × (stored t.1 ≡ stored r) × (sent t.1 ≡ sent r)

unchanged :
    (r : SendRing) (s : ℕ) (o : Result (Unit {0}))
    → IsValid r
    → (o ≡ ok tt → Scheduled r s)
    → Outcome r s (o, r)
unchanged r s o v h = record {
  valid = v;
  keeps = λ q e. e;
  only = λ q e. inl e;
  unique = λ u. u;
  grows = omega arith;
  scheduled = h;
  window = (refl, refl, refl);
}

pub schedule_resend-Outcome : (r : SendRing) (s : ℕ) → IsValid r → Outcome r s (schedule_resend r s)
unfolding schedule_resend
schedule_resend-Outcome r s v = elim (Bool-cases (leb arq_resend_schedule_depth r.resend_count)) [
  | inl full ↦ rw full (unchanged r s _ v (λ e. absurd (cc e)))
  | inr room ↦ elim (Bool-cases (can_recall r s)) [
    | inr cannot ↦ rw (room, cannot) (unchanged r s _ v (λ e. absurd (cc e)))
    | inl can ↦ elim (Bool-cases (is_scheduled r.resend_count 0 r.resend_list s)) [
      | inl old ↦ rw (room, can, old) (unchanged r s (ok tt) v (λ e. old))
      | inr new ↦
          let h : r.resend_count < arq_resend_schedule_depth = ground arith in
          rw (room, can, new)
            (record {
              valid = add_resend-IsValid r s v h;
              keeps = λ q e. add_resend-Scheduled r s q v h (inl e);
              only = λ q e. add_resend-only r s q v h e;
              unique = add_resend-IsUnique r s v h new;
              grows = omega arith;
              scheduled = λ e. add_resend-Scheduled r s s v h (inr refl);
              window = (refl, refl, refl);
            })
    ]
  ]
]

-- A schedule that takes a sequence holds it afterwards, once, and the ring stays valid; to schedule
-- it again changes nothing.
pub schedule_resend-schedules :
    (r r' : SendRing) (s : ℕ)
    → IsValid r
    → IsUnique r
    → schedule_resend r s ≡ (ok tt, r')
    → IsValid r' × IsUnique r' × Scheduled r' s × ((schedule_resend r' s).1 ≡ r')
unfolding schedule_resend
schedule_resend-schedules r r' s v u e =
    let o : Outcome r s (ok tt, r') = subst (Outcome r s) e (schedule_resend-Outcome r s v) in
    let there : Scheduled r' s = o.scheduled refl in
    (
      o.valid,
      o.unique u,
      there,
      elim (Bool-cases (leb arq_resend_schedule_depth r'.resend_count)) [
        | inl full ↦ rw full refl
        | inr room ↦ elim (Bool-cases (can_recall r' s)) [
          | inr cannot ↦ rw (room, cannot) refl
          | inl can ↦ rw (room, can, there) refl
        ]
      ],
    )
