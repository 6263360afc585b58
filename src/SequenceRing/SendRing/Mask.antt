-- ===== src/SequenceRing/SendRing/Mask.antt =====
-- Scheduling the sequences of a retransmission request, in the send ring of src/sequence_ring.c.
use skylink.Base.{
  ℕ, zero, suc, ◌+◌, ◌-◌, ◌/◌, ◌%◌, ◌^◌, ◌<◌, ◌≡◌, ◌⊎◌, ◌↔◌, ◌∙◌, ap, true, refl, sym, subst, arith,
  false, ◌==◌, ==_iff, Bool-cases, inl, inr,
}
use skylink.Base.Result.{Result, ok, err}
use skylink.SequenceRing.{seq_next}
use skylink.SequenceRing.SendRing.{SendRing, schedule_resend, mask_loop, schedule_resends_by_mask}
use skylink.SequenceRing.SendRing.Invariant.{IsValid}
use skylink.SequenceRing.SendRing.Schedule.{IsUnique, Scheduled, schedule_resend-Outcome}

-- One of the `k` sequences from `s` on whose bit in the mask, from the `i`th on, is zero.
abbrev pub Missing : ℕ → ℕ → ℕ → ℕ → ℕ → Type 0
Missing k i s mask q = (j : ℕ) × (j < k) × (mask / 2 ^ (i + j) % 2 ≡ 0) × (q ≡ (s + j) % 256)

Missing-later :
    (k i s mask q : ℕ) → Missing k (i + 1) (seq_next s) mask q → Missing (suc k) i s mask q
Missing-later k i s mask q (j, h, b, e) =
    (j + 1, omega arith, ap (λ m. mask / 2 ^ m % 2) (omega arith) ∙ b, omega (arith, e))

-- What the loop over the mask leaves.
record Walked (k i : ℕ) (s mask : ℕ) (t u : Result (Unit {0}) × SendRing) : Type 0 where
  valid : IsValid u.1
  unique : IsUnique t.1 → IsUnique u.1
  keeps : (q : ℕ) → Scheduled t.1 q → Scheduled u.1 q
  only : (q : ℕ) → Scheduled u.1 q → Scheduled t.1 q ⊎ Missing k i s mask q
  started : u.0 ≡ ok tt → t.0 ≡ ok tt
  missing :
      u.0 ≡ ok tt → (j : ℕ) → j < k → mask / 2 ^ (i + j) % 2 ≡ 0 → Scheduled u.1 ((s + j) % 256)

first_bit : (i mask : ℕ) → (mask / 2 ^ i % 2 == 0) ≡ true → mask / 2 ^ (i + 0) % 2 ≡ 0
first_bit i mask e = ap (λ m. mask / 2 ^ m % 2) (omega arith) ∙ (==_iff (mask / 2 ^ i % 2) 0).0 e

mask_loop-Walked :
    (k i s mask : ℕ) (t : Result (Unit {0}) × SendRing)
    → IsValid t.1
    → s < 256
    → Walked k i s mask t (mask_loop k i t s mask)
unfolding mask_loop
mask_loop-Walked zero i s mask t v u8 = record {
  valid = v;
  unique = λ u. u;
  keeps = λ q e. e;
  only = λ q e. inl e;
  started = λ e. e;
  missing = λ e j p. absurd (omega arith);
}
mask_loop-Walked (suc k) i s mask (err e, r) v u8 = record {
  valid = v;
  unique = λ u. u;
  keeps = λ q e. e;
  only = λ q e. inl e;
  started = λ e. e;
  missing = λ p. absurd (cc p);
}
mask_loop-Walked (suc k) i s mask (ok tt, r) v u8 = elim (Bool-cases (mask / 2 ^ i % 2 == 0)) [
  | inl zero_bit ↦
      let o = schedule_resend-Outcome r s v in
      let w =
        mask_loop-Walked k (i + 1) (seq_next s) mask (schedule_resend r s) o.valid (omega arith) in
      rw zero_bit (record {
        valid = w.valid;
        unique = λ u. w.unique (o.unique u);
        keeps = λ q e. w.keeps q (o.keeps q e);
        only = λ q e. elim (w.only q e) [
          | inr m ↦ inr (Missing-later k i s mask q m)
          | inl before ↦ elim (o.only q before) [
            | inl old ↦ inl old
            | inr here ↦ inr (0, omega arith, first_bit i mask zero_bit, omega (arith, here))
          ]
        ];
        started = λ e. refl;
        missing = λ e j p b. elim (Bool-cases (j == 0)) [
          | inl here ↦
              let at : (s + j) % 256 ≡ s = ground arith in
              rw at (w.keeps s (o.scheduled (w.started e)))
          | inr further ↦
              later k i s mask j (mask_loop k (i + 1) (schedule_resend r s) (seq_next s) mask)
                w.missing e p further b
        ];
      })
  | inr one_bit ↦
      let w = mask_loop-Walked k (i + 1) (seq_next s) mask (ok tt, r) v (omega arith) in
      rw one_bit (record {
        valid = w.valid;
        unique = w.unique;
        keeps = w.keeps;
        only = λ q e. elim (w.only q e) [
          | inl old ↦ inl old
          | inr m ↦ inr (Missing-later k i s mask q m)
        ];
        started = λ e. refl;
        missing = λ e j p b. elim (Bool-cases (j == 0)) [
          | inl here ↦
              let at : i + j ≡ i = ground arith in
              absurd (
                cc (
                  (==_iff (mask / 2 ^ i % 2) 0).1 (subst (λ m. mask / 2 ^ m % 2 ≡ 0) at b),
                  one_bit,
                ))
          | inr further ↦
              later k i s mask j (mask_loop k (i + 1) (ok tt, r) (seq_next s) mask) w.missing e p
                further b
        ];
      })
]
  where
    later :
        (k i s mask j : ℕ) (u : Result (Unit {0}) × SendRing)
        → (u.0 ≡ ok tt
            → (j : ℕ) → j < k
            → mask / 2 ^ (i + 1 + j) % 2 ≡ 0
            → Scheduled u.1 ((seq_next s + j) % 256))
        → u.0 ≡ ok tt
        → j < suc k
        → (j == 0) ≡ false
        → mask / 2 ^ (i + j) % 2 ≡ 0
        → Scheduled u.1 ((s + j) % 256)
    later k i s mask j u rest e p further b =
        let at : i + 1 + (j - 1) ≡ i + j = ground arith in
        let same : (s + j) % 256 ≡ (seq_next s + (j - 1)) % 256 = ground arith in
        rw same (rest e (j - 1) (ground arith) (subst (λ m. mask / 2 ^ m % 2 ≡ 0) (sym at) b))

-- A retransmission request is taken by a valid ring that has no sequence scheduled twice. Then the
-- ring stays such a ring, and scheduled is exactly what was before, the first sequence of the request,
-- and each of the 16 behind it whose bit in the mask is zero.
pub schedule_resends_by_mask-schedules :
    (r r' : SendRing) (s mask : ℕ)
    → IsValid r
    → IsUnique r
    → s < 256
    → schedule_resends_by_mask r s mask ≡ (ok tt, r')
    → IsValid r'
      × IsUnique r'
      × ((q : ℕ) → Scheduled r' q ↔ (Scheduled r q ⊎ ((q ≡ s) ⊎ Missing 16 0 (seq_next s) mask q)))
unfolding schedule_resends_by_mask
schedule_resends_by_mask-schedules r r' s mask v u u8 e =
    let o = schedule_resend-Outcome r s v in
    let w : Walked 16 0 (seq_next s) mask (schedule_resend r s) (ok tt, r') =
      subst (Walked 16 0 (seq_next s) mask (schedule_resend r s)) e
        (mask_loop-Walked 16 0 (seq_next s) mask (schedule_resend r s) o.valid (omega arith)) in
    (
      w.valid,
      w.unique (o.unique u),
      λ q. (
        λ e. elim (w.only q e) [
          | inr m ↦ inr (inr m)
          | inl before ↦ elim (o.only q before) [ inl old ↦ inl old | inr first ↦ inr (inl first) ]
        ],
        λ e. elim e [
          | inl old ↦ w.keeps q (o.keeps q old)
          | inr (inl first) ↦
              subst (Scheduled r') (sym first) (w.keeps s (o.scheduled (w.started refl)))
          | inr (inr (j, h, b, at)) ↦ subst (Scheduled r') (sym at) (w.missing refl j h b)
        ],
      ),
    )

-- A retransmission request keeps a ring valid, whether it is taken or not.
pub schedule_resends_by_mask-IsValid :
    (r : SendRing) (s mask : ℕ) → IsValid r → IsValid (schedule_resends_by_mask r s mask).1
unfolding schedule_resends_by_mask
schedule_resends_by_mask-IsValid r s mask v =
    let o = schedule_resend-Outcome r s v in
    let w = mask_loop-Walked 16 0 (seq_next s) mask (schedule_resend r s) o.valid (omega arith) in
    w.valid
