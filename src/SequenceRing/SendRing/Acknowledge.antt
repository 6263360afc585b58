-- ===== src/SequenceRing/SendRing/Acknowledge.antt =====
-- What an acknowledgement clears from the send ring of src/sequence_ring.c.
use skylink.Base.{
  ℕ, zero, suc, ◌+◌, ◌%◌, ◌<◌, ◌≤◌, ◌≡◌, ◌↔◌, refl, sym, subst, arith, true, false, ltb, ◌==◌, List,
  [], ◌∷◌, ◌-◌, ◌∙◌, Bool-cases, inl, inr, ltb→lt, lt→ltb, ap,
}
use skylink.Base.Result.{Result, ok, err, ring_invalid_acknowledge}
use skylink.ElementBuffer
use skylink.ElementBuffer.{ElementBuffer}
use skylink.SequenceRing.{seq_diff, empty_item}
use skylink.SequenceRing.Wrap.{ring_wrap_pos}
use skylink.SequenceRing.RcvRing.Invariant.{slot}
use skylink.SequenceRing.SendRing.{SendRing, drop_tail, clean_loop, clean_tail_up_to}
use skylink.SequenceRing.SendRing.Invariant.{IsValid, stored, sent, drop_tail-IsValid}

-- The indices in the `n` slots from the `k`th behind the tail on.
abbrev pub indices : SendRing → ℕ → ℕ → List ℕ
indices r k zero = []
indices r k (suc n) = (r.buff (slot r.size r.tail k)).idx ∷ indices r (k + 1) n

-- The element buffer without the payloads at the indices.
abbrev pub without : ElementBuffer → List ℕ → ElementBuffer
without eb [] = eb
without eb (idx ∷ idxs) = without (ElementBuffer.delete eb idx).1 idxs

-- `r'` is `r` with `n` payloads cleared from its tail: their slots are vacant, and the others are as
-- they were.
pub record Cleared (r r' : SendRing) (n : ℕ) : Type 0 where
  pub valid : IsValid r'
  pub stored_less : stored r' + n ≡ stored r
  pub sent_less : sent r' + n ≡ sent r
  pub tail_sequence : r'.tail_sequence ≡ (r.tail_sequence + n) % 256
  pub head : r'.head ≡ r.head
  pub tx_head : r'.tx_head ≡ r.tx_head
  pub resend_count : r'.resend_count ≡ r.resend_count
  pub size : r'.size ≡ r.size
  pub tail : r'.tail ≡ slot r.size r.tail n
  pub vacant : (k : ℕ) → k < n → r'.buff (slot r.size r.tail k) ≡ empty_item
  pub kept :
      (k : ℕ) → n ≤ k → k < r.size → r'.buff (slot r.size r.tail k) ≡ r.buff (slot r.size r.tail k)

module _ (r : SendRing) (v : IsValid r) where
  next : (drop_tail r).tail ≡ slot r.size r.tail 1
  next = ring_wrap_pos (r.tail + 1) r.size (omega (arith, v.tail_in)) (omega (arith, v.tail_in))

  -- The slots behind the tail that is dropped.
  drop_tail-slot :
      (k : ℕ) → k + 1 < r.size → slot r.size (drop_tail r).tail k ≡ slot r.size r.tail (k + 1)
  drop_tail-slot k h = ground (arith, next, v.tail_in)

  drop_tail-last : slot r.size (drop_tail r).tail (r.size - 1) ≡ r.tail
  drop_tail-last = ground (arith, next, v.tail_in)

  drop_tail-vacant : (drop_tail r).buff r.tail ≡ empty_item
  drop_tail-vacant = ground arith

  drop_tail-kept :
      (k : ℕ)
      → k + 1 < r.size
      → (drop_tail r).buff (slot r.size r.tail (k + 1)) ≡ r.buff (slot r.size r.tail (k + 1))
  drop_tail-kept k h =
      let apart : (slot r.size r.tail (k + 1) == r.tail) ≡ false = ground (arith, v.tail_in) in
      rw apart refl

  indices-drop_tail : (k n : ℕ) → k + n < r.size → indices (drop_tail r) k n ≡ indices r (k + 1) n
  indices-drop_tail k zero h = refl
  indices-drop_tail k (suc n) h =
      let at = drop_tail-slot k (omega arith) in
      let item : (drop_tail r).buff (slot r.size (drop_tail r).tail k)
          ≡ r.buff (slot r.size r.tail (k + 1)) =
        ap (drop_tail r).buff at ∙ drop_tail-kept k (omega arith) in
      (λ i. (item i).idx ∷ indices-drop_tail (k + 1) n (omega arith) i)

  -- What is cleared behind a tail that is dropped.
  module _ (r' : SendRing) (n : ℕ) (h : n < r.size) (c : Cleared (drop_tail r) r' n) where
    vacant_next : (k : ℕ) → k < suc n → r'.buff (slot r.size r.tail k) ≡ empty_item
    vacant_next k p = elim (Bool-cases (k == 0)) [
      | inl here ↦
          let at : slot r.size r.tail k ≡ slot r.size (drop_tail r).tail (r.size - 1) =
            (let e : slot r.size r.tail k ≡ r.tail = ground (arith, v.tail_in) in e)
            ∙ sym drop_tail-last in
          ap r'.buff at
          ∙ c.kept (r.size - 1) (omega arith) (omega arith)
          ∙ ap (drop_tail r).buff drop_tail-last
          ∙ drop_tail-vacant
      | inr behind ↦
          let j : k ≡ k - 1 + 1 = ground arith in
          ap (λ k. r'.buff (slot r.size r.tail k)) j
          ∙ ap r'.buff (sym (drop_tail-slot (k - 1) (ground arith)))
          ∙ c.vacant (k - 1) (ground arith)
    ]

    kept_next :
        (k : ℕ)
        → suc n ≤ k
        → k < r.size
        → r'.buff (slot r.size r.tail k) ≡ r.buff (slot r.size r.tail k)
    kept_next k p q =
        let j : k ≡ k - 1 + 1 = omega arith in
        let at = drop_tail-slot (k - 1) (omega arith) in
        ap (λ k. r'.buff (slot r.size r.tail k)) j
        ∙ ap r'.buff (sym at)
        ∙ c.kept (k - 1) (omega arith) (omega arith)
        ∙ ap (drop_tail r).buff at
        ∙ drop_tail-kept (k - 1) (omega arith)
        ∙ ap (λ k. r.buff (slot r.size r.tail k)) (sym j)

clean_loop-Cleared :
    (n f : ℕ) (r : SendRing) (eb : ElementBuffer) (c : ℕ)
    → IsValid r
    → n ≤ sent r
    → n < f
    → sent r < 256
    → let (m, r', eb') = clean_loop f r eb ((r.tail_sequence + n) % 256) c in
      (m ≡ c + n) × (eb' ≡ without eb (indices r 0 n)) × Cleared r r' n
unfolding clean_loop
clean_loop-Cleared n zero r eb c v h k u = absurd (omega arith)
clean_loop-Cleared zero (suc f) r eb c v h k u =
    let here : (r.tail_sequence == (r.tail_sequence + 0) % 256) ≡ true =
      ground (arith, v.tail_u8) in
    rw here (
      omega arith,
      refl,
      record {
        valid = v;
        stored_less = omega arith;
        sent_less = omega arith;
        tail_sequence = omega (arith, v.tail_u8);
        head = refl;
        tx_head = refl;
        resend_count = refl;
        size = refl;
        tail = ground (arith, v.tail_in);
        vacant = λ k p. absurd (omega arith);
        kept = λ k p q. refl;
      },
    )
clean_loop-Cleared (suc n) (suc f) r eb c v h k u =
    let further : (r.tail_sequence == (r.tail_sequence + suc n) % 256) ≡ false =
      ground (arith, v.tail_u8) in
    let (v', less, less_sent) = drop_tail-IsValid r v (omega arith) in
    let same : (r.tail_sequence + suc n) % 256 ≡ ((drop_tail r).tail_sequence + n) % 256 =
      omega arith in
    let inside : suc n < r.size = ground (arith, v.tx_in, v.tail_in) in
    let (m, left, a) =
      clean_loop-Cleared n f (drop_tail r) (ElementBuffer.delete eb (r.buff r.tail).idx).1 (c + 1)
        v' (omega (arith, less_sent)) (omega arith) (omega (arith, less_sent)) in
    rw (further, same)
      (
        omega (arith, m),
        left
            ∙ ap (without (ElementBuffer.delete eb (r.buff r.tail).idx).1)
                (indices-drop_tail r v 0 n (omega arith))
            ∙ ap (λ t. without (ElementBuffer.delete eb (r.buff t).idx).1 (indices r 1 n))
                (let e : r.tail ≡ slot r.size r.tail 0 = ground (arith, v.tail_in) in e),
        record {
          valid = a.valid;
          stored_less = omega (arith, a.stored_less, less, v.order);
          sent_less = omega (arith, a.sent_less, less_sent);
          tail_sequence = omega (arith, a.tail_sequence);
          head = a.head;
          tx_head = a.tx_head;
          resend_count = a.resend_count;
          size = a.size;
          tail =
              a.tail ∙ drop_tail-slot r v n (omega arith) ∙ ap (slot r.size r.tail) (omega arith);
          vacant = vacant_next r v _ n (omega arith) a;
          kept = kept_next r v _ n (omega arith) a;
        },
      )

sent_u8 : (r : SendRing) → IsValid r → sent r < 256
sent_u8 r v = ground (arith, v.tx_in, v.tail_in, v.u8_size)

-- An acknowledgement of `n` of the transmitted payloads of a valid ring clears exactly these: the
-- number is returned, the payloads of the `n` slots from the tail on are deleted from the element
-- buffer, these slots are vacant, the tail moves on by `n`, and the other slots stay.
pub clean_tail_up_to-Cleared :
    (r : SendRing) (eb : ElementBuffer) (n : ℕ)
    → IsValid r
    → n ≤ sent r
    → (r' : SendRing) × (eb' : ElementBuffer) × (clean_tail_up_to r eb ((r.tail_sequence + n) % 256)
        ≡ (ok n, r', eb'))
      × (eb' ≡ without eb (indices r 0 n))
      × Cleared r r' n
unfolding clean_tail_up_to
clean_tail_up_to-Cleared r eb n v h =
    let u = sent_u8 r v in
    let d : seq_diff ((r.tail_sequence + n) % 256) r.tail_sequence ≡ n =
      omega (arith, v.tail_u8, u) in
    let tx : seq_diff r.tx_sequence r.tail_sequence ≡ sent r =
      omega (arith, v.tail_u8, u, v.tx_seq) in
    let inside : ltb (sent r) n ≡ false = ground arith in
    let (m, left, a) = clean_loop-Cleared n 256 r eb 0 v h (omega arith) u in
    let m' : (clean_loop 256 r eb ((r.tail_sequence + n) % 256) 0).0 ≡ n = omega (arith, m) in
    (
      (clean_loop 256 r eb ((r.tail_sequence + n) % 256) 0).1,
      (clean_loop 256 r eb ((r.tail_sequence + n) % 256) 0).2,
      rw (d, tx, inside, m') refl,
      left,
      a,
    )

-- Of a valid ring, an acknowledgement is refused exactly where it is none of a transmitted payload;
-- a sequence is one of the numbers below 256.
pub clean_tail_up_to-refused :
    (r : SendRing) (eb : ElementBuffer) (new_tail_sequence : ℕ)
    → IsValid r
    → new_tail_sequence < 256
    → (clean_tail_up_to r eb new_tail_sequence ≡ (err ring_invalid_acknowledge, r, eb))
      ↔ (sent r < seq_diff new_tail_sequence r.tail_sequence)
unfolding clean_tail_up_to
clean_tail_up_to-refused r eb s v u8 = (
  λ e. elim (Bool-cases (ltb (sent r) (seq_diff s r.tail_sequence))) [
    | inl far ↦ ltb→lt (sent r) (seq_diff s r.tail_sequence) far
    | inr near ↦
        absurd (cc (ap (λ (t : Result ℕ × SendRing × ElementBuffer). t.0) (rw (tx, near) at e)))
  ],
  λ far.
      let far' : ltb (sent r) (seq_diff s r.tail_sequence) ≡ true =
        lt→ltb (sent r) (seq_diff s r.tail_sequence) far in
      rw (tx, far') refl,
)
  where
    tx : seq_diff r.tx_sequence r.tail_sequence ≡ sent r
    tx = omega (arith, v.tail_u8, sent_u8 r v, v.tx_seq)

-- An acknowledgement of any sequence keeps a ring valid.
pub clean_tail_up_to-IsValid :
    (r : SendRing) (eb : ElementBuffer) (s : ℕ)
    → IsValid r
    → s < 256
    → IsValid (clean_tail_up_to r eb s).1
clean_tail_up_to-IsValid r eb s v u8 =
    elim (Bool-cases (ltb (sent r) (seq_diff s r.tail_sequence))) [
      | inl far ↦
          subst (λ (t : Result ℕ × SendRing × ElementBuffer). IsValid t.1)
            (sym (
              (clean_tail_up_to-refused r eb s v u8).1
                (ltb→lt (sent r) (seq_diff s r.tail_sequence) far)))
            v
      | inr near ↦
          let same : (r.tail_sequence + seq_diff s r.tail_sequence) % 256 ≡ s =
            omega (arith, v.tail_u8) in
          let (r', eb', e, _, c) =
            clean_tail_up_to-Cleared r eb (seq_diff s r.tail_sequence) v (ground arith) in
          subst (λ q. IsValid (clean_tail_up_to r eb q).1) same
            (subst (λ (t : Result ℕ × SendRing × ElementBuffer). IsValid t.1) (sym e) c.valid)
    ]
