-- ===== src/Hmac/Sequences.antt =====
-- The sequence numbers of src/hmac.c as the node keeps them over a restart.
use skylink.Base.{
  ℕ, zero, suc, ◌+◌, ◌*◌, ◌≡◌, ◌<◌, refl, ap₂, ◌∙◌, arith, List, [], ◌∷◌, true, false, length, ◌==◌,
  ==_of_ne, ==_iff, get_or, drop,
}
use skylink.Hmac.{Hmac, assign, load_loop, load_sequences, dump_loop, dump_sequences}

pub assign_self {ℓ} : {A : Type ℓ} (array : ℕ → A) (vc : ℕ) (v : A) → assign array vc v vc ≡ v
assign_self array vc v = let same : (vc == vc) ≡ true = (==_iff vc vc).1 refl in rw same refl

pub assign_other {ℓ} :
    {A : Type ℓ} (array : ℕ → A) (vc i : ℕ) (v : A) → vc < i → assign array i v vc ≡ array vc
assign_other array vc i v h =
    let other : (vc == i) ≡ false = ==_of_ne vc i (λ e. omega arith) in rw other refl

-- Loading the channels from `i` on leaves those before.
load_loop_below :
    (n vc i : ℕ) (hmac : Hmac) (s : List ℕ)
    → vc < i
    → ((load_loop n i hmac s).sequence_tx vc ≡ hmac.sequence_tx vc)
      × ((load_loop n i hmac s).sequence_rx vc ≡ hmac.sequence_rx vc)
unfolding load_loop
load_loop_below zero vc i hmac s h = (refl, refl)
load_loop_below (suc n) vc i hmac s h =
    let loaded = record hmac {
      sequence_tx = assign hmac.sequence_tx i (get_or s 0 0);
      sequence_rx = assign hmac.sequence_rx i (get_or s 1 0);
    } in
    let rest = load_loop_below n vc (i + 1) loaded (drop 2 s) (omega arith) in
    (
      rest.0 ∙ assign_other hmac.sequence_tx vc i (get_or s 0 0) h,
      rest.1 ∙ assign_other hmac.sequence_rx vc i (get_or s 1 0) h,
    )

dump_load_loop :
    (n i : ℕ) (hmac : Hmac) (s : List ℕ)
    → length s ≡ 2 * n
    → dump_loop n i (load_loop n i hmac s) ≡ s
unfolding load_loop dump_loop
dump_load_loop zero i hmac [] e = refl
dump_load_loop zero i hmac (a ∷ s) e = absurd (omega arith)
dump_load_loop (suc n) i hmac [] e = absurd (omega arith)
dump_load_loop (suc n) i hmac (a ∷ []) e = absurd (omega arith)
dump_load_loop (suc n) i hmac (a ∷ b ∷ s) e =
    let loaded = record hmac {
      sequence_tx = assign hmac.sequence_tx i a;
      sequence_rx = assign hmac.sequence_rx i b;
    } in
    let first = load_loop_below n i (i + 1) loaded s (omega arith) in
    ap₂ (λ t u. t ∷ u) (first.0 ∙ assign_self hmac.sequence_tx i a)
      (ap₂ (λ t u. t ∷ u) (first.1 ∙ assign_self hmac.sequence_rx i b)
        (dump_load_loop n (i + 1) loaded s (omega arith)))

-- Eight sequence numbers that are loaded are dumped again, in the same order.
pub dump_sequences-load_sequences :
    (hmac : Hmac) (sequences : List ℕ)
    → length sequences ≡ 8
    → dump_sequences (load_sequences hmac sequences) ≡ sequences
dump_sequences-load_sequences hmac sequences e = dump_load_loop 4 0 hmac sequences (omega arith)
