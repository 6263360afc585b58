-- ===== src/Fec/RoundTrip.antt =====
-- What the error correction of src/fec.c undoes: the whitening, and damaged bytes.
use Prim.Native.Nat.{bit_xor}
use skylink.Base.{
  ℕ, zero, suc, ◌+◌, ◌-◌, ◌%◌, ◌≡◌, ◌≤◌, refl, sym, ap, ap₂, ◌∙◌, subst, arith, true, false, ◌||◌,
  Option, some, List, [], ◌∷◌, ◌++◌, if◌then◌else◌, ltb, ◌==◌, ==_iff, ==_of_ne, Bool-cases, inl,
  inr, length, get_or, take, drop, length-append, length-take, append_assoc, take_exact,
}
use skylink.Base.Bits.{bit_xor_cancel, bit_xor_injective}
use skylink.Base.Result.{ok}
use skylink.Frame.Radio.{RadioFrame}
use skylink.Diag.{Diagnostics}
use skylink.External.{External}
use skylink.Fec.{Decoded, whitening, whiten, fec_succeeded, decoded, fec_decode, fec_encode}

-- The number of positions where two lists differ.
abbrev pub distance : List ℕ → List ℕ → ℕ
distance [] ys = length ys
distance (x ∷ xs) [] = suc (length xs)
distance (x ∷ xs) (y ∷ ys) = (if x == y then 0 else 1) + distance xs ys

whiten-whiten : (n i : ℕ) (raw : List ℕ) → whiten n i (whiten n i raw) ≡ raw
unfolding whiten
whiten-whiten zero i raw = refl
whiten-whiten (suc n) i [] = refl
whiten-whiten (suc n) i (b ∷ raw) =
    ap₂ (λ t u. t ∷ u) (bit_xor_cancel b (get_or whitening (i % 256) 0))
      (whiten-whiten n (i + 1) raw)

pub length-whiten : (n i : ℕ) (raw : List ℕ) → length (whiten n i raw) ≡ length raw
unfolding whiten
length-whiten zero i raw = refl
length-whiten (suc n) i [] = refl
length-whiten (suc n) i (b ∷ raw) = ap suc (length-whiten n (i + 1) raw)

take-whiten : (n i : ℕ) (raw : List ℕ) → take n (whiten n i raw) ≡ whiten n i (take n raw)
unfolding whiten
take-whiten zero i raw = refl
take-whiten (suc n) i [] = refl
take-whiten (suc n) i (b ∷ raw) =
    ap (λ t. bit_xor b (get_or whitening (i % 256) 0) ∷ t) (take-whiten n (i + 1) raw)

same_test : (a b w : ℕ) → (bit_xor a w == bit_xor b w) ≡ (a == b)
same_test a b w = elim (Bool-cases (a == b)) [
  | inl same ↦
      let e : a ≡ b = (==_iff a b).0 same in
      (==_iff (bit_xor a w) (bit_xor b w)).1 (ap (λ t. bit_xor t w) e) ∙ sym same
  | inr other ↦
      ==_of_ne (bit_xor a w) (bit_xor b w) (λ e.
        let f = (==_iff a b).1 (bit_xor_injective a b w e) in
        absurd (let h : true ≡ false = sym f ∙ other in ground (arith, h)))
      ∙ sym other
]

-- Whitening keeps the number of damaged bytes.
distance-whiten :
    (n i : ℕ) (xs ys : List ℕ) → distance (whiten n i xs) (whiten n i ys) ≡ distance xs ys
unfolding whiten
distance-whiten zero i xs ys = refl
distance-whiten (suc n) i [] ys = length-whiten (suc n) i ys
distance-whiten (suc n) i (x ∷ xs) [] = ap suc (length-whiten n (i + 1) xs)
distance-whiten (suc n) i (x ∷ xs) (y ∷ ys) =
    ap₂ (λ b k. (if b then 0 else 1) + k) (same_test x y (get_or whitening (i % 256) 0))
      (distance-whiten n (i + 1) xs ys)

-- The bytes and the parity are sent whitened.
fec_encode-block :
    (x : External) (frame : RadioFrame)
    → frame.length ≤ 223
    → frame.length ≤ length frame.raw
    → let bytes = take frame.length frame.raw in
      let parity = x.encode_rs_8 bytes (223 - frame.length) in
      length parity ≡ 32
      → take (frame.length + 32) (fec_encode x frame).1.raw
        ≡ whiten (frame.length + 32) 0 (bytes ++ parity)
unfolding fec_encode
fec_encode-block x frame short inside parity_length =
    let n = frame.length + 32 in
    let bytes = take frame.length frame.raw in
    let parity = x.encode_rs_8 bytes (223 - frame.length) in
    let behind = drop n frame.raw in
    let fits : ltb 223 frame.length ≡ false = ground (arith, short) in
    let size : length (bytes ++ parity) ≡ n =
      omega
        (arith, length-append bytes parity, length-take frame.length frame.raw, parity_length) in
    rw fits (
      take-whiten n 0 (bytes ++ (parity ++ behind))
      ∙ ap (λ t. whiten n 0 (take n t)) (sym (append_assoc bytes parity behind))
      ∙ ap (whiten n 0) (take_exact n (bytes ++ parity) behind size))

-- What is decoded when the Reed-Solomon decoder returns a block.
fec_decode-block :
    (x : External) (received : RadioFrame) (d : Diagnostics) (m k : ℕ) (block : List ℕ)
    → m ≤ 223
    → received.length ≡ m + 32
    → length block ≡ m + 32
    → let raw = whiten received.length 0 received.raw in
      x.decode_rs_8 (take received.length raw) (223 - m) ≡ (some k, block)
      → (out : RadioFrame) × (fec_decode x received d ≡ (ok tt, out, fec_succeeded d k m))
        × (out.length ≡ m)
        × (out.raw ≡ block ++ drop received.length raw)
unfolding fec_decode
fec_decode-block x received d m k block short sent size e =
    let raw = whiten received.length 0 received.raw in
    let inside : (ltb received.length 32 || ltb 255 received.length) ≡ false = ground arith in
    let pad : 255 - received.length ≡ 223 - m = omega arith in
    let rest : received.length - 32 ≡ m = omega arith in
    let out : ℕ → RadioFrame = λ l. record {
      rx_time_ticks = received.rx_time_ticks;
      length = l;
      raw = block ++ drop received.length raw;
    } in
    let step : decoded (x.decode_rs_8 (take received.length raw) (255 - received.length))
          (drop received.length raw) received d
        ≡ (ok tt, out m, fec_succeeded d k m) =
      ap (λ o. decoded o (drop received.length raw) received d)
        (ap (x.decode_rs_8 (take received.length raw)) pad ∙ e)
      ∙ ap {B = Decoded} (λ l. (ok tt, out l, fec_succeeded d k l)) rest in
    (out m, simp inside step, refl, refl)

-- A frame is encoded that has at most 223 bytes, all of them in the memory, and is received with at
-- most 16 bytes damaged, anywhere and the parity included. The Reed-Solomon coder has 32 parity bytes and
-- corrects as many in the block of this frame. Then decoding returns the bytes of the frame and
-- its length, and counts the frame, its bytes and the number of damaged ones.
pub fec_decode-fec_encode :
    (x : External) (frame received : RadioFrame) (d : Diagnostics)
    → frame.length ≤ 223
    → frame.length ≤ length frame.raw
    → received.length ≡ frame.length + 32
    → received.length ≤ length received.raw
    → let bytes = take frame.length frame.raw in
      let parity = x.encode_rs_8 bytes (223 - frame.length) in
      let damage =
        distance
          (take received.length received.raw)
          (take received.length (fec_encode x frame).1.raw) in
      length parity ≡ 32
      → ((block : List ℕ)
          → length block ≡ frame.length + 32
          → distance block (bytes ++ parity) ≤ 16
          → x.decode_rs_8 block (223 - frame.length)
            ≡ (some (distance block (bytes ++ parity)), bytes ++ parity))
      → damage ≤ 16
      → (out : RadioFrame) × (fec_decode x received d
          ≡ (ok tt, out, fec_succeeded d damage frame.length))
        × (out.length ≡ frame.length)
        × (take out.length out.raw ≡ bytes)
fec_decode-fec_encode x frame received d short inside sent held parity_length corrects small =
    let r = received.length in
    let bytes = take frame.length frame.raw in
    let block = bytes ++ x.encode_rs_8 bytes (223 - frame.length) in
    let raw = whiten r 0 received.raw in
    let encoded : take r (fec_encode x frame).1.raw ≡ whiten r 0 block =
      ap (λ m. take m (fec_encode x frame).1.raw) sent
      ∙ fec_encode-block x frame short inside parity_length
      ∙ ap (λ m. whiten m 0 block) (sym sent) in
    let damage : distance (take r raw) block
        ≡ distance (take r received.raw) (take r (fec_encode x frame).1.raw) =
      ap (λ t. distance t block) (take-whiten r 0 received.raw)
      ∙ sym (distance-whiten r 0 (whiten r 0 (take r received.raw)) block)
      ∙ ap₂ distance (whiten-whiten r 0 (take r received.raw)) (sym encoded) in
    let taken : length (take r raw) ≡ frame.length + 32 =
      omega (arith, length-take r raw, length-whiten r 0 received.raw) in
    let size : length block ≡ frame.length + 32 = omega (
      arith,
      length-append bytes (x.encode_rs_8 bytes (223 - frame.length)),
      length-take frame.length frame.raw,
      parity_length,
    ) in
    let few : distance (take r raw) block ≤ 16 = subst (λ k. k ≤ 16) (sym damage) small in
    let repaired =
      corrects (take r raw) taken few ∙ ap {B = Option ℕ × List ℕ} (λ k. (some k, block)) damage in
    let (out, e, l, m) =
      fec_decode-block x received d frame.length _ block short sent size repaired in
    let first : take frame.length (out.raw) ≡ bytes =
      ap (take frame.length)
        (m ∙ append_assoc bytes (x.encode_rs_8 bytes (223 - frame.length)) (drop r raw))
      ∙ take_exact frame.length bytes _ (omega (arith, length-take frame.length frame.raw)) in
    (out, e, l, ap (λ k. take k out.raw) l ∙ first)
