-- ===== src/Crc/Reference.antt =====
-- The checksum of src/crc.c, which a table computes, as a division bit by bit.
use Prim.Native.Nat.{bit_xor}
use skylink.Base.{
  ℕ, zero, suc, ◌+◌, ◌*◌, ◌/◌, ◌%◌, ◌^◌, ◌<◌, ◌≡◌, refl, sym, ap, ap₂, ◌∙◌, arith, List, [], ◌∷◌,
  if◌then◌else◌, ◌==◌, get_or, Bool-cases, inl, inr,
}
use skylink.Base.Bits.{
  bit_xor_step, bit_xor_half, bit_xor_parity, bit_xor_assoc, bit_xor-zero, bit_xor_bound,
}
use native.Mathlib.Nat.{pow-suc}
use skylink.Crc.{crc32_init, crc32_inverse, crc32_table, crc_round, crc_loop, crc32}

-- The polynomial 0x04C11DB7, its bits reflected.
abbrev pub polynomial : ℕ
polynomial = 0xedb88320

-- One bit goes out at the low end.
abbrev pub crc_bit : ℕ → ℕ
crc_bit v = bit_xor (v / 2) (if v % 2 == 1 then polynomial else 0)

abbrev pub crc_bits : ℕ → ℕ → ℕ
crc_bits zero v = v
crc_bits (suc n) v = crc_bits n (crc_bit v)

-- The remainder with no table: eight bits of each byte.
abbrev pub reference_loop : ℕ → List ℕ → ℕ
reference_loop crc [] = crc
reference_loop crc (byte ∷ buf) = reference_loop (crc_bits 8 (bit_xor crc byte)) buf

abbrev pub AllBytes : List ℕ → Type 0
AllBytes [] = Unit {0}
AllBytes (byte ∷ buf) = (byte < 256) × AllBytes buf

abbrev entries : ℕ → ℕ → List ℕ
entries zero i = []
entries (suc n) i = crc_bits 8 i ∷ entries n (i + 1)

crc32_table-entries : crc32_table ≡ entries 256 0
crc32_table-entries = refl

get_or-entries : (n i j : ℕ) → j < n → get_or (entries n i) j 0 ≡ crc_bits 8 (i + j)
get_or-entries zero i j h = absurd (omega arith)
get_or-entries (suc n) i zero h = ap (crc_bits 8) (omega arith)
get_or-entries (suc n) i (suc j) h =
    let e : i + 1 + j ≡ i + suc j = omega arith in
    get_or-entries n (i + 1) j (omega arith) ∙ ap (crc_bits 8) e

table_entry : (j : ℕ) → j < 256 → get_or crc32_table j 0 ≡ crc_bits 8 j
table_entry j h = let e : 0 + j ≡ j = omega arith in get_or-entries 256 0 j h ∙ ap (crc_bits 8) e

abbrev halved : ℕ → ℕ → ℕ
halved zero a = a
halved (suc n) a = halved n (a / 2)

halved-bit_xor : (n a b : ℕ) → halved n (bit_xor a b) ≡ bit_xor (halved n a) (halved n b)
halved-bit_xor zero a b = refl
halved-bit_xor (suc n) a b = ap (halved n) (bit_xor_half a b) ∙ halved-bit_xor n (a / 2) (b / 2)

-- A byte changes only the low eight bits.
high_bits : (crc byte : ℕ) → byte < 256 → bit_xor crc byte / 256 ≡ crc / 256
high_bits crc byte h =
    let l : bit_xor crc byte / 256 ≡ halved 8 (bit_xor crc byte) = omega arith in
    let m : halved 8 byte ≡ 0 = omega arith in
    let r : halved 8 crc ≡ crc / 256 = omega arith in
    l ∙ halved-bit_xor 8 crc byte ∙ ap (bit_xor (halved 8 crc)) m ∙ bit_xor-zero (halved 8 crc) ∙ r

fields : (k q r : ℕ) → r < 2 ^ k → bit_xor (q * 2 ^ k) r ≡ q * 2 ^ k + r
fields zero q r h =
    let none_left : r ≡ 0 = omega arith in
    ap (bit_xor (q * 1)) none_left ∙ bit_xor-zero (q * 1) ∙ omega (arith, none_left)
fields (suc k) q r h =
    let twice : q * 2 ^ suc k ≡ 2 * (q * 2 ^ k) =
      omega (arith, ap (λ (t : ℕ). q * t) (pow-suc 2 k)) in
    let half : q * 2 ^ suc k / 2 ≡ q * 2 ^ k = omega (arith, twice) in
    let rest = fields k q (r / 2) (omega (arith, pow-suc 2 k)) in
    omega (arith, bit_xor_step (q * 2 ^ suc k) r, ap (λ t. bit_xor t (r / 2)) half, rest, twice)

-- What is above the bit that goes out takes no part in it.
crc_bit-bit_xor : (h m : ℕ) → crc_bit (bit_xor (2 * h) m) ≡ bit_xor h (crc_bit m)
crc_bit-bit_xor h m =
    let half : bit_xor (2 * h) m / 2 ≡ bit_xor h (m / 2) =
      bit_xor_half (2 * h) m
      ∙ ap (λ t. bit_xor t (m / 2)) (let e : 2 * h / 2 ≡ h = omega arith in e) in
    let parity : bit_xor (2 * h) m % 2 ≡ m % 2 = omega (arith, bit_xor_parity (2 * h) m) in
    ap₂ (λ t u. bit_xor t (if u == 1 then polynomial else 0)) half parity
    ∙ bit_xor_assoc h (m / 2) (if m % 2 == 1 then polynomial else 0)

crc_bits-bit_xor : (n h m : ℕ) → crc_bits n (bit_xor (h * 2 ^ n) m) ≡ bit_xor h (crc_bits n m)
crc_bits-bit_xor zero h m = ap (λ t. bit_xor t m) (omega arith)
crc_bits-bit_xor (suc n) h m =
    let twice : h * 2 ^ suc n ≡ 2 * (h * 2 ^ n) =
      omega (arith, ap (λ (t : ℕ). h * t) (pow-suc 2 n)) in
    ap (λ t. crc_bits n (crc_bit (bit_xor t m))) twice
    ∙ ap (crc_bits n) (crc_bit-bit_xor (h * 2 ^ n) m)
    ∙ crc_bits-bit_xor n h (crc_bit m)

-- A round of the table is eight bits.
crc_round-crc_bits :
    (crc byte : ℕ) → byte < 256 → crc_round crc byte ≡ crc_bits 8 (bit_xor crc byte)
unfolding crc_round
crc_round-crc_bits crc byte h =
    let v = bit_xor crc byte in
    let low = v % 256 in
    let split : bit_xor (v / 256 * 2 ^ 8) low ≡ v =
      fields 8 (v / 256) low (omega arith) ∙ omega arith in
    ap₂ bit_xor (sym (high_bits crc byte h)) (table_entry low (omega arith))
    ∙ sym (crc_bits-bit_xor 8 (v / 256) low)
    ∙ ap (crc_bits 8) split

crc_loop-reference :
    (crc : ℕ) (buf : List ℕ) → AllBytes buf → crc_loop crc buf ≡ reference_loop crc buf
unfolding crc_loop
crc_loop-reference crc [] b = refl
crc_loop-reference crc (byte ∷ buf) (b, bs) =
    ap (λ c. crc_loop c buf) (crc_round-crc_bits crc byte b)
    ∙ crc_loop-reference (crc_bits 8 (bit_xor crc byte)) buf bs

-- The checksum of bytes is what the division by the polynomial leaves, computed bit by bit and
-- without the table, from all ones on and inverted at the end.
pub crc32-reference_loop :
    (buf : List ℕ) → AllBytes buf → crc32 buf ≡ bit_xor (reference_loop 0xffffffff buf) 0xffffffff
unfolding crc32
crc32-reference_loop buf b = ap (λ c. bit_xor c crc32_inverse) (crc_loop-reference crc32_init buf b)

crc_bit_bound : (v : ℕ) → v < 2 ^ 32 → crc_bit v < 2 ^ 32
crc_bit_bound v h = elim (Bool-cases (v % 2 == 1)) [
  | inl one ↦ rw one (bit_xor_bound 32 (v / 2) polynomial (omega arith) (omega arith))
  | inr even ↦ rw even (bit_xor_bound 32 (v / 2) 0 (omega arith) (omega arith))
]

crc_bits_bound : (n v : ℕ) → v < 2 ^ 32 → crc_bits n v < 2 ^ 32
crc_bits_bound zero v h = h
crc_bits_bound (suc n) v h = crc_bits_bound n (crc_bit v) (crc_bit_bound v h)

crc_loop_bound : (crc : ℕ) (buf : List ℕ) → crc < 2 ^ 32 → crc_loop crc buf < 2 ^ 32
unfolding crc_loop crc_round
crc_loop_bound crc [] h = h
crc_loop_bound crc (byte ∷ buf) h =
    let low = bit_xor crc byte % 256 in
    let entry : get_or crc32_table low 0 < 2 ^ 32 =
      omega (arith, table_entry low (omega arith), crc_bits_bound 8 low (omega arith)) in
    crc_loop_bound (crc_round crc byte) buf
      (bit_xor_bound 32 (crc / 256) (get_or crc32_table low 0) (omega arith) entry)

pub crc32_bound : (buf : List ℕ) → crc32 buf < 2 ^ 32
unfolding crc32
crc32_bound buf =
    bit_xor_bound 32 (crc_loop crc32_init buf) crc32_inverse
      (crc_loop_bound crc32_init buf (omega arith)) (omega arith)
