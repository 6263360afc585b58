-- ===== src/Crc/Trailer.antt =====
-- The trailer that src/crc.c writes behind a frame and checks.
use skylink.Base.{
  ℕ, ◌+◌, ◌-◌, ◌^◌, ◌<◌, ◌≤◌, ◌≡◌, ◌≢◌, refl, sym, ap, ◌∙◌, arith, List, ◌++◌, ltb, ◌==◌, ==_iff,
  ==_of_ne, true, false, length, take, drop, length-take, take_exact, drop-append,
}
use skylink.Base.Result.{ok, err, crc_invalid_checksum}
use skylink.Utilities.{hton32}
use skylink.Frame.{bytes32, word32}
use skylink.Frame.Radio.{RadioFrame}
use skylink.Crc.{crc32, extend_with_crc32, check_crc32}
use skylink.Crc.Reference.{crc32_bound}

-- A checksum is read back as it was written.
trailer_back : (v : ℕ) → v < 2 ^ 32 → hton32 (word32 (bytes32 (hton32 v))) ≡ v
unfolding hton32
trailer_back v h = omega arith

take_of :
    (n : ℕ) (bytes trailer rest : List ℕ)
    → length bytes ≡ n
    → take n (bytes ++ (trailer ++ rest)) ≡ bytes
take_of n bytes trailer rest e = take_exact n bytes (trailer ++ rest) e

drop_of :
    (n k : ℕ) (bytes trailer rest : List ℕ)
    → length bytes ≡ n
    → length trailer ≡ k
    → take k (drop n (bytes ++ (trailer ++ rest))) ≡ trailer
drop_of n k bytes trailer rest e f =
    ap (λ m. take k (drop m (bytes ++ (trailer ++ rest)))) (sym e)
    ∙ ap (take k) (drop-append bytes (trailer ++ rest))
    ∙ take_exact k trailer rest f

-- A frame of at most 219 bytes, all of them in the memory, that is extended with its checksum passes
-- the check, which gives it its length back and leaves its bytes.
pub check_crc32-extend_with_crc32 :
    (frame : RadioFrame)
    → frame.length ≤ 219
    → frame.length ≤ length frame.raw
    → let checked = check_crc32 (extend_with_crc32 frame).1 in
      (checked.0 ≡ ok tt)
      × (checked.1.length ≡ frame.length)
      × (take frame.length checked.1.raw ≡ take frame.length frame.raw)
unfolding check_crc32 extend_with_crc32
check_crc32-extend_with_crc32 frame short inside =
    let n = frame.length in
    let bytes = take n frame.raw in
    let trailer = bytes32 (hton32 (crc32 bytes)) in
    let rest = drop (n + 4) frame.raw in
    let raw = bytes ++ (trailer ++ rest) in
    let size : length bytes ≡ n = omega (arith, length-take n frame.raw) in
    let fits : ltb 219 n ≡ false = ground (arith, short) in
    let long : ltb (n + 4) 4 ≡ false = ground arith in
    let back : n + 4 - 4 ≡ n = omega arith in
    let received : hton32 (word32 (take 4 (drop n raw))) ≡ crc32 bytes =
      ap (λ t. hton32 (word32 t)) (drop_of n 4 bytes trailer rest size refl)
      ∙ trailer_back (crc32 bytes) (crc32_bound bytes) in
    let calculated : crc32 (take n raw) ≡ crc32 bytes =
      ap crc32 (take_of n bytes trailer rest size) in
    let match : (hton32 (word32 (take 4 (drop n raw))) == crc32 (take n raw)) ≡ true =
      (==_iff _ _).1 (received ∙ sym calculated) in
    rw (fits, long, back, match) (refl, refl, take_of n bytes trailer rest size)

-- A frame whose last four bytes are not the checksum of those before is refused, and left as it is.
pub check_crc32-refuses :
    (frame : RadioFrame)
    → 4 ≤ frame.length
    → hton32 (word32 (take 4 (drop (frame.length - 4) frame.raw)))
      ≢ crc32 (take (frame.length - 4) frame.raw)
    → check_crc32 frame ≡ (err crc_invalid_checksum, frame)
unfolding check_crc32
check_crc32-refuses frame long other =
    let enough : ltb frame.length 4 ≡ false = ground (arith, long) in
    rw (enough, ==_of_ne _ _ other) refl
