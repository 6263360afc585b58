-- ===== src/Frame/Radio.antt =====
-- The memory of a frame of src/frame.c: `SkyRadioFrame`, and the static header in it.
use skylink.Base.{
  ℕ, ◌-◌, ◌<◌, ◌≤◌, ◌≡◌, refl, sym, ap, ◌∙◌, arith, length, length-append, append_assoc, take-take,
  take_exact, drop-append, drop-take, drop, true, false, ◌+◌, ◌*◌, ◌/◌, ◌%◌, Bool, List, [], ◌∷◌,
  ◌++◌, if◌then◌else◌, ◌==◌, get_or, take, drop, replicate, none,
}
use skylink.Base.Int.{ℤ, pos}
use skylink.Frame.{StaticHeader, static_header_size, TransmitFrame, ParsedFrame, bytes16, word16}

-- `SKY_FRAME_MAX_LEN`, `SKY_FRAME_MIN_LEN`, `sizeof(frame->raw)`
abbrev pub frame_max_len : ℕ
frame_max_len = 223

abbrev pub frame_min_len : ℕ
frame_min_len = 7

abbrev pub raw_size : ℕ
raw_size = 229

-- `SkyRadioFrame`: `raw` are the bytes of the memory, of which `length` belong to the frame.
pub record RadioFrame : Type 0 where
  pub rx_time_ticks : ℤ
  pub length : ℕ
  pub raw : List ℕ

-- `sky_frame_create` and `sky_frame_clear`
abbrev pub clear : RadioFrame
clear = record { rx_time_ticks = pos 0; length = 0; raw = replicate raw_size 0 }

-- The union of the flags: a bit field is laid out from the lowest bit on.
abbrev pub bit : Bool → ℕ
bit b = if b then 1 else 0

abbrev pub flags_of : StaticHeader → ℕ
flags_of hdr =
    hdr.vc % 4
    + bit hdr.flag_arq_on * 4
    + bit hdr.flag_authenticated * 8
    + bit hdr.flag_has_payload * 16
    + hdr.sequence_control % 4 * 32

-- The static header in memory, as GNU compilers lay out the struct on a little-endian host, its
-- padding clear. The code has no encoder: it copies the struct from and to the memory of a frame.
abbrev pub header_bytes : StaticHeader → List ℕ
header_bytes hdr =
    flags_of hdr ∷ 0 ∷ 0 ∷ 0 ∷ bytes16 hdr.frame_sequence ++ (hdr.extension_length % 256 ∷ [])

-- The same layout in the other direction: the struct that a copy of the memory makes.
abbrev pub header_at : List ℕ → StaticHeader
header_at bytes =
    let flags = get_or bytes 0 0 in
    record {
      vc = flags % 4;
      flag_arq_on = flags / 4 % 2 == 1;
      flag_authenticated = flags / 8 % 2 == 1;
      flag_has_payload = flags / 16 % 2 == 1;
      sequence_control = flags / 32 % 4;
      frame_sequence = word16 (take 2 (drop 4 bytes));
      extension_length = get_or bytes 6 0;
    }

-- A parsed frame that is set to zero but for its header and payload.
abbrev pub parsed_of : StaticHeader → List ℕ → ParsedFrame
parsed_of hdr payload = record {
  hdr = hdr;
  arq_sequence = none;
  arq_request = none;
  arq_ctrl = none;
  arq_handshake = none;
  mac_tdd = none;
  hmac_reset = none;
  payload = payload;
}

-- The bytes of a frame that is written: those in front of the header, the header and what follows.
abbrev pub frame_bytes : List ℕ → TransmitFrame → List ℕ
frame_bytes front tx = front ++ (header_bytes tx.hdr ++ tx.written)

-- The memory of that frame.
abbrev pub memory_of : List ℕ → TransmitFrame → RadioFrame
memory_of front tx = record {
  rx_time_ticks = pos 0;
  length = tx.length;
  raw = take raw_size (frame_bytes front tx ++ replicate raw_size 0);
}

pub length-frame_bytes :
    (front : List ℕ) (tx : TransmitFrame)
    → length (frame_bytes front tx) ≡ length front + (static_header_size + length tx.written)
length-frame_bytes front tx = omega (arith, length-append front (header_bytes tx.hdr ++ tx.written))

-- What `n` and `k` bytes one behind the other are in the memory that begins with them.
pub take-memory :
    (n : ℕ) (bytes trailer rest : List ℕ)
    → length bytes ≡ n
    → n ≤ raw_size
    → take n (take raw_size ((bytes ++ trailer) ++ rest)) ≡ bytes
take-memory n bytes trailer rest e h =
    take-take n raw_size ((bytes ++ trailer) ++ rest) h
    ∙ ap (take n) (append_assoc bytes trailer rest)
    ∙ take_exact n bytes (trailer ++ rest) e

pub drop-memory :
    (n k : ℕ) (bytes trailer rest : List ℕ)
    → length bytes ≡ n
    → length trailer ≡ k
    → n + k ≤ raw_size
    → take k (drop n (take raw_size ((bytes ++ trailer) ++ rest))) ≡ trailer
drop-memory n k bytes trailer rest e f h =
    let behind : drop n ((bytes ++ trailer) ++ rest) ≡ trailer ++ rest =
      ap (λ m. drop m ((bytes ++ trailer) ++ rest)) (sym e)
      ∙ ap (drop (length bytes)) (append_assoc bytes trailer rest)
      ∙ drop-append bytes (trailer ++ rest) in
    ap (take k) (drop-take n raw_size ((bytes ++ trailer) ++ rest))
    ∙ take-take k (raw_size - n) (drop n ((bytes ++ trailer) ++ rest)) (omega arith)
    ∙ ap (take k) behind
    ∙ take_exact k trailer rest f

bit_small : (b : Bool) → bit b < 2
bit_small true = omega arith
bit_small false = omega arith

flag_back : (n : ℕ) (b : Bool) → n ≡ bit b → (n == 1) ≡ b
flag_back n true e = rw e refl
flag_back n false e = rw e refl

-- A static header whose fields are in their ranges is read as it was written, whatever follows.
pub header_at-header_bytes :
    (hdr : StaticHeader) (rest : List ℕ)
    → hdr.vc < 4
    → hdr.sequence_control < 4
    → hdr.frame_sequence < 65536
    → hdr.extension_length < 256
    → header_at (header_bytes hdr ++ rest) ≡ hdr
header_at-header_bytes hdr rest v c s e =
    let a = bit_small hdr.flag_arq_on in
    let b = bit_small hdr.flag_authenticated in
    let p = bit_small hdr.flag_has_payload in
    let flags = flags_of hdr in
    let vc_back : flags % 4 ≡ hdr.vc = omega arith in
    let arq_back : flags / 4 % 2 ≡ bit hdr.flag_arq_on = omega arith in
    let authenticated_back : flags / 8 % 2 ≡ bit hdr.flag_authenticated = omega arith in
    let payload_back : flags / 16 % 2 ≡ bit hdr.flag_has_payload = omega arith in
    let control_back : flags / 32 % 4 ≡ hdr.sequence_control = omega arith in
    let sequence_back : hdr.frame_sequence % 256 + hdr.frame_sequence / 256 % 256 * 256
        ≡ hdr.frame_sequence =
      omega arith in
    let length_back : hdr.extension_length % 256 ≡ hdr.extension_length = omega arith in
    λ i. record {
      vc = vc_back i;
      flag_arq_on = flag_back (flags / 4 % 2) hdr.flag_arq_on arq_back i;
      flag_authenticated = flag_back (flags / 8 % 2) hdr.flag_authenticated authenticated_back i;
      flag_has_payload = flag_back (flags / 16 % 2) hdr.flag_has_payload payload_back i;
      sequence_control = control_back i;
      frame_sequence = sequence_back i;
      extension_length = length_back i;
    }
