-- ===== src/Fec.antt =====
-- src/fec.c: forward error correction of a frame. The bytes and their Reed-Solomon parity are
-- whitened with a fixed sequence. The Reed-Solomon coder is a parameter.
pub mod RoundTrip
use Prim.Native.Nat.{bit_xor}
use skylink.Base.{
  ℕ, zero, suc, ◌+◌, ◌-◌, ◌%◌, ◌||◌, Option, none, some, List, [], ◌∷◌, ◌++◌, if◌then◌else◌, ltb,
  length, get_or, take, drop,
}
use skylink.Base.Result.{Result, ok, err, rs_invalid_length, rs_failed}
use skylink.Frame.{rs_msglen}
use skylink.Frame.Radio.{RadioFrame}
use skylink.Diag.{Diagnostics, counted}
use skylink.External.{External}

-- `RS_PARITYS`
abbrev pub rs_paritys : ℕ
rs_paritys = 32

abbrev pub whitening : List ℕ
whitening =
    0xff ∷ 0x48 ∷ 0x0e ∷ 0xc0 ∷ 0x9a ∷ 0x0d ∷ 0x70 ∷ 0xbc ∷ 0x8e ∷ 0x2c ∷ 0x93 ∷ 0xad ∷ 0xa7 ∷ 0xb7
    ∷ 0x46 ∷ 0xce ∷ 0x5a ∷ 0x97 ∷ 0x7d ∷ 0xcc ∷ 0x32 ∷ 0xa2 ∷ 0xbf ∷ 0x3e ∷ 0x0a ∷ 0x10 ∷ 0xf1
    ∷ 0x88 ∷ 0x94 ∷ 0xcd ∷ 0xea ∷ 0xb1 ∷ 0xfe ∷ 0x90 ∷ 0x1d ∷ 0x81 ∷ 0x34 ∷ 0x1a ∷ 0xe1 ∷ 0x79
    ∷ 0x1c ∷ 0x59 ∷ 0x27 ∷ 0x5b ∷ 0x4f ∷ 0x6e ∷ 0x8d ∷ 0x9c ∷ 0xb5 ∷ 0x2e ∷ 0xfb ∷ 0x98 ∷ 0x65
    ∷ 0x45 ∷ 0x7e ∷ 0x7c ∷ 0x14 ∷ 0x21 ∷ 0xe3 ∷ 0x11 ∷ 0x29 ∷ 0x9b ∷ 0xd5 ∷ 0x63 ∷ 0xfd ∷ 0x20
    ∷ 0x3b ∷ 0x02 ∷ 0x68 ∷ 0x35 ∷ 0xc2 ∷ 0xf2 ∷ 0x38 ∷ 0xb2 ∷ 0x4e ∷ 0xb6 ∷ 0x9e ∷ 0xdd ∷ 0x1b
    ∷ 0x39 ∷ 0x6a ∷ 0x5d ∷ 0xf7 ∷ 0x30 ∷ 0xca ∷ 0x8a ∷ 0xfc ∷ 0xf8 ∷ 0x28 ∷ 0x43 ∷ 0xc6 ∷ 0x22
    ∷ 0x53 ∷ 0x37 ∷ 0xaa ∷ 0xc7 ∷ 0xfa ∷ 0x40 ∷ 0x76 ∷ 0x04 ∷ 0xd0 ∷ 0x6b ∷ 0x85 ∷ 0xe4 ∷ 0x71
    ∷ 0x64 ∷ 0x9d ∷ 0x6d ∷ 0x3d ∷ 0xba ∷ 0x36 ∷ 0x72 ∷ 0xd4 ∷ 0xbb ∷ 0xee ∷ 0x61 ∷ 0x95 ∷ 0x15
    ∷ 0xf9 ∷ 0xf0 ∷ 0x50 ∷ 0x87 ∷ 0x8c ∷ 0x44 ∷ 0xa6 ∷ 0x6f ∷ 0x55 ∷ 0x8f ∷ 0xf4 ∷ 0x80 ∷ 0xec
    ∷ 0x09 ∷ 0xa0 ∷ 0xd7 ∷ 0x0b ∷ 0xc8 ∷ 0xe2 ∷ 0xc9 ∷ 0x3a ∷ 0xda ∷ 0x7b ∷ 0x74 ∷ 0x6c ∷ 0xe5
    ∷ 0xa9 ∷ 0x77 ∷ 0xdc ∷ 0xc3 ∷ 0x2a ∷ 0x2b ∷ 0xf3 ∷ 0xe0 ∷ 0xa1 ∷ 0x0f ∷ 0x18 ∷ 0x89 ∷ 0x4c
    ∷ 0xde ∷ 0xab ∷ 0x1f ∷ 0xe9 ∷ 0x01 ∷ 0xd8 ∷ 0x13 ∷ 0x41 ∷ 0xae ∷ 0x17 ∷ 0x91 ∷ 0xc5 ∷ 0x92
    ∷ 0x75 ∷ 0xb4 ∷ 0xf6 ∷ 0xe8 ∷ 0xd9 ∷ 0xcb ∷ 0x52 ∷ 0xef ∷ 0xb9 ∷ 0x86 ∷ 0x54 ∷ 0x57 ∷ 0xe7
    ∷ 0xc1 ∷ 0x42 ∷ 0x1e ∷ 0x31 ∷ 0x12 ∷ 0x99 ∷ 0xbd ∷ 0x56 ∷ 0x3f ∷ 0xd2 ∷ 0x03 ∷ 0xb0 ∷ 0x26
    ∷ 0x83 ∷ 0x5c ∷ 0x2f ∷ 0x23 ∷ 0x8b ∷ 0x24 ∷ 0xeb ∷ 0x69 ∷ 0xed ∷ 0xd1 ∷ 0xb3 ∷ 0x96 ∷ 0xa5
    ∷ 0xdf ∷ 0x73 ∷ 0x0c ∷ 0xa8 ∷ 0xaf ∷ 0xcf ∷ 0x82 ∷ 0x84 ∷ 0x3c ∷ 0x62 ∷ 0x25 ∷ 0x33 ∷ 0x7a
    ∷ 0xac ∷ 0x7f ∷ 0xa4 ∷ 0x07 ∷ 0x60 ∷ 0x4d ∷ 0x06 ∷ 0xb8 ∷ 0x5e ∷ 0x47 ∷ 0x16 ∷ 0x49 ∷ 0xd6
    ∷ 0xd3 ∷ 0xdb ∷ 0xa3 ∷ 0x67 ∷ 0x2d ∷ 0x4b ∷ 0xbe ∷ 0xe6 ∷ 0x19 ∷ 0x51 ∷ 0x5f ∷ 0x9f ∷ 0x05
    ∷ 0x08 ∷ 0x78 ∷ 0xc4 ∷ 0x4a ∷ 0x66 ∷ 0xf5 ∷ 0x58 ∷ 0xff ∷ []

-- The loop that whitens `n` bytes of the memory from its index `i` on.
unfoldable pub whiten : ℕ → ℕ → List ℕ → List ℕ
whiten zero i raw = raw
whiten (suc n) i [] = []
whiten (suc n) i (b ∷ raw) = bit_xor b (get_or whitening (i % 256) 0) ∷ whiten n (i + 1) raw

abbrev pub fec_failed : Diagnostics → Diagnostics
fec_failed d = record d { rx_fec_fail = counted d.rx_fec_fail 1 }

-- The counters of a frame of `n` bytes without the parity, of which `errors` were corrected.
abbrev pub fec_succeeded : Diagnostics → ℕ → ℕ → Diagnostics
fec_succeeded d errors n = record d {
  rx_fec_ok = counted d.rx_fec_ok 1;
  rx_fec_errs = counted d.rx_fec_errs errors;
  rx_fec_octs = counted d.rx_fec_octs (n + rs_paritys);
}

abbrev pub Decoded : Type 0
Decoded = Result (Unit {0}) × RadioFrame × Diagnostics

-- What follows the Reed-Solomon decoder, which works on the first bytes of the memory.
abbrev pub decoded : Option ℕ × List ℕ → List ℕ → RadioFrame → Diagnostics → Decoded
decoded (none, block) behind frame d =
    (err rs_failed, record frame { raw = block ++ behind }, fec_failed d)
decoded (some errors, block) behind frame d = (
  ok tt,
  record frame { raw = block ++ behind; length = frame.length - rs_paritys },
  fec_succeeded d errors (frame.length - rs_paritys),
)

unfoldable pub fec_decode : External → RadioFrame → Diagnostics → Decoded
fec_decode x frame d =
    let raw = whiten frame.length 0 frame.raw in
    if ltb frame.length rs_paritys || ltb (rs_msglen + rs_paritys) frame.length
    then (err rs_invalid_length, frame, d)
    else decoded (x.decode_rs_8 (take frame.length raw) (rs_msglen + rs_paritys - frame.length))
        (drop frame.length raw) frame d

-- The parity is written behind the bytes of the frame.
unfoldable pub fec_encode : External → RadioFrame → Result (Unit {0}) × RadioFrame
fec_encode x frame =
    let bytes = take frame.length frame.raw in
    let n = frame.length + rs_paritys in
    let coded = bytes ++ (x.encode_rs_8 bytes (rs_msglen - frame.length) ++ drop n frame.raw) in
    if ltb rs_msglen frame.length
    then (err rs_invalid_length, frame)
    else (ok tt, record frame { raw = whiten n 0 coded; length = n })
