-- ===== src/Tests/Coding.antt =====
-- The properties of error correction, checksums and authentication at concrete inputs.
use Prim.Native.Nat.{bit_xor}
use skylink.Base.{
  ℕ, ◌%◌, ◌≡◌, refl, arith, true, some, List, [], ◌∷◌, ◌++◌, length, take, set, replicate,
}
use skylink.Base.Int.{pos}
use skylink.Base.Result.{Code, ok, err}
use skylink.Utilities.{hton16}
use skylink.Frame.{TransmitFrame, ParsedFrame}
use skylink.Frame.Radio.{RadioFrame, memory_of}
use skylink.Diag as Diagnosis
use skylink.External.{External}
use skylink.Hmac.{
  Hmac, check_authentication, check_swapped, check_sequence, extend_with_authentication,
  without_trailer, swap_sequence,
}
use skylink.Hmac.Check.{check_authentication_replay}
use skylink.Fec.{whiten, fec_encode, fec_decode, fec_succeeded}
use skylink.Fec.RoundTrip.{distance, fec_decode-fec_encode}
use skylink.Crc.{crc_round, crc_loop, crc32, extend_with_crc32, check_crc32}
use skylink.Crc.Reference.{reference_loop, crc32-reference_loop}
use skylink.Crc.Trailer.{check_crc32-extend_with_crc32}
use skylink.Tests.Link.{header, parsed, frame}

abbrev pub plain : RadioFrame
plain = record {
  rx_time_ticks = pos 7;
  length = 12;
  raw = 99 ∷ 2 ∷ 3 ∷ 4 ∷ 5 ∷ 0 ∷ 0 ∷ 0 ∷ 0 ∷ 0 ∷ 0 ∷ 42 ∷ replicate 217 0;
}

abbrev pub block : List ℕ
block = take 12 plain.raw ++ replicate 32 0

-- A hash of the length, a parity of zeros, a decoder that knows one block, and words that are
-- their own code.
abbrev pub coders : External
coders = record {
  blake3_keyed = λ key bytes n. replicate n (length bytes % 256);
  encode_rs_8 = λ bytes pad. replicate 32 0;
  decode_rs_8 = λ received pad. (some (distance received block), block);
  encode_golay24 = λ word. word;
  decode_golay24 = λ word. some word;
}

-- Two bytes are damaged.
abbrev damaged : RadioFrame
damaged = record {
  rx_time_ticks = pos 9;
  length = 44;
  raw = set (set (fec_encode coders plain).1.raw 3 255) 40 255;
}

fec_decode-fec_encode_example :
    (out : RadioFrame) × (fec_decode coders damaged Diagnosis.create
      ≡ (ok tt, out, fec_succeeded Diagnosis.create 2 12))
    × (out.length ≡ 12)
    × (take out.length out.raw ≡ 99 ∷ 2 ∷ 3 ∷ 4 ∷ 5 ∷ 0 ∷ 0 ∷ 0 ∷ 0 ∷ 0 ∷ 0 ∷ 42 ∷ [])
unfolding fec_encode whiten
fec_decode-fec_encode_example =
    fec_decode-fec_encode coders plain damaged Diagnosis.create (omega arith) (omega arith) refl
      (omega arith) refl (λ received l d. refl) (omega arith)

-- The check value of the polynomial.
crc32_check : crc32 (0x31 ∷ 0x32 ∷ 0x33 ∷ 0x34 ∷ 0x35 ∷ 0x36 ∷ 0x37 ∷ 0x38 ∷ 0x39 ∷ []) ≡ 0xcbf43926
unfolding crc32 crc_loop crc_round
crc32_check = refl

crc32-reference_loop_example :
    crc32 (0x31 ∷ 0xff ∷ []) ≡ bit_xor (reference_loop 0xffffffff (0x31 ∷ 0xff ∷ [])) 0xffffffff
crc32-reference_loop_example =
    crc32-reference_loop (0x31 ∷ 0xff ∷ []) (omega arith, (omega arith, tt))

check_crc32-extend_with_crc32_example :
    let checked = check_crc32 (extend_with_crc32 plain).1 in
    (checked.0 ≡ ok tt)
    × (checked.1.length ≡ 12)
    × (take 12 checked.1.raw ≡ 99 ∷ 2 ∷ 3 ∷ 4 ∷ 5 ∷ 0 ∷ 0 ∷ 0 ∷ 0 ∷ 0 ∷ 0 ∷ 42 ∷ [])
check_crc32-extend_with_crc32_example =
    check_crc32-extend_with_crc32 plain (omega arith) (omega arith)

abbrev pub hmac : Hmac
hmac = record {
  key = 1 ∷ 2 ∷ 3 ∷ [];
  sequence_tx = λ vc. 300;
  sequence_rx = λ vc. 500;
  vc_enforcement_need = λ vc. 0;
}

-- A frame of the channel 1 with the sequence 501 in network byte order, as it is parsed.
abbrev received : ParsedFrame
received = record (parsed 0) {
  hdr = record (header 0) {
    flag_authenticated = true;
    flag_has_payload = true;
    frame_sequence = 62721;
  };
  payload = 42 ∷ 15 ∷ 15 ∷ 15 ∷ 15 ∷ [];
}

abbrev fronts : List ℕ
fronts = 99 ∷ 1 ∷ 2 ∷ 3 ∷ []

abbrev sent : TransmitFrame
sent = record frame {
  hdr = record (header 0) { flag_has_payload = true; frame_sequence = 62721 };
  length = 12;
  written = 42 ∷ [];
}

abbrev authentic : RadioFrame
authentic = memory_of fronts (extend_with_authentication coders hmac fronts sent).1

abbrev after : Hmac
after = (check_authentication coders 7 (pos 24) hmac Diagnosis.create authentic received).1

check_authentication_replay_example :
    (e : Code) × ((check_authentication coders 7
        (pos 24)
        after
        Diagnosis.create
        authentic
        received).0
      ≡ err e)
unfolding hton16 extend_with_authentication check_swapped check_sequence
check_authentication_replay_example =
    check_authentication_replay coders 7 24 0 hmac after Diagnosis.create Diagnosis.create
      Diagnosis.create authentic authentic received (without_trailer (swap_sequence received))
      received refl refl (omega arith) refl refl refl
