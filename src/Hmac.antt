-- ===== src/Hmac.antt =====
-- src/hmac.c: authentication of frames. A trailer holds the first four bytes of a keyed hash, and
-- sequence numbers of 16 bits keep a frame from being accepted twice. The hash is a parameter.
pub mod Sequences
pub mod Check
use skylink.Base.{
  ℕ, zero, suc, ◌+◌, ◌-◌, ◌/◌, ◌%◌, Bool, true, false, not, ◌&&◌, Option, none, some, List, [], ◌∷◌,
  ◌++◌, if◌then◌else◌, ltb, ◌==◌, length, get_or, take, drop,
}
use skylink.Base.Int.{ℤ, pos, ltb_ℤ, eqb_ℤ}
use skylink.Base.Result.{
  Result, ok, err, Code, auth_failed, auth_missing, excessive_hmac_jump, frame_too_long_for_hmac,
  frame_too_short_for_hmac,
}
use skylink.Utilities.{hton16}
use skylink.Mac.{num_virtual_channels}
use skylink.Frame.{TransmitFrame, ParsedFrame, hmac_length, word16}
use skylink.Frame.Radio.{RadioFrame, frame_max_len, frame_bytes}
use skylink.Diag.{Diagnostics, counted}
use skylink.External.{External}

-- `SkyHMACConfig`
pub record HmacConfig : Type 0 where
  pub key_length : ℤ
  pub maximum_jump : ℤ
  pub key : List ℕ

-- `struct sky_hmac`; the context of the hash function is that function's, and `nonce_seed` is not
-- used.
pub record Hmac : Type 0 where
  pub key : List ℕ
  pub sequence_tx : ℕ → ℕ
  pub sequence_rx : ℕ → ℕ
  pub vc_enforcement_need : ℕ → ℕ

-- An array where the entry of a virtual channel is assigned.
abbrev pub assign {ℓ} : {A : Type ℓ} → (ℕ → A) → ℕ → A → ℕ → A
assign array vc v i = if i == vc then v else array i

-- `BLAKE3_KEY_LEN`; `none` stands for a failed assertion.
abbrev pub blake3_key_len : ℕ
blake3_key_len = 32

unfoldable pub create : HmacConfig → Option Hmac
create config =
    if eqb_ℤ config.key_length (pos blake3_key_len)
    then some (record {
      key = take blake3_key_len config.key;
      sequence_tx = λ _. 0;
      sequence_rx = λ _. 0;
      vc_enforcement_need = λ _. 0;
    })
    else none

-- The test admits the channel behind the last one.
unfoldable pub get_next_tx_sequence : Hmac → ℕ → ℕ × Hmac
get_next_tx_sequence hmac vc =
    let seq = hmac.sequence_tx vc in
    if ltb num_virtual_channels vc
    then (0, hmac)
    else (seq, record hmac { sequence_tx = assign hmac.sequence_tx vc ((seq + 1) % 65536) })

-- The loops over the channels from `vc` on.
unfoldable pub load_loop : ℕ → ℕ → Hmac → List ℕ → Hmac
load_loop zero vc hmac sequences = hmac
load_loop (suc n) vc hmac sequences =
    load_loop n (vc + 1)
      (record hmac {
        sequence_tx = assign hmac.sequence_tx vc (get_or sequences 0 0);
        sequence_rx = assign hmac.sequence_rx vc (get_or sequences 1 0);
      })
      (drop 2 sequences)

abbrev pub load_sequences : Hmac → List ℕ → Hmac
load_sequences hmac sequences = load_loop num_virtual_channels 0 hmac sequences

unfoldable pub dump_loop : ℕ → ℕ → Hmac → List ℕ
dump_loop zero vc hmac = []
dump_loop (suc n) vc hmac = hmac.sequence_tx vc ∷ hmac.sequence_rx vc ∷ dump_loop n (vc + 1) hmac

abbrev pub dump_sequences : Hmac → List ℕ
dump_sequences hmac = dump_loop num_virtual_channels 0 hmac

-- The first bytes of the hash under the key.
abbrev pub hash : External → Hmac → List ℕ → List ℕ
hash x hmac bytes = x.blake3_keyed hmac.key bytes hmac_length

-- The bytes `front` stand in front of the static header.
unfoldable pub extend_with_authentication :
    External → Hmac → List ℕ → TransmitFrame → Result (Unit {0}) × TransmitFrame
extend_with_authentication x hmac front tx =
    let flagged = record tx { hdr = record tx.hdr { flag_authenticated = true } } in
    let trailer = hash x hmac (take tx.length (frame_bytes front flagged)) in
    if ltb (frame_max_len - hmac_length) tx.length then (err frame_too_long_for_hmac, tx) else (
      ok tt,
      record flagged { written = tx.written ++ trailer; length = tx.length + hmac_length },
    )

-- The length of the extension is that of the bytes it has.
unfoldable pub process_ext_hmac_sequence_reset : Hmac → List ℕ → ℕ → Hmac
process_ext_hmac_sequence_reset hmac ext vc =
    if length ext == 2 + 1
    then record hmac { sequence_tx = assign hmac.sequence_tx vc (hton16 (word16 ext)) }
    else hmac

abbrev pub reset_by : Option (List ℕ) → Hmac → ℕ → Hmac
reset_by none hmac vc = hmac
reset_by (some ext) hmac vc = process_ext_hmac_sequence_reset hmac ext vc

-- `memcmp` of as many bytes as both have.
abbrev pub equal_bytes : List ℕ → List ℕ → Bool
equal_bytes [] [] = true
equal_bytes [] (b ∷ bs) = false
equal_bytes (a ∷ rest) [] = false
equal_bytes (a ∷ rest) (b ∷ bs) = (a == b) && equal_bytes rest bs

-- `SKY_CONFIG_FLAG_REQUIRE_AUTHENTICATION` and `SKY_CONFIG_FLAG_REQUIRE_SEQUENCE`
abbrev pub requires_authentication : ℕ → Bool
requires_authentication flags = flags / 2 % 2 == 1

abbrev pub requires_sequence : ℕ → Bool
requires_sequence flags = flags / 4 % 2 == 1

abbrev pub Checked : Type 0
Checked = Result (Unit {0}) × Hmac × Diagnostics × ParsedFrame

abbrev pub hmac_failed : Diagnostics → Diagnostics
hmac_failed d = record d { rx_hmac_fail = counted d.rx_hmac_fail 1 }

-- A failure that the peer is to be told of.
abbrev pub enforced : Code → Hmac → Diagnostics → ParsedFrame → Checked
enforced code hmac d parsed = (
  err code,
  record hmac { vc_enforcement_need = assign hmac.vc_enforcement_need parsed.hdr.vc 1 },
  hmac_failed d,
  parsed,
)

abbrev pub without_trailer : ParsedFrame → ParsedFrame
without_trailer parsed = record parsed {
  payload = take (length parsed.payload - hmac_length) parsed.payload;
}

-- The distance from the expected sequence, as a word.
abbrev pub jump_of : Hmac → ParsedFrame → ℕ
jump_of hmac parsed = (parsed.hdr.frame_sequence + 65536 - hmac.sequence_rx parsed.hdr.vc) % 65536

-- What follows the reset.
unfoldable pub check_sequence : ℕ → ℤ → Hmac → Diagnostics → ParsedFrame → Checked
check_sequence flags maximum_jump hmac d parsed =
    if requires_sequence flags && ltb_ℤ maximum_jump (pos (jump_of hmac parsed))
    then enforced excessive_hmac_jump hmac d parsed
    else (
      ok tt,
      record hmac {
        sequence_rx =
            assign hmac.sequence_rx parsed.hdr.vc ((parsed.hdr.frame_sequence + 1) % 65536);
      },
      d,
      without_trailer parsed,
    )

-- The hash of the frame without its trailer is the trailer.
abbrev pub is_authentic : External → Hmac → RadioFrame → Bool
is_authentic x hmac frame =
    let n = frame.length - hmac_length in
    equal_bytes (take hmac_length (drop n frame.raw)) (hash x hmac (take n frame.raw))

abbrev pub swap_sequence : ParsedFrame → ParsedFrame
swap_sequence parsed = record parsed {
  hdr = record parsed.hdr { frame_sequence = hton16 parsed.hdr.frame_sequence };
}

-- What follows the swap; the flags are those that the channel requires.
unfoldable pub check_swapped :
    External → ℕ → ℤ → Hmac → Diagnostics → RadioFrame → ParsedFrame → Checked
check_swapped x flags maximum_jump hmac d frame parsed =
    if parsed.hdr.flag_authenticated && ltb (length parsed.payload) hmac_length
    then (err frame_too_short_for_hmac, hmac, hmac_failed d, parsed)
    else if not (requires_authentication flags)
    then (ok tt, hmac, d, if parsed.hdr.flag_authenticated then without_trailer parsed else parsed)
    else if not parsed.hdr.flag_authenticated
    then enforced auth_missing hmac d parsed
    else if not (is_authentic x hmac frame)
    then enforced auth_failed hmac d parsed
    else check_sequence flags maximum_jump (reset_by parsed.hmac_reset hmac parsed.hdr.vc) d parsed

abbrev pub check_authentication :
    External → ℕ → ℤ → Hmac → Diagnostics → RadioFrame → ParsedFrame → Checked
check_authentication x flags maximum_jump hmac d frame received =
    check_swapped x flags maximum_jump hmac d frame (swap_sequence received)
