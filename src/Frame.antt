-- ===== src/Frame.antt =====
-- src/frame.c: the extension headers of a frame.
-- A frame's memory is the list of its bytes. A little-endian host lays a header byte out with the
-- type in its low four bits and the length in its high four.
pub mod Parse
pub mod Radio
use skylink.Base.{
  ℕ, zero, suc, ◌+◌, ◌-◌, ◌*◌, ◌/◌, ◌%◌, Bool, true, false, not, ◌||◌, Option, none, some, List, [],
  ◌∷◌, ◌++◌, if◌then◌else◌, ltb, leb, ◌==◌, length, get_or, take, drop,
}
use skylink.Base.Int.{ℤ, pos, ◌-ℤ◌, ltb_ℤ}
use skylink.Base.Result.{
  Result, ok, err, invalid_ext_length, redundant_extensions, invalid_ext_type, no_space_for_payload,
}
use skylink.Utilities.{hton16, hton32}

-- `SkyStaticHeader`
pub record StaticHeader : Type 0 where
  pub vc : ℕ
  pub flag_arq_on : Bool
  pub flag_authenticated : Bool
  pub flag_has_payload : Bool
  pub sequence_control : ℕ
  pub frame_sequence : ℕ
  pub extension_length : ℕ

-- `SkyTransmitFrame`: the header, `frame->length`, and the bytes behind the header up to `ptr`.
pub record TransmitFrame : Type 0 where
  pub hdr : StaticHeader
  pub length : ℕ
  pub written : List ℕ

-- `SkyParsedFrame`: an extension is `none` for NULL, else the bytes behind its header byte.
pub record ParsedFrame : Type 0 where
  pub hdr : StaticHeader
  pub arq_sequence : Option (List ℕ)
  pub arq_request : Option (List ℕ)
  pub arq_ctrl : Option (List ℕ)
  pub arq_handshake : Option (List ℕ)
  pub mac_tdd : Option (List ℕ)
  pub hmac_reset : Option (List ℕ)
  pub payload : List ℕ

-- `SKY_PAYLOAD_MAX_LEN`, `RS_MSGLEN`, `SKY_HMAC_LENGTH`
abbrev pub payload_max_len : ℕ
payload_max_len = 181

abbrev pub rs_msglen : ℕ
rs_msglen = 223

abbrev pub hmac_length : ℕ
hmac_length = 4

-- `sizeof(SkyStaticHeader)` with GNU compilers: the bit fields of the flags take a whole word, since
-- `packed` does not reach into the union.
abbrev pub static_header_size : ℕ
static_header_size = 7

-- A word as the host lays it out in memory, and as it reads it.
abbrev pub bytes16 : ℕ → List ℕ
bytes16 v = v % 256 ∷ v / 256 % 256 ∷ []

abbrev pub bytes32 : ℕ → List ℕ
bytes32 v = v % 256 ∷ v / 256 % 256 ∷ v / 65536 % 256 ∷ v / 16777216 % 256 ∷ []

abbrev pub word16 : List ℕ → ℕ
word16 bs = get_or bs 0 0 + get_or bs 1 0 * 256

abbrev pub word32 : List ℕ → ℕ
word32 bs = get_or bs 0 0 + get_or bs 1 0 * 256 + get_or bs 2 0 * 65536 + get_or bs 3 0 * 16777216

-- The header byte and the bytes go to the cursor, and the lengths grow; `extension_length` is
-- eight bits wide.
abbrev pub append_extension : TransmitFrame → ℕ → List ℕ → TransmitFrame
append_extension tx type bytes =
    let len = 1 + length bytes in
    record tx {
      hdr = record tx.hdr { extension_length = (tx.hdr.extension_length + len) % 256 };
      length = tx.length + len;
      written = tx.written ++ ((type + 16 * length bytes) ∷ bytes);
    }

-- `none` stands for a failed assertion.
abbrev pub checked : Bool → TransmitFrame → Option TransmitFrame
checked ok_to_write tx = if ok_to_write then some tx else none

abbrev pub has_room : TransmitFrame → ℕ → Bool
has_room tx size =
    if tx.hdr.flag_has_payload then false else ltb (tx.length + 1 + size) payload_max_len

abbrev pub has_room_control : TransmitFrame → ℕ → Bool
has_room_control tx size =
    if tx.hdr.flag_has_payload then false else ltb tx.length (payload_max_len - size)

unfoldable pub add_extension_arq_sequence : TransmitFrame → ℕ → Option TransmitFrame
add_extension_arq_sequence tx sequence =
    checked (has_room tx 1) (append_extension tx 0 (sequence ∷ []))

unfoldable pub add_extension_arq_request : TransmitFrame → ℕ → ℕ → Option TransmitFrame
add_extension_arq_request tx sequence mask =
    checked (has_room tx 3) (append_extension tx 1 (sequence ∷ bytes16 (hton16 mask)))

unfoldable pub add_extension_arq_ctrl : TransmitFrame → ℕ → ℕ → Option TransmitFrame
add_extension_arq_ctrl tx tx_sequence rx_sequence =
    checked (has_room tx 2) (append_extension tx 2 (tx_sequence ∷ rx_sequence ∷ []))

unfoldable pub add_extension_arq_handshake : TransmitFrame → ℕ → ℕ → Option TransmitFrame
add_extension_arq_handshake tx state_flag identifier =
    checked (has_room tx 5) (append_extension tx 3 (state_flag ∷ bytes32 (hton32 identifier)))

unfoldable pub add_extension_mac_tdd_control : TransmitFrame → ℕ → ℕ → Option TransmitFrame
add_extension_mac_tdd_control tx window remaining =
    checked (has_room_control tx 4)
      (append_extension tx 4 (bytes16 (hton16 window) ++ bytes16 (hton16 remaining)))

unfoldable pub add_extension_hmac_sequence_reset : TransmitFrame → ℕ → Option TransmitFrame
add_extension_hmac_sequence_reset tx sequence =
    checked (has_room_control tx 2) (append_extension tx 5 (bytes16 (hton16 sequence)))

unfoldable pub get_space_left : ℕ → ℤ
get_space_left frame_length = pos rs_msglen -ℤ pos (frame_length + hmac_length)

-- `none` stands for a failed assertion.
unfoldable pub extend_with_payload :
    TransmitFrame → List ℕ → Option (Result (Unit {0}) × TransmitFrame)
extend_with_payload tx payload =
    if tx.hdr.flag_has_payload
    then none
    else if ltb_ℤ (get_space_left tx.length) (pos (length payload))
    then some (err no_space_for_payload, tx)
    else some (
      ok tt,
      record tx {
        written = tx.written ++ payload;
        length = tx.length + length payload;
        hdr = record tx.hdr { flag_has_payload = true };
      },
    )

-- The checks of one extension of `size` bytes: the field it goes to, its length and its bytes.
abbrev pub note : Option (List ℕ) → ℕ → ℕ → List ℕ → Result (List ℕ)
note (some old) size len bytes = err redundant_extensions
note none size len bytes = if len == size then ok bytes else err invalid_ext_length

abbrev pub noted : Result (List ℕ) → (List ℕ → ParsedFrame) → Result ParsedFrame
noted (err e) f = err e
noted (ok bytes) f = ok (f bytes)

-- The switch on the extension's type.
unfoldable pub parse_extension : ParsedFrame → ℕ → ℕ → List ℕ → Result ParsedFrame
parse_extension p type len bytes =
    if type == 0
    then noted (note p.arq_sequence 1 len bytes) (λ bs. record p { arq_sequence = some bs })
    else if type == 1
    then noted (note p.arq_request 3 len bytes) (λ bs. record p { arq_request = some bs })
    else if type == 2
    then noted (note p.arq_ctrl 2 len bytes) (λ bs. record p { arq_ctrl = some bs })
    else if type == 3
    then noted (note p.arq_handshake 5 len bytes) (λ bs. record p { arq_handshake = some bs })
    else if type == 4
    then noted (note p.mac_tdd 4 len bytes) (λ bs. record p { mac_tdd = some bs })
    else if type == 5
    then noted (note p.hmac_reset 2 len bytes) (λ bs. record p { hmac_reset = some bs })
    else err invalid_ext_type

-- The loop over the extensions on fuel; the bytes are those from the cursor on. It goes on as long
-- as there was no error.
unfoldable pub parse_loop : ℕ → ℕ → ℕ → List ℕ → ℕ → Result ParsedFrame → Result ParsedFrame
parse_loop zero cursor end raw frame_length p = p
parse_loop (suc f) cursor end raw frame_length (err e) = err e
parse_loop (suc f) cursor end raw frame_length (ok p) =
    let head = get_or raw cursor 0 in
    let len = head / 16 % 16 in
    let next = cursor + 1 + len in
    let rest =
      parse_loop f next end raw frame_length
        (parse_extension p (head % 16) len (take len (drop (cursor + 1) raw))) in
    if leb end cursor then ok p else if ltb frame_length next then err invalid_ext_length else rest

-- Every round moves the cursor, so that the extension length is fuel enough.
unfoldable pub parse_extension_headers : List ℕ → ℕ → ParsedFrame → Result ParsedFrame
parse_extension_headers raw frame_length p =
    let cursor = 1 + get_or raw 0 0 % 8 + static_header_size in
    let end = cursor + p.hdr.extension_length in
    if ltb frame_length end
    then err invalid_ext_length
    else parse_loop (p.hdr.extension_length + 1) cursor end raw frame_length (ok p)
