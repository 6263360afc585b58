-- ===== src/Rx.antt =====
-- src/skylink_rx.c: a frame is received. The time of the global clock is an argument. An index at
-- or behind the end of a frame's memory reads zero.
pub mod Channels
use Prim.Native.Nat.{bit_and}
use skylink.Base.{
  ℕ, zero, suc, ◌+◌, ◌-◌, ◌*◌, ◌%◌, Bool, true, false, not, ◌&&◌, ◌||◌, Option, none, some, List,
  [], if◌then◌else◌, ltb, ◌==◌, length, get_or, set, take, drop,
}
use skylink.Base.Int.{ℤ, pos}
use skylink.Base.Result.{
  Result, ok, err, invalid_plain_length, invalid_encoded_length, invalid_version,
  filtered_by_identity, invalid_ext_length, golay_failed, unnamed_failure,
}
use skylink.Utilities.{hton16}
use skylink.Frame.{ParsedFrame, static_header_size, word16, parse_extension_headers}
use skylink.Frame.Radio.{RadioFrame, frame_min_len, raw_size, header_at, parsed_of}
use skylink.Mac.{Mac, update_belief}
use skylink.Hmac.{Checked, check_authentication, assign, equal_bytes}
use skylink.Fec.{rs_paritys, Decoded, fec_decode, fec_failed}
use skylink.Diag.{Diagnostics, counted, count_vc_rx}
use skylink.ReliableVc.{VirtualChannel}
use skylink.ReliableVc.Frames.{process_frame}
use skylink.External.{External}
use skylink.Node.{SkyAll, Config}

-- The result and the instance.
abbrev pub Received : Type 0
Received = Result (Unit {0}) × SkyAll

-- A window and what remains of it, as a peer has sent them.
abbrev pub believe : Option (List ℕ) → Mac → ℤ → ℤ → Bool → Mac
believe none mac now rx_time_ticks authenticated = mac
believe (some tdd) mac now rx_time_ticks authenticated =
    if mac.config.unauthenticated_mac_updates == 0 && not authenticated
    then mac
    else update_belief mac now rx_time_ticks (pos (hton16 (word16 tdd)))
        (pos (hton16 (word16 (drop 2 tdd))))

abbrev pub process_ext_mac_control : Mac → ℤ → ℤ → ParsedFrame → Mac
process_ext_mac_control mac now rx_time_ticks parsed =
    believe parsed.mac_tdd mac now rx_time_ticks parsed.hdr.flag_authenticated

-- The result of `sky_vc_process_frame`, which is 0 or a bare -1.
abbrev pub process_result : Bool → Result (Unit {0})
process_result true = ok tt
process_result false = err unnamed_failure

-- The channel takes the frame. What it has taken of a frame that it refuses stays.
abbrev pub processed : SkyAll → ℕ → Bool × VirtualChannel → Received
processed node vc (done, channel) = (
  process_result done,
  record node { virtual_channels = assign node.virtual_channels vc channel },
)

-- What follows the check of the authentication.
abbrev pub rx_checked : SkyAll → ℤ → Checked → ℤ → Received
rx_checked node rx_time_ticks (err e, hmac, d, parsed) now =
    (err e, record node { hmac = hmac; diag = d })
rx_checked node rx_time_ticks (ok tt, hmac, d, parsed) now =
    let vc = parsed.hdr.vc in
    processed
      (record node {
        hmac = hmac;
        diag = count_vc_rx d vc;
        mac = process_ext_mac_control node.mac now rx_time_ticks parsed;
      })
      vc (process_frame (node.virtual_channels vc) parsed now now)

-- What follows the parser.
abbrev pub rx_parsed : External → SkyAll → RadioFrame → Result ParsedFrame → ℤ → Received
rx_parsed x node frame (err e) now = (err e, node)
rx_parsed x node frame (ok parsed) now =
    let vc = parsed.hdr.vc in
    rx_checked node frame.rx_time_ticks
      (check_authentication x (node.conf.vc vc).require_authentication node.conf.hmac.maximum_jump
        node.hmac node.diag frame parsed)
      now

abbrev pub filter_by_identity : Config → List ℕ → ℕ → Bool
filter_by_identity conf identity identity_len =
    equal_bytes (take identity_len identity) (take identity_len conf.identity)
    && identity_len == conf.identity_len

abbrev pub identity_len_of : RadioFrame → ℕ
identity_len_of frame = get_or frame.raw 0 0 % 8

-- The frame with its static header and its payload, which counts where its flag is set.
abbrev pub read_header : RadioFrame → ParsedFrame
read_header frame =
    let hdr = header_at (drop (1 + identity_len_of frame) frame.raw) in
    let payload_start = 1 + identity_len_of frame + static_header_size + hdr.extension_length in
    parsed_of hdr (
      if hdr.flag_has_payload
      then take (frame.length - payload_start) (drop payload_start frame.raw)
      else [])

-- What follows the statistics.
unfoldable pub rx_counted : External → SkyAll → RadioFrame → ℤ → Received
rx_counted x node frame now =
    let n = identity_len_of frame in
    let parsed = read_header frame in
    if not (bit_and (get_or frame.raw 0 0) 96 == 96)
    then (err invalid_version, node)
    else if n == 0 || ltb 7 n
    then (err invalid_version, node)
    else if filter_by_identity node.conf (drop 1 frame.raw) n
    then (err filtered_by_identity, node)
    else if ltb frame.length (1 + n + static_header_size + parsed.hdr.extension_length)
    then (err invalid_ext_length, node)
    else rx_parsed x node frame (parse_extension_headers frame.raw frame.length parsed) now

abbrev pub count_frame : Diagnostics → ℕ → Diagnostics
count_frame d n = record d { rx_frames = counted d.rx_frames 1; rx_bytes = counted d.rx_bytes n }

unfoldable pub rx : External → SkyAll → RadioFrame → ℤ → Received
rx x node frame now =
    if ltb frame.length frame_min_len
    then (err invalid_plain_length, node)
    else rx_counted x (record node { diag = count_frame node.diag frame.length }) frame now

-- What follows the error correction.
abbrev pub rx_decoded : External → SkyAll → Decoded → ℤ → Received
rx_decoded x node (err e, frame, d) now = (err e, record node { diag = d })
rx_decoded x node (ok tt, frame, d) now = rx x (record node { diag = d }) frame now

unfoldable pub rx_with_fec : External → SkyAll → RadioFrame → ℤ → Received
rx_with_fec x node frame now =
    if ltb frame.length (frame_min_len + rs_paritys)
    then (err invalid_encoded_length, node)
    else rx_decoded x node (fec_decode x frame node.diag) now

-- The loop that moves `n` bytes from the index `i` on by three to the front.
unfoldable pub unshift : ℕ → ℕ → List ℕ → List ℕ
unshift zero i raw = raw
unshift (suc n) i raw = unshift n (i + 1) (set raw i (get_or raw (i + 3) 0))

-- The three bytes of a coded length.
abbrev pub coded_len : List ℕ → ℕ
coded_len raw = get_or raw 0 0 * 65536 + get_or raw 1 0 * 256 + get_or raw 2 0

-- What follows the Golay decoder.
abbrev pub rx_of_length : External → SkyAll → RadioFrame → Option ℕ → ℤ → Received
rx_of_length x node frame none now = (err golay_failed, record node { diag = fec_failed node.diag })
rx_of_length x node frame (some word) now =
    let n = word % 256 in
    if ltb raw_size n
    then (err invalid_encoded_length, node)
    else rx_with_fec x node (record frame { length = n; raw = unshift n 0 frame.raw }) now

unfoldable pub rx_with_golay : External → SkyAll → RadioFrame → ℤ → Received
rx_with_golay x node frame now =
    rx_of_length x node frame (x.decode_golay24 (coded_len frame.raw)) now
