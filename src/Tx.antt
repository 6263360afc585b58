-- ===== src/Tx.antt =====
-- src/skylink_tx.c: a frame is generated. The time of the global clock is an argument.
pub mod Channels
pub mod Turns
pub mod Window
use Prim.Native.Nat.{bit_or}
use skylink.Base.{
  ℕ, zero, suc, ◌+◌, ◌/◌, ◌%◌, Bool, true, false, not, ◌&&◌, Option, none, some, List, [], ◌∷◌,
  if◌then◌else◌, ltb, leb, ◌==◌, get_or, set, take, replicate,
}
use skylink.Base.Int.{ℤ, pos, ◌+ℤ◌, ◌-ℤ◌, leb_ℤ}
use skylink.Base.Result.{Result, ok, err}
use skylink.Utilities.{hton16}
use skylink.Frame.{
  StaticHeader, TransmitFrame, static_header_size, add_extension_hmac_sequence_reset,
}
use skylink.Frame.Radio.{RadioFrame, raw_size, memory_of}
use skylink.Mac.{
  Mac, num_virtual_channels, can_send, shrink_window, expand_window, idle_frame_needed,
  set_frame_fields,
}
use skylink.Hmac.{Hmac, assign, get_next_tx_sequence, extend_with_authentication}
use skylink.Fec.{rs_paritys, fec_encode}
use skylink.Diag.{Diagnostics, counted, count_vc_rx}
use skylink.ReliableVc.{VirtualChannel, check_timeouts}
use skylink.ReliableVc.Frames.{Filled, content_to_send, fill_frame}
use skylink.External.{External}
use skylink.Node.{SkyAll, Config}

-- The steps of the tracking of the window, each of one test in the code.
abbrev pub note_unused : Bool → Bool → Mac → Mac
note_unused can content mac =
    if can && not content then record mac { unused_window_time = true } else mac

abbrev pub note_closing : Bool → Mac → Mac
note_closing can mac =
    if not can && mac.window_on
    then record mac {
      window_adjust_counter =
          if mac.unused_window_time
          then mac.window_adjust_counter -ℤ pos 1
          else mac.window_adjust_counter +ℤ pos 1;
    }
    else mac

abbrev pub shrink_due : ℤ → Mac → Mac
shrink_due now mac =
    if leb_ℤ mac.window_adjust_counter (pos 0 -ℤ mac.config.window_adjustment_period)
    then (let shrunk = shrink_window mac now in record shrunk { window_adjust_counter = pos 0 })
    else mac

abbrev pub expand_due : ℤ → Mac → Mac
expand_due now mac =
    if leb_ℤ mac.config.window_adjustment_period mac.window_adjust_counter
    then (let grown = expand_window mac now in record grown { window_adjust_counter = pos 0 })
    else mac

abbrev pub note_opening : Bool → ℤ → Mac → Mac
note_opening can now mac =
    if can && not mac.window_on then expand_due now (shrink_due now mac) else mac

abbrev pub note_window : Bool → Mac → Mac
note_window can mac = if can then record mac { window_on = true } else record mac {
  window_on = false;
  unused_window_time = false;
  frames_sent_in_current_window_per_vc = replicate num_virtual_channels 0;
  total_frames_sent_in_current_window = 0;
}

unfoldable pub track_tdd_state : Mac → Bool → Bool → ℤ → Mac
track_tdd_state mac can content now =
    note_window can (note_opening can now (note_closing can (note_unused can content mac)))

-- `none` stands for a failed assertion. The addition is `+ 3` of a word.
unfoldable pub eval_hmac_reset : Hmac → TransmitFrame → ℕ → Option TransmitFrame × Hmac
eval_hmac_reset hmac tx vc =
    if hmac.vc_enforcement_need vc == 0
    then (
      add_extension_hmac_sequence_reset tx ((hmac.sequence_rx vc + 3) % 65536),
      record hmac { vc_enforcement_need = assign hmac.vc_enforcement_need vc 0 },
    )
    else (some tx, hmac)

abbrev pub advance_vc_round_robin : SkyAll → SkyAll
advance_vc_round_robin node = record node {
  mac = record node.mac {
    vc_round_robin_start = (node.mac.vc_round_robin_start + 1) % num_virtual_channels;
  };
}

abbrev pub frames_sent : SkyAll → ℕ → ℕ
frames_sent node vc = get_or node.mac.frames_sent_in_current_window_per_vc vc 0

-- The channel has something to send, or its sequence is to be enforced.
abbrev pub has_turn : SkyAll → ℤ → ℕ → Bool
has_turn node now vc =
    if node.hmac.vc_enforcement_need vc == 0
    then content_to_send (node.virtual_channels vc) node.conf.arq now (frames_sent node vc)
    else true

-- The loop over `n` channels from the one `i` behind the start on.
unfoldable pub pick_loop : ℕ → ℕ → SkyAll → ℤ → Option ℕ
pick_loop zero i node now = none
pick_loop (suc n) i node now =
    let vc = (node.mac.vc_round_robin_start + i) % num_virtual_channels in
    let rest = pick_loop n (i + 1) node now in if has_turn node now vc then some vc else rest

abbrev pub or_idle : Option ℕ → Bool → Option ℕ
or_idle none idle = if idle then some 0 else none
or_idle (some vc) idle = some vc

-- `none` stands for -1.
unfoldable pub pick_vc : SkyAll → ℤ → Option ℕ
pick_vc node now =
    or_idle (pick_loop num_virtual_channels 0 node now) (idle_frame_needed node.mac now)

abbrev pub is_some : Option ℕ → Bool
is_some none = false
is_some (some vc) = true

-- The start byte and the identity.
abbrev pub front : Config → List ℕ
front conf = bit_or 96 conf.identity_len ∷ take conf.identity_len conf.identity

-- A frame with a static header that is clear but for the channel.
abbrev pub start_frame : Config → ℕ → TransmitFrame
start_frame conf vc = record {
  hdr = record {
    vc = vc;
    flag_arq_on = false;
    flag_authenticated = false;
    flag_has_payload = false;
    sequence_control = 0;
    frame_sequence = 0;
    extension_length = 0;
  };
  length = 1 + conf.identity_len + static_header_size;
  written = [];
}

-- True for a frame that was generated; `none` stands for a failed assertion.
abbrev pub Transmitted : Type 0
Transmitted = Option (Result Bool × SkyAll × RadioFrame)

abbrev pub authenticated : External → SkyAll → ℕ → TransmitFrame → TransmitFrame
authenticated x node vc tx =
    if (node.conf.vc vc).require_authentication % 2 == 1
    then (extend_with_authentication x node.hmac (front node.conf) tx).1
    else tx

abbrev pub count_sent : Mac → ℕ → Mac
count_sent mac vc = record mac {
  total_frames_sent_in_current_window = counted mac.total_frames_sent_in_current_window 1;
  frames_sent_in_current_window_per_vc =
      set mac.frames_sent_in_current_window_per_vc vc
        (counted (get_or mac.frames_sent_in_current_window_per_vc vc 0) 1);
}

-- The code counts a sent frame of the channel as a received one.
abbrev pub count_tx : Diagnostics → ℕ → ℕ → Diagnostics
count_tx d n vc =
    let sent = count_vc_rx (record d { tx_bytes = counted d.tx_bytes n }) vc in
    record sent { tx_frames = counted d.tx_frames 1 }

-- What follows the filling: the sequence, the authentication and the counters.
abbrev pub tx_finished : External → SkyAll → ℕ → TransmitFrame → Transmitted
tx_finished x node vc filled =
    let (sequence, hmac) = get_next_tx_sequence node.hmac vc in
    let numbered = record filled { hdr = record filled.hdr { frame_sequence = hton16 sequence } } in
    let tx = authenticated x node vc numbered in
    some (
      ok true,
      record node {
        hmac = hmac;
        mac = count_sent node.mac vc;
        diag = count_tx node.diag tx.length vc;
      },
      memory_of (front node.conf) tx,
    )

abbrev pub tx_filled : External → SkyAll → ℕ → Filled → Transmitted
tx_filled x node vc none = none
tx_filled x node vc (some (err e, channel, tx)) = some (
  err e,
  record node { virtual_channels = assign node.virtual_channels vc channel },
  memory_of (front node.conf) tx,
)
tx_filled x node vc (some (ok ret, channel, tx)) =
    tx_finished x (record node { virtual_channels = assign node.virtual_channels vc channel }) vc tx

-- What follows the reset extension.
abbrev pub tx_extended : External → SkyAll → ℕ → ℤ → Option TransmitFrame × Hmac → Transmitted
tx_extended x node vc now (none, hmac) = none
tx_extended x node vc now (some tx, hmac) =
    tx_filled x (record node { hmac = hmac }) vc
      (fill_frame (node.virtual_channels vc) node.conf.arq tx now (frames_sent node vc))

abbrev pub tx_fields : External → SkyAll → ℕ → ℤ → Option TransmitFrame → Transmitted
tx_fields x node vc now none = none
tx_fields x node vc now (some tx) = tx_extended x node vc now (eval_hmac_reset node.hmac tx vc)

unfoldable pub tx_picked : External → SkyAll → RadioFrame → Bool → ℤ → Option ℕ → Transmitted
tx_picked x node frame can now none = some (ok false, node, frame)
tx_picked x node frame can now (some vc) =
    let turned = advance_vc_round_robin node in
    if can
    then tx_fields x turned vc now (set_frame_fields turned.mac (start_frame node.conf vc) now)
    else some (ok false, node, frame)

-- Every channel's timeouts are checked.
abbrev pub timed_out : SkyAll → ℤ → SkyAll
timed_out node now = record node {
  virtual_channels = λ i. check_timeouts (node.virtual_channels i) now node.conf.arq.timeout_ticks;
}

abbrev pub tracked : SkyAll → ℤ → SkyAll
tracked node now = record node {
  mac = track_tdd_state node.mac (can_send node.mac now) (is_some (pick_vc node now)) now;
}

unfoldable pub tx : External → SkyAll → RadioFrame → ℤ → Transmitted
tx x node frame now =
    let timed = timed_out node now in
    tx_picked x (tracked timed now) frame (can_send node.mac now) now (pick_vc timed now)

abbrev pub fec_coded : External → Transmitted → Transmitted
fec_coded x none = none
fec_coded x (some (err e, node, frame)) = some (err e, node, frame)
fec_coded x (some (ok false, node, frame)) = some (ok false, node, frame)
fec_coded x (some (ok true, node, frame)) =
    if leb (frame.length + rs_paritys) raw_size
    then some (ok true, node, (fec_encode x frame).1)
    else none

unfoldable pub tx_with_fec : External → SkyAll → RadioFrame → ℤ → Transmitted
tx_with_fec x node frame now = fec_coded x (tx x node frame now)

-- The loop that moves the bytes up to the index `i` by three to the back; it ends before index 0.
unfoldable pub shift : ℕ → List ℕ → List ℕ
shift zero raw = raw
shift (suc i) raw = shift i (set raw (suc i + 3) (get_or raw (suc i) 0))

-- The coded length goes to the first three bytes.
unfoldable pub add_phy_header : External → RadioFrame → RadioFrame
add_phy_header x frame =
    let phy_header = x.encode_golay24 frame.length in
    let moved = shift frame.length frame.raw in
    record frame {
      raw =
          set (set (set moved 0 (phy_header / 65536 % 256)) 1 (phy_header / 256 % 256)) 2
            (phy_header % 256);
      length = frame.length + 3;
    }

abbrev pub golay_coded : External → Transmitted → Transmitted
golay_coded x none = none
golay_coded x (some (err e, node, frame)) = some (err e, node, frame)
golay_coded x (some (ok false, node, frame)) = some (ok false, node, frame)
golay_coded x (some (ok true, node, frame)) =
    if leb (frame.length + 3) raw_size then some (ok true, node, add_phy_header x frame) else none

unfoldable pub tx_with_golay : External → SkyAll → RadioFrame → ℤ → Transmitted
tx_with_golay x node frame now = golay_coded x (tx_with_fec x node frame now)
