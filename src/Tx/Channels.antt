-- ===== src/Tx/Channels.antt =====
-- What transmitting a frame in src/skylink_tx.c does to the virtual channels of an instance.
use skylink.Base.{
  ℕ, ◌<◌, sym, arith, ◌+◌, ◌≡◌, refl, subst, Bool, true, false, Option, none, some, leb, ◌||◌,
  Bool-cases, ◌⊎◌, inl, inr,
}
use skylink.Base.Int.{ℤ, ltb_ℤ, ◌-ℤ◌}
use skylink.Utilities.{wrap_time_ticks}
use skylink.Base.Result.{Result, ok, err}
use skylink.Frame.{TransmitFrame}
use skylink.Frame.Radio.{RadioFrame, raw_size}
use skylink.Mac.{can_send, set_frame_fields}
use skylink.Hmac.{Hmac, assign}
use skylink.Fec.{rs_paritys}
use skylink.ReliableVc.{
  VirtualChannel, ArqState, off, in_init, on, check_timeouts, check_expired, timeouts_in,
}
use skylink.ReliableVc.Frames.{Filled, fill_frame}
use skylink.ReliableVc.Transfer.{IsValid, off-IsValid}
use skylink.ReliableVc.Transmit.{fill_frame-IsValid}
use skylink.External.{External}
use skylink.Node.{SkyAll}
use skylink.Node.Invariant.{IsSound, assign-IsValid}
use skylink.Tx.Window.{track_tdd_state-IsAdjustable}
use skylink.Tx.Turns.{track_tdd_state-StartsAt}
use skylink.Tx.{
  is_some, Transmitted, eval_hmac_reset, tx_filled, tx_extended, tx_fields, tx_picked, timed_out,
  tracked, tx, fec_coded, tx_with_fec, golay_coded, tx_with_golay, start_frame,
  advance_vc_round_robin, frames_sent, pick_vc,
}

-- The instance that is left, if no assertion has failed, is sound.
abbrev OutSound : Transmitted → Type 0
OutSound none = Unit {0}
OutSound (some (ret, node, frame)) = IsSound node

expired-IsValid :
    (vc : VirtualChannel) (now timeout : ℤ) → IsValid vc → IsValid (check_expired vc now timeout)
expired-IsValid vc now timeout v =
    elim (Bool-cases (
      ltb_ℤ timeout (wrap_time_ticks (now -ℤ vc.last_tx_tick))
      || ltb_ℤ timeout (wrap_time_ticks (now -ℤ vc.last_rx_tick)))) [
        | inl late ↦ rw late (off-IsValid vc v)
        | inr timely ↦ rw timely v
      ]

timeouts_in-IsValid :
    (s : ArqState) (vc : VirtualChannel) (now timeout : ℤ)
    → IsValid vc
    → IsValid (timeouts_in s vc now timeout)
timeouts_in-IsValid off vc now timeout v = v
timeouts_in-IsValid in_init vc now timeout v = expired-IsValid vc now timeout v
timeouts_in-IsValid on vc now timeout v = expired-IsValid vc now timeout v

pub timeouts-IsValid :
    (vc : VirtualChannel) (now timeout : ℤ) → IsValid vc → IsValid (check_timeouts vc now timeout)
unfolding check_timeouts
timeouts-IsValid vc now timeout v = timeouts_in-IsValid vc.arq_state_flag vc now timeout v

left-IsSound :
    (node : SkyAll) (vc : ℕ) (channel : VirtualChannel)
    → IsSound node
    → IsValid channel
    → IsSound (record node { virtual_channels = assign node.virtual_channels vc channel })
left-IsSound node vc channel v w = record {
  channels = assign-IsValid node.virtual_channels vc channel v.channels w;
  window = v.window;
  turn = v.turn;
}

same-IsSound : (node : SkyAll) (hmac : Hmac) → IsSound node → IsSound (record node { hmac = hmac })
same-IsSound node hmac v = record { channels = v.channels; window = v.window; turn = v.turn }

filled-IsSound :
    (x : External) (node : SkyAll) (vc : ℕ) (filled : Filled)
    → IsSound node
    → ((ret : Result Bool) (channel : VirtualChannel) (frame : TransmitFrame)
        → filled ≡ some (ret, channel, frame)
        → IsValid channel)
    → OutSound (tx_filled x node vc filled)
filled-IsSound x node vc none v w = tt
filled-IsSound x node vc (some (err e, channel, frame)) v w =
    left-IsSound node vc channel v (w (err e) channel frame refl)
filled-IsSound x node vc (some (ok ret, channel, frame)) v w =
    let left = left-IsSound node vc channel v (w (ok ret) channel frame refl) in
    record { channels = left.channels; window = left.window; turn = left.turn }

extended-IsSound :
    (x : External) (node : SkyAll) (vc : ℕ) (now : ℤ) (extended : Option TransmitFrame × Hmac)
    → IsSound node
    → OutSound (tx_extended x node vc now extended)
extended-IsSound x node vc now (none, hmac) v = tt
extended-IsSound x node vc now (some frame, hmac) v =
    filled-IsSound x (record node { hmac = hmac }) vc
      (fill_frame (node.virtual_channels vc) node.conf.arq frame now (frames_sent node vc))
      (same-IsSound node hmac v)
      (λ ret channel left e.
        fill_frame-IsValid (node.virtual_channels vc) channel node.conf.arq frame left now
          (frames_sent node vc) ret (v.channels vc) e)

fields-IsSound :
    (x : External) (node : SkyAll) (vc : ℕ) (now : ℤ) (fields : Option TransmitFrame)
    → IsSound node
    → OutSound (tx_fields x node vc now fields)
fields-IsSound x node vc now none v = tt
fields-IsSound x node vc now (some frame) v =
    extended-IsSound x node vc now (eval_hmac_reset node.hmac frame vc) v

picked-IsSound :
    (x : External) (node : SkyAll) (frame : RadioFrame) (can : Bool) (now : ℤ) (picked : Option ℕ)
    → IsSound node
    → OutSound (tx_picked x node frame can now picked)
unfolding tx_picked
picked-IsSound x node frame can now none v = v
picked-IsSound x node frame false now (some vc) v = v
picked-IsSound x node frame true now (some vc) v =
    fields-IsSound x (advance_vc_round_robin node) vc now
      (set_frame_fields (advance_vc_round_robin node).mac (start_frame node.conf vc) now)
      (record { channels = v.channels; window = v.window; turn = omega arith })

plain-IsSound :
    (x : External) (node : SkyAll) (frame : RadioFrame) (now : ℤ)
    → IsSound node
    → OutSound (tx x node frame now)
unfolding tx
plain-IsSound x node frame now v =
    let timed = timed_out node now in
    let content = is_some (pick_vc timed now) in
    picked-IsSound x (tracked timed now) frame (can_send node.mac now) now (pick_vc timed now)
      (record {
        channels = λ vc.
            timeouts-IsValid (node.virtual_channels vc) now node.conf.arq.timeout_ticks
              (v.channels vc);
        window = track_tdd_state-IsAdjustable node.mac (can_send node.mac now) content now v.window;
        turn =
            subst (λ s. s < 4)
              (sym (track_tdd_state-StartsAt node.mac (can_send node.mac now) content now)) v.turn;
      })

fec-IsSound : (x : External) (out : Transmitted) → OutSound out → OutSound (fec_coded x out)
fec-IsSound x none v = tt
fec-IsSound x (some (err e, node, frame)) v = v
fec-IsSound x (some (ok false, node, frame)) v = v
fec-IsSound x (some (ok true, node, frame)) v =
    elim (Bool-cases (leb (frame.length + rs_paritys) raw_size)) [
      | inl fits ↦ rw fits v
      | inr long ↦ rw long tt
    ]

golay-IsSound : (x : External) (out : Transmitted) → OutSound out → OutSound (golay_coded x out)
golay-IsSound x none v = tt
golay-IsSound x (some (err e, node, frame)) v = v
golay-IsSound x (some (ok false, node, frame)) v = v
golay-IsSound x (some (ok true, node, frame)) v =
    elim (Bool-cases (leb (frame.length + 3) raw_size)) [
      | inl fits ↦ rw fits v
      | inr long ↦ rw long tt
    ]

-- Transmitting, plain, with error correction or with a coded length before that, at any time and
-- whatever the coders and the hash compute: a sound instance stays sound, whether a frame is generated or
-- none is due, and after an error, as long as no assertion fails.
pub tx-IsSound :
    (x : External) (node node' : SkyAll) (frame frame' : RadioFrame) (now : ℤ) (ret : Result Bool)
    → IsSound node
    → (tx x node frame now ≡ some (ret, node', frame'))
      ⊎ ((tx_with_fec x node frame now ≡ some (ret, node', frame'))
          ⊎ (tx_with_golay x node frame now ≡ some (ret, node', frame')))
    → IsSound node'
unfolding tx_with_golay tx_with_fec
tx-IsSound x node node' frame frame' now ret v (inl e) =
    subst OutSound e (plain-IsSound x node frame now v)
tx-IsSound x node node' frame frame' now ret v (inr (inl e)) =
    subst OutSound e (fec-IsSound x (tx x node frame now) (plain-IsSound x node frame now v))
tx-IsSound x node node' frame frame' now ret v (inr (inr e)) = subst OutSound e (
    golay-IsSound x (fec_coded x (tx x node frame now))
      (fec-IsSound x (tx x node frame now) (plain-IsSound x node frame now v)))
