-- ===== src/Tx/Turns.antt =====
-- How src/skylink_tx.c shares the transmissions among the virtual channels.
use skylink.Base.{
  ℕ, suc, ◌+◌, ◌-◌, ◌%◌, ◌<◌, ◌≤◌, ◌≡◌, ◌≢◌, refl, sym, ap, ◌∙◌, subst, arith, Bool, true, false,
  not, ◌&&◌, Option, none, some, if_both,
}
use skylink.Base.Int.{ℤ, pos, ◌-ℤ◌, leb_ℤ}
use skylink.Base.Result.{ok, err}
use skylink.Frame.{TransmitFrame}
use skylink.Frame.Radio.{RadioFrame}
use skylink.Mac.{Mac, expand_window, shrink_window, can_send, set_frame_fields}
use skylink.Hmac.{Hmac}
use skylink.ReliableVc.Frames.{Filled, fill_frame}
use skylink.External.{External}
use skylink.Node.{SkyAll}
use skylink.Tx.{
  note_unused, note_closing, shrink_due, track_tdd_state, Transmitted, eval_hmac_reset, tx_filled,
  tx_extended, tx_fields, tx_picked, timed_out, tracked, tx, start_frame, advance_vc_round_robin,
  frames_sent, pick_loop, pick_vc, has_turn,
}

abbrev pub StartsAt : ℕ → Mac → Type 0
StartsAt s mac = mac.vc_round_robin_start ≡ s

pub track_tdd_state-StartsAt :
    (mac : Mac) (can content : Bool) (now : ℤ)
    → StartsAt mac.vc_round_robin_start (track_tdd_state mac can content now)
unfolding track_tdd_state shrink_window expand_window
track_tdd_state-StartsAt mac can content now =
    let at = StartsAt mac.vc_round_robin_start in
    let unused = if_both at (can && not content) _ mac refl refl in
    let noted = note_unused can content mac in
    let closed = if_both at (not can && noted.window_on) _ noted unused unused in
    let closing = note_closing can noted in
    let shrunk =
      if_both at
        (leb_ℤ closing.window_adjust_counter (pos 0 -ℤ closing.config.window_adjustment_period)) _
        closing closed closed in
    let shrinking = shrink_due now closing in
    let grown =
      if_both at (leb_ℤ shrinking.config.window_adjustment_period shrinking.window_adjust_counter) _
        shrinking shrunk shrunk in
    let opened = if_both at (can && not closing.window_on) _ closing grown closed in
    if_both at can _ _ opened opened

-- A frame that is generated moves the start on by one channel.
abbrev Advanced : ℕ → Transmitted → Type 0
Advanced s none = Unit {0}
Advanced s (some (err e, node, frame)) = Unit {0}
Advanced s (some (ok false, node, frame)) = Unit {0}
Advanced s (some (ok true, node, frame)) = StartsAt s node.mac

filled-Advanced :
    (x : External) (node : SkyAll) (vc : ℕ) (filled : Filled)
    → Advanced node.mac.vc_round_robin_start (tx_filled x node vc filled)
filled-Advanced x node vc none = tt
filled-Advanced x node vc (some (err e, channel, frame)) = tt
filled-Advanced x node vc (some (ok ret, channel, frame)) = refl

extended-Advanced :
    (x : External) (node : SkyAll) (vc : ℕ) (now : ℤ) (extended : Option TransmitFrame × Hmac)
    → Advanced node.mac.vc_round_robin_start (tx_extended x node vc now extended)
extended-Advanced x node vc now (none, hmac) = tt
extended-Advanced x node vc now (some frame, hmac) =
    filled-Advanced x (record node { hmac = hmac }) vc
      (fill_frame (node.virtual_channels vc) node.conf.arq frame now (frames_sent node vc))

fields-Advanced :
    (x : External) (node : SkyAll) (vc : ℕ) (now : ℤ) (fields : Option TransmitFrame)
    → Advanced node.mac.vc_round_robin_start (tx_fields x node vc now fields)
fields-Advanced x node vc now none = tt
fields-Advanced x node vc now (some frame) =
    extended-Advanced x node vc now (eval_hmac_reset node.hmac frame vc)

picked-Advanced :
    (x : External) (node : SkyAll) (frame : RadioFrame) (can : Bool) (now : ℤ) (picked : Option ℕ)
    → Advanced ((node.mac.vc_round_robin_start + 1) % 4) (tx_picked x node frame can now picked)
unfolding tx_picked
picked-Advanced x node frame can now none = tt
picked-Advanced x node frame false now (some vc) = tt
picked-Advanced x node frame true now (some vc) =
    fields-Advanced x (advance_vc_round_robin node) vc now
      (set_frame_fields (advance_vc_round_robin node).mac (start_frame node.conf vc) now)

tx-Advanced :
    (x : External) (node : SkyAll) (frame : RadioFrame) (now : ℤ)
    → Advanced ((node.mac.vc_round_robin_start + 1) % 4) (tx x node frame now)
unfolding tx
tx-Advanced x node frame now =
    let timed = timed_out node now in
    subst (λ s. Advanced ((s + 1) % 4) (tx x node frame now))
      (track_tdd_state-StartsAt node.mac _ _ now)
      (picked-Advanced x (tracked timed now) frame (can_send node.mac now) now (pick_vc timed now))

-- A channel that has a turn where the round robin starts is the one that is picked.
pick_vc-start :
    (node : SkyAll) (now : ℤ) (vc : ℕ)
    → node.mac.vc_round_robin_start ≡ vc
    → vc < 4
    → has_turn node now vc ≡ true
    → pick_vc node now ≡ some vc
unfolding pick_vc pick_loop
pick_vc-start node now vc e h turn =
    let first : (node.mac.vc_round_robin_start + 0) % 4 ≡ vc = omega arith in rw (first, turn) refl

abbrev chosen : Option ℕ → ℕ → ℕ
chosen none d = d
chosen (some vc) d = vc

start_of :
    (s : ℕ) (out : Transmitted) (node : SkyAll) (frame : RadioFrame)
    → Advanced s out
    → out ≡ some (ok true, node, frame)
    → node.mac.vc_round_robin_start ≡ s
start_of s out node frame a e = subst (Advanced s) e a

-- Transmissions in a row, each of which generates a frame at a time when a channel has a turn and
-- another one is picked: their number, and the instance before and after.
pub data PassedOver (x : External) (vc : ℕ) : ℕ → SkyAll → SkyAll → Type 0 where
  stop : {node : SkyAll} → PassedOver x vc 0 node node
  pass :
      {n : ℕ} {node last : SkyAll} (other : ℕ) (node' : SkyAll) (frame frame' : RadioFrame)
      (now : ℤ)
      → has_turn (timed_out node now) now vc ≡ true
      → pick_vc (timed_out node now) now ≡ some other
      → other ≢ vc
      → tx x node frame now ≡ some (ok true, node', frame')
      → PassedOver x vc n node' last
      → PassedOver x vc (suc n) node last

-- Of the transmissions in a row at whose times a channel has a turn, with content to send or a sequence
-- to enforce, and which serve others, there are at most as many as channels from the start of the round
-- robin up to it, hence three: it is served then.
pub PassedOver-bound :
    (x : External) (vc : ℕ) {n : ℕ} {node last : SkyAll}
    → vc < 4
    → node.mac.vc_round_robin_start < 4
    → PassedOver x vc n node last
    → n ≤ (vc + 4 - node.mac.vc_round_robin_start) % 4
PassedOver-bound x vc h k stop = omega arith
PassedOver-bound x vc {node = node} h k
      (pass other node' frame frame' now turn picked different sent rest) =
    let start = node.mac.vc_round_robin_start in
    let elsewhere : start ≢ vc = λ e.
      different
        (ap (λ o. chosen o 0) (sym picked ∙ pick_vc-start (timed_out node now) now vc e h turn)) in
    let next =
      start_of ((start + 1) % 4) (tx x node frame now) node' frame' (tx-Advanced x node frame now)
        sent in
    let later = PassedOver-bound x vc h (omega (arith, next)) rest in
    omega (arith, next, later, elsewhere)
