-- ===== src/Node/Enforcement.antt =====
-- What becomes of the need to enforce a sequence, which src/hmac.c notes and src/skylink_tx.c reads.
use skylink.Base.{
  ℕ, ◌≡◌, refl, sym, ap, ◌∙◌, subst, Bool, true, false, Option, none, some, ltb, ◌==◌, ==_iff,
  Bool-cases, inl, inr, if_both,
}
use skylink.Base.Int.{ℤ}
use skylink.Base.Result.{Result, ok, err}
use skylink.Frame.{TransmitFrame}
use skylink.Frame.Radio.{RadioFrame}
use skylink.Mac.{can_send, set_frame_fields}
use skylink.Hmac.{Hmac, get_next_tx_sequence}
use skylink.ReliableVc.Frames.{Filled, fill_frame}
use skylink.External.{External}
use skylink.Node.{SkyAll}
use skylink.Tx.{
  Transmitted, eval_hmac_reset, tx_filled, tx_extended, tx_fields, tx_picked, timed_out, tracked,
  tx, start_frame, advance_vc_round_robin, frames_sent, pick_vc,
}

-- The needs of enforcement of the instance that is left, channel by channel.
abbrev Needs : (ℕ → ℕ) → Transmitted → Type 0
Needs s none = Unit {0}
Needs s (some (ret, node, frame)) = (vc : ℕ) → node.hmac.vc_enforcement_need vc ≡ s vc

eval-Needs :
    (hmac : Hmac) (frame : TransmitFrame) (vc i : ℕ)
    → (eval_hmac_reset hmac frame vc).1.vc_enforcement_need i ≡ hmac.vc_enforcement_need i
unfolding eval_hmac_reset
eval-Needs hmac frame vc i = elim (Bool-cases (hmac.vc_enforcement_need vc == 0)) [
  | inr needed ↦ rw needed refl
  | inl met ↦
      let clear = (==_iff (hmac.vc_enforcement_need vc) 0).0 met in
      rw met (elim (Bool-cases (i == vc)) [
        | inl same ↦ rw same (sym (ap hmac.vc_enforcement_need ((==_iff i vc).0 same) ∙ clear))
        | inr other ↦ rw other refl
      ])
]

filled-Needs :
    (x : External) (node : SkyAll) (vc : ℕ) (filled : Filled) (s : ℕ → ℕ)
    → ((i : ℕ) → node.hmac.vc_enforcement_need i ≡ s i)
    → Needs s (tx_filled x node vc filled)
unfolding get_next_tx_sequence
filled-Needs x node vc none s h = tt
filled-Needs x node vc (some (err e, channel, frame)) s h = h
filled-Needs x node vc (some (ok ret, channel, frame)) s h =
    λ i. if_both (λ (o : ℕ × Hmac). o.1.vc_enforcement_need i ≡ s i) (ltb 4 vc) _ _ (h i) (h i)

extended-Needs :
    (x : External) (node : SkyAll) (vc : ℕ) (now : ℤ) (extended : Option TransmitFrame × Hmac)
    (s : ℕ → ℕ)
    → ((i : ℕ) → extended.1.vc_enforcement_need i ≡ s i)
    → Needs s (tx_extended x node vc now extended)
extended-Needs x node vc now (none, hmac) s h = tt
extended-Needs x node vc now (some frame, hmac) s h =
    filled-Needs x (record node { hmac = hmac }) vc
      (fill_frame (node.virtual_channels vc) node.conf.arq frame now (frames_sent node vc)) s h

fields-Needs :
    (x : External) (node : SkyAll) (vc : ℕ) (now : ℤ) (fields : Option TransmitFrame)
    → Needs node.hmac.vc_enforcement_need (tx_fields x node vc now fields)
fields-Needs x node vc now none = tt
fields-Needs x node vc now (some frame) =
    extended-Needs x node vc now (eval_hmac_reset node.hmac frame vc) node.hmac.vc_enforcement_need
      (eval-Needs node.hmac frame vc)

picked-Needs :
    (x : External) (node : SkyAll) (frame : RadioFrame) (can : Bool) (now : ℤ) (picked : Option ℕ)
    → Needs node.hmac.vc_enforcement_need (tx_picked x node frame can now picked)
unfolding tx_picked
picked-Needs x node frame can now none = λ i. refl
picked-Needs x node frame false now (some vc) = λ i. refl
picked-Needs x node frame true now (some vc) =
    fields-Needs x (advance_vc_round_robin node) vc now
      (set_frame_fields (advance_vc_round_robin node).mac (start_frame node.conf vc) now)

plain-Needs :
    (x : External) (node : SkyAll) (frame : RadioFrame) (now : ℤ)
    → Needs node.hmac.vc_enforcement_need (tx x node frame now)
unfolding tx
plain-Needs x node frame now =
    let timed = timed_out node now in
    picked-Needs x (tracked timed now) frame (can_send node.mac now) now (pick_vc timed now)

-- Transmitting never meets the need of a channel to enforce its sequence, nor has it any other need:
-- whether a frame is generated or not, the needs stay as they are, and with them the turns
-- that they give.
pub tx-keeps_need :
    (x : External) (node node' : SkyAll) (frame frame' : RadioFrame) (now : ℤ) (ret : Result Bool)
    → tx x node frame now ≡ some (ret, node', frame')
    → (vc : ℕ) → node'.hmac.vc_enforcement_need vc ≡ node.hmac.vc_enforcement_need vc
tx-keeps_need x node node' frame frame' now ret e =
    subst (Needs node.hmac.vc_enforcement_need) e (plain-Needs x node frame now)
