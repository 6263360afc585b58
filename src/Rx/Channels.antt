-- ===== src/Rx/Channels.antt =====
-- What receiving a frame in src/skylink_rx.c does to the virtual channels of an instance.
use Prim.Native.Nat.{bit_and}
use skylink.Base.{
  ℕ, ◌<◌, if_both, List, Bool, true, false, not, ◌+◌, ◌%◌, ◌≡◌, ◌≢◌, ◌⊎◌, refl, sym, subst, length,
  get_or, ◌&&◌, ◌||◌, Option, none, some, ◌==◌, ltb, drop, Bool-cases, inl, inr,
}
use skylink.Base.Int.{ℤ, pos, ltb_ℤ}
use skylink.Base.Result.{
  Result, Code, ok, err, invalid_version, filtered_by_identity, invalid_ext_length,
  invalid_plain_length, invalid_encoded_length, golay_failed, unnamed_failure,
}
use skylink.Diag.{Diagnostics}
use skylink.Frame.{ParsedFrame, hmac_length, static_header_size, parse_extension_headers}
use skylink.Frame.Radio.{RadioFrame, frame_min_len, raw_size}
use skylink.Hmac.{
  Hmac, Checked, check_authentication, check_swapped, check_sequence, reset_by,
  requires_authentication, requires_sequence, jump_of, is_authentic, swap_sequence,
}
use skylink.Hmac.Check.{reset_keeps}
use skylink.Fec.{fec_failed, rs_paritys, Decoded, fec_decode}
use skylink.ReliableVc.Frames.{process_frame}
use skylink.ReliableVc.Transfer.{IsValid, process_frame-IsValid}
use skylink.External.{External}
use skylink.Mac.{Mac, num_virtual_channels, update_belief}
use skylink.Mac.Windows.{IsAdjustable}
use skylink.Node.{SkyAll}
use skylink.Node.Invariant.{IsSound, assign-IsValid}
use skylink.Rx.{
  Received, believe, rx_checked, rx_parsed, rx_counted, rx, rx_decoded, rx_with_fec, rx_of_length,
  rx_with_golay, process_result, count_frame, filter_by_identity, identity_len_of, read_header,
  coded_len,
}

-- The two instances differ in diagnostics and in the keys of the authentication at most.
pub record SameLink (node node' : SkyAll) : Type 0 where
  pub same_channels : node'.virtual_channels ≡ node.virtual_channels
  pub same_mac : node'.mac ≡ node.mac
  pub same_sequences : node'.hmac.sequence_rx ≡ node.hmac.sequence_rx

-- What holds of an outcome: an instance that was sound is, and after an error of a check the link is
-- the same.
abbrev Kept : SkyAll → Received → Type 0
Kept node (err e, node') =
    (e ≢ unnamed_failure → SameLink node node') × (IsSound node → IsSound node')
Kept node (ok tt, node') = IsSound node → IsSound node'

same-Kept : (node node' : SkyAll) (e : Code) → SameLink node node' → Kept node (err e, node')
same-Kept node node' e s = (
  λ named. s,
  λ v. record {
    channels = λ vc. subst (λ c. IsValid (c vc)) (sym s.same_channels) (v.channels vc);
    window = subst IsAdjustable (sym s.same_mac) v.window;
    turn = subst (λ m. m.vc_round_robin_start < num_virtual_channels) (sym s.same_mac) v.turn;
  },
)

err-Kept : (node : SkyAll) (e : Code) → Kept node (err e, node)
err-Kept node e =
    same-Kept node node e (record { same_channels = refl; same_mac = refl; same_sequences = refl })

-- An outcome with a result that `sky_vc_process_frame` returns.
result-Kept :
    (done : Bool) (node node' : SkyAll)
    → (IsSound node → IsSound node')
    → Kept node (process_result done, node')
result-Kept true node node' s = s
result-Kept false node node' s = (λ named. absurd (named refl), s)

-- A failed check leaves the expected sequences.
abbrev CheckKept : (ℕ → ℕ) → Checked → Type 0
CheckKept expected (err e, hmac, d, parsed) = hmac.sequence_rx ≡ expected
CheckKept expected (ok tt, hmac, d, parsed) = Unit {0}

sequence-kept :
    (flags : ℕ) (jump : ℤ) (hmac : Hmac) (d : Diagnostics) (parsed : ParsedFrame)
    → CheckKept hmac.sequence_rx (check_sequence flags jump hmac d parsed)
unfolding check_sequence
sequence-kept flags jump hmac d parsed =
    elim (Bool-cases (requires_sequence flags && ltb_ℤ jump (pos (jump_of hmac parsed)))) [
      | inl far ↦ rw far refl
      | inr near ↦ rw near tt
    ]

check-kept :
    (x : External) (flags : ℕ) (jump : ℤ) (hmac : Hmac) (d : Diagnostics) (frame : RadioFrame)
    (parsed : ParsedFrame)
    → CheckKept hmac.sequence_rx (check_swapped x flags jump hmac d frame parsed)
unfolding check_swapped
check-kept x flags jump hmac d frame parsed =
    let flagged = parsed.hdr.flag_authenticated in
    elim (Bool-cases (flagged && ltb (length parsed.payload) hmac_length)) [
      | inl short ↦ rw short refl
      | inr long ↦ elim (Bool-cases (requires_authentication flags)) [
        | inr open_channel ↦ rw (long, open_channel) tt
        | inl required ↦ elim (Bool-cases flagged) [
          | inr missing ↦ rw (missing, required) refl
          | inl there ↦ elim (Bool-cases (is_authentic x hmac frame)) [
            | inr forged ↦ simp long (simp (required, there, forged) refl)
            | inl authentic ↦
                let hmac' = reset_by parsed.hmac_reset hmac parsed.hdr.vc in
                simp long (
                  simp (required, there, authentic)
                    (subst (λ s. CheckKept s (check_sequence flags jump hmac' d parsed))
                      (reset_keeps parsed.hmac_reset hmac parsed.hdr.vc)
                      (sequence-kept flags jump hmac' d parsed)))
          ]
        ]
      ]
    ]

-- A belief about the peer leaves the own window and the round robin.
believe_keeps :
    (tdd : Option (List ℕ)) (mac : Mac) (now ticks : ℤ) (authenticated : Bool)
    → IsAdjustable mac × (mac.vc_round_robin_start < num_virtual_channels)
    → let mac' = believe tdd mac now ticks authenticated in
      IsAdjustable mac' × (mac'.vc_round_robin_start < num_virtual_channels)
unfolding update_belief
believe_keeps none mac now ticks authenticated v = v
believe_keeps (some tdd) mac now ticks authenticated v =
    if_both (λ m. IsAdjustable m × (m.vc_round_robin_start < num_virtual_channels))
      (mac.config.unauthenticated_mac_updates == 0 && not authenticated) mac _ v v

checked-Kept :
    (node : SkyAll) (ticks : ℤ) (outcome : Checked) (now : ℤ)
    → CheckKept node.hmac.sequence_rx outcome
    → Kept node (rx_checked node ticks outcome now)
checked-Kept node ticks (err e, hmac, d, parsed) now k =
    same-Kept node (record node { hmac = hmac; diag = d }) e
      (record { same_channels = refl; same_mac = refl; same_sequences = k })
checked-Kept node ticks (ok tt, hmac, d, parsed) now k =
    result-Kept (process_frame (node.virtual_channels parsed.hdr.vc) parsed now now).0 node _ (λ v.
      let vc = parsed.hdr.vc in
      let mac =
        believe_keeps parsed.mac_tdd node.mac now ticks parsed.hdr.flag_authenticated
          (v.window, v.turn) in
      record {
        channels =
            assign-IsValid node.virtual_channels vc
              (process_frame (node.virtual_channels vc) parsed now now).1 v.channels
              (process_frame-IsValid (node.virtual_channels vc) parsed now now (v.channels vc));
        window = mac.0;
        turn = mac.1;
      })

parsed-Kept :
    (x : External) (node : SkyAll) (frame : RadioFrame) (parsed : Result ParsedFrame) (now : ℤ)
    → Kept node (rx_parsed x node frame parsed now)
parsed-Kept x node frame (err e) now = err-Kept node e
parsed-Kept x node frame (ok parsed) now =
    let flags = (node.conf.vc parsed.hdr.vc).require_authentication in
    let jump = node.conf.hmac.maximum_jump in
    checked-Kept node frame.rx_time_ticks
      (check_authentication x flags jump node.hmac node.diag frame parsed) now
      (check-kept x flags jump node.hmac node.diag frame (swap_sequence parsed))

counted-Kept :
    (x : External) (node : SkyAll) (frame : RadioFrame) (now : ℤ)
    → Kept node (rx_counted x node frame now)
unfolding rx_counted
counted-Kept x node frame now =
    let n = identity_len_of frame in
    let parsed = read_header frame in
    elim (Bool-cases (bit_and (get_or frame.raw 0 0) 96 == 96)) [
      | inr other ↦ rw other (err-Kept node invalid_version)
      | inl version ↦ elim (Bool-cases (n == 0 || ltb 7 n)) [
        | inl unnamed ↦ rw (version, unnamed) (err-Kept node invalid_version)
        | inr named ↦ elim (Bool-cases (filter_by_identity node.conf (drop 1 frame.raw) n)) [
          | inl own ↦ rw (version, named, own) (err-Kept node filtered_by_identity)
          | inr peer ↦
              elim (Bool-cases
                (ltb frame.length (1 + n + static_header_size + parsed.hdr.extension_length))) [
                  | inl short ↦ rw (version, named, peer, short) (err-Kept node invalid_ext_length)
                  | inr long ↦
                      rw (version, named, peer, long)
                        (parsed-Kept x node frame
                          (parse_extension_headers frame.raw frame.length parsed) now)
                ]
        ]
      ]
    ]

-- The diagnostics are none of the link.
diag-Kept :
    (node : SkyAll) (d : Diagnostics) (outcome : Received)
    → Kept (record node { diag = d }) outcome
    → Kept node outcome
diag-Kept node d (err e, node') k = (
  λ named.
      let s = k.0 named in
      record {
        same_channels = s.same_channels;
        same_mac = s.same_mac;
        same_sequences = s.same_sequences;
      },
  λ v. k.1 (record { channels = v.channels; window = v.window; turn = v.turn }),
)
diag-Kept node d (ok tt, node') k =
    λ v. k (record { channels = v.channels; window = v.window; turn = v.turn })

plain-Kept :
    (x : External) (node : SkyAll) (frame : RadioFrame) (now : ℤ) → Kept node (rx x node frame now)
unfolding rx
plain-Kept x node frame now = elim (Bool-cases (ltb frame.length frame_min_len)) [
  | inl short ↦ rw short (err-Kept node invalid_plain_length)
  | inr long ↦ rw long (
      diag-Kept node (count_frame node.diag frame.length) _
        (counted-Kept x (record node { diag = count_frame node.diag frame.length }) frame now))
]

decoded-Kept :
    (x : External) (node : SkyAll) (outcome : Decoded) (now : ℤ)
    → Kept node (rx_decoded x node outcome now)
decoded-Kept x node (err e, frame, d) now =
    same-Kept node (record node { diag = d }) e
      (record { same_channels = refl; same_mac = refl; same_sequences = refl })
decoded-Kept x node (ok tt, frame, d) now =
    diag-Kept node d _ (plain-Kept x (record node { diag = d }) frame now)

fec-Kept :
    (x : External) (node : SkyAll) (frame : RadioFrame) (now : ℤ)
    → Kept node (rx_with_fec x node frame now)
unfolding rx_with_fec
fec-Kept x node frame now = elim (Bool-cases (ltb frame.length (frame_min_len + rs_paritys))) [
  | inl short ↦ rw short (err-Kept node invalid_encoded_length)
  | inr long ↦ rw long (decoded-Kept x node (fec_decode x frame node.diag) now)
]

of_length-Kept :
    (x : External) (node : SkyAll) (frame : RadioFrame) (word : Option ℕ) (now : ℤ)
    → Kept node (rx_of_length x node frame word now)
of_length-Kept x node frame none now =
    same-Kept node (record node { diag = fec_failed node.diag }) golay_failed
      (record { same_channels = refl; same_mac = refl; same_sequences = refl })
of_length-Kept x node frame (some word) now = elim (Bool-cases (ltb raw_size (word % 256))) [
  | inl long ↦ rw long (err-Kept node invalid_encoded_length)
  | inr fits ↦ rw fits (fec-Kept x node _ now)
]

-- A sound instance is sound after an outcome, whether it is an error or not.
outcome-IsSound :
    (node : SkyAll) (outcome : Received) → Kept node outcome → IsSound node → IsSound outcome.1
outcome-IsSound node (err e, node') k v = k.1 v
outcome-IsSound node (ok tt, node') k v = k v

same_of :
    (node node' : SkyAll) (e : Code) (outcome : Received)
    → Kept node outcome
    → outcome ≡ (err e, node')
    → e ≢ unnamed_failure
    → SameLink node node'
same_of node node' e outcome k same = (subst (Kept node) same k).0

-- Whatever bytes are received, plain, with error correction or with a coded length before that, and
-- whatever the coders and the hash compute: a sound instance is sound afterwards, after every error as
-- well. All its channels have valid rings, its own window is within the limits, and its round robin starts
-- at a channel.
pub rx-IsSound :
    (x : External) (node : SkyAll) (frame : RadioFrame) (now : ℤ)
    → IsSound node
    → IsSound (rx x node frame now).1
      × IsSound (rx_with_fec x node frame now).1
      × IsSound (rx_with_golay x node frame now).1
unfolding rx_with_golay
rx-IsSound x node frame now v = (
  outcome-IsSound node (rx x node frame now) (plain-Kept x node frame now) v,
  outcome-IsSound node (rx_with_fec x node frame now) (fec-Kept x node frame now) v,
  outcome-IsSound node (rx_with_golay x node frame now)
      (of_length-Kept x node frame (x.decode_golay24 (coded_len frame.raw)) now) v,
)

-- A received frame, plain, with error correction or with a coded length before that, is refused with a
-- code that has a name, hence by a check from the coded length to the sequence of the authentication.
-- Then neither a channel nor the medium access control nor an expected sequence has changed. (The
-- bare -1 is the channel's, when it is too late for that.)
pub rx-refused :
    (x : External) (node node' : SkyAll) (frame : RadioFrame) (now : ℤ) (e : Code)
    → e ≢ unnamed_failure
    → (rx x node frame now ≡ (err e, node'))
      ⊎ ((rx_with_fec x node frame now ≡ (err e, node'))
          ⊎ (rx_with_golay x node frame now ≡ (err e, node')))
    → (node'.virtual_channels ≡ node.virtual_channels)
      × (node'.mac ≡ node.mac)
      × (node'.hmac.sequence_rx ≡ node.hmac.sequence_rx)
unfolding rx_with_golay
rx-refused x node node' frame now e named refused =
    let same : SameLink node node' = elim refused [
      | inl plain ↦
          same_of node node' e (rx x node frame now) (plain-Kept x node frame now) plain named
      | inr (inl fec) ↦
          same_of node node' e (rx_with_fec x node frame now) (fec-Kept x node frame now) fec named
      | inr (inr golay) ↦
          same_of node node' e (rx_with_golay x node frame now)
            (of_length-Kept x node frame (x.decode_golay24 (coded_len frame.raw)) now) golay named
    ] in
    (same.same_channels, same.same_mac, same.same_sequences)
