-- ===== src/Hmac/Check.antt =====
-- Which frames the authentication of src/hmac.c accepts.
use skylink.Base.{
  ℕ, ◌+◌, ◌-◌, ◌%◌, ◌≡◌, ◌<◌, ◌≤◌, refl, ap, ◌∙◌, subst, arith, Bool, true, false, ◌&&◌, Option,
  none, some, List, length, ltb, ◌==◌, Bool-cases, inl, inr,
}
use skylink.Base.Int.{ℤ, pos, ltb_ℤ}
use skylink.Base.Result.{
  Code, ok, err, frame_too_short_for_hmac, auth_missing, auth_failed, excessive_hmac_jump,
}
use skylink.Utilities.{hton16}
use skylink.Frame.{ParsedFrame, hmac_length}
use skylink.Frame.Radio.{RadioFrame}
use skylink.Diag.{Diagnostics}
use skylink.External.{External}
use skylink.Hmac.{
  Hmac, Checked, assign, check_authentication, check_swapped, check_sequence,
  process_ext_hmac_sequence_reset, reset_by, requires_authentication, requires_sequence, jump_of,
  is_authentic, swap_sequence, without_trailer,
}
use skylink.Hmac.Sequences.{assign_self}

-- A frame that is accepted moves the expected sequence of its channel behind its own.
abbrev Moved : ParsedFrame → Checked → Type 0
Moved parsed (err e, hmac, d, left) = Unit {0}
Moved parsed (ok tt, hmac, d, left) =
    hmac.sequence_rx parsed.hdr.vc ≡ (parsed.hdr.frame_sequence + 1) % 65536

check_sequence-Moved :
    (flags : ℕ) (jump : ℤ) (hmac : Hmac) (d : Diagnostics) (parsed : ParsedFrame)
    → Moved parsed (check_sequence flags jump hmac d parsed)
unfolding check_sequence
check_sequence-Moved flags jump hmac d parsed =
    elim (Bool-cases (requires_sequence flags && ltb_ℤ jump (pos (jump_of hmac parsed)))) [
      | inl far ↦ rw far tt
      | inr near ↦
          rw near
            (assign_self hmac.sequence_rx parsed.hdr.vc ((parsed.hdr.frame_sequence + 1) % 65536))
    ]

check_swapped-Moved :
    (x : External) (flags : ℕ) (jump : ℤ) (hmac : Hmac) (d : Diagnostics) (frame : RadioFrame)
    (parsed : ParsedFrame)
    → requires_authentication flags ≡ true
    → Moved parsed (check_swapped x flags jump hmac d frame parsed)
unfolding check_swapped
check_swapped-Moved x flags jump hmac d frame parsed required =
    let flagged = parsed.hdr.flag_authenticated in
    elim (Bool-cases (flagged && ltb (length parsed.payload) hmac_length)) [
      | inl short ↦ simp short tt
      | inr long ↦ elim (Bool-cases flagged) [
        | inr missing ↦ simp long (simp (missing, required) tt)
        | inl there ↦ elim (Bool-cases (is_authentic x hmac frame)) [
          | inr forged ↦ simp long (simp (required, there, forged) tt)
          | inl authentic ↦ simp long (
              simp (required, there, authentic)
                (check_sequence-Moved flags jump (reset_by parsed.hmac_reset hmac parsed.hdr.vc) d
                  parsed))
        ]
      ]
    ]

pub reset_keeps :
    (ext : Option (List ℕ)) (hmac : Hmac) (vc : ℕ)
    → (reset_by ext hmac vc).sequence_rx ≡ hmac.sequence_rx
unfolding process_ext_hmac_sequence_reset
reset_keeps none hmac vc = refl
reset_keeps (some ext) hmac vc = elim (Bool-cases (length ext == 3)) [
  | inl long ↦ rw long refl
  | inr other ↦ rw other refl
]

-- A frame beyond the maximum jump is not accepted.
abbrev Refused : Checked → Type 0
Refused outcome = (e : Code) × (outcome.0 ≡ err e)

check_swapped-Refused :
    (x : External) (flags : ℕ) (jump : ℤ) (hmac : Hmac) (d : Diagnostics) (frame : RadioFrame)
    (parsed : ParsedFrame)
    → requires_authentication flags ≡ true
    → requires_sequence flags ≡ true
    → ltb_ℤ jump (pos (jump_of hmac parsed)) ≡ true
    → Refused (check_swapped x flags jump hmac d frame parsed)
unfolding check_swapped check_sequence
check_swapped-Refused x flags jump hmac d frame parsed required sequenced far =
    let flagged = parsed.hdr.flag_authenticated in
    let hmac' = reset_by parsed.hmac_reset hmac parsed.hdr.vc in
    let far' : ltb_ℤ jump (pos (jump_of hmac' parsed)) ≡ true =
      ap (λ s. ltb_ℤ jump (pos ((parsed.hdr.frame_sequence + 65536 - s parsed.hdr.vc) % 65536)))
        (reset_keeps parsed.hmac_reset hmac parsed.hdr.vc)
      ∙ far in
    elim (Bool-cases (flagged && ltb (length parsed.payload) hmac_length)) [
      | inl short ↦ simp short (frame_too_short_for_hmac, refl)
      | inr long ↦ elim (Bool-cases flagged) [
        | inr missing ↦ simp long (simp (missing, required) (auth_missing, refl))
        | inl there ↦ elim (Bool-cases (is_authentic x hmac frame)) [
          | inr forged ↦ simp long (simp (required, there, forged) (auth_failed, refl))
          | inl authentic ↦ simp long (
              simp (required, there, authentic)
                (simp (sequenced, far') (excessive_hmac_jump, refl)))
        ]
      ]
    ]

jump_behind :
    (s back : ℕ) (m sequence : ℕ)
    → (s + back) % 65536 ≡ sequence
    → s < 65536
    → back + m < 65535
    → m < (s + 65536 - (sequence + 1) % 65536) % 65536
jump_behind s back m sequence e h k = omega arith

hton16_word : (v : ℕ) → hton16 v < 65536
unfolding hton16
hton16_word v = omega arith

expected_of :
    (parsed left : ParsedFrame) (outcome : Checked) (hmac : Hmac) (d : Diagnostics)
    → Moved parsed outcome
    → outcome ≡ (ok tt, hmac, d, left)
    → hmac.sequence_rx parsed.hdr.vc ≡ (parsed.hdr.frame_sequence + 1) % 65536
expected_of parsed left outcome hmac d m e = subst (Moved parsed) e m

-- On a channel that requires authentication and sequences, a frame was accepted. Whatever frame of this
-- channel is checked next is refused if its sequence is the accepted one or up to `back` before it,
-- where `back` and the maximum jump add up to less than 65535: it is no replay of a frame. Sequences are
-- those in network byte order.
pub check_authentication_replay :
    (x : External) (flags m back : ℕ) (hmac hmac' : Hmac) (d d' d'' : Diagnostics)
    (frame again : RadioFrame) (received left replayed : ParsedFrame)
    → requires_authentication flags ≡ true
    → requires_sequence flags ≡ true
    → back + m < 65535
    → check_authentication x flags (pos m) hmac d frame received ≡ (ok tt, hmac', d', left)
    → replayed.hdr.vc ≡ received.hdr.vc
    → (hton16 replayed.hdr.frame_sequence + back) % 65536 ≡ hton16 received.hdr.frame_sequence
    → (e : Code) × ((check_authentication x flags (pos m) hmac' d'' again replayed).0 ≡ err e)
check_authentication_replay x flags m back hmac hmac' d d' d'' frame again received left replayed
      required sequenced h accepted same behind =
    let parsed = swap_sequence received in
    let moved =
      expected_of parsed left (check_authentication x flags (pos m) hmac d frame received) hmac' d'
        (check_swapped-Moved x flags (pos m) hmac d frame parsed required) accepted in
    let expected : hmac'.sequence_rx replayed.hdr.vc
        ≡ (hton16 received.hdr.frame_sequence + 1) % 65536 =
      ap hmac'.sequence_rx same ∙ moved in
    let far : ltb_ℤ (pos m) (pos (jump_of hmac' (swap_sequence replayed))) ≡ true = ground (
      arith,
      expected,
      jump_behind (hton16 replayed.hdr.frame_sequence) back m (hton16 received.hdr.frame_sequence)
          behind (hton16_word replayed.hdr.frame_sequence) h,
    ) in
    check_swapped-Refused x flags (pos m) hmac' d'' again (swap_sequence replayed) required
      sequenced far

and_false : (b c : Bool) → c ≡ false → (b && c) ≡ false
and_false true c e = e
and_false false c e = refl

accepted :
    (x : External) (flags m : ℕ) (hmac : Hmac) (d : Diagnostics) (frame : RadioFrame)
    (parsed : ParsedFrame)
    → requires_authentication flags ≡ true
    → parsed.hdr.flag_authenticated ≡ true
    → hmac_length ≤ length parsed.payload
    → is_authentic x hmac frame ≡ true
    → jump_of hmac parsed ≤ m
    → (hmac' : Hmac) × (check_swapped x flags (pos m) hmac d frame parsed
        ≡ (ok tt, hmac', d, without_trailer parsed))
      × (hmac'.sequence_rx parsed.hdr.vc ≡ (parsed.hdr.frame_sequence + 1) % 65536)
unfolding check_swapped check_sequence
accepted x flags m hmac d frame parsed required there fits authentic near =
    let long : ltb (length parsed.payload) hmac_length ≡ false = ground (arith, fits) in
    let base = reset_by parsed.hmac_reset hmac parsed.hdr.vc in
    let near' : ltb_ℤ (pos m) (pos (jump_of base parsed)) ≡ false =
      ap (λ s. ltb_ℤ (pos m) (pos ((parsed.hdr.frame_sequence + 65536 - s parsed.hdr.vc) % 65536)))
        (reset_keeps parsed.hmac_reset hmac parsed.hdr.vc)
      ∙ (let e : ltb_ℤ (pos m) (pos (jump_of hmac parsed)) ≡ false = ground (arith, near) in e) in
    let outside =
      and_false parsed.hdr.flag_authenticated (ltb (length parsed.payload) hmac_length) long in
    let within =
      and_false (requires_sequence flags) (ltb_ℤ (pos m) (pos (jump_of base parsed))) near' in
    (
      record base {
        sequence_rx =
            assign base.sequence_rx parsed.hdr.vc ((parsed.hdr.frame_sequence + 1) % 65536);
      },
      simp outside (simp (required, there, authentic) (simp within refl)),
      assign_self base.sequence_rx parsed.hdr.vc ((parsed.hdr.frame_sequence + 1) % 65536),
    )
