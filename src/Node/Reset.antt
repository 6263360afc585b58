-- ===== src/Node/Reset.antt =====
-- What becomes of a reset of the sequences of src/hmac.c, which a peer asks for in an extension that
-- src/skylink_rx.c has parsed.
use Prim.Native.Nat.{bit_and}
use skylink.Base.{
  ℕ, zero, suc, ◌+◌, ◌/◌, ◌%◌, ◌≤◌, ◌≡◌, refl, arith, false, not, ◌&&◌, ◌||◌, Option, none, some,
  List, ltb, leb, ◌==◌, ==_iff, length, get_or, take, drop, length-take, Bool-cases, inl, inr,
  if_both,
}
use skylink.Base.Int.{ℤ, pos, ltb_ℤ}
use skylink.Base.Result.{Result, ok, err}
use skylink.Frame.{
  ParsedFrame, hmac_length, static_header_size, note, noted, parse_extension, parse_loop,
  parse_extension_headers,
}
use skylink.Frame.Radio.{RadioFrame, frame_min_len, raw_size}
use skylink.Hmac.{
  Hmac, Checked, check_swapped, check_sequence, reset_by, process_ext_hmac_sequence_reset,
  requires_authentication, requires_sequence, jump_of, is_authentic, swap_sequence,
}
use skylink.Diag.{Diagnostics}
use skylink.Fec.{rs_paritys, Decoded}
use skylink.External.{External}
use skylink.Node.{SkyAll}
use skylink.Rx.{
  Received, rx_checked, rx_parsed, rx_counted, rx, count_frame, rx_decoded, rx_with_fec,
  rx_of_length, rx_with_golay, filter_by_identity, identity_len_of, read_header, coded_len,
}

-- A reset extension is shorter than three bytes, if there is one.
abbrev IsShort : Option (List ℕ) → Type 0
IsShort none = Unit {0}
IsShort (some ext) = length ext ≤ 2

abbrev ParsedShort : Result ParsedFrame → Type 0
ParsedShort (err e) = Unit {0}
ParsedShort (ok p) = IsShort p.hmac_reset

noted-ParsedShort :
    (r : Result (List ℕ)) (f : List ℕ → ParsedFrame)
    → ((bytes : List ℕ) → IsShort (f bytes).hmac_reset)
    → ParsedShort (noted r f)
noted-ParsedShort (err e) f h = tt
noted-ParsedShort (ok bytes) f h = h bytes

reset-ParsedShort :
    (old : Option (List ℕ)) (p : ParsedFrame) (len : ℕ) (bytes : List ℕ)
    → length bytes ≤ len
    → ParsedShort (noted (note old 2 len bytes) (λ bs. record p { hmac_reset = some bs }))
reset-ParsedShort (some ext) p len bytes h = tt
reset-ParsedShort none p len bytes h = elim (Bool-cases (len == 2)) [
  | inl two ↦ rw two (let e = (==_iff len 2).0 two in omega (arith, e))
  | inr other ↦ rw other tt
]

extension-ParsedShort :
    (p : ParsedFrame) (type len : ℕ) (bytes : List ℕ)
    → IsShort p.hmac_reset
    → length bytes ≤ len
    → ParsedShort (parse_extension p type len bytes)
unfolding parse_extension
extension-ParsedShort p type len bytes h k =
    if_both ParsedShort (type == 0) _ _ (noted-ParsedShort _ _ (λ bs. h)) (
      if_both ParsedShort (type == 1) _ _ (noted-ParsedShort _ _ (λ bs. h)) (
        if_both ParsedShort (type == 2) _ _ (noted-ParsedShort _ _ (λ bs. h)) (
          if_both ParsedShort (type == 3) _ _ (noted-ParsedShort _ _ (λ bs. h)) (
            if_both ParsedShort (type == 4) _ _ (noted-ParsedShort _ _ (λ bs. h)) (
              if_both ParsedShort (type == 5) _ _ (reset-ParsedShort p.hmac_reset p len bytes k)
                tt)))))

loop-ParsedShort :
    (f cursor end n : ℕ) (raw : List ℕ) (p : Result ParsedFrame)
    → ParsedShort p
    → ParsedShort (parse_loop f cursor end raw n p)
unfolding parse_loop
loop-ParsedShort zero cursor end n raw p h = h
loop-ParsedShort (suc f) cursor end n raw (err e) h = tt
loop-ParsedShort (suc f) cursor end n raw (ok p) h =
    let head = get_or raw cursor 0 in
    let len = head / 16 % 16 in
    let next = cursor + 1 + len in
    let bytes = take len (drop (cursor + 1) raw) in
    if_both ParsedShort (leb end cursor) (ok p) _ h (
      if_both ParsedShort (ltb n next) _ _ tt (
        loop-ParsedShort f next end n raw (parse_extension p (head % 16) len bytes) (
          extension-ParsedShort p (head % 16) len bytes h
            (omega (arith, length-take len (drop (cursor + 1) raw))))))

headers-ParsedShort :
    (raw : List ℕ) (n : ℕ) (p : ParsedFrame)
    → IsShort p.hmac_reset
    → ParsedShort (parse_extension_headers raw n p)
unfolding parse_extension_headers
headers-ParsedShort raw n p h =
    if_both ParsedShort
      (ltb n (1 + get_or raw 0 0 % 8 + static_header_size + p.hdr.extension_length)) _ _ tt
      (loop-ParsedShort (p.hdr.extension_length + 1) _ _ n raw (ok p) h)

short-keeps :
    (ext : Option (List ℕ)) (hmac : Hmac) (vc : ℕ)
    → IsShort ext
    → (reset_by ext hmac vc).sequence_tx ≡ hmac.sequence_tx
unfolding process_ext_hmac_sequence_reset
short-keeps none hmac vc h = refl
short-keeps (some ext) hmac vc h =
    let other : (length ext == 3) ≡ false = ground (arith, h) in rw other refl

-- The sequences to transmit are those.
abbrev Numbers : (ℕ → ℕ) → Checked → Type 0
Numbers s outcome = outcome.1.sequence_tx ≡ s

swapped-Numbers :
    (x : External) (flags : ℕ) (jump : ℤ) (hmac : Hmac) (d : Diagnostics) (frame : RadioFrame)
    (parsed : ParsedFrame)
    → IsShort parsed.hmac_reset
    → Numbers hmac.sequence_tx (check_swapped x flags jump hmac d frame parsed)
unfolding check_swapped check_sequence
swapped-Numbers x flags jump hmac d frame parsed h =
    let same = Numbers hmac.sequence_tx in
    let flagged = parsed.hdr.flag_authenticated in
    let hmac' = reset_by parsed.hmac_reset hmac parsed.hdr.vc in
    let kept = short-keeps parsed.hmac_reset hmac parsed.hdr.vc h in
    if_both same (flagged && ltb (length parsed.payload) hmac_length) _ _ refl (
      if_both same (not (requires_authentication flags)) _ _ refl (
        if_both same (not flagged) _ _ refl (
          if_both same (not (is_authentic x hmac frame)) _ _ refl (
            if_both same (requires_sequence flags && ltb_ℤ jump (pos (jump_of hmac' parsed))) _ _
              kept kept))))

-- The instance has these sequences to transmit.
abbrev Numbered : (ℕ → ℕ) → Received → Type 0
Numbered s outcome = outcome.1.hmac.sequence_tx ≡ s

checked-Numbered :
    (node : SkyAll) (ticks : ℤ) (outcome : Checked) (now : ℤ) (s : ℕ → ℕ)
    → Numbers s outcome
    → Numbered s (rx_checked node ticks outcome now)
checked-Numbered node ticks (err e, hmac, d, parsed) now s h = h
checked-Numbered node ticks (ok tt, hmac, d, parsed) now s h = h

parsed-Numbered :
    (x : External) (node : SkyAll) (frame : RadioFrame) (parsed : Result ParsedFrame) (now : ℤ)
    → ParsedShort parsed
    → Numbered node.hmac.sequence_tx (rx_parsed x node frame parsed now)
parsed-Numbered x node frame (err e) now h = refl
parsed-Numbered x node frame (ok parsed) now h =
    let flags = (node.conf.vc parsed.hdr.vc).require_authentication in
    let jump = node.conf.hmac.maximum_jump in
    checked-Numbered node frame.rx_time_ticks
      (check_swapped x flags jump node.hmac node.diag frame (swap_sequence parsed)) now
      node.hmac.sequence_tx
      (swapped-Numbers x flags jump node.hmac node.diag frame (swap_sequence parsed) h)

plain-Numbered :
    (x : External) (node : SkyAll) (frame : RadioFrame) (now : ℤ)
    → Numbered node.hmac.sequence_tx (rx x node frame now)
unfolding rx rx_counted
plain-Numbered x node frame now =
    let same = Numbered node.hmac.sequence_tx in
    let n = identity_len_of frame in
    let parsed = read_header frame in
    let counted = record node { diag = count_frame node.diag frame.length } in
    if_both same (ltb frame.length frame_min_len) _ _ refl (
      if_both same (not (bit_and (get_or frame.raw 0 0) 96 == 96)) _ _ refl (
        if_both same (n == 0 || ltb 7 n) _ _ refl (
          if_both same (filter_by_identity node.conf (drop 1 frame.raw) n) _ _ refl (
            if_both same
              (ltb frame.length (1 + n + static_header_size + parsed.hdr.extension_length)) _ _ refl
              (parsed-Numbered x counted frame
                (parse_extension_headers frame.raw frame.length parsed) now
                (headers-ParsedShort frame.raw frame.length parsed tt))))))

decoded-Numbered :
    (x : External) (node : SkyAll) (outcome : Decoded) (now : ℤ)
    → Numbered node.hmac.sequence_tx (rx_decoded x node outcome now)
decoded-Numbered x node (err e, frame, d) now = refl
decoded-Numbered x node (ok tt, frame, d) now =
    plain-Numbered x (record node { diag = d }) frame now

of_length-Numbered :
    (x : External) (node : SkyAll) (frame : RadioFrame) (word : Option ℕ) (now : ℤ)
    → Numbered node.hmac.sequence_tx (rx_of_length x node frame word now)
unfolding rx_with_fec
of_length-Numbered x node frame none now = refl
of_length-Numbered x node frame (some word) now =
    let same = Numbered node.hmac.sequence_tx in
    if_both same (ltb raw_size (word % 256)) _ _ refl (
      if_both same (ltb (word % 256) (frame_min_len + rs_paritys)) _ _ refl
        (decoded-Numbered x node _ now))

-- Whatever frame is received, authentic and with a sequence reset or not, the sequences of the
-- frames to transmit stay as they are: the check of its length accepts no reset that the parser does.
pub rx-keeps_sequence_tx :
    (x : External) (node : SkyAll) (frame : RadioFrame) (now : ℤ)
    → (rx_with_golay x node frame now).1.hmac.sequence_tx ≡ node.hmac.sequence_tx
unfolding rx_with_golay
rx-keeps_sequence_tx x node frame now =
    of_length-Numbered x node frame (x.decode_golay24 (coded_len frame.raw)) now
