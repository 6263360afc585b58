-- ===== src/Node/Air.antt =====
-- A frame on its way from src/skylink_tx.c to src/skylink_rx.c, with error correction and a coded length.
use skylink.Base.{
  ℕ, ◌+◌, ◌-◌, ◌/◌, ◌%◌, ◌^◌, ◌≤◌, ◌<◌, ◌≡◌, refl, sym, ap, ◌∙◌, subst, arith, some, List, ◌++◌,
  if◌then◌else◌, ltb, length, get_or, set, take, drop, length-append, length-take, length-drop,
  length-set, get_or-set_self, get_or-set_ne, false,
}
use skylink.Base.Int.{ℤ}
use skylink.Base.Result.{err, invalid_encoded_length}
use skylink.Frame.Radio.{RadioFrame}
use skylink.External.{External}
use skylink.Diag.{Diagnostics}
use skylink.Fec.{fec_encode, fec_decode}
use skylink.Fec.RoundTrip.{distance, length-whiten, fec_decode-fec_encode}
use skylink.Node.{SkyAll}
use skylink.Node.Shift.{
  with_header, length-with_header, length-shift, unshift-shift, length-unshift, distance_first,
}
use skylink.Tx.{shift, add_phy_header}
use skylink.Rx.{
  Received, rx, rx_decoded, rx_with_fec, rx_of_length, rx_with_golay, coded_len, unshift,
}

-- The memory that an encoded frame takes.
fec_encode_memory :
    (x : External) (frame : RadioFrame)
    → frame.length ≤ 194
    → length frame.raw ≡ 229
    → length (x.encode_rs_8 (take frame.length frame.raw) (223 - frame.length)) ≡ 32
    → let coded = (fec_encode x frame).1 in
      (coded.length ≡ frame.length + 32) × (length coded.raw ≡ 229)
unfolding fec_encode
fec_encode_memory x frame short size parity_length =
    let fits : ltb 223 frame.length ≡ false = ground (arith, short) in
    let n = frame.length + 32 in
    let bytes = take frame.length frame.raw in
    let parity = x.encode_rs_8 bytes (223 - frame.length) in
    let rest = drop n frame.raw in
    rw fits (
      refl,
      omega (
        arith,
        length-whiten n 0 (bytes ++ (parity ++ rest)),
        length-append bytes (parity ++ rest),
        length-append parity rest,
        length-take frame.length frame.raw,
        length-drop n frame.raw,
        parity_length,
        size,
      ),
    )

-- The three bytes of a word are read back.
coded_len-with_header :
    (raw : List ℕ) (w : ℕ)
    → 3 ≤ length raw
    → w < 2 ^ 24
    → coded_len (with_header raw (w / 65536 % 256) (w / 256 % 256) (w % 256)) ≡ w
coded_len-with_header raw w h k =
    let a = w / 65536 % 256 in
    let b = w / 256 % 256 in
    let c = w % 256 in
    let one = set raw 0 a in
    let two = set one 1 b in
    let three = set two 2 c in
    let l1 = length-set raw 0 a in
    let l2 = length-set one 1 b in
    let first : get_or three 0 0 ≡ a =
      get_or-set_ne two 2 0 c 0 (λ e. omega arith)
      ∙ get_or-set_ne one 1 0 b 0 (λ e. omega arith)
      ∙ get_or-set_self raw 0 a 0 (omega arith) in
    let second : get_or three 1 0 ≡ b =
      get_or-set_ne two 2 1 c 0 (λ e. omega arith)
      ∙ get_or-set_self one 1 b 0 (omega (arith, l1)) in
    let third : get_or three 2 0 ≡ c = get_or-set_self two 2 c 0 (omega (arith, l1, l2)) in
    omega (arith, first, second, third)

-- The frame behind the coded length, as the receiver has it in its memory.
abbrev pub behind_header : External → RadioFrame → RadioFrame
behind_header x coded = record {
  rx_time_ticks = coded.rx_time_ticks;
  length = coded.length;
  raw = unshift coded.length 0 (add_phy_header x coded).raw;
}

-- The receiver decodes that frame.
rx_behind_header :
    (x : External) (node : SkyAll) (coded : RadioFrame) (now : ℤ)
    → 39 ≤ coded.length
    → coded.length ≤ 226
    → length coded.raw ≡ 229
    → x.encode_golay24 coded.length < 2 ^ 24
    → x.decode_golay24 (x.encode_golay24 coded.length) ≡ some coded.length
    → rx_with_golay x node (add_phy_header x coded) now
      ≡ rx_decoded x node (fec_decode x (behind_header x coded) node.diag) now
unfolding rx_with_golay rx_with_fec add_phy_header
rx_behind_header x node coded now long short size word decodes =
    let n = coded.length in
    let sent = add_phy_header x coded in
    let moved = shift n coded.raw in
    let header : coded_len sent.raw ≡ x.encode_golay24 n =
      coded_len-with_header moved (x.encode_golay24 n)
        (omega (arith, length-shift n coded.raw, size)) word in
    let same : n % 256 ≡ n = omega arith in
    let of_length : ℕ → Received = λ k.
      if ltb 229 k
      then (err invalid_encoded_length, node)
      else rx_with_fec x node (record sent { length = k; raw = unshift k 0 sent.raw }) now in
    let inside : ltb 229 n ≡ false = ground (arith, short) in
    let enough : ltb n 39 ≡ false = ground (arith, long) in
    ap (λ o. rx_of_length x node sent o now) (ap x.decode_golay24 header ∙ decodes)
    ∙ ap of_length same
    ∙ rw (inside, enough) refl

length-behind_header :
    (x : External) (coded : RadioFrame) → length (behind_header x coded).raw ≡ length coded.raw
unfolding add_phy_header
length-behind_header x coded =
    let n = coded.length in
    let word = x.encode_golay24 n in
    let a = word / 65536 % 256 in
    let b = word / 256 % 256 in
    let c = word % 256 in
    length-unshift n 0 (with_header (shift n coded.raw) a b c)
    ∙ length-with_header (shift n coded.raw) a b c
    ∙ length-shift n coded.raw

-- At most the first byte of the frame behind the coded length is damaged.
behind_header_damage :
    (x : External) (coded : RadioFrame)
    → coded.length ≤ 226
    → length coded.raw ≡ 229
    → distance (take coded.length (behind_header x coded).raw) (take coded.length coded.raw) ≤ 1
unfolding add_phy_header
behind_header_damage x coded short size =
    let n = coded.length in
    let word = x.encode_golay24 n in
    let a = word / 65536 % 256 in
    let b = word / 256 % 256 in
    let c = word % 256 in
    let moved = with_header (shift n coded.raw) a b c in
    let same = length-behind_header x coded in
    distance_first n (unshift n 0 moved) coded.raw (omega (arith, same)) (omega arith)
      (λ j p q. unshift-shift n coded.raw a b c j (omega arith) p q)

-- A frame of 7 to 194 bytes, in a memory of 229, that is sent with error correction and a coded length
-- is received as it was before: the receiver goes on with a frame of the same length and the same bytes,
-- and only diagnostics differ. The Golay coder decodes the coded length, a word of 24 bits; the
-- Reed-Solomon coder has 32 parity bytes and corrects up to 16 damaged ones in the block of this frame.
-- One byte needs it, since moving the frame behind its coded length loses the first byte.
pub rx_with_golay-add_phy_header :
    (x : External) (node : SkyAll) (frame : RadioFrame) (now : ℤ)
    → 7 ≤ frame.length
    → frame.length ≤ 194
    → length frame.raw ≡ 229
    → let bytes = take frame.length frame.raw in
      let parity = x.encode_rs_8 bytes (223 - frame.length) in
      let word = x.encode_golay24 (frame.length + 32) in
      length parity ≡ 32
      → ((block : List ℕ)
          → length block ≡ frame.length + 32
          → distance block (bytes ++ parity) ≤ 16
          → x.decode_rs_8 block (223 - frame.length)
            ≡ (some (distance block (bytes ++ parity)), bytes ++ parity))
      → word < 2 ^ 24
      → x.decode_golay24 word ≡ some (frame.length + 32)
      → (d : Diagnostics) × (out : RadioFrame) × (rx_with_golay x node
            (add_phy_header x (fec_encode x frame).1)
            now
          ≡ rx x (record node { diag = d }) out now)
        × (out.length ≡ frame.length)
        × (take out.length out.raw ≡ bytes)
rx_with_golay-add_phy_header x node frame now long short size parity_length corrects small decodes =
    let coded = (fec_encode x frame).1 in
    let (coded_length, coded_size) = fec_encode_memory x frame short size parity_length in
    let received = behind_header x coded in
    let damage = behind_header_damage x coded (omega (arith, coded_length)) coded_size in
    let word = subst (λ n. x.encode_golay24 n < 2 ^ 24) (sym coded_length) small in
    let decoded =
      subst (λ n. x.decode_golay24 (x.encode_golay24 n) ≡ some n) (sym coded_length) decodes in
    let held : received.length ≤ length received.raw =
      omega (arith, length-behind_header x coded, coded_length, coded_size) in
    let (out, e, l, m) =
      fec_decode-fec_encode x frame received node.diag (omega arith) (omega arith) coded_length held
        parity_length corrects (omega (arith, damage)) in
    (
      _,
      out,
      rx_behind_header x node coded now (omega (arith, coded_length)) (omega (arith, coded_length))
            coded_size word decoded
          ∙ ap (λ o. rx_decoded x node o now) e,
      l,
      m,
    )
