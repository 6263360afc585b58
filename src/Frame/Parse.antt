-- ===== src/Frame/Parse.antt =====
-- The parser of src/frame.c against an encoding of extensions.
use skylink.Base.{
  ℕ, zero, suc, ◌+◌, ◌*◌, ◌/◌, ◌%◌, ◌<◌, ◌≤◌, ◌≡◌, refl, sym, ap, ◌∙◌, arith, true, false, some,
  none, List, [], ◌∷◌, ◌++◌, if◌then◌else◌, ltb, leb, length, get_or, take, drop, length-append,
  drop-append, append_assoc, drop-drop, take-append,
}
use skylink.Base.Result.{Result, Code, ok, err, invalid_ext_length}
use skylink.Frame.{
  TransmitFrame, ParsedFrame, static_header_size, append_extension, parse_extension, parse_loop,
  parse_extension_headers, add_extension_arq_sequence, add_extension_arq_ctrl,
}

-- An extension is a type and its bytes.
abbrev pub encode : List (ℕ × List ℕ) → List ℕ
encode [] = []
encode ((type, bytes) ∷ es) = (type + 16 * length bytes) ∷ bytes ++ encode es

abbrev pub Small : List (ℕ × List ℕ) → Type 0
Small [] = Unit {0}
Small ((type, bytes) ∷ es) = (type < 16) × (length bytes < 16) × Small es

-- The extensions noted one after the other, up to the first error.
abbrev pub parse_all : List (ℕ × List ℕ) → Result ParsedFrame → Result ParsedFrame
parse_all es (err e) = err e
parse_all [] (ok p) = ok p
parse_all ((type, bytes) ∷ es) (ok p) = parse_all es (parse_extension p type (length bytes) bytes)

get_or-drop : (xs : List ℕ) (i : ℕ) → get_or xs i 0 ≡ get_or (drop i xs) 0 0
get_or-drop [] zero = refl
get_or-drop [] (suc i) = refl
get_or-drop (x ∷ xs) zero = refl
get_or-drop (x ∷ xs) (suc i) = get_or-drop xs i

parse_loop_err :
    (f cursor end n : ℕ) (raw : List ℕ) (p : Result ParsedFrame)
    → (e : Code) → p ≡ err e
    → parse_loop f cursor end raw n p ≡ err e
unfolding parse_loop
parse_loop_err zero cursor end n raw p e h = h
parse_loop_err (suc f) cursor end n raw p e h = rw h refl

parse_loop-encode :
    (es : List (ℕ × List ℕ)) (raw rest : List ℕ) (c f n : ℕ) (p : Result ParsedFrame)
    → drop c raw ≡ encode es ++ rest
    → Small es
    → length (encode es) < f
    → c + length (encode es) ≤ n
    → parse_loop f c (c + length (encode es)) raw n p ≡ parse_all es p
unfolding parse_loop
parse_loop-encode es raw rest c f n (err e) at small h k =
    parse_loop_err f c (c + length (encode es)) n raw (err e) e refl
parse_loop-encode es raw rest c zero n (ok p) at small h k = absurd (omega arith)
parse_loop-encode [] raw rest c (suc f) n (ok p) at small h k =
    let done : leb (c + 0) c ≡ true = ground arith in rw done refl
parse_loop-encode ((type, bytes) ∷ es) raw rest c (suc f) n (ok p) at small h k =
    let head : get_or raw c 0 ≡ type + 16 * length bytes =
      get_or-drop raw c ∙ ap (λ t. get_or t 0 0) at in
    let behind : drop (c + 1) raw ≡ bytes ++ (encode es ++ rest) =
      sym (drop-drop c 1 raw) ∙ ap (λ t. drop 1 t) at ∙ append_assoc bytes (encode es) rest in
    let len : (type + 16 * length bytes) / 16 % 16 ≡ length bytes = omega (arith, small) in
    let low : (type + 16 * length bytes) % 16 ≡ type = omega (arith, small) in
    let sum = length-append bytes (encode es) in
    let further : leb (c + suc (length (bytes ++ encode es))) c ≡ false = ground (arith, sum) in
    let inside : ltb n (c + 1 + length bytes) ≡ false = ground (arith, sum) in
    let taken : take (length bytes) (drop (c + 1) raw) ≡ bytes =
      ap (take (length bytes)) behind ∙ take-append bytes (encode es ++ rest) in
    let next : drop (c + 1 + length bytes) raw ≡ encode es ++ rest =
      sym (drop-drop (c + 1) (length bytes) raw)
      ∙ ap (drop (length bytes)) behind
      ∙ drop-append bytes (encode es ++ rest) in
    let end : c + suc (length (bytes ++ encode es)) ≡ c + 1 + length bytes + length (encode es) =
      omega (arith, sum) in
    rw (head, len, low, further, inside, taken, end)
      (parse_loop-encode es raw rest (c + 1 + length bytes) f n
        (parse_extension p type (length bytes) bytes) next small.2 (omega (arith, sum))
        (omega (arith, sum)))

-- A frame whose bytes behind the identity and the static header, which `pre` are, begin with the
-- encoded extensions, and whose header has their length, parses to what these extensions note one after
-- the other, the first error included. Types and lengths are those of four bits, and the frame is long enough.
pub parse_extension_headers-encode :
    (es : List (ℕ × List ℕ)) (pre rest : List ℕ) (n : ℕ) (p : ParsedFrame)
    → let raw = pre ++ (encode es ++ rest) in
      length pre ≡ 1 + get_or raw 0 0 % 8 + static_header_size
      → p.hdr.extension_length ≡ length (encode es)
      → length pre + length (encode es) ≤ n
      → Small es
      → parse_extension_headers raw n p ≡ parse_all es (ok p)
unfolding parse_extension_headers
parse_extension_headers-encode es pre rest n p at len h small =
    let raw = pre ++ (encode es ++ rest) in
    let body : ℕ → ℕ → Result ParsedFrame = λ c size.
      if ltb n (c + size)
      then err invalid_ext_length
      else parse_loop (size + 1) c (c + size) raw n (ok p) in
    let fits : ltb n (length pre + length (encode es)) ≡ false = ground arith in
    (λ i. body (sym at i) (len i))
    ∙ rw fits (
        parse_loop-encode es raw rest (length pre) (length (encode es) + 1) n (ok p)
          (drop-append pre (encode es ++ rest)) small (omega arith) h)

-- A frame of less than 175 bytes, without extensions and payload, takes a control and a sequence
-- extension, as a frame with an ARQ payload does. Behind the identity and the static header, which
-- `pre` are, and with its extension length, they parse to just the sequences that were written, into
-- a result that holds none of the two before.
pub data_frame-parses :
    (tx : TransmitFrame) (pre payload : List ℕ) (tx_sequence rx_sequence sequence n : ℕ)
    (p : ParsedFrame)
    → tx.written ≡ []
    → tx.hdr.extension_length ≡ 0
    → tx.hdr.flag_has_payload ≡ false
    → tx.length < 175
    → let written = 34 ∷ tx_sequence ∷ rx_sequence ∷ 16 ∷ sequence ∷ [] in
      let raw = pre ++ (written ++ payload) in
      length pre ≡ 1 + get_or raw 0 0 % 8 + static_header_size
      → p.hdr.extension_length ≡ 5
      → p.arq_ctrl ≡ none
      → p.arq_sequence ≡ none
      → length pre + 5 ≤ n
      → (tx1 : TransmitFrame) × (tx2 : TransmitFrame) × (add_extension_arq_ctrl tx tx_sequence
            rx_sequence
          ≡ some tx1)
        × (add_extension_arq_sequence tx1 sequence ≡ some tx2)
        × (tx2.written ≡ written)
        × (tx2.hdr.extension_length ≡ 5)
        × (tx2.length ≡ tx.length + 5)
        × (parse_extension_headers raw n p
            ≡ ok (record p {
              arq_ctrl = some (tx_sequence ∷ rx_sequence ∷ []);
              arq_sequence = some (sequence ∷ []);
            }))
unfolding add_extension_arq_ctrl add_extension_arq_sequence parse_extension
data_frame-parses tx pre payload a b s n p none_written no_ext open_frame short at ext c q h =
    let room : ltb (tx.length + 1 + 2) 181 ≡ true = ground arith in
    let room' : ltb (tx.length + 3 + 1 + 1) 181 ≡ true = ground arith in
    let es : List (ℕ × List ℕ) = (2, a ∷ b ∷ []) ∷ (0, s ∷ []) ∷ [] in
    (
      append_extension tx 2 (a ∷ b ∷ []),
      append_extension (append_extension tx 2 (a ∷ b ∷ [])) 0 (s ∷ []),
      rw (open_frame, room) refl,
      rw (open_frame, room') refl,
      ap (λ t. (t ++ (34 ∷ a ∷ b ∷ [])) ++ (16 ∷ s ∷ [])) none_written,
      ap (λ t. ((t + 3) % 256 + 2) % 256) no_ext,
      omega arith,
      parse_extension_headers-encode es pre payload n p at ext h
            (omega arith, omega arith, (omega arith, omega arith, tt))
          ∙ rw (c, q) refl,
    )
