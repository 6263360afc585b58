-- ===== src/ReliableVc/Handshake.antt =====
-- The handshake of two virtual channels of src/reliable_vc.c.
use skylink.Base.{
  ℕ, ◌^◌, ◌<◌, ◌≡◌, refl, sym, ap, ◌∙◌, subst, arith, Bool, true, some, List, ◌∷◌, ◌==◌, ==_iff,
}
use skylink.Base.Int.{ℤ, pos, ltb_ℤ}
use skylink.Base.Result.{ok}
use skylink.Utilities.{hton16, hton32}
use skylink.Frame.{
  TransmitFrame, append_extension, bytes32, word32, has_room, add_extension_arq_handshake,
}
use skylink.ReliableVc.{VirtualChannel, ArqState, off, in_init, on, ArqConfig, wipe_to_arq_on_state}
use skylink.ReliableVc.Frames.{
  handle_handshake, handshake_in, handle_extension, state_number, fill_in_init, fill_handshake,
  renewed,
}

word32-bytes32 : (v : ℕ) → v < 2 ^ 32 → word32 (bytes32 v) ≡ v
word32-bytes32 v h = omega arith

hton32_bound : (v : ℕ) → hton32 v < 2 ^ 32
unfolding hton32
hton32_bound v = omega arith

-- Swapping the bytes of a word twice gives the word, of 16 bits and of 32.
pub hton-hton :
    (v w : ℕ) → v < 2 ^ 16 → w < 2 ^ 32 → (hton16 (hton16 v) ≡ v) × (hton32 (hton32 w) ≡ w)
unfolding hton16 hton32
hton-hton v w h k = (omega arith, omega arith)

-- The bytes of a handshake extension.
abbrev pub greeting : ArqState → ℕ → List ℕ
greeting state identifier = state_number state ∷ bytes32 (hton32 identifier)

off-renewed :
    (b : VirtualChannel) (s identifier : ℕ) (time : ℤ)
    → b.arq_state_flag ≡ off
    → handle_handshake b s identifier time ≡ (true, renewed b identifier time)
unfolding handle_handshake
off-renewed b s identifier time e = λ i. handshake_in (e i) b s identifier time

in_init-connected :
    (a : VirtualChannel) (s identifier : ℕ) (time : ℤ)
    → a.arq_state_flag ≡ in_init
    → identifier ≡ a.arq_session_identifier
    → handle_handshake a s identifier time
      ≡ (true, record a { arq_state_flag = on; handshake_send = 0 })
unfolding handle_handshake
in_init-connected a s identifier time e same =
    (λ i. handshake_in (e i) a s identifier time) ∙ matched
  where
    matched :
        handshake_in in_init a s identifier time
        ≡ (true, record a { arq_state_flag = on; handshake_send = 0 })
    matched =
        let test : (identifier == a.arq_session_identifier) ≡ true =
          (==_iff identifier a.arq_session_identifier).1 same in
        rw test refl

-- A channel that is connecting sends its handshake as long as it may send idle frames and the frame
-- has room. A peer without ARQ that receives it accepts: its ARQ is on and its answer is pending. The
-- answer goes to its next frame, and turns the ARQ of the connecting channel on, under the
-- identifier that it chose; the peer knows the identifier with its bytes swapped.
pub handle_handshake-connects :
    (a b : VirtualChannel) (config : ArqConfig) (tx tx' : TransmitFrame) (frames_sent : ℕ)
    (time time' : ℤ)
    → a.arq_state_flag ≡ in_init
    → a.arq_session_identifier < 2 ^ 32
    → b.arq_state_flag ≡ off
    → ltb_ℤ (pos frames_sent) config.idle_frames_per_window ≡ true
    → has_room tx 5 ≡ true
    → has_room tx' 5 ≡ true
    → let sent = greeting in_init a.arq_session_identifier in
      let b' = handle_extension (some sent) b time in
      let answer = greeting on b'.arq_session_identifier in
      let a' = handle_extension (some answer) a time' in
      (fill_in_init a config tx frames_sent ≡ some (ok true, a, append_extension tx 3 sent))
      × (b'.arq_state_flag ≡ on)
      × (b'.arq_session_identifier ≡ hton32 a.arq_session_identifier)
      × (fill_handshake b' tx'
          ≡ some (true, record b' { handshake_send = 0 }, append_extension tx' 3 answer))
      × (a'.arq_state_flag ≡ on)
      × (a'.arq_session_identifier ≡ a.arq_session_identifier)
      × (a'.handshake_send ≡ 0)
unfolding fill_in_init fill_handshake add_extension_arq_handshake wipe_to_arq_on_state
handle_handshake-connects a b config tx tx' frames_sent time time' init u32 was_off may room room' =
    let swapped = hton32 a.arq_session_identifier in
    let accepted : handle_extension (some (greeting in_init a.arq_session_identifier)) b time
        ≡ renewed b swapped time =
      ap (λ (t : Bool × VirtualChannel). t.1)
        (off-renewed b 1 (word32 (bytes32 swapped)) time was_off)
      ∙ ap (λ q. renewed b q time)
          (word32-bytes32 swapped (hton32_bound a.arq_session_identifier)) in
    let back : word32 (bytes32 (hton32 swapped)) ≡ a.arq_session_identifier =
      word32-bytes32 (hton32 swapped) (hton32_bound swapped)
      ∙ (hton-hton 0 a.arq_session_identifier (omega arith) u32).1 in
    let connected : handle_extension (some (greeting on swapped)) a time'
        ≡ record a { arq_state_flag = on; handshake_send = 0 } =
      ap (λ (t : Bool × VirtualChannel). t.1)
        (in_init-connected a 2 (word32 (bytes32 (hton32 swapped))) time' init back) in
    let claim : VirtualChannel → Type 0 = λ b'.
      let answer = greeting on b'.arq_session_identifier in
      let a' = handle_extension (some answer) a time' in
      (fill_in_init a config tx frames_sent
        ≡ some (ok true, a, append_extension tx 3 (greeting in_init a.arq_session_identifier)))
      × (b'.arq_state_flag ≡ on)
      × (b'.arq_session_identifier ≡ swapped)
      × (fill_handshake b' tx'
          ≡ some (true, record b' { handshake_send = 0 }, append_extension tx' 3 answer))
      × (a'.arq_state_flag ≡ on)
      × (a'.arq_session_identifier ≡ a.arq_session_identifier)
      × (a'.handshake_send ≡ 0) in
    subst claim (sym accepted) (
      rw (may, room) refl,
      refl,
      refl,
      rw room' refl,
      ap (λ (t : VirtualChannel). t.arq_state_flag) connected,
      ap (λ (t : VirtualChannel). t.arq_session_identifier) connected,
      ap (λ (t : VirtualChannel). t.handshake_send) connected,
    )
