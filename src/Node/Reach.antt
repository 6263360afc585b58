-- ===== src/Node/Reach.antt =====
-- What an instance of src/utilities.c reaches by its operations from its creation on.
use skylink.Base.{
  ℕ, ◌==◌, if_both, ◌≡◌, ◌<◌, refl, subst, arith, Bool, Option, none, some, List, ◌||◌, ltb, inl,
  inr,
}
use skylink.Base.Int.{ℤ, pos, ◌≤ℤ◌, leb_ℤ}
use skylink.Base.Result.{Result}
use skylink.ElementBuffer.{BufferElement}
use skylink.Frame.Radio.{RadioFrame}
use skylink.Mac
use skylink.Mac.{
  carrier_sensed, time_to_own_window, reset, shift_windowing, expand_window, shrink_window,
  num_virtual_channels,
}
use skylink.Mac.Windows.{IsAdjustable, expand_window-IsLimited, shrink_window-IsLimited}
use skylink.SequenceRing.SendRing.Pop.{read_to_tx-IsValid}
use skylink.Mac.Create.{create-IsLimited}
use skylink.Hmac
use skylink.Hmac.{Hmac, assign, load_sequences}
use skylink.ReliableVc
use skylink.ReliableVc.{
  VirtualChannel, push_packet_to_send, read_next_received, read_packet_for_tx, arq_connect,
  arq_disconnect,
}
use skylink.ReliableVc.Transfer.{IsValid, off-IsValid}
use skylink.ReliableVc.Create.{created-IsValid, connect-IsValid, push-IsValid, read-IsValid}
use skylink.External.{External}
use skylink.Node.{SkyAll, Config, channels, instance_of, create}
use skylink.Node.Invariant.{IsSound, assign-IsValid}
use skylink.Rx.{Received, rx, rx_with_fec, rx_with_golay}
use skylink.Rx.Channels.{rx-IsSound}
use skylink.Tx.{Transmitted, tx, tx_with_fec, tx_with_golay}
use skylink.Tx.Channels.{tx-IsSound}

-- The instance with another state of a channel.
abbrev pub with_channel : SkyAll → ℕ → VirtualChannel → SkyAll
with_channel node vc channel = record node {
  virtual_channels = assign node.virtual_channels vc channel;
}

-- An entry of src/skylink_rx.c: plain, with error correction, or with a coded length before that.
pub data Entry : Type 0 where
  plain with_fec with_golay : Entry

abbrev pub received : Entry → External → SkyAll → RadioFrame → ℤ → Received
received plain = rx
received with_fec = rx_with_fec
received with_golay = rx_with_golay

abbrev pub transmitted : Entry → External → SkyAll → RadioFrame → ℤ → Transmitted
transmitted plain = tx
transmitted with_fec = tx_with_fec
transmitted with_golay = tx_with_golay

-- One operation on an instance: a frame is received or transmitted by one of the entries, a payload
-- is queued, read by its receiver or taken from the send ring, ARQ is turned on or off, a carrier is
-- sensed, the medium access control is reset, shifted, expanded or shrunk, or sequences are
-- loaded.
pub data Step (x : External) (node : SkyAll) : SkyAll → Type 0 where
  receive :
      (entry : Entry) (frame : RadioFrame) (now : ℤ)
      → Step x node (received entry x node frame now).1
  transmit :
      (entry : Entry) {node' : SkyAll} (ret : Result Bool) (frame frame' : RadioFrame) (now : ℤ)
      → transmitted entry x node frame now ≡ some (ret, node', frame')
      → Step x node node'
  push :
      (vc : ℕ) (payload : List ℕ) (length : ℕ)
      → Step x node
          (with_channel node vc (push_packet_to_send (node.virtual_channels vc) payload length).1)
  read :
      (vc max_length : ℕ)
      → Step x node
          (with_channel node vc (read_next_received (node.virtual_channels vc) max_length).1)
  take :
      (vc : ℕ) (include_resend : Bool)
      → Step x node
          (with_channel node vc (read_packet_for_tx (node.virtual_channels vc) include_resend).1)
  connect :
      (vc : ℕ) (time : ℤ)
      → Step x node (with_channel node vc (arq_connect (node.virtual_channels vc) time))
  disconnect :
      (vc : ℕ) → Step x node (with_channel node vc (arq_disconnect (node.virtual_channels vc)))
  sense : (now : ℤ) → Step x node (record node { mac = carrier_sensed node.mac now })
  restart : (now : ℤ) → Step x node (record node { mac = reset node.mac now })
  shift : (ticks : ℤ) → Step x node (record node { mac = shift_windowing node.mac ticks })
  expand : (now : ℤ) → Step x node (record node { mac = expand_window node.mac now })
  shrink : (now : ℤ) → Step x node (record node { mac = shrink_window node.mac now })
  load :
      (sequences : List ℕ) → Step x node (record node { hmac = load_sequences node.hmac sequences })

pub data Reach (x : External) (first : SkyAll) : SkyAll → Type 0 where
  start : Reach x first first
  later : {node node' : SkyAll} → Reach x first node → Step x node node' → Reach x first node'

channel-IsSound :
    (node : SkyAll) (vc : ℕ) (channel : VirtualChannel)
    → IsSound node
    → IsValid channel
    → IsSound (with_channel node vc channel)
channel-IsSound node vc channel v w = record {
  channels = assign-IsValid node.virtual_channels vc channel v.channels w;
  window = v.window;
  turn = v.turn;
}

sensed-IsSound :
    (node : SkyAll) (now : ℤ)
    → IsSound node
    → IsSound (record node { mac = carrier_sensed node.mac now })
unfolding carrier_sensed
sensed-IsSound node now v =
    let mac = carrier_sensed node.mac now in
    let kept =
      if_both (λ m. IsAdjustable m × (m.vc_round_robin_start < num_virtual_channels))
        (leb_ℤ (time_to_own_window node.mac now) node.mac.config.carrier_sense_ticks) _ node.mac
        (v.window, v.turn) (v.window, v.turn) in
    record { channels = v.channels; window = kept.0; turn = kept.1 }

step-IsSound :
    {x : External} {node node' : SkyAll} → Step x node node' → IsSound node → IsSound node'
unfolding reset shift_windowing expand_window shrink_window
step-IsSound {x = x} {node = node} (receive plain frame now) v = (rx-IsSound x node frame now v).0
step-IsSound {x = x} {node = node} (receive with_fec frame now) v =
    (rx-IsSound x node frame now v).1
step-IsSound {x = x} {node = node} (receive with_golay frame now) v =
    (rx-IsSound x node frame now v).2
step-IsSound {x = x} {node = node} {node' = node'} (transmit plain ret frame frame' now e) v =
    tx-IsSound x node node' frame frame' now ret v (inl e)
step-IsSound {x = x} {node = node} {node' = node'} (transmit with_fec ret frame frame' now e) v =
    tx-IsSound x node node' frame frame' now ret v (inr (inl e))
step-IsSound {x = x} {node = node} {node' = node'} (transmit with_golay ret frame frame' now e) v =
    tx-IsSound x node node' frame frame' now ret v (inr (inr e))
step-IsSound {node = node} (push vc payload length) v =
    channel-IsSound node vc _ v
      (push-IsValid (node.virtual_channels vc) payload length (v.channels vc))
step-IsSound {node = node} (read vc max_length) v =
    channel-IsSound node vc _ v (read-IsValid (node.virtual_channels vc) max_length (v.channels vc))
step-IsSound {node = node} (take vc include_resend) v = channel-IsSound node vc _ v (record {
  send =
      read_to_tx-IsValid (node.virtual_channels vc).send_ring
        (node.virtual_channels vc).element_buffer include_resend (v.channels vc).send;
  rcv = (v.channels vc).rcv;
  settled = (v.channels vc).settled;
})
step-IsSound {node = node} (connect vc time) v =
    channel-IsSound node vc _ v (connect-IsValid (node.virtual_channels vc) time (v.channels vc))
step-IsSound {node = node} (disconnect vc) v =
    channel-IsSound node vc _ v (off-IsValid (node.virtual_channels vc) (v.channels vc))
step-IsSound {node = node} (sense now) v = sensed-IsSound node now v
step-IsSound {node = node} (restart now) v = record {
  channels = v.channels;
  window = ((omega arith, omega (arith, v.window)), v.window.1);
  turn = v.turn;
}
step-IsSound (shift ticks) v = record { channels = v.channels; window = v.window; turn = v.turn }
step-IsSound {node = node} (expand now) v = record {
  channels = v.channels;
  window = (expand_window-IsLimited node.mac now v.window.0 v.window.1, v.window.1);
  turn = v.turn;
}
step-IsSound {node = node} (shrink now) v = record {
  channels = v.channels;
  window = (shrink_window-IsLimited node.mac now v.window.0 v.window.1, v.window.1);
  turn = v.turn;
}
step-IsSound (load sequences) v = record { channels = v.channels; window = v.window; turn = v.turn }

abbrev AllMade : Option (ℕ → VirtualChannel) → Type 0
AllMade none = Unit {0}
AllMade (some vcs) = (vc : ℕ) → IsValid (vcs vc)

channels-IsValid :
    (a b c d : Option VirtualChannel)
    → ((vc : VirtualChannel) → a ≡ some vc → IsValid vc)
    → ((vc : VirtualChannel) → b ≡ some vc → IsValid vc)
    → ((vc : VirtualChannel) → c ≡ some vc → IsValid vc)
    → ((vc : VirtualChannel) → d ≡ some vc → IsValid vc)
    → AllMade (channels a b c d)
channels-IsValid none b c d u v w z = tt
channels-IsValid (some a) none c d u v w z = tt
channels-IsValid (some a) (some b) none d u v w z = tt
channels-IsValid (some a) (some b) (some c) none u v w z = tt
channels-IsValid (some a) (some b) (some c) (some d) u v w z = λ i.
    if_both IsValid (i == 0) _ _ (u a refl)
      (if_both IsValid (i == 1) _ _ (v b refl) (if_both IsValid (i == 2) _ _ (w c refl) (z d refl)))

abbrev Made : Option SkyAll → Type 0
Made none = Unit {0}
Made (some node) = IsSound node

instance-IsSound :
    (config : Config) (hmac : Option Hmac) (vcs : Option (ℕ → VirtualChannel))
    → pos 0 ≤ℤ config.mac.window_adjust_increment_ticks
    → AllMade vcs
    → Made (instance_of config hmac vcs)
unfolding Mac.create
instance-IsSound config none vcs i v = tt
instance-IsSound config (some hmac) none i v = tt
instance-IsSound config (some hmac) (some vcs) i v = record {
  channels = v;
  window = ((create-IsLimited config.mac).0, i);
  turn = omega arith;
}

create-IsSound :
    (raw : ℕ → ℕ → BufferElement) (config : Config)
    → pos 0 ≤ℤ config.mac.window_adjust_increment_ticks
    → Made (create raw config)
unfolding create
create-IsSound raw config i =
    let vc : ℕ → Option VirtualChannel = λ (i : ℕ). ReliableVc.create (raw i) (config.vc i) in
    let made : (i : ℕ) (c : VirtualChannel) → vc i ≡ some c → IsValid c =
      λ i c e. created-IsValid (raw i) (config.vc i) c e in
    if_both Made (ltb config.identity_len 3 || ltb 7 config.identity_len) none _ tt (
      instance-IsSound config (Hmac.create config.hmac) (channels (vc 0) (vc 1) (vc 2) (vc 3)) i
        (channels-IsValid (vc 0) (vc 1) (vc 2) (vc 3) (made 0) (made 1) (made 2) (made 3)))

later-IsSound :
    {x : External} {first node : SkyAll} → Reach x first node → IsSound first → IsSound node
later-IsSound start v = v
later-IsSound (later run step) v = step-IsSound step (later-IsSound run v)

-- An instance is created from a configuration whose window increment is not negative. Whatever it
-- reaches by receiving and transmitting with any of the three entries, queueing, reading and taking
-- payloads, turning ARQ on and off, sensing a carrier, resetting, shifting, expanding and shrinking
-- windows, and loading sequences, in any order and number and with any frames, payloads and times, as
-- long as no assertion fails, is sound: all channels have valid rings, the own window is
-- within its limits, and the round robin starts at a channel.
pub Reach-IsSound :
    {x : External} {first node : SkyAll} (raw : ℕ → ℕ → BufferElement) (config : Config)
    → pos 0 ≤ℤ config.mac.window_adjust_increment_ticks
    → create raw config ≡ some first
    → Reach x first node
    → IsSound node
Reach-IsSound raw config i e run = later-IsSound run (subst Made e (create-IsSound raw config i))
