-- ===== src/Node.antt =====
-- A protocol instance: `struct sky_all`, its configuration, and `sky_create` of src/utilities.c.
pub mod Invariant
pub mod Reach
pub mod Reset
pub mod Enforcement
pub mod Shift
pub mod Air
use skylink.Base.{ℕ, ◌||◌, Option, none, some, List, if◌then◌else◌, ltb, ◌==◌}
use skylink.Base.Int.{pos}
use skylink.ElementBuffer.{BufferElement}
use skylink.Mac
use skylink.Mac.{Mac, MacConfig}
use skylink.Hmac
use skylink.Hmac.{Hmac, HmacConfig}
use skylink.Diag
use skylink.Diag.{Diagnostics}
use skylink.ReliableVc
use skylink.ReliableVc.{VirtualChannel, VcConfig, ArqConfig, check_config, within}

-- `struct sky_conf`. The configuration of the medium access control is the one that its state points
-- to, so that it is read from there.
pub record Config : Type 0 where
  pub mac : MacConfig
  pub hmac : HmacConfig
  pub vc : ℕ → VcConfig
  pub arq : ArqConfig
  pub identity : List ℕ
  pub identity_len : ℕ

-- `struct sky_all`: the array of channels is a function of the channel's number.
pub record SkyAll : Type 0 where
  pub conf : Config
  pub diag : Diagnostics
  pub virtual_channels : ℕ → VirtualChannel
  pub mac : Mac
  pub hmac : Hmac

abbrev pub check_arq : ArqConfig → ArqConfig
check_arq c = record {
  timeout_ticks = within (pos 1000) (pos 30000) (pos 10000) c.timeout_ticks;
  idle_frame_threshold = within (pos 100) (pos 10000) (pos 1000) c.idle_frame_threshold;
  idle_frames_per_window = within (pos 1) (pos 4) (pos 1) c.idle_frames_per_window;
}

-- The configuration as its checks leave it, those of the constructors included.
abbrev pub check_conf : Config → Config
check_conf config = record config {
  arq = check_arq config.arq;
  mac = (Mac.create config.mac).config;
  vc = λ i. check_config (config.vc i);
}

abbrev pub select {ℓ} : {A : Type ℓ} → A → A → A → A → ℕ → A
select a b c d i = if i == 0 then a else if i == 1 then b else if i == 2 then c else d

-- The loop over the four channels.
abbrev pub channels {ℓ} : {A : Type ℓ} → Option A → Option A → Option A → Option A → Option (ℕ → A)
channels none b c d = none
channels (some a) none c d = none
channels (some a) (some b) none d = none
channels (some a) (some b) (some c) none = none
channels (some a) (some b) (some c) (some d) = some (select a b c d)

abbrev pub instance_of : Config → Option Hmac → Option (ℕ → VirtualChannel) → Option SkyAll
instance_of config none vcs = none
instance_of config (some hmac) none = none
instance_of config (some hmac) (some vcs) = some (record {
  conf = check_conf config;
  diag = Diag.create;
  virtual_channels = vcs;
  mac = Mac.create config.mac;
  hmac = hmac;
})

-- `none` stands for NULL or a failed assertion. The argument `raw` is what the memory holds that is
-- allocated for each channel.
unfoldable pub create : (ℕ → ℕ → BufferElement) → Config → Option SkyAll
create raw config =
    let vc = λ (i : ℕ). ReliableVc.create (raw i) (config.vc i) in
    if ltb config.identity_len 3 || ltb 7 config.identity_len
    then none
    else instance_of config (Hmac.create config.hmac) (channels (vc 0) (vc 1) (vc 2) (vc 3))
