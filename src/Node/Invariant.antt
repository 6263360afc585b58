-- ===== src/Node/Invariant.antt =====
-- What an instance keeps: valid channels, an own window within its limits and a channel to start at.
use skylink.Base.{ℕ, ◌<◌, ◌==◌, Bool-cases, inl, inr}
use skylink.Mac.{num_virtual_channels}
use skylink.Mac.Windows.{IsAdjustable}
use skylink.Hmac.{assign}
use skylink.ReliableVc.{VirtualChannel}
use skylink.ReliableVc.Transfer.{IsValid}
use skylink.Node.{SkyAll}

-- The rings of every channel are valid, the own window is within its limits with an increment that
-- is not negative, and the round robin starts at one of the channels.
pub record IsSound (node : SkyAll) : Type 0 where
  pub channels : (vc : ℕ) → IsValid (node.virtual_channels vc)
  pub window : IsAdjustable node.mac
  pub turn : node.mac.vc_round_robin_start < num_virtual_channels

pub assign-IsValid :
    (channels : ℕ → VirtualChannel) (vc : ℕ) (channel : VirtualChannel)
    → ((i : ℕ) → IsValid (channels i))
    → IsValid channel
    → (i : ℕ) → IsValid (assign channels vc channel i)
assign-IsValid channels vc channel v w i = elim (Bool-cases (i == vc)) [
  | inl same ↦ rw same w
  | inr other ↦ rw other (v i)
]
