-- ===== src/Messages/Handlers.antt =====
-- What a handler of received messages may rely on, and what it leaves to the next.
use can_guru.Base.{[], ℕ, ◌<◌, ◌⊎◌, ◌++◌, ◌≡◌, ◌≤◌, some, List, ◌∷◌, length, arith}
use can_guru.Kernel.{Kernel, Ends, Returns}
use can_guru.Kernel.Types.{Event, Skb}
use can_guru.Kernel.Ledger.{delivered}
use can_guru.State.{Device}
use can_guru.Bus.Channels.{IsBus}
use can_guru.Messages.{std_fw_version, status_callback}

-- The message that is being processed is `bytes`, the data of one packet.
pub record IsMessage (d : Device) (bytes : List ℕ) : Type 0 where
  pub current : d.guru.curr_msg_data ≡ some bytes
  pub whole : length bytes ≡ 123

-- Both buses are sound, and the device is the same but for them.
pub record Keeps (d d' : Device) : Type 0 where
  pub same_guru : d'.guru ≡ d.guru
  pub can_lem : IsBus d'.can_bus
  pub lin_lem : IsBus d'.lin_bus

pub status_callback-Keeps :
    (k : Kernel) (d : Device) (t : List Event) (bytes : List ℕ)
    → IsBus d.can_bus
    → IsBus d.lin_bus
    → IsMessage d bytes
    → Ends (λ _ d' _. Keeps d d') (status_callback k d t)
unfolding status_callback
status_callback-Keeps k d t [] can lin msg = absurd (omega (arith, msg.whole))
status_callback-Keeps k d t (b ∷ bytes) can lin msg = ground (arith, msg.current)

pub std_fw_version-Keeps :
    (k : Kernel) (d : Device) (t : List Event) (bytes : List ℕ)
    → IsBus d.can_bus
    → IsBus d.lin_bus
    → IsMessage d bytes
    → d.guru.curr_msg_data_size ≤ 32
    → Ends (λ _ d' _. Keeps d d') (std_fw_version k d t)
unfolding std_fw_version
std_fw_version-Keeps k d t bytes can lin msg short = ground (arith, msg.whole, msg.current)

-- No frame is delivered, and the buses count the same channels.
abbrev pub IsSilent : Device → List Event → Unit {0} → Device → List Event → Type 0
IsSilent d t _ d' t' =
    (d'.can_bus.iface_count ≡ d.can_bus.iface_count)
    × (d'.lin_bus.iface_count ≡ d.lin_bus.iface_count)
    × (delivered t' ≡ delivered t)

pub status_callback-IsSilent :
    (k : Kernel) (d : Device) (t : List Event) → Returns (IsSilent d t) (status_callback k d t)
unfolding status_callback
status_callback-IsSilent k d t = ground arith

pub std_fw_version-IsSilent :
    (k : Kernel) (d : Device) (t : List Event) → Returns (IsSilent d t) (std_fw_version k d t)
unfolding std_fw_version
std_fw_version-IsSilent k d t = ground arith

-- The frames that are delivered, newest first, are as `expected` says.
abbrev pub Delivers :
    (List (Skb × ℕ) → Type 0) → Device → List Event → Unit {0} → Device → List Event → Type 0
Delivers expected d t _ d' t' =
    (d'.can_bus.iface_count ≡ d.can_bus.iface_count)
    × (d'.lin_bus.iface_count ≡ d.lin_bus.iface_count)
    × ((fs : List (Skb × ℕ)) × expected fs × (delivered t' ≡ fs ++ delivered t))

-- One frame, if the message is for a channel that the bus counts.
abbrev pub FrameFor : (Skb × ℕ → Type 0) → ℕ → ℕ → List (Skb × ℕ) → Type 0
FrameFor is_of count channel fs =
    ((channel < count) × ((frame : Skb × ℕ) × is_of frame × (fs ≡ frame ∷ [])))
    ⊎ ((count ≤ channel) × (fs ≡ []))
