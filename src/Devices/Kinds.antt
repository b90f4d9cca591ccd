-- ===== src/Devices/Kinds.antt =====
-- The three device types side by side: how many channels each has and which messages it registers
-- (canguru-device.h, linguru-device.h, mbus-device.h and the three *_dev_init functions).
use can_guru.Base.{ℕ, ◌≡◌, ◌≢◌, ◌⊎◌, ℤ, pos, Option, some, List, [], ◌∷◌, ◌++◌, length, set}
use can_guru.Kernel.Types.{Event}
use can_guru.State.{Device, GuruMsg, Bus, BootState, Kind, canguru, linguru, mbus}
use can_guru.Messages.Std.{std_message}
use can_guru.CanMessages.Registration.{can_messages}
use can_guru.LinMessages.Registration.{lin_messages}
use can_guru.Devices.{
  canguru_channel_count, linguru_channel_count, can_mbus_channel_count, lin_mbus_channel_count,
}
use can_guru.Boot.Minors.{IsFirstFree}
use can_guru.Devices.Creation.{IsPlaced}

abbrev pub can_count : Kind → ℕ
can_count canguru = canguru_channel_count
can_count linguru = 0
can_count mbus = can_mbus_channel_count

abbrev pub lin_count : Kind → ℕ
lin_count canguru = 0
lin_count linguru = linguru_channel_count
lin_count mbus = lin_mbus_channel_count

abbrev pub kind_messages : Kind → List GuruMsg
kind_messages canguru = std_message ∷ can_messages
kind_messages linguru = std_message ∷ lin_messages
kind_messages mbus = std_message ∷ (can_messages ++ lin_messages)

-- A bus with `n` places, on which nobody waits.
pub record IsReady (n : ℕ) (bus : Bus) : Type 0 where
  pub count : bus.iface_count ≡ n
  pub size : length bus.netdevs ≡ n
  pub places : IsPlaced bus.netdevs
  pub nobody : bus.send_reply_list ≡ []

-- A structure that devm_kzalloc returned: no bus has a channel.
pub record IsZeroed (d : Device) : Type 0 where
  pub no_can : IsReady 0 d.can_bus
  pub no_lin : IsReady 0 d.lin_bus

-- A LIN Guru has the IIO device of its voltage.
abbrev pub HasVoltage : Kind → Option ℕ → Type 0
HasVoltage linguru volt = (iio : ℕ) × (volt ≡ some iio)
HasVoltage kind volt = Unit {0}

-- A CAN Guru took the first free entry of the table; no other type takes any.
abbrev pub TookMinor : Kind → BootState → BootState → Type 0
TookMinor canguru before after =
    IsFirstFree before.guru_boot_table after.boot.minor_num
    × (after.guru_boot_table
        ≡ set before.guru_boot_table after.boot.minor_num (some before.boot.pointer))
TookMinor kind before after = after.guru_boot_table ≡ before.guru_boot_table

-- What the initialisation made of the structure `start`: all the messages of the type are
-- registered, and both buses have the channels of the type.
pub record IsInitialised (kind : Kind) (start d : Device) : Type 0 where
  pub registered : d.guru.msg_list ≡ kind_messages kind
  pub can_ready : IsReady (can_count kind) d.can_bus
  pub lin_ready : IsReady (lin_count kind) d.lin_bus
  pub voltage : HasVoltage kind d.meas_volt_dev
  pub minor : TookMinor kind start.boot_state d.boot_state

-- The removal function is that of the type; and the initialisation failed or is complete.
abbrev pub KindEnd : Kind → Device → ℤ → Device → List Event → Type 0
KindEnd kind start err d' _ =
    (d'.guru.dev_deinit ≡ some kind)
    × ((err ≢ pos 0) ⊎ ((err ≡ pos 0) × IsInitialised kind start d'))
