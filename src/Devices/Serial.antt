-- ===== src/Devices/Serial.antt =====
-- canguru-device.c: initialising a CAN Guru that reports no serial number.
use can_guru.Base.{
  ℕ, List, Option, none, some, inl, refl, Bool-cases, inr, ℤ, is_zero, if◌then◌else◌,
}
use can_guru.Kernel.{Kernel, M, ◌>>=◌, ◌>>◌, pure}
use can_guru.Kernel.OrNull.{OrNull, bind-OrNull, zoom-OrNull}
use can_guru.Kernel.Types.{Event}
use can_guru.State.{Device, canguru}
use can_guru.Boot.{guru_boot_create}
use can_guru.Boot.Serial.{guru_boot_create-OrNull}
use can_guru.CanChannel.{canguru_net_create}
use can_guru.CanMessages.{canguru_msg_net_init}
use can_guru.Messages.{in_can}
use can_guru.Reception.{guru_dev_init}
use can_guru.Devices.{
  each_channel, clear_netdevs, set_deinit, in_boot, canguru_channel_count, canguru_dev_init,
}

boot_or_not : Option (List ℕ) → ℤ → M Device ℤ
boot_or_not serial err = if is_zero err then in_boot (guru_boot_create serial) else pure err

boot_or_not-OrNull :
    (k : Kernel) (serial : List ℕ) (err : ℤ) (d : Device) (t : List Event)
    → OrNull (boot_or_not (some serial) err k d t) (boot_or_not none err k d t)
unfolding boot_or_not
boot_or_not-OrNull k serial err d t = elim (Bool-cases (is_zero err)) [
  | inl good ↦ rw good (
      zoom-OrNull (λ (x : Device). x.boot_state) (λ b x. record x { boot_state = b })
        (guru_boot_create (some serial)) (guru_boot_create none) k d t
        (guru_boot_create-OrNull k d.boot_state t serial))
  | inr bad ↦ rw bad (inl refl)
]

create_channels : Option (List ℕ) → ℤ → M Device ℤ
unfolding boot_or_not
create_channels serial err =
    if is_zero err
    then (do
      in_can (each_channel canguru_channel_count 0 canguru_net_create)
      err' ← canguru_msg_net_init canguru_channel_count
      boot_or_not serial err')
    else pure err

create_channels-OrNull :
    (k : Kernel) (serial : List ℕ) (err : ℤ) (d : Device) (t : List Event)
    → OrNull (create_channels (some serial) err k d t) (create_channels none err k d t)
unfolding create_channels
create_channels-OrNull k serial err d t = elim (Bool-cases (is_zero err)) [
  | inl good ↦ rw good (
      bind-OrNull (in_can (each_channel canguru_channel_count 0 canguru_net_create))
        (λ _. canguru_msg_net_init canguru_channel_count >>= boot_or_not (some serial))
        (λ _. canguru_msg_net_init canguru_channel_count >>= boot_or_not none) k d t
        (λ _ d' t'.
          bind-OrNull (canguru_msg_net_init canguru_channel_count) (boot_or_not (some serial))
            (boot_or_not none) k d' t' (boot_or_not-OrNull k serial)))
  | inr bad ↦ rw bad (inl refl)
]

pub canguru_dev_init-OrNull :
    (k : Kernel) (self : ℕ) (serial : List ℕ) (d : Device) (t : List Event)
    → OrNull (canguru_dev_init self (some serial) k d t) (canguru_dev_init self none k d t)
unfolding canguru_dev_init create_channels boot_or_not
canguru_dev_init-OrNull k self serial d t =
    bind-OrNull (guru_dev_init self) (create_channels (some serial)) (create_channels none) k
      (record (set_deinit canguru d) { can_bus = clear_netdevs canguru_channel_count d.can_bus }) t
      (create_channels-OrNull k serial)
