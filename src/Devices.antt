-- ===== src/Devices.antt =====
-- canguru-device.c, linguru-device.c and mbus-device.c, and the removal of a device in
-- guru-device.c.
pub mod Disconnect
pub mod Kinds
pub mod Registered
pub mod Released
pub mod Creation
pub mod Initialisation
pub mod Removal
pub mod Serial
pub mod Soundness
use can_guru.Base.{
  ℕ, zero, suc, if◌then◌else◌, ℤ, pos, is_zero, Option, none, some, List, replicate,
}
use can_guru.Kernel.Types.{usb_set_intfdata, usb_kill_anchored_urbs, rcvbulk, sndbulk}
use can_guru.Kernel.{M, ◌>>=◌, ◌>>◌, pure, run, get, modify, zoom}
use can_guru.State.{Device, Bus, BootState, Kind, canguru, linguru, mbus}
use can_guru.Messages.{in_can, in_lin}
use can_guru.CanMessages.{canguru_msg_net_init}
use can_guru.LinMessages.{linguru_msg_net_init}
use can_guru.CanChannel.{canguru_net_create, canguru_net_destroy}
use can_guru.LinNet.{linguru_net_create, linguru_net_destroy}
use can_guru.Voltage.{linguru_volt_create, linguru_volt_destroy}
use can_guru.Boot.{guru_boot_create, guru_boot_destroy}
use can_guru.Reception.{guru_dev_init}

abbrev pub canguru_channel_count : ℕ
canguru_channel_count = 2

abbrev pub linguru_channel_count : ℕ
linguru_channel_count = 10

abbrev pub can_mbus_channel_count : ℕ
can_mbus_channel_count = 8

abbrev pub lin_mbus_channel_count : ℕ
lin_mbus_channel_count = 8

abbrev in_boot : {A : Type 0} → M BootState A → M Device A
in_boot = zoom (λ d. d.boot_state) (λ b d. record d { boot_state = b })

-- `for (idx = 0; idx < n; idx++) f(idx);` on a bus; the results are ignored.
pub each_channel : {A : Type 0} → ℕ → ℕ → (ℕ → M Bus A) → M Bus (Unit {0})
each_channel zero idx f = pure tt
each_channel (suc left) idx f = do _ ← f idx; each_channel left (suc idx) f

abbrev pub set_deinit : Kind → Device → Device
set_deinit kind d = record d { guru = record (d.guru) { dev_deinit = some kind } }

abbrev pub clear_netdevs : ℕ → Bus → Bus
clear_netdevs count bus = record bus { netdevs = replicate count none }

pub canguru_dev_init : ℕ → Option (List ℕ) → M Device ℤ
canguru_dev_init self serial = do
  modify (set_deinit canguru)
  in_can (modify (clear_netdevs canguru_channel_count))
  err ← guru_dev_init self
  if is_zero err
      then (do
        in_can (each_channel canguru_channel_count 0 canguru_net_create)
        err' ← canguru_msg_net_init canguru_channel_count
        if is_zero err' then in_boot (guru_boot_create serial) else pure err')
      else pure err

pub canguru_dev_deinit : M Device (Unit {0})
canguru_dev_deinit = do
  in_boot guru_boot_destroy
  in_can (each_channel canguru_channel_count 0 canguru_net_destroy)

pub linguru_dev_init : ℕ → M Device ℤ
linguru_dev_init self = do
  modify (set_deinit linguru)
  in_lin (modify (clear_netdevs linguru_channel_count))
  err ← guru_dev_init self
  if is_zero err
      then (do
        in_lin (each_channel linguru_channel_count 0 linguru_net_create)
        err' ← linguru_volt_create
        d ← get
        if is_zero err'
            then linguru_msg_net_init linguru_channel_count d.meas_volt_dev
            else pure err')
      else pure err

pub linguru_dev_deinit : M Device (Unit {0})
linguru_dev_deinit = do
  in_lin (each_channel linguru_channel_count 0 linguru_net_destroy)
  linguru_volt_destroy

pub mbus_dev_init_can : M Device ℤ
mbus_dev_init_can = do
  in_can (modify (clear_netdevs can_mbus_channel_count))
  err ← canguru_msg_net_init can_mbus_channel_count
  if is_zero err
      then (do in_can (each_channel can_mbus_channel_count 0 canguru_net_create); pure (pos 0))
      else pure err

pub mbus_dev_init_lin : M Device ℤ
mbus_dev_init_lin = do
  in_lin (modify (clear_netdevs lin_mbus_channel_count))
  in_lin (each_channel lin_mbus_channel_count 0 linguru_net_create)
  linguru_msg_net_init lin_mbus_channel_count none

pub mbus_dev_init : ℕ → M Device ℤ
unfolding mbus_dev_init_can mbus_dev_init_lin
mbus_dev_init self = do
  modify (set_deinit mbus)
  err ← guru_dev_init self
  if is_zero err
      then (do err' ← mbus_dev_init_can; if is_zero err' then mbus_dev_init_lin else pure err')
      else pure err

unfoldable pub mbus_dev_deinit : M Device (Unit {0})
mbus_dev_deinit = do
  in_can (each_channel can_mbus_channel_count 0 canguru_net_destroy)
  in_lin (each_channel lin_mbus_channel_count 0 linguru_net_destroy)

-- `self->dev_deinit(self->dev_data)`, if it is set.
abbrev run_deinit : Option Kind → M Device (Unit {0})
run_deinit none = pure tt
run_deinit (some canguru) = canguru_dev_deinit
run_deinit (some linguru) = linguru_dev_deinit
run_deinit (some mbus) = mbus_dev_deinit

unfoldable pub guru_dev_deinit : M Device (Unit {0})
guru_dev_deinit = do
  run (usb_set_intfdata 0)
  run (usb_kill_anchored_urbs rcvbulk)
  run (usb_kill_anchored_urbs sndbulk)
  d ← get
  run_deinit d.guru.dev_deinit
