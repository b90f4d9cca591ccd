-- ===== src/Devices/Disconnect.antt =====
-- Pulling out a device: guru_usb_disconnect (guru-drv.c), guru_dev_deinit (guru-device.c) and
-- the removal functions of the device types.
use can_guru.Base.{ℕ, ◌<◌, ◌≡◌, some, none, Option, List, ◌∷◌, ◌++◌, length, replicate, set, arith}
use can_guru.Kernel.{Kernel, ok, fault, null_deref}
use can_guru.Kernel.Types.{
  Event, done, usb_get_intfdata, usb_set_intfdata, usb_kill_anchored_urbs, rcvbulk, sndbulk,
  cdev_del, device_destroy, iio_device_free, iio_device_unregister,
}
use can_guru.State.{NetDev, Device, Bus, Kind, canguru, linguru, mbus}
use can_guru.CanChannel.{canguru_net_destroy}
use can_guru.LinNet.{linguru_net_destroy}
use can_guru.Boot.{guru_boot_destroy}
use can_guru.Voltage.{linguru_volt_destroy}
use can_guru.Devices.{
  each_channel, canguru_dev_deinit, linguru_dev_deinit, mbus_dev_deinit, guru_dev_deinit,
}
use can_guru.Devices.Kinds.{can_count, lin_count, HasVoltage}
use can_guru.Devices.Removal.{present, destroy_events, with_netdevs, destroy_all, destroy_missing}
use can_guru.Probe.{guru_usb_disconnect}

-- Before the channels are removed, the structure is unlinked and the transfers are stopped.
abbrev pub stopped_events : List Event → List Event
stopped_events t =
    done (usb_kill_anchored_urbs sndbulk)
    ∷ done (usb_kill_anchored_urbs rcvbulk)
    ∷ done (usb_set_intfdata 0)
    ∷ done usb_get_intfdata
    ∷ t

-- linguru_net_destroy is the same function of the LIN channels.
destroy_all_lin :
    (k : Kernel) (bus : Bus) (t : List Event) (n : ℕ) (devs : List NetDev)
    → length devs ≡ n
    → bus.netdevs ≡ present devs
    → each_channel n 0 linguru_net_destroy k bus t
      ≡ ok tt (with_netdevs bus (replicate n none)) (destroy_events devs t)
unfolding linguru_net_destroy canguru_net_destroy
destroy_all_lin k bus t n devs len there = destroy_all k bus t n devs len there

-- What is left of the structure.
abbrev pub released_device : Kind → Device → Device
released_device canguru d = record d {
  can_bus = with_netdevs d.can_bus (replicate 2 none);
  boot_state = record d.boot_state {
    guru_boot_table = set d.boot_state.guru_boot_table d.boot_state.boot.minor_num none;
  };
}
released_device linguru d = record d {
  lin_bus = with_netdevs d.lin_bus (replicate 10 none);
  meas_volt_dev = none;
}
released_device mbus d = record d {
  can_bus = with_netdevs d.can_bus (replicate 8 none);
  lin_bus = with_netdevs d.lin_bus (replicate 8 none);
}

-- The calls of the removal function, for a device with these channels.
abbrev pub removal_events :
    Kind → Device → Option ℕ → List NetDev → List NetDev → List Event → List Event
removal_events canguru d iio cans lins t =
    destroy_events cans (done cdev_del ∷ done (device_destroy d.boot_state.boot.minor_num) ∷ t)
removal_events linguru d none cans lins t = destroy_events lins t
removal_events linguru d (some iio) cans lins t =
    done (iio_device_free iio) ∷ done (iio_device_unregister iio) ∷ destroy_events lins t
removal_events mbus d iio cans lins t = destroy_events lins (destroy_events cans t)

-- A device of any type that is pulled out stops its transfers first, and then releases what it has,
-- if it has all its channels and, in a LIN Guru, the IIO device of the voltage: a CAN Guru removes
-- its boot device and frees its entry of the table, and then removes its CAN channels; a LIN Guru
-- removes its LIN channels and then the IIO device; a BusKit removes its CAN channels and then its
-- LIN channels. Each net device is unregistered and then freed, in the order of the array. Every
-- entry of these arrays is NULL afterwards, nothing else changes, and no other call is made.
pub guru_usb_disconnect-releases :
    (k : Kernel) (kind : Kind) (d : Device) (t : List Event) (cans lins : List NetDev)
    → d.guru.dev_deinit ≡ some kind
    → length cans ≡ can_count kind
    → length lins ≡ lin_count kind
    → d.can_bus.netdevs ≡ present cans
    → d.lin_bus.netdevs ≡ present lins
    → HasVoltage kind d.meas_volt_dev
    → guru_usb_disconnect k d t
      ≡ ok tt
          (released_device kind d)
          (removal_events kind d d.meas_volt_dev cans lins (stopped_events t))
unfolding guru_usb_disconnect guru_dev_deinit mbus_dev_deinit canguru_dev_deinit linguru_dev_deinit
    guru_boot_destroy linguru_volt_destroy
guru_usb_disconnect-releases k canguru d t cans lins kind hc hl there_can there_lin volt =
    let boot : List Event =
      done cdev_del ∷ done (device_destroy d.boot_state.boot.minor_num) ∷ stopped_events t in
    ground (arith, kind, destroy_all k d.can_bus boot 2 cans hc there_can)
guru_usb_disconnect-releases k linguru d t cans lins kind hc hl there_can there_lin (iio, volt) =
    ground (arith, kind, volt, destroy_all_lin k d.lin_bus (stopped_events t) 10 lins hl there_lin)
guru_usb_disconnect-releases k mbus d t cans lins kind hc hl there_can there_lin volt = ground (
  arith,
  kind,
  destroy_all k d.can_bus (stopped_events t) 8 cans hc there_can,
  destroy_all_lin k d.lin_bus (destroy_events cans (stopped_events t)) 8 lins hl there_lin,
)

-- Where a CAN channel was never created, pulling out the BusKit dereferences NULL.
pub guru_usb_disconnect-missing :
    (k : Kernel) (d : Device) (t : List Event) (cans : List NetDev) (rest : List (Option NetDev))
    → d.guru.dev_deinit ≡ some mbus
    → length cans < 8
    → d.can_bus.netdevs ≡ present cans ++ (none ∷ rest)
    → guru_usb_disconnect k d t ≡ fault null_deref
unfolding guru_usb_disconnect guru_dev_deinit mbus_dev_deinit
guru_usb_disconnect-missing k d t cans rest kind few there =
    ground (arith, kind, destroy_missing k d.can_bus (stopped_events t) 0 8 cans rest few, there)
