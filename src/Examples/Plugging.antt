-- ===== src/Examples/Plugging.antt =====
-- Runs of plugging in and pulling out.
use can_guru.Base.{[], ◌≡◌, ◌↔◌, refl, some, none, List, ◌∷◌, replicate, arith}
use can_guru.Kernel.{Ends, ok, fault, null_deref}
use can_guru.State.{NetDev, Device, Bus, linguru, mbus}
use can_guru.Probe.{
  product_kind, canguru_product_name, linguru_product_name, guru_usb_probe, guru_usb_disconnect,
}
use can_guru.Probe.Products.{product_kind_iff}
use can_guru.Probe.Soundness.{IsServing, guru_usb_probe-IsServing}
use can_guru.Probe.Lifetime.{LifeEnd, guru_usb_probe-LifeEnd}
use can_guru.Devices.Kinds.{IsZeroed}
use can_guru.Devices.Creation.{replicate-IsPlaced}
use can_guru.Devices.Removal.{present, with_netdevs}
use can_guru.Devices.Disconnect.{
  stopped_events, released_device, removal_events, guru_usb_disconnect-releases,
  guru_usb_disconnect-missing,
}
use can_guru.Examples.{kernel, kernel-IsKernel, channel, bus, device}

product_kind_iff_example :
    (product_kind linguru_product_name ≡ some linguru)
    ↔ (linguru_product_name ≡ linguru_product_name)
product_kind_iff_example = product_kind_iff linguru_product_name linguru

-- A LIN Guru with all its channels, and a BusKit that lacks the second CAN channel.
abbrev ten : List NetDev
ten = replicate 10 channel

abbrev lin_guru : Device
lin_guru = record device {
  guru = record (device.guru) { dev_deinit = some linguru };
  can_bus = with_netdevs bus [];
  lin_bus = with_netdevs bus (present ten);
  meas_volt_dev = some 9;
}

abbrev broken_buskit : Device
broken_buskit = record device {
  guru = record (device.guru) { dev_deinit = some mbus };
  can_bus = with_netdevs bus (some channel ∷ none ∷ []);
}

guru_usb_disconnect-releases_example :
    guru_usb_disconnect kernel lin_guru []
    ≡ ok tt
        (released_device linguru lin_guru)
        (removal_events linguru lin_guru (some 9) [] ten (stopped_events []))
guru_usb_disconnect-releases_example =
    guru_usb_disconnect-releases kernel linguru lin_guru [] [] ten refl refl refl refl refl
      (9, refl)

guru_usb_disconnect-missing_example : guru_usb_disconnect kernel broken_buskit [] ≡ fault null_deref
guru_usb_disconnect-missing_example =
    guru_usb_disconnect-missing kernel broken_buskit [] (channel ∷ []) [] refl (omega arith) refl

-- A structure fresh from the allocator.
abbrev no_bus : Bus
no_bus = record { iface_count = 0; netdevs = []; send_reply_list = []; meas_volt_dev = none }

abbrev pub zeroed : Device
zeroed = record device { can_bus = no_bus; lin_bus = no_bus }

pub zeroed-IsZeroed : IsZeroed zeroed
zeroed-IsZeroed = record {
  no_can = record { count = refl; size = refl; places = replicate-IsPlaced 0; nobody = refl };
  no_lin = record { count = refl; size = refl; places = replicate-IsPlaced 0; nobody = refl };
}

guru_usb_probe-IsServing_example :
    Ends
      (λ err d' _. IsServing canguru_product_name err d')
      (guru_usb_probe canguru_product_name (some (replicate 16 48)) kernel zeroed [])
guru_usb_probe-IsServing_example =
    guru_usb_probe-IsServing kernel canguru_product_name (some (replicate 16 48)) zeroed []
      kernel-IsKernel zeroed-IsZeroed

guru_usb_probe-LifeEnd_example :
    Ends
      (LifeEnd kernel zeroed [])
      (guru_usb_probe linguru_product_name (some (replicate 16 48)) kernel zeroed [])
guru_usb_probe-LifeEnd_example =
    guru_usb_probe-LifeEnd kernel linguru_product_name (some (replicate 16 48)) zeroed []
      kernel-IsKernel zeroed-IsZeroed
