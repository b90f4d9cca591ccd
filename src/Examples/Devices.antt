-- ===== src/Examples/Devices.antt =====
-- Runs of loading, registration, the boot device and the voltage.
use can_guru.Base.{[], ◌≡◌, refl, ◌<◌, ◌≤◌, ◌+◌, ◌⊎◌, some, ◌∷◌, replicate, arith}
use can_guru.Kernel.Types.{done, log, dev_info}
use can_guru.Kernel.{Ends, ok, fault, out_of_bounds}
use can_guru.Kernel.Ledger.{aside}
use can_guru.Boot.{guru_boot_create}
use can_guru.Boot.Minors.{BootEnd}
use can_guru.Boot.Branches.{guru_boot_create-branches}
use can_guru.Reception.{canguru_usb_rx_init}
use can_guru.Reception.Accounting.{RxInitEnd, canguru_usb_rx_init-IsHeld}
use can_guru.CanChannel.{canguru_net_create}
use can_guru.CanChannel.Creation.{CreateEnd, canguru_net_create-CreateEnd}
use can_guru.Voltage.{linguru_volt_read_raw}
use can_guru.Voltage.Reading.{ReadEnd, locks, unlocks, linguru_volt_read_raw-ReadEnd}
use can_guru.Driver.{guru_drv_init}
use can_guru.Driver.Unwinding.{DrvInitEnd, guru_drv_init-branches}
use can_guru.Messages.{std_fw_version}
use can_guru.Messages.Std.{std_fw_version-overflows}
use can_guru.Examples.{kernel, kernel-IsKernel, bus, device}

guru_boot_create-branches_example :
    Ends
      (BootEnd (replicate 16 48) device.boot_state [])
      (guru_boot_create (some (replicate 16 48)) kernel device.boot_state [])
guru_boot_create-branches_example =
    guru_boot_create-branches kernel device.boot_state [] (some (replicate 16 48))

linguru_volt_read_raw-ReadEnd_example :
    Ends
      (λ r s' t'.
        ReadEnd 0 (120 ∷ 121 ∷ []) 7 [] r s'.voltage t'
        × (locks (aside t') + 0 ≡ 0 + unlocks (aside t')))
      (linguru_volt_read_raw 0 (120 ∷ 121 ∷ []) kernel (record { voltage = 7 }) [])
linguru_volt_read_raw-ReadEnd_example =
    linguru_volt_read_raw-ReadEnd kernel 7 [] 0 (120 ∷ 121 ∷ []) kernel-IsKernel

guru_drv_init-branches_example :
    Ends (λ err s' t'. (s' ≡ device) × DrvInitEnd kernel err t') (guru_drv_init kernel device [])
guru_drv_init-branches_example = guru_drv_init-branches kernel device

std_fw_version-overflows_example :
    ((2 ≤ 32) × (std_fw_version kernel device [] ≡ ok tt device (done (log dev_info) ∷ [])))
    ⊎ ((32 < 2) × (std_fw_version kernel device [] ≡ fault out_of_bounds))
std_fw_version-overflows_example =
    std_fw_version-overflows kernel device [] (49 ∷ 46 ∷ []) refl (omega arith)

canguru_usb_rx_init-IsHeld_example :
    Ends (RxInitEnd device []) (canguru_usb_rx_init kernel device [])
canguru_usb_rx_init-IsHeld_example = canguru_usb_rx_init-IsHeld kernel device []

canguru_net_create-CreateEnd_example :
    Ends (CreateEnd 8 0 bus []) (canguru_net_create 0 kernel bus [])
canguru_net_create-CreateEnd_example = canguru_net_create-CreateEnd kernel bus [] 0 kernel-IsKernel
