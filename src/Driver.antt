-- ===== src/Driver.antt =====
-- guru-drv.c: loading and unloading the module.
pub mod Unwinding
use can_guru.Base.{if◌then◌else◌, ℤ, pos, is_zero}
use can_guru.Kernel.Types.{
  log, dev_warn, class_create, class_unregister, class_destroy, usb_register, usb_deregister,
}
use can_guru.Kernel.{M, ◌>>=◌, ◌>>◌, pure, call, run}
use can_guru.Boot.{guru_boot_init, guru_boot_exit, is_err}

module _ {S : Type 0} where
  -- The labels, the first falling through to the second.
  abbrev err_usb : ℤ → M S ℤ
  err_usb err = do guru_boot_exit; pure err

  abbrev err_boot : ℤ → M S ℤ
  err_boot err = do run class_unregister; run class_destroy; err_usb err

  register_usb : M S ℤ
  register_usb = do
    err ← call usb_register
    if is_zero err then pure (pos 0) else (do run (log dev_warn); err_usb err)

  pub guru_drv_init : M S ℤ
  unfolding register_usb
  guru_drv_init = do
    guru_class ← call class_create
    if is_err guru_class then (do run (log dev_warn); pure guru_class) else (do
      err ← guru_boot_init
      if is_zero err then register_usb else (do run (log dev_warn); err_boot err))

  pub guru_drv_exit : M S (Unit {0})
  guru_drv_exit = do run usb_deregister; guru_boot_exit; run class_destroy
