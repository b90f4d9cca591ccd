-- ===== src/Probe.antt =====
-- guru-drv.c: what happens when a device is plugged in or pulled out.
pub mod Lifetime
pub mod Products
pub mod Serial
pub mod Session
pub mod Soundness
use can_guru.Base.{
  [], ℕ, ◌==◌, if◌then◌else◌, ℤ, pos, negsuc, Bool, true, false, Option, none, some, List, ◌∷◌,
}
use can_guru.Kernel.Types.{
  log, dev_info, enomem, enodev, usb_get_intfdata, usb_string, devm_kzalloc,
}
use can_guru.Kernel.{M, ◌>>=◌, ◌>>◌, pure, call, call_ptr, run}
use can_guru.State.{Device, Kind, canguru, linguru, mbus}
use can_guru.Devices.{canguru_dev_init, linguru_dev_init, mbus_dev_init, guru_dev_deinit}

-- The product names, as their bytes: "CAN Guru Lite", "LIN Guru" and "BusKit MultiBus".
abbrev pub canguru_product_name : List ℕ
canguru_product_name =
    b'C' ∷ b'A' ∷ b'N' ∷ 32 ∷ b'G' ∷ b'u' ∷ b'r' ∷ b'u' ∷ 32 ∷ b'L' ∷ b'i' ∷ b't' ∷ b'e' ∷ []

abbrev pub linguru_product_name : List ℕ
linguru_product_name = b'L' ∷ b'I' ∷ b'N' ∷ 32 ∷ b'G' ∷ b'u' ∷ b'r' ∷ b'u' ∷ []

abbrev pub buskit_multibus_product_name : List ℕ
buskit_multibus_product_name =
    b'B' ∷ b'u' ∷ b's' ∷ b'K' ∷ b'i' ∷ b't' ∷ 32 ∷ b'M' ∷ b'u' ∷ b'l' ∷ b't' ∷ b'i' ∷ b'B' ∷ b'u'
    ∷ b's' ∷ []

-- strcmp(a, b) == 0
pub same_text : List ℕ → List ℕ → Bool
same_text [] [] = true
same_text [] (b ∷ bs) = false
same_text (a ∷ as') [] = false
same_text (a ∷ as') (b ∷ bs) = if a == b then same_text as' bs else false

pub product_kind : List ℕ → Option Kind
unfolding same_text
product_kind product =
    if same_text product canguru_product_name
    then some canguru
    else if same_text product linguru_product_name
    then some linguru
    else if same_text product buskit_multibus_product_name
    then some mbus
    else none

abbrev dev_init : Kind → ℕ → Option (List ℕ) → M Device ℤ
dev_init canguru self serial = canguru_dev_init self serial
dev_init linguru self serial = linguru_dev_init self
dev_init mbus self serial = mbus_dev_init self

abbrev pub guru_usb_report : M Device (Unit {0})
guru_usb_report = run (log dev_info)

init_product : Option Kind → Option (List ℕ) → M Device ℤ
init_product none serial = do run (log dev_info); pure enodev
init_product (some kind) serial = do
  guru_usb_report
  self ← call_ptr devm_kzalloc
  if self == 0 then pure enomem else dev_init kind self serial

abbrev is_positive : ℤ → Bool
is_positive (pos n) = if n == 0 then false else true
is_positive (negsuc n) = false

-- `product` is what usb_string stores; the state is the zeroed structure that devm_kzalloc returns.
pub guru_usb_device_alloc : List ℕ → Option (List ℕ) → M Device ℤ
unfolding init_product product_kind
guru_usb_device_alloc product serial = do
  len ← call usb_string
  if is_positive len then init_product (product_kind product) serial else pure enodev

pub guru_usb_probe : List ℕ → Option (List ℕ) → M Device ℤ
unfolding guru_usb_device_alloc
guru_usb_probe product serial = guru_usb_device_alloc product serial

unfoldable pub guru_usb_disconnect : M Device (Unit {0})
guru_usb_disconnect = do run usb_get_intfdata; guru_dev_deinit
