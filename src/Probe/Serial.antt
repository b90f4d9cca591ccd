-- ===== src/Probe/Serial.antt =====
-- guru-drv.c: probing a device that may report no serial number.
use can_guru.Base.{
  [], ℕ, ◌≡◌, ◌⊎◌, inl, inr, refl, ℤ, List, ◌∷◌, Option, none, some, Bool-cases, ◌==◌, sym, subst,
}
use can_guru.Kernel.{Kernel, Ends, Res, fault, null_deref, pointer}
use can_guru.Kernel.Types.{Event, done, log, dev_info, usb_string, devm_kzalloc}
use can_guru.State.{Device, Kind, canguru, linguru, mbus}
use can_guru.Devices.Serial.{canguru_dev_init-OrNull}
use can_guru.Probe.{
  dev_init, init_product, product_kind, is_positive, guru_usb_device_alloc, guru_usb_probe,
  canguru_product_name,
}
use can_guru.Probe.Products.{product_kind_iff}

-- The same end, or a CAN Guru on which NULL is dereferenced.
abbrev CanguruOrNull : Option Kind → Res Device ℤ → Res Device ℤ → Type 0
CanguruOrNull found r r' = (r' ≡ r) ⊎ ((found ≡ some canguru) × (r' ≡ fault null_deref))

dev_init-OrNull :
    (k : Kernel) (kind : Kind) (self : ℕ) (serial : List ℕ) (d : Device) (t : List Event)
    → CanguruOrNull
        (some kind)
        (dev_init kind self (some serial) k d t)
        (dev_init kind self none k d t)
dev_init-OrNull k canguru self serial d t = elim (canguru_dev_init-OrNull k self serial d t) [
  | inl same ↦ inl same
  | inr null ↦ inr (refl, null)
]
dev_init-OrNull k linguru self serial d t = inl refl
dev_init-OrNull k mbus self serial d t = inl refl

init_product-OrNull :
    (k : Kernel) (found : Option Kind) (serial : List ℕ) (d : Device) (t : List Event)
    → CanguruOrNull found (init_product found (some serial) k d t) (init_product found none k d t)
unfolding init_product
init_product-OrNull k none serial d t = inl refl
init_product-OrNull k (some kind) serial d t =
    elim (Bool-cases (pointer (k.reply (done (log dev_info) ∷ t) devm_kzalloc) == 0)) [
      | inl no_memory ↦ rw no_memory (inl refl)
      | inr some_memory ↦ rw some_memory (dev_init-OrNull k kind _ serial d _)
    ]

guru_usb_probe-OrNull :
    (k : Kernel) (product serial : List ℕ) (d : Device) (t : List Event)
    → CanguruOrNull
        (product_kind product)
        (guru_usb_probe product (some serial) k d t)
        (guru_usb_probe product none k d t)
unfolding guru_usb_probe guru_usb_device_alloc
guru_usb_probe-OrNull k product serial d t =
    elim (Bool-cases (is_positive (k.reply t usb_string))) [
      | inr unnamed ↦ rw unnamed (inl refl)
      | inl named ↦ rw named (init_product-OrNull k (product_kind product) serial d _)
    ]

-- Probing ends as `P` says; or the device reports no serial number, it is a CAN Guru, and NULL is
-- dereferenced.
abbrev pub Probed :
    List ℕ → Option (List ℕ) → (ℤ → Device → List Event → Type 0) → Res Device ℤ → Type 0
Probed product (some serial) P r = Ends P r
Probed product none P r = Ends P r ⊎ ((product ≡ canguru_product_name) × (r ≡ fault null_deref))

-- What holds with any serial number is what can be said of a device that may have none.
pub guru_usb_probe-Probed :
    (k : Kernel) (product : List ℕ) (serial : Option (List ℕ)) (d : Device) (t : List Event)
    (P : ℤ → Device → List Event → Type 0)
    → ((number : List ℕ) → Ends P (guru_usb_probe product (some number) k d t))
    → Probed product serial P (guru_usb_probe product serial k d t)
guru_usb_probe-Probed k product (some serial) d t P reports = reports serial
guru_usb_probe-Probed k product none d t P reports = elim (guru_usb_probe-OrNull k product [] d t) [
  | inl same ↦ inl (subst (Ends P) (sym same) (reports []))
  | inr (found, null) ↦ inr ((product_kind_iff product canguru).0 found, null)
]
