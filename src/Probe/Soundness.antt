-- ===== src/Probe/Soundness.antt =====
-- guru-drv.c: the device that a successful guru_usb_probe hands to the receive path.
use can_guru.Base.{
  ℕ, ◌≡◌, ◌≢◌, ◌⊎◌, refl, inl, inr, Bool-cases, ◌==◌, ℤ, pos, Option, none, some, List, ◌∷◌, arith,
}
use can_guru.Kernel.{Kernel, IsKernel, Ends, Ends-map, Ends-both, pointer}
use can_guru.Kernel.Types.{
  Event, answered, done, log, dev_info, enomem, enodev, usb_string, devm_kzalloc,
}
use can_guru.State.{Device, Kind, canguru, linguru, mbus}
use can_guru.Devices.Kinds.{kind_messages, IsZeroed, IsInitialised, KindEnd}
use can_guru.Bus.Registrations.{IsCounted}
use can_guru.Devices.{canguru_dev_init, linguru_dev_init, mbus_dev_init}
use can_guru.Devices.Initialisation.Counted.{
  no_channels, AllCounted, canguru_dev_init-AllCounted, linguru_dev_init-AllCounted,
}
use can_guru.Devices.Initialisation.Counted.Mbus.{mbus_dev_init-AllCounted}
use can_guru.Devices.Initialisation.Canguru.{canguru_dev_init-KindEnd}
use can_guru.Devices.Initialisation.Linguru.{linguru_dev_init-KindEnd}
use can_guru.Devices.Soundness.{IsUsable, IsInitialised-IsUsable, mbus_dev_init-KindEnd}
use can_guru.Probe.{
  dev_init, init_product, product_kind, is_positive, guru_usb_device_alloc, guru_usb_probe,
}
use can_guru.Probe.Serial.{Probed, guru_usb_probe-Probed}
use can_guru.Probe.Products.{name_of, product_kind_iff}

-- The initialisation of a type, and the count of its net devices.
abbrev CountedEnd : Kind → Device → List Event → ℤ → Device → List Event → Type 0
CountedEnd kind start t err d' t' = KindEnd kind start err d' t' × AllCounted t err d' t'

dev_init-CountedEnd :
    (k : Kernel) (kind : Kind) (self : ℕ) (serial : List ℕ) (d : Device) (t : List Event)
    → IsKernel k
    → IsZeroed d
    → Ends (CountedEnd kind d t) (dev_init kind self (some serial) k d t)
dev_init-CountedEnd k canguru self serial d t kernel zeroed =
    Ends-both (KindEnd canguru d) (AllCounted t) (CountedEnd canguru d t)
      (canguru_dev_init self (some serial) k d t) (λ _ _ _ p q. (p, q))
      (canguru_dev_init-KindEnd k self serial d t kernel zeroed)
      (canguru_dev_init-AllCounted k self serial d t kernel zeroed)
dev_init-CountedEnd k linguru self serial d t kernel zeroed =
    Ends-both (KindEnd linguru d) (AllCounted t) (CountedEnd linguru d t)
      (linguru_dev_init self k d t) (λ _ _ _ p q. (p, q))
      (linguru_dev_init-KindEnd k self d t kernel zeroed)
      (linguru_dev_init-AllCounted k self d t kernel zeroed)
dev_init-CountedEnd k mbus self serial d t kernel zeroed =
    Ends-both (KindEnd mbus d) (AllCounted t) (CountedEnd mbus d t) (mbus_dev_init self k d t)
      (λ _ _ _ p q. (p, q)) (mbus_dev_init-KindEnd k self d t kernel)
      (mbus_dev_init-AllCounted k self d t kernel zeroed)

-- An error, or 0 and a device of the type that the product names; the net devices that are
-- registered are those in its arrays.
abbrev pub ProbeEnd : Option Kind → Device → List Event → ℤ → Device → List Event → Type 0
ProbeEnd found start t err d' t' =
    AllCounted t err d' t'
    × ((err ≢ pos 0)
        ⊎ ((err ≡ pos 0)
            × ((kind : Kind) × (found ≡ some kind)
                × (d'.guru.dev_deinit ≡ some kind)
                × IsInitialised kind start d')))

-- Nothing was done but calls that are not about net devices.
refused :
    (found : Option Kind) (d : Device) (t t' : List Event) (err : ℤ)
    → IsZeroed d
    → err ≢ pos 0
    → IsCounted 0 0 t t'
    → ProbeEnd found d t err d t'
refused found d t t' err zeroed bad quiet =
    let can = no_channels d.can_bus.netdevs zeroed.no_can.size in
    let lin = no_channels d.lin_bus.netdevs zeroed.no_lin.size in
    (ground (arith, can, lin, quiet), inl bad)

init_product-ProbeEnd :
    (k : Kernel) (found : Option Kind) (serial : List ℕ) (d : Device) (t : List Event)
    → IsKernel k
    → IsZeroed d
    → Ends (ProbeEnd found d t) (init_product found (some serial) k d t)
unfolding init_product
init_product-ProbeEnd k none serial d t kernel zeroed =
    refused none d t (done (log dev_info) ∷ t) enodev zeroed (λ e. ground (arith, e)) (ground arith)
init_product-ProbeEnd k (some kind) serial d t kernel zeroed = elim (Bool-cases (self == 0)) [
  | inl no_memory ↦
      rw no_memory
        (refused (some kind) d t allocated enomem zeroed (λ e. ground (arith, e)) (ground arith))
  | inr some_memory ↦ rw some_memory (
      Ends-map (CountedEnd kind d allocated) (ProbeEnd (some kind) d t)
        (dev_init kind self (some serial) k d allocated) done_or_not
        (dev_init-CountedEnd k kind self serial d allocated kernel zeroed))
]
  where
    t1 : List Event
    t1 = done (log dev_info) ∷ t

    self : ℕ
    self = pointer (k.reply t1 devm_kzalloc)

    allocated : List Event
    allocated = answered devm_kzalloc (k.reply t1 devm_kzalloc) ∷ t1

    done_or_not :
        (err : ℤ) (d' : Device) (t' : List Event)
        → CountedEnd kind d allocated err d' t'
        → ProbeEnd (some kind) d t err d' t'
    done_or_not err d' t' ((deinit, inl bad), counted) = (counted, inl bad)
    done_or_not err d' t' ((deinit, inr (good, made)), counted) =
        (counted, inr (good, (kind, refl, deinit, made)))

pub guru_usb_probe-ProbeEnd :
    (k : Kernel) (product serial : List ℕ) (d : Device) (t : List Event)
    → IsKernel k
    → IsZeroed d
    → Ends (ProbeEnd (product_kind product) d t) (guru_usb_probe product (some serial) k d t)
unfolding guru_usb_probe guru_usb_device_alloc
guru_usb_probe-ProbeEnd k product serial d t kernel zeroed =
    elim (Bool-cases (is_positive (k.reply t usb_string))) [
      | inr unnamed ↦ rw unnamed (
          refused (product_kind product) d t asked enodev zeroed (λ e. ground (arith, e))
            (ground arith))
      | inl named ↦ rw named (
          Ends-map (ProbeEnd (product_kind product) d asked) (ProbeEnd (product_kind product) d t)
            (init_product (product_kind product) (some serial) k d asked) (λ _ _ _ ends. ends)
            (init_product-ProbeEnd k (product_kind product) serial d asked kernel zeroed))
    ]
  where
    asked : List Event
    asked = answered usb_string (k.reply t usb_string) ∷ t

-- An error, or 0 and a device of the type with the product's name, with its messages.
abbrev pub IsServing : List ℕ → ℤ → Device → Type 0
IsServing product err d' =
    (err ≢ pos 0)
    ⊎ ((err ≡ pos 0)
        × ((kind : Kind) × (product ≡ name_of kind)
            × (d'.guru.dev_deinit ≡ some kind)
            × (d'.guru.msg_list ≡ kind_messages kind)
            × IsUsable d'))

probe-IsServing :
    (k : Kernel) (product serial : List ℕ) (d : Device) (t : List Event)
    → IsKernel k
    → IsZeroed d
    → Ends (λ err d' _. IsServing product err d') (guru_usb_probe product (some serial) k d t)
probe-IsServing k product serial d t kernel zeroed =
    Ends-map (ProbeEnd (product_kind product) d t) (λ err d' _. IsServing product err d')
      (guru_usb_probe product (some serial) k d t) serving
      (guru_usb_probe-ProbeEnd k product serial d t kernel zeroed)
  where
    serving :
        (err : ℤ) (d' : Device) (t' : List Event)
        → ProbeEnd (product_kind product) d t err d' t'
        → IsServing product err d'
    serving err d' t' (_, inl bad) = inl bad
    serving err d' t' (_, inr (good, (kind, found, deinit, made))) = inr (
      good,
      (
        kind,
        (product_kind_iff product kind).0 found,
        deinit,
        made.registered,
        IsInitialised-IsUsable kind d d' made,
      ),
    )

-- Whatever the kernel answers and whatever product name the device reports, probing it ends, without
-- a fault, if the structure that the kernel allocates is zeroed, unless the device is a CAN Guru that
-- reports no serial number: then NULL may be dereferenced. The result is an error, or it is 0, and
-- then the product's name is that of one of the three device types, the removal function is the one
-- of this type, the messages of this type are registered, and either a channel could not be created
-- or the device is sound: every channel that a bus counts is there, nobody waits for an answer, the
-- callbacks that trust a length are registered for their own identifiers only, and no identifier is
-- registered twice.
pub guru_usb_probe-IsServing :
    (k : Kernel) (product : List ℕ) (serial : Option (List ℕ)) (d : Device) (t : List Event)
    → IsKernel k
    → IsZeroed d
    → Probed product serial
        (λ err d' _. IsServing product err d')
        (guru_usb_probe product serial k d t)
guru_usb_probe-IsServing k product serial d t kernel zeroed =
    guru_usb_probe-Probed k product serial d t (λ err d' _. IsServing product err d')
      (λ number. probe-IsServing k product number d t kernel zeroed)
