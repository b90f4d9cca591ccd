-- ===== src/Boot/Serial.antt =====
-- guru_boot_create for a device that reports no serial number: `usbdev->serial` is NULL then.
use can_guru.Base.{ℕ, inl, inr, refl, is_zero, Option, none, some, List, Bool-cases, ◌∷◌}
use can_guru.Kernel.{Kernel}
use can_guru.Kernel.OrNull.{OrNull}
use can_guru.Kernel.Types.{Event, done, cdev_add, device_create, cdev_init}
use can_guru.State.{BootState}
use can_guru.Boot.{find_minor, boot_with_minor, publish_boot, guru_boot_create, is_err}

publish_boot-OrNull :
    (k : Kernel) (st : BootState) (t : List Event) (serial : List ℕ) (m : ℕ)
    → OrNull (publish_boot (some serial) m k st t) (publish_boot none m k st t)
unfolding publish_boot
publish_boot-OrNull k st t serial m = elim (Bool-cases (is_err (k.reply t (device_create m)))) [
  | inl refused ↦ rw refused (inl refl)
  | inr node ↦ rw node (inr refl)
]

boot_with_minor-OrNull :
    (k : Kernel) (st : BootState) (t : List Event) (serial : List ℕ) (r : Option ℕ)
    → OrNull (boot_with_minor (some serial) r k st t) (boot_with_minor none r k st t)
unfolding boot_with_minor
boot_with_minor-OrNull k st t serial none = inl refl
boot_with_minor-OrNull k st t serial (some m) =
    elim (Bool-cases (is_zero (k.reply (done cdev_init ∷ t) (cdev_add 0)))) [
      | inl added ↦ rw added (publish_boot-OrNull k _ _ serial m)
      | inr refused ↦ rw refused (inl refl)
    ]

pub guru_boot_create-OrNull :
    (k : Kernel) (st : BootState) (t : List Event) (serial : List ℕ)
    → OrNull (guru_boot_create (some serial) k st t) (guru_boot_create none k st t)
unfolding guru_boot_create
guru_boot_create-OrNull k st t serial =
    boot_with_minor-OrNull k st t serial (find_minor 0 st.guru_boot_table)
