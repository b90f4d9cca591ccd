-- ===== src/Boot/Branches.antt =====
-- What guru_boot_create does on every path, with a serial number and without.
use can_guru.Base.{
  ℕ, ◌+◌, ◌≡◌, ◌≢◌, ◌⊎◌, inl, inr, refl, ℤ, pos, is_zero, Option, none, some, List, ◌∷◌, suc,
  Bool-cases, true, false, arith,
}
use can_guru.Kernel.Types.{Event, answered, done, enomem, cdev_add, device_create, cdev_init}
use can_guru.Kernel.{Kernel, Ends, Res, fault, null_deref}
use can_guru.State.{BootState}
use can_guru.Boot.Ledger.{cdevs_added, cdevs_deleted, boot_refusals, nodes_created, nodes_destroyed}
use can_guru.Boot.{boot_with_minor, publish_boot, guru_boot_create, is_err}
use can_guru.Boot.Minors.{BootEnd, IsFull, IsFirstFree, find_minor-first, guru_boot_create-BootEnd}

-- The kernel refused the character device or its node, and nothing is kept; or the table is full.
abbrev pub NotCreated : BootState → List Event → ℤ → BootState → List Event → Type 0
NotCreated st t err st' t' =
    ((err ≢ pos 0)
      × (st'.guru_boot_table ≡ st.guru_boot_table)
      × (boot_refusals t' ≡ suc (boot_refusals t))
      × (cdevs_added t' + cdevs_deleted t ≡ cdevs_added t + cdevs_deleted t')
      × (nodes_created t' + nodes_destroyed t ≡ nodes_created t + nodes_destroyed t'))
    ⊎ ((err ≡ enomem) × IsFull st.guru_boot_table × (st' ≡ st) × (t' ≡ t))

-- An entry is free, and the kernel gives a character device and a node for it.
abbrev pub IsPublished : Kernel → BootState → List Event → Type 0
IsPublished k st t =
    (m : ℕ) × IsFirstFree st.guru_boot_table m
    × (is_zero (k.reply (done cdev_init ∷ t) (cdev_add 0)) ≡ true)
    × (is_err (
          k.reply
            (answered (cdev_add 0) (k.reply (done cdev_init ∷ t) (cdev_add 0)) ∷ done cdev_init ∷ t)
            (device_create m))
        ≡ false)

-- How the run ends with a serial number, and without.
abbrev pub CreateRun : Option (List ℕ) → Kernel → BootState → List Event → Res BootState ℤ → Type 0
CreateRun (some serial) k st t r = Ends (BootEnd serial st t) r
CreateRun none k st t r = Ends (NotCreated st t) r ⊎ (IsPublished k st t × (r ≡ fault null_deref))

no_serial :
    (k : Kernel) (st : BootState) (t : List Event)
    → CreateRun none k st t (guru_boot_create none k st t)
unfolding boot_with_minor guru_boot_create publish_boot
no_serial k st t = elim (find_minor-first st.guru_boot_table) [
  | inl (not_found, full) ↦ rw not_found (inl (inr (refl, full, refl, refl)))
  | inr (m, found, first) ↦ elim (Bool-cases (is_zero (k.reply inited (cdev_add 0)))) [
    | inr refused ↦
        rw (found, refused)
          (inl (inl (ground (arith, refused), refl, rw refused refl, rw refused refl, refl)))
    | inl added ↦ elim (Bool-cases (is_err (k.reply (with_cdev) (device_create m)))) [
      | inl refused ↦
          rw (found, added, refused)
            (inl (
              inl (
                ground (arith, refused),
                refl,
                ground (arith, added, refused),
                ground (arith, added, refused),
                ground (arith, added, refused),
              )))
      | inr node ↦ inr ((m, first, added, node), rw (found, added, node) refl)
    ]
  ]
]
  where
    inited : List Event
    inited = done cdev_init ∷ t

    with_cdev : List Event
    with_cdev = answered (cdev_add 0) (k.reply inited (cdev_add 0)) ∷ inited

-- For a device that reports a serial number, and whatever the kernel answers, guru_boot_create either
-- succeeds, with the device in the first free entry of the table and the serial number stored, or
-- fails with an error, since the serial number has not 16 characters or the kernel refused a device,
-- and then the table is as before and no character device or device node is left, or finds the table
-- full, and then returns -ENOMEM and does nothing. For a device that reports none it fails in the same
-- way where the table is full or the kernel refuses a device, and else dereferences NULL, when an
-- entry was free and the kernel gave a character device and a node.
pub guru_boot_create-branches :
    (k : Kernel) (st : BootState) (t : List Event) (serial : Option (List ℕ))
    → CreateRun serial k st t (guru_boot_create serial k st t)
guru_boot_create-branches k st t none = no_serial k st t
guru_boot_create-branches k st t (some serial) = guru_boot_create-BootEnd k st t serial
