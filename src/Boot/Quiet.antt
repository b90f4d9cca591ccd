-- ===== src/Boot/Quiet.antt =====
-- Creating the boot device registers no net device.
use can_guru.Base.{ℕ, ◌==◌, Bool-cases, inl, inr, Option, some, none, List, ◌∷◌, length, arith}
use can_guru.Kernel.{Kernel, Ends, Ends-runs}
use can_guru.Kernel.Types.{Event, answered, done, cdev_init, cdev_add, device_create}
use can_guru.State.{BootState}
use can_guru.Bus.Registrations.{IsCounted}
use can_guru.Boot.{is_err, find_minor, boot_with_minor, publish_boot, guru_boot_create}

publish_boot-IsCounted :
    (k : Kernel) (st : BootState) (t : List Event) (serial : List ℕ) (m : ℕ)
    → Ends (λ _ _ t'. IsCounted 0 0 t t') (publish_boot (some serial) m k st t)
unfolding publish_boot
publish_boot-IsCounted k st t serial m = elim (Bool-cases (is_err (k.reply t (device_create m)))) [
  | inl refused ↦ rw refused (omega arith, omega arith)
  | inr node ↦ elim (Bool-cases (length serial == 16)) [
    | inl right ↦ rw (node, right) (omega arith, omega arith)
    | inr wrong ↦ rw (node, wrong) (omega arith, omega arith)
  ]
]

boot_with_minor-IsCounted :
    (k : Kernel) (st : BootState) (t : List Event) (serial : List ℕ) (found : Option ℕ)
    → Ends (λ _ _ t'. IsCounted 0 0 t t') (boot_with_minor (some serial) found k st t)
unfolding boot_with_minor
boot_with_minor-IsCounted k st t serial none = ground arith
boot_with_minor-IsCounted k st t serial (some m) =
    let numbered : BootState = record st { boot = record (st.boot) { minor_num = m } } in
    let t1 : List Event = done cdev_init ∷ t in
    let t2 : List Event = answered (cdev_add 0) (k.reply t1 (cdev_add 0)) ∷ t1 in
    let (err, st', t3, runs, counted) =
      Ends-runs (λ _ _ t'. IsCounted 0 0 t2 t') (publish_boot (some serial) m k numbered t2)
        (publish_boot-IsCounted k numbered t2 serial m) in
    ground (arith, runs, counted)

pub guru_boot_create-IsCounted :
    (k : Kernel) (st : BootState) (t : List Event) (serial : List ℕ)
    → Ends (λ _ _ t'. IsCounted 0 0 t t') (guru_boot_create (some serial) k st t)
unfolding guru_boot_create
guru_boot_create-IsCounted k st t serial =
    boot_with_minor-IsCounted k st t serial (find_minor 0 st.guru_boot_table)
