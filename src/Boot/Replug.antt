-- ===== src/Boot/Replug.antt =====
-- Creating the boot device and removing it again.
use can_guru.Base.{ℕ, ◌+◌, ◌≡◌, ◌⊎◌, none, ℤ, is_zero, if◌then◌else◌, Option, some, List}
use can_guru.Kernel.{Kernel, M, Res, fault, null_deref, Ends, ◌>>=◌, pure}
use can_guru.Kernel.Types.{Event}
use can_guru.State.{BootState}
use can_guru.Boot.{guru_boot_create, guru_boot_destroy}
use can_guru.Boot.Ledger.{cdevs_added, cdevs_deleted, nodes_created, nodes_destroyed}
use can_guru.Boot.Branches.{IsPublished}

-- A device is plugged in and, if its boot device was created, pulled out again.
pub replug : Option (List ℕ) → M BootState (Unit {0})
replug serial = do err ← guru_boot_create serial; if is_zero err then guru_boot_destroy else pure tt

-- The table of minor numbers is the same, and as many character devices and nodes are left.
abbrev pub Restored : BootState → List Event → Unit {0} → BootState → List Event → Type 0
Restored st t _ st' t' =
    (st'.guru_boot_table ≡ st.guru_boot_table)
    × (cdevs_added t' + cdevs_deleted t ≡ cdevs_added t + cdevs_deleted t')
    × (nodes_created t' + nodes_destroyed t ≡ nodes_created t + nodes_destroyed t')

abbrev pub ReplugRun :
    Option (List ℕ) → Kernel → BootState → List Event → Res BootState (Unit {0}) → Type 0
ReplugRun (some serial) k st t r = Ends (Restored st t) r
ReplugRun none k st t r = Ends (Restored st t) r ⊎ (IsPublished k st t × (r ≡ fault null_deref))

after_create : ℤ → M BootState (Unit {0})
after_create err = if is_zero err then guru_boot_destroy else pure tt
