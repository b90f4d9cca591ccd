-- ===== src/Boot/Ledger.antt =====
-- What a record of calls says of the kernel's character devices and device nodes.
use can_guru.Base.{ℕ, suc, if◌then◌else◌, is_zero, List, [], ◌∷◌}
use can_guru.Kernel.Types.{Event, answered, done, cdev_add, cdev_del, device_create, device_destroy}
use can_guru.Boot.{is_err}

-- Character devices and device nodes: those that were made, and those that were removed.
abbrev pub cdevs_added : List Event → ℕ
cdevs_added [] = 0
cdevs_added (answered (cdev_add minor) r ∷ t) =
    if is_zero r then suc (cdevs_added t) else cdevs_added t
cdevs_added (e ∷ t) = cdevs_added t

abbrev pub cdevs_deleted : List Event → ℕ
cdevs_deleted [] = 0
cdevs_deleted (done cdev_del ∷ t) = suc (cdevs_deleted t)
cdevs_deleted (e ∷ t) = cdevs_deleted t

-- The refusals of a character device or a device node.
abbrev pub boot_refusals : List Event → ℕ
boot_refusals [] = 0
boot_refusals (answered (cdev_add minor) r ∷ t) =
    if is_zero r then boot_refusals t else suc (boot_refusals t)
boot_refusals (answered (device_create minor) r ∷ t) =
    if is_err r then suc (boot_refusals t) else boot_refusals t
boot_refusals (e ∷ t) = boot_refusals t

abbrev pub nodes_created : List Event → ℕ
nodes_created [] = 0
nodes_created (answered (device_create minor) r ∷ t) =
    if is_err r then nodes_created t else suc (nodes_created t)
nodes_created (e ∷ t) = nodes_created t

abbrev pub nodes_destroyed : List Event → ℕ
nodes_destroyed [] = 0
nodes_destroyed (done (device_destroy minor) ∷ t) = suc (nodes_destroyed t)
nodes_destroyed (e ∷ t) = nodes_destroyed t
