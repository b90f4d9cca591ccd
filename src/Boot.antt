-- ===== src/Boot.antt =====
-- guru-boot.c: the boot loader's character device of a CAN Guru.
pub mod Branches
pub mod Ledger
pub mod Minors
pub mod Quiet
pub mod Replug
pub mod Serial
use can_guru.Base.{
  [], ℕ, suc, ◌==◌, if◌then◌else◌, ℤ, pos, negsuc, is_zero, Bool, true, false, Option, none, some,
  List, ◌∷◌, ◌++◌, set, length,
}
use can_guru.Kernel.Types.{
  log, dev_err, enomem, einval, alloc_chrdev_region, unregister_chrdev_region, cdev_init, cdev_add,
  cdev_del, simple_read_from_buffer, device_create, device_destroy,
}
use can_guru.Kernel.{M, ◌>>=◌, ◌>>◌, pure, raise, call, run, get, modify, null_deref}
use can_guru.State.{BootState}

abbrev pub guru_dev_max : ℕ
guru_dev_max = 16

abbrev pub guru_sn_size : ℕ
guru_sn_size = 16

unfoldable pub guru_boot_init : {S : Type 0} → M S ℤ
guru_boot_init = do err ← call alloc_chrdev_region; if is_zero err then pure (pos 0) else pure err

unfoldable pub guru_boot_exit : {S : Type 0} → M S (Unit {0})
guru_boot_exit = run unregister_chrdev_region

-- The search loop: the first index whose entry is NULL, if it comes before the end.
pub find_minor : ℕ → List (Option ℕ) → Option ℕ
find_minor idx [] = none
find_minor idx (none ∷ rest) = some idx
find_minor idx (some owner ∷ rest) = find_minor (suc idx) rest

unfoldable pub guru_boot_destroy : M BootState (Unit {0})
guru_boot_destroy = do
  st ← get
  run (device_destroy st.boot.minor_num)
  modify (λ s. record s { guru_boot_table = set s.guru_boot_table s.boot.minor_num none })
  run cdev_del

-- `usbdev->serial` may be NULL, and strlen does not take that.
pub guru_sn_init : Option (List ℕ) → M BootState ℤ
guru_sn_init none = raise null_deref
guru_sn_init (some serial) =
    if length serial == guru_sn_size
    then (do
      modify (λ s. record s { boot = record (s.boot) { serial_number = serial ++ (10 ∷ []) } })
      pure (pos 0))
    else pure einval

-- IS_ERR of the pointer that device_create returns.
abbrev pub is_err : ℤ → Bool
is_err (pos p) = false
is_err (negsuc e) = true

pub publish_boot : Option (List ℕ) → ℕ → M BootState ℤ
unfolding guru_sn_init guru_boot_destroy
publish_boot serial minor = do
  boot_device ← call (device_create minor)
  if is_err boot_device then (do run (log dev_err); run cdev_del; pure boot_device) else (do
    modify (λ s. record s { guru_boot_table = set s.guru_boot_table minor (some s.boot.pointer) })
    err ← guru_sn_init serial
    if is_zero err then pure (pos 0) else (do run (log dev_err); guru_boot_destroy; pure err))

-- `guru_boot_id` is the region's first device number, that of minor 0.
pub boot_with_minor : Option (List ℕ) → Option ℕ → M BootState ℤ
boot_with_minor serial none = pure enomem
boot_with_minor serial (some minor) = do
  modify (λ s. record s { boot = record (s.boot) { minor_num = minor } })
  run cdev_init
  err ← call (cdev_add 0)
  if is_zero err then publish_boot serial minor else (do run (log dev_err); pure err)

pub guru_boot_create : Option (List ℕ) → M BootState ℤ
unfolding boot_with_minor
guru_boot_create serial = do st ← get; boot_with_minor serial (find_minor 0 st.guru_boot_table)

-- The file's private_data is the pointer of the structure around the character device. The result
-- is 0.
pub guru_boot_open : M BootState (ℕ × ℤ)
guru_boot_open = do st ← get; pure (st.boot.pointer, pos 0)

-- A text up to its terminator, as strlen counts it.
abbrev pub up_to_null : List ℕ → List ℕ
up_to_null [] = []
up_to_null (b ∷ bytes) = let rest = up_to_null bytes in if b == 0 then [] else b ∷ rest

-- The kernel copies at most `len` bytes of the text, from `offset` on, into the user's buffer.
pub guru_boot_read : ℕ → ℕ → M BootState ℤ
guru_boot_read len offset = do
  st ← get
  call (simple_read_from_buffer (up_to_null st.boot.serial_number) len offset)

pub guru_boot_ioctl : M BootState ℤ
guru_boot_ioctl = pure (pos 0)
