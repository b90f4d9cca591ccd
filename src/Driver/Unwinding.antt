-- ===== src/Driver/Unwinding.antt =====
-- What guru_drv_init has undone when it fails.
use can_guru.Base.{
  ℕ, suc, ◌≡◌, ◌⊎◌, ℤ, pos, is_zero, true, false, if◌then◌else◌, List, [], ◌∷◌, arith,
}
use can_guru.Kernel.{Kernel, Ends}
use can_guru.Kernel.Types.{
  Event, answered, done, alloc_chrdev_region, unregister_chrdev_region, class_create,
  class_unregister, class_destroy, usb_register,
}
use can_guru.Boot.{is_err, guru_boot_init, guru_boot_exit}
use can_guru.Driver.{guru_drv_init}

-- Regions of device numbers taken, and given back.
abbrev pub regions_taken : List Event → ℕ
regions_taken [] = 0
regions_taken (answered alloc_chrdev_region r ∷ t) =
    if is_zero r then suc (regions_taken t) else regions_taken t
regions_taken (e ∷ t) = regions_taken t

abbrev pub regions_freed : List Event → ℕ
regions_freed [] = 0
regions_freed (done unregister_chrdev_region ∷ t) = suc (regions_freed t)
regions_freed (e ∷ t) = regions_freed t

-- class_destroy ends with class_unregister, so each of the two removes a class.
abbrev pub classes_made : List Event → ℕ
classes_made [] = 0
classes_made (answered class_create (pos c) ∷ t) = suc (classes_made t)
classes_made (e ∷ t) = classes_made t

abbrev pub classes_removed : List Event → ℕ
classes_removed [] = 0
classes_removed (done class_unregister ∷ t) = suc (classes_removed t)
classes_removed (done class_destroy ∷ t) = suc (classes_removed t)
classes_removed (e ∷ t) = classes_removed t

-- What is left: how often a class was made and removed, and a region taken and given back.
abbrev pub IsLeft : ℕ → ℕ → ℕ → ℕ → List Event → Type 0
IsLeft made removed taken freed t =
    (classes_made t ≡ made)
    × (classes_removed t ≡ removed)
    × (regions_taken t ≡ taken)
    × (regions_freed t ≡ freed)

-- The four ways, by the first call that the kernel refuses.
abbrev pub DrvInitEnd : Kernel → ℤ → List Event → Type 0
DrvInitEnd k err t =
    let made = k.reply [] class_create in
    let class_made = answered class_create made ∷ [] in
    let taken = k.reply class_made alloc_chrdev_region in
    let region_taken = answered alloc_chrdev_region taken ∷ class_made in
    ((is_err made ≡ true) × (err ≡ made) × IsLeft 0 0 0 0 t)
    ⊎ (((is_err made ≡ false) × (is_zero taken ≡ false) × (err ≡ taken) × IsLeft 1 2 0 1 t)
        ⊎ (((is_err made ≡ false)
              × (is_zero taken ≡ true)
              × (is_zero (k.reply region_taken usb_register) ≡ false)
              × (err ≡ k.reply region_taken usb_register)
              × IsLeft 1 0 1 1 t)
            ⊎ ((is_err made ≡ false)
                × (is_zero taken ≡ true)
                × (is_zero (k.reply region_taken usb_register) ≡ true)
                × (err ≡ pos 0)
                × IsLeft 1 0 1 0 t)))

-- Loading keeps the driver's state and returns the error of the first call that is refused. If that
-- is the class, nothing is left. If it is the device numbers, a region that was never taken is
-- given back, and the one class is removed twice. If it is the USB driver, the region is given back
-- and the class stays. If none is refused, the result is 0, and the class and the region stay.
pub guru_drv_init-branches :
    {S : Type 0} (k : Kernel) (s : S)
    → Ends (λ err s' t'. (s' ≡ s) × DrvInitEnd k err t') (guru_drv_init k s [])
unfolding guru_drv_init guru_boot_init guru_boot_exit
guru_drv_init-branches k s = ground arith
