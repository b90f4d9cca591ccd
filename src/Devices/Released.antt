-- ===== src/Devices/Released.antt =====
-- What the removal of a device does to the kernel's objects.
use can_guru.Base.{
  [], ℕ, suc, ◌+◌, ◌≡◌, ◌⊎◌, refl, ap, inl, inr, Option, none, some, List, ◌∷◌, length, arith,
}
use can_guru.Kernel.Types.{Event, done, unregister_candev, free_candev, cdev_del, device_destroy}
use can_guru.State.{Device, NetDev, Kind, canguru, linguru, mbus}
use can_guru.Bus.Registrations.{channels_there, IsCounted}
use can_guru.Devices.Kinds.{can_count, lin_count}
use can_guru.Devices.Removal.{present, destroy_events}
use can_guru.Devices.Soundness.{IsMissing}
use can_guru.Devices.Disconnect.{stopped_events, removal_events}

destroy_events-IsCounted :
    (devs : List NetDev) (t : List Event) → IsCounted 0 (length devs) t (destroy_events devs t)
destroy_events-IsCounted [] t = (omega arith, omega arith)
destroy_events-IsCounted (dev ∷ devs) t =
    let t' = done (free_candev dev.handle) ∷ done (unregister_candev dev.handle) ∷ t in
    ground (arith, destroy_events-IsCounted devs t')

pub channels_there-present : (devs : List NetDev) → channels_there (present devs) ≡ length devs
channels_there-present [] = refl
channels_there-present (dev ∷ devs) = ap suc (channels_there-present devs)

-- Every net device is unregistered once.
pub removal_events-counts :
    (kind : Kind) (d : Device) (iio : Option ℕ) (cans lins : List NetDev) (t : List Event)
    → length cans ≡ can_count kind
    → length lins ≡ lin_count kind
    → IsCounted 0
        (length cans + length lins)
        t
        (removal_events kind d iio cans lins (stopped_events t))
removal_events-counts canguru d iio cans lins t hc hl =
    let boot : List Event =
      done cdev_del ∷ done (device_destroy d.boot_state.boot.minor_num) ∷ stopped_events t in
    ground (arith, hl, destroy_events-IsCounted cans boot)
removal_events-counts linguru d none cans lins t hc hl =
    ground (arith, hc, destroy_events-IsCounted lins (stopped_events t))
removal_events-counts linguru d (some iio) cans lins t hc hl =
    ground (arith, hc, destroy_events-IsCounted lins (stopped_events t))
removal_events-counts mbus d iio cans lins t hc hl =
    let after_cans = destroy_events cans (stopped_events t) in
    ground (
      arith,
      destroy_events-IsCounted cans (stopped_events t),
      destroy_events-IsCounted lins after_cans,
    )

-- An array is full, or it has a gap.
pub present_or_gap :
    (devs : List (Option NetDev))
    → ((list : List NetDev) × (devs ≡ present list) × (length list ≡ length devs))
      ⊎ ((i : ℕ) × IsMissing devs i)
present_or_gap [] = inl ([], refl, refl)
present_or_gap (none ∷ devs) = inr (0, refl)
present_or_gap (some dev ∷ devs) = elim (present_or_gap devs) [
  | inr (i, e) ↦ inr (suc i, e)
  | inl (list, e, same) ↦
      inl (dev ∷ list, ap (λ (l : List (Option NetDev)). some dev ∷ l) e, ap suc same)
]
