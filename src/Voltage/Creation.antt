-- ===== src/Voltage/Creation.antt =====
-- linguru-voltage.c: creating the IIO device.
use can_guru.Base.{ℕ, ◌≡◌, ◌≢◌, ◌⊎◌, ℤ, pos, some, List, arith}
use can_guru.Kernel.{Kernel, Ends}
use can_guru.Kernel.Types.{Event}
use can_guru.State.{Device}
use can_guru.Bus.Registrations.{IsCounted}
use can_guru.Voltage.{linguru_volt_create}

-- On success the IIO device is stored; the rest of the device stays in any case.
abbrev pub VoltEnd : Device → ℤ → Device → List Event → Type 0
VoltEnd d err d' _ =
    (d'.guru ≡ d.guru)
    × (d'.can_bus ≡ d.can_bus)
    × (d'.lin_bus ≡ d.lin_bus)
    × (d'.boot_state ≡ d.boot_state)
    × ((err ≢ pos 0) ⊎ ((err ≡ pos 0) × ((iio : ℕ) × (d'.meas_volt_dev ≡ some iio))))

pub linguru_volt_create-VoltEnd :
    (k : Kernel) (d : Device) (t : List Event) → Ends (VoltEnd d) (linguru_volt_create k d t)
unfolding linguru_volt_create
linguru_volt_create-VoltEnd k d t = ground arith

pub linguru_volt_create-IsCounted :
    (k : Kernel) (d : Device) (t : List Event)
    → Ends (λ _ _ t'. IsCounted 0 0 t t') (linguru_volt_create k d t)
unfolding linguru_volt_create
linguru_volt_create-IsCounted k d t = ground arith
