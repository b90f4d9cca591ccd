-- ===== src/Probe/Lifetime.antt =====
-- guru-drv.c: a device from its probing to its removal, and the net devices that the network stack
-- knows in between.
use can_guru.Base.{
  ℕ, ◌+◌, ◌≡◌, ◌≢◌, ◌⊎◌, refl, sym, ap, ◌∙◌, subst, inl, inr, ℤ, pos, Option, none, some, List,
  length, set, arith,
}
use can_guru.Kernel.{Kernel, IsKernel, Ends, Ends-map}
use can_guru.Kernel.Types.{Event}
use can_guru.Kernel.Ledger.{aside}
use can_guru.State.{Device, NetDev, Kind, canguru, linguru, mbus}
use can_guru.Bus.Registrations.{netdevs_registered, netdevs_unregistered, channels_there}
use can_guru.Boot.Minors.{free_entry, set-restore}
use can_guru.Devices.Kinds.{can_count, lin_count, IsZeroed, IsInitialised, TookMinor}
use can_guru.Devices.Soundness.{IsMissing}
use can_guru.Devices.Removal.{present}
use can_guru.Devices.Disconnect.{
  stopped_events, released_device, removal_events, guru_usb_disconnect-releases,
}
use can_guru.Devices.Released.{channels_there-present, removal_events-counts, present_or_gap}
use can_guru.Devices.Initialisation.Counted.{AllCounted}
use can_guru.Probe.{product_kind, guru_usb_probe, guru_usb_disconnect}
use can_guru.Probe.Serial.{Probed, guru_usb_probe-Probed}
use can_guru.Probe.Soundness.{ProbeEnd, guru_usb_probe-ProbeEnd}

-- As many net devices were unregistered as registered.
abbrev pub IsBalanced : List Event → List Event → Type 0
IsBalanced t t' =
    netdevs_registered (aside t') + netdevs_unregistered (aside t)
    ≡ netdevs_registered (aside t) + netdevs_unregistered (aside t')

-- Between the records `t` and `t''` the device was probed and removed: no net device is left, and the
-- table of boot devices is as it was in `d`.
abbrev pub RemovedEnd : Device → List Event → Unit {0} → Device → List Event → Type 0
RemovedEnd d t _ d'' t'' =
    IsBalanced t t''
    × (channels_there d''.can_bus.netdevs ≡ 0)
    × (channels_there d''.lin_bus.netdevs ≡ 0)
    × (d''.boot_state.guru_boot_table ≡ d.boot_state.guru_boot_table)

table_restored :
    (kind : Kind) (d d' : Device)
    → TookMinor kind d.boot_state d'.boot_state
    → (released_device kind d').boot_state.guru_boot_table ≡ d.boot_state.guru_boot_table
table_restored canguru d d' (first, taken) =
    let m = d'.boot_state.boot.minor_num in
    let before = d.boot_state.guru_boot_table in
    ap (λ (table : List (Option ℕ)). set table m none) taken
    ∙ set-restore before m (some d.boot_state.boot.pointer) (free_entry before m first)
table_restored linguru d d' same = same
table_restored mbus d d' same = same

-- No entry of the arrays is left, if those that the type does not have were empty.
nothing_left :
    (kind : Kind) (d' : Device) (cans lins : List NetDev)
    → length cans ≡ can_count kind
    → length lins ≡ lin_count kind
    → d'.can_bus.netdevs ≡ present cans
    → d'.lin_bus.netdevs ≡ present lins
    → (channels_there (released_device kind d').can_bus.netdevs ≡ 0)
      × (channels_there (released_device kind d').lin_bus.netdevs ≡ 0)
nothing_left canguru d' cans lins hc hl there_can there_lin =
    (refl, ap channels_there there_lin ∙ (channels_there-present lins ∙ hl))
nothing_left linguru d' cans lins hc hl there_can there_lin =
    (ap channels_there there_can ∙ (channels_there-present cans ∙ hc), refl)
nothing_left mbus d' cans lins hc hl there_can there_lin = (refl, refl)

disconnect-RemovedEnd :
    (k : Kernel) (kind : Kind) (d d' : Device) (t t' : List Event) (cans lins : List NetDev)
    → d'.guru.dev_deinit ≡ some kind
    → IsInitialised kind d d'
    → AllCounted t (pos 0) d' t'
    → (d'.can_bus.netdevs ≡ present cans) × (length cans ≡ length d'.can_bus.netdevs)
    → (d'.lin_bus.netdevs ≡ present lins) × (length lins ≡ length d'.lin_bus.netdevs)
    → Ends (RemovedEnd d t) (guru_usb_disconnect k d' t')
disconnect-RemovedEnd k kind d d' t t' cans lins deinit made counted (can, same_can)
      (lin, same_lin) =
    let hc : length cans ≡ can_count kind = same_can ∙ made.can_ready.size in
    let hl : length lins ≡ lin_count kind = same_lin ∙ made.lin_ready.size in
    let counts = removal_events-counts kind d' d'.meas_volt_dev cans lins t' hc hl in
    let there_can = ap channels_there can ∙ channels_there-present cans in
    let there_lin = ap channels_there lin ∙ channels_there-present lins in
    let balance : IsBalanced t
        (removal_events kind d' d'.meas_volt_dev cans lins (stopped_events t')) =
      ground (arith, counts, counted, there_can, there_lin) in
    let left = nothing_left kind d' cans lins hc hl can lin in
    subst (Ends (RemovedEnd d t))
      (sym (guru_usb_disconnect-releases k kind d' t' cans lins deinit hc hl can lin made.voltage))
      (balance, left.0, left.1, table_restored kind d d' made.minor)

-- After an error the net devices in the arrays are still registered. After success a channel is
-- missing, or the removal ends.
abbrev pub LifeEnd : Kernel → Device → List Event → ℤ → Device → List Event → Type 0
LifeEnd k d t err d' t' =
    ((err ≢ pos 0) × AllCounted t err d' t')
    ⊎ ((err ≡ pos 0)
        × AllCounted t err d' t'
        × (((i : ℕ) × IsMissing d'.can_bus.netdevs i)
            ⊎ (((i : ℕ) × IsMissing d'.lin_bus.netdevs i)
                ⊎ Ends (RemovedEnd d t) (guru_usb_disconnect k d' t'))))

probe-LifeEnd :
    (k : Kernel) (product serial : List ℕ) (d : Device) (t : List Event)
    → IsKernel k
    → IsZeroed d
    → Ends (LifeEnd k d t) (guru_usb_probe product (some serial) k d t)
probe-LifeEnd k product serial d t kernel zeroed =
    Ends-map (ProbeEnd (product_kind product) d t) (LifeEnd k d t)
      (guru_usb_probe product (some serial) k d t) lives
      (guru_usb_probe-ProbeEnd k product serial d t kernel zeroed)
  where
    lives :
        (err : ℤ) (d' : Device) (t' : List Event)
        → ProbeEnd (product_kind product) d t err d' t'
        → LifeEnd k d t err d' t'
    lives err d' t' (counted, inl bad) = inl (bad, counted)
    lives err d' t' (counted, inr (good, (kind, found, deinit, made))) = inr (
      good,
      counted,
      elim (present_or_gap d'.can_bus.netdevs) [
        | inr missing ↦ inl missing
        | inl (cans, can, same_can) ↦ elim (present_or_gap d'.lin_bus.netdevs) [
          | inr missing ↦ inr (inl missing)
          | inl (lins, lin, same_lin) ↦ inr (
              inr (
                disconnect-RemovedEnd k kind d d' t t' cans lins deinit made counted (can, same_can)
                  (lin, same_lin)))
        ]
      ],
    )

-- Whatever the kernel answers, probing a device ends, if the structure that the kernel allocates is
-- zeroed, unless the device is a CAN Guru that reports no serial number: then NULL may be
-- dereferenced. Where it ends, as many net devices were registered as its arrays hold, also where the
-- probing fails: then they stay registered. Where it succeeds and no channel is missing, pulling the
-- device out at once ends without a fault, and then as many net devices were unregistered as
-- registered, no array holds one, and the table of boot devices is as before the device was plugged
-- in.
pub guru_usb_probe-LifeEnd :
    (k : Kernel) (product : List ℕ) (serial : Option (List ℕ)) (d : Device) (t : List Event)
    → IsKernel k
    → IsZeroed d
    → Probed product serial (LifeEnd k d t) (guru_usb_probe product serial k d t)
guru_usb_probe-LifeEnd k product serial d t kernel zeroed =
    guru_usb_probe-Probed k product serial d t (LifeEnd k d t)
      (λ number. probe-LifeEnd k product number d t kernel zeroed)
