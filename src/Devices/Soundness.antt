-- ===== src/Devices/Soundness.antt =====
-- A device after its initialisation, as the receive path needs it.
use can_guru.Base.{
  ℕ, zero, suc, ◌<◌, ◌≡◌, ◌≢◌, ◌⊎◌, refl, ap, sym, subst, inl, inr, ℤ, pos, Option, none, some,
  List, [], ◌∷◌, length, get_elem?, All, arith,
}
use can_guru.Kernel.{Kernel, IsKernel, Ends, Ends-map}
use can_guru.Kernel.Types.{Event}
use can_guru.State.{Device, NetDev, Bus, BootState, Kind, canguru, linguru, mbus}
use can_guru.Bus.Channels.{IsChannel, IsBus}
use can_guru.Dispatch.Routing.{Distinct}
use can_guru.Dispatch.Soundness.{IsProper, IsDevice, IsReceiving}
use can_guru.Devices.{mbus_dev_init}
use can_guru.Devices.Kinds.{can_count, lin_count, kind_messages, IsReady, IsInitialised, KindEnd}
use can_guru.Devices.Initialisation.{MbusEnd, mbus_dev_init-MbusEnd}

-- A place without a net device.
abbrev pub IsMissing : List (Option NetDev) → ℕ → Type 0
IsMissing devs i = get_elem? devs i ≡ some none

full_or_gap :
    (devs : List (Option NetDev))
    → ((i : ℕ) → i < length devs → IsChannel devs i) ⊎ ((i : ℕ) × IsMissing devs i)
full_or_gap [] = inl (λ i h. elim h [ ])
full_or_gap (none ∷ devs) = inr (0, refl)
full_or_gap (some dev ∷ devs) = elim (full_or_gap devs) [
  | inr (i, e) ↦ inr (suc i, e)
  | inl full ↦ inl (λ i. elim i as (λ j. j < suc (length devs) → IsChannel (some dev ∷ devs) j) [
    | zero ↦ λ h. (dev, refl)
    | suc j ↦ λ h. full j (omega (arith, h))
  ])
]

ready-IsBus : (n : ℕ) (bus : Bus) → IsReady n bus → IsBus bus ⊎ ((i : ℕ) × IsMissing bus.netdevs i)
ready-IsBus n bus ready = elim (full_or_gap bus.netdevs) [
  | inr missing ↦ inr missing
  | inl full ↦ inl (record {
    channels = λ i h. full i (omega (arith, h, ready.count, ready.size));
    waiting = subst (All (IsChannel bus.netdevs)) (sym ready.nobody) tt;
  })
]

kind_messages-IsProper : (kind : Kind) → All IsProper (kind_messages kind)
kind_messages-IsProper canguru = ground arith
kind_messages-IsProper linguru = ground arith
kind_messages-IsProper mbus = ground arith

kind_messages-Distinct : (kind : Kind) → Distinct (kind_messages kind)
kind_messages-Distinct canguru = omega arith
kind_messages-Distinct linguru = omega arith
kind_messages-Distinct mbus = omega arith

-- A CAN channel is missing, or a LIN channel is, or the device is sound: every channel that a bus
-- counts is there, nobody waits, and the callbacks that trust a length are registered for their own
-- identifiers only, and no identifier is registered twice.
abbrev pub IsUsable : Device → Type 0
IsUsable d =
    ((i : ℕ) × IsMissing d.can_bus.netdevs i)
    ⊎ (((i : ℕ) × IsMissing d.lin_bus.netdevs i) ⊎ IsReceiving d)

pub IsInitialised-IsUsable :
    (kind : Kind) (start d : Device) → IsInitialised kind start d → IsUsable d
IsInitialised-IsUsable kind start d made =
    elim (ready-IsBus (can_count kind) d.can_bus made.can_ready) [
      | inr missing ↦ inl missing
      | inl can ↦ elim (ready-IsBus (lin_count kind) d.lin_bus made.lin_ready) [
        | inr missing ↦ inr (inl missing)
        | inl lin ↦
            let sound : IsDevice d = record {
              can_lem = can;
              lin_lem = lin;
              proper = subst (All IsProper) (sym made.registered) (kind_messages-IsProper kind);
            } in
            inr (inr (sound, subst Distinct (sym made.registered) (kind_messages-Distinct kind)))
      ]
    ]

pub mbus_dev_init-KindEnd :
    (k : Kernel) (self : ℕ) (d : Device) (t : List Event)
    → IsKernel k
    → Ends (KindEnd mbus d) (mbus_dev_init self k d t)
mbus_dev_init-KindEnd k self d t kernel =
    Ends-map (MbusEnd d) (KindEnd mbus d) (mbus_dev_init self k d t)
      (λ err d' t' ends. made err d' t' ends) (mbus_dev_init-MbusEnd k self d t kernel)
  where
    made :
        (err : ℤ) (d' : Device) (t' : List Event) → MbusEnd d err d' t' → KindEnd mbus d err d' t'
    made err d' t' (kind, same, inl bad) = (kind, inl bad)
    made err d' t' (kind, same, inr (good, (list, _), can, lin)) = (
      kind,
      inr (
        good,
        record {
          registered = list;
          can_ready = can;
          lin_ready = lin;
          voltage = tt;
          minor = ap (λ (s : BootState). s.guru_boot_table) same;
        },
      ),
    )

-- The initialisation of a BusKit ends with an error, or it returns 0 and a channel is missing, or
-- it returns 0 and the device is sound: every channel that a bus counts is there, nobody waits, and
-- the callbacks that trust a length are registered for their own identifiers only.
mbus_dev_init-IsDevice :
    (k : Kernel) (self : ℕ) (d : Device) (t : List Event)
    → IsKernel k
    → Ends (λ err d' _. (err ≢ pos 0) ⊎ ((err ≡ pos 0) × IsUsable d')) (mbus_dev_init self k d t)
mbus_dev_init-IsDevice k self d t kernel =
    Ends-map (KindEnd mbus d) _ (mbus_dev_init self k d t)
      (λ err d' t' (_, ends). elim ends [
        | inl bad ↦ inl bad
        | inr (good, made) ↦ inr (good, IsInitialised-IsUsable mbus d d' made)
      ])
      (mbus_dev_init-KindEnd k self d t kernel)
