-- ===== src/Devices/Initialisation/Counted.antt =====
-- The three *_dev_init functions leave as many net devices registered as their arrays hold, on
-- every path.
pub mod Mbus
use can_guru.Base.{
  ℕ, ◌+◌, ◌≡◌, ◌≢◌, ◌⊎◌, refl, sym, ap, ◌∙◌, inl, inr, ℤ, pos, is_zero, Option, none, some, List,
  [], ◌∷◌, length, if◌then◌else◌, arith,
}
use can_guru.Kernel.{
  Kernel, IsKernel, M, Ends, Ends-bind, Ends-both, Ends-runs, pure, get, ◌>>=◌, ◌>>◌,
}
use can_guru.Kernel.Types.{Event}
use can_guru.State.{Device, Bus, BootState, NetDev, canguru, linguru, mbus}
use can_guru.Bus.Registrations.{channels_there, IsCounted}
use can_guru.Messages.{in_can, in_lin, with_bus}
use can_guru.CanMessages.{canguru_msg_net_init}
use can_guru.CanMessages.Registration.{canguru_msg_net_init-registers}
use can_guru.LinMessages.{linguru_msg_net_init}
use can_guru.LinMessages.Registration.{linguru_msg_net_init-registers}
use can_guru.CanChannel.{canguru_net_create}
use can_guru.LinNet.{linguru_net_create}
use can_guru.Voltage.{linguru_volt_create}
use can_guru.Voltage.Creation.{VoltEnd, linguru_volt_create-VoltEnd, linguru_volt_create-IsCounted}
use can_guru.Boot.{guru_boot_create}
use can_guru.Boot.Quiet.{guru_boot_create-IsCounted}
use can_guru.Reception.{guru_dev_init}
use can_guru.Reception.Keeping.{InitEnd, guru_dev_init-InitEnd}
use can_guru.Reception.Quiet.{guru_dev_init-IsCounted}
use can_guru.Devices.{
  each_channel, clear_netdevs, set_deinit, in_boot, canguru_channel_count, linguru_channel_count,
  canguru_dev_init, linguru_dev_init, mbus_dev_init, mbus_dev_init_can, mbus_dev_init_lin,
}
use can_guru.Devices.Kinds.{IsZeroed}
use can_guru.Devices.Registered.{canguru_net_creates-IsCounted, linguru_net_creates-IsCounted}

pub no_channels : (devs : List (Option NetDev)) → length devs ≡ 0 → channels_there devs ≡ 0
no_channels [] e = refl
no_channels (x ∷ devs) e = absurd (omega (arith, e))

-- The net devices that are registered are those in the two arrays.
abbrev pub AllCounted : {A : Type 0} → List Event → A → Device → List Event → Type 0
AllCounted t _ d' t' =
    IsCounted (channels_there d'.can_bus.netdevs + channels_there d'.lin_bus.netdevs) 0 t t'

-- guru_dev_init keeps the arrays and registers nothing.
abbrev pub Started : Device → List Event → ℤ → Device → List Event → Type 0
Started d t _ d' t' = (d'.can_bus ≡ d.can_bus) × (d'.lin_bus ≡ d.lin_bus) × IsCounted 0 0 t t'

pub guru_dev_init-Started :
    (k : Kernel) (self : ℕ) (d : Device) (t : List Event)
    → IsKernel k
    → Ends (Started d t) (guru_dev_init self k d t)
guru_dev_init-Started k self d t kernel =
    Ends-both (λ err d' _. InitEnd d err d') (λ _ _ t'. IsCounted 0 0 t t') (Started d t)
      (guru_dev_init self k d t) (λ _ _ _ init counted. (init.0, init.1, counted))
      (guru_dev_init-InitEnd k self d t kernel) (guru_dev_init-IsCounted k self d t kernel)

pub canguru_dev_init-AllCounted :
    (k : Kernel) (self : ℕ) (serial : List ℕ) (d : Device) (t : List Event)
    → IsKernel k
    → IsZeroed d
    → Ends (AllCounted t) (canguru_dev_init self (some serial) k d t)
unfolding canguru_dev_init
canguru_dev_init-AllCounted k self serial d t kernel zeroed =
    Ends-bind (Started d0 t) (AllCounted t) (guru_dev_init self) rest k d0 t
      (guru_dev_init-Started k self d0 t kernel) after
  where
    d0 : Device
    d0 = record (set_deinit canguru d) { can_bus = clear_netdevs 2 d.can_bus }

    rest : ℤ → M Device ℤ
    rest err =
        if is_zero err
        then (do
          in_can (each_channel canguru_channel_count 0 canguru_net_create)
          err' ← canguru_msg_net_init canguru_channel_count
          if is_zero err' then in_boot (guru_boot_create (some serial)) else pure err')
        else pure err

    after :
        (err : ℤ) (d1 : Device) (t1 : List Event)
        → Started d0 t err d1 t1
        → Ends (AllCounted t) (rest err k d1 t1)
    after err d1 t1 (can, lin, counted) =
        let (_, bus', t2, runs, created) =
          Ends-runs (λ _ b u. IsCounted (channels_there b.netdevs) 0 t1 u)
            (each_channel 2 0 canguru_net_create k d1.can_bus t1)
            (canguru_net_creates-IsCounted k kernel 2 d1.can_bus t1
              (ap (λ (b : Bus). b.netdevs) can)) in
        let (err3, st', t3, boots, quiet) =
          Ends-runs (λ _ _ u. IsCounted 0 0 t2 u)
            (guru_boot_create (some serial) k d1.boot_state t2)
            (guru_boot_create-IsCounted k d1.boot_state t2 serial) in
        let reg = canguru_msg_net_init-registers k (record d1 { can_bus = bus' }) t2 2 in
        let none_lin = no_channels d.lin_bus.netdevs zeroed.no_lin.size in
        ground (arith, can, lin, counted, runs, created, boots, quiet, reg, none_lin)

pub linguru_dev_init-AllCounted :
    (k : Kernel) (self : ℕ) (d : Device) (t : List Event)
    → IsKernel k
    → IsZeroed d
    → Ends (AllCounted t) (linguru_dev_init self k d t)
unfolding linguru_dev_init
linguru_dev_init-AllCounted k self d t kernel zeroed =
    Ends-bind (Started d0 t) (AllCounted t) (guru_dev_init self) rest k d0 t
      (guru_dev_init-Started k self d0 t kernel) after
  where
    d0 : Device
    d0 = record (set_deinit linguru d) { lin_bus = clear_netdevs 10 d.lin_bus }

    rest : ℤ → M Device ℤ
    rest err =
        if is_zero err
        then (do
          in_lin (each_channel linguru_channel_count 0 linguru_net_create)
          err' ← linguru_volt_create
          d ← get
          if is_zero err'
              then linguru_msg_net_init linguru_channel_count d.meas_volt_dev
              else pure err')
        else pure err

    after :
        (err : ℤ) (d1 : Device) (t1 : List Event)
        → Started d0 t err d1 t1
        → Ends (AllCounted t) (rest err k d1 t1)
    after err d1 t1 (can, lin, counted) =
        let (_, bus', t2, runs, created) =
          Ends-runs (λ _ b u. IsCounted (channels_there b.netdevs) 0 t1 u)
            (each_channel 10 0 linguru_net_create k d1.lin_bus t1)
            (linguru_net_creates-IsCounted k kernel 10 d1.lin_bus t1
              (ap (λ (b : Bus). b.netdevs) lin)) in
        let d2 : Device = record d1 { lin_bus = bus' } in
        let (err3, d3, t3, volts, (kept, quiet)) =
          Ends-runs (λ e d' u. VoltEnd d2 e d' u × IsCounted 0 0 t2 u) (linguru_volt_create k d2 t2)
            (Ends-both (VoltEnd d2) (λ _ _ u. IsCounted 0 0 t2 u) _ (linguru_volt_create k d2 t2)
              (λ _ _ _ p q. (p, q)) (linguru_volt_create-VoltEnd k d2 t2)
              (linguru_volt_create-IsCounted k d2 t2)) in
        let reg = linguru_msg_net_init-registers k d3 t3 10 d3.meas_volt_dev in
        let none_can = no_channels d.can_bus.netdevs zeroed.no_can.size in
        let same_can : d3.can_bus ≡ d.can_bus = kept.1 ∙ can in
        ground
          (arith, can, lin, counted, runs, created, volts, same_can, kept.2, quiet, reg, none_can)
