-- ===== src/Devices/Initialisation/Counted/Mbus.antt =====
-- mbus_dev_init leaves as many net devices registered as its arrays hold, on every path.
use can_guru.Base.{ℕ, ◌≡◌, refl, ℤ, pos, is_zero, none, List, if◌then◌else◌, arith}
use can_guru.Kernel.{Kernel, IsKernel, M, Ends, Ends-bind, Ends-runs, pure, ◌>>=◌}
use can_guru.Kernel.Types.{Event}
use can_guru.State.{Device, Bus, mbus}
use can_guru.Bus.Registrations.{channels_there, IsCounted}
use can_guru.Messages.{with_bus}
use can_guru.CanMessages.Registration.{canguru_msg_net_init-registers}
use can_guru.LinMessages.Registration.{linguru_msg_net_init-registers}
use can_guru.CanChannel.{canguru_net_create}
use can_guru.LinNet.{linguru_net_create}
use can_guru.Reception.{guru_dev_init}
use can_guru.Devices.{
  each_channel, clear_netdevs, set_deinit, mbus_dev_init, mbus_dev_init_can, mbus_dev_init_lin,
}
use can_guru.Devices.Kinds.{IsZeroed}
use can_guru.Devices.Registered.{canguru_net_creates-IsCounted, linguru_net_creates-IsCounted}
use can_guru.Devices.Initialisation.Counted.{
  no_channels, AllCounted, Started, guru_dev_init-Started,
}

-- The LIN side of a BusKit, behind the CAN side.
mbus_dev_init_lin-AllCounted :
    (k : Kernel) (d : Device) (t t1 : List Event)
    → IsKernel k
    → IsCounted (channels_there d.can_bus.netdevs) 0 t t1
    → Ends (AllCounted t) (mbus_dev_init_lin k d t1)
unfolding mbus_dev_init_lin
mbus_dev_init_lin-AllCounted k d t t1 kernel before =
    let cleared : Bus = clear_netdevs 8 d.lin_bus in
    let (_, bus', t2, runs, created) =
      Ends-runs (λ _ b u. IsCounted (channels_there b.netdevs) 0 t1 u)
        (each_channel 8 0 linguru_net_create k cleared t1)
        (linguru_net_creates-IsCounted k kernel 8 cleared t1 refl) in
    let reg = linguru_msg_net_init-registers k (record d { lin_bus = bus' }) t2 8 none in
    ground (arith, before, runs, created, reg)

-- The CAN side.
abbrev CanCounted : Device → List Event → ℤ → Device → List Event → Type 0
CanCounted d t err d' t' = (err ≡ pos 0) × IsCounted (channels_there d'.can_bus.netdevs) 0 t t'

mbus_dev_init_can-CanCounted :
    (k : Kernel) (d : Device) (t : List Event)
    → IsKernel k
    → Ends (CanCounted d t) (mbus_dev_init_can k d t)
unfolding mbus_dev_init_can
mbus_dev_init_can-CanCounted k d t kernel =
    let cleared : Bus = clear_netdevs 8 d.can_bus in
    let start : Bus = with_bus cleared 8 none in
    let (_, bus', t2, runs, created) =
      Ends-runs (λ _ b u. IsCounted (channels_there b.netdevs) 0 t u)
        (each_channel 8 0 canguru_net_create k start t)
        (canguru_net_creates-IsCounted k kernel 8 start t refl) in
    let reg = canguru_msg_net_init-registers k (record d { can_bus = cleared }) t 8 in
    ground (arith, runs, created, reg)

pub mbus_dev_init-AllCounted :
    (k : Kernel) (self : ℕ) (d : Device) (t : List Event)
    → IsKernel k
    → IsZeroed d
    → Ends (AllCounted t) (mbus_dev_init self k d t)
unfolding mbus_dev_init
mbus_dev_init-AllCounted k self d t kernel zeroed =
    Ends-bind (Started d0 t) (AllCounted t) (guru_dev_init self) both k d0 t
      (guru_dev_init-Started k self d0 t kernel) after
  where
    d0 : Device
    d0 = set_deinit mbus d

    both : ℤ → M Device ℤ
    both err =
        if is_zero err
        then (do err' ← mbus_dev_init_can; if is_zero err' then mbus_dev_init_lin else pure err')
        else pure err

    after :
        (err : ℤ) (d1 : Device) (t1 : List Event)
        → Started d0 t err d1 t1
        → Ends (AllCounted t) (both err k d1 t1)
    after err d1 t1 (can, lin, counted) =
        let (e2, d2, t2, runs2, (good, cans)) =
          Ends-runs (CanCounted d1 t1) (mbus_dev_init_can k d1 t1)
            (mbus_dev_init_can-CanCounted k d1 t1 kernel) in
        let so_far : IsCounted (channels_there d2.can_bus.netdevs) 0 t t2 =
          ground (arith, counted, cans) in
        let (e3, d3, t3, runs3, all) =
          Ends-runs (AllCounted t) (mbus_dev_init_lin k d2 t2)
            (mbus_dev_init_lin-AllCounted k d2 t t2 kernel so_far) in
        let none_can = no_channels d.can_bus.netdevs zeroed.no_can.size in
        let none_lin = no_channels d.lin_bus.netdevs zeroed.no_lin.size in
        ground (arith, can, lin, counted, none_can, none_lin, runs2, good, runs3, all)
