-- ===== src/Devices/Initialisation.antt =====
-- mbus-device.c: what mbus_dev_init leaves of a BusKit.
pub mod Canguru
pub mod Counted
pub mod Linguru
use can_guru.Base.{
  ℕ, ◌≡◌, ◌≢◌, ◌⊎◌, refl, sym, ap, ◌∙◌, subst, inl, inr, ℤ, pos, is_zero, none, some, List, [], ◌∷◌,
  ◌++◌, length, if◌then◌else◌, arith,
}
use can_guru.Kernel.{Kernel, IsKernel, M, Ends, Ends-bind, Ends-runs, pure, ◌>>=◌}
use can_guru.Kernel.Types.{Event}
use can_guru.State.{Device, GuruDevice, GuruMsg, Bus, mbus}
use can_guru.Messages.{with_bus}
use can_guru.Messages.Std.{std_message}
use can_guru.CanChannel.{canguru_net_create}
use can_guru.LinNet.{linguru_net_create}
use can_guru.CanMessages.Registration.{can_messages, canguru_msg_net_init-registers}
use can_guru.LinMessages.Registration.{lin_messages, linguru_msg_net_init-registers}
use can_guru.Reception.{guru_dev_init}
use can_guru.Reception.Keeping.{InitEnd, guru_dev_init-InitEnd}
use can_guru.Registry.{IsRegistry, all-Distinct}
use can_guru.Devices.{
  each_channel, clear_netdevs, set_deinit, mbus_dev_init_can, mbus_dev_init_lin, mbus_dev_init,
}
use can_guru.Devices.Kinds.{IsReady}
use can_guru.Devices.Creation.{
  IsPlaced, IsFilled, canguru_net_creates-IsFilled, linguru_net_creates-IsFilled,
}

-- The CAN side is ready and registered; the rest of the device stays.
abbrev CanEnd : Device → ℤ → Device → List Event → Type 0
CanEnd d err d' _ =
    (err ≡ pos 0)
    × IsReady 8 d'.can_bus
    × (d'.lin_bus ≡ d.lin_bus)
    × (d'.boot_state ≡ d.boot_state)
    × (d'.guru ≡ record d.guru { msg_list = d.guru.msg_list ++ can_messages })

mbus_dev_init_can-CanEnd :
    (k : Kernel) (d : Device) (t : List Event)
    → IsKernel k
    → Ends (CanEnd d) (mbus_dev_init_can k d t)
unfolding mbus_dev_init_can
mbus_dev_init_can-CanEnd k d t kernel =
    let cleared : Bus = clear_netdevs 8 d.can_bus in
    let start : Bus = with_bus cleared 8 none in
    let (_, bus', t', runs, filled) =
      Ends-runs (λ _ bus' _. IsFilled 8 start bus') (each_channel 8 0 canguru_net_create k start t)
        (canguru_net_creates-IsFilled k kernel 8 start t refl) in
    let ready : IsReady 8 bus' = record {
      count = filled.same_count;
      size = filled.size;
      places = filled.places;
      nobody = filled.same_list;
    } in
    ground (
      arith,
      canguru_msg_net_init-registers k (record d { can_bus = cleared }) t 8,
      runs,
      filled.same_count,
    )

-- The LIN side is ready and registered; the CAN side stays.
abbrev LinEnd : Device → ℤ → Device → List Event → Type 0
LinEnd d err d' _ =
    (err ≡ pos 0)
    × IsReady 8 d'.lin_bus
    × (d'.can_bus ≡ d.can_bus)
    × (d'.boot_state ≡ d.boot_state)
    × (d'.guru ≡ record d.guru { msg_list = d.guru.msg_list ++ lin_messages })

mbus_dev_init_lin-LinEnd :
    (k : Kernel) (d : Device) (t : List Event)
    → IsKernel k
    → Ends (LinEnd d) (mbus_dev_init_lin k d t)
unfolding mbus_dev_init_lin
mbus_dev_init_lin-LinEnd k d t kernel =
    let cleared : Bus = clear_netdevs 8 d.lin_bus in
    let (_, bus', t', runs, filled) =
      Ends-runs (λ _ bus' _. IsFilled 8 cleared bus')
        (each_channel 8 0 linguru_net_create k cleared t)
        (linguru_net_creates-IsFilled k kernel 8 cleared t refl) in
    let ready : IsReady 8 (with_bus bus' 8 none) = record {
      count = refl;
      size = filled.size;
      places = filled.places;
      nobody = refl;
    } in
    ground (arith, linguru_msg_net_init-registers k (record d { lin_bus = bus' }) t' 8 none, runs)

abbrev pub MbusEnd : Device → ℤ → Device → List Event → Type 0
MbusEnd d err d' _ =
    (d'.guru.dev_deinit ≡ some mbus)
    × (d'.boot_state ≡ d.boot_state)
    × ((err ≢ pos 0)
        ⊎ ((err ≡ pos 0)
            × IsRegistry d'.guru.msg_list
            × IsReady 8 d'.can_bus
            × IsReady 8 d'.lin_bus))

-- The initialisation of a BusKit always ends, whatever the kernel answers, its removal
-- function is set and the table of boot devices stays. Where its result is 0, the standard, the CAN and the LIN messages are registered, each
-- identifier once, and both buses count 8 channels and have 8 places; a net device in a place has
-- the number of that place and takes answers, and no channel waits.
pub mbus_dev_init-MbusEnd :
    (k : Kernel) (self : ℕ) (d : Device) (t : List Event)
    → IsKernel k
    → Ends (MbusEnd d) (mbus_dev_init self k d t)
unfolding mbus_dev_init
mbus_dev_init-MbusEnd k self d t kernel =
    Ends-bind (λ err d' _. InitEnd d0 err d') (MbusEnd d) (guru_dev_init self) both k d0 t
      (guru_dev_init-InitEnd k self d0 t kernel) after
  where
    d0 : Device
    d0 = set_deinit mbus d

    both : ℤ → M Device ℤ
    both err =
        if is_zero err
        then (do err' ← mbus_dev_init_can; if is_zero err' then mbus_dev_init_lin else pure err')
        else pure err

    registered :
        (d1 d2 d3 : Device)
        → d1.guru.msg_list ≡ std_message ∷ []
        → d2.guru ≡ record d1.guru { msg_list = d1.guru.msg_list ++ can_messages }
        → d3.guru ≡ record d2.guru { msg_list = d2.guru.msg_list ++ lin_messages }
        → IsRegistry d3.guru.msg_list
    registered d1 d2 d3 first second third =
        subst IsRegistry
          (sym (
            ap (λ (g : GuruDevice). g.msg_list) third
            ∙ ap (λ (g : GuruDevice). g.msg_list ++ lin_messages) second
            ∙ ap (λ (ms : List GuruMsg). (ms ++ can_messages) ++ lin_messages) first))
          (refl, all-Distinct)

    after :
        (err : ℤ) (d1 : Device) (t1 : List Event)
        → InitEnd d0 err d1
        → Ends (MbusEnd d) (both err k d1 t1)
    after err d1 t1 init =
        let (e2, d2, t2, runs2, can) =
          Ends-runs (CanEnd d1) (mbus_dev_init_can k d1 t1)
            (mbus_dev_init_can-CanEnd k d1 t1 kernel) in
        let (e3, d3, t3, runs3, lin) =
          Ends-runs (LinEnd d2) (mbus_dev_init_lin k d2 t2)
            (mbus_dev_init_lin-LinEnd k d2 t2 kernel) in
        elim init.4 [
          | inl bad ↦ ground (arith, init, bad)
          | inr (good, list) ↦
              (let reg = registered d1 d2 d3 list can.4 lin.4 in
                ground (arith, init, good, runs2, can, runs3, lin, reg))
        ]
