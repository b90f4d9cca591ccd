-- ===== src/Devices/Initialisation/Linguru.antt =====
-- linguru-device.c: what linguru_dev_init leaves of a LIN Guru.
use can_guru.Base.{
  ℕ, ◌≡◌, refl, sym, subst, ap, ◌∙◌, length, inl, inr, ℤ, is_zero, some, List, ◌++◌, if◌then◌else◌,
  arith,
}
use can_guru.Kernel.{Kernel, IsKernel, M, Ends, Ends-bind, Ends-runs, pure, get, ◌>>=◌, ◌>>◌}
use can_guru.Kernel.Types.{Event}
use can_guru.State.{Device, GuruDevice, Bus, BootState, GuruMsg, linguru}
use can_guru.Messages.{in_lin, with_bus}
use can_guru.LinMessages.{linguru_msg_net_init}
use can_guru.LinMessages.Registration.{lin_messages, linguru_msg_net_init-registers}
use can_guru.LinNet.{linguru_net_create}
use can_guru.Voltage.{linguru_volt_create}
use can_guru.Voltage.Creation.{VoltEnd, linguru_volt_create-VoltEnd}
use can_guru.Reception.{guru_dev_init}
use can_guru.Reception.Keeping.{InitEnd, guru_dev_init-InitEnd}
use can_guru.Devices.{
  each_channel, clear_netdevs, set_deinit, linguru_channel_count, linguru_dev_init,
}
use can_guru.Devices.Kinds.{IsReady, IsZeroed, IsInitialised, KindEnd}
use can_guru.Devices.Creation.{IsPlaced, IsFilled, linguru_net_creates-IsFilled}

pub linguru_dev_init-KindEnd :
    (k : Kernel) (self : ℕ) (d : Device) (t : List Event)
    → IsKernel k
    → IsZeroed d
    → Ends (KindEnd linguru d) (linguru_dev_init self k d t)
unfolding linguru_dev_init
linguru_dev_init-KindEnd k self d t kernel zeroed =
    Ends-bind (λ err d' _. InitEnd d0 err d') (KindEnd linguru d) (guru_dev_init self) rest k d0 t
      (guru_dev_init-InitEnd k self d0 t kernel) after
  where
    d0 : Device
    d0 = record (set_deinit linguru d) { lin_bus = clear_netdevs 10 d.lin_bus }

    rest : ℤ → M Device ℤ
    rest err =
        if is_zero err
        then (do
          in_lin (each_channel linguru_channel_count 0 linguru_net_create)
          err' ← linguru_volt_create
          d ← get
          if is_zero err'
              then linguru_msg_net_init linguru_channel_count d.meas_volt_dev
              else pure err')
        else pure err

    after :
        (err : ℤ) (d1 : Device) (t1 : List Event)
        → InitEnd d0 err d1
        → Ends (KindEnd linguru d) (rest err k d1 t1)
    after err d1 t1 init =
        let (_, bus', t2, runs, filled) =
          Ends-runs (λ _ b _. IsFilled 10 d1.lin_bus b)
            (each_channel 10 0 linguru_net_create k d1.lin_bus t1)
            (linguru_net_creates-IsFilled k kernel 10 d1.lin_bus t1
              (ap (λ (b : Bus). b.netdevs) init.1)) in
        let d2 : Device = record d1 { lin_bus = bus' } in
        let (err3, d3, t3, volts, kept) =
          Ends-runs (VoltEnd d2) (linguru_volt_create k d2 t2)
            (linguru_volt_create-VoltEnd k d2 t2) in
        let reg = linguru_msg_net_init-registers k d3 t3 10 d3.meas_volt_dev in
        let lin : IsReady 10 (with_bus d3.lin_bus 10 d3.meas_volt_dev) = record {
          count = refl;
          size = ap (λ (b : Bus). length b.netdevs) kept.2 ∙ filled.size;
          places = subst (λ (b : Bus). IsPlaced b.netdevs) (sym kept.2) filled.places;
          nobody = refl;
        } in
        let list' : d3.guru.msg_list ≡ d1.guru.msg_list =
          ap (λ (g : GuruDevice). g.msg_list) kept.0 in
        let deinit : d3.guru.dev_deinit ≡ some linguru =
          ap (λ (g : GuruDevice). g.dev_deinit) kept.0 ∙ init.2 in
        elim init.4 [
          | inl bad ↦ ground (arith, init.2, bad)
          | inr (good, list) ↦ elim kept.4 [
            | inl refused ↦ ground (arith, deinit, good, runs, volts, refused)
            | inr (created, iio) ↦
                (let made : IsInitialised linguru d (record d3 {
                  guru = record d3.guru { msg_list = d3.guru.msg_list ++ lin_messages };
                  lin_bus = with_bus d3.lin_bus 10 d3.meas_volt_dev;
                }) =
                    record {
                      registered = ap (λ (ms : List GuruMsg). ms ++ lin_messages) (list' ∙ list);
                      can_ready = subst (IsReady 0) (sym (kept.1 ∙ init.0)) zeroed.no_can;
                      lin_ready = lin;
                      voltage = iio;
                      minor = ap (λ (s : BootState). s.guru_boot_table) (kept.3 ∙ init.3);
                    } in
                  ground (arith, deinit, good, runs, volts, created, reg, made))
          ]
        ]
