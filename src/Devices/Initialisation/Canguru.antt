-- ===== src/Devices/Initialisation/Canguru.antt =====
-- canguru-device.c: what canguru_dev_init leaves of a CAN Guru.
use can_guru.Base.{
  ℕ, refl, sym, subst, ap, inl, inr, ℤ, is_zero, none, some, List, ◌++◌, if◌then◌else◌, arith,
}
use can_guru.Kernel.{Kernel, IsKernel, M, Ends, Ends-bind, Ends-runs, pure, ◌>>=◌, ◌>>◌}
use can_guru.Kernel.Types.{Event}
use can_guru.State.{Device, Bus, BootState, GuruMsg, canguru}
use can_guru.Messages.{in_can, with_bus}
use can_guru.CanMessages.{canguru_msg_net_init}
use can_guru.CanMessages.Registration.{can_messages, canguru_msg_net_init-registers}
use can_guru.CanChannel.{canguru_net_create}
use can_guru.Boot.{guru_boot_create}
use can_guru.Boot.Minors.{BootEnd, guru_boot_create-BootEnd}
use can_guru.Reception.{guru_dev_init}
use can_guru.Reception.Keeping.{InitEnd, guru_dev_init-InitEnd}
use can_guru.Devices.{
  each_channel, clear_netdevs, set_deinit, in_boot, canguru_channel_count, canguru_dev_init,
}
use can_guru.Devices.Kinds.{TookMinor, IsReady, IsZeroed, IsInitialised, KindEnd}
use can_guru.Devices.Creation.{IsFilled, canguru_net_creates-IsFilled}

pub canguru_dev_init-KindEnd :
    (k : Kernel) (self : ℕ) (serial : List ℕ) (d : Device) (t : List Event)
    → IsKernel k
    → IsZeroed d
    → Ends (KindEnd canguru d) (canguru_dev_init self (some serial) k d t)
unfolding canguru_dev_init
canguru_dev_init-KindEnd k self serial d t kernel zeroed =
    Ends-bind (λ err d' _. InitEnd d0 err d') (KindEnd canguru d) (guru_dev_init self) rest k d0 t
      (guru_dev_init-InitEnd k self d0 t kernel) after
  where
    d0 : Device
    d0 = record (set_deinit canguru d) { can_bus = clear_netdevs 2 d.can_bus }

    rest : ℤ → M Device ℤ
    rest err =
        if is_zero err
        then (do
          in_can (each_channel canguru_channel_count 0 canguru_net_create)
          err' ← canguru_msg_net_init canguru_channel_count
          if is_zero err' then in_boot (guru_boot_create (some serial)) else pure err')
        else pure err

    after :
        (err : ℤ) (d1 : Device) (t1 : List Event)
        → InitEnd d0 err d1
        → Ends (KindEnd canguru d) (rest err k d1 t1)
    after err d1 t1 init =
        let (_, bus', t2, runs, filled) =
          Ends-runs (λ _ b _. IsFilled 2 d1.can_bus b)
            (each_channel 2 0 canguru_net_create k d1.can_bus t1)
            (canguru_net_creates-IsFilled k kernel 2 d1.can_bus t1
              (ap (λ (b : Bus). b.netdevs) init.0)) in
        let (err3, st', t3, boots, boot_end) =
          Ends-runs (BootEnd serial d1.boot_state t2)
            (guru_boot_create (some serial) k d1.boot_state t2)
            (guru_boot_create-BootEnd k d1.boot_state t2 serial) in
        let d2 : Device = record d1 { can_bus = bus' } in
        let reg = canguru_msg_net_init-registers k d2 t2 2 in
        let can : IsReady 2 (with_bus bus' 2 none) = record {
          count = refl;
          size = filled.size;
          places = filled.places;
          nobody = refl;
        } in
        elim init.4 [
          | inl bad ↦ ground (arith, init.2, bad)
          | inr (good, list) ↦ elim boot_end [
            | inr refused ↦ ground (arith, init.2, good, runs, reg, boots, refused)
            | inl (created, first, stored) ↦
                (let made : IsInitialised canguru d (record d1 {
                  guru = record d1.guru { msg_list = d1.guru.msg_list ++ can_messages };
                  can_bus = with_bus bus' 2 none;
                  boot_state = st';
                }) =
                    record {
                      registered = ap (λ (ms : List GuruMsg). ms ++ can_messages) list;
                      can_ready = can;
                      lin_ready = subst (IsReady 0) (sym init.1) zeroed.no_lin;
                      voltage = tt;
                      minor =
                          subst (λ (s : BootState). TookMinor canguru s st') init.3
                            (first, stored.0);
                    } in
                  ground (arith, init.2, good, runs, reg, boots, created, made))
          ]
        ]
