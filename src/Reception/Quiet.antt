-- ===== src/Reception/Quiet.antt =====
-- Setting up the reception registers no net device.
use can_guru.Base.{
  ℕ, zero, suc, ◌≡◌, refl, inl, inr, Bool-cases, ℤ, is_zero, none, List, [], ◌∷◌, ◌++◌, ◌∙◌,
  if◌then◌else◌, arith,
}
use can_guru.Kernel.{Kernel, IsKernel, Ends, Ends-map, Ends-bind, Ends-runs, pure}
use can_guru.Kernel.Types.{Event, done, init_usb_anchor, usb_set_intfdata, rcvbulk, sndbulk}
use can_guru.Kernel.Ledger.{aside}
use can_guru.State.{Device}
use can_guru.Messages.{guru_msg_std_init}
use can_guru.Messages.Std.{std_message}
use can_guru.MsgIds.{guru_msg_get_version}
use can_guru.Bus.Registrations.{IsCounted}
use can_guru.Send.Outcome.{guru_send_data-runs}
use can_guru.Reception.{rx_turn, rx_turns, report_turns, canguru_usb_rx_init, guru_dev_init}
use can_guru.Reception.Keeping.{register}

-- Only calls to the USB core and the log.
abbrev IsQuiet : {A : Type 0} → List Event → A → Device → List Event → Type 0
IsQuiet t _ _ t' = aside t' ≡ aside t

rx_turn-IsQuiet : (k : Kernel) (d : Device) (t : List Event) → Ends (IsQuiet t) (rx_turn k d t)
unfolding rx_turn
rx_turn-IsQuiet k d t = ground arith

rx_turns-IsQuiet :
    (k : Kernel) (left idx : ℕ) (d : Device) (t : List Event)
    → Ends (IsQuiet t) (rx_turns left idx k d t)
unfolding rx_turns
rx_turns-IsQuiet k zero idx d t = refl
rx_turns-IsQuiet k (suc left) idx d t =
    Ends-bind (IsQuiet t) (IsQuiet t) rx_turn
      (λ err. if is_zero err then rx_turns left (suc idx) else pure (idx, err)) k d t
      (rx_turn-IsQuiet k d t)
      (λ err d' t' quiet. elim (Bool-cases (is_zero err)) [
        | inl good ↦ rw good (
            Ends-map (IsQuiet t') (IsQuiet t) (rx_turns left (suc idx) k d' t')
              (λ _ d'' t'' more. more ∙ quiet) (rx_turns-IsQuiet k left (suc idx) d' t'))
        | inr bad ↦ rw bad quiet
      ])

canguru_usb_rx_init-IsQuiet :
    (k : Kernel) (d : Device) (t : List Event) → Ends (IsQuiet t) (canguru_usb_rx_init k d t)
unfolding canguru_usb_rx_init report_turns
canguru_usb_rx_init-IsQuiet k d t =
    let ((i, err), d', t', runs, quiet) =
      Ends-runs (IsQuiet t) (rx_turns 32 0 k d t) (rx_turns-IsQuiet k 32 0 d t) in
    ground (arith, runs, quiet)

register-IsQuiet :
    (k : Kernel) (err : ℤ) (d : Device) (t : List Event)
    → IsKernel k
    → Ends (IsQuiet t) (register err k d t)
unfolding register guru_msg_std_init
register-IsQuiet k err d t kernel =
    let d2 : Device = record d {
      guru = record (d.guru) { msg_list = d.guru.msg_list ++ (std_message ∷ []) };
    } in
    let (err2, t2, runs2, o) =
      guru_send_data-runs k d2 t guru_msg_get_version none 0 [] kernel (omega arith) (omega arith)
        (refl, refl) in
    ground (arith, runs2, o.others)

pub guru_dev_init-IsCounted :
    (k : Kernel) (self : ℕ) (d : Device) (t : List Event)
    → IsKernel k
    → Ends (λ _ _ t'. IsCounted 0 0 t t') (guru_dev_init self k d t)
unfolding guru_dev_init canguru_usb_rx_init register
guru_dev_init-IsCounted k self d t kernel =
    Ends-bind (IsQuiet t0) (λ _ _ t'. IsCounted 0 0 t t') canguru_usb_rx_init register k d0 t0
      (canguru_usb_rx_init-IsQuiet k d0 t0)
      (λ err d1 t1 quiet.
        Ends-map (IsQuiet t1) (λ _ _ t'. IsCounted 0 0 t t') (register err k d1 t1)
          (λ _ d2 t2 more. ground (arith, more, quiet)) (register-IsQuiet k err d1 t1 kernel))
  where
    d0 : Device
    d0 = record d { guru = record (d.guru) { msg_list = [] } }

    t0 : List Event
    t0 =
        done (usb_set_intfdata self)
        ∷ done (init_usb_anchor sndbulk)
        ∷ done (init_usb_anchor rcvbulk)
        ∷ t
