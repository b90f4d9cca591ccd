-- ===== src/Reception/Keeping.antt =====
-- What setting up the reception leaves of the device.
use can_guru.Base.{
  ℕ, zero, suc, ◌≡◌, ◌≢◌, ◌⊎◌, refl, inl, inr, ◌∙◌, ap, Bool-cases, ℤ, pos, is_zero, none, List, [],
  ◌∷◌, ◌++◌, if◌then◌else◌, arith,
}
use can_guru.Kernel.{Kernel, IsKernel, M, Ends, Ends-map, Ends-bind, Ends-runs, pure, ◌>>=◌}
use can_guru.Kernel.Types.{Event, done, init_usb_anchor, usb_set_intfdata, rcvbulk, sndbulk}
use can_guru.State.{Device}
use can_guru.Messages.{guru_msg_std_init, guru_get_fw_ver}
use can_guru.Messages.Std.{std_message}
use can_guru.MsgIds.{guru_msg_get_version}
use can_guru.Send.Outcome.{guru_send_data-runs}
use can_guru.Reception.{rx_turn, rx_turns, report_turns, canguru_usb_rx_init, guru_dev_init}

-- All but the table of the buffers.
abbrev pub KeepsDevice : Device → Device → Type 0
KeepsDevice d d' = d' ≡ record d { guru = record (d.guru) { rxbuf = d'.guru.rxbuf } }

rx_turn-KeepsDevice :
    (k : Kernel) (d : Device) (t : List Event) → Ends (λ _ d' _. KeepsDevice d d') (rx_turn k d t)
unfolding rx_turn
rx_turn-KeepsDevice k d t = ground arith

rx_turns-KeepsDevice :
    (k : Kernel) (left idx : ℕ) (d : Device) (t : List Event)
    → Ends (λ _ d' _. KeepsDevice d d') (rx_turns left idx k d t)
unfolding rx_turns
rx_turns-KeepsDevice k zero idx d t = refl
rx_turns-KeepsDevice k (suc left) idx d t =
    Ends-bind (λ _ d' _. KeepsDevice d d') (λ _ d' _. KeepsDevice d d') rx_turn
      (λ err. if is_zero err then rx_turns left (suc idx) else pure (idx, err)) k d t
      (rx_turn-KeepsDevice k d t)
      (λ err d' t' kept. elim (Bool-cases (is_zero err)) [
        | inl good ↦ rw good (
            Ends-map (λ _ d'' _. KeepsDevice d' d'') (λ _ d'' _. KeepsDevice d d'')
              (rx_turns left (suc idx) k d' t')
              (λ _ d'' _ kept'. KeepsDevice-trans d d' d'' kept kept')
              (rx_turns-KeepsDevice k left (suc idx) d' t'))
        | inr bad ↦ rw bad kept
      ])
  where
    KeepsDevice-trans : (a b c : Device) → KeepsDevice a b → KeepsDevice b c → KeepsDevice a c
    KeepsDevice-trans a b c p q =
        q ∙ ap (λ (x : Device). record x { guru = record (x.guru) { rxbuf = c.guru.rxbuf } }) p

canguru_usb_rx_init-KeepsDevice :
    (k : Kernel) (d : Device) (t : List Event)
    → Ends (λ _ d' _. KeepsDevice d d') (canguru_usb_rx_init k d t)
unfolding canguru_usb_rx_init report_turns
canguru_usb_rx_init-KeepsDevice k d t =
    let ((i, err), d', t', runs, kept) =
      Ends-runs (λ _ d' _. KeepsDevice d d') (rx_turns 32 0 k d t)
        (rx_turns-KeepsDevice k 32 0 d t) in
    ground (arith, runs, kept)

-- The channels, the removal function and the boot device stay, and one message is registered.
abbrev pub InitEnd : Device → ℤ → Device → Type 0
InitEnd d err d' =
    (d'.can_bus ≡ d.can_bus)
    × (d'.lin_bus ≡ d.lin_bus)
    × (d'.guru.dev_deinit ≡ d.guru.dev_deinit)
    × (d'.boot_state ≡ d.boot_state)
    × ((err ≢ pos 0) ⊎ ((err ≡ pos 0) × (d'.guru.msg_list ≡ std_message ∷ [])))

-- Behind the reception: the registration, and the question for the version.
unfoldable pub register : ℤ → M Device ℤ
register err =
    if is_zero err
    then (do
      err' ← guru_msg_std_init
      if is_zero err' then (do _ ← guru_get_fw_ver; pure (pos 0)) else pure err')
    else pure err

register-InitEnd :
    (k : Kernel) (err : ℤ) (d d1 : Device) (t1 : List Event)
    → IsKernel k
    → KeepsDevice (record d { guru = record (d.guru) { msg_list = [] } }) d1
    → Ends (λ err' d' _. InitEnd d err' d') (register err k d1 t1)
unfolding register guru_msg_std_init
register-InitEnd k err d d1 t1 kernel kept =
    let d2 : Device = record d1 {
      guru = record (d1.guru) { msg_list = d1.guru.msg_list ++ (std_message ∷ []) };
    } in
    let (err2, t2, runs2, o) =
      guru_send_data-runs k d2 t1 guru_msg_get_version none 0 [] kernel (omega arith) (omega arith)
        (refl, refl) in
    ground (arith, kept, runs2)

pub guru_dev_init-InitEnd :
    (k : Kernel) (self : ℕ) (d : Device) (t : List Event)
    → IsKernel k
    → Ends (λ err d' _. InitEnd d err d') (guru_dev_init self k d t)
unfolding guru_dev_init canguru_usb_rx_init register
guru_dev_init-InitEnd k self d t kernel =
    Ends-bind (λ _ d' _. KeepsDevice d0 d') (λ err d' _. InitEnd d err d') canguru_usb_rx_init
      register k d0 t0 (canguru_usb_rx_init-KeepsDevice k d0 t0)
      (λ err d1 t1 kept. register-InitEnd k err d d1 t1 kernel kept)
  where
    d0 : Device
    d0 = record d { guru = record (d.guru) { msg_list = [] } }

    t0 : List Event
    t0 =
        done (usb_set_intfdata self)
        ∷ done (init_usb_anchor sndbulk)
        ∷ done (init_usb_anchor rcvbulk)
        ∷ t
