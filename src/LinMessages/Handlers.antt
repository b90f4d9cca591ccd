-- ===== src/LinMessages/Handlers.antt =====
-- The handlers of linguru-msg-net.c on any packet.
use can_guru.Base.{
  [], byte_at, ◌<◌, get_elem?-exists, none, Option, ℕ, ◌≡◌, ◌≤◌, refl, sym, subst, inl, inr,
  Bool-cases, true, false, leb, some, List, ◌∷◌, get_elem?, arith,
}
use can_guru.Kernel.{Kernel, IsKernel, Ends, Returns, Ends-map, ok}
use can_guru.Kernel.Types.{Event, done, log, dev_warn}
use can_guru.State.{Device, NetDev}
use can_guru.Bus.Channels.{answered_bus, answered_bus-IsBus, IsBus, IsBus-tail}
use can_guru.Messages.{in_lin}
use can_guru.Messages.Handlers.{IsMessage, Keeps, IsSilent, Delivers, FrameFor}
use can_guru.Voltage.{linguru_volt_reply}
use can_guru.LinTransfer.{count_lin_reply, linguru_send_callback}
use can_guru.LinTransfer.{linguru_net_recv}
use can_guru.LinTransfer.Soundness.{IsLinFrameOf, linguru_net_recv-IsBus, linguru_net_recv-OneFrame}
use can_guru.CanReceive.Soundness.{OneFrame}
use can_guru.LinMessages.{
  linguru_status_callback, lin_send_callback, lin_answer, linguru_recv_callback, volt_answer,
  linguru_volt_callback,
}
use can_guru.LinMessages.Answers.{lin_send_callback-runs}
use can_guru.Kernel.Safe.{Safe, Safe-zoom}

pub lin_send_callback-Keeps :
    (k : Kernel) (d : Device) (t : List Event) (bytes : List ℕ)
    → IsBus d.lin_bus
    → IsBus d.can_bus
    → IsMessage d bytes
    → Ends (λ _ d' _. Keeps d d') (lin_send_callback k d t)
unfolding lin_send_callback
lin_send_callback-Keeps k d t [] own other msg = absurd (omega (arith, msg.whole))
lin_send_callback-Keeps k d t (b ∷ bytes) own other msg = by_list d.lin_bus.send_reply_list refl
  where
    unlinked :
        (reply : ℕ) (rest : List ℕ) (priv : NetDev)
        → d.lin_bus.send_reply_list ≡ reply ∷ rest
        → get_elem? d.lin_bus.netdevs reply ≡ some (some priv)
        → priv.has_reply_callback ≡ false
        → lin_answer (reply ∷ rest) k d t
          ≡ ok tt (record d { lin_bus = record (d.lin_bus) { send_reply_list = rest } }) t
    unlinked reply rest priv e found no_callback = ground (arith, e, found, no_callback)

    keeps :
        (reply : ℕ) (rest : List ℕ) (priv : NetDev)
        → get_elem? d.lin_bus.netdevs reply ≡ some (some priv)
        → IsBus (record (d.lin_bus) { send_reply_list = rest })
        → (echo_len : ℕ) (d' : Device)
        → d' ≡ record d {
          lin_bus = answered_bus reply rest priv (count_lin_reply b echo_len priv.stats) d.lin_bus;
        }
        → Keeps d d'
    keeps reply rest priv found left echo_len d' e =
        subst (λ (x : Device). Keeps d x) (sym e)
          (record {
            same_guru = refl;
            lin_lem =
                answered_bus-IsBus d.lin_bus reply rest priv (count_lin_reply b echo_len priv.stats)
                  found left;
            can_lem = other;
          })

    by_list :
        (l : List ℕ)
        → d.lin_bus.send_reply_list ≡ l
        → Ends (λ _ d' _. Keeps d d') (lin_answer l k d t)
    by_list [] e = record { same_guru = refl; lin_lem = own; can_lem = other }
    by_list (reply ∷ rest) e =
        let ((priv, found), left) = IsBus-tail d.lin_bus reply rest e own in
        elim (Bool-cases priv.has_reply_callback) [
          | inl has ↦
              subst (λ (l : List ℕ). Ends (λ _ d' _. Keeps d d') (lin_answer l k d t)) e
                (Ends-map _ (λ _ d' _. Keeps d d') (lin_send_callback k d t)
                  (λ _ d' t' p. keeps reply rest priv found left _ d' p.0)
                  (lin_send_callback-runs k d t reply b rest bytes priv true e found has
                    msg.current))
          | inr no_callback ↦
              subst (λ r. Ends (λ _ d' _. Keeps d d') r)
                (sym (unlinked reply rest priv e found no_callback))
                (record { same_guru = refl; lin_lem = left; can_lem = other })
        ]

pub linguru_recv_callback-Keeps :
    (k : Kernel) (d : Device) (t : List Event) (bytes : List ℕ)
    → IsKernel k
    → IsBus d.lin_bus
    → IsBus d.can_bus
    → IsMessage d bytes
    → byte_at bytes 6 ≤ 8
    → Safe k (λ _ d' _. Keeps d d') (linguru_recv_callback k d t)
unfolding linguru_recv_callback
linguru_recv_callback-Keeps k d t [] kernel own other msg short = absurd (omega (arith, msg.whole))
linguru_recv_callback-Keeps k d t (b ∷ bytes) kernel own other msg short =
    elim (Bool-cases (leb d.lin_bus.iface_count b)) [
      | inl beyond ↦ ground (arith, msg.current, beyond)
      | inr within ↦
          subst (λ r. Safe k (λ _ d' _. Keeps d d') r) (sym (goes_in within))
            (Safe-zoom (λ _ bus _. IsBus bus) (λ _ d' _. Keeps d d') (λ x. x.lin_bus)
              (λ bus x. record x { lin_bus = bus }) (linguru_net_recv b (b ∷ bytes)) k d t
              (λ _ bus _ sound. record { same_guru = refl; lin_lem = sound; can_lem = other })
              (linguru_net_recv-IsBus k d.lin_bus t b (b ∷ bytes) kernel own
                (own.channels b (ground (arith, within))) (omega (arith, msg.whole)) short))
    ]
  where
    goes_in :
        leb d.lin_bus.iface_count b ≡ false
        → linguru_recv_callback k d t ≡ in_lin (linguru_net_recv b (b ∷ bytes)) k d t
    goes_in within = ground (arith, msg.current, within)

pub linguru_volt_callback-Keeps :
    (k : Kernel) (d : Device) (t : List Event) (bytes : List ℕ)
    → IsBus d.can_bus
    → IsBus d.lin_bus
    → IsMessage d bytes
    → Ends (λ _ d' _. Keeps d d') (linguru_volt_callback k d t)
unfolding linguru_volt_callback linguru_volt_reply
linguru_volt_callback-Keeps k d t bytes can lin msg = by_volt d.lin_bus.meas_volt_dev
  where
    by_volt : (v : Option ℕ) → Ends (λ _ d' _. Keeps d d') (volt_answer v k d t)
    by_volt none = record { same_guru = refl; can_lem = can; lin_lem = lin }
    by_volt (some v) =
        let (a, at0) = get_elem?-exists bytes 0 (omega (arith, msg.whole)) in
        let (b, at1) = get_elem?-exists bytes 1 (omega (arith, msg.whole)) in
        let (c, at2) = get_elem?-exists bytes 2 (omega (arith, msg.whole)) in
        let (e, at3) = get_elem?-exists bytes 3 (omega (arith, msg.whole)) in
        ground (arith, msg.current, at0, at1, at2, at3)

pub linguru_status_callback-Keeps :
    (k : Kernel) (d : Device) (t : List Event) (bytes : List ℕ)
    → IsBus d.can_bus
    → IsBus d.lin_bus
    → IsMessage d bytes
    → Ends (λ _ d' _. Keeps d d') (linguru_status_callback k d t)
unfolding linguru_status_callback
linguru_status_callback-Keeps k d t [] can lin msg = absurd (omega (arith, msg.whole))
linguru_status_callback-Keeps k d t (b ∷ bytes) can lin msg = ground (arith, msg.current)

pub lin_send_callback-IsSilent :
    (k : Kernel) (d : Device) (t : List Event) → Returns (IsSilent d t) (lin_send_callback k d t)
unfolding lin_send_callback lin_answer linguru_send_callback
lin_send_callback-IsSilent k d t = ground arith

pub linguru_volt_callback-IsSilent :
    (k : Kernel) (d : Device) (t : List Event)
    → Returns (IsSilent d t) (linguru_volt_callback k d t)
unfolding linguru_volt_callback linguru_volt_reply volt_answer
linguru_volt_callback-IsSilent k d t = ground arith

pub linguru_status_callback-IsSilent :
    (k : Kernel) (d : Device) (t : List Event)
    → Returns (IsSilent d t) (linguru_status_callback k d t)
unfolding linguru_status_callback
linguru_status_callback-IsSilent k d t = ground arith

pub linguru_recv_callback-Delivers :
    (k : Kernel) (d : Device) (t : List Event) (bytes : List ℕ)
    → IsKernel k
    → IsBus d.lin_bus
    → IsMessage d bytes
    → byte_at bytes 6 ≤ 8
    → Safe k
        (Delivers (FrameFor (IsLinFrameOf bytes) d.lin_bus.iface_count (byte_at bytes 0)) d t)
        (linguru_recv_callback k d t)
unfolding linguru_recv_callback
linguru_recv_callback-Delivers k d t [] kernel own msg short = absurd (omega (arith, msg.whole))
linguru_recv_callback-Delivers k d t (b ∷ bytes) kernel own msg short =
    elim (Bool-cases (leb d.lin_bus.iface_count b)) [
      | inl beyond ↦
          subst (λ r. Safe k expected r) (sym (warns beyond))
            (refl, refl, ([], inr (ground (arith, beyond), refl), refl))
      | inr within ↦
          let room : b < d.lin_bus.iface_count = ground (arith, within) in
          subst (λ r. Safe k expected r) (sym (goes_in within))
            (Safe-zoom (OneFrame (IsLinFrameOf (b ∷ bytes)) d.lin_bus t) expected (λ x. x.lin_bus)
              (λ bus x. record x { lin_bus = bus }) (linguru_net_recv b (b ∷ bytes)) k d t
              (λ _ bus t' (counts, (frame, is_of, more)).
                (refl, counts, (frame ∷ [], inl (room, (frame, is_of, refl)), more)))
              (linguru_net_recv-OneFrame k d.lin_bus t b (b ∷ bytes) kernel (own.channels b room)
                (omega (arith, msg.whole)) short))
    ]
  where
    expected : Unit {0} → Device → List Event → Type 0
    expected = Delivers (FrameFor (IsLinFrameOf (b ∷ bytes)) d.lin_bus.iface_count b) d t

    warns :
        leb d.lin_bus.iface_count b ≡ true
        → linguru_recv_callback k d t ≡ ok tt d (done (log dev_warn) ∷ t)
    warns beyond = ground (arith, msg.current, beyond)

    goes_in :
        leb d.lin_bus.iface_count b ≡ false
        → linguru_recv_callback k d t ≡ in_lin (linguru_net_recv b (b ∷ bytes)) k d t
    goes_in within = ground (arith, msg.current, within)
