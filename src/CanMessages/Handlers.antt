-- ===== src/CanMessages/Handlers.antt =====
-- The handlers of canguru-msg-net.c on any packet.
use can_guru.Base.{
  [], ℕ, ◌<◌, byte_at, ◌≡◌, refl, sym, subst, inl, inr, Bool-cases, true, false, leb, some, List,
  ◌∷◌, get_elem?, arith,
}
use can_guru.Kernel.{Kernel, IsKernel, Ends, Returns, Ends-map, ok}
use can_guru.Kernel.Types.{Event, done, log, dev_warn}
use can_guru.State.{Device, NetDev}
use can_guru.Bus.Channels.{answered_bus, answered_bus-IsBus, IsBus, IsBus-tail}
use can_guru.Messages.{in_can}
use can_guru.Messages.Handlers.{IsMessage, Keeps, IsSilent, Delivers, FrameFor}
use can_guru.CanTransmit.{count_reply, canguru_send_callback}
use can_guru.CanReceive.{canguru_net_recv}
use can_guru.CanReceive.Soundness.{
  IsCanFrameOf, OneFrame, canguru_net_recv-IsBus, canguru_net_recv-OneFrame,
}
use can_guru.CanMessages.{can_send_callback, can_answer, canguru_recv_callback}
use can_guru.CanMessages.Answers.{can_send_callback-runs}
use can_guru.Kernel.Safe.{Safe, Safe-zoom}

pub can_send_callback-Keeps :
    (k : Kernel) (d : Device) (t : List Event) (bytes : List ℕ)
    → IsBus d.can_bus
    → IsBus d.lin_bus
    → IsMessage d bytes
    → Ends (λ _ d' _. Keeps d d') (can_send_callback k d t)
unfolding can_send_callback
can_send_callback-Keeps k d t [] own other msg = absurd (omega (arith, msg.whole))
can_send_callback-Keeps k d t (b ∷ bytes) own other msg = by_list d.can_bus.send_reply_list refl
  where
    unlinked :
        (reply : ℕ) (rest : List ℕ) (priv : NetDev)
        → d.can_bus.send_reply_list ≡ reply ∷ rest
        → get_elem? d.can_bus.netdevs reply ≡ some (some priv)
        → priv.has_reply_callback ≡ false
        → can_answer (reply ∷ rest) k d t
          ≡ ok tt (record d { can_bus = record (d.can_bus) { send_reply_list = rest } }) t
    unlinked reply rest priv e found no_callback = ground (arith, e, found, no_callback)

    keeps :
        (reply : ℕ) (rest : List ℕ) (priv : NetDev)
        → get_elem? d.can_bus.netdevs reply ≡ some (some priv)
        → IsBus (record (d.can_bus) { send_reply_list = rest })
        → (echo_len : ℕ) (d' : Device)
        → d' ≡ record d {
          can_bus = answered_bus reply rest priv (count_reply b echo_len priv.stats) d.can_bus;
        }
        → Keeps d d'
    keeps reply rest priv found left echo_len d' e =
        subst (λ (x : Device). Keeps d x) (sym e)
          (record {
            same_guru = refl;
            can_lem =
                answered_bus-IsBus d.can_bus reply rest priv (count_reply b echo_len priv.stats)
                  found left;
            lin_lem = other;
          })

    by_list :
        (l : List ℕ)
        → d.can_bus.send_reply_list ≡ l
        → Ends (λ _ d' _. Keeps d d') (can_answer l k d t)
    by_list [] e = record { same_guru = refl; can_lem = own; lin_lem = other }
    by_list (reply ∷ rest) e =
        let ((priv, found), left) = IsBus-tail d.can_bus reply rest e own in
        elim (Bool-cases priv.has_reply_callback) [
          | inl has ↦
              subst (λ (l : List ℕ). Ends (λ _ d' _. Keeps d d') (can_answer l k d t)) e
                (Ends-map _ (λ _ d' _. Keeps d d') (can_send_callback k d t)
                  (λ _ d' t' p. keeps reply rest priv found left _ d' p.0)
                  (can_send_callback-runs k d t reply b rest bytes priv true e found has
                    msg.current))
          | inr no_callback ↦
              subst (λ r. Ends (λ _ d' _. Keeps d d') r)
                (sym (unlinked reply rest priv e found no_callback))
                (record { same_guru = refl; can_lem = left; lin_lem = other })
        ]

pub canguru_recv_callback-Keeps :
    (k : Kernel) (d : Device) (t : List Event) (bytes : List ℕ)
    → IsKernel k
    → IsBus d.can_bus
    → IsBus d.lin_bus
    → IsMessage d bytes
    → Safe k (λ _ d' _. Keeps d d') (canguru_recv_callback k d t)
unfolding canguru_recv_callback
canguru_recv_callback-Keeps k d t [] kernel own other msg = absurd (omega (arith, msg.whole))
canguru_recv_callback-Keeps k d t (b ∷ bytes) kernel own other msg =
    elim (Bool-cases (leb d.can_bus.iface_count b)) [
      | inl beyond ↦ ground (arith, msg.current, beyond)
      | inr within ↦
          subst (λ r. Safe k (λ _ d' _. Keeps d d') r) (sym (goes_in within))
            (Safe-zoom (λ _ bus _. IsBus bus) (λ _ d' _. Keeps d d') (λ x. x.can_bus)
              (λ bus x. record x { can_bus = bus }) (canguru_net_recv b (b ∷ bytes)) k d t
              (λ _ bus _ sound. record { same_guru = refl; can_lem = sound; lin_lem = other })
              (canguru_net_recv-IsBus k d.can_bus t b (b ∷ bytes) kernel own
                (own.channels b (ground (arith, within))) (omega (arith, msg.whole))))
    ]
  where
    goes_in :
        leb d.can_bus.iface_count b ≡ false
        → canguru_recv_callback k d t ≡ in_can (canguru_net_recv b (b ∷ bytes)) k d t
    goes_in within = ground (arith, msg.current, within)

pub can_send_callback-IsSilent :
    (k : Kernel) (d : Device) (t : List Event) → Returns (IsSilent d t) (can_send_callback k d t)
unfolding can_send_callback can_answer canguru_send_callback
can_send_callback-IsSilent k d t = ground arith

pub canguru_recv_callback-Delivers :
    (k : Kernel) (d : Device) (t : List Event) (bytes : List ℕ)
    → IsKernel k
    → IsBus d.can_bus
    → IsMessage d bytes
    → Safe k
        (Delivers (FrameFor (IsCanFrameOf k bytes) d.can_bus.iface_count (byte_at bytes 0)) d t)
        (canguru_recv_callback k d t)
unfolding canguru_recv_callback
canguru_recv_callback-Delivers k d t [] kernel own msg = absurd (omega (arith, msg.whole))
canguru_recv_callback-Delivers k d t (b ∷ bytes) kernel own msg =
    elim (Bool-cases (leb d.can_bus.iface_count b)) [
      | inl beyond ↦
          subst (λ r. Safe k expected r) (sym (warns beyond))
            (refl, refl, ([], inr (ground (arith, beyond), refl), refl))
      | inr within ↦
          let room : b < d.can_bus.iface_count = ground (arith, within) in
          subst (λ r. Safe k expected r) (sym (goes_in within))
            (Safe-zoom (OneFrame (IsCanFrameOf k (b ∷ bytes)) d.can_bus t) expected (λ x. x.can_bus)
              (λ bus x. record x { can_bus = bus }) (canguru_net_recv b (b ∷ bytes)) k d t
              (λ _ bus t' (counts, (frame, is_of, more)).
                (counts, refl, (frame ∷ [], inl (room, (frame, is_of, refl)), more)))
              (canguru_net_recv-OneFrame k d.can_bus t b (b ∷ bytes) kernel (own.channels b room)
                (omega (arith, msg.whole))))
    ]
  where
    expected : Unit {0} → Device → List Event → Type 0
    expected = Delivers (FrameFor (IsCanFrameOf k (b ∷ bytes)) d.can_bus.iface_count b) d t

    warns :
        leb d.can_bus.iface_count b ≡ true
        → canguru_recv_callback k d t ≡ ok tt d (done (log dev_warn) ∷ t)
    warns beyond = ground (arith, msg.current, beyond)

    goes_in :
        leb d.can_bus.iface_count b ≡ false
        → canguru_recv_callback k d t ≡ in_can (canguru_net_recv b (b ∷ bytes)) k d t
    goes_in within = ground (arith, msg.current, within)
