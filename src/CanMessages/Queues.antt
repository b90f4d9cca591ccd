-- ===== src/CanMessages/Queues.antt =====
-- canguru_recv_callback, the transmit queues and the reply list.
use can_guru.Base.{
  ℕ, ◌≡◌, sym, subst, inl, inr, Bool, Bool-cases, leb, false, some, List, [], ◌∷◌, arith,
}
use can_guru.Kernel.Types.{Event}
use can_guru.Kernel.{Kernel, Returns, Returns-zoom}
use can_guru.State.{Device}
use can_guru.Messages.{in_can}
use can_guru.CanReceive.{canguru_net_recv}
use can_guru.CanReceive.Quiet.{KeepsQueues, canguru_net_recv-KeepsQueues}
use can_guru.CanMessages.{canguru_recv_callback}

-- A received frame changes neither the queues nor the list.
pub canguru_recv_callback-KeepsQueues :
    (k : Kernel) (running : Bool) (dev : ℕ) (d : Device) (t : List Event) (bytes : List ℕ)
    → d.guru.curr_msg_data ≡ some bytes
    → Returns
        (λ a d' t'. KeepsQueues k running dev d.can_bus t a d'.can_bus t')
        (canguru_recv_callback k d t)
unfolding canguru_recv_callback
canguru_recv_callback-KeepsQueues k running dev d t [] current = ground (arith, current)
canguru_recv_callback-KeepsQueues k running dev d t (b ∷ bytes) current =
    elim (Bool-cases (leb d.can_bus.iface_count b)) [
      | inl beyond ↦ ground (arith, current, beyond)
      | inr within ↦
          subst (λ r. Returns (λ a d' t'. KeepsQueues k running dev d.can_bus t a d'.can_bus t') r)
            (sym (goes_in within))
            (Returns-zoom (KeepsQueues k running dev d.can_bus t)
              (λ a d' t'. KeepsQueues k running dev d.can_bus t a d'.can_bus t') (λ x. x.can_bus)
              (λ bus x. record x { can_bus = bus }) (canguru_net_recv b (b ∷ bytes)) k d t
              (λ a bus t' h. h)
              (canguru_net_recv-KeepsQueues k running dev b (b ∷ bytes) d.can_bus t))
    ]
  where
    goes_in :
        leb d.can_bus.iface_count b ≡ false
        → canguru_recv_callback k d t ≡ in_can (canguru_net_recv b (b ∷ bytes)) k d t
    goes_in within = ground (arith, current, within)
