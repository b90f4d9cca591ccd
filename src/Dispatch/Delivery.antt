-- ===== src/Dispatch/Delivery.antt =====
-- guru-device.c: what the network stack gets of one packet.
use can_guru.Base.{ℕ, ◌≡◌, sym, ap, subst, none, List, ◌++◌, length}
use can_guru.Kernel.{Kernel, IsKernel, modify}
use can_guru.Kernel.Types.{Event, Skb}
use can_guru.Kernel.Ledger.{delivered}
use can_guru.State.{Device, GuruDevice, GuruMsg}
use can_guru.Dispatch.{set_curr_msg, packet_id, packet_data_count, canguru_process_msg_list}
use can_guru.Dispatch.Routing.{Distinct, registered, deliver_to, canguru_process_msg_list-routes}
use can_guru.Dispatch.Soundness.{
  IsBounded, IsDevice, IsReceiving, during, during-IsServed, canguru_process_msg_list-IsDevice,
}
use can_guru.Dispatch.Frames.{
  MessageFrames, KeepsAndDelivers, registered-IsFound, deliver_to-Delivers,
}
use can_guru.Kernel.Safe.{Safe, Safe-bind, Safe-both}

-- The channels that are counted and the registered messages stay, and frames are delivered as
-- expected.
abbrev pub Receives :
    (ℕ → ℕ → List GuruMsg → List (Skb × ℕ) → Type 0)
    → Device
    → List Event
    → Unit {0}
    → Device
    → List Event
    → Type 0
Receives expected d t _ d' t' =
    IsReceiving d'
    × (d'.can_bus.iface_count ≡ d.can_bus.iface_count)
    × (d'.lin_bus.iface_count ≡ d.lin_bus.iface_count)
    × (d'.guru.msg_list ≡ d.guru.msg_list)
    × ((fs : List (Skb × ℕ)) × expected d.can_bus.iface_count d.lin_bus.iface_count d.guru.msg_list
          fs
        × (delivered t' ≡ fs ++ delivered t))

-- What a packet turns into, by the message that is registered for it.
abbrev pub PacketFrames : Kernel → List ℕ → ℕ → ℕ → List GuruMsg → List (Skb × ℕ) → Type 0
PacketFrames k msg cans lins ms fs =
    MessageFrames k cans lins (registered (packet_id msg) ms) msg fs

module _ (k : Kernel) (kernel : IsKernel k) where
  delivers :
      (d : Device) (t : List Event) (msg : List ℕ)
      → length msg ≡ 128
      → IsBounded msg
      → IsReceiving d
      → Safe k
          (λ _ d' t'.
            (d'.can_bus.iface_count ≡ d.can_bus.iface_count)
            × (d'.lin_bus.iface_count ≡ d.lin_bus.iface_count)
            × (d'.guru.msg_list ≡ d.guru.msg_list)
            × ((fs : List (Skb × ℕ)) × PacketFrames k msg d.can_bus.iface_count
                  d.lin_bus.iface_count d.guru.msg_list fs
                × (delivered t' ≡ fs ++ delivered t)))
          (canguru_process_msg_list msg k d t)
  delivers d t msg whole bounded (sound, distinct) =
      subst (Safe k _) (sym (canguru_process_msg_list-routes k d t msg distinct)) (
        Safe-bind
          (KeepsAndDelivers
            (PacketFrames k msg d.can_bus.iface_count d.lin_bus.iface_count d.guru.msg_list)
            (during msg d) t)
          _
          (deliver_to (registered (packet_id msg) d.guru.msg_list) (packet_id msg)
            (packet_data_count msg))
          (λ _. modify (set_curr_msg none 0 0)) k (during msg d) t
          (deliver_to-Delivers k kernel msg bounded (during msg d) t
            (registered (packet_id msg) d.guru.msg_list)
            (during-IsServed k kernel msg bounded d whole sound)
            (registered-IsFound (packet_id msg) d.guru.msg_list sound.proper))
          (λ _ d' t' (kept, (cans, lins, more)).
            (cans, lins, ap (λ (g : GuruDevice). g.msg_list) kept.same_guru, more)))

  pub canguru_process_msg_list-Receives :
      (d : Device) (t : List Event) (msg : List ℕ)
      → length msg ≡ 128
      → IsBounded msg
      → IsReceiving d
      → Safe k (Receives (PacketFrames k msg) d t) (canguru_process_msg_list msg k d t)
  canguru_process_msg_list-Receives d t msg whole bounded (sound, distinct) =
      Safe-both k (λ _ d' _. IsDevice d') _ (Receives (PacketFrames k msg) d t)
        (canguru_process_msg_list msg k d t)
        (λ _ d' t' sound' (cans, lins, list, more).
          ((sound', subst Distinct (sym list) distinct), cans, lins, list, more))
        (canguru_process_msg_list-IsDevice k d t msg kernel whole bounded sound)
        (delivers d t msg whole bounded (sound, distinct))
