-- ===== src/CanReceive/Quiet.antt =====
-- canguru_net_recv, the transmit queues and the reply list.
use can_guru.Base.{
  ℕ, ◌≡◌, refl, Bool, true, false, Option, none, some, List, get_elem?, set, arith, sym, subst,
  if◌then◌else◌,
}
use can_guru.Kernel.{Kernel, M, ◌>>=◌, ◌>>◌, modify, run, Returns, Returns-bind}
use can_guru.Kernel.Types.{Event, Skb, netif_rx}
use can_guru.Kernel.Ledger.{queue_runs}
use can_guru.State.{Bus, NetDev}
use can_guru.Bus.{deref, store_netdev}
use can_guru.Bus.Channels.{keys, keys-store}
use can_guru.CanWire.{CanRecvMsg, can_recv_msg_of}
use can_guru.CanReceive.{recv_fd, recv_classic, count_rx, hw_time, canguru_net_recv}

module _ (k : Kernel) (running : Bool) (dev : ℕ) where
  abbrev Quiet : {A : Type 0} → Bus → List Event → A → Bus → List Event → Type 0
  Quiet bus t _ bus' t' = (bus' ≡ bus) × (queue_runs running dev t' ≡ queue_runs running dev t)

  recv_fd-Quiet :
      (netdev : NetDev) (msg : CanRecvMsg) (bus : Bus) (t : List Event)
      → Returns (Quiet bus t) (recv_fd netdev msg k bus t)
  unfolding recv_fd
  recv_fd-Quiet netdev msg bus t = ground arith

  recv_classic-Quiet :
      (netdev : NetDev) (msg : CanRecvMsg) (bus : Bus) (t : List Event)
      → Returns (Quiet bus t) (recv_classic netdev msg k bus t)
  unfolding recv_classic
  recv_classic-Quiet netdev msg bus t = ground arith

  -- What the reception of a frame leaves alone.
  abbrev pub KeepsQueues : Bus → List Event → Unit {0} → Bus → List Event → Type 0
  KeepsQueues bus t _ bus' t' =
      (keys bus'.netdevs ≡ keys bus.netdevs)
      × (bus'.send_reply_list ≡ bus.send_reply_list)
      × (queue_runs running dev t' ≡ queue_runs running dev t)

  recv_frame : NetDev → CanRecvMsg → M Bus (ℕ × (Skb × ℕ))
  recv_frame netdev msg =
      if msg.can_header.canfd then recv_fd netdev msg else recv_classic netdev msg

  recv-Quiet :
      (netdev : NetDev) (msg : CanRecvMsg) (bus : Bus) (t : List Event)
      → Returns (Quiet bus t) (recv_frame netdev msg k bus t)
  unfolding recv_frame
  recv-Quiet netdev msg bus t = either msg.can_header.canfd
    where
      either :
          (b : Bool)
          → Returns
              (Quiet bus t)
              ((if b then recv_fd netdev msg else recv_classic netdev msg) k bus t)
      either true = recv_fd-Quiet netdev msg bus t
      either false = recv_classic-Quiet netdev msg bus t

  -- The rest of canguru_net_recv once the net device is known.
  finish : ℕ → CanRecvMsg → NetDev → M Bus (Unit {0})
  unfolding recv_frame
  finish iface msg netdev = do
    (skb, (frame, data_len)) ← recv_frame netdev msg
    modify (store_netdev iface (record netdev { stats = count_rx data_len netdev.stats }))
    run (netif_rx skb frame (hw_time msg.time_stamp))

  finish-KeepsQueues :
      (iface : ℕ) (msg : CanRecvMsg) (netdev : NetDev) (bus : Bus) (t : List Event)
      → get_elem? bus.netdevs iface ≡ some (some netdev)
      → Returns (KeepsQueues bus t) (finish iface msg netdev k bus t)
  unfolding finish
  finish-KeepsQueues iface msg netdev bus t found =
      Returns-bind (Quiet bus t) (KeepsQueues bus t) (recv_frame netdev msg)
        (λ (skb, (frame, len)).
          modify (store_netdev iface (record netdev { stats = count_rx len netdev.stats }))
          >> run (netif_rx skb frame (hw_time msg.time_stamp)))
        k bus t (recv-Quiet netdev msg bus t)
        (λ (skb, (frame, len)) bus' t' (same, queue).
          subst
            (λ (b : Bus).
              (keys
                  (set b.netdevs iface (some (record netdev { stats = count_rx len netdev.stats })))
                ≡ keys bus.netdevs)
              × (b.send_reply_list ≡ bus.send_reply_list)
              × (queue_runs running dev t' ≡ queue_runs running dev t))
            (sym same)
            (keys-store bus.netdevs iface netdev (count_rx len netdev.stats) found, refl, queue))

  pub canguru_net_recv-KeepsQueues :
      (iface : ℕ) (bytes : List ℕ) (bus : Bus) (t : List Event)
      → Returns (KeepsQueues bus t) (canguru_net_recv iface bytes k bus t)
  unfolding canguru_net_recv finish recv_frame
  canguru_net_recv-KeepsQueues iface bytes bus t = known (get_elem? bus.netdevs iface) refl
    where
      known :
          (o : Option (Option NetDev))
          → get_elem? bus.netdevs iface ≡ o
          → Returns (KeepsQueues bus t) ((deref o >>= finish iface (can_recv_msg_of bytes)) k bus t)
      known none e = tt
      known (some none) e = tt
      known (some (some netdev)) e = finish-KeepsQueues iface (can_recv_msg_of bytes) netdev bus t e
