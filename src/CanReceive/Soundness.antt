-- ===== src/CanReceive/Soundness.antt =====
-- canguru_net_recv and the array of net devices.
use can_guru.Base.{
  ap, true, false, refl, ◌∷◌, ℕ, ◌≤◌, ◌≡◌, subst, sym, inl, inr, Bool-cases, List, length,
  get_elem?, some, arith,
}
use can_guru.Kernel.{Kernel, IsKernel, Ends-map, pointer, fault, null_deref}
use can_guru.Kernel.Safe.{Safe, Safe-map, Ends-Safe, null_or_not}
use can_guru.Kernel.Types.{Event, Skb, classic, fd, alloc_can_skb, alloc_canfd_skb}
use can_guru.Kernel.Ledger.{delivered}
use can_guru.State.{Bus, NetDev}
use can_guru.Bus.{store_netdev}
use can_guru.Bus.Counting.{received_stats}
use can_guru.Bus.Channels.{IsChannel, IsBus, store_netdev-IsBus}
use can_guru.CanWire.{CanMsgHeader, CanRecvMsg, can_recv_msg_of}
use can_guru.CanReceive.{canguru_net_recv, hw_time}
use can_guru.CanReceive.Delivery.{
  IsClassicOf, IsFdOf, canguru_net_recv-classic, canguru_net_recv-fd,
}

-- The frame and the time that a received CAN message becomes.
abbrev pub IsCanFrameOf : Kernel → List ℕ → Skb × ℕ → Type 0
IsCanFrameOf k bytes (classic f, time) =
    (CanMsgHeader.canfd (CanRecvMsg.can_header (can_recv_msg_of bytes)) ≡ false)
    × IsClassicOf (can_recv_msg_of bytes) f
    × (time ≡ hw_time (CanRecvMsg.time_stamp (can_recv_msg_of bytes)))
IsCanFrameOf k bytes (fd f, time) =
    (CanMsgHeader.canfd (CanRecvMsg.can_header (can_recv_msg_of bytes)) ≡ true)
    × ((flags : ℕ) × IsFdOf k (can_recv_msg_of bytes) flags f)
    × (time ≡ hw_time (CanRecvMsg.time_stamp (can_recv_msg_of bytes)))

-- One frame is delivered, and the bus counts the same channels.
abbrev pub OneFrame : (Skb × ℕ → Type 0) → Bus → List Event → Unit {0} → Bus → List Event → Type 0
OneFrame is_of bus t _ bus' t' =
    (bus'.iface_count ≡ bus.iface_count)
    × ((frame : Skb × ℕ) × is_of frame × (delivered t' ≡ frame ∷ delivered t))

-- One frame of the message is delivered and counted.
abbrev Received :
    Kernel → List ℕ → ℕ → NetDev → Bus → List Event → Unit {0} → Bus → List Event → Type 0
Received k bytes i netdev bus t _ bus' t' =
    (frame : Skb × ℕ) × (len : ℕ) × IsCanFrameOf k bytes frame
    × (delivered t' ≡ frame ∷ delivered t)
    × (bus' ≡ store_netdev i (record netdev { stats = received_stats len netdev.stats }) bus)

module _ (k : Kernel) (bus : Bus) (t : List Event) (i : ℕ) (bytes : List ℕ) where
  fd_refused :
      (netdev : NetDev)
      → get_elem? bus.netdevs i ≡ some (some netdev)
      → CanMsgHeader.canfd (CanRecvMsg.can_header (can_recv_msg_of bytes)) ≡ true
      → pointer (k.reply t (alloc_canfd_skb netdev.handle)) ≡ 0
      → canguru_net_recv i bytes k bus t ≡ fault null_deref
  unfolding canguru_net_recv
  fd_refused netdev found is_fd null = ground (arith, found, is_fd, null)

  classic_refused :
      (netdev : NetDev)
      → get_elem? bus.netdevs i ≡ some (some netdev)
      → CanMsgHeader.canfd (CanRecvMsg.can_header (can_recv_msg_of bytes)) ≡ false
      → pointer (k.reply t (alloc_can_skb netdev.handle)) ≡ 0
      → canguru_net_recv i bytes k bus t ≡ fault null_deref
  unfolding canguru_net_recv
  classic_refused netdev found no_fd null = ground (arith, found, no_fd, null)

  canguru_net_recv-Received :
      (netdev : NetDev)
      → IsKernel k
      → get_elem? bus.netdevs i ≡ some (some netdev)
      → 74 ≤ length bytes
      → Safe k (Received k bytes i netdev bus t) (canguru_net_recv i bytes k bus t)
  canguru_net_recv-Received netdev kernel found whole =
      let handle = netdev.handle in
      let time = hw_time (CanRecvMsg.time_stamp (can_recv_msg_of bytes)) in
      elim (Bool-cases (CanMsgHeader.canfd (CanRecvMsg.can_header (can_recv_msg_of bytes)))) [
        | inl is_fd ↦ elim (null_or_not (pointer (k.reply t (alloc_canfd_skb handle)))) [
          | inl null ↦
              subst (Safe k (Received k bytes i netdev bus t))
                (sym (fd_refused netdev found is_fd null)) (t, handle, inr null)
          | inr has_skb ↦
              let (f, is_of, ends) =
                canguru_net_recv-fd k bus t i bytes netdev kernel found whole is_fd has_skb in
              Ends-Safe k (Received k bytes i netdev bus t) (canguru_net_recv i bytes k bus t) (
                Ends-map _ (Received k bytes i netdev bus t) (canguru_net_recv i bytes k bus t)
                  (λ _ bus' t' p. (
                    (fd f, time),
                    f.len,
                    (is_fd, (k.out t (alloc_canfd_skb handle), is_of), refl),
                    p.0,
                    p.1,
                  ))
                  ends)
        ]
        | inr no_fd ↦ elim (null_or_not (pointer (k.reply t (alloc_can_skb handle)))) [
          | inl null ↦
              subst (Safe k (Received k bytes i netdev bus t))
                (sym (classic_refused netdev found no_fd null)) (t, handle, inl null)
          | inr has_skb ↦
              let (f, is_of, ends) =
                canguru_net_recv-classic k bus t i bytes netdev kernel found whole no_fd has_skb in
              Ends-Safe k (Received k bytes i netdev bus t) (canguru_net_recv i bytes k bus t) (
                Ends-map _ (Received k bytes i netdev bus t) (canguru_net_recv i bytes k bus t)
                  (λ _ bus' t' p. ((classic f, time), f.len, (no_fd, is_of, refl), p.0, p.1)) ends)
        ]
      ]

  pub canguru_net_recv-IsBus :
      IsKernel k
      → IsBus bus
      → IsChannel bus.netdevs i
      → 74 ≤ length bytes
      → Safe k (λ _ bus' _. IsBus bus') (canguru_net_recv i bytes k bus t)
  canguru_net_recv-IsBus kernel sound (netdev, found) whole =
      Safe-map k (Received k bytes i netdev bus t) (λ _ bus' _. IsBus bus')
        (canguru_net_recv i bytes k bus t)
        (λ _ bus' t' (frame, len, is_of, more, stored). subst IsBus (sym stored) (
          store_netdev-IsBus bus i (record netdev { stats = received_stats len netdev.stats })
            (netdev, found) sound))
        (canguru_net_recv-Received netdev kernel found whole)

  pub canguru_net_recv-OneFrame :
      IsKernel k
      → IsChannel bus.netdevs i
      → 74 ≤ length bytes
      → Safe k (OneFrame (IsCanFrameOf k bytes) bus t) (canguru_net_recv i bytes k bus t)
  canguru_net_recv-OneFrame kernel (netdev, found) whole =
      Safe-map k (Received k bytes i netdev bus t) (OneFrame (IsCanFrameOf k bytes) bus t)
        (canguru_net_recv i bytes k bus t)
        (λ _ bus' t' (frame, len, is_of, more, stored).
          (ap (λ (b : Bus). b.iface_count) stored, (frame, is_of, more)))
        (canguru_net_recv-Received netdev kernel found whole)
