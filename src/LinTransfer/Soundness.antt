-- ===== src/LinTransfer/Soundness.antt =====
-- linguru_net_recv and the array of net devices.
use can_guru.Base.{
  get_elem?, some, ap, refl, take, u64, ◌*◌, ◌≡◌, ◌∷◌, ℕ, ◌≤◌, subst, sym, inl, inr, List, length,
  byte_at, arith,
}
use can_guru.Kernel.{Kernel, IsKernel, Ends-map, pointer, fault, null_deref}
use can_guru.Kernel.Safe.{Safe, Safe-map, Ends-Safe, null_or_not}
use can_guru.Kernel.Ledger.{delivered}
use can_guru.Kernel.Types.{Event, Skb, classic, fd, alloc_can_skb}
use can_guru.Bus.{store_netdev}
use can_guru.State.{Bus, NetDev}
use can_guru.Bus.Counting.{received_stats}
use can_guru.Bus.Channels.{IsChannel, IsBus, store_netdev-IsBus}
use can_guru.LinWire.{LinMsgHeader, LinMsgRecv, lin_msg_recv_of}
use can_guru.CanReceive.Soundness.{OneFrame}
use can_guru.LinTransfer.{lin_can_id, linguru_net_recv}
use can_guru.LinTransfer.Overflow.{linguru_net_recv-length}

-- The frame and the time that a received LIN message becomes.
abbrev pub IsLinFrameOf : List ℕ → Skb × ℕ → Type 0
IsLinFrameOf bytes (fd f, time) = ⊥
IsLinFrameOf bytes (classic f, time) =
    (f.can_id
      ≡ lin_can_id (LinMsgRecv.header (lin_msg_recv_of bytes))
          (LinMsgHeader.id (LinMsgRecv.header (lin_msg_recv_of bytes))))
    × (f.len ≡ byte_at bytes 6)
    × (take f.len f.body ≡ take f.len (LinMsgRecv.response (lin_msg_recv_of bytes)))
    × (time ≡ u64 (LinMsgRecv.timestamp (lin_msg_recv_of bytes) * 100000))

-- One frame of the message is delivered and counted.
abbrev Received : List ℕ → ℕ → NetDev → Bus → List Event → Unit {0} → Bus → List Event → Type 0
Received bytes i netdev bus t _ bus' t' =
    (frame : Skb × ℕ) × (len : ℕ) × IsLinFrameOf bytes frame
    × (delivered t' ≡ frame ∷ delivered t)
    × (bus' ≡ store_netdev i (record netdev { stats = received_stats len netdev.stats }) bus)

module _ (k : Kernel) (bus : Bus) (t : List Event) (i : ℕ) (bytes : List ℕ) where
  skb_refused :
      (netdev : NetDev)
      → get_elem? bus.netdevs i ≡ some (some netdev)
      → pointer (k.reply t (alloc_can_skb netdev.handle)) ≡ 0
      → linguru_net_recv i bytes k bus t ≡ fault null_deref
  unfolding linguru_net_recv
  skb_refused netdev found null = ground (arith, found, null)

  linguru_net_recv-Received :
      (netdev : NetDev)
      → IsKernel k
      → get_elem? bus.netdevs i ≡ some (some netdev)
      → 15 ≤ length bytes
      → byte_at bytes 6 ≤ 8
      → Safe k (Received bytes i netdev bus t) (linguru_net_recv i bytes k bus t)
  linguru_net_recv-Received netdev kernel found whole short =
      elim (null_or_not (pointer (k.reply t (alloc_can_skb netdev.handle)))) [
        | inl null ↦
            subst (Safe k (Received bytes i netdev bus t)) (sym (skb_refused netdev found null))
              (t, netdev.handle, inl null)
        | inr has_skb ↦
            elim (linguru_net_recv-length k bus t i bytes netdev kernel found whole has_skb) [
              | inl (h, f, id, len, body, ends) ↦
                  Ends-Safe k (Received bytes i netdev bus t) (linguru_net_recv i bytes k bus t) (
                    Ends-map _ (Received bytes i netdev bus t) (linguru_net_recv i bytes k bus t)
                      (λ _ bus' t' p. (
                        (classic f, u64 (LinMsgRecv.timestamp (lin_msg_recv_of bytes) * 100000)),
                        f.len,
                        (id, len, body, refl),
                        p.0,
                        p.1,
                      ))
                      ends)
              | inr (long, _) ↦ absurd (omega arith)
            ]
      ]

  pub linguru_net_recv-IsBus :
      IsKernel k
      → IsBus bus
      → IsChannel bus.netdevs i
      → 15 ≤ length bytes
      → byte_at bytes 6 ≤ 8
      → Safe k (λ _ bus' _. IsBus bus') (linguru_net_recv i bytes k bus t)
  linguru_net_recv-IsBus kernel sound (netdev, found) whole short =
      Safe-map k (Received bytes i netdev bus t) (λ _ bus' _. IsBus bus')
        (linguru_net_recv i bytes k bus t)
        (λ _ bus' t' (frame, len, is_of, more, stored). subst IsBus (sym stored) (
          store_netdev-IsBus bus i (record netdev { stats = received_stats len netdev.stats })
            (netdev, found) sound))
        (linguru_net_recv-Received netdev kernel found whole short)

  pub linguru_net_recv-OneFrame :
      IsKernel k
      → IsChannel bus.netdevs i
      → 15 ≤ length bytes
      → byte_at bytes 6 ≤ 8
      → Safe k (OneFrame (IsLinFrameOf bytes) bus t) (linguru_net_recv i bytes k bus t)
  linguru_net_recv-OneFrame kernel (netdev, found) whole short =
      Safe-map k (Received bytes i netdev bus t) (OneFrame (IsLinFrameOf bytes) bus t)
        (linguru_net_recv i bytes k bus t)
        (λ _ bus' t' (frame, len, is_of, more, stored).
          (ap (λ (b : Bus). b.iface_count) stored, (frame, is_of, more)))
        (linguru_net_recv-Received netdev kernel found whole short)
