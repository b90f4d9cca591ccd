-- ===== src/CanLoopback/Fd.antt =====
-- canguru-net.c: transmission and reception of a CAN FD frame taken together.
use can_guru.Base.{
  ap, ◌∙◌, ℕ, ◌+◌, ◌*◌, ◌%◌, ◌≤◌, ◌<◌, ◌^◌, ◌≡◌, ◌≢◌, Bool, true, bit, some, List, ◌∷◌, ◌++◌, take,
  length, length-append, length-take, take_front, take-take, get_elem?, sym, arith,
}
use can_guru.Kernel.Types.{Event, CanfdFrame, fd, alloc_canfd_skb, canfd_esi, canfd_brs}
use can_guru.Kernel.{Kernel, IsKernel, Ends, pointer}
use can_guru.Kernel.Ledger.{delivered}
use can_guru.CanId.{CanId, IsCanId, word}
use can_guru.State.{NetDev, Bus}
use can_guru.Bus.{store_netdev}
use can_guru.CanWire.{CanMsgHeader, CanRecvMsg, can_header_bytes, can_recv_msg_of}
use can_guru.CanWire.Layout.{length-can_header_bytes, can_recv_msg_of-report}
use can_guru.CanNet.{fd_header, empty_header}
use can_guru.CanNet.Frames.{fd_header-fields}
use can_guru.Bus.Counting.{received_stats}
use can_guru.CanReceive.{canguru_net_recv, fd_flag, hw_time}
use can_guru.CanReceive.Delivery.{IsFdOf, canguru_net_recv-fd, flag_can_id-word, hw_time-exact}
use can_guru.CanLoopback.{echo, at_time}

-- A frame as it comes back: it may be longer, by bytes of the device's padding.
abbrev pub IsFdEcho : Kernel → Bool → Bool → ℕ → CanfdFrame → CanfdFrame → Type 0
IsFdEcho k esi brs flags f g =
    (g.can_id ≡ f.can_id)
    × (g.len ≡ k.can.can_fd_dlc2len (k.can.can_fd_len2dlc f.len))
    × (f.len ≤ g.len)
    × (g.flags ≡ fd_flag brs (fd_flag esi flags canfd_esi) canfd_brs)
    × (take f.len g.body ≡ take f.len f.body)

same_fd_frame :
    (k : Kernel) (f g : CanfdFrame) (c : CanId) (esi brs : Bool) (flags time_stamp i : ℕ)
    (pad : List ℕ) (hdr : CanMsgHeader) (msg : CanRecvMsg)
    → IsKernel k
    → IsCanId c
    → f.can_id ≡ word c
    → f.len ≤ 64
    → length f.body ≡ 64
    → hdr ≡ record empty_header {
      can_id = c.base;
      can_dlc = k.can.can_fd_len2dlc f.len;
      extended_id = c.extended;
      remote_frame = c.remote;
      esi = esi;
      canfd = true;
      bitrate_switch = brs;
    }
    → msg ≡ record {
      iface = i;
      time_stamp = time_stamp;
      can_header = hdr;
      body = take 64 (take f.len f.body ++ pad);
    }
    → IsFdOf k msg flags g
    → IsFdEcho k esi brs flags f g
same_fd_frame k f g c esi brs flags time_stamp i pad hdr msg kernel v e hl hb fields parsed
      (id, len, fl, body) =
    let longer : f.len ≤ g.len =
      ground (arith, len, parsed, fields, kernel.lib_lem.fd_len2dlc_covers f.len hl) in
    let front = take-take f.len g.len g.body longer in
    let front' = take-take f.len g.len msg.body longer in
    let kept =
      take_front f.len 64 (take f.len f.body) pad (omega (arith, length-take f.len f.body)) hl in
    let cut = ap (λ (l : List ℕ). take f.len l) body in
    (
      ground (
        arith,
        id,
        parsed,
        fields,
        flag_can_id-word c hdr v (ground (arith, fields)) (ground (arith, fields)),
      ),
      ground (arith, len, parsed, fields),
      longer,
      ground (arith, fl, parsed, fields),
      sym front ∙ cut ∙ front' ∙ ap (λ (m : CanRecvMsg). take f.len m.body) parsed ∙ kept,
    )

module _ (k : Kernel) (bus : Bus) (t : List Event) (i : ℕ) (netdev : NetDev) (kernel : IsKernel k)
    (found : get_elem? bus.netdevs i ≡ some (some netdev)) where
  -- A CAN FD frame with a well-formed identifier, reported back by the device, comes back with the
  -- same identifier word, flags and data bytes, the length that its length code stands for, which
  -- is not smaller than its own, and the device's time in nanoseconds.
  pub fd_loopback :
      (f : CanfdFrame) (c : CanId) (esi brs : Bool) (time_stamp : ℕ) (pad : List ℕ)
      → IsCanId c
      → f.can_id ≡ word c
      → f.flags % 4 ≡ bit brs + bit esi * 2
      → f.len ≤ 64
      → length f.body ≡ 64
      → 64 ≤ length pad
      → time_stamp < 2 ^ 32
      → pointer (k.reply t (alloc_canfd_skb netdev.handle)) ≢ 0
      → (g : CanfdFrame) × IsFdEcho k esi brs (k.out t (alloc_canfd_skb netdev.handle)) f g
        × Ends
            (λ _ _ t'. delivered t' ≡ (fd g, time_stamp * 100000) ∷ delivered t)
            (canguru_net_recv i
              (echo i time_stamp (fd_header (k.can.can_fd_len2dlc f.len) f) (take f.len f.body) pad)
              k
              bus
              t)
  fd_loopback f c esi brs time_stamp pad v e fl hl hb hp ht skb =
      let dlc = k.can.can_fd_len2dlc f.len in
      let hdr = fd_header dlc f in
      let payload = take f.len f.body in
      let low = kernel.lib_lem.fd_len2dlc_max f.len in
      let fields = fd_header-fields c dlc esi brs f v e fl low in
      let parsed =
        can_recv_msg_of-report hdr i time_stamp (payload ++ pad) (ground (arith, fields, v)) ht in
      let (g, is_of, ends) =
        canguru_net_recv-fd k bus t i (echo i time_stamp hdr payload pad) netdev kernel found
          (ground (
            arith,
            length-can_header_bytes hdr,
            length-append (can_header_bytes hdr) (payload ++ pad),
            length-append payload pad,
          ))
          (ground (arith, parsed, fields)) skb in
      let same =
        same_fd_frame k f g c esi brs (k.out t (alloc_canfd_skb netdev.handle)) time_stamp i pad hdr
          (can_recv_msg_of (echo i time_stamp hdr payload pad)) kernel v e hl hb fields parsed
          is_of in
      let exact =
        ap (λ (m : CanRecvMsg). hw_time m.time_stamp) parsed ∙ hw_time-exact time_stamp ht in
      (
        g,
        same,
        at_time (store_netdev i (record netdev { stats = received_stats g.len netdev.stats }) bus) t
            (fd g) exact (canguru_net_recv i (echo i time_stamp hdr payload pad) k bus t) ends,
      )
