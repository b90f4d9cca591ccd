-- ===== src/CanReceive/Delivery.antt =====
-- What canguru_net_recv hands to the network stack.
use can_guru.Base.{
  ℕ, take_copied, ◌+◌, ◌*◌, ◌≤◌, ◌<◌, ◌^◌, ◌≡◌, ◌≢◌, true, false, some, List, ◌∷◌, ◌++◌, take, drop,
  length, replicate, get_elem?, bit_or-bit, min, arith,
}
use can_guru.Kernel.Types.{
  Event, CanFrame, CanfdFrame, canfd_esi, canfd_brs, classic, fd, alloc_can_skb, alloc_canfd_skb,
}
use can_guru.Kernel.{Kernel, IsKernel, Ends, pointer}
use can_guru.Kernel.Ledger.{delivered}
use can_guru.CanId.{CanId, IsCanId, word}
use can_guru.State.{NetDev, Bus}
use can_guru.Bus.{store_netdev}
use can_guru.Bus.Counting.{received_stats}
use can_guru.CanWire.{CanMsgHeader, CanRecvMsg, can_recv_msg_of}
use can_guru.CanWire.Layout.{length-recv_body}
use can_guru.CanReceive.{empty_classic, flag_can_id, hw_time, canguru_net_recv, fd_flag}

-- The identifier word is put together without loss.
pub flag_can_id-word :
    (c : CanId) (h : CanMsgHeader)
    → IsCanId c
    → h.extended_id ≡ c.extended
    → h.remote_frame ≡ c.remote
    → flag_can_id h c.base ≡ word c
unfolding flag_can_id
flag_can_id-word c h v e r =
    ground (arith, bit_or-bit 30 c.base, bit_or-bit 31 c.base, bit_or-bit 31 (c.base + 2 ^ 30))

-- 2 ^ 32 time stamps of 100 microseconds do not overflow 64 bits of nanoseconds.
pub hw_time-exact :
    (time_stamp : ℕ) → time_stamp < 2 ^ 32 → hw_time time_stamp ≡ time_stamp * 100000
unfolding hw_time
hw_time-exact time_stamp h = omega arith

-- A received classic frame as the stack gets it: the identifier word, the length that the code
-- stands for, and that many data bytes.
abbrev pub IsClassicOf : CanRecvMsg → CanFrame → Type 0
IsClassicOf msg f =
    (f.can_id ≡ flag_can_id msg.can_header msg.can_header.can_id)
    × (f.len ≡ min msg.can_header.can_dlc 8)
    × (take f.len f.body ≡ take f.len msg.body)

-- The frame that a classic message becomes.
abbrev classic_of : Kernel → NetDev → CanRecvMsg → CanFrame
classic_of k netdev msg =
    let n = k.can.can_cc_dlc2len msg.can_header.can_dlc in
    let sized =
      k.can.can_frame_set_cc_len (empty_classic msg.can_header.can_id) msg.can_header.can_dlc
        netdev.can.ctrlmode in
    record sized {
      can_id = flag_can_id msg.can_header sized.can_id;
      body = take n msg.body ++ drop n sized.body;
    }

classic_of-IsClassicOf :
    (k : Kernel) (netdev : NetDev) (msg : CanRecvMsg)
    → IsKernel k
    → length msg.body ≡ 64
    → IsClassicOf msg (classic_of k netdev msg)
      × (k.can.can_cc_dlc2len msg.can_header.can_dlc ≤ 8)
      × (CanFrame.len (classic_of k netdev msg) ≡ k.can.can_cc_dlc2len msg.can_header.can_dlc)
classic_of-IsClassicOf k netdev msg kernel h = ground (
  arith,
  kernel.lib_lem.set_cc_len_len (empty_classic h'.can_id) h'.can_dlc netdev.can.ctrlmode,
  kernel.lib_lem.set_cc_len_id (empty_classic h'.can_id) h'.can_dlc netdev.can.ctrlmode,
  kernel.lib_lem.set_cc_len_data (empty_classic h'.can_id) h'.can_dlc netdev.can.ctrlmode,
  kernel.lib_lem.cc_dlc2len_min h'.can_dlc,
  take_copied n msg.body (drop n (replicate 8 0)),
)
  where
    h' : CanMsgHeader
    h' = msg.can_header

    n : ℕ
    n = k.can.can_cc_dlc2len h'.can_dlc

module _ (k : Kernel) (bus : Bus) (t : List Event) (i : ℕ) (bytes : List ℕ) (netdev : NetDev)
    (kernel : IsKernel k) (found : get_elem? bus.netdevs i ≡ some (some netdev))
    (whole : 74 ≤ length bytes) where
  -- A whole classic message for a channel that exists, where the kernel has a socket buffer, goes
  -- to the stack as one frame with the identifier word, the length that its code stands for, at
  -- most 8, and that many of its data bytes, with the time in nanoseconds; the channel counts one packet more and its length. No byte
  -- is copied out of bounds.
  pub canguru_net_recv-classic :
      CanMsgHeader.canfd (CanRecvMsg.can_header (can_recv_msg_of bytes)) ≡ false
      → pointer (k.reply t (alloc_can_skb netdev.handle)) ≢ 0
      → (f : CanFrame) × IsClassicOf (can_recv_msg_of bytes) f
        × Ends
            (λ _ bus' t'.
              (delivered t'
                ≡ (classic f, hw_time (CanRecvMsg.time_stamp (can_recv_msg_of bytes)))
                  ∷ delivered t)
              × (bus'
                  ≡ store_netdev i
                      (record netdev { stats = received_stats f.len netdev.stats })
                      bus))
            (canguru_net_recv i bytes k bus t)
  unfolding canguru_net_recv
  canguru_net_recv-classic no_fd has_skb =
      let msg = can_recv_msg_of bytes in
      let (is_of, short, len) =
        classic_of-IsClassicOf k netdev msg kernel (length-recv_body bytes whole) in
      (
        classic_of k netdev msg,
        is_of,
        ground (
          arith,
          found,
          no_fd,
          has_skb,
          short,
          len,
          length-recv_body bytes whole,
          kernel.lib_lem.set_cc_len_data (empty_classic msg.can_header.can_id)
              msg.can_header.can_dlc netdev.can.ctrlmode,
        ),
      )

-- The same of a CAN FD frame; `flags` is what the new socket buffer had set.
abbrev pub IsFdOf : Kernel → CanRecvMsg → ℕ → CanfdFrame → Type 0
IsFdOf k msg flags f =
    (f.can_id ≡ flag_can_id msg.can_header msg.can_header.can_id)
    × (f.len ≡ k.can.can_fd_dlc2len msg.can_header.can_dlc)
    × (f.flags
        ≡ fd_flag msg.can_header.bitrate_switch (fd_flag msg.can_header.esi flags canfd_esi)
            canfd_brs)
    × (take f.len f.body ≡ take f.len msg.body)

abbrev fd_of : Kernel → CanRecvMsg → ℕ → CanfdFrame
fd_of k msg flags =
    let n = k.can.can_fd_dlc2len msg.can_header.can_dlc in
    record {
      can_id = flag_can_id msg.can_header msg.can_header.can_id;
      len = n;
      flags =
          fd_flag msg.can_header.bitrate_switch (fd_flag msg.can_header.esi flags canfd_esi)
            canfd_brs;
      body = take n msg.body ++ drop n (replicate 64 0);
    }

module _ (k : Kernel) (bus : Bus) (t : List Event) (i : ℕ) (bytes : List ℕ) (netdev : NetDev)
    (kernel : IsKernel k) (found : get_elem? bus.netdevs i ≡ some (some netdev))
    (whole : 74 ≤ length bytes) where
  -- A whole CAN FD message for a channel that exists, where the kernel has a socket buffer, goes to
  -- the stack as one frame with the length that its code stands for, its two flags and the time in
  -- nanoseconds; the channel counts one packet more and its length. No byte is copied out of bounds.
  pub canguru_net_recv-fd :
      CanMsgHeader.canfd (CanRecvMsg.can_header (can_recv_msg_of bytes)) ≡ true
      → pointer (k.reply t (alloc_canfd_skb netdev.handle)) ≢ 0
      → (f : CanfdFrame) × IsFdOf k
          (can_recv_msg_of bytes)
          (k.out t (alloc_canfd_skb netdev.handle))
          f
        × Ends
            (λ _ bus' t'.
              (delivered t'
                ≡ (fd f, hw_time (CanRecvMsg.time_stamp (can_recv_msg_of bytes))) ∷ delivered t)
              × (bus'
                  ≡ store_netdev i
                      (record netdev { stats = received_stats f.len netdev.stats })
                      bus))
            (canguru_net_recv i bytes k bus t)
  unfolding canguru_net_recv
  canguru_net_recv-fd is_fd has_skb =
      let msg = can_recv_msg_of bytes in
      let n = k.can.can_fd_dlc2len msg.can_header.can_dlc in
      let short = kernel.lib_lem.fd_dlc2len_max msg.can_header.can_dlc in
      let body = length-recv_body bytes whole in
      let copied = take_copied n msg.body (drop n (replicate 64 0)) (omega arith) in
      let flags = k.out t (alloc_canfd_skb netdev.handle) in
      (
        fd_of k msg flags,
        ground (arith, copied),
        ground (arith, found, is_fd, has_skb, short, body),
      )
