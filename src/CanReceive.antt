-- ===== src/CanReceive.antt =====
-- canguru-net.c, canguru_net_recv: a frame that the device received.
pub mod Delivery
pub mod Quiet
pub mod Soundness
use can_guru.Base.{ℕ, ◌+◌, ◌*◌, ◌==◌, if◌then◌else◌, Bool, List, replicate, bit_or, u64}
use can_guru.Kernel.Types.{
  CanFrame, CanfdFrame, Skb, classic, fd, can_eff_flag, can_rtr_flag, canfd_brs, canfd_esi,
  alloc_can_skb, alloc_canfd_skb, netif_rx,
}
use can_guru.Kernel.{
  M, ◌>>=◌, ◌>>◌, pure, raise, call_ptr, call_out, run, lib, memcpy, modify, pointer, null_deref,
}
use can_guru.State.{NetDev, Stats, Bus}
use can_guru.Bus.{netdev_at, store_netdev}
use can_guru.CanWire.{CanMsgHeader, CanRecvMsg, can_recv_msg_of}
use can_guru.CanNet.{canguru_100us_to_1ns}

abbrev pub fd_flag : Bool → ℕ → ℕ → ℕ
fd_flag test word flag = if test then bit_or word flag else word

-- The two flags that go into the identifier of either kind of frame.
pub flag_can_id : CanMsgHeader → ℕ → ℕ
flag_can_id h can_id =
    fd_flag h.extended_id (fd_flag h.remote_frame can_id can_rtr_flag) can_eff_flag

-- A skb with the length that its frame counts for.
recv_fd : NetDev → CanRecvMsg → M Bus (ℕ × (Skb × ℕ))
unfolding flag_can_id
recv_fd netdev msg = do
  can ← lib
  let data_len = can.can_fd_dlc2len msg.can_header.can_dlc
  (skb, flags) ← call_out (alloc_canfd_skb netdev.handle)
  if pointer skb == 0 then raise null_deref else (do
    body ← memcpy (replicate 64 0) msg.body data_len
    let frame : CanfdFrame = record {
      can_id = flag_can_id msg.can_header msg.can_header.can_id;
      len = data_len;
      flags =
          fd_flag msg.can_header.bitrate_switch (fd_flag msg.can_header.esi flags canfd_esi)
            canfd_brs;
      body = body;
    }
    pure (pointer skb, (fd frame, data_len)))

-- A new socket buffer's frame is zeroed.
abbrev pub empty_classic : ℕ → CanFrame
empty_classic can_id = record { can_id = can_id; len = 0; len8_dlc = 0; body = replicate 8 0 }

recv_classic : NetDev → CanRecvMsg → M Bus (ℕ × (Skb × ℕ))
unfolding flag_can_id
recv_classic netdev msg = do
  can ← lib
  let data_len = can.can_cc_dlc2len msg.can_header.can_dlc
  skb ← call_ptr (alloc_can_skb netdev.handle)
  if skb == 0 then raise null_deref else (do
    let sized =
        can.can_frame_set_cc_len (empty_classic msg.can_header.can_id) msg.can_header.can_dlc
          netdev.can.ctrlmode
    body ← memcpy sized.body msg.body data_len
    let frame : CanFrame = record sized {
      can_id = flag_can_id msg.can_header sized.can_id;
      body = body;
    }
    pure (skb, (classic frame, data_len)))

abbrev pub count_rx : ℕ → Stats → Stats
count_rx data_len st = record st {
  rx_packets = u64 (st.rx_packets + 1);
  rx_bytes = u64 (st.rx_bytes + data_len);
}

-- The time stamp counts units of 100 microseconds, and the skb's is in nanoseconds.
pub hw_time : ℕ → ℕ
hw_time time_stamp = u64 (time_stamp * canguru_100us_to_1ns)

pub canguru_net_recv : ℕ → List ℕ → M Bus (Unit {0})
unfolding recv_fd recv_classic hw_time
canguru_net_recv iface bytes = do
  netdev ← netdev_at iface
  let msg = can_recv_msg_of bytes
  (skb, (frame, data_len)) ←
      if msg.can_header.canfd then recv_fd netdev msg else recv_classic netdev msg
  modify (store_netdev iface (record netdev { stats = count_rx data_len netdev.stats }))
  run (netif_rx skb frame (hw_time msg.time_stamp))
