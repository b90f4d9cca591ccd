-- ===== src/LinTransfer.antt =====
-- linguru-net.c: sending a LIN frame, the answer to it, and a frame that the device received.
pub mod Branches
pub mod Overflow
pub mod Soundness
use can_guru.Base.{ℕ, ◌+◌, ◌*◌, ◌==◌, if◌then◌else◌, ℤ, pos, is_zero, List, replicate, bit_or, u64}
use can_guru.Kernel.Types.{
  CanFrame, Skb, classic, fd, can_rtr_flag, log, dev_warn, netif_stop_queue, netif_wake_queue,
  can_dropped_invalid_skb, can_skb_get_frame_len, can_put_echo_skb, can_get_echo_skb,
  netdev_sent_queue, netdev_completed_queue, alloc_can_skb, netif_rx,
}
use can_guru.Kernel.{
  M, ◌>>=◌, ◌>>◌, pure, raise, call, call_ptr, call_out, run, lib, memcpy, get, modify, pointer,
  null_deref,
}
use can_guru.State.{NetDev, Stats, Bus, guru_status_done, guru_status_error}
use can_guru.Bus.{netdev_at, wait_send_reply, store_netdev}
use can_guru.LinWire.{LinMsgHeader, LinMsgRecv, lin_msg_recv_of}
use can_guru.LinNet.{linguru_lin_send, lin_enhanced_sum_flag}

abbrev pub linguru_100us_to_1ns : ℕ
linguru_100us_to_1ns = 100000

-- The data of a skb is cast to struct can_frame, whose fields stand where those of a CAN FD frame
-- do.
abbrev pub as_can_frame : Skb → CanFrame
as_can_frame (classic f) = f
as_can_frame (fd f) = record { can_id = f.can_id; len = f.len; len8_dlc = 0; body = f.body }

await_lin_reply : ℕ → NetDev → Skb → M Bus ℤ
await_lin_reply idx priv skb = do
  frame_len ← call_ptr (can_skb_get_frame_len skb)
  err ← call (can_put_echo_skb priv.handle skb frame_len)
  if is_zero err
      then (do wait_send_reply idx; run (netdev_sent_queue priv.handle frame_len); pure (pos 0))
      else (do run (log dev_warn); pure (pos 0))

pub linguru_start_xmit : ℕ → Skb → M Bus ℤ
unfolding await_lin_reply
linguru_start_xmit idx skb = do
  priv ← netdev_at idx
  dropped ← call (can_dropped_invalid_skb skb)
  if is_zero dropped
      then (do
        run (netif_stop_queue priv.handle)
        err ← linguru_lin_send priv (as_can_frame skb)
        if is_zero err
            then await_lin_reply idx priv skb
            else (do run (netif_wake_queue priv.handle); run (log dev_warn); pure (pos 0)))
      else pure (pos 0)

unfoldable pub count_lin_reply : ℕ → ℕ → Stats → Stats
count_lin_reply status byte_count st =
    if status == guru_status_done
    then record st {
      tx_packets = u64 (st.tx_packets + 1);
      tx_bytes = u64 (st.tx_bytes + byte_count);
    }
    else if status == guru_status_error
    then record st { tx_errors = u64 (st.tx_errors + 1) }
    else record st { tx_dropped = u64 (st.tx_dropped + 1) }

unfoldable pub linguru_send_callback : ℕ → M NetDev (Unit {0})
linguru_send_callback status = do
  priv ← get
  (bytes, frame_len) ← call_out (can_get_echo_skb priv.handle)
  modify (λ d. record d { stats = count_lin_reply status (pointer bytes) d.stats })
  run (netdev_completed_queue priv.handle frame_len)
  run (netif_wake_queue priv.handle)

-- Identifier, remote flag and checksum flag of a received frame.
pub lin_can_id : LinMsgHeader → ℕ → ℕ
lin_can_id h can_id =
    let remote = if h.remote_data then bit_or can_id can_rtr_flag else can_id in
    if h.enhanced_sum then bit_or remote lin_enhanced_sum_flag else remote

-- A new frame with only the identifier set.
abbrev pub empty_lin : ℕ → CanFrame
empty_lin id = record { can_id = id; len = 0; len8_dlc = 0; body = replicate 8 0 }

recv_lin : NetDev → LinMsgRecv → M Bus (ℕ × (CanFrame × ℕ))
recv_lin netdev msg = do
  can ← lib
  let data_len = msg.header.data_len
  skb ← call_ptr (alloc_can_skb netdev.handle)
  if skb == 0 then raise null_deref else (do
    let sized = can.can_frame_set_cc_len (empty_lin msg.header.id) data_len netdev.can.ctrlmode
    body ← memcpy sized.body msg.response data_len
    let frame : CanFrame = record sized { can_id = lin_can_id msg.header sized.can_id; body = body }
    pure (skb, (frame, data_len)))

abbrev pub count_lin_rx : ℕ → Stats → Stats
count_lin_rx data_len st = record st {
  rx_packets = u64 (st.rx_packets + 1);
  rx_bytes = u64 (st.rx_bytes + data_len);
}

pub linguru_net_recv : ℕ → List ℕ → M Bus (Unit {0})
unfolding recv_lin
linguru_net_recv iface bytes = do
  netdev ← netdev_at iface
  let msg = lin_msg_recv_of bytes
  (skb, (frame, data_len)) ← recv_lin netdev msg
  modify (store_netdev iface (record netdev { stats = count_lin_rx data_len netdev.stats }))
  run (netif_rx skb (classic frame) (u64 (msg.timestamp * linguru_100us_to_1ns)))
