-- ===== src/CanTransmit.antt =====
-- canguru-net.c: sending a frame, and the device's answer to it.
pub mod Branches
pub mod Relinked
use can_guru.Base.{ℕ, ◌+◌, ◌==◌, if◌then◌else◌, ℤ, pos, is_zero, u64}
use can_guru.Kernel.Types.{
  Skb, classic, fd, log, dev_warn, netif_stop_queue, netif_wake_queue, can_dropped_invalid_skb,
  can_skb_get_frame_len, can_put_echo_skb, can_get_echo_skb, netdev_sent_queue,
  netdev_completed_queue,
}
use can_guru.Kernel.{M, ◌>>=◌, ◌>>◌, pure, call, call_ptr, call_out, run, get, modify, pointer}
use can_guru.State.{NetDev, Stats, Bus, guru_status_done, guru_status_error}
use can_guru.Bus.{netdev_at, wait_send_reply}
use can_guru.CanNet.{canguru_can_fd_send, canguru_can_classic_send}

-- The skb's length tells a CAN FD frame from a classic one.
unfoldable pub send_skb : NetDev → Skb → M Bus ℤ
send_skb priv (fd frame) = canguru_can_fd_send priv frame
send_skb priv (classic frame) = canguru_can_classic_send priv frame

await_reply : ℕ → NetDev → Skb → M Bus ℤ
await_reply idx priv skb = do
  frame_len ← call_ptr (can_skb_get_frame_len skb)
  err ← call (can_put_echo_skb priv.handle skb frame_len)
  if is_zero err
      then (do wait_send_reply idx; run (netdev_sent_queue priv.handle frame_len); pure (pos 0))
      else (do run (log dev_warn); pure (pos 0))

-- NETDEV_TX_OK is 0, on every path.
unfoldable pub canguru_start_xmit : ℕ → Skb → M Bus ℤ
unfolding await_reply
canguru_start_xmit idx skb = do
  priv ← netdev_at idx
  dropped ← call (can_dropped_invalid_skb skb)
  if is_zero dropped
      then (do
        run (netif_stop_queue priv.handle)
        err ← send_skb priv skb
        if is_zero err
            then await_reply idx priv skb
            else (do run (netif_wake_queue priv.handle); run (log dev_warn); pure (pos 0)))
      else pure (pos 0)

-- The counters are unsigned longs of 64 bits.
unfoldable pub count_reply : ℕ → ℕ → Stats → Stats
count_reply status byte_count st =
    if status == guru_status_done
    then record st {
      tx_packets = u64 (st.tx_packets + 1);
      tx_bytes = u64 (st.tx_bytes + byte_count);
    }
    else if status == guru_status_error
    then record st { tx_errors = u64 (st.tx_errors + 1) }
    else record st { tx_dropped = u64 (st.tx_dropped + 1) }

unfoldable pub canguru_send_callback : ℕ → M NetDev (Unit {0})
canguru_send_callback status = do
  priv ← get
  (bytes, frame_len) ← call_out (can_get_echo_skb priv.handle)
  modify (λ d. record d { stats = count_reply status (pointer bytes) d.stats })
  run (netdev_completed_queue priv.handle frame_len)
  run (netif_wake_queue priv.handle)
