-- ===== src/LinTransfer/Branches.antt =====
-- linguru_start_xmit on every path.
use can_guru.Base.{
  ap, ◌∙◌, ℕ, ◌≤◌, ◌≡◌, ℤ, Bool, false, some, List, take, ◌∷◌, length, get_elem?, arith,
}
use can_guru.Kernel.Types.{
  Event, CanFrame, classic, answered, done, can_dropped_invalid_skb, netif_stop_queue,
}
use can_guru.Kernel.{Kernel, IsKernel, Ends, Ends-runs, ok}
use can_guru.State.{NetDev, Bus}
use can_guru.Bus.{contains}
use can_guru.Bus.Transmission.{XmitEnd}
use can_guru.MsgIds.{lin_msg_send}
use can_guru.Send.Outcome.{Outcome, packet}
use can_guru.LinNet.{linguru_lin_send}
use can_guru.LinNet.Frames.{lin_frame_bytes, linguru_lin_send-Outcome}
use can_guru.LinTransfer.{linguru_start_xmit}

-- The command that carries a frame.
abbrev pub lin_packet : Kernel → NetDev → CanFrame → List ℕ
lin_packet k priv frame = packet lin_msg_send (
    lin_frame_bytes priv.channel_idx frame.can_id (k.can.can_get_cc_dlc frame priv.can.ctrlmode)
      (take frame.len frame.body))

linguru_lin_send-runs :
    (k : Kernel) (s : Bus) (t : List Event) (priv : NetDev) (frame : CanFrame)
    → IsKernel k
    → frame.len ≤ 8
    → length frame.body ≡ 8
    → (err : ℤ) × (t' : List Event) × (linguru_lin_send priv frame k s t ≡ ok err s t')
      × Outcome (lin_packet k priv frame) t err t'
linguru_lin_send-runs k s t priv frame kernel hl hb =
    let (err, s', t', e, (same, o)) =
      Ends-runs (λ err s' t'. (s' ≡ s) × Outcome (lin_packet k priv frame) t err t')
        (linguru_lin_send priv frame k s t)
        (linguru_lin_send-Outcome k s t priv frame kernel hl hb) in
    (err, t', e ∙ ap (λ (x : Bus). ok err x t') same, o)

-- For a LIN channel that exists and waits for no answer, the transmit function returns NETDEV_TX_OK
-- on every path. A frame that the stack drops changes nothing; where the USB core refuses a call,
-- nothing is out and the queue runs; else the frame's command went out and the queue is stopped,
-- and the channel waits for the answer exactly if the echo buffer was accepted.
pub linguru_start_xmit-XmitEnd :
    (k : Kernel) (bus : Bus) (t : List Event) (i : ℕ) (running : Bool) (frame : CanFrame)
    (priv : NetDev)
    → IsKernel k
    → frame.len ≤ 8
    → length frame.body ≡ 8
    → get_elem? bus.netdevs i ≡ some (some priv)
    → contains i bus.send_reply_list ≡ false
    → Ends
        (XmitEnd k priv.handle (lin_packet k priv frame) i running (classic frame) bus t)
        (linguru_start_xmit i (classic frame) k bus t)
unfolding linguru_start_xmit
linguru_start_xmit-XmitEnd k bus t i running frame priv kernel hl hb found unlinked =
    let r = k.reply t (can_dropped_invalid_skb (classic frame)) in
    let stopped =
      done (netif_stop_queue priv.handle)
      ∷ answered (can_dropped_invalid_skb (classic frame)) r
      ∷ t in
    let (err, t', runs, o) = linguru_lin_send-runs k bus stopped priv frame kernel hl hb in
    ground (arith, found, unlinked, runs, o.verdict, o.others)
