-- ===== src/CanTransmit/Branches.antt =====
-- canguru_start_xmit on every path.
use can_guru.Base.{
  ◌≢◌, ℕ, ◌≤◌, ◌≡◌, ap, ◌∙◌, ℤ, Bool, false, some, List, ◌∷◌, length, get_elem?, arith,
}
use can_guru.Kernel.Types.{
  Event, Skb, classic, fd, answered, done, can_dropped_invalid_skb, netif_stop_queue,
}
use can_guru.Kernel.{Kernel, IsKernel, Ends, Ends-runs, ok}
use can_guru.Kernel.Ledger.{queue_runs}
use can_guru.State.{NetDev, Bus}
use can_guru.Bus.{contains}
use can_guru.Bus.Transmission.{XmitEnd}
use can_guru.MsgIds.{can_msg_send}
use can_guru.Send.Outcome.{Outcome, packet}
use can_guru.CanNet.{classic_header, fd_header}
use can_guru.CanNet.Frames.{
  frame_bytes, canguru_can_classic_send-Outcome, canguru_can_fd_send-Outcome,
}
use can_guru.CanTransmit.{send_skb, canguru_start_xmit}
use can_guru.Base.{take}

-- The data of a skb fits its frame type.
abbrev pub IsSkb : Skb → Type 0
IsSkb (classic f) = (f.len ≤ 8) × (length f.body ≡ 8)
IsSkb (fd f) = (f.len ≤ 64) × (length f.body ≡ 64)

-- The command that carries the frame of a skb.
abbrev pub skb_packet : Kernel → NetDev → Skb → List ℕ
skb_packet k priv (classic f) = packet can_msg_send (
    frame_bytes priv.channel_idx (classic_header (k.can.can_get_cc_dlc f priv.can.ctrlmode) f)
      (take f.len f.body))
skb_packet k priv (fd f) =
    packet can_msg_send
      (frame_bytes priv.channel_idx (fd_header (k.can.can_fd_len2dlc f.len) f) (take f.len f.body))

send_skb-Outcome :
    (k : Kernel) (s : Bus) (t : List Event) (priv : NetDev) (skb : Skb)
    → IsKernel k
    → IsSkb skb
    → Ends
        (λ err s' t'. (s' ≡ s) × Outcome (skb_packet k priv skb) t err t')
        (send_skb priv skb k s t)
unfolding send_skb
send_skb-Outcome k s t priv (classic f) kernel (l, b) =
    canguru_can_classic_send-Outcome k s t priv f kernel l b
send_skb-Outcome k s t priv (fd f) kernel (l, b) =
    canguru_can_fd_send-Outcome k s t priv f kernel l b

pub send_skb-runs :
    (k : Kernel) (s : Bus) (t : List Event) (priv : NetDev) (skb : Skb)
    → IsKernel k
    → IsSkb skb
    → (err : ℤ) × (t' : List Event) × (send_skb priv skb k s t ≡ ok err s t')
      × Outcome (skb_packet k priv skb) t err t'
send_skb-runs k s t priv skb kernel valid =
    let (err, s', t', e, (same, o)) =
      Ends-runs (λ err s' t'. (s' ≡ s) × Outcome (skb_packet k priv skb) t err t')
        (send_skb priv skb k s t) (send_skb-Outcome k s t priv skb kernel valid) in
    (err, t', e ∙ ap (λ (x : Bus). ok err x t') same, o)

-- For a channel that exists and waits for no answer, the transmit function returns NETDEV_TX_OK on
-- every path. A frame that the stack drops changes nothing; where the USB core refuses a call,
-- nothing is out and the queue runs; else the frame's command went out and the queue is stopped,
-- and the channel waits for the answer exactly if the echo buffer was accepted.
pub canguru_start_xmit-XmitEnd :
    (k : Kernel) (bus : Bus) (t : List Event) (i : ℕ) (running : Bool) (skb : Skb) (priv : NetDev)
    → IsKernel k
    → IsSkb skb
    → get_elem? bus.netdevs i ≡ some (some priv)
    → contains i bus.send_reply_list ≡ false
    → Ends
        (XmitEnd k priv.handle (skb_packet k priv skb) i running skb bus t)
        (canguru_start_xmit i skb k bus t)
unfolding canguru_start_xmit
canguru_start_xmit-XmitEnd k bus t i running skb priv kernel valid found unlinked =
    let r = k.reply t (can_dropped_invalid_skb skb) in
    let stopped =
      done (netif_stop_queue priv.handle) ∷ answered (can_dropped_invalid_skb skb) r ∷ t in
    let (err, t', runs, o) = send_skb-runs k bus stopped priv skb kernel valid in
    ground (arith, found, unlinked, runs, o.verdict, o.others)

-- The queues of the other net devices are left alone.
pub canguru_start_xmit-other_queues :
    (k : Kernel) (bus : Bus) (t : List Event) (i other : ℕ) (running : Bool) (skb : Skb)
    (priv : NetDev)
    → IsKernel k
    → IsSkb skb
    → get_elem? bus.netdevs i ≡ some (some priv)
    → contains i bus.send_reply_list ≡ false
    → priv.handle ≢ other
    → Ends
        (λ _ _ t'. queue_runs running other t' ≡ queue_runs running other t)
        (canguru_start_xmit i skb k bus t)
unfolding canguru_start_xmit
canguru_start_xmit-other_queues k bus t i other running skb priv kernel valid found unlinked
      differ =
    let r = k.reply t (can_dropped_invalid_skb skb) in
    let stopped =
      done (netif_stop_queue priv.handle) ∷ answered (can_dropped_invalid_skb skb) r ∷ t in
    let (err, t', runs, o) = send_skb-runs k bus stopped priv skb kernel valid in
    ground (arith, found, unlinked, runs, o.others)
