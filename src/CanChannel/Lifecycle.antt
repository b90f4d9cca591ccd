-- ===== src/CanChannel/Lifecycle.antt =====
-- canguru_ops_open and canguru_ops_close on every path.
use can_guru.Base.{
  ℕ, suc, refl, ◌≡◌, ◌⊎◌, ℤ, pos, is_zero, Bool, true, false, List, [], ◌∷◌, u8, bit, arith,
}
use can_guru.Kernel.{Kernel, IsKernel, Ends}
use can_guru.Kernel.Types.{
  Event, answered, done, open_candev, close_candev, netif_start_queue, netif_stop_queue,
}
use can_guru.Kernel.Ledger.{aside, sent, refusals, queue_runs}
use can_guru.State.{NetDev}
use can_guru.MsgIds.{can_msg_enable_set}
use can_guru.Send.Outcome.{packet, send_struct-runs}
use can_guru.CanWire.{can_enable_msg_bytes}
use can_guru.CanNet.{canguru_set_can_enable}
use can_guru.CanChannel.{set_state_active, set_state_stopped, canguru_ops_open, canguru_ops_close}

-- The command that switches the channel on or off went out, or the USB core refused it.
abbrev pub Commanded : List ℕ → List Event → List Event → Type 0
Commanded command t t' =
    (sent t' ≡ command ∷ sent t) ⊎ ((sent t' ≡ sent t) × (refusals t' ≡ suc (refusals t)))

abbrev enable_packet : NetDev → Bool → List ℕ
enable_packet priv enable =
    packet can_msg_enable_set
      (can_enable_msg_bytes (record { iface = priv.channel_idx; enable = enable }))

abbrev pub OpenEnd : Kernel → Bool → NetDev → List Event → ℤ → NetDev → List Event → Type 0
OpenEnd k running priv t err priv' t' =
    let r = k.reply t (open_candev priv.handle) in
    ((is_zero r ≡ true)
      × (err ≡ pos 0)
      × (priv' ≡ set_state_active priv)
      × (queue_runs running priv.handle t' ≡ true)
      × Commanded (enable_packet priv true) t t')
    ⊎ ((is_zero r ≡ false)
        × (err ≡ r)
        × (priv' ≡ priv)
        × (sent t' ≡ sent t)
        × (queue_runs running priv.handle t' ≡ queue_runs running priv.handle t))

-- Opening a channel returns the error of open_candev and does nothing more, or it returns 0, the
-- channel is in the error-active state and its queue runs, also where the enable command is
-- refused.
pub canguru_ops_open-OpenEnd :
    (k : Kernel) (priv : NetDev) (t : List Event) (running : Bool)
    → IsKernel k
    → Ends (OpenEnd k running priv t) (canguru_ops_open k priv t)
unfolding canguru_ops_open canguru_set_can_enable can_enable_msg_bytes
canguru_ops_open-OpenEnd k priv t running kernel =
    let started =
      done (netif_start_queue priv.handle)
      ∷ answered (open_candev priv.handle) (k.reply t (open_candev priv.handle))
      ∷ t in
    let (err, t', runs, o) =
      send_struct-runs k (set_state_active priv) started can_msg_enable_set
        (u8 priv.channel_idx ∷ bit true ∷ []) 2 kernel (omega arith) (omega arith) refl in
    ground (arith, runs, o.verdict, o.others)

abbrev pub CloseEnd : Bool → NetDev → List Event → ℤ → NetDev → List Event → Type 0
CloseEnd running priv t err priv' t' =
    (err ≡ pos 0)
    × (priv' ≡ set_state_stopped priv)
    × (queue_runs running priv.handle t' ≡ false)
    × (aside t' ≡ done (close_candev priv.handle) ∷ done (netif_stop_queue priv.handle) ∷ aside t)
    × Commanded (enable_packet priv false) t t'

-- Closing a channel always returns 0: the channel is in the stopped state, its queue is stopped, it
-- is closed, and the disable command went out or was refused.
pub canguru_ops_close-CloseEnd :
    (k : Kernel) (priv : NetDev) (t : List Event) (running : Bool)
    → IsKernel k
    → Ends (CloseEnd running priv t) (canguru_ops_close k priv t)
unfolding canguru_ops_close canguru_set_can_enable can_enable_msg_bytes
canguru_ops_close-CloseEnd k priv t running kernel =
    let (err, t', runs, o) =
      send_struct-runs k priv t can_msg_enable_set (u8 priv.channel_idx ∷ bit false ∷ []) 2 kernel
        (omega arith) (omega arith) refl in
    ground (arith, runs, o.verdict, o.others)
