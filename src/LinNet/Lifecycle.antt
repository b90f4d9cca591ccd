-- ===== src/LinNet/Lifecycle.antt =====
-- linguru-net.c: opening, closing and creating a LIN channel, on every path.
use can_guru.Base.{
  [], ℕ, suc, refl, ◌≡◌, ◌≢◌, ◌⊎◌, ℤ, pos, is_zero, Bool, true, false, List, ◌∷◌, u8, bit, drop,
  arith,
}
use can_guru.Kernel.{Kernel, IsKernel, Ends, pointer}
use can_guru.Kernel.Types.{
  Event, answered, done, log, dev_info, alloc_candev, open_candev, close_candev, netif_start_queue,
  netif_stop_queue,
}
use can_guru.Kernel.Ledger.{aside, sent, refusals, queue_runs}
use can_guru.State.{NetDev, Bus}
use can_guru.Bus.{store_netdev}
use can_guru.Bus.Registrations.{registered_last, IsCounted, StoreEnd}
use can_guru.MsgIds.{lin_msg_config_set, lin_msg_enable_set, lin_msg_reset}
use can_guru.Send.Outcome.{packet, send_struct-runs}
use can_guru.CanChannel.{set_state_active, set_state_stopped}
use can_guru.CanChannel.Creation.{candevs_taken, candevs_freed, candev_refusals}
use can_guru.CanChannel.Lifecycle.{Commanded}
use can_guru.LinWire.{lin_enable_msg_bytes, lin_conf_msg_bytes}
use can_guru.LinNet.{
  new_lin_channel, lin_conf_of, linguru_lin_reset, linguru_set_lin_conf, linguru_set_lin_enable,
  linguru_net_create, linguru_ops_open, linguru_ops_close,
}

abbrev pub lin_enable_packet : NetDev → Bool → List ℕ
lin_enable_packet priv enable =
    packet lin_msg_enable_set
      (lin_enable_msg_bytes (record { iface = priv.channel_idx; enable = enable }))

abbrev conf_packet : NetDev → List ℕ
conf_packet priv = packet lin_msg_config_set (lin_conf_msg_bytes (lin_conf_of priv))

abbrev pub LinOpenEnd : Kernel → Bool → NetDev → List Event → ℤ → NetDev → List Event → Type 0
LinOpenEnd k running priv t err priv' t' =
    let r = k.reply t (open_candev priv.handle) in
    ((is_zero r ≡ false)
      × (err ≡ r)
      × (priv' ≡ priv)
      × (sent t' ≡ sent t)
      × (queue_runs running priv.handle t' ≡ queue_runs running priv.handle t))
    ⊎ (((is_zero r ≡ true)
          × (err ≢ pos 0)
          × (priv' ≡ priv)
          × (sent t' ≡ sent t)
          × (refusals t' ≡ suc (refusals t))
          × (aside t' ≡ answered (open_candev priv.handle) r ∷ aside t))
        ⊎ ((is_zero r ≡ true)
            × (err ≡ pos 0)
            × (priv' ≡ set_state_active priv)
            × (queue_runs running priv.handle t' ≡ true)
            × ((sent t' ≡ lin_enable_packet priv true ∷ conf_packet priv ∷ sent t)
                ⊎ ((sent t' ≡ conf_packet priv ∷ sent t) × (refusals t' ≡ suc (refusals t))))))

-- Opening a LIN channel returns the error of open_candev and does nothing more; or the
-- configuration is refused, the result is an error, and the channel is not closed again; or the
-- configuration went out, the result is 0, the channel is in the error-active state and its queue
-- runs, also where the enable command that follows is refused.
pub linguru_ops_open-LinOpenEnd :
    (k : Kernel) (priv : NetDev) (t : List Event) (running : Bool)
    → IsKernel k
    → Ends (LinOpenEnd k running priv t) (linguru_ops_open k priv t)
unfolding linguru_ops_open linguru_set_lin_conf linguru_set_lin_enable lin_enable_msg_bytes
    lin_conf_msg_bytes
linguru_ops_open-LinOpenEnd k priv t running kernel =
    let opened = answered (open_candev priv.handle) (k.reply t (open_candev priv.handle)) ∷ t in
    let (e1, t1, run1, o1) =
      send_struct-runs k priv opened lin_msg_config_set (lin_conf_msg_bytes (lin_conf_of priv)) 6
        kernel (omega arith) (omega arith) refl in
    let started =
      done (log dev_info) ∷ done (netif_start_queue priv.handle) ∷ done (log dev_info) ∷ t1 in
    let (e2, t2, run2, o2) =
      send_struct-runs k (set_state_active priv) started lin_msg_enable_set
        (u8 priv.channel_idx ∷ bit true ∷ []) 2 kernel (omega arith) (omega arith) refl in
    ground (arith, run1, o1.verdict, o1.others, run2, o2.verdict, o2.others)

abbrev pub LinCloseEnd : Bool → NetDev → List Event → ℤ → NetDev → List Event → Type 0
LinCloseEnd running priv t err priv' t' =
    (err ≡ pos 0)
    × (priv' ≡ set_state_stopped priv)
    × (queue_runs running priv.handle t' ≡ false)
    × (aside t' ≡ done (close_candev priv.handle) ∷ done (netif_stop_queue priv.handle) ∷ aside t)
    × Commanded (lin_enable_packet priv false) t t'

-- Closing a LIN channel always returns 0: the channel is in the stopped state, its queue is
-- stopped, it is closed, and the disable command went out or was refused.
pub linguru_ops_close-LinCloseEnd :
    (k : Kernel) (priv : NetDev) (t : List Event) (running : Bool)
    → IsKernel k
    → Ends (LinCloseEnd running priv t) (linguru_ops_close k priv t)
unfolding linguru_ops_close linguru_set_lin_enable lin_enable_msg_bytes
linguru_ops_close-LinCloseEnd k priv t running kernel =
    let (err, t', runs, o) =
      send_struct-runs k priv (done (log dev_info) ∷ t) lin_msg_enable_set
        (u8 priv.channel_idx ∷ bit false ∷ []) 2 kernel (omega arith) (omega arith) refl in
    ground (arith, runs, o.verdict, o.others)

-- What is stored of a LIN channel that was registered.
abbrev pub named_lin_channel : ℕ → ℕ → NetDev
named_lin_channel handle idx =
    let fresh = new_lin_channel handle idx in
    record fresh { name = b'l' ∷ b'i' ∷ b'n' ∷ drop 3 fresh.name; iff_echo = true }

abbrev pub LinCreateEnd : ℕ → ℕ → Bus → List Event → ℤ → Bus → List Event → Type 0
LinCreateEnd handle idx bus t err bus' t' =
    let reset = packet lin_msg_reset (u8 idx ∷ []) in
    ((handle ≡ 0)
      × (err ≢ pos 0)
      × (bus' ≡ bus)
      × (sent t' ≡ sent t)
      × IsCounted 0 0 t t'
      × (candevs_taken (aside t') ≡ candevs_taken (aside t)))
    ⊎ (((handle ≢ 0)
          × (err ≡ pos 0)
          × (bus' ≡ store_netdev idx (named_lin_channel handle idx) bus)
          × (registered_last handle t' ≡ true)
          × IsCounted 1 0 t t'
          × (sent t' ≡ reset ∷ sent t)
          × (candevs_taken (aside t') ≡ suc (candevs_taken (aside t))))
        ⊎ ((handle ≢ 0)
            × (err ≢ pos 0)
            × (bus' ≡ bus)
            × ((refusals t' ≡ suc (refusals t))
                ⊎ (candev_refusals (aside t') ≡ suc (candev_refusals (aside t))))
            × (candevs_taken (aside t') ≡ suc (candevs_taken (aside t)))
            × IsCounted 0 0 t t'
            × (candevs_freed (aside t') ≡ candevs_freed (aside t))))

-- A LIN channel is created by a reset, and then registered, and stored with a name that starts with "lin".
-- Without a net device nothing is done. Where the reset or the registration is refused, the
-- result is an error and the bus is as before, and the net device is not given back.
pub linguru_net_create-LinCreateEnd :
    (k : Kernel) (bus : Bus) (t : List Event) (idx : ℕ)
    → IsKernel k
    → Ends
        (LinCreateEnd (pointer (k.reply t alloc_candev)) idx bus t)
        (linguru_net_create idx k bus t)
unfolding linguru_net_create linguru_lin_reset
linguru_net_create-LinCreateEnd k bus t idx kernel =
    let t1 = answered alloc_candev (k.reply t alloc_candev) ∷ t in
    let (e1, t2, run1, o1) =
      send_struct-runs k bus t1 lin_msg_reset (u8 idx ∷ []) 1 kernel (omega arith) (omega arith)
        refl in
    ground (arith, run1, o1.verdict, o1.others)

pub linguru_net_create-StoreEnd :
    (k : Kernel) (idx : ℕ) (bus : Bus) (t : List Event)
    → IsKernel k
    → Ends
        (λ _ bus' t'.
          StoreEnd (named_lin_channel (pointer (k.reply t alloc_candev)) idx) idx bus t bus' t')
        (linguru_net_create idx k bus t)
unfolding linguru_net_create linguru_lin_reset
linguru_net_create-StoreEnd k idx bus t kernel =
    let t1 = answered alloc_candev (k.reply t alloc_candev) ∷ t in
    let (e1, t2, run1, o1) =
      send_struct-runs k bus t1 lin_msg_reset (u8 idx ∷ []) 1 kernel (omega arith) (omega arith)
        refl in
    ground (arith, run1, o1.others)
