-- ===== src/CanChannel/Creation.antt =====
-- canguru_net_create on every path.
use can_guru.Base.{
  [], ℕ, suc, refl, ◌≡◌, ◌≢◌, ◌⊎◌, ℤ, pos, is_zero, ◌==◌, true, false, if◌then◌else◌, List, ◌∷◌, u8,
  arith,
}
use can_guru.Kernel.{Kernel, IsKernel, Ends, pointer}
use can_guru.Kernel.Types.{Event, answered, done, alloc_candev, register_candev, free_candev}
use can_guru.Kernel.Ledger.{aside, sent, refusals}
use can_guru.State.{Bus}
use can_guru.Bus.{store_netdev}
use can_guru.Bus.Registrations.{registered_last, IsCounted, StoreEnd}
use can_guru.MsgIds.{can_msg_reset, can_msg_global_filter_set}
use can_guru.Send.Outcome.{packet, send_struct-runs}
use can_guru.CanWire.{can_global_filter_msg_bytes}
use can_guru.CanWire.Layout.{length-can_global_filter_msg_bytes}
use can_guru.CanNet.{canguru_can_reset, canguru_set_global_filter}
use can_guru.CanChannel.{new_channel, canguru_net_create}

-- Net devices taken and given back, and the refusals to register one.
abbrev pub candevs_taken : List Event → ℕ
candevs_taken [] = 0
candevs_taken (answered alloc_candev r ∷ t) =
    if pointer r == 0 then candevs_taken t else suc (candevs_taken t)
candevs_taken (e ∷ t) = candevs_taken t

abbrev pub candevs_freed : List Event → ℕ
candevs_freed [] = 0
candevs_freed (done (free_candev dev) ∷ t) = suc (candevs_freed t)
candevs_freed (e ∷ t) = candevs_freed t

abbrev pub candev_refusals : List Event → ℕ
candev_refusals [] = 0
candev_refusals (answered (register_candev dev) r ∷ t) =
    if is_zero r then candev_refusals t else suc (candev_refusals t)
candev_refusals (e ∷ t) = candev_refusals t

-- The filter that lets every frame through.
abbrev pub accept_all : ℕ → List ℕ
accept_all idx = can_global_filter_msg_bytes (record {
  iface = idx;
  std_default_allow = true;
  ext_default_allow = true;
  std_remote_reject = false;
  ext_remote_reject = false;
})

-- What is left of a new channel with number `idx`, at the pointer `handle`.
abbrev pub CreateEnd : ℕ → ℕ → Bus → List Event → ℤ → Bus → List Event → Type 0
CreateEnd handle idx bus t err bus' t' =
    let reset = packet can_msg_reset (u8 idx ∷ []) in
    let filter = packet can_msg_global_filter_set (accept_all idx) in
    ((handle ≡ 0)
      × (err ≢ pos 0)
      × (bus' ≡ bus)
      × (sent t' ≡ sent t)
      × IsCounted 0 0 t t'
      × (candevs_taken (aside t') ≡ candevs_taken (aside t)))
    ⊎ (((handle ≢ 0)
          × (err ≡ pos 0)
          × (bus' ≡ store_netdev idx (record (new_channel handle idx) { iff_echo = true }) bus)
          × (registered_last handle t' ≡ true)
          × IsCounted 1 0 t t'
          × (sent t' ≡ filter ∷ reset ∷ sent t)
          × (candevs_taken (aside t') ≡ suc (candevs_taken (aside t))))
        ⊎ ((handle ≢ 0)
            × (err ≢ pos 0)
            × (bus' ≡ bus)
            × ((refusals t' ≡ suc (refusals t))
                ⊎ (candev_refusals (aside t') ≡ suc (candev_refusals (aside t))))
            × (candevs_taken (aside t') ≡ suc (candevs_taken (aside t)))
            × IsCounted 0 0 t t'
            × (candevs_freed (aside t') ≡ candevs_freed (aside t))))

-- A channel is created by a reset and a filter that lets every frame through, in that order, and
-- only then registered and stored. Without a net device nothing is done. Where a later step is
-- refused, the result is an error and the bus is as before, and the net device is not given back.
pub canguru_net_create-CreateEnd :
    (k : Kernel) (bus : Bus) (t : List Event) (idx : ℕ)
    → IsKernel k
    → Ends (CreateEnd (pointer (k.reply t alloc_candev)) idx bus t) (canguru_net_create idx k bus t)
unfolding canguru_net_create canguru_can_reset canguru_set_global_filter
canguru_net_create-CreateEnd k bus t idx kernel =
    let t1 = answered alloc_candev (k.reply t alloc_candev) ∷ t in
    let (e1, t2, run1, o1) =
      send_struct-runs k bus t1 can_msg_reset (u8 idx ∷ []) 1 kernel (omega arith) (omega arith)
        refl in
    let (e2, t3, run2, o2) =
      send_struct-runs k bus t2 can_msg_global_filter_set (accept_all idx) 5 kernel (omega arith)
        (omega arith) (length-can_global_filter_msg_bytes _) in
    ground (arith, run1, o1.verdict, o1.others, run2, o2.verdict, o2.others)

pub canguru_net_create-StoreEnd :
    (k : Kernel) (idx : ℕ) (bus : Bus) (t : List Event)
    → IsKernel k
    → Ends
        (λ _ bus' t'.
          StoreEnd
            (record (new_channel (pointer (k.reply t alloc_candev)) idx) { iff_echo = true })
            idx
            bus
            t
            bus'
            t')
        (canguru_net_create idx k bus t)
unfolding canguru_net_create canguru_can_reset canguru_set_global_filter
canguru_net_create-StoreEnd k idx bus t kernel =
    let t1 = answered alloc_candev (k.reply t alloc_candev) ∷ t in
    let (e1, t2, run1, o1) =
      send_struct-runs k bus t1 can_msg_reset (u8 idx ∷ []) 1 kernel (omega arith) (omega arith)
        refl in
    let (e2, t3, run2, o2) =
      send_struct-runs k bus t2 can_msg_global_filter_set (accept_all idx) 5 kernel (omega arith)
        (omega arith) (length-can_global_filter_msg_bytes _) in
    ground (arith, run1, o1.others, run2, o2.others)
