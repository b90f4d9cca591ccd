-- ===== src/CanChannel/Reopening.antt =====
-- Closing a channel and opening it again: what becomes of a reply that waits.
use can_guru.Base.{
  ℕ, ◌≡◌, ◌≢◌, ◌⊎◌, ℤ, pos, Bool, true, false, some, List, set, length-set, get_elem?,
  get_elem?-set_self, get_elem?-lt, arith,
}
use can_guru.Kernel.{Kernel, IsKernel, M, Ends, Ends-runs, ◌>>=◌}
use can_guru.Kernel.Types.{Event}
use can_guru.Kernel.Ledger.{queue_runs}
use can_guru.State.{NetDev, Bus}
use can_guru.Bus.{at_netdev}
use can_guru.CanChannel.{set_state_active, set_state_stopped, canguru_ops_open, canguru_ops_close}
use can_guru.CanChannel.Lifecycle.{
  OpenEnd, CloseEnd, canguru_ops_open-OpenEnd, canguru_ops_close-CloseEnd,
}

-- The interface goes down and up again.
pub reopen : ℕ → M Bus ℤ
reopen i = do _ ← at_netdev i canguru_ops_close; at_netdev i canguru_ops_open

abbrev pub ReopenEnd : ℕ → NetDev → Bool → Bus → ℤ → Bus → List Event → Type 0
ReopenEnd i priv running bus err bus' t' =
    (bus'.send_reply_list ≡ bus.send_reply_list)
    × (((err ≡ pos 0)
          × (get_elem? bus'.netdevs i ≡ some (some (set_state_active priv)))
          × (queue_runs running priv.handle t' ≡ true))
        ⊎ ((err ≢ pos 0)
            × (get_elem? bus'.netdevs i ≡ some (some (set_state_stopped priv)))
            × (queue_runs running priv.handle t' ≡ false)))

-- A channel that is closed and opened again keeps the reply list as it was, also where its own
-- reply is on it. If it could be opened, its queue runs, so that the stack transmits on it.
pub reopen-ReopenEnd :
    (k : Kernel) (bus : Bus) (t : List Event) (i : ℕ) (running : Bool) (priv : NetDev)
    → IsKernel k
    → get_elem? bus.netdevs i ≡ some (some priv)
    → Ends (ReopenEnd i priv running bus) (reopen i k bus t)
unfolding reopen
reopen-ReopenEnd k bus t i running priv kernel found =
    let (_, priv1, t1, closes, (_, same, stopped, _, _)) =
      Ends-runs (CloseEnd running priv t) (canguru_ops_close k priv t)
        (canguru_ops_close-CloseEnd k priv t running kernel) in
    let (err, priv2, t2, opens, ends) =
      Ends-runs (OpenEnd k running priv1 t1) (canguru_ops_open k priv1 t1)
        (canguru_ops_open-OpenEnd k priv1 t1 running kernel) in
    let here = get_elem?-lt bus.netdevs i (some priv) found in
    ground (
      arith,
      found,
      closes,
      same,
      stopped,
      opens,
      ends,
      get_elem?-set_self bus.netdevs i (some priv1) here,
      get_elem?-set_self (set bus.netdevs i (some priv1)) i (some priv2)
          (omega (arith, here, length-set bus.netdevs i (some priv1))),
    )
