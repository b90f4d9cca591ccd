-- ===== src/CanTransmit/Relinked.antt =====
-- canguru_start_xmit on a channel whose reply is still on the list.
use can_guru.Base.{
  ℕ, suc, ◌≡◌, ◌⊎◌, ℤ, pos, is_zero, if◌then◌else◌, true, false, some, List, [], ◌∷◌, get_elem?,
  arith,
}
use can_guru.Kernel.Types.{
  Event, Skb, answered, done, can_dropped_invalid_skb, can_put_echo_skb, netif_stop_queue,
}
use can_guru.Kernel.{Kernel, IsKernel, Res, Ends, fault, list_corrupt}
use can_guru.Kernel.Ledger.{refusals, aside}
use can_guru.State.{NetDev, Bus}
use can_guru.Bus.{contains}
use can_guru.CanTransmit.{canguru_start_xmit}
use can_guru.CanTransmit.Branches.{IsSkb, send_skb-runs}

-- The echo buffers that were refused.
abbrev pub echo_refusals : List Event → ℕ
echo_refusals [] = 0
echo_refusals (answered (can_put_echo_skb dev skb len) r ∷ t) =
    if is_zero r then echo_refusals t else suc (echo_refusals t)
echo_refusals (e ∷ t) = echo_refusals t

-- The frame is dropped, its command is refused or its echo is refused, or the list is corrupted.
abbrev pub RelinkEnd : Kernel → Skb → Bus → List Event → Res Bus ℤ → Type 0
RelinkEnd k skb bus t r =
    (r ≡ fault list_corrupt)
    ⊎ Ends
        (λ err bus' t'.
          (err ≡ pos 0)
          × (bus' ≡ bus)
          × ((is_zero (k.reply t (can_dropped_invalid_skb skb)) ≡ false)
              ⊎ ((refusals t' ≡ suc (refusals t))
                  ⊎ (echo_refusals (aside t') ≡ suc (echo_refusals (aside t))))))
        r

-- A transmission on a channel whose reply still waits ends without harm only if the frame is
-- dropped, its command refused or its echo buffer refused; in every other case it links the list
-- node a second time.
pub canguru_start_xmit-RelinkEnd :
    (k : Kernel) (bus : Bus) (t : List Event) (i : ℕ) (skb : Skb) (priv : NetDev)
    → IsKernel k
    → IsSkb skb
    → get_elem? bus.netdevs i ≡ some (some priv)
    → contains i bus.send_reply_list ≡ true
    → RelinkEnd k skb bus t (canguru_start_xmit i skb k bus t)
unfolding canguru_start_xmit
canguru_start_xmit-RelinkEnd k bus t i skb priv kernel valid found linked =
    let r = k.reply t (can_dropped_invalid_skb skb) in
    let stopped =
      done (netif_stop_queue priv.handle) ∷ answered (can_dropped_invalid_skb skb) r ∷ t in
    let (err, t', runs, o) = send_skb-runs k bus stopped priv skb kernel valid in
    ground (arith, found, linked, runs, o.verdict, o.others)
