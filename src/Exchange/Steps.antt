-- ===== src/Exchange/Steps.antt =====
-- Every step of the exchange keeps its invariant.
use can_guru.Base.{
  [], ℕ, ◌≡◌, refl, sym, ap, ◌∙◌, subst, Bool, true, false, ℤ, Option, some, List, ◌∷◌, drop,
  get_elem?, All, All-map,
}
use can_guru.Kernel.Types.{Event, Skb, can_get_echo_skb}
use can_guru.Kernel.{Kernel, IsKernel, Ends, Ends-at, Ends-zoom, Returns-at, ok, pointer}
use can_guru.Kernel.Ledger.{queue_runs}
use can_guru.State.{NetDev, Bus, Device}
use can_guru.Bus.{contains}
use can_guru.Bus.Transmission.{XmitEnd}
use can_guru.Messages.{in_can}
use can_guru.CanTransmit.{canguru_start_xmit, count_reply}
use can_guru.CanTransmit.Branches.{
  IsSkb, skb_packet, canguru_start_xmit-XmitEnd, canguru_start_xmit-other_queues,
}
use can_guru.CanReceive.Quiet.{KeepsQueues}
use can_guru.CanMessages.{can_send_callback, canguru_recv_callback}
use can_guru.CanMessages.Queues.{canguru_recv_callback-KeepsQueues}
use can_guru.CanMessages.Answers.{
  can_send_callback-runs, can_send_callback-other_queues, can_send_callback-nobody,
}
use can_guru.Exchange.{System, waits, with_message, Joins}
use can_guru.Exchange.Waiting.{IsOnce, IsPort, IsStopped, keys-get_elem?, running-not_waiting}
use can_guru.Exchange.Invariant.{IsExchange, unchanged, at_keys, transmitted, answered}

module _ (k : Kernel) (kernel : IsKernel k) (running : Bool) (chans : List (Option (ℕ × Bool)))
    (port : IsPort chans) where
  -- The whole step of the stack.
  pub transmit-IsExchange :
      (s s' : System) (i : ℕ) (skb : Skb) (priv : NetDev) (err : ℤ)
      → IsExchange chans running s
      → IsSkb skb
      → get_elem? s.device.can_bus.netdevs i ≡ some (some priv)
      → priv.has_reply_callback ≡ true
      → queue_runs running priv.handle s.trace ≡ true
      → in_can (canguru_start_xmit i skb) k s.device s.trace ≡ ok err s'.device s'.trace
      → IsExchange chans running s' × Joins i (waits s) (waits s')
  transmit-IsExchange s s' i skb priv err inv valid found has runs e =
      transmitted k kernel running chans port s s' inv i skb (skb_packet k priv skb) priv err at
        away
        (whole
          (XmitEnd k priv.handle (skb_packet k priv skb) i running skb s.device.can_bus s.trace)
          (canguru_start_xmit-XmitEnd k s.device.can_bus s.trace i running skb priv kernel valid
            found away))
        (λ other differ.
          whole (λ _ _ t'. queue_runs running other t' ≡ queue_runs running other s.trace)
            (canguru_start_xmit-other_queues k s.device.can_bus s.trace i other running skb priv
              kernel valid found away differ))
    where
      at : get_elem? chans i ≡ some (some (priv.handle, true))
      at = at_keys k kernel running chans port s s' inv i priv found has

      away : contains i (waits s) ≡ false
      away =
          running-not_waiting chans port running s.trace i priv.handle true (waits s) at runs
            inv.stopped

      whole :
          (P : ℤ → Bus → List Event → Type 0)
          → Ends P (canguru_start_xmit i skb k s.device.can_bus s.trace)
          → P err s'.device.can_bus s'.trace
      whole P h =
          Ends-at (λ a d t. P a d.can_bus t) (in_can (canguru_start_xmit i skb) k s.device s.trace)
            err s'.device s'.trace e
            (Ends-zoom P (λ a d t. P a d.can_bus t) (λ d. d.can_bus)
              (λ b d. record d { can_bus = b }) (canguru_start_xmit i skb) k s.device s.trace
              (λ _ _ _ p. p) h)

  pub answer-IsExchange :
      (s s' : System) (status : ℕ) (bytes : List ℕ)
      → IsExchange chans running s
      → can_send_callback k (with_message (status ∷ bytes) s.device) s.trace
        ≡ ok tt s'.device s'.trace
      → IsExchange chans running s' × (waits s' ≡ drop 1 (waits s))
  answer-IsExchange s s' status bytes inv e = by_list (waits s) refl
    where
      d : Device
      d = with_message (status ∷ bytes) s.device

      by_list : (l : List ℕ) → waits s ≡ l → IsExchange chans running s' × (waits s' ≡ drop 1 l)
      by_list [] list =
          let (same, quiet) =
            Ends-at (λ _ d' t'. (d' ≡ d) × (t' ≡ s.trace)) (can_send_callback k d s.trace) tt
              s'.device s'.trace e (can_send_callback-nobody k d s.trace list) in
          let (inv', kept) =
            unchanged k kernel running chans port s s' inv (ap (λ (x : Device). x.can_bus) same)
              (subst (λ t. All (IsStopped chans running t) (waits s)) (sym quiet) inv.stopped) in
          (inv', kept ∙ list)
      by_list (reply ∷ rest) list =
          let (h, there, _) = (subst (All (IsStopped chans running s.trace)) list inv.stopped).0 in
          let (priv, found, handle, has) =
            keys-get_elem? s.device.can_bus.netdevs reply h true
              (subst (λ c. get_elem? c reply ≡ some (some (h, true))) (sym inv.same) there) in
          answered k kernel running chans port s s' inv reply rest priv
            (count_reply status (pointer (k.reply s.trace (can_get_echo_skb priv.handle)))
              priv.stats)
            list found (at_keys k kernel running chans port s s' inv reply priv found has)
            (ap (λ (x : Device). x.can_bus)
              (Ends-at _ (can_send_callback k d s.trace) tt s'.device s'.trace e (
                can_send_callback-runs k d s.trace reply status rest bytes priv running list found
                  has refl)).0)
            (λ other differ.
              Ends-at (λ _ _ t'. queue_runs running other t' ≡ queue_runs running other s.trace)
                (can_send_callback k d s.trace) tt s'.device s'.trace e
                (can_send_callback-other_queues k d s.trace reply status other rest bytes priv
                  running list found has refl differ))

  pub receive-IsExchange :
      (s s' : System) (bytes : List ℕ)
      → IsExchange chans running s
      → canguru_recv_callback k (with_message bytes s.device) s.trace ≡ ok tt s'.device s'.trace
      → IsExchange chans running s' × (waits s' ≡ waits s)
  receive-IsExchange s s' bytes inv e = unchanged_list (kept 0)
    where
      kept :
          (dev : ℕ)
          → KeepsQueues k running dev s.device.can_bus s.trace tt s'.device.can_bus s'.trace
      kept dev =
          Returns-at (λ a d' t'. KeepsQueues k running dev s.device.can_bus s.trace a d'.can_bus t')
            (canguru_recv_callback k (with_message bytes s.device) s.trace) tt s'.device s'.trace e
            (canguru_recv_callback-KeepsQueues k running dev (with_message bytes s.device) s.trace
              bytes refl)

      unchanged_list :
          KeepsQueues k running 0 s.device.can_bus s.trace tt s'.device.can_bus s'.trace
          → IsExchange chans running s' × (waits s' ≡ waits s)
      unchanged_list (same, list, _) = (
        record {
          same = same ∙ inv.same;
          stopped = subst (All (IsStopped chans running s'.trace)) (sym list) (
              All-map (IsStopped chans running s.trace) (IsStopped chans running s'.trace)
                (λ i (h, there, stopped). (h, there, (kept h).2 ∙ stopped)) (waits s) inv.stopped);
          once = subst IsOnce (sym list) inv.once;
        },
        list,
      )
