-- ===== src/Exchange/Invariant.antt =====
-- The invariant of the exchange, and what each kind of step needs to keep it.
use can_guru.Base.{
  ℕ, ◌≡◌, ◌≢◌, sym, ap, ◌∙◌, subst, inl, inr, Bool, true, false, ℤ, Option, some, List, [], ◌∷◌,
  ◌++◌, get_elem?, All, All-append,
}
use can_guru.Kernel.Types.{Skb}
use can_guru.Kernel.{Kernel, IsKernel}
use can_guru.Kernel.Ledger.{queue_runs}
use can_guru.State.{NetDev, Bus, Stats}
use can_guru.Bus.{contains}
use can_guru.Bus.Channels.{keys, get_elem?-keys, keys-store, answered_bus}
use can_guru.Bus.Transmission.{XmitEnd}
use can_guru.Exchange.{System, waits, Joins}
use can_guru.Exchange.Waiting.{IsOnce, append-IsOnce, IsPort, IsStopped, other_queues-IsStopped}

-- The channels stay the ones that they were; those that wait are stopped, and each waits once.
pub record IsExchange (chans : List (Option (ℕ × Bool))) (running : Bool) (s : System)
    : Type 0 where
  pub same : keys s.device.can_bus.netdevs ≡ chans
  pub stopped : All (IsStopped chans running s.trace) (waits s)
  pub once : IsOnce (waits s)

module _ (k : Kernel) (kernel : IsKernel k) (running : Bool) (chans : List (Option (ℕ × Bool)))
    (port : IsPort chans) where
  module _ (s s' : System) (inv : IsExchange chans running s) where
    -- The list is as it was, and its channels are still stopped.
    pub unchanged :
        s'.device.can_bus ≡ s.device.can_bus
        → All (IsStopped chans running s'.trace) (waits s)
        → IsExchange chans running s' × (waits s' ≡ waits s)
    unchanged e stopped = (
      record {
        same = ap (λ (b : Bus). keys b.netdevs) e ∙ inv.same;
        stopped =
            subst (λ (b : Bus). All (IsStopped chans running s'.trace) b.send_reply_list) (sym e)
              stopped;
        once = subst (λ (b : Bus). IsOnce b.send_reply_list) (sym e) inv.once;
      },
      ap (λ (b : Bus). b.send_reply_list) e,
    )

    -- A stopped channel has joined the list.
    pub joined :
        (i : ℕ)
        → s'.device.can_bus ≡ record s.device.can_bus { send_reply_list = waits s ++ (i ∷ []) }
        → contains i (waits s) ≡ false
        → IsStopped chans running s'.trace i
        → All (IsStopped chans running s'.trace) (waits s)
        → IsExchange chans running s' × (waits s' ≡ waits s ++ (i ∷ []))
    joined i e away own stopped = (
      record {
        same = ap (λ (b : Bus). keys b.netdevs) e ∙ inv.same;
        stopped =
            subst (λ (b : Bus). All (IsStopped chans running s'.trace) b.send_reply_list) (sym e)
              (All-append (IsStopped chans running s'.trace) (waits s) (i ∷ []) stopped (own, tt));
        once =
            subst (λ (b : Bus). IsOnce b.send_reply_list) (sym e)
              (append-IsOnce i (waits s) away inv.once);
      },
      ap (λ (b : Bus). b.send_reply_list) e,
    )

    -- Where the channel of a net device is.
    pub at_keys :
        (i : ℕ) (priv : NetDev)
        → get_elem? s.device.can_bus.netdevs i ≡ some (some priv)
        → priv.has_reply_callback ≡ true
        → get_elem? chans i ≡ some (some (priv.handle, true))
    at_keys i priv found has =
        subst (λ c. get_elem? c i ≡ some (some (priv.handle, true))) inv.same
          (get_elem?-keys s.device.can_bus.netdevs i priv found
            ∙ ap (λ (b : Bool). some (some (priv.handle, b))) has)

    pub transmitted :
        (i : ℕ) (skb : Skb) (command : List ℕ) (priv : NetDev) (err : ℤ)
        → get_elem? chans i ≡ some (some (priv.handle, true))
        → contains i (waits s) ≡ false
        → XmitEnd k priv.handle command i running skb s.device.can_bus s.trace err s'.device.can_bus
            s'.trace
        → ((other : ℕ)
            → priv.handle ≢ other
            → queue_runs running other s'.trace ≡ queue_runs running other s.trace)
        → IsExchange chans running s' × Joins i (waits s) (waits s')
    transmitted i skb command priv err at away (_, ends) others = elim ends [
      | inl (_, same, _, _) ↦ left same
      | inr (inl (_, _, same, _, _)) ↦ left same
      | inr (inr (_, _, _, own, inr (same, _))) ↦ left same
      | inr (inr (_, _, _, own, inl (grown, _))) ↦
          (let (inv', list) = joined i grown away (priv.handle, at, own) stopped in
            (inv', inr (away, list)))
    ]
      where
        stopped : All (IsStopped chans running s'.trace) (waits s)
        stopped =
            other_queues-IsStopped chans port running s.trace s'.trace i priv.handle true (waits s)
              at away others inv.stopped

        left :
            s'.device.can_bus ≡ s.device.can_bus
            → IsExchange chans running s' × Joins i (waits s) (waits s')
        left same = let (inv', list) = unchanged same stopped in (inv', inl list)

    -- The channel that waited longest has its answer.
    pub answered :
        (reply : ℕ) (rest : List ℕ) (priv : NetDev) (stats : Stats)
        → waits s ≡ reply ∷ rest
        → get_elem? s.device.can_bus.netdevs reply ≡ some (some priv)
        → get_elem? chans reply ≡ some (some (priv.handle, true))
        → s'.device.can_bus ≡ answered_bus reply rest priv stats s.device.can_bus
        → ((other : ℕ)
            → priv.handle ≢ other
            → queue_runs running other s'.trace ≡ queue_runs running other s.trace)
        → IsExchange chans running s' × (waits s' ≡ rest)
    answered reply rest priv stats list found at e others =
        let once = subst IsOnce list inv.once in
        let stopped = subst (All (IsStopped chans running s.trace)) list inv.stopped in
        (
          record {
            same =
                ap (λ (b : Bus). keys b.netdevs) e
                ∙ keys-store s.device.can_bus.netdevs reply priv stats found
                ∙ inv.same;
            stopped =
                subst (λ (b : Bus). All (IsStopped chans running s'.trace) b.send_reply_list)
                  (sym e)
                  (other_queues-IsStopped chans port running s.trace s'.trace reply priv.handle true
                    rest at once.0 others stopped.1);
            once = subst (λ (b : Bus). IsOnce b.send_reply_list) (sym e) once.1;
          },
          ap (λ (b : Bus). b.send_reply_list) e,
        )
