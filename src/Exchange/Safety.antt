-- ===== src/Exchange/Safety.antt =====
-- What holds of the exchange in every order of its steps.
use can_guru.Base.{ℕ, ◌≡◌, refl, sym, subst, Bool, true, some, [], get_elem?, All}
use can_guru.Kernel.{Kernel, IsKernel, Ends}
use can_guru.Kernel.Types.{Skb}
use can_guru.Kernel.Ledger.{queue_runs}
use can_guru.State.{NetDev}
use can_guru.Bus.Channels.{keys}
use can_guru.Bus.Transmission.{XmitEnd}
use can_guru.CanTransmit.{canguru_start_xmit}
use can_guru.CanTransmit.Branches.{IsSkb, skb_packet, canguru_start_xmit-XmitEnd}
use can_guru.Exchange.{System, waits, Step, transmit, answer, receive, Promises, Reach, here, next}
use can_guru.Exchange.Waiting.{IsPort, IsOnce, IsStopped, running-not_waiting}
use can_guru.Exchange.Invariant.{IsExchange, at_keys}
use can_guru.Exchange.Steps.{transmit-IsExchange, answer-IsExchange, receive-IsExchange}

module _ (k : Kernel) (running : Bool) (start : System) (kernel : IsKernel k)
    (port : IsPort (keys start.device.can_bus.netdevs)) (nobody : waits start ≡ []) where
  step-keeps :
      (s s' : System) (step : Step k running s s')
      → IsExchange (keys start.device.can_bus.netdevs) running s
      → IsExchange (keys start.device.can_bus.netdevs) running s'
        × Promises k running step (waits s) (waits s')
  step-keeps s s' (transmit i skb priv err valid found has runs e) inv =
      transmit-IsExchange k kernel running (keys start.device.can_bus.netdevs) port s s' i skb priv
        err inv valid found has runs e
  step-keeps s s' (answer status bytes e) inv =
      answer-IsExchange k kernel running (keys start.device.can_bus.netdevs) port s s' status bytes
        inv e
  step-keeps s s' (receive bytes e) inv =
      receive-IsExchange k kernel running (keys start.device.can_bus.netdevs) port s s' bytes inv e

  start-IsExchange : IsExchange (keys start.device.can_bus.netdevs) running start
  start-IsExchange = record {
    same = refl;
    stopped =
        subst (All (IsStopped (keys start.device.can_bus.netdevs) running start.trace)) (sym nobody)
          tt;
    once = subst IsOnce (sym nobody) tt;
  }

  -- Take a kernel whose calls behave as documented, net devices with different pointers, and a
  -- start in which no channel waits. In every state that transmissions, answers and received frames
  -- reach, the channels are those of the start, a channel that waits has a stopped queue, and no
  -- channel waits twice.
  pub reachable-IsExchange :
      (s : System)
      → Reach k running start s
      → IsExchange (keys start.device.can_bus.netdevs) running s
  reachable-IsExchange s here = start-IsExchange
  reachable-IsExchange s (next {u} path step) =
      (step-keeps u s step (reachable-IsExchange u path)).0

  -- Take a kernel whose calls behave as documented, net devices with different pointers, and a
  -- start in which no channel waits. Whatever transmissions, answers and received frames came
  -- since, in any order: when the stack transmits on a channel whose queue runs, the function
  -- returns, never links a reply twice, and ends in one of the ways of `XmitEnd`.
  pub reachable-XmitEnd :
      (s : System) (i : ℕ) (skb : Skb) (priv : NetDev)
      → Reach k running start s
      → IsSkb skb
      → get_elem? s.device.can_bus.netdevs i ≡ some (some priv)
      → priv.has_reply_callback ≡ true
      → queue_runs running priv.handle s.trace ≡ true
      → Ends
          (XmitEnd k priv.handle (skb_packet k priv skb) i running skb s.device.can_bus s.trace)
          (canguru_start_xmit i skb k s.device.can_bus s.trace)
  reachable-XmitEnd s i skb priv path valid found has runs =
      let inv = reachable-IsExchange s path in
      canguru_start_xmit-XmitEnd k s.device.can_bus s.trace i running skb priv kernel valid found (
        running-not_waiting (keys start.device.can_bus.netdevs) port running s.trace i priv.handle
          true (waits s)
          (at_keys k kernel running (keys start.device.can_bus.netdevs) port s s inv i priv found
            has)
          runs inv.stopped)

  -- Take a kernel whose calls behave as documented, net devices with different pointers, and a
  -- start in which no channel waits. In every state that transmissions, answers and received frames
  -- reach, the reply list is a queue of channels: a transmission leaves it or puts its channel,
  -- which was not in it, at the end; an answer takes the head; a received frame leaves it.
  pub reachable-Promises :
      (s s' : System) (step : Step k running s s')
      → Reach k running start s
      → Promises k running step (waits s) (waits s')
  reachable-Promises s s' step path = (step-keeps s s' step (reachable-IsExchange s path)).1
