-- ===== src/Exchange.antt =====
-- The exchange between the network stack and the device over time: the stack calls
-- canguru_start_xmit (canguru-net.c), the device answers by canguru_send_callback and reports
-- frames by canguru_recv_callback (canguru-msg-net.c), in any order.
--
-- Every step is a whole run of the driver's function. The stack transmits on a net device only
-- while its queue runs, as the documentation of ndo_start_xmit says.
pub mod Waiting
pub mod Invariant
pub mod Steps
pub mod Safety
pub mod Drain
use can_guru.Base.{ℕ, ◌≡◌, ℤ, Bool, true, false, ◌⊎◌, some, List, [], ◌∷◌, ◌++◌, drop, get_elem?}
use can_guru.Kernel.{Kernel, ok}
use can_guru.Kernel.Types.{Event, Skb}
use can_guru.Kernel.Ledger.{queue_runs}
use can_guru.State.{Device, NetDev}
use can_guru.Bus.{contains}
use can_guru.Messages.{in_can}
use can_guru.CanTransmit.{canguru_start_xmit}
use can_guru.CanTransmit.Branches.{IsSkb}
use can_guru.CanMessages.{can_send_callback, canguru_recv_callback}

-- The driver's state and the record of its calls.
pub record System : Type 0 where
  pub device : Device
  pub trace : List Event

-- The channels that wait for an answer.
abbrev pub waits : System → List ℕ
waits s = s.device.can_bus.send_reply_list

-- The packet whose data the handlers read.
abbrev pub with_message : List ℕ → Device → Device
with_message bytes d = record d { guru = record d.guru { curr_msg_data = some bytes } }

-- A transmission on channel `i` leaves the list, or puts the channel at its end.
abbrev pub Joins : ℕ → List ℕ → List ℕ → Type 0
Joins i waits waits' =
    (waits' ≡ waits) ⊎ ((contains i waits ≡ false) × (waits' ≡ waits ++ (i ∷ [])))

module _ (k : Kernel) (running : Bool) where
  pub data Step (s s' : System) : Type 0 where
    transmit :
        (i : ℕ) (skb : Skb) (priv : NetDev) (err : ℤ)
        → IsSkb skb
        → get_elem? s.device.can_bus.netdevs i ≡ some (some priv)
        → priv.has_reply_callback ≡ true
        → queue_runs running priv.handle s.trace ≡ true
        → in_can (canguru_start_xmit i skb) k s.device s.trace ≡ ok err s'.device s'.trace
        → Step s s'
    answer :
        (status : ℕ) (bytes : List ℕ)
        → can_send_callback k (with_message (status ∷ bytes) s.device) s.trace
          ≡ ok tt s'.device s'.trace
        → Step s s'
    receive :
        (bytes : List ℕ)
        → canguru_recv_callback k (with_message bytes s.device) s.trace ≡ ok tt s'.device s'.trace
        → Step s s'

  -- What a step promises of the list of the channels that wait: a transmission leaves it or puts
  -- the channel at its end, an answer takes its head, and a received frame leaves it.
  abbrev pub Promises : {s s' : System} → Step s s' → List ℕ → List ℕ → Type 0
  Promises (transmit i skb priv err ok_skb found has runs e) waits waits' = Joins i waits waits'
  Promises (answer status bytes e) waits waits' = waits' ≡ drop 1 waits
  Promises (receive bytes e) waits waits' = waits' ≡ waits

  pub data Reach (s : System) : System → Type 0 where
    here : Reach s s
    next : {u v : System} → Reach s u → Step u v → Reach s v
