-- ===== src/Examples/Composition.antt =====
-- Runs of the parts together: the exchange with the device, whole packets and whole transfers.
use can_guru.Base.{
  [], ◌≡◌, ◌⊎◌, refl, ℕ, zero, suc, ◌<◌, inl, inr, pos, Bool, true, false, some, List, ◌∷◌,
  replicate, length, get_elem?, All, arith,
}
use can_guru.Kernel.Types.{classic}
use can_guru.Kernel.{Ends, ok, fault}
use can_guru.Kernel.Ledger.{queue_runs}
use can_guru.State.{NetDev, Device}
use can_guru.Bus.Channels.{keys, IsBus, IsChannel}
use can_guru.Bus.Transmission.{XmitEnd}
use can_guru.Messages.{in_can}
use can_guru.Kernel.Safe.{Safe}
use can_guru.Messages.Std.{std_message}
use can_guru.Send.{guru_send_data}
use can_guru.CanWire.{can_send_msg_bytes, can_header_bytes}
use can_guru.CanNet.{canguru_can_classic_send}
use can_guru.CanTransmit.{count_reply, canguru_start_xmit, send_skb, canguru_send_callback}
use can_guru.CanTransmit.Branches.{skb_packet}
use can_guru.CanMessages.{can_send_callback}
use can_guru.LinTransfer.{linguru_start_xmit}
use can_guru.LinTransfer.Branches.{lin_packet, linguru_start_xmit-XmitEnd}
use can_guru.LinMessages.{lin_send_callback}
use can_guru.LinMessages.Answers.{HeadAnswered, lin_send_callback-answers}
use can_guru.Dispatch.{canguru_process_msg_list, canguru_read_bulk_callback}
use can_guru.Dispatch.Soundness.{IsBounded, IsDevice, canguru_process_msg_list-IsDevice}
use can_guru.Dispatch.Reading.{canguru_read_bulk_callback-IsDevice}
use can_guru.Exchange.{System, waits, Step, transmit, answer, with_message, Promises, here, next}
use can_guru.Exchange.Waiting.{IsPort}
use can_guru.Exchange.Invariant.{IsExchange}
use can_guru.Exchange.Safety.{reachable-IsExchange, reachable-XmitEnd, reachable-Promises}
use can_guru.Exchange.Drain.{IsRunning, answer_all, answer_all-drains}
use can_guru.Examples.{kernel, kernel-IsKernel, channel, bus, frame, device}

abbrev start : System
start = record { device = device; trace = [] }

start-IsPort : IsPort (keys start.device.can_bus.netdevs)
start-IsPort = record { handles = same }
  where
    same :
        (i j h : ℕ) (b c : Bool)
        → get_elem? (keys start.device.can_bus.netdevs) i ≡ some (some (h, b))
        → get_elem? (keys start.device.can_bus.netdevs) j ≡ some (some (h, c))
        → i ≡ j
    same zero zero h b c p q = refl
    same zero (suc j) h b c p q = ground (arith, q)
    same (suc i) j h b c p q = ground (arith, p)

-- The stack has sent a frame on channel 0.
sent_system : System
unfolding canguru_start_xmit send_skb canguru_can_classic_send can_send_msg_bytes can_header_bytes
    guru_send_data
sent_system = elim (in_can (canguru_start_xmit 0 (classic frame)) kernel device []) [
  | ok _ d t ↦ record { device = d; trace = t }
  | fault _ ↦ start
]

sends : Step kernel true start sent_system
unfolding sent_system canguru_start_xmit send_skb canguru_can_classic_send can_send_msg_bytes
    can_header_bytes guru_send_data
sends = transmit 0 (classic frame) channel (pos 0) (omega arith, refl) refl refl refl refl

-- The device has answered.
answered_system : System
unfolding sent_system canguru_start_xmit send_skb canguru_can_classic_send can_send_msg_bytes
    can_header_bytes guru_send_data can_send_callback canguru_send_callback
answered_system =
    elim (can_send_callback kernel (with_message (0 ∷ []) sent_system.device) sent_system.trace) [
      | ok _ d t ↦ record { device = d; trace = t }
      | fault _ ↦ start
    ]

answers : Step kernel true sent_system answered_system
unfolding sent_system answered_system canguru_start_xmit send_skb canguru_can_classic_send
    can_send_msg_bytes can_header_bytes guru_send_data can_send_callback canguru_send_callback
answers = answer 0 [] refl

reachable-IsExchange_example : IsExchange (keys start.device.can_bus.netdevs) true answered_system
reachable-IsExchange_example =
    reachable-IsExchange kernel true start kernel-IsKernel start-IsPort refl answered_system
      (next (next here sends) answers)

-- The channel has counted its frame, and its queue runs again.
abbrev counted : NetDev
counted = record channel { stats = count_reply 0 0 channel.stats }

counted_found : get_elem? answered_system.device.can_bus.netdevs 0 ≡ some (some counted)
unfolding sent_system answered_system canguru_start_xmit send_skb canguru_can_classic_send
    can_send_msg_bytes can_header_bytes guru_send_data can_send_callback canguru_send_callback
counted_found = refl

counted_runs : queue_runs true 7 answered_system.trace ≡ true
unfolding sent_system answered_system canguru_start_xmit send_skb canguru_can_classic_send
    can_send_msg_bytes can_header_bytes guru_send_data can_send_callback canguru_send_callback
counted_runs = refl

reachable-XmitEnd_example :
    Ends
      (XmitEnd kernel 7
        (skb_packet kernel counted (classic frame))
        0
        true
        (classic frame)
        answered_system.device.can_bus
        answered_system.trace)
      (canguru_start_xmit 0
        (classic frame)
        kernel
        answered_system.device.can_bus
        answered_system.trace)
reachable-XmitEnd_example =
    reachable-XmitEnd kernel true start kernel-IsKernel start-IsPort refl answered_system 0
      (classic frame) counted (next (next here sends) answers) (omega arith, refl) counted_found
      refl counted_runs

reachable-Promises_example :
    Promises kernel true answers (waits sent_system) (waits answered_system)
reachable-Promises_example =
    reachable-Promises kernel true start kernel-IsKernel start-IsPort refl sent_system
      answered_system answers (next here sends)

one_waits : 1 ≡ length (waits sent_system)
unfolding sent_system canguru_start_xmit send_skb canguru_can_classic_send can_send_msg_bytes
    can_header_bytes guru_send_data
one_waits = refl

answer_all-drains_example :
    Ends
      (λ _ d' t'.
        (d'.can_bus.send_reply_list ≡ [])
        × All (IsRunning (keys start.device.can_bus.netdevs) true t') (waits sent_system))
      (answer_all ((0, []) ∷ []) kernel sent_system.device sent_system.trace)
answer_all-drains_example =
    answer_all-drains kernel true start sent_system ((0, []) ∷ []) kernel-IsKernel start-IsPort refl
      (next here sends) one_waits

linguru_start_xmit-XmitEnd_example :
    Ends
      (XmitEnd kernel 7 (lin_packet kernel channel frame) 0 true (classic frame) bus [])
      (linguru_start_xmit 0 (classic frame) kernel bus [])
linguru_start_xmit-XmitEnd_example =
    linguru_start_xmit-XmitEnd kernel bus [] 0 true frame channel kernel-IsKernel (omega arith) refl
      refl refl

pub bus-IsBus : IsBus bus
bus-IsBus = record { channels = only; waiting = tt }
  where
    only : (i : ℕ) → i < 1 → IsChannel bus.netdevs i
    only zero h = (channel, refl)
    only (suc i) h = absurd (omega (arith, h))

-- LIN channel 0 waits, and the answer is an error.
abbrev lin_waiting : Device
lin_waiting = record device {
  lin_bus = record bus { send_reply_list = 0 ∷ [] };
  guru = record (device.guru) { curr_msg_data = some (2 ∷ []) };
}

lin_waiting-IsBus : IsBus lin_waiting.lin_bus
lin_waiting-IsBus = record { channels = bus-IsBus.channels; waiting = ((channel, refl), tt) }

lin_send_callback-answers_example :
    ((lin_waiting.lin_bus.send_reply_list ≡ [])
      × Ends (λ _ d' t'. (d' ≡ lin_waiting) × (t' ≡ [])) (lin_send_callback kernel lin_waiting []))
    ⊎ HeadAnswered kernel false 2 lin_waiting []
lin_send_callback-answers_example =
    lin_send_callback-answers kernel lin_waiting [] 2 [] false lin_waiting-IsBus refl

abbrev registered : Device
registered = record device { guru = record (device.guru) { msg_list = std_message ∷ [] } }

registered-IsDevice : IsDevice registered
registered-IsDevice = record { can_lem = bus-IsBus; lin_lem = bus-IsBus; proper = (refl, tt) }

-- The version text of the device, two bytes long.
abbrev pub version_report : List ℕ
version_report = 0x58 ∷ 0 ∷ 1 ∷ 0 ∷ 2 ∷ replicate 123 49

pub report-IsBounded : IsBounded version_report
report-IsBounded = record {
  version_fits = inr (omega arith);
  lin_fits = inl (λ e. omega (arith, e));
}

canguru_process_msg_list-IsDevice_example :
    Safe kernel
      (λ _ d' _. IsDevice d')
      (canguru_process_msg_list version_report kernel registered [])
canguru_process_msg_list-IsDevice_example =
    canguru_process_msg_list-IsDevice kernel registered [] version_report kernel-IsKernel refl
      report-IsBounded registered-IsDevice

canguru_read_bulk_callback-IsDevice_example :
    Safe kernel
      (λ _ d' _. IsDevice d')
      (canguru_read_bulk_callback 1 2 (pos 0) version_report kernel registered [])
canguru_read_bulk_callback-IsDevice_example =
    canguru_read_bulk_callback-IsDevice kernel 1 2 (pos 0) version_report registered []
      kernel-IsKernel (omega arith) (report-IsBounded, tt) registered-IsDevice
