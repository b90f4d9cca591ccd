-- ===== src/Kernel/Ledger.antt =====
-- What a record of kernel calls says: the commands that went out, and which of the kernel's
-- objects the driver still holds.
use can_guru.Base.{ℕ, Bool, true, false, suc, ◌==◌, if◌then◌else◌, is_zero, List, [], ◌∷◌}
use can_guru.Kernel.Types.{
  Skb, netif_rx, Event, answered, done, usb_submit_urb, usb_alloc_urb, usb_free_urb,
  usb_alloc_coherent, usb_free_coherent, usb_fill_bulk_urb, usb_anchor_urb, usb_unanchor_urb, log,
  netif_start_queue, netif_stop_queue, netif_wake_queue, sndbulk,
}
use can_guru.Kernel.{pointer}

-- The commands that the USB core accepted, newest first.
abbrev pub sent : List Event → List (List ℕ)
sent [] = []
sent (answered (usb_submit_urb sndbulk urb bytes) r ∷ t) =
    if is_zero r then bytes ∷ sent t else sent t
sent (e ∷ t) = sent t

-- URB references: taken by a successful allocation, given back by `usb_free_urb`.
abbrev pub urbs_taken : List Event → ℕ
urbs_taken [] = 0
urbs_taken (answered usb_alloc_urb r ∷ t) =
    if pointer r == 0 then urbs_taken t else suc (urbs_taken t)
urbs_taken (e ∷ t) = urbs_taken t

abbrev pub urbs_freed : List Event → ℕ
urbs_freed [] = 0
urbs_freed (done (usb_free_urb urb) ∷ t) = suc (urbs_freed t)
urbs_freed (e ∷ t) = urbs_freed t

-- DMA buffers.
abbrev pub buffers_taken : List Event → ℕ
buffers_taken [] = 0
buffers_taken (answered (usb_alloc_coherent size) r ∷ t) =
    if pointer r == 0 then buffers_taken t else suc (buffers_taken t)
buffers_taken (e ∷ t) = buffers_taken t

abbrev pub buffers_freed : List Event → ℕ
buffers_freed [] = 0
buffers_freed (done (usb_free_coherent size buf) ∷ t) = suc (buffers_freed t)
buffers_freed (e ∷ t) = buffers_freed t

-- The refusals of the USB core: an URB, a buffer or a submission of a command.
abbrev pub refusals : List Event → ℕ
refusals [] = 0
refusals (answered usb_alloc_urb r ∷ t) = if pointer r == 0 then suc (refusals t) else refusals t
refusals (answered (usb_alloc_coherent size) r ∷ t) =
    if pointer r == 0 then suc (refusals t) else refusals t
refusals (answered (usb_submit_urb sndbulk urb bytes) r ∷ t) =
    if is_zero r then refusals t else suc (refusals t)
refusals (e ∷ t) = refusals t

-- The frames that went up to the network stack with their time stamps, newest first.
abbrev pub delivered : List Event → List (Skb × ℕ)
delivered [] = []
delivered (done (netif_rx skb frame time) ∷ t) = (frame, time) ∷ delivered t
delivered (e ∷ t) = delivered t

-- The calls besides those to the USB core and the log.
abbrev pub aside : List Event → List Event
aside [] = []
aside (answered usb_alloc_urb r ∷ t) = aside t
aside (answered (usb_alloc_coherent size) r ∷ t) = aside t
aside (answered (usb_submit_urb pipe urb bytes) r ∷ t) = aside t
aside (done (usb_free_urb urb) ∷ t) = aside t
aside (done (usb_free_coherent size buf) ∷ t) = aside t
aside (done (usb_fill_bulk_urb pipe urb buf size) ∷ t) = aside t
aside (done (usb_anchor_urb pipe urb) ∷ t) = aside t
aside (done (usb_unanchor_urb urb) ∷ t) = aside t
aside (done (log level) ∷ t) = aside t
aside (e ∷ t) = e ∷ aside t

-- Whether the transmit queue of a net device runs; `initially` is its state before the record.
abbrev pub queue_state : Bool → ℕ → List Event → Bool
queue_state initially dev [] = initially
queue_state initially dev (done (netif_start_queue d) ∷ t) =
    if d == dev then true else queue_state initially dev t
queue_state initially dev (done (netif_wake_queue d) ∷ t) =
    if d == dev then true else queue_state initially dev t
queue_state initially dev (done (netif_stop_queue d) ∷ t) =
    if d == dev then false else queue_state initially dev t
queue_state initially dev (e ∷ t) = queue_state initially dev t

abbrev pub queue_runs : Bool → ℕ → List Event → Bool
queue_runs initially dev t = queue_state initially dev (aside t)
