-- ===== src/Examples/Transfers.antt =====
-- Runs of whole receive transfers.
use can_guru.Base.{[], ℕ, inl, pos, some, List, ◌∷◌, ◌++◌, replicate, All, arith}
use can_guru.Kernel.{Ends}
use can_guru.Kernel.Safe.{Safe}
use can_guru.State.{Device}
use can_guru.Messages.Std.{std_message}
use can_guru.CanMessages.Registration.{can_messages}
use can_guru.Dispatch.{canguru_read_bulk_callback}
use can_guru.Dispatch.Soundness.{IsProper, IsBounded, IsReceiving}
use can_guru.Dispatch.Delivery.{Receives}
use can_guru.Dispatch.Transfer.{StatusFrames, canguru_read_bulk_callback-Receives}
use can_guru.Probe.{canguru_product_name, guru_usb_probe}
use can_guru.Probe.Session.{Completion, SessionEnd, guru_usb_probe-SessionEnd}
use can_guru.Examples.Plugging.{zeroed, zeroed-IsZeroed}
use can_guru.Examples.{kernel, kernel-IsKernel, device}
use can_guru.Examples.Composition.{bus-IsBus, version_report, report-IsBounded}

-- A device with one CAN channel and the messages of a CAN Guru.
abbrev receiving : Device
receiving = record device { guru = record (device.guru) { msg_list = std_message ∷ can_messages } }

receiving-IsReceiving : IsReceiving receiving
receiving-IsReceiving =
    (record { can_lem = bus-IsBus; lin_lem = bus-IsBus; proper = proper }, omega arith)
  where
    proper : All IsProper (std_message ∷ can_messages)
    proper = ground arith

-- An empty classic frame for channel 0.
abbrev frame_report : List ℕ
frame_report = 0x58 ∷ 0 ∷ 0x0b ∷ 0x0c ∷ 74 ∷ replicate 123 0

frame_report-IsBounded : IsBounded frame_report
frame_report-IsBounded = record {
  version_fits = inl (λ e. omega (arith, e));
  lin_fits = inl (λ e. omega (arith, e));
}

abbrev transfer : List ℕ
transfer = frame_report ++ version_report

canguru_read_bulk_callback-Receives_example :
    Safe kernel
      (Receives (StatusFrames kernel (pos 0) transfer) receiving [])
      (canguru_read_bulk_callback 1 2 (pos 0) transfer kernel receiving [])
canguru_read_bulk_callback-Receives_example =
    canguru_read_bulk_callback-Receives kernel kernel-IsKernel 1 2 (pos 0) transfer receiving []
      (omega arith) (frame_report-IsBounded, (report-IsBounded, tt)) receiving-IsReceiving

-- A CAN Guru that is plugged in and then receives.
abbrev completions : List Completion
completions = record { urb = 1; buf = 2; status = pos 0; buffer = transfer } ∷ []

guru_usb_probe-SessionEnd_example :
    Ends
      (SessionEnd kernel canguru_product_name completions)
      (guru_usb_probe canguru_product_name (some (replicate 16 48)) kernel zeroed [])
guru_usb_probe-SessionEnd_example =
    guru_usb_probe-SessionEnd kernel kernel-IsKernel canguru_product_name (some (replicate 16 48))
      completions zeroed [] zeroed-IsZeroed
      ((omega arith, (frame_report-IsBounded, (report-IsBounded, tt))), tt)
