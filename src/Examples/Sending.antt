-- ===== src/Examples/Sending.antt =====
-- Runs of the transmit side.
use can_guru.Base.{[], ◌≡◌, refl, ℕ, true, some, ◌∷◌, take, arith}
use can_guru.Kernel.Types.{classic}
use can_guru.Kernel.{Ends}
use can_guru.MsgIds.{lin_msg_send, can_msg_send}
use can_guru.Send.{guru_send_data}
use can_guru.Send.Outcome.{Outcome, packet, guru_send_data-Outcome}
use can_guru.CanNet.{
  classic_header, fd_header, canguru_can_classic_send, canguru_can_fd_send, canguru_set_bittiming,
}
use can_guru.CanNet.Frames.{
  frame_bytes, canguru_can_classic_send-Outcome, canguru_can_fd_send-Outcome,
}
use can_guru.CanNet.Commands.{
  conf_bytes, timing_bytes, IsTqNum, Configured, canguru_set_bittiming-Configured,
}
use can_guru.Bus.Transmission.{XmitEnd}
use can_guru.CanTransmit.{canguru_start_xmit}
use can_guru.CanTransmit.Branches.{skb_packet, canguru_start_xmit-XmitEnd}
use can_guru.LinNet.{linguru_lin_send}
use can_guru.LinNet.Frames.{lin_frame_bytes, linguru_lin_send-Outcome}
use can_guru.Examples.{kernel, kernel-IsKernel, channel, bus, frame, fd_frame}

guru_send_data-Outcome_example :
    Ends
      (λ err s' t'. (s' ≡ bus) × Outcome (packet can_msg_send (1 ∷ 2 ∷ [])) [] err t')
      (guru_send_data can_msg_send (some (1 ∷ 2 ∷ 3 ∷ [])) 2 kernel bus [])
guru_send_data-Outcome_example =
    guru_send_data-Outcome kernel bus [] can_msg_send (some (1 ∷ 2 ∷ 3 ∷ [])) 2 (1 ∷ 2 ∷ [])
      kernel-IsKernel (omega arith) (omega arith) (omega arith, refl)

canguru_can_classic_send-Outcome_example :
    Ends
      (λ err s' t'.
        (s' ≡ bus)
        × Outcome
            (packet can_msg_send (frame_bytes 0 (classic_header 2 frame) (1 ∷ 2 ∷ [])))
            []
            err
            t')
      (canguru_can_classic_send channel frame kernel bus [])
canguru_can_classic_send-Outcome_example =
    canguru_can_classic_send-Outcome kernel bus [] channel frame kernel-IsKernel (omega arith) refl

canguru_can_fd_send-Outcome_example :
    Ends
      (λ err s' t'.
        (s' ≡ bus)
        × Outcome
            (packet can_msg_send (frame_bytes 0 (fd_header 9 fd_frame) (take 12 fd_frame.body)))
            []
            err
            t')
      (canguru_can_fd_send channel fd_frame kernel bus [])
canguru_can_fd_send-Outcome_example =
    canguru_can_fd_send-Outcome kernel bus [] channel fd_frame kernel-IsKernel (omega arith) refl

canguru_start_xmit-XmitEnd_example :
    Ends
      (XmitEnd kernel 7 (skb_packet kernel channel (classic frame)) 0 true (classic frame) bus [])
      (canguru_start_xmit 0 (classic frame) kernel bus [])
canguru_start_xmit-XmitEnd_example =
    canguru_start_xmit-XmitEnd kernel bus [] 0 true (classic frame) channel kernel-IsKernel
      (omega arith, refl) refl refl

canguru_set_bittiming-Configured_example :
    (tq : ℕ) × (tq_data : ℕ) × IsTqNum channel.can.bittiming tq
    × IsTqNum channel.can.data_bittiming tq_data
    × Ends
        (λ err s' t'.
          (s' ≡ bus) × Configured (conf_bytes channel) (timing_bytes channel tq tq_data) [] err t')
        (canguru_set_bittiming channel kernel bus [])
canguru_set_bittiming-Configured_example =
    canguru_set_bittiming-Configured kernel bus [] channel kernel-IsKernel (omega arith)
      (omega arith)

linguru_lin_send-Outcome_example :
    Ends
      (λ err s' t'.
        (s' ≡ bus)
        × Outcome (packet lin_msg_send (lin_frame_bytes 0 0x123 2 (1 ∷ 2 ∷ []))) [] err t')
      (linguru_lin_send channel frame kernel bus [])
linguru_lin_send-Outcome_example =
    linguru_lin_send-Outcome kernel bus [] channel frame kernel-IsKernel (omega arith) refl
