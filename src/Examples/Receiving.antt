-- ===== src/Examples/Receiving.antt =====
-- Runs of the receive side.
use can_guru.Base.{
  [], ◌≡◌, refl, ℕ, ◌*◌, ◌≤◌, ◌<◌, ◌⊎◌, true, false, some, none, List, ◌∷◌, take, replicate, u64,
  arith,
}
use can_guru.Kernel.Types.{CanFrame, CanfdFrame, classic, fd}
use can_guru.Kernel.{Ends, ◌>>◌, fault, out_of_bounds, modify}
use can_guru.Kernel.Ledger.{delivered}
use can_guru.State.{Device}
use can_guru.Bus.{store_netdev}
use can_guru.CanWire.{CanMsgHeader, CanRecvMsg, can_header_at, can_header_of_value, can_recv_msg_of}
use can_guru.CanNet.{classic_header, fd_header}
use can_guru.Bus.Counting.{received_stats}
use can_guru.CanReceive.{canguru_net_recv, hw_time}
use can_guru.CanReceive.Delivery.{
  IsClassicOf, IsFdOf, canguru_net_recv-classic, canguru_net_recv-fd,
}
use can_guru.CanLoopback.{echo, classic_loopback}
use can_guru.CanLoopback.Fd.{IsFdEcho, fd_loopback}
use can_guru.Bus.Channels.{IsBus}
use can_guru.Examples.Composition.{bus-IsBus}
use can_guru.CanMessages.{can_send_callback}
use can_guru.CanMessages.Answers.{HeadAnswered, can_send_callback-answers}
use can_guru.LinWire.{LinMsgHeader, LinMsgRecv, lin_msg_recv_of}
use can_guru.LinTransfer.{lin_can_id, linguru_net_recv}
use can_guru.LinTransfer.Overflow.{linguru_net_recv-length}
use can_guru.Dispatch.{rx_loop, canguru_process_msg_list, set_curr_msg}
use can_guru.Dispatch.Blocks.{blocks, rx_loop-all_blocks}
use can_guru.Dispatch.Routing.{deliver_to, canguru_process_msg_list-routes}
use can_guru.Messages.Std.{std_message}
use can_guru.Examples.{
  kernel, kernel-IsKernel, channel, bus, frame, standard_id, fd_frame, extended_id, device,
}

-- Messages of channel 0 at time 1: a classic frame of length code 2, and a CAN FD frame of length
-- code 9.
abbrev classic_report : List ℕ
classic_report = 0 ∷ 1 ∷ 0 ∷ 0 ∷ 0 ∷ 0x23 ∷ 1 ∷ 0 ∷ 0x40 ∷ 0 ∷ replicate 64 5

abbrev fd_report : List ℕ
fd_report = 0 ∷ 1 ∷ 0 ∷ 0 ∷ 0 ∷ 0x23 ∷ 1 ∷ 0 ∷ 0x20 ∷ 17 ∷ replicate 64 5

classic_report-classic :
    CanMsgHeader.canfd (CanRecvMsg.can_header (can_recv_msg_of classic_report)) ≡ false
unfolding can_recv_msg_of can_header_at can_header_of_value
classic_report-classic = refl

fd_report-fd : CanMsgHeader.canfd (CanRecvMsg.can_header (can_recv_msg_of fd_report)) ≡ true
unfolding can_recv_msg_of can_header_at can_header_of_value
fd_report-fd = refl

canguru_net_recv-classic_example :
    (f : CanFrame) × IsClassicOf (can_recv_msg_of classic_report) f
    × Ends
        (λ _ bus' t'.
          (delivered t'
            ≡ (classic f, hw_time (CanRecvMsg.time_stamp (can_recv_msg_of classic_report))) ∷ [])
          × (bus'
              ≡ store_netdev 0 (record channel { stats = received_stats f.len channel.stats }) bus))
        (canguru_net_recv 0 classic_report kernel bus [])
canguru_net_recv-classic_example =
    canguru_net_recv-classic kernel bus [] 0 classic_report channel kernel-IsKernel refl
      (omega arith) classic_report-classic (ground arith)

canguru_net_recv-fd_example :
    (f : CanfdFrame) × IsFdOf kernel (can_recv_msg_of fd_report) 0 f
    × Ends
        (λ _ bus' t'.
          (delivered t' ≡ (fd f, hw_time (CanRecvMsg.time_stamp (can_recv_msg_of fd_report))) ∷ [])
          × (bus'
              ≡ store_netdev 0 (record channel { stats = received_stats f.len channel.stats }) bus))
        (canguru_net_recv 0 fd_report kernel bus [])
canguru_net_recv-fd_example =
    canguru_net_recv-fd kernel bus [] 0 fd_report channel kernel-IsKernel refl (omega arith)
      fd_report-fd (ground arith)

classic_loopback_example :
    (g : CanFrame) × (g.can_id ≡ 0x123)
    × (g.len ≡ 2)
    × (take g.len g.body ≡ 1 ∷ 2 ∷ [])
    × Ends
        (λ _ _ t'. delivered t' ≡ (classic g, 300000) ∷ [])
        (canguru_net_recv 0
          (echo 0 3 (classic_header 2 frame) (1 ∷ 2 ∷ []) (replicate 64 0))
          kernel
          bus
          [])
classic_loopback_example =
    classic_loopback kernel bus [] 0 channel kernel-IsKernel refl frame standard_id 3
      (replicate 64 0) (omega arith) refl (omega arith) refl (omega arith) (omega arith)
      (ground arith)

-- A LIN message of eight data bytes.
abbrev lin_report : List ℕ
lin_report = 0 ∷ 1 ∷ 0 ∷ 0 ∷ 0 ∷ 0x22 ∷ 8 ∷ replicate 8 5

linguru_net_recv-length_example :
    ((8 ≤ 8)
      × (f : CanFrame) × (f.can_id
          ≡ lin_can_id
              (LinMsgRecv.header (lin_msg_recv_of lin_report))
              (LinMsgHeader.id (LinMsgRecv.header (lin_msg_recv_of lin_report))))
      × (f.len ≡ 8)
      × (take f.len f.body ≡ take f.len (LinMsgRecv.response (lin_msg_recv_of lin_report)))
      × Ends
          (λ _ bus' t'.
            (delivered t'
              ≡ (classic f, u64 (LinMsgRecv.timestamp (lin_msg_recv_of lin_report) * 100000)) ∷ [])
            × (bus'
                ≡ store_netdev 0
                    (record channel { stats = received_stats f.len channel.stats })
                    bus))
          (linguru_net_recv 0 lin_report kernel bus []))
    ⊎ ((8 < 8) × (linguru_net_recv 0 lin_report kernel bus [] ≡ fault out_of_bounds))
linguru_net_recv-length_example =
    linguru_net_recv-length kernel bus [] 0 lin_report channel kernel-IsKernel refl (omega arith)
      (ground arith)

rx_loop-all_blocks_example : rx_loop 257 (replicate 256 0) 0 ≡ blocks 2 (replicate 256 0) 0
rx_loop-all_blocks_example = rx_loop-all_blocks (replicate 256 0) (omega arith)

abbrev with_version : Device
with_version = record device { guru = record (device.guru) { msg_list = std_message ∷ [] } }

-- Message 0x1 with two bytes of data.
abbrev version_packet : List ℕ
version_packet = 0x58 ∷ 0 ∷ 1 ∷ 0 ∷ 2 ∷ replicate 123 49

canguru_process_msg_list-routes_example :
    canguru_process_msg_list version_packet kernel with_version []
    ≡ (deliver_to (some std_message) 1 2 >> modify (set_curr_msg none 0 0)) kernel
        (set_curr_msg (some (replicate 123 49)) 2 1 with_version)
        []
canguru_process_msg_list-routes_example =
    canguru_process_msg_list-routes kernel with_version [] version_packet (tt, tt)

fd_loopback_example :
    (g : CanfdFrame) × IsFdEcho kernel false true 0 fd_frame g
    × Ends
        (λ _ _ t'. delivered t' ≡ (fd g, 300000) ∷ [])
        (canguru_net_recv 0
          (echo 0 3 (fd_header 9 fd_frame) (take 12 fd_frame.body) (replicate 64 0))
          kernel
          bus
          [])
fd_loopback_example =
    fd_loopback kernel bus [] 0 channel kernel-IsKernel refl fd_frame extended_id false true 3
      (replicate 64 0) (omega arith) refl refl (omega arith) refl (omega arith) (omega arith)
      (ground arith)

-- Channel 0 waits, and the answer is that the frame was sent.
abbrev waiting : Device
waiting = record device {
  can_bus = record bus { send_reply_list = 0 ∷ [] };
  guru = record (device.guru) { curr_msg_data = some (0 ∷ []) };
}

waiting-IsBus : IsBus waiting.can_bus
waiting-IsBus = record { channels = bus-IsBus.channels; waiting = ((channel, refl), tt) }

can_send_callback-answers_example :
    ((waiting.can_bus.send_reply_list ≡ [])
      × Ends (λ _ d' t'. (d' ≡ waiting) × (t' ≡ [])) (can_send_callback kernel waiting []))
    ⊎ HeadAnswered kernel false 0 waiting []
can_send_callback-answers_example =
    can_send_callback-answers kernel waiting [] 0 [] false waiting-IsBus refl
