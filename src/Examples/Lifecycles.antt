-- ===== src/Examples/Lifecycles.antt =====
-- Runs of opening and closing, creation and replugging.
use can_guru.Base.{[], refl, true, ◌∷◌, arith}
use can_guru.Kernel.Types.{classic}
use can_guru.Kernel.{Ends}
use can_guru.State.{Bus}
use can_guru.CanTransmit.{canguru_start_xmit}
use can_guru.CanTransmit.Relinked.{RelinkEnd, canguru_start_xmit-RelinkEnd}
use can_guru.CanChannel.Reopening.{reopen, ReopenEnd, reopen-ReopenEnd}
use can_guru.LinNet.{linguru_net_create, linguru_ops_open}
use can_guru.LinNet.Lifecycle.{
  LinOpenEnd, linguru_ops_open-LinOpenEnd, LinCreateEnd, linguru_net_create-LinCreateEnd,
}
use can_guru.Examples.{kernel, kernel-IsKernel, channel, bus, frame}

-- Channel 0 waits for an answer.
abbrev waiting_bus : Bus
waiting_bus = record bus { send_reply_list = 0 ∷ [] }

canguru_start_xmit-RelinkEnd_example :
    RelinkEnd kernel
      (classic frame)
      waiting_bus
      []
      (canguru_start_xmit 0 (classic frame) kernel waiting_bus [])
canguru_start_xmit-RelinkEnd_example =
    canguru_start_xmit-RelinkEnd kernel waiting_bus [] 0 (classic frame) channel kernel-IsKernel
      (omega arith, refl) refl refl

reopen-ReopenEnd_example :
    Ends (ReopenEnd 0 channel true waiting_bus) (reopen 0 kernel waiting_bus [])
reopen-ReopenEnd_example =
    reopen-ReopenEnd kernel waiting_bus [] 0 true channel kernel-IsKernel refl

linguru_ops_open-LinOpenEnd_example :
    Ends (LinOpenEnd kernel true channel []) (linguru_ops_open kernel channel [])
linguru_ops_open-LinOpenEnd_example =
    linguru_ops_open-LinOpenEnd kernel channel [] true kernel-IsKernel

linguru_net_create-LinCreateEnd_example :
    Ends (LinCreateEnd 8 0 bus []) (linguru_net_create 0 kernel bus [])
linguru_net_create-LinCreateEnd_example =
    linguru_net_create-LinCreateEnd kernel bus [] 0 kernel-IsKernel
