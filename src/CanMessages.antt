-- ===== src/CanMessages.antt =====
-- canguru-msg-net.c: the messages of the CAN channels.
pub mod Answers
pub mod Handlers
pub mod Queues
pub mod Registration
use can_guru.Base.{ℕ, leb, if◌then◌else◌, ℤ, pos, none, some, List, [], ◌∷◌}
use can_guru.Kernel.Types.{log, dev_warn}
use can_guru.Kernel.{M, ◌>>=◌, ◌>>◌, pure, run, when, get, modify}
use can_guru.State.{Device, size_static, size_variable, can_status, can_send, can_recv}
use can_guru.Bus.{netdev_at, at_netdev}
use can_guru.MsgIds.{
  can_msg_config_set, can_msg_global_filter_set, can_msg_enable_set, can_msg_send, can_msg_recv,
  can_msg_reset, can_msg_ter_enable, can_msg_timing_set,
}
use can_guru.CanTransmit.{canguru_send_callback}
use can_guru.CanReceive.{canguru_net_recv}
use can_guru.Messages.{
  in_can, guru_get_msg_data, data_byte, guru_add_msg, init_status_msg, with_bus, list_del,
  unlink_reply,
}

pub canguru_msg_net_init : ℕ → M Device ℤ
unfolding init_status_msg guru_add_msg
canguru_msg_net_init iface_count = do
  modify (λ d. record d { can_bus = with_bus d.can_bus iface_count none })
  init_status_msg can_status can_msg_reset
  init_status_msg can_status can_msg_config_set
  init_status_msg can_status can_msg_timing_set
  init_status_msg can_status can_msg_enable_set
  init_status_msg can_status can_msg_ter_enable
  init_status_msg can_status can_msg_global_filter_set
  guru_add_msg (record {
    msg_id = can_msg_send;
    data_count = 1;
    size_restriction = size_static;
    callback = some can_send;
  })
  guru_add_msg (record {
    msg_id = can_msg_recv;
    data_count = 0;
    size_restriction = size_variable;
    callback = some can_recv;
  })
  pure (pos 0)

can_answer : List ℕ → M Device (Unit {0})
unfolding list_del
can_answer [] = pure tt
can_answer (reply ∷ _) = do
  priv ← in_can (netdev_at reply)
  when priv.has_reply_callback
      (do status ← data_byte 0; in_can (at_netdev reply (canguru_send_callback status)))
  in_can (unlink_reply reply)

-- canguru_send_callback of canguru-msg-net.c.
unfoldable pub can_send_callback : M Device (Unit {0})
unfolding can_answer
can_send_callback = do d ← get; can_answer d.can_bus.send_reply_list

pub canguru_recv_callback : M Device (Unit {0})
canguru_recv_callback = do
  d ← get
  bytes ← guru_get_msg_data
  iface ← data_byte 0
  if leb d.can_bus.iface_count iface
      then run (log dev_warn)
      else in_can (canguru_net_recv iface bytes)
