-- ===== src/LinMessages.antt =====
-- linguru-msg-net.c: the messages of the LIN channels.
pub mod Answers
pub mod Handlers
pub mod Registration
use can_guru.Base.{
  ℕ, ◌==◌, not, leb, if◌then◌else◌, ℤ, pos, Option, none, some, List, [], ◌∷◌, from_le32,
}
use can_guru.Kernel.Types.{log, dev_warn}
use can_guru.Kernel.{M, ◌>>=◌, ◌>>◌, pure, run, when, get, modify}
use can_guru.State.{
  Device, size_static, size_variable, lin_status, lin_send, lin_recv, lin_volt, guru_status_done,
}
use can_guru.Bus.{netdev_at, at_netdev}
use can_guru.MsgIds.{
  lin_msg_config_set, lin_msg_enable_set, lin_msg_master_enable_set, lin_msg_send, lin_msg_recv,
  lin_msg_reset, lin_msg_volt_get,
}
use can_guru.LinTransfer.{linguru_send_callback, linguru_net_recv}
use can_guru.Voltage.{linguru_volt_reply}
use can_guru.Messages.{
  in_lin, in_volt, guru_get_msg_data, data_byte, guru_get_msg_id, guru_add_msg, with_bus, list_del,
  unlink_reply,
}

linguru_init_status_msg : ℕ → M Device (Unit {0})
unfolding guru_add_msg
linguru_init_status_msg msg_id = guru_add_msg (record {
  msg_id = msg_id;
  data_count = 1;
  size_restriction = size_static;
  callback = some lin_status;
})

pub linguru_status_callback : M Device (Unit {0})
linguru_status_callback = do
  status ← data_byte 0
  _ ← guru_get_msg_id
  when (not (status == guru_status_done)) (run (log dev_warn))

pub linguru_msg_net_init : ℕ → Option ℕ → M Device ℤ
unfolding linguru_init_status_msg guru_add_msg
linguru_msg_net_init iface_count meas_volt_dev = do
  modify (λ d. record d { lin_bus = with_bus d.lin_bus iface_count meas_volt_dev })
  linguru_init_status_msg lin_msg_reset
  linguru_init_status_msg lin_msg_config_set
  linguru_init_status_msg lin_msg_enable_set
  linguru_init_status_msg lin_msg_master_enable_set
  guru_add_msg (record {
    msg_id = lin_msg_send;
    data_count = 1;
    size_restriction = size_static;
    callback = some lin_send;
  })
  guru_add_msg (record {
    msg_id = lin_msg_recv;
    data_count = 0;
    size_restriction = size_variable;
    callback = some lin_recv;
  })
  guru_add_msg (record {
    msg_id = lin_msg_volt_get;
    data_count = 4;
    size_restriction = size_static;
    callback = some lin_volt;
  })
  pure (pos 0)

lin_answer : List ℕ → M Device (Unit {0})
unfolding list_del
lin_answer [] = pure tt
lin_answer (reply ∷ _) = do
  priv ← in_lin (netdev_at reply)
  when priv.has_reply_callback
      (do status ← data_byte 0; in_lin (at_netdev reply (linguru_send_callback status)))
  in_lin (unlink_reply reply)

-- linguru_send_callback of linguru-msg-net.c.
pub lin_send_callback : M Device (Unit {0})
unfolding lin_answer
lin_send_callback = do d ← get; lin_answer d.lin_bus.send_reply_list

pub linguru_recv_callback : M Device (Unit {0})
linguru_recv_callback = do
  d ← get
  bytes ← guru_get_msg_data
  iface ← data_byte 0
  if leb d.lin_bus.iface_count iface
      then run (log dev_warn)
      else in_lin (linguru_net_recv iface bytes)

volt_answer : Option ℕ → M Device (Unit {0})
volt_answer none = run (log dev_warn)
volt_answer (some _) = do
  a ← data_byte 0
  b ← data_byte 1
  c ← data_byte 2
  e ← data_byte 3
  in_volt (linguru_volt_reply (from_le32 a b c e))

pub linguru_volt_callback : M Device (Unit {0})
unfolding volt_answer
linguru_volt_callback = do d ← get; volt_answer d.lin_bus.meas_volt_dev
