-- ===== src/LinMessages/Registration.antt =====
-- The messages that linguru_msg_net_init registers.
use can_guru.Base.{ℕ, ◌≡◌, pos, Option, some, List, [], ◌∷◌, ◌++◌}
use mathlib.Core.List.{append_assoc}
use can_guru.Kernel.{Kernel, ok}
use can_guru.Kernel.Types.{Event}
use can_guru.MsgIds.{
  lin_msg_config_set, lin_msg_enable_set, lin_msg_master_enable_set, lin_msg_send, lin_msg_recv,
  lin_msg_reset, lin_msg_volt_get,
}
use can_guru.State.{
  Device, GuruMsg, lin_status, lin_send, lin_recv, lin_volt, size_static, size_variable,
}
use can_guru.Messages.{with_bus}
use can_guru.CanMessages.Registration.{status_msg}
use can_guru.LinMessages.{linguru_msg_net_init}

abbrev pub lin_messages : List GuruMsg
lin_messages =
    status_msg lin_status lin_msg_reset
    ∷ status_msg lin_status lin_msg_config_set
    ∷ status_msg lin_status lin_msg_enable_set
    ∷ status_msg lin_status lin_msg_master_enable_set
    ∷ status_msg lin_send lin_msg_send
    ∷ record {
      msg_id = lin_msg_recv;
      data_count = 0;
      size_restriction = size_variable;
      callback = some lin_recv;
    }
    ∷ record {
      msg_id = lin_msg_volt_get;
      data_count = 4;
      size_restriction = size_static;
      callback = some lin_volt;
    }
    ∷ []

pub linguru_msg_net_init-registers :
    (k : Kernel) (d : Device) (t : List Event) (iface_count : ℕ) (volt : Option ℕ)
    → linguru_msg_net_init iface_count volt k d t
      ≡ ok
          (pos 0)
          (record d {
            guru = record (d.guru) { msg_list = d.guru.msg_list ++ lin_messages };
            lin_bus = with_bus d.lin_bus iface_count volt;
          })
          t
unfolding linguru_msg_net_init
linguru_msg_net_init-registers k d t iface_count volt = simp append_assoc
