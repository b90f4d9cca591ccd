-- ===== src/CanMessages/Registration.antt =====
-- The messages that canguru_msg_net_init registers.
use can_guru.Base.{ℕ, ◌≡◌, pos, some, none, List, [], ◌∷◌, ◌++◌}
use mathlib.Core.List.{append_assoc}
use can_guru.Kernel.{Kernel, ok}
use can_guru.Kernel.Types.{Event}
use can_guru.MsgIds.{
  can_msg_config_set, can_msg_global_filter_set, can_msg_enable_set, can_msg_send, can_msg_recv,
  can_msg_reset, can_msg_ter_enable, can_msg_timing_set,
}
use can_guru.State.{
  Device, GuruMsg, Callback, can_status, can_send, can_recv, size_static, size_variable,
}
use can_guru.Messages.{with_bus}
use can_guru.CanMessages.{canguru_msg_net_init}

abbrev pub status_msg : Callback → ℕ → GuruMsg
status_msg callback id = record {
  msg_id = id;
  data_count = 1;
  size_restriction = size_static;
  callback = some callback;
}

abbrev pub can_messages : List GuruMsg
can_messages =
    status_msg can_status can_msg_reset
    ∷ status_msg can_status can_msg_config_set
    ∷ status_msg can_status can_msg_timing_set
    ∷ status_msg can_status can_msg_enable_set
    ∷ status_msg can_status can_msg_ter_enable
    ∷ status_msg can_status can_msg_global_filter_set
    ∷ status_msg can_send can_msg_send
    ∷ record {
      msg_id = can_msg_recv;
      data_count = 0;
      size_restriction = size_variable;
      callback = some can_recv;
    }
    ∷ []

pub canguru_msg_net_init-registers :
    (k : Kernel) (d : Device) (t : List Event) (iface_count : ℕ)
    → canguru_msg_net_init iface_count k d t
      ≡ ok
          (pos 0)
          (record d {
            guru = record (d.guru) { msg_list = d.guru.msg_list ++ can_messages };
            can_bus = with_bus d.can_bus iface_count none;
          })
          t
unfolding canguru_msg_net_init
canguru_msg_net_init-registers k d t iface_count = simp append_assoc
