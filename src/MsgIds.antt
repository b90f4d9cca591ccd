-- ===== src/MsgIds.antt =====
-- canguru-msg-net.h and linguru-msg-net.h: the identifiers of the commands and of the answers.
use can_guru.Base.{ℕ}

abbrev pub guru_msg_get_version : ℕ
guru_msg_get_version = 0x1

abbrev pub can_msg_config_set : ℕ
can_msg_config_set = 0x0c00

abbrev pub can_msg_global_filter_set : ℕ
can_msg_global_filter_set = 0x0c02

abbrev pub can_msg_enable_set : ℕ
can_msg_enable_set = 0x0c06

abbrev pub can_msg_send : ℕ
can_msg_send = 0x0c0a

abbrev pub can_msg_recv : ℕ
can_msg_recv = 0x0c0b

abbrev pub can_msg_reset : ℕ
can_msg_reset = 0x0c0d

abbrev pub can_msg_ter_enable : ℕ
can_msg_ter_enable = 0x0c16

abbrev pub can_msg_timing_set : ℕ
can_msg_timing_set = 0x0c17

abbrev pub lin_msg_config_set : ℕ
lin_msg_config_set = 0x0d00

abbrev pub lin_msg_enable_set : ℕ
lin_msg_enable_set = 0x0d02

abbrev pub lin_msg_master_enable_set : ℕ
lin_msg_master_enable_set = 0x0d04

abbrev pub lin_msg_send : ℕ
lin_msg_send = 0x0d06

abbrev pub lin_msg_recv : ℕ
lin_msg_recv = 0x0d07

abbrev pub lin_msg_reset : ℕ
lin_msg_reset = 0x0d08

abbrev pub lin_msg_volt_get : ℕ
lin_msg_volt_get = 0x0d20
