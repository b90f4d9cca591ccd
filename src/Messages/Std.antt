-- ===== src/Messages/Std.antt =====
-- guru-msg-std.c: registration, and the version text.
use can_guru.Base.{ℕ, ◌⊎◌, ◌≡◌, refl, pos, some, List, [], ◌∷◌, ◌++◌, ◌≤◌, ◌<◌, length, arith}
use can_guru.Kernel.{Kernel, ok, fault, out_of_bounds}
use can_guru.Kernel.Types.{Event, done, log, dev_info}
use can_guru.MsgIds.{guru_msg_get_version}
use can_guru.State.{Device, GuruMsg, size_variable, msg_std_fw_version}
use can_guru.Messages.{guru_msg_std_init, std_fw_version}

abbrev pub std_message : GuruMsg
std_message = record {
  msg_id = guru_msg_get_version;
  data_count = 0;
  size_restriction = size_variable;
  callback = some msg_std_fw_version;
}

pub guru_msg_std_init-registers :
    (k : Kernel) (d : Device) (t : List Event)
    → guru_msg_std_init k d t
      ≡ ok
          (pos 0)
          (record d { guru = record (d.guru) { msg_list = d.guru.msg_list ++ (std_message ∷ []) } })
          t
unfolding guru_msg_std_init
guru_msg_std_init-registers k d t = refl

-- The version text of a packet is copied into a buffer of 32 bytes with no check of its length: up
-- to 32 bytes are logged, and every longer text that the packet can hold is written past the end.
pub std_fw_version-overflows :
    (k : Kernel) (d : Device) (t : List Event) (bytes : List ℕ)
    → d.guru.curr_msg_data ≡ some bytes
    → d.guru.curr_msg_data_size ≤ length bytes
    → ((d.guru.curr_msg_data_size ≤ 32)
        × (std_fw_version k d t ≡ ok tt d (done (log dev_info) ∷ t)))
      ⊎ ((32 < d.guru.curr_msg_data_size) × (std_fw_version k d t ≡ fault out_of_bounds))
unfolding std_fw_version
std_fw_version-overflows k d t bytes e h = ground arith
