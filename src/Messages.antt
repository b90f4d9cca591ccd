-- ===== src/Messages.antt =====
-- What the message files share, and guru-msg-std.c: the current message, the registration of a
-- message, and the answers that carry a status.
pub mod Handlers
pub mod Std
use can_guru.Base.{
  ℕ, ◌==◌, if◌then◌else◌, ℤ, pos, not, Option, none, some, List, [], ◌∷◌, ◌++◌, get_elem?,
  replicate,
}
use can_guru.Kernel.Types.{log, dev_info, dev_warn}
use can_guru.Kernel.{
  M, ◌>>=◌, ◌>>◌, pure, raise, run, when, memcpy, get, modify, zoom, null_deref, out_of_bounds,
}
use can_guru.Send.{guru_send_data}
use can_guru.State.{
  Device, Bus, GuruMsg, Callback, size_static, size_variable, msg_std_fw_version, guru_status_done,
  VoltagePriv,
}
use can_guru.MsgIds.{guru_msg_get_version}

abbrev pub in_can : {A : Type 0} → M Bus A → M Device A
in_can = zoom (λ d. d.can_bus) (λ b d. record d { can_bus = b })

abbrev pub in_lin : {A : Type 0} → M Bus A → M Device A
in_lin = zoom (λ d. d.lin_bus) (λ b d. record d { lin_bus = b })

abbrev pub in_volt : {A : Type 0} → M VoltagePriv A → M Device A
in_volt = zoom (λ d. d.volt) (λ v d. record d { volt = v })

abbrev read_through : Option (List ℕ) → M Device (List ℕ)
read_through none = raise null_deref
read_through (some bytes) = pure bytes

abbrev element : Option ℕ → M Device ℕ
element none = raise out_of_bounds
element (some b) = pure b

-- guru_get_msg_data, for a caller that reads through the pointer.
abbrev pub guru_get_msg_data : M Device (List ℕ)
guru_get_msg_data = do d ← get; read_through d.guru.curr_msg_data

-- One byte of the message.
abbrev pub data_byte : ℕ → M Device ℕ
data_byte i = do bytes ← guru_get_msg_data; element (get_elem? bytes i)

abbrev pub guru_get_msg_data_size : M Device ℕ
guru_get_msg_data_size = do d ← get; pure d.guru.curr_msg_data_size

abbrev pub guru_get_msg_id : M Device ℕ
guru_get_msg_id = do d ← get; pure d.guru.curr_msg_id

unfoldable pub guru_add_msg : GuruMsg → M Device (Unit {0})
guru_add_msg msg =
    modify (λ d. record d { guru = record (d.guru) { msg_list = d.guru.msg_list ++ (msg ∷ []) } })

unfoldable pub guru_msg_std_init : M Device ℤ
unfolding guru_add_msg
guru_msg_std_init = do
  guru_add_msg (record {
    msg_id = guru_msg_get_version;
    data_count = 0;
    size_restriction = size_variable;
    callback = some msg_std_fw_version;
  })
  pure (pos 0)

abbrev pub guru_get_fw_ver : M Device ℤ
guru_get_fw_ver = guru_send_data guru_msg_get_version none 0

abbrev pub msg_str_size_max : ℕ
msg_str_size_max = 32

pub std_fw_version : M Device (Unit {0})
std_fw_version = do
  bytes ← guru_get_msg_data
  data_size ← guru_get_msg_data_size
  _ ← memcpy (replicate 32 0) bytes data_size
  run (log dev_info)

-- canguru_init_status_msg, with the callback that it names.
unfoldable pub init_status_msg : Callback → ℕ → M Device (Unit {0})
unfolding guru_add_msg
init_status_msg callback msg_id = guru_add_msg (record {
  msg_id = msg_id;
  data_count = 1;
  size_restriction = size_static;
  callback = some callback;
})

abbrev pub with_bus : Bus → ℕ → Option ℕ → Bus
with_bus bus iface_count meas_volt_dev = record bus {
  iface_count = iface_count;
  send_reply_list = [];
  meas_volt_dev = meas_volt_dev;
}

-- canguru_status_callback.
pub status_callback : M Device (Unit {0})
status_callback = do
  status ← data_byte 0
  _ ← guru_get_msg_id
  when (not (status == guru_status_done)) (run (log dev_warn))

-- list_del
unfoldable pub list_del : ℕ → List ℕ → List ℕ
list_del x [] = []
list_del x (y ∷ ys) = if x == y then ys else y ∷ list_del x ys

abbrev pub unlink_reply : ℕ → M Bus (Unit {0})
unlink_reply reply = modify (λ b. record b { send_reply_list = list_del reply b.send_reply_list })
