-- ===== src/Dispatch.antt =====
-- guru-device.c: the bulk transfers, and the distribution of a received message to those who
-- registered for it.
pub mod Blocks
pub mod Delivery
pub mod Routing
pub mod Frames
pub mod Reading
pub mod Soundness
pub mod Transfer
use can_guru.Base.{ℕ, ◌==◌, leb, if◌then◌else◌, ℤ, pos, not, Option, none, some, List, [], ◌∷◌}
use can_guru.Kernel.Types.{log, dev_info, dev_warn}
use can_guru.Kernel.{M, ◌>>=◌, ◌>>◌, pure, raise, run, when, get, modify}
use can_guru.State.{
  Device, GuruMsg, Callback, size_static, size_variable, msg_std_fw_version, can_status, can_send,
  can_recv, lin_status, lin_send, lin_recv, lin_volt,
}
use can_guru.Kernel.Types.{dev_err, usb_free_coherent, usb_fill_bulk_urb, usb_submit_urb, rcvbulk}
use can_guru.Kernel.{call, no_fuel}
use can_guru.State.{GuruMsgSize}
use can_guru.Base.{
  Bool, true, false, ◌^◌, negsuc, is_zero, drop, take, length, suc, zero, u32, ◌-◌, ◌+◌, byte_at,
  from_le16, ◌||◌,
}
use can_guru.Send.{guru_data_size, guru_header_size, guru_max_data_size}
use can_guru.CanMessages.{can_send_callback, canguru_recv_callback}
use can_guru.LinMessages.{
  linguru_status_callback, lin_send_callback, linguru_recv_callback, linguru_volt_callback,
}
use can_guru.Messages.{std_fw_version, status_callback}

-- `item->callback(item->user_data)`
pub invoke : Callback → M Device (Unit {0})
invoke msg_std_fw_version = std_fw_version
invoke can_status = status_callback
invoke can_send = can_send_callback
invoke can_recv = canguru_recv_callback
invoke lin_status = linguru_status_callback
invoke lin_send = lin_send_callback
invoke lin_recv = linguru_recv_callback
invoke lin_volt = linguru_volt_callback

abbrev pub is_variable : GuruMsgSize → Bool
is_variable size_static = false
is_variable size_variable = true

abbrev pub run_callback : Option Callback → M Device (Unit {0})
run_callback none = pure tt
run_callback (some c) = invoke c

-- One turn of the loop over the registered messages.
pub deliver : ℕ → ℕ → GuruMsg → M Device (Unit {0})
deliver id data_count item =
    if not (item.msg_id == id)
    then pure tt
    else if item.data_count == data_count || is_variable item.size_restriction
    then run_callback item.callback
    else run (log dev_warn)

pub deliver_all : ℕ → ℕ → List GuruMsg → M Device (Unit {0})
deliver_all id data_count [] = pure tt
deliver_all id data_count (item ∷ items) = do
  deliver id data_count item
  deliver_all id data_count items

abbrev pub set_curr_msg : Option (List ℕ) → ℕ → ℕ → Device → Device
set_curr_msg bytes size id d = record d {
  guru = record (d.guru) { curr_msg_data = bytes; curr_msg_data_size = size; curr_msg_id = id };
}

-- The packet's header is five bytes: preamble, control, identifier and length.
abbrev pub packet_id : List ℕ → ℕ
packet_id msg = from_le16 (byte_at msg 2) (byte_at msg 3)

abbrev pub packet_data_count : List ℕ → ℕ
packet_data_count msg = byte_at msg 4

pub canguru_process_msg_list : List ℕ → M Device (Unit {0})
canguru_process_msg_list msg = do
  let id = packet_id msg
  let data_count = packet_data_count msg
  modify (set_curr_msg (some (take guru_max_data_size (drop guru_header_size msg))) data_count id)
  d ← get
  deliver_all id data_count d.guru.msg_list
  modify (set_curr_msg none 0 0)

-- `while ((length - pos) >= sizeof(struct guru_data))` in u32 arithmetic, with a bound on the
-- turns.
pub rx_loop : ℕ → List ℕ → ℕ → M Device (Unit {0})
rx_loop zero buffer at = raise no_fuel
rx_loop (suc fuel) buffer at =
    let turn = (do
      canguru_process_msg_list (take guru_data_size (drop at buffer))
      rx_loop fuel buffer (u32 (at + guru_data_size))) in
    if leb guru_data_size (u32 (length buffer + 2 ^ 32 - at)) then turn else pure tt

pub resubmit : ℕ → ℕ → M Device (Unit {0})
resubmit urb buf = do
  run (usb_fill_bulk_urb rcvbulk urb buf guru_data_size)
  err ← call (usb_submit_urb rcvbulk urb [])
  when (not (is_zero err)) (run (log dev_err))

-- -ENOENT, -EPIPE, -EPROTO and -ESHUTDOWN end the reception.
pub ends_reception : ℤ → Bool
ends_reception (pos n) = false
ends_reception (negsuc n) = n == 1 || n == 31 || n == 70 || n == 107

-- `buffer` is the transfer buffer, which has transfer_buffer_length bytes.
pub canguru_read_bulk_callback : ℕ → ℕ → ℤ → List ℕ → M Device (Unit {0})
canguru_read_bulk_callback urb buf status buffer =
    if is_zero status
    then (do rx_loop (suc (length buffer)) buffer 0; resubmit urb buf)
    else if ends_reception status
    then pure tt
    else (do run (log dev_info); resubmit urb buf)

-- Only -ENOENT gives the buffer back.
pub canguru_write_bulk_callback : ℕ → ℕ → ℤ → M Device (Unit {0})
canguru_write_bulk_callback buf size (pos n) = pure tt
canguru_write_bulk_callback buf size (negsuc n) = when (n == 1) (run (usb_free_coherent size buf))
