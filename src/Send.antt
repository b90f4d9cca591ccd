-- ===== src/Send.antt =====
-- guru-device.c, guru_send_data: one command to the device over the bulk OUT endpoint.
pub mod Outcome
use can_guru.Base.{
  ℕ, ◌+◌, ◌%◌, ◌/◌, ◌==◌, if◌then◌else◌, ℤ, pos, negsuc, is_zero, Bool, true, false, not, Option,
  none, some, List, [], ◌∷◌, ◌++◌, drop, le16, u8, u16,
}
use can_guru.Kernel.Types.{
  Call, log, dev_err, usb_alloc_urb, usb_free_urb, usb_alloc_coherent, usb_free_coherent,
  usb_fill_bulk_urb, usb_anchor_urb, usb_unanchor_urb, usb_submit_urb, sndbulk, enomem,
}
use can_guru.Kernel.{M, ◌>>=◌, ◌>>◌, pure, call, call_ptr, run, when, fresh_bytes, read_bytes}

abbrev pub guru_cmd_preamble : ℕ
guru_cmd_preamble = 0x58

abbrev pub guru_max_data_size : ℕ
guru_max_data_size = 123

-- sizeof(struct guru_msg_header) and sizeof(struct guru_data): both are packed.
abbrev pub guru_header_size : ℕ
guru_header_size = 5

abbrev pub guru_data_size : ℕ
guru_data_size = guru_header_size + guru_max_data_size

pub record GuruMsgHeader : Type 0 where
  pub preamble : ℕ
  pub ctrl : ℕ
  pub id : ℕ
  pub data_count : ℕ

abbrev pub header_bytes : GuruMsgHeader → List ℕ
header_bytes h = u8 h.preamble ∷ u8 h.ctrl ∷ le16 h.id ++ (u8 h.data_count ∷ [])

-- -ENOENT and -ENODEV: the driver or the device is gone, and nothing is logged.
abbrev is_gone : ℤ → Bool
is_gone (pos n) = false
is_gone (negsuc n) = if n == 1 then true else n == 18

module _ {S : Type 0} where
  -- The labels of the function, each falling through to the next.
  abbrev failed_urb : ℤ → M S ℤ
  failed_urb err = do when (not (is_gone err)) (run (log dev_err)); pure err

  abbrev failed_alloc : ℕ → ℤ → M S ℤ
  failed_alloc urb err = do run (usb_free_urb urb); failed_urb err

  abbrev failed : ℕ → ℕ → ℕ → ℤ → M S ℤ
  failed urb buf msg_size err = do
    run (usb_unanchor_urb urb)
    run (usb_free_coherent msg_size buf)
    failed_alloc urb err

  -- What stands behind the header: `data_len` bytes of `data`, or what the new buffer held.
  abbrev payload : Option (List ℕ) → ℕ → M S (List ℕ)
  payload none data_len = do
    stale ← fresh_bytes (guru_header_size + data_len)
    pure (drop guru_header_size stale)
  payload (some bytes) data_len = read_bytes bytes data_len

  abbrev submit_msg : ℕ → ℕ → ℕ → Option (List ℕ) → ℕ → M S ℤ
  submit_msg urb buf id bytes data_len = do
    let msg_size = guru_header_size + data_len
    let header : GuruMsgHeader = record {
      preamble = guru_cmd_preamble;
      ctrl = 0;
      id = id;
      data_count = data_len;
    }
    rest ← payload bytes data_len
    run (usb_fill_bulk_urb sndbulk urb buf msg_size)
    run (usb_anchor_urb sndbulk urb)
    err ← call (usb_submit_urb sndbulk urb (header_bytes header ++ rest))
    if is_zero err then (do run (usb_free_urb urb); pure (pos 0)) else failed urb buf msg_size err

  alloc_and_submit : ℕ → ℕ → Option (List ℕ) → ℕ → M S ℤ
  alloc_and_submit urb id bytes data_len = do
    buf ← call_ptr (usb_alloc_coherent (guru_header_size + data_len))
    if buf == 0
        then (do run (log dev_err); failed_alloc urb enomem)
        else submit_msg urb buf id bytes data_len

  -- `id` and `data_len` are converted to uint16_t and uint8_t by the call.
  unfoldable pub guru_send_data : ℕ → Option (List ℕ) → ℕ → M S ℤ
  unfolding alloc_and_submit
  guru_send_data id bytes data_len = do
    urb ← call_ptr usb_alloc_urb
    if urb == 0
        then (do run (log dev_err); failed_urb enomem)
        else alloc_and_submit urb (u16 id) bytes (u8 data_len)
