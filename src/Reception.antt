-- ===== src/Reception.antt =====
-- guru-device.c: the receive URBs of a new device, and its initialisation.
pub mod Accounting
pub mod Keeping
pub mod Quiet
use can_guru.Base.{
  ℕ, zero, suc, ◌==◌, ltb, if◌then◌else◌, ℤ, pos, is_zero, not, none, [], ◌∷◌, ◌++◌,
}
use can_guru.Kernel.Types.{
  log, dev_err, dev_warn, enobufs, usb_set_intfdata, init_usb_anchor, usb_alloc_urb, usb_free_urb,
  usb_alloc_coherent, usb_free_coherent, usb_fill_bulk_urb, usb_anchor_urb, usb_unanchor_urb,
  usb_submit_urb, rcvbulk, sndbulk,
}
use can_guru.Kernel.{M, ◌>>=◌, ◌>>◌, pure, call, call_ptr, run, when, modify}
use can_guru.State.{Device}
use can_guru.MsgIds.{guru_msg_get_version}
use can_guru.Send.{guru_send_data, guru_data_size}
use can_guru.Messages.{guru_msg_std_init, guru_get_fw_ver}

abbrev pub guru_max_urbs : ℕ
guru_max_urbs = 32

submit_rx : ℕ → ℕ → M Device ℤ
submit_rx urb buf = do
  run (usb_fill_bulk_urb rcvbulk urb buf guru_data_size)
  run (usb_anchor_urb rcvbulk urb)
  err ← call (usb_submit_urb rcvbulk urb [])
  if is_zero err
      then (do
        modify (λ d. record d { guru = record (d.guru) { rxbuf = d.guru.rxbuf ++ (buf ∷ []) } })
        run (usb_free_urb urb)
        pure (pos 0))
      else (do
        run (usb_unanchor_urb urb)
        run (usb_free_coherent guru_data_size buf)
        run (usb_free_urb urb)
        pure err)

-- One turn of the loop; an error breaks it.
pub rx_turn : M Device ℤ
unfolding submit_rx
rx_turn = do
  urb ← call_ptr usb_alloc_urb
  if urb == 0 then pure enobufs else (do
    buf ← call_ptr (usb_alloc_coherent guru_data_size)
    if buf == 0 then (do run (usb_free_urb urb); pure enobufs) else submit_rx urb buf)

-- The turns that are left, the turns made, and the index and the error that the loop ends with.
pub rx_turns : ℕ → ℕ → M Device (ℕ × ℤ)
unfolding rx_turn
rx_turns zero idx = pure (idx, pos 0)
rx_turns (suc left) idx = do
  err ← rx_turn
  let more = rx_turns left (suc idx)
  if is_zero err then more else pure (idx, err)

-- Behind the loop.
pub report_turns : ℕ × ℤ → M Device ℤ
report_turns (idx, err) = do
  if idx == 0 then run (log dev_err) else when (ltb idx guru_max_urbs) (run (log dev_warn))
  pure err

pub canguru_usb_rx_init : M Device ℤ
canguru_usb_rx_init = do r ← rx_turns guru_max_urbs 0; report_turns r

-- `self` is the pointer of the device structure.
pub guru_dev_init : ℕ → M Device ℤ
unfolding canguru_usb_rx_init
guru_dev_init self = do
  modify (λ d. record d { guru = record (d.guru) { msg_list = [] } })
  run (init_usb_anchor rcvbulk)
  run (init_usb_anchor sndbulk)
  run (usb_set_intfdata self)
  err ← canguru_usb_rx_init
  if is_zero err
      then (do
        err' ← guru_msg_std_init
        if is_zero err' then (do _ ← guru_get_fw_ver; pure (pos 0)) else pure err')
      else pure err
