-- ===== src/Voltage.antt =====
-- linguru-voltage.c: the LIN bus voltage as an IIO channel.
pub mod Creation
pub mod Reading
use can_guru.Base.{ℕ, ◌==◌, if◌then◌else◌, ℤ, pos, is_zero, Option, none, some, List, [], ◌∷◌}
use can_guru.Kernel.Types.{
  log, dev_warn, dev_err, enomem, einval, etimedout, iio_device_alloc, iio_device_register,
  iio_device_unregister, iio_device_free, mutex_init, mutex_lock, mutex_unlock, init_completion,
  reinit_completion, complete, wait_for_completion_timeout,
}
use can_guru.Kernel.{M, ◌>>=◌, ◌>>◌, pure, raise, call, call_ptr, run, get, modify, null_deref}
use can_guru.State.{VoltagePriv, Device}
use can_guru.MsgIds.{lin_msg_volt_get}
use can_guru.Send.{guru_send_data}

-- IIO_CHAN_INFO_RAW and IIO_VAL_INT of linux/iio.
abbrev pub iio_chan_info_raw : ℕ
iio_chan_info_raw = 0

abbrev pub iio_val_int : ℤ
iio_val_int = pos 1

pub linguru_volt_create : M Device ℤ
linguru_volt_create = do
  indio_dev ← call_ptr iio_device_alloc
  if indio_dev == 0 then (do run (log dev_err); pure enomem) else (do
    modify (λ d. record d { volt = record { voltage = 0 } })
    run mutex_init
    run init_completion
    err ← call (iio_device_register indio_dev)
    if is_zero err
        then (do modify (λ d. record d { meas_volt_dev = some indio_dev }); pure (pos 0))
        else pure err)

abbrev destroy_volt : Option ℕ → M Device (Unit {0})
destroy_volt none = raise null_deref
destroy_volt (some indio_dev) = do
  run (iio_device_unregister indio_dev)
  run (iio_device_free indio_dev)
  modify (λ d. record d { meas_volt_dev = none })

unfoldable pub linguru_volt_destroy : M Device (Unit {0})
linguru_volt_destroy = do d ← get; destroy_volt d.meas_volt_dev

unfoldable pub linguru_volt_reply : ℕ → M VoltagePriv (Unit {0})
linguru_volt_reply voltage = do modify (λ priv. record priv { voltage = voltage }); run complete

-- The answers that arrive while the reader sleeps, in order.
pub volt_replies : List ℕ → M VoltagePriv (Unit {0})
unfolding linguru_volt_reply
volt_replies [] = pure tt
volt_replies (v ∷ vs) = do linguru_volt_reply v; volt_replies vs

-- What the wait found; `*val` and `*val2` are set only on success.
finish_read : ℤ → M VoltagePriv (ℤ × Option (ℕ × ℕ))
finish_read timeout = do
  priv ← get
  if is_zero timeout
      then (do run (log dev_warn); run mutex_unlock; pure (etimedout, none))
      else (do run mutex_unlock; pure (iio_val_int, some (priv.voltage, 0)))

pub linguru_volt_read_raw : ℕ → List ℕ → M VoltagePriv (ℤ × Option (ℕ × ℕ))
unfolding finish_read
linguru_volt_read_raw mask arrivals =
    if mask == iio_chan_info_raw
    then (do
      run mutex_lock
      run reinit_completion
      err ← guru_send_data lin_msg_volt_get none 0
      if is_zero err
          then (do
            volt_replies arrivals
            timeout ← call wait_for_completion_timeout
            finish_read timeout)
          else (do run mutex_unlock; pure (err, none)))
    else pure (einval, none)
