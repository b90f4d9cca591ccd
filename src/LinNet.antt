-- ===== src/LinNet.antt =====
-- linguru-net.c: the commands of a LIN channel, and the channel as a net device.
pub mod Frames
pub mod Lifecycle
use can_guru.Base.{
  ℕ, ◌+◌, ◌==◌, if◌then◌else◌, ℤ, pos, is_zero, Bool, true, false, not, none, some, List, [], ◌∷◌,
  replicate, set, bit_and, bit_or, drop, u8,
}
use can_guru.Kernel.Types.{
  CanFrame, can_rtr_flag, can_ctrlmode_listenonly, can_ctrlmode_cc_len8_dlc,
  can_termination_disabled, log, dev_info, dev_warn, dev_err, enomem, alloc_candev, register_candev,
  unregister_candev, free_candev, open_candev, close_candev, netif_start_queue, netif_stop_queue,
}
use can_guru.Kernel.{M, ◌>>=◌, ◌>>◌, pure, call, call_ptr, run, lib, memcpy, get, modify}
use can_guru.State.{NetDev, CanPriv, Bus, can_state_stopped}
use can_guru.Bus.{netdev_at, store_netdev}
use can_guru.MsgIds.{
  lin_msg_config_set, lin_msg_enable_set, lin_msg_master_enable_set, lin_msg_send, lin_msg_reset,
}
use can_guru.LinWire.{
  LinMsgHeader, LinMsgMaster, lin_msg_master_bytes, lin_master_header_size, lin_msg_header_size,
  LinEnableMsg, lin_enable_msg_bytes, LinConfMsg, lin_conf_msg_bytes, lin_mode_monitoring,
  lin_mode_master_user,
}
use can_guru.Send.{guru_send_data}
use can_guru.CanNet.{has_flag}
use can_guru.CanChannel.{no_bittiming, no_stats, candev_name, set_state_active, set_state_stopped}

abbrev pub lin_id_mask : ℕ
lin_id_mask = 0x3f

abbrev pub lin_enhanced_sum_flag : ℕ
lin_enhanced_sum_flag = 0x40

-- The other value is LINGURU_MASTER_ENABLED, the 1k pull-up of a master.
abbrev pub linguru_termination : List ℕ
linguru_termination = can_termination_disabled ∷ 1000 ∷ []

abbrev pub linguru_arb_bitrate : List ℕ
linguru_arb_bitrate = 9600 ∷ 19200 ∷ 20000 ∷ []

pub linguru_init_can_priv : CanPriv
linguru_init_can_priv = record {
  can_state = can_state_stopped;
  clock_freq = 0;
  termination_const = linguru_termination;
  bittiming_const = none;
  data_bittiming_const = none;
  bitrate_const = linguru_arb_bitrate;
  data_bitrate_const = [];
  ctrlmode_supported = bit_or can_ctrlmode_listenonly can_ctrlmode_cc_len8_dlc;
  ctrlmode = 0;
  bittiming = no_bittiming;
  data_bittiming = no_bittiming;
}

pub lin_header : ℕ → CanFrame → LinMsgHeader
lin_header dlc frame = record {
  id = bit_and frame.can_id lin_id_mask;
  remote_data = has_flag frame.can_id can_rtr_flag;
  enhanced_sum = has_flag frame.can_id lin_enhanced_sum_flag;
  data_len = u8 dlc;
}

module _ {S : Type 0} where
  pub linguru_set_lin_conf : LinConfMsg → M S ℤ
  linguru_set_lin_conf value = guru_send_data lin_msg_config_set (some (lin_conf_msg_bytes value)) 6

  pub linguru_lin_reset : NetDev → M S ℤ
  linguru_lin_reset priv = guru_send_data lin_msg_reset (some (u8 priv.channel_idx ∷ [])) 1

  pub linguru_set_lin_enable : NetDev → Bool → M S ℤ
  linguru_set_lin_enable priv enable = do
    let msg : LinEnableMsg = record { iface = priv.channel_idx; enable = enable }
    run (log dev_info)
    guru_send_data lin_msg_enable_set (some (lin_enable_msg_bytes msg)) 2

  pub linguru_set_lin_master : NetDev → Bool → M S ℤ
  linguru_set_lin_master priv enable =
      let msg : LinEnableMsg = record { iface = priv.channel_idx; enable = enable } in
      guru_send_data lin_msg_master_enable_set (some (lin_enable_msg_bytes msg)) 2

  pub linguru_set_termination : NetDev → ℕ → M S ℤ
  linguru_set_termination priv term = linguru_set_lin_master priv (not (term == 0))

  -- The mode that the stack asks for is ignored, and so is the bit timing: the bit rate is sent
  -- when the channel is opened.
  pub linguru_set_mode : NetDev → ℕ → M S ℤ
  linguru_set_mode priv mode = pure (pos 0)

  pub linguru_set_bittiming : NetDev → M S ℤ
  linguru_set_bittiming priv = pure (pos 0)

  pub linguru_lin_send : NetDev → CanFrame → M S ℤ
  unfolding lin_header
  linguru_lin_send priv frame = do
    can ← lib
    response ← memcpy (replicate 8 0) frame.body frame.len
    let msg : LinMsgMaster = record {
      iface = priv.channel_idx;
      delay = 0;
      header = lin_header (can.can_get_cc_dlc frame priv.can.ctrlmode) frame;
      response = response;
    }
    guru_send_data lin_msg_send (some (lin_msg_master_bytes msg))
        (lin_master_header_size + lin_msg_header_size + frame.len)

-- LIN_IFACE_NAME replaces the first three characters.
abbrev pub new_lin_channel : ℕ → ℕ → NetDev
new_lin_channel handle channel_idx = record {
  handle = handle;
  name = candev_name;
  can = linguru_init_can_priv;
  channel_idx = channel_idx;
  has_reply_callback = true;
  iff_echo = false;
  stats = no_stats;
}

register_lin_channel : ℕ → NetDev → M Bus ℤ
register_lin_channel idx netdev = do
  err ← linguru_lin_reset netdev
  if is_zero err
      then (do
        let named : NetDev = record netdev {
          name = b'l' ∷ b'i' ∷ b'n' ∷ drop 3 netdev.name;
          iff_echo = true;
        }
        err' ← call (register_candev netdev.handle)
        if is_zero err' then (do modify (store_netdev idx named); pure (pos 0)) else pure err')
      else pure err

pub linguru_net_create : ℕ → M Bus ℤ
unfolding register_lin_channel linguru_init_can_priv
linguru_net_create idx = do
  handle ← call_ptr alloc_candev
  if handle == 0
      then (do run (log dev_err); pure enomem)
      else register_lin_channel idx (new_lin_channel handle idx)

unfoldable pub linguru_net_destroy : ℕ → M Bus (Unit {0})
linguru_net_destroy idx = do
  netdev ← netdev_at idx
  run (unregister_candev netdev.handle)
  run (free_candev netdev.handle)
  modify (λ bus. record bus { netdevs = set bus.netdevs idx none })

pub lin_conf_of : NetDev → LinConfMsg
lin_conf_of priv = record {
  iface = priv.channel_idx;
  baudrate = priv.can.bittiming.bitrate;
  mode =
      if has_flag priv.can.ctrlmode can_ctrlmode_listenonly
      then lin_mode_monitoring
      else lin_mode_master_user;
}

start_lin_channel : NetDev → M NetDev ℤ
unfolding lin_conf_of
start_lin_channel priv = do
  err ← linguru_set_lin_conf (lin_conf_of priv)
  if is_zero err
      then (do
        run (log dev_info)
        modify set_state_active
        run (netif_start_queue priv.handle)
        _ ← linguru_set_lin_enable priv true
        pure (pos 0))
      else (do run (log dev_warn); pure err)

pub linguru_ops_open : M NetDev ℤ
unfolding start_lin_channel
linguru_ops_open = do
  priv ← get
  err ← call (open_candev priv.handle)
  if is_zero err then start_lin_channel priv else pure err

pub linguru_ops_close : M NetDev ℤ
linguru_ops_close = do
  priv ← get
  _ ← linguru_set_lin_enable priv false
  modify set_state_stopped
  run (netif_stop_queue priv.handle)
  run (close_candev priv.handle)
  pure (pos 0)
