-- ===== src/CanNet.antt =====
-- canguru-net.c: the commands that a CAN channel sends.
pub mod Commands
pub mod Frames
use can_guru.Base.{
  ℕ, ◌+◌, ◌/◌, ◌%◌, ◌==◌, if◌then◌else◌, ℤ, pos, is_zero, Bool, true, false, not, none, some, List,
  [], ◌∷◌, ◌++◌, replicate, bit_and, u8, u32,
}
use can_guru.Kernel.Types.{
  CanFrame, CanfdFrame, can_eff_flag, can_rtr_flag, canfd_brs, canfd_esi, can_ctrlmode_fd,
  can_ctrlmode_listenonly, log, dev_warn,
}
use can_guru.Kernel.{M, ◌>>=◌, ◌>>◌, pure, run, lib, memcpy, raise, div_by_zero}
use can_guru.State.{NetDev, CanPriv, Bittiming}
use can_guru.MsgIds.{
  can_msg_config_set, can_msg_timing_set, can_msg_enable_set, can_msg_ter_enable, can_msg_reset,
  can_msg_global_filter_set, can_msg_send,
}
use can_guru.CanWire.{
  CanMsgHeader, CanSendMsg, can_send_msg_bytes, can_send_header_size, CanEnableMsg,
  can_enable_msg_bytes, CanConfMsg, can_conf_msg_bytes, can_normal, can_bus_monitoring, CanTiming,
  CanTimingMsg, can_timing_msg_bytes, CanGlobalFilterMsg, can_global_filter_msg_bytes,
}
use can_guru.Send.{guru_send_data}

abbrev pub canguru_can_clk : ℕ
canguru_can_clk = 80000000

abbrev pub canguru_100us_to_1ns : ℕ
canguru_100us_to_1ns = 100000

abbrev pub can_std_id_mask : ℕ
can_std_id_mask = 0x7ff

abbrev pub can_ext_id_mask : ℕ
can_ext_id_mask = 0x1fffffff

-- `(word & flag) != 0`
abbrev pub has_flag : ℕ → ℕ → Bool
has_flag word flag = not (bit_and word flag == 0)

-- The header of `struct can_send_msg msg = {0}`.
abbrev pub empty_header : CanMsgHeader
empty_header = record {
  can_id = 0;
  can_dlc = 0;
  extended_id = false;
  remote_frame = false;
  esi = false;
  canfd = false;
  bitrate_switch = false;
  reserved = 0;
}

-- The identifier and its flags, as both send functions set them.
pub set_can_id : ℕ → CanMsgHeader → CanMsgHeader
set_can_id can_id header =
    let h = record header { remote_frame = has_flag can_id can_rtr_flag } in
    if has_flag can_id can_eff_flag
    then record h { extended_id = true; can_id = bit_and can_id can_ext_id_mask }
    else record h { can_id = bit_and can_id can_std_id_mask }

pub fd_header : ℕ → CanfdFrame → CanMsgHeader
fd_header dlc frame = set_can_id frame.can_id (record empty_header {
  canfd = true;
  esi = has_flag frame.flags canfd_esi;
  bitrate_switch = has_flag frame.flags canfd_brs;
  can_dlc = dlc % 16;
})

pub classic_header : ℕ → CanFrame → CanMsgHeader
classic_header dlc frame = set_can_id frame.can_id (record empty_header { can_dlc = dlc % 16 })

module _ {S : Type 0} where
  pub canguru_can_fd_send : NetDev → CanfdFrame → M S ℤ
  unfolding fd_header
  canguru_can_fd_send priv frame = do
    can ← lib
    body ← memcpy (replicate 64 0) frame.body frame.len
    let msg : CanSendMsg = record {
      iface = priv.channel_idx;
      can_header = fd_header (can.can_fd_len2dlc frame.len) frame;
      body = body;
    }
    guru_send_data can_msg_send (some (can_send_msg_bytes msg)) (can_send_header_size + frame.len)

  unfoldable pub canguru_can_classic_send : NetDev → CanFrame → M S ℤ
  unfolding classic_header
  canguru_can_classic_send priv frame = do
    can ← lib
    body ← memcpy (replicate 64 0) frame.body frame.len
    let msg : CanSendMsg = record {
      iface = priv.channel_idx;
      can_header = classic_header (can.can_get_cc_dlc frame priv.can.ctrlmode) frame;
      body = body;
    }
    guru_send_data can_msg_send (some (can_send_msg_bytes msg)) (can_send_header_size + frame.len)

  pub canguru_set_can_conf : CanConfMsg → M S ℤ
  canguru_set_can_conf value =
      guru_send_data can_msg_config_set (some (can_conf_msg_bytes value)) 11

  pub canguru_set_can_timing : CanTimingMsg → M S ℤ
  canguru_set_can_timing value =
      guru_send_data can_msg_timing_set (some (can_timing_msg_bytes value)) 25

  unfoldable pub canguru_set_can_enable : NetDev → Bool → M S ℤ
  canguru_set_can_enable priv enable =
      let msg : CanEnableMsg = record { iface = priv.channel_idx; enable = enable } in
      guru_send_data can_msg_enable_set (some (can_enable_msg_bytes msg)) 2

  pub canguru_set_can_ter : NetDev → Bool → M S ℤ
  canguru_set_can_ter priv enable =
      let msg : CanEnableMsg = record { iface = priv.channel_idx; enable = enable } in
      guru_send_data can_msg_ter_enable (some (can_enable_msg_bytes msg)) 2

  unfoldable pub canguru_can_reset : NetDev → M S ℤ
  canguru_can_reset priv = guru_send_data can_msg_reset (some (u8 priv.channel_idx ∷ [])) 1

  unfoldable pub canguru_set_global_filter : NetDev → M S ℤ
  canguru_set_global_filter priv = do
    let msg : CanGlobalFilterMsg = record {
      iface = priv.channel_idx;
      std_default_allow = true;
      ext_default_allow = true;
      std_remote_reject = false;
      ext_remote_reject = false;
    }
    guru_send_data can_msg_global_filter_set (some (can_global_filter_msg_bytes msg)) 5

  pub canguru_set_termination : NetDev → ℕ → M S ℤ
  canguru_set_termination priv term = canguru_set_can_ter priv (not (term == 0))

-- `idealTqNum`: u32 arithmetic, 0 where no bit rate is set; a prescaler that wraps to 0 divides.
module _ {S : Type 0} where
  pub ideal_tq_num : Bittiming → M S ℕ
  ideal_tq_num timing =
      if timing.bitrate == 0
      then pure 0
      else if u32 (timing.brp + 1) == 0
      then raise div_by_zero
      else pure (canguru_can_clk / u32 (timing.brp + 1) / timing.bitrate)

abbrev can_timing_of : Bittiming → ℕ → CanTiming
can_timing_of timing tq = record {
  sample_point = timing.sample_point;
  ideal_tq_num = tq;
  sync_jump_width = timing.sjw;
}

pub can_conf_of : NetDev → CanConfMsg
can_conf_of priv = record {
  iface = priv.channel_idx;
  baud_rate_a = priv.can.bittiming.bitrate;
  baud_rate_d = priv.can.data_bittiming.bitrate;
  can_fd_enable = has_flag priv.can.ctrlmode can_ctrlmode_fd;
  can_mode =
      if has_flag priv.can.ctrlmode can_ctrlmode_listenonly then can_bus_monitoring else can_normal;
}

pub can_timing_msg_of : NetDev → ℕ → ℕ → CanTimingMsg
can_timing_msg_of priv tq tq_data = record {
  iface = priv.channel_idx;
  timing_nominal = can_timing_of priv.can.bittiming tq;
  timing_data = can_timing_of priv.can.data_bittiming tq_data;
}

module _ {S : Type 0} where
  send_timing : CanTimingMsg → M S ℤ
  send_timing timing = do
    err ← canguru_set_can_timing timing
    if is_zero err then pure (pos 0) else (do run (log dev_warn); pure err)

  pub canguru_set_bittiming : NetDev → M S ℤ
  unfolding send_timing
  canguru_set_bittiming priv = do
    tq ← ideal_tq_num priv.can.bittiming
    tq_data ← ideal_tq_num priv.can.data_bittiming
    err ← canguru_set_can_conf (can_conf_of priv)
    if is_zero err
        then send_timing (can_timing_msg_of priv tq tq_data)
        else (do run (log dev_warn); pure err)

  -- The mode that the stack asks for is ignored.
  pub canguru_set_mode : NetDev → ℕ → M S ℤ
  canguru_set_mode priv mode = pure (pos 0)
