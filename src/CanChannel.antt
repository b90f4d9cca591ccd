-- ===== src/CanChannel.antt =====
-- canguru-net.c: a CAN channel as a net device: creation, opening, closing and removal.
pub mod Creation
pub mod Lifecycle
pub mod Reopening
use can_guru.Base.{
  ℕ, ◌==◌, if◌then◌else◌, ℤ, pos, is_zero, true, false, none, some, List, [], ◌∷◌, set, bit_or,
}
use can_guru.Kernel.Types.{
  can_ctrlmode_fd, can_ctrlmode_listenonly, can_ctrlmode_cc_len8_dlc, can_termination_disabled, log,
  dev_err, enomem, alloc_candev, register_candev, unregister_candev, free_candev, open_candev,
  close_candev, netif_start_queue, netif_stop_queue,
}
use can_guru.Kernel.{M, ◌>>=◌, ◌>>◌, pure, call, call_ptr, run, get, modify}
use can_guru.State.{
  NetDev, CanPriv, Bittiming, BittimingConst, Stats, Bus, can_state_stopped, can_state_error_active,
}
use can_guru.Bus.{netdev_at, store_netdev}
use can_guru.CanNet.{
  canguru_can_clk, canguru_can_reset, canguru_set_global_filter, canguru_set_can_enable,
}

abbrev pub canguru_termination : List ℕ
canguru_termination = can_termination_disabled ∷ 120 ∷ []

abbrev pub canguru_arb_bitrate : List ℕ
canguru_arb_bitrate = 125000 ∷ 250000 ∷ 500000 ∷ 1000000 ∷ []

abbrev pub canguru_data_bitrate : List ℕ
canguru_data_bitrate = 125000 ∷ 250000 ∷ 500000 ∷ 1000000 ∷ 2000000 ∷ 4000000 ∷ 5000000 ∷ []

abbrev pub canguru_bittiming_arb : BittimingConst
canguru_bittiming_arb = record {
  tseg1_min = 2;
  tseg1_max = 256;
  tseg2_min = 2;
  tseg2_max = 128;
  sjw_max = 128;
  brp_min = 1;
  brp_max = 512;
  brp_inc = 1;
}

abbrev pub canguru_bittiming_data : BittimingConst
canguru_bittiming_data = record {
  tseg1_min = 1;
  tseg1_max = 32;
  tseg2_min = 1;
  tseg2_max = 16;
  sjw_max = 16;
  brp_min = 1;
  brp_max = 32;
  brp_inc = 1;
}

-- The name that alloc_candev gives: "can%d".
abbrev pub candev_name : List ℕ
candev_name = b'c' ∷ b'a' ∷ b'n' ∷ b'%' ∷ b'd' ∷ []

-- alloc_candev returns its private part zeroed.
abbrev pub no_bittiming : Bittiming
no_bittiming = record { bitrate = 0; sample_point = 0; sjw = 0; brp = 0 }

abbrev pub no_stats : Stats
no_stats = record {
  rx_packets = 0;
  rx_bytes = 0;
  tx_packets = 0;
  tx_bytes = 0;
  tx_errors = 0;
  tx_dropped = 0;
}

abbrev pub canguru_init_can_priv : CanPriv
canguru_init_can_priv = record {
  can_state = can_state_stopped;
  clock_freq = canguru_can_clk;
  termination_const = canguru_termination;
  bittiming_const = some canguru_bittiming_arb;
  data_bittiming_const = some canguru_bittiming_data;
  bitrate_const = canguru_arb_bitrate;
  data_bitrate_const = canguru_data_bitrate;
  ctrlmode_supported =
      bit_or (bit_or can_ctrlmode_listenonly can_ctrlmode_cc_len8_dlc) can_ctrlmode_fd;
  ctrlmode = 0;
  bittiming = no_bittiming;
  data_bittiming = no_bittiming;
}

abbrev pub new_channel : ℕ → ℕ → NetDev
new_channel handle channel_idx = record {
  handle = handle;
  name = candev_name;
  can = canguru_init_can_priv;
  channel_idx = channel_idx;
  has_reply_callback = true;
  iff_echo = false;
  stats = no_stats;
}

register_channel : ℕ → NetDev → M Bus ℤ
register_channel idx netdev = do
  err ← call (register_candev netdev.handle)
  if is_zero err
      then (do modify (store_netdev idx (record netdev { iff_echo = true })); pure (pos 0))
      else pure err

configure_channel : ℕ → NetDev → M Bus ℤ
unfolding register_channel
configure_channel idx netdev = do
  err ← canguru_can_reset netdev
  if is_zero err
      then (do
        err' ← canguru_set_global_filter netdev
        if is_zero err' then register_channel idx netdev else pure err')
      else pure err

-- `&self->netdev[idx]` is where the new device goes, and `idx` is also its channel.
pub canguru_net_create : ℕ → M Bus ℤ
unfolding configure_channel
canguru_net_create idx = do
  handle ← call_ptr alloc_candev
  if handle == 0
      then (do run (log dev_err); pure enomem)
      else configure_channel idx (new_channel handle idx)

unfoldable pub canguru_net_destroy : ℕ → M Bus (Unit {0})
canguru_net_destroy idx = do
  netdev ← netdev_at idx
  run (unregister_candev netdev.handle)
  run (free_candev netdev.handle)
  modify (λ bus. record bus { netdevs = set bus.netdevs idx none })

abbrev pub set_state_stopped : NetDev → NetDev
set_state_stopped d = record d { can = record (d.can) { can_state = can_state_stopped } }

abbrev pub set_state_active : NetDev → NetDev
set_state_active d = record d { can = record (d.can) { can_state = can_state_error_active } }

pub canguru_ops_open : M NetDev ℤ
canguru_ops_open = do
  priv ← get
  err ← call (open_candev priv.handle)
  if is_zero err
      then (do
        modify set_state_active
        run (netif_start_queue priv.handle)
        _ ← canguru_set_can_enable priv true
        pure (pos 0))
      else pure err

pub canguru_ops_close : M NetDev ℤ
canguru_ops_close = do
  priv ← get
  _ ← canguru_set_can_enable priv false
  modify set_state_stopped
  run (netif_stop_queue priv.handle)
  run (close_candev priv.handle)
  pure (pos 0)
