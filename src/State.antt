-- ===== src/State.antt =====
-- The driver's structures: guru-msg.h, guru-device.h, canguru-net.h, linguru-net.h,
-- canguru-msg-net.h, linguru-msg-net.h, linguru-voltage.h and guru-boot.h.
--
-- An array of net devices belongs to the device structure, and the message structure of its bus
-- points to it; here both stand in `Bus`. A function pointer is the name of its function, and its
-- user data is the structure that registers it. The pointer of a reply that waits is the index of
-- the net device that holds it.
use can_guru.Base.{ℕ, Bool, List, Option}

-- enum guru_msg_size
pub data GuruMsgSize : Type 0 where
  size_static size_variable : GuruMsgSize

-- The functions that a `struct guru_msg` names as its callback.
pub data Callback : Type 0 where
  msg_std_fw_version : Callback
  can_status can_send can_recv : Callback
  lin_status lin_send lin_recv lin_volt : Callback

pub record GuruMsg : Type 0 where
  pub msg_id : ℕ
  pub data_count : ℕ
  pub size_restriction : GuruMsgSize
  pub callback : Option Callback

-- enum guru_status: the values that the driver tells apart.
abbrev pub guru_status_done : ℕ
guru_status_done = 0

abbrev pub guru_status_error : ℕ
guru_status_error = 2

-- The three device types, for the function that `dev_deinit` points to.
pub data Kind : Type 0 where
  canguru linguru mbus : Kind

-- struct guru_device; `curr_msg_data` points behind the header of the packet that is being
-- processed, and `rxbuf` holds the entries that are set.
pub record GuruDevice : Type 0 where
  pub curr_msg_data : Option (List ℕ)
  pub curr_msg_data_size : ℕ
  pub curr_msg_id : ℕ
  pub msg_list : List GuruMsg
  pub rxbuf : List ℕ
  pub dev_deinit : Option Kind

-- enum can_state of linux/can/netlink.h: the two states that the driver sets.
pub data CanState : Type 0 where
  can_state_error_active can_state_stopped : CanState

-- struct can_bittiming, the fields that the driver reads.
pub record Bittiming : Type 0 where
  pub bitrate : ℕ
  pub sample_point : ℕ
  pub sjw : ℕ
  pub brp : ℕ

pub record BittimingConst : Type 0 where
  pub tseg1_min : ℕ
  pub tseg1_max : ℕ
  pub tseg2_min : ℕ
  pub tseg2_max : ℕ
  pub sjw_max : ℕ
  pub brp_min : ℕ
  pub brp_max : ℕ
  pub brp_inc : ℕ

-- struct can_priv, the fields that the driver sets or reads.
pub record CanPriv : Type 0 where
  pub can_state : CanState
  pub clock_freq : ℕ
  pub termination_const : List ℕ
  pub bittiming_const : Option BittimingConst
  pub data_bittiming_const : Option BittimingConst
  pub bitrate_const : List ℕ
  pub data_bitrate_const : List ℕ
  pub ctrlmode_supported : ℕ
  pub ctrlmode : ℕ
  pub bittiming : Bittiming
  pub data_bittiming : Bittiming

-- The counters of struct net_device_stats that the driver keeps.
pub record Stats : Type 0 where
  pub rx_packets : ℕ
  pub rx_bytes : ℕ
  pub tx_packets : ℕ
  pub tx_bytes : ℕ
  pub tx_errors : ℕ
  pub tx_dropped : ℕ

-- struct canguru_priv or linguru_priv, with the net device around it. `handle` is the pointer that
-- alloc_candev returned, and `name` its template for the interface's name.
pub record NetDev : Type 0 where
  pub handle : ℕ
  pub name : List ℕ
  pub can : CanPriv
  pub channel_idx : ℕ
  pub has_reply_callback : Bool
  pub iff_echo : Bool
  pub stats : Stats

-- struct canguru_msg_net or linguru_msg_net.
pub record Bus : Type 0 where
  pub iface_count : ℕ
  pub netdevs : List (Option NetDev)
  pub send_reply_list : List ℕ
  pub meas_volt_dev : Option ℕ

-- struct linguru_voltage_priv; its lock and completion are the kernel's.
pub record VoltagePriv : Type 0 where
  pub voltage : ℕ

-- struct guru_boot, and the table of all of them; a table entry is the owner's pointer.
pub record GuruBoot : Type 0 where
  pub pointer : ℕ
  pub minor_num : ℕ
  pub serial_number : List ℕ

pub record BootState : Type 0 where
  pub boot : GuruBoot
  pub guru_boot_table : List (Option ℕ)

-- struct canguru_device, linguru_device or mbus_device: the first has no LIN bus, the second no CAN
-- bus, and only the first has a boot device.
pub record Device : Type 0 where
  pub guru : GuruDevice
  pub can_bus : Bus
  pub lin_bus : Bus
  pub meas_volt_dev : Option ℕ
  pub volt : VoltagePriv
  pub boot_state : BootState
