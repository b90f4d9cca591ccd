-- ===== src/Examples.antt =====
-- A kernel that answers every call with success, and the data that the examples run on.
pub mod Sending
pub mod Receiving
pub mod Devices
pub mod Composition
pub mod Lifecycles
pub mod Plugging
pub mod Transfers
use can_guru.Base.{
  ℕ, ◌≡◌, ◌≤◌, refl, ◌==◌, leb, if◌then◌else◌, min, ℤ, pos, Bool, true, false, Option, none, some,
  List, [], ◌∷◌, replicate, length-replicate, arith,
}
use can_guru.Kernel.Types.{
  CanFrame, CanfdFrame, Call, Event, usb_alloc_urb, usb_alloc_coherent, alloc_can_skb,
  alloc_canfd_skb, alloc_candev, wait_for_completion_timeout, can_skb_get_frame_len,
  can_ctrlmode_fd, devm_kzalloc, iio_device_alloc, usb_string,
}
use can_guru.Kernel.{CanLib, IsCanLib, Kernel, IsKernel}
use can_guru.CanId.{CanId}
use can_guru.State.{NetDev, Bus, CanPriv, Bittiming, Stats, GuruDevice, Device, can_state_stopped}

-- The table of linux/can/length.h.
abbrev dlc2len : ℕ → ℕ
dlc2len dlc =
    if leb dlc 8
    then dlc
    else if dlc == 9
    then 12
    else if dlc == 10
    then 16
    else if dlc == 11
    then 20
    else if dlc == 12
    then 24
    else if dlc == 13
    then 32
    else if dlc == 14
    then 48
    else 64

abbrev len2dlc : ℕ → ℕ
len2dlc len =
    if leb len 8
    then len
    else if leb len 12
    then 9
    else if leb len 16
    then 10
    else if leb len 20
    then 11
    else if leb len 24
    then 12
    else if leb len 32
    then 13
    else if leb len 48
    then 14
    else 15

abbrev can_lib : CanLib
can_lib = record {
  can_fd_dlc2len = dlc2len;
  can_fd_len2dlc = len2dlc;
  can_cc_dlc2len = λ dlc. min dlc 8;
  can_get_cc_dlc = λ f _. f.len;
  can_frame_set_cc_len = λ f dlc _. record f { len = min dlc 8 };
}

abbrev grants : Call → ℤ
grants usb_alloc_urb = pos 1
grants (usb_alloc_coherent n) = pos 2
grants (alloc_can_skb dev) = pos 3
grants (alloc_canfd_skb dev) = pos 4
grants wait_for_completion_timeout = pos 5
grants (can_skb_get_frame_len skb) = pos 6
grants alloc_candev = pos 8
grants devm_kzalloc = pos 9
grants iio_device_alloc = pos 10
grants usb_string = pos 13
grants c = pos 0

abbrev pub kernel : Kernel
kernel = record {
  reply = λ _ c. grants c;
  out = λ _ _. 0;
  fresh = λ _ n. replicate n 0;
  can = can_lib;
}

dlc2len-max : (dlc : ℕ) → dlc2len dlc ≤ 64
dlc2len-max dlc = ground arith

len2dlc-max : (len : ℕ) → len2dlc len ≤ 15
len2dlc-max len = ground arith

len2dlc-covers : (len : ℕ) → len ≤ 64 → len ≤ dlc2len (len2dlc len)
len2dlc-covers len h = ground arith

pub kernel-IsKernel : IsKernel kernel
kernel-IsKernel = record {
  lib_lem = record {
    fd_dlc2len_max = dlc2len-max;
    fd_len2dlc_max = len2dlc-max;
    fd_len2dlc_covers = len2dlc-covers;
    cc_dlc2len_min = λ dlc. refl;
    cc_dlc_max = λ f mode h. omega arith;
    cc_dlc_len = λ f mode h. omega arith;
    set_cc_len_len = λ f dlc mode. refl;
    set_cc_len_id = λ f dlc mode. refl;
    set_cc_len_data = λ f dlc mode. refl;
  };
  length-fresh = λ _ n. length-replicate n 0;
}

abbrev pub channel : NetDev
channel = record {
  handle = 7;
  name = [];
  can = record {
    can_state = can_state_stopped;
    clock_freq = 80000000;
    termination_const = [];
    bittiming_const = none;
    data_bittiming_const = none;
    bitrate_const = [];
    data_bitrate_const = [];
    ctrlmode_supported = 0;
    ctrlmode = can_ctrlmode_fd;
    bittiming = record { bitrate = 500000; sample_point = 875; sjw = 1; brp = 0 };
    data_bittiming = record { bitrate = 2000000; sample_point = 750; sjw = 1; brp = 0 };
  };
  channel_idx = 0;
  has_reply_callback = true;
  iff_echo = true;
  stats = record {
    rx_packets = 0;
    rx_bytes = 0;
    tx_packets = 0;
    tx_bytes = 0;
    tx_errors = 0;
    tx_dropped = 0;
  };
}

abbrev pub bus : Bus
bus = record {
  iface_count = 1;
  netdevs = some channel ∷ [];
  send_reply_list = [];
  meas_volt_dev = none;
}

-- A standard data frame of two bytes, and an extended CAN FD frame of twelve.
abbrev pub standard_id : CanId
standard_id = record { extended = false; remote = false; base = 0x123 }

abbrev pub extended_id : CanId
extended_id = record { extended = true; remote = false; base = 0x12345 }

abbrev pub frame : CanFrame
frame = record { can_id = 0x123; len = 2; len8_dlc = 0; body = 1 ∷ 2 ∷ replicate 6 0 }

abbrev pub fd_frame : CanfdFrame
fd_frame = record { can_id = 0x80012345; len = 12; flags = 1; body = replicate 64 9 }

-- A packet for message 0x1 with two bytes of data.
abbrev pub version_text : List ℕ
version_text = 49 ∷ 46 ∷ []

abbrev pub device : Device
device = record {
  guru = record {
    curr_msg_data = some version_text;
    curr_msg_data_size = 2;
    curr_msg_id = 1;
    msg_list = [];
    rxbuf = [];
    dev_deinit = none;
  };
  can_bus = bus;
  lin_bus = bus;
  meas_volt_dev = none;
  volt = record { voltage = 0 };
  boot_state = record {
    boot = record { pointer = 1; minor_num = 0; serial_number = [] };
    guru_boot_table = some 4 ∷ none ∷ none ∷ [];
  };
}
