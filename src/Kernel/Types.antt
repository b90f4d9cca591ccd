-- ===== src/Kernel/Types.antt =====
-- Linux's own data that the driver handles, and the calls that the driver makes.
-- Numbers stand for pointers that the kernel handed out; the texts of log lines are left out.
use can_guru.Base.{ℕ, ℤ, negsuc, List}

-- struct can_frame and struct canfd_frame of linux/can.h.
pub record CanFrame : Type 0 where
  pub can_id : ℕ
  pub len : ℕ
  pub len8_dlc : ℕ
  pub body : List ℕ

pub record CanfdFrame : Type 0 where
  pub can_id : ℕ
  pub len : ℕ
  pub flags : ℕ
  pub body : List ℕ

-- A socket buffer holds one or the other.
pub data Skb : Type 0 where
  classic : CanFrame → Skb
  fd : CanfdFrame → Skb

-- Constants of linux/can.h, linux/can/netlink.h and the errno headers.
abbrev pub can_eff_flag : ℕ
can_eff_flag = 0x80000000

abbrev pub can_rtr_flag : ℕ
can_rtr_flag = 0x40000000

abbrev pub canfd_brs : ℕ
canfd_brs = 0x01

abbrev pub canfd_esi : ℕ
canfd_esi = 0x02

abbrev pub can_max_dlen : ℕ
can_max_dlen = 8

abbrev pub canfd_max_dlen : ℕ
canfd_max_dlen = 64

abbrev pub can_ctrlmode_listenonly : ℕ
can_ctrlmode_listenonly = 0x02

abbrev pub can_ctrlmode_fd : ℕ
can_ctrlmode_fd = 0x20

abbrev pub can_ctrlmode_cc_len8_dlc : ℕ
can_ctrlmode_cc_len8_dlc = 0x100

abbrev pub can_termination_disabled : ℕ
can_termination_disabled = 0

abbrev pub enoent : ℤ
enoent = negsuc 1

abbrev pub enomem : ℤ
enomem = negsuc 11

abbrev pub enodev : ℤ
enodev = negsuc 18

abbrev pub einval : ℤ
einval = negsuc 21

abbrev pub epipe : ℤ
epipe = negsuc 31

abbrev pub eproto : ℤ
eproto = negsuc 70

abbrev pub enobufs : ℤ
enobufs = negsuc 104

abbrev pub eshutdown : ℤ
eshutdown = negsuc 107

abbrev pub etimedout : ℤ
etimedout = negsuc 109

-- `rx_submitted` and `tx_submitted` with the bulk pipes that their URBs use.
pub data Pipe : Type 0 where
  rcvbulk sndbulk : Pipe

pub data Level : Type 0 where
  dev_info dev_warn dev_err : Level

-- A USB transfer is submitted with the bytes that its buffer holds then; `usb_fill_bulk_urb` names
-- the URB, its buffer and its length.
pub data Call : Type 0 where
  log : Level → Call
  -- USB core
  usb_set_intfdata : ℕ → Call
  usb_get_intfdata : Call
  init_usb_anchor : Pipe → Call
  usb_alloc_urb : Call
  usb_free_urb : ℕ → Call
  usb_alloc_coherent : ℕ → Call
  usb_free_coherent : ℕ → ℕ → Call
  usb_fill_bulk_urb : Pipe → ℕ → ℕ → ℕ → Call
  usb_anchor_urb : Pipe → ℕ → Call
  usb_unanchor_urb : ℕ → Call
  usb_submit_urb : Pipe → ℕ → List ℕ → Call
  usb_kill_anchored_urbs : Pipe → Call
  usb_register usb_deregister usb_string : Call
  -- CAN and network devices, by the pointer of the net device
  alloc_candev : Call
  register_candev unregister_candev free_candev open_candev close_candev : ℕ → Call
  netif_start_queue netif_stop_queue netif_wake_queue : ℕ → Call
  can_dropped_invalid_skb : Skb → Call
  can_skb_get_frame_len : Skb → Call
  can_put_echo_skb : ℕ → Skb → ℕ → Call
  can_get_echo_skb : ℕ → Call
  netdev_sent_queue : ℕ → ℕ → Call
  netdev_completed_queue : ℕ → ℕ → Call
  alloc_can_skb alloc_canfd_skb : ℕ → Call
  netif_rx : ℕ → Skb → ℕ → Call
  -- character device, class and module
  alloc_chrdev_region unregister_chrdev_region : Call
  cdev_init cdev_del : Call
  cdev_add : ℕ → Call
  device_create device_destroy : ℕ → Call
  simple_read_from_buffer : List ℕ → ℕ → ℕ → Call
  class_create class_unregister class_destroy : Call
  devm_kzalloc : Call
  -- voltage measurement
  iio_device_alloc : Call
  iio_device_register iio_device_unregister iio_device_free : ℕ → Call
  mutex_init mutex_lock mutex_unlock init_completion reinit_completion complete : Call
  wait_for_completion_timeout : Call

-- A call with its result, or one whose result is void or ignored.
pub data Event : Type 0 where
  answered : Call → ℤ → Event
  done : Call → Event
